-- ===== src/Orchestrator/Viewer.antt =====
-- What the orchestrator reads off a template's spec: `resolveViewer`, `safeParseSpec`,
-- `effectivePersistPaths` and `computeVolumeName`.
use Prim.Native.Char.{code}
use labforge.Base.{
  ℕ, String, ◌<>◌, Bool, true, false, Option, none, some, List, [], ◌∷◌, ◌==◌, ◌&&◌, ◌||◌,
  if◌then◌else◌, leb,
}
use labforge.Base.Texts.{take_chars}
use labforge.Data.{Spec, Template, Viewer, auto, native_http, novnc, guacamole_rdp, RuntimeKind, vm}
use labforge.World.{Env}
use labforge.Nodes.Runtimes.{truthy}

-- `spec.rdpUsername && spec.rdpUsername.length > 0`
abbrev pub vm_viewer : Option String → Viewer
vm_viewer none = novnc
vm_viewer (some user) = guacamole_rdp

abbrev pub auto_viewer : RuntimeKind → Option String → Viewer
auto_viewer vm user = vm_viewer user
auto_viewer _ user = native_http

abbrev pub explicit_viewer : Viewer → RuntimeKind → Option String → Viewer
explicit_viewer auto kind user = auto_viewer kind user
explicit_viewer v kind user = v

-- The result is never `auto`.
unfoldable pub resolve_viewer : Spec → Viewer
resolve_viewer spec = explicit_viewer spec.viewer spec.runtime (truthy spec.rdp_username)

abbrev pub is_guacamole : Viewer → Bool
is_guacamole guacamole_rdp = true
is_guacamole _ = false

unfoldable pub safe_parse_spec : Env → Option Template → Option Spec
safe_parse_spec env none = none
safe_parse_spec env (some t) = env.parse_spec t.spec

-- `parsedSpec?.port`
unfoldable pub primary_port : Option Spec → Option ℕ
primary_port none = none
primary_port (some spec) = some spec.port

-- The RDP port of a template whose labs are reached through Guacamole.
unfoldable pub rdp_port : Option Spec → Option ℕ
unfolding resolve_viewer
rdp_port none = none
rdp_port (some spec) =
    if is_guacamole (resolve_viewer spec) then some spec.rdp_container_port else none

unfoldable pub workspace_paths : String → List String
workspace_paths dir = if dir == "" then [] else dir ∷ []

unfoldable pub effective_persist_paths : Spec → List String
unfolding workspace_paths
effective_persist_paths spec = elim spec.persist_paths [
  | [] ↦ workspace_paths spec.workspace_dir
  | p ∷ ps ↦ p ∷ ps
]

unfoldable pub is_alnum : ℕ → Bool
is_alnum c = (leb b'a' c && leb c b'z') || (leb b'0' c && leb c b'9')

-- `s.replace(/[^a-z0-9]/g, '')`
unfoldable pub keep_alnum : String → String
unfolding is_alnum
keep_alnum String.[] = ""
keep_alnum (String.◌∷◌ c s) =
    let rest = keep_alnum s in if is_alnum (code c) then String.◌∷◌ c rest else rest

unfoldable pub compute_volume_name : Env → String → String → String
unfolding keep_alnum take_chars
compute_volume_name env user_id_hash template_id =
    "lf-data-"
    <> (keep_alnum (env.to_lower (take_chars 16 user_id_hash))
        <> ("-" <> take_chars 8 (env.sha1_hex template_id)))
