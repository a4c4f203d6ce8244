-- ===== src/Orchestrator/Provision.antt =====
-- `provisionNew`: choose a node, create the row, start the container, and record the result.
pub mod Quiet
pub mod Outcome
pub mod Landing
use labforge.Base.{
  ℕ, String, ◌<>◌, Bool, true, false, Option, none, some, List, [], ◌∷◌, ◌==◌, ◌&&◌, ◌||◌, not,
  if◌then◌else◌, filter, find, leb, map, or_else, text_option_eq,
}
use labforge.Base.Texts.{strip_trailing_slashes}
use labforge.Exec.{Error, invalid_spec, or_fail, pure, raise, lift, gets, try_catch, ◌>>=◌, ◌>>◌}
use labforge.Data.{
  Instance, Node, Template, Spec, VolumeMount, HostBindMount, ProvisionRequest, ProvisionResult,
  provisioning, ready, failed, instance_ready,
}
use labforge.World.{
  M, World, Env, Runtime, on_runtime, provision, volume_exists, destroy, create_overlay,
  wait_for_rdp,
}
use labforge.Store.{ask, now, fresh, find_instance, create_instance, update_instance, emit_usage}
use labforge.Guacamole.{ensure_guacamole_credentials, regenerate_mapping}
use labforge.Nodes.Runtimes.{get_node_runtime, truthy}
use labforge.Nodes.Pick.{sort_by}
use labforge.Nodes.Resolve.{resolve_node_for_provision}
use labforge.Orchestrator.Viewer.{
  resolve_viewer, is_guacamole, effective_persist_paths, compute_volume_name,
}
use labforge.Orchestrator.Hosts.{runtime_of_node, rm_overlay_dir}
use labforge.Orchestrator.Sync.{nonzero}
use labforge.Orchestrator.Lifecycle.{about_instance}
use labforge.Orchestrator.Destroy.{best_effort}

pub record ProvisionInput : Type 0 where
  pub tenant_id : String
  pub template : Template
  pub user_id_hash : Option String
  pub expires_at : ℕ
  pub is_prewarm : Bool
  pub node_ids : List String

-- `!input.isPrewarm && input.userIdHash && !isLinkedClone`
abbrev pub volume_for : Env → String → Bool → Option String → Option String → Option String
volume_for env template_id false (some user) none = some (compute_volume_name env user template_id)
volume_for env template_id _ _ _ = none

unfoldable pub volume_of : Env → ProvisionInput → Spec → Option String
unfolding compute_volume_name
volume_of env input spec =
    volume_for env input.template.id input.is_prewarm (truthy input.user_id_hash)
      (truthy spec.vm_golden_image)

abbrev pub mounts : Option String → List String → List VolumeMount
mounts none paths = []
mounts (some name) paths = map (λ path. record { name = name; container_path = path }) paths

-- `orderBy: [{ isDefault: 'desc' }, { name: 'asc' }]`
unfoldable pub default_first : Env → Node → Node → Bool
default_first env a b =
    if a.is_default
    then (not b.is_default || env.collate a.name b.name)
    else (not b.is_default && env.collate a.name b.name)

-- Ask every candidate for the volume; one that cannot answer counts as not holding it.
unfoldable pub probe_holders : Env → String → List Node → M (List Node)
probe_holders env volume [] = pure []
probe_holders env volume (n ∷ ns) = do
  has ←
      try_catch
        (do
          rt ← get_node_runtime env (some n)
          ask env.bool_answer (on_runtime rt (volume_exists volume)))
        (λ _. pure false)
  rest ← probe_holders env volume ns
  pure (if has then n ∷ rest else rest)

-- `orderBy: { createdAt: 'desc' }`, the first row.
unfoldable pub newest : List Instance → Option Instance
newest [] = none
newest (r ∷ rs) = elim (newest rs) [
  | none ↦ some r
  | some s ↦ if leb s.created_at r.created_at then some r else some s
]

abbrev pub is_prior : ProvisionInput → String → Instance → Bool
is_prior input volume i =
    i.template_id == input.template.id
    && (text_option_eq i.user_id_hash input.user_id_hash
        && (text_option_eq i.volume_name (some volume) && not (text_option_eq i.node_id none)))

abbrev pub node_of_prior : Option Instance → Option String
node_of_prior none = none
node_of_prior (some i) = i.node_id

-- `holders.find((h) => h.id === prior?.nodeId) ?? holders[0]`
unfoldable pub choose_holder : ProvisionInput → String → List Node → World → Option Node
unfolding newest
choose_holder input volume [] w = none
choose_holder input volume (h ∷ []) w = some h
choose_holder input volume (h ∷ k ∷ hs) w =
    let prior = node_of_prior (newest (filter (is_prior input volume) w.instances)) in
    some (or_else (find (λ (n : Node). text_option_eq (some n.id) prior) (h ∷ k ∷ hs)) h)

unfoldable pub sticky_node : Env → ProvisionInput → Option String → M (Option Node)
sticky_node env input none = pure none
sticky_node env input (some volume) = do
  nodes ← gets (λ w. sort_by (default_first env) (filter (λ (n : Node). n.enabled) w.nodes))
  holders ← probe_holders env volume nodes
  gets (choose_holder input volume holders)

unfoldable pub or_resolve : Env → ProvisionInput → Option Node → M (Option Node)
or_resolve env input (some n) = pure (some n)
or_resolve env input none =
    resolve_node_for_provision env input.tenant_id input.template.id input.node_ids

unfoldable pub choose_node : Env → ProvisionInput → Option String → M (Option Node)
choose_node env input volume = do sticky ← sticky_node env input volume; or_resolve env input sticky

abbrev pub id_of_node : Option Node → Option String
id_of_node none = none
id_of_node (some n) = some n.id

-- The row that `prisma.labInstance.create` writes, with the defaults of the schema.
abbrev pub new_row :
    ProvisionInput → (id subdomain : String) → Option String → Option Node → ℕ → Instance
new_row input id subdomain volume node t = record {
  id = id;
  tenant_id = input.tenant_id;
  template_id = input.template.id;
  node_id = id_of_node node;
  status = provisioning;
  is_prewarm = input.is_prewarm;
  runtime_id = none;
  host_port = none;
  upstream = none;
  subdomain = subdomain;
  user_id_hash = input.user_id_hash;
  last_seen_at = none;
  last_activity_at = none;
  volume_name = volume;
  vm_overlay_path = none;
  rdp_host_port = none;
  guacamole_user = none;
  guacamole_password = none;
  suspended_at = none;
  created_at = t;
  expires_at = input.expires_at;
  terminated_at = none;
}

-- The linked-clone branch: the overlay, its two binds, and the path on the row.
unfoldable pub prepare_overlay :
    Env → Option Node → Spec → String → Option String → M (Option (List HostBindMount))
prepare_overlay env _ spec id none = pure none
prepare_overlay env node spec id (some golden) = do
  let dir = strip_trailing_slashes spec.vm_storage_host_base <> ("/" <> id)
  ask env.unit_answer (create_overlay node dir golden spec.vm_overlay_size)
  update_instance id (λ r. record r { vm_overlay_path = some dir })
  pure (
      some (
        record { host_path = dir; container_path = "/storage"; read_only = false }
        ∷ record { host_path = golden; container_path = golden; read_only = true }
        ∷ []))

-- `extraHostPorts?.[spec.rdpContainerPort] ?? null`, for a Guacamole template only.
abbrev pub extra_port : Bool → ℕ → Option (ℕ → Option ℕ) → Option ℕ
extra_port true port (some m) = m port
extra_port _ port _ = none

-- Wait until the RDP server of the VM answers.
unfoldable pub await_rdp : Env → Option Node → Option ℕ → M (Unit {0})
await_rdp env _ none = pure tt
await_rdp env node (some port) = ask env.unit_answer (wait_for_rdp node "127.0.0.1" port 360000)

abbrev pub set_provisioned : ProvisionResult → Option ℕ → Option Node → ℕ → Instance → Instance
set_provisioned res rdp node t r = record r {
  runtime_id = some res.runtime_id;
  upstream = some res.upstream;
  host_port = res.host_port;
  rdp_host_port = rdp;
  node_id = id_of_node node;
  status = ready;
  last_activity_at = some t;
}

-- The best-effort credentials and mapping of a Guacamole lab.
unfoldable pub sync_guacamole : Env → Bool → String → Option ℕ → M (Unit {0})
sync_guacamole env false id (some port) =
    best_effort (do ensure_guacamole_credentials env id; regenerate_mapping env)
sync_guacamole env _ id _ = pure tt

abbrev pub announce : Env → Bool → Instance → M (Unit {0})
announce env true inst = pure tt
announce env false inst = emit_usage env (about_instance instance_ready inst)

-- The request that the runtime gets.
abbrev pub request_for :
    ProvisionInput
    → Spec
    → (id subdomain : String) → Option String
    → Option (List HostBindMount)
    → ProvisionRequest
request_for input spec id subdomain volume binds = record {
  instance_id = id;
  subdomain = subdomain;
  spec = spec;
  user_id_hash = input.user_id_hash;
  volumes = mounts volume (effective_persist_paths spec);
  bind_mounts = binds;
  extra_port_bindings =
      if is_guacamole (resolve_viewer spec) then some (spec.rdp_container_port ∷ []) else none;
  label_tenant = input.tenant_id;
  label_template = input.template.id;
}

-- What follows the probe of the RDP server: the row is written, and nothing here throws.
unfoldable pub record_lab :
    Env → ProvisionInput → Option Node → String → ProvisionResult → Option ℕ → M Instance
record_lab env input node id res rdp = do
  t ← now env
  updated ← update_instance id (set_provisioned res rdp node t)
  sync_guacamole env input.is_prewarm updated.id (nonzero rdp)
  announce env input.is_prewarm updated
  pure updated

-- The `try` block after the row is created.
unfoldable pub start_lab :
    Env → ProvisionInput → Spec → String → Option String → Option Node → Instance → M Instance
start_lab env input spec subdomain volume node inst = do
  binds ← prepare_overlay env node spec inst.id (truthy spec.vm_golden_image)
  runtime ← runtime_of_node env node
  res ←
      ask env.provision_answer
        (on_runtime runtime (provision (request_for input spec inst.id subdomain volume binds)))
  let rdp =
      extra_port (is_guacamole (resolve_viewer spec)) spec.rdp_container_port res.extra_host_ports
  await_rdp env node (nonzero rdp)
  record_lab env input node inst.id res rdp

-- The clean-up after a failed start, as far as the row tells what there is.
unfoldable pub destroy_recorded : Env → Runtime → Option String → M (Unit {0})
destroy_recorded env runtime none = pure tt
destroy_recorded env runtime (some id) = ask env.unit_answer (on_runtime runtime (destroy id))

unfoldable pub remove_recorded : Env → Option Node → Option String → M (Unit {0})
remove_recorded env _ none = pure tt
remove_recorded env node (some dir) = rm_overlay_dir env node dir

unfoldable pub clean_row : Env → Option Node → Runtime → Option Instance → M (Unit {0})
clean_row env _ runtime none = pure tt
clean_row env node runtime (some cur) = do
  destroy_recorded env runtime (truthy cur.runtime_id)
  remove_recorded env node (truthy cur.vm_overlay_path)

abbrev pub set_failed : Instance → Instance
set_failed r = record r { status = failed }

-- The `catch` block: the row is marked, and the first error is thrown again.
unfoldable pub abandon : Env → Option Node → String → Error → M Instance
abandon env node id e = do
  best_effort (do
    runtime ← runtime_of_node env node
    cur ← find_instance id
    clean_row env node runtime cur)
  update_instance id set_failed
  raise e

unfoldable pub provision_new : Env → ProvisionInput → M Instance
provision_new env input = do
  spec ← lift (or_fail invalid_spec (env.parse_spec input.template.spec))
  subdomain ← fresh env
  let volume = volume_of env input spec
  node ← choose_node env input volume
  id ← fresh env
  t ← now env
  inst ← create_instance (new_row input id subdomain volume node t)
  try_catch (start_lab env input spec subdomain volume node inst) (abandon env node inst.id)
