-- ===== src/Redeem.antt =====
-- GET /launch/redeem: packages/control-plane/src/routes/redeem.ts.
pub mod Gateway
pub mod Guards
pub mod Resumed
pub mod Seats
pub mod Attached
use Prim.Native.Char.{code}
use labforge.Base.{
  ℕ, ◌*◌, String, ◌<>◌, Bool, true, false, Option, none, some, List, [], ◌∷◌, ◌==◌, ◌&&◌, not,
  if◌then◌else◌, leb, num_eq, text_option_eq,
}
use labforge.Base.Texts.{fits}
use labforge.Exec.{
  Result, ok, err, row_not_found, or_fail, pure, gets, lift, attempt, try_catch, ◌>>=◌, ◌>>◌,
}
use labforge.Data.{Launch, Template, Instance, Spec, UsageEvent, launch_redeemed, no_payload}
use labforge.World.{M, World, Env}
use labforge.Store.{now, find_launch, update_launch, emit_usage}
use labforge.Web.{Web, Claims, Reply, refuse, refuse_with, answer}
use labforge.Tokens.{Signed, SessionPayload, verify_launch_token, sign_session_token}
use labforge.Nodes.Runtimes.{truthy}
use labforge.Orchestrator.Viewer.{resolve_viewer, is_guacamole}
use labforge.Orchestrator.Hosts.{runtime_for}
use labforge.Orchestrator.Lifecycle.{resume_instance, wait_until_ready}
use labforge.Orchestrator.Acquire.{acquire_instance}
use labforge.Launches.Prepare.{Included, include, alive, acquire_input, upstream_scheme, sleeps}
use labforge.Redeem.Gateway.{gateway_url, instance_url}

-- The session cookie: `Secure`, `HttpOnly` and `SameSite=None` are constants of the code.
pub record Cookie : Type 0 where
  pub session : SessionPayload
  pub token : String
  pub domain : String
  pub expires_at : ℕ

-- Where the browser is sent.
pub data Redeemed : Type 0 where
  warming_page : (template_name : String) → Redeemed
  to_gateway : (url : String) → Redeemed
  to_lab : (url : String) → Cookie → Redeemed

-- The text after the first dot.
unfoldable pub after_dot : String → Option String
after_dot String.[] = none
after_dot (String.◌∷◌ c s) = if num_eq (code c) b'.' then some s else after_dot s

abbrev pub dotted : String → Option String → String
dotted domain none = domain
dotted domain (some rest) = "." <> rest

unfoldable pub parent_domain : String → String
unfolding after_dot
parent_domain domain = dotted domain (after_dot domain)

-- The query that the viewer of the runtime reads.
unfoldable pub viewer_query : Option String → String
viewer_query kind =
    if text_option_eq kind (some "linux-desktop")
    then desktop_query
    else if text_option_eq kind (some "windows-desktop")
    then desktop_query
    else if text_option_eq kind (some "vm")
    then "/?autoconnect=1&resize=scale&quality=7&compression=2&show_dot=1"
    else ""
  where
    desktop_query : String
    desktop_query =
        "/?resize=remote&view_only=0&prefer_local_cursor=true&enable_webp=true&dynamic_quality_min=6&dynamic_quality_max=9&framerate=30&idle_disconnect=false"

-- `parsedSpec.success && resolveViewer(parsedSpec.data) === 'guacamole-rdp'`
unfoldable pub shows_rdp : Option Spec → Bool
shows_rdp none = false
shows_rdp (some spec) = is_guacamole (resolve_viewer spec)

abbrev pub lab_cookie : Env → SessionPayload → Signed → Cookie
lab_cookie env p signed = record {
  session = p;
  token = signed.token;
  domain = parent_domain env.config.public_lab_domain;
  expires_at = signed.expires_at;
}

-- The reply where no gateway link was made.
unfoldable pub or_lab :
    Env → Web → Template → Instance → SessionPayload → Signed → Option String → M (Reply Redeemed)
or_lab env web t i p signed (some url) = pure (answer (to_gateway url))
or_lab env web t i p signed none = pure (
    answer (
      to_lab (instance_url env web i.subdomain <> viewer_query (web.text_field t.spec "runtime"))
        (lab_cookie env p signed)))

abbrev pub session_of : Launch → Instance → SessionPayload
session_of l i = record { sub = i.id; tenant_id = l.tenant_id; user_id_hash = l.user_id_hash }

-- A failure of the gateway is logged.
unfoldable pub gateway_link : Env → Web → Instance → Bool → M (Option String)
gateway_link env web i false = pure none
gateway_link env web i true = try_catch (gateway_url env web i) (λ _. pure none)

unfoldable pub open_session : Env → Web → Launch → Template → Instance → M (Reply Redeemed)
open_session env web l t i = do
  signed ← sign_session_token env web (session_of l i)
  link ← gateway_link env web i (shows_rdp (env.parse_spec t.spec))
  or_lab env web t i (session_of l i) signed link

unfoldable pub open_if_ready : Env → Web → Launch → Template → Instance → Bool → M (Reply Redeemed)
open_if_ready env web l t i false = pure (answer (warming_page t.name))
open_if_ready env web l t i true = open_session env web l t i

abbrev pub wait_ms : Env → ℕ
wait_ms env = env.config.resume_wait_timeout_seconds * 1000

unfoldable pub await_lab :
    Env → Web → Launch → Template → Instance → Option String → Option String → M (Reply Redeemed)
await_lab env web l t i (some runtime_id) (some upstream) =
    if shows_rdp (env.parse_spec t.spec) then open_session env web l t i else (do
      runtime ← runtime_for env i.node_id
      b ← wait_until_ready env runtime runtime_id upstream (wait_ms env) (upstream_scheme web t)
      open_if_ready env web l t i b)
await_lab env web l t i _ _ = open_session env web l t i

unfoldable pub open_resumed : Env → Web → Launch → Template → Result Instance → M (Reply Redeemed)
open_resumed env web l t (err e) = pure (refuse_with 503 "resume_failed" (env.error_text e))
open_resumed env web l t (ok i) = open_session env web l t i

unfoldable pub serve : Env → Web → Launch → Template → Instance → M (Reply Redeemed)
serve env web l t i =
    if sleeps i
    then (do r ← attempt (resume_instance env i.id (wait_ms env)); open_resumed env web l t r)
    else await_lab env web l t i (truthy i.runtime_id) (truthy i.upstream)

abbrev pub redeemed_event : Launch → String → ℕ → UsageEvent
redeemed_event l instance_id t = record {
  tenant_id = l.tenant_id;
  kind = launch_redeemed;
  launch_id = some l.id;
  instance_id = some instance_id;
  template_id = some l.template_id;
  user_id_hash = some l.user_id_hash;
  payload = no_payload;
  occurred_at = t;
}

abbrev pub set_redeemed : ℕ → Launch → Launch
set_redeemed t l = record l { redeemed_at = some t }

abbrev pub set_attached : String → ℕ → Launch → Launch
set_attached instance_id t l = record l { instance_id = some instance_id; redeemed_at = some t }

-- A launch whose instance is alive: the first redemption is stamped.
unfoldable pub stamp : Env → Launch → Instance → Option ℕ → M (Unit {0})
stamp env l i (some t) = pure tt
stamp env l i none = do
  t ← now env
  update_launch l.id (set_redeemed t)
  emit_usage env (redeemed_event l i.id)

-- A new instance is attached; the first redemption is stamped, later ones keep their time.
unfoldable pub attach : Env → Launch → Instance → Option ℕ → M (Unit {0})
attach env l i (some t) = do update_launch l.id (set_attached i.id t); pure tt
attach env l i none = do
  t ← now env
  update_launch l.id (set_attached i.id t)
  emit_usage env (redeemed_event l i.id)

unfoldable pub redeem_acquired :
    Env → Web → Launch → Template → Result Instance → M (Reply Redeemed)
redeem_acquired env web l t (err e) = pure (refuse_with 500 "provision_failed" (env.error_text e))
redeem_acquired env web l t (ok i) = do attach env l i l.redeemed_at; serve env web l t i

unfoldable pub redeem_lab : Env → Web → Launch → Template → Option Instance → M (Reply Redeemed)
redeem_lab env web l t (some i) = do stamp env l i l.redeemed_at; serve env web l t i
redeem_lab env web l t none = do
  r ← attempt (acquire_instance env (acquire_input l t))
  redeem_acquired env web l t r

unfoldable pub redeem_current : Env → Web → Launch → Included → M (Reply Redeemed)
redeem_current env web l found = do
  template ← lift (or_fail row_not_found found.template)
  redeem_lab env web l template (alive found.instance)

-- `launch.tokenJti !== claims.jti`, where a launch without a token matches no claim.
abbrev pub is_current : Option String → Option String → Bool
is_current (some a) (some b) = a == b
is_current _ _ = false

unfoldable pub redeem_at : Env → Web → Launch → Included → ℕ → M (Reply Redeemed)
redeem_at env web l found t =
    if leb l.expires_at t
    then pure (refuse 401 "launch_expired")
    else redeem_current env web l found

unfoldable pub redeem_found : Env → Web → Claims → Launch → Included → M (Reply Redeemed)
redeem_found env web claims l found =
    if is_current l.token_jti claims.jti
    then (do t ← now env; redeem_at env web l found t)
    else pure (refuse 401 "token_revoked")

unfoldable pub redeem_row : Env → Web → Claims → Option Launch → M (Reply Redeemed)
redeem_row env web claims none = pure (refuse 404 "launch_not_found")
redeem_row env web claims (some l) = do
  found ← gets (include l)
  redeem_found env web claims l found

unfoldable pub redeem_verified : Env → Web → Result Claims → M (Reply Redeemed)
redeem_verified env web (err e) = pure (refuse_with 401 "invalid_token" (env.error_text e))
redeem_verified env web (ok claims) = do row ← find_launch claims.sub; redeem_row env web claims row

-- `z.string().min(10)`: a text of nine characters or fewer is no token.
unfoldable pub redeem : Env → Web → Option String → M (Reply Redeemed)
unfolding fits
redeem env web none = pure (refuse 400 "missing_token")
redeem env web (some token) =
    if fits 9 token
    then pure (refuse 400 "missing_token")
    else (do claims ← attempt (verify_launch_token env web token); redeem_verified env web claims)
