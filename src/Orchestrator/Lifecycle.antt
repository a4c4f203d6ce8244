-- ===== src/Orchestrator/Lifecycle.antt =====
-- `suspendInstance`, `resumeInstance`, `waitUntilReady`, `restartInstance`, `extendInstance` and
-- `getInstanceLogs`.
pub mod Waiting
pub mod Quiet
pub mod Resume
pub mod Outcome
use labforge.Base.{
  ℕ, zero, suc, ◌+◌, ◌/◌, String, Bool, true, false, Option, none, some, ◌&&◌, if◌then◌else◌, ltb,
  is_some,
}
use labforge.Exec.{row_not_found, no_runtime_id, or_fail, pure, lift, try_catch, ◌>>=◌, ◌>>◌}
use labforge.Data.{
  Instance, UsageKind, UsageEvent, instance_paused, instance_resumed, no_payload, Spec, Scheme,
  http, ready, paused,
}
use labforge.Data.Statuses.{is_stopped}
use labforge.World.{M, Env, Runtime, on_runtime, suspend, resume, restart, is_ready, logs, sleep}
use labforge.Store.{ask, now, find_instance, find_template, update_instance, emit_usage}
use labforge.Guacamole.{regenerate_mapping}
use labforge.Nodes.Runtimes.{truthy}
use labforge.Orchestrator.Viewer.{safe_parse_spec, primary_port, rdp_port}
use labforge.Orchestrator.Hosts.{runtime_for}
use labforge.Orchestrator.Sync.{Synced, sync_instance_upstream}

-- A usage event about an instance.
abbrev pub about_instance : UsageKind → Instance → ℕ → UsageEvent
about_instance kind inst t = record {
  tenant_id = inst.tenant_id;
  kind = kind;
  launch_id = none;
  instance_id = some inst.id;
  template_id = some inst.template_id;
  user_id_hash = inst.user_id_hash;
  payload = no_payload;
  occurred_at = t;
}

abbrev pub set_paused : ℕ → Instance → Instance
set_paused t r = record r { status = paused; suspended_at = some t }

unfoldable pub suspend_running : Env → Instance → String → M (Unit {0})
suspend_running env inst runtime_id = if is_stopped inst.status then pure tt else (do
  runtime ← runtime_for env inst.node_id
  ask env.unit_answer (on_runtime runtime (suspend runtime_id))
  t ← now env
  update_instance inst.id (set_paused t)
  emit_usage env (about_instance instance_paused inst))

unfoldable pub suspend_runtime : Env → Instance → Option String → M (Unit {0})
suspend_runtime env inst none = pure tt
suspend_runtime env inst (some id) = suspend_running env inst id

unfoldable pub suspend_row : Env → Option Instance → M (Unit {0})
suspend_row env none = pure tt
suspend_row env (some inst) = suspend_runtime env inst (truthy inst.runtime_id)

unfoldable pub suspend_instance : Env → String → M (Unit {0})
suspend_instance env id = do row ← find_instance id; suspend_row env row

-- The `data` of the update after a resume or a restart.
abbrev pub set_ready : ℕ → Synced → Instance → Instance
set_ready t s r = record r {
  status = ready;
  suspended_at = none;
  last_activity_at = some t;
  host_port = s.host_port;
  upstream = s.upstream;
}

-- `if (synced.rdpDrifted && updated.guacamoleUser)`, with its failure swallowed.
unfoldable pub resync_guacamole : Env → Synced → Instance → M (Unit {0})
resync_guacamole env s updated =
    if s.rdp_drifted && is_some (truthy updated.guacamole_user)
    then try_catch (regenerate_mapping env) (λ _. pure tt)
    else pure tt

-- What `resumeInstance` and `restartInstance` do after the container has started.
unfoldable pub store_ready : Env → Instance → Option Spec → Runtime → M Instance
store_ready env inst spec runtime = do
  synced ← sync_instance_upstream env inst runtime (primary_port spec) (rdp_port spec)
  t ← now env
  updated ← update_instance inst.id (set_ready t synced)
  resync_guacamole env synced updated
  pure updated

-- `if (await isReady()) return true; await sleep(1000);`
unfoldable pub wait_answer : Env → M (Option Bool) → Bool → M (Option Bool)
wait_answer env again true = pure (some true)
wait_answer env again false = do ask env.unit_answer (sleep 1000); again

-- One round of the loop, by the test of the deadline.
unfoldable pub wait_round :
    Env → Runtime → String → String → Scheme → M (Option Bool) → Bool → M (Option Bool)
wait_round env runtime runtime_id upstream scheme again false = pure (some false)
wait_round env runtime runtime_id upstream scheme again true = do
  answer ← ask env.bool_answer (on_runtime runtime (is_ready runtime_id upstream scheme))
  wait_answer env again answer

-- `while (Date.now() < deadline) { … }` with fuel: `none` means that the fuel ran out.
unfoldable pub wait_loop : Env → Runtime → String → String → Scheme → ℕ → ℕ → M (Option Bool)
wait_loop env runtime runtime_id upstream scheme deadline zero = pure none
wait_loop env runtime runtime_id upstream scheme deadline (suc fuel) =
    let again = wait_loop env runtime runtime_id upstream scheme deadline fuel in
    now env >>= λ t. wait_round env runtime runtime_id upstream scheme again (ltb t deadline)

-- One round a second, and two more.
abbrev pub wait_fuel : ℕ → ℕ
wait_fuel timeout_ms = timeout_ms / 1000 + 2

abbrev pub timed_out : Option Bool → Bool
timed_out none = false
timed_out (some b) = b

unfoldable pub wait_until_ready : Env → Runtime → String → String → ℕ → Scheme → M Bool
wait_until_ready env runtime runtime_id upstream timeout_ms scheme = do
  t ← now env
  r ← wait_loop env runtime runtime_id upstream scheme (t + timeout_ms) (wait_fuel timeout_ms)
  pure (timed_out r)

abbrev pub scheme_of : Option Spec → Scheme
scheme_of none = http
scheme_of (some spec) = spec.upstream_scheme

unfoldable pub wait_upstream : Env → Runtime → String → Option String → ℕ → Scheme → M Bool
wait_upstream env runtime runtime_id none wait_ms scheme = pure false
wait_upstream env runtime runtime_id (some upstream) wait_ms scheme =
    if ltb 0 wait_ms
    then wait_until_ready env runtime runtime_id upstream wait_ms scheme
    else pure false

unfoldable pub resume_instance : Env → String → (wait_ms : ℕ) → M Instance
resume_instance env id wait_ms = do
  row ← find_instance id
  inst ← lift (or_fail row_not_found row)
  runtime_id ← lift (or_fail no_runtime_id (truthy inst.runtime_id))
  runtime ← runtime_for env inst.node_id
  ask env.unit_answer (on_runtime runtime (resume runtime_id))
  template ← find_template inst.template_id
  let spec = safe_parse_spec env template
  updated ← store_ready env inst spec runtime
  emit_usage env (about_instance instance_resumed updated)
  wait_upstream env runtime runtime_id (truthy updated.upstream) wait_ms (scheme_of spec)
  pure updated

unfoldable pub restart_runtime : Env → Instance → Option String → M (Unit {0})
restart_runtime env inst none = pure tt
restart_runtime env inst (some id) = do
  runtime ← runtime_for env inst.node_id
  ask env.unit_answer (on_runtime runtime (restart id))
  template ← find_template inst.template_id
  store_ready env inst (safe_parse_spec env template) runtime
  pure tt

unfoldable pub restart_row : Env → Option Instance → M (Unit {0})
restart_row env none = pure tt
restart_row env (some inst) = restart_runtime env inst (truthy inst.runtime_id)

unfoldable pub restart_instance : Env → String → M (Unit {0})
restart_instance env id = do row ← find_instance id; restart_row env row

unfoldable pub extend_instance : String → (new_expires_at : ℕ) → M Instance
extend_instance id t = update_instance id (λ r. record r { expires_at = t })

unfoldable pub logs_runtime : Env → Instance → ℕ → Option String → M String
logs_runtime env inst tail none = pure ""
logs_runtime env inst tail (some id) = do
  runtime ← runtime_for env inst.node_id
  ask env.text_answer (on_runtime runtime (logs id tail))

unfoldable pub logs_row : Env → ℕ → Option Instance → M String
logs_row env tail none = pure ""
logs_row env tail (some inst) = logs_runtime env inst tail (truthy inst.runtime_id)

unfoldable pub get_instance_logs : Env → String → (tail : ℕ) → M String
get_instance_logs env id tail = do row ← find_instance id; logs_row env tail row
