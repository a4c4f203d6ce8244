-- ===== src/Orchestrator/Destroy.antt =====
-- `destroyInstance`.
pub mod Outcome
use labforge.Base.{ℕ, String, Bool, true, Option, none, some}
use labforge.Exec.{pure, try_catch, ◌>>=◌, ◌>>◌}
use labforge.Data.{Instance, UsageEvent, instance_terminated, termination, terminated}
use labforge.World.{M, Env, Runtime, on_runtime, destroy, destroy_volume}
use labforge.Store.{ask, now, find_instance, find_node, update_instance, emit_usage}
use labforge.Guacamole.{clear_guacamole_credentials, regenerate_mapping}
use labforge.Nodes.Runtimes.{truthy}
use labforge.Orchestrator.Hosts.{runtime_for, rm_overlay_dir}
use labforge.Orchestrator.Lifecycle.{about_instance}

-- `try { … } catch { /* best-effort */ }`
unfoldable pub best_effort : M (Unit {0}) → M (Unit {0})
best_effort m = try_catch m (λ _. pure tt)

unfoldable pub destroy_container : Env → Runtime → Option String → M (Unit {0})
destroy_container env runtime none = pure tt
destroy_container env runtime (some id) =
    best_effort (ask env.unit_answer (on_runtime runtime (destroy id)))

unfoldable pub drop_volume : Env → Runtime → Bool → Option String → M (Unit {0})
drop_volume env runtime true (some name) =
    best_effort (ask env.unit_answer (on_runtime runtime (destroy_volume name)))
drop_volume env runtime _ _ = pure tt

-- `inst.vmOverlayPath && inst.nodeId`
unfoldable pub drop_overlay : Env → Option String → Option String → M (Unit {0})
drop_overlay env (some dir) (some node_id) =
    best_effort (do node ← find_node node_id; rm_overlay_dir env node dir)
drop_overlay env _ _ = pure tt

unfoldable pub drop_guacamole : Env → String → Option String → M (Unit {0})
drop_guacamole env id none = pure tt
drop_guacamole env id (some user) =
    best_effort (do clear_guacamole_credentials id; regenerate_mapping env)

abbrev pub set_terminated : ℕ → Instance → Instance
set_terminated t r = record r { status = terminated; terminated_at = some t }

abbrev pub terminated_event : Bool → Instance → ℕ → UsageEvent
terminated_event delete_volume inst t =
    let e = about_instance instance_terminated inst t in
    record e { payload = termination delete_volume inst.status }

-- What is torn down outside, in the order of the code; nothing here throws.
unfoldable pub tear_down : Env → Runtime → Instance → Bool → M (Unit {0})
tear_down env runtime inst delete_volume = do
  destroy_container env runtime (truthy inst.runtime_id)
  drop_volume env runtime delete_volume (truthy inst.volume_name)
  drop_overlay env (truthy inst.vm_overlay_path) (truthy inst.node_id)
  drop_guacamole env inst.id (truthy inst.guacamole_user)

-- The row is marked and the event emitted, whatever became of the container.
unfoldable pub mark_terminated : Env → Bool → Instance → M (Unit {0})
mark_terminated env delete_volume inst = do
  t ← now env
  update_instance inst.id (set_terminated t)
  emit_usage env (terminated_event delete_volume inst)

unfoldable pub destroy_row : Env → Bool → Option Instance → M (Unit {0})
destroy_row env delete_volume none = pure tt
destroy_row env delete_volume (some inst) = do
  runtime ← runtime_for env inst.node_id
  tear_down env runtime inst delete_volume
  mark_terminated env delete_volume inst

unfoldable pub destroy_instance : Env → String → (delete_volume : Bool) → M (Unit {0})
destroy_instance env id delete_volume = do row ← find_instance id; destroy_row env delete_volume row
