-- ===== src/Frame/Writes.antt =====
-- The lifecycle operations write one row: that of their instance.
use labforge.Base.{ℕ, String, ◌≡◌, refl, Bool, true, false, Option, none, some, List}
use labforge.Exec.{Result, ◌>>=◌}
use labforge.Exec.Moves.{Moves, Moves-pure, moves_rules}
use labforge.Data.{Instance, UsageEvent, Node}
use labforge.World.{World, M, Env, Call, Runtime}
use labforge.Store.{ask, now, find_node, find_instance, update_instance, emit_usage, instance_key}
use labforge.Table.{lookup, key-lookup}
use labforge.Frame.Rows.{only_row, SameBut, Moves-same, update_instance-only}
use labforge.Frame.Leaves.{
  ask-rows, now-rows, emit_usage-rows, find_node-rows, runtime_for-rows, rm_overlay_dir-rows,
  regenerate_mapping-rows,
}
use labforge.Guacamole.{clear_guacamole_credentials, regenerate_mapping}
use labforge.Nodes.Runtimes.{truthy}
use labforge.Orchestrator.Hosts.{runtime_for, rm_overlay_dir}
use labforge.Orchestrator.Lifecycle.{
  set_paused, suspend_running, suspend_runtime, suspend_row, suspend_instance,
}
use labforge.Orchestrator.Destroy.{
  best_effort, destroy_container, drop_volume, drop_overlay, drop_guacamole, set_terminated,
  tear_down, mark_terminated, destroy_row, destroy_instance,
}

module _ (id : String) where
  abbrev Only : {A : Type 0} → M A → Type 0
  Only m = Moves (only_row id) m

  ask-Only : {A : Type 0} (f : List Call → Call → Result A) (c : Call) → Only (ask f c)
  ask-Only f c = Moves-same id _ (ask-rows f c)

  now-Only : (env : Env) → Only (now env)
  now-Only env = Moves-same id _ (now-rows env)

  emit_usage-Only : (env : Env) (e : ℕ → UsageEvent) → Only (emit_usage env e)
  emit_usage-Only env e = Moves-same id _ (emit_usage-rows env e)

  find_node-Only : (n : String) → Only (find_node n)
  find_node-Only n = Moves-same id _ (find_node-rows n)

  runtime_for-Only : (env : Env) (n : Option String) → Only (runtime_for env n)
  runtime_for-Only env n = Moves-same id _ (runtime_for-rows env n)

  rm_overlay_dir-Only : (env : Env) (n : Option Node) (d : String) → Only (rm_overlay_dir env n d)
  rm_overlay_dir-Only env n d = Moves-same id _ (rm_overlay_dir-rows env n d)

  regenerate_mapping-Only : (env : Env) → Only (regenerate_mapping env)
  regenerate_mapping-Only env = Moves-same id _ (regenerate_mapping-rows env)

  set_paused-Only : (t : ℕ) → Only (update_instance id (set_paused t))
  set_paused-Only t = update_instance-only id _ (λ r. refl)

  set_terminated-Only : (t : ℕ) → Only (update_instance id (set_terminated t))
  set_terminated-Only t = update_instance-only id _ (λ r. refl)

  clear-Only : Only (clear_guacamole_credentials id)
  unfolding clear_guacamole_credentials
  clear-Only = update_instance-only id _ (λ r. refl)

ruleset only_rules = (
  moves_rules, ask-Only, now-Only, emit_usage-Only, find_node-Only, runtime_for-Only,
  rm_overlay_dir-Only, regenerate_mapping-Only, set_paused-Only, set_terminated-Only, clear-Only,
)

module _ (env : Env) (id : String) where
  best_effort-only :
      (m : M (Unit {0})) → Moves (only_row id) m → Moves (only_row id) (best_effort m)
  unfolding best_effort
  best_effort-only m h = search moves_rules

  destroy_container-only :
      (rt : Runtime) (rid : Option String) → Moves (only_row id) (destroy_container env rt rid)
  unfolding destroy_container
  destroy_container-only rt none = search moves_rules
  destroy_container-only rt (some rid) = search (only_rules, best_effort-only)

  drop_volume-only :
      (rt : Runtime) (b : Bool) (v : Option String) → Moves (only_row id) (drop_volume env rt b v)
  unfolding drop_volume
  drop_volume-only rt true (some v) = search (only_rules, best_effort-only)
  drop_volume-only rt true none = search moves_rules
  drop_volume-only rt false v = search moves_rules

  drop_overlay-only : (dir node : Option String) → Moves (only_row id) (drop_overlay env dir node)
  unfolding drop_overlay
  drop_overlay-only (some dir) (some node) = search (only_rules, best_effort-only)
  drop_overlay-only (some dir) none = search moves_rules
  drop_overlay-only none _ = search moves_rules

  drop_guacamole-only : (user : Option String) → Moves (only_row id) (drop_guacamole env id user)
  unfolding drop_guacamole
  drop_guacamole-only none = search moves_rules
  drop_guacamole-only (some user) = search (only_rules, best_effort-only)

module _ (env : Env) where
  pub tear_down-only :
      (rt : Runtime) (inst : Instance) (b : Bool)
      → Moves (only_row inst.id) (tear_down env rt inst b)
  unfolding tear_down
  tear_down-only rt inst b = search (
    moves_rules, destroy_container-only, drop_volume-only, drop_overlay-only, drop_guacamole-only,
  )

  destroy_found-only :
      (b : Bool) (inst : Instance) → Moves (only_row inst.id) (destroy_row env b (some inst))
  unfolding destroy_row mark_terminated
  destroy_found-only b inst = search (only_rules, tear_down-only) depth 8

  suspend_runtime-only :
      (inst : Instance) (rid : Option String)
      → Moves (only_row inst.id) (suspend_runtime env inst rid)
  unfolding suspend_runtime suspend_running
  suspend_runtime-only inst none = search moves_rules
  suspend_runtime-only inst (some rid) = search only_rules depth 8

-- An operation that looks up its row, and writes only that row if it is there.
only_found :
    {A : Type 0} (id : String) (body : Option Instance → M A)
    → Moves (only_row id) (body none)
    → ((inst : Instance) → Moves (only_row inst.id) (body (some inst)))
    → Moves (only_row id) (find_instance id >>= body)
unfolding find_instance ◌>>=◌
only_found id body h k = record {
  at = λ s. at_row (lookup instance_key id s.instances) s (key-lookup instance_key id s.instances);
}
  where
    at_row :
        (o : Option Instance) (s : World)
        → ((r : Instance) → o ≡ some r → r.id ≡ id)
        → SameBut id s (body o s).1
    at_row none s key = h.at s
    at_row (some r) s key = rw (← key r refl) ((k r).at s)

-- `destroyInstance` writes only the row of its instance.
pub destroy_instance-only :
    (env : Env) (id : String) (b : Bool) → Moves (only_row id) (destroy_instance env id b)
unfolding destroy_instance
destroy_instance-only env id b =
    only_found id (destroy_row env b) (unfold destroy_row in Moves-pure tt)
      (destroy_found-only env b)

-- `suspendInstance` writes only the row of its instance.
pub suspend_instance-only :
    (env : Env) (id : String) → Moves (only_row id) (suspend_instance env id)
unfolding suspend_instance
suspend_instance-only env id =
    only_found id (suspend_row env) (unfold suspend_row in Moves-pure tt)
      (λ inst. unfold suspend_row in suspend_runtime-only env inst (truthy inst.runtime_id))
