-- ===== src/Along/Rows.antt =====
-- The operations on one instance: suspend, resume, restart, extend, destroy, and the credentials.
use labforge.Base.{ℕ, zero, suc, String, refl, Bool, true, false, Option, none, some}
use labforge.Exec.Moves.{Guarantee, Moves, Moves-bind, Moves-pure, moves_rules}
use labforge.Data.{Instance, Spec, Scheme, Inspection}
use labforge.World.{World, M, Env, Runtime}
use labforge.Store.{update_instance}
use labforge.Along.{IsClosed, now-Along, fresh-Along, along_rules}
use labforge.Along.Hosts.{runtime_for-Along, rm_overlay_dir-Along}
use labforge.Guacamole.{
  mint, or_mint, of_row, ensure_guacamole_credentials, clear_guacamole_credentials,
}
use labforge.Nodes.Runtimes.{truthy}
use labforge.Orchestrator.Sync.{
  Synced, Drift, persist, write_drift, apply_inspection, sync_runtime, sync_instance_upstream,
}
use labforge.Orchestrator.Lifecycle.{
  set_paused, suspend_running, suspend_runtime, suspend_row, suspend_instance, set_ready,
  resync_guacamole, store_ready, wait_answer, wait_round, wait_loop, wait_until_ready,
  wait_upstream, resume_instance, restart_runtime, restart_row, restart_instance, extend_instance,
}
use labforge.Orchestrator.Destroy.{
  best_effort, destroy_container, drop_volume, drop_overlay, drop_guacamole, set_terminated,
  tear_down, mark_terminated, destroy_row, destroy_instance,
}

module _ (g : Guarantee World) (c : IsClosed g) where
  set_paused-Along : (id : String) (t : ℕ) → Moves g (update_instance id (set_paused t))
  set_paused-Along id t = c.on_update id _ (λ r. refl)

  set_terminated-Along : (id : String) (t : ℕ) → Moves g (update_instance id (set_terminated t))
  set_terminated-Along id t = c.on_update id _ (λ r. refl)

  set_ready-Along :
      (id : String) (t : ℕ) (s : Synced) → Moves g (update_instance id (set_ready t s))
  set_ready-Along id t s = c.on_update id _ (λ r. refl)

  persist-Along : (id : String) (d : Drift) → Moves g (update_instance id (persist d))
  persist-Along id d = c.on_update id _ (λ r. refl)

  clear-Along : (id : String) → Moves g (clear_guacamole_credentials id)
  unfolding clear_guacamole_credentials
  clear-Along id = c.on_update id _ (λ r. refl)

  pub extend_instance-Along : (id : String) (t : ℕ) → Moves g (extend_instance id t)
  unfolding extend_instance
  extend_instance-Along id t = c.on_update id _ (λ r. refl)

  pub best_effort-Along : (m : M (Unit {0})) → Moves g m → Moves g (best_effort m)
  unfolding best_effort
  best_effort-Along m h = search moves_rules

ruleset row_rules = (
  along_rules, set_paused-Along, set_terminated-Along, set_ready-Along, persist-Along, clear-Along,
  best_effort-Along, runtime_for-Along, rm_overlay_dir-Along,
)

module _ (g : Guarantee World) (c : IsClosed g) (env : Env) where
  mint-Along : (id : String) → Moves g (mint env id)
  unfolding mint
  mint-Along id = Moves-bind _ _ (fresh-Along g c env) λ token.
      Moves-bind _ _ (fresh-Along g c env)
        λ password. Moves-bind _ _ (c.on_update id _ (λ r. refl)) λ r. Moves-pure _

  or_mint-Along : (id : String) (u p : Option String) → Moves g (or_mint env id u p)
  unfolding or_mint
  or_mint-Along id (some u) (some p) = search row_rules
  or_mint-Along id (some u) none = mint-Along id
  or_mint-Along id none p = mint-Along id

  of_row-Along : (id : String) (o : Option Instance) → Moves g (of_row env id o)
  unfolding of_row
  of_row-Along id none = search row_rules
  of_row-Along id (some r) = or_mint-Along id _ _

  pub ensure_guacamole_credentials-Along :
      (id : String) → Moves g (ensure_guacamole_credentials env id)
  unfolding ensure_guacamole_credentials
  ensure_guacamole_credentials-Along id = search (row_rules, of_row-Along)

  write_drift-Along : (i : Instance) (d : Drift) → Moves g (write_drift i d)
  unfolding write_drift
  write_drift-Along i d = search row_rules

  apply_inspection-Along :
      (i : Instance) (p r : Option ℕ) (o : Option Inspection) → Moves g (apply_inspection i p r o)
  unfolding apply_inspection
  apply_inspection-Along i p r none = search row_rules
  apply_inspection-Along i p r (some info) = write_drift-Along i _

  sync_runtime-Along :
      (i : Instance) (rt : Runtime) (p r : Option ℕ) (o : Option String)
      → Moves g (sync_runtime env i rt p r o)
  unfolding sync_runtime
  sync_runtime-Along i rt p r none = search row_rules
  sync_runtime-Along i rt p r (some id) = search (row_rules, apply_inspection-Along)

  pub sync_instance_upstream-Along :
      (i : Instance) (rt : Runtime) (p r : Option ℕ) → Moves g (sync_instance_upstream env i rt p r)
  unfolding sync_instance_upstream
  sync_instance_upstream-Along i rt p r = sync_runtime-Along i rt p r _

  suspend_running-Along : (i : Instance) (rid : String) → Moves g (suspend_running env i rid)
  unfolding suspend_running
  suspend_running-Along i rid = search row_rules depth 9

  suspend_row-Along : (o : Option Instance) → Moves g (suspend_row env o)
  unfolding suspend_row suspend_runtime
  suspend_row-Along none = search row_rules
  suspend_row-Along (some i) = at_runtime (truthy i.runtime_id)
    where
      at_runtime : (rid : Option String) → Moves g (suspend_runtime env i rid)
      at_runtime none = search row_rules
      at_runtime (some rid) = suspend_running-Along i rid

  pub suspend_instance-Along : (id : String) → Moves g (suspend_instance env id)
  unfolding suspend_instance
  suspend_instance-Along id = search (row_rules, suspend_row-Along)

  resync_guacamole-Along : (s : Synced) (i : Instance) → Moves g (resync_guacamole env s i)
  unfolding resync_guacamole
  resync_guacamole-Along s i = search row_rules

  store_ready-Along :
      (i : Instance) (s : Option Spec) (rt : Runtime) → Moves g (store_ready env i s rt)
  unfolding store_ready
  store_ready-Along i s rt =
      search (row_rules, sync_instance_upstream-Along, resync_guacamole-Along) depth 9

  wait_answer-Along :
      (again : M (Option Bool)) (b : Bool) → Moves g again → Moves g (wait_answer env again b)
  unfolding wait_answer
  wait_answer-Along again true h = search row_rules
  wait_answer-Along again false h = search row_rules

  wait_round-Along :
      (rt : Runtime) (rid upstream : String) (s : Scheme) (again : M (Option Bool)) (b : Bool)
      → Moves g again
      → Moves g (wait_round env rt rid upstream s again b)
  unfolding wait_round
  wait_round-Along rt rid upstream s again false h = search row_rules
  wait_round-Along rt rid upstream s again true h = search (row_rules, wait_answer-Along)

  wait_loop-Along :
      (rt : Runtime) (rid upstream : String) (s : Scheme) (deadline fuel : ℕ)
      → Moves g (wait_loop env rt rid upstream s deadline fuel)
  unfolding wait_loop
  wait_loop-Along rt rid upstream s deadline zero = search row_rules
  wait_loop-Along rt rid upstream s deadline (suc fuel) = Moves-bind _ _ (now-Along g c env) (λ t.
      wait_round-Along rt rid upstream s _ _ (wait_loop-Along rt rid upstream s deadline fuel))

  pub wait_until_ready-Along :
      (rt : Runtime) (rid upstream : String) (ms : ℕ) (s : Scheme)
      → Moves g (wait_until_ready env rt rid upstream ms s)
  unfolding wait_until_ready
  wait_until_ready-Along rt rid upstream ms s = search (row_rules, wait_loop-Along)

  wait_upstream-Along :
      (rt : Runtime) (rid : String) (u : Option String) (ms : ℕ) (s : Scheme)
      → Moves g (wait_upstream env rt rid u ms s)
  unfolding wait_upstream
  wait_upstream-Along rt rid none ms s = search row_rules
  wait_upstream-Along rt rid (some u) ms s = search (row_rules, wait_until_ready-Along)

  pub resume_instance-Along : (id : String) (ms : ℕ) → Moves g (resume_instance env id ms)
  unfolding resume_instance
  resume_instance-Along id ms = search (row_rules, store_ready-Along, wait_upstream-Along) depth 14

  restart_row-Along : (o : Option Instance) → Moves g (restart_row env o)
  unfolding restart_row restart_runtime
  restart_row-Along none = search row_rules
  restart_row-Along (some i) = at_runtime (truthy i.runtime_id)
    where
      at_runtime : (rid : Option String) → Moves g (restart_runtime env i rid)
      at_runtime none = search row_rules
      at_runtime (some rid) = search (row_rules, store_ready-Along) depth 9

  pub restart_instance-Along : (id : String) → Moves g (restart_instance env id)
  unfolding restart_instance
  restart_instance-Along id = search (row_rules, restart_row-Along)

  destroy_container-Along :
      (rt : Runtime) (rid : Option String) → Moves g (destroy_container env rt rid)
  unfolding destroy_container
  destroy_container-Along rt none = search row_rules
  destroy_container-Along rt (some rid) = search row_rules

  drop_volume-Along :
      (rt : Runtime) (b : Bool) (v : Option String) → Moves g (drop_volume env rt b v)
  unfolding drop_volume
  drop_volume-Along rt true (some v) = search row_rules
  drop_volume-Along rt true none = search row_rules
  drop_volume-Along rt false v = search row_rules

  drop_overlay-Along : (dir node : Option String) → Moves g (drop_overlay env dir node)
  unfolding drop_overlay
  drop_overlay-Along (some dir) (some node) = search row_rules
  drop_overlay-Along (some dir) none = search row_rules
  drop_overlay-Along none _ = search row_rules

  drop_guacamole-Along : (id : String) (user : Option String) → Moves g (drop_guacamole env id user)
  unfolding drop_guacamole
  drop_guacamole-Along id none = search row_rules
  drop_guacamole-Along id (some user) = search row_rules

  destroy_row-Along : (b : Bool) (o : Option Instance) → Moves g (destroy_row env b o)
  unfolding destroy_row tear_down mark_terminated
  destroy_row-Along b none = search row_rules
  destroy_row-Along b (some i) =
      search
        (
          row_rules, destroy_container-Along, drop_volume-Along, drop_overlay-Along,
          drop_guacamole-Along,
        )
        depth 14

  pub destroy_instance-Along : (id : String) (b : Bool) → Moves g (destroy_instance env id b)
  unfolding destroy_instance
  destroy_instance-Along id b = search (row_rules, destroy_row-Along)
