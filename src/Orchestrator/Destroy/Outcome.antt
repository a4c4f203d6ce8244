-- ===== src/Orchestrator/Destroy/Outcome.antt =====
-- What `destroyInstance` leaves behind, on every branch.
use labforge.Base.{
  String, ◌≡◌, refl, ap, ◌∙◌, Bool, true, false, Option, none, some, eq_refl, is_some,
}
use mathlib.Core.Path.{subst}
use labforge.Exec.{Error, ok, err, ◌>>=◌}
use labforge.Exec.Laws.{bind-ok, bind-err, Total, Total-pure, Total-bind, Total-try_catch}
use labforge.Data.{Instance, terminated}
use labforge.World.{World, M, Env, Runtime, date_now}
use labforge.Store.{
  instance_key, find_instance, update_instance, put_instance, ask, now, emit_usage,
}
use labforge.Table.{lookup, key-lookup, lookup-update}
use labforge.Frame.Rows.{SameBut, only_row, only_row-same, still_some}
use labforge.Frame.Leaves.{runtime_for-rows}
use labforge.Frame.Writes.{tear_down-only}
use labforge.Orchestrator.Hosts.{runtime_for}
use labforge.Orchestrator.Destroy.{
  best_effort, destroy_container, drop_volume, drop_overlay, drop_guacamole, tear_down,
  set_terminated, mark_terminated, destroy_row, destroy_instance,
}

pub best_effort-Total : (m : M (Unit {0})) → Total (best_effort m)
unfolding best_effort
best_effort-Total m = Total-try_catch m

module _ (env : Env) where
  destroy_container-Total :
      (rt : Runtime) (id : Option String) → Total (destroy_container env rt id)
  unfolding destroy_container
  destroy_container-Total rt none = Total-pure
  destroy_container-Total rt (some id) = best_effort-Total _

  drop_volume-Total : (rt : Runtime) (b : Bool) (v : Option String) → Total (drop_volume env rt b v)
  unfolding drop_volume
  drop_volume-Total rt true (some v) = best_effort-Total _
  drop_volume-Total rt true none = Total-pure
  drop_volume-Total rt false v = Total-pure

  drop_overlay-Total : (dir node : Option String) → Total (drop_overlay env dir node)
  unfolding drop_overlay
  drop_overlay-Total (some dir) (some node) = best_effort-Total _
  drop_overlay-Total (some dir) none = Total-pure
  drop_overlay-Total none _ = Total-pure

  drop_guacamole-Total : (id : String) (user : Option String) → Total (drop_guacamole env id user)
  unfolding drop_guacamole
  drop_guacamole-Total id none = Total-pure
  drop_guacamole-Total id (some user) = best_effort-Total _

  -- Whatever fails outside, the clean-up goes on to its end.
  pub tear_down-Total :
      (rt : Runtime) (inst : Instance) (b : Bool) → Total (tear_down env rt inst b)
  unfolding tear_down
  tear_down-Total rt inst b = Total-bind _ _ (destroy_container-Total rt _) (
      Total-bind _ _ (drop_volume-Total rt b _)
        (Total-bind _ _ (drop_overlay-Total _ _) (drop_guacamole-Total _ _)))

  mark_row :
      (b : Bool) (inst r : Instance) (s : World)
      → lookup instance_key inst.id s.instances ≡ some r
      → ((mark_terminated env b inst s).0 ≡ ok tt)
        × (lookup instance_key inst.id (mark_terminated env b inst s).1.instances
            ≡ some (set_terminated (env.num_answer s.calls date_now) r))
  unfolding mark_terminated ◌>>=◌ now ask update_instance put_instance emit_usage
  mark_row b inst r s e = (
    rw (e, put_instance),
    rw (e, put_instance)
        (lookup-update instance_key inst.id inst.id _ s.instances (λ x. refl)
          ∙ rw (eq_refl inst.id, e)),
  )

  -- The state after the clean-up, and before the row is marked.
  abbrev torn : Bool → Instance → Runtime → World → World
  torn b r rt w = (tear_down env rt r b (runtime_for env r.node_id w).1).1

  destroy_found :
      (b : Bool) (r : Instance) (rt : Runtime) (w : World)
      → (runtime_for env r.node_id w).0 ≡ ok rt
      → destroy_row env b (some r) w ≡ mark_terminated env b r (torn b r rt w)
  unfolding destroy_row
  destroy_found b r rt w h =
      bind-ok (runtime_for env r.node_id) _ w rt h
      ∙ bind-ok (tear_down env rt r b) _ (runtime_for env r.node_id w).1 tt
          (tear_down-Total rt r b _)

  torn-same : (b : Bool) (r : Instance) (rt : Runtime) (w : World) → SameBut r.id w (torn b r rt w)
  torn-same b r rt w =
      (only_row r.id).chain w (runtime_for env r.node_id w).1 (torn b r rt w)
        (only_row-same r.id w (runtime_for env r.node_id w).1
          ((runtime_for-rows env r.node_id).at w))
        ((tear_down-only env rt r b).at (runtime_for env r.node_id w).1)

-- The row of an instance that is terminated.
pub record IsTerminated (id : String) (w : World) : Type 0 where
  pub row : Instance
  pub found : lookup instance_key id w.instances ≡ some row
  pub is_terminated : row.status ≡ terminated
  pub dated : is_some row.terminated_at ≡ true

module _ (env : Env) (b : Bool) (r : Instance) (rt : Runtime) (w : World) where
  destroy_row-terminates :
      lookup instance_key r.id w.instances ≡ some r
      → (runtime_for env r.node_id w).0 ≡ ok rt
      → ((destroy_row env b (some r) w).0 ≡ ok tt)
        × IsTerminated r.id (destroy_row env b (some r) w).1
  destroy_row-terminates e h =
      let (r', e') = still_some r.id r.id w (torn env b r rt w) r (torn-same env b r rt w) e in
      let (done, found) = mark_row env b r r' (torn env b r rt w) e' in
      rw (destroy_found env b r rt w h)
        (done, record { row = _; found = found; is_terminated = refl; dated = refl })

pub found_row :
    {A : Type 0} (id : String) (body : Option Instance → M A) (w : World) (o : Option Instance)
    → lookup instance_key id w.instances ≡ o
    → (find_instance id >>= body) w ≡ body o w
unfolding find_instance ◌>>=◌
found_row id body w o e = ap (λ p. body p w) e

-- Where the host of the instance can be resolved, `destroyInstance` returns, whatever fails after that,
-- and its row is then terminated.
pub destroy_instance-terminates :
    (env : Env) (id : String) (b : Bool) (w : World) (r : Instance) (rt : Runtime)
    → lookup instance_key id w.instances ≡ some r
    → (runtime_for env r.node_id w).0 ≡ ok rt
    → ((destroy_instance env id b w).0 ≡ ok tt) × IsTerminated id (destroy_instance env id b w).1
unfolding destroy_instance
destroy_instance-terminates env id b w r rt e h =
    rw (found_row id (destroy_row env b) w (some r) e) (
      subst
        (λ k.
          lookup instance_key k w.instances ≡ some r
          → ((destroy_row env b (some r) w).0 ≡ ok tt)
            × IsTerminated k (destroy_row env b (some r) w).1)
        (key-lookup instance_key id w.instances r e)
        (λ e'. destroy_row-terminates env b r rt w e' h) e)

-- Where the host of the instance cannot be resolved, `destroyInstance` throws that error and writes no row.
pub destroy_instance-unreachable :
    (env : Env) (id : String) (b : Bool) (w : World) (r : Instance) (x : Error)
    → lookup instance_key id w.instances ≡ some r
    → (runtime_for env r.node_id w).0 ≡ err x
    → ((destroy_instance env id b w).0 ≡ err x)
      × ((destroy_instance env id b w).1.instances ≡ w.instances)
unfolding destroy_instance destroy_row
destroy_instance-unreachable env id b w r x e h =
    rw (found_row id (destroy_row env b) w (some r) e) (
      rw (bind-err (runtime_for env r.node_id) _ w x h)
        (refl, (runtime_for-rows env r.node_id).at w))
