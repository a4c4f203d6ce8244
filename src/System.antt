-- ===== src/System.antt =====
-- The control plane as a step relation: its operations on the store but for the purge of a batch, in any order.
-- A step is taken to its end before the next one starts. The entry points are the routes of
-- packages/control-plane/src/routes/launches.ts, batches.ts, redeem.ts and internal.ts, the proxy, the operations of orchestrator.ts that the
-- other routes call, and one tick of each background loop.
pub mod Keyed
pub mod Revoked
pub mod Rows
use labforge.Base.{ℕ, String, ◌≡◌, Bool, true, Option}
use labforge.Exec.Moves.{Guarantee, Moves}
use labforge.World.{World, M, Env}
use labforge.Web.{Web}
use labforge.Store.{update_launch}
use labforge.Orchestrator.Acquire.{AcquireInput, acquire_instance}
use labforge.Orchestrator.Destroy.{destroy_instance}
use labforge.Orchestrator.Lifecycle.{
  suspend_instance, resume_instance, restart_instance, extend_instance,
}
use labforge.Orchestrator.Reconcile.{reconcile_active_instance_networking_drift}
use labforge.Guacamole.{ensure_guacamole_credentials}
use labforge.Reaper.{reconcile_once}
use labforge.Prewarm.{reconcile_pool}
use labforge.NodeHealth.{poll_all_nodes}
use labforge.Launches.{LaunchRequest, create_route, revoke, regenerate, set_regenerated}
use labforge.Launches.Prepare.{prepare}
use labforge.Redeem.{redeem}
use labforge.Proxy.{resolve_and_auth, forward_auth, finish_resume}
use labforge.Batches.{revoke_batch, terminate_batch, prepare_batch}
use labforge.Along.{IsClosed}
use labforge.Along.Batches.{
  OnRevokeAll, revoke_batch-Along, terminate_batch-Along, prepare_batch-Along,
}
use labforge.Along.Proxy.{resolve_and_auth-Along, forward_auth-Along, finish_resume-Along}
use labforge.Along.Rows.{
  destroy_instance-Along, suspend_instance-Along, resume_instance-Along, restart_instance-Along,
  extend_instance-Along, ensure_guacamole_credentials-Along,
}
use labforge.Along.Labs.{acquire_instance-Along}
use labforge.Along.Ticks.{
  reconcile_once-Along, reconcile_pool-Along, reconcile_drift-Along, poll_all_nodes-Along,
}
use labforge.Along.Routes.{
  IsLaunchClosed, create_route-Along, revoke-Along, regenerate-Along, prepare-Along, redeem-Along,
}

-- The state after an operation, whether it returned or threw.
abbrev pub after : {A : Type 0} → M A → World → World
after m w = (m w).1

module _ (env : Env) (web : Web) where
  -- A launch is regenerated only where `may` allows it.
  pub data Step (may : String → Bool) : World → World → Type 0 where
    acquired :
        (input : AcquireInput) (w : World) → Step may w (after (acquire_instance env input) w)
    destroyed :
        (id : String) (b : Bool) (w : World) → Step may w (after (destroy_instance env id b) w)
    suspended : (id : String) (w : World) → Step may w (after (suspend_instance env id) w)
    resumed : (id : String) (ms : ℕ) (w : World) → Step may w (after (resume_instance env id ms) w)
    restarted : (id : String) (w : World) → Step may w (after (restart_instance env id) w)
    extended : (id : String) (t : ℕ) (w : World) → Step may w (after (extend_instance id t) w)
    minted : (id : String) (w : World) → Step may w (after (ensure_guacamole_credentials env id) w)
    reaped : (w : World) → Step may w (after (reconcile_once env) w)
    warmed : (w : World) → Step may w (after (reconcile_pool env) w)
    reconciled : (w : World) → Step may w (after (reconcile_active_instance_networking_drift env) w)
    polled : (w : World) → Step may w (after (poll_all_nodes env) w)
    created :
        (tenant : String) (body : Option LaunchRequest) (w : World)
        → Step may w (after (create_route env web tenant body) w)
    revoked : (tenant id : String) (w : World) → Step may w (after (revoke env tenant id) w)
    regenerated :
        (tenant id : String) (ttl : Option (Option ℕ)) (w : World)
        → may id ≡ true
        → Step may w (after (regenerate env web tenant id ttl) w)
    prepared :
        (tenant id : String) (wait : Option (Option ℕ)) (w : World)
        → Step may w (after (prepare env web tenant id wait) w)
    redeemed : (token : Option String) (w : World) → Step may w (after (redeem env web token) w)
    proxied :
        (subdomain : String) (header : Option String) (w : World)
        → Step may w (after (resolve_and_auth env web subdomain header) w)
    checked :
        (forwarded_host host header : Option String) (w : World)
        → Step may w (after (forward_auth env web forwarded_host host header) w)
    batch_revoked :
        (tenant batch : String) (w : World)
        → Step may w (after (revoke_batch env web tenant batch) w)
    batch_terminated :
        (tenant batch : String) (body : Option (Option Bool)) (w : World)
        → Step may w (after (terminate_batch env web tenant batch body) w)
    batch_prepared :
        (tenant batch : String) (body : Option (Option ℕ)) (w : World)
        → Step may w (after (prepare_batch env web tenant batch body) w)
    -- A resumption that the proxy started comes to its end.
    woken : (id : String) (w : World) → Step may w (after (finish_resume env id) w)

  pub data Reach (may : String → Bool) (s : World) : World → Type 0 where
    here : Reach may s s
    next : {t u : World} → Reach may s t → Step may t u → Reach may s u

-- What a guarantee must cover to hold along every step.
pub record IsGuarded (may : String → Bool) (g : Guarantee World) : Type 0 where
  pub launches : IsLaunchClosed g
  pub on_regenerate :
      (id jti : String) (t : ℕ) → may id ≡ true → Moves g (update_launch id (set_regenerated jti t))
  pub on_revoke_all : OnRevokeAll g

module _ (env : Env) (web : Web) (may : String → Bool) (g : Guarantee World)
    (c : IsGuarded may g) where
  rows : IsClosed g
  rows = c.launches.closed

  Step-rel : {s t : World} → Step env web may s t → g.rel s t
  unfolding rows
  Step-rel (acquired input w) = (acquire_instance-Along g rows env input).at w
  Step-rel (destroyed id b w) = (destroy_instance-Along g rows env id b).at w
  Step-rel (suspended id w) = (suspend_instance-Along g rows env id).at w
  Step-rel (resumed id ms w) = (resume_instance-Along g rows env id ms).at w
  Step-rel (restarted id w) = (restart_instance-Along g rows env id).at w
  Step-rel (extended id t w) = (extend_instance-Along g rows id t).at w
  Step-rel (minted id w) = (ensure_guacamole_credentials-Along g rows env id).at w
  Step-rel (reaped w) = (reconcile_once-Along g rows env).at w
  Step-rel (warmed w) = (reconcile_pool-Along g rows env).at w
  Step-rel (reconciled w) = (reconcile_drift-Along g rows env).at w
  Step-rel (polled w) = (poll_all_nodes-Along g rows env).at w
  Step-rel (created tenant body w) = (create_route-Along g c.launches rows env web tenant body).at w
  Step-rel (revoked tenant id w) = (revoke-Along g c.launches rows env web tenant id).at w
  Step-rel (regenerated tenant id ttl w h) =
      (regenerate-Along g c.launches rows env web id (λ jti t. c.on_regenerate id jti t h) tenant
          ttl).at
        w
  Step-rel (prepared tenant id wait w) =
      (prepare-Along g c.launches rows env web tenant id wait).at w
  Step-rel (redeemed token w) = (redeem-Along g c.launches rows env web token).at w
  Step-rel (proxied s h w) = (resolve_and_auth-Along g rows env web s h).at w
  Step-rel (checked x o h w) = (forward_auth-Along g rows env web x o h).at w
  Step-rel (batch_revoked tenant batch w) =
      (revoke_batch-Along g c.launches c.on_revoke_all env web tenant batch).at w
  Step-rel (batch_terminated tenant batch body w) =
      (terminate_batch-Along g c.launches c.on_revoke_all env web tenant batch body).at w
  Step-rel (batch_prepared tenant batch body w) =
      (prepare_batch-Along g c.launches c.on_revoke_all env web tenant batch body).at w
  Step-rel (woken id w) = (finish_resume-Along g rows env web id).at w

  -- A guarantee of every write holds between any two states of a run.
  pub Reach-rel : {s t : World} → Reach env web may s t → g.rel s t
  Reach-rel {s = s} here = g.stay s
  Reach-rel {s = s} (next r st) = g.chain s _ _ (Reach-rel r) (Step-rel st)
