-- ===== src/Reaper.antt =====
-- One tick of the reaper: packages/control-plane/src/reaper.ts, `reconcileOnce`. The three queries are
-- made in turn, each after the rows of the one before it are dealt with.
pub mod Spares
pub mod Effects
pub mod Expiry
use labforge.Base.{
  ℕ, ◌-◌, ◌*◌, Bool, true, false, Option, none, some, List, ◌&&◌, not, filter, take, ltb,
}
use labforge.Exec.{pure, gets, try_catch, for_each, ◌>>=◌, ◌>>◌}
use labforge.Data.{Instance}
use labforge.Data.Statuses.{is_live, is_up, is_paused}
use labforge.World.{M, World, Env, date_now}
use labforge.Store.{now}
use labforge.Orchestrator.Destroy.{destroy_instance}
use labforge.Orchestrator.Lifecycle.{suspend_instance}

-- BATCH
abbrev pub batch : ℕ
batch = 50

-- A null date is before nothing.
abbrev pub before : Option ℕ → ℕ → Bool
before none t = false
before (some s) t = ltb s t

-- `lastActivityAt`, and `createdAt` where it is null.
abbrev pub idle_since : Option ℕ → ℕ → ℕ
idle_since none created_at = created_at
idle_since (some t) created_at = t

abbrev pub is_expired : ℕ → Instance → Bool
is_expired t i = ltb i.expires_at t && (not i.is_prewarm && is_live i.status)

abbrev pub is_idle : ℕ → Instance → Bool
is_idle suspend_before i =
    not i.is_prewarm
    && (is_up i.status && ltb (idle_since i.last_activity_at i.created_at) suspend_before)

abbrev pub is_stale : ℕ → Instance → Bool
is_stale hard_kill_before i =
    not i.is_prewarm && (is_paused i.status && before i.suspended_at hard_kill_before)

-- `findMany` with `take: BATCH`
unfoldable pub batch_of : (Instance → Bool) → World → List Instance
batch_of p w = take batch (filter p w.instances)

unfoldable pub expire : Env → Instance → M (Unit {0})
expire env inst = try_catch (destroy_instance env inst.id true) (λ _. pure tt)

unfoldable pub put_to_sleep : Env → Instance → M (Unit {0})
put_to_sleep env inst = try_catch (suspend_instance env inst.id) (λ _. pure tt)

-- One rule: query a batch, and deal with its rows; an error on one row does not stop the rest.
unfoldable pub sweep : (Instance → Bool) → (Instance → M (Unit {0})) → M (Unit {0})
sweep p body = do rows ← gets (batch_of p); for_each rows body

abbrev pub suspend_before : Env → ℕ → ℕ
suspend_before env t = t - env.config.lab_suspend_idle_minutes * 60000

abbrev pub hard_kill_before : Env → ℕ → ℕ
hard_kill_before env t = t - env.config.lab_hard_inactivity_days * 24 * 60 * 60000

-- The time that a tick reads.
abbrev pub tick_time : Env → World → ℕ
tick_time env w = env.num_answer w.calls date_now

-- The three rules at the time of the tick.
unfoldable pub apply_rules : Env → ℕ → M (Unit {0})
apply_rules env t = do
  sweep (is_expired t) (expire env)
  sweep (is_idle (suspend_before env t)) (put_to_sleep env)
  sweep (is_stale (hard_kill_before env t)) (expire env)

unfoldable pub reconcile_once : Env → M (Unit {0})
reconcile_once env = do t ← now env; apply_rules env t
