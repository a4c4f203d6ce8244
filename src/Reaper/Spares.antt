-- ===== src/Reaper/Spares.antt =====
-- The instances that a tick of the reaper leaves alone.
use labforge.Base.{
  ℕ, String, ◌≡◌, ◌≢◌, sym, ◌∙◌, Bool, true, false, some, List, [], ◌∷◌, All, All-take,
}
use labforge.Exec.{Result, ok, err, continue, for_each, ◌>>=◌, ◌>>◌}
use labforge.Exec.Moves.{Moves, Moves-try_catch, Moves-pure}
use labforge.Data.{Instance}
use labforge.World.{World, M, Env, date_now}
use labforge.Store.{instance_key, now, ask}
use labforge.Table.{lookup}
use labforge.Frame.Rows.{only_row, SameBut}
use mathlib.Core.Path.{subst}
use labforge.Frame.Keys.{Distinct, IsKeyed, not_selected}
use labforge.Frame.Writes.{destroy_instance-only, suspend_instance-only}
use labforge.Reaper.{
  batch, batch_of, is_expired, is_idle, is_stale, expire, put_to_sleep, sweep, suspend_before,
  hard_kill_before, tick_time, apply_rules, reconcile_once,
}

-- The row is there, and the identifiers are distinct.
pub record Holds (id : String) (r : Instance) (w : World) : Type 0 where
  pub row : lookup instance_key id w.instances ≡ some r
  pub keyed : IsKeyed w.instances

Holds-step :
    (id k : String) (r : Instance) (s t : World)
    → k ≢ id
    → SameBut k s t
    → Holds id r s
    → Holds id r t
Holds-step id k r s t ne same h = record {
  row = same.1 id (λ e. ne (sym e)) ∙ h.row;
  keyed = subst Distinct (sym same.0) h.keyed;
}

continue-Holds :
    (id : String) (r : Instance) (rest : M (Unit {0})) (o : Result (Unit {0})) (s : World)
    → Holds id r s
    → Holds id r (rest s).1
    → Holds id r (continue o (λ _. rest) s).1
continue-Holds id r rest (ok a) s h hr = hr
continue-Holds id r rest (err e) s h hr = h

for_each-Holds :
    (id : String) (r : Instance) (body : Instance → M (Unit {0}))
    → ((x : Instance) → Moves (only_row x.id) (body x))
    → (xs : List Instance) (s : World) → All (λ x. x.id ≢ id) xs
    → Holds id r s
    → Holds id r (for_each xs body s).1
unfolding for_each ◌>>=◌
for_each-Holds id r body only [] s ne h = h
for_each-Holds id r body only (x ∷ xs) s ne h =
    let after = Holds-step id x.id r s (body x s).1 ne.0 ((only x).at s) h in
    continue-Holds id r (for_each xs body) (body x s).0 (body x s).1 after
      (for_each-Holds id r body only xs (body x s).1 ne.1 after)

-- A rule that the row does not meet leaves it alone.
pub sweep-Holds :
    (id : String) (r : Instance) (p : Instance → Bool) (body : Instance → M (Unit {0}))
    → ((x : Instance) → Moves (only_row x.id) (body x))
    → p r ≡ false
    → (s : World) → Holds id r s
    → Holds id r (sweep p body s).1
unfolding sweep ◌>>=◌
sweep-Holds id r p body only n s h =
    for_each-Holds id r body only (batch_of p s) s
      (unfold batch_of in All-take _ batch _ (not_selected id p s.instances r h.keyed h.row n)) h

pub expire-only : (env : Env) (x : Instance) → Moves (only_row x.id) (expire env x)
unfolding expire
expire-only env x = Moves-try_catch _ _ (destroy_instance-only env x.id true) (λ _. Moves-pure tt)

pub put_to_sleep-only : (env : Env) (x : Instance) → Moves (only_row x.id) (put_to_sleep env x)
unfolding put_to_sleep
put_to_sleep-only env x = Moves-try_catch _ _ (suspend_instance-only env x.id) (λ _. Moves-pure tt)

pub then-Holds :
    (id : String) (r : Instance) (m n : M (Unit {0})) (s : World)
    → Holds id r (m s).1
    → ((t : World) → Holds id r t → Holds id r (n t).1)
    → Holds id r ((m >> n) s).1
unfolding ◌>>=◌
then-Holds id r m n s h k = continue-Holds id r n (m s).0 (m s).1 h (k (m s).1 h)

module _ (env : Env) (t : ℕ) (id : String) (r : Instance) where
  apply_rules-Holds :
      is_expired t r ≡ false
      → is_idle (suspend_before env t) r ≡ false
      → is_stale (hard_kill_before env t) r ≡ false
      → (s : World) → Holds id r s
      → Holds id r (apply_rules env t s).1
  unfolding apply_rules
  apply_rules-Holds expired idle stale s h =
      let first = sweep (is_expired t) (expire env) in
      let second = sweep (is_idle (suspend_before env t)) (put_to_sleep env) in
      let third = sweep (is_stale (hard_kill_before env t)) (expire env) in
      then-Holds id r first (second >> third) s
        (sweep-Holds id r (is_expired t) (expire env) (expire-only env) expired s h)
        λ s' h'.
          then-Holds id r second third s'
            (sweep-Holds id r (is_idle (suspend_before env t)) (put_to_sleep env)
              (put_to_sleep-only env) idle s' h')
            (sweep-Holds id r (is_stale (hard_kill_before env t)) (expire env) (expire-only env)
              stale)

-- An instance that is neither expired, nor idle, nor stale at the time of the tick comes out of the tick
-- as it was, whatever happens to the others. The identifiers are distinct before.
pub reaper_spares :
    (env : Env) (w : World) (id : String) (r : Instance)
    → IsKeyed w.instances
    → lookup instance_key id w.instances ≡ some r
    → is_expired (tick_time env w) r ≡ false
    → is_idle (suspend_before env (tick_time env w)) r ≡ false
    → is_stale (hard_kill_before env (tick_time env w)) r ≡ false
    → lookup instance_key id (reconcile_once env w).1.instances ≡ some r
unfolding reconcile_once ◌>>=◌ now ask
reaper_spares env w id r keyed e expired idle stale = Holds.row (
    apply_rules-Holds env (tick_time env w) id r expired idle stale
      (record w { calls = date_now ∷ w.calls }) (record { row = e; keyed = keyed }))
