-- ===== src/Reaper/Expiry.antt =====
-- What a tick of the reaper does to an expired instance.
use mathlib.Core.Path.{subst}
use mathlib.Core.Bool.{false≢true}
use labforge.Base.{
  ℕ, ◌≤◌, zero, suc, String, ◌≡◌, refl, sym, ap, ◌∙◌, ◌==◌, eq_iff, Bool, true, false, some, List,
  [], ◌∷◌, map, filter, take, any, length, arith, Bool-cases, inl, inr,
}
use labforge.Exec.{for_each, pure, ◌>>=◌, ◌>>◌}
use labforge.Exec.Laws.{bind-ok}
use labforge.Exec.Moves.{Guarantee, Moves, Moves-bind, Moves-gets, Moves-for_each}
use labforge.Data.{Instance, Node, terminated}
use labforge.Data.Statuses.{is_up, is_paused}
use labforge.World.{World, Env, date_now}
use labforge.Store.{instance_key, now, ask}
use labforge.Table.{lookup}
use labforge.Frame.Rows.{only_row, still_some, Moves-weaken}
use labforge.Frame.Keys.{Distinct, IsKeyed}
use labforge.Orchestrator.Destroy.Outcome.{IsTerminated}
use labforge.Reaper.{
  batch, batch_of, is_expired, is_idle, is_stale, expire, put_to_sleep, sweep, suspend_before,
  hard_kill_before, tick_time, apply_rules, reconcile_once,
}
use labforge.Reaper.Spares.{Holds, sweep-Holds, then-Holds, expire-only, put_to_sleep-only}
use labforge.Reaper.Effects.{
  AllReachable, HasRow, expire_own, expire-Total, expire-nodes, sweep-Total,
}

abbrev same_keys : Guarantee World
same_keys = record {
  rel = λ s t. map instance_key t.instances ≡ map instance_key s.instances;
  stay = λ s. refl;
  chain = λ s t u p q. q ∙ p;
}

sweep-keys : (env : Env) (p : Instance → Bool) → Moves same_keys (sweep p (expire env))
unfolding sweep
sweep-keys env p = Moves-bind _ _ (Moves-gets _) λ rows.
    Moves-for_each rows _
      λ x. Moves-weaken (only_row x.id) same_keys _ (λ s t h. h.0) (expire-only env x)

module _ (id : String) where
  -- A query that a row meets returns a row of its identifier.
  any-filter :
      (p : Instance → Bool) (rs : List Instance) (r : Instance)
      → lookup instance_key id rs ≡ some r
      → p r ≡ true
      → any (λ (x : Instance). x.id == id) (filter p rs) ≡ true
  unfolding lookup
  any-filter p [] r e h = ground arith
  any-filter p (x ∷ xs) r e h = ground (arith, any-filter p xs r)

pub take-all {ℓ} : {A : Type ℓ} (n : ℕ) (xs : List A) → length xs ≤ n → take n xs ≡ xs
take-all zero [] h = refl
take-all zero (x ∷ xs) h = absurd (omega (arith, h))
take-all (suc n) [] h = refl
take-all (suc n) (x ∷ xs) h = ap (λ ys. x ∷ ys) (take-all n xs (omega (arith, h)))

module _ (env : Env) (nodes : List Node) (reach : AllReachable env nodes) (id : String) where
  expire-own_row :
      (x : Instance) (s : World)
      → s.nodes ≡ nodes
      → x.id ≡ id
      → HasRow id s
      → IsTerminated id (expire env x s).1
  expire-own_row x s at_nodes same h =
      subst (λ k. IsTerminated k (expire env x s).1) same
        (expire_own env nodes reach x s at_nodes (subst (λ k. HasRow k s) (sym same) h))

  expire_keeps :
      (x : Instance) (s : World)
      → s.nodes ≡ nodes
      → IsTerminated id s
      → IsTerminated id (expire env x s).1
  expire_keeps x s at_nodes d = elim (Bool-cases (x.id == id)) [
    | inl same ↦ expire-own_row x s at_nodes ((eq_iff x.id id).0 same) (d.row, d.found)
    | inr ne ↦ record {
      row = d.row;
      found =
          ((expire-only env x).at s).1 id (λ q. false≢true (sym ne ∙ (eq_iff x.id id).1 (sym q)))
          ∙ d.found;
      is_terminated = d.is_terminated;
      dated = d.dated;
    }
  ]

  each_keeps :
      (xs : List Instance) (s : World)
      → s.nodes ≡ nodes
      → IsTerminated id s
      → IsTerminated id (for_each xs (expire env) s).1
  unfolding for_each
  each_keeps [] s at_nodes d = unfold pure in d
  each_keeps (x ∷ xs) s at_nodes d =
      rw (bind-ok (expire env x) (λ _. for_each xs (expire env)) s tt (expire-Total env x s)) (
        each_keeps xs (expire env x s).1 (expire-nodes env x s ∙ at_nodes)
          (expire_keeps x s at_nodes d))

  -- A batch with a row of the identifier ends with that row terminated.
  each_terminates :
      (xs : List Instance) (s : World)
      → s.nodes ≡ nodes
      → any (λ (x : Instance). x.id == id) xs ≡ true
      → HasRow id s
      → IsTerminated id (for_each xs (expire env) s).1
  unfolding for_each
  each_terminates [] s at_nodes a h = absurd (false≢true a)
  each_terminates (x ∷ xs) s at_nodes a h =
      rw (bind-ok (expire env x) (λ _. for_each xs (expire env)) s tt (expire-Total env x s))
        (elim (Bool-cases (x.id == id)) [
          | inl same ↦
              each_keeps xs (expire env x s).1 (expire-nodes env x s ∙ at_nodes)
                (expire-own_row x s at_nodes ((eq_iff x.id id).0 same) h)
          | inr ne ↦
              each_terminates xs (expire env x s).1 (expire-nodes env x s ∙ at_nodes) (rw ne at a)
                (still_some x.id id s (expire env x s).1 h.0 ((expire-only env x).at s) h.1)
        ])

  first_sweep :
      (t : ℕ) (s : World) (r : Instance)
      → s.nodes ≡ nodes
      → lookup instance_key id s.instances ≡ some r
      → is_expired t r ≡ true
      → length (filter (is_expired t) s.instances) ≤ batch
      → IsTerminated id (sweep (is_expired t) (expire env) s).1
  unfolding sweep ◌>>=◌ batch_of
  first_sweep t s r at_nodes e x few =
      rw (take-all batch (filter (is_expired t) s.instances) few)
        (each_terminates _ s at_nodes (any-filter id (is_expired t) s.instances r e x) (r, e))

not_idle : (t : ℕ) (r : Instance) → r.status ≡ terminated → is_idle t r ≡ false
not_idle t r h = ground (arith, ap is_up h)

not_stale : (t : ℕ) (r : Instance) → r.status ≡ terminated → is_stale t r ≡ false
not_stale t r h = ground (arith, ap is_paused h)

module _ (env : Env) (id : String) (t : ℕ) where
  rules_terminate :
      (s : World) (r : Instance)
      → AllReachable env s.nodes
      → IsKeyed s.instances
      → lookup instance_key id s.instances ≡ some r
      → is_expired t r ≡ true
      → length (filter (is_expired t) s.instances) ≤ batch
      → IsTerminated id (apply_rules env t s).1
  unfolding apply_rules
  rules_terminate s r reach keyed e x few =
      let first = sweep (is_expired t) (expire env) in
      let second = sweep (is_idle (suspend_before env t)) (put_to_sleep env) in
      let third = sweep (is_stale (hard_kill_before env t)) (expire env) in
      let s' : World = (first s).1 in
      let d : IsTerminated id s' = first_sweep env s.nodes reach id t s r refl e x few in
      let start : Holds id d.row s' = record {
        row = d.found;
        keyed = subst Distinct (sym ((sweep-keys env (is_expired t)).at s)) keyed;
      } in
      let last =
        then-Holds id d.row second third s'
          (sweep-Holds id d.row (is_idle (suspend_before env t)) (put_to_sleep env)
            (put_to_sleep-only env) (not_idle _ d.row d.is_terminated) s' start)
          (sweep-Holds id d.row (is_stale (hard_kill_before env t)) (expire env) (expire-only env)
            (not_stale _ d.row d.is_terminated)) in
      rw
        (bind-ok first (λ _. second >> third) s tt
          (sweep-Total env (is_expired t) (expire env) (expire-Total env) s))
        (record { row = d.row; found = last.row; is_terminated = d.is_terminated; dated = d.dated })

-- Where the nodes of the fleet are such that the host of every instance can be resolved, an instance that has expired at the time of the tick is terminated
-- after it, provided that no more instances have expired than one batch takes. The identifiers are
-- distinct before.
pub reaper_terminates :
    (env : Env) (w : World) (id : String) (r : Instance)
    → AllReachable env w.nodes
    → IsKeyed w.instances
    → lookup instance_key id w.instances ≡ some r
    → is_expired (tick_time env w) r ≡ true
    → length (filter (is_expired (tick_time env w)) w.instances) ≤ batch
    → IsTerminated id (reconcile_once env w).1
unfolding reconcile_once ◌>>=◌ now ask
reaper_terminates env w id r reach keyed e x few =
    rules_terminate env id (tick_time env w) (record w { calls = date_now ∷ w.calls }) r reach keyed
      e x few
