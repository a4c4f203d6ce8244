-- ===== src/Reaper/Effects.antt =====
-- What a tick of the reaper achieves.
use labforge.Base.{ℕ, String, ◌≡◌, refl, ap, ◌∙◌, Bool, true, Option, some, List, [], ◌∷◌}
use labforge.Exec.{Result, ok, err, pure, gets, handle, try_catch, for_each, ◌>>=◌}
use labforge.Orchestrator.Lifecycle.{suspend_instance}
use labforge.Redeem.Guards.{ticked}
use labforge.Exec.Laws.{Total, Total-bind, Total-try_catch, Total-for_each, try_catch-ok, bind-ok}
use labforge.Data.{Instance, Node}
use labforge.World.{World, M, Env, Runtime}
use labforge.Store.{instance_key, now, ask}
use labforge.Table.{lookup}
use labforge.Frame.Nodes.{destroy_instance-nodes}
use labforge.Orchestrator.Hosts.{runtime_for}
use labforge.Orchestrator.Destroy.{destroy_instance}
use labforge.Orchestrator.Destroy.Outcome.{IsTerminated, destroy_instance-terminates}
use labforge.Reaper.{
  batch_of, expire, put_to_sleep, sweep, apply_rules, reconcile_once, tick_time, is_expired,
  is_idle, is_stale, suspend_before, hard_kill_before,
}

-- Row after row, each from the state that the one before it left.
abbrev pub each : (Instance → M (Unit {0})) → List Instance → World → World
each op [] s = s
each op (x ∷ xs) s = each op xs (op x s).1

-- One rule: its batch, row after row.
abbrev pub rule : (Instance → Bool) → (Instance → M (Unit {0})) → World → World
rule p op s = each op (batch_of p s) s

-- The three rules in turn.
abbrev pub ruled : Env → ℕ → World → World
ruled env t s =
    rule (is_stale (hard_kill_before env t)) (λ x. destroy_instance env x.id true)
      (rule (is_idle (suspend_before env t)) (λ x. suspend_instance env x.id)
        (rule (is_expired t) (λ x. destroy_instance env x.id true) s))

swallow : (r : Result (Unit {0})) (s : World) → handle r (λ _. pure tt) s ≡ (ok tt, s)
unfolding pure
swallow (ok a) s = refl
swallow (err e) s = refl

-- What is caught stays written.
swallows : (m : M (Unit {0})) (s : World) → try_catch m (λ _. pure tt) s ≡ (ok tt, (m s).1)
unfolding try_catch
swallows m s = swallow (m s).0 (m s).1

goes_on : (m n : M (Unit {0})) (s t : World) → m s ≡ (ok tt, t) → (m >>= λ _. n) s ≡ n t
goes_on m n s t h = bind-ok m (λ _. n) s tt (ap (λ p. p.0) h) ∙ ap (λ p. n p.1) h

module _ (env : Env) where
  pub expire-Total : (x : Instance) → Total (expire env x)
  unfolding expire
  expire-Total x = Total-try_catch _

  pub expire-nodes : (x : Instance) (s : World) → (expire env x s).1.nodes ≡ s.nodes
  unfolding expire
  expire-nodes x s =
      ap (λ p. p.1.nodes) (swallows (destroy_instance env x.id true) s)
      ∙ (destroy_instance-nodes env x.id true).at s

  pub put_to_sleep-Total : (x : Instance) → Total (put_to_sleep env x)
  unfolding put_to_sleep
  put_to_sleep-Total x = Total-try_catch _

  pub sweep-Total :
      (p : Instance → Bool) (body : Instance → M (Unit {0}))
      → ((x : Instance) → Total (body x))
      → Total (sweep p body)
  unfolding sweep ◌>>=◌
  sweep-Total p body h s = Total-for_each (batch_of p s) body h s

  apply_rules-Total : (t : ℕ) → Total (apply_rules env t)
  unfolding apply_rules
  apply_rules-Total t =
      Total-bind _ _ (sweep-Total _ _ expire-Total)
        (Total-bind _ _ (sweep-Total _ _ put_to_sleep-Total) (sweep-Total _ _ expire-Total))

  for_each-each :
      (xs : List Instance) (op : Instance → M (Unit {0})) (s : World)
      → for_each xs (λ x. try_catch (op x) (λ _. pure tt)) s ≡ (ok tt, each op xs s)
  unfolding for_each pure
  for_each-each [] op s = refl
  for_each-each (x ∷ xs) op s =
      let caught = swallows (op x) s in
      bind-ok (try_catch (op x) (λ _. pure tt)) _ s tt (ap (λ p. p.0) caught)
      ∙ ap (for_each xs (λ y. try_catch (op y) (λ _. pure tt))) (ap (λ p. p.1) caught)
      ∙ for_each-each xs op (op x s).1

  sweep-each :
      (p : Instance → Bool) (op : Instance → M (Unit {0})) (s : World)
      → sweep p (λ x. try_catch (op x) (λ _. pure tt)) s ≡ (ok tt, each op (batch_of p s) s)
  unfolding sweep ◌>>=◌ gets
  sweep-each p op s = for_each-each (batch_of p s) op s

  apply_rules-each : (t : ℕ) (s : World) → apply_rules env t s ≡ (ok tt, ruled env t s)
  unfolding apply_rules expire put_to_sleep
  apply_rules-each t s =
      let stop = λ (x : Instance). destroy_instance env x.id true in
      let first = is_expired t in
      let second = is_idle (suspend_before env t) in
      let third = is_stale (hard_kill_before env t) in
      let doze = λ (x : Instance). suspend_instance env x.id in
      let s1 = rule first stop s in
      goes_on _ _ s s1 (sweep-each first stop s)
      ∙ goes_on _ _ s1 (rule second doze s1) (sweep-each second doze s1)
      ∙ sweep-each third stop (rule second doze s1)

  -- A tick never throws, and an error on one row ends only the work on that row: the tick is the same as a
  -- plain fold that takes the clock, then for each rule in turn the batch of the rows that meet it, and for
  -- each row of it goes on from the state that the destruction or the suspension left, whether that returned or
  -- threw.
  pub reconcile_once-each :
      (w : World) → reconcile_once env w ≡ (ok tt, ruled env (tick_time env w) (ticked w))
  unfolding reconcile_once ◌>>=◌ now ask
  reconcile_once-each w = apply_rules-each (tick_time env w) (ticked w)

-- With these nodes, the host of every instance can be resolved, whatever else happened before.
abbrev pub AllReachable : Env → List Node → Type 0
AllReachable env nodes =
    (node_id : Option String) (s : World)
    → s.nodes ≡ nodes
    → (rt : Runtime) × ((runtime_for env node_id s).0 ≡ ok rt)

abbrev pub HasRow : String → World → Type 0
HasRow id s = (r : Instance) × (lookup instance_key id s.instances ≡ some r)

module _ (env : Env) (nodes : List Node) (reach : AllReachable env nodes) where
  expire_world :
      (x : Instance) (s : World)
      → s.nodes ≡ nodes
      → HasRow x.id s
      → (expire env x s).1 ≡ (destroy_instance env x.id true s).1
  unfolding expire
  expire_world x s same (r, e) =
      let (rt, h) = reach r.node_id s same in
      ap (λ p. p.1)
        (try_catch-ok (destroy_instance env x.id true) (λ _. pure tt) s tt
          (destroy_instance-terminates env x.id true s r rt e h).0)

  pub expire_own :
      (x : Instance) (s : World)
      → s.nodes ≡ nodes
      → HasRow x.id s
      → IsTerminated x.id (expire env x s).1
  expire_own x s same (r, e) =
      let (rt, h) = reach r.node_id s same in
      rw (expire_world x s same (r, e)) ((destroy_instance-terminates env x.id true s r rt e h).1)
