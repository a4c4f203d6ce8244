-- ===== src/Orchestrator/Lifecycle/Quiet.antt =====
-- Waiting for a lab writes no instance.
use labforge.Base.{ℕ, zero, suc, String, Bool, true, false, Option, none, some}
use labforge.Exec.Moves.{Moves, Moves-bind}
use labforge.Data.{Scheme}
use labforge.World.{M, Env, Runtime}
use labforge.Frame.Rows.{same_rows}
use labforge.Frame.Leaves.{leaf_rules, now-rows}
use labforge.Orchestrator.Lifecycle.{
  wait_answer, wait_round, wait_loop, wait_until_ready, wait_upstream,
}

module _ (env : Env) (rt : Runtime) (id : String) where
  wait_answer-rows :
      (again : M (Option Bool)) (b : Bool)
      → Moves same_rows again
      → Moves same_rows (wait_answer env again b)
  unfolding wait_answer
  wait_answer-rows again true h = search leaf_rules
  wait_answer-rows again false h = search leaf_rules

  wait_round-rows :
      (upstream : String) (scheme : Scheme) (again : M (Option Bool)) (b : Bool)
      → Moves same_rows again
      → Moves same_rows (wait_round env rt id upstream scheme again b)
  unfolding wait_round
  wait_round-rows upstream scheme again false h = search leaf_rules
  wait_round-rows upstream scheme again true h = search (leaf_rules, wait_answer-rows)

  wait_loop-rows :
      (upstream : String) (scheme : Scheme) (deadline fuel : ℕ)
      → Moves same_rows (wait_loop env rt id upstream scheme deadline fuel)
  unfolding wait_loop
  wait_loop-rows upstream scheme deadline zero = search leaf_rules
  wait_loop-rows upstream scheme deadline (suc fuel) =
      Moves-bind _ _ (now-rows env)
        λ t. wait_round-rows upstream scheme _ _ (wait_loop-rows upstream scheme deadline fuel)

  pub wait_upstream-rows :
      (upstream : Option String) (ms : ℕ) (scheme : Scheme)
      → Moves same_rows (wait_upstream env rt id upstream ms scheme)
  unfolding wait_upstream wait_until_ready
  wait_upstream-rows none ms scheme = search leaf_rules
  wait_upstream-rows (some u) ms scheme = search (leaf_rules, wait_loop-rows)
