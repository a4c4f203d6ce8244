-- ===== src/Along/Ticks.antt =====
-- The background loops: the reaper, the warm pool, the drift reconciler and the health poller.
use labforge.Base.{ℕ, zero, suc, String, Bool, true, false, Option, none, some, List, [], ◌∷◌, refl}
use labforge.Exec.Moves.{Guarantee, Moves, Moves-bind, Moves-for_each, Moves-gets, moves_rules}
use labforge.Data.{Instance, Spec, Node, Template}
use labforge.World.{World, M, Env}
use labforge.Along.{IsClosed, modify-Along, along_rules}
use labforge.Along.Hosts.{runtime_for-Along, build_docker_client-Along}
use labforge.Along.Rows.{
  destroy_instance-Along, suspend_instance-Along, sync_instance_upstream-Along,
}
use labforge.Along.Labs.{provision_new-Along}
use labforge.Nodes.Runtimes.{invalidate_node_runtime}
use labforge.Reaper.{expire, put_to_sleep, sweep, apply_rules, reconcile_once}
use labforge.Prewarm.{warm_one, warm_times, warm_spec, warm_template, reconcile_pool}
use labforge.Orchestrator.Reconcile.{
  Tally, reconcile_row, reconcile_rows, resync_once, reconcile_active_instance_networking_drift,
}
use labforge.NodeHealth.{
  Ping, reachable, unreachable, ping_node, record_ping, poll_node, poll_all_nodes,
}

module _ (g : Guarantee World) (c : IsClosed g) (env : Env) where
  expire-Along : (i : Instance) → Moves g (expire env i)
  unfolding expire
  expire-Along i = search (moves_rules, destroy_instance-Along)

  put_to_sleep-Along : (i : Instance) → Moves g (put_to_sleep env i)
  unfolding put_to_sleep
  put_to_sleep-Along i = search (moves_rules, suspend_instance-Along)

  sweep-Along :
      (p : Instance → Bool) (body : Instance → M (Unit {0}))
      → ((i : Instance) → Moves g (body i))
      → Moves g (sweep p body)
  unfolding sweep
  sweep-Along p body h = Moves-bind _ _ (Moves-gets _) λ rows. Moves-for_each rows body h

  pub reconcile_once-Along : Moves g (reconcile_once env)
  unfolding reconcile_once apply_rules
  reconcile_once-Along = search (along_rules, sweep-Along, expire-Along, put_to_sleep-Along)

  warm_one-Along : (t : Template) → Moves g (warm_one env t)
  unfolding warm_one
  warm_one-Along t = search (along_rules, provision_new-Along)

  warm_times-Along : (t : Template) (n : ℕ) → Moves g (warm_times env t n)
  unfolding warm_times
  warm_times-Along t zero = search along_rules
  warm_times-Along t (suc n) = Moves-bind _ _ (warm_one-Along t) (λ u. warm_times-Along t n)

  warm_spec-Along : (t : Template) (s : Option Spec) → Moves g (warm_spec env t s)
  unfolding warm_spec
  warm_spec-Along t none = search along_rules
  warm_spec-Along t (some s) = search (along_rules, warm_times-Along)

  pub reconcile_pool-Along : Moves g (reconcile_pool env)
  unfolding reconcile_pool warm_template
  reconcile_pool-Along = Moves-bind _ _ (Moves-gets _) λ ts. Moves-for_each ts _ warm_template-Along
    where
      warm_template-Along : (t : Template) → Moves g (warm_template env t)
      warm_template-Along t = warm_spec-Along t _

  reconcile_row-Along : (i : Instance) (t : Tally) → Moves g (reconcile_row env i t)
  unfolding reconcile_row
  reconcile_row-Along i t = search (along_rules, runtime_for-Along, sync_instance_upstream-Along)

  reconcile_rows-Along : (is : List Instance) (t : Tally) → Moves g (reconcile_rows env is t)
  unfolding reconcile_rows
  reconcile_rows-Along [] t = search along_rules
  reconcile_rows-Along (i ∷ is) t =
      Moves-bind _ _ (reconcile_row-Along i t) (λ u. reconcile_rows-Along is u)

  resync_once-Along : (b : Bool) → Moves g (resync_once env b)
  unfolding resync_once
  resync_once-Along false = search along_rules
  resync_once-Along true = search along_rules

  pub reconcile_drift-Along : Moves g (reconcile_active_instance_networking_drift env)
  unfolding reconcile_active_instance_networking_drift
  reconcile_drift-Along = search (along_rules, reconcile_rows-Along, resync_once-Along)

  ping_node-Along : (n : Node) → Moves g (ping_node env n)
  unfolding ping_node
  ping_node-Along n = search (along_rules, build_docker_client-Along)

  invalidate-Along : (id : String) → Moves g (invalidate_node_runtime id)
  unfolding invalidate_node_runtime
  invalidate-Along id = modify-Along g c _ (λ s. refl) (λ s. refl)

  record_ping-Along : (n : Node) (p : Ping) → Moves g (record_ping env n p)
  unfolding record_ping
  record_ping-Along n (reachable v) = search along_rules
  record_ping-Along n (unreachable e) = search (along_rules, invalidate-Along)

  poll_node-Along : (n : Node) → Moves g (poll_node env n)
  unfolding poll_node
  poll_node-Along n = search (along_rules, ping_node-Along, record_ping-Along)

  pub poll_all_nodes-Along : Moves g (poll_all_nodes env)
  unfolding poll_all_nodes
  poll_all_nodes-Along = search (along_rules, poll_node-Along)
