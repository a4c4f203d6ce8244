-- ===== src/Frame/Placement.antt =====
-- The choice of a node writes no instance.
use labforge.Base.{ℕ, String, Option, none, some, List, [], ◌∷◌}
use labforge.Exec.Moves.{Moves, Moves-bind, Moves-pure}
use labforge.Data.{Node}
use labforge.World.{M, Env, Scheduler, spread, pinned}
use labforge.Frame.Rows.{same_rows}
use labforge.Frame.Leaves.{leaf_rules, set_cursor-rows, get_node_runtime-rows}
use labforge.Nodes.Pick.{take_pick, pick_ring, pick_from, pick_least_loaded_node}
use labforge.Nodes.Resolve.{
  or_try, fall_back, resolve_override, after_spread, schedule_by, schedule, use_pin, find_pin,
  resolve_pinned, resolve_over, resolve_node_for_provision, nonempty,
}
use labforge.Orchestrator.Provision.{
  ProvisionInput, probe_holders, sticky_node, or_resolve, choose_node,
}

take_pick-rows :
    (key : String) (size : ℕ) (p : Option (ℕ × Node)) → Moves same_rows (take_pick key size p)
unfolding take_pick
take_pick-rows key size none = search leaf_rules
take_pick-rows key size (some (idx, n)) = search (leaf_rules, set_cursor-rows)

pick_ring-rows : (key : String) (ring : List Node) → Moves same_rows (pick_ring key ring)
unfolding pick_ring
pick_ring-rows key ring = search (leaf_rules, take_pick-rows)

pick_from-rows :
    (whitelist : List String) (ring : List Node) → Moves same_rows (pick_from whitelist ring)
unfolding pick_from
pick_from-rows whitelist [] = search leaf_rules
pick_from-rows whitelist (n ∷ []) = search leaf_rules
pick_from-rows whitelist (n ∷ m ∷ ns) = pick_ring-rows _ _

or_try-rows :
    (n : Option Node) (k : M (Option Node)) → Moves same_rows k → Moves same_rows (or_try n k)
unfolding or_try
or_try-rows none k h = h
or_try-rows (some n) k h = search leaf_rules

fall_back-rows : Moves same_rows fall_back
unfolding fall_back
fall_back-rows = search (leaf_rules, or_try-rows)

module _ (env : Env) where
  pub pick-rows : (whitelist : List String) → Moves same_rows (pick_least_loaded_node env whitelist)
  unfolding pick_least_loaded_node
  pick-rows whitelist = search (leaf_rules, pick_from-rows)

  resolve_override-rows : (ids : List String) → Moves same_rows (resolve_override env ids)
  unfolding resolve_override
  resolve_override-rows ids = search (leaf_rules, pick-rows, or_try-rows) depth 9

  after_spread-rows :
      (allowed : List String) (n : Option Node) → Moves same_rows (after_spread allowed n)
  unfolding after_spread
  after_spread-rows allowed (some n) = search leaf_rules
  after_spread-rows [] none = fall_back-rows
  after_spread-rows (a ∷ allowed) none = search leaf_rules

  schedule_by-rows :
      (s : Scheduler) (allowed : List String) → Moves same_rows (schedule_by s env allowed)
  unfolding schedule_by
  schedule_by-rows pinned allowed = fall_back-rows
  schedule_by-rows spread allowed = search (leaf_rules, pick-rows, after_spread-rows)

  use_pin-rows : (allowed : List String) (n : Option Node) → Moves same_rows (use_pin env allowed n)
  unfolding use_pin schedule
  use_pin-rows allowed none = schedule_by-rows _ allowed
  use_pin-rows allowed (some n) = search leaf_rules

  find_pin-rows : (id : Option String) → Moves same_rows (find_pin id)
  unfolding find_pin
  find_pin-rows none = search leaf_rules
  find_pin-rows (some id) = search leaf_rules

  resolve_over-rows :
      (tenant template : String) (ids : List String)
      → Moves same_rows (resolve_over env tenant template ids)
  unfolding resolve_over resolve_pinned
  resolve_over-rows tenant template [] = search (leaf_rules, find_pin-rows, use_pin-rows) depth 9
  resolve_over-rows tenant template (id ∷ ids) = resolve_override-rows (id ∷ ids)

  pub resolve-rows :
      (tenant template : String) (ids : List String)
      → Moves same_rows (resolve_node_for_provision env tenant template ids)
  unfolding resolve_node_for_provision
  resolve-rows tenant template ids = resolve_over-rows tenant template (nonempty ids)

  probe_holders-rows :
      (volume : String) (ns : List Node) → Moves same_rows (probe_holders env volume ns)
  unfolding probe_holders
  probe_holders-rows volume [] = search leaf_rules
  probe_holders-rows volume (n ∷ ns) =
      Moves-bind _ _ (search (leaf_rules, get_node_runtime-rows))
        λ has. Moves-bind _ _ (probe_holders-rows volume ns) (λ rest. Moves-pure _)

  sticky_node-rows :
      (input : ProvisionInput) (volume : Option String)
      → Moves same_rows (sticky_node env input volume)
  unfolding sticky_node
  sticky_node-rows input none = search leaf_rules
  sticky_node-rows input (some volume) = search (leaf_rules, probe_holders-rows)

  or_resolve-rows :
      (input : ProvisionInput) (n : Option Node) → Moves same_rows (or_resolve env input n)
  unfolding or_resolve
  or_resolve-rows input (some n) = search leaf_rules
  or_resolve-rows input none = resolve-rows _ _ _

  pub choose_node-rows :
      (input : ProvisionInput) (volume : Option String)
      → Moves same_rows (choose_node env input volume)
  unfolding choose_node
  choose_node-rows input volume = search (leaf_rules, sticky_node-rows, or_resolve-rows)
