-- ===== src/Nodes/Resolve/Enabled.antt =====
-- The node that `resolveNodeForProvision` returns, on each of its branches.
use mathlib.Core.Path.{subst}
use labforge.Base.{
  ◌≡◌, refl, Bool, true, false, ◌&&◌, Option, none, some, List, [], ◌∷◌, String, arith, find, All,
  All-filter, All-take, find_passes, if◌then◌else◌,
}
use labforge.Exec.{Error, Result, ok, err, pure, raise, gets, ◌>>=◌}
use labforge.Exec.Triple.{Post, Triple, Triple-bind, Triple-pure, Triple-raise, Triple-keep}
use labforge.Data.{Node}
use labforge.World.{World, M, Env, Scheduler, spread, pinned}
use labforge.Nodes.Pick.{pick_least_loaded_node}
use labforge.Nodes.Pick.Contract.{pick-IsCandidate}
use labforge.Nodes.Resolve.{
  nonempty, default_node, single, only_enabled, or_try, fall_back, resolve_override, after_spread,
  schedule_by, schedule, use_pin, resolve_pinned, resolve_over, resolve_node_for_provision,
}

abbrev pub Enabled : Option Node → Type 0
Enabled none = Unit
Enabled (some n) = n.enabled ≡ true

-- Whatever the state before, what is returned meets `P`.
abbrev Yields : {A : Type 0} → (A → Type 0) → M A → Type 0
Yields P m = Triple (λ _. Unit {0}) (λ a _. P a) (λ _ _. Unit {0}) m

find_enabled : (ns : List Node) → Enabled (find (λ (n : Node). n.enabled && n.is_default) ns)
find_enabled ns = go (find (λ (n : Node). n.enabled && n.is_default) ns) refl
  where
    go : (o : Option Node) → find (λ (n : Node). n.enabled && n.is_default) ns ≡ o → Enabled o
    go none e = tt
    go (some n) e =
        let passes = find_passes (λ (n : Node). n.enabled && n.is_default) ns e in
        ground (arith, passes)

single_enabled : (ns : List Node) → All (λ n. n.enabled ≡ true) ns → Enabled (single ns)
single_enabled [] h = tt
single_enabled (n ∷ []) h = h.0
single_enabled (n ∷ m ∷ ns) h = tt

default_node-Enabled : Yields Enabled (gets default_node)
unfolding gets default_node
default_node-Enabled = record { run = λ s _. find_enabled s.nodes }

only_enabled-Enabled : Yields Enabled (gets only_enabled)
unfolding gets only_enabled
only_enabled-Enabled = record {
  run = λ s _. single_enabled _ (All-take _ 2 _ (All-filter _ _ s.nodes (λ x h. h)));
}

or_try-Enabled :
    (o : Option Node) (k : M (Option Node))
    → Enabled o
    → Yields Enabled k
    → Yields Enabled (or_try o k)
unfolding or_try
or_try-Enabled none k h y = y
or_try-Enabled (some n) k h y = Triple-pure _ (λ s p. h)

-- What was found is tried first.
try_first :
    (m k : M (Option Node))
    → Yields Enabled m
    → Yields Enabled k
    → Yields Enabled (m >>= λ o. or_try o k)
try_first m k hm hk =
    Triple-bind _ _ hm λ o. record { run = λ s h. (or_try-Enabled o k h hk).run s tt }

fall_back-Enabled : Yields Enabled fall_back
unfolding fall_back
fall_back-Enabled = try_first _ _ default_node-Enabled only_enabled-Enabled

module _ (env : Env) where
  pick-Enabled : (whitelist : List String) → Yields Enabled (pick_least_loaded_node env whitelist)
  pick-Enabled whitelist = record {
    run = λ s _. go s (pick_least_loaded_node env whitelist s).0 refl;
  }
    where
      go :
          (s : World) (r : Result (Option Node))
          → (pick_least_loaded_node env whitelist s).0 ≡ r
          → Post (λ a _. Enabled a) (λ _ _. Unit {0}) r (pick_least_loaded_node env whitelist s).1
      go s (err x) e = tt
      go s (ok none) e = tt
      go s (ok (some n)) e = let h = (pick-IsCandidate env whitelist s n e).0.1 in ground (arith, h)

  resolve_override-Enabled : (ids : List String) → Yields Enabled (resolve_override env ids)
  unfolding resolve_override
  resolve_override-Enabled ids =
      try_first _ _ (pick-Enabled ids)
        (try_first _ _ default_node-Enabled (try_first _ _ (pick-Enabled []) only_enabled-Enabled))

  after_spread-Enabled :
      (allowed : List String) (o : Option Node)
      → Enabled o
      → Yields Enabled (after_spread allowed o)
  unfolding after_spread
  after_spread-Enabled allowed (some n) h = Triple-pure _ (λ s p. h)
  after_spread-Enabled [] none h = fall_back-Enabled
  after_spread-Enabled (a ∷ rest) none h = Triple-raise _ (λ s p. tt)

  schedule_by-Enabled :
      (s : Scheduler) (allowed : List String) → Yields Enabled (schedule_by s env allowed)
  unfolding schedule_by
  schedule_by-Enabled pinned allowed = fall_back-Enabled
  schedule_by-Enabled spread allowed =
      Triple-bind _ _ (pick-Enabled allowed)
        λ o. record { run = λ s h. (after_spread-Enabled allowed o h).run s tt }

  pin_if :
      (n : Node) (b : Bool)
      → n.enabled ≡ b
      → Yields Enabled (if b then pure (some n) else raise Error.pinned_disabled)
  pin_if n true e = Triple-pure _ (λ s p. e)
  pin_if n false e = Triple-raise _ (λ s p. tt)

  use_pin-Enabled :
      (allowed : List String) (o : Option Node) → Yields Enabled (use_pin env allowed o)
  unfolding use_pin schedule
  use_pin-Enabled allowed none = schedule_by-Enabled _ allowed
  use_pin-Enabled allowed (some n) = pin_if n n.enabled refl

  any_result : {A : Type 0} (m : M A) → Yields (λ _. Unit {0}) m
  any_result m = Triple-keep m (λ s p. tt) (λ a s p. tt) (λ e s p. tt)

  resolve_over-Enabled :
      (tenant template : String) (ids : List String)
      → Yields Enabled (resolve_over env tenant template ids)
  unfolding resolve_over resolve_pinned
  resolve_over-Enabled tenant template [] = Triple-bind _ _ (any_result _) λ t.
      Triple-bind _ _ (any_result _)
        λ u. Triple-bind _ _ (any_result _) (λ pin. use_pin-Enabled _ pin)
  resolve_over-Enabled tenant template (id ∷ ids) = resolve_override-Enabled (id ∷ ids)

-- A node that `resolveNodeForProvision` returns is enabled, whether the request, the tenant, the template,
-- the scheduler or a fallback has chosen it. Nothing is said where it returns no node.
pub resolve-Enabled :
    (env : Env) (tenant_id template_id : String) (override : List String) (w : World) (n : Node)
    → (resolve_node_for_provision env tenant_id template_id override w).0 ≡ ok (some n)
    → n.enabled ≡ true
unfolding resolve_node_for_provision
resolve-Enabled env tenant_id template_id override w n h =
    subst
      (λ r.
        Post (λ a _. Enabled a) (λ _ _. Unit {0}) r
          (resolve_over env tenant_id template_id (nonempty override) w).1)
      h ((resolve_over-Enabled env tenant_id template_id (nonempty override)).run w tt)
