-- ===== src/Nodes/Resolve/Pool.antt =====
-- The scheduler within the pool of a template.
use labforge.Base.{
  ℕ, ◌≡◌, ◌⊎◌, refl, ap, ◌∙◌, true, false, Option, none, some, List, [], ◌∷◌, String, All, inl, inr,
}
use labforge.Exec.{no_healthy_node, ok, err, pure, raise, gets, modify, ◌>>=◌}
use labforge.Exec.Laws.{bind-ok}
use labforge.Data.{Node}
use labforge.World.{World, M, Env, spread}
use labforge.Store.{now, ask}
use labforge.Nodes.Pick.{
  full, load, pick_only, take_pick, pick_ring, pick_from, candidates, pick_least_loaded_node,
}
use labforge.Nodes.Pick.Choice.{IsCandidate, cutoff}
use labforge.Nodes.Pick.Contract.{pick-IsCandidate, pick-none-full}
use labforge.Nodes.Resolve.{after_spread, schedule_by, schedule}

abbrev Returns : M (Option Node) → World → Type 0
Returns m w = (o : Option Node) × ((m w).0 ≡ ok o)

take_pick-Returns :
    (key : String) (size : ℕ) (o : Option (ℕ × Node)) (w : World) → Returns (take_pick key size o) w
unfolding take_pick pure modify ◌>>=◌
take_pick-Returns key size none w = (none, refl)
take_pick-Returns key size (some (idx, n)) w = (some n, refl)

pick_from-Returns :
    (whitelist : List String) (ring : List Node) (w : World) → Returns (pick_from whitelist ring) w
unfolding pick_from pick_ring pure gets ◌>>=◌
pick_from-Returns whitelist [] w = (none, refl)
pick_from-Returns whitelist (m ∷ []) w = (pick_only m w, refl)
pick_from-Returns whitelist (m ∷ k ∷ ks) w = take_pick-Returns _ _ _ w

-- Picking a node never throws.
pick-Returns :
    (env : Env) (whitelist : List String) (w : World)
    → Returns (pick_least_loaded_node env whitelist) w
unfolding pick_least_loaded_node now ask ◌>>=◌ gets
pick-Returns env whitelist w = pick_from-Returns whitelist _ _

module _ (env : Env) (a : String) (allowed : List String) (w : World)
    (e : env.config.lab_scheduler ≡ spread) where
  scheduled :
      (o : Option Node)
      → (pick_least_loaded_node env (a ∷ allowed) w).0 ≡ ok o
      → (schedule env (a ∷ allowed) w).0
        ≡ (after_spread (a ∷ allowed) o (pick_least_loaded_node env (a ∷ allowed) w).1).0
  unfolding schedule schedule_by
  scheduled o h =
      ap (λ k. (schedule_by k env (a ∷ allowed) w).0) e
      ∙ ap (λ p. p.0)
          (bind-ok (pick_least_loaded_node env (a ∷ allowed)) (after_spread (a ∷ allowed)) w o h)

-- Once neither an override nor a pin has decided, and with the spread scheduler, a template that restricts its nodes gets a node of its pool with room, or
-- the error that no healthy node has room, and then every candidate of the pool is at its cap.
pub schedule-pool :
    (env : Env) (a : String) (allowed : List String) (w : World)
    → env.config.lab_scheduler ≡ spread
    → let pool = a ∷ allowed in
      ((n : Node) × ((schedule env pool w).0 ≡ ok (some n))
        × IsCandidate env pool w n
        × (full (load w) n ≡ false))
      ⊎ (((schedule env pool w).0 ≡ err no_healthy_node)
          × All (λ m. full (load w) m ≡ true) (candidates env (cutoff env w) pool w))
schedule-pool env a allowed w e =
    decide (pick-Returns env (a ∷ allowed) w).0 (pick-Returns env (a ∷ allowed) w).1
  where
    decide :
        (o : Option Node)
        → (pick_least_loaded_node env (a ∷ allowed) w).0 ≡ ok o
        → ((n : Node) × ((schedule env (a ∷ allowed) w).0 ≡ ok (some n))
            × IsCandidate env (a ∷ allowed) w n
            × (full (load w) n ≡ false))
          ⊎ (((schedule env (a ∷ allowed) w).0 ≡ err no_healthy_node)
              × All (λ m. full (load w) m ≡ true) (candidates env (cutoff env w) (a ∷ allowed) w))
    decide none h = inr (
      unfold after_spread raise in scheduled env a allowed w e none h,
      pick-none-full env (a ∷ allowed) w h,
    )
    decide (some n) h =
        let fine = pick-IsCandidate env (a ∷ allowed) w n h in
        inl
          (n, (unfold after_spread pure in scheduled env a allowed w e (some n) h), fine.0, fine.1)
