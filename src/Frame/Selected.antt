-- ===== src/Frame/Selected.antt =====
-- Rows that a query returns: each is the row of its identifier, and passes the test of the query.
use labforge.Base.{
  ◌≡◌, refl, eq_iff, eq_refl, Bool, true, false, Option, some, List, [], ◌∷◌, map, filter, find,
  All, arith, if◌then◌else◌, Option-cases, inl, inr, leb,
}
use labforge.Data.{Instance}
use labforge.Store.{instance_key}
use labforge.Table.{lookup}
use labforge.Frame.Keys.{Absent, IsKeyed}
use labforge.Orchestrator.Provision.{newest}

abbrev IsRow : List Instance → Instance → Type 0
IsRow rs x = lookup instance_key x.id rs ≡ some x

skip_head :
    (x : Instance) (ts xs : List Instance)
    → Absent x.id (map instance_key xs)
    → All (IsRow ts) xs
    → All (IsRow (x ∷ ts)) xs
unfolding lookup
skip_head x ts [] h k = tt
skip_head x ts (y ∷ ys) h k =
    (ground (arith, eq_iff x.id y.id, h.0, k.0), skip_head x ts ys h.1 k.1)

All-rows : (rs : List Instance) → IsKeyed rs → All (IsRow rs) rs
unfolding lookup
All-rows [] h = tt
All-rows (x ∷ xs) h = (rw (eq_refl x.id) refl, skip_head x xs xs h.0 (All-rows xs h.1))

module _ (P : Instance → Type 0) (p : Instance → Bool) where
  keep_one :
      (x : Instance) (rest : List Instance) (b : Bool)
      → p x ≡ b
      → P x
      → All (λ y. P y × (p y ≡ true)) rest
      → All (λ y. P y × (p y ≡ true)) (if b then x ∷ rest else rest)
  keep_one x rest true e h k = ((h, e), k)
  keep_one x rest false e h k = k

  keep-All : (xs : List Instance) → All P xs → All (λ y. P y × (p y ≡ true)) (filter p xs)
  keep-All [] h = tt
  keep-All (x ∷ xs) h = keep_one x _ (p x) refl h.0 (keep-All xs h.1)

  found_one :
      (x r : Instance) (o : Option Instance) (b : Bool)
      → p x ≡ b
      → P x
      → (o ≡ some r → P r × (p r ≡ true))
      → (if b then some x else o) ≡ some r
      → P r × (p r ≡ true)
  found_one x r o true e h k q = ground (arith, e, h)
  found_one x r o false e h k q = k q

  found_any :
      (xs : List Instance) (r : Instance) → All P xs → find p xs ≡ some r → P r × (p r ≡ true)
  found_any [] r h e = ground (arith, e)
  found_any (x ∷ xs) r h e = found_one x r (find p xs) (p x) refl h.0 (found_any xs r h.1) e

-- The newer of two rows.
pick_newer :
    (P : Instance → Type 0) (x s r : Instance) (b : Bool)
    → P x
    → P s
    → (if b then some x else some s) ≡ some r
    → P r
pick_newer P x s r true hx hs e = ground (arith, hx, e)
pick_newer P x s r false hx hs e = ground (arith, hs, e)

newest_any :
    (P : Instance → Type 0) (xs : List Instance) (r : Instance)
    → All P xs
    → newest xs ≡ some r
    → P r
unfolding newest
newest_any P [] r h e = ground (arith, e)
newest_any P (x ∷ xs) r h e = elim (Option-cases (newest xs)) [
  | inl n ↦ ground (arith, h.0, rw n at e)
  | inr (s, q) ↦
      pick_newer P x s r (leb s.created_at x.created_at) h.0 (newest_any P xs s h.1 q) (rw q at e)
]

module _ (p : Instance → Bool) (rs : List Instance) (r : Instance) where
  -- `findFirst`
  pub find_selected :
      IsKeyed rs → find p rs ≡ some r → (lookup instance_key r.id rs ≡ some r) × (p r ≡ true)
  find_selected k e = found_any (IsRow rs) p rs r (All-rows rs k) e

  -- `findFirst` with an order
  pub newest_selected :
      IsKeyed rs
      → newest (filter p rs) ≡ some r
      → (lookup instance_key r.id rs ≡ some r) × (p r ≡ true)
  newest_selected k e =
      newest_any (λ y. (lookup instance_key y.id rs ≡ some y) × (p y ≡ true)) (filter p rs) r
        (keep-All (IsRow rs) p rs (All-rows rs k)) e
