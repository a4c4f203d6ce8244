-- ===== src/Nodes/Pick/Ring.antt =====
-- The walk round the ring of candidates: which node it stops at, and when it finds none.
use mathlib.Core.Bool.{false≢true}
use native.Mathlib.Nat.{mod-lt, mod-add-mod, add-mod_right, mod-eq_of_lt}
use labforge.Base.{
  ℕ, zero, suc, ◌+◌, ◌-◌, ◌%◌, ◌≤◌, ◌<◌, ◌≡◌, ◌⊎◌, refl, sym, ap, ◌∙◌, true, false, Option, none,
  some, List, [], ◌∷◌, String, arith, leb, num_eq, or_else, is_some, length, get_elem?, All,
  Bool-cases, Option-cases, inl, inr, if◌then◌else◌,
}
use mathlib.Core.Path.{subst}
use labforge.Data.{Node}
use labforge.Nodes.Pick.{full, visit, walk}

pub get_elem?-some {ℓ} :
    {A : Type ℓ} (xs : List A) (i : ℕ) → i < length xs → (x : A) × (get_elem? xs i ≡ some x)
get_elem?-some [] i h = absurd (omega (arith, h))
get_elem?-some (x ∷ xs) zero h = (x, refl)
get_elem?-some (x ∷ xs) (suc i) h = get_elem?-some xs i (omega (arith, h))

-- What holds at every position holds of every element, and the other way round.
pub All-of_positions {ℓ κ} :
    {A : Type ℓ} (P : A → Type κ) (xs : List A)
    → ((i : ℕ) (x : A) → get_elem? xs i ≡ some x → P x)
    → All P xs
All-of_positions P [] h = tt
All-of_positions P (x ∷ xs) h = (h 0 x refl, All-of_positions P xs (λ i. h (suc i)))

pub position_of_all {ℓ κ} :
    {A : Type ℓ} (P : A → Type κ) (xs : List A) (i : ℕ) (x : A)
    → All P xs
    → get_elem? xs i ≡ some x
    → P x
position_of_all P [] i x h e = ground (arith, e)
position_of_all P (y ∷ ys) zero x h e = ground (arith, h.0, e)
position_of_all P (y ∷ ys) (suc i) x h e = position_of_all P ys i x h.1 e

-- Every position is reached from the cursor in fewer rounds than there are positions.
pub reach_position : (c j n : ℕ) → j < n → (k : ℕ) × (k < n) × ((c + k) % n ≡ j)
reach_position c j n h = elim (split (c % n) j n (mod-lt c (omega (arith, h))) h) [
  | inl (k, lt, e) ↦ (k, lt, sym (mod-add-mod c n k) ∙ ap (λ m. m % n) e ∙ mod-eq_of_lt h)
  | inr (k, lt, e) ↦
      (k, lt, sym (mod-add-mod c n k) ∙ ap (λ m. m % n) e ∙ add-mod_right j n ∙ mod-eq_of_lt h)
]
  where
    split :
        (d j n : ℕ)
        → d < n
        → j < n
        → ((k : ℕ) × (k < n) × (d + k ≡ j)) ⊎ ((k : ℕ) × (k < n) × (d + k ≡ j + n))
    split d j n dn jn = elim (Bool-cases (leb d j)) [
      | inl le ↦ inl (j - d, ground (arith, le), ground (arith, le))
      | inr gt ↦ inr (j + n - d, ground (arith, gt), ground (arith, gt))
    ]

module _ (load_of : String → ℕ) (ring : List Node) (cursor : ℕ) where
  -- The position that round `k` looks at.
  abbrev pub at_round : ℕ → ℕ
  at_round k = (cursor + k) % length ring

  -- The node at round `k` has no room.
  abbrev pub FullAt : ℕ → Type 0
  FullAt k = (m : Node) → get_elem? ring (at_round k) ≡ some m → full load_of m ≡ true

  -- The walk stopped at round `k`, the first one whose node has room.
  pub record StoppedAt (i r idx : ℕ) (n : Node) : Type 0 where
    pub round : ℕ
    pub from : i ≤ round
    pub within : round < i + r
    pub position : idx ≡ at_round round
    pub there : get_elem? ring idx ≡ some n
    pub has_room : full load_of n ≡ false
    pub passed : (k : ℕ) → i ≤ k → k < round → FullAt k

  no_rounds : (i : ℕ) → walk load_of ring cursor zero i ≡ none
  unfolding walk
  no_rounds i = refl

  step_full :
      (r i : ℕ) (m : Node)
      → get_elem? ring (at_round i) ≡ some m
      → full load_of m ≡ true
      → walk load_of ring cursor (suc r) i ≡ walk load_of ring cursor r (suc i)
  unfolding walk
  step_full r i m e f =
      let rest = walk load_of ring cursor r (suc i) in
      ap (visit load_of (at_round i) rest) e ∙ ap (λ b. if b then rest else some (at_round i, m)) f

  step_room :
      (r i : ℕ) (m : Node)
      → get_elem? ring (at_round i) ≡ some m
      → full load_of m ≡ false
      → walk load_of ring cursor (suc r) i ≡ some (at_round i, m)
  unfolding walk
  step_room r i m e f =
      let rest = walk load_of ring cursor r (suc i) in
      ap (visit load_of (at_round i) rest) e ∙ ap (λ b. if b then rest else some (at_round i, m)) f

  step_out :
      (r i : ℕ) → get_elem? ring (at_round i) ≡ none → walk load_of ring cursor (suc r) i ≡ none
  unfolding walk
  step_out r i e = ap (visit load_of (at_round i) (walk load_of ring cursor r (suc i))) e

  full_here :
      (i : ℕ) (m : Node) → get_elem? ring (at_round i) ≡ some m → full load_of m ≡ true → FullAt i
  full_here i m e f n e' = ap (full load_of) (ap (λ o. or_else o m) (sym e' ∙ e)) ∙ f

  full_next : (i k : ℕ) → FullAt i → i ≤ k → (suc i ≤ k → FullAt k) → FullAt k
  full_next i k here le h = elim (Bool-cases (num_eq i k)) [
    | inl same ↦ subst FullAt (ground (arith, same)) here
    | inr ne ↦ h (ground (arith, ne))
  ]

  stopped_here :
      (r i idx : ℕ) (m n : Node)
      → get_elem? ring (at_round i) ≡ some m
      → full load_of m ≡ false
      → Path (Option (ℕ × Node)) (some (at_round i, m)) (some (idx, n))
      → StoppedAt i (suc r) idx n
  stopped_here r i idx m n e f h =
      let q : Path (ℕ × Node) (at_round i, m) (idx, n) = ap (λ o. or_else o (idx, n)) h in
      let pos : at_round i ≡ idx = ap (λ p. p.0) q in
      let same : m ≡ n = ap (λ p. p.1) q in
      record {
        round = i;
        from = omega arith;
        within = omega arith;
        position = sym pos;
        there = rw (← pos, e) (ap (λ (x : Node). some x) same);
        has_room = ap (full load_of) (sym same) ∙ f;
        passed = λ k a b. absurd (omega (arith, a, b));
      }

  -- A walk that finds a node stopped at the first one with room.
  pub walk-stops :
      (r i idx : ℕ) (n : Node) → walk load_of ring cursor r i ≡ some (idx, n) → StoppedAt i r idx n
  walk-stops zero i idx n h = absurd (false≢true (ap is_some (sym (no_rounds i) ∙ h)))
  walk-stops (suc r) i idx n h = elim (Option-cases (get_elem? ring (at_round i))) [
    | inl out ↦ absurd (false≢true (ap is_some (sym (step_out r i out) ∙ h)))
    | inr (m, e) ↦ elim (Bool-cases (full load_of m)) [
      | inr room ↦ stopped_here r i idx m n e room (sym (step_room r i m e room) ∙ h)
      | inl f ↦
          let later = walk-stops r (suc i) idx n (sym (step_full r i m e f) ∙ h) in
          record {
            round = later.round;
            from = omega (arith, later.from);
            within = omega (arith, later.within);
            position = later.position;
            there = later.there;
            has_room = later.has_room;
            passed = λ k a b. full_next i k (full_here i m e f) a (λ a'. later.passed k a' b);
          }
    ]
  ]

  -- A walk that finds none has seen a full node in every round.
  pub walk-none :
      0 < length ring
      → (r i : ℕ) → walk load_of ring cursor r i ≡ none
      → (k : ℕ) → i ≤ k
      → k < i + r
      → FullAt k
  walk-none pos zero i h k a b = absurd (omega (arith, a, b))
  walk-none pos (suc r) i h k a b =
      let (m, e) = get_elem?-some ring (at_round i) (mod-lt (cursor + i) pos) in
      elim (Bool-cases (full load_of m)) [
        | inr room ↦ absurd (false≢true (ap is_some (sym h ∙ step_room r i m e room)))
        | inl f ↦
            full_next i k (full_here i m e f) a (λ a'.
              walk-none pos r (suc i) (sym (step_full r i m e f) ∙ h) k a' (omega (arith, b)))
      ]

  -- A whole round that finds none: every candidate is full.
  pub walk-none-full :
      0 < length ring
      → walk load_of ring cursor (length ring) 0 ≡ none
      → All (λ m. full load_of m ≡ true) ring
  walk-none-full pos h =
      All-of_positions (λ m. full load_of m ≡ true) ring
        λ i x e.
          let (k, lt, q) = reach_position cursor i (length ring) (in_range ring i x e) in
          walk-none pos (length ring) 0 h k (omega arith) (omega (arith, lt)) x (rw q e)
    where
      in_range : (xs : List Node) (i : ℕ) (x : Node) → get_elem? xs i ≡ some x → i < length xs
      in_range [] i x e = ground (arith, e)
      in_range (y ∷ ys) zero x e = omega arith
      in_range (y ∷ ys) (suc i) x e = omega (arith, in_range ys i x e)
