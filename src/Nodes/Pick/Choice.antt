-- ===== src/Nodes/Pick/Choice.antt =====
-- What `pickLeastLoadedNode` promises of the node it picks, and of picking none.
use mathlib.Core.Path.{subst}
use mathlib.Core.Bool.{false≢true}
use labforge.Base.{
  ℕ, ◌-◌, ◌*◌, ◌≡◌, refl, sym, ap, ◌∙◌, Bool, true, false, Option, none, some, List, [], ◌∷◌,
  String, arith, any, filter, get_elem?, length, ltb, All, Bool-cases, inl, inr, if◌then◌else◌,
  or_else, is_some,
}
use labforge.Exec.{Result, ok, pure, gets, ◌>>=◌}
use labforge.Data.{Node}
use labforge.World.{World, Env, date_now}
use labforge.Nodes.Pick.{
  insert_by, sort_by, eligible, load, full, load_map, walk, pool_key, get_cursor, pick_only,
  take_pick, pick_ring, pick_from, candidates,
}
use labforge.Nodes.Pick.Ring.{walk-stops, position_of_all, All-of_positions}

module _ {ℓ κ} {A : Type ℓ} (P : A → Type κ) (le : A → A → Bool) where
  All-if : (b : Bool) (xs ys : List A) → All P xs → All P ys → All P (if b then xs else ys)
  All-if true xs ys h k = h
  All-if false xs ys h k = k

  All-insert_by : (x : A) (xs : List A) → P x → All P xs → All P (insert_by le x xs)
  unfolding insert_by
  All-insert_by x [] h k = (h, tt)
  All-insert_by x (y ∷ ys) h k = All-if (le x y) _ _ (h, k) (k.0, All-insert_by x ys h k.1)

  -- Sorting keeps what holds of every element.
  pub All-sort_by : (xs : List A) → All P xs → All P (sort_by le xs)
  unfolding sort_by
  All-sort_by [] h = tt
  All-sort_by (x ∷ xs) h = All-insert_by x (sort_by le xs) h.0 (All-sort_by xs h.1)

abbrev has_cap : Node → Bool
has_cap m = ltb 0 m.capacity_max

-- A capped node of a list is one of its capped nodes.
pub caps : (ring : List Node) → All (λ m. has_cap m ≡ true → any has_cap ring ≡ true) ring
caps [] = tt
caps (x ∷ xs) = (λ h. ground (arith, h), later x xs xs (caps xs))
  where
    later :
        (x : Node) (ts xs : List Node)
        → All (λ m. has_cap m ≡ true → any has_cap ts ≡ true) xs
        → All (λ m. has_cap m ≡ true → any has_cap (x ∷ ts) ≡ true) xs
    later x ts [] h = tt
    later x ts (y ∷ ys) h = (λ q. ground (arith, h.0 q), later x ts ys h.1)

-- Where the counts are not fetched no candidate has a cap, so that the test is the same.
pub full-load :
    (ring : List Node) (w : World) (m : Node)
    → (has_cap m ≡ true → any has_cap ring ≡ true)
    → full (load_map ring w) m ≡ full (load w) m
unfolding load_map
full-load ring w m h = elim (Bool-cases (has_cap m)) [
  | inl capped ↦ rw (h capped) refl
  | inr free ↦ rw free refl
]

abbrev pub IsIn : List Node → Node → Type 0
IsIn ns n = (i : ℕ) × (get_elem? ns i ≡ some n)

module _ (P : Node → Type 0) (p : Node → Bool) where
  keep_if :
      (x : Node) (rest : List Node) (b : Bool)
      → p x ≡ b
      → P x
      → All (λ y. P y × (p y ≡ true)) rest
      → All (λ y. P y × (p y ≡ true)) (if b then x ∷ rest else rest)
  keep_if x rest true e h k = ((h, e), k)
  keep_if x rest false e h k = k

  All-filter_both : (xs : List Node) → All P xs → All (λ y. P y × (p y ≡ true)) (filter p xs)
  All-filter_both [] h = tt
  All-filter_both (x ∷ xs) h = keep_if x _ (p x) refl h.0 (All-filter_both xs h.1)

-- The oldest time that counts as seen.
abbrev pub cutoff : Env → World → ℕ
cutoff env w = env.num_answer w.calls date_now - env.config.node_health_stale_seconds * 1000

-- An enabled and listed node of the fleet, seen since the cutoff.
abbrev pub IsCandidate : Env → List String → World → Node → Type 0
IsCandidate env whitelist w n = IsIn w.nodes n × (eligible (cutoff env w) whitelist n ≡ true)

pub candidates-All :
    (env : Env) (whitelist : List String) (w : World)
    → All (IsCandidate env whitelist w) (candidates env (cutoff env w) whitelist w)
unfolding candidates
candidates-All env whitelist w = All-sort_by (IsCandidate env whitelist w) _ _ (
    All-filter_both (IsIn w.nodes) (eligible (cutoff env w) whitelist) w.nodes
      (All-of_positions (IsIn w.nodes) w.nodes (λ i x e. (i, e))))

pub if_none :
    (b : Bool) (m n : Node) → (if b then none else some m) ≡ some n → (m ≡ n) × (b ≡ false)
if_none true m n h = ground (arith, h)
if_none false m n h = (ap (λ o. or_else o m) h, refl)

pub none_if : (b : Bool) (m : Node) → (if b then none else some m) ≡ none → b ≡ true
none_if true m h = refl
none_if false m h = ground (arith, h)

pub ok_inj : (o p : Option Node) → Result.ok o ≡ ok p → o ≡ p
ok_inj o p h = cc

module _ (P : Node → Type 0) (w : World) where
  take_some :
      (key : String) (ring : List Node) (o : Option (ℕ × Node)) (n : Node)
      → walk (load_map ring w) ring (get_cursor key w) (length ring) 0 ≡ o
      → All P ring
      → (take_pick key (length ring) o w).0 ≡ ok (some n)
      → P n × (full (load w) n ≡ false)
  unfolding take_pick pure ◌>>=◌
  take_some key ring none n e all h = absurd (false≢true (ap is_some (ok_inj _ _ h)))
  take_some key ring (some (idx, m)) n e all h =
      let same : m ≡ n = ap (λ o. or_else o m) (ok_inj _ _ h) in
      let stop = walk-stops (load_map ring w) ring (get_cursor key w) (length ring) 0 idx m e in
      let free =
        sym (full-load ring w m (position_of_all _ ring idx m (caps ring) stop.there))
        ∙ stop.has_room in
      subst (λ k. P k × (full (load w) k ≡ false)) same
        (position_of_all P ring idx m all stop.there, free)

  pub pick_from-some :
      (whitelist : List String) (ring : List Node) (n : Node)
      → All P ring
      → (pick_from whitelist ring w).0 ≡ ok (some n)
      → P n × (full (load w) n ≡ false)
  unfolding pick_from pick_ring pick_only pure gets ◌>>=◌
  pick_from-some whitelist [] n all h = absurd (false≢true (ap is_some (ok_inj _ _ h)))
  pick_from-some whitelist (m ∷ []) n all h =
      let (same, free) = if_none (full (load w) m) m n (ok_inj _ _ h) in
      subst (λ k. P k × (full (load w) k ≡ false)) same (all.0, free)
  pick_from-some whitelist (m ∷ k ∷ ks) n all h =
      take_some (pool_key whitelist) (m ∷ k ∷ ks) _ n refl all h
