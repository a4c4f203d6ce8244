-- ===== src/Frame/Keys.antt =====
-- Tables whose identifiers are distinct, as the primary key makes them, and queries on such tables.
use labforge.Base.{
  String, ◌≡◌, ◌≢◌, sym, ap, ◌∙◌, ◌==◌, eq_iff, Bool, true, false, Option, some, List, [], ◌∷◌, map,
  filter, All, if◌then◌else◌, keep_passed, Bool-cases, inl, inr,
}
use mathlib.Core.Path.{subst}
use mathlib.Core.Bool.{false≢true}
use labforge.Data.{Instance}
use labforge.Store.{instance_key}
use labforge.Table.{lookup}

abbrev pub Absent : String → List String → Type 0
Absent k [] = Unit
Absent k (x ∷ xs) = (x ≢ k) × Absent k xs

abbrev pub Distinct : List String → Type 0
Distinct [] = Unit
Distinct (x ∷ xs) = Absent x xs × Distinct xs

-- No two instances have one identifier.
abbrev pub IsKeyed : List Instance → Type 0
IsKeyed rs = Distinct (map instance_key rs)

Absent-filter :
    (id : String) (p : Instance → Bool) (rs : List Instance)
    → Absent id (map instance_key rs)
    → All (λ x. x.id ≢ id) (filter p rs)
Absent-filter id p [] h = tt
Absent-filter id p (x ∷ xs) h =
    keep_passed (λ y. y.id ≢ id) x _ (p x) (λ _. h.0) (Absent-filter id p xs h.1)

head_is :
    (b : Bool) (o : Option Instance) (x r : Instance)
    → b ≡ true
    → (if b then some x else o) ≡ some r
    → x ≡ r
head_is true o x r t e = cc
head_is false o x r t e = absurd (false≢true t)

-- A query that a row does not meet returns no row of its identifier.
pub not_selected :
    (id : String) (p : Instance → Bool) (rs : List Instance) (r : Instance)
    → IsKeyed rs
    → lookup instance_key id rs ≡ some r
    → p r ≡ false
    → All (λ x. x.id ≢ id) (filter p rs)
unfolding lookup
not_selected id p [] r d e n = tt
not_selected id p (x ∷ xs) r d e n = elim (Bool-cases (x.id == id)) [
  | inl same ↦
      let x_id : x.id ≡ id = (eq_iff x.id id).0 same in
      let is_r : x ≡ r = head_is (x.id == id) _ x r same e in
      keep_passed (λ y. y.id ≢ id) x _ (p x)
        (λ t. absurd (false≢true (sym n ∙ ap p (sym is_r) ∙ t)))
        (Absent-filter id p xs (subst (λ k. Absent k (map instance_key xs)) x_id d.0))
  | inr ne ↦
      keep_passed (λ y. y.id ≢ id) x _ (p x) (λ _ q. false≢true (sym ne ∙ (eq_iff x.id id).1 q))
        (not_selected id p xs r d.1 (rw ne at e) n)
]
