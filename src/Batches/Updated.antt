-- ===== src/Batches/Updated.antt =====
-- What a change of the launches that a test picks does to the table.
use labforge.Base.{
  String, ◌≡◌, refl, ◌==◌, Bool, true, false, List, [], ◌∷◌, map, if◌then◌else◌, Bool-cases, inl,
  inr,
}
use labforge.Data.{Launch}
use labforge.Table.{lookup, map_option}
use labforge.Store.{launch_key}
use labforge.Batches.{update_where}

module _ (p : Launch → Bool) (f : Launch → Launch) (keep : (l : Launch) → (f l).id ≡ l.id) where
  -- What becomes of a launch.
  abbrev pub changed : Launch → Launch
  changed l = if p l then f l else l

  if_id : (b : Bool) (l : Launch) → (if b then f l else l).id ≡ l.id
  if_id true l = keep l
  if_id false l = refl

  pub lookup-update_where :
      (k : String) (ls : List Launch)
      → lookup launch_key k (update_where p f ls) ≡ map_option changed (lookup launch_key k ls)
  unfolding lookup update_where
  lookup-update_where k [] = refl
  lookup-update_where k (l ∷ ls) = elim (Bool-cases (l.id == k)) [
    | inl e ↦ rw (if_id (p l) l, e) refl
    | inr e ↦ rw (if_id (p l) l, e) (lookup-update_where k ls)
  ]

  pub map-update_where :
      (ls : List Launch) → map launch_key (update_where p f ls) ≡ map launch_key ls
  unfolding update_where
  map-update_where [] = refl
  map-update_where (l ∷ ls) = rw (if_id (p l) l, map-update_where ls) refl
