-- ===== src/Table.antt =====
-- A table of the store as a list of rows under a text key (a column with a unique index). The order
-- of the list is the order in which an unordered query returns the rows.
use labforge.Base.{
  refl, sym, ap, ◌∙◌, map, Bool, true, false, is_some, String, ◌≡◌, Option, none, some, List, [],
  ◌∷◌, ◌++◌, arith, ◌==◌, eq_iff, if◌then◌else◌,
}

abbrev pub map_option {ℓ κ} : {A : Type ℓ} {B : Type κ} → (A → B) → Option A → Option B
map_option f none = none
map_option f (some a) = some (f a)

module _ {ℓ} {A : Type ℓ} (key : A → String) where
  -- findUnique
  unfoldable pub lookup : String → List A → Option A
  lookup k [] = none
  lookup k (r ∷ rs) = if key r == k then some r else lookup k rs

  -- update: the rows with another key stay as they are.
  unfoldable pub update : String → (A → A) → List A → List A
  update k f [] = []
  update k f (r ∷ rs) = (if key r == k then f r else r) ∷ update k f rs

  -- What a lookup returns has the key.
  pub key-lookup : (k : String) (rs : List A) (r : A) → lookup k rs ≡ some r → key r ≡ k
  unfolding lookup
  key-lookup k [] r h = ground arith
  key-lookup k (x ∷ rs) r h = ground (arith, eq_iff (key x) k, key-lookup k rs r)

  pub lookup-update :
      (k j : String) (f : A → A) (rs : List A)
      → ((r : A) → key (f r) ≡ key r)
      → lookup j (update k f rs) ≡ (if k == j then map_option f (lookup j rs) else lookup j rs)
  unfolding lookup update
  lookup-update k j f [] h = ground arith
  lookup-update k j f (x ∷ rs) h = ground (
    arith,
    h x,
    eq_iff (key x) k,
    eq_iff (key x) j,
    eq_iff k j,
    eq_iff (key (f x)) j,
    lookup-update k j f rs h,
  )

  -- An update keeps the keys.
  pub map-update :
      (k : String) (f : A → A) (rs : List A)
      → ((r : A) → key (f r) ≡ key r)
      → map key (update k f rs) ≡ map key rs
  unfolding update
  map-update k f [] h = refl
  map-update k f (x ∷ rs) h = ground (arith, h x, map-update k f rs h)

  has_key : String → List String → Bool
  has_key k [] = false
  has_key k (x ∷ xs) = if x == k then true else has_key k xs

  is_some-lookup : (k : String) (rs : List A) → is_some (lookup k rs) ≡ has_key k (map key rs)
  unfolding lookup has_key
  is_some-lookup k [] = refl
  is_some-lookup k (x ∷ rs) = ground (arith, is_some-lookup k rs)

  -- Two tables with the same keys have a row under the same keys.
  pub lookup_same_keys :
      (k : String) (rs ts : List A)
      → map key ts ≡ map key rs
      → is_some (lookup k ts) ≡ is_some (lookup k rs)
  lookup_same_keys k rs ts h = is_some-lookup k ts ∙ ap (has_key k) h ∙ sym (is_some-lookup k rs)

  -- What an update keeps of each row, it keeps of the table.
  pub map-update-kept {κ} :
      {B : Type κ} (view : A → B) (k : String) (f : A → A) (rs : List A)
      → ((r : A) → view (f r) ≡ view r)
      → map view (update k f rs) ≡ map view rs
  unfolding update
  map-update-kept view k f [] h = refl
  map-update-kept view k f (x ∷ rs) h = ground (arith, h x, map-update-kept view k f rs h)

  -- A row that is found is found in a longer table.
  pub lookup-append :
      (k : String) (rs ts : List A) (r : A) → lookup k rs ≡ some r → lookup k (rs ++ ts) ≡ some r
  unfolding lookup
  lookup-append k [] ts r h = ground arith
  lookup-append k (x ∷ rs) ts r h = ground (arith, lookup-append k rs ts r)
