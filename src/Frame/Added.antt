-- ===== src/Frame/Added.antt =====
-- Assertions about one row of the table of instances, and their triples.
use mathlib.Core.Path.{subst}
use labforge.Base.{
  String, ◌≡◌, ◌≢◌, refl, sym, ap, ◌∙◌, ◌==◌, ◌||◌, eq_iff, eq_refl, Bool, true, false, none, some,
  List, [], ◌∷◌, ◌++◌, arith, any, if◌then◌else◌,
}
use labforge.Exec.{Error, Result, ok, err}
use labforge.Exec.Moves.{Moves}
use labforge.Exec.Triple.{Post, Triple, Triple-keep}
use labforge.Data.{Instance}
use labforge.World.{World, M}
use labforge.Store.{instance_key, update_instance, put_instance, create_instance}
use labforge.Table.{lookup, key-lookup, lookup-update}
use labforge.Frame.Rows.{same_rows, only_row, only_row-same, SameBut, update_instance-only}

-- The row of `id` meets `Q`, and the other rows are those of `w`.
pub record At (id : String) (w : World) (Q : Instance → Type 0) (s : World) : Type 0 where
  pub others : SameBut id w s
  pub row : Instance
  pub found : lookup instance_key id s.instances ≡ some row
  pub holds : Q row

module _ (id : String) (w : World) where
  pub At-same :
      (Q : Instance → Type 0) (s t : World) → t.instances ≡ s.instances → At id w Q s → At id w Q t
  At-same Q s t e h = record {
    others = (only_row id).chain w s t h.others (only_row-same id s t e);
    row = h.row;
    found = ap (lookup instance_key id) e ∙ h.found;
    holds = h.holds;
  }

  -- An action that writes no instance keeps the assertion, whether it returns or throws.
  pub Triple-same :
      {A : Type 0} (Q : Instance → Type 0) (m : M A)
      → Moves same_rows m
      → Triple (At id w Q) (λ _. At id w Q) (λ _. At id w Q) m
  Triple-same Q m h = Triple-keep m (λ s. At-same Q s (m s).1 (h.at s)) (λ a s p. p) (λ e s p. p)

  put-At :
      (Q Q' : Instance → Type 0) (f : Instance → Instance) (s : World)
      → ((r : Instance) → (f r).id ≡ r.id)
      → ((r : Instance) → Q r → Q' (f r))
      → (h : At id w Q s) → At id w Q' (put_instance id f (some h.row) s).1
  unfolding put_instance
  put-At Q Q' f s keep q h = record {
    others = (only_row id).chain w s (put_instance id f (some h.row) s).1 h.others (
        subst (λ o. SameBut id s (put_instance id f o s).1) h.found
          (unfold update_instance in (update_instance-only id f keep).at s));
    row = f h.row;
    found = lookup-update instance_key id id f s.instances keep ∙ rw (eq_refl id, h.found);
    holds = q h.row h.holds;
  }

  -- A write of the row succeeds, and what it returns is the row.
  pub Triple-update :
      (Q Q' : Instance → Type 0) (E : Error → World → Type 0) (f : Instance → Instance)
      → ((r : Instance) → (f r).id ≡ r.id)
      → ((r : Instance) → Q r → Q' (f r))
      → Triple (At id w Q) (λ a s. ((a.id ≡ id) × Q' a) × At id w Q' s) E (update_instance id f)
  unfolding update_instance
  Triple-update Q Q' E f keep q = record {
    run = λ s h. rw h.found (
        unfold put_instance in
        (
          (keep h.row ∙ key-lookup instance_key id s.instances h.row h.found, q h.row h.holds),
          put-At Q Q' f s keep q h,
        ));
  }

-- A row that was added to the table of `w` and meets `Q`.
pub record Added (id : String) (w : World) (Q : Instance → Type 0) (s : World) : Type 0 where
  pub was_absent : lookup instance_key id w.instances ≡ none
  pub others :
      (k : String) → k ≢ id → lookup instance_key k s.instances ≡ lookup instance_key k w.instances
  pub row : Instance
  pub found : lookup instance_key id s.instances ≡ some row
  pub holds : Q row

abbrev pub with_row : World → Instance → World
with_row w r = record w { instances = w.instances ++ r ∷ [] }

abbrev pub clash : Instance → List Instance → Bool
clash r rs = any (λ x. x.id == r.id || x.subdomain == r.subdomain) rs

lookup-append-other :
    (k : String) (rs : List Instance) (r : Instance)
    → k ≢ r.id
    → lookup instance_key k (rs ++ r ∷ []) ≡ lookup instance_key k rs
unfolding lookup
lookup-append-other k [] r ne = ground (arith, eq_iff r.id k)
lookup-append-other k (x ∷ rs) r ne = ground (arith, lookup-append-other k rs r ne)

lookup-append-new :
    (rs : List Instance) (r : Instance)
    → clash r rs ≡ false
    → lookup instance_key r.id (rs ++ r ∷ []) ≡ some r
unfolding lookup
lookup-append-new [] r c = rw (eq_refl r.id) refl
lookup-append-new (x ∷ rs) r c = ground (arith, lookup-append-new rs r)

clash-lookup :
    (rs : List Instance) (r : Instance) → clash r rs ≡ false → lookup instance_key r.id rs ≡ none
unfolding lookup
clash-lookup [] r c = refl
clash-lookup (x ∷ rs) r c = ground (arith, clash-lookup rs r)

pub At-Added :
    (w : World) (r : Instance) (Q : Instance → Type 0) (s : World)
    → clash r w.instances ≡ false
    → At r.id (with_row w r) Q s
    → Added r.id w Q s
At-Added w r Q s c h = record {
  was_absent = clash-lookup w.instances r c;
  others = λ k ne. h.others.1 k ne ∙ lookup-append-other k w.instances r ne;
  row = h.row;
  found = h.found;
  holds = h.holds;
}

abbrev inserted : Bool → Instance → World → Result Instance × World
inserted b r s = if b then (err Error.unique_violation, s) else (ok r, with_row s r)

create-Post :
    (w s : World) (r : Instance) (Q : Instance → Type 0) (b : Bool)
    → clash r w.instances ≡ b
    → s.instances ≡ w.instances
    → Q r
    → Post
        (λ a t. ((a ≡ r) × (clash r w.instances ≡ false)) × At r.id (with_row w r) Q t)
        (λ e t. t.instances ≡ w.instances)
        (inserted b r s).0
        (inserted b r s).1
create-Post w s r Q true c e q = e
create-Post w s r Q false c e q = (
  (refl, c),
  record {
    others =
        only_row-same r.id (with_row w r) (with_row s r)
          (ap (λ (xs : List Instance). xs ++ r ∷ []) e);
    row = r;
    found =
        ap (λ (xs : List Instance). lookup instance_key r.id (xs ++ r ∷ [])) e
        ∙ lookup-append-new w.instances r c;
    holds = q;
  },
)

-- A row is added where its identifier and subdomain are new; else nothing is written.
pub Triple-create :
    (w : World) (r : Instance) (Q : Instance → Type 0)
    → Q r
    → Triple
        (λ s. s.instances ≡ w.instances)
        (λ a t. ((a ≡ r) × (clash r w.instances ≡ false)) × At r.id (with_row w r) Q t)
        (λ e t. t.instances ≡ w.instances)
        (create_instance r)
unfolding create_instance
Triple-create w r Q q = record {
  run = λ s e. create-Post w s r Q (clash r s.instances) (sym (ap (clash r) e)) e q;
}
