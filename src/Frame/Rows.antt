-- ===== src/Frame/Rows.antt =====
-- Guarantees about the table of instances.
use labforge.Base.{
  String, ◌≡◌, ◌≢◌, refl, ap, ◌∙◌, ◌==◌, eq_iff, Option, none, some, true, is_some, arith, map,
  if◌then◌else◌,
}
use mathlib.Core.Bool.{false≢true}
use labforge.Exec.{Exec}
use labforge.Exec.Moves.{Guarantee, Moves}
use labforge.Data.{Instance}
use labforge.World.{World}
use labforge.Store.{instance_key, put_instance, update_instance}
use labforge.Table.{lookup, map-update, lookup-update, lookup_same_keys}

-- No instance is written.
abbrev pub same_rows : Guarantee World
same_rows = record {
  rel = λ s t. t.instances ≡ s.instances;
  stay = λ s. refl;
  chain = λ s t u p q. q ∙ p;
}

-- A weaker guarantee follows from a stronger one.
pub Moves-weaken :
    {A : Type 0} (g h : Guarantee World) (m : Exec World A)
    → ((s t : World) → g.rel s t → h.rel s t)
    → Moves g m
    → Moves h m
Moves-weaken g h m f k = record { at = λ s. f s _ (k.at s) }

-- The instances keep their identifiers, and all but one keep their contents.
abbrev pub SameBut : String → World → World → Type 0
SameBut id s t =
    (map instance_key t.instances ≡ map instance_key s.instances)
    × ((k : String)
        → k ≢ id
        → lookup instance_key k t.instances ≡ lookup instance_key k s.instances)

abbrev pub only_row : String → Guarantee World
only_row id = record {
  rel = SameBut id;
  stay = λ s. (refl, λ k h. refl);
  chain = λ s t u p q. (q.0 ∙ p.0, λ k h. q.1 k h ∙ p.1 k h);
}

-- What writes no instance keeps every row.
pub only_row-same : (id : String) (s t : World) → t.instances ≡ s.instances → SameBut id s t
only_row-same id s t e = (ap (map instance_key) e, λ k h. ap (lookup instance_key k) e)

pub Moves-same :
    {A : Type 0} (id : String) (m : Exec World A) → Moves same_rows m → Moves (only_row id) m
Moves-same id m h = record { at = λ s. only_row-same id s (m s).1 (h.at s) }

if_ne : {A : Type 0} (a b : String) (x y : A) → b ≢ a → (if a == b then x else y) ≡ y
if_ne a b x y h = ground (arith, eq_iff a b)

put_instance-only :
    (id : String) (f : Instance → Instance) (o : Option Instance) (s : World)
    → ((r : Instance) → (f r).id ≡ r.id)
    → SameBut id s (put_instance id f o s).1
unfolding put_instance
put_instance-only id f none s h = (refl, λ k ne. refl)
put_instance-only id f (some r) s h = (
  map-update instance_key id f s.instances h,
  λ k ne. lookup-update instance_key id k f s.instances h ∙ if_ne id k _ _ ne,
)

-- An update of one row that keeps its identifier.
pub update_instance-only :
    (id : String) (f : Instance → Instance)
    → ((r : Instance) → (f r).id ≡ r.id)
    → Moves (only_row id) (update_instance id f)
unfolding update_instance
update_instance-only id f h = record {
  at = λ s. put_instance-only id f (lookup instance_key id s.instances) s h;
}

-- A row that is there stays there.
pub still_some :
    (id k : String) (s t : World) (r : Instance)
    → SameBut id s t
    → lookup instance_key k s.instances ≡ some r
    → (r' : Instance) × (lookup instance_key k t.instances ≡ some r')
still_some id k s t r same e =
    from_some _ (lookup_same_keys instance_key k s.instances t.instances same.0 ∙ ap is_some e)
  where
    from_some : (o : Option Instance) → is_some o ≡ true → (r' : Instance) × (o ≡ some r')
    from_some none h = absurd (false≢true h)
    from_some (some r') h = (r', refl)
