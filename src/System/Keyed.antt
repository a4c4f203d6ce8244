-- ===== src/System/Keyed.antt =====
-- The columns that the schema declares unique: the identifiers and the subdomains of the instances, and the
-- identifiers of the launches.
use mathlib.Core.Path.{subst}
use mathlib.Core.Bool.{false≢true}
use labforge.Base.{
  String, ◌≡◌, ◌≢◌, refl, sym, ap, ◌∙◌, ◌==◌, ◌||◌, eq_iff, Bool, true, false, Option, none, some,
  List, [], ◌∷◌, ◌++◌, map, any, arith, if◌then◌else◌, Bool-cases, inl, inr, not, ◌&&◌,
}
use labforge.Exec.Moves.{Guarantee}
use labforge.Data.{Instance, Launch}
use labforge.World.{World, Env}
use labforge.Web.{Web}
use labforge.Table.{lookup, map-update-kept}
use labforge.Store.{
  instance_key, launch_key, put_instance, update_instance, create_instance, put_launch,
  update_launch, create_launch, clashes,
}
use labforge.Launches.{set_regenerated, set_revoked}
use labforge.Batches.{update_launches}
use labforge.Batches.Updated.{map-update_where}
use labforge.Frame.Keys.{Absent, Distinct, IsKeyed}
use labforge.Along.{identity}
use labforge.System.{Reach, IsGuarded, Reach-rel}

-- A predicate that every step keeps.
abbrev pub keeps : (World → Type 0) → Guarantee World
keeps P = record { rel = λ s t. P s → P t; stay = λ s h. h; chain = λ s t u f g h. g (f h) }

abbrev pub subdomain_of : Instance → String
subdomain_of i = i.subdomain

pub record IsUnique (w : World) : Type 0 where
  pub keyed : IsKeyed w.instances
  pub hosts : Distinct (map subdomain_of w.instances)
  pub launches : Distinct (map launch_key w.launches)

module _ {A : Type 0} (key : A → String) where
  Absent-snoc :
      (k : String) (rs : List A) (r : A)
      → key r ≢ k
      → Absent k (map key rs)
      → Absent k (map key (rs ++ r ∷ []))
  Absent-snoc k [] r n h = (n, tt)
  Absent-snoc k (x ∷ rs) r n h = (h.0, Absent-snoc k rs r n h.1)

  not_same :
      (p : A → Bool) (x r : A) (rest : Bool)
      → ((y : A) → key y ≡ key r → p y ≡ true)
      → (if p x then true else rest) ≡ false
      → (key r ≢ key x) × (rest ≡ false)
  not_same p x r rest h e = elim (Bool-cases (p x)) [
    | inl t ↦ absurd (false≢true (sym (rw t at e)))
    | inr f ↦ (λ q. false≢true (sym f ∙ h x (sym q)), rw f at e)
  ]

  -- A row that no row clashes with is added.
  Distinct-snoc :
      (p : A → Bool) (rs : List A) (r : A)
      → ((y : A) → key y ≡ key r → p y ≡ true)
      → any p rs ≡ false
      → Distinct (map key rs)
      → Distinct (map key (rs ++ r ∷ []))
  Distinct-snoc p [] r h e d = (tt, tt)
  Distinct-snoc p (x ∷ rs) r h e d =
      let split = not_same p x r (any p rs) h e in
      (Absent-snoc (key x) rs r split.0 d.0, Distinct-snoc p rs r h split.1 d.1)

put_instance-IsUnique :
    (id : String) (f : Instance → Instance) (o : Option Instance) (s : World)
    → ((r : Instance) → identity (f r) ≡ identity r)
    → IsUnique s
    → IsUnique (put_instance id f o s).1
unfolding put_instance
put_instance-IsUnique id f none s h u = u
put_instance-IsUnique id f (some r) s h u = record {
  keyed =
      subst Distinct
        (sym
          (map-update-kept instance_key instance_key id f s.instances (λ x. ap (λ p. p.0) (h x))))
        u.keyed;
  hosts =
      subst Distinct
        (sym
          (map-update-kept instance_key subdomain_of id f s.instances (λ x. ap (λ p. p.1.0) (h x))))
        u.hosts;
  launches = u.launches;
}

same_true : (a b : String) → a ≡ b → (a == b) ≡ true
same_true a b e = (eq_iff a b).1 e

create_instance-IsUnique :
    (r : Instance) (s : World) → IsUnique s → IsUnique (create_instance r s).1
unfolding create_instance
create_instance-IsUnique r s u = elim (Bool-cases (any clash s.instances)) [
  | inl t ↦ rw t u
  | inr f ↦ rw f (record {
    keyed =
        Distinct-snoc instance_key clash s.instances r (λ y e. rw (same_true y.id r.id e) refl) f
          u.keyed;
    hosts =
        Distinct-snoc subdomain_of clash s.instances r
          (λ y e. ground (arith, same_true y.subdomain r.subdomain e)) f u.hosts;
    launches = u.launches;
  })
]
  where
    clash : Instance → Bool
    clash x = x.id == r.id || x.subdomain == r.subdomain

put_launch-IsUnique :
    (id : String) (f : Launch → Launch) (o : Option Launch) (s : World)
    → ((l : Launch) → (f l).id ≡ l.id)
    → IsUnique s
    → IsUnique (put_launch id f o s).1
unfolding put_launch
put_launch-IsUnique id f none s h u = u
put_launch-IsUnique id f (some l) s h u =
    elim (Bool-cases (any (λ x. not (x.id == id) && clashes (f l) x) s.launches)) [
      | inl t ↦ rw t u
      | inr e ↦ rw e (record {
        keyed = u.keyed;
        hosts = u.hosts;
        launches =
            subst Distinct (sym (map-update-kept launch_key launch_key id f s.launches h))
              u.launches;
      })
    ]

create_launch-IsUnique : (l : Launch) (s : World) → IsUnique s → IsUnique (create_launch l s).1
unfolding create_launch
create_launch-IsUnique l s u =
    elim (Bool-cases (any (λ x. x.id == l.id || clashes l x) s.launches)) [
      | inl t ↦ rw t u
      | inr f ↦ rw f (record {
        keyed = u.keyed;
        hosts = u.hosts;
        launches =
            Distinct-snoc launch_key (λ x. x.id == l.id || clashes l x) s.launches l
              (λ y e. rw (same_true y.id l.id e) refl) f u.launches;
      })
    ]

IsUnique-kept : IsGuarded (λ id. true) (keeps IsUnique)
unfolding update_instance update_launch update_launches
IsUnique-kept = record {
  launches = record {
    closed = record {
      quiet = λ s t e k u. record {
        keyed = subst IsKeyed (sym e) u.keyed;
        hosts = subst (λ (rs : List Instance). Distinct (map subdomain_of rs)) (sym e) u.hosts;
        launches = subst (λ (ls : List Launch). Distinct (map launch_key ls)) (sym k) u.launches;
      };
      on_update = λ id f h. record {
        at = λ s. put_instance-IsUnique id f (lookup instance_key id s.instances) s h;
      };
      on_create = λ r. record { at = create_instance-IsUnique r };
    };
    on_launch = λ id f h. record {
      at = λ s.
          put_launch-IsUnique id f (lookup launch_key id s.launches) s
            (λ l. ap (λ p. p.0) (h.same_launch l));
    };
    on_create = λ l. record { at = create_launch-IsUnique l };
  };
  on_revoke_all = λ p t. record {
    at = λ s u. record {
      keyed = u.keyed;
      hosts = u.hosts;
      launches =
          subst Distinct (sym (map-update_where p (set_revoked t) (λ l. refl) s.launches))
            u.launches;
    };
  };
  on_regenerate = λ id jti t h. record {
    at = λ s.
        put_launch-IsUnique id (set_regenerated jti t) (lookup launch_key id s.launches) s
          (λ l. refl);
  };
}

-- Whatever operations of Step run (the purge of a batch is not among
-- them), in any order and whether they return or throw, from a store where the
-- identifiers and the subdomains of the instances and the identifiers of the launches are distinct the
-- control plane reaches only such stores.
pub Reach-IsUnique :
    (env : Env) (web : Web) {s t : World} → IsUnique s → Reach env web (λ id. true) s t → IsUnique t
Reach-IsUnique env web u r = Reach-rel env web (λ id. true) (keeps IsUnique) IsUnique-kept r u
