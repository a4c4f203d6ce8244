-- ===== src/System/Rows.antt =====
-- The rows of the store over a run: what a session and a launch are bound to.
use labforge.Base.{
  ℕ, String, ◌≡◌, refl, ap, ◌∙◌, ◌==◌, ◌||◌, ◌&&◌, not, Bool, true, false, Option, none, some, List,
  [], ◌∷◌, ◌++◌, arith, any, if◌then◌else◌, Bool-cases, inl, inr,
}
use labforge.Exec.Moves.{Guarantee}
use labforge.Data.{Instance, Launch}
use labforge.World.{World, Env}
use labforge.Web.{Web}
use labforge.Table.{lookup, update, map_option, lookup-update, lookup-append}
use labforge.Store.{
  instance_key, launch_key, put_instance, update_instance, create_instance, put_launch,
  update_launch, create_launch, clashes,
}
use labforge.Launches.{set_regenerated, set_revoked}
use labforge.Batches.{update_where, update_launches}
use labforge.Batches.Updated.{changed, lookup-update_where}
use labforge.Along.{IsClosed, identity}
use labforge.Along.Routes.{launch_identity}
use labforge.System.{Reach, IsGuarded, Reach-rel}

-- Every row that one table has under a key, the other has too, with the same view.
abbrev pub Kept : {A B : Type 0} → (key : A → String) (view : A → B) → List A → List A → Type 0
Kept {A} key view rs ts =
    (k : String) (r : A)
    → lookup key k rs ≡ some r
    → (r' : A) × ((lookup key k ts ≡ some r') × (view r' ≡ view r))

module _ {A B : Type 0} (key : A → String) (view : A → B) where
  Kept-refl : (rs : List A) → Kept key view rs rs
  Kept-refl rs k r h = (r, (h, refl))

  pub Kept-trans :
      (rs ts us : List A) → Kept key view rs ts → Kept key view ts us → Kept key view rs us
  Kept-trans rs ts us f g k r h =
      let (r', h') = f k r h in let (r'', h'') = g k r' h'.0 in (r'', (h''.0, h''.1 ∙ h'.1))

  Kept-same : (rs ts : List A) → ts ≡ rs → Kept key view rs ts
  Kept-same rs ts e k r h = (r, (ap (lookup key k) e ∙ h, refl))

  Kept-append : (rs ts : List A) → Kept key view rs (rs ++ ts)
  Kept-append rs ts k r h = (r, (lookup-append key k rs ts r h, refl))

  pick :
      (f : A → A) (b : Bool) (r : A)
      → (if b then map_option f (some r) else some r) ≡ some (if b then f r else r)
  pick f true r = refl
  pick f false r = refl

  pick_view :
      (f : A → A) (b : Bool) (r : A) → view (f r) ≡ view r → view (if b then f r else r) ≡ view r
  pick_view f true r h = h
  pick_view f false r h = refl

  Kept-update :
      (id : String) (f : A → A) (rs : List A)
      → ((r : A) → key (f r) ≡ key r)
      → ((r : A) → view (f r) ≡ view r)
      → Kept key view rs (update key id f rs)
  Kept-update id f rs keep h k r e = (
    (if id == k then f r else r),
    (lookup-update key id k f rs keep ∙ (rw e (pick f (id == k) r)), pick_view f (id == k) r (h r)),
  )

-- The two tables, with what no operation changes.
pub record Same (s t : World) : Type 0 where
  pub instances : Kept instance_key identity s.instances t.instances
  pub launches : Kept launch_key launch_identity s.launches t.launches

abbrev same_identities : Guarantee World
same_identities = record {
  rel = Same;
  stay = λ s. record { instances = λ k r h. (r, (h, refl)); launches = λ k r h. (r, (h, refl)) };
  chain = λ s t u p q. record {
    instances =
        Kept-trans instance_key identity s.instances t.instances u.instances p.instances
          q.instances;
    launches =
        Kept-trans launch_key launch_identity s.launches t.launches u.launches p.launches
          q.launches;
  };
}

same_rows : (s : World) → Kept instance_key identity s.instances s.instances
same_rows s = Kept-refl instance_key identity s.instances

same_launches : (s : World) → Kept launch_key launch_identity s.launches s.launches
same_launches s = Kept-refl launch_key launch_identity s.launches

put_instance-Same :
    (id : String) (f : Instance → Instance) (o : Option Instance) (s : World)
    → ((r : Instance) → identity (f r) ≡ identity r)
    → Same s (put_instance id f o s).1
unfolding put_instance
put_instance-Same id f none s h = same_identities.stay s
put_instance-Same id f (some r) s h = record {
  instances = Kept-update instance_key identity id f s.instances (λ x. ap (λ p. p.0) (h x)) h;
  launches = same_launches s;
}

create_instance-Same : (r : Instance) (s : World) → Same s (create_instance r s).1
unfolding create_instance
create_instance-Same r s =
    elim (Bool-cases (any (λ x. x.id == r.id || x.subdomain == r.subdomain) s.instances)) [
      | inl t ↦ rw t (same_identities.stay s)
      | inr f ↦ rw f (record {
        instances = Kept-append instance_key identity s.instances (r ∷ []);
        launches = same_launches s;
      })
    ]

put_launch-Same :
    (id : String) (f : Launch → Launch) (o : Option Launch) (s : World)
    → ((l : Launch) → launch_identity (f l) ≡ launch_identity l)
    → Same s (put_launch id f o s).1
unfolding put_launch
put_launch-Same id f none s h = same_identities.stay s
put_launch-Same id f (some l) s h =
    elim (Bool-cases (any (λ x. not (x.id == id) && clashes (f l) x) s.launches)) [
      | inl t ↦ rw t (same_identities.stay s)
      | inr e ↦ rw e (record {
        instances = same_rows s;
        launches =
            Kept-update launch_key launch_identity id f s.launches (λ x. ap (λ p. p.0) (h x)) h;
      })
    ]

create_launch-Same : (l : Launch) (s : World) → Same s (create_launch l s).1
unfolding create_launch
create_launch-Same l s = elim (Bool-cases (any (λ x. x.id == l.id || clashes l x) s.launches)) [
  | inl t ↦ rw t (same_identities.stay s)
  | inr f ↦ rw f (record {
    instances = same_rows s;
    launches = Kept-append launch_key launch_identity s.launches (l ∷ []);
  })
]

if_identity :
    (b : Bool) (t : ℕ) (l : Launch)
    → launch_identity (if b then set_revoked t l else l) ≡ launch_identity l
if_identity true t l = refl
if_identity false t l = refl

Kept-revoked :
    (p : Launch → Bool) (t : ℕ) (ls : List Launch)
    → Kept launch_key launch_identity ls (update_where p (set_revoked t) ls)
Kept-revoked p t ls k l h = (
  (if p l then set_revoked t l else l),
  (
    lookup-update_where p (set_revoked t) (λ x. refl) k ls
        ∙ ap (map_option (changed p (set_revoked t) (λ x. refl))) h,
    if_identity (p l) t l,
  ),
)

Same-kept : IsGuarded (λ id. true) same_identities
unfolding update_instance update_launch update_launches
Same-kept = record {
  launches = record {
    closed = record {
      quiet = λ s t e k. record {
        instances = Kept-same instance_key identity s.instances t.instances e;
        launches = Kept-same launch_key launch_identity s.launches t.launches k;
      };
      on_update = λ id f h. record {
        at = λ s. put_instance-Same id f (lookup instance_key id s.instances) s h;
      };
      on_create = λ r. record { at = create_instance-Same r };
    };
    on_launch = λ id f h. record {
      at = λ s. put_launch-Same id f (lookup launch_key id s.launches) s h.same_launch;
    };
    on_create = λ l. record { at = create_launch-Same l };
  };
  on_revoke_all = λ p t. record {
    at = λ s. record { instances = same_rows s; launches = Kept-revoked p t s.launches };
  };
  on_regenerate = λ id jti t h. record {
    at = λ s.
        put_launch-Same id (set_regenerated jti t) (lookup launch_key id s.launches) s (λ l. refl);
  };
}

-- Whatever operations of Step run, in any order and whether they return or throw, every instance and every launch
-- stays in the store, the instance under its subdomain, tenant and template, and the launch under its
-- tenant, template and user. The purge of a batch, which deletes launches, is not an operation of Step.
pub Reach-Same : (env : Env) (web : Web) {s t : World} → Reach env web (λ id. true) s t → Same s t
Reach-Same env web r = Reach-rel env web (λ id. true) same_identities Same-kept r

-- Instances are kept, and the launches stay as they are.
abbrev pub seats_kept : Guarantee World
seats_kept = record {
  rel = λ s t. Kept instance_key identity s.instances t.instances × (t.launches ≡ s.launches);
  stay = λ s. (λ k r h. (r, (h, refl)), refl);
  chain = λ s t u p q.
      (Kept-trans instance_key identity s.instances t.instances u.instances p.0 q.0, q.1 ∙ p.1);
}

put_instance-launches :
    (id : String) (f : Instance → Instance) (o : Option Instance) (s : World)
    → (put_instance id f o s).1.launches ≡ s.launches
unfolding put_instance
put_instance-launches id f none s = refl
put_instance-launches id f (some r) s = refl

create_instance-launches :
    (r : Instance) (s : World) → (create_instance r s).1.launches ≡ s.launches
unfolding create_instance
create_instance-launches r s = ground arith

pub seats_kept-IsClosed : IsClosed seats_kept
unfolding update_instance
seats_kept-IsClosed = record {
  quiet = λ s t e k. (Kept-same instance_key identity s.instances t.instances e, k);
  on_update = λ id f h. record {
    at = λ s. (
      (put_instance-Same id f (lookup instance_key id s.instances) s h).instances,
      put_instance-launches id f (lookup instance_key id s.instances) s,
    );
  };
  on_create = λ r. record {
    at = λ s. ((create_instance-Same r s).instances, create_instance-launches r s);
  };
}
