-- ===== src/Redeem/Resumed.antt =====
-- The instance that a resumption returns is the one that was asked for.
use labforge.Base.{ℕ, String, ◌≡◌, refl, ◌∙◌, Option, none, some}
use labforge.Exec.{Error, lift, or_fail, ◌>>=◌}
use labforge.Exec.Triple.{Post, Triple, Triple-bind, Triple-pure, Triple-keep, Triple-any}
use labforge.Data.{Instance, Spec}
use labforge.World.{World, M, Env, Runtime}
use labforge.Table.{lookup, key-lookup}
use labforge.Store.{instance_key, put_instance, update_instance, find_instance}
use labforge.Orchestrator.Lifecycle.{set_ready, store_ready, resume_instance}

module _ (env : Env) where
  abbrev pub No : Error → World → Type 0
  No e s = Unit {0}

  abbrev pub Named : String → Instance → World → Type 0
  Named id i s = i.id ≡ id

  put_instance-Named :
      (id : String) (f : Instance → Instance) (o : Option Instance) (s : World)
      → ((r : Instance) → (f r).id ≡ r.id)
      → ((r : Instance) → o ≡ some r → r.id ≡ id)
      → Post (Named id) No (put_instance id f o s).0 (put_instance id f o s).1
  unfolding put_instance
  put_instance-Named id f none s keep h = tt
  put_instance-Named id f (some r) s keep h = keep r ∙ h r refl

  update_instance-Named :
      {P : World → Type 0} (id : String) (f : Instance → Instance)
      → ((r : Instance) → (f r).id ≡ r.id)
      → Triple P (Named id) No (update_instance id f)
  unfolding update_instance
  update_instance-Named id f keep = record {
    run = λ s p.
        put_instance-Named id f (lookup instance_key id s.instances) s keep
          (key-lookup instance_key id s.instances);
  }

  store_ready-Named :
      {P : World → Type 0} (i : Instance) (spec : Option Spec) (rt : Runtime)
      → Triple P (Named i.id) No (store_ready env i spec rt)
  unfolding store_ready
  store_ready-Named i spec rt = Triple-bind _ _ (Triple-any _) λ synced.
      Triple-bind _ _ (Triple-any _) λ t.
        Triple-bind _ _ (update_instance-Named i.id (set_ready t synced) (λ r. refl)) λ u.
          Triple-bind _ _ (Triple-keep _ (λ s p. p) (λ a s p. p) (λ e s p. tt))
            (λ v. Triple-pure u (λ s p. p))

  -- An operation on the row of an identifier.
  at_found :
      {P : World → Type 0} (id : String) (k : Instance → M Instance)
      → ((r : Instance) → Triple P (Named r.id) No (k r))
      → (o : Option Instance) → ((r : Instance) → o ≡ some r → r.id ≡ id)
      → Triple P (Named id) No (lift (or_fail Error.row_not_found o) >>= k)
  unfolding ◌>>=◌
  at_found id k h none key = record { run = λ s p. tt }
  at_found id k h (some r) key = rw (← key r refl) (record { run = (h r).run })

  find_first :
      {P : World → Type 0} (id : String) (k : Instance → M Instance)
      → ((r : Instance) → Triple P (Named r.id) No (k r))
      → Triple P
          (Named id)
          No
          (find_instance id >>= λ o. lift (or_fail Error.row_not_found o) >>= k)
  unfolding find_instance ◌>>=◌
  find_first id k h = record {
    run = λ s p.
        unfold ◌>>=◌ in
        (at_found id k h (lookup instance_key id s.instances)
            (key-lookup instance_key id s.instances)).run
          s p;
  }

  pub resume_instance-Named :
      {P : World → Type 0} (id : String) (ms : ℕ)
      → Triple P (Named id) No (resume_instance env id ms)
  unfolding resume_instance
  resume_instance-Named id ms = find_first id _ λ i. Triple-bind _ _ (Triple-any _) λ rid.
      Triple-bind _ _ (Triple-any _) λ rt. Triple-bind _ _ (Triple-any _) λ u.
        Triple-bind _ _ (Triple-any _) λ t.
          Triple-bind _ _ (store_ready-Named i _ rt) λ r.
            Triple-bind _ _ (same _) λ v. Triple-bind _ _ (same _) λ b. Triple-pure r (λ s p. p)
    where
      same : {F : Type 0} {A : Type 0} (m : M A) → Triple (λ s. F) (λ a s. F) No m
      same m = Triple-keep m (λ s p. p) (λ a s p. p) (λ e s p. tt)
