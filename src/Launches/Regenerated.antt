-- ===== src/Launches/Regenerated.antt =====
-- What a regeneration does to the tokens of its launch.
use mathlib.Core.Path.{subst}
use labforge.Base.{
  ℕ, ◌+◌, ◌*◌, ◌/◌, String, ◌≡◌, refl, sym, ap, ◌∙◌, ◌≢◌, ◌∷◌, ◌==◌, ◌&&◌, not, eq_refl, false,
  Option, none, some, any, or_else, arith, Bool-cases, inl, inr,
}
use labforge.Base.Texts.{fits}
use labforge.Exec.{Result, ok, err, unique_violation, pure, ◌>>=◌, continue}
use labforge.Data.{Launch}
use labforge.World.{World, M, Env, date_now, random_id}
use labforge.Table.{lookup, lookup-update}
use labforge.Store.{launch_key, put_launch, update_launch, clashes, now, fresh, ask}
use labforge.Web.{Web, Claims, refuse, answer}
use labforge.Tokens.{launch_claims, sign_launch_token}
use labforge.Launches.{
  LaunchLink, find_tenant_launch, payload_of, launch_url, set_regenerated, regenerate_row,
  regenerate,
}
use labforge.Redeem.{redeem, is_current}
use labforge.Redeem.Guards.{verdict, ticked, redeem-revoked}

-- An update that returns has written its row.
module _ (id : String) (f : Launch → Launch) (same : (l : Launch) → (f l).id ≡ l.id) where
  put_launch-writes :
      (o : Option Launch) (s : World)
      → lookup launch_key id s.launches ≡ o
      → (a : Launch) → (put_launch id f o s).0 ≡ ok a
      → (l : Launch) × (lookup launch_key id (put_launch id f o s).1.launches ≡ some (f l))
  unfolding put_launch
  put_launch-writes none s e a h = ground (arith, h)
  put_launch-writes (some l) s e a h =
      elim (Bool-cases (any (λ x. not (x.id == id) && clashes (f l) x) s.launches)) [
        | inl b ↦ absurd (failed (rw b at h))
        | inr b ↦
            rw b (l, lookup-update launch_key id id f s.launches same ∙ (rw (eq_refl id, e) refl))
      ]
    where
      rejected : Result Launch
      rejected = err unique_violation

      failed : rejected ≢ ok a
      failed q = ground (arith, q)

  update_launch-writes :
      (s : World) (a : Launch)
      → (update_launch id f s).0 ≡ ok a
      → (l : Launch) × (lookup launch_key id (update_launch id f s).1.launches ≡ some (f l))
  unfolding update_launch
  update_launch-writes s a h = put_launch-writes (lookup launch_key id s.launches) s refl a h

-- What comes before a value is returned has returned.
module _ {A B : Type 0} (m : M A) (b : B) where
  returned :
      (r : Result A) (s : World) (c : B)
      → (continue r (λ _. pure b) s).0 ≡ ok c
      → ((a : A) × (r ≡ ok a)) × ((continue r (λ _. pure b) s).1 ≡ s) × (b ≡ c)
  unfolding pure
  returned (ok a) s c h = ((a, refl), refl, cc)
  returned (err e) s c h = ground (arith, h)

module _ (env : Env) (web : Web) (tenant id : String) (ttl : Option ℕ) (w : World) where
  -- The state in which the launch is written.
  abbrev signed_state : World
  signed_state = record w { calls = date_now ∷ random_id ∷ w.calls }

  abbrev new_expiry : ℕ
  new_expiry =
      (env.num_answer (random_id ∷ w.calls) date_now / 1000 + or_else ttl 720 * 3600) * 1000

  abbrev renewed : Launch → Launch
  renewed = set_regenerated (env.fresh_answer w.calls) new_expiry

  abbrev link : Launch → LaunchLink
  link l = record {
    launch_id = id;
    url = launch_url env web (
        web.sign_jwt (
          launch_claims env (payload_of l (env.fresh_answer w.calls))
            (env.num_answer (random_id ∷ w.calls) date_now / 1000)
            (env.num_answer (random_id ∷ w.calls) date_now / 1000 + or_else ttl 720 * 3600)));
    expires_at = new_expiry;
  }

  row_lem :
      (l : Launch)
      → regenerate_row env web id ttl (some l) w
        ≡ (update_launch id renewed >>= λ x. pure (answer (link l))) signed_state
  unfolding regenerate_row sign_launch_token fresh now ask ◌>>=◌ pure
  row_lem l = refl

  -- The launch has its new token, and the state is `s`.
  abbrev Renewed : World → Type 0
  Renewed s = (l : Launch) × (lookup launch_key id s.launches ≡ some (renewed l))

  update_renews :
      (l : Launch) (x : LaunchLink)
      → ((update_launch id renewed >>= λ y. pure (answer (link l))) signed_state).0 ≡ ok (answer x)
      → Renewed ((update_launch id renewed >>= λ y. pure (answer (link l))) signed_state).1
  unfolding ◌>>=◌
  update_renews l x h =
      let done =
        returned (update_launch id renewed) (answer (link l))
          (update_launch id renewed signed_state).0 (update_launch id renewed signed_state).1
          (answer x) h in
      subst Renewed (sym done.1)
        (update_launch-writes id renewed (λ y. refl) signed_state done.0.0 done.0.1)

  row_renews :
      (o : Option Launch) (x : LaunchLink)
      → (regenerate_row env web id ttl o w).0 ≡ ok (answer x)
      → Renewed (regenerate_row env web id ttl o w).1
  row_renews none x h = unfold regenerate_row pure in ground (arith, h)
  row_renews (some l) x h =
      subst (λ r. Renewed r.1) (sym (row_lem l))
        (update_renews l x (sym (ap (λ r. r.0) (row_lem l)) ∙ h))

  regenerate-renews :
      (x : LaunchLink)
      → (regenerate env web tenant id (some ttl) w).0 ≡ ok (answer x)
      → Renewed (regenerate env web tenant id (some ttl) w).1
  unfolding regenerate ◌>>=◌
  regenerate-renews x h = row_renews (find_tenant_launch tenant id w) x h

-- Once a regeneration is answered, a token of the launch with another identifier than the new one is
-- refused with the code 401, though its signature is valid and it has not expired.
pub regenerate-refuses_old :
    (env : Env) (web : Web) (tenant id : String) (ttl : Option ℕ) (w : World) (x : LaunchLink)
    (old : String) (claims : Claims)
    → (regenerate env web tenant id (some ttl) w).0 ≡ ok (answer x)
    → fits 9 old ≡ false
    → verdict env web old (regenerate env web tenant id (some ttl) w).1 ≡ ok claims
    → claims.sub ≡ id
    → is_current (some (env.fresh_answer w.calls)) claims.jti ≡ false
    → redeem env web (some old) (regenerate env web tenant id (some ttl) w).1
      ≡ (ok (refuse 401 "token_revoked"), ticked (regenerate env web tenant id (some ttl) w).1)
regenerate-refuses_old env web tenant id ttl w x old claims done long v sub other =
    let (l, found) = regenerate-renews env web tenant id ttl w x done in
    redeem-revoked env web old (regenerate env web tenant id (some ttl) w).1 claims
      (set_regenerated (env.fresh_answer w.calls)
        ((env.num_answer (random_id ∷ w.calls) date_now / 1000 + or_else ttl 720 * 3600) * 1000) l)
      long v
      (ap (λ k. lookup launch_key k (regenerate env web tenant id (some ttl) w).1.launches) sub
        ∙ found)
      other
