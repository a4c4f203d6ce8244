-- ===== src/System/Revoked.antt =====
-- A launch that was revoked, over a run.
use mathlib.Core.Path.{subst}
use labforge.Base.{
  ℕ, String, ◌≡◌, ◌≢◌, refl, sym, ap, ◌∙◌, ◌==◌, ◌||◌, ◌&&◌, not, eq_iff, eq_refl, Bool, true,
  false, Option, none, some, [], ◌∷◌, any, arith, Bool-cases, inl, inr, if◌then◌else◌,
}
use labforge.Base.Texts.{fits}
use labforge.Exec.{Result, err, ok, unique_violation, pure, ◌>>=◌}
use labforge.Data.{Instance, Launch}
use labforge.World.{World, M, Env, date_now}
use labforge.Web.{Web, Claims, Reply, refuse, answer}
use labforge.Table.{lookup, update, map_option, lookup-update, lookup-append}
use labforge.Store.{
  launch_key, put_instance, update_instance, create_instance, put_launch, update_launch,
  create_launch, clashes, now, ask, instance_key,
}
use labforge.Launches.{find_tenant_launch, set_revoked, set_regenerated, revoke_row, revoke}
use labforge.Batches.{update_launches}
use labforge.Batches.Updated.{changed, lookup-update_where}
use labforge.Redeem.{redeem, is_current}
use labforge.Redeem.Guards.{verdict, redeem-revoked, ticked}
use labforge.System.{Reach, IsGuarded, Reach-rel, after}
use labforge.System.Keyed.{keeps}

-- The launch is on record, and holds no token.
pub record IsRevoked (id : String) (w : World) : Type 0 where
  pub launch : Launch
  pub found : lookup launch_key id w.launches ≡ some launch
  pub no_token : launch.token_jti ≡ none

abbrev pub others : String → String → Bool
others id k = not (k == id)

module _ (id : String) where
  IsRevoked-rows : (s t : World) → t.launches ≡ s.launches → IsRevoked id s → IsRevoked id t
  IsRevoked-rows s t e h = record {
    launch = h.launch;
    found = ap (lookup launch_key id) e ∙ h.found;
    no_token = h.no_token;
  }

  update-Revoked :
      (k : String) (f : Launch → Launch) (s : World)
      → ((l : Launch) → (f l).id ≡ l.id)
      → (k ≡ id → (l : Launch) → l.token_jti ≡ none → (f l).token_jti ≡ none)
      → IsRevoked id s
      → IsRevoked id (record s { launches = update launch_key k f s.launches })
  update-Revoked k f s same n h = elim (Bool-cases (k == id)) [
    | inl t ↦ record {
      launch = f h.launch;
      found = lookup-update launch_key k id f s.launches same ∙ (rw t (ap (map_option f) h.found));
      no_token = n ((eq_iff k id).0 t) h.launch h.no_token;
    }
    | inr u ↦ record {
      launch = h.launch;
      found = lookup-update launch_key k id f s.launches same ∙ (rw u h.found);
      no_token = h.no_token;
    }
  ]

  put_launch-Revoked :
      (k : String) (f : Launch → Launch) (o : Option Launch) (s : World)
      → ((l : Launch) → (f l).id ≡ l.id)
      → (k ≡ id → (l : Launch) → l.token_jti ≡ none → (f l).token_jti ≡ none)
      → IsRevoked id s
      → IsRevoked id (put_launch k f o s).1
  unfolding put_launch
  put_launch-Revoked k f none s same n h = h
  put_launch-Revoked k f (some l) s same n h =
      elim (Bool-cases (any (λ x. not (x.id == k) && clashes (f l) x) s.launches)) [
        | inl t ↦ rw t h
        | inr e ↦ rw e (update-Revoked k f s same n h)
      ]

  create_launch-Revoked :
      (l : Launch) (s : World) → IsRevoked id s → IsRevoked id (create_launch l s).1
  unfolding create_launch
  create_launch-Revoked l s h =
      elim (Bool-cases (any (λ x. x.id == l.id || clashes l x) s.launches)) [
        | inl t ↦ rw t h
        | inr f ↦ rw f (record {
          launch = h.launch;
          found = lookup-append launch_key id s.launches (l ∷ []) h.launch h.found;
          no_token = h.no_token;
        })
      ]

  put_instance-launches :
      (k : String) (f : Instance → Instance) (o : Option Instance) (s : World)
      → (put_instance k f o s).1.launches ≡ s.launches
  unfolding put_instance
  put_instance-launches k f none s = refl
  put_instance-launches k f (some r) s = refl

  create_instance-launches :
      (r : Instance) (s : World) → (create_instance r s).1.launches ≡ s.launches
  unfolding create_instance
  create_instance-launches r s = ground arith

  other_id : (k : String) → others id k ≡ true → k ≢ id
  other_id k h e = ground (arith, eq_iff k id, e, h)

  -- A revocation of many launches leaves this one without a token.
  update_launches-Revoked :
      (p : Launch → Bool) (t : ℕ) (s : World)
      → IsRevoked id s
      → IsRevoked id (after (update_launches p (set_revoked t)) s)
  unfolding update_launches
  update_launches-Revoked p t s h = record {
    launch = if p h.launch then set_revoked t h.launch else h.launch;
    found =
        lookup-update_where p (set_revoked t) (λ x. refl) id s.launches
        ∙ ap (map_option (changed p (set_revoked t) (λ x. refl))) h.found;
    no_token = no_more (p h.launch) h.launch h.no_token;
  }
    where
      no_more :
          (b : Bool) (l : Launch)
          → l.token_jti ≡ none
          → (if b then set_revoked t l else l).token_jti ≡ none
      no_more true l e = refl
      no_more false l e = e

  IsRevoked-kept : IsGuarded (others id) (keeps (IsRevoked id))
  unfolding update_instance update_launch
  IsRevoked-kept = record {
    launches = record {
      closed = record {
        quiet = λ s t e k. IsRevoked-rows s t k;
        on_update = λ k f h. record {
          at = λ s.
              IsRevoked-rows s _ (put_instance-launches k f (lookup instance_key k s.instances) s);
        };
        on_create = λ r. record { at = λ s. IsRevoked-rows s _ (create_instance-launches r s) };
      };
      on_launch = λ k f h. record {
        at = λ s.
            put_launch-Revoked k f (lookup launch_key k s.launches) s
              (λ l. ap (λ p. p.0) (h.same_launch l)) (λ e l n. h.no_token l n);
      };
      on_create = λ l. record { at = create_launch-Revoked l };
    };
    on_revoke_all = λ p t. record { at = update_launches-Revoked p t };
    on_regenerate = λ k jti t h. record {
      at = λ s.
          put_launch-Revoked k (set_regenerated jti t) (lookup launch_key k s.launches) s
            (λ l. refl) (λ e. absurd (other_id k h e));
    };
  }

module _ (env : Env) (web : Web) where
  -- The reply of a redemption where no launch holds the token.
  refused_now :
      (token : String) (claims : Claims) (u : World)
      → fits 9 token ≡ false
      → verdict env web token u ≡ ok claims
      → IsRevoked claims.sub u
      → redeem env web (some token) u ≡ (ok (refuse 401 "token_revoked"), ticked u)
  refused_now token claims u long v h =
      redeem-revoked env web token u claims h.launch long v h.found
        (ap (λ o. is_current o claims.jti) h.no_token)

  revoke_put : (id : String) (t : ℕ) → Option Launch → M (Reply (Unit {0}))
  revoke_put id t o = put_launch id (set_revoked t) o >>= λ l. pure (answer tt)

  put_launch-revokes :
      (id : String) (t : ℕ) (o : Option Launch) (s : World)
      → lookup launch_key id s.launches ≡ o
      → (revoke_put id t o s).0 ≡ ok (answer tt)
      → IsRevoked id (revoke_put id t o s).1
  unfolding revoke_put put_launch ◌>>=◌ pure
  put_launch-revokes id t none s e h = ground (arith, h)
  put_launch-revokes id t (some l) s e h =
      elim (Bool-cases (any (λ x. not (x.id == id) && clashes (set_revoked t l) x) s.launches)) [
        | inl b ↦ absurd (not_answered (rw b at h))
        | inr b ↦ rw b (record {
          launch = set_revoked t l;
          found =
              lookup-update launch_key id id (set_revoked t) s.launches (λ x. refl)
              ∙ (rw (eq_refl id, e) refl);
          no_token = refl;
        })
      ]
    where
      rejected : Result (Reply (Unit {0}))
      rejected = err unique_violation

      not_answered : rejected ≢ ok (answer tt)
      not_answered q = ground (arith, q)

  -- A revocation that is answered leaves the launch without a token.
  revoke-IsRevoked :
      (tenant id : String) (w : World)
      → (revoke env tenant id w).0 ≡ ok (answer tt)
      → IsRevoked id (after (revoke env tenant id) w)
  unfolding revoke ◌>>=◌
  revoke-IsRevoked tenant id w h = at_row (find_tenant_launch tenant id w) h
    where
      at_row :
          (o : Option Launch)
          → (revoke_row env id o w).0 ≡ ok (answer tt)
          → IsRevoked id (after (revoke_row env id o) w)
      at_row none h = unfold revoke_row pure in ground (arith, h)
      at_row (some l) h =
          unfold revoke_row now ask update_launch revoke_put in
          put_launch-revokes id (env.num_answer w.calls date_now) (lookup launch_key id w.launches)
            (ticked w) refl h

  -- Once a launch was revoked, no redemption of any token for it succeeds, after any number of the
  -- operations of Step (the ticks, the orchestrator, the launch routes, redemptions, the proxy, the revocation,
  -- termination and preparation of batches), regenerations of that launch excepted; the purge of a batch is
  -- not among them. A token with a valid signature is refused with the code 401.
  pub revoked-stays_closed :
      (tenant id : String) (w u : World) (token : String) (claims : Claims)
      → (revoke env tenant id w).0 ≡ ok (answer tt)
      → Reach env web (others id) (after (revoke env tenant id) w) u
      → fits 9 token ≡ false
      → verdict env web token u ≡ ok claims
      → claims.sub ≡ id
      → redeem env web (some token) u ≡ (ok (refuse 401 "token_revoked"), ticked u)
  revoked-stays_closed tenant id w u token claims done run long v sub =
      refused_now token claims u long v (
        subst (λ k. IsRevoked k u) (sym sub)
          (Reach-rel env web (others id) (keeps (IsRevoked id)) (IsRevoked-kept id) run
            (revoke-IsRevoked tenant id w done)))
