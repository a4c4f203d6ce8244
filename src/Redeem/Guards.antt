-- ===== src/Redeem/Guards.antt =====
-- What the guards of the redeem route let through.
use mathlib.Core.Path.{subst}
use labforge.Base.{
  ◌<◌, ◌/◌, String, ◌≡◌, refl, sym, ap, ◌∙◌, Bool, true, false, Option, none, some, ◌∷◌, arith, leb,
}
use labforge.Base.Texts.{fits}
use labforge.Exec.{Result, ok, err, pure, ◌>>=◌}
use labforge.Exec.Laws.{attempt-bind}
use labforge.Data.{Launch}
use labforge.World.{World, Env, date_now}
use labforge.Table.{lookup}
use labforge.Store.{ask, now, launch_key, find_launch}
use labforge.Web.{Web, Claims, Reply, refuse, refuse_with, answer}
use labforge.Tokens.{verify_launch_token, launch_audience}
use labforge.Launches.Prepare.{Included, include}
use labforge.Redeem.{
  Redeemed, is_current, redeem, redeem_verified, redeem_row, redeem_found, redeem_at,
}

-- The state after one look at the clock.
abbrev pub ticked : World → World
ticked w = record w { calls = date_now ∷ w.calls }

-- What the signature check says of the token.
abbrev pub verdict : Env → Web → String → World → Result Claims
verdict env web token w =
    web.verify_jwt (env.num_answer w.calls date_now / 1000) env.config.jwt_issuer launch_audience
      token

module _ (env : Env) (web : Web) where
  verify_launch_token_lem :
      (token : String) (w : World)
      → verify_launch_token env web token w ≡ (verdict env web token w, ticked w)
  unfolding verify_launch_token now ask ◌>>=◌
  verify_launch_token_lem token w = refl

  -- A text of ten characters or more is verified.
  pub redeem-verdict :
      (token : String) (w : World)
      → fits 9 token ≡ false
      → redeem env web (some token) w ≡ redeem_verified env web (verdict env web token w) (ticked w)
  unfolding redeem
  redeem-verdict token w long = rw long (
      attempt-bind (verify_launch_token env web token) (redeem_verified env web) w
      ∙ ap (λ p. redeem_verified env web p.0 p.1) (verify_launch_token_lem token w))

  redeem_verified_lem :
      (claims : Claims) (w : World)
      → redeem_verified env web (ok claims) w
        ≡ redeem_row env web claims (lookup launch_key claims.sub w.launches) w
  unfolding redeem_verified find_launch ◌>>=◌
  redeem_verified_lem claims w = refl

  redeem_row_lem :
      (claims : Claims) (l : Launch) (w : World)
      → redeem_row env web claims (some l) w ≡ redeem_found env web claims l (include l w) w
  unfolding redeem_row ◌>>=◌
  redeem_row_lem claims l w = refl

  pub redeem_found_lem :
      (claims : Claims) (l : Launch) (found : Included) (w : World)
      → is_current l.token_jti claims.jti ≡ true
      → redeem_found env web claims l found w
        ≡ redeem_at env web l found (env.num_answer w.calls date_now) (ticked w)
  unfolding redeem_found now ask ◌>>=◌
  redeem_found_lem claims l found w h = rw h refl

  -- A valid token of a launch that is on record, from the check of its identifier on.
  pub redeem-row :
      (token : String) (w : World) (claims : Claims) (l : Launch)
      → fits 9 token ≡ false
      → verdict env web token w ≡ ok claims
      → lookup launch_key claims.sub w.launches ≡ some l
      → redeem env web (some token) w
        ≡ redeem_found env web claims l (include l (ticked w)) (ticked w)
  redeem-row token w claims l long v found =
      redeem-verdict token w long
      ∙ ap (λ r. redeem_verified env web r (ticked w)) v
      ∙ redeem_verified_lem claims (ticked w)
      ∙ ap (λ o. redeem_row env web claims o (ticked w)) found
      ∙ redeem_row_lem claims l (ticked w)

  -- A launch whose token is not the one presented is not opened, and nothing is written: a token that was
  -- signed and has not expired is refused with the code 401 where its launch holds another token
  -- identifier, or none.
  pub redeem-revoked :
      (token : String) (w : World) (claims : Claims) (l : Launch)
      → fits 9 token ≡ false
      → verdict env web token w ≡ ok claims
      → lookup launch_key claims.sub w.launches ≡ some l
      → is_current l.token_jti claims.jti ≡ false
      → redeem env web (some token) w ≡ (ok (refuse 401 "token_revoked"), ticked w)
  redeem-revoked token w claims l long v found h =
      redeem-row token w claims l long v found ∙ (unfold redeem_found pure in rw h refl)

-- A token that was let through: it is signed for a launch on record, it is the launch's present token, and
-- the launch has not expired at the second look at the clock.
pub record IsAdmitted (env : Env) (web : Web) (token : String) (w : World) : Type 0 where
  pub claims : Claims
  pub verified : verdict env web token w ≡ ok claims
  pub launch : Launch
  pub found : lookup launch_key claims.sub w.launches ≡ some launch
  pub current : is_current launch.token_jti claims.jti ≡ true
  pub unexpired : env.num_answer (ticked w).calls date_now < launch.expires_at

-- What a reply that is no refusal says.
abbrev pub Opens : Result (Reply Redeemed) → Type 0 → Type 0
Opens (ok (answer a)) P = P
Opens _ P = Unit

module _ (env : Env) (web : Web) (token : String) (w : World) where
  Admits : Result (Reply Redeemed) × World → Type 0
  Admits r = Opens r.0 (IsAdmitted env web token w)

  opens_fact : (r : Result (Reply Redeemed)) (P : Type 0) → P → Opens r P
  opens_fact (ok (answer a)) P p = p
  opens_fact (ok (refuse c e)) P p = tt
  opens_fact (ok (refuse_with c e d)) P p = tt
  opens_fact (err e) P p = tt

  at_expiry :
      (claims : Claims) (l : Launch) (found : Included) (b : Bool)
      → verdict env web token w ≡ ok claims
      → lookup launch_key claims.sub w.launches ≡ some l
      → is_current l.token_jti claims.jti ≡ true
      → leb l.expires_at (env.num_answer (ticked w).calls date_now) ≡ b
      → Admits
          (redeem_at env web l found (env.num_answer (ticked w).calls date_now) (ticked (ticked w)))
  unfolding Admits redeem_at pure
  at_expiry claims l found true v f c e = rw e tt
  at_expiry claims l found false v f c e =
      opens_fact
        (redeem_at env web l found (env.num_answer (ticked w).calls date_now) (ticked (ticked w))).0
        (IsAdmitted env web token w)
        (record {
          claims = claims;
          verified = v;
          launch = l;
          found = f;
          current = c;
          unexpired = ground (arith, e);
        })

  at_token :
      (claims : Claims) (l : Launch) (b : Bool)
      → verdict env web token w ≡ ok claims
      → lookup launch_key claims.sub w.launches ≡ some l
      → is_current l.token_jti claims.jti ≡ b
      → Admits (redeem_found env web claims l (include l (ticked w)) (ticked w))
  at_token claims l true v f c =
      subst Admits (sym (redeem_found_lem env web claims l _ (ticked w) c))
        (at_expiry claims l _ _ v f c refl)
  at_token claims l false v f c = unfold Admits redeem_found pure in rw c tt

  at_row :
      (claims : Claims) (o : Option Launch)
      → verdict env web token w ≡ ok claims
      → lookup launch_key claims.sub w.launches ≡ o
      → Admits (redeem_row env web claims o (ticked w))
  at_row claims none v f = unfold Admits redeem_row pure in tt
  at_row claims (some l) v f =
      subst Admits (sym (redeem_row_lem env web claims l (ticked w))) (at_token claims l _ v f refl)

  at_verdict :
      (r : Result Claims)
      → verdict env web token w ≡ r
      → Admits (redeem_verified env web r (ticked w))
  at_verdict (err e) v = unfold Admits redeem_verified pure in tt
  at_verdict (ok claims) v =
      subst Admits (sym (redeem_verified_lem env web claims (ticked w))) (at_row claims _ v refl)

  -- Whatever the store holds, a redemption that is answered (by the lab, the gateway or the warming page)
  -- was made with a token that passed the signature check, for a launch on record, whose present token it
  -- is, and whose own expiry has not passed.
  pub redeem-admits : Opens (redeem env web (some token) w).0 (IsAdmitted env web token w)
  redeem-admits = by_length (fits 9 token) refl
    where
      by_length :
          (b : Bool)
          → fits 9 token ≡ b
          → Opens (redeem env web (some token) w).0 (IsAdmitted env web token w)
      by_length true h = unfold redeem pure in rw h tt
      by_length false h =
          unfold Admits in subst Admits (sym (redeem-verdict env web token w h)) (at_verdict _ refl)
