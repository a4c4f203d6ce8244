-- ===== src/Tokens/Lifetime.antt =====
-- How long a launch token is accepted, and where.
use mathlib.Core.Bool.{false≢true}
use labforge.Base.{
  ℕ, ◌+◌, ◌*◌, ◌/◌, ◌<◌, ◌≡◌, ◌≢◌, refl, sym, ap, ◌∙◌, Bool, true, false, Option, none, some, ◌==◌,
  eq_iff, ltb, or_else, if◌then◌else◌, arith,
}
use labforge.Exec.{Result, ok, err, pure, ◌>>=◌}
use labforge.Exec.Triple.{Post}
use labforge.World.{World, Env, date_now}
use labforge.Store.{now, ask}
use labforge.Web.{Web, Claims, IsJwt}
use labforge.Tokens.{
  LaunchPayload, launch_claims, launch_audience, session_audience, sign_launch_token,
}
use labforge.Redeem.Guards.{verdict}
use labforge.Proxy.Access.{session_verdict}

-- The claims of a token that was accepted.
abbrev pub accepted : Result Claims → Option Claims
accepted (ok c) = some c
accepted (err e) = none

-- `Date.now()` in a state.
abbrev pub clock_at : Env → World → ℕ
clock_at env w = env.num_answer w.calls date_now

-- The second that the token expires at.
abbrev pub expiry_second : Env → Option ℕ → World → ℕ
expiry_second env ttl w = clock_at env w / 1000 + or_else ttl env.config.jwt_launch_ttl_seconds

module _ (env : Env) (web : Web) (jwt : IsJwt web) (p : LaunchPayload) (ttl : Option ℕ)
    (w u : World) where
  abbrev issued : Claims
  issued = launch_claims env p (clock_at env w / 1000) (expiry_second env ttl w)

  too_late :
      (r : Result Claims)
      → web.verify_jwt
          (clock_at env u / 1000)
          env.config.jwt_issuer
          launch_audience
          (web.sign_jwt issued)
        ≡ r
      → ltb (clock_at env u) (expiry_second env ttl w * 1000) ≡ false
      → accepted r ≡ none
  too_late (err e) h b = refl
  too_late (ok c) h b =
      let same = ap (λ (x : Claims). x.exp) (jwt.intact _ _ _ issued c h) in
      let live = (jwt.live _ _ _ _ c h).2 in absurd (false≢true (late same live))
    where
      late : c.exp ≡ expiry_second env ttl w → clock_at env u / 1000 < c.exp → false ≡ true
      late same live = ground (arith, b, same, live)

  by_time :
      (b : Bool)
      → ltb (clock_at env u) (expiry_second env ttl w * 1000) ≡ b
      → accepted (verdict env web (web.sign_jwt issued) u) ≡ (if b then some issued else none)
  by_time true h = ap accepted (jwt.accepts (clock_at env u / 1000) issued (in_time h))
    where
      in_time :
          ltb (clock_at env u) (expiry_second env ttl w * 1000) ≡ true
          → clock_at env u / 1000 < expiry_second env ttl w
      in_time h = ground (arith, h)
  by_time false h = too_late _ refl h

  other_audience : session_audience ≢ launch_audience
  other_audience h = false≢true (sym differ ∙ (eq_iff session_audience launch_audience).1 h)
    where
      differ : (session_audience == launch_audience) ≡ false
      differ = refl

  not_session :
      (r : Result Claims) → session_verdict env web (web.sign_jwt issued) u ≡ r → accepted r ≡ none
  not_session (err e) h = refl
  not_session (ok c) h = absurd (
      other_audience
        (sym (jwt.live _ _ _ _ c h).1 ∙ ap (λ (x : Claims). x.aud) (jwt.intact _ _ _ issued c h)))

  -- Where signatures behave as documented, a launch token is accepted with the claims that it was signed
  -- with exactly as long as the expiry that signing returns beside it has not been reached, and it is never
  -- accepted as a session.
  pub sign_launch_token-lasts :
      Post
        (λ s v.
          (accepted (verdict env web s.token u)
            ≡ (if ltb (clock_at env u) s.expires_at then some issued else none))
          × (accepted (session_verdict env web s.token u) ≡ none))
        (λ e v. false ≡ true)
        (sign_launch_token env web p ttl w).0
        (sign_launch_token env web p ttl w).1
  unfolding sign_launch_token now ask ◌>>=◌ pure
  sign_launch_token-lasts = (by_time _ refl, not_session _ refl)
