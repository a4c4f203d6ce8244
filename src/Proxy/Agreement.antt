-- ===== src/Proxy/Agreement.antt =====
-- The two gateways agree: what the built-in proxy forwards, the check for Traefik grants.
use mathlib.Core.Path.{subst}
use labforge.Base.{
  ℕ, String, ◌≡◌, refl, sym, ap, ◌∙◌, true, false, Option, some, or_else, ◌==◌, eq_iff, arith,
}
use labforge.Exec.{ok, pure, ◌>>=◌}
use labforge.Exec.Laws.{attempt-bind, bind-ok, Total, Total-try_catch}
use labforge.Data.{Instance, Status, terminated}
use labforge.Data.Statuses.{is_counted}
use labforge.World.{World, Env, date_now}
use labforge.Store.{now, ask}
use labforge.Web.{Web, Claims}
use labforge.Tokens.{verify_session_token}
use labforge.Redeem.Guards.{ticked}
use labforge.Proxy.{
  forward, Target, granted, find_by_subdomain, resolve_and_auth, mark_seen, grant, auth_session,
  auth_cookie, is_terminated, auth_upstream, auth_instance, auth_subdomain, first_label,
  forward_auth,
}
use labforge.Proxy.Access.{
  IsEntitled, IsForwarded, Allows, session_verdict, resolve_and_auth-forwards,
}

counted_live : (s : Status) → is_counted s ≡ true → is_terminated s ≡ false
counted_live terminated h = sym h
counted_live _ h = ground arith

module _ (env : Env) (web : Web) (header : Option String) (i : Instance) (upstream : String) where
  mark_seen-Total : (t : ℕ) → Total (mark_seen i t)
  unfolding mark_seen
  mark_seen-Total t = Total-try_catch _

  grants : (s : World) → (grant env i upstream s).0 ≡ ok (granted upstream i.id)
  unfolding grant now ask ◌>>=◌
  grants s =
      let t = env.num_answer s.calls date_now in
      ap (λ p. p.0)
        (bind-ok (mark_seen i t) (λ u. pure (granted upstream i.id)) (ticked s) tt
          (mark_seen-Total t (ticked s)))

  cookie_lem :
      (token : String) (w : World)
      → auth_cookie env web i upstream (some token) w
        ≡ auth_session env i upstream (session_verdict env web token w) (ticked w)
  unfolding auth_cookie
  cookie_lem token w =
      attempt-bind (verify_session_token env web token) (auth_session env i upstream) w
      ∙ (unfold verify_session_token now ask ◌>>=◌ in refl)

  owner_grants :
      (c : Claims) (s : World)
      → c.sub ≡ i.id
      → c.tenant_id ≡ i.tenant_id
      → (auth_session env i upstream (ok c) s).0 ≡ ok (granted upstream i.id)
  unfolding auth_session
  owner_grants c s h k =
      rw ((eq_iff c.sub i.id).1 h, (eq_iff c.tenant_id i.tenant_id).1 k) (grants s)

  entitled_grants :
      (w : World)
      → IsEntitled env web header i w
      → (auth_upstream env web header i (some upstream) w).0 ≡ ok (granted upstream i.id)
  unfolding auth_upstream ◌>>=◌
  entitled_grants w e =
      rw (counted_live i.status e.live, e.parsed)
        (ap (λ o. (auth_cookie env web i upstream o w).0) e.present
          ∙ ap (λ p. p.0) (cookie_lem e.token w)
          ∙ ap (λ r. (auth_session env i upstream r (ticked w)).0) e.verified
          ∙ owner_grants e.claims (ticked w) e.same_instance e.same_tenant)

-- A request that the built-in proxy forwards is granted by the check for Traefik, with the same upstream
-- and instance: the host of the request is the one that X-Forwarded-Host names, or else Host, and its first
-- label in lower case is the subdomain that the proxy was asked for.
pub forward_auth-grants :
    (env : Env) (web : Web) (forwarded_host host : Option String) (subdomain : String)
    (header : Option String) (w : World) (x : Target)
    → first_label env (or_else forwarded_host (or_else host "")) ≡ subdomain
    → (subdomain == "") ≡ false
    → (resolve_and_auth env web subdomain header w).0 ≡ ok (forward x)
    → (forward_auth env web forwarded_host host header w).0 ≡ ok (granted x.upstream x.instance_id)
unfolding forward_auth auth_subdomain find_by_subdomain ◌>>=◌ auth_instance
forward_auth-grants env web forwarded_host host subdomain header w x label named h =
    let f : IsForwarded env web subdomain header w x =
      subst (Allows (IsForwarded env web subdomain header w)) h
        (resolve_and_auth-forwards env web subdomain header w) in
    rw (label, named)
      (ap (λ o. (auth_instance env web header o w).0) f.found
        ∙ ap (λ o. (auth_upstream env web header f.row o w).0) f.upstream
        ∙ entitled_grants env web header f.row x.upstream w f.entitled
        ∙ ap (λ k. ok (granted x.upstream k)) (sym f.is_row))
