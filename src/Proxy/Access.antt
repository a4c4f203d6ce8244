-- ===== src/Proxy/Access.antt =====
-- Whom the wildcard proxy lets through.
use mathlib.Core.Path.{subst}
use labforge.Base.{
  ◌/◌, String, ◌≡◌, refl, sym, ap, ◌∙◌, Bool, true, false, Option, none, some, not, eq_iff, arith,
  if◌then◌else◌,
}
use labforge.Exec.{Result, ok, err, row_not_found, or_fail, pure, lift, modify, ◌>>=◌, ◌>>◌}
use labforge.Exec.Laws.{attempt-bind}
use labforge.Exec.Triple.{Post, Triple, Triple-bind, Triple-pure, Triple-any}
use labforge.Data.{Instance, Template}
use labforge.Data.Statuses.{is_counted, is_up}
use labforge.World.{World, M, Env, date_now}
use labforge.Table.{lookup}
use labforge.Store.{now, ask, find_template, template_key}
use labforge.Web.{Web, Claims}
use labforge.Tokens.{verify_session_token, session_audience}
use labforge.Nodes.Runtimes.{truthy}
use labforge.Launches.Prepare.{sleeps, upstream_scheme}
use labforge.Redeem.Guards.{ticked}
use labforge.Proxy.Cookies.{parse_cookie}
use labforge.Proxy.{
  Decision, forward, warming, unavailable, denied, Target, subdomain_key, find_by_subdomain,
  kick_resume, answers, forward_ready, admit, owns, check_session, check_cookie, check_live,
  check_upstream, check_instance, resolve_and_auth,
}

-- What the signature check says of a session token.
abbrev pub session_verdict : Env → Web → String → World → Result Claims
session_verdict env web token w =
    web.verify_jwt (env.num_answer w.calls date_now / 1000) env.config.jwt_issuer session_audience
      token

-- The session of a request that is forwarded.
pub record IsEntitled (env : Env) (web : Web) (header : Option String) (i : Instance) (w : World)
    : Type 0 where
  pub live : is_counted i.status ≡ true
  pub cookie : Option String
  pub parsed : parse_cookie web header "lf_session" ≡ ok cookie
  pub token : String
  pub present : truthy cookie ≡ some token
  pub claims : Claims
  pub verified : session_verdict env web token w ≡ ok claims
  pub same_instance : claims.sub ≡ i.id
  pub same_tenant : claims.tenant_id ≡ i.tenant_id

-- A request for a subdomain that is forwarded to a target.
pub record IsForwarded (env : Env) (web : Web) (subdomain : String) (header : Option String)
    (w : World) (target : Target) : Type 0 where
  pub row : Instance
  pub found : lookup subdomain_key subdomain w.instances ≡ some row
  pub is_up : is_up row.status ≡ true
  pub is_row : target.instance_id ≡ row.id
  pub upstream : truthy row.upstream ≡ some target.upstream
  pub entitled : IsEntitled env web header row w

-- What a decision says where it is to forward.
abbrev pub Forwards : (Target → Type 0) → Decision → Type 0
Forwards P (forward t) = P t
Forwards P _ = Unit

abbrev pub Allows : (Target → Type 0) → Result Decision → Type 0
Allows P (ok d) = Forwards P d
Allows P (err e) = Unit

module _ (env : Env) (web : Web) (header : Option String) (t : Template) (i : Instance)
    (upstream : String) where
  -- The lab answers, and the target is its row.
  Sent : Target → Type 0
  Sent target = (target.instance_id ≡ i.id) × (target.upstream ≡ upstream) × (is_up i.status ≡ true)

  Decides : M Decision → Type 0
  Decides m = Triple (λ s. Unit {0}) (λ d s. Forwards Sent d) (λ e s. Unit {0}) m

  ready_sends : is_up i.status ≡ true → (b : Bool) → Decides (forward_ready env web t i upstream b)
  unfolding Decides forward_ready Sent
  ready_sends h false = Triple-pure _ (λ s p. tt)
  ready_sends h true = Triple-bind _ _ (Triple-any _) λ u. Triple-pure _ (λ s p. (refl, refl, h))

  up_sends :
      (b : Bool)
      → is_up i.status ≡ b
      → Decides (
          if not b then pure (warming t.name) else (do
            a ← answers env upstream (upstream_scheme web t) (truthy i.runtime_id) i.node_id
            forward_ready env web t i upstream a))
  up_sends false h = unfold Decides in Triple-pure _ (λ s p. tt)
  up_sends true h = unfold Decides in Triple-bind _ _ (Triple-any _) (ready_rule h)
    where
      ready_rule :
          is_up i.status ≡ true
          → (b : Bool)
          → Triple
              (λ s. Unit {0})
              (λ d s. Forwards Sent d)
              (λ e s. Unit {0})
              (forward_ready env web t i upstream b)
      ready_rule h b = unfold Decides in ready_sends h b

  admit_sends : Decides (admit env web t i upstream)
  unfolding admit
  admit_sends = by_sleep (sleeps i)
    where
      by_sleep :
          (b : Bool)
          → Decides (
              if b
              then (do modify (kick_resume i.id); pure (warming t.name))
              else if not (is_up i.status)
              then pure (warming t.name)
              else (do
                a ← answers env upstream (upstream_scheme web t) (truthy i.runtime_id) i.node_id
                forward_ready env web t i upstream a))
      by_sleep true =
          unfold Decides in Triple-bind _ _ (Triple-any _) (λ u. Triple-pure _ (λ s p. tt))
      by_sleep false = up_sends (is_up i.status) refl

  allows :
      (F : Type 0) (r : Result Decision) (s : World)
      → F
      → Post (λ d s. Forwards Sent d) (λ e s. Unit {0}) r s
      → Allows (λ target. Sent target × F) r
  allows F (ok (forward x)) s f h = (h, f)
  allows F (ok (warming n)) s f h = tt
  allows F (ok (unavailable r n)) s f h = tt
  allows F (ok (denied r n)) s f h = tt
  allows F (err e) s f h = tt

  module _ (w : World) where
    -- What is claimed of each decision.
    Ends : Result Decision × World → Type 0
    Ends r = Allows (λ target. Sent target × IsEntitled env web header i w) r.0

    owner : (c : Claims) → owns c i ≡ true → (c.sub ≡ i.id) × (c.tenant_id ≡ i.tenant_id)
    owner c h = (
      (eq_iff c.sub i.id).0 (ground (arith, h)),
      (eq_iff c.tenant_id i.tenant_id).0 (ground (arith, h)),
    )

    module _ (live : is_counted i.status ≡ true) (cookie : Option String)
        (parsed : parse_cookie web header "lf_session" ≡ ok cookie) (token : String)
        (present : truthy cookie ≡ some token) where
      owner-Ends :
          (c : Claims) (b : Bool)
          → session_verdict env web token w ≡ ok c
          → owns c i ≡ b
          → Ends (check_session env web t i upstream (ok c) (ticked w))
      owner-Ends c false v h = unfold Ends check_session pure in rw h tt
      owner-Ends c true v h =
          unfold Ends check_session in
          rw h (
            allows (IsEntitled env web header i w) (admit env web t i upstream (ticked w)).0
              (admit env web t i upstream (ticked w)).1
              (record {
                live = live;
                cookie = cookie;
                parsed = parsed;
                token = token;
                present = present;
                claims = c;
                verified = v;
                same_instance = (owner c h).0;
                same_tenant = (owner c h).1;
              })
              (unfold Decides in admit_sends.run (ticked w) tt))

      session-Ends :
          (r : Result Claims)
          → session_verdict env web token w ≡ r
          → Ends (check_session env web t i upstream r (ticked w))
      session-Ends (err e) v = unfold Ends check_session pure in tt
      session-Ends (ok c) v = owner-Ends c (owns c i) v refl

    verified_lem :
        (token : String)
        → verify_session_token env web token w ≡ (session_verdict env web token w, ticked w)
    verified_lem token = unfold verify_session_token now ask ◌>>=◌ in refl

    token-Ends :
        is_counted i.status ≡ true
        → (cookie : Option String) → parse_cookie web header "lf_session" ≡ ok cookie
        → (o : Option String) → truthy cookie ≡ o
        → Ends (check_cookie env web t i upstream o w)
    unfolding check_cookie
    token-Ends live cookie parsed none h = unfold Ends pure in tt
    token-Ends live cookie parsed (some token) h =
        subst Ends
          (sym (
            attempt-bind (verify_session_token env web token) (check_session env web t i upstream) w
            ∙ ap (λ p. check_session env web t i upstream p.0 p.1) (verified_lem token)))
          (session-Ends live cookie parsed token h _ refl)

    cookie-Ends :
        is_counted i.status ≡ true
        → (r : Result (Option String)) → parse_cookie web header "lf_session" ≡ r
        → Ends ((lift r >>= λ c. check_cookie env web t i upstream (truthy c)) w)
    cookie-Ends live (err e) h = unfold Ends ◌>>=◌ in tt
    cookie-Ends live (ok c) h = unfold Ends ◌>>=◌ in unfold Ends in token-Ends live c h _ refl

    live-Ends :
        (b : Bool) → is_counted i.status ≡ b → Ends (check_live env web header t i upstream w)
    live-Ends false h = unfold Ends check_live pure in rw h tt
    live-Ends true h = unfold check_live in rw h (cookie-Ends h _ refl)

module _ (env : Env) (web : Web) (subdomain : String) (header : Option String) (w : World) where
  Lets : Result Decision × World → Type 0
  Lets r = Allows (IsForwarded env web subdomain header w) r.0

  module _ (i : Instance) (found : lookup subdomain_key subdomain w.instances ≡ some i) where
    forwarded :
        (t : Template) (upstream : String) (r : Result Decision)
        → truthy i.upstream ≡ some upstream
        → Allows (λ x. Sent env web header t i upstream x × IsEntitled env web header i w) r
        → Allows (IsForwarded env web subdomain header w) r
    unfolding Sent
    forwarded t upstream (ok (forward x)) u h = record {
      row = i;
      found = found;
      is_up = h.0.2;
      is_row = h.0.0;
      upstream = u ∙ ap (λ (s : String). some s) (sym h.0.1);
      entitled = h.1;
    }
    forwarded t upstream (ok (warming n)) u h = tt
    forwarded t upstream (ok (unavailable r n)) u h = tt
    forwarded t upstream (ok (denied r n)) u h = tt
    forwarded t upstream (err e) u h = tt

    at_upstream :
        (t : Template) (o : Option String)
        → truthy i.upstream ≡ o
        → Lets (check_upstream env web header t i o w)
    unfolding check_upstream
    at_upstream t none h = unfold Lets pure in tt
    at_upstream t (some u) h =
        unfold Lets in
        forwarded t u (check_live env web header t i u w).0 h
          (unfold Ends in live-Ends env web header t i u w _ refl)

    at_template :
        (o : Option Template)
        → Lets (
            (lift (or_fail row_not_found o) >>= λ t.
            check_upstream env web header t i (truthy i.upstream))
              w)
    at_template none = unfold Lets ◌>>=◌ in tt
    at_template (some t) = unfold ◌>>=◌ in at_upstream t _ refl

  at_row :
      (o : Option Instance)
      → lookup subdomain_key subdomain w.instances ≡ o
      → Lets (check_instance env web header o w)
  unfolding check_instance
  at_row none h = unfold Lets pure in tt
  at_row (some i) h =
      unfold find_template ◌>>=◌ in at_template i h (lookup template_key i.template_id w.templates)

  -- A request that the proxy forwards is for a subdomain on record whose lab is up, and goes to the upstream
  -- of that lab; it carries a session cookie that passes the signature check, issued for that very
  -- instance and its tenant. Every other request is answered by a page or an error.
  pub resolve_and_auth-forwards :
      Allows
        (IsForwarded env web subdomain header w)
        (resolve_and_auth env web subdomain header w).0
  resolve_and_auth-forwards =
      unfold resolve_and_auth find_by_subdomain ◌>>=◌ Lets in
      at_row (lookup subdomain_key subdomain w.instances) refl
