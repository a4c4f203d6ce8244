-- ===== src/Redeem/Seats.antt =====
-- What a redemption leaves behind: the session, the instance and the launch belong together.
use labforge.Base.{
  ℕ, ◌+◌, ◌/◌, String, ◌≡◌, refl, ap, ◌∙◌, Bool, true, false, Option, none, some, is_some,
  if◌then◌else◌,
}
use labforge.Exec.{Result, ok, err, attempt, ◌>>=◌}
use labforge.Exec.Moves.{Moves}
use labforge.Exec.Triple.{
  Post, Triple, Triple-bind, Triple-pure, Triple-keep, Triple-fact, Triple-attempt,
}
use labforge.Data.{Launch, Template, Instance}
use labforge.World.{World, M, Env}
use labforge.Table.{lookup}
use labforge.Store.{now, instance_key, launch_key}
use labforge.Nodes.Runtimes.{truthy}
use labforge.Along.{IsClosed, now-Along}
use labforge.Along.Rows.{resume_instance-Along, wait_until_ready-Along}
use labforge.Along.Hosts.{runtime_for-Along}
use labforge.Along.Launches.{gateway_link-Along}
use labforge.Orchestrator.Hosts.{runtime_for}
use labforge.Orchestrator.Lifecycle.{resume_instance, wait_until_ready}
use labforge.Web.{Web, Reply, answer}
use labforge.Tokens.{Signed, SessionPayload, session_claims, sign_session_token}
use labforge.Launches.Prepare.{sleeps, upstream_scheme}
use labforge.Redeem.{
  Cookie, Redeemed, warming_page, to_gateway, to_lab, or_lab, session_of, open_session,
  open_if_ready, await_lab, open_resumed, serve, wait_ms,
}
use labforge.Redeem.Resumed.{No, Named, resume_instance-Named}
use labforge.System.Rows.{seats_kept, seats_kept-IsClosed}

-- The launch `l` holds the instance `id`, which is on record, and has been redeemed, at the time of its
-- first redemption where that was before.
pub record IsSeat (l : Launch) (id : String) (s : World) : Type 0 where
  pub row : Instance
  pub found : lookup instance_key id s.instances ≡ some row
  pub seat : Launch
  pub kept : lookup launch_key l.id s.launches ≡ some seat
  pub attached : seat.instance_id ≡ some id
  pub redeemed : is_some seat.redeemed_at ≡ true
  pub first : (t : ℕ) → l.redeemed_at ≡ some t → seat.redeemed_at ≡ some t

-- The cookie is a signed session of the instance that the launch holds, for the user and the tenant of the
-- launch.
pub record IsSession (env : Env) (web : Web) (l : Launch) (c : Cookie) (s : World) : Type 0 where
  pub seat : IsSeat l c.session.sub s
  pub tenant : c.session.tenant_id ≡ l.tenant_id
  pub user : c.session.user_id_hash ≡ l.user_id_hash
  pub signed_at : ℕ
  pub signed :
      c.token
      ≡ web.sign_jwt
          (session_claims env c.session signed_at (signed_at + env.config.jwt_session_ttl_seconds))

abbrev pub Sits : Env → Web → Launch → Reply Redeemed → World → Type 0
Sits env web l (answer (to_lab url c)) s = IsSession env web l c s
Sits env web l (answer (to_gateway url)) s = (id : String) × IsSeat l id s
Sits env web l (answer (warming_page name)) s = (id : String) × IsSeat l id s
Sits env web l _ s = Unit

module _ (env : Env) (web : Web) (l : Launch) where
  seat-moves : (id : String) (s t : World) → seats_kept.rel s t → IsSeat l id s → IsSeat l id t
  seat-moves id s t g h =
      let (r, h') = g.0 id h.row h.found in
      record {
        row = r;
        found = h'.0;
        seat = h.seat;
        kept = ap (lookup launch_key l.id) g.1 ∙ h.kept;
        attached = h.attached;
        redeemed = h.redeemed;
        first = h.first;
      }

  pub keep_seat :
      {A : Type 0} (id : String) (m : M A)
      → Moves seats_kept m
      → Triple (IsSeat l id) (λ a s. IsSeat l id s) (No env) m
  keep_seat id m h =
      Triple-keep m (λ s p. seat-moves id s (m s).1 (h.at s) p) (λ a s p. p) (λ e s p. tt)

  c : IsClosed seats_kept
  c = seats_kept-IsClosed

  -- What signs and links a session of the instance.
  sign_lands :
      (p : SessionPayload) (id : String)
      → Triple
          (IsSeat l id)
          (λ a s.
            ((t : ℕ) × (a.token
                ≡ web.sign_jwt (session_claims env p t (t + env.config.jwt_session_ttl_seconds))))
            × IsSeat l id s)
          (No env)
          (sign_session_token env web p)
  unfolding sign_session_token
  sign_lands p id =
      Triple-bind _ _ (keep_seat id (now env) (now-Along seats_kept c env))
        λ t. Triple-pure _ (λ s h. ((t / 1000, refl), h))

  or_lab_lands :
      (t : Template) (i : Instance) (signed : Signed) (at : ℕ)
      → signed.token
        ≡ web.sign_jwt
            (session_claims env (session_of l i) at (at + env.config.jwt_session_ttl_seconds))
      → (o : Option String)
      → Triple
          (IsSeat l i.id)
          (Sits env web l)
          (No env)
          (or_lab env web t i (session_of l i) signed o)
  unfolding or_lab
  or_lab_lands t i signed at e (some url) = Triple-pure _ (λ s h. (i.id, h))
  or_lab_lands t i signed at e none =
      Triple-pure _
        λ s h. record { seat = h; tenant = refl; user = refl; signed_at = at; signed = e }

  open_lands :
      (t : Template) (i : Instance) (id : String)
      → i.id ≡ id
      → Triple (IsSeat l id) (Sits env web l) (No env) (open_session env web l t i)
  unfolding open_session
  open_lands t i id e = rw (← e) (
      Triple-bind _ _ (sign_lands (session_of l i) i.id) λ signed. Triple-fact _ _ λ at.
        Triple-bind _ _ (keep_seat i.id _ (gateway_link-Along seats_kept c env web i _))
          (or_lab_lands t i signed at.0 at.1))

  open_if_ready_lands :
      (t : Template) (i : Instance) (b : Bool)
      → Triple (IsSeat l i.id) (Sits env web l) (No env) (open_if_ready env web l t i b)
  unfolding open_if_ready
  open_if_ready_lands t i true = open_lands t i i.id refl
  open_if_ready_lands t i false = Triple-pure _ (λ s h. (i.id, h))

  waited :
      (t : Template) (i : Instance) (rid u : String) (b : Bool)
      → Triple (IsSeat l i.id) (Sits env web l) (No env) (
          if b then open_session env web l t i else (do
            runtime ← runtime_for env i.node_id
            r ← wait_until_ready env runtime rid u (wait_ms env) (upstream_scheme web t)
            open_if_ready env web l t i r))
  waited t i rid u true = open_lands t i i.id refl
  waited t i rid u false =
      Triple-bind _ _ (keep_seat i.id _ (runtime_for-Along seats_kept c env i.node_id)) λ rt.
        Triple-bind _ _ (keep_seat i.id _ (wait_until_ready-Along seats_kept c env rt _ _ _ _))
          (open_if_ready_lands t i)

  await_lands :
      (t : Template) (i : Instance) (rid u : Option String)
      → Triple (IsSeat l i.id) (Sits env web l) (No env) (await_lab env web l t i rid u)
  unfolding await_lab
  await_lands t i (some rid) (some u) = waited t i rid u _
  await_lands t i (some rid) none = open_lands t i i.id refl
  await_lands t i none u = open_lands t i i.id refl

  resumed_lands :
      (t : Template) (id : String) (r : Result Instance)
      → Triple
          (λ s. Post (λ i s'. (i.id ≡ id) × IsSeat l id s') (λ e s'. IsSeat l id s') r s)
          (Sits env web l)
          (No env)
          (open_resumed env web l t r)
  unfolding open_resumed
  resumed_lands t id (err e) = Triple-pure _ (λ s h. tt)
  resumed_lands t id (ok i) = Triple-fact _ _ (open_lands t i id)

  resume_lands :
      (id : String) (ms : ℕ)
      → Triple
          (IsSeat l id)
          (λ i s. (i.id ≡ id) × IsSeat l id s)
          (λ e s. IsSeat l id s)
          (resume_instance env id ms)
  resume_lands id ms = record {
    run = λ s p.
        both (resume_instance env id ms s).0 (resume_instance env id ms s).1
          ((resume_instance-Named env {P = IsSeat l id} id ms).run s p)
          (seat-moves id s _ ((resume_instance-Along seats_kept c env id ms).at s) p);
  }
    where
      both :
          (r : Result Instance) (s : World)
          → Post (Named env id) (No env) r s
          → IsSeat l id s
          → Post (λ i s'. (i.id ≡ id) × IsSeat l id s') (λ e s'. IsSeat l id s') r s
      both (ok i) s n p = (n, p)
      both (err e) s n p = p

  slept :
      (t : Template) (i : Instance) (b : Bool)
      → Triple (IsSeat l i.id) (Sits env web l) (No env) (
          if b
          then (do r ← attempt (resume_instance env i.id (wait_ms env)); open_resumed env web l t r)
          else await_lab env web l t i (truthy i.runtime_id) (truthy i.upstream))
  slept t i true = Triple-bind _ _ (Triple-attempt _ (resume_lands i.id _)) (resumed_lands t i.id)
  slept t i false = await_lands t i _ _

  -- From a seat on, the reply and the state belong together.
  pub serve_lands :
      (t : Template) (i : Instance)
      → Triple (IsSeat l i.id) (Sits env web l) (No env) (serve env web l t i)
  unfolding serve
  serve_lands t i = slept t i (sleeps i)
