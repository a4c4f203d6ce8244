-- ===== src/Proxy.antt =====
-- The wildcard proxy, `resolveAndAuth` and `fastIsReady` of packages/control-plane/src/wildcardProxy.ts, and
-- the same decision for Traefik, `/internal/forward-auth` of routes/internal.ts. The transport itself
-- (headers, sockets, pipes) is not modelled.
pub mod Labels
pub mod Cookies
pub mod Access
pub mod Agreement
use labforge.Base.{
  or_else, ℕ, String, ◌<>◌, Bool, true, false, Option, none, some, List, [], ◌∷◌, ◌==◌, ◌&&◌, ◌||◌,
  not, any, filter, if◌then◌else◌, is_some, text_option_eq,
}
use labforge.Exec.{
  Result, ok, err, row_not_found, or_fail, pure, gets, lift, modify, attempt, try_catch, ◌>>=◌,
  ◌>>◌,
}
use labforge.Data.{Instance, Template, Status, terminated, failed, Scheme, http, https}
use labforge.Data.Statuses.{is_counted, is_up}
use labforge.World.{M, World, Env, on_runtime, is_ready}
use labforge.Table.{lookup}
use labforge.Store.{ask, now, find_template, update_instance}
use labforge.Web.{Web, Claims}
use labforge.Tokens.{verify_session_token}
use labforge.Nodes.Runtimes.{truthy}
use labforge.Orchestrator.Hosts.{runtime_for}
use labforge.Orchestrator.Lifecycle.{resume_instance}
use labforge.Launches.Prepare.{sleeps, upstream_scheme}
use labforge.Proxy.Cookies.{parse_cookie, split_on}

pub record Target : Type 0 where
  pub upstream : String
  pub scheme : Scheme
  pub instance_id : String
  pub runtime_id : Option String
  pub node_id : Option String
  pub inject_auth : Option String

pub data Decision : Type 0 where
  forward : Target → Decision
  warming : (template_name : String) → Decision
  unavailable : (reason : String) → (code : ℕ) → Decision
  denied : (error : String) → (code : ℕ) → Decision

-- prisma.labInstance.findUnique({ where: { subdomain } })
abbrev pub subdomain_key : Instance → String
subdomain_key i = i.subdomain

unfoldable pub find_by_subdomain : String → M (Option Instance)
unfolding gets
find_by_subdomain subdomain = gets (λ w. lookup subdomain_key subdomain w.instances)

-- A resumption is started in the background, where none is under way for the instance.
unfoldable pub kick_resume : String → World → World
kick_resume id w =
    if any (λ k. k == id) w.resuming_now then w else record w { resuming_now = id ∷ w.resuming_now }

-- The background job: its failure is logged, and the guard is taken off in any case.
unfoldable pub finish_resume : Env → String → M (Unit {0})
finish_resume env id = do
  attempt (resume_instance env id 0)
  modify (λ w. record w { resuming_now = filter (λ k. not (k == id)) w.resuming_now })

-- A failure counts as not ready.
unfoldable pub fast_is_ready :
    Env → (runtime_id upstream : String) → Scheme → (node_id : Option String) → M Bool
fast_is_ready env runtime_id upstream scheme node_id =
    try_catch
      (do
        runtime ← runtime_for env node_id
        ask env.bool_answer (on_runtime runtime (is_ready runtime_id upstream scheme)))
      (λ _. pure false)

-- `instance.runtimeId && !(await fastIsReady(…))`, negated
unfoldable pub answers : Env → (upstream : String) → Scheme → Option String → Option String → M Bool
answers env upstream scheme none node_id = pure true
answers env upstream scheme (some runtime_id) node_id =
    fast_is_ready env runtime_id upstream scheme node_id

abbrev pub set_seen_active : ℕ → Instance → Instance
set_seen_active t r = record r { last_seen_at = some t; last_activity_at = some t }

-- The update is not waited for, and its failure is ignored.
unfoldable pub heartbeat : Env → Instance → M (Unit {0})
heartbeat env i = do
  t ← now env
  try_catch (do update_instance i.id (set_seen_active t); pure tt) (λ _. pure tt)

abbrev pub basic_auth : Web → Scheme → Option String → Option String
basic_auth web https (some password) = some ("Basic " <> web.base64 ("kasm_user:" <> password))
basic_auth web _ _ = none

abbrev pub target_of : Web → Template → Instance → String → Target
target_of web t i upstream = record {
  upstream = upstream;
  scheme = upstream_scheme web t;
  instance_id = i.id;
  runtime_id = i.runtime_id;
  node_id = i.node_id;
  inject_auth =
      basic_auth web (upstream_scheme web t) (truthy (web.nested_text_field t.spec "env" "VNC_PW"));
}

unfoldable pub forward_ready : Env → Web → Template → Instance → String → Bool → M Decision
forward_ready env web t i upstream false = pure (warming t.name)
forward_ready env web t i upstream true = do
  heartbeat env i
  pure (forward (target_of web t i upstream))

-- The request of a session that is in order.
unfoldable pub admit : Env → Web → Template → Instance → String → M Decision
admit env web t i upstream =
    if sleeps i
    then (do modify (kick_resume i.id); pure (warming t.name))
    else if not (is_up i.status)
    then pure (warming t.name)
    else (do
      b ← answers env upstream (upstream_scheme web t) (truthy i.runtime_id) i.node_id
      forward_ready env web t i upstream b)

abbrev pub owns : Claims → Instance → Bool
owns c i = c.sub == i.id && c.tenant_id == i.tenant_id

unfoldable pub check_session : Env → Web → Template → Instance → String → Result Claims → M Decision
check_session env web t i upstream (err e) = pure (denied "invalid_session" 401)
check_session env web t i upstream (ok c) =
    if owns c i then admit env web t i upstream else pure (denied "session_mismatch" 403)

unfoldable pub check_cookie : Env → Web → Template → Instance → String → Option String → M Decision
check_cookie env web t i upstream none = pure (denied "no_session" 401)
check_cookie env web t i upstream (some token) = do
  r ← attempt (verify_session_token env web token)
  check_session env web t i upstream r

unfoldable pub check_live : Env → Web → Option String → Template → Instance → String → M Decision
check_live env web header t i upstream =
    if is_counted i.status
    then (do
      cookie ← lift (parse_cookie web header "lf_session")
      check_cookie env web t i upstream (truthy cookie))
    else pure (unavailable "instance_terminated" 410)

unfoldable pub check_upstream :
    Env → Web → Option String → Template → Instance → Option String → M Decision
check_upstream env web header t i none = pure (unavailable "unknown_instance" 404)
check_upstream env web header t i (some upstream) = check_live env web header t i upstream

unfoldable pub check_instance : Env → Web → Option String → Option Instance → M Decision
check_instance env web header none = pure (unavailable "unknown_instance" 404)
check_instance env web header (some i) = do
  template ← find_template i.template_id
  t ← lift (or_fail row_not_found template)
  check_upstream env web header t i (truthy i.upstream)

unfoldable pub resolve_and_auth :
    Env → Web → (subdomain : String) → (cookie_header : Option String) → M Decision
resolve_and_auth env web subdomain header = do
  row ← find_by_subdomain subdomain
  check_instance env web header row

-- The reply of `/internal/forward-auth`.
pub data Verdict : Type 0 where
  granted : (upstream instance_id : String) → Verdict
  rejected : (code : ℕ) → (error : String) → Verdict

abbrev pub set_seen_at : ℕ → Instance → Instance
set_seen_at t r = record r { last_seen_at = some t }

-- The update is not waited for, and its failure is ignored.
unfoldable pub mark_seen : Instance → ℕ → M (Unit {0})
mark_seen i t = try_catch (do update_instance i.id (set_seen_at t); pure tt) (λ _. pure tt)

unfoldable pub grant : Env → Instance → String → M Verdict
grant env i upstream = do t ← now env; mark_seen i t; pure (granted upstream i.id)

unfoldable pub auth_session : Env → Instance → String → Result Claims → M Verdict
auth_session env i upstream (err e) = pure (rejected 401 "invalid_session")
auth_session env i upstream (ok c) =
    if not (c.sub == i.id)
    then pure (rejected 403 "session_instance_mismatch")
    else if not (c.tenant_id == i.tenant_id)
    then pure (rejected 403 "tenant_mismatch")
    else grant env i upstream

unfoldable pub auth_cookie : Env → Web → Instance → String → Option String → M Verdict
auth_cookie env web i upstream none = pure (rejected 401 "no_session")
auth_cookie env web i upstream (some token) = do
  r ← attempt (verify_session_token env web token)
  auth_session env i upstream r

abbrev pub is_terminated : Status → Bool
is_terminated terminated = true
is_terminated _ = false

unfoldable pub auth_upstream : Env → Web → Option String → Instance → Option String → M Verdict
auth_upstream env web header i none = pure (rejected 404 "unknown_instance")
auth_upstream env web header i (some upstream) =
    if is_terminated i.status then pure (rejected 404 "unknown_instance") else (do
      cookie ← lift (parse_cookie web header "lf_session")
      auth_cookie env web i upstream (truthy cookie))

unfoldable pub auth_instance : Env → Web → Option String → Option Instance → M Verdict
auth_instance env web header none = pure (rejected 404 "unknown_instance")
auth_instance env web header (some i) = auth_upstream env web header i (truthy i.upstream)

abbrev head_or_empty : List String → String
head_or_empty [] = ""
head_or_empty (x ∷ xs) = x

-- `host.split('.')[0]?.toLowerCase()`
unfoldable pub first_label : Env → String → String
unfolding split_on
first_label env host = env.to_lower (head_or_empty (split_on b'.' host))

unfoldable pub auth_subdomain : Env → Web → (subdomain : String) → Option String → M Verdict
auth_subdomain env web subdomain header =
    if subdomain == ""
    then pure (rejected 400 "bad_host")
    else (do row ← find_by_subdomain subdomain; auth_instance env web header row)

-- The host is that of X-Forwarded-Host, of Host where it is absent, and empty without both.
unfoldable pub forward_auth : Env → Web → (forwarded_host host header : Option String) → M Verdict
forward_auth env web forwarded_host host header =
    auth_subdomain env web (first_label env (or_else forwarded_host (or_else host ""))) header
