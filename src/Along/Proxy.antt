-- ===== src/Along/Proxy.antt =====
-- The proxy, and the resumptions that it starts.
use labforge.Base.{or_else, ℕ, String, refl, Bool, true, false, Option, none, some, arith}
use labforge.Exec.{Result, ok, err, modify}
use labforge.Exec.Moves.{Guarantee, Moves, Moves-bind, Moves-try_catch, Moves-pure, moves_rules}
use labforge.Data.{Instance, Template, Scheme}
use labforge.World.{World, Env}
use labforge.Web.{Web, Claims}
use labforge.Tokens.{verify_session_token}
use labforge.Along.{IsClosed, modify-Along, along_rules, now-Along}
use labforge.Along.Hosts.{runtime_for-Along}
use labforge.Along.Rows.{resume_instance-Along}
use labforge.Along.Launches.{attempt-Moves}
use labforge.Nodes.Runtimes.{truthy}
use labforge.Proxy.{
  find_by_subdomain, kick_resume, finish_resume, fast_is_ready, answers, set_seen_active, heartbeat,
  forward_ready, admit, check_session, check_cookie, check_live, check_upstream, check_instance,
  resolve_and_auth, set_seen_at, mark_seen, grant, auth_session, auth_cookie, auth_upstream,
  auth_instance, auth_subdomain, first_label, forward_auth,
}

module _ (g : Guarantee World) (c : IsClosed g) (env : Env) (web : Web) where
  find_by_subdomain-Along : (s : String) → Moves g (find_by_subdomain s)
  unfolding find_by_subdomain
  find_by_subdomain-Along s = search moves_rules

  verify_session_token-Along : (token : String) → Moves g (verify_session_token env web token)
  unfolding verify_session_token
  verify_session_token-Along token = search along_rules

  pub finish_resume-Along : (id : String) → Moves g (finish_resume env id)
  unfolding finish_resume
  finish_resume-Along id =
      Moves-bind _ _ (attempt-Moves g _ (resume_instance-Along g c env id 0))
        (λ r. modify-Along g c _ (λ s. refl) (λ s. refl))

  heartbeat-Along : (i : Instance) → Moves g (heartbeat env i)
  unfolding heartbeat
  heartbeat-Along i = Moves-bind _ _ (now-Along g c env) λ t.
      Moves-try_catch _ _
        (Moves-bind _ _ (c.on_update i.id (set_seen_active t) (λ r. refl)) (λ r. Moves-pure tt))
        (λ e. Moves-pure tt)

  mark_seen-Along : (i : Instance) (t : ℕ) → Moves g (mark_seen i t)
  unfolding mark_seen
  mark_seen-Along i t =
      Moves-try_catch _ _
        (Moves-bind _ _ (c.on_update i.id (set_seen_at t) (λ r. refl)) (λ r. Moves-pure tt))
        (λ e. Moves-pure tt)

  kick-Along : (id : String) → Moves g (modify (kick_resume id))
  unfolding kick_resume
  kick-Along id = modify-Along g c _ (λ s. ground arith) (λ s. ground arith)

  answers-Along :
      (u : String) (s : Scheme) (rid n : Option String) → Moves g (answers env u s rid n)
  unfolding answers fast_is_ready
  answers-Along u s none n = search along_rules
  answers-Along u s (some rid) n = search (along_rules, runtime_for-Along)

  forward_ready-Along :
      (t : Template) (i : Instance) (u : String) (b : Bool)
      → Moves g (forward_ready env web t i u b)
  unfolding forward_ready
  forward_ready-Along t i u false = search along_rules
  forward_ready-Along t i u true = search (along_rules, heartbeat-Along)

  admit-Along : (t : Template) (i : Instance) (u : String) → Moves g (admit env web t i u)
  unfolding admit
  admit-Along t i u = search (along_rules, kick-Along, answers-Along, forward_ready-Along)

  check_session-Along :
      (t : Template) (i : Instance) (u : String) (r : Result Claims)
      → Moves g (check_session env web t i u r)
  unfolding check_session
  check_session-Along t i u (err e) = search along_rules
  check_session-Along t i u (ok x) = search (along_rules, admit-Along)

  check_cookie-Along :
      (t : Template) (i : Instance) (u : String) (o : Option String)
      → Moves g (check_cookie env web t i u o)
  unfolding check_cookie
  check_cookie-Along t i u none = search along_rules
  check_cookie-Along t i u (some token) =
      Moves-bind _ _ (attempt-Moves g _ (verify_session_token-Along token))
        (check_session-Along t i u)

  check_live-Along :
      (h : Option String) (t : Template) (i : Instance) (u : String)
      → Moves g (check_live env web h t i u)
  unfolding check_live
  check_live-Along h t i u = search (along_rules, check_cookie-Along)

  check_instance-Along :
      (h : Option String) (o : Option Instance) → Moves g (check_instance env web h o)
  unfolding check_instance
  check_instance-Along h none = search along_rules
  check_instance-Along h (some i) = search (along_rules, check_upstream-Along)
    where
      check_upstream-Along :
          (t : Template) (o : Option String) → Moves g (check_upstream env web h t i o)
      check_upstream-Along t none = unfold check_upstream in search along_rules
      check_upstream-Along t (some u) = unfold check_upstream in check_live-Along h t i u

  pub resolve_and_auth-Along :
      (s : String) (h : Option String) → Moves g (resolve_and_auth env web s h)
  unfolding resolve_and_auth
  resolve_and_auth-Along s h = search (along_rules, find_by_subdomain-Along, check_instance-Along)

  grant-Along : (i : Instance) (u : String) → Moves g (grant env i u)
  unfolding grant
  grant-Along i u = search (along_rules, mark_seen-Along)

  auth_session-Along :
      (i : Instance) (u : String) (r : Result Claims) → Moves g (auth_session env i u r)
  unfolding auth_session
  auth_session-Along i u (err e) = search along_rules
  auth_session-Along i u (ok x) = search (along_rules, grant-Along)

  auth_cookie-Along :
      (i : Instance) (u : String) (o : Option String) → Moves g (auth_cookie env web i u o)
  unfolding auth_cookie
  auth_cookie-Along i u none = search along_rules
  auth_cookie-Along i u (some token) =
      Moves-bind _ _ (attempt-Moves g _ (verify_session_token-Along token)) (auth_session-Along i u)

  auth_instance-Along :
      (h : Option String) (o : Option Instance) → Moves g (auth_instance env web h o)
  unfolding auth_instance
  auth_instance-Along h none = search along_rules
  auth_instance-Along h (some i) = at_upstream (truthy i.upstream)
    where
      at_upstream : (o : Option String) → Moves g (auth_upstream env web h i o)
      at_upstream none = unfold auth_upstream in search along_rules
      at_upstream (some u) = unfold auth_upstream in search (along_rules, auth_cookie-Along)

  auth_subdomain-Along : (s : String) (h : Option String) → Moves g (auth_subdomain env web s h)
  unfolding auth_subdomain
  auth_subdomain-Along s h = search (along_rules, find_by_subdomain-Along, auth_instance-Along)

  pub forward_auth-Along : (x o h : Option String) → Moves g (forward_auth env web x o h)
  unfolding forward_auth
  forward_auth-Along x o h = auth_subdomain-Along (first_label env (or_else x (or_else o ""))) h
