-- ===== src/Along/Launches.antt =====
-- The routes of a launch, and the redeem route.
use labforge.Base.{ℕ, String, Bool, true, false, Option, none, some}
use labforge.Exec.{Result, ok, err, attempt}
use labforge.Exec.Moves.{Guarantee, Moves, Moves-bind, Moves-if, moves_rules}
use labforge.Data.{Launch, Template, Instance}
use labforge.World.{World, M, Env}
use labforge.Store.{find_launch}
use labforge.Along.{IsClosed, along_rules}
use labforge.Along.Hosts.{runtime_for-Along}
use labforge.Along.Rows.{
  resume_instance-Along, wait_until_ready-Along, ensure_guacamole_credentials-Along,
}
use labforge.Web.{Web, GuacamoleConfig}
use labforge.Tokens.{
  Signed, LaunchPayload, SessionPayload, sign_launch_token, verify_launch_token, sign_session_token,
}
use labforge.Launches.{preview_jti, preview_row, preview_url}
use labforge.Launches.Prepare.{report_ready, await_upstream, finish, prepare_resumed}
use labforge.Redeem.{
  or_lab, gateway_link, open_session, open_if_ready, await_lab, open_resumed, serve,
}
use labforge.Redeem.Gateway.{configured_url, gateway_url}

pub attempt-Moves : {A : Type 0} (g : Guarantee World) (m : M A) → Moves g m → Moves g (attempt m)
unfolding attempt
attempt-Moves g m h = search moves_rules

module _ (g : Guarantee World) (c : IsClosed g) (env : Env) (web : Web) where
  pub sign_launch_token-Along :
      (p : LaunchPayload) (ttl : Option ℕ) → Moves g (sign_launch_token env web p ttl)
  unfolding sign_launch_token
  sign_launch_token-Along p ttl = search along_rules

  sign_session_token-Along : (p : SessionPayload) → Moves g (sign_session_token env web p)
  unfolding sign_session_token
  sign_session_token-Along p = search along_rules

  pub verify_launch_token-Along : (token : String) → Moves g (verify_launch_token env web token)
  unfolding verify_launch_token
  verify_launch_token-Along token = search along_rules

  pub find_launch-Along : (id : String) → Moves g (find_launch id)
  unfolding find_launch
  find_launch-Along id = search moves_rules

  configured_url-Along :
      (i : Instance) (o : Option GuacamoleConfig) → Moves g (configured_url env web i o)
  unfolding configured_url
  configured_url-Along i none = search along_rules
  configured_url-Along i (some conf) =
      search (along_rules, ensure_guacamole_credentials-Along) depth 9

  gateway_url-Along : (i : Instance) → Moves g (gateway_url env web i)
  unfolding gateway_url
  gateway_url-Along i = search (along_rules, configured_url-Along)

  pub gateway_link-Along : (i : Instance) (b : Bool) → Moves g (gateway_link env web i b)
  unfolding gateway_link
  gateway_link-Along i false = search along_rules
  gateway_link-Along i true = search (along_rules, gateway_url-Along)

  or_lab-Along :
      (t : Template) (i : Instance) (p : SessionPayload) (s : Signed) (o : Option String)
      → Moves g (or_lab env web t i p s o)
  unfolding or_lab
  or_lab-Along t i p s none = search along_rules
  or_lab-Along t i p s (some url) = search along_rules

  open_session-Along :
      (l : Launch) (t : Template) (i : Instance) → Moves g (open_session env web l t i)
  unfolding open_session
  open_session-Along l t i =
      search (along_rules, sign_session_token-Along, gateway_link-Along, or_lab-Along)

  open_if_ready-Along :
      (l : Launch) (t : Template) (i : Instance) (b : Bool)
      → Moves g (open_if_ready env web l t i b)
  unfolding open_if_ready
  open_if_ready-Along l t i false = search along_rules
  open_if_ready-Along l t i true = open_session-Along l t i

  await_lab-Along :
      (l : Launch) (t : Template) (i : Instance) (rid u : Option String)
      → Moves g (await_lab env web l t i rid u)
  unfolding await_lab
  await_lab-Along l t i (some rid) (some u) =
      search
        (
          along_rules, open_session-Along, runtime_for-Along, wait_until_ready-Along,
          open_if_ready-Along,
        )
        depth 9
  await_lab-Along l t i (some rid) none = open_session-Along l t i
  await_lab-Along l t i none u = open_session-Along l t i

  open_resumed-Along :
      (l : Launch) (t : Template) (r : Result Instance) → Moves g (open_resumed env web l t r)
  unfolding open_resumed
  open_resumed-Along l t (err e) = search along_rules
  open_resumed-Along l t (ok i) = open_session-Along l t i

  pub serve-Along : (l : Launch) (t : Template) (i : Instance) → Moves g (serve env web l t i)
  unfolding serve
  serve-Along l t i =
      Moves-if _ _ _
        (Moves-bind _ _ (attempt-Moves g _ (resume_instance-Along g c env i.id _))
          (λ r. open_resumed-Along l t r))
        (await_lab-Along l t i _ _)

  report_ready-Along : (l : Launch) (i : Instance) (b : Bool) → Moves g (report_ready l i b)
  unfolding report_ready
  report_ready-Along l i false = search along_rules
  report_ready-Along l i true = search along_rules

  await_upstream-Along :
      (l : Launch) (t : Template) (i : Instance) (n : ℕ) (rid u : Option String)
      → Moves g (await_upstream env web l t i n rid u)
  unfolding await_upstream
  await_upstream-Along l t i n (some rid) (some u) =
      search (along_rules, runtime_for-Along, wait_until_ready-Along, report_ready-Along)
  await_upstream-Along l t i n (some rid) none = search along_rules
  await_upstream-Along l t i n none u = search along_rules

  pub finish-Along :
      (l : Launch) (t : Template) (n : ℕ) (i : Instance) → Moves g (finish env web l t n i)
  unfolding finish
  finish-Along l t n i = search (along_rules, await_upstream-Along)

  pub prepare_resumed-Along :
      (l : Launch) (t : Template) (n : ℕ) (r : Result Instance)
      → Moves g (prepare_resumed env web l t n r)
  unfolding prepare_resumed
  prepare_resumed-Along l t n (err e) = search along_rules
  prepare_resumed-Along l t n (ok i) = finish-Along l t n i

  pub preview_url-Along : (tenant id : String) → Moves g (preview_url env web tenant id)
  unfolding preview_url
  preview_url-Along tenant id = search (along_rules, preview_row-Along)
    where
      preview_jti-Along : (l : Launch) (o : Option String) → Moves g (preview_jti env web l o)
      preview_jti-Along l none = unfold preview_jti in search along_rules
      preview_jti-Along l (some jti) =
          unfold preview_jti in search (along_rules, sign_launch_token-Along)

      preview_row-Along : (o : Option Launch) → Moves g (preview_row env web o)
      preview_row-Along none = unfold preview_row in search along_rules
      preview_row-Along (some l) = unfold preview_row in preview_jti-Along l _
