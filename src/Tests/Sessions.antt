-- ===== src/Tests/Sessions.antt =====
-- Launches, sessions and tokens on the small fleet.
use labforge.Base.{
  ◌+◌, ◌*◌, String, ◌≡◌, refl, false, Option, none, some, [], ◌∷◌, ◌==◌, if◌then◌else◌,
}
use labforge.Base.Texts.{fits}
use labforge.Exec.{ok, pure, gets, lift, try_catch, attempt, ◌>>=◌}
use labforge.Exec.Triple.{Post}
use labforge.Data.{Launch}
use labforge.World.{World}
use labforge.Table.{lookup, update}
use labforge.Store.{
  launch_key, ask, now, fresh, update_launch, put_launch, find_template, find_node, update_instance,
  put_instance,
}
use labforge.Web.{Web, Claims, answer, refuse}
use labforge.Tokens.{launch_audience, sign_launch_token, verify_session_token}
use labforge.Launches.{
  LaunchLink, find_tenant_launch, revoke_row, revoke, launch_url, regenerate_row, regenerate,
}
use labforge.Launches.Regenerated.{regenerate-refuses_old}
use labforge.Launches.Prepare.{upstream_scheme}
use labforge.Redeem.{redeem}
use labforge.Redeem.Guards.{ticked, IsAdmitted, Opens, redeem-admits}
use labforge.Redeem.Resumed.{No}
use labforge.Redeem.Seats.{Sits}
use labforge.Redeem.Attached.{redeem-Sits}
use labforge.System.{here, next, reaped, after}
use labforge.System.Keyed.{IsUnique, Reach-IsUnique}
use labforge.System.Rows.{Same, Reach-Same}
use labforge.System.Revoked.{revoked-stays_closed}
use labforge.Reaper.{reconcile_once}
use labforge.Proxy.{
  forward, Target, target_of, granted, resolve_and_auth, find_by_subdomain, check_instance,
  check_upstream, check_live, check_cookie, check_session, admit, answers, fast_is_ready,
  forward_ready, heartbeat, forward_auth, first_label,
}
use labforge.Proxy.Cookies.{parse_cookie, cookie_in, find_cookie, split_on, key_of, value_of}
use labforge.Proxy.Access.{Allows, IsForwarded, resolve_and_auth-forwards}
use labforge.Proxy.Agreement.{forward_auth-grants}
use labforge.Nodes.Names.{trim, trim_start, trim_end, is_space}
use labforge.Nodes.Runtimes.{get_node_runtime, runtime_under}
use labforge.Orchestrator.Hosts.{runtime_for, runtime_at}
use labforge.Tests.{an_env, a_world, a_world-IsKeyed, a_template, live_lab}

abbrev seat : Launch
seat = record {
  id = "l1";
  tenant_id = "acme";
  template_id = "shell";
  user_id_hash = "bob";
  user_display_name = none;
  duration_minutes = 120;
  return_url = none;
  webhook_url = none;
  context = "{}";
  node_ids = [];
  token_jti = some "j1";
  redeemed_at = none;
  instance_id = some "i4";
  created_at = 0;
  expires_at = 9000000;
}

abbrev pub seats : World
seats = record a_world { launches = seat ∷ [] }

abbrev a_claim : String → String → Option String → Claims
a_claim aud sub jti = record {
  iss = "labforge";
  aud = aud;
  sub = sub;
  jti = jti;
  tenant_id = "acme";
  template_id = none;
  user_id_hash = "bob";
  iat = 4000;
  exp = 9000;
}

-- Every token is that of the seat, and every session that of its lab.
abbrev pub a_web : Web
a_web = record {
  sign_jwt = λ c. c.sub;
  verify_jwt = λ t iss aud token.
      ok (if aud == launch_audience then a_claim aud "l1" (some "j1") else a_claim aud "i4" none);
  sha256_hex = λ s. s;
  encode_uri_component = λ s. s;
  decode_uri_component = λ s. ok s;
  href_with_hostname = λ base host. host;
  search_params = λ fields. "";
  base64 = λ s. s;
  text_field = λ json field. none;
  nested_text_field = λ json object field. none;
  guacamole_answer = λ cs c. ok none;
  connection_answer = λ cs c. ok none;
}

abbrev the_claim : Claims
the_claim = a_claim launch_audience "l1" (some "j1")

abbrev a_token : String
a_token = "header.payload.signature"

long_enough : fits 9 a_token ≡ false
unfolding fits
long_enough = refl

seat_row : lookup launch_key "l1" seats.launches ≡ some seat
unfolding lookup
seat_row = refl

redeem-admits_example :
    Opens (redeem an_env a_web (some a_token) seats).0 (IsAdmitted an_env a_web a_token seats)
redeem-admits_example = redeem-admits an_env a_web a_token seats

redeem-Sits_example :
    Post
      (Sits an_env a_web seat)
      (No an_env)
      (redeem an_env a_web (some a_token) seats).0
      (redeem an_env a_web (some a_token) seats).1
redeem-Sits_example =
    redeem-Sits an_env a_web a_token seats the_claim seat seat_row a_world-IsKeyed long_enough refl

revoke_answers : (revoke an_env "acme" "l1" seats).0 ≡ ok (answer tt)
unfolding revoke revoke_row find_tenant_launch now ask update_launch put_launch lookup update ◌>>=◌
    gets pure
revoke_answers = refl

revoked-stays_closed_example :
    redeem an_env a_web
      (some a_token)
      (after (reconcile_once an_env) (after (revoke an_env "acme" "l1") seats))
    ≡ (
      ok (refuse 401 "token_revoked"),
      ticked (after (reconcile_once an_env) (after (revoke an_env "acme" "l1") seats)),
    )
revoked-stays_closed_example =
    revoked-stays_closed an_env a_web "acme" "l1" seats
      (after (reconcile_once an_env) (after (revoke an_env "acme" "l1") seats)) a_token the_claim
      revoke_answers (next here (reaped _)) long_enough refl refl

Reach-Same_example : Same seats (after (reconcile_once an_env) seats)
Reach-Same_example = Reach-Same an_env a_web (next here (reaped seats))

seats-IsUnique : IsUnique seats
seats-IsUnique = record { keyed = a_world-IsKeyed; hosts = a_world-IsKeyed; launches = (tt, tt) }

Reach-IsUnique_example : IsUnique (after (reconcile_once an_env) seats)
Reach-IsUnique_example = Reach-IsUnique an_env a_web seats-IsUnique (next here (reaped seats))

abbrev a_cookie : Option String
a_cookie = some "theme=dark; lf_session=abc"

resolve_and_auth-forwards_example :
    Allows
      (IsForwarded an_env a_web "i4" a_cookie seats)
      (resolve_and_auth an_env a_web "i4" a_cookie seats).0
resolve_and_auth-forwards_example = resolve_and_auth-forwards an_env a_web "i4" a_cookie seats

abbrev a_target : Target
a_target = target_of a_web a_template live_lab "127.0.0.1:32768"

request_forwarded : (resolve_and_auth an_env a_web "i4" a_cookie seats).0 ≡ ok (forward a_target)
unfolding resolve_and_auth find_by_subdomain check_instance find_template check_upstream check_live
    parse_cookie cookie_in find_cookie split_on key_of value_of trim trim_start trim_end is_space
    check_cookie attempt try_catch verify_session_token now ask check_session admit answers
    fast_is_ready runtime_for runtime_at get_node_runtime runtime_under forward_ready heartbeat
    update_instance put_instance lookup update upstream_scheme find_node ◌>>=◌ gets pure lift
request_forwarded = refl

its_label : first_label an_env "i4.lab.test" ≡ "i4"
unfolding first_label split_on
its_label = refl

forward_auth-grants_example :
    (forward_auth an_env a_web none (some "i4.lab.test") a_cookie seats).0
    ≡ ok (granted a_target.upstream a_target.instance_id)
forward_auth-grants_example =
    forward_auth-grants an_env a_web none (some "i4.lab.test") "i4" a_cookie seats a_target
      its_label refl request_forwarded

abbrev a_link : LaunchLink
a_link = record {
  launch_id = "l1";
  url = "https://api.example.com/launch/redeem?t=l1";
  expires_at = (5000 + 720 * 3600) * 1000;
}

regenerate_answers : (regenerate an_env a_web "acme" "l1" (some none) seats).0 ≡ ok (answer a_link)
unfolding regenerate regenerate_row find_tenant_launch fresh sign_launch_token now ask update_launch
    put_launch lookup update launch_url ◌>>=◌ gets pure
regenerate_answers = refl

regenerate-refuses_old_example :
    redeem an_env a_web (some a_token) (regenerate an_env a_web "acme" "l1" (some none) seats).1 ≡ (
      ok (refuse 401 "token_revoked"),
      ticked (regenerate an_env a_web "acme" "l1" (some none) seats).1,
    )
regenerate-refuses_old_example =
    regenerate-refuses_old an_env a_web "acme" "l1" none seats a_link a_token the_claim
      regenerate_answers long_enough refl refl refl
