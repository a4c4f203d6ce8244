-- ===== src/Along/Routes.antt =====
-- The routes that write launches, and the redeem route, along a guarantee that also covers the writes
-- of launches.
use labforge.Base.{ℕ, String, ◌≡◌, refl, Option, none, some, List, [], ◌∷◌}
use labforge.Exec.{Result, ok, err}
use labforge.Exec.Moves.{Guarantee, Moves, Moves-bind, Moves-if}
use labforge.Data.{Launch, Template, Instance}
use labforge.World.{World, Env}
use labforge.Store.{update_launch, create_launch}
use labforge.Along.{IsClosed, along_rules}
use labforge.Along.Rows.{resume_instance-Along}
use labforge.Along.Labs.{acquire_instance-Along}
use labforge.Web.{Web, Claims}
use labforge.Launches.{
  LaunchRequest, issue, issue_on, issue_template, create_route, set_revoked, revoke_row, revoke,
  set_regenerated, regenerate_row, regenerate,
}
use labforge.Launches.Prepare.{
  Included, set_instance, prepare_acquired, prepare_lab, prepare_row, prepare_found, prepare,
}
use labforge.Redeem.{
  set_redeemed, set_attached, stamp, attach, redeem_acquired, redeem_lab, redeem_current, redeem_at,
  redeem_found, redeem_row, redeem_verified, redeem,
}
use labforge.Along.Launches.{
  attempt-Moves, serve-Along, prepare_resumed-Along, finish-Along, sign_launch_token-Along,
  verify_launch_token-Along, find_launch-Along,
}

-- What no write of a launch changes.
abbrev pub launch_identity : Launch → String × (String × (String × String))
launch_identity l = (l.id, (l.tenant_id, (l.template_id, l.user_id_hash)))

-- A change of a launch that keeps its identity, and issues no token.
pub record IssuesNone (f : Launch → Launch) : Type 0 where
  pub same_launch : (l : Launch) → launch_identity (f l) ≡ launch_identity l
  pub no_token : (l : Launch) → l.token_jti ≡ none → (f l).token_jti ≡ none

-- The same for the writes of launches, other than a regeneration.
pub record IsLaunchClosed (g : Guarantee World) : Type 0 where
  pub closed : IsClosed g
  pub on_launch : (id : String) (f : Launch → Launch) → IssuesNone f → Moves g (update_launch id f)
  pub on_create : (l : Launch) → Moves g (create_launch l)

module _ (g : Guarantee World) (c : IsLaunchClosed g) where
  set_revoked-Along : (id : String) (t : ℕ) → Moves g (update_launch id (set_revoked t))
  set_revoked-Along id t =
      c.on_launch id _ record { same_launch = λ l. refl; no_token = λ l h. refl }

  pub set_instance-Along : (id i : String) → Moves g (update_launch id (set_instance i))
  set_instance-Along id i = c.on_launch id _ record { same_launch = λ l. refl; no_token = λ l h. h }

  set_redeemed-Along : (id : String) (t : ℕ) → Moves g (update_launch id (set_redeemed t))
  set_redeemed-Along id t = c.on_launch id _ record { same_launch = λ l. refl; no_token = λ l h. h }

  set_attached-Along : (id i : String) (t : ℕ) → Moves g (update_launch id (set_attached i t))
  set_attached-Along id i t =
      c.on_launch id _ record { same_launch = λ l. refl; no_token = λ l h. h }

  create_launch-Along : (l : Launch) → Moves g (create_launch l)
  create_launch-Along l = c.on_create l

ruleset route_rules = (
  along_rules, set_revoked-Along, set_instance-Along, set_redeemed-Along, set_attached-Along,
  create_launch-Along, sign_launch_token-Along, verify_launch_token-Along, find_launch-Along,
)

module _ (g : Guarantee World) (lc : IsLaunchClosed g) (c : IsClosed g) (env : Env)
    (web : Web) where
  issue-Along :
      (b : LaunchRequest) (t : Template) (ids : List String) → Moves g (issue env web b t ids)
  unfolding issue
  issue-Along b t ids = search route_rules depth 12

  issue_on-Along :
      (b : LaunchRequest) (t : Template) (us ids : List String)
      → Moves g (issue_on env web b t us ids)
  unfolding issue_on
  issue_on-Along b t [] ids = issue-Along b t ids
  issue_on-Along b t (u ∷ us) ids = search along_rules

  issue_template-Along :
      (b : LaunchRequest) (names : List String) (o : Option Template)
      → Moves g (issue_template env web b names o)
  unfolding issue_template
  issue_template-Along b names none = search along_rules
  issue_template-Along b [] (some t) = issue-Along b t []
  issue_template-Along b (n ∷ ns) (some t) = search (along_rules, issue_on-Along)

  pub create_route-Along :
      (tenant : String) (b : Option LaunchRequest) → Moves g (create_route env web tenant b)
  unfolding create_route
  create_route-Along tenant none = search along_rules
  create_route-Along tenant (some b) = search (along_rules, issue_template-Along)

  revoke_row-Along : (id : String) (o : Option Launch) → Moves g (revoke_row env id o)
  unfolding revoke_row
  revoke_row-Along id none = search along_rules
  revoke_row-Along id (some l) = search route_rules

  pub revoke-Along : (tenant id : String) → Moves g (revoke env tenant id)
  unfolding revoke
  revoke-Along tenant id = search (along_rules, revoke_row-Along)

  prepare_acquired-Along :
      (l : Launch) (t : Template) (n : ℕ) (r : Result Instance)
      → Moves g (prepare_acquired env web l t n r)
  unfolding prepare_acquired
  prepare_acquired-Along l t n (err e) = search along_rules
  prepare_acquired-Along l t n (ok i) = search (route_rules, finish-Along)

  prepare_lab-Along :
      (l : Launch) (t : Template) (n : ℕ) (o : Option Instance)
      → Moves g (prepare_lab env web l t n o)
  unfolding prepare_lab
  prepare_lab-Along l t n none =
      Moves-bind _ _ (attempt-Moves g _ (acquire_instance-Along g c env _))
        (λ r. prepare_acquired-Along l t n r)
  prepare_lab-Along l t n (some i) =
      Moves-if _ _ _
        (Moves-bind _ _ (attempt-Moves g _ (resume_instance-Along g c env i.id _))
          (λ r. prepare_resumed-Along g c env web l t n r))
        (finish-Along g c env web l t n i)

  prepare_row-Along :
      (n : ℕ) (l : Launch) (found : Included) → Moves g (prepare_row env web n l found)
  unfolding prepare_row
  prepare_row-Along n l found = search (along_rules, prepare_lab-Along) depth 9

  prepare_found-Along : (n : ℕ) (o : Option Launch) → Moves g (prepare_found env web n o)
  unfolding prepare_found
  prepare_found-Along n none = search along_rules
  prepare_found-Along n (some l) = search (along_rules, prepare_row-Along)

  pub prepare-Along :
      (tenant id : String) (n : Option (Option ℕ)) → Moves g (prepare env web tenant id n)
  unfolding prepare
  prepare-Along tenant id none = search along_rules
  prepare-Along tenant id (some n) = search (along_rules, prepare_found-Along)

  stamp-Along : (l : Launch) (i : Instance) (o : Option ℕ) → Moves g (stamp env l i o)
  unfolding stamp
  stamp-Along l i (some t) = search along_rules
  stamp-Along l i none = search route_rules

  attach-Along : (l : Launch) (i : Instance) (o : Option ℕ) → Moves g (attach env l i o)
  unfolding attach
  attach-Along l i (some t) = search route_rules
  attach-Along l i none = search route_rules

  redeem_acquired-Along :
      (l : Launch) (t : Template) (r : Result Instance) → Moves g (redeem_acquired env web l t r)
  unfolding redeem_acquired
  redeem_acquired-Along l t (err e) = search along_rules
  redeem_acquired-Along l t (ok i) = search (along_rules, attach-Along, serve-Along)

  redeem_lab-Along :
      (l : Launch) (t : Template) (o : Option Instance) → Moves g (redeem_lab env web l t o)
  unfolding redeem_lab
  redeem_lab-Along l t none =
      Moves-bind _ _ (attempt-Moves g _ (acquire_instance-Along g c env _))
        (λ r. redeem_acquired-Along l t r)
  redeem_lab-Along l t (some i) = search (along_rules, stamp-Along, serve-Along)

  redeem_at-Along : (l : Launch) (found : Included) (t : ℕ) → Moves g (redeem_at env web l found t)
  unfolding redeem_at redeem_current
  redeem_at-Along l found t = search (along_rules, redeem_lab-Along)

  redeem_found-Along :
      (x : Claims) (l : Launch) (found : Included) → Moves g (redeem_found env web x l found)
  unfolding redeem_found
  redeem_found-Along x l found = search (along_rules, redeem_at-Along)

  redeem_row-Along : (x : Claims) (o : Option Launch) → Moves g (redeem_row env web x o)
  unfolding redeem_row
  redeem_row-Along x none = search along_rules
  redeem_row-Along x (some l) = search (along_rules, redeem_found-Along)

  redeem_verified-Along : (r : Result Claims) → Moves g (redeem_verified env web r)
  unfolding redeem_verified
  redeem_verified-Along (err e) = search along_rules
  redeem_verified-Along (ok x) = search (route_rules, redeem_row-Along)

  pub redeem-Along : (token : Option String) → Moves g (redeem env web token)
  unfolding redeem
  redeem-Along none = search along_rules
  redeem-Along (some token) = search (route_rules, attempt-Moves, redeem_verified-Along)

  -- A regeneration, where the guarantee covers that of its launch.
  module _ (id : String)
      (h : (jti : String) (t : ℕ) → Moves g (update_launch id (set_regenerated jti t))) where
    regenerate_row-Along :
        (n : Option ℕ) (o : Option Launch) → Moves g (regenerate_row env web id n o)
    unfolding regenerate_row
    regenerate_row-Along n none = search along_rules
    regenerate_row-Along n (some l) = search route_rules depth 9

    pub regenerate-Along :
        (tenant : String) (n : Option (Option ℕ)) → Moves g (regenerate env web tenant id n)
    unfolding regenerate
    regenerate-Along tenant none = search along_rules
    regenerate-Along tenant (some n) = search (along_rules, regenerate_row-Along)
