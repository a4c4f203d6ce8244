-- ===== src/Guacamole/Minting.antt =====
-- The credentials of a lab are minted once.
use mathlib.Core.Bool.{false≢true}
use labforge.Base.{
  String, ◌≡◌, refl, ap, ◌∙◌, Bool, true, false, Option, none, some, ◌<>◌, eq_refl, ◌∷◌, ◌==◌,
  is_some, if◌then◌else◌,
}
use labforge.Exec.{pure, ◌>>=◌}
use labforge.Exec.Triple.{Post}
use labforge.Data.{Instance}
use labforge.World.{World, Env, random_id}
use labforge.Nodes.Runtimes.{truthy}
use labforge.Store.{instance_key, ask, fresh, find_instance, update_instance, put_instance}
use labforge.Table.{lookup, lookup-update}
use labforge.Guacamole.{Credentials, mint, or_mint, of_row, ensure_guacamole_credentials}

-- The row holds the credentials.
pub record Keeps (id : String) (c : Credentials) (w : World) : Type 0 where
  pub row : Instance
  pub found : lookup instance_key id w.instances ≡ some row
  pub user : row.guacamole_user ≡ some c.user
  pub password : row.guacamole_password ≡ some c.password

-- What is truthy is not empty.
truthy_is : (o : Option String) (u : String) → truthy o ≡ some u → o ≡ some u
truthy_is none u h = h
truthy_is (some a) u h = by_test (a == "") h
  where
    by_test : (b : Bool) → (if b then none else some a) ≡ some u → some a ≡ some u
    by_test true q = absurd (false≢true (ap is_some q))
    by_test false q = q

module _ (env : Env) (id : String) (w : World) (r : Instance)
    (found : lookup instance_key id w.instances ≡ some r) where
  mint-Keeps : Post (Keeps id) (λ _ _. false ≡ true) (mint env id w).0 (mint env id w).1
  unfolding mint fresh ask update_instance put_instance pure ◌>>=◌
  mint-Keeps =
      let user = "lab-" <> env.fresh_answer w.calls in
      let password = env.fresh_answer (random_id ∷ w.calls) in
      let store : Instance → Instance =
        λ x. record x { guacamole_user = some user; guacamole_password = some password } in
      rw (found, put_instance)
        (record {
          row = store r;
          found =
              lookup-update instance_key id id store w.instances (λ x. refl)
              ∙ rw (eq_refl id, found) refl;
          user = refl;
          password = refl;
        })

  or_mint-Keeps :
      (user password : Option String)
      → truthy r.guacamole_user ≡ user
      → truthy r.guacamole_password ≡ password
      → Post
          (Keeps id)
          (λ _ _. false ≡ true)
          (or_mint env id user password w).0
          (or_mint env id user password w).1
  unfolding or_mint pure ◌>>=◌
  or_mint-Keeps (some user) (some password) e f = record {
    row = r;
    found = found;
    user = truthy_is r.guacamole_user user e;
    password = truthy_is r.guacamole_password password f;
  }
  or_mint-Keeps (some user) none e f = mint-Keeps
  or_mint-Keeps none password e f = mint-Keeps

-- For an instance that is there `ensureGuacamoleCredentials` does not throw, and its row then holds what
-- was returned.
pub ensure_guacamole_credentials-Keeps :
    (env : Env) (id : String) (w : World) (r : Instance)
    → lookup instance_key id w.instances ≡ some r
    → Post
        (Keeps id)
        (λ _ _. false ≡ true)
        (ensure_guacamole_credentials env id w).0
        (ensure_guacamole_credentials env id w).1
unfolding ensure_guacamole_credentials find_instance of_row ◌>>=◌
ensure_guacamole_credentials-Keeps env id w r found = rw found (
    or_mint-Keeps env id w r found (truthy r.guacamole_user) (truthy r.guacamole_password) refl
      refl)
