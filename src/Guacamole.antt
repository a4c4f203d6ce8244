-- ===== src/Guacamole.antt =====
-- The credentials of a lab on the Guacamole gateway: `ensureGuacamoleCredentials`,
-- `clearGuacamoleCredentials` and the call of `regenerateUserMapping`, all of
-- packages/control-plane/src/runtime/guacamole.ts. The rendering of the mapping is a call to the
-- outside: it reads the tables and writes to another host.
pub mod Minting
pub mod Mapping
use labforge.Base.{String, Option, none, some, ◌<>◌}
use labforge.Exec.{row_not_found, pure, raise, ◌>>=◌, ◌>>◌}
use labforge.Data.{Instance}
use labforge.World.{M, Env, regenerate_user_mapping}
use labforge.Nodes.Runtimes.{truthy}
use labforge.Store.{ask, fresh, find_instance, update_instance}

pub record Credentials : Type 0 where
  pub user : String
  pub password : String

unfoldable pub mint : Env → String → M Credentials
mint env id = do
  token ← fresh env
  password ← fresh env
  let user = "lab-" <> token
  update_instance id
      (λ r. record r { guacamole_user = some user; guacamole_password = some password })
  pure (record { user = user; password = password })

unfoldable pub or_mint : Env → String → Option String → Option String → M Credentials
or_mint env id (some user) (some password) = pure (record { user = user; password = password })
or_mint env id _ _ = mint env id

unfoldable pub of_row : Env → String → Option Instance → M Credentials
of_row env id none = raise row_not_found
of_row env id (some r) = or_mint env id (truthy r.guacamole_user) (truthy r.guacamole_password)

unfoldable pub ensure_guacamole_credentials : Env → String → M Credentials
ensure_guacamole_credentials env id = do row ← find_instance id; of_row env id row

unfoldable pub clear_guacamole_credentials : String → M Instance
clear_guacamole_credentials id =
    update_instance id (λ r. record r { guacamole_user = none; guacamole_password = none })

unfoldable pub regenerate_mapping : Env → M (Unit {0})
regenerate_mapping env = ask env.unit_answer regenerate_user_mapping
