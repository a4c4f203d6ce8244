-- ===== src/Redeem/Gateway.antt =====
-- The addresses of a lab: `instanceUrl` of packages/control-plane/src/orchestrator.ts, and the links to
-- the Guacamole gateway, `guacamoleClientUrl` of runtime/guacamole.ts and `guacamoleClientUrlJdbc` of
-- runtime/guacamoleJdbc.ts.
use Prim.Native.Char.{code}
use labforge.Base.{
  ℕ, String, ◌<>◌, Option, none, some, [], ◌∷◌, ◌==◌, ◌&&◌, not, if◌then◌else◌, num_eq,
}
use labforge.Base.Texts.{show, strip_trailing_slashes}
use labforge.Exec.{pure, ◌>>=◌, ◌>>◌}
use labforge.Data.{Instance}
use labforge.World.{M, Env, load_guacamole_config, guac_connection_id}
use labforge.Store.{ask, now}
use labforge.Web.{Web, GuacamoleConfig}
use labforge.Guacamole.{Credentials, ensure_guacamole_credentials, regenerate_mapping}

-- `s.replace(/\/$/, '')`
unfoldable pub strip_slash : String → String
strip_slash String.[] = ""
strip_slash (String.◌∷◌ c String.[]) = if num_eq (code c) b'/' then "" else String.◌∷◌ c ""
strip_slash (String.◌∷◌ c (String.◌∷◌ d s)) = String.◌∷◌ c (strip_slash (String.◌∷◌ d s))

unfoldable pub instance_url : Env → Web → (subdomain : String) → String
unfolding strip_slash
instance_url env web subdomain = strip_slash (
    web.href_with_hostname env.config.public_gateway_url
      (subdomain <> ("." <> env.config.public_lab_domain)))

unfoldable pub client_query : Web → Credentials → ℕ → String
unfolding show
client_query web creds t = web.search_params (
    ("logout", "true")
    ∷ ("username", creds.user)
    ∷ ("password", creds.password)
    ∷ ("_ts", show t)
    ∷ [])

unfoldable pub guacamole_client_url : Web → GuacamoleConfig → Credentials → ℕ → String
unfolding strip_trailing_slashes client_query
guacamole_client_url web conf creds t =
    strip_trailing_slashes conf.public_url <> ("/guacamole/?" <> client_query web creds t)

unfoldable pub guacamole_client_url_jdbc : Web → String → Credentials → ℕ → ℕ → String
unfolding strip_trailing_slashes client_query show
guacamole_client_url_jdbc web base_url creds connection_id t =
    strip_trailing_slashes base_url
    <> ("/guacamole/?"
        <> (client_query web creds t
            <> ("#/client/" <> web.base64 (show connection_id <> "\0c\0postgresql"))))

-- JDBC where the connection is known, else the link with the credentials alone.
unfoldable pub client_link :
    Env → Web → Instance → GuacamoleConfig → Credentials → ℕ → Option ℕ → String
unfolding instance_url guacamole_client_url guacamole_client_url_jdbc
client_link env web i conf creds t none = guacamole_client_url web conf creds t
client_link env web i conf creds t (some id) =
    guacamole_client_url_jdbc web (instance_url env web i.subdomain) creds id t

unfoldable pub configured_url : Env → Web → Instance → Option GuacamoleConfig → M (Option String)
configured_url env web i none = pure none
configured_url env web i (some conf) =
    if conf.enabled && not (conf.public_url == "")
    then (do
      creds ← ensure_guacamole_credentials env i.id
      regenerate_mapping env
      id ← ask web.connection_answer (guac_connection_id i.id)
      t ← now env
      pure (some (client_link env web i conf creds t id)))
    else pure none

-- The link, where the gateway is set up.
unfoldable pub gateway_url : Env → Web → Instance → M (Option String)
gateway_url env web i = do
  conf ← ask web.guacamole_answer load_guacamole_config
  configured_url env web i conf
