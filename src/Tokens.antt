-- ===== src/Tokens.antt =====
-- Signed tokens: packages/control-plane/src/auth/jwt.ts.
pub mod Lifetime
use labforge.Base.{ℕ, ◌+◌, ◌*◌, ◌/◌, String, Option, none, some, or_else}
use labforge.Base.Texts.{take_chars}
use labforge.Exec.{pure, lift, ◌>>=◌}
use labforge.World.{M, Env}
use labforge.Store.{now}
use labforge.Web.{Web, Claims}

-- A token and the time it expires at, in milliseconds.
pub record Signed : Type 0 where
  pub token : String
  pub expires_at : ℕ

-- The claims that the caller gives.
pub record LaunchPayload : Type 0 where
  pub sub : String
  pub jti : String
  pub tenant_id : String
  pub template_id : String
  pub user_id_hash : String

pub record SessionPayload : Type 0 where
  pub sub : String
  pub tenant_id : String
  pub user_id_hash : String

abbrev pub launch_audience : String
launch_audience = "labforge:launch"

abbrev pub session_audience : String
session_audience = "labforge:session"

unfoldable pub hash_user_id : Web → String → String
unfolding take_chars
hash_user_id web raw = take_chars 32 (web.sha256_hex raw)

abbrev pub launch_claims : Env → LaunchPayload → (iat exp : ℕ) → Claims
launch_claims env p iat exp = record {
  iss = env.config.jwt_issuer;
  aud = launch_audience;
  sub = p.sub;
  jti = some p.jti;
  tenant_id = p.tenant_id;
  template_id = some p.template_id;
  user_id_hash = p.user_id_hash;
  iat = iat;
  exp = exp;
}

abbrev pub session_claims : Env → SessionPayload → (iat exp : ℕ) → Claims
session_claims env p iat exp = record {
  iss = env.config.jwt_issuer;
  aud = session_audience;
  sub = p.sub;
  jti = none;
  tenant_id = p.tenant_id;
  template_id = none;
  user_id_hash = p.user_id_hash;
  iat = iat;
  exp = exp;
}

unfoldable pub sign_launch_token : Env → Web → LaunchPayload → (ttl_seconds : Option ℕ) → M Signed
sign_launch_token env web p ttl_seconds = do
  t ← now env
  let exp = t / 1000 + or_else ttl_seconds env.config.jwt_launch_ttl_seconds
  pure (record {
    token = web.sign_jwt (launch_claims env p (t / 1000) exp);
    expires_at = exp * 1000;
  })

-- The library reads the clock.
unfoldable pub verify_launch_token : Env → Web → String → M Claims
verify_launch_token env web token = do
  t ← now env
  lift (web.verify_jwt (t / 1000) env.config.jwt_issuer launch_audience token)

unfoldable pub sign_session_token : Env → Web → SessionPayload → M Signed
sign_session_token env web p = do
  t ← now env
  let exp = t / 1000 + env.config.jwt_session_ttl_seconds
  pure (record {
    token = web.sign_jwt (session_claims env p (t / 1000) exp);
    expires_at = exp * 1000;
  })

unfoldable pub verify_session_token : Env → Web → String → M Claims
verify_session_token env web token = do
  t ← now env
  lift (web.verify_jwt (t / 1000) env.config.jwt_issuer session_audience token)
