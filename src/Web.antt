-- ===== src/Web.antt =====
-- What the routes use of libraries that are not the repository's (jose, node:crypto, the URL classes of
-- Node, the guacamole database), and the replies of a route.
use labforge.Base.{ℕ, ◌<◌, String, ◌≡◌, Bool, Option, List}
use labforge.Exec.{Result, ok}
use labforge.World.{Call}

-- The payload of a token, for launches and sessions; a session has no `jti` and no `templateId`.
pub record Claims : Type 0 where
  pub iss : String
  pub aud : String
  pub sub : String
  pub jti : Option String
  pub tenant_id : String
  pub template_id : Option String
  pub user_id_hash : String
  pub iat : ℕ
  pub exp : ℕ

-- The fields of GuacamoleConfig that the modelled code reads.
pub record GuacamoleConfig : Type 0 where
  pub enabled : Bool
  pub public_url : String
  pub default_rdp_host : Option String

pub record Web : Type 0 where
  -- `new SignJWT(…).sign(privateKey)`
  pub sign_jwt : Claims → String
  -- `jwtVerify(token, publicKey, { issuer, audience })` at a time in seconds
  pub verify_jwt : (now_seconds : ℕ) → (issuer audience token : String) → Result Claims
  -- The SHA-256 digest in hexadecimal.
  pub sha256_hex : String → String
  pub encode_uri_component : String → String
  -- It throws on a malformed escape.
  pub decode_uri_component : String → Result String
  -- `new URL(base)` with the host name replaced, printed
  pub href_with_hostname : (base hostname : String) → String
  -- `new URLSearchParams(fields).toString()`
  pub search_params : List (String × String) → String
  pub base64 : String → String
  -- A field of a JSON object that holds a text.
  pub text_field : (json field : String) → Option String
  -- `object?.field`, for a field of the JSON text that holds an object
  pub nested_text_field : (json object field : String) → Option String
  pub guacamole_answer : List Call → Call → Result (Option GuacamoleConfig)
  pub connection_answer : List Call → Call → Result (Option ℕ)

-- The documented behaviour of signatures: what was signed is accepted until it expires, for its issuer and
-- audience; what is accepted names the issuer and audience asked for, and has not expired; and a signed
-- payload comes back as it was.
pub record IsJwt (web : Web) : Type 0 where
  pub accepts :
      (t : ℕ) (c : Claims) → t < c.exp → web.verify_jwt t c.iss c.aud (web.sign_jwt c) ≡ ok c
  pub live :
      (t : ℕ) (iss aud token : String) (c : Claims)
      → web.verify_jwt t iss aud token ≡ ok c
      → (c.iss ≡ iss) × (c.aud ≡ aud) × (t < c.exp)
  pub intact :
      (t : ℕ) (iss aud : String) (c d : Claims)
      → web.verify_jwt t iss aud (web.sign_jwt c) ≡ ok d
      → d ≡ c

-- A reply of a route: an error with its code (and the message of the exception behind it), or an answer.
pub data Reply (A : Type 0) : Type 0 where
  refuse : (code : ℕ) → (error : String) → Reply A
  refuse_with : (code : ℕ) → (error detail : String) → Reply A
  answer : A → Reply A
