-- ===== src/Tests/Tokens.antt =====
-- A signature scheme that can be read back, for the examples: the claims as a row of fields.
use Prim.Native.String.{String}
use labforge.Base.{
  ℕ, zero, suc, ◌/◌, ◌<◌, ◌≡◌, refl, sym, ap, ◌∙◌, Bool, true, false, Option, none, some, List, [],
  ◌∷◌, ◌==◌, ◌&&◌, eq_iff, eq_refl, ltb, arith, if◌then◌else◌, Bool-cases, inl, inr,
}
use labforge.Exec.{Result, ok, err, invalid_spec}
use labforge.Exec.Triple.{Post}
use labforge.Quoting.{run}
use labforge.Tests.Fields.{csv_row, csv_row-reads, fields, step, at_field, start}
use labforge.Web.{Web, Claims, IsJwt}
use labforge.Redeem.Guards.{verdict}
use labforge.Proxy.Access.{session_verdict}
use labforge.Tokens.{LaunchPayload, sign_launch_token, launch_claims}
use labforge.Tokens.Lifetime.{accepted, clock_at, expiry_second, sign_launch_token-lasts}
use labforge.Tests.{an_env, a_world}
use labforge.Tests.Sessions.{a_web, seats}

write_num : ℕ → String
write_num zero = ""
write_num (suc n) = String.◌∷◌ "1" (write_num n)

read_num : String → ℕ
read_num String.[] = zero
read_num (String.◌∷◌ c s) = suc (read_num s)

read-write : (n : ℕ) → read_num (write_num n) ≡ n
unfolding read_num write_num
read-write zero = refl
read-write (suc n) = ap suc (read-write n)

write_option : Option String → String
write_option none = ""
write_option (some s) = String.◌∷◌ "+" s

read_option : String → Option String
read_option String.[] = none
read_option (String.◌∷◌ c s) = some s

read_option-write : (o : Option String) → read_option (write_option o) ≡ o
unfolding read_option write_option
read_option-write none = refl
read_option-write (some s) = refl

encode : Claims → String
encode c = csv_row (
    c.iss
    ∷ c.aud
    ∷ c.sub
    ∷ write_option c.jti
    ∷ c.tenant_id
    ∷ write_option c.template_id
    ∷ c.user_id_hash
    ∷ write_num c.iat
    ∷ write_num c.exp
    ∷ [])

of_fields : Option (List String) → Option Claims
of_fields (some (a ∷ b ∷ c ∷ d ∷ e ∷ f ∷ g ∷ h ∷ i ∷ [])) = some (record {
  iss = a;
  aud = b;
  sub = c;
  jti = read_option d;
  tenant_id = e;
  template_id = read_option f;
  user_id_hash = g;
  iat = read_num h;
  exp = read_num i;
})
of_fields _ = none

decode : String → Option Claims
decode s = of_fields (fields (run step (at_field [] "" start) s))

decode-encode : (c : Claims) → decode (encode c) ≡ some c
unfolding decode encode
decode-encode c =
    ap of_fields (csv_row-reads c.iss _)
    ∙ (unfold of_fields in
        rw
          (
            read_option-write c.jti,
            read_option-write c.template_id,
            read-write c.iat,
            read-write c.exp,
          )
          refl)

fits_request : ℕ → String → String → Claims → Bool
fits_request t iss aud c = c.iss == iss && (c.aud == aud && ltb t c.exp)

checked : ℕ → String → String → Option Claims → Result Claims
checked t iss aud none = err invalid_spec
checked t iss aud (some c) = if fits_request t iss aud c then ok c else err invalid_spec

abbrev row_web : Web
row_web = record a_web {
  sign_jwt = encode;
  verify_jwt = λ t iss aud token. checked t iss aud (decode token);
}

accepts_own : (t : ℕ) (c : Claims) → t < c.exp → fits_request t c.iss c.aud c ≡ true
unfolding fits_request
accepts_own t c h = ground (arith, eq_refl c.iss, eq_refl c.aud, h)

checked_live :
    (t : ℕ) (iss aud : String) (o : Option Claims) (c : Claims)
    → checked t iss aud o ≡ ok c
    → (o ≡ some c) × (fits_request t iss aud c ≡ true)
unfolding checked
checked_live t iss aud none c h = ground (arith, h)
checked_live t iss aud (some d) c h = elim (Bool-cases (fits_request t iss aud d)) [
  | inl b ↦
      let same : d ≡ c = is_ok (rw b at h) in
      (ap (λ (x : Claims). some x) same, ap (fits_request t iss aud) (sym same) ∙ b)
  | inr b ↦ ground (arith, rw b at h)
]
  where
    is_ok : ok d ≡ ok c → d ≡ c
    is_ok q = cc

fits_all :
    (t : ℕ) (iss aud : String) (c : Claims)
    → fits_request t iss aud c ≡ true
    → (c.iss ≡ iss) × (c.aud ≡ aud) × (t < c.exp)
unfolding fits_request
fits_all t iss aud c h = (
  (eq_iff c.iss iss).0 (ground (arith, h)),
  (eq_iff c.aud aud).0 (ground (arith, h)),
  ground (arith, h),
)

some_same : (c d : Claims) → some c ≡ some d → c ≡ d
some_same c d h = cc

row_web-IsJwt : IsJwt row_web
row_web-IsJwt = record {
  accepts = λ t c h.
      ap (checked t c.iss c.aud) (decode-encode c)
      ∙ (unfold checked in rw (accepts_own t c h) refl);
  live = λ t iss aud token c h. fits_all t iss aud c (checked_live t iss aud (decode token) c h).1;
  intact = λ t iss aud c d h.
      some_same d c (sym (checked_live t iss aud (decode (encode c)) d h).0 ∙ decode-encode c);
}

abbrev a_payload : LaunchPayload
a_payload = record {
  sub = "l1";
  jti = "j1";
  tenant_id = "acme";
  template_id = "shell";
  user_id_hash = "bob";
}

sign_launch_token-lasts_example :
    Post
      (λ s v.
        (accepted (verdict an_env row_web s.token seats) ≡ (
          if ltb (clock_at an_env seats) s.expires_at
          then some (
              launch_claims an_env a_payload
                (clock_at an_env a_world / 1000)
                (expiry_second an_env none a_world))
          else none))
        × (accepted (session_verdict an_env row_web s.token seats) ≡ none))
      (λ e v. false ≡ true)
      (sign_launch_token an_env row_web a_payload none a_world).0
      (sign_launch_token an_env row_web a_payload none a_world).1
sign_launch_token-lasts_example =
    sign_launch_token-lasts an_env row_web row_web-IsJwt a_payload none a_world seats
