-- ===== src/Proxy/Cookies.antt =====
-- `parseCookie` and `isLabHost` of packages/control-plane/src/wildcardProxy.ts.
use Prim.Native.Char.{code}
use labforge.Base.{ℕ, String, ◌<>◌, Option, none, some, List, [], ◌∷◌, ◌==◌, num_eq, if◌then◌else◌}
use labforge.Exec.{Result, ok, err}
use labforge.Table.{map_option}
use labforge.World.{Env}
use labforge.Web.{Web}
use labforge.Nodes.Runtimes.{truthy}
use labforge.Nodes.Names.{trim}

abbrev cons_head : String → List String → List String
cons_head c [] = c ∷ []
cons_head c (x ∷ xs) = (c <> x) ∷ xs

-- `s.split(c)`
unfoldable pub split_on : ℕ → String → List String
split_on n String.[] = "" ∷ []
split_on n (String.◌∷◌ c s) =
    let rest = split_on n s in
    if num_eq (code c) n then "" ∷ rest else cons_head (String.◌∷◌ c "") rest

-- `const [k, ...rest] = pair.split('=')`: the key, and the rest joined by `=` again.
unfoldable pub key_of : String → String
key_of String.[] = ""
key_of (String.◌∷◌ c s) =
    let rest = key_of s in if num_eq (code c) b'=' then "" else String.◌∷◌ c rest

unfoldable pub value_of : String → String
value_of String.[] = ""
value_of (String.◌∷◌ c s) = let rest = value_of s in if num_eq (code c) b'=' then s else rest

abbrev decoded : Result String → Result (Option String)
decoded (ok s) = ok (some s)
decoded (err e) = err e

-- The first pair of the name.
unfoldable pub find_cookie : Web → String → List String → Result (Option String)
unfolding key_of value_of trim
find_cookie web name [] = ok none
find_cookie web name (pair ∷ pairs) =
    let rest = find_cookie web name pairs in
    if key_of (trim pair) == name
    then decoded (web.decode_uri_component (value_of (trim pair)))
    else rest

unfoldable pub cookie_in : Web → Option String → String → Result (Option String)
unfolding find_cookie split_on
cookie_in web none name = ok none
cookie_in web (some header) name = find_cookie web name (split_on b';' header)

-- `if (!header) return undefined`
unfoldable pub parse_cookie : Web → Option String → String → Result (Option String)
unfolding cookie_in
parse_cookie web header name = cookie_in web (truthy header) name

-- The text before a suffix, where the text ends with it.
unfoldable pub before_suffix : String → String → Option String
before_suffix suffix String.[] = if "" == suffix then some "" else none
before_suffix suffix (String.◌∷◌ c s) =
    let rest = before_suffix suffix s in
    if String.◌∷◌ c s == suffix then some "" else map_option (String.◌∷◌ c) rest

-- `isLabHost`, and the subdomain of such a host, which is not empty.
unfoldable pub lab_subdomain : Env → (host : String) → Option String
unfolding before_suffix
lab_subdomain env host =
    truthy (before_suffix ("." <> env.to_lower env.config.public_lab_domain) host)
