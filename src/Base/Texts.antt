-- ===== src/Base/Texts.antt =====
-- Operations on texts that the source uses.
use Prim.Native.Char.{Char, code}
use Prim.Native.Nat.{ℕ, zero, suc, ◌/◌, ◌%◌}
use Prim.Native.String.{String, char_at}
use mathlib.Core.Bool.{Bool, true, false}
use mathlib.Core.Option.{Option, none, some}
use labforge.Base.Tests.{ltb, num_eq, if◌then◌else◌}

-- The decimal digits of a number, as a template literal prints it.
digit : ℕ → Char
digit n = char_at "0123456789" n

show_loop : ℕ → ℕ → String → String
unfolding digit
show_loop zero n acc = acc
show_loop (suc fuel) n acc =
    let rest = show_loop fuel (n / 10) (String.◌∷◌ (digit (n % 10)) acc) in
    if ltb n 10 then String.◌∷◌ (digit n) acc else rest

unfoldable pub show : ℕ → String
unfolding show_loop
show n = show_loop (suc n) n ""

-- `s.slice(0, s.lastIndexOf(':'))`, or null where the colon is missing.
unfoldable pub before_last_colon : String → Option String
before_last_colon String.[] = none
before_last_colon (String.◌∷◌ c s) = elim (before_last_colon s) [
  | some t ↦ some (String.◌∷◌ c t)
  | none ↦ if num_eq (code c) b':' then some "" else none
]

-- `s.replace(/\/+$/, '')`
unfoldable pub strip_trailing_slashes : String → String
strip_trailing_slashes String.[] = ""
strip_trailing_slashes (String.◌∷◌ c s) = elim (strip_trailing_slashes s) [
  | String.[] ↦ if num_eq (code c) b'/' then "" else String.◌∷◌ c ""
  | String.◌∷◌ d t ↦ String.◌∷◌ c (String.◌∷◌ d t)
]

-- `s.slice(0, n)`, for texts of the basic plane.
unfoldable pub take_chars : ℕ → String → String
take_chars zero s = ""
take_chars (suc n) String.[] = ""
take_chars (suc n) (String.◌∷◌ c s) = String.◌∷◌ c (take_chars n s)

-- `s.length <= n`, for texts of the basic plane.
unfoldable pub fits : ℕ → String → Bool
fits n String.[] = true
fits zero (String.◌∷◌ c s) = false
fits (suc n) (String.◌∷◌ c s) = fits n s
