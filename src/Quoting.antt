-- ===== src/Quoting.antt =====
-- Texts that are written into another language: `shQuote` of packages/control-plane/src/runtime/nodeShell.ts,
-- `escapeXmlAttr` of runtime/guacamole.ts and `csvEscape` of routes/reports.ts. Here is what they share, the
-- replacement of a character by a text.
pub mod Shell
pub mod Xml
pub mod Csv
use Prim.Native.Char.{Char, code}
use Prim.Native.Nat.{compare, Ordering}
use text.Mathlib.TextEquality.{codes_equal}
use text.Mathlib.TextLemmas.{cons-append, nil-append, append_assoc}
use labforge.Base.{
  ℕ, String, ◌<>◌, ◌≡◌, refl, sym, ap, ◌∙◌, Bool, true, false, Option, none, some, num_eq, arith,
  if◌then◌else◌, Bool-cases, inl, inr,
}

-- `s.replace(/c/g, by)`, for a character by its number
unfoldable pub replace_char : ℕ → String → String → String
replace_char n by String.[] = ""
replace_char n by (String.◌∷◌ c s) =
    let rest = replace_char n by s in if num_eq (code c) n then by <> rest else String.◌∷◌ c rest

module _ (n : ℕ) (by : String) (c : Char) (s : String) where
  pub replace_hit :
      num_eq (code c) n ≡ true → replace_char n by (String.◌∷◌ c s) ≡ by <> replace_char n by s
  unfolding replace_char
  replace_hit h = rw h refl

  pub replace_miss :
      num_eq (code c) n ≡ false
      → replace_char n by (String.◌∷◌ c s) ≡ String.◌∷◌ c (replace_char n by s)
  unfolding replace_char
  replace_miss h = rw h refl

by_order : (o : Ordering) → elim o [ Ordering.eq ↦ true | _ ↦ false ] ≡ true → o ≡ Ordering.eq
by_order Ordering.eq h = refl
by_order Ordering.lt h = ground (arith, h)
by_order Ordering.gt h = ground (arith, h)

-- Characters with one number are equal.
pub same_char : (c d : Char) → num_eq (code c) (code d) ≡ true → c ≡ d
same_char c d h = codes_equal c d (by_order (compare (code c) (code d)) h)

module _ (n : ℕ) (by : String) where
  -- The replacement of a text is that of its parts.
  pub replace_char-append :
      (s t : String) → replace_char n by (s <> t) ≡ replace_char n by s <> replace_char n by t
  replace_char-append String.[] t =
      ap (replace_char n by) (nil-append t) ∙ sym (unfold replace_char in nil-append _)
  replace_char-append (String.◌∷◌ c s) t = elim (Bool-cases (num_eq (code c) n)) [
    | inl h ↦
        ap (replace_char n by) (cons-append c s t)
        ∙ replace_hit n by c (s <> t) h
        ∙ ap (λ r. by <> r) (replace_char-append s t)
        ∙ sym (append_assoc by _ _)
        ∙ sym (ap (λ r. r <> replace_char n by t) (replace_hit n by c s h))
    | inr h ↦
        ap (replace_char n by) (cons-append c s t)
        ∙ replace_miss n by c (s <> t) h
        ∙ ap (String.◌∷◌ c) (replace_char-append s t)
        ∙ sym (cons-append c _ _)
        ∙ sym (ap (λ r. r <> replace_char n by t) (replace_miss n by c s h))
  ]

  pub replace_one :
      (c : Char) → num_eq (code c) n ≡ false → replace_char n by (String.◌∷◌ c "") ≡ String.◌∷◌ c ""
  unfolding replace_char
  replace_one c h = rw h refl

-- A reader that goes over a text from left to right.
module _ {S : Type 0} (step : S → Char → S) where
  unfoldable pub run : S → String → S
  run s String.[] = s
  run s (String.◌∷◌ c t) = run (step s c) t

  run_cons : (s : S) (c : Char) (t : String) → run s (String.◌∷◌ c t) ≡ run (step s c) t
  unfolding run
  run_cons s c t = refl

  pub run-append : (s : S) (x y : String) → run s (x <> y) ≡ run (run s x) y
  run-append s String.[] y = ap (run s) (nil-append y) ∙ (unfold run in refl)
  run-append s (String.◌∷◌ c x) y =
      ap (run s) (cons-append c x y)
      ∙ run_cons s c (x <> y)
      ∙ run-append (step s c) x y
      ∙ sym (ap (λ r. run r y) (run_cons s c x))
