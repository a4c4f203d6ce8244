-- ===== src/Quoting/Shell.antt =====
-- `shQuote`, against the quoting rules of the POSIX shell.
use Prim.Native.Char.{Char, code}
use text.Mathlib.TextLemmas.{cons-append, append_assoc, nil-append}
use labforge.Base.{
  ℕ, String, ◌<>◌, ◌≡◌, refl, sym, ap, ◌∙◌, Bool, true, false, Option, none, some, [], ◌∷◌, any,
  num_eq, if◌then◌else◌, Bool-cases, inl, inr,
}
use labforge.Quoting.{replace_char, replace_hit, replace_miss, same_char}

unfoldable pub sh_quote : String → String
unfolding replace_char
sh_quote s = "'" <> (replace_char b'\'' "'\\''" s <> "'")

-- Where the shell is within a word: outside quotes, within single quotes, after a backslash.
pub data Mode : Type 0 where
  plain quoted escaped : Mode

-- The characters that the shell treats specially outside quotes (POSIX, Shell Command Language, 2.2).
special : ℕ → Bool
special n = any (num_eq n) (
    b'|' ∷ b'&' ∷ b';' ∷ b'<' ∷ b'>' ∷ b'(' ∷ b')' ∷ b'$' ∷ b'`' ∷ b'"' ∷ b' ' ∷ 9 ∷ 10 ∷ b'*'
    ∷ b'?' ∷ b'[' ∷ b'#' ∷ b'~' ∷ b'=' ∷ b'%' ∷ [])

-- One character: the next mode, and whether the character belongs to the word.
step : Mode → ℕ → Option (Mode × Bool)
unfolding special
step plain n =
    if num_eq n b'\''
    then some (quoted, false)
    else if num_eq n b'\\'
    then some (escaped, false)
    else if special n
    then none
    else some (plain, true)
step quoted n = if num_eq n b'\'' then some (plain, false) else some (quoted, true)
step escaped n = if num_eq n 10 then some (plain, false) else some (plain, true)

abbrev add : Char → Bool → Option String → Option String
add c true (some w) = some (String.◌∷◌ c w)
add c false o = o
add c true none = none

-- The one word that a text is to the shell, or none where it is not one word without expansions.
unfoldable pub shell_word : Mode → String → Option String
unfolding step
shell_word plain String.[] = some ""
shell_word quoted String.[] = none
shell_word escaped String.[] = none
shell_word m (String.◌∷◌ c s) = elim (step m (code c)) [
  | none ↦ none
  | some (m', b) ↦ add c b (shell_word m' s)
]

-- A quote within the quotes.
reopened : String → String
reopened t = String.◌∷◌ "'" (String.◌∷◌ "\\" (String.◌∷◌ "'" (String.◌∷◌ "'" t)))

append_reopened : (t : String) → "'\\''" <> t ≡ reopened t
unfolding reopened
append_reopened t =
    cons-append "'" "\\''" t
    ∙ ap (String.◌∷◌ "'") (
        cons-append "\\" "''" t
        ∙ ap (String.◌∷◌ "\\") (
            cons-append "'" "'" t
            ∙ ap (String.◌∷◌ "'") (cons-append "'" "" t ∙ ap (String.◌∷◌ "'") (nil-append t))))

read_reopened : (t : String) → shell_word quoted (reopened t) ≡ add "'" true (shell_word quoted t)
unfolding shell_word reopened
read_reopened t = refl

step_other : (n : ℕ) → num_eq n b'\'' ≡ false → step quoted n ≡ some (quoted, true)
unfolding step
step_other n h = rw h refl

read_other :
    (c : Char) (t : String)
    → num_eq (code c) b'\'' ≡ false
    → shell_word quoted (String.◌∷◌ c t) ≡ add c true (shell_word quoted t)
unfolding shell_word
read_other c t h = rw (step_other (code c) h, shell_word) refl

read_quoted : (s : String) → shell_word quoted (replace_char b'\'' "'\\''" s <> "'") ≡ some s
read_quoted String.[] = unfold shell_word step replace_char in refl
read_quoted (String.◌∷◌ c s) = elim (Bool-cases (num_eq (code c) b'\'')) [
  | inl h ↦
      ap (λ r. shell_word quoted (r <> "'")) (replace_hit b'\'' "'\\''" c s h)
      ∙ ap (shell_word quoted)
          (append_assoc "'\\''" (replace_char b'\'' "'\\''" s) "'" ∙ append_reopened _)
      ∙ read_reopened _
      ∙ ap (add "'" true) (read_quoted s)
      ∙ ap (λ (d : Char). some (String.◌∷◌ d s)) (sym (same_char c "'" h))
  | inr h ↦
      ap (λ r. shell_word quoted (r <> "'")) (replace_miss b'\'' "'\\''" c s h)
      ∙ ap (shell_word quoted) (cons-append c _ "'")
      ∙ read_other c _ h
      ∙ ap (add c true) (read_quoted s)
]

-- Whatever the text, the shell reads what `shQuote` makes of it as one word, and that word is the text.
pub sh_quote-reads : (s : String) → shell_word plain (sh_quote s) ≡ some s
unfolding sh_quote
sh_quote-reads s =
    ap (shell_word plain) (cons-append "'" "" _ ∙ ap (String.◌∷◌ "'") (nil-append _))
    ∙ opened (replace_char b'\'' "'\\''" s <> "'")
    ∙ read_quoted s
  where
    opened : (t : String) → shell_word plain (String.◌∷◌ "'" t) ≡ shell_word quoted t
    opened t = unfold shell_word step in refl
