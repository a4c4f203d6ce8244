-- ===== src/Tests/Fields.antt =====
-- Rows of escaped fields and a reader of them: the encoding of claims in an example.
use mathlib.Core.Bool.{false≢true}
use Prim.Native.Char.{Char, code}
use text.Mathlib.TextLemmas.{cons-append, nil-append, append-nil, append_assoc}
use labforge.Base.{
  String, ◌<>◌, ◌≡◌, refl, sym, ap, ◌∙◌, Bool, true, false, Option, none, some, List, [], ◌∷◌, ◌++◌,
  map, num_eq, if◌then◌else◌, Bool-cases, inl, inr, arith,
}
use labforge.Quoting.{replace_char, replace_hit, replace_miss, same_char, run, run-append}
use labforge.Nodes.Pick.{join_comma}
use labforge.Quoting.Csv.{needs_quotes, csv_escape}

-- Where a reader of a row is: at the start of a field, within a bare or a quoted one, or behind a quote.
pub data Mode : Type 0 where
  start bare quoted closing : Mode

-- The fields that are done, and the one that is read.
pub data Row : Type 0 where
  malformed : Row
  at_field : List String → String → Mode → Row

abbrev one : Char → String
one c = String.◌∷◌ c ""

-- A field ends.
abbrev end_field : List String → String → Row
end_field done acc = at_field (done ++ acc ∷ []) "" start

unfoldable pub step : Row → Char → Row
step malformed c = malformed
step (at_field done acc start) c =
    if num_eq (code c) b'"'
    then at_field done acc quoted
    else if num_eq (code c) b','
    then end_field done acc
    else if num_eq (code c) 10
    then malformed
    else at_field done (acc <> one c) bare
step (at_field done acc bare) c =
    if num_eq (code c) b'"'
    then malformed
    else if num_eq (code c) b','
    then end_field done acc
    else if num_eq (code c) 10
    then malformed
    else at_field done (acc <> one c) bare
step (at_field done acc quoted) c =
    if num_eq (code c) b'"' then at_field done acc closing else at_field done (acc <> one c) quoted
step (at_field done acc closing) c =
    if num_eq (code c) b'"'
    then at_field done (acc <> one c) quoted
    else if num_eq (code c) b','
    then end_field done acc
    else malformed

-- The fields of a row that was read to its end.
unfoldable pub fields : Row → Option (List String)
fields malformed = none
fields (at_field done acc quoted) = none
fields (at_field done acc m) = some (done ++ acc ∷ [])

-- A mode in which a field may end.
IsOpen : Mode → Type 0
IsOpen quoted = false ≡ true
IsOpen _ = Unit

-- A field was read.
record HasRead (done : List String) (s : String) (r : Row) : Type 0 where
  mode : Mode
  ends : IsOpen mode
  is_row : r ≡ at_field done s mode

cons_one : (c : Char) (s : String) → one c <> s ≡ String.◌∷◌ c s
cons_one c s = cons-append c "" s ∙ ap (String.◌∷◌ c) (nil-append s)

longer : (acc : String) (c : Char) (s : String) → (acc <> one c) <> s ≡ acc <> String.◌∷◌ c s
longer acc c s = append_assoc acc (one c) s ∙ ap (λ r. acc <> r) (cons_one c s)

run_cons : (r : Row) (c : Char) (s : String) → run step r (String.◌∷◌ c s) ≡ run step (step r c) s
unfolding run
run_cons r c s = refl

run_nil : (r : Row) → run step r "" ≡ r
unfolding run
run_nil r = refl

-- Within quotes, up to the last one.
module _ (done : List String) where
  step_quote :
      (acc : String)
      → run step (at_field done acc quoted) "\"\"" ≡ at_field done (acc <> "\"") quoted
  unfolding run step
  step_quote acc = refl

  step_quoted :
      (acc : String) (c : Char)
      → num_eq (code c) b'"' ≡ false
      → step (at_field done acc quoted) c ≡ at_field done (acc <> one c) quoted
  unfolding step
  step_quoted acc c h = rw h refl

  read_quoted :
      (s acc : String)
      → run step (at_field done acc quoted) (replace_char b'"' "\"\"" s)
        ≡ at_field done (acc <> s) quoted
  read_quoted String.[] acc =
      read_empty acc ∙ ap (λ r. at_field done r quoted) (sym (append-nil acc))
    where
      read_empty :
          (a : String)
          → run step (at_field done a quoted) (replace_char b'"' "\"\"" "") ≡ at_field done a quoted
      read_empty a = unfold run replace_char in refl
  read_quoted (String.◌∷◌ c s) acc = elim (Bool-cases (num_eq (code c) b'"')) [
    | inl h ↦
        ap (run step (at_field done acc quoted)) (replace_hit b'"' "\"\"" c s h)
        ∙ run-append step (at_field done acc quoted) "\"\"" (replace_char b'"' "\"\"" s)
        ∙ ap (λ r. run step r (replace_char b'"' "\"\"" s)) (step_quote acc)
        ∙ read_quoted s (acc <> "\"")
        ∙ ap (λ r. at_field done r quoted)
            (longer acc "\"" s
              ∙ ap (λ (d : Char). acc <> String.◌∷◌ d s) (sym (same_char c "\"" h)))
    | inr h ↦
        ap (run step (at_field done acc quoted)) (replace_miss b'"' "\"\"" c s h)
        ∙ run_cons (at_field done acc quoted) c (replace_char b'"' "\"\"" s)
        ∙ ap (λ r. run step r (replace_char b'"' "\"\"" s)) (step_quoted acc c h)
        ∙ read_quoted s (acc <> one c)
        ∙ ap (λ r. at_field done r quoted) (longer acc c s)
  ]

  step_bare :
      (acc : String) (c : Char)
      → num_eq (code c) b'"' ≡ false
      → num_eq (code c) b',' ≡ false
      → num_eq (code c) 10 ≡ false
      → step (at_field done acc bare) c ≡ at_field done (acc <> one c) bare
  unfolding step
  step_bare acc c q m n = rw (q, m, n) refl

  step_start :
      (acc : String) (c : Char)
      → num_eq (code c) b'"' ≡ false
      → num_eq (code c) b',' ≡ false
      → num_eq (code c) 10 ≡ false
      → step (at_field done acc start) c ≡ at_field done (acc <> one c) bare
  unfolding step
  step_start acc c q m n = rw (q, m, n) refl

  record Plain (c : Char) (s : String) : Type 0 where
    quote : num_eq (code c) b'"' ≡ false
    comma : num_eq (code c) b',' ≡ false
    line : num_eq (code c) 10 ≡ false
    rest : needs_quotes s ≡ false

  plain : (c : Char) (s : String) → needs_quotes (String.◌∷◌ c s) ≡ false → Plain c s
  unfolding needs_quotes
  plain c s h = record {
    quote = ground (arith, h);
    comma = ground (arith, h);
    line = ground (arith, h);
    rest = ground (arith, h);
  }

  read_bare :
      (s acc : String)
      → needs_quotes s ≡ false
      → run step (at_field done acc bare) s ≡ at_field done (acc <> s) bare
  read_bare String.[] acc h = run_nil _ ∙ ap (λ r. at_field done r bare) (sym (append-nil acc))
  read_bare (String.◌∷◌ c s) acc h =
      let p = plain c s h in
      run_cons (at_field done acc bare) c s
      ∙ ap (λ r. run step r s) (step_bare acc c p.quote p.comma p.line)
      ∙ read_bare s (acc <> one c) p.rest
      ∙ ap (λ r. at_field done r bare) (longer acc c s)

  read_open : run step (at_field done "" start) "\"" ≡ at_field done "" quoted
  unfolding run step
  read_open = refl

  read_close : (s : String) → run step (at_field done s quoted) "\"" ≡ at_field done s closing
  unfolding run step
  read_close s = refl

  read_enclosed :
      (s : String)
      → run step (at_field done "" start) ("\"" <> (replace_char b'"' "\"\"" s <> "\""))
        ≡ at_field done s closing
  read_enclosed s =
      let body = replace_char b'"' "\"\"" s in
      run-append step (at_field done "" start) "\"" (body <> "\"")
      ∙ ap (λ r. run step r (body <> "\"")) read_open
      ∙ run-append step (at_field done "" quoted) body "\""
      ∙ ap (λ r. run step r "\"") (read_quoted s "")
      ∙ read_close ("" <> s)
      ∙ ap (λ r. at_field done r closing) (nil-append s)

  read_unquoted :
      (s : String) → needs_quotes s ≡ false → HasRead done s (run step (at_field done "" start) s)
  unfolding IsOpen
  read_unquoted String.[] h = record { mode = start; ends = tt; is_row = run_nil _ }
  read_unquoted (String.◌∷◌ c s) h =
      let p = plain c s h in
      record {
        mode = bare;
        ends = tt;
        is_row =
            run_cons (at_field done "" start) c s
            ∙ ap (λ r. run step r s) (step_start "" c p.quote p.comma p.line)
            ∙ read_bare s ("" <> one c) p.rest
            ∙ ap (λ r. at_field done r bare) (longer "" c s ∙ nil-append (String.◌∷◌ c s));
      }

  read_field :
      (s : String) (b : Bool)
      → needs_quotes s ≡ b
      → HasRead done s (run step (at_field done "" start) (csv_escape s))
  unfolding csv_escape IsOpen
  read_field s true h = rw h (record { mode = closing; ends = tt; is_row = read_enclosed s })
  read_field s false h = rw h (read_unquoted s h)

  comma_ends :
      (s : String) (m : Mode) → IsOpen m → run step (at_field done s m) "," ≡ end_field done s
  unfolding run step IsOpen
  comma_ends s start h = refl
  comma_ends s bare h = refl
  comma_ends s closing h = refl
  comma_ends s quoted h = absurd (false≢true h)

  row_ends : (s : String) (m : Mode) → IsOpen m → fields (at_field done s m) ≡ some (done ++ s ∷ [])
  unfolding fields IsOpen
  row_ends s start h = refl
  row_ends s bare h = refl
  row_ends s closing h = refl
  row_ends s quoted h = absurd (false≢true h)

list_assoc :
    (xs : List String) (x : String) (ys : List String) → (xs ++ x ∷ []) ++ ys ≡ xs ++ x ∷ ys
list_assoc [] x ys = refl
list_assoc (z ∷ xs) x ys = ap (λ (r : List String). z ∷ r) (list_assoc xs x ys)

-- Escaped fields in a row, joined by commas.
unfoldable pub csv_row : List String → String
unfolding csv_escape join_comma
csv_row xs = join_comma (map csv_escape xs)

row_next :
    (x y : String) (xs : List String)
    → csv_row (x ∷ y ∷ xs) ≡ csv_escape x <> ("," <> csv_row (y ∷ xs))
unfolding csv_row join_comma
row_next x y xs = refl

row_last : (x : String) → csv_row (x ∷ []) ≡ csv_escape x
unfolding csv_row join_comma
row_last x = refl

read_row :
    (done : List String) (x : String) (xs : List String)
    → fields (run step (at_field done "" start) (csv_row (x ∷ xs))) ≡ some (done ++ x ∷ xs)
read_row done x [] =
    let h = read_field done x (needs_quotes x) refl in
    ap (λ r. fields (run step (at_field done "" start) r)) (row_last x)
    ∙ ap fields h.is_row
    ∙ row_ends done x h.mode h.ends
read_row done x (y ∷ xs) =
    let h = read_field done x (needs_quotes x) refl in
    ap (λ r. fields (run step (at_field done "" start) r)) (row_next x y xs)
    ∙ ap fields (
        run-append step (at_field done "" start) (csv_escape x) ("," <> csv_row (y ∷ xs))
        ∙ ap (λ r. run step r ("," <> csv_row (y ∷ xs))) h.is_row
        ∙ run-append step (at_field done x h.mode) "," (csv_row (y ∷ xs))
        ∙ ap (λ r. run step r (csv_row (y ∷ xs))) (comma_ends done x h.mode h.ends))
    ∙ read_row (done ++ x ∷ []) y xs
    ∙ ap (λ (r : List String). some r) (list_assoc done x (y ∷ xs))

-- The fields of a row are read back, by this reader.
pub csv_row-reads :
    (x : String) (xs : List String)
    → fields (run step (at_field [] "" start) (csv_row (x ∷ xs))) ≡ some (x ∷ xs)
csv_row-reads x xs = read_row [] x xs
