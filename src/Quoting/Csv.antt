-- ===== src/Quoting/Csv.antt =====
-- `csvEscape` of packages/control-plane/src/routes/reports.ts.
use Prim.Native.Char.{code}
use labforge.Base.{String, ◌<>◌, Bool, false, ◌||◌, num_eq, if◌then◌else◌}
use labforge.Quoting.{replace_char}

-- `/[",\n]/.test(s)`
unfoldable pub needs_quotes : String → Bool
needs_quotes String.[] = false
needs_quotes (String.◌∷◌ c s) =
    (num_eq (code c) b'"' || (num_eq (code c) b',' || num_eq (code c) 10)) || needs_quotes s

unfoldable pub csv_escape : String → String
unfolding needs_quotes replace_char
csv_escape s = if needs_quotes s then "\"" <> (replace_char b'"' "\"\"" s <> "\"") else s
