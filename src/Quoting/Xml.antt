-- ===== src/Quoting/Xml.antt =====
-- `escapeXmlAttr`, against the entities of XML and its control characters.
use Prim.Native.Char.{Char, code}
use labforge.Base.{
  String, ◌<>◌, ◌≡◌, Bool, ltb, false, Option, none, some, ◌==◌, ◌||◌, num_eq, if◌then◌else◌,
}
use labforge.Quoting.{replace_char, run}

unfoldable pub escape_xml_attr : String → String
unfolding replace_char
escape_xml_attr s = replace_char b'\'' "&apos;" (
    replace_char b'"' "&quot;"
      (replace_char b'>' "&gt;" (replace_char b'<' "&lt;" (replace_char b'&' "&amp;" s))))

-- The text has a control character, such as a tab or a line break.
unfoldable pub has_control : String → Bool
has_control String.[] = false
has_control (String.◌∷◌ c s) = ltb (code c) 32 || has_control s

-- Reading an attribute value, which holds no control character (XML 1.0 replaces tabs and line breaks, and has
-- no others): the text so far, and the name of the entity that is open.
pub data Reading : Type 0 where
  malformed : Reading
  reading : String → Option String → Reading

-- The predefined entities (XML 1.0, 4.6).
entity : String → String → Reading
entity acc name =
    if name == "amp"
    then reading (acc <> "&") none
    else if name == "lt"
    then reading (acc <> "<") none
    else if name == "gt"
    then reading (acc <> ">") none
    else if name == "quot"
    then reading (acc <> "\"") none
    else if name == "apos"
    then reading (acc <> "'") none
    else malformed

abbrev one : Char → String
one c = String.◌∷◌ c ""

unfoldable pub step : Reading → Char → Reading
unfolding entity
step malformed c = malformed
step (reading acc none) c =
    if num_eq (code c) b'&'
    then reading acc (some "")
    else if ltb (code c) 32 || (num_eq (code c) b'<' || num_eq (code c) b'"')
    then malformed
    else reading (acc <> one c) none
step (reading acc (some name)) c =
    if num_eq (code c) b';' then entity acc name else reading acc (some (name <> one c))

-- A character read back.
Reads : Char → Type 0
Reads c =
    (acc : String)
    → run step (reading acc none) (escape_xml_attr (one c)) ≡ reading (acc <> one c) none
