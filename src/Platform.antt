-- ===== src/Platform.antt =====
-- internal/platform/platform.go: the platform that a host's os-release names. The lines are those
-- that bufio.Scanner gives, with the error at which it stops, if any.
pub mod Quoting
pub mod Support
use ohinfra_plugins.Base.{
  ℕ, ◌≡◌, refl, Text, codes, eq_text, Bool, true, false, not, ◌&&◌, ◌||◌, List, [], ◌∷◌, map, all,
  any, Option, none, some, leb, ◌==◌, if◌then◌else◌, Fallible, Checked, ok, err, Error, failure,
  message, wrapped, require, ◌>>=◌, ◌>>◌, Rune, rune, invalid, runes, is_blank, is_space,
  is_control,
}
use ohinfra_plugins.ServerSetup.Profile.{Info}

abbrev pub is_upper : ℕ → Bool
is_upper c = leb b'A' c && leb c b'Z'

abbrev pub is_key_byte : ℕ → Bool
is_key_byte c = c == b'_' || is_upper c || leb b'0' c && leb c b'9'

unfoldable pub valid_key : Text → Bool
valid_key [] = false
valid_key (c ∷ s) = (c == b'_' || is_upper c) && all is_key_byte s

-- The bytes that a backslash escapes in double quotes.
abbrev pub is_special : ℕ → Bool
is_special c = c == 34 || c == 92 || c == b'$' || c == 96

-- The loop of `unescapeDoubleQuoted`; the first parameter tells that a backslash was read.
unfoldable pub unescape : Bool → Text → Fallible Text
unescape false [] = ok []
unescape true [] = err (failure "dangling escape")
unescape false (c ∷ s) = elim (c == 92) [
  | true ↦ unescape true s
  | false ↦ do rest ← unescape false s; ok (c ∷ rest)
]
unescape true (c ∷ s) = do
  rest ← unescape false s
  ok (if is_special c then c ∷ rest else 92 ∷ c ∷ rest)

-- The bytes before the last one, and the last one.
abbrev pub init_last : ℕ → Text → Text × ℕ
init_last c [] = ([], c)
init_last c (d ∷ s) = let (start, last) = init_last d s in (c ∷ start, last)

-- What stands behind an opening quote and before the closing one, if the text ends with it.
abbrev pub quoted : ℕ → Text → Option Text
quoted quote [] = none
quoted quote (c ∷ s) =
    let (inner, last) = init_last c s in if last == quote then some inner else none

abbrev is_forbidden : Rune → Bool
is_forbidden (rune c) = is_space (rune c) || c == 39 || c == 34 || c == 92 || is_control (rune c)
is_forbidden invalid = false

abbrev pub single_quoted : Option Text → Fallible Text
single_quoted none = err (failure "unterminated single quote")
single_quoted (some value) = do
  require (not (any (λ c. c == 39) value)) (failure "unexpected single quote")
  ok value

abbrev pub double_quoted : Option Text → Fallible Text
double_quoted none = err (failure "unterminated double quote")
double_quoted (some value) = unescape false value

unfoldable pub parse_value : Text → Fallible Text
parse_value [] = ok []
parse_value (c ∷ s) =
    if c == 39
    then single_quoted (quoted 39 s)
    else if c == 34
    then double_quoted (quoted 34 s)
    else do
      require (not (any is_forbidden (runes (c ∷ s)))) (failure "invalid unquoted value")
      ok (c ∷ s)

-- `strings.TrimSuffix(line, "\r")`
abbrev trim_return : Text → Text
trim_return [] = []
trim_return (c ∷ s) = let (start, last) = init_last c s in if last == 13 then start else c ∷ s

-- `strings.HasPrefix(strings.TrimSpace(line), "#")`
abbrev is_comment : List Rune → Bool
is_comment [] = false
is_comment (invalid ∷ rs) = false
is_comment (rune c ∷ rs) = if is_space (rune c) then is_comment rs else c == b'#'

-- `strings.Cut(line, "=")`
abbrev pub cut_at_equals : Text → Option (Text × Text)
cut_at_equals [] = none
cut_at_equals (c ∷ s) =
    if c == b'='
    then some ([], s)
    else elim (cut_at_equals s) [ none ↦ none | some (key, raw) ↦ some (c ∷ key, raw) ]

abbrev pub Values : Type 0
Values = List (Text × Text)

unfoldable pub value_of : Values → Text → Option Text
value_of [] key = none
value_of ((k, v) ∷ rest) key = if eq_text k key then some v else value_of rest key

abbrev is_some : Option Text → Bool
is_some none = false
is_some (some v) = true

abbrev described_value : Text → Fallible Text → Fallible Text
described_value key (ok value) = ok value
described_value key (err e) = err (wrapped "invalid os-release value for %q: %w" e)

-- A line that is neither blank nor a comment.
abbrev pub add_entry : Values → Option (Text × Text) → Fallible Values
add_entry values none = err (failure "invalid os-release line %d")
add_entry values (some (key, raw)) = do
  require (valid_key key) (failure "invalid os-release line %d")
  require (not (is_some (value_of values key))) (message "duplicate os-release key %q" (key ∷ []))
  value ← described_value key (parse_value raw)
  ok ((key, value) ∷ values)

abbrev pub add_line : Values → Text → Fallible Values
add_line values line =
    if is_blank line || is_comment (runes line)
    then ok values
    else add_entry values (cut_at_equals line)

-- `parseRelease`; the first parameter is the values read so far.
unfoldable pub parse_release : Values → List Text → Option Error → Fallible Values
parse_release values [] none = ok values
parse_release values [] (some e) = err (wrapped "scan os-release: %w" e)
parse_release values (line ∷ rest) stop = do
  more ← add_line values (trim_return line)
  parse_release more rest stop

abbrev pub debian_version : Text → Bool
debian_version v =
    eq_text v (codes "10")
    || (eq_text v (codes "11") || (eq_text v (codes "12") || eq_text v (codes "13")))

abbrev pub ubuntu_version : Text → Bool
ubuntu_version v =
    eq_text v (codes "20.04") || (eq_text v (codes "22.04") || eq_text v (codes "24.04"))

abbrev pub supported : Text → Text → Bool
supported id version =
    if eq_text id (codes "debian")
    then debian_version version
    else if eq_text id (codes "ubuntu")
    then ubuntu_version version
    else false

-- A value that is there and not empty.
abbrev pub present : Option Text → Error → Fallible Text
present none e = err e
present (some []) e = err e
present (some (c ∷ s)) e = ok (c ∷ s)

-- The end of `Detect`, on the lines of the file.
unfoldable pub detect_release : List Text → Option Error → Fallible Info
detect_release lines stop = do
  values ← parse_release [] lines stop
  id ← present (value_of values (codes "ID")) (failure "os-release is missing ID")
  version ←
      present (value_of values (codes "VERSION_ID")) (failure "os-release is missing VERSION_ID")
  ok (record { id = id; version_id = version; supported = supported id version })
