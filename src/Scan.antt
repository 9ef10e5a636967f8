-- ===== src/Scan.antt =====
-- The functions of packages bufio, strings and strconv by which the program reads lines, fields and
-- numbers from files and from the output of programs.
use ohinfra_plugins.Base.{
  ℕ, zero, suc, ◌+◌, ◌-◌, ◌*◌, ◌^◌, Text, Bool, ◌&&◌, List, [], ◌∷◌, all, length, ltb, leb, ◌==◌,
  Option, none, some, Fallible, ok, err, Error, failure, if◌then◌else◌, ℤ, pos, negsuc,
}
use ohinfra_plugins.Paths.{split_by}

-- `strings.Split` by a text of one byte.
abbrev pub split_at_byte : ℕ → Text → List Text
split_at_byte b s = split_by (λ c. c == b) [] s

-- `strings.Cut` at a byte: what stands before it and behind it.
unfoldable pub cut_at : ℕ → Text → Option (Text × Text)
cut_at b [] = none
cut_at b (c ∷ s) =
    let rest = cut_at b s in
    if c == b
    then some ([], s)
    else elim rest [ none ↦ none | some (before, behind) ↦ some (c ∷ before, behind) ]

-- `strings.TrimSuffix` of a text of one byte.
unfoldable pub trim_last : ℕ → Text → Text
trim_last b [] = []
trim_last b (c ∷ []) = if c == b then [] else c ∷ []
trim_last b (c ∷ d ∷ s) = c ∷ trim_last b (d ∷ s)

-- The last part is no line if it is empty.
abbrev drop_empty_last : List Text → List Text
drop_empty_last [] = []
drop_empty_last (l ∷ []) = elim l [ [] ↦ [] | c ∷ s ↦ (c ∷ s) ∷ [] ]
drop_empty_last (l ∷ m ∷ rest) = l ∷ drop_empty_last (m ∷ rest)

abbrev pub line_limit : ℕ
line_limit = 64 * 1024

abbrev pub token_too_long : Error
token_too_long = failure "bufio.Scanner: token too long"

-- Up to the first line that the buffer does not hold; the scanner stops there with an error.
unfoldable pub scanned : List Text → List (Fallible Text)
scanned [] = []
scanned (l ∷ rest) =
    let below = scanned rest in
    if ltb (length l) line_limit then ok (trim_last b'\r' l) ∷ below else err token_too_long ∷ []

-- What a `bufio.Scanner` gives for the lines of a text, the error at the end if it has one.
unfoldable pub scan_lines : Text → List (Fallible Text)
scan_lines text = scanned (drop_empty_last (split_at_byte b'\n' text))

abbrev pub is_decimal : ℕ → Bool
is_decimal c = leb b'0' c && leb c b'9'

unfoldable pub digits_value : ℕ → Text → ℕ
digits_value acc [] = acc
digits_value acc (c ∷ s) = digits_value (acc * 10 + (c - b'0')) s

-- A number of at least one digit.
unfoldable pub parse_digits : Text → Option ℕ
parse_digits [] = none
parse_digits (c ∷ s) = if all is_decimal (c ∷ s) then some (digits_value 0 (c ∷ s)) else none

abbrev negated : ℕ → ℤ
negated zero = pos 0
negated (suc n) = negsuc n

abbrev in_int64 : Option ℕ → Option ℤ
in_int64 none = none
in_int64 (some n) = if ltb n (2 ^ 63) then some (pos n) else none

abbrev in_negative : Option ℕ → Option ℤ
in_negative none = none
in_negative (some n) = if leb n (2 ^ 63) then some (negated n) else none

-- `strconv.Atoi` on a machine of 64 bits, and `strconv.ParseInt(s, 10, 64)`.
unfoldable pub atoi : Text → Option ℤ
atoi [] = none
atoi (c ∷ s) =
    if c == b'-'
    then in_negative (parse_digits s)
    else if c == b'+'
    then in_int64 (parse_digits s)
    else in_int64 (parse_digits (c ∷ s))
