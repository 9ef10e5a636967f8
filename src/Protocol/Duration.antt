-- ===== src/Protocol/Duration.antt =====
-- Which texts Go's `time.ParseDuration` accepts. Values are counted in nanoseconds, with an
-- overflow where they pass 2^63; the part behind a decimal point counts rounded down.
use ohinfra_plugins.Base.{
  ℕ, ◌+◌, ◌-◌, ◌*◌, ◌/◌, ◌^◌, Text, codes, eq_text, Bool, true, false, not, ◌≡◌, refl, ◌&&◌, ◌||◌,
  Option, none, some, [], ◌∷◌, ◌++◌, ltb, leb, ◌==◌, if◌then◌else◌,
}

abbrev limit : ℕ
limit = 2 ^ 63

abbrev is_digit : ℕ → Bool
is_digit c = leb b'0' c && leb c b'9'

-- The microsecond sign is U+00B5 or U+03BC, in UTF-8.
unit_nanoseconds : Text → Option ℕ
unit_nanoseconds u =
    if eq_text u (codes "ns")
    then some 1
    else if eq_text u (codes "us")
        || eq_text u (0xc2 ∷ 0xb5 ∷ b's' ∷ [])
        || eq_text u (0xce ∷ 0xbc ∷ b's' ∷ [])
    then some 1000
    else if eq_text u (codes "ms")
    then some 1000000
    else if eq_text u (codes "s")
    then some 1000000000
    else if eq_text u (codes "m")
    then some 60000000000
    else if eq_text u (codes "h")
    then some 3600000000000
    else none

-- Where the scan stands: in the whole part, in the fraction, or in the unit. `value` and
-- `fraction / scale` are the number read, `digits` tells whether it has a digit.
pub data Phase : Type 0 where
  whole_part fraction unit : Phase

pub record Scan : Type 0 where
  pub total : ℕ
  pub value : ℕ
  pub fraction_value : ℕ
  pub scale : ℕ
  pub digits : Bool
  pub full : Bool
  pub unit_text : Text

abbrev start_term : ℕ → Scan
start_term total = record {
  total = total;
  value = 0;
  fraction_value = 0;
  scale = 1;
  digits = false;
  full = false;
  unit_text = [];
}

-- Adds a complete term; `none` is an unknown unit or an overflow.
end_term : Scan → Option ℕ
unfolding unit_nanoseconds
end_term s = elim (unit_nanoseconds s.unit_text) [
  | none ↦ none
  | some u ↦
      let sum = s.total + (s.value * u + s.fraction_value * u / s.scale) in
      if ltb limit (s.value * u) then none else if ltb limit sum then none else some sum
]

-- The next byte starts a term: a digit or a point.
first_byte : ℕ → Scan → Option (Phase × Scan)
first_byte c s =
    if c == b'.'
    then some (fraction, s)
    else if is_digit c
    then some (whole_part, record s { value = c - b'0'; digits = true })
    else none

in_whole : ℕ → Scan → Option (Phase × Scan)
in_whole c s =
    let v = s.value * 10 + (c - b'0') in
    if is_digit c
    then (if ltb (limit / 10) s.value || ltb limit v
        then none
        else some (whole_part, record s { value = v }))
    else if c == b'.'
    then some (fraction, s)
    else some (unit, record s { unit_text = c ∷ [] })

-- Digits past the precision of an int64 are read and not counted.
in_fraction : ℕ → Scan → Option (Phase × Scan)
in_fraction c s =
    let f = s.fraction_value * 10 + (c - b'0') in
    if is_digit c
    then (if s.full || (ltb ((limit - 1) / 10) s.fraction_value || ltb limit f)
        then some (fraction, record s { digits = true; full = true })
        else some (fraction, record s { digits = true; fraction_value = f; scale = s.scale * 10 }))
    else if c == b'.' || not s.digits
    then none
    else some (unit, record s { unit_text = c ∷ [] })

in_unit : ℕ → Scan → Option (Phase × Scan)
unfolding end_term first_byte
in_unit c s =
    if c == b'.' || is_digit c
    then elim (end_term s) [ none ↦ none | some t ↦ first_byte c (start_term t) ]
    else some (unit, record s { unit_text = s.unit_text ++ c ∷ [] })

step : ℕ → Phase → Scan → Option (Phase × Scan)
unfolding in_whole in_fraction in_unit
step c whole_part = in_whole c
step c fraction = in_fraction c
step c unit = in_unit c

terms : Text → Option (Phase × Scan) → Option ℕ
unfolding step end_term
terms s none = none
terms [] (some (unit, r)) = end_term r
terms [] (some (_, r)) = none
terms (c ∷ s) (some (p, r)) = terms s (step c p r)

unsigned : Text → Option ℕ
unfolding terms first_byte
unsigned [] = none
unsigned (c ∷ s) =
    if eq_text (c ∷ s) (codes "0") then some 0 else terms s (first_byte c (start_term 0))

-- `_, err := time.ParseDuration(value); err == nil`
unfoldable pub is_duration : Text → Bool
unfolding unsigned
is_duration [] = false
is_duration (c ∷ s) =
    if c == b'-'
    then elim (unsigned s) [ none ↦ false | some d ↦ true ]
    else elim (unsigned (if c == b'+' then s else c ∷ s)) [ none ↦ false | some d ↦ ltb d limit ]

durations :
    (is_duration (codes "1h30m") ≡ true)
    × (is_duration (codes "-1.5s") ≡ true)
    × (is_duration (codes "0") ≡ true)
    × (is_duration (codes "15") ≡ false)
    × (is_duration (codes "1..5s") ≡ false)
    × (is_duration (codes ".s") ≡ false)
    × (is_duration (codes "9223372037s") ≡ false)
unfolding is_duration
durations = (refl, refl, refl, refl, refl, refl, refl)
