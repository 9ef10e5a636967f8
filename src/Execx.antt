-- ===== src/Execx.antt =====
-- internal/execx/execx.go: the buffer for a program's output, and the environment of a program.
pub mod Buffer
use ohinfra_plugins.Base.{
  ℕ, ◌-◌, ◌^◌, Text, codes, eq_text, lt_text, Bool, true, false, not, ◌&&◌, ◌||◌, List, [], ◌∷◌,
  ◌++◌, map, all, any, length, take, ltb, leb, ◌==◌, if◌then◌else◌, ℤ, pos, negsuc, sort_stable,
}

-- `limitedBuffer`
pub record LimitedBuffer : Type 0 where
  pub buffer : Text
  pub limit : ℕ
  pub truncated : Bool

abbrev empty : ℕ → LimitedBuffer
empty limit = record { buffer = []; limit = limit; truncated = false }

-- `newLimitedBuffer`
abbrev pub new_limited_buffer : ℤ → LimitedBuffer
new_limited_buffer (pos n) = if n == 0 then empty (2 ^ 20) else empty n
new_limited_buffer (negsuc n) = empty (2 ^ 20)

-- `Write`: the count that it returns, and the buffer that it leaves.
unfoldable pub write : Text → LimitedBuffer → ℕ × LimitedBuffer
write input b =
    if leb b.limit (length b.buffer)
    then (length input, record b { truncated = true })
    else if ltb (b.limit - length b.buffer) (length input)
    then (
      length input,
      record b { buffer = b.buffer ++ take (b.limit - length b.buffer) input; truncated = true },
    )
    else (length input, record b { buffer = b.buffer ++ input })

abbrev is_name_byte : ℕ → Bool
is_name_byte c = leb b'A' c && leb c b'Z' || leb b'0' c && leb c b'9' || c == b'_'

-- `validEnvironmentName`
abbrev pub valid_environment_name : Text → Bool
valid_environment_name [] = false
valid_environment_name (c ∷ s) = not (any (λ d. d == b'=') (c ∷ s)) && all is_name_byte (c ∷ s)

abbrev pub Variables : Type 0
Variables = List (Text × Text)

-- `values[key] = value`
abbrev pub set_variable : Variables → Text → Text → Variables
set_variable [] key value = (key, value) ∷ []
set_variable ((k, v) ∷ rest) key value =
    if eq_text k key then (k, value) ∷ rest else (k, v) ∷ set_variable rest key value

abbrev pub stable_variables : Variables
stable_variables =
    (codes "LANG", codes "C")
    ∷ (codes "LC_ALL", codes "C")
    ∷ (codes "PATH", codes "/usr/sbin:/usr/bin:/sbin:/bin")
    ∷ []

-- The loop over the extra variables.
unfoldable pub add_variables : Variables → Variables → Variables
add_variables values [] = values
add_variables values ((key, value) ∷ rest) =
    add_variables (if valid_environment_name key then set_variable values key value else values)
      rest

abbrev assignment : Text × Text → Text
assignment (key, value) = key ++ (b'=' ∷ value)

-- `stableEnvironment`
unfoldable pub stable_environment : Variables → List Text
stable_environment extra =
    map assignment (sort_stable (λ a b. lt_text a.0 b.0) (add_variables stable_variables extra))
