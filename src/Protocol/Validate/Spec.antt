-- ===== src/Protocol/Validate/Spec.antt =====
-- What a manifest of protocol v1 is, independently of how validate.go checks it.
use ohinfra_plugins.Base.{
  ℕ, ◌≤◌, Text, codes, ◌≡◌, ◌≢◌, ◌⊎◌, Bool, true, false, List, [], ◌∷◌, map, length, All, is_blank,
  valid_utf8, is_trimmed, is_control, runes, pos, negsuc, ◌<◌, ◌+◌, ◌^◌,
}
use ohinfra_plugins.Protocol.Types.{
  Category, diagnostic, operational, runbook, Argument, Flag, Command, Manifest, protocol_version,
}
use ohinfra_plugins.Protocol.Value.{Value, nil_interface, int, float, bool, string, whole}
use ohinfra_plugins.Protocol.Duration.{is_duration}

abbrev pub IsLower : ℕ → Type 0
IsLower c = (97 ≤ c) × (c ≤ 122)

abbrev pub IsSegmentByte : ℕ → Type 0
IsSegmentByte c = IsLower c ⊎ (((48 ≤ c) × (c ≤ 57)) ⊎ (c ≡ 45))

abbrev pub IsIdentifier : Text → Type 0
IsIdentifier [] = ⊥
IsIdentifier (c ∷ s) = IsLower c × All IsSegmentByte s

abbrev pub Distinct {ℓ} : {A : Type ℓ} → List A → Type ℓ
Distinct [] = Unit
Distinct (x ∷ xs) = All (λ y. y ≢ x) xs × Distinct xs

-- No required argument stands behind an optional one.
abbrev pub RequiredFirst : List Argument → Type 0
RequiredFirst [] = Unit
RequiredFirst (a ∷ rest) =
    (a.required ≡ false → All (λ b. b.required ≡ false) rest) × RequiredFirst rest

abbrev pub VariadicLast : List Argument → Type 0
VariadicLast [] = Unit
VariadicLast (a ∷ rest) = (a.variadic ≡ true → rest ≡ []) × VariadicLast rest

-- A category of the protocol; a command that may change the system supports a dry run.
abbrev pub CategoryAllows : Category → Bool → Type 0
CategoryAllows diagnostic supports_dry_run = Unit
CategoryAllows operational supports_dry_run = supports_dry_run ≡ true
CategoryAllows runbook supports_dry_run = supports_dry_run ≡ true
CategoryAllows (Category.other text) supports_dry_run = ⊥

abbrev pub IsNamed {ℓ} : {A : Type ℓ} → (A → Text) → List A → Type 0
IsNamed name l = All IsIdentifier (map name l) × Distinct (map name l)

abbrev pub IsAbsent : Value → Type 0
IsAbsent nil_interface = Unit
IsAbsent v = ⊥

abbrev pub IsString : Value → Type 0
IsString (string s) = Unit
IsString v = ⊥

abbrev pub IsBool : Value → Type 0
IsBool (bool b) = Unit
IsBool v = ⊥

-- An integer, or a float that is a whole number from -2^63 to 2^63 - 1.
abbrev pub IsInt : Value → Type 0
IsInt (int n) = Unit
IsInt (float (whole (pos n))) = n < 2 ^ 63
IsInt (float (whole (negsuc n))) = n + 1 ≤ 2 ^ 63
IsInt v = ⊥

-- A text that `time.ParseDuration` accepts.
abbrev pub IsDuration : Value → Type 0
IsDuration (string s) = is_duration s ≡ true
IsDuration v = ⊥

-- A type of the protocol, and a default that is absent or a value of the type.
pub data FlagFits (flag : Flag) : Type 0 where
  string_flag :
      flag.type ≡ codes "string" → IsAbsent flag.default ⊎ IsString flag.default → FlagFits flag
  bool_flag : flag.type ≡ codes "bool" → IsAbsent flag.default ⊎ IsBool flag.default → FlagFits flag
  int_flag : flag.type ≡ codes "int" → IsAbsent flag.default ⊎ IsInt flag.default → FlagFits flag
  duration_flag :
      flag.type ≡ codes "duration" → IsAbsent flag.default ⊎ IsDuration flag.default → FlagFits flag

-- UTF-8 of at most 512 bytes, without space around it and without control characters.
pub record IsDescription (s : Text) : Type 0 where
  pub encoded : valid_utf8 s ≡ true
  pub short : length s ≤ 512
  pub trimmed : is_trimmed s ≡ true
  pub one_line : All (λ r. is_control r ≡ false) (runes s)

pub record IsCommand (c : Command) : Type 0 where
  pub long_path : 2 ≤ length c.path
  pub segments : All IsIdentifier c.path
  pub category : CategoryAllows c.category c.supports_dry_run
  pub few_arguments : length c.arguments ≤ 64
  pub few_flags : length c.flags ≤ 64
  pub argument_names : All (λ (a : Argument). IsIdentifier a.name) c.arguments
  pub required_first : RequiredFirst c.arguments
  pub variadic_last : VariadicLast c.arguments
  pub flags_fit : All FlagFits c.flags
  pub flag_names : IsNamed (λ (f : Flag). f.name) c.flags

pub record IsManifest (m : Manifest) : Type 0 where
  pub version_one : m.version_number ≡ protocol_version
  pub name : IsIdentifier m.name
  pub version : is_blank m.version ≡ false
  pub description : IsDescription m.description
  pub some_command : 1 ≤ length m.commands
  pub few_commands : length m.commands ≤ 128
  pub commands : All IsCommand m.commands
  pub distinct_paths : Distinct (map (λ (c : Command). c.path) m.commands)
