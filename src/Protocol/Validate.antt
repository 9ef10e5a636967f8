-- ===== src/Protocol/Validate.antt =====
-- internal/protocol/validate.go: the manifest's validation. Its children state what a valid
-- manifest is, and prove that the validation decides it.
pub mod Spec
mod Keys
mod Fresh
mod Parts
pub mod Exact
use ohinfra_plugins.Base.{
  ℕ, ◌^◌, pos, negsuc, ℤ, Text, codes, eq_text, join, Bool, true, false, not, ◌&&◌, ◌||◌, List, [],
  ◌∷◌, length, all, any, ltb, leb, ◌==◌, if◌then◌else◌, eq_int, valid_utf8, is_blank, is_trimmed,
  runes, is_control, Checked, ok, err, Error, require, failure, message, wrapped, ◌>>◌,
}
use ohinfra_plugins.Protocol.Value.{Value, nil_interface, int, float, bool, string, whole}
use ohinfra_plugins.Protocol.Types.{
  Category, diagnostic, operational, runbook, Argument, Flag, Command, Manifest, protocol_version,
}
use ohinfra_plugins.Protocol.Duration.{is_duration}

abbrev pub is_lower : ℕ → Bool
is_lower c = leb b'a' c && leb c b'z'

abbrev pub is_segment_byte : ℕ → Bool
is_segment_byte c = is_lower c || (leb b'0' c && leb c b'9' || c == b'-')

-- `^[a-z][a-z0-9-]*$`
unfoldable pub identifier : Text → Bool
identifier [] = false
identifier (c ∷ s) = is_lower c && all is_segment_byte s

unfoldable pub validate_description : Text → Checked
validate_description [] = ok tt
validate_description (c ∷ s) = do
  require (valid_utf8 (c ∷ s)) (failure "description must be valid UTF-8")
  require (leb (length (c ∷ s)) 512) (failure "description exceeds 512 bytes")
  require (is_trimmed (c ∷ s)) (failure "description must not have surrounding whitespace")
  require (not (any is_control (runes (c ∷ s))))
      (failure "description must be a single line without control characters")

-- `float64(int(value)) == value`: the conversion to a 64-bit int and back keeps a whole number in
-- its range, and changes every other value.
abbrev pub is_int64 : ℤ → Bool
is_int64 (pos n) = ltb n (2 ^ 63)
is_int64 (negsuc n) = ltb n (2 ^ 63)

abbrev pub is_int_value : Value → Bool
is_int_value (int n) = true
is_int_value (float (whole z)) = is_int64 z
is_int_value v = false

abbrev pub is_string_value : Value → Bool
is_string_value (string s) = true
is_string_value v = false

abbrev pub is_bool_value : Value → Bool
is_bool_value (bool b) = true
is_bool_value v = false

-- A text that `time.ParseDuration` accepts.
abbrev pub is_duration_value : Value → Bool
is_duration_value (string s) = is_duration s
is_duration_value v = false

abbrev pub is_nil : Value → Bool
is_nil nil_interface = true
is_nil v = false

abbrev pub validate_duration : Text → Value → Checked
validate_duration name nil_interface = ok tt
validate_duration name (string s) =
    require (is_duration s)
      (wrapped "flag %q default is invalid: %w" (failure "time: invalid duration"))
validate_duration name v = err (message "flag %q default must be a duration string" (name ∷ []))

-- `default` is the dynamic value of `flag.Default`.
unfoldable pub validate_flag : Flag → Checked
validate_flag flag =
    if eq_text flag.type (codes "string")
    then require (is_nil flag.default || is_string_value flag.default)
        (message "flag %q default must be a string" (flag.name ∷ []))
    else if eq_text flag.type (codes "bool")
    then require (is_nil flag.default || is_bool_value flag.default)
        (message "flag %q default must be a boolean" (flag.name ∷ []))
    else if eq_text flag.type (codes "int")
    then require (is_nil flag.default || is_int_value flag.default)
        (message "flag %q default must be an integer" (flag.name ∷ []))
    else if eq_text flag.type (codes "duration")
    then validate_duration flag.name flag.default
    else err (message "flag %q has invalid type %q" (flag.name ∷ flag.type ∷ []))

-- The loop over the arguments; the first parameter is `optionalSeen`.
unfoldable pub validate_arguments : Bool → List Argument → Checked
validate_arguments optional_seen [] = ok tt
validate_arguments optional_seen (argument ∷ rest) = do
  require (identifier argument.name) (message "invalid argument name %q" (argument.name ∷ []))
  require (not (argument.required && optional_seen))
      (message "required argument %q follows an optional argument" (argument.name ∷ []))
  require (not argument.variadic || leb (length rest) 0)
      (message "variadic argument %q must be last" (argument.name ∷ []))
  validate_arguments (optional_seen || not argument.required) rest

-- The loop over the flags; the first parameter is `seenFlags`.
unfoldable pub validate_flags : List Text → List Flag → Checked
validate_flags seen [] = ok tt
validate_flags seen (flag ∷ rest) = do
  require (identifier flag.name) (message "invalid flag name %q" (flag.name ∷ []))
  require (not (any (eq_text flag.name) seen)) (message "duplicate flag %q" (flag.name ∷ []))
  validate_flag flag
  validate_flags (flag.name ∷ seen) rest

abbrev pub mutation_allowed : Category → Bool → Bool
mutation_allowed diagnostic supports_dry_run = true
mutation_allowed operational supports_dry_run = supports_dry_run
mutation_allowed runbook supports_dry_run = supports_dry_run
mutation_allowed (Category.other text) supports_dry_run = false

-- The two errors of the switch on the category.
abbrev pub category_error : Command → Error
category_error command = elim command.category [
  | Category.other text ↦ message "invalid command category %q" (text ∷ [])
  | _ ↦ message "mutating command %q must support dry-run" (join command.path (codes " ") ∷ [])
]

unfoldable pub validate_segments : List Text → Checked
validate_segments [] = ok tt
validate_segments (segment ∷ rest) = do
  require (identifier segment) (message "invalid command segment %q" (segment ∷ []))
  validate_segments rest

unfoldable pub validate_command : Command → Checked
validate_command command = do
  require (leb 2 (length command.path))
      (failure "plugin command path must contain at least two segments")
  validate_segments command.path
  require (mutation_allowed command.category command.supports_dry_run) (category_error command)
  require (leb (length command.arguments) 64 && leb (length command.flags) 64)
      (failure "command argument or flag count exceeds 64")
  validate_arguments false command.arguments
  validate_flags [] command.flags

abbrev pub command_key : Command → Text
command_key command = join command.path (codes " ")

-- The loop over the commands; the first parameter is `seen`.
unfoldable pub validate_commands : List Text → List Command → Checked
validate_commands seen [] = ok tt
validate_commands seen (command ∷ rest) = do
  validate_command command
  require (not (any (eq_text (command_key command)) seen))
      (message "duplicate command %q" (command_key command ∷ []))
  validate_commands (command_key command ∷ seen) rest

unfoldable pub validate_manifest : Manifest → Checked
validate_manifest manifest = do
  require (eq_int manifest.version_number protocol_version) (failure "protocol_version must be %d")
  require (identifier manifest.name) (message "invalid plugin name %q" (manifest.name ∷ []))
  require (not (is_blank manifest.version)) (failure "plugin version must not be empty")
  validate_description manifest.description
  require (leb 1 (length manifest.commands) && leb (length manifest.commands) 128)
      (failure "plugin command count must be within 1..128")
  validate_commands [] manifest.commands
