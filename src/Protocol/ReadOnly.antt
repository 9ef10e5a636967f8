-- ===== src/Protocol/ReadOnly.antt =====
-- internal/protocol/readonly.go: the plan of a command that changes nothing. The state of the
-- context is an argument: the error that `ctx.Err()` returns, if any.
pub mod Lookup
pub mod Accepts
use ohinfra_plugins.Base.{
  ℕ, suc, ◌≤◌, Text, codes, eq_text, eq_int, join, Bool, true, false, not, ◌&&◌, List, [], ◌∷◌,
  length, Option, none, some, String, leb, if◌then◌else◌, Fallible, Checked, ok, err, Error,
  require, failure, message, wrapped, exit_error, pos, ◌>>◌, ◌>>=◌,
}
use ohinfra_plugins.Protocol.Value.{Value, Fields, end_fields, field, dynamic}
use ohinfra_plugins.Protocol.Types.{
  Argument, Flag, Command, Manifest, Invocation, Plan, protocol_version, exit_arguments, elements,
}
use ohinfra_plugins.Protocol.Validate.{
  validate_manifest, is_string_value, is_bool_value, is_int_value, is_duration_value,
}

abbrev pub read_only_summary : Text
read_only_summary = codes "Read local system state without making changes"

abbrev pub invalid_invocation : Error → Error
invalid_invocation e = exit_error (pos exit_arguments) e

abbrev pub same_path : List Text → List Text → Bool
same_path [] [] = true
same_path (x ∷ xs) (y ∷ ys) = eq_text x y && same_path xs ys
same_path _ _ = false

unfoldable pub find_command : List Command → List Text → Option Command
find_command [] path = none
find_command (command ∷ rest) path =
    if same_path command.path path then some command else find_command rest path

abbrev pub count_required : List Argument → ℕ
count_required [] = 0
count_required (a ∷ rest) = let n = count_required rest in if a.required then suc n else n

abbrev pub last_is_variadic : List Argument → Bool
last_is_variadic [] = false
last_is_variadic (a ∷ []) = a.variadic
last_is_variadic (a ∷ b ∷ rest) = last_is_variadic (b ∷ rest)

unfoldable pub validate_invocation_arguments : Command → List Text → Checked
validate_invocation_arguments command values = do
  require (leb (count_required command.arguments) (length values)) (
      invalid_invocation (
        message "command %q requires at least %d argument(s)" (join command.path (codes " ") ∷ [])))
  require
      (if last_is_variadic command.arguments
        then true
        else leb (length values) (length command.arguments))
      (invalid_invocation
        (message "command %q accepts at most %d argument(s)" (join command.path (codes " ") ∷ [])))

-- The map from names to flags: a later flag of the same name replaces an earlier one.
unfoldable pub flag_named : List Flag → Text → Option Flag
flag_named [] name = none
flag_named (flag ∷ rest) name = elim (flag_named rest name) [
  | some found ↦ some found
  | none ↦ if eq_text flag.name name then some flag else none
]

unfoldable pub valid_invocation_option : Text → Value → Bool
valid_invocation_option type value =
    if eq_text type (codes "string")
    then is_string_value value
    else if eq_text type (codes "bool")
    then is_bool_value value
    else if eq_text type (codes "int")
    then is_int_value value
    else if eq_text type (codes "duration")
    then is_duration_value value
    else false

unfoldable pub check_option : Text → Value → Option Flag → Checked
check_option name value none = err (invalid_invocation (message "unknown option %q" (name ∷ [])))
check_option name value (some flag) =
    require (valid_invocation_option flag.type (dynamic value))
      (invalid_invocation (message "option %q must be %s" (name ∷ flag.type ∷ [])))

-- The loop over the options, in the order of the list; Go leaves the order open.
unfoldable pub validate_invocation_options : List Flag → Fields → Checked
unfolding check_option
validate_invocation_options flags end_fields = ok tt
validate_invocation_options flags (field name value rest) = do
  check_option name value (flag_named flags name)
  validate_invocation_options flags rest

abbrev pub fields_of : Option Fields → Fields
fields_of none = end_fields
fields_of (some fs) = fs

abbrev pub wrap {ℓ} : {A : Type ℓ} → String → Fallible A → Fallible A
wrap text (ok a) = ok a
wrap text (err e) = err (wrapped text e)

abbrev not_cancelled : Option Error → Checked
not_cancelled none = ok tt
not_cancelled (some e) = err e

abbrev known_command : Invocation → Option Command → Fallible Command
known_command invocation none = err (
    invalid_invocation
      (message "unknown command %q" (join invocation.command_path (codes " ") ∷ [])))
known_command invocation (some command) = ok command

abbrev pub empty_plan : Command → Plan
empty_plan command = record {
  command_id = join command.path (codes ".");
  summary = read_only_summary;
  checks = some [];
  changes = some [];
  risks = some [];
  requires_root = false;
  requires_force = false;
  requires_confirmation = false;
}

unfoldable pub read_only_plan : Option Error → Invocation → Manifest → Fallible Plan
read_only_plan context_error invocation manifest = do
  not_cancelled context_error
  require (eq_int invocation.version_number protocol_version)
      (invalid_invocation (failure "unsupported protocol version"))
  wrap "validate manifest: %w" (validate_manifest manifest)
  command ← known_command invocation (find_command manifest.commands invocation.command_path)
  validate_invocation_arguments command (elements invocation.arguments)
  validate_invocation_options command.flags (fields_of invocation.options)
  ok (empty_plan command)
