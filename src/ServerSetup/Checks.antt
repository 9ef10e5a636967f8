-- ===== src/ServerSetup/Checks.antt =====
-- internal/serversetup/check.go: the checks of a system against a compiled profile. The runner of programs, the
-- digest, the reader of a file's owner and the text of an error are parameters.
pub mod Resources
pub mod Files
pub mod Run
pub mod Subject
pub mod Covering
pub mod Complete
pub mod Passing
use ohinfra_plugins.Base.{
  ℕ, ◌+◌, ◌%◌, ◌^◌, ◌*◌, Text, codes, eq_text, Bool, true, false, not, ◌&&◌, ◌||◌, List, [], ◌∷◌,
  ◌++◌, map, Option, none, some, Fallible, ok, err, Error, message, wrapped, joined, exit_error,
  canceled, deadline_exceeded, not_found, permission, identity_unavailable, ◌==◌, ltb, leb,
  if◌then◌else◌,
}
use ohinfra_plugins.Protocol.Types.{
  Status, pass, warning, skipped, Check, StructuredError, ErrorKind, general,
  insufficient_privileges, missing_dependency, cancelled, timeout,
}

-- `errors.Is` for an error that is one of a kind.
unfoldable pub has_error : (Error → Bool) → Error → Bool
has_error p (wrapped text e) = p (wrapped text e) || has_error p e
has_error p (joined a b) = p (joined a b) || (has_error p a || has_error p b)
has_error p e = p e

abbrev is_permission : Error → Bool
is_permission permission = true
is_permission _ = false

abbrev is_missing_program : Error → Bool
is_missing_program not_found = true
is_missing_program _ = false

abbrev is_identity_unavailable : Error → Bool
is_identity_unavailable identity_unavailable = true
is_identity_unavailable _ = false

abbrev pub is_cancellation : Error → Bool
is_cancellation canceled = true
is_cancellation _ = false

abbrev pub is_deadline_exceeded : Error → Bool
is_deadline_exceeded deadline_exceeded = true
is_deadline_exceeded _ = false

unfoldable pub failure_kind : Error → ErrorKind
failure_kind e =
    if has_error is_permission e
    then insufficient_privileges
    else if has_error is_missing_program e
    then missing_dependency
    else if has_error is_identity_unavailable e
    then missing_dependency
    else if has_error is_cancellation e
    then cancelled
    else if has_error is_deadline_exceeded e
    then timeout
    else general

module _ (error_text : Error → Text) where
  -- `inspectionFailure`
  abbrev pub inspection_failure : Text → Text → Error → StructuredError
  inspection_failure dependency code e = record {
    kind = failure_kind e;
    code = code;
    message = error_text e;
    dependency = dependency;
    retryable = false;
    details = none;
  }

abbrev check : Status → Text → Text → Check
check status id summary = record { id = id; status = status; summary = summary; details = none }

-- `passCheck`, `warningCheck` and `skippedCheck`
abbrev pub pass_check : Text → Text → Check
pass_check = check pass

abbrev pub warning_check : Text → Text → Check
warning_check = check warning

abbrev pub skipped_check : Text → Text → Check
skipped_check = check skipped

-- `skippedChecks`, `skippedGroupChecks` and `skippedUserChecks`
unfoldable pub skipped_checks : Text → List Text → Text → List Check
skipped_checks prefix [] summary = []
skipped_checks prefix (value ∷ rest) summary =
    skipped_check (prefix ++ value) summary ∷ skipped_checks prefix rest summary

-- `fatalContextFailure`: the error of the context, or the one that a failure stands for.
unfoldable pub fatal_context_failure : Option Error → Option StructuredError → Option Error
fatal_context_failure (some e) failure = some e
fatal_context_failure none none = none
fatal_context_failure none (some failure) = elim failure.kind [
  | cancelled ↦ some canceled
  | timeout ↦ some deadline_exceeded
  | _ ↦ none
]
