-- ===== src/ProtocolTests.antt =====
-- Runs of the protocol's definitions on concrete input, and the theorems about them applied there.
use ohinfra_plugins.Protocol.Duration.{is_duration}
use ohinfra_plugins.Base.{
  runes, is_blank, is_trimmed, valid_utf8, Text, codes, ◌≡◌, refl, ◌↔◌, true, false, List, [], ◌∷◌,
  ◌++◌, none, some, Fallible, ok, err, Error, pos, failure, end_of_input, arith, join, All, message,
}
use ohinfra_plugins.Protocol.Value.{interface, string, field, end_fields}
use ohinfra_plugins.Protocol.Types.{
  or_empty, or_empty_map, diagnostic, operational, Argument, Flag, Command, Manifest, Invocation,
  Plan, Result,
}
use ohinfra_plugins.Protocol.Validate.{
  validate_arguments, validate_command, validate_commands, validate_description, validate_flag,
  validate_flags, validate_segments, validate_manifest, identifier,
}
use ohinfra_plugins.Protocol.Validate.Spec.{IsManifest}
use ohinfra_plugins.Protocol.Validate.Exact.{validate_manifest_iff}
use ohinfra_plugins.Protocol.ReadOnly.{
  validate_invocation_arguments, validate_invocation_options, check_option, flag_named,
  valid_invocation_option, find_command, read_only_plan, empty_plan,
}
use ohinfra_plugins.Protocol.ReadOnly.Lookup.{find_command-validated}
use ohinfra_plugins.Protocol.ReadOnly.Accepts.{IsAccepted, read_only_plan_iff}
use ohinfra_plugins.Protocol.Serve.{
  call_of, Context, Definition, Environment, Verb, serve, serve_plan, serve_execute,
}
use ohinfra_plugins.Protocol.Serve.Exits.{IsReport, serve-IsReport}
use ohinfra_plugins.Protocol.Serve.Calls.{IsCalled, serve-IsCalled}
use ohinfra_plugins.Protocol.Serve.Failures.{exit, wrap_all, cause_error, failure-exit}
use ohinfra_plugins.StrictJson.{duplicate_key, reject_duplicate_keys, at_end}
use ohinfra_plugins.StrictJson.Document.{
  other_tokens, Json, obj, arr, atom, entry, no_entry, element, no_element, duplicate,
}
use ohinfra_plugins.StrictJson.Walk.{at}
use ohinfra_plugins.StrictJson.Exact.{document, reject_duplicate_keys-document}

abbrev limit_flag : Flag
limit_flag = record {
  name = codes "since";
  type = codes "duration";
  description = [];
  default = string (codes "1h30m");
}

abbrev unit_argument : Argument
unit_argument = record { name = codes "unit"; description = []; required = true; variadic = true }

abbrev logs : Command
logs = record {
  path = codes "systemd" ∷ codes "logs" ∷ [];
  usage = codes "logs UNIT";
  short = [];
  category = diagnostic;
  arguments = unit_argument ∷ [];
  flags = limit_flag ∷ [];
  requires_root = false;
  requires_force = false;
  supports_dry_run = false;
  requires_confirmation = false;
}

abbrev setup : Command
setup = record {
  path = codes "setup" ∷ codes "apply" ∷ [];
  usage = [];
  short = [];
  category = operational;
  arguments = [];
  flags = [];
  requires_root = true;
  requires_force = false;
  supports_dry_run = true;
  requires_confirmation = true;
}

abbrev sample : Manifest
sample = record {
  version_number = pos 1;
  name = codes "systemd-base";
  version = codes "1.2.0";
  description = codes "Reads units";
  commands = logs ∷ setup ∷ [];
}

abbrev ask : Invocation
ask = record {
  version_number = pos 1;
  request_id = codes "r1";
  command_path = codes "systemd" ∷ codes "logs" ∷ [];
  arguments = some (codes "ssh" ∷ codes "cron" ∷ []);
  options = some (field (codes "since") (interface (string (codes "90s"))) end_fields);
  deadline = [];
  plan_digest = [];
}

sample-validated : validate_manifest sample ≡ ok tt
unfolding validate_manifest identifier is_blank validate_description valid_utf8 is_trimmed
    validate_commands validate_command validate_segments validate_arguments validate_flags
    validate_flag is_duration join
sample-validated = refl

-- A mutating command without dry-run, and a second command of the same path, are refused.
validate_manifest_refuses :
    (validate_manifest (record sample { commands = record setup { supports_dry_run = false } ∷ [] })
      ≡ err (message "mutating command %q must support dry-run" (codes "setup apply" ∷ [])))
    × (validate_manifest (record sample { commands = logs ∷ logs ∷ [] })
        ≡ err (message "duplicate command %q" (codes "systemd logs" ∷ [])))
unfolding validate_manifest identifier is_blank validate_description valid_utf8 is_trimmed
    validate_commands validate_command validate_segments join validate_arguments validate_flags
    validate_flag is_duration
validate_manifest_refuses = (refl, refl)

validate_manifest_iff_example : (validate_manifest sample ≡ ok tt) ↔ IsManifest sample
validate_manifest_iff_example = validate_manifest_iff sample

find_command-validated_example :
    All (λ c. find_command sample.commands c.path ≡ some c) sample.commands
find_command-validated_example = find_command-validated sample sample-validated

read_only_plan_iff_example :
    (read_only_plan none ask sample ≡ ok (empty_plan logs))
    ↔ ((c : Command) × IsAccepted none ask sample c × (empty_plan logs ≡ empty_plan c))
read_only_plan_iff_example = read_only_plan_iff none ask sample (empty_plan logs)

ask-planned : read_only_plan none ask sample ≡ ok (empty_plan logs)
unfolding read_only_plan validate_manifest identifier is_blank validate_description valid_utf8
    is_trimmed validate_commands validate_command validate_segments validate_arguments
    validate_flags validate_flag is_duration join find_command validate_invocation_arguments
    validate_invocation_options runes check_option flag_named valid_invocation_option
ask-planned = refl

abbrev plan_ask : Context → Invocation → Fallible Plan
plan_ask context invocation = read_only_plan none invocation sample

abbrev timed_out : Error
timed_out = wrap_all ("run: %w" ∷ []) (cause_error (exit 4 (failure "journalctl is missing")))

abbrev no_execute : Context → Invocation → Fallible Result
no_execute context invocation = err timed_out

abbrev no_plan : Context → Invocation → Fallible Plan
no_plan context invocation = err timed_out

abbrev plugin : Definition
plugin = record { manifest = sample; plan = some plan_ask; execute = some no_execute }

-- A standard input that decodes as `ask`, and an encoder that never fails.
abbrev around : Environment
around = record {
  stdin = codes "{}";
  read_error = none;
  decode = λ encoded. ok ask;
  parse_time = λ deadline. ok tt;
  encode = λ document. ok tt;
}

-- What the plugin gets for `ask`.
abbrev filled_ask : Invocation
filled_ask = record ask { arguments = or_empty ask.arguments; options = or_empty_map ask.options }

abbrev plan_arguments : List Text
plan_arguments = codes "systemd-base" ∷ codes "plan" ∷ codes "--protocol=1" ∷ []

plan-called : (serve around plugin plan_arguments).called ≡ call_of Verb.plan none filled_ask ∷ []
unfolding serve read_only_plan validate_manifest identifier is_blank validate_description valid_utf8
    is_trimmed validate_commands validate_command validate_segments validate_arguments
    validate_flags validate_flag is_duration join find_command validate_invocation_arguments
    validate_invocation_options runes check_option flag_named valid_invocation_option
plan-called = refl

serve-IsReport_example : IsReport (serve around plugin plan_arguments)
serve-IsReport_example = serve-IsReport around plugin plan_arguments

serve-IsCalled_example :
    IsCalled around plugin plan_arguments Verb.plan none filled_ask
      (serve around plugin plan_arguments)
serve-IsCalled_example =
    serve-IsCalled around plugin plan_arguments Verb.plan none filled_ask plan-called

abbrev failing : Definition
failing = record { manifest = sample; plan = some no_plan; execute = some no_execute }

failure-exit_example :
    ((serve_plan around failing (none, ask)).exit ≡ 4)
    × ((serve_plan around failing (none, ask)).stderr ≡ timed_out ∷ [])
    × ((serve_execute around failing (none, ask)).exit ≡ 4)
    × ((serve_execute around failing (none, ask)).stderr ≡ timed_out ∷ [])
failure-exit_example =
    failure-exit around failing none ask ("run: %w" ∷ []) (exit 4 (failure "journalctl is missing"))
      no_plan no_execute (omega arith) (omega arith) refl refl refl refl

-- `{"a": [{"b": 1, "b": 2}]}`
abbrev twice : Json
twice = obj (
    entry (codes "a")
      (arr (
        element (obj (entry (codes "b") (atom 1) (entry (codes "b") (atom 2) no_entry)))
          no_element))
      no_entry)

reject_duplicate_keys-document_example :
    reject_duplicate_keys (at (document twice ++ []) end_of_input) ≡ (elim (duplicate twice) [
      | none ↦ at_end (at [] end_of_input)
      | some k ↦ err (duplicate_key k)
    ])
reject_duplicate_keys-document_example = reject_duplicate_keys-document twice [] end_of_input

twice-rejected :
    reject_duplicate_keys (at (document twice ++ []) end_of_input) ≡ err (duplicate_key (codes "b"))
unfolding reject_duplicate_keys other_tokens
twice-rejected = refl
