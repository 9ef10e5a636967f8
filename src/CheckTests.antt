-- ===== src/CheckTests.antt =====
-- The theorems on redaction, results and checks, used on a small system.
use ohinfra_plugins.Paths.{clean, clean_relative_path, rooted_path}
use ohinfra_plugins.Probe.{confined_path, read, read_within, walk}
use ohinfra_plugins.Regex.{ends, flat_map, replace_from, take_many}
use ohinfra_plugins.Base.{
  join, ℕ, ◌≡◌, refl, Text, codes, [], ◌∷◌, none, some, Fallible, ok, err, Error, eq_text,
  if◌then◌else◌, sort_stable, lt_text, not_found,
}
use ohinfra_plugins.Protocol.Value.{Value, interface, string, field, end_fields}
use ohinfra_plugins.Protocol.Types.{Tool, skipped, elements, Result, Check}
use ohinfra_plugins.Disk.{look, regular, directory, Entry, Entries, Disk, lift}
use ohinfra_plugins.ServerSetup.Profile.{ManagedFileSpec, Profile, default_config}
use ohinfra_plugins.ServerSetup.Accounts.{AccountDatabase}
use ohinfra_plugins.ServerSetup.Confinement.{inspect}
use ohinfra_plugins.ServerSetup.Checks.Files.{check_managed_file}
use ohinfra_plugins.ServerSetup.Checks.Run.{Checker, run}
use ohinfra_plugins.ServerSetup.Checks.Complete.{resource_names, run-names}
use ohinfra_plugins.Regex.{replace_from, flat_map, ends, take_many}
use ohinfra_plugins.Base.{join}
use ohinfra_plugins.Paths.{clean, clean_relative_path, push_all, split_by, rooted_path}
use ohinfra_plugins.Disk.{look, act}
use ohinfra_plugins.Probe.{read, read_within, confined_path, walk, is_not_exist}
use ohinfra_plugins.Probe.Commands.{prepare_run, is_program_name, command_output_limit}
use ohinfra_plugins.ServerSetup.Checks.{
  fatal_context_failure, skipped_checks, failure_kind, has_error,
}
use ohinfra_plugins.ServerSetup.Checks.Resources.{check_packages, check_unit, installed_from}
use ohinfra_plugins.ServerSetup.Checks.Files.{check_accounts}
use ohinfra_plugins.ServerSetup.Checks.Run.{
  all_findings, check_resources, check_each, check_each_unit,
}
use ohinfra_plugins.Redact.{
  patterns, replace_patterns, word, contains_text, masked_value, plain_key, patterns,
  replace_patterns, sensitive_key, word, redact_text, redact_value,
}
use ohinfra_plugins.Redact.Masked.{IsRedacted, redact_value-IsRedacted}
use ohinfra_plugins.ResultBuilder.Build.{Input, build}
use ohinfra_plugins.ResultBuilder.Build.Order.{ids, IsBuilt, build-IsBuilt}

password_masked : redact_text (codes "Pwd: abc, x") ≡ codes "Pwd: ********, x"
unfolding redact_text replace_patterns patterns replace_from flat_map ends word take_many
password_masked = refl

token_masked : redact_text (codes "glpat-b-c-") ≡ codes "glpat-********-"
unfolding redact_text replace_patterns patterns replace_from flat_map ends word take_many
token_masked = refl

abbrev secrets : Value
secrets = Value.map (
    field (codes "API_Key") (interface (string (codes "hunter2")))
      (field (codes "note") (interface (string (codes "pwd=abc"))) end_fields))

redacted_secrets :
    redact_value secrets
    ≡ Value.map (
        field
          (codes "API_Key")
          (interface (string (codes "********")))
          (field (codes "note") (interface (string (codes "pwd=********"))) end_fields))
unfolding redact_value sensitive_key contains_text plain_key masked_value redact_text
    replace_patterns patterns replace_from flat_map ends word take_many
redacted_secrets = refl

redact_value-IsRedacted_example : IsRedacted (redact_value secrets)
redact_value-IsRedacted_example = redact_value-IsRedacted secrets

abbrev tool : Tool
tool = record {
  name = [];
  version = [];
  commit = [];
  build_date = [];
  go_version = [];
  architecture = [];
}

abbrev finding : Text → Check
finding id = record { id = id; status = skipped; summary = codes "token"; details = none }

abbrev input : Input
input = record {
  command = codes "example status";
  tool = tool;
  host = codes "server01";
  started = some 1;
  now = 5000001;
  checks = some (finding (codes "z") ∷ finding (codes "a") ∷ []);
  data_map = some (field (codes "stderr") (interface (string [])) end_fields);
  changes = none;
  errors = none;
}

build-IsBuilt_example : IsBuilt input (build (λ n. []) input)
build-IsBuilt_example = build-IsBuilt (λ n. []) input

abbrev files : Entries
files p =
    if eq_text p (codes "/")
    then some (record { kind = directory; content = []; mode = 0o755; uid = 0; gid = 0 })
    else if eq_text p (codes "/state")
    then some (record { kind = regular; content = codes "new"; mode = 0o600; uid = 0; gid = 4 })
    else none

abbrev disk : Disk
disk = record { entries = files; faults = [] }

abbrev state_file : ManagedFileSpec
state_file = record {
  path = codes "/state";
  mode = 0o600;
  owner = codes "root";
  group = codes "adm";
  content = codes "new";
  sha256 = codes "new";
}

abbrev accounts : AccountDatabase
accounts = record {
  groups = (codes "adm", 4) ∷ [];
  users = (codes "root", record { id = 0; primary_group = 0; home = []; shell = [] }) ∷ [];
}

abbrev same : Text → Text
same content = content

abbrev no_text : Error → Text
no_text e = []

abbrev owner : Text → Entry → Fallible (ℕ × ℕ)
owner path info = ok (info.uid, info.gid)

abbrev profile : Profile
profile = record {
  id = codes "debian-12";
  platform_id = codes "debian";
  version_id = codes "12";
  packages = codes "curl" ∷ [];
  groups = [];
  users = [];
  directories = [];
  managed_files = state_file ∷ [];
  sysctls = [];
  units = codes "x.service" ∷ [];
}

abbrev checker : Checker
checker = record {
  root = codes "/";
  run_program = λ spec. lift (err not_found);
  host = codes "server01";
  now = 1;
  tool = tool;
  identity = owner;
  confine = inspect;
  answers = λ n. none;
  digest = same;
  error_text = no_text;
  format_time = λ n. [];
}

abbrev result_of : Fallible Result → Result
result_of (ok r) = r
result_of (err e) = build (λ n. []) input

result : Result
result = result_of (run checker profile default_config disk).0

run-names_example : ids (elements result.checks) ≡ sort_stable lt_text (resource_names profile)
unfolding result run all_findings check_packages prepare_run is_program_name command_output_limit
    fatal_context_failure check_accounts check_resources check_each check_each_unit
    check_managed_file check_unit skipped_checks installed_from failure_kind has_error read
    read_within confined_path walk look act clean clean_relative_path join push_all split_by
    is_not_exist rooted_path
run-names_example = run-names checker profile default_config disk result refl
