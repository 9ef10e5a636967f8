-- ===== src/SetupTests.antt =====
-- Runs of the setup plugin's definitions on a world that is the list of what is set up, the last
-- first, and the theorems about them applied there.
use ohinfra_plugins.Protocol.Serve.{normalize_plan}
use ohinfra_plugins.Protocol.Validate.{
  validate_manifest, identifier, validate_description, validate_commands, validate_command,
  validate_segments, validate_arguments, validate_flags,
}
use ohinfra_plugins.Protocol.ReadOnly.{
  read_only_plan, find_command, validate_invocation_arguments, validate_invocation_options,
}
use ohinfra_plugins.Base.{
  is_blank, join, is_trimmed, runes, valid_utf8, sort_stable, Text, codes, ◌≡◌, refl, true, false,
  List, [], ◌∷◌, ◌++◌, In, inl, none, some, ok, pos, failure, if◌then◌else◌,
}
use ohinfra_plugins.Protocol.Types.{
  Status, pass, warning, operational, Check, Change, Command, Manifest, Invocation, elements,
}
use ohinfra_plugins.ServerSetup.Profile.{
  profile_by_id, profile_for, resolve_profile, validate_config, GroupSpec, Profile, build_profile,
}
use ohinfra_plugins.ServerSetup.Plan.{
  plan_mode_for_path, require_complete, require_compiled, package_changes, wanted, cached, octal,
  all_changes, change_less, change_priority, status_of, apply, PlanInput, contains,
  build_setup_plan, group_change, unit_change, plan_for,
}
use ohinfra_plugins.ServerSetup.Plan.Order.{IsOrdered, build_setup_plan-order}
use ohinfra_plugins.ServerSetup.Plan.Contents.{IsBuilt, build_setup_plan-contents}
use ohinfra_plugins.ServerSetup.Transaction.{
  perform, commit, commit_all, run_undos, find_named, FileBackup, Undo, Mutation, Adapters,
  Transaction, Operation, on_group, choose, rollback,
}
use ohinfra_plugins.ServerSetup.Transaction.Planned.{
  Serves, build_setup_plan-choose, IsCompiled, choose-IsCompiled,
}
use ohinfra_plugins.ServerSetup.Commands.{
  run_output, add_group, enable_unit, compiled_name, compiled_unit,
}
use ohinfra_plugins.Probe.Commands.{prepare_run, is_program_name, command_output_limit}
use ohinfra_plugins.ServerSetup.Commands.Reversible.{with_commands}
use ohinfra_plugins.CommandTests.{groups_machine}
use ohinfra_plugins.ServerSetup.Apply.{
  approved_plan, build_current_plan, load_config, load_setup_state, plan_digest, apply_changes,
  run_transaction, verify_planned_changes, Host, execute_mutation,
}
use ohinfra_plugins.ServerSetup.Apply.Approved.{IsRightful, execute_mutation-IsRightful}

abbrev World : Type 0
World = List Text

-- It fails where there is nothing.
abbrev undo_first : Undo World
undo_first [] = (some (failure "nothing to undo"), [])
undo_first (x ∷ w) = (none, w)

abbrev add : Text → Mutation World
add name w = (ok (some undo_first), name ∷ w)

-- Directories and files are only named in the world.
abbrev files_only : Adapters World
files_only = record {
  install_package = λ name is_upgrade. add name;
  group = λ spec. add spec.name;
  user = λ spec. add spec.name;
  sysctl = λ spec. add spec.key;
  unit = add;
  ensure_directory = λ spec. add (codes "directory:" ++ spec.path);
  replace_managed_file = λ spec w. (
    (
      record {
        target = spec.path;
        path = codes "backup";
        had_original = true;
        replacement_installed = true;
      },
      none,
    ),
    (codes "file:" ++ spec.path) ∷ w,
  );
  rollback_managed_file = λ backup. undo_first;
  commit_managed_file = λ backup w. (none, w);
}

-- The changes that run programs are those of the program, on a machine with groups only, where no
-- unit can be enabled.
abbrev adapters : Adapters World
adapters = with_commands groups_machine files_only

abbrev Same : World → World → Type 0
Same v w = v ≡ w

abbrev debian : Profile
debian = build_profile (λ t. t) (codes "debian", codes "12")

abbrev group : GroupSpec
group = record { name = codes "ohtools"; system = true }

abbrev group_check : Status → Check
group_check status = record {
  id = codes "group:ohtools";
  status = status;
  summary = [];
  details = none;
}

abbrev unit_check : Check
unit_check = record {
  id = codes "unit:systemd-timesyncd.service";
  status = warning;
  summary = [];
  details = none;
}

abbrev input : PlanInput
input = record {
  mode = apply;
  profile = debian;
  checks = unit_check ∷ group_check warning ∷ [];
  cached_upgrades = [];
}

input-built : build_setup_plan input ≡ ok (plan_for input)
unfolding build_setup_plan
input-built = refl

build_setup_plan-order_example : IsOrdered input (plan_for input)
build_setup_plan-order_example = build_setup_plan-order input (plan_for input) input-built

build_setup_plan-contents_example : IsBuilt input (plan_for input)
build_setup_plan-contents_example = build_setup_plan-contents input (plan_for input) input-built

input-changes :
    elements (plan_for input).changes
    ≡ group_change group ∷ unit_change (codes "systemd-timesyncd.service") ∷ []
unfolding build_setup_plan sort_stable all_changes build_profile status_of change_less
    change_priority
input-changes = refl

group-planned : In (group_change group) (elements (plan_for input).changes)
group-planned = rw input-changes (inl refl)

build_setup_plan-choose_example : Serves debian (group_change group)
build_setup_plan-choose_example =
    build_setup_plan-choose input (plan_for input) (group_change group) input-built group-planned

group-chosen : choose debian (group_change group) ≡ some (on_group group)
unfolding choose find_named build_profile
group-chosen = refl

choose-IsCompiled_example : IsCompiled debian (on_group group)
choose-IsCompiled_example =
    choose-IsCompiled debian (group_change group) (on_group group) group-chosen

abbrev changes : List Change
changes = group_change group ∷ unit_change (codes "systemd-timesyncd.service") ∷ []

abbrev command : Command
command = record {
  path = codes "setup" ∷ codes "apply" ∷ [];
  usage = [];
  short = [];
  category = operational;
  arguments = [];
  flags = [];
  requires_root = true;
  requires_force = false;
  supports_dry_run = true;
  requires_confirmation = true;
}

abbrev manifest : Manifest
manifest = record {
  version_number = pos 1;
  name = codes "server-setup-base";
  version = codes "1.0";
  description = [];
  commands = command ∷ [];
}

-- A host whose only check is that of the group.
abbrev host : Host World
host = record {
  digest = λ t. t;
  encode = λ plan. ok (codes "plan");
  load = λ settings w. ok settings;
  detect = λ w. ok (record { id = codes "debian"; version_id = codes "12"; supported = true });
  run_checks = λ profile settings w.
      ok (group_check (if contains w (codes "ohtools") then pass else warning) ∷ []);
  cached_upgrades = λ packages w. ok [];
  context_error = λ w. none;
}

abbrev approved : Text → Invocation
approved digest = record {
  version_number = pos 1;
  request_id = [];
  command_path = codes "setup" ∷ codes "apply" ∷ [];
  arguments = none;
  options = none;
  deadline = [];
  plan_digest = digest;
}

mutation_runs :
    ((execute_mutation host adapters (approved (codes "plan")) manifest []).1
      ≡ codes "ohtools" ∷ [])
    × ((execute_mutation host adapters (approved (codes "other")) manifest []).1 ≡ [])
unfolding execute_mutation approved_plan build_current_plan read_only_plan validate_manifest
    identifier is_blank validate_description validate_commands validate_command validate_segments
    validate_arguments validate_flags find_command validate_invocation_arguments
    validate_invocation_options plan_mode_for_path join sort_stable load_config load_setup_state
    plan_digest normalize_plan apply_changes run_transaction verify_planned_changes build_setup_plan
    require_complete require_compiled all_changes package_changes wanted cached change_less
    change_priority octal status_of build_profile profile_by_id profile_for resolve_profile
    validate_config ohinfra_plugins.ServerSetup.Transaction.apply choose perform commit commit_all
    find_named rollback run_undos is_trimmed runes valid_utf8 run_output add_group enable_unit
    compiled_name compiled_unit prepare_run is_program_name command_output_limit
mutation_runs = (refl, refl)

-- The units cannot be enabled, and the check of one asks for it.
abbrev no_units : Host World
no_units = record host {
  run_checks = λ profile settings w. ok (unit_check ∷ group_check warning ∷ []);
}

mutation_undone : (execute_mutation no_units adapters (approved (codes "plan")) manifest []).1 ≡ []
unfolding execute_mutation approved_plan build_current_plan read_only_plan validate_manifest
    identifier is_blank validate_description validate_commands validate_command validate_segments
    validate_arguments validate_flags find_command validate_invocation_arguments
    validate_invocation_options plan_mode_for_path join sort_stable load_config load_setup_state
    plan_digest normalize_plan apply_changes run_transaction verify_planned_changes build_setup_plan
    require_complete require_compiled all_changes package_changes wanted cached change_less
    change_priority octal status_of build_profile profile_by_id profile_for resolve_profile
    validate_config ohinfra_plugins.ServerSetup.Transaction.apply choose perform commit commit_all
    find_named rollback run_undos is_trimmed runes valid_utf8 run_output add_group enable_unit
    compiled_name compiled_unit prepare_run is_program_name command_output_limit
mutation_undone = refl

execute_mutation-IsRightful_example :
    IsRightful host adapters
      (approved (codes "plan"))
      manifest
      []
      (execute_mutation host adapters (approved (codes "plan")) manifest [])
execute_mutation-IsRightful_example =
    execute_mutation-IsRightful host adapters (approved (codes "plan")) manifest []
