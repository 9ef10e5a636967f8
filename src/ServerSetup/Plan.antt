-- ===== src/ServerSetup/Plan.antt =====
-- internal/serversetup/plan.go: the plan of changes from the results of the checks.
pub mod Order
pub mod Contents
use ohinfra_plugins.Base.{
  ℕ, zero, suc, ◌+◌, ◌/◌, ◌%◌, ◌≡◌, refl, Text, codes, eq_text, lt_text, cut_prefix, join, Bool,
  true, false, ◌&&◌, ◌||◌, List, [], ◌∷◌, ◌++◌, map, any, Option, none, some, ltb, ◌==◌,
  if◌then◌else◌, Fallible, Checked, ok, err, Error, failure, message, exit_error, pos, require,
  ◌>>=◌, ◌>>◌, sort_stable, not,
}
use ohinfra_plugins.Protocol.Value.{Value, interface, bool, string, Fields, field, end_fields}
use ohinfra_plugins.Protocol.Types.{
  Status, pass, info, warning, critical, skipped, partial, error, cancelled, Check, Change, Plan,
  Slice, exit_arguments,
}
use ohinfra_plugins.ServerSetup.Profile.{
  GroupSpec, UserSpec, DirectorySpec, ManagedFileSpec, SysctlSpec, Profile,
}

pub data PlanMode : Type 0 where
  apply upgrade : PlanMode
  other_mode : Text → PlanMode

pub record PlanInput : Type 0 where
  pub mode : PlanMode
  pub profile : Profile
  pub checks : List Check
  pub cached_upgrades : List Text

abbrev pub contains : List Text → Text → Bool
contains [] want = false
contains (value ∷ rest) want = eq_text value want || contains rest want

abbrev pub is_incomplete : Status → Bool
is_incomplete skipped = true
is_incomplete error = true
is_incomplete partial = true
is_incomplete cancelled = true
is_incomplete s = false

abbrev pub needs_change : Status → Bool
needs_change warning = true
needs_change critical = true
needs_change s = false

-- The map from ids to statuses: a later check replaces an earlier one, and a missing one reads as
-- the empty status.
unfoldable pub status_of : List Check → Text → Status
status_of [] id = Status.other []
status_of (check ∷ rest) id =
    if contains (map (λ (c : Check). c.id) rest) id
    then status_of rest id
    else if eq_text check.id id
    then check.status
    else Status.other []

abbrev pub planned_change : Text → Text → Option Fields → Change
planned_change object action details = record {
  object = object;
  action = action;
  status = codes "planned";
  details = details;
}

-- `fmt.Sprintf("%#o", mode)`, for a mode below 8^11.
octal_digits : ℕ → ℕ → Text → Text
octal_digits zero n out = out
octal_digits (suc f) n out =
    let rest = octal_digits f (n / 8) ((b'0' + n % 8) ∷ out) in if n == 0 then out else rest

unfoldable pub octal : ℕ → Text
unfolding octal_digits
octal n = b'0' ∷ octal_digits 11 n []

abbrev any_text : Text → Value
any_text s = interface (string s)

abbrev any_bool : Bool → Value
any_bool b = interface (bool b)

-- The change that each resource of a profile may get.
abbrev pub package_install : Text → Change
package_install name = planned_change (codes "package:" ++ name) (codes "install-cached") none

abbrev pub package_upgrade : Text → Change
package_upgrade name = planned_change (codes "package:" ++ name) (codes "upgrade-cached") none

abbrev pub group_change : GroupSpec → Change
group_change group =
    planned_change (codes "group:" ++ group.name) (codes "create")
      (some (field (codes "system") (any_bool group.system) end_fields))

abbrev pub user_change : UserSpec → Change
user_change user = planned_change (codes "user:" ++ user.name) (codes "create") (
    some (
      field (codes "primary_group") (any_text user.primary_group) (
        field (codes "home") (any_text user.home) (
          field (codes "shell") (any_text user.shell)
            (field (codes "system") (any_bool user.system) end_fields)))))

abbrev pub directory_change : DirectorySpec → Change
directory_change directory =
    planned_change (codes "directory:" ++ directory.path) (codes "ensure") (
      some (
        field (codes "mode") (any_text (octal directory.mode)) (
          field (codes "owner") (any_text directory.owner)
            (field (codes "group") (any_text directory.group) end_fields))))

abbrev pub file_change : ManagedFileSpec → Change
file_change file = planned_change (codes "file:" ++ file.path) (codes "replace") (
    some (
      field (codes "sha256") (any_text file.sha256) (
        field (codes "mode") (any_text (octal file.mode)) (
          field (codes "owner") (any_text file.owner)
            (field (codes "group") (any_text file.group) end_fields)))))

abbrev pub sysctl_change : SysctlSpec → Change
sysctl_change sysctl =
    planned_change (codes "sysctl:" ++ sysctl.key) (codes "set")
      (some (field (codes "value") (any_text sysctl.value) end_fields))

abbrev pub unit_change : Text → Change
unit_change unit = planned_change (codes "unit:" ++ unit) (codes "enable") none

-- One loop over resources: those whose check asks for a change get one.
unfoldable pub wanted : {A : Type 0} → List Check → (A → Change) → List A → List Change
wanted checks change [] = []
wanted checks change (a ∷ rest) =
    if needs_change (status_of checks (change a).object)
    then change a ∷ wanted checks change rest
    else wanted checks change rest

unfoldable pub cached : List Text → List Text → List Change
cached upgrades [] = []
cached upgrades (name ∷ rest) =
    if contains upgrades name
    then package_upgrade name ∷ cached upgrades rest
    else cached upgrades rest

-- The loop over the packages, which looks at the mode.
unfoldable pub package_changes : PlanInput → List Change
unfolding wanted cached
package_changes input = elim input.mode [
  | upgrade ↦ cached input.cached_upgrades input.profile.packages
  | _ ↦ wanted input.checks package_install input.profile.packages
]

unfoldable pub all_changes : PlanInput → List Change
unfolding package_changes
all_changes input =
    package_changes input
    ++ (wanted input.checks group_change input.profile.groups
        ++ (wanted input.checks user_change input.profile.users
            ++ (wanted input.checks directory_change input.profile.directories
                ++ (wanted input.checks file_change input.profile.managed_files
                    ++ (wanted input.checks sysctl_change input.profile.sysctls
                        ++ wanted input.checks unit_change input.profile.units)))))

abbrev pub has_prefix : Text → Text → Bool
has_prefix s prefix = elim (cut_prefix s prefix) [ none ↦ false | some rest ↦ true ]

unfoldable pub change_priority : Text → ℕ
change_priority object =
    if has_prefix object (codes "package:")
    then 0
    else if has_prefix object (codes "group:")
    then 1
    else if has_prefix object (codes "user:")
    then 2
    else if has_prefix object (codes "directory:")
    then 3
    else if has_prefix object (codes "file:")
    then 4
    else if has_prefix object (codes "sysctl:")
    then 5
    else if has_prefix object (codes "unit:")
    then 6
    else 7

unfoldable pub change_less : Change → Change → Bool
change_less left right =
    if change_priority left.object == change_priority right.object
    then (if eq_text left.object right.object
        then lt_text left.action right.action
        else lt_text left.object right.object)
    else ltb (change_priority left.object) (change_priority right.object)

abbrev pub check_less : Check → Check → Bool
check_less left right = lt_text left.id right.id

-- The loop over the checks: the first one that is not complete ends the planning.
unfoldable pub require_complete : List Check → Checked
require_complete [] = ok tt
require_complete (check ∷ rest) = do
  require (not (is_incomplete check.status))
      (message "cannot plan from incomplete check %q" (check.id ∷ []))
  require_complete rest

unfoldable pub require_compiled : List Text → List Text → Checked
require_compiled packages [] = ok tt
require_compiled packages (name ∷ rest) = do
  require (contains packages name)
      (message "cached upgrade %q is outside the compiled profile" (name ∷ []))
  require_compiled packages rest

abbrev known_mode : PlanMode → Bool
known_mode (other_mode text) = false
known_mode mode = true

abbrev mode_text : PlanMode → Text
mode_text apply = codes "apply"
mode_text upgrade = codes "upgrade"
mode_text (other_mode text) = text

abbrev summary_for : PlanMode → Text
summary_for upgrade =
    codes "Upgrade only cached packages from the compiled local server setup profile"
summary_for mode = codes "Apply the exact compiled local server setup profile"

abbrev risks_for : PlanMode → List Text
risks_for upgrade =
    codes "Only already-cached approved packages may be upgraded"
    ∷ codes "No package download or distribution upgrade is permitted"
    ∷ []
risks_for mode = codes "Local packages and operating-system state may change" ∷ []

-- `append([]T(nil), values...)`: no element gives a nil slice.
abbrev pub copied {ℓ} : {A : Type ℓ} → List A → Slice A
copied [] = none
copied (x ∷ xs) = some (x ∷ xs)

abbrev pub plan_for : PlanInput → Plan
plan_for input = record {
  command_id = codes "setup." ++ mode_text input.mode;
  summary = summary_for input.mode;
  checks = copied (sort_stable check_less input.checks);
  changes = some (sort_stable change_less (all_changes input));
  risks = some (risks_for input.mode);
  requires_root = true;
  requires_force = false;
  requires_confirmation = true;
}

unfoldable pub build_setup_plan : PlanInput → Fallible Plan
unfolding require_complete require_compiled
build_setup_plan input = do
  require (known_mode input.mode) (failure "unsupported setup plan mode")
  require_complete input.checks
  require_compiled input.profile.packages input.cached_upgrades
  ok (plan_for input)

unfoldable pub plan_mode_for_path : List Text → Fallible PlanMode
plan_mode_for_path path =
    if eq_text (join path (codes " ")) (codes "setup apply")
    then ok apply
    else if eq_text (join path (codes " ")) (codes "setup upgrade")
    then ok upgrade
    else err (exit_error (pos exit_arguments) (failure "unsupported setup mutation command"))
