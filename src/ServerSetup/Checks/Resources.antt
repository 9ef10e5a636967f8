-- ===== src/ServerSetup/Checks/Resources.antt =====
-- internal/serversetup/check.go and metadata.go: the check of each kind of resource.
use ohinfra_plugins.Base.{
  ℕ, ◌%◌, ◌^◌, ◌*◌, Text, codes, eq_text, Bool, false, not, ◌&&◌, ◌||◌, List, [], ◌∷◌, ◌++◌, map,
  Option, none, some, Fallible, ok, err, Error, ◌==◌, ltb, leb, if◌then◌else◌, pos, trim_space,
  eq_int,
}
use ohinfra_plugins.Protocol.Types.{Check, StructuredError}
use ohinfra_plugins.Scan.{scan_lines, cut_at}
use ohinfra_plugins.Disk.{Disk, Io, ◌>>=◌, lift}
use ohinfra_plugins.Probe.Commands.{ProbeCommand, Spec, Output, prepare_run}
use ohinfra_plugins.ServerSetup.Profile.{GroupSpec, UserSpec}
use ohinfra_plugins.ServerSetup.Accounts.{Named, find, AccountEntry, AccountDatabase}
use ohinfra_plugins.ServerSetup.Checks.{
  inspection_failure, pass_check, warning_check, skipped_check, skipped_checks,
}

-- A check, with the failure of the inspection if there is one.
abbrev pub Finding : Type 0
Finding = Check × Option StructuredError

abbrev pub finished : Check → Finding
finished c = (c, none)

-- The lines of `dpkg-query`, the last line of a name first.
unfoldable pub installed_from : Named Bool → List (Fallible Text) → Fallible (Named Bool)
installed_from db [] = ok db
installed_from db (err e ∷ rest) = err e
installed_from db (ok line ∷ rest) = elim (cut_at 9 line) [
  | none ↦ installed_from db rest
  | some (name, status) ↦
      if eq_text name []
      then installed_from db rest
      else installed_from ((name, eq_text (trim_space status) (codes "installed")) ∷ db) rest
]

abbrev pub or_false : Option Bool → Bool
or_false none = false
or_false (some b) = b

abbrev pub check_package : Named Bool → Text → Check
check_package db name =
    if or_false (find name db)
    then pass_check (codes "package:" ++ name) (codes "package " ++ (name ++ codes " is installed"))
    else warning_check (codes "package:" ++ name)
        (codes "package " ++ (name ++ codes " is not installed"))

abbrev pub group_matches : GroupSpec → Option ℕ → Bool
group_matches group none = false
group_matches group (some id) = not (group.system && leb 1000 id)

abbrev pub check_group : Named ℕ → GroupSpec → Check
check_group groups group =
    if group_matches group (find group.name groups)
    then pass_check (codes "group:" ++ group.name)
        (codes "group " ++ (group.name ++ codes " exists"))
    else warning_check (codes "group:" ++ group.name)
        (codes "group " ++ (group.name ++ codes " does not match the compiled profile"))

abbrev pub user_matches : UserSpec → Option AccountEntry → Option ℕ → Bool
user_matches user (some entry) (some gid) =
    entry.primary_group == gid
    && (eq_text entry.home user.home
        && (eq_text entry.shell user.shell && (not user.system || ltb entry.id 1000)))
user_matches user _ _ = false

abbrev pub check_user : Named ℕ → Named AccountEntry → UserSpec → Check
check_user groups accounts user =
    if user_matches user (find user.name accounts) (find user.primary_group groups)
    then pass_check (codes "user:" ++ user.name)
        (codes "user " ++ (user.name ++ codes " matches the compiled profile"))
    else warning_check (codes "user:" ++ user.name)
        (codes "user " ++ (user.name ++ codes " does not match the compiled profile"))

abbrev pub parsed : {A : Type 0} → (Text → Fallible A) → Fallible Text → Fallible A
parsed parse (ok content) = parse content
parsed parse (err e) = err e

abbrev pub or_no_entries : {A : Type 0} → Fallible (Named A) → Named A
or_no_entries (ok db) = db
or_no_entries (err e) = []

-- What `checkAccounts` returns.
pub record AccountFindings : Type 0 where
  pub group_checks : List Check
  pub user_checks : List Check
  pub accounts : AccountDatabase
  pub failures : List StructuredError

-- `matchesCompiledIdentity`, for the owner that is read from the file.
unfoldable pub matches_identity : AccountDatabase → Text → Text → Fallible (ℕ × ℕ) → Fallible Bool
matches_identity accounts owner group actual = elim (find owner accounts.users) [
  | none ↦ ok false
  | some user ↦ elim (find group accounts.groups) [
    | none ↦ ok false
    | some gid ↦ elim actual [
      | err e ↦ err e
      | ok (u, g) ↦ ok (u == user.id % 2 ^ 32 && g == gid % 2 ^ 32)
    ]
  ]
]

abbrev pub dots_to_slashes : Text → Text
dots_to_slashes [] = []
dots_to_slashes (c ∷ s) = (if c == b'.' then b'/' else c) ∷ dots_to_slashes s

abbrev pub package_query : List Text → ProbeCommand
package_query packages = record {
  program = codes "dpkg-query";
  arguments =
      codes "-W" ∷ codes "-f=${binary:Package}\t${db:Status-Status}\n" ∷ codes "--" ∷ packages;
  stdout_limit = pos (2 ^ 20);
  stderr_limit = pos (64 * 2 ^ 10);
}

abbrev pub unit_query : Text → ProbeCommand
unit_query unit = record {
  program = codes "systemctl";
  arguments = codes "is-enabled" ∷ codes "--" ∷ unit ∷ [];
  stdout_limit = pos (64 * 2 ^ 10);
  stderr_limit = pos (64 * 2 ^ 10);
}

module _ (error_text : Error → Text) (run_program : Spec → Io Output) where
  -- `Run` of `probe.Local`, with the answer of the context.
  abbrev pub run_command : Option Error → ProbeCommand → Io Output
  run_command answer command = do spec ← lift (prepare_run answer command); run_program spec

  abbrev pub package_findings :
      List Text → Fallible (Named Bool) → List Check × Option StructuredError
  package_findings packages (ok db) = (map (check_package db) packages, none)
  package_findings packages (err e) = (
    skipped_checks (codes "package:") packages (codes "package state could not be inspected"),
    some (inspection_failure error_text (codes "dpkg-query") (codes "package_output_invalid") e),
  )

  abbrev pub after_query :
      List Text → Fallible Output × Disk → (List Check × Option StructuredError) × Disk
  after_query packages (ok output, d) =
      (package_findings packages (installed_from [] (scan_lines output.stdout)), d)
  after_query packages (err e, d) = (
    (
      skipped_checks (codes "package:") packages (codes "package state could not be inspected"),
      some (
          inspection_failure error_text (codes "dpkg-query") (codes "package_inspection_failed") e),
    ),
    d,
  )

  -- `checkPackages`
  unfoldable pub check_packages :
      Option Error → List Text → Disk → (List Check × Option StructuredError) × Disk
  check_packages answer packages d =
      after_query packages (run_command answer (package_query packages) d)

  abbrev pub after_enabled : Text → Fallible Output × Disk → Finding × Disk
  after_enabled unit (err e, d) = (
    (
      skipped_check (codes "unit:" ++ unit) (codes "unit state could not be inspected"),
      some (inspection_failure error_text (codes "systemctl") (codes "unit_inspection_failed") e),
    ),
    d,
  )
  after_enabled unit (ok output, d) =
      let state = trim_space output.stdout in
      (
        finished (
            if eq_int output.exit_code (pos 0)
              && (eq_text state (codes "enabled")
                  || (eq_text state (codes "static") || eq_text state (codes "indirect")))
            then pass_check (codes "unit:" ++ unit) (codes "unit is enabled")
            else warning_check (codes "unit:" ++ unit) (codes "unit is not enabled")),
        d,
      )

  -- `checkUnit`
  unfoldable pub check_unit : Option Error → Text → Disk → Finding × Disk
  check_unit answer unit d = after_enabled unit (run_command answer (unit_query unit) d)
