-- ===== src/ServerSetup/Checks/Run.antt =====
-- internal/serversetup/check.go: the run of all checks. `answers` has what the context answers, each time that it is asked, in
-- the order in which it is asked.
use ohinfra_plugins.Base.{
  ℕ, ◌+◌, Text, codes, List, [], ◌∷◌, ◌++◌, Option, none, some, Fallible, ok, err, Error, length,
}
use ohinfra_plugins.Protocol.Value.{interface, string, field, end_fields}
use ohinfra_plugins.Protocol.Types.{Check, StructuredError, Result, Tool}
use ohinfra_plugins.Disk.{Entry, Disk, Io, continue}
use ohinfra_plugins.Probe.Commands.{Spec, Output}
use ohinfra_plugins.ServerSetup.Profile.{Profile, Config}
use ohinfra_plugins.ServerSetup.Accounts.{AccountDatabase}
use ohinfra_plugins.ServerSetup.Checks.{fatal_context_failure}
use ohinfra_plugins.ServerSetup.Checks.Resources.{
  Finding, AccountFindings, check_packages, check_unit,
}
use ohinfra_plugins.ServerSetup.Checks.Files.{
  check_accounts, check_directory, check_managed_file, check_sysctl,
}
use ohinfra_plugins.ResultBuilder.Build.{Input, build}

-- The checks and failures that have been collected.
abbrev pub Findings : Type 0
Findings = List Check × List StructuredError

abbrev or_none : Option StructuredError → List StructuredError
or_none none = []
or_none (some e) = e ∷ []

abbrev pub collect : Finding → Findings → Findings
collect (c, f) (checks, failures) = (c ∷ checks, or_none f ++ failures)

abbrev pub and_more : Findings → Findings → Findings
and_more (a, e) (b, f) = (a ++ b, e ++ f)

abbrev pub unless_done : {A : Type 0} → Option Error → Io A → Io A
unless_done none next = next
unless_done (some e) next = λ d. (err e, d)

abbrev pub with_finding : Finding → Fallible Findings × Disk → Fallible Findings × Disk
with_finding f (ok rest, d) = (ok (collect f rest), d)
with_finding f (err e, d) = (err e, d)

module _ (answers : ℕ → Option Error) where
  -- The loops over directories, files and sysctls, which ask the context before each resource.
  unfoldable pub check_each : {A : Type 0} → (A → Disk → Finding × Disk) → ℕ → List A → Io Findings
  check_each check n [] = λ d. (ok ([], []), d)
  check_each check n (a ∷ rest) =
      unless_done (answers n)
        (λ d. let (f, d1) = check a d in with_finding f (check_each check (n + 1) rest d1))

  -- The loop over units, which asks it before the check, in the check and behind it.
  unfoldable pub check_each_unit :
      (Option Error → Text → Disk → Finding × Disk) → ℕ → List Text → Io Findings
  check_each_unit check n [] = λ d. (ok ([], []), d)
  check_each_unit check n (unit ∷ rest) = unless_done (answers n) (λ d.
      let (f, d1) = check (answers (n + 1)) unit d in
      unless_done (fatal_context_failure (answers (n + 2)) f.1)
        (λ d2. with_finding f (check_each_unit check (n + 3) rest d2)) d1)

abbrev pub of_packages : List Check × Option StructuredError → Findings
of_packages (checks, failure) = (checks, or_none failure)

abbrev pub of_accounts : AccountFindings → Findings
of_accounts a = (a.group_checks ++ a.user_checks, a.failures)

abbrev pub with_findings : Findings → Fallible Findings × Disk → Fallible Findings × Disk
with_findings first (ok rest, d) = (ok (and_more first rest), d)
with_findings first (err e, d) = (err e, d)

-- The findings so far, in front of those of a loop and of what follows it.
abbrev pub then_more : Io Findings → Io Findings → Io Findings
then_more first next = λ d. continue (λ f d1. with_findings f (next d1)) (first d)

-- `Checker`, with its parts that are functions, and the context of a run.
pub record Checker : Type 0 where
  pub root : Text
  pub run_program : Spec → Io Output
  pub host : Text
  pub now : ℕ
  pub tool : Tool
  pub identity : Text → Entry → Fallible (ℕ × ℕ)
  pub confine : Text → Text → Io (Text × Entry)
  pub answers : ℕ → Option Error
  pub digest : Text → Text
  pub error_text : Error → Text
  pub format_time : ℕ → Text

module _ (checker : Checker) where
  -- The loops, from the one over directories on.
  unfoldable pub check_resources : Profile → Config → AccountDatabase → Io Findings
  check_resources profile settings accounts =
      let e : Error → Text = checker.error_text in
      let files : ℕ = 4 + length profile.directories in
      let sysctls : ℕ = files + length profile.managed_files in
      let units : ℕ = sysctls + length profile.sysctls in
      then_more
        (check_each checker.answers
          (check_directory e checker.root checker.confine checker.identity accounts) 4
          profile.directories)
        (then_more
          (check_each checker.answers
            (check_managed_file e checker.root checker.digest checker.identity
              settings.managed_file_limit_bytes accounts)
            files profile.managed_files)
          (then_more
            (check_each checker.answers (check_sysctl e checker.root) sysctls profile.sysctls)
            (check_each_unit checker.answers (check_unit e checker.run_program) units
              profile.units)))

  unfoldable pub all_findings : Profile → Config → Io Findings
  all_findings profile settings = unless_done (checker.answers 0) (λ d.
      let (packages, d1) =
        check_packages checker.error_text checker.run_program (checker.answers 1) profile.packages
          d in
      unless_done (fatal_context_failure (checker.answers 2) packages.1)
        (λ d2.
          let (accounts, d3) =
            check_accounts checker.error_text checker.root profile.groups profile.users
              settings.account_file_limit_bytes d2 in
          unless_done (checker.answers 3)
            (λ d4. with_findings (of_packages packages) (
              with_findings (of_accounts accounts)
                (check_resources profile settings accounts.accounts d4)))
            d3)
        d1)

  abbrev pub input_from : Profile → Findings → Input
  input_from profile (checks, failures) = record {
    command = codes "setup check";
    tool = checker.tool;
    host = checker.host;
    started = some checker.now;
    now = checker.now;
    checks = some checks;
    data_map = some (field (codes "profile") (interface (string profile.id)) end_fields);
    changes = none;
    errors = some failures;
  }

  abbrev pub built_from : Profile → Fallible Findings × Disk → Fallible Result × Disk
  built_from profile (err e, d) = (err e, d)
  built_from profile (ok found, d) = (ok (build checker.format_time (input_from profile found)), d)

  -- `Run`
  unfoldable pub run : Profile → Config → Io Result
  run profile settings d = built_from profile (all_findings profile settings d)
