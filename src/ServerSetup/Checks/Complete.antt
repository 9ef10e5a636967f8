-- ===== src/ServerSetup/Checks/Complete.antt =====
-- The checks of a run: one for each resource of the profile.
use mathlib.Core.Path.{subst}
use ohinfra_plugins.Base.{
  ◌≡◌, ◌∙◌, ap, Text, codes, List, ◌++◌, map, Fallible, ok, err, sort_stable, map-sort_stable,
  lt_text, arith,
}
use ohinfra_plugins.Protocol.Types.{Check, Result, elements}
use ohinfra_plugins.Disk.{Disk}
use ohinfra_plugins.ServerSetup.Profile.{
  Profile, Config, DirectorySpec, ManagedFileSpec, SysctlSpec,
}
use ohinfra_plugins.ServerSetup.Accounts.{AccountDatabase}
use ohinfra_plugins.ServerSetup.Checks.{fatal_context_failure}
use ohinfra_plugins.ServerSetup.Checks.Run.{
  Findings, Checker, check_resources, all_findings, input_from, built_from, run,
}
use ohinfra_plugins.ResultBuilder.Build.{Input, build}
use ohinfra_plugins.ResultBuilder.Build.Order.{ids, IsBuilt, build-IsBuilt}
use ohinfra_plugins.ServerSetup.Checks.Subject.{sysctl-IsOn, directory-IsOn, file-IsOn, unit-IsOn}
use ohinfra_plugins.ServerSetup.Checks.Covering.{
  Covers, with_findings-Covers, unless_done-Covers, then_more-Covers, check_each-Covers,
  check_each_unit-Covers, packages-ids, accounts-ids, group_name, user_name,
}

-- The name of every resource of a profile, as its check has it.
abbrev pub resource_names : Profile → List Text
resource_names profile =
    map (λ p. codes "package:" ++ p) profile.packages
    ++ ((map group_name profile.groups ++ map user_name profile.users)
        ++ (map (λ (s : DirectorySpec). codes "directory:" ++ s.path) profile.directories
            ++ (map (λ (s : ManagedFileSpec). codes "file:" ++ s.path) profile.managed_files
                ++ (map (λ (s : SysctlSpec). codes "sysctl:" ++ s.key) profile.sysctls
                    ++ map (λ u. codes "unit:" ++ u) profile.units))))

ok-inj : {A : Type 0} {a b : A} → ok a ≡ ok b → a ≡ b
ok-inj h = ground arith

module _ (checker : Checker) (profile : Profile) (settings : Config) where
  resources-Covers :
      (accounts : AccountDatabase) (d : Disk)
      → Covers
          (map (λ (s : DirectorySpec). codes "directory:" ++ s.path) profile.directories
            ++ (map (λ (s : ManagedFileSpec). codes "file:" ++ s.path) profile.managed_files
                ++ (map (λ (s : SysctlSpec). codes "sysctl:" ++ s.key) profile.sysctls
                    ++ map (λ u. codes "unit:" ++ u) profile.units)))
          (check_resources checker profile settings accounts d)
  unfolding check_resources
  resources-Covers accounts d =
      then_more-Covers _ _ _ _ d
        (λ d1. check_each-Covers checker.answers _ _ _ profile.directories d1 (λ s d.
          directory-IsOn checker.error_text checker.root checker.confine checker.identity accounts s
            d))
        (λ d1.
          then_more-Covers _ _ _ _ d1
            (λ d2. check_each-Covers checker.answers _ _ _ profile.managed_files d2 (λ s d.
              file-IsOn checker.error_text checker.root checker.digest checker.identity accounts s _
                d))
            (λ d2.
              then_more-Covers _ _ _ _ d2
                (λ d3.
                  check_each-Covers checker.answers _ _ _ profile.sysctls d3
                    (λ s d. sysctl-IsOn checker.error_text checker.root s d))
                (λ d3.
                  check_each_unit-Covers checker.answers _ _ profile.units d3
                    (λ e u d. unit-IsOn checker.error_text checker.run_program e u d))))

  all_findings-Covers :
      (d : Disk) → Covers (resource_names profile) (all_findings checker profile settings d)
  unfolding all_findings
  all_findings-Covers d = unless_done-Covers _ (checker.answers 0) _ d (
      unless_done-Covers _ (fatal_context_failure (checker.answers 2) _) _ _ (
        unless_done-Covers _ (checker.answers 3) _ _ (
          with_findings-Covers _ _ _ _
            (packages-ids checker.error_text checker.run_program profile.packages
              (checker.answers 1) d)
            (with_findings-Covers _ _ _ _
              (accounts-ids checker.error_text checker.root profile.groups profile.users
                settings.account_file_limit_bytes _)
              (resources-Covers _ _)))))

  built-names :
      (r : Fallible Findings × Disk) (result : Result)
      → Covers (resource_names profile) r
      → (built_from checker profile r).0 ≡ ok result
      → ids (elements result.checks) ≡ sort_stable lt_text (resource_names profile)
  built-names (err e, d) result h k = ground arith
  built-names (ok (checks, failures), d) result h k =
      let input : Input = input_from checker profile (checks, failures) in
      let built : IsBuilt input (build checker.format_time input) =
        build-IsBuilt checker.format_time input in
      subst (λ (r : Result). ids (elements r.checks) ≡ sort_stable lt_text (resource_names profile))
        (ok-inj k)
        (built.names
          ∙ (map-sort_stable lt_text (λ (c : Check). c.id) checks ∙ ap (sort_stable lt_text) h))

-- If a run of the checks returns a result, the result has exactly one check for each resource of the profile, in the order of
-- their names, whatever the inspections found.
pub run-names :
    (checker : Checker) (profile : Profile) (settings : Config) (d : Disk) (result : Result)
    → (run checker profile settings d).0 ≡ ok result
    → ids (elements result.checks) ≡ sort_stable lt_text (resource_names profile)
unfolding run
run-names checker profile settings d result h =
    built-names checker profile settings (all_findings checker profile settings d) result
      (all_findings-Covers checker profile settings d) h
