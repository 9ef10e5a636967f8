-- ===== src/ServerSetup/Checks/Files.antt =====
-- internal/serversetup/check.go: the checks that read files.
use ohinfra_plugins.Base.{
  ℕ, ◌%◌, ◌^◌, ◌*◌, Text, codes, eq_text, Bool, true, false, ◌&&◌, List, [], ◌∷◌, ◌++◌, map, some,
  Fallible, ok, err, Error, ◌==◌, if◌then◌else◌, ℤ, pos, trim_space,
}
use ohinfra_plugins.Protocol.Types.{Check, StructuredError}
use ohinfra_plugins.Paths.{rooted_path, trim_slash}
use ohinfra_plugins.Disk.{Entry, Disk, Io, lstat}
use ohinfra_plugins.Probe.{read, is_not_exist, is_symlink_error, is_directory}
use ohinfra_plugins.ServerSetup.Profile.{
  GroupSpec, UserSpec, DirectorySpec, ManagedFileSpec, SysctlSpec,
}
use ohinfra_plugins.ServerSetup.Accounts.{
  Named, AccountEntry, AccountDatabase, parse_groups, parse_passwd,
}
use ohinfra_plugins.ServerSetup.Checks.{
  inspection_failure, pass_check, warning_check, skipped_check, skipped_checks,
}
use ohinfra_plugins.ServerSetup.Checks.Resources.{
  Finding, finished, check_group, check_user, parsed, or_no_entries, AccountFindings,
  matches_identity, dots_to_slashes,
}

abbrev pub names_of : {A : Type 0} → (A → Text) → List A → List Text
names_of name l = map name l

module _ (error_text : Error → Text) (root : Text) where
  abbrev pub group_findings :
      List GroupSpec → Fallible (Named ℕ) → List Check × List StructuredError
  group_findings groups (ok db) = (map (check_group db) groups, [])
  group_findings groups (err e) = (
    skipped_checks (codes "group:") (names_of (λ (g : GroupSpec). g.name) groups)
        (codes "group could not be inspected"),
    inspection_failure error_text (codes "/etc/group") (codes "group_inspection_failed") e ∷ [],
  )

  abbrev pub user_findings :
      List UserSpec → Named ℕ → Fallible (Named AccountEntry) → List Check × List StructuredError
  user_findings users groups (ok db) = (map (check_user groups db) users, [])
  user_findings users groups (err e) = (
    skipped_checks (codes "user:") (names_of (λ (u : UserSpec). u.name) users)
        (codes "user could not be inspected"),
    inspection_failure error_text (codes "/etc/passwd") (codes "user_inspection_failed") e ∷ [],
  )

  abbrev account_findings :
      List GroupSpec
      → List UserSpec
      → Fallible (Named ℕ)
      → Fallible (Named AccountEntry)
      → AccountFindings
  account_findings groups users group_db passwd_db =
      let of_groups : List Check × List StructuredError = group_findings groups group_db in
      let of_users : List Check × List StructuredError =
        user_findings users (or_no_entries group_db) passwd_db in
      record {
        group_checks = of_groups.0;
        user_checks = of_users.0;
        accounts = record { groups = or_no_entries group_db; users = or_no_entries passwd_db };
        failures = of_groups.1 ++ of_users.1;
      }

  -- `checkAccounts`: both files are read, then each is parsed.
  unfoldable pub check_accounts : List GroupSpec → List UserSpec → ℤ → Disk → AccountFindings × Disk
  check_accounts groups users limit d =
      let (group_data, d1) = read root (codes "etc/group") limit d in
      let (passwd_data, d2) = read root (codes "etc/passwd") limit d1 in
      (
        account_findings groups users (parsed parse_groups group_data)
            (parsed parse_passwd passwd_data),
        d2,
      )

  abbrev skipped_with : Text → Text → Text → Text → Error → Finding
  skipped_with id summary dependency code e =
      (skipped_check id summary, some (inspection_failure error_text dependency code e))

  abbrev pub directory_identity : DirectorySpec → Fallible Bool → Finding
  directory_identity spec (err e) =
      skipped_with (codes "directory:" ++ spec.path)
        (codes "directory ownership could not be inspected") spec.path
        (codes "directory_identity_inspection_failed") e
  directory_identity spec (ok false) = finished (
      warning_check (codes "directory:" ++ spec.path)
        (codes "directory owner or group does not match the compiled profile"))
  directory_identity spec (ok true) = finished (
      pass_check (codes "directory:" ++ spec.path) (codes "directory matches the compiled profile"))

  abbrev pub directory_finding :
      (Text → Entry → Fallible (ℕ × ℕ))
      → AccountDatabase
      → DirectorySpec
      → Fallible (Text × Entry)
      → Finding
  directory_finding identity accounts spec (err e) =
      if is_not_exist e
      then finished (warning_check (codes "directory:" ++ spec.path) (codes "directory is missing"))
      else if is_symlink_error e
      then finished (
          warning_check (codes "directory:" ++ spec.path)
            (codes "directory path contains a symbolic link"))
      else skipped_with (codes "directory:" ++ spec.path) (codes "directory could not be inspected")
          spec.path (codes "directory_inspection_failed") e
  directory_finding identity accounts spec (ok (path, info)) =
      if is_directory info && info.mode % 512 == spec.mode
      then directory_identity spec
          (matches_identity accounts spec.owner spec.group (identity path info))
      else finished (
          warning_check (codes "directory:" ++ spec.path)
            (codes "directory type or mode does not match the compiled profile"))

  -- `checkDirectory`, for the confinement and the reader of the owner that the checker has.
  unfoldable pub check_directory :
      (Text → Text → Io (Text × Entry))
      → (Text → Entry → Fallible (ℕ × ℕ))
      → AccountDatabase
      → DirectorySpec
      → Disk
      → Finding × Disk
  check_directory confine identity accounts spec d =
      let (found, d1) = confine root spec.path d in
      (directory_finding identity accounts spec found, d1)

  abbrev pub file_identity : ManagedFileSpec → Fallible Bool → Finding
  file_identity spec (err e) =
      skipped_with (codes "file:" ++ spec.path)
        (codes "managed file ownership could not be inspected") spec.path
        (codes "managed_file_identity_inspection_failed") e
  file_identity spec (ok false) = finished (
      warning_check (codes "file:" ++ spec.path)
        (codes "managed file owner or group does not match the compiled profile"))
  file_identity spec (ok true) =
      finished (
        pass_check (codes "file:" ++ spec.path) (codes "managed file matches the compiled profile"))

  module _ (digest : Text → Text) (identity : Text → Entry → Fallible (ℕ × ℕ)) where
    abbrev pub file_finding : AccountDatabase → ManagedFileSpec → Text → Text → Entry → Finding
    file_finding accounts spec content path info =
        if eq_text (digest content) spec.sha256 && info.mode % 512 == spec.mode
        then file_identity spec
            (matches_identity accounts spec.owner spec.group (identity path info))
        else finished (
            warning_check (codes "file:" ++ spec.path)
              (codes "managed file digest or mode does not match the compiled profile"))

    abbrev pub after_lstat :
        AccountDatabase → ManagedFileSpec → Text → Text → Fallible Entry × Disk → Finding × Disk
    after_lstat accounts spec content path (ok info, d) =
        (file_finding accounts spec content path info, d)
    after_lstat accounts spec content path (err e, d) = (
      skipped_with (codes "file:" ++ spec.path) (codes "managed file could not be inspected")
          spec.path (codes "managed_file_inspection_failed") e,
      d,
    )

    abbrev pub after_rooted :
        AccountDatabase → ManagedFileSpec → Text → Fallible Text → Disk → Finding × Disk
    after_rooted accounts spec content (ok path) d =
        after_lstat accounts spec content path (lstat path d)
    after_rooted accounts spec content (err e) d = (
      skipped_with (codes "file:" ++ spec.path) (codes "managed file could not be inspected")
          spec.path (codes "managed_file_path_invalid") e,
      d,
    )

    abbrev pub after_read :
        AccountDatabase → ManagedFileSpec → Fallible Text × Disk → Finding × Disk
    after_read accounts spec (ok content, d) =
        after_rooted accounts spec content (rooted_path root spec.path) d
    after_read accounts spec (err e, d) = (
      if is_not_exist e
          then finished
              (warning_check (codes "file:" ++ spec.path) (codes "managed file is missing"))
          else skipped_with (codes "file:" ++ spec.path)
              (codes "managed file could not be inspected") spec.path
              (codes "managed_file_inspection_failed") e,
      d,
    )

    -- `checkManagedFile`
    unfoldable pub check_managed_file :
        ℤ → AccountDatabase → ManagedFileSpec → Disk → Finding × Disk
    check_managed_file limit accounts spec d =
        after_read accounts spec (read root (trim_slash spec.path) limit d)

  abbrev pub sysctl_finding : SysctlSpec → Fallible Text → Finding
  sysctl_finding spec (err e) =
      if is_not_exist e
      then finished
          (warning_check (codes "sysctl:" ++ spec.key) (codes "sysctl key is unavailable"))
      else skipped_with (codes "sysctl:" ++ spec.key) (codes "sysctl value could not be inspected")
          spec.key (codes "sysctl_inspection_failed") e
  sysctl_finding spec (ok content) =
      if eq_text (trim_space content) spec.value
      then finished (
          pass_check (codes "sysctl:" ++ spec.key)
            (codes "sysctl value matches the compiled profile"))
      else finished (
          warning_check (codes "sysctl:" ++ spec.key)
            (codes "sysctl value does not match the compiled profile"))

  -- `checkSysctl`
  unfoldable pub check_sysctl : SysctlSpec → Disk → Finding × Disk
  check_sysctl spec d =
      let (content, d1) =
        read root (codes "proc/sys/" ++ dots_to_slashes spec.key) (pos (4 * 2 ^ 10)) d in
      (sysctl_finding spec content, d1)
