-- ===== src/ServerSetup/Checks/Subject.antt =====
-- Each check is on its resource, whatever it finds.
use ohinfra_plugins.Base.{
  ◌≡◌, refl, ap, ℕ, Text, codes, Bool, true, false, List, [], ◌∷◌, ◌++◌, map, Option, Fallible, ok,
  err, Error, if◌then◌else◌, ℤ,
}
use ohinfra_plugins.Protocol.Types.{Check}
use ohinfra_plugins.Disk.{Entry, Disk, Io, lstat}
use ohinfra_plugins.Paths.{rooted_path, trim_slash}
use ohinfra_plugins.Probe.{read, is_not_exist, is_symlink_error}
use ohinfra_plugins.Probe.Commands.{Spec, Output}
use ohinfra_plugins.ServerSetup.Profile.{DirectorySpec, ManagedFileSpec, SysctlSpec}
use ohinfra_plugins.ServerSetup.Accounts.{AccountDatabase}
use ohinfra_plugins.ServerSetup.Checks.{skipped_checks}
use ohinfra_plugins.ServerSetup.Checks.Resources.{
  Finding, after_enabled, run_command, unit_query, check_unit,
}
use ohinfra_plugins.ServerSetup.Checks.Files.{
  directory_identity, directory_finding, file_identity, after_lstat, after_rooted, after_read,
  check_managed_file, check_directory, sysctl_finding, check_sysctl,
}
use ohinfra_plugins.ResultBuilder.Build.Order.{ids}

abbrev pub IsOn : Text → Finding × Disk → Type 0
IsOn name (f, d) = f.0.id ≡ name

if-id :
    (b : Bool) (t : Text) (f g : Finding) → f.0.id ≡ t → g.0.id ≡ t → (if b then f else g).0.id ≡ t
if-id true t f g h k = h
if-id false t f g h k = k

pub if_check-id :
    (b : Bool) (t : Text) (f g : Check) → f.id ≡ t → g.id ≡ t → (if b then f else g).id ≡ t
if_check-id true t f g h k = h
if_check-id false t f g h k = k

module _ (error_text : Error → Text) (root : Text) where
  pub sysctl-IsOn :
      (spec : SysctlSpec) (d : Disk)
      → IsOn (codes "sysctl:" ++ spec.key) (check_sysctl error_text root spec d)
  unfolding check_sysctl
  sysctl-IsOn spec d = by_content (read root _ _ d).0
    where
      by_content :
          (r : Fallible Text)
          → (sysctl_finding error_text root spec r).0.id ≡ codes "sysctl:" ++ spec.key
      by_content (err e) = if-id (is_not_exist e) _ _ _ refl refl
      by_content (ok content) = if-id _ _ _ _ refl refl

  directory_identity-id :
      (spec : DirectorySpec) (r : Fallible Bool)
      → (directory_identity error_text root spec r).0.id ≡ codes "directory:" ++ spec.path
  directory_identity-id spec (err e) = refl
  directory_identity-id spec (ok true) = refl
  directory_identity-id spec (ok false) = refl

  directory_finding-id :
      (identity : Text → Entry → Fallible (ℕ × ℕ)) (accounts : AccountDatabase)
      (spec : DirectorySpec) (r : Fallible (Text × Entry))
      → (directory_finding error_text root identity accounts spec r).0.id
        ≡ codes "directory:" ++ spec.path
  directory_finding-id identity accounts spec (err e) =
      if-id (is_not_exist e) _ _ _ refl (if-id (is_symlink_error e) _ _ _ refl refl)
  directory_finding-id identity accounts spec (ok (path, info)) =
      if-id _ _ _ _ (directory_identity-id spec _) refl

  pub directory-IsOn :
      (confine : Text → Text → Io (Text × Entry)) (identity : Text → Entry → Fallible (ℕ × ℕ))
      (accounts : AccountDatabase) (spec : DirectorySpec) (d : Disk)
      → IsOn
          (codes "directory:" ++ spec.path)
          (check_directory error_text root confine identity accounts spec d)
  unfolding check_directory
  directory-IsOn confine identity accounts spec d =
      directory_finding-id identity accounts spec (confine root spec.path d).0

  file_identity-id :
      (spec : ManagedFileSpec) (r : Fallible Bool)
      → (file_identity error_text root spec r).0.id ≡ codes "file:" ++ spec.path
  file_identity-id spec (err e) = refl
  file_identity-id spec (ok true) = refl
  file_identity-id spec (ok false) = refl

  module _ (digest : Text → Text) (identity : Text → Entry → Fallible (ℕ × ℕ))
      (accounts : AccountDatabase) (spec : ManagedFileSpec) where
    lstat-IsOn :
        (content path : Text) (r : Fallible Entry × Disk)
        → IsOn
            (codes "file:" ++ spec.path)
            (after_lstat error_text root digest identity accounts spec content path r)
    lstat-IsOn content path (err e, d) = refl
    lstat-IsOn content path (ok info, d) = if-id _ _ _ _ (file_identity-id spec _) refl

    rooted-IsOn :
        (content : Text) (r : Fallible Text) (d : Disk)
        → IsOn
            (codes "file:" ++ spec.path)
            (after_rooted error_text root digest identity accounts spec content r d)
    rooted-IsOn content (err e) d = refl
    rooted-IsOn content (ok path) d = lstat-IsOn content path (lstat path d)

    read-IsOn :
        (r : Fallible Text × Disk)
        → IsOn
            (codes "file:" ++ spec.path)
            (after_read error_text root digest identity accounts spec r)
    read-IsOn (err e, d) = if-id (is_not_exist e) _ _ _ refl refl
    read-IsOn (ok content, d) = rooted-IsOn content (rooted_path root spec.path) d

    pub file-IsOn :
        (limit : ℤ) (d : Disk)
        → IsOn
            (codes "file:" ++ spec.path)
            (check_managed_file error_text root digest identity limit accounts spec d)
    unfolding check_managed_file
    file-IsOn limit d = read-IsOn (read root (trim_slash spec.path) limit d)

pub unit-IsOn :
    (error_text : Error → Text) (run_program : Spec → Io Output) (e : Option Error) (u : Text)
    (d : Disk)
    → IsOn (codes "unit:" ++ u) (check_unit error_text run_program e u d)
unfolding check_unit
unit-IsOn error_text run_program e u d =
    by_output (run_command error_text run_program e (unit_query u) d)
  where
    by_output :
        (r : Fallible Output × Disk)
        → IsOn (codes "unit:" ++ u) (after_enabled error_text run_program u r)
    by_output (ok output, d) = if_check-id _ _ _ _ refl refl
    by_output (err e, d) = refl

pub skipped_checks-ids :
    (prefix : Text) (values : List Text) (summary : Text)
    → ids (skipped_checks prefix values summary) ≡ map (λ v. prefix ++ v) values
unfolding skipped_checks
skipped_checks-ids prefix [] summary = refl
skipped_checks-ids prefix (v ∷ values) summary =
    ap (λ l. (prefix ++ v) ∷ l) (skipped_checks-ids prefix values summary)

pub map-ids :
    {A : Type 0} (check : A → Check) (name : A → Text) (l : List A)
    → ((a : A) → (check a).id ≡ name a)
    → ids (map check l) ≡ map name l
map-ids check name [] h = refl
map-ids check name (a ∷ l) h = rw (h a, map-ids check name l h) refl
