-- ===== src/ServerSetup/Profile.antt =====
-- internal/serversetup/profile.go and config.go: the compiled profiles, and the choice of one.
-- `digest` is the hex SHA-256 of a text (crypto/sha256 and encoding/hex).
use ohinfra_plugins.Base.{
  ℕ, ◌^◌, ◌*◌, Text, codes, eq_text, Bool, true, not, ◌&&◌, List, [], ◌∷◌, ◌++◌, Option, none, some,
  if◌then◌else◌, Fallible, Checked, ok, err, failure, message, wrapped, require, ◌>>=◌, ◌>>◌, ℤ,
  pos, within,
}

pub record GroupSpec : Type 0 where
  pub name : Text
  pub system : Bool

pub record UserSpec : Type 0 where
  pub name : Text
  pub primary_group : Text
  pub home : Text
  pub shell : Text
  pub system : Bool

pub record DirectorySpec : Type 0 where
  pub path : Text
  pub mode : ℕ
  pub owner : Text
  pub group : Text

pub record ManagedFileSpec : Type 0 where
  pub path : Text
  pub mode : ℕ
  pub owner : Text
  pub group : Text
  pub content : Text
  pub sha256 : Text

pub record SysctlSpec : Type 0 where
  pub key : Text
  pub value : Text

pub record Profile : Type 0 where
  pub id : Text
  pub platform_id : Text
  pub version_id : Text
  pub packages : List Text
  pub groups : List GroupSpec
  pub users : List UserSpec
  pub directories : List DirectorySpec
  pub managed_files : List ManagedFileSpec
  pub sysctls : List SysctlSpec
  pub units : List Text

-- `platform.Info`
pub record Info : Type 0 where
  pub id : Text
  pub version_id : Text
  pub supported : Bool

abbrev pub platforms : List (Text × Text)
platforms =
    (codes "debian", codes "10")
    ∷ (codes "debian", codes "11")
    ∷ (codes "debian", codes "12")
    ∷ (codes "debian", codes "13")
    ∷ (codes "ubuntu", codes "20.04")
    ∷ (codes "ubuntu", codes "22.04")
    ∷ (codes "ubuntu", codes "24.04")
    ∷ []

abbrev pub profile_id : Text → Text → Text
profile_id platform version = platform ++ (codes "-" ++ version)

abbrev state_content : Text → Text
state_content id = codes "schema_version: 1" ++ (10 ∷ (codes "profile: " ++ (id ++ 10 ∷ [])))

abbrev directory : Text → ℕ → Text → Text → DirectorySpec
directory path mode owner group = record { path = path; mode = mode; owner = owner; group = group }

module _ (digest : Text → Text) where
  unfoldable pub build_profile : Text × Text → Profile
  build_profile (platform, version) = record {
    id = profile_id platform version;
    platform_id = platform;
    version_id = version;
    packages = codes "ca-certificates" ∷ codes "curl" ∷ codes "jq" ∷ [];
    groups = record { name = codes "ohtools"; system = true } ∷ [];
    users =
        record {
          name = codes "ohtools";
          primary_group = codes "ohtools";
          home = codes "/var/lib/ohtools";
          shell = codes "/usr/sbin/nologin";
          system = true;
        }
        ∷ [];
    directories =
        directory (codes "/etc/ohtools") 0o755 (codes "root") (codes "root")
        ∷ directory (codes "/etc/ohtools/plugins") 0o755 (codes "root") (codes "root")
        ∷ directory (codes "/var/lib/ohtools") 0o750 (codes "ohtools") (codes "ohtools")
        ∷ directory (codes "/var/log/ohtools") 0o750 (codes "root") (codes "ohtools")
        ∷ [];
    managed_files =
        record {
          path = codes "/etc/ohtools/setup-state.yaml";
          mode = 0o644;
          owner = codes "root";
          group = codes "root";
          content = state_content (profile_id platform version);
          sha256 = digest (state_content (profile_id platform version));
        }
        ∷ [];
    sysctls =
        record { key = codes "fs.protected_hardlinks"; value = codes "1" }
        ∷ record { key = codes "fs.protected_symlinks"; value = codes "1" }
        ∷ [];
    units = codes "systemd-timesyncd.service" ∷ [];
  }

  find_profile : List (Text × Text) → Text → Option Profile
  find_profile [] id = none
  find_profile ((platform, version) ∷ rest) id =
      if eq_text (profile_id platform version) id
      then some (build_profile (platform, version))
      else find_profile rest id

  unfoldable pub profile_by_id : Text → Fallible Profile
  unfolding find_profile
  profile_by_id id = elim (find_profile platforms id) [
    | none ↦ err (message "unknown compiled setup profile %q" (id ∷ []))
    | some p ↦ ok p
  ]

  unfoldable pub profile_for : Info → Fallible Profile
  unfolding profile_by_id
  profile_for info =
      if info.supported
      then profile_by_id (profile_id info.id info.version_id)
      else err (
          message
            "unsupported platform %s %s; use an exact Debian 10-13 or Ubuntu 20.04/22.04/24.04 profile"
            (info.id ∷ info.version_id ∷ []))

pub record Config : Type 0 where
  pub profile : Text
  pub managed_file_limit_bytes : ℤ
  pub account_file_limit_bytes : ℤ

abbrev pub min_inspection_bytes : ℕ
min_inspection_bytes = 4 * 2 ^ 10

abbrev pub max_managed_bytes : ℕ
max_managed_bytes = 8 * 2 ^ 20

abbrev pub max_account_bytes : ℕ
max_account_bytes = 2 ^ 20

abbrev pub default_config : Config
default_config = record {
  profile = codes "auto";
  managed_file_limit_bytes = pos (2 ^ 20);
  account_file_limit_bytes = pos (256 * 2 ^ 10);
}

unfoldable pub validate_config : Config → Checked
validate_config settings = do
  require (not (eq_text settings.profile []))
      (failure "server-setup-base config profile must not be empty")
  require (within min_inspection_bytes max_managed_bytes settings.managed_file_limit_bytes)
      (failure "server-setup-base config managed_file_limit_bytes must be within %d..%d")
  require (within min_inspection_bytes max_account_bytes settings.account_file_limit_bytes)
      (failure "server-setup-base config account_file_limit_bytes must be within %d..%d")

abbrev with_prefix {ℓ} : {A : Type ℓ} → Fallible A → Fallible A
with_prefix (ok a) = ok a
with_prefix (err e) = err (wrapped "server-setup-base config: %w" e)

unfoldable pub resolve_profile : (Text → Text) → Config → Info → Fallible Profile
unfolding validate_config profile_for
resolve_profile digest settings detected = do
  validate_config settings
  if eq_text settings.profile (codes "auto") then profile_for digest detected else do
    profile ← with_prefix (profile_by_id digest settings.profile)
    require
        (eq_text profile.platform_id detected.id
          && (eq_text profile.version_id detected.version_id && detected.supported))
        (message "server-setup-base config profile %q does not match detected platform %s %s"
          (settings.profile ∷ detected.id ∷ detected.version_id ∷ []))
    ok profile
