-- ===== src/ServerSetup/Checks/Passing.antt =====
-- What it takes for a managed file to pass its check.
use ohinfra_plugins.Base.{◌≡◌, ℕ, ◌%◌, Text, some, Fallible, ok, Error, ℤ, pos, ◌^◌, In}
use ohinfra_plugins.Protocol.Types.{Status}
use ohinfra_plugins.Paths.{rooted_path, trim_slash}
use ohinfra_plugins.Disk.{Entry, Entries, Disk}
use ohinfra_plugins.Probe.Reading.{IsReading}
use ohinfra_plugins.ServerSetup.Profile.{ManagedFileSpec}
use ohinfra_plugins.ServerSetup.Accounts.{AccountDatabase, AccountEntry}
use ohinfra_plugins.ServerSetup.Checks.Resources.{Finding}

abbrev pub HasStatus : Status → Finding × Disk → Type 0
HasStatus s (f, d) = f.0.status ≡ s

module _ (error_text : Error → Text) (root : Text) (digest : Text → Text)
    (identity : Text → Entry → Fallible (ℕ × ℕ)) (accounts : AccountDatabase)
    (spec : ManagedFileSpec) where
  -- The file's owner and group are those that the databases have under the names in the profile, as
  -- 32-bit numbers.
  abbrev pub IsOwned : Text → Entry → Type 0
  IsOwned path info =
      (user : AccountEntry) × (gid : ℕ) × In (spec.owner, user) accounts.users
      × In (spec.group, gid) accounts.groups
      × (identity path info ≡ ok (user.id % 2 ^ 32, gid % 2 ^ 32))

  -- The file's content, its permissions and its owner are those of the profile.
  abbrev pub IsAsCompiled : Text → Text → Entry → Type 0
  IsAsCompiled content path info =
      (digest content ≡ spec.sha256) × (info.mode % 512 ≡ spec.mode) × IsOwned path info

  abbrev pub IsCurrent : Entries → ℤ → Type 0
  IsCurrent w limit =
      (content path : Text) × (info : Entry) × (n : ℕ) × (limit ≡ pos n)
      × IsReading w root (trim_slash spec.path) n content
      × (rooted_path root spec.path ≡ ok path)
      × (w path ≡ some info)
      × IsAsCompiled content path info
