-- ===== src/ServerSetup/Atomic.antt =====
-- internal/serversetup/atomic.go, with the adapters of transaction.go (defaultMutationFiles): managed
-- files that are replaced in one step and can be restored. Names of temporary files, and the identity
-- and the file mode that the system gives to what it creates, are parameters.
pub mod Temporary
pub mod Preparing
pub mod Replacing
pub mod Restoring
pub mod Rollback
use ohinfra_plugins.Base.{
  ℕ, ◌^◌, ◌%◌, Text, codes, eq_text, Bool, true, false, List, [], ◌∷◌, Option, none, some, Fallible,
  ok, err, Error, failure, wrapped, if◌then◌else◌, pos, String,
}
use ohinfra_plugins.Paths.{dir, rooted_path, starts_with}
use ohinfra_plugins.Disk.{
  regular, directory, Entry, Entries, Disk, Io, ◌>>=◌, ◌>>◌, continue, lift, look, act, lstat,
  set_entry, change_entry, remove, rename, chown, chmod,
}
use ohinfra_plugins.Probe.{read, guard, is_regular, is_directory, is_not_exist, content_at}
use ohinfra_plugins.ServerSetup.Profile.{DirectorySpec, ManagedFileSpec, max_account_bytes}
use ohinfra_plugins.ServerSetup.Accounts.{AccountEntry, find, parse_groups, parse_passwd}
use ohinfra_plugins.ServerSetup.Confinement.{inspect}
use ohinfra_plugins.ServerSetup.Transaction.{FileBackup, Undo}

-- The system: the name that `os.CreateTemp` finds for a directory and a pattern, if any, the identity of the
-- process, and what the process' mask leaves of the mode of a new directory.
pub record System : Type 0 where
  pub temp_name : Text → Text → Entries → Option Text
  pub uid : ℕ
  pub gid : ℕ
  pub masked : ℕ → ℕ

abbrev pub identity_of : Option AccountEntry → Option ℕ → Fallible (ℕ × ℕ)
identity_of (some user) (some gid) = ok (user.id, gid)
identity_of _ _ = err (failure "compiled owner or group is unavailable")

-- `setIdentity` of `defaultMutationFiles`, up to the change of the owner.
unfoldable pub find_identity : Text → Text → Text → Io (ℕ × ℕ)
find_identity root owner group = do
  group_data ← read root (codes "etc/group") (pos max_account_bytes)
  passwd_data ← read root (codes "etc/passwd") (pos max_account_bytes)
  groups ← lift (parse_groups group_data)
  users ← lift (parse_passwd passwd_data)
  lift (identity_of (find owner users) (find group groups))

-- `setIdentity` and `copyMetadata`: the owner is found, then it is set.
abbrev pub set_owner : Io (ℕ × ℕ) → Text → Io (Unit {0})
set_owner owner path = do (uid, gid) ← owner; chown path uid gid

-- The identity that `copyMetadata` copies.
abbrev pub owner_of : Entry → Io (ℕ × ℕ)
owner_of info = lift (ok (info.uid, info.gid))

-- A call with no effect on the entries: the hook before a step, and `Sync` and `Close` of a file.
abbrev pub pass : Io (Unit {0})
pass = act (λ entries. entries)

-- `syncDir`
abbrev pub sync_dir : Io (Unit {0})
sync_dir = pass >> pass

abbrev pub named : Option Text → Fallible Text
named none = err (failure "file exists")
named (some path) = ok path

module _ (system : System) where
  abbrev pub created : Entry
  created = record {
    kind = regular;
    content = [];
    mode = 0o600;
    uid = system.uid;
    gid = system.gid;
  }

  -- `os.CreateTemp`
  abbrev pub create_temp : Text → Text → Io Text
  create_temp folder pattern = do
    path ← look (λ entries. named (system.temp_name folder pattern entries))
    act (set_entry path (some created))
    lift (ok path)

-- The steps of `createDurableTemp` on the file it has created.
unfoldable pub write_durably : Text → Text → ℕ → Io (ℕ × ℕ) → Io (Unit {0})
write_durably path content mode owner = do
  pass
  act (change_entry path (λ e. record e { content = content }))
  pass
  pass
  pass
  chmod path mode
  pass
  set_owner owner path
  pass
  pass

-- On an error, the file is removed, whether this works or not.
abbrev pub or_remove : {A : Type 0} → Text → A → Fallible (Unit {0}) × Disk → Fallible A × Disk
or_remove path a (ok tt, d) = (ok a, d)
or_remove path a (err e, d) = (err e, (remove path d).1)

abbrev pub durable : Text → Text → ℕ → Io (ℕ × ℕ) → Io Text
durable path content mode owner d = or_remove path path (write_durably path content mode owner d)

module _ (system : System) where
  -- `createDurableTemp`
  unfoldable pub create_durable_temp : Text → Text → Text → ℕ → Io (ℕ × ℕ) → Io Text
  create_durable_temp folder pattern content mode owner = do
    pass
    path ← create_temp system folder pattern
    durable path content mode owner

-- A rename of a temporary file, which is removed if this fails.
unfoldable pub swap : Text → Text → Io (Unit {0})
swap temp target d = or_remove temp tt ((pass >> rename temp target) d)

abbrev pub backup_pattern : Text
backup_pattern = codes ".ohtools-backup-*"

abbrev pub write_pattern : Text
write_pattern = codes ".ohtools-write-*"

abbrev pub restore_pattern : Text
restore_pattern = codes ".ohtools-restore-*"

abbrev pub no_backup : Text → FileBackup
no_backup target = record {
  target = target;
  path = [];
  had_original = false;
  replacement_installed = false;
}

abbrev pub add_context : {A : Type 0} → String → Fallible A × Disk → Fallible A × Disk
add_context text (ok a, d) = (ok a, d)
add_context text (err e, d) = (err (wrapped text e), d)

-- The error of an undo, if any.
abbrev pub undo_outcome : Fallible (Unit {0}) × Disk → Option Error × Disk
undo_outcome (ok tt, d) = (none, d)
undo_outcome (err e, d) = (some e, d)

abbrev pub replaced_by :
    FileBackup → Fallible (Unit {0}) × Disk → (FileBackup × Option Error) × Disk
replaced_by backup (ok tt, d) = ((backup, none), d)
replaced_by backup (err e, d) = ((backup, some e), d)

-- What follows the rename of the replacement.
abbrev pub installed : FileBackup → Fallible (Unit {0}) × Disk → (FileBackup × Option Error) × Disk
installed backup (ok tt, d) =
    replaced_by (record backup { replacement_installed = true }) (sync_dir d)
installed backup (err e, d) = ((backup, some e), d)

abbrev pub written : FileBackup → Fallible Text × Disk → (FileBackup × Option Error) × Disk
written backup (ok temp, d) = installed backup (swap temp backup.target d)
written backup (err e, d) = ((backup, some e), d)

module _ (system : System) where
  -- The backup of the file that is there.
  unfoldable pub save : Text → Entry → Io FileBackup
  save target info = do
    guard (is_regular info) (failure "managed-file target must be a regular non-symlink file")
    content ← look (content_at target)
    path ←
        create_durable_temp system (dir target) backup_pattern content (info.mode % 512)
          (owner_of info)
    lift (
        ok (record {
          target = target;
          path = path;
          had_original = true;
          replacement_installed = false;
        }))

  -- The switch on the result of `os.Lstat`.
  abbrev pub back_up : Text → Fallible Entry × Disk → Fallible FileBackup × Disk
  back_up target (ok info, d) = save target info d
  back_up target (err e, d) = if is_not_exist e then (ok (no_backup target), d) else (err e, d)

  unfoldable pub prepare : Text → ManagedFileSpec → Io FileBackup
  prepare root spec = do
    target ← lift (rooted_path root spec.path)
    parent ← λ d. add_context "inspect managed-file parent: %w" (inspect root (dir spec.path) d)
    λ d. back_up target (lstat target d)

  unfoldable pub install :
      Text → ManagedFileSpec → Fallible FileBackup × Disk → (FileBackup × Option Error) × Disk
  install root spec (err e, d) = ((no_backup [], some e), d)
  install root spec (ok backup, d) = written backup (
      create_durable_temp system (dir backup.target) write_pattern spec.content spec.mode
        (find_identity root spec.owner spec.group) d)

  -- `ReplaceManagedFile`
  unfoldable pub replace_managed_file :
      Text → ManagedFileSpec → Disk → (FileBackup × Option Error) × Disk
  replace_managed_file root spec d = install root spec (prepare root spec d)

  unfoldable pub restore : FileBackup → Io (Unit {0})
  restore backup = do
    content ← look (content_at backup.path)
    info ← lstat backup.path
    temp ←
        create_durable_temp system (dir backup.target) restore_pattern content (info.mode % 512)
          (owner_of info)
    swap temp backup.target
    sync_dir

  -- `RollbackManagedFile`
  unfoldable pub rollback_managed_file : FileBackup → Undo Disk
  rollback_managed_file backup d =
      if backup.had_original
      then undo_outcome (restore backup d)
      else undo_outcome ((remove backup.target >> sync_dir) d)

-- `CommitManagedFile`
unfoldable pub commit_managed_file : FileBackup → Undo Disk
commit_managed_file backup d =
    if eq_text backup.path [] then (none, d) else undo_outcome ((remove backup.path >> sync_dir) d)

-- On an error, the mode is set back, whether this works or not.
abbrev or_chmod :
    Text → ℕ → Undo Disk → Fallible (Unit {0}) × Disk → Fallible (Option (Undo Disk)) × Disk
or_chmod path mode undo (ok tt, d) = (ok (some undo), d)
or_chmod path mode undo (err e, d) = (err e, (chmod path mode d).1)

abbrev undo_adjust : Text → Entry → Undo Disk
undo_adjust target info d =
    undo_outcome ((chmod target (info.mode % 512) >> set_owner (owner_of info) target) d)

-- A directory that is there already.
unfoldable pub adjust_directory : Text → DirectorySpec → Text → Entry → Io (Option (Undo Disk))
adjust_directory root spec target info = do
  guard (is_directory info) (failure "directory target must be a non-symlink directory")
  chmod target spec.mode
  λ d.
      or_chmod target (info.mode % 512) (undo_adjust target info)
        (set_owner (find_identity root spec.owner spec.group) target d)

abbrev undo_make : Text → Undo Disk
undo_make target d = undo_outcome ((remove target >> sync_dir) d)

module _ (system : System) where
  abbrev pub new_directory : ℕ → Entry
  new_directory mode = record {
    kind = directory;
    content = [];
    mode = system.masked mode;
    uid = system.uid;
    gid = system.gid;
  }

  unfoldable pub make_directory : Text → DirectorySpec → Text → Io (Option (Undo Disk))
  make_directory root spec target = do
    act (set_entry target (some (new_directory spec.mode)))
    λ d.
        or_remove target (some (undo_make target))
          ((set_owner (find_identity root spec.owner spec.group) target >> sync_dir) d)

  abbrev on_found_directory :
      Text → DirectorySpec → Text → Fallible Entry × Disk → Fallible (Option (Undo Disk)) × Disk
  on_found_directory root spec target (ok info, d) = adjust_directory root spec target info d
  on_found_directory root spec target (err e, d) =
      if is_not_exist e then make_directory root spec target d else (err e, d)

  -- `EnsureDirectory`
  unfoldable pub ensure_directory : Text → DirectorySpec → Io (Option (Undo Disk))
  ensure_directory root spec = do
    target ← lift (rooted_path root spec.path)
    parent ← λ d. add_context "inspect directory parent: %w" (inspect root (dir spec.path) d)
    λ d. on_found_directory root spec target (lstat target d)
