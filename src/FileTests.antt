-- ===== src/FileTests.antt =====
-- The theorems on files, databases and checks, used on a small disk.
use mathlib.Core.Path.{subst}
use ohinfra_plugins.Base.{
  join, ℕ, ◌≡◌, refl, ◌<◌, Text, codes, true, ◌||◌, [], ◌∷◌, ◌++◌, Option, none, some, ok, Error,
  eq_text, pos, if◌then◌else◌, arith, ◌↔◌, Bool-cases, inl, inr,
}
use ohinfra_plugins.ServerSetup.Transaction.{FileBackup}
use ohinfra_plugins.Paths.{clean, split_by, clean_relative_path, dir}
use ohinfra_plugins.Paths.Confined.{IsConfined, clean_relative_path-IsConfined}
use ohinfra_plugins.Disk.{look, regular, directory, Entry, Entries, Disk}
use ohinfra_plugins.Disk.Looking.{Looks}
use ohinfra_plugins.Probe.{confined_path, read_within, walk, read}
use ohinfra_plugins.Probe.Reading.{IsReading, read-IsReading}
use ohinfra_plugins.ServerSetup.Profile.{ManagedFileSpec}
use ohinfra_plugins.ServerSetup.Accounts.{find, read_lines, Named, parse_groups, parse_group}
use ohinfra_plugins.ServerSetup.Accounts.Databases.{ParsesTo, AreNew, parse_groups_iff}
use ohinfra_plugins.ServerSetup.Atomic.{System, replace_managed_file, rollback_managed_file}
use ohinfra_plugins.ServerSetup.Atomic.Temporary.{IsFresh, is_temp, Grows, Grows-refl}
use ohinfra_plugins.ServerSetup.Atomic.Replacing.{HasOutcome, replace_managed_file-HasOutcome}
use ohinfra_plugins.ServerSetup.Atomic.Restoring.{calm}
use ohinfra_plugins.ServerSetup.Atomic.Rollback.{rollback_managed_file-restores}
use ohinfra_plugins.Scan.{atoi, digits_value, parse_digits, scanned, trim_last, scan_lines}
use ohinfra_plugins.ServerSetup.Atomic.{
  install, prepare, save, create_durable_temp, find_identity, swap, write_durably,
}
use ohinfra_plugins.Paths.{rooted_path, clean, push_all, split_by}
use ohinfra_plugins.Base.{join}
use ohinfra_plugins.ServerSetup.Confinement.{inspect}
use ohinfra_plugins.Probe.{exists, confined_path, walk, is_not_exist, read_within}
use ohinfra_plugins.Disk.{look, act}
use ohinfra_plugins.Scan.{atoi, digits_value, parse_digits, scanned, trim_last}
use ohinfra_plugins.ServerSetup.Accounts.{find, parse_account, parse_passwd, read_lines}

abbrev folder : Entry
folder = record { kind = directory; content = []; mode = 0o755; uid = 0; gid = 0 }

abbrev plain : Text → Entry
plain content = record { kind = regular; content = content; mode = 0o644; uid = 0; gid = 0 }

abbrev group_text : Text
group_text = codes "root:x:0:" ++ 10 ∷ codes "adm:x:4:root" ++ 10 ∷ []

abbrev passwd_text : Text
passwd_text = codes "root:x:0:0:root:/root:/bin/sh" ++ 10 ∷ []

abbrev files : Entries
files p =
    if eq_text p (codes "/") || eq_text p (codes "/etc")
    then some folder
    else if eq_text p (codes "/etc/group")
    then some (plain group_text)
    else if eq_text p (codes "/etc/passwd")
    then some (plain passwd_text)
    else if eq_text p (codes "/etc/state")
    then some (plain (codes "old"))
    else none

abbrev disk : Disk
disk = record { entries = files; faults = [] }

relative_path : clean_relative_path (codes "etc/./group") ≡ ok (codes "etc/group")
unfolding clean_relative_path clean join
relative_path = refl

clean_relative_path-IsConfined_example : IsConfined (codes "etc/./group") (codes "etc/group")
clean_relative_path-IsConfined_example =
    clean_relative_path-IsConfined (codes "etc/./group") (codes "etc/group") relative_path

read_group : read (codes "/") (codes "etc/group") (pos 64) disk ≡ (ok group_text, disk)
unfolding read read_within confined_path clean_relative_path clean join look walk
read_group = refl

read-IsReading_example :
    Looks files
      (λ content.
        (n : ℕ) × (pos 64 ≡ pos n)
        × (0 < n)
        × IsReading files (codes "/") (codes "etc/group") n content)
      (read (codes "/") (codes "etc/group") (pos 64) disk)
read-IsReading_example = read-IsReading (codes "/") (codes "etc/group") (pos 64) disk (omega arith)

abbrev two_groups : Named ℕ
two_groups = (codes "root", 0) ∷ (codes "adm", 4) ∷ []

parsed_groups : parse_groups group_text ≡ ok two_groups
unfolding parse_groups read_lines scan_lines scanned split_by parse_group trim_last atoi
    parse_digits digits_value find
parsed_groups = refl

parse_groups_iff_example :
    (parse_groups group_text ≡ ok two_groups)
    ↔ (ParsesTo parse_group (scan_lines group_text) two_groups × AreNew [] two_groups)
parse_groups_iff_example = parse_groups_iff group_text two_groups

free_name : Text → Option Entry → Option Text
free_name path none = if is_temp path then some path else none
free_name path (some e) = none

-- A system that takes the pattern as the name, if this name is free.
abbrev system : System
system = record {
  temp_name = λ folder pattern entries.
      free_name (folder ++ b'/' ∷ pattern) (entries (folder ++ b'/' ∷ pattern));
  uid = 0;
  gid = 0;
  masked = λ mode. mode;
}

free_name-some :
    (path : Text) (x : Option Entry) (found : Text)
    → free_name path x ≡ some found
    → (path ≡ found) × (x ≡ none) × (is_temp path ≡ true)
unfolding free_name
free_name-some path none found h = elim (Bool-cases (is_temp path)) [
  | inl e ↦ (ground (arith, subst (λ b. (if b then some path else none) ≡ some found) e h), refl, e)
  | inr e ↦ absurd (nothing (subst (λ b. (if b then some path else none) ≡ some found) e h))
]
  where
    nothing : none ≡ some found → ⊥
    nothing h = ground arith
free_name-some path (some e) found h = ground arith

system-IsFresh : IsFresh system
system-IsFresh folder pattern path entries marked h =
    let (same, free, temp) = free_name-some (folder ++ b'/' ∷ pattern) _ path h in
    (subst (λ p. entries p ≡ none) same free, subst (λ p. is_temp p ≡ true) same temp)

abbrev state_file : ManagedFileSpec
state_file = record {
  path = codes "/etc/state";
  mode = 0o600;
  owner = codes "root";
  group = codes "adm";
  content = codes "new";
  sha256 = codes "new";
}

replace_managed_file-HasOutcome_example :
    HasOutcome files
      (codes "/")
      state_file
      (replace_managed_file system (codes "/") state_file disk)
replace_managed_file-HasOutcome_example =
    replace_managed_file-HasOutcome system (codes "/") state_file disk system-IsFresh

abbrev replacement : (FileBackup × Option Error) × Disk
replacement = replace_managed_file system (codes "/") state_file disk

state_replaced :
    (replacement.0.0.replacement_installed ≡ true)
    × (replacement.0.1 ≡ none)
    × (replacement.1.entries (codes "/etc/state")
        ≡ some (record { kind = regular; content = codes "new"; mode = 0o600; uid = 0; gid = 4 }))
unfolding replace_managed_file install prepare rooted_path clean join inspect dir exists
    confined_path clean_relative_path look walk save create_durable_temp act free_name push_all
    split_by is_not_exist read read_within atoi digits_value parse_digits scan_lines scanned
    trim_last find parse_account parse_group parse_groups parse_passwd read_lines find_identity swap
    write_durably
state_replaced = (refl, refl, refl)

some-inj : {A : Type 0} {a b : A} → some a ≡ some b → a ≡ b
some-inj h = ground arith

small_mode : (e : Entry) → files replacement.0.0.target ≡ some e → e.mode < 512
unfolding replace_managed_file install prepare rooted_path clean join inspect dir exists
    confined_path clean_relative_path look walk save create_durable_temp act free_name push_all
    split_by is_not_exist read read_within atoi digits_value parse_digits scan_lines scanned
    trim_last find parse_account parse_group parse_groups parse_passwd read_lines find_identity swap
    write_durably
small_mode e h = subst (λ (f : Entry). f.mode < 512) (some-inj h) (omega arith)

rollback_managed_file-restores_example :
    (u : Entries) × (rollback_managed_file system replacement.0.0 (calm replacement.1.entries)
      ≡ (none, calm u))
    × Grows u files
unfolding replace_managed_file install prepare rooted_path clean join inspect dir exists
    confined_path clean_relative_path look walk save create_durable_temp act free_name push_all
    split_by is_not_exist read read_within atoi digits_value parse_digits scan_lines scanned
    trim_last find parse_account parse_group parse_groups parse_passwd read_lines find_identity swap
    write_durably
rollback_managed_file-restores_example =
    rollback_managed_file-restores system (codes "/") state_file disk replacement.1 replacement.0.0
      replacement.0.1 replacement.1.entries (codes "/etc/.ohtools-restore-*") system-IsFresh refl
      refl refl small_mode (Grows-refl replacement.1.entries) refl
