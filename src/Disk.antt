-- ===== src/Disk.antt =====
-- The files that package os works on, for the code that reads and replaces them. Every call may
-- fail: a disk has a list that says which of the next calls do. A call that fails changes nothing.
pub mod Looking
pub mod Changing
use ohinfra_plugins.Base.{
  ℕ, ◌≡◌, refl, Text, eq_text, Bool, true, false, List, [], ◌∷◌, Option, none, some, Fallible, ok,
  err, Error, failure, not_exist, if◌then◌else◌,
}

pub data Kind : Type 0 where
  regular directory symlink : Kind

-- `os.FileInfo`, with what a regular file holds. The mode has the permission bits, and the bits for
-- setuid, setgid and sticky from 512 on.
pub record Entry : Type 0 where
  pub kind : Kind
  pub content : Text
  pub mode : ℕ
  pub uid : ℕ
  pub gid : ℕ

abbrev pub Entries : Type 0
Entries = Text → Option Entry

pub record Disk : Type 0 where
  pub entries : Entries
  pub faults : List Bool

abbrev pub Io : Type 0 → Type 0
Io A = Disk → Fallible A × Disk

abbrev pub continue : {A B : Type 0} → (A → Io B) → Fallible A × Disk → Fallible B × Disk
continue k (ok a, d) = k a d
continue k (err e, d) = (err e, d)

infixl 5 ◌>>=◌ ◌>>◌
abbrev pub ◌>>=◌ : {A B : Type 0} → Io A → (A → Io B) → Io B
◌>>=◌ m k d = continue k (m d)

abbrev pub ◌>>◌ : {B : Type 0} → Io (Unit {0}) → Io B → Io B
◌>>◌ m k d = continue (λ _. k) (m d)

-- A value or an error that no call of the system gives.
abbrev pub lift : {A : Type 0} → Fallible A → Io A
lift r d = (r, d)

abbrev pub io_error : Error
io_error = failure "input/output error"

abbrev act_by : (Entries → Entries) → List Bool → Disk → Fallible (Unit {0}) × Disk
act_by f [] d = (ok tt, record d { entries = f d.entries })
act_by f (false ∷ rest) d = (ok tt, record d { entries = f d.entries; faults = rest })
act_by f (true ∷ rest) d = (err io_error, record d { faults = rest })

-- A call that changes the entries.
unfoldable pub act : (Entries → Entries) → Io (Unit {0})
act f d = act_by f d.faults d

abbrev look_by : {A : Type 0} → (Entries → Fallible A) → List Bool → Disk → Fallible A × Disk
look_by g [] d = (g d.entries, d)
look_by g (false ∷ rest) d = (g d.entries, record d { faults = rest })
look_by g (true ∷ rest) d = (err io_error, record d { faults = rest })

-- A call that reads them.
unfoldable pub look : {A : Type 0} → (Entries → Fallible A) → Io A
look g d = look_by g d.faults d

-- The rules of the two kinds of call: what holds if the call fails and if it does not, whatever is
-- left of the faults, holds of the call.
pub act-cases :
    (P : Fallible (Unit {0}) × Disk → Type 0) (f : Entries → Entries) (d : Disk)
    → ((rest : List Bool) → P (err io_error, record d { faults = rest }))
    → ((rest : List Bool) → P (ok tt, record d { entries = f d.entries; faults = rest }))
    → P (act f d)
unfolding act
act-cases P f d fails works = by_faults d.faults refl
  where
    by_faults : (l : List Bool) → d.faults ≡ l → P (act_by f l d)
    by_faults [] e = works d.faults
    by_faults (false ∷ rest) e = works rest
    by_faults (true ∷ rest) e = fails rest

pub look-cases :
    {A : Type 0} (P : Fallible A × Disk → Type 0) (g : Entries → Fallible A) (d : Disk)
    → ((rest : List Bool) → P (err io_error, record d { faults = rest }))
    → ((rest : List Bool) → P (g d.entries, record d { faults = rest }))
    → P (look g d)
unfolding look
look-cases P g d fails works = by_faults d.faults refl
  where
    by_faults : (l : List Bool) → d.faults ≡ l → P (look_by g l d)
    by_faults [] e = works d.faults
    by_faults (false ∷ rest) e = works rest
    by_faults (true ∷ rest) e = fails rest

abbrev pub entry_at : Text → Entries → Fallible Entry
entry_at path entries = elim (entries path) [ none ↦ err not_exist | some e ↦ ok e ]

-- `os.Lstat`
abbrev pub lstat : Text → Io Entry
lstat path = look (entry_at path)

abbrev pub set_entry : Text → Option Entry → Entries → Entries
set_entry path e entries = λ q. if eq_text q path then e else entries q

abbrev pub changed : (Entry → Entry) → Option Entry → Option Entry
changed f none = none
changed f (some e) = some (f e)

abbrev pub change_entry : Text → (Entry → Entry) → Entries → Entries
change_entry path f entries = set_entry path (changed f (entries path)) entries

-- `os.Remove`, where a missing file counts as removed.
abbrev pub remove : Text → Io (Unit {0})
remove path = act (set_entry path none)

-- `os.Rename`
abbrev pub rename : Text → Text → Io (Unit {0})
rename from to = act (λ entries. set_entry to (entries from) (set_entry from none entries))

-- `os.Chown` and `os.Chmod`
abbrev pub chown : Text → ℕ → ℕ → Io (Unit {0})
chown path uid gid = act (change_entry path (λ e. record e { uid = uid; gid = gid }))

abbrev pub chmod : Text → ℕ → Io (Unit {0})
chmod path mode = act (change_entry path (λ e. record e { mode = mode }))
