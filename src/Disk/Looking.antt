-- ===== src/Disk/Looking.antt =====
-- Calls that read a disk and do not change it.
use ohinfra_plugins.Base.{
  ◌≡◌, refl, Text, Bool, List, Option, none, some, Fallible, ok, err, not_exist, arith,
}
use ohinfra_plugins.Disk.{
  Entry, Entries, Disk, Io, continue, lift, look, look-cases, lstat, entry_at,
}

-- A call on the entries, and what holds of its result if it has one.
abbrev pub Looks : {A : Type 0} → Entries → (A → Type 0) → Fallible A × Disk → Type 0
Looks entries Q (ok a, d) = (d.entries ≡ entries) × Q a
Looks entries Q (err e, d) = d.entries ≡ entries

pub look-Looks :
    {A : Type 0} (entries : Entries) (Q : A → Type 0) (g : Entries → Fallible A) (d : Disk)
    → d.entries ≡ entries
    → ((a : A) → g entries ≡ ok a → Q a)
    → Looks entries Q (look g d)
look-Looks {A} entries Q g d same q =
    look-cases (Looks entries Q) g d (λ rest. same) (λ rest. given (g d.entries) refl rest)
  where
    given :
        (r : Fallible A)
        → g d.entries ≡ r
        → (rest : List Bool) → Looks entries Q (r, record d { faults = rest })
    given (ok a) e rest = (same, q a (rw (← same) e))
    given (err x) e rest = same

pub continue-Looks :
    {A B : Type 0} (entries : Entries) (Q : A → Type 0) (R : B → Type 0) (k : A → Io B)
    (r : Fallible A × Disk)
    → Looks entries Q r
    → ((a : A) (d : Disk) → d.entries ≡ entries → Q a → Looks entries R (k a d))
    → Looks entries R (continue k r)
continue-Looks entries Q R k (ok a, d) (same, q) next = next a d same q
continue-Looks entries Q R k (err e, d) same next = same

pub lift-Looks :
    {A : Type 0} (entries : Entries) (r : Fallible A) (d : Disk)
    → d.entries ≡ entries
    → Looks entries (λ a. r ≡ ok a) (lift r d)
lift-Looks entries (ok a) d same = (same, refl)
lift-Looks entries (err e) d same = same

entry_at-some :
    (x : Option Entry) (info : Entry)
    → elim x [ none ↦ err not_exist | some e ↦ ok e ] ≡ ok info
    → x ≡ some info
entry_at-some none info h = ground arith
entry_at-some (some e) info h = ground arith

pub lstat-Looks :
    (entries : Entries) (path : Text) (d : Disk)
    → d.entries ≡ entries
    → Looks entries (λ info. entries path ≡ some info) (lstat path d)
lstat-Looks entries path d same =
    look-Looks entries (λ info. entries path ≡ some info) (entry_at path) d same
      (λ info h. entry_at-some (entries path) info h)

pub weaken-Looks :
    {A : Type 0} (entries : Entries) (Q R : A → Type 0) (r : Fallible A × Disk)
    → Looks entries Q r
    → ((a : A) → Q a → R a)
    → Looks entries R r
weaken-Looks entries Q R (ok a, d) (same, q) f = (same, f a q)
weaken-Looks entries Q R (err e, d) same f = same
