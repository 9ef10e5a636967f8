-- ===== src/ServerSetup/Confinement/Inspecting.antt =====
-- What an inspection finds.
use mathlib.Core.Path.{subst}
use ohinfra_plugins.Base.{
  ◌≡◌, Text, Bool, true, false, some, Fallible, ok, err, Bool-cases, inl, inr,
}
use ohinfra_plugins.Paths.{rooted_path, trim_slash}
use ohinfra_plugins.Disk.{Entry, Entries, Disk, lift}
use ohinfra_plugins.Disk.Looking.{Looks, continue-Looks, lift-Looks, lstat-Looks}
use ohinfra_plugins.Probe.{exists, is_not_exist, or_missing, confined_path}
use ohinfra_plugins.Probe.Reading.{Leads, confined_path-Looks, guard-Looks}
use ohinfra_plugins.ServerSetup.Confinement.{inspect}

-- That a path is there, if the answer is that it is.
abbrev pub IsThere : Entries → Text → Text → Bool → Type 0
IsThere entries root relative true = (end : Text × Entry) × Leads entries root relative end
IsThere entries root relative false = Unit

or_missing-Looks :
    (entries : Entries) (root relative : Text) (r : Fallible (Text × Entry) × Disk)
    → Looks entries (Leads entries root relative) r
    → Looks entries (IsThere entries root relative) (or_missing r)
or_missing-Looks entries root relative (ok end, d) (same, leads) = (same, (end, leads))
or_missing-Looks entries root relative (err e, d) same = elim (Bool-cases (is_not_exist e)) [
  | inl m ↦ rw m (same, tt)
  | inr m ↦ rw m same
]

exists-Looks :
    (entries : Entries) (root relative : Text) (d : Disk)
    → d.entries ≡ entries
    → Looks entries (IsThere entries root relative) (exists root relative d)
unfolding exists
exists-Looks entries root relative d same =
    or_missing-Looks entries root relative (confined_path root relative d)
      (confined_path-Looks entries root relative d same)

abbrev pub IsInspected : Entries → Text → Text → Text × Entry → Type 0
IsInspected entries root absolute (path, info) =
    (rooted_path root absolute ≡ ok path)
    × IsThere entries root (trim_slash absolute) true
    × (entries path ≡ some info)

-- An inspection changes no file, whatever it returns. If it returns a path and an entry, the path is the compiled path
-- below the root, the entry is the one there, and the steps of the path from the root are there, none of
-- them a symbolic link.
pub inspect-IsInspected :
    (entries : Entries) (root absolute : Text) (d : Disk)
    → d.entries ≡ entries
    → Looks entries (IsInspected entries root absolute) (inspect root absolute d)
unfolding inspect
inspect-IsInspected entries root absolute d same =
    let R : Text × Entry → Type 0 = IsInspected entries root absolute in
    continue-Looks entries (λ path. rooted_path root absolute ≡ ok path) R _ _
      (lift-Looks entries (rooted_path root absolute) d same)
      (λ path d0 same0 rooted.
        continue-Looks entries (IsThere entries root (trim_slash absolute)) R _ _
          (exists-Looks entries root (trim_slash absolute) d0 same0)
          (λ found d1 same1 there.
            continue-Looks entries (λ _. found ≡ true) R _ _ (guard-Looks entries found _ d1 same1)
              (λ _ d2 same2 yes.
                continue-Looks entries (λ info. entries path ≡ some info) R
                  (λ info. lift (ok (path, info))) _ (lstat-Looks entries path d2 same2)
                  (λ info d3 same3 here. (
                    same3,
                    (rooted, subst (IsThere entries root (trim_slash absolute)) yes there, here),
                  )))))
