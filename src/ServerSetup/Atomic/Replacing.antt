-- ===== src/ServerSetup/Atomic/Replacing.antt =====
-- Replacing a managed file: whatever call fails, the file is the old one or the whole new one.
use ohinfra_plugins.Base.{
  ◌≡◌, refl, ◌∙◌, sym, ◌⊎◌, inl, inr, ℕ, Text, Bool, true, false, [], Option, none, some, Fallible,
  ok, err, Error, arith,
}
use ohinfra_plugins.Paths.{dir, rooted_path}
use ohinfra_plugins.Disk.{Entries, Disk}
use ohinfra_plugins.Disk.Changing.{Ends, At}
use ohinfra_plugins.ServerSetup.Profile.{ManagedFileSpec}
use ohinfra_plugins.ServerSetup.Transaction.{FileBackup}
use ohinfra_plugins.ServerSetup.Atomic.{
  System, swap, write_pattern, prepare, install, written, installed, replaced_by, sync_dir,
  find_identity, replace_managed_file,
}
use ohinfra_plugins.ServerSetup.Atomic.Temporary.{
  IsFresh, Grows, Grows-trans, file, IsDurable, create_durable_temp-Ends, find_identity-Looks,
}
use ohinfra_plugins.ServerSetup.Atomic.Preparing.{
  swap-Ends, sync_dir-Ends, IsBackup, IsReady, prepare-Ends,
}

pub IsBackup-Grows :
    (w v v' : Entries) (b : FileBackup) (had : Bool)
    → Grows v' v
    → IsBackup w v b had
    → IsBackup w v' b had
IsBackup-Grows w v v' b false grows h = h
IsBackup-Grows w v v' b true grows (e, there, plain, free, marked, copy) = (
  e,
  there,
  plain,
  free,
  marked,
  elim (grows b.path) [
    | inl same ↦ same ∙ copy
    | inr (gone, t) ↦ absurd (some≢none (sym copy ∙ gone))
  ],
)
  where
    some≢none : {A : Type 0} {a : A} → some a ≡ none → ⊥
    some≢none h = ground arith

-- The outcome of a replacement: the new file, or an error and the old one.
abbrev pub IsOutcome :
    Entries → Text → ManagedFileSpec → FileBackup → Option Error → Entries → Bool → Type 0
IsOutcome w root spec b e v true =
    (rooted_path root spec.path ≡ ok b.target)
    × ((v0 : Entries) × Grows v0 w
        × IsBackup w v0 b b.had_original
        × ((ids : ℕ × ℕ) × At b.target (some (file spec.content spec.mode ids)) v0 v))
IsOutcome w root spec b e v false =
    ((x : Error) × (e ≡ some x)) × Grows v w × ((b.path ≡ []) ⊎ IsBackup w v b b.had_original)

abbrev pub HasOutcome :
    Entries → Text → ManagedFileSpec → (FileBackup × Option Error) × Disk → Type 0
HasOutcome w root spec ((b, e), d) = IsOutcome w root spec b e d.entries b.replacement_installed

module _ (w : Entries) (root : Text) (spec : ManagedFileSpec) where
  -- An error before the rename of the replacement.
  old-HasOutcome :
      (b : FileBackup) (e : Error) (v0 : Entries) (d : Disk)
      → IsReady w root spec b v0
      → Grows d.entries v0
      → HasOutcome w root spec ((b, some e), d)
  old-HasOutcome b e v0 d (rooted, (same, flag, grows, backup)) more = rw flag (
    (e, refl),
    Grows-trans d.entries v0 w more grows,
    inr (IsBackup-Grows w v0 d.entries b b.had_original more backup),
  )

  replaced_by-HasOutcome :
      (b : FileBackup) (r : Fallible (Unit {0}) × Disk)
      → b.replacement_installed ≡ true
      → Ends
          (λ v. IsOutcome w root spec b none v true)
          (λ _ v. IsOutcome w root spec b none v true)
          r
      → HasOutcome w root spec (replaced_by b r)
  replaced_by-HasOutcome b (ok tt, d) flag h = rw flag h
  replaced_by-HasOutcome b (err e, d) flag h = rw flag h

  installed-HasOutcome :
      (b : FileBackup) (ids : ℕ × ℕ) (v0 : Entries) (r : Fallible (Unit {0}) × Disk)
      → IsReady w root spec b v0
      → Ends (λ v. Grows v v0) (λ _ v. At b.target (some (file spec.content spec.mode ids)) v0 v) r
      → HasOutcome w root spec (installed b r)
  installed-HasOutcome b ids v0 (err e, d) ready more = old-HasOutcome b e v0 d ready more
  installed-HasOutcome b ids v0 (ok tt, d) (rooted, (same, flag, grows, backup)) at =
      let b' : FileBackup = record b { replacement_installed = true } in
      replaced_by-HasOutcome b' (sync_dir d) refl (
        sync_dir-Ends (λ v. IsOutcome w root spec b' none v true) d
          (rooted, (v0, grows, backup, (ids, at))))

  written-HasOutcome :
      (b : FileBackup) (v0 : Entries) (r : Fallible Text × Disk)
      → IsReady w root spec b v0
      → Ends (λ v. Grows v v0) (IsDurable v0 (λ _. Unit) spec.content spec.mode) r
      → HasOutcome w root spec (written b r)
  written-HasOutcome b v0 (err e, d) ready more = old-HasOutcome b e v0 d ready more
  written-HasOutcome b v0 (ok temp, d) ready (free, marked, (ids, u, at)) =
      installed-HasOutcome b ids v0 (swap temp b.target d) ready
        (swap-Ends temp b.target (file spec.content spec.mode ids) v0 d free marked at)

  install-HasOutcome :
      (system : System) (fresh : IsFresh system) (r : Fallible FileBackup × Disk)
      → Ends (λ v. Grows v w) (IsReady w root spec) r
      → HasOutcome w root spec (install system root spec r)
  unfolding install
  install-HasOutcome system fresh (err e, d) more = ((e, refl), more, inl refl)
  install-HasOutcome system fresh (ok b, d) ready = written-HasOutcome b d.entries _ ready (
      create_durable_temp-Ends system fresh (λ _. Unit) (dir b.target) write_pattern spec.content
        spec.mode (find_identity root spec.owner spec.group) d refl
        (find_identity-Looks root spec.owner spec.group))

-- Whatever calls fail, a replacement ends in one of two ways. Either the backup it returns says that the replacement is installed: then the
-- target has the new content and mode, and the rest of the files are as they were before, but for temporary
-- files where there was none; the backup holds the content, permissions and owner of the file that was there, or says that there was none. Or it
-- says that it is not: then an error is returned, and all files are as they were, with the same exception.
pub replace_managed_file-HasOutcome :
    (system : System) (root : Text) (spec : ManagedFileSpec) (d : Disk)
    → IsFresh system
    → HasOutcome d.entries root spec (replace_managed_file system root spec d)
unfolding replace_managed_file
replace_managed_file-HasOutcome system root spec d fresh =
    install-HasOutcome d.entries root spec system fresh (prepare system root spec d)
      (prepare-Ends system fresh root spec d)
