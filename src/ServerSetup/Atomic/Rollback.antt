-- ===== src/ServerSetup/Atomic/Rollback.antt =====
-- A replacement that is rolled back leaves the files as they were.
use mathlib.Core.Path.{subst}
use ohinfra_plugins.Base.{
  ◌≡◌, refl, ◌∙◌, sym, ap, ◌⊎◌, inl, inr, ℕ, ◌%◌, ◌<◌, not, ◌||◌, Text, eq_text, eq_text→eq, Bool,
  true, false, [], ◌∷◌, Option, none, some, Error, Bool-cases, arith,
}
use ohinfra_plugins.Paths.{dir}
use ohinfra_plugins.Disk.{
  Kind, regular, directory, symlink, Entry, Entries, Disk, act, remove, ◌>>◌, set_entry,
}
use ohinfra_plugins.Disk.Changing.{Ends, Apart, At, set_entry-At}
use ohinfra_plugins.Probe.{is_regular}
use ohinfra_plugins.ServerSetup.Profile.{ManagedFileSpec}
use ohinfra_plugins.ServerSetup.Transaction.{FileBackup}
use ohinfra_plugins.ServerSetup.Atomic.{
  System, restore_pattern, restore, undo_outcome, sync_dir, replace_managed_file,
  rollback_managed_file,
}
use ohinfra_plugins.ServerSetup.Atomic.Temporary.{IsFresh, is_temp, Grows, file}
use ohinfra_plugins.ServerSetup.Atomic.Preparing.{IsBackup}
use ohinfra_plugins.ServerSetup.Atomic.Replacing.{
  IsBackup-Grows, IsOutcome, HasOutcome, replace_managed_file-HasOutcome,
}
use ohinfra_plugins.ServerSetup.Atomic.Restoring.{calm, restore-calm, restore-Ends}

-- But for one path, `v` has what `w` has, or a temporary file where `w` has nothing.
abbrev pub GrowsBut : Text → Entries → Entries → Type 0
GrowsBut target v w =
    (q : Text) → eq_text q target ≡ false → (v q ≡ w q) ⊎ ((w q ≡ none) × (is_temp q ≡ true))

GrowsBut-Grows :
    (target : Text) (u v w : Entries) → Apart target u v → Grows v w → GrowsBut target u w
GrowsBut-Grows target u v w apart grows q h = elim (grows q) [
  | inl e ↦ inl (apart q h ∙ e)
  | inr t ↦ inr t
]

Grows-GrowsBut :
    (target : Text) (u v w : Entries) → Grows u v → GrowsBut target v w → GrowsBut target u w
Grows-GrowsBut target u v w f g q h = elim (f q) [
  | inl same ↦ elim (g q h) [ inl e ↦ inl (same ∙ e) | inr t ↦ inr t ]
  | inr (free, temp) ↦ elim (g q h) [ inl e ↦ inr (sym e ∙ free, temp) | inr t ↦ inr t ]
]

GrowsBut-restored :
    (target : Text) (u v w : Entries) → At target (w target) v u → GrowsBut target v w → Grows u w
GrowsBut-restored target u v w (here, apart) g q = elim (Bool-cases (eq_text q target)) [
  | inl e ↦ inl (rw (eq_text→eq q target e) here)
  | inr e ↦ elim (g q e) [ inl same ↦ inl (apart q e ∙ same) | inr t ↦ inr t ]
]

-- The backup is not where the new file is.
IsBackup-At :
    (w v u : Entries) (b : FileBackup) (x : Option Entry) (had : Bool)
    → is_temp b.target ≡ false
    → At b.target x v u
    → IsBackup w v b had
    → IsBackup w u b had
IsBackup-At w v u b x false plain at h = h
IsBackup-At w v u b x true plain at (e, there, reg, free, marked, copy) = (
  e,
  there,
  reg,
  free,
  marked,
  elim (Bool-cases (eq_text b.path b.target)) [
    | inl same ↦
        absurd (true≢false (sym marked ∙ (ap is_temp (eq_text→eq b.path b.target same) ∙ plain)))
    | inr other ↦ at.1 b.path other ∙ copy
  ],
)
  where
    true≢false : true ≡ false → ⊥
    true≢false h = ground arith

outcome-IsBackup :
    (w : Entries) (root : Text) (spec : ManagedFileSpec) (b : FileBackup) (e : Option Error)
    (v : Entries) (flag : Bool)
    → IsOutcome w root spec b e v flag
    → (not (eq_text b.path []) || flag) ≡ true
    → is_temp b.target ≡ false
    → GrowsBut b.target v w × IsBackup w v b b.had_original
outcome-IsBackup w root spec b e v true (rooted, (v0, grows, backup, (ids, at))) kept plain = (
  GrowsBut-Grows b.target v v0 w at.1 grows,
  IsBackup-At w v0 v b _ b.had_original plain at backup,
)
outcome-IsBackup w root spec b e v false (failed, grows, inr backup) kept plain =
    ((λ q h. grows q), backup)
outcome-IsBackup w root spec b e v false (failed, grows, inl no_path) kept plain =
    absurd (nothing b.path no_path kept)
  where
    nothing : (p : Text) → p ≡ [] → (not (eq_text p []) || false) ≡ true → ⊥
    nothing [] h k = ground arith
    nothing (c ∷ p) h k = ground arith

small_mode : (m : ℕ) → m < 512 → m % 512 % 512 ≡ m
small_mode m h = omega arith

same_file :
    (e : Entry)
    → is_regular e ≡ true
    → e.mode < 512
    → file e.content (e.mode % 512 % 512) (e.uid, e.gid) ≡ e
same_file e plain small = by_kind e.kind refl plain
  where
    by_kind :
        (k : Kind)
        → e.kind ≡ k
        → elim k [ symlink ↦ false | directory ↦ false | regular ↦ true ] ≡ true
        → file e.content (e.mode % 512 % 512) (e.uid, e.gid) ≡ e
    by_kind regular h p = rw (small_mode e.mode small) (rw (← h) refl)
    by_kind directory h p = ground arith
    by_kind symlink h p = ground arith

module _ (system : System) (b : FileBackup) (w v : Entries) where
  restored-original :
      (name : Text)
      → IsFresh system
      → ((e : Entry) → w b.target ≡ some e → e.mode < 512)
      → GrowsBut b.target v w
      → IsBackup w v b true
      → system.temp_name (dir b.target) restore_pattern v ≡ some name
      → (u : Entries) × (undo_outcome (restore system b (calm v)) ≡ (none, calm u)) × Grows u w
  restored-original name fresh small grows (e, there, plain, free, marked, copy) found =
      let f : Entry = file e.content (e.mode % 512) (e.uid, e.gid) in
      let (u, ends) = restore-calm system b v f name copy found in
      let at : At b.target (some (file e.content (e.mode % 512 % 512) (e.uid, e.gid))) v u =
        subst
          (Ends (λ _. Unit)
            (λ _ u. At b.target (some (file e.content (e.mode % 512 % 512) (e.uid, e.gid))) v u))
          ends (restore-Ends system fresh b f (calm v) copy) in
      (
        u,
        rw ends refl,
        GrowsBut-restored b.target u v w
            (at.0 ∙ (ap some (same_file e plain (small e there)) ∙ sym there), at.1) grows,
      )

  restored-nothing :
      GrowsBut b.target v w
      → w b.target ≡ none
      → (u : Entries) × (undo_outcome ((remove b.target >> sync_dir) (calm v)) ≡ (none, calm u))
        × Grows u w
  unfolding act
  restored-nothing grows free = (
    set_entry b.target none v,
    refl,
    GrowsBut-restored b.target (set_entry b.target none v) v w
        (subst (λ x. At b.target x v (set_entry b.target none v)) (sym free)
          (set_entry-At b.target none none v v (λ q h. refl)))
        grows,
  )

  rolled_back :
      (name : Text) (had : Bool)
      → b.had_original ≡ had
      → IsFresh system
      → ((e : Entry) → w b.target ≡ some e → e.mode < 512)
      → GrowsBut b.target v w
      → IsBackup w v b had
      → system.temp_name (dir b.target) restore_pattern v ≡ some name
      → (u : Entries) × (rollback_managed_file system b (calm v) ≡ (none, calm u)) × Grows u w
  unfolding rollback_managed_file restore
  rolled_back name true had fresh small grows backup found =
      rw had (restored-original name fresh small grows backup found)
  rolled_back name false had fresh small grows backup found =
      rw had (restored-nothing grows backup.0)

-- Let a replacement leave the files `after`, with a backup that the transaction keeps, whether it succeeded or failed; the
-- target is no temporary file, and the file that was there has no mode bits beyond the permissions. In files `v` that differ from
-- those after it by more temporary files at most, the rollback succeeds if no call fails and a name is found for its temporary file,
-- and leaves all files as they were before the replacement, but for temporary files where there was none.
pub rollback_managed_file-restores :
    (system : System) (root : Text) (spec : ManagedFileSpec) (d after : Disk) (b : FileBackup)
    (e : Option Error) (v : Entries) (name : Text)
    → IsFresh system
    → replace_managed_file system root spec d ≡ ((b, e), after)
    → (not (eq_text b.path []) || b.replacement_installed) ≡ true
    → is_temp b.target ≡ false
    → ((f : Entry) → d.entries b.target ≡ some f → f.mode < 512)
    → Grows v after.entries
    → system.temp_name (dir b.target) restore_pattern v ≡ some name
    → (u : Entries) × (rollback_managed_file system b (calm v) ≡ (none, calm u)) × Grows u d.entries
rollback_managed_file-restores system root spec d after b e v name fresh ran kept plain small more
      found =
    let w : Entries = d.entries in
    let h : HasOutcome w root spec ((b, e), after) =
      subst (HasOutcome w root spec) ran
        (replace_managed_file-HasOutcome system root spec d fresh) in
    let (grows, backup) =
      outcome-IsBackup w root spec b e after.entries b.replacement_installed h kept plain in
    rolled_back system b w v name b.had_original refl fresh small
      (Grows-GrowsBut b.target v after.entries w more grows)
      (IsBackup-Grows w after.entries v b b.had_original more backup) found
