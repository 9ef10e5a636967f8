-- ===== src/ServerSetup/Atomic/Preparing.antt =====
-- The two halves of a replacement: the backup, and the rename that puts the new file in place.
use ohinfra_plugins.Base.{
  ◌≡◌, refl, ◌∙◌, sym, ap, ◌⊎◌, inl, inr, ◌%◌, Text, eq_text, eq_text_refl, eq_text→eq, Bool, true,
  false, [], none, some, Fallible, ok, err, Bool-cases, Option-cases, String,
}
use ohinfra_plugins.Paths.{dir, rooted_path}
use ohinfra_plugins.Disk.{Entry, Entries, Disk, lift, look-cases, lstat, entry_at, set_entry}
use ohinfra_plugins.Disk.Looking.{Looks, look-Looks, lift-Looks}
use ohinfra_plugins.Disk.Changing.{
  Ends, act-Ends, continue-Ends, weaken-Ends, Looks-Ends, Apart, At,
}
use ohinfra_plugins.Probe.{is_regular, is_not_exist, content_at}
use ohinfra_plugins.Probe.Reading.{guard-Looks, content_at-some}
use ohinfra_plugins.ServerSetup.Profile.{ManagedFileSpec}
use ohinfra_plugins.ServerSetup.Confinement.Inspecting.{IsInspected, inspect-IsInspected}
use ohinfra_plugins.ServerSetup.Transaction.{FileBackup}
use ohinfra_plugins.ServerSetup.Atomic.{
  System, add_context, pass, owner_of, swap, backup_pattern, save, back_up, prepare, sync_dir,
}
use ohinfra_plugins.ServerSetup.Atomic.Temporary.{
  IsFresh, is_temp, Grows, Grows-refl, file, IsOwner, IsDurable, create_durable_temp-Ends,
  or_remove-Ends, Apart-Grows,
}

pub swap-Ends :
    (temp target : Text) (f : Entry) (w : Entries) (d : Disk)
    → w temp ≡ none
    → is_temp temp ≡ true
    → At temp (some f) w d.entries
    → Ends (λ v. Grows v w) (λ _ v. At target (some f) w v) (swap temp target d)
unfolding swap
swap-Ends temp target f w d free marked at =
    let E : Entries → Type 0 = λ v. Apart temp v w in
    or_remove-Ends temp tt w (λ _ v. At target (some f) w v) _ free marked
      (continue-Ends E (λ _ v. At temp (some f) w v) (λ _ v. At target (some f) w v) _ _
        (act-Ends E (λ _ v. At temp (some f) w v) (λ v. v) d at.1 at)
        (λ _ d' at'.
          act-Ends E (λ _ v. At target (some f) w v) _ d' at'.1
            (
              rw (eq_text_refl target) at'.0,
              (λ q e. rw e (moved q d'.entries at' (Bool-cases (eq_text q temp)))),
            )))
  where
    moved :
        (q : Text) (v : Entries)
        → At temp (some f) w v
        → (eq_text q temp ≡ true) ⊎ (eq_text q temp ≡ false)
        → set_entry temp none v q ≡ w q
    moved q v at (inl e) = rw e (rw (eq_text→eq q temp e) (sym free))
    moved q v at (inr e) = rw e (at.1 q e)

pub sync_dir-Ends : (E : Entries → Type 0) (d : Disk) → E d.entries → Ends E (λ _. E) (sync_dir d)
sync_dir-Ends E d h =
    continue-Ends E (λ _. E) (λ _. E) (λ _. pass) _ (act-Ends E (λ _. E) (λ v. v) d h h)
      (λ _ d' h'. act-Ends E (λ _. E) (λ v. v) d' h' h')

-- What is kept of the file in `w`: a copy of it in `v`, or nothing where there is none.
abbrev pub IsBackup : Entries → Entries → FileBackup → Bool → Type 0
IsBackup w v b true =
    (e : Entry) × (w b.target ≡ some e)
    × (is_regular e ≡ true)
    × (w b.path ≡ none)
    × (is_temp b.path ≡ true)
    × (v b.path ≡ some (file e.content (e.mode % 512) (e.uid, e.gid)))
IsBackup w v b false = (w b.target ≡ none) × (b.path ≡ [])

abbrev pub IsPrepared : Entries → Text → FileBackup → Entries → Type 0
IsPrepared w target b v =
    (b.target ≡ target)
    × (b.replacement_installed ≡ false)
    × Grows v w
    × IsBackup w v b b.had_original

abbrev pub IsReady : Entries → Text → ManagedFileSpec → FileBackup → Entries → Type 0
IsReady w root spec b v = (rooted_path root spec.path ≡ ok b.target) × IsPrepared w b.target b v

module _ (system : System) (fresh : IsFresh system) where
  save-Ends :
      (w : Entries) (target : Text) (info : Entry) (d : Disk)
      → d.entries ≡ w
      → w target ≡ some info
      → Ends (λ v. Grows v w) (IsPrepared w target) (save system target info d)
  unfolding save
  save-Ends w target info d same there =
      let E : Entries → Type 0 = λ v. Grows v w in
      let R : FileBackup → Entries → Type 0 = IsPrepared w target in
      let owns : IsOwner (λ ids. ids ≡ (info.uid, info.gid)) (owner_of info) = λ d. (refl, refl) in
      continue-Ends E (λ _ v. (v ≡ w) × (is_regular info ≡ true)) R _ _
        (Looks-Ends w (λ _. is_regular info ≡ true) E _ _ (guard-Looks w (is_regular info) _ d same)
          (Grows-refl w) (λ _ r. (refl, r)))
        (λ _ d1 (same1, plain).
          continue-Ends E (λ content v. (v ≡ w) × (info.content ≡ content)) R _ _
            (Looks-Ends w (λ content. info.content ≡ content) E _ _
              (look-Looks w (λ content. info.content ≡ content) (content_at target) d1 same1
                (λ content h. content_at-some w target info content there h))
              (Grows-refl w) (λ content c. (refl, c)))
            (λ content d2 (same2, all).
              continue-Ends E
                (IsDurable w (λ ids. ids ≡ (info.uid, info.gid)) content (info.mode % 512)) R
                (λ path. lift (
                  ok (record {
                    target = target;
                    path = path;
                    had_original = true;
                    replacement_installed = false;
                  })))
                _
                (rw (← same2) (
                  create_durable_temp-Ends system fresh (λ ids. ids ≡ (info.uid, info.gid))
                    (dir target) backup_pattern content (info.mode % 512) (owner_of info) d2 refl
                    owns))
                (λ path d3 (free, marked, (ids, named, at)). (
                  refl,
                  refl,
                  Apart-Grows path d3.entries w free marked at.1,
                  (info, there, plain, free, marked, at.0 ∙ rw named (rw all refl)),
                ))))

  back_up-Ends :
      (w : Entries) (target : Text) (d : Disk)
      → d.entries ≡ w
      → Ends (λ v. Grows v w) (IsPrepared w target) (back_up system target (lstat target d))
  unfolding is_not_exist
  back_up-Ends w target d same =
      let E : Entries → Type 0 = λ v. Grows v w in
      look-cases (λ r. Ends E (IsPrepared w target) (back_up system target r)) (entry_at target) d
        (λ rest. rw same (Grows-refl w))
        (λ rest. elim (Option-cases (d.entries target)) [
          | inl e ↦ rw (entry_at, e) (rw same (refl, refl, Grows-refl w, (rw (← same) e, refl)))
          | inr (info, e) ↦
              rw (entry_at, e)
                (save-Ends w target info (record d { faults = rest }) same (rw (← same) e))
        ])

  add_context-Looks :
      {A : Type 0} (w : Entries) (Q : A → Type 0) (text : String) (r : Fallible A × Disk)
      → Looks w Q r
      → Looks w Q (add_context text r)
  add_context-Looks w Q text (ok a, d) h = h
  add_context-Looks w Q text (err e, d) h = h

  pub prepare-Ends :
      (root : Text) (spec : ManagedFileSpec) (d : Disk)
      → Ends (λ v. Grows v d.entries) (IsReady d.entries root spec) (prepare system root spec d)
  unfolding prepare
  prepare-Ends root spec d =
      let w : Entries = d.entries in
      let E : Entries → Type 0 = λ v. Grows v w in
      let R : FileBackup → Entries → Type 0 = IsReady w root spec in
      continue-Ends E (λ target v. (v ≡ w) × (rooted_path root spec.path ≡ ok target)) R _ _
        (Looks-Ends w (λ target. rooted_path root spec.path ≡ ok target) E _ _
          (lift-Looks w (rooted_path root spec.path) d refl) (Grows-refl w) (λ target r. (refl, r)))
        (λ target d1 (same1, rooted).
          continue-Ends E (λ _ v. v ≡ w) R _ _
            (Looks-Ends w (IsInspected w root (dir spec.path)) E _ _
              (add_context-Looks w _ _ _ (inspect-IsInspected w root (dir spec.path) d1 same1))
              (Grows-refl w) (λ _ r. refl))
            (λ _ d2 same2.
              weaken-Ends E E (IsPrepared w target) R _ (back_up-Ends w target d2 same2) (λ v g. g)
                (λ b v (there, flag, grows, backup).
                  (rooted ∙ ap ok (sym there), (refl, flag, grows, backup)))))
