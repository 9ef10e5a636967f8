-- ===== src/ServerSetup/Atomic/Restoring.antt =====
-- Rolling back the replacement of a managed file.
use mathlib.Core.Path.{subst}
use ohinfra_plugins.Base.{◌≡◌, refl, ◌∙◌, sym, ℕ, ◌%◌, Text, [], some, Fallible, ok, arith}
use ohinfra_plugins.Paths.{dir}
use ohinfra_plugins.Disk.{Entry, Entries, Disk, act, look, set_entry, entry_at}
use ohinfra_plugins.Disk.Looking.{look-Looks, lstat-Looks}
use ohinfra_plugins.Probe.Reading.{content_at-some}
use ohinfra_plugins.Disk.Changing.{Ends, Looks-Ends, continue-Ends, weaken-Ends, At}
use ohinfra_plugins.Probe.{content_at}
use ohinfra_plugins.ServerSetup.Transaction.{FileBackup}
use ohinfra_plugins.ServerSetup.Atomic.{
  System, named, created, owner_of, swap, create_durable_temp, write_durably, restore_pattern,
  restore, sync_dir,
}
use ohinfra_plugins.ServerSetup.Atomic.Temporary.{
  IsFresh, Grows, file, IsDurable, create_durable_temp-Ends,
}
use ohinfra_plugins.ServerSetup.Atomic.Preparing.{swap-Ends, sync_dir-Ends}

abbrev pub calm : Entries → Disk
calm v = record { entries = v; faults = [] }

look-calm : {A : Type 0} (g : Entries → Fallible A) (v : Entries) → look g (calm v) ≡ (g v, calm v)
unfolding look
look-calm g v = refl

some-inj : {A : Type 0} {a b : A} → some a ≡ some b → a ≡ b
some-inj h = ground arith

-- Without a fault, and with a name for the temporary file, each step works.
write_durably-calm :
    (path content : Text) (mode : ℕ) (info : Entry) (v : Entries)
    → (u : Entries) × (write_durably path content mode (owner_of info) (calm v) ≡ (ok tt, calm u))
unfolding write_durably act
write_durably-calm path content mode info v = (_, refl)

create_durable_temp-calm :
    (system : System) (folder pattern content : Text) (mode : ℕ) (info : Entry) (v : Entries)
    (name : Text)
    → system.temp_name folder pattern v ≡ some name
    → (u : Entries) × (create_durable_temp system folder pattern content mode
          (owner_of info)
          (calm v)
        ≡ (ok name, calm u))
unfolding create_durable_temp act look
create_durable_temp-calm system folder pattern content mode info v name free =
    let (u, same) =
      write_durably-calm name content mode info (set_entry name (some (created system)) v) in
    (u, rw (free, named) (rw same refl))

swap-calm :
    (temp target : Text) (v : Entries)
    → (u : Entries) × (swap temp target (calm v) ≡ (ok tt, calm u))
unfolding swap act
swap-calm temp target v = (_, refl)

pub sync_dir-calm : (v : Entries) → sync_dir (calm v) ≡ (ok tt, calm v)
unfolding act
sync_dir-calm v = refl

pub restore-calm :
    (system : System) (b : FileBackup) (v : Entries) (e : Entry) (name : Text)
    → v b.path ≡ some e
    → system.temp_name (dir b.target) restore_pattern v ≡ some name
    → (u : Entries) × (restore system b (calm v) ≡ (ok tt, calm u))
unfolding restore
restore-calm system b v e name there free =
    let (u0, made) =
      create_durable_temp-calm system (dir b.target) restore_pattern e.content (e.mode % 512) e v
        name free in
    let (u1, swapped) = swap-calm name b.target u0 in
    (
      u1,
      rw (look-calm (content_at b.path) v, content_at, there)
          (rw (look-calm (entry_at b.path) v, entry_at, there)
            (rw made (rw swapped (sync_dir-calm u1)))),
    )

module _ (system : System) (fresh : IsFresh system) where
  pub restore-Ends :
      (b : FileBackup) (e : Entry) (d : Disk)
      → d.entries b.path ≡ some e
      → Ends
          (λ _. Unit)
          (λ _ u. At b.target (some (file e.content (e.mode % 512) (e.uid, e.gid))) d.entries u)
          (restore system b d)
  unfolding restore
  restore-Ends b e d there =
      let w : Entries = d.entries in
      let E : Entries → Type 0 = λ _. Unit in
      let f : Entry = file e.content (e.mode % 512) (e.uid, e.gid) in
      let R : Unit {0} → Entries → Type 0 = λ _ u. At b.target (some f) w u in
      continue-Ends E (λ content v. (v ≡ w) × (e.content ≡ content)) R _ _
        (Looks-Ends w (λ content. e.content ≡ content) E _ _
          (look-Looks w (λ content. e.content ≡ content) (content_at b.path) d refl
            (λ content h. content_at-some w b.path e content there h))
          tt (λ content c. (refl, c)))
        (λ content d1 (same1, all).
          continue-Ends E (λ info v. (v ≡ w) × (w b.path ≡ some info)) R _ _
            (Looks-Ends w (λ info. w b.path ≡ some info) E _ _ (lstat-Looks w b.path d1 same1) tt
              (λ info h. (refl, h)))
            (λ info d2 (same2, found).
              let found' : info ≡ e = some-inj (sym found ∙ there) in
              continue-Ends E
                (IsDurable w (λ ids. ids ≡ (info.uid, info.gid)) content (info.mode % 512)) R _ _
                (weaken-Ends (λ v. Grows v w) E
                  (IsDurable w (λ ids. ids ≡ (info.uid, info.gid)) content (info.mode % 512)) _ _
                  (rw (← same2) (
                    create_durable_temp-Ends system fresh (λ ids. ids ≡ (info.uid, info.gid))
                      (dir b.target) restore_pattern content (info.mode % 512) (owner_of info) d2
                      refl (λ d. (refl, refl))))
                  (λ v g. tt) (λ path v q. q))
                (λ temp d3 (free, marked, (ids, owned, at)).
                  let same : file content (info.mode % 512) ids ≡ f =
                    rw owned (rw found' (rw all refl)) in
                  continue-Ends E R R _ _
                    (weaken-Ends (λ v. Grows v w) E (λ _ v. At b.target (some f) w v) R _
                      (swap-Ends temp b.target f w d3 free marked
                        (subst (λ g. At temp (some g) w d3.entries) same at))
                      (λ v g. tt) (λ _ v q. q))
                    (λ _ d4 at'.
                      weaken-Ends (λ v. At b.target (some f) w v) E R R _
                        (sync_dir-Ends (λ v. At b.target (some f) w v) d4 at') (λ v g. tt)
                        (λ _ v q. q)))))
