-- ===== src/ServerSetup/Transaction/Rollback.antt =====
-- Rolling back a transaction, for adapters whose undos undo where they report no error.
use mathlib.Core.List.{reverse-append}
use ohinfra_plugins.Base.{
  ◌≡◌, refl, Text, Bool, true, false, List, [], ◌∷◌, ◌++◌, reverse, Option, none, some, Fallible,
  joined, ok, err, Error, not, message, ◌||◌, eq_text, if◌then◌else◌,
}
use ohinfra_plugins.Protocol.Types.{Change}
use ohinfra_plugins.ServerSetup.Profile.{
  GroupSpec, UserSpec, DirectorySpec, ManagedFileSpec, SysctlSpec, Profile,
}
use ohinfra_plugins.ServerSetup.Transaction.{
  FileBackup, Undo, Adapters, Transaction, begin, apply_undo, Operation, on_package, on_group,
  on_user, on_directory, on_file, on_sysctl, on_unit, choose, replaced, perform, apply, run_undos,
  rollback, join_errors,
}

-- `Later v w` reads: `v` is `w`, but for leftovers that no adapter looks at, such as a backup file.
module _ {World : Type 0} (Later : World → World → Type 0) where
  -- The undo, run in any world later than the one that the call left, may fail; if it reports no
  -- error, it leaves a world later than the one before the call.
  abbrev pub Undoes : Undo World → World → World → Type 0
  Undoes u after before = (w : World) → Later w after → (u w).0 ≡ none → Later (u w).1 before

  -- What an adapter promises of a call made in the world `before`. A call that fails, or that has
  -- nothing to undo, leaves nothing behind that counts.
  abbrev pub Reversible : World → Fallible (Option (Undo World)) × World → Type 0
  Reversible before (ok (some u), after) = Undoes u after before
  Reversible before (ok none, after) = (w : World) → Later w after → Later w before
  Reversible before (err e, after) = (w : World) → Later w after → Later w before

  abbrev pub is_kept : FileBackup → Bool
  is_kept backup = not (eq_text backup.path []) || backup.replacement_installed

  abbrev pub ReversibleFile :
      (FileBackup → Undo World) → World → (FileBackup × Option Error) × World → Type 0
  ReversibleFile undo before ((backup, e), after) =
      if is_kept backup
      then Undoes (undo backup) after before
      else ((w : World) → Later w after → Later w before)

  pub record AreReversible (a : Adapters World) : Type 0 where
    pub later_refl : (w : World) → Later w w
    pub install_package : (n : Text) (b : Bool) (w : World) → Reversible w (a.install_package n b w)
    pub group : (s : GroupSpec) (w : World) → Reversible w (a.group s w)
    pub user : (s : UserSpec) (w : World) → Reversible w (a.user s w)
    pub sysctl : (s : SysctlSpec) (w : World) → Reversible w (a.sysctl s w)
    pub unit : (n : Text) (w : World) → Reversible w (a.unit n w)
    pub ensure_directory : (s : DirectorySpec) (w : World) → Reversible w (a.ensure_directory s w)
    pub replace_managed_file :
        (s : ManagedFileSpec) (w : World)
        → ReversibleFile a.rollback_managed_file w (a.replace_managed_file s w)

  -- If the undos, run in any world later than `now`, report no error, they leave one later than `origin`.
  abbrev pub Restores : World → List (Undo World) → World → Type 0
  Restores origin undo now =
      (w : World)
      → Later w now
      → (run_undos (reverse undo) w).0 ≡ []
      → Later (run_undos (reverse undo) w).1 origin

  -- No error of a list of undos is lost.
  run_undos-none :
      (u : Undo World) (rest : List (Undo World)) (w : World)
      → (run_undos (u ∷ rest) w).0 ≡ []
      → ((u w).0 ≡ none) × ((run_undos rest (u w).1).0 ≡ [])
  unfolding run_undos
  run_undos-none u rest w h = by_error (u w).0 h
    where
      by_error :
          (e : Option Error)
          → elim e as (λ _. List Error) [
            | some failure ↦ failure ∷ (run_undos rest (u w).1).0
            | none ↦ (run_undos rest (u w).1).0
          ]
            ≡ []
          → (e ≡ none) × ((run_undos rest (u w).1).0 ≡ [])
      by_error none k = (refl, k)
      by_error (some failure) k = cc

  Restores-push :
      (origin before after : World) (undo : List (Undo World)) (u : Undo World)
      → Restores origin undo before
      → Undoes u after before
      → Restores origin (undo ++ u ∷ []) after
  unfolding run_undos
  Restores-push origin before after undo u r h w l =
      rw (reverse-append undo (u ∷ [])) (λ (quiet : (run_undos (u ∷ reverse undo) w).0 ≡ []).
        let (first, others) = run_undos-none u (reverse undo) w quiet in
        r (u w).1 (h w l first) others)

  Restores-skip :
      (origin before after : World) (undo : List (Undo World))
      → Restores origin undo before
      → ((w : World) → Later w after → Later w before)
      → Restores origin undo after
  Restores-skip origin before after undo r h w l = r w (h w l)

  apply_undo-Restores :
      (origin before : World) (tx : Transaction World) (r : Fallible (Option (Undo World)) × World)
      → Restores origin tx.undo before
      → Reversible before r
      → let (e, tx', after) = apply_undo tx r in Restores origin tx'.undo after
  apply_undo-Restores origin before tx (ok (some u), after) r h =
      Restores-push origin before after tx.undo u r h
  apply_undo-Restores origin before tx (ok none, after) r h =
      Restores-skip origin before after tx.undo r h
  apply_undo-Restores origin before tx (err e, after) r h =
      Restores-skip origin before after tx.undo r h

  module _ (a : Adapters World) (rev : AreReversible a) where
    replaced-Restores :
        (origin before : World) (tx : Transaction World) (r : (FileBackup × Option Error) × World)
        → Restores origin tx.undo before
        → ReversibleFile a.rollback_managed_file before r
        → let (e, tx', after) = replaced a tx r in Restores origin tx'.undo after
    replaced-Restores origin before tx ((backup, e), after) r h = by_kept (is_kept backup) h
      where
        by_kept :
            (kept : Bool)
            → (if kept
                then Undoes (a.rollback_managed_file backup) after before
                else ((w : World) → Later w after → Later w before))
            → Restores origin
                (if kept
                  then record tx {
                    backups = tx.backups ++ backup ∷ [];
                    undo = tx.undo ++ a.rollback_managed_file backup ∷ [];
                  }
                  else tx).undo
                after
        by_kept true u = Restores-push origin before after tx.undo _ r u
        by_kept false s = Restores-skip origin before after tx.undo r s

    -- One call of an adapter keeps the transaction able to restore the origin.
    perform-Restores :
        (origin before : World) (tx : Transaction World) (o : Operation)
        → Restores origin tx.undo before
        → let (e, tx', after) = perform a o tx before in Restores origin tx'.undo after
    unfolding perform
    perform-Restores origin before tx (on_package n b) r =
        apply_undo-Restores origin before tx (a.install_package n b before) r
          (rev.install_package n b before)
    perform-Restores origin before tx (on_group s) r =
        apply_undo-Restores origin before tx (a.group s before) r (rev.group s before)
    perform-Restores origin before tx (on_user s) r =
        apply_undo-Restores origin before tx (a.user s before) r (rev.user s before)
    perform-Restores origin before tx (on_directory s) r =
        apply_undo-Restores origin before tx (a.ensure_directory s before) r
          (rev.ensure_directory s before)
    perform-Restores origin before tx (on_file s) r =
        replaced-Restores origin before tx (a.replace_managed_file s before) r
          (rev.replace_managed_file s before)
    perform-Restores origin before tx (on_sysctl s) r =
        apply_undo-Restores origin before tx (a.sysctl s before) r (rev.sysctl s before)
    perform-Restores origin before tx (on_unit n) r =
        apply_undo-Restores origin before tx (a.unit n before) r (rev.unit n before)

    pub apply-Restores :
        (origin before : World) (tx : Transaction World) (c : Change)
        → Restores origin tx.undo before
        → let (e, tx', after) = apply a tx c before in Restores origin tx'.undo after
    unfolding apply
    apply-Restores origin before tx c r = chosen (choose tx.profile c)
      where
        chosen :
            (o : Option Operation)
            → let (e, tx', after) = elim o as (λ _. Option Error × Transaction World × World) [
              | none ↦ (
                some (
                    message "unsupported setup transaction change %s %s"
                      (c.object ∷ c.action ∷ [])),
                tx,
                before,
              )
              | some operation ↦ perform a operation tx before
            ] in
              Restores origin tx'.undo after
        chosen none = r
        chosen (some o) = perform-Restores origin before tx o r

    -- The transaction and the world after a list of changes, each applied whatever the others did.
    abbrev pub after_all : Transaction World → World → List Change → Transaction World × World
    after_all tx w [] = (tx, w)
    after_all tx w (c ∷ rest) = let (e, tx', w') = apply a tx c w in after_all tx' w' rest

    pub begin-Restores : (profile : Profile) (w : World) → Restores w (begin profile).undo w
    unfolding run_undos
    begin-Restores profile w v l quiet = l

    join_errors-none : (l : List Error) → join_errors l ≡ none → l ≡ []
    join_errors-none [] h = refl
    join_errors-none (e ∷ []) h = cc
    join_errors-none (e ∷ f ∷ rest) h = by_rest (join_errors (f ∷ rest)) h
      where
        by_rest :
            (o : Option Error)
            → elim o as (λ _. Option Error) [ none ↦ some e | some g ↦ some (joined e g) ] ≡ none
            → e ∷ f ∷ rest ≡ []
        by_rest none k = cc
        by_rest (some g) k = cc

    pub rollback-Restores :
        (origin now : World) (tx : Transaction World)
        → Restores origin tx.undo now
        → (rollback tx now).0 ≡ none
        → Later (rollback tx now).1 origin
    unfolding rollback
    rollback-Restores origin now tx r h = r now (rev.later_refl now) (join_errors-none _ h)
