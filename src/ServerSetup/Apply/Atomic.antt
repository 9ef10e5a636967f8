-- ===== src/ServerSetup/Apply/Atomic.antt =====
-- A mutation takes place as a whole or not at all.
use ohinfra_plugins.Base.{◌≡◌, List, some, Fallible, ok, err, Error, ◌⊎◌}
use ohinfra_plugins.Protocol.Types.{Change}
use ohinfra_plugins.ServerSetup.Profile.{Config, Profile}
use ohinfra_plugins.ServerSetup.Transaction.{Adapters, Transaction, begin, commit, rollback}
use ohinfra_plugins.ServerSetup.Transaction.Rollback.{AreReversible}
use ohinfra_plugins.ServerSetup.Apply.{Host, BuildInput, load_setup_state, apply_changes}

module _ {World : Type 0} (Later : World → World → Type 0) (host : Host World) (a : Adapters World)
    (rev : AreReversible Later a) where
  -- The transaction `tx`, rolled back or committed in the world `before`, has reported an error, and
  -- `now` is the world that the rollback left.
  pub data IsBroken (tx : Transaction World) (before now : World) : Type 0 where
    rollback_failed :
        (failure : Error)
        → (rollback tx before).0 ≡ some failure
        → now ≡ (rollback tx before).1
        → IsBroken tx before now
    commit_failed :
        (failure : Error) (between : World)
        → commit a tx before ≡ (some failure, tx, between)
        → now ≡ (rollback tx between).1
        → IsBroken tx before now

  -- What an error of the transaction `tx` in the world `before` leaves of the world `w`.
  abbrev pub Leaves : World → Transaction World → World → Fallible BuildInput × World → Type 0
  Leaves w tx before (ok r, now) = Unit
  Leaves w tx before (err e, now) = Later now w ⊎ IsBroken tx before now

  -- Where a mutation that may make `approved` stands when its transaction has made its changes: that
  -- of the configured profile in the world `w`.
  pub record Stands (approved : Fallible (List Change)) (w : World) (tx : Transaction World)
      (before : World) : Type 0 where
    pub changes : List Change
    pub settings : Config
    pub profile : Profile
    pub are_approved : approved ≡ ok changes
    pub is_configured : load_setup_state host w ≡ ok (settings, profile)
    pub transaction : (apply_changes host a changes (begin profile) w).1 ≡ tx
    pub world : (apply_changes host a changes (begin profile) w).2 ≡ before

  -- An error leaves the world as it was, but for leftovers, or the transaction of this mutation has
  -- reported an error when it was rolled back or committed.
  abbrev pub IsAtomic : Fallible (List Change) → World → Fallible BuildInput × World → Type 0
  IsAtomic approved w (ok r, now) = Unit
  IsAtomic approved w (err e, now) =
      Later now w
      ⊎ ((tx : Transaction World) × (before : World) × Stands approved w tx before
          × IsBroken tx before now)
