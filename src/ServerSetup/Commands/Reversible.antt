-- ===== src/ServerSetup/Commands/Reversible.antt =====
-- The changes that run programs, under what the rollback of a transaction needs of an adapter.
use ohinfra_plugins.Base.{Text, Bool}
use ohinfra_plugins.ServerSetup.Profile.{GroupSpec, UserSpec, SysctlSpec}
use ohinfra_plugins.ServerSetup.Transaction.{Adapters}
use ohinfra_plugins.ServerSetup.Transaction.Rollback.{Reversible}
use ohinfra_plugins.ServerSetup.Commands.{
  Machine, mutate_package, add_group, add_user, set_sysctl, enable_unit,
}

module _ {World : Type 0} (Later : World → World → Type 0) (machine : Machine World) where
  -- The five changes that run programs are what the rollback of a transaction needs them to be.
  pub record HasReversibleCommands : Type 0 where
    pub install_package :
        (n : Text) (b : Bool) (w : World) → Reversible Later w (mutate_package machine n b w)
    pub group : (s : GroupSpec) (w : World) → Reversible Later w (add_group machine s w)
    pub user : (s : UserSpec) (w : World) → Reversible Later w (add_user machine s w)
    pub sysctl : (s : SysctlSpec) (w : World) → Reversible Later w (set_sysctl machine s w)
    pub unit : (n : Text) (w : World) → Reversible Later w (enable_unit machine n w)

-- The adapters of a transaction with those of `localMutationCommands` for a machine, and the files of `a`.
abbrev pub with_commands : {World : Type 0} → Machine World → Adapters World → Adapters World
with_commands machine a = record a {
  install_package = mutate_package machine;
  group = add_group machine;
  user = add_user machine;
  sysctl = set_sysctl machine;
  unit = enable_unit machine;
}
