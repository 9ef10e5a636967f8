-- ===== src/ServerSetup/Transaction.antt =====
-- internal/serversetup/transaction.go: the transaction that applies changes and can undo them. The
-- adapters change the world, of a type that is a parameter; each is a function on it.
pub mod Rollback
pub mod Planned
use ohinfra_plugins.Base.{
  ℕ, ◌≡◌, refl, Text, codes, eq_text, cut_prefix, Bool, true, false, ◌&&◌, ◌||◌, not, List, [], ◌∷◌,
  ◌++◌, reverse, Option, none, some, if◌then◌else◌, Fallible, ok, err, Error, failure, message,
  joined,
}
use ohinfra_plugins.Protocol.Types.{Change}
use ohinfra_plugins.ServerSetup.Profile.{
  GroupSpec, UserSpec, DirectorySpec, ManagedFileSpec, SysctlSpec, Profile,
}
use ohinfra_plugins.ServerSetup.Plan.{contains}

-- `fileBackup`
pub record FileBackup : Type 0 where
  pub target : Text
  pub path : Text
  pub had_original : Bool
  pub replacement_installed : Bool

module _ (World : Type 0) where
  -- `MutationUndo`: the error it returns, if any, and the world it leaves.
  abbrev pub Undo : Type 0
  Undo = World → Option Error × World

  -- What an adapter's call returns: an undo, which may be nil, or an error.
  abbrev pub Mutation : Type 0
  Mutation = World → Fallible (Option Undo) × World

  -- `MutationCommandAdapter` and `MutationFileAdapter`
  pub record Adapters : Type 0 where
    pub install_package : Text → Bool → Mutation
    pub group : GroupSpec → Mutation
    pub user : UserSpec → Mutation
    pub sysctl : SysctlSpec → Mutation
    pub unit : Text → Mutation
    pub ensure_directory : DirectorySpec → Mutation
    pub replace_managed_file : ManagedFileSpec → World → (FileBackup × Option Error) × World
    pub rollback_managed_file : FileBackup → Undo
    pub commit_managed_file : FileBackup → Undo

  -- `localSetupTransaction`: the last undo is the one that was added last.
  pub record Transaction : Type 0 where
    pub profile : Profile
    pub backups : List FileBackup
    pub undo : List Undo

module _ {World : Type 0} where
  abbrev pub begin : Profile → Transaction World
  begin profile = record { profile = profile; backups = []; undo = [] }

  -- `applyUndo`
  abbrev pub apply_undo :
      Transaction World
      → Fallible (Option (Undo World)) × World
      → Option Error × Transaction World × World
  apply_undo tx (ok (some u), w) = (none, record tx { undo = tx.undo ++ u ∷ [] }, w)
  apply_undo tx (ok none, w) = (none, tx, w)
  apply_undo tx (err e, w) = (some e, tx, w)

-- The adapter's call that the switch of `Apply` chooses, with the resource found in the profile.
pub data Operation : Type 0 where
  on_package : Text → Bool → Operation
  on_group : GroupSpec → Operation
  on_user : UserSpec → Operation
  on_directory : DirectorySpec → Operation
  on_file : ManagedFileSpec → Operation
  on_sysctl : SysctlSpec → Operation
  on_unit : Text → Operation

-- The loop that looks for the resource of a name.
unfoldable pub find_named : {A : Type 0} → (A → Text) → List A → Text → Option A
find_named name [] want = none
find_named name (a ∷ rest) want =
    if eq_text (name a) want then some a else find_named name rest want

abbrev pub for_resource : {A : Type 0} → (A → Operation) → Option A → Option Operation
for_resource operation none = none
for_resource operation (some a) = some (operation a)

abbrev when : Bool → Option Operation → Option Operation
when true o = o
when false o = none

-- The cases of the switch, by the prefix of the object; `none` is the unsupported change behind it.
abbrev pub choose_package : Profile → Text → Text → Option Operation
choose_package profile action name =
    when
      (contains profile.packages name
        && (eq_text action (codes "install-cached") || eq_text action (codes "upgrade-cached")))
      (some (on_package name (eq_text action (codes "upgrade-cached"))))

abbrev pub choose_group : Profile → Text → Text → Option Operation
choose_group profile action name =
    when (eq_text action (codes "create"))
      (for_resource on_group (find_named (λ (s : GroupSpec). s.name) profile.groups name))

abbrev pub choose_user : Profile → Text → Text → Option Operation
choose_user profile action name =
    when (eq_text action (codes "create"))
      (for_resource on_user (find_named (λ (s : UserSpec). s.name) profile.users name))

abbrev pub choose_directory : Profile → Text → Text → Option Operation
choose_directory profile action path = when (eq_text action (codes "ensure")) (
    for_resource on_directory (find_named (λ (s : DirectorySpec). s.path) profile.directories path))

abbrev pub choose_file : Profile → Text → Text → Option Operation
choose_file profile action path =
    when (eq_text action (codes "replace")) (
      for_resource on_file
        (find_named (λ (s : ManagedFileSpec). s.path) profile.managed_files path))

abbrev pub choose_sysctl : Profile → Text → Text → Option Operation
choose_sysctl profile action key =
    when (eq_text action (codes "set"))
      (for_resource on_sysctl (find_named (λ (s : SysctlSpec). s.key) profile.sysctls key))

abbrev pub choose_unit : Profile → Text → Text → Option Operation
choose_unit profile action unit =
    when (eq_text action (codes "enable") && contains profile.units unit) (some (on_unit unit))

abbrev or_next : Option Text → (Text → Option Operation) → Option Operation → Option Operation
or_next none choose next = next
or_next (some name) choose next = choose name

unfoldable pub choose : Profile → Change → Option Operation
choose profile change =
    or_next (cut_prefix change.object (codes "package:")) (choose_package profile change.action) (
      or_next (cut_prefix change.object (codes "group:")) (choose_group profile change.action) (
        or_next (cut_prefix change.object (codes "user:")) (choose_user profile change.action) (
          or_next (cut_prefix change.object (codes "directory:"))
            (choose_directory profile change.action)
            (or_next (cut_prefix change.object (codes "file:")) (choose_file profile change.action)
              (or_next (cut_prefix change.object (codes "sysctl:"))
                (choose_sysctl profile change.action)
                (or_next (cut_prefix change.object (codes "unit:"))
                  (choose_unit profile change.action) none))))))

module _ {World : Type 0} (adapters : Adapters World) where
  -- A backup that holds anything is kept for the commit and for the rollback.
  abbrev keep_backup : Transaction World → FileBackup → Transaction World
  keep_backup tx backup =
      if not (eq_text backup.path []) || backup.replacement_installed
      then record tx {
        backups = tx.backups ++ backup ∷ [];
        undo = tx.undo ++ adapters.rollback_managed_file backup ∷ [];
      }
      else tx

  abbrev replaced :
      Transaction World
      → (FileBackup × Option Error) × World
      → Option Error × Transaction World × World
  replaced tx ((backup, e), w) = (e, keep_backup tx backup, w)

  unfoldable pub perform :
      Operation → Transaction World → World → Option Error × Transaction World × World
  perform (on_package name is_upgrade) tx w =
      apply_undo tx (adapters.install_package name is_upgrade w)
  perform (on_group spec) tx w = apply_undo tx (adapters.group spec w)
  perform (on_user spec) tx w = apply_undo tx (adapters.user spec w)
  perform (on_directory spec) tx w = apply_undo tx (adapters.ensure_directory spec w)
  perform (on_file spec) tx w = replaced tx (adapters.replace_managed_file spec w)
  perform (on_sysctl spec) tx w = apply_undo tx (adapters.sysctl spec w)
  perform (on_unit name) tx w = apply_undo tx (adapters.unit name w)

  -- `Apply`
  unfoldable pub apply :
      Transaction World → Change → World → Option Error × Transaction World × World
  apply tx change w = elim (choose tx.profile change) [
    | none ↦ (
      some (
          message "unsupported setup transaction change %s %s"
            (change.object ∷ change.action ∷ [])),
      tx,
      w,
    )
    | some operation ↦ perform operation tx w
  ]

  -- The loop of `Commit`: the first error ends it.
  unfoldable pub commit_all : List FileBackup → World → Option Error × World
  commit_all [] w = (none, w)
  commit_all (backup ∷ rest) w =
      let (e, w') = adapters.commit_managed_file backup w in
      elim e [ some failure ↦ (some failure, w') | none ↦ commit_all rest w' ]

  -- `Commit`
  unfoldable pub commit : Transaction World → World → Option Error × Transaction World × World
  unfolding commit_all
  commit tx w =
      let (e, w') = commit_all tx.backups w in
      elim e [
        | some failure ↦ (some failure, tx, w')
        | none ↦ (none, record tx { backups = []; undo = [] }, w')
      ]

-- `errors.Join`
abbrev pub join_errors : List Error → Option Error
join_errors [] = none
join_errors (e ∷ []) = some e
join_errors (e ∷ f ∷ rest) = elim (join_errors (f ∷ rest)) [
  | none ↦ some e
  | some g ↦ some (joined e g)
]

module _ {World : Type 0} where
  -- The loop of `Rollback`, over the undos from the last one to the first: each one is run.
  unfoldable pub run_undos : List (Undo World) → World → List Error × World
  run_undos [] w = ([], w)
  run_undos (u ∷ rest) w =
      let (e, w') = u w in
      let (failures, w'') = run_undos rest w' in
      (elim e [ some failure ↦ failure ∷ failures | none ↦ failures ], w'')

  -- `Rollback`
  unfoldable pub rollback : Transaction World → World → Option Error × World
  unfolding run_undos
  rollback tx w = let (failures, w') = run_undos (reverse tx.undo) w in (join_errors failures, w')
