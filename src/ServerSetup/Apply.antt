-- ===== src/ServerSetup/Apply.antt =====
-- internal/serversetup/apply.go, and buildCurrentPlan and loadSetupState of plugin.go: the mutation of a server's setup. What
-- it reads of the host is the record `Host`.
pub mod Atomic
pub mod Approved
use ohinfra_plugins.Base.{
  ◌≡◌, refl, Text, codes, eq_text, Bool, true, false, not, List, [], ◌∷◌, map, Option, none, some,
  if◌then◌else◌, Fallible, Checked, ok, err, Error, failure, message, wrapped, exit_error,
  primary_and_rollback, described, joined, not_found, ◌||◌, require, pos, ◌>>=◌, ◌>>◌, ℕ, any, ◌==◌,
}
use ohinfra_plugins.Protocol.Types.{
  Status, pass, Check, Change, Plan, Invocation, Manifest, Slice, elements, exit_arguments,
  exit_general, exit_configuration, exit_dependency,
}
use ohinfra_plugins.Protocol.ReadOnly.{read_only_plan}
use ohinfra_plugins.ServerSetup.Profile.{
  Config, Info, Profile, default_config, validate_config, resolve_profile,
}
use ohinfra_plugins.Protocol.Serve.{normalize_plan}
use ohinfra_plugins.ServerSetup.Plan.{
  PlanMode, upgrade, PlanInput, status_of, build_setup_plan, plan_mode_for_path,
}
use ohinfra_plugins.ServerSetup.Transaction.{Adapters, Transaction, begin, rollback, apply, commit}
use ohinfra_plugins.ServerSetup.Transaction

-- `Options`, the context, and what a mutation calls to read the host: the hex SHA-256 and the JSON
-- of a plan, `config.Load`, `platform.Detect`, `Checker.Run`, `CachedUpgrades` and `ctx.Err`.
pub record Host (World : Type 0) : Type 0 where
  pub digest : Text → Text
  pub encode : Plan → Fallible Text
  pub load : Config → World → Fallible Config
  pub detect : World → Fallible Info
  pub run_checks : Profile → Config → World → Fallible (List Check)
  pub cached_upgrades : List Text → World → Fallible (List Text)
  pub context_error : World → Option Error

-- What is passed to `resultbuilder.Build`, but for the tool, the host and the time.
pub record BuildInput : Type 0 where
  pub command : List Text
  pub checks : List Check
  pub profile_id : Option Text
  pub changes : List Change

abbrev with_code {ℓ} : {A : Type ℓ} → ℕ → (Error → Error) → Fallible A → Fallible A
with_code code describe (ok a) = ok a
with_code code describe (err e) = err (exit_error (pos code) (describe e))

abbrev argument_error {ℓ} : {A : Type ℓ} → Error → Fallible A
argument_error e = err (exit_error (pos exit_arguments) e)

-- `errors.Is(err, execx.ErrNotFound)`
abbrev is_not_found : Error → Bool
is_not_found not_found = true
is_not_found (wrapped text e) = is_not_found e
is_not_found (exit_error code e) = is_not_found e
is_not_found (joined d e) = is_not_found d || is_not_found e
is_not_found e = false

abbrev pub is_pass : Status → Bool
is_pass pass = true
is_pass s = false

-- `errors.Is(err, execx.ErrNotFound)` chooses the exit code.
abbrev upgrade_error {ℓ} : {A : Type ℓ} → Fallible A → Fallible A
upgrade_error (ok a) = ok a
upgrade_error (err e) = err (
    exit_error (pos (if is_not_found e then exit_dependency else exit_general))
      (described "inspect cached upgrades: " e))

-- `setupTransactionFailure`: the redacted text of the error, and of the one of the rollback.
abbrev pub setup_transaction_failure : Error → Option Error → Error
setup_transaction_failure primary none = exit_error (pos exit_general) (described "" primary)
setup_transaction_failure primary (some rolled) =
    exit_error (pos exit_general) (primary_and_rollback primary rolled)

-- `verifyPlannedChanges`, whose two branches test the same.
unfoldable pub verify_planned_changes : List Change → List Check → Checked
verify_planned_changes [] checks = ok tt
verify_planned_changes (change ∷ rest) checks = do
  require (is_pass (status_of checks change.object))
      (message "verification failed for %s" (change.object ∷ []))
  verify_planned_changes rest checks

module _ {World : Type 0} (host : Host World) where
  -- `PlanDigest`
  unfoldable pub plan_digest : Plan → Fallible Text
  plan_digest plan = elim (host.encode (normalize_plan plan)) [
    | err e ↦ err (wrapped "encode operation plan: %w" e)
    | ok encoded ↦ ok (host.digest encoded)
  ]

  abbrev with_context : Fallible Config → Fallible Config
  with_context (ok settings) = ok settings
  with_context (err e) = err (wrapped "load server-setup-base config: %w" e)

  -- `LoadConfig`
  unfoldable pub load_config : World → Fallible Config
  load_config w = do
    settings ← with_context (host.load default_config w)
    validate_config settings
    ok settings

  unfoldable pub load_setup_state : World → Fallible (Config × Profile)
  load_setup_state w = do
    settings ← with_code exit_configuration (λ e. e) (load_config w)
    detected ← with_code exit_configuration (described "detect setup platform: ") (host.detect w)
    profile ← with_code exit_configuration (λ e. e) (resolve_profile host.digest settings detected)
    ok (settings, profile)

  abbrev upgrades_for : PlanMode → Profile → World → Fallible (List Text)
  upgrades_for upgrade profile w = upgrade_error (host.cached_upgrades profile.packages w)
  upgrades_for mode profile w = ok []

  unfoldable pub build_current_plan : Invocation → Manifest → World → Fallible Plan
  build_current_plan invocation manifest w = do
    checked ← read_only_plan (host.context_error w) invocation manifest
    mode ← plan_mode_for_path invocation.command_path
    (settings, profile) ← load_setup_state w
    current ← host.run_checks profile settings w
    upgrades ← upgrades_for mode profile w
    build_setup_plan
        (record { mode = mode; profile = profile; checks = current; cached_upgrades = upgrades })

-- How the loop over the changes ended early.
pub data Stop : Type 0 where
  at_context at_change : Error → Stop

abbrev pub applied : Change → Change
applied change = record change { status = codes "applied" }

module _ {World : Type 0} (host : Host World) (adapters : Adapters World) where
  -- The loop over the changes of the plan.
  unfoldable pub apply_changes :
      List Change → Transaction World → World → Option Stop × Transaction World × World
  apply_changes [] tx w = (none, tx, w)
  apply_changes (change ∷ rest) tx w = elim (host.context_error w) [
    | some e ↦ (some (at_context e), tx, w)
    | none ↦
        let (e, tx', w') = apply adapters tx change w in
        elim e [
          | some failure ↦ (some (at_change failure), tx', w')
          | none ↦ apply_changes rest tx' w'
        ]
  ]

  -- `_ = rollbackSetupTransaction(transaction); return Result{}, err`
  abbrev pub abandon : Error → Transaction World → World → Fallible BuildInput × World
  abandon e tx w = let (rolled, w') = rollback tx w in (err e, w')

  -- `return Result{}, setupTransactionFailure(err, rollbackSetupTransaction(transaction))`
  abbrev pub fail : Error → Transaction World → World → Fallible BuildInput × World
  fail e tx w = let (rolled, w') = rollback tx w in (err (setup_transaction_failure e rolled), w')

  abbrev pub after_commit :
      List Text
      → Profile
      → List Check
      → List Change
      → Option Error × Transaction World × World
      → Fallible BuildInput × World
  after_commit path profile checks changes (some failure, tx, w) = fail failure tx w
  after_commit path profile checks changes (none, tx, w) = (
    ok (record {
      command = path;
      checks = checks;
      profile_id = some profile.id;
      changes = map applied changes;
    }),
    w,
  )

  abbrev pub after_verify :
      List Text
      → Profile
      → List Check
      → List Change
      → Transaction World
      → World
      → Checked
      → Fallible BuildInput × World
  after_verify path profile checks changes tx w (err e) = fail e tx w
  after_verify path profile checks changes tx w (ok done) =
      after_commit path profile checks changes (commit adapters tx w)

  abbrev pub after_recheck :
      List Text
      → Profile
      → List Change
      → Transaction World
      → World
      → Fallible (List Check)
      → Fallible BuildInput × World
  after_recheck path profile changes tx w (err e) = abandon e tx w
  after_recheck path profile changes tx w (ok checks) =
      after_verify path profile checks changes tx w (verify_planned_changes changes checks)

  abbrev pub after_reload :
      List Text
      → List Change
      → Transaction World
      → World
      → Fallible (Config × Profile)
      → Fallible BuildInput × World
  after_reload path changes tx w (err e) = abandon e tx w
  after_reload path changes tx w (ok (settings, profile)) =
      after_recheck path profile changes tx w (host.run_checks profile settings w)

  -- What follows the loop: the checks are run again, and the changes are verified and committed.
  abbrev pub after_loop :
      List Text
      → List Change
      → Option Stop × Transaction World × World
      → Fallible BuildInput × World
  after_loop path changes (some (at_context e), tx, w) = abandon e tx w
  after_loop path changes (some (at_change e), tx, w) = fail e tx w
  after_loop path changes (none, tx, w) = after_reload path changes tx w (load_setup_state host w)

  unfoldable pub run_transaction :
      List Text → List Change → Profile → World → Fallible BuildInput × World
  run_transaction path changes profile w =
      after_loop path changes (apply_changes changes (begin profile) w)

  abbrev nothing_to_do : List Text → BuildInput
  nothing_to_do path = record { command = path; checks = []; profile_id = none; changes = [] }

  -- The digest of the plan is compared with the one of the invocation.
  abbrev pub compared : Text → Plan → Fallible Text → Fallible Plan
  compared want plan (err e) = err (exit_error (pos exit_general) e)
  compared want plan (ok digest) = do
    require (eq_text want digest)
        (exit_error (pos exit_arguments) (failure "setup plan digest does not match current state"))
    ok plan

  -- The plan of an invocation whose digest is the one that it gives.
  unfoldable pub approved_plan : Invocation → Manifest → World → Fallible Plan
  approved_plan invocation manifest w = do
    require (not (eq_text invocation.plan_digest []))
        (exit_error (pos exit_arguments) (failure "setup mutation requires a plan digest"))
    plan ← build_current_plan host invocation manifest w
    compared invocation.plan_digest plan (plan_digest host plan)

  abbrev pub after_load :
      List Text → List Change → World → Fallible (Config × Profile) → Fallible BuildInput × World
  after_load path changes w (err e) = (err e, w)
  after_load path changes w (ok (settings, profile)) = run_transaction path changes profile w

  abbrev pub after_approval :
      List Text → World → Fallible (List Change) → Fallible BuildInput × World
  after_approval path w (err e) = (err e, w)
  after_approval path w (ok []) = (ok (nothing_to_do path), w)
  after_approval path w (ok (change ∷ rest)) =
      after_load path (change ∷ rest) w (load_setup_state host w)

  unfoldable pub execute_mutation : Invocation → Manifest → World → Fallible BuildInput × World
  execute_mutation invocation manifest w =
      after_approval invocation.command_path w
        (do plan ← approved_plan invocation manifest w; ok (elements plan.changes))
