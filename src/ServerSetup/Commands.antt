-- ===== src/ServerSetup/Commands.antt =====
-- internal/serversetup/commands.go and upgrade.go: the programs that the changes run. What they do to the world,
-- of a type that is a parameter, and what the context says in it, is a machine.
pub mod Upgrades
pub mod Undoable
pub mod Reversible
use ohinfra_plugins.Base.{
  ℕ, ◌+◌, ◌*◌, ◌^◌, Text, codes, eq_text, Bool, true, false, not, ◌&&◌, ◌||◌, List, [], ◌∷◌, ◌++◌,
  all, any, length, leb, ◌==◌, Option, none, some, Fallible, ok, err, Error, failure, message,
  if◌then◌else◌, ℤ, pos, negsuc, eq_int, trim_space, keep, fields,
}
use ohinfra_plugins.Paths.{is_abs}
use ohinfra_plugins.Scan.{split_at_byte}
use ohinfra_plugins.Probe.Commands.{ProbeCommand, Spec, Output, prepare_run}
use ohinfra_plugins.ServerSetup.Profile.{GroupSpec, UserSpec, SysctlSpec}
use ohinfra_plugins.ServerSetup.Transaction.{Undo}

abbrev is_small_letter : ℕ → Bool
is_small_letter c = leb b'a' c && leb c b'z'

abbrev is_number : ℕ → Bool
is_number c = leb b'0' c && leb c b'9'

abbrev is_letter_or_number : ℕ → Bool
is_letter_or_number c = is_small_letter c || (leb b'A' c && leb c b'Z' || is_number c)

-- `^[first][rest]{0,most}$`
abbrev is_name_of : (ℕ → Bool) → (ℕ → Bool) → ℕ → Text → Bool
is_name_of first rest most [] = false
is_name_of first rest most (c ∷ s) = first c && (all rest s && leb (length s) most)

abbrev pub is_one_of : Text → ℕ → Bool
is_one_of bytes c = any (λ d. c == d) bytes

-- `compiledName`, `compiledUnit`, `compiledSysctl` and `compiledVersion`
unfoldable pub compiled_name : Text → Bool
compiled_name s =
    is_name_of is_small_letter
      (λ c. is_small_letter c || (is_number c || is_one_of (codes "+.-") c)) 127 s

unfoldable pub compiled_unit : Text → Bool
compiled_unit s =
    is_name_of is_letter_or_number (λ c. is_letter_or_number c || is_one_of (codes "@_.:-") c) 254 s

unfoldable pub compiled_sysctl : Text → Bool
compiled_sysctl s =
    is_name_of is_small_letter (λ c. is_small_letter c || (is_number c || is_one_of (codes "_.") c))
      254 s

unfoldable pub compiled_version : Text → Bool
compiled_version s =
    is_name_of is_letter_or_number (λ c. is_letter_or_number c || is_one_of (codes ".+:~_-") c) 254
      s

abbrev installs : List Text → Option Text
installs (action ∷ name ∷ rest) = if eq_text action (codes "Inst") then some name else none
installs _ = none

-- A line of the simulation installs a package.
abbrev pub upgrades_to : Text → Text → Bool
upgrades_to name line = elim (installs (fields line)) [ none ↦ false | some n ↦ eq_text n name ]

abbrev pub simulation : List Text → List Text
simulation packages =
    codes "--no-download"
    ∷ codes "--simulate"
    ∷ codes "--only-upgrade"
    ∷ codes "install"
    ∷ codes "--"
    ∷ packages

-- The packages for which there is a line, in the order of the packages.
unfoldable pub found_upgrades : List Text → List Text → List Text
found_upgrades packages lines = keep (λ name. any (upgrades_to name) lines) packages

module _ (World : Type 0) where
  pub record Machine : Type 0 where
    pub context : World → Option Error
    pub run_program : Spec → World → Fallible Output × World

abbrev pub given : {A : Type 0} → Bool → Error → A → Fallible A
given true e a = ok a
given false e a = err e

module _ {World : Type 0} where
  abbrev pub and_then_run :
      {A B : Type 0} → (A → World → Fallible B × World) → Fallible A × World → Fallible B × World
  and_then_run k (ok a, w) = k a w
  and_then_run k (err e, w) = (err e, w)

  infixl 5 ◌>>=◌
  abbrev ◌>>=◌ :
      {A B : Type 0}
      → (World → Fallible A × World)
      → (A → World → Fallible B × World)
      → World
      → Fallible B × World
  ◌>>=◌ m k w = and_then_run k (m w)

  abbrev give : {A : Type 0} → Fallible A → World → Fallible A × World
  give r w = (r, w)

  module _ (machine : Machine World) where
    abbrev pub prepared : Fallible Spec → World → Fallible Output × World
    prepared (ok spec) w = machine.run_program spec w
    prepared (err e) w = (err e, w)

    abbrev pub run_within : ℤ → Text → List Text → World → Fallible Output × World
    run_within limit program arguments w =
        prepared
          (prepare_run (machine.context w) (record {
            program = program;
            arguments = arguments;
            stdout_limit = limit;
            stderr_limit = pos (64 * 2 ^ 10);
          }))
          w

    abbrev pub checked_exit : Text → Fallible Output × World → Fallible Output × World
    checked_exit program (ok output, w) =
        if eq_int output.exit_code (pos 0)
        then (ok output, w)
        else (err (message "%s failed with exit code %d" (program ∷ [])), w)
    checked_exit program (err e, w) = (err e, w)

    -- `output`
    unfoldable pub run_output : Text → List Text → World → Fallible Output × World
    run_output program arguments w =
        checked_exit program (run_within (pos (64 * 2 ^ 10)) program arguments w)

    abbrev pub undone : Fallible Output × World → Option Error × World
    undone (ok output, w) = (none, w)
    undone (err e, w) = (some e, w)

    -- `run`, in an undo.
    abbrev pub undo_by : Text → List Text → Undo World
    undo_by program arguments w = undone (run_output program arguments w)

    -- What follows the command of a change that has an undo.
    abbrev pub with_undo : Undo World → Output → World → Fallible (Option (Undo World)) × World
    with_undo undo output w = (ok (some undo), w)

    abbrev pub upgrade_package : Text → World → Fallible (Option (Undo World)) × World
    upgrade_package name = do
      output ←
          run_output (codes "dpkg-query")
            (codes "-W" ∷ codes "-f=${Version}\n" ∷ codes "--" ∷ name ∷ [])
      version ← give (
          given (compiled_version (trim_space output.stdout))
            (failure "installed package version is unavailable for rollback")
            (trim_space output.stdout))
      upgraded ← run_output (codes "apt-get") (
          codes "--no-download"
          ∷ codes "--yes"
          ∷ codes "--only-upgrade"
          ∷ codes "install"
          ∷ codes "--"
          ∷ name
          ∷ [])
      with_undo
          (undo_by (codes "apt-get") (
            codes "--no-download"
            ∷ codes "--yes"
            ∷ codes "install"
            ∷ codes "--"
            ∷ (name ++ b'=' ∷ version)
            ∷ []))
          upgraded

    abbrev pub install_new : Text → World → Fallible (Option (Undo World)) × World
    install_new name = do
      output ←
          run_output (codes "apt-get")
            (codes "--no-download" ∷ codes "--yes" ∷ codes "install" ∷ codes "--" ∷ name ∷ [])
      with_undo
          (undo_by (codes "apt-get") (codes "--yes" ∷ codes "remove" ∷ codes "--" ∷ name ∷ []))
          output

    -- `Package`
    unfoldable pub mutate_package : Text → Bool → World → Fallible (Option (Undo World)) × World
    mutate_package name upgrade = do
      known ← give (given (compiled_name name) (failure "invalid compiled package name") name)
      if upgrade then upgrade_package known else install_new known

    -- `Group`
    unfoldable pub add_group : GroupSpec → World → Fallible (Option (Undo World)) × World
    add_group spec = do
      name ← give (
          given (compiled_name spec.name && spec.system) (failure "invalid compiled group")
            spec.name)
      output ← run_output (codes "groupadd") (codes "--system" ∷ codes "--" ∷ name ∷ [])
      with_undo (undo_by (codes "groupdel") (codes "--" ∷ name ∷ [])) output

    -- `User`
    unfoldable pub add_user : UserSpec → World → Fallible (Option (Undo World)) × World
    add_user spec = do
      name ← give (
          given
            (compiled_name spec.name
              && (compiled_name spec.primary_group
                  && (spec.system && (is_abs spec.home && is_abs spec.shell))))
            (failure "invalid compiled user") spec.name)
      output ← run_output (codes "useradd") (
          codes "--system"
          ∷ codes "--gid"
          ∷ spec.primary_group
          ∷ codes "--home-dir"
          ∷ spec.home
          ∷ codes "--shell"
          ∷ spec.shell
          ∷ codes "--no-create-home"
          ∷ codes "--"
          ∷ name
          ∷ [])
      with_undo (undo_by (codes "userdel") (codes "--" ∷ name ∷ [])) output

    -- `Sysctl`
    unfoldable pub set_sysctl : SysctlSpec → World → Fallible (Option (Undo World)) × World
    set_sysctl spec = do
      key ← give (
          given
            (compiled_sysctl spec.key
              && not (any (is_one_of (32 ∷ 9 ∷ 13 ∷ 10 ∷ b'=' ∷ [])) spec.value))
            (failure "invalid compiled sysctl") spec.key)
      output ← run_output (codes "sysctl") (codes "-n" ∷ codes "--" ∷ key ∷ [])
      old ← give (
          given (not (any (is_one_of (13 ∷ 10 ∷ b'=' ∷ [])) (trim_space output.stdout)))
            (failure "current sysctl value is unsafe for rollback") (trim_space output.stdout))
      written ←
          run_output (codes "sysctl") (codes "-w" ∷ codes "--" ∷ (key ++ b'=' ∷ spec.value) ∷ [])
      with_undo (undo_by (codes "sysctl") (codes "-w" ∷ codes "--" ∷ (key ++ b'=' ∷ old) ∷ []))
          written

    abbrev pub undo_enable : Bool → Text → Undo World
    undo_enable true unit w = (none, w)
    undo_enable false unit w =
        undo_by (codes "systemctl") (codes "disable" ∷ codes "--" ∷ unit ∷ []) w

    -- `Unit`
    unfoldable pub enable_unit : Text → World → Fallible (Option (Undo World)) × World
    enable_unit unit = do
      known ← give (given (compiled_unit unit) (failure "invalid compiled unit") unit)
      state ← run_output (codes "systemctl") (codes "is-enabled" ∷ codes "--" ∷ known ∷ [])
      enabled ← run_output (codes "systemctl") (codes "enable" ∷ codes "--" ∷ known ∷ [])
      with_undo (undo_enable (eq_text (trim_space state.stdout) (codes "enabled")) known) enabled

    abbrev pub succeeded : Fallible Output × World → Fallible Output × World
    succeeded (ok output, w) =
        if eq_int output.exit_code (pos 0)
        then (ok output, w)
        else (err (failure "apt-get cached-upgrade probe failed with exit code %d"), w)
    succeeded (err e, w) = (err e, w)

    -- `CachedUpgrades`
    unfoldable pub cached_upgrades : List Text → World → Fallible (List Text) × World
    cached_upgrades packages = do
      known ←
          give
            (given (all compiled_name packages) (failure "invalid compiled package name") packages)
      output ← λ w. succeeded (run_within (pos (2 ^ 20)) (codes "apt-get") (simulation known) w)
      give (ok (found_upgrades known (split_at_byte 10 output.stdout)))
