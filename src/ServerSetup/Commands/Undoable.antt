-- ===== src/ServerSetup/Commands/Undoable.antt =====
-- What the programs that the changes run are relied on for, by their command lines.
use ohinfra_plugins.Base.{
  ◌≡◌, Text, codes, List, [], ◌∷◌, ◌++◌, Fallible, ok, err, Error, trim_space,
}
use ohinfra_plugins.Probe.Commands.{Output}
use ohinfra_plugins.ServerSetup.Profile.{UserSpec}
use ohinfra_plugins.ServerSetup.Commands.{Machine, run_output}

-- A program with its arguments.
abbrev pub CommandLine : Type 0
CommandLine = Text × List Text

abbrev pub install : Text → CommandLine
install name = (
  codes "apt-get",
  codes "--no-download" ∷ codes "--yes" ∷ codes "install" ∷ codes "--" ∷ name ∷ [],
)

abbrev pub remove_package : Text → CommandLine
remove_package name = (codes "apt-get", codes "--yes" ∷ codes "remove" ∷ codes "--" ∷ name ∷ [])

abbrev pub query_version : Text → CommandLine
query_version name =
    (codes "dpkg-query", codes "-W" ∷ codes "-f=${Version}\n" ∷ codes "--" ∷ name ∷ [])

abbrev pub upgrade_only : Text → CommandLine
upgrade_only name = (
  codes "apt-get",
  codes "--no-download"
      ∷ codes "--yes"
      ∷ codes "--only-upgrade"
      ∷ codes "install"
      ∷ codes "--"
      ∷ name
      ∷ [],
)

abbrev pub groupadd : Text → CommandLine
groupadd name = (codes "groupadd", codes "--system" ∷ codes "--" ∷ name ∷ [])

abbrev pub groupdel : Text → CommandLine
groupdel name = (codes "groupdel", codes "--" ∷ name ∷ [])

abbrev pub useradd : UserSpec → CommandLine
useradd spec = (
  codes "useradd",
  codes "--system"
      ∷ codes "--gid"
      ∷ spec.primary_group
      ∷ codes "--home-dir"
      ∷ spec.home
      ∷ codes "--shell"
      ∷ spec.shell
      ∷ codes "--no-create-home"
      ∷ codes "--"
      ∷ spec.name
      ∷ [],
)

abbrev pub userdel : Text → CommandLine
userdel name = (codes "userdel", codes "--" ∷ name ∷ [])

abbrev pub read_sysctl : Text → CommandLine
read_sysctl key = (codes "sysctl", codes "-n" ∷ codes "--" ∷ key ∷ [])

abbrev pub write_sysctl : Text → Text → CommandLine
write_sysctl key value = (codes "sysctl", codes "-w" ∷ codes "--" ∷ (key ++ b'=' ∷ value) ∷ [])

abbrev pub systemctl : Text → Text → CommandLine
systemctl verb unit = (codes "systemctl", verb ∷ codes "--" ∷ unit ∷ [])

module _ {World : Type 0} (Later : World → World → Type 0) (machine : Machine World) where
  abbrev pub runs : CommandLine → World → Fallible Output × World
  runs line w = run_output machine line.0 line.1 w

  -- The first command takes back what the second one did: run in any world later than the one that it
  -- left, it leaves one later than the world `origin`, unless it fails.
  abbrev pub TakesBack : CommandLine → World → World → Type 0
  TakesBack line after origin =
      (v : World) (o : Output) (v' : World)
      → Later v after
      → runs line v ≡ (ok o, v')
      → Later v' origin

  -- What the programs are relied on for: one that fails, and one that only asks, leaves nothing
  -- behind that counts; a package, a group or a user that was added is removed again; an old version
  -- or an old value, as the programs showed it before the change, is put back; and enabling a unit
  -- does nothing to one that is enabled, and is taken back by disabling it.
  pub record AreUndoable : Type 0 where
    pub later_refl : (w : World) → Later w w
    pub later_trans : (u v w : World) → Later u v → Later v w → Later u w
    pub failed :
        (line : CommandLine) (w after : World) (e : Error)
        → runs line w ≡ (err e, after)
        → Later after w
    pub installed :
        (name : Text) (w after : World) (o : Output)
        → runs (install name) w ≡ (ok o, after)
        → TakesBack (remove_package name) after w
    pub version_asked :
        (name : Text) (w after : World) (o : Output)
        → runs (query_version name) w ≡ (ok o, after)
        → Later after w
    pub upgraded :
        (name : Text) (w between after : World) (shown o : Output)
        → runs (query_version name) w ≡ (ok shown, between)
        → runs (upgrade_only name) between ≡ (ok o, after)
        → TakesBack (install (name ++ b'=' ∷ trim_space shown.stdout)) after w
    pub group_added :
        (name : Text) (w after : World) (o : Output)
        → runs (groupadd name) w ≡ (ok o, after)
        → TakesBack (groupdel name) after w
    pub user_added :
        (spec : UserSpec) (w after : World) (o : Output)
        → runs (useradd spec) w ≡ (ok o, after)
        → TakesBack (userdel spec.name) after w
    pub value_asked :
        (key : Text) (w after : World) (o : Output)
        → runs (read_sysctl key) w ≡ (ok o, after)
        → Later after w
    pub value_set :
        (key value : Text) (w between after : World) (shown o : Output)
        → runs (read_sysctl key) w ≡ (ok shown, between)
        → runs (write_sysctl key value) between ≡ (ok o, after)
        → TakesBack (write_sysctl key (trim_space shown.stdout)) after w
    pub state_asked :
        (unit : Text) (w after : World) (o : Output)
        → runs (systemctl (codes "is-enabled") unit) w ≡ (ok o, after)
        → Later after w
    pub enabled_again :
        (unit : Text) (w between after : World) (shown o : Output)
        → runs (systemctl (codes "is-enabled") unit) w ≡ (ok shown, between)
        → trim_space shown.stdout ≡ codes "enabled"
        → runs (systemctl (codes "enable") unit) between ≡ (ok o, after)
        → Later after w
    pub enabled :
        (unit : Text) (w between after : World) (shown o : Output)
        → runs (systemctl (codes "is-enabled") unit) w ≡ (ok shown, between)
        → runs (systemctl (codes "enable") unit) between ≡ (ok o, after)
        → TakesBack (systemctl (codes "disable") unit) after w
