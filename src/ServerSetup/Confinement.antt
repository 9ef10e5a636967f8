-- ===== src/ServerSetup/Confinement.antt =====
-- internal/serversetup/confinement.go: inspecting a compiled path below a root.
pub mod Inspecting
use ohinfra_plugins.Base.{Text, not_exist, ok}
use ohinfra_plugins.Paths.{rooted_path, trim_slash}
use ohinfra_plugins.Disk.{Entry, Io, ◌>>=◌, ◌>>◌, lift, lstat, continue}
use ohinfra_plugins.Probe.{exists, guard}

-- `Inspect` of `localPathConfinement`
unfoldable pub inspect : Text → Text → Io (Text × Entry)
inspect root absolute = do
  path ← lift (rooted_path root absolute)
  found ← exists root (trim_slash absolute)
  guard found not_exist
  info ← lstat path
  lift (ok (path, info))
