-- ===== src/Lib.antt =====
-- The ohtools first-party plugins: programs that a host starts with a verb (manifest, plan or
-- execute) and that answer on the standard streams. Each plugin gives internal/protocol a
-- definition: its manifest and its functions for plan and execute. `Serve` checks the arguments
-- and the manifest, reads an invocation through internal/strictjson, calls the function, and turns
-- its result or its error into a document or an exit code. server-setup-base
-- (internal/serversetup) is the plugin that changes a server: it builds a plan from checks of a
-- compiled profile, and applies it in a transaction if the invocation has the digest of that plan.
--
-- Protocol.antt and its children model internal/protocol: Types (types.go), Value (the dynamic
-- values of options and details), Duration (what time.ParseDuration accepts), Validate
-- (validate.go), ReadOnly (readonly.go) and Serve (serve.go). Validate/Spec says what a manifest
-- is without the validation. StrictJson.antt models internal/strictjson on the tokens of
-- encoding/json; StrictJson/Document has the JSON values whose tokens they are.
-- ServerSetup/Profile models profile.go and config.go, ServerSetup/Plan plan.go,
-- ServerSetup/Transaction transaction.go, ServerSetup/Apply apply.go with the parts of plugin.go
-- that it calls, ServerSetup/Accounts and ServerSetup/Checks check.go and metadata.go,
-- ServerSetup/Confinement confinement.go, ServerSetup/Commands commands.go and upgrade.go, and
-- ServerSetup/Atomic atomic.go with the adapters of defaultMutationFiles, all of
-- internal/serversetup. Probe models internal/probe/probe.go, and Redact
-- internal/redact/redact.go, with Regex, a matcher for the regular expressions of that file. Paths
-- has the functions of path/filepath, Scan those of bufio and strconv, and Disk the files that
-- package os works on. Platform models the parsing of os-release in internal/platform/platform.go,
-- which the choice of a profile starts from; Execx the output buffer and the environment of
-- internal/execx/execx.go; ResultBuilder internal/resultbuilder/resultbuilder.go; Runbook validate.go
-- and render.go of internal/runbook, with the types of loader.go. Base holds what
-- they share: texts as lists of bytes, stable sorting, integers, UTF-8 and Go's errors.
-- ProtocolTests, SetupTests, HostTests, FileTests, CheckTests, CommandTests and RunbookTests run the
-- definitions on concrete input.
--
-- A function keeps the name of its Go function in lower case with underscores; a loop, or what
-- follows a call that may fail, has a name of its own. `(A, error)` is `Fallible A`; a slice or
-- map that may be nil is an `Option`. A nil slice is told from an empty one only where the output
-- shows it. An error keeps its text with its arguments, and what it wraps, since the exit codes
-- depend on that; what the formatting verbs print is not computed. A Go map of options is an
-- association list, whose order stands for the order that Go leaves open.
--
-- Parameters stand for what lies outside the modelled parts: the environment of `serve` (standard
-- input, the strict decoding into an invocation, time.Parse, and the writing of a document, of
-- which a failed one is taken to write nothing), and the host of `execute_mutation` (the hex
-- SHA-256, the JSON of a plan, the configuration file, the detection of the platform, the run of
-- the checks and of the upgrade probe, and the state of the context), and the adapters of a
-- transaction, which act on a world of any type. What the theorems on rollback need of the
-- adapters is the record `AreReversible`: an undo that reports no error, run in the world that the
-- call left, or one that differs from it only in leftovers such as a backup file, takes the world
-- back; a call that fails, or that has nothing to undo, leaves nothing behind that counts. What
-- the theorem on the changes that run programs needs of the programs (apt-get, dpkg-query,
-- groupadd, useradd, sysctl, systemctl and their counterparts) is the record `AreUndoable`. A
-- float64 is a whole number or any other; the fraction of a duration is rounded down. The walk of
-- StrictJson has fuel, two calls for each token, which is enough for every document.
--
-- A disk is a function from paths to entries, and a list of which of the next calls fail; a call
-- that fails changes nothing, and nobody else changes the files. A temporary file, whose partial
-- write is not told from none, is removed as in the code. A system gives the name of a temporary
-- file, of which the theorems need that it is free and starts as its pattern does, the identity of
-- the process, and what its mask leaves of a mode. The checks have a runner of programs, a digest,
-- a reader of file owners and the answers of the context as parameters. A path is cleaned by what
-- it says, and the files of `filepath.Join` are those of the cleaned path.
--
-- Not modelled: the adapters that are missing, which the plugin's factory rules out; the other
-- plugins, which collect what programs and files say; the choice of an executable and the running
-- of programs; how runbooks are read from YAML files; and the documentation tools.
mod Base
pub mod Protocol
pub mod StrictJson
pub mod Paths
pub mod Scan
pub mod Disk
pub mod Probe
pub mod ServerSetup
pub mod Platform
pub mod Execx
pub mod Regex
pub mod Redact
pub mod ResultBuilder
pub mod ProtocolTests
pub mod SetupTests
pub mod HostTests
pub mod FileTests
pub mod CheckTests
pub mod CommandTests
pub mod Runbook
pub mod RunbookTests
