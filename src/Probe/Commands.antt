-- ===== src/Probe/Commands.antt =====
-- internal/probe/probe.go: running a program with limited output.
use ohinfra_plugins.Base.{
  ℕ, ◌^◌, Text, codes, Bool, false, not, ◌&&◌, ◌||◌, List, [], ◌∷◌, all, any, leb, ltb, ◌==◌,
  Option, none, some, Fallible, ok, err, Error, message, if◌then◌else◌, ℤ, pos, negsuc, require,
  ◌>>=◌, ◌>>◌,
}
use ohinfra_plugins.Paths.{starts_with}
use ohinfra_plugins.Probe.{invalid_limit}

abbrev is_alphanumeric : ℕ → Bool
is_alphanumeric c =
    leb b'A' c && leb c b'Z' || (leb b'a' c && leb c b'z' || leb b'0' c && leb c b'9')

abbrev is_program_byte : ℕ → Bool
is_program_byte c = is_alphanumeric c || any (λ d. c == d) (codes "._+-")

-- `programName.MatchString(name)`: `^[A-Za-z0-9][A-Za-z0-9._+-]*$`
unfoldable pub is_program_name : Text → Bool
is_program_name [] = false
is_program_name (c ∷ s) = is_alphanumeric c && all is_program_byte s

unfoldable pub default_command_output_limit : ℕ
default_command_output_limit = 2 ^ 20

abbrev max_command_output_limit : ℕ
max_command_output_limit = 2 ^ 20

-- `commandOutputLimit`
unfoldable pub command_output_limit : ℤ → Fallible ℕ
command_output_limit (pos n) =
    if n == 0
    then ok default_command_output_limit
    else if ltb max_command_output_limit n
    then err invalid_limit
    else ok n
command_output_limit (negsuc n) = err invalid_limit

-- `probe.Command`
pub record ProbeCommand : Type 0 where
  pub program : Text
  pub arguments : List Text
  pub stdout_limit : ℤ
  pub stderr_limit : ℤ

-- `execx.Spec`, with the fields that a command sets.
pub record Spec : Type 0 where
  pub program : Text
  pub arguments : List Text
  pub stdout_limit : ℕ
  pub stderr_limit : ℕ

-- `Run` up to the call of the runner: the error of the context, or what the runner is given.
unfoldable pub prepare_run : Option Error → ProbeCommand → Fallible Spec
prepare_run (some e) command = err e
prepare_run none command = do
  require
      (is_program_name command.program
        && (not (starts_with command.program (codes "-"))
            && not (any (λ c. c == b'/' || c == b'\\') command.program)))
      (message "invalid probe program" (command.program ∷ []))
  stdout ← command_output_limit command.stdout_limit
  stderr ← command_output_limit command.stderr_limit
  ok (record {
    program = command.program;
    arguments = command.arguments;
    stdout_limit = stdout;
    stderr_limit = stderr;
  })

-- `execx.Output`, with the fields that are looked at.
pub record Output : Type 0 where
  pub exit_code : ℤ
  pub stdout : Text
  pub stderr : Text
