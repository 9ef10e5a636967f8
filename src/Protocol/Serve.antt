-- ===== src/Protocol/Serve.antt =====
-- internal/protocol/serve.go: the server of one plugin process. What the process has around it
-- (standard input, encoding/json, time.Parse) is an `Environment`; what it does is a `Served`.
pub mod Exits
pub mod Received
pub mod Answered
pub mod Calls
pub mod Failures
use ohinfra_plugins.Base.{
  ℕ, ◌^◌, Text, codes, eq_text, eq_int, Bool, true, false, ◌&&◌, ◌||◌, List, [], ◌∷◌, length, take,
  Option, none, some, leb, if◌then◌else◌, Fallible, Checked, ok, err, Error, message, wrapped,
  exit_error, bare_exit_error, primary_and_rollback, joined, canceled, deadline_exceeded, failure,
  ℤ, pos, negsuc, ◌>>=◌, ◌>>◌, within,
}
use ohinfra_plugins.Protocol.Value.{Fields}
use ohinfra_plugins.Protocol.Types.{
  Manifest, Invocation, Plan, Result, protocol_version, or_empty, or_empty_map, normalize, exit_ok,
  exit_general, exit_arguments, exit_cancelled, exit_timeout, exit_configuration,
}
use ohinfra_plugins.Protocol.Validate.{validate_manifest}

-- The deadline of a context; `none` is a context without one.
abbrev pub Context : Type 0
Context = Option Text

pub record Definition : Type 0 where
  pub manifest : Manifest
  pub plan : Option (Context → Invocation → Fallible Plan)
  pub execute : Option (Context → Invocation → Fallible Result)

pub data Document : Type 0 where
  manifest_document : Manifest → Document
  plan_document : Plan → Document
  result_document : Result → Document

-- `stdin` and the error at its end, if any; `decode` is `strictjson.Decode` into an invocation,
-- `parse_time` is `time.Parse` of a deadline, `encode` is the write of a document to stdout.
pub record Environment : Type 0 where
  pub stdin : Text
  pub read_error : Option Error
  pub decode : Text → Fallible Invocation
  pub parse_time : Text → Checked
  pub encode : Document → Checked

pub data Verb : Type 0 where
  plan execute : Verb

-- A call of a function of the definition, with what it is given.
pub record Call : Type 0 where
  pub verb : Verb
  pub context : Context
  pub invocation : Invocation

-- The exit code, the documents written to stdout, the lines written to stderr, and the calls of
-- functions of the definition.
pub record Served : Type 0 where
  pub exit : ℕ
  pub stdout : List Document
  pub stderr : List Error
  pub called : List Call

abbrev pub stdin_limit : ℕ
stdin_limit = 2 ^ 20

abbrev usage : Error
usage = failure "usage: <plugin> <manifest|plan|execute> --protocol=1"

-- A line on stderr and an exit code.
abbrev pub refuse : ℕ → Error → List Call → Served
refuse code e called = record { exit = code; stdout = []; stderr = e ∷ []; called = called }

-- `errors.As(err, &failure)` for an `ExitError`: the first one along the chain of `Unwrap`.
unfoldable pub find_exit : Error → Option ℤ
find_exit (exit_error code e) = some code
find_exit (bare_exit_error code) = some code
find_exit (wrapped text e) = find_exit e
find_exit (joined a b) = elim (find_exit a) [ some code ↦ some code | none ↦ find_exit b ]
find_exit e = none

-- `errors.Is(err, context.DeadlineExceeded)` and `errors.Is(err, context.Canceled)`
unfoldable pub is_deadline : Error → Bool
is_deadline deadline_exceeded = true
is_deadline (exit_error code e) = is_deadline e
is_deadline (wrapped text e) = is_deadline e
is_deadline (joined a b) = is_deadline a || is_deadline b
is_deadline e = false

unfoldable pub is_canceled : Error → Bool
is_canceled canceled = true
is_canceled (exit_error code e) = is_canceled e
is_canceled (wrapped text e) = is_canceled e
is_canceled (joined a b) = is_canceled a || is_canceled b
is_canceled e = false

-- The exit code behind an ExitError with a code of the protocol; the other errors have their own.
abbrev pub other_code : Error → ℕ
other_code e =
    if is_deadline e then exit_timeout else if is_canceled e then exit_cancelled else exit_general

abbrev pub code_in_range : ℤ → ℕ → ℕ
code_in_range (pos n) other = if leb exit_general n && leb n exit_configuration then n else other
code_in_range (negsuc n) other = other

unfoldable pub write_failure : Error → ℕ
write_failure e = elim (find_exit e) [
  | some code ↦ code_in_range code (other_code e)
  | none ↦ other_code e
]

unfoldable pub normalize_plan : Plan → Plan
normalize_plan p = record p {
  checks = or_empty p.checks;
  changes = or_empty p.changes;
  risks = or_empty p.risks;
}

-- `io.ReadAll` of an `io.LimitReader`, which does not see an error that lies behind the limit.
read_all : Environment → Fallible Text
read_all env =
    if leb stdin_limit (length env.stdin)
    then ok (take stdin_limit env.stdin)
    else elim env.read_error [ none ↦ ok (take stdin_limit env.stdin) | some e ↦ err e ]

-- `invocationContext`
invocation_context : Environment → Invocation → Fallible Context
invocation_context env invocation =
    if eq_text invocation.deadline [] then ok none else elim (env.parse_time invocation.deadline) [
      | ok _ ↦ ok (some invocation.deadline)
      | err e ↦ err (wrapped "invalid invocation deadline: %w" e)
    ]

-- The invocation that a function of the definition gets: decoded, of version 1, with no nil list.
accept : Invocation → Fallible Invocation
accept invocation =
    if eq_int invocation.version_number protocol_version
    then ok (record invocation {
      arguments = or_empty invocation.arguments;
      options = or_empty_map invocation.options;
    })
    else err (failure "unsupported protocol version")

unfoldable pub read_invocation : Environment → Fallible (Context × Invocation)
unfolding read_all invocation_context accept
read_invocation env = do
  encoded ← read_all env
  decoded ← env.decode encoded
  invocation ← accept decoded
  context ← invocation_context env invocation
  ok (context, invocation)

abbrev pub call_of : Verb → Context → Invocation → Call
call_of verb context invocation = record { verb = verb; context = context; invocation = invocation }

unfoldable pub write_document : Environment → Document → List Call → Served
write_document env document called = elim (env.encode document) [
  | ok _ ↦ record { exit = exit_ok; stdout = document ∷ []; stderr = []; called = called }
  | err e ↦ refuse exit_general e called
]

-- What is written for what a function of the definition gives.
abbrev pub answer : {A : Type 0} → Environment → (A → Document) → List Call → Fallible A → Served
answer env document calls (err e) = refuse (write_failure e) e calls
answer env document calls (ok a) = write_document env (document a) calls

abbrev pub call_plan :
    Environment → Context → Invocation → Option (Context → Invocation → Fallible Plan) → Served
call_plan env context invocation none = refuse exit_arguments (failure "plan is not supported") []
call_plan env context invocation (some f) =
    answer env (λ p. plan_document (normalize_plan p)) (call_of plan context invocation ∷ [])
      (f context invocation)

abbrev pub call_execute :
    Environment → Context → Invocation → Option (Context → Invocation → Fallible Result) → Served
call_execute env context invocation none =
    refuse exit_arguments (failure "execute is not supported") []
call_execute env context invocation (some f) =
    answer env (λ r. result_document (normalize r)) (call_of execute context invocation ∷ [])
      (f context invocation)

unfoldable pub serve_plan : Environment → Definition → Context × Invocation → Served
serve_plan env definition (context, invocation) = call_plan env context invocation definition.plan

unfoldable pub serve_execute : Environment → Definition → Context × Invocation → Served
serve_execute env definition (context, invocation) =
    call_execute env context invocation definition.execute

-- With an invocation read from stdin, or the refusal of what stands there.
abbrev pub with_invocation :
    Fallible (Context × Invocation) → (Context × Invocation → Served) → Served
with_invocation (ok i) f = f i
with_invocation (err e) f = refuse exit_arguments e []

unfoldable pub serve_verb : Environment → Definition → Text → Served
unfolding write_document read_invocation serve_plan serve_execute
serve_verb env definition verb =
    if eq_text verb (codes "manifest")
    then write_document env (manifest_document definition.manifest) []
    else if eq_text verb (codes "plan")
    then with_invocation (read_invocation env) (serve_plan env definition)
    else if eq_text verb (codes "execute")
    then with_invocation (read_invocation env) (serve_execute env definition)
    else refuse exit_arguments (failure "unsupported protocol verb") []

unfoldable pub serve_valid : Environment → Definition → Text → Served
unfolding serve_verb
serve_valid env definition verb = elim (validate_manifest definition.manifest) [
  | err e ↦ refuse exit_configuration e []
  | ok _ ↦ serve_verb env definition verb
]

-- `Serve`; the arguments are those of the process, its name first.
unfoldable pub serve : Environment → Definition → List Text → Served
unfolding serve_valid
serve env definition (program ∷ verb ∷ protocol ∷ []) =
    if eq_text protocol (codes "--protocol=1")
    then serve_valid env definition verb
    else refuse exit_arguments usage []
serve env definition arguments = refuse exit_arguments usage []
