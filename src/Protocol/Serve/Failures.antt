-- ===== src/Protocol/Serve/Failures.antt =====
-- How an error of the plugin becomes the exit code of the process.
use ohinfra_plugins.Base.{
  ℕ, ◌≤◌, ◌≡◌, refl, ap, ◌∙◌, List, [], ◌∷◌, String, some, err, Fallible, Error, wrapped,
  exit_error, pos, arith, deadline_exceeded, canceled,
}
use ohinfra_plugins.Protocol.Types.{Invocation, Result, Plan}
use ohinfra_plugins.Protocol.Serve.{
  call_of, Context, Definition, Environment, Served, Verb, refuse, find_exit, is_deadline,
  is_canceled, write_failure, serve_execute, serve_plan,
}

-- `fmt.Errorf` with `%w` around an error, any number of times.
abbrev pub wrap_all : List String → Error → Error
wrap_all [] e = e
wrap_all (text ∷ texts) e = wrapped text (wrap_all texts e)

write_failure-wrap_all :
    (texts : List String) (e : Error) → write_failure (wrap_all texts e) ≡ write_failure e
unfolding write_failure find_exit is_deadline is_canceled
write_failure-wrap_all [] e = refl
write_failure-wrap_all (text ∷ texts) e = write_failure-wrap_all texts e

serve_plan-failure :
    (env : Environment) (d : Definition) (c : Context) (i : Invocation)
    (plan : Context → Invocation → Fallible Plan) (e : Error)
    → d.plan ≡ some plan
    → plan c i ≡ err e
    → serve_plan env d (c, i) ≡ refuse (write_failure e) e (call_of Verb.plan c i ∷ [])
unfolding serve_plan
serve_plan-failure env d c i plan e hp fp = rw hp (rw fp)

serve_execute-failure :
    (env : Environment) (d : Definition) (c : Context) (i : Invocation)
    (execute : Context → Invocation → Fallible Result) (e : Error)
    → d.execute ≡ some execute
    → execute c i ≡ err e
    → serve_execute env d (c, i) ≡ refuse (write_failure e) e (call_of Verb.execute c i ∷ [])
unfolding serve_execute
serve_execute-failure env d c i execute e he fe = rw he (rw fe)

-- The causes that have an exit code of their own.
pub data Cause : Type 0 where
  exit : ℕ → Error → Cause
  deadline cancellation : Cause

abbrev pub cause_error : Cause → Error
cause_error (exit code inner) = exit_error (pos code) inner
cause_error deadline = deadline_exceeded
cause_error cancellation = canceled

-- What the process exits with; an ExitError counts if its code is one of the protocol's.
abbrev pub cause_code : Cause → ℕ
cause_code (exit code inner) = code
cause_code deadline = 8
cause_code cancellation = 7

write_failure-cause :
    (cause : Cause)
    → 1 ≤ cause_code cause
    → cause_code cause ≤ 10
    → write_failure (cause_error cause) ≡ cause_code cause
unfolding write_failure find_exit is_deadline is_canceled
write_failure-cause (exit code inner) low high = ground arith
write_failure-cause deadline low high = refl
write_failure-cause cancellation low high = refl

-- If both functions of the plugin fail with an ExitError whose code is from 1 to 10, with a deadline
-- that passed, or with a cancelled context, wrapped any number of times, then `plan` and `execute`
-- exit with that code, with 8, or with 7, and both write the error to stderr.
pub failure-exit :
    (env : Environment) (d : Definition) (c : Context) (i : Invocation) (texts : List String)
    (cause : Cause) (plan : Context → Invocation → Fallible Plan)
    (execute : Context → Invocation → Fallible Result)
    → 1 ≤ cause_code cause
    → cause_code cause ≤ 10
    → d.plan ≡ some plan
    → d.execute ≡ some execute
    → plan c i ≡ err (wrap_all texts (cause_error cause))
    → execute c i ≡ err (wrap_all texts (cause_error cause))
    → ((serve_plan env d (c, i)).exit ≡ cause_code cause)
      × ((serve_plan env d (c, i)).stderr ≡ wrap_all texts (cause_error cause) ∷ [])
      × ((serve_execute env d (c, i)).exit ≡ cause_code cause)
      × ((serve_execute env d (c, i)).stderr ≡ wrap_all texts (cause_error cause) ∷ [])
failure-exit env d c i texts cause plan execute low high hp he fp fe =
    let code : write_failure (wrap_all texts (cause_error cause)) ≡ cause_code cause =
      write_failure-wrap_all texts (cause_error cause) ∙ write_failure-cause cause low high in
    let on_plan = serve_plan-failure env d c i plan _ hp fp in
    let on_execute = serve_execute-failure env d c i execute _ he fe in
    (
      ap (λ (s : Served). s.exit) on_plan ∙ code,
      ap (λ (s : Served). s.stderr) on_plan,
      ap (λ (s : Served). s.exit) on_execute ∙ code,
      ap (λ (s : Served). s.stderr) on_execute,
    )
