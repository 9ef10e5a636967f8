-- ===== src/Protocol/Serve/Exits.antt =====
-- Every run of the server ends in one of two ways: a document and exit code 0, or a line on stderr
-- and a failing exit code of the protocol.
use ohinfra_plugins.Base.{
  ℕ, ◌≤◌, Text, ◌≡◌, refl, ◌⊎◌, inl, inr, List, [], ◌∷◌, Option, none, some, Fallible, Error, ok,
  err, arith, ℤ, pos, negsuc, if◌then◌else◌, Bool, true, false, codes, eq_text,
}
use ohinfra_plugins.Protocol.Types.{
  Invocation, Plan, Result, exit_general, exit_arguments, exit_configuration,
}
use ohinfra_plugins.Protocol.Validate.{validate_manifest}
use ohinfra_plugins.Protocol.Serve.{
  Call, answer, call_plan, call_execute, Context, Definition, Document, manifest_document,
  Environment, Served, refuse, find_exit, other_code, code_in_range, write_failure, write_document,
  read_invocation, with_invocation, serve_plan, serve_execute, serve_verb, serve_valid, serve,
  usage,
}

abbrev pub IsSuccess : Served → Type 0
IsSuccess s = (s.exit ≡ 0) × ((document : Document) × (s.stdout ≡ document ∷ [])) × (s.stderr ≡ [])

abbrev pub IsFailure : Served → Type 0
IsFailure s = (1 ≤ s.exit) × (s.exit ≤ 10) × (s.stdout ≡ []) × ((e : Error) × (s.stderr ≡ e ∷ []))

abbrev pub IsReport : Served → Type 0
IsReport s = IsSuccess s ⊎ IsFailure s

refuse-IsReport :
    (code : ℕ) (e : Error) (called : List Call)
    → 1 ≤ code
    → code ≤ 10
    → IsReport (refuse code e called)
refuse-IsReport code e called h k = inr (h, k, refl, (e, refl))

other_code_bounds : (e : Error) → (1 ≤ other_code e) × (other_code e ≤ 10)
other_code_bounds e = ground arith

code_in_range_bounds :
    (code : ℤ) (other : ℕ)
    → 1 ≤ other
    → other ≤ 10
    → (1 ≤ code_in_range code other) × (code_in_range code other ≤ 10)
code_in_range_bounds (pos n) other h k = ground arith
code_in_range_bounds (negsuc n) other h k = (h, k)

-- The exit code for an error of the plugin is one of the failing codes of the protocol.
pub write_failure_bounds : (e : Error) → (1 ≤ write_failure e) × (write_failure e ≤ 10)
unfolding write_failure
write_failure_bounds e =
    let other = other_code_bounds e in
    elim (find_exit e)
      as (λ o.
        (1 ≤ (elim o [ some code ↦ code_in_range code (other_code e) | none ↦ other_code e ]))
        × ((elim o [ some code ↦ code_in_range code (other_code e) | none ↦ other_code e ]) ≤ 10)) [
          | none ↦ other
          | some code ↦ code_in_range_bounds code (other_code e) other.0 other.1
        ]

write_document-IsReport :
    (env : Environment) (document : Document) (called : List Call)
    → IsReport (write_document env document called)
unfolding write_document
write_document-IsReport env document called = go (env.encode document)
  where
    go :
        (r : Fallible (Unit {0}))
        → IsReport (elim r [
          | ok _ ↦ record { exit = 0; stdout = document ∷ []; stderr = []; called = called }
          | err e ↦ refuse exit_general e called
        ])
    go (ok _) = inl (refl, (document, refl), refl)
    go (err e) = refuse-IsReport exit_general e called (omega arith) (omega arith)

answer-IsReport :
    {A : Type 0} (env : Environment) (document : A → Document) (called : List Call) (r : Fallible A)
    → IsReport (answer env document called r)
answer-IsReport env document called (ok a) = write_document-IsReport env (document a) called
answer-IsReport env document called (err e) =
    refuse-IsReport (write_failure e) e called (write_failure_bounds e).0 (write_failure_bounds e).1

serve_plan-IsReport :
    (env : Environment) (d : Definition) (i : Context × Invocation) → IsReport (serve_plan env d i)
unfolding serve_plan
serve_plan-IsReport env d (context, i) = go d.plan
  where
    go : (f : Option (Context → Invocation → Fallible Plan)) → IsReport (call_plan env context i f)
    go none = refuse-IsReport exit_arguments _ [] (omega arith) (omega arith)
    go (some f) = answer-IsReport env _ _ (f context i)

serve_execute-IsReport :
    (env : Environment) (d : Definition) (i : Context × Invocation)
    → IsReport (serve_execute env d i)
unfolding serve_execute
serve_execute-IsReport env d (context, i) = go d.execute
  where
    go :
        (f : Option (Context → Invocation → Fallible Result))
        → IsReport (call_execute env context i f)
    go none = refuse-IsReport exit_arguments _ [] (omega arith) (omega arith)
    go (some f) = answer-IsReport env _ _ (f context i)

with_invocation-IsReport :
    (r : Fallible (Context × Invocation)) (f : Context × Invocation → Served)
    → ((i : Context × Invocation) → IsReport (f i))
    → IsReport (with_invocation r f)
with_invocation-IsReport (ok i) f h = h i
with_invocation-IsReport (err e) f h =
    refuse-IsReport exit_arguments e [] (omega arith) (omega arith)

if-IsReport : (b : Bool) (s t : Served) → IsReport s → IsReport t → IsReport (if b then s else t)
if-IsReport true s t hs ht = hs
if-IsReport false s t hs ht = ht

serve_verb-IsReport :
    (env : Environment) (d : Definition) (verb : Text) → IsReport (serve_verb env d verb)
unfolding serve_verb
serve_verb-IsReport env d verb =
    if-IsReport (eq_text verb (codes "manifest")) _ _
      (write_document-IsReport env (manifest_document d.manifest) [])
      (if-IsReport (eq_text verb (codes "plan")) _ _
        (with_invocation-IsReport (read_invocation env) (serve_plan env d)
          (serve_plan-IsReport env d))
        (if-IsReport (eq_text verb (codes "execute")) _ _
          (with_invocation-IsReport (read_invocation env) (serve_execute env d)
            (serve_execute-IsReport env d))
          (refuse-IsReport exit_arguments _ [] (omega arith) (omega arith))))

serve_valid-IsReport :
    (env : Environment) (d : Definition) (verb : Text) → IsReport (serve_valid env d verb)
unfolding serve_valid
serve_valid-IsReport env d verb = go (validate_manifest d.manifest)
  where
    go :
        (r : Fallible (Unit {0}))
        → IsReport
            (elim r [ err e ↦ refuse exit_configuration e [] | ok _ ↦ serve_verb env d verb ])
    go (ok _) = serve_verb-IsReport env d verb
    go (err e) = refuse-IsReport exit_configuration e [] (omega arith) (omega arith)

-- Whatever the arguments, the input, the manifest and the plugin's functions do, a run writes
-- exactly one document to stdout, nothing to stderr, and exits with 0; or it writes nothing to
-- stdout, one error to stderr, and exits with a code from 1 to 10.
pub serve-IsReport :
    (env : Environment) (d : Definition) (arguments : List Text) → IsReport (serve env d arguments)
unfolding serve
serve-IsReport env d [] = refuse-IsReport exit_arguments usage [] (omega arith) (omega arith)
serve-IsReport env d (a ∷ []) = refuse-IsReport exit_arguments usage [] (omega arith) (omega arith)
serve-IsReport env d (a ∷ b ∷ []) =
    refuse-IsReport exit_arguments usage [] (omega arith) (omega arith)
serve-IsReport env d (a ∷ verb ∷ protocol ∷ []) =
    if-IsReport (eq_text protocol (codes "--protocol=1")) _ _ (serve_valid-IsReport env d verb)
      (refuse-IsReport exit_arguments usage [] (omega arith) (omega arith))
serve-IsReport env d (a ∷ b ∷ c ∷ e ∷ l) =
    refuse-IsReport exit_arguments usage [] (omega arith) (omega arith)
