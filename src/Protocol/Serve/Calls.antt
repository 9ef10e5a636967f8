-- ===== src/Protocol/Serve/Calls.antt =====
-- When the server calls a function of the plugin, and with what.
use ohinfra_plugins.Base.{
  Text, ◌≡◌, ◌∙◌, ap, sym, refl, inl, inr, List, [], ◌∷◌, Fallible, Checked, ok, err, arith, codes,
  eq_text, eq_text→eq, Bool-cases,
}
use ohinfra_plugins.Protocol.Types.{Invocation, exit_configuration}
use mathlib.Core.Path.{subst}
use ohinfra_plugins.Protocol.Validate.{validate_manifest}
use ohinfra_plugins.Protocol.Validate.Spec.{IsManifest}
use ohinfra_plugins.Protocol.Validate.Exact.{validate_manifest_iff}
use ohinfra_plugins.Protocol.Serve.{
  Context, Definition, Document, manifest_document, Environment, Verb, plan, execute, call_of,
  Served, refuse, write_document, read_invocation, with_invocation, serve_plan, serve_execute,
  serve_verb, serve_valid, serve,
}
use ohinfra_plugins.Protocol.Serve.Received.{
  IsReady, read_invocation-IsReady, IsRead, read_invocation-IsRead,
}
use ohinfra_plugins.Protocol.Serve.Answered.{
  AnswersCall, Called, Behind, write_document-called, call_plan-Behind, call_execute-Behind,
}

-- What was read is what was called with.
moved :
    (env : Environment) (d : Definition) (v w : Verb) (c b : Context) (i j : Invocation)
    (s : Served)
    → read_invocation env ≡ ok (b, j)
    → (v ≡ w) × (b ≡ c) × (j ≡ i) × AnswersCall env d w b j s
    → (v ≡ w) × Behind env d v c i s
moved env d v w c b i j s read (verb, context, invocation, answers) = (
  verb,
  (
    subst (λ x. read_invocation env ≡ ok (x, i)) context
        (subst (λ y. read_invocation env ≡ ok (b, y)) invocation read),
    subst (λ x. AnswersCall env d v x i s) context
        (subst (λ y. AnswersCall env d v b y s) invocation
          (subst (λ u. AnswersCall env d u b j s) (sym verb) answers)),
  ),
)

serve_plan-Behind :
    (env : Environment) (d : Definition) (v : Verb) (c : Context) (i : Invocation)
    (r : Fallible (Context × Invocation))
    → read_invocation env ≡ r
    → Called (with_invocation r (serve_plan env d)) v c i
    → (v ≡ plan) × Behind env d v c i (with_invocation r (serve_plan env d))
unfolding serve_plan
serve_plan-Behind env d v c i (err e) read h = absurd (ground (arith, h))
serve_plan-Behind env d v c i (ok (b, j)) read h =
    moved env d v plan c b i j _ read (call_plan-Behind env d v c b i j d.plan refl h)

serve_execute-Behind :
    (env : Environment) (d : Definition) (v : Verb) (c : Context) (i : Invocation)
    (r : Fallible (Context × Invocation))
    → read_invocation env ≡ r
    → Called (with_invocation r (serve_execute env d)) v c i
    → (v ≡ execute) × Behind env d v c i (with_invocation r (serve_execute env d))
unfolding serve_execute
serve_execute-Behind env d v c i (err e) read h = absurd (ground (arith, h))
serve_execute-Behind env d v c i (ok (b, j)) read h =
    moved env d v execute c b i j _ read (call_execute-Behind env d v c b i j d.execute refl h)

abbrev pub verb_text : Verb → Text
verb_text plan = codes "plan"
verb_text execute = codes "execute"

not-Called-manifest :
    (env : Environment) (v : Verb) (c : Context) (i : Invocation) (document : Document)
    → ¬ Called (write_document env document []) v c i
not-Called-manifest env v c i document h =
    let none_called = sym (write_document-called env document []) ∙ h in ground (arith, none_called)

serve_verb-Behind :
    (env : Environment) (d : Definition) (verb : Text) (v : Verb) (c : Context) (i : Invocation)
    → Called (serve_verb env d verb) v c i
    → (verb ≡ verb_text v) × Behind env d v c i (serve_verb env d verb)
unfolding serve_verb
serve_verb-Behind env d verb v c i h = elim (Bool-cases (eq_text verb (codes "manifest"))) [
  | inl is_manifest ↦
      absurd (not-Called-manifest env v c i (manifest_document d.manifest) (rw is_manifest at h))
  | inr not_manifest ↦ elim (Bool-cases (eq_text verb (codes "plan"))) [
    | inl is_plan ↦ rw not_manifest (
        rw is_plan (
          let (same, behind) =
            serve_plan-Behind env d v c i (read_invocation env) refl
              (rw is_plan at (rw not_manifest at h)) in
          (eq_text→eq verb (codes "plan") is_plan ∙ sym (ap verb_text same), behind)))
    | inr not_plan ↦ elim (Bool-cases (eq_text verb (codes "execute"))) [
      | inl is_execute ↦ rw not_manifest (
          rw not_plan (
            rw is_execute (
              let (same, behind) =
                serve_execute-Behind env d v c i (read_invocation env) refl
                  (rw is_execute at (rw not_plan at (rw not_manifest at h))) in
              (eq_text→eq verb (codes "execute") is_execute ∙ sym (ap verb_text same), behind))))
      | inr not_execute ↦ cc (rw not_execute at (rw not_plan at (rw not_manifest at h)))
    ]
  ]
]

serve_valid-Behind :
    (env : Environment) (d : Definition) (verb : Text) (v : Verb) (c : Context) (i : Invocation)
    → Called (serve_valid env d verb) v c i
    → (validate_manifest d.manifest ≡ ok tt)
      × ((verb ≡ verb_text v) × Behind env d v c i (serve_valid env d verb))
unfolding serve_valid
serve_valid-Behind env d verb v c i h = go (validate_manifest d.manifest) refl h
  where
    go :
        (r : Checked)
        → validate_manifest d.manifest ≡ r
        → (let s : Served = elim r [
          | err e ↦ refuse exit_configuration e []
          | ok _ ↦ serve_verb env d verb
        ] in
            Called s v c i → (r ≡ ok tt) × ((verb ≡ verb_text v) × Behind env d v c i s))
    go (ok _) e k = (refl, serve_verb-Behind env d verb v c i k)
    go (err x) e k = absurd (ground (arith, k))

-- What holds when `s` is served for the arguments of the process, and the function for a verb was
-- called with a context and an invocation.
pub record IsCalled (env : Environment) (d : Definition) (arguments : List Text) (v : Verb)
    (c : Context) (i : Invocation) (s : Served) : Type 0 where
  pub arguments_fit :
      (program : Text) × (arguments ≡ program ∷ verb_text v ∷ codes "--protocol=1" ∷ [])
  pub manifest : IsManifest d.manifest
  pub read : IsRead env c i
  pub ready : IsReady i
  pub answered : AnswersCall env d v c i s

-- If one call of a function of the plugin is made, with a context and an invocation, then the process
-- got the function's verb and `--protocol=1` as its arguments, the manifest is a valid one of
-- protocol v1, and stdin held, within its limit, an invocation of version 1, which is the one of the
-- call but that nil arguments and options are filled; the context has its deadline. What is served is the value of the plugin's function at
-- this context and this invocation: its error on stderr, or its document on stdout, or the error of
-- the document's encoding.
pub serve-IsCalled :
    (env : Environment) (d : Definition) (arguments : List Text) (v : Verb) (c : Context)
    (i : Invocation)
    → (serve env d arguments).called ≡ call_of v c i ∷ []
    → IsCalled env d arguments v c i (serve env d arguments)
unfolding serve
serve-IsCalled env d [] v c i h = absurd (ground (arith, h))
serve-IsCalled env d (a ∷ []) v c i h = absurd (ground (arith, h))
serve-IsCalled env d (a ∷ b ∷ []) v c i h = absurd (ground (arith, h))
serve-IsCalled env d (a ∷ verb ∷ protocol ∷ []) v c i h =
    elim (Bool-cases (eq_text protocol (codes "--protocol=1"))) [
      | inl is_protocol ↦ rw is_protocol (
          let (valid, (same, (read, answers))) =
            serve_valid-Behind env d verb v c i (rw is_protocol at h) in
          record {
            arguments_fit = (
              a,
              ap (λ (t : List Text). a ∷ t)
                  (cc (same, eq_text→eq protocol (codes "--protocol=1") is_protocol)),
            );
            manifest = (validate_manifest_iff d.manifest).0 valid;
            read = read_invocation-IsRead env c i read;
            ready = read_invocation-IsReady env c i read;
            answered = answers;
          })
      | inr other ↦ absurd (ground (arith, rw other at h))
    ]
serve-IsCalled env d (a ∷ b ∷ c' ∷ e ∷ l) v c i h = absurd (ground (arith, h))
