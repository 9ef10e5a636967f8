-- ===== src/Protocol/Serve/Answered.antt =====
-- What is served for a call of a function of the plugin.
use ohinfra_plugins.Base.{
  ◌≡◌, ◌∙◌, ap, sym, refl, List, [], ◌∷◌, Option, none, some, Fallible, Checked, ok, err, Error,
  arith,
}
use ohinfra_plugins.Protocol.Types.{Invocation, Plan, Result, normalize}
use ohinfra_plugins.Protocol.Serve.{
  Context, Definition, Document, plan_document, result_document, Environment, Verb, plan, execute,
  Call, call_of, Served, write_document, answer, call_plan, call_execute, read_invocation,
  normalize_plan,
}

-- What is served for the value or the error that a function gave: the error on stderr, or the
-- document of the value on stdout, or else the error of its encoding.
pub data Answers {A : Type 0} (env : Environment) (document : A → Document) (s : Served)
    : Fallible A → Type 0 where
  failed : {e : Error} → s.stdout ≡ [] → s.stderr ≡ e ∷ [] → Answers env document s (err e)
  written : {a : A} → s.stdout ≡ document a ∷ [] → s.stderr ≡ [] → Answers env document s (ok a)
  unwritten :
      {a : A} {e : Error}
      → env.encode (document a) ≡ err e
      → s.stdout ≡ []
      → s.stderr ≡ e ∷ []
      → Answers env document s (ok a)

-- The function of the definition for the verb is there, and its value at the context and the
-- invocation is what is answered.
abbrev pub AnswersCall : Environment → Definition → Verb → Context → Invocation → Served → Type 0
AnswersCall env d plan c i s =
    (f : Context → Invocation → Fallible Plan) × (d.plan ≡ some f)
    × Answers env (λ p. plan_document (normalize_plan p)) s (f c i)
AnswersCall env d execute c i s =
    (f : Context → Invocation → Fallible Result) × (d.execute ≡ some f)
    × Answers env (λ r. result_document (normalize r)) s (f c i)

write_document-Answers :
    {A : Type 0} (env : Environment) (document : A → Document) (calls : List Call) (a : A)
    → Answers env document (write_document env (document a) calls) (ok a)
unfolding write_document
write_document-Answers env document calls a = by_result (env.encode (document a)) refl
  where
    by_result :
        (r : Checked)
        → env.encode (document a) ≡ r
        → Answers env document (write_document env (document a) calls) (ok a)
    by_result (ok u) e = written (rw (write_document, e) refl) (rw (write_document, e) refl)
    by_result (err x) e = unwritten e (rw (write_document, e) refl) (rw (write_document, e) refl)

answer-Answers :
    {A : Type 0} (env : Environment) (document : A → Document) (calls : List Call) (r : Fallible A)
    → Answers env document (answer env document calls r) r
answer-Answers env document calls (err e) = failed refl refl
answer-Answers env document calls (ok a) = write_document-Answers env document calls a

pub write_document-called :
    (env : Environment) (document : Document) (calls : List Call)
    → (write_document env document calls).called ≡ calls
unfolding write_document
write_document-called env document calls = by_result (env.encode document) refl
  where
    by_result :
        (r : Checked) → env.encode document ≡ r → (write_document env document calls).called ≡ calls
    by_result (ok u) e = rw (write_document, e) refl
    by_result (err x) e = rw (write_document, e) refl

answer-called :
    {A : Type 0} (env : Environment) (document : A → Document) (calls : List Call) (r : Fallible A)
    → (answer env document calls r).called ≡ calls
answer-called env document calls (err e) = refl
answer-called env document calls (ok a) = write_document-called env (document a) calls

abbrev pub Called : Served → Verb → Context → Invocation → Type 0
Called s v c i = s.called ≡ call_of v c i ∷ []

-- What is behind a call: the invocation that was read, and the answer.
abbrev pub Behind : Environment → Definition → Verb → Context → Invocation → Served → Type 0
Behind env d v c i s = (read_invocation env ≡ ok (c, i)) × AnswersCall env d v c i s

same_call :
    (v w : Verb) (c b : Context) (i j : Invocation)
    → call_of v c i ∷ [] ≡ call_of w b j ∷ []
    → (v ≡ w) × (c ≡ b) × (i ≡ j)
same_call v w c b i j h =
    let first : List Call → Call = λ l. elim l [ [] ↦ call_of v c i | k ∷ ks ↦ k ] in
    (ap (λ l. (first l).verb) h, ap (λ l. (first l).context) h, ap (λ l. (first l).invocation) h)

-- A call of the function for the verb `w`, with what was read.
pub call_plan-Behind :
    (env : Environment) (d : Definition) (v : Verb) (c b : Context) (i j : Invocation)
    (o : Option (Context → Invocation → Fallible Plan))
    → d.plan ≡ o
    → Called (call_plan env b j o) v c i
    → (v ≡ plan) × (b ≡ c) × (j ≡ i) × AnswersCall env d plan b j (call_plan env b j o)
call_plan-Behind env d v c b i j none e h = absurd (ground (arith, h))
call_plan-Behind env d v c b i j (some f) e h =
    let (verb, context, invocation) =
      same_call plan v b c j i (sym (answer-called env _ _ (f b j)) ∙ h) in
    (sym verb, context, invocation, (f, e, answer-Answers env _ _ (f b j)))

pub call_execute-Behind :
    (env : Environment) (d : Definition) (v : Verb) (c b : Context) (i j : Invocation)
    (o : Option (Context → Invocation → Fallible Result))
    → d.execute ≡ o
    → Called (call_execute env b j o) v c i
    → (v ≡ execute) × (b ≡ c) × (j ≡ i) × AnswersCall env d execute b j (call_execute env b j o)
call_execute-Behind env d v c b i j none e h = absurd (ground (arith, h))
call_execute-Behind env d v c b i j (some f) e h =
    let (verb, context, invocation) =
      same_call execute v b c j i (sym (answer-called env _ _ (f b j)) ∙ h) in
    (sym verb, context, invocation, (f, e, answer-Answers env _ _ (f b j)))
