-- ===== src/Protocol/Serve/Received.antt =====
-- The invocation that the server reads, and what it has been made of.
use ohinfra_plugins.Base.{
  Text, Bool, true, false, leb, length, ◌≡◌, ◌∙◌, ap, sym, inl, inr, [], Option, none, some,
  Fallible, ok, err, Error, arith, eq_text, eq_int→eq, eq_int, Bool-cases, >>=-eq-ok, take,
  if◌then◌else◌,
}
use ohinfra_plugins.Protocol.Types.{Slice, Invocation, protocol_version, or_empty, or_empty_map}
use ohinfra_plugins.Protocol.Value.{Fields}
use mathlib.Core.Path.{subst}
use ohinfra_plugins.Protocol.Serve.{
  Context, Environment, read_invocation, accept, invocation_context, read_all, stdin_limit,
}

abbrev pub NonNil {ℓ} : {A : Type ℓ} → Option A → Type 0
NonNil none = ⊥
NonNil (some a) = Unit

-- An invocation that the plugin may see.
pub record IsReady (i : Invocation) : Type 0 where
  pub version_one : i.version_number ≡ protocol_version
  pub arguments : NonNil i.arguments
  pub options : NonNil i.options

or_empty-NonNil {ℓ} : {A : Type ℓ} (s : Slice A) → NonNil (or_empty s)
or_empty-NonNil none = tt
or_empty-NonNil (some xs) = tt

or_empty_map-NonNil : (fs : Option Fields) → NonNil (or_empty_map fs)
or_empty_map-NonNil none = tt
or_empty_map-NonNil (some fs) = tt

abbrev pub filled : Invocation → Invocation
filled i = record i { arguments = or_empty i.arguments; options = or_empty_map i.options }

accept-IsReady : (decoded i : Invocation) → accept decoded ≡ ok i → IsReady i
unfolding accept
accept-IsReady decoded i h = elim (Bool-cases (eq_int decoded.version_number protocol_version)) [
  | inl e ↦
      let same : filled decoded ≡ i = ground arith in
      subst IsReady same (record {
        version_one = eq_int→eq decoded.version_number protocol_version e;
        arguments = or_empty-NonNil decoded.arguments;
        options = or_empty_map-NonNil decoded.options;
      })
  | inr e ↦ absurd (ground arith)
]

pub read_invocation-IsReady :
    (env : Environment) (c : Context) (i : Invocation) → read_invocation env ≡ ok (c, i) → IsReady i
unfolding read_invocation
read_invocation-IsReady env c i h =
    let (encoded, _, h1) = >>=-eq-ok (read_all env) _ h in
    let (decoded, _, h2) = >>=-eq-ok (env.decode encoded) _ h1 in
    let (accepted, ha, h3) = >>=-eq-ok (accept decoded) _ h2 in
    let (context, _, h4) = >>=-eq-ok (invocation_context env accepted) _ h3 in
    let same : accepted ≡ i = ground arith in
    subst IsReady same (accept-IsReady decoded accepted ha)

-- The invocation that stdin holds within the limit, of version 1, with its nil lists filled, and the
-- context of its deadline, if it has one.
pub record IsRead (env : Environment) (c : Context) (i : Invocation) : Type 0 where
  pub decoded : Invocation
  pub is_decoded : env.decode (take stdin_limit env.stdin) ≡ ok decoded
  pub version_one : decoded.version_number ≡ protocol_version
  pub is_filled : filled decoded ≡ i
  pub deadline : c ≡ (if eq_text i.deadline [] then none else some i.deadline)

read_all-take :
    (env : Environment) (s : Text) → read_all env ≡ ok s → take stdin_limit env.stdin ≡ s
unfolding read_all
read_all-take env s h =
    by_length (take stdin_limit env.stdin) (leb stdin_limit (length env.stdin)) env.read_error h
  where
    by_length :
        (t : Text) (b : Bool) (o : Option Error)
        → (if b then ok t else elim o as (λ _. Fallible Text) [ none ↦ ok t | some e ↦ err e ])
          ≡ ok s
        → t ≡ s
    by_length t true o k = ground (arith, k)
    by_length t false none k = ground (arith, k)
    by_length t false (some e) k = absurd (ground (arith, k))

accept-filled :
    (decoded i : Invocation)
    → accept decoded ≡ ok i
    → (decoded.version_number ≡ protocol_version) × (filled decoded ≡ i)
unfolding accept
accept-filled decoded i h = elim (Bool-cases (eq_int decoded.version_number protocol_version)) [
  | inl e ↦ (eq_int→eq decoded.version_number protocol_version e, ground arith)
  | inr e ↦ absurd (ground arith)
]

invocation_context-deadline :
    (env : Environment) (i : Invocation) (c : Context)
    → invocation_context env i ≡ ok c
    → c ≡ (if eq_text i.deadline [] then none else some i.deadline)
unfolding invocation_context
invocation_context-deadline env i c h = ground (arith, h)

parts-IsRead :
    (env : Environment) (c : Context) (i : Invocation) (encoded : Text)
    (decoded accepted : Invocation) (context : Context)
    → read_all env ≡ ok encoded
    → env.decode encoded ≡ ok decoded
    → accept decoded ≡ ok accepted
    → invocation_context env accepted ≡ ok context
    → accepted ≡ i
    → context ≡ c
    → IsRead env c i
parts-IsRead env c i encoded decoded accepted context h0 hd ha hc same same_context =
    let (version, fills) = accept-filled decoded accepted ha in
    record {
      decoded = decoded;
      is_decoded = ap env.decode (read_all-take env encoded h0) ∙ hd;
      version_one = version;
      is_filled = fills ∙ same;
      deadline =
          sym same_context
          ∙ subst
              (λ (j : Invocation).
                context ≡ (if eq_text j.deadline [] then none else some j.deadline))
              same (invocation_context-deadline env accepted context hc);
    }

pub read_invocation-IsRead :
    (env : Environment) (c : Context) (i : Invocation)
    → read_invocation env ≡ ok (c, i)
    → IsRead env c i
unfolding read_invocation
read_invocation-IsRead env c i h =
    let (encoded, h0, h1) = >>=-eq-ok (read_all env) _ h in
    let (decoded, hd, h2) = >>=-eq-ok (env.decode encoded) _ h1 in
    let (accepted, ha, h3) = >>=-eq-ok (accept decoded) _ h2 in
    let (context, hc, h4) = >>=-eq-ok (invocation_context env accepted) _ h3 in
    let same : accepted ≡ i = ground arith in
    let same_context : context ≡ c = ground arith in
    parts-IsRead env c i encoded decoded accepted context h0 hd ha hc same same_context
