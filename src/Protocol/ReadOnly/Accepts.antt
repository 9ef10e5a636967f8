-- ===== src/Protocol/ReadOnly/Accepts.antt =====
-- Exactly which invocations get a read-only plan, and which plan.
use ohinfra_plugins.Base.{
  ◌≤◌, Text, ◌≡◌, ◌↔◌, refl, true, false, List, length, Option, none, some, arith, Error, ok,
  eq_int→eq, eq_int_refl, Option-cases, inl, inr, >>-eq-ok,
}
use ohinfra_plugins.Protocol.Types.{
  Flag, Command, Manifest, Invocation, Plan, protocol_version, elements,
}
use ohinfra_plugins.Protocol.Value.{Value, Fields, end_fields, field, dynamic}
use ohinfra_plugins.Protocol.Validate.Spec.{IsManifest}
use ohinfra_plugins.Protocol.Validate.Exact.{validate_manifest_iff}
use ohinfra_plugins.Protocol.ReadOnly.{
  find_command, count_required, last_is_variadic, validate_invocation_arguments, flag_named,
  valid_invocation_option, check_option, validate_invocation_options, fields_of, empty_plan,
  read_only_plan,
}

-- Every option is that of a flag of the command, with a value of the flag's type.
abbrev pub OptionsFit : List Flag → Fields → Type 0
OptionsFit flags end_fields = Unit
OptionsFit flags (field name value rest) =
    ((flag : Flag) × (flag_named flags name ≡ some flag)
      × (valid_invocation_option flag.type (dynamic value) ≡ true))
    × OptionsFit flags rest

pub record IsAccepted (context_error : Option Error) (i : Invocation) (m : Manifest) (c : Command)
    : Type 0 where
  pub live : context_error ≡ none
  pub version_one : i.version_number ≡ protocol_version
  pub manifest : IsManifest m
  pub found : find_command m.commands i.command_path ≡ some c
  pub enough : count_required c.arguments ≤ length (elements i.arguments)
  pub not_too_many :
      last_is_variadic c.arguments ≡ false → length (elements i.arguments) ≤ length c.arguments
  pub options : OptionsFit c.flags (fields_of i.options)

check_option_iff :
    (flags : List Flag) (name : Text) (value : Value)
    → (check_option name value (flag_named flags name) ≡ ok tt) ↔ (
        (flag : Flag) × (flag_named flags name ≡ some flag)
        × (valid_invocation_option flag.type (dynamic value) ≡ true))
unfolding check_option
check_option_iff flags name value = elim (Option-cases (flag_named flags name)) [
  | inl e ↦ (λ h. absurd (ground arith), λ h. absurd (ground (arith, h.1)))
  | inr (flag, e) ↦ (λ h. (flag, e, ground arith), λ h. ground (arith, h.1, h.2))
]

validate_invocation_options_iff :
    (flags : List Flag) (fs : Fields)
    → (validate_invocation_options flags fs ≡ ok tt) ↔ OptionsFit flags fs
unfolding validate_invocation_options
validate_invocation_options_iff flags end_fields = (λ _. tt, λ _. refl)
validate_invocation_options_iff flags (field name value rest) = (
  λ h.
      let parts = >>-eq-ok (check_option name value (flag_named flags name)) _ h in
      (
        (check_option_iff flags name value).0 parts.0,
        (validate_invocation_options_iff flags rest).0 parts.1,
      ),
  λ h. cc (
    (check_option_iff flags name value).1 h.0,
    (validate_invocation_options_iff flags rest).1 h.1,
  ),
)

read_only_plan_sound :
    (context_error : Option Error) (i : Invocation) (m : Manifest) (p : Plan)
    → read_only_plan context_error i m ≡ ok p
    → (c : Command) × IsAccepted context_error i m c × (p ≡ empty_plan c)
unfolding read_only_plan validate_invocation_arguments
read_only_plan_sound context_error i m p h =
    elim (Option-cases (find_command m.commands i.command_path)) [
      | inl e ↦ absurd (ground arith)
      | inr (c, e) ↦ (
        c,
        record {
          live = ground arith;
          version_one = eq_int→eq i.version_number _ (ground arith);
          manifest = (validate_manifest_iff m).0 (ground arith);
          found = e;
          enough = ground arith;
          not_too_many = ground arith;
          options =
              (validate_invocation_options_iff c.flags (fields_of i.options)).0 (ground arith);
        },
        ground arith,
      )
    ]

read_only_plan_complete :
    (context_error : Option Error) (i : Invocation) (m : Manifest) (c : Command)
    → IsAccepted context_error i m c
    → read_only_plan context_error i m ≡ ok (empty_plan c)
unfolding read_only_plan validate_invocation_arguments
read_only_plan_complete context_error i m c a = ground (
  arith,
  a.live,
  a.found,
  a.enough,
  a.not_too_many,
  (validate_manifest_iff m).1 a.manifest,
  a.version_one,
  eq_int_refl i.version_number,
  (validate_invocation_options_iff c.flags (fields_of i.options)).1 a.options,
)

-- A plan comes back exactly for a live context, protocol version 1, a valid manifest, a command of
-- it with the path that was asked for, a number of arguments within the command's bounds, and
-- options that fit its flags; and then it is the plan of that command with no checks, changes or
-- risks.
pub read_only_plan_iff :
    (context_error : Option Error) (i : Invocation) (m : Manifest) (p : Plan)
    → (read_only_plan context_error i m ≡ ok p)
      ↔ ((c : Command) × IsAccepted context_error i m c × (p ≡ empty_plan c))
read_only_plan_iff context_error i m p = (
  read_only_plan_sound context_error i m p,
  λ (c, a, e). cc (e, read_only_plan_complete context_error i m c a),
)
