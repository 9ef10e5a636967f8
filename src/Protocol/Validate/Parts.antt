-- ===== src/Protocol/Validate/Parts.antt =====
-- The loops of the validation, each against its part of the specification, in both directions.
use ohinfra_plugins.Base.{
  Text, codes, ◌≡◌, ◌↔◌, refl, Bool, true, false, ◌||◌, not, List, [], ◌∷◌, map, All, all, eq_text,
  eq_text→eq, ok, arith, Bool-cases, inl, inr, any, is_control, runes, valid_utf8, is_trimmed, ◌⊎◌,
}
use ohinfra_plugins.Protocol.Types.{Argument, Flag}
use ohinfra_plugins.Protocol.Value.{Value}
use ohinfra_plugins.Protocol.Validate.{
  identifier, is_segment_byte, validate_arguments, validate_segments, validate_flag, validate_flags,
  is_nil, validate_duration, is_string_value, is_bool_value, is_int_value, validate_description,
}
use ohinfra_plugins.Protocol.Validate.Fresh.{Fresh, Fresh-cons, NotIn-iff}
use ohinfra_plugins.Protocol.Validate.Spec.{
  IsIdentifier, IsSegmentByte, RequiredFirst, VariadicLast, FlagFits, string_flag, bool_flag,
  int_flag, duration_flag, IsAbsent, IsString, IsBool, IsInt, IsDuration, IsDescription,
}

segment_bytes : (s : Text) → (all is_segment_byte s ≡ true) ↔ All IsSegmentByte s
segment_bytes [] = (λ _. tt, λ _. refl)
segment_bytes (c ∷ s) = (
  λ h. (ground arith, (segment_bytes s).0 (ground arith)),
  λ h. ground (arith, (segment_bytes s).1 h.1),
)

pub identifier_iff : (s : Text) → (identifier s ≡ true) ↔ IsIdentifier s
unfolding identifier
identifier_iff [] = (λ h. cc, λ h. absurd h)
identifier_iff (c ∷ s) = (
  λ h. (ground arith, (segment_bytes s).0 (ground arith)),
  λ h. ground (arith, (segment_bytes s).1 h.1),
)

pub validate_segments_iff :
    (path : List Text) → (validate_segments path ≡ ok tt) ↔ All IsIdentifier path
unfolding validate_segments
validate_segments_iff [] = (λ _. tt, λ _. refl)
validate_segments_iff (s ∷ path) = (
  λ h. ((identifier_iff s).0 (ground arith), (validate_segments_iff path).0 (ground arith)),
  λ h. ground (arith, (identifier_iff s).1 h.0, (validate_segments_iff path).1 h.1),
)

abbrev pub ArgumentsFit : Bool → List Argument → Type 0
ArgumentsFit seen l =
    All (λ (a : Argument). IsIdentifier a.name) l
    × (seen ≡ true → All (λ (a : Argument). a.required ≡ false) l)
    × RequiredFirst l
    × VariadicLast l

validate_arguments_sound :
    (seen : Bool) (l : List Argument) → validate_arguments seen l ≡ ok tt → ArgumentsFit seen l
unfolding validate_arguments
validate_arguments_sound seen [] h = (tt, λ _. tt, tt, tt)
validate_arguments_sound seen (a ∷ l) h =
    let ih = validate_arguments_sound (seen || not a.required) l (ground arith) in
    (
      ((identifier_iff a.name).0 (ground arith), ih.0),
      λ e. (ground arith, ih.1 (ground arith)),
      (λ e. ih.1 (ground arith), ih.2),
      (λ e. ground arith, ih.3),
    )

validate_arguments_complete :
    (seen : Bool) (l : List Argument) → ArgumentsFit seen l → validate_arguments seen l ≡ ok tt
unfolding validate_arguments
validate_arguments_complete seen [] h = refl
validate_arguments_complete true (a ∷ l) (names, none_required, first, last) =
    let ih =
      validate_arguments_complete true l (names.1, λ _. (none_required refl).1, first.1, last.1) in
    ground (arith, (identifier_iff a.name).1 names.0, (none_required refl).0, last.0)
validate_arguments_complete false (a ∷ l) (names, none_required, first, last) =
    let ih =
      validate_arguments_complete (not a.required) l
        (names.1, λ e. first.0 (ground arith), first.1, last.1) in
    ground (arith, (identifier_iff a.name).1 names.0, last.0)

pub validate_arguments_iff :
    (seen : Bool) (l : List Argument) → (validate_arguments seen l ≡ ok tt) ↔ ArgumentsFit seen l
validate_arguments_iff seen l =
    (validate_arguments_sound seen l, validate_arguments_complete seen l)

IsString-iff : (v : Value) → ((is_nil v || is_string_value v) ≡ true) ↔ (IsAbsent v ⊎ IsString v)
IsString-iff v = (λ h. ground arith, λ h. ground arith)

IsBool-iff : (v : Value) → ((is_nil v || is_bool_value v) ≡ true) ↔ (IsAbsent v ⊎ IsBool v)
IsBool-iff v = (λ h. ground arith, λ h. ground arith)

IsInt-iff : (v : Value) → ((is_nil v || is_int_value v) ≡ true) ↔ (IsAbsent v ⊎ IsInt v)
IsInt-iff v = (λ h. ground arith, λ h. ground arith)

IsDuration-iff :
    (name : Text) (v : Value) → (validate_duration name v ≡ ok tt) ↔ (IsAbsent v ⊎ IsDuration v)
IsDuration-iff name v = (λ h. ground arith, λ h. ground arith)

not_any_iff :
    {A : Type 0} (p : A → Bool) (l : List A) → (any p l ≡ false) ↔ All (λ a. p a ≡ false) l
not_any_iff p [] = (λ h. tt, λ h. refl)
not_any_iff p (a ∷ l) =
    let ih = not_any_iff p l in (λ h. (ground arith, ih.0 (ground arith)), λ h. rw h.0 (ih.1 h.1))

empty-IsDescription : IsDescription []
unfolding valid_utf8 is_trimmed runes
empty-IsDescription = record { encoded = refl; short = omega arith; trimmed = refl; one_line = tt }

pub validate_description_iff : (s : Text) → (validate_description s ≡ ok tt) ↔ IsDescription s
unfolding validate_description
validate_description_iff [] = (λ h. empty-IsDescription, λ h. refl)
validate_description_iff (c ∷ s) =
    let controls = not_any_iff is_control (runes (c ∷ s)) in
    (
      λ h. record {
        encoded = ground arith;
        short = ground arith;
        trimmed = ground arith;
        one_line = controls.0 (ground arith);
      },
      λ d.
          let plain = controls.1 d.one_line in ground (arith, plain, d.encoded, d.short, d.trimmed),
    )

validate_flag_sound : (flag : Flag) → validate_flag flag ≡ ok tt → FlagFits flag
unfolding validate_flag
validate_flag_sound flag h = elim (Bool-cases (eq_text flag.type (codes "string"))) [
  | inl e ↦ string_flag (eq_text→eq _ _ e) ((IsString-iff flag.default).0 (ground arith))
  | inr not_string ↦ elim (Bool-cases (eq_text flag.type (codes "bool"))) [
    | inl e ↦ bool_flag (eq_text→eq _ _ e) ((IsBool-iff flag.default).0 (ground arith))
    | inr not_bool ↦ elim (Bool-cases (eq_text flag.type (codes "int"))) [
      | inl e ↦ int_flag (eq_text→eq _ _ e) ((IsInt-iff flag.default).0 (ground arith))
      | inr not_int ↦ elim (Bool-cases (eq_text flag.type (codes "duration"))) [
        | inl e ↦
            duration_flag (eq_text→eq _ _ e)
              ((IsDuration-iff flag.name flag.default).0 (ground arith))
        | inr not_duration ↦ absurd (ground arith)
      ]
    ]
  ]
]

validate_flag_complete : (flag : Flag) → FlagFits flag → validate_flag flag ≡ ok tt
unfolding validate_flag
validate_flag_complete flag (string_flag e h) =
    let fits = (IsString-iff flag.default).1 h in rw e (ground arith)
validate_flag_complete flag (bool_flag e h) =
    let fits = (IsBool-iff flag.default).1 h in rw e (ground arith)
validate_flag_complete flag (int_flag e h) =
    let fits = (IsInt-iff flag.default).1 h in rw e (ground arith)
validate_flag_complete flag (duration_flag e h) = rw e ((IsDuration-iff flag.name flag.default).1 h)

pub validate_flag_iff : (flag : Flag) → (validate_flag flag ≡ ok tt) ↔ FlagFits flag
validate_flag_iff flag = (validate_flag_sound flag, validate_flag_complete flag)

abbrev pub FlagsFit : List Text → List Flag → Type 0
FlagsFit seen l =
    All FlagFits l
    × All IsIdentifier (map (λ (f : Flag). f.name) l)
    × Fresh seen (map (λ (f : Flag). f.name) l)

pub validate_flags_iff :
    (seen : List Text) (l : List Flag) → (validate_flags seen l ≡ ok tt) ↔ FlagsFit seen l
unfolding validate_flags
validate_flags_iff seen [] = (λ _. (tt, tt, (tt, tt)), λ _. refl)
validate_flags_iff seen (flag ∷ rest) = (
  λ h.
      let ih = (validate_flags_iff (flag.name ∷ seen) rest).0 (ground arith) in
      (
        ((validate_flag_iff flag).0 (ground arith), ih.0),
        ((identifier_iff flag.name).0 (ground arith), ih.1),
        (Fresh-cons flag.name seen (map (λ (f : Flag). f.name) rest)).1
            ((NotIn-iff flag.name seen).0 (ground arith), ih.2),
      ),
  λ h.
      let fresh = (Fresh-cons flag.name seen (map (λ (f : Flag). f.name) rest)).0 h.2 in
      ground (
        arith,
        (identifier_iff flag.name).1 h.1.0,
        (NotIn-iff flag.name seen).1 fresh.0,
        (validate_flag_iff flag).1 h.0.0,
        (validate_flags_iff (flag.name ∷ seen) rest).1 (h.0.1, h.1.1, fresh.1),
      ),
)
