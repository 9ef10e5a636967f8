-- ===== src/Protocol/Validate/Exact.antt =====
-- The validation decides the specification: it accepts the manifests of protocol v1, and no other.
use ohinfra_plugins.Base.{
  Text, codes, join, ◌≡◌, ◌≢◌, ◌↔◌, refl, Bool, true, false, List, [], ◌∷◌, map, All, ok, arith,
  eq_int→eq, eq_int_refl, ap,
}
use ohinfra_plugins.Protocol.Types.{
  Category, diagnostic, operational, runbook, Flag, Command, Manifest,
}
use ohinfra_plugins.Protocol.Validate.{
  command_key, validate_command, validate_commands, validate_manifest, mutation_allowed,
}
use ohinfra_plugins.Protocol.Validate.Keys.{join_injective}
use ohinfra_plugins.Protocol.Validate.Fresh.{Fresh, Fresh-cons, NotIn, NotIn-iff}
use ohinfra_plugins.Protocol.Validate.Parts.{
  validate_description_iff, identifier_iff, validate_segments_iff, validate_arguments_iff,
  validate_flags_iff,
}
use ohinfra_plugins.Protocol.Validate.Spec.{IsCommand, IsManifest, Distinct, CategoryAllows}

All-new : (keys : List Text) → All (NotIn []) keys
All-new [] = tt
All-new (k ∷ keys) = (tt, All-new keys)

category_iff : (k : Category) (b : Bool) → (mutation_allowed k b ≡ true) ↔ CategoryAllows k b
category_iff diagnostic b = (λ _. tt, λ _. refl)
category_iff operational b = (λ h. h, λ h. h)
category_iff runbook b = (λ h. h, λ h. h)
category_iff (Category.other text) b = (λ h. cc, λ h. absurd h)

validate_command_sound : (c : Command) → validate_command c ≡ ok tt → IsCommand c
unfolding validate_command
validate_command_sound c h =
    let arguments = (validate_arguments_iff false c.arguments).0 (ground arith) in
    let flags = (validate_flags_iff [] c.flags).0 (ground arith) in
    record {
      long_path = ground arith;
      segments = (validate_segments_iff c.path).0 (ground arith);
      category = (category_iff c.category c.supports_dry_run).0 (ground arith);
      few_arguments = ground arith;
      few_flags = ground arith;
      argument_names = arguments.0;
      required_first = arguments.2;
      variadic_last = arguments.3;
      flags_fit = flags.0;
      flag_names = (flags.1, flags.2.1);
    }

validate_command_complete : (c : Command) → IsCommand c → validate_command c ≡ ok tt
unfolding validate_command
validate_command_complete c v = ground (
  arith,
  v.long_path,
  v.few_arguments,
  v.few_flags,
  (validate_segments_iff c.path).1 v.segments,
  (category_iff c.category c.supports_dry_run).1 v.category,
  (validate_arguments_iff false c.arguments).1
      (v.argument_names, λ h. absurd (cc), v.required_first, v.variadic_last),
  (validate_flags_iff [] c.flags).1
      (v.flags_fit, v.flag_names.0, (All-new (map (λ (f : Flag). f.name) c.flags), v.flag_names.1)),
)

pub validate_command_iff : (c : Command) → (validate_command c ≡ ok tt) ↔ IsCommand c
validate_command_iff c = (validate_command_sound c, validate_command_complete c)

abbrev keys : List Command → List Text
keys = map command_key

validate_commands_iff :
    (seen : List Text) (l : List Command)
    → (validate_commands seen l ≡ ok tt) ↔ (All IsCommand l × Fresh seen (keys l))
unfolding validate_commands
validate_commands_iff seen [] = (λ _. (tt, (tt, tt)), λ _. refl)
validate_commands_iff seen (c ∷ l) = (
  λ h.
      let ih = (validate_commands_iff (command_key c ∷ seen) l).0 (ground arith) in
      (
        ((validate_command_iff c).0 (ground arith), ih.0),
        (Fresh-cons (command_key c) seen (keys l)).1
            ((NotIn-iff (command_key c) seen).0 (ground arith), ih.1),
      ),
  λ h.
      let fresh = (Fresh-cons (command_key c) seen (keys l)).0 h.1 in
      ground (
        arith,
        (NotIn-iff (command_key c) seen).1 fresh.0,
        (validate_command_iff c).1 h.0.0,
        (validate_commands_iff (command_key c ∷ seen) l).1 (h.0.1, fresh.1),
      ),
)

abbrev paths : List Command → List (List Text)
paths = map (λ (c : Command). c.path)

-- Among valid commands, keys differ exactly where paths do.
other_keys :
    (c : Command) (l : List Command)
    → IsCommand c
    → All IsCommand l
    → All (λ k. k ≢ command_key c) (keys l) ↔ All (λ p. p ≢ c.path) (paths l)
other_keys c [] v h = (λ _. tt, λ _. tt)
other_keys c (d ∷ l) v h = (
  λ k. (λ e. k.0 (ap (λ p. join p (codes " ")) e), (other_keys c l v h.1).0 k.1),
  λ k. (
    λ e. k.0 (join_injective d.path c.path h.0.segments v.segments e),
    (other_keys c l v h.1).1 k.1,
  ),
)

Distinct-keys : (l : List Command) → All IsCommand l → Distinct (keys l) ↔ Distinct (paths l)
Distinct-keys [] h = (λ _. tt, λ _. tt)
Distinct-keys (c ∷ l) h = (
  λ k. ((other_keys c l h.0 h.1).0 k.0, (Distinct-keys l h.1).0 k.1),
  λ k. ((other_keys c l h.0 h.1).1 k.0, (Distinct-keys l h.1).1 k.1),
)

validate_manifest_sound : (m : Manifest) → validate_manifest m ≡ ok tt → IsManifest m
unfolding validate_manifest
validate_manifest_sound m h =
    let commands = (validate_commands_iff [] m.commands).0 (ground arith) in
    record {
      version_one = eq_int→eq m.version_number _ (ground arith);
      name = (identifier_iff m.name).0 (ground arith);
      version = ground arith;
      description = (validate_description_iff m.description).0 (ground arith);
      some_command = ground arith;
      few_commands = ground arith;
      commands = commands.0;
      distinct_paths = (Distinct-keys m.commands commands.0).0 commands.1.1;
    }

validate_manifest_complete : (m : Manifest) → IsManifest m → validate_manifest m ≡ ok tt
unfolding validate_manifest
validate_manifest_complete m v = ground (
  arith,
  v.version,
  (validate_description_iff m.description).1 v.description,
  v.some_command,
  v.few_commands,
  v.version_one,
  (identifier_iff m.name).1 v.name,
  eq_int_refl m.version_number,
  (validate_commands_iff [] m.commands).1 (
    v.commands,
    (All-new (keys m.commands), (Distinct-keys m.commands v.commands).1 v.distinct_paths),
  ),
)

-- A manifest passes the validation exactly if it is one of protocol v1: its protocol version is 1, its own version is not blank, its description is UTF-8 of at most 512 bytes without space around it or control characters, names,
-- segments, arguments and flags are identifiers, counts are in bounds, a command that may change
-- the system supports a dry run, no required argument follows an optional one, only the last
-- argument is variadic, flag names of a command are distinct with defaults of their types, and no
-- two commands have the same path.
pub validate_manifest_iff : (m : Manifest) → (validate_manifest m ≡ ok tt) ↔ IsManifest m
validate_manifest_iff m = (validate_manifest_sound m, validate_manifest_complete m)
