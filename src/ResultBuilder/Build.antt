-- ===== src/ResultBuilder/Build.antt =====
-- internal/resultbuilder/resultbuilder.go: the result of a command. The copies that the code makes of its input
-- are the input itself here, and a time is a number of nanoseconds.
pub mod Clean
pub mod Order
use ohinfra_plugins.Base.{
  ℕ, ◌-◌, ◌/◌, ◌^◌, Text, Bool, true, false, List, [], ◌∷◌, map, Option, none, some, ltb, min,
  if◌then◌else◌, eq_text, lt_text, sort_stable,
}
use ohinfra_plugins.Protocol.Value.{Fields}
use ohinfra_plugins.Protocol.Types.{
  Tool, Check, Change, StructuredError, Result, Slice, elements, normalize,
}
use ohinfra_plugins.Redact.{redact_result}
use ohinfra_plugins.ResultBuilder.{classify, remove_fields}

-- `resultbuilder.Input`; `started` is `none` for the zero time.
pub record Input : Type 0 where
  pub command : Text
  pub tool : Tool
  pub host : Text
  pub started : Option ℕ
  pub now : ℕ
  pub checks : Slice Check
  pub data_map : Option Fields
  pub changes : Slice Change
  pub errors : Slice StructuredError

abbrev pub id_less : Check → Check → Bool
id_less a b = lt_text a.id b.id

abbrev pub object_less : Change → Change → Bool
object_less a b =
    if eq_text a.object b.object then lt_text a.action b.action else lt_text a.object b.object

abbrev pub on_slice : {A B : Type 0} → (List A → List B) → Slice A → Slice B
on_slice f none = none
on_slice f (some xs) = some (f xs)

abbrev pub clean_details : Option Fields → Option Fields
clean_details none = none
clean_details (some fs) = some (remove_fields fs)

abbrev pub clean_check : Check → Check
clean_check c = record c { details = clean_details c.details }

abbrev clean_change : Change → Change
clean_change c = record c { details = clean_details c.details }

abbrev clean_error : StructuredError → StructuredError
clean_error e = record e { details = clean_details e.details }

-- A difference of times is at most 2^63 - 1 nanoseconds.
abbrev elapsed_ms : Option ℕ → ℕ → ℕ
elapsed_ms none now = 0
elapsed_ms (some started) now =
    if ltb started now then min (now - started) (2 ^ 63 - 1) / 1000000 else 0

module _ (format_time : ℕ → Text) where
  -- The result before it is redacted.
  unfoldable pub raw_result : Input → Result
  raw_result input = record {
    schema = [];
    command = input.command;
    status =
        classify (elements (on_slice (sort_stable id_less) input.checks)) (elements input.errors);
    timestamp = format_time input.now;
    duration_ms = elapsed_ms input.started input.now;
    host = input.host;
    tool = input.tool;
    checks = on_slice (map clean_check) (on_slice (sort_stable id_less) input.checks);
    data_map = clean_details input.data_map;
    changes = on_slice (map clean_change) (on_slice (sort_stable object_less) input.changes);
    errors = on_slice (map clean_error) input.errors;
  }

  -- `Build`
  unfoldable pub build : Input → Result
  build input = normalize (redact_result (raw_result input))
