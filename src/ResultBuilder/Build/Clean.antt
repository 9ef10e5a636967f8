-- ===== src/ResultBuilder/Build/Clean.antt =====
-- Redaction brings no key of stderr back.
use ohinfra_plugins.Base.{Bool, true, false, if◌then◌else◌}
use ohinfra_plugins.Protocol.Value.{
  Value, nil_interface, interface, bool, int, float, string, nil_map, other_map, nil_slice, slice,
  array, nil_pointer, pointer, struct, Items, item, end_items, Fields, field, end_fields,
}
use ohinfra_plugins.Redact.{
  sensitive_key, zero_value, zero_items, masked_value, redact_value, redact_items, redact_fields,
}
use ohinfra_plugins.ResultBuilder.Stderr.{HasNoStderr, HasNoStderrItems, HasNoStderrFields}

mutual
  unfolding zero_value HasNoStderr

  zero-HasNoStderr : (v : Value) → HasNoStderr (zero_value v)
  zero-HasNoStderr nil_interface = tt
  zero-HasNoStderr (interface v) = tt
  zero-HasNoStderr (bool b) = tt
  zero-HasNoStderr (int n) = tt
  zero-HasNoStderr (float x) = tt
  zero-HasNoStderr (string s) = tt
  zero-HasNoStderr nil_map = tt
  zero-HasNoStderr (Value.map fs) = tt
  zero-HasNoStderr (other_map n xs) = tt
  zero-HasNoStderr nil_slice = tt
  zero-HasNoStderr (slice xs) = tt
  zero-HasNoStderr (array xs) = zero_items-HasNoStderr xs
  zero-HasNoStderr nil_pointer = tt
  zero-HasNoStderr (pointer v) = tt
  zero-HasNoStderr (struct ms) = tt

  zero_items-HasNoStderr : (xs : Items) → HasNoStderrItems (zero_items xs)
  zero_items-HasNoStderr end_items = tt
  zero_items-HasNoStderr (item v xs) = (zero-HasNoStderr v, zero_items-HasNoStderr xs)

masked-HasNoStderr : (v : Value) → HasNoStderr (masked_value v)
unfolding masked_value HasNoStderr
masked-HasNoStderr nil_interface = tt
masked-HasNoStderr (interface v) = tt
masked-HasNoStderr (string s) = tt
masked-HasNoStderr (bool b) = tt
masked-HasNoStderr (int n) = tt
masked-HasNoStderr (float x) = tt
masked-HasNoStderr nil_map = tt
masked-HasNoStderr (Value.map fs) = tt
masked-HasNoStderr (other_map n xs) = tt
masked-HasNoStderr nil_slice = tt
masked-HasNoStderr (slice xs) = tt
masked-HasNoStderr (array xs) = zero_items-HasNoStderr xs
masked-HasNoStderr nil_pointer = tt
masked-HasNoStderr (pointer v) = tt
masked-HasNoStderr (struct ms) = tt

either :
    (b : Bool) (v : Value)
    → HasNoStderr (redact_value v)
    → HasNoStderr (if b then masked_value v else redact_value v)
either true v h = masked-HasNoStderr v
either false v h = h

mutual
  unfolding redact_value HasNoStderr

  pub redact-HasNoStderr : (v : Value) → HasNoStderr v → HasNoStderr (redact_value v)
  redact-HasNoStderr nil_interface h = tt
  redact-HasNoStderr (interface v) h = redact-HasNoStderr v h
  redact-HasNoStderr (bool b) h = tt
  redact-HasNoStderr (int n) h = tt
  redact-HasNoStderr (float x) h = tt
  redact-HasNoStderr (string s) h = tt
  redact-HasNoStderr nil_map h = tt
  redact-HasNoStderr (Value.map fs) h = redact_fields-HasNoStderr fs h
  redact-HasNoStderr (other_map n xs) h = tt
  redact-HasNoStderr nil_slice h = tt
  redact-HasNoStderr (slice xs) h = redact_items-HasNoStderr xs h
  redact-HasNoStderr (array xs) h = redact_items-HasNoStderr xs h
  redact-HasNoStderr nil_pointer h = tt
  redact-HasNoStderr (pointer v) h = tt
  redact-HasNoStderr (struct ms) h = tt

  redact_items-HasNoStderr : (xs : Items) → HasNoStderrItems xs → HasNoStderrItems (redact_items xs)
  redact_items-HasNoStderr end_items h = tt
  redact_items-HasNoStderr (item v xs) h =
      (redact-HasNoStderr v h.0, redact_items-HasNoStderr xs h.1)

  pub redact_fields-HasNoStderr :
      (fs : Fields) → HasNoStderrFields fs → HasNoStderrFields (redact_fields fs)
  redact_fields-HasNoStderr end_fields h = tt
  redact_fields-HasNoStderr (field key v fs) (e, (h, k)) =
      (e, (either (sensitive_key key) v (redact-HasNoStderr v h), redact_fields-HasNoStderr fs k))
