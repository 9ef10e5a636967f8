-- ===== src/ResultBuilder/Stderr.antt =====
-- What is left of a value whose stderr is removed.
use ohinfra_plugins.Base.{◌≡◌, refl, Text, Bool, true, false, if◌then◌else◌, ap}
use ohinfra_plugins.Protocol.Value.{
  Value, nil_interface, interface, bool, int, float, string, nil_map, other_map, nil_slice, slice,
  array, nil_pointer, pointer, struct, Items, item, end_items, Fields, field, end_fields,
}
use ohinfra_plugins.ResultBuilder.{is_stderr, remove_stderr, remove_items, remove_fields}

-- No map in a value, in its items or in the values of a map, has a key of stderr.
unfoldable mutual
  pub HasNoStderr : Value → Type 0
  HasNoStderr (interface v) = HasNoStderr v
  HasNoStderr (Value.map fs) = HasNoStderrFields fs
  HasNoStderr (slice xs) = HasNoStderrItems xs
  HasNoStderr (array xs) = HasNoStderrItems xs
  HasNoStderr v = Unit

  pub HasNoStderrItems : Items → Type 0
  HasNoStderrItems end_items = Unit
  HasNoStderrItems (item v xs) = HasNoStderr v × HasNoStderrItems xs

  pub HasNoStderrFields : Fields → Type 0
  HasNoStderrFields end_fields = Unit
  HasNoStderrFields (field key v fs) =
      (is_stderr key ≡ false) × (HasNoStderr v × HasNoStderrFields fs)

removed_field :
    (key : Text) (v : Value) (fs : Fields) (b : Bool)
    → is_stderr key ≡ b
    → HasNoStderr v
    → HasNoStderrFields fs
    → HasNoStderrFields (if b then fs else field key v fs)
unfolding HasNoStderr
removed_field key v fs true e h k = k
removed_field key v fs false e h k = (e, (h, k))

mutual
  unfolding remove_stderr HasNoStderr

  removed : (v : Value) → HasNoStderr (remove_stderr v)
  removed (interface v) = removed v
  removed (Value.map fs) = removed_fields fs
  removed (slice xs) = removed_items xs
  removed (array xs) = removed_items xs
  removed nil_interface = tt
  removed (bool b) = tt
  removed (int n) = tt
  removed (float x) = tt
  removed (string s) = tt
  removed nil_map = tt
  removed (other_map n xs) = tt
  removed nil_slice = tt
  removed nil_pointer = tt
  removed (pointer v) = tt
  removed (struct ms) = tt

  removed_items : (xs : Items) → HasNoStderrItems (remove_items xs)
  removed_items end_items = tt
  removed_items (item v xs) = (removed v, removed_items xs)

  pub removed_fields : (fs : Fields) → HasNoStderrFields (remove_fields fs)
  removed_fields end_fields = tt
  removed_fields (field key v fs) =
      removed_field key (remove_stderr v) (remove_fields fs) (is_stderr key) refl (removed v)
        (removed_fields fs)

mutual
  unfolding remove_stderr HasNoStderr

  kept : (v : Value) → HasNoStderr v → remove_stderr v ≡ v
  kept (interface v) h = ap interface (kept v h)
  kept (Value.map fs) h = ap Value.map (kept_fields fs h)
  kept (slice xs) h = ap slice (kept_items xs h)
  kept (array xs) h = ap array (kept_items xs h)
  kept nil_interface h = refl
  kept (bool b) h = refl
  kept (int n) h = refl
  kept (float x) h = refl
  kept (string s) h = refl
  kept nil_map h = refl
  kept (other_map n xs) h = refl
  kept nil_slice h = refl
  kept nil_pointer h = refl
  kept (pointer v) h = refl
  kept (struct ms) h = refl

  kept_items : (xs : Items) → HasNoStderrItems xs → remove_items xs ≡ xs
  kept_items end_items h = refl
  kept_items (item v xs) h = cc (kept v h.0, kept_items xs h.1)

  kept_fields : (fs : Fields) → HasNoStderrFields fs → remove_fields fs ≡ fs
  kept_fields end_fields h = refl
  kept_fields (field key v fs) (e, (h, k)) = rw e (cc (kept v h, kept_fields fs k))

-- The removal leaves no key of stderr in a map of the value, at any depth that it walks (the values
-- of maps, slices, arrays and interfaces), and a second removal changes nothing more.
pub remove_stderr-HasNoStderr :
    (v : Value)
    → HasNoStderr (remove_stderr v) × (remove_stderr (remove_stderr v) ≡ remove_stderr v)
remove_stderr-HasNoStderr v = (removed v, kept (remove_stderr v) (removed v))

-- The removal changes nothing in a value that has no key of stderr.
pub remove_stderr-same : (v : Value) → HasNoStderr v → remove_stderr v ≡ v
remove_stderr-same v h = kept v h
