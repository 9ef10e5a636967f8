-- ===== src/ResultBuilder/Build/Order.antt =====
-- What a built result tells of its input.
use ohinfra_plugins.Base.{
  ◌≡◌, refl, ◌∙◌, ap, Text, Bool, false, List, [], ◌∷◌, map, Option, none, some, All, sort_stable,
  any-sort_stable, lt_text_asym, lt_text_cotrans, sort_stable-IsSortedBy, IsSortedBy, IsWeakOrder,
  ℕ,
}
use ohinfra_plugins.Protocol.Value.{Fields}
use ohinfra_plugins.Protocol.Types.{
  Status, Check, Result, Slice, elements, or_empty, or_empty_map, normalize,
}
use ohinfra_plugins.Redact.{redact_check, redact_map, redact_result}
use ohinfra_plugins.Redact.Masked.{IsRedacted, AreRedactedFields, redacted_fields}
use ohinfra_plugins.ResultBuilder.{is_present, remove_fields}
use ohinfra_plugins.ResultBuilder.Classify.{
  has, worst, is_critical, is_warning, is_unfinished, classify-worst,
}
use ohinfra_plugins.ResultBuilder.Stderr.{HasNoStderr, HasNoStderrFields, removed_fields}
use ohinfra_plugins.ResultBuilder.Build.{
  Input, id_less, on_slice, clean_check, clean_details, raw_result, build,
}
use ohinfra_plugins.ResultBuilder.Build.Clean.{redact_fields-HasNoStderr}

has-sorted :
    (p : Status → Bool) (checks : List Check) → has p (sort_stable id_less checks) ≡ has p checks
has-sorted p checks = any-sort_stable id_less (λ (c : Check). p c.status) checks

id_less-IsWeakOrder : IsWeakOrder id_less
id_less-IsWeakOrder = record {
  asym = λ x y. lt_text_asym x.id y.id;
  cotrans = λ x y z. lt_text_cotrans x.id y.id z.id;
}

-- The order of checks is that of their names, which the other steps keep.
IsSortedBy-map :
    (f : Check → Check) (checks : List Check)
    → ((c : Check) → (f c).id ≡ c.id)
    → IsSortedBy id_less checks
    → IsSortedBy id_less (map f checks)
IsSortedBy-map f [] same h = tt
IsSortedBy-map f (c ∷ checks) same (h, k) = (all checks h, IsSortedBy-map f checks same k)
  where
    all :
        (l : List Check)
        → All (λ d. id_less d c ≡ false) l
        → All (λ d. id_less d (f c) ≡ false) (map f l)
    all [] h = tt
    all (d ∷ l) (h, k) = (rw (same c, same d) h, all l k)

abbrev pub ids : List Check → List Text
ids checks = map (λ (c : Check). c.id) checks

ids-map :
    (f : Check → Check) (checks : List Check)
    → ((c : Check) → (f c).id ≡ c.id)
    → ids (map f checks) ≡ ids checks
ids-map f [] same = refl
ids-map f (c ∷ checks) same = rw (same c, ids-map f checks same) refl

abbrev pub AreSafe : Fields → Type 0
AreSafe fs = HasNoStderrFields fs × AreRedactedFields fs

abbrev pub IsSafeMap : Option Fields → Type 0
IsSafeMap none = Unit
IsSafeMap (some fs) = AreSafe fs

safe_map : (m : Option Fields) → IsSafeMap (redact_map (clean_details m))
safe_map none = tt
safe_map (some fs) = (
  redact_fields-HasNoStderr (remove_fields fs) (removed_fields fs),
  redacted_fields (remove_fields fs),
)

or_empty-safe : (m : Option Fields) → IsSafeMap m → IsSafeMap (or_empty_map m)
unfolding HasNoStderr IsRedacted
or_empty-safe none h = (tt, tt)
or_empty-safe (some fs) h = h

safe_checks :
    (checks : List Check)
    → All (λ (c : Check). IsSafeMap c.details) (map redact_check (map clean_check checks))
safe_checks [] = tt
safe_checks (c ∷ checks) = (safe_map c.details, safe_checks checks)

sorted_elements :
    (c : Slice Check)
    → elements (on_slice (sort_stable id_less) c) ≡ sort_stable id_less (elements c)
unfolding sort_stable
sorted_elements none = refl
sorted_elements (some checks) = refl

built_elements :
    (c : Slice Check)
    → elements (
        or_empty (
          on_slice
            (map redact_check)
            (on_slice (map clean_check) (on_slice (sort_stable id_less) c))))
      ≡ map redact_check (map clean_check (sort_stable id_less (elements c)))
unfolding sort_stable
built_elements none = refl
built_elements (some checks) = refl

worst-sorted :
    (b : Bool) (checks : List Check)
    → worst false b (sort_stable id_less checks) ≡ worst false b checks
worst-sorted b checks =
    rw
      (has-sorted is_critical checks, has-sorted is_warning checks, has-sorted is_unfinished checks)
      refl

-- What is promised of a result that is built from an input.
pub record IsBuilt (input : Input) (r : Result) : Type 0 where
  pub status : r.status ≡ worst false (is_present (elements input.errors)) (elements input.checks)
  pub sorted : IsSortedBy id_less (elements r.checks)
  pub names : ids (elements r.checks) ≡ ids (sort_stable id_less (elements input.checks))
  pub data_map : IsSafeMap r.data_map
  pub details : All (λ (c : Check). IsSafeMap c.details) (elements r.checks)

-- The status of a built result is the worst of the input's checks and errors, in whatever order they
-- come, and its checks are those of the input, by id. In its data and in the details of its checks, no
-- map with string keys that is reached through interfaces, such maps, slices and arrays has a key of
-- stderr, and what is reached through these, pointers and exported members is redacted: what stands
-- under a sensitive name is the mask or the zero of its type, and every other text has gone through
-- the patterns.
pub build-IsBuilt :
    (format_time : ℕ → Text) (input : Input) → IsBuilt input (build format_time input)
unfolding build raw_result redact_result normalize
build-IsBuilt format_time input =
    let checks : List Check = sort_stable id_less (elements input.checks) in
    let sorted : IsSortedBy id_less checks =
      sort_stable-IsSortedBy id_less id_less-IsWeakOrder (elements input.checks) in
    record {
      status =
          classify-worst (elements (on_slice (sort_stable id_less) input.checks))
            (elements input.errors)
          ∙ (ap (worst false (is_present (elements input.errors))) (sorted_elements input.checks)
              ∙ worst-sorted (is_present (elements input.errors)) (elements input.checks));
      sorted = rw built_elements (
          IsSortedBy-map redact_check (map clean_check checks) (λ c. refl)
            (IsSortedBy-map clean_check checks (λ c. refl) sorted));
      names = rw built_elements (
          ids-map redact_check (map clean_check checks) (λ c. refl)
          ∙ ids-map clean_check checks (λ c. refl));
      data_map = or_empty-safe _ (safe_map input.data_map);
      details = rw built_elements (safe_checks checks);
    }
