-- ===== src/ResultBuilder/Classify.antt =====
-- The status of a result: the worst that its checks and errors give.
use ohinfra_plugins.Base.{◌≡◌, Bool, true, false, ◌||◌, List, [], ◌∷◌, any, if◌then◌else◌, arith}
use ohinfra_plugins.Protocol.Types.{
  Status, pass, info, warning, critical, partial, Check, StructuredError,
}
use ohinfra_plugins.ResultBuilder.{classify_checks, is_present, classify}

abbrev pub is_critical : Status → Bool
is_critical critical = true
is_critical s = false

abbrev pub is_warning : Status → Bool
is_warning warning = true
is_warning s = false

-- Neither a status that passes nor one with a status of its own.
abbrev pub is_unfinished : Status → Bool
is_unfinished pass = false
is_unfinished info = false
is_unfinished warning = false
is_unfinished critical = false
is_unfinished s = true

abbrev pub has : (Status → Bool) → List Check → Bool
has p checks = any (λ (c : Check). p c.status) checks

abbrev pub worst : Bool → Bool → List Check → Status
worst has_warning has_partial checks =
    if has is_critical checks
    then critical
    else if has_warning || has is_warning checks
    then warning
    else if has_partial || has is_unfinished checks
    then partial
    else pass

classify_checks-worst :
    (w p : Bool) (checks : List Check) → classify_checks w p checks ≡ worst w p checks
unfolding classify_checks
classify_checks-worst w p [] = ground arith
classify_checks-worst w p (check ∷ rest) = ground (
  arith,
  classify_checks-worst w p rest,
  classify_checks-worst true p rest,
  classify_checks-worst w true rest,
)

-- A result is critical if a check is, else a warning if a check is, else partial if there is an
-- error or a check with any other status than pass and info, else it passes.
pub classify-worst :
    (checks : List Check) (errors : List StructuredError)
    → classify checks errors ≡ worst false (is_present errors) checks
unfolding classify
classify-worst checks errors = classify_checks-worst false (is_present errors) checks
