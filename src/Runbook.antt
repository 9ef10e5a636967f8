-- ===== src/Runbook.antt =====
-- internal/runbook/validate.go and render.go: which runbooks are accepted, and what is shown of them.
pub mod Presentable
pub mod Tree
use ohinfra_plugins.Base.{
  ℕ, ◌+◌, Text, codes, eq_text, Bool, true, false, not, ◌&&◌, ◌||◌, List, [], ◌∷◌, any, all, length,
  ltb, leb, ◌==◌, Option, none, some, Checked, ok, Error, failure, message, require, ◌>>◌,
  if◌then◌else◌, ℤ, pos, eq_int, keep, map, join, fields, valid_utf8, runes, Rune, rune, invalid,
  is_control,
}
use ohinfra_plugins.Regex.{Regex, one, boundary, and_then, or_else, ends}
use ohinfra_plugins.Redact.{ignoring_case, two_words, assigned, is_blank_byte}

pub record Step : Type 0 where
  pub title : Text
  pub description : Text

pub record Document : Type 0 where
  pub schema_version : ℤ
  pub name : Text
  pub title : Text
  pub description : Text
  pub steps : List Step

pub record StepView : Type 0 where
  pub number : ℕ
  pub title : Text
  pub description : Text

pub record RunbookView : Type 0 where
  pub name : Text
  pub title : Text
  pub description : Text
  pub steps : List StepView

pub record ValidationView : Type 0 where
  pub name : Text
  pub valid : Bool
  pub code : Text

abbrev pub max_runbook_title : ℕ
max_runbook_title = 128

abbrev pub max_runbook_description : ℕ
max_runbook_description = 2048

abbrev pub max_runbook_steps : ℕ
max_runbook_steps = 64

abbrev pub max_step_description : ℕ
max_step_description = 4096

abbrev validation_view : Document → ValidationView
validation_view document = record { name = document.name; valid = true; code = [] }

unfoldable pub validation_views : List Document → Text → List ValidationView
validation_views documents selected =
    map validation_view
      (keep (λ (d : Document). eq_text selected [] || eq_text d.name selected) documents)

unfoldable pub normalize_text : Text → Text
normalize_text value = join (fields value) (codes " ")

abbrev step_view : ℕ → Step → StepView
step_view index step = record {
  number = index + 1;
  title = normalize_text step.title;
  description = normalize_text step.description;
}

unfoldable pub step_views : ℕ → List Step → List StepView
step_views index [] = []
step_views index (step ∷ steps) = step_view index step ∷ step_views (index + 1) steps

unfoldable pub render_document : Document → RunbookView
render_document document = record {
  name = document.name;
  title = normalize_text document.title;
  description = normalize_text document.description;
  steps = step_views 0 document.steps;
}

abbrev is_lower_letter_or_digit : ℕ → Bool
is_lower_letter_or_digit c = leb b'a' c && leb c b'z' || leb b'0' c && leb c b'9'

-- What follows the first letter of `runbookName`; the first argument says that a dash was read last.
unfoldable pub name_rest : Bool → Text → Bool
name_rest dash [] = not dash
name_rest dash (c ∷ s) =
    let letters = name_rest false s in
    let next = name_rest true s in
    if is_lower_letter_or_digit c then letters else (not dash && (c == b'-' && next))

unfoldable pub runbook_name : Text → Bool
runbook_name [] = false
runbook_name (c ∷ s) = (leb b'a' c && leb c b'z') && name_rest false s

-- `MatchString`: a match begins at some place of the text.
unfoldable pub found_in : Regex → Option ℕ → Text → Bool
found_in r before [] = false
found_in r before (c ∷ s) =
    let later = found_in r (some c) s in
    elim (ends r (record { before = before; taken = 0; rest = c ∷ s })) [
      | [] ↦ later
      | place ∷ places ↦ true
    ]

abbrev inline_credential : Regex
inline_credential = and_then boundary (
    and_then
      (or_else (ignoring_case (codes "password")) (
        or_else (ignoring_case (codes "passwd")) (
          or_else (ignoring_case (codes "passphrase")) (
            or_else (ignoring_case (codes "secret")) (
              or_else (ignoring_case (codes "token")) (
                or_else (two_words (codes "api") (codes "key")) (
                  or_else (ignoring_case (codes "authorization"))
                    (ignoring_case (codes "credential")))))))))
      (and_then assigned (one (λ c. not (is_blank_byte c)))))

-- `[a-z]` without regard to case, which takes long s and the Kelvin sign for letters.
abbrev is_letter : Rune → Bool
is_letter (rune c) =
    leb b'a' c && leb c b'z' || (leb b'A' c && leb c b'Z' || (c == 0x17f || c == 0x212a))
is_letter invalid = false

abbrev is_in_scheme : Rune → Bool
is_in_scheme (rune c) =
    is_letter (rune c) || (leb b'0' c && leb c b'9' || (c == b'+' || (c == b'.' || c == b'-')))
is_in_scheme invalid = false

abbrev is_word_rune : Rune → Bool
is_word_rune (rune c) =
    leb b'a' c && leb c b'z'
    || (leb b'A' c && leb c b'Z' || (leb b'0' c && leb c b'9' || c == b'_'))
is_word_rune invalid = false

abbrev is_rune : ℕ → Rune → Bool
is_rune c (rune d) = c == d
is_rune c invalid = false

-- `://` follows.
abbrev slashes : List Rune → Bool
slashes (a ∷ b ∷ c ∷ s) = is_rune b':' a && (is_rune b'/' b && is_rune b'/' c)
slashes _ = false

abbrev is_w : Rune → Bool
is_w r = is_rune b'w' r || is_rune b'W' r

abbrev www : List Rune → Bool
www (a ∷ b ∷ c ∷ d ∷ s) = is_w a && (is_w b && (is_w c && is_rune b'.' d))
www _ = false

-- `[a-z0-9+.-]*://`
unfoldable pub in_scheme : List Rune → Bool
in_scheme [] = false
in_scheme (r ∷ s) = slashes (r ∷ s) || (is_in_scheme r && in_scheme s)

-- `urlReference`; the first argument says that a word's rune stands before the text.
unfoldable pub url_reference : Bool → List Rune → Bool
url_reference before [] = false
url_reference before (r ∷ s) =
    (if before then not (is_word_rune r) else is_word_rune r)
      && (is_letter r && in_scheme s || www (r ∷ s))
    || url_reference (is_word_rune r) s

abbrev is_forbidden_control : Rune → Bool
is_forbidden_control r =
    is_control r && (not (is_rune 10 r) && (not (is_rune 13 r) && not (is_rune 9 r)))

unfoldable pub validate_text : Text → Text → ℕ → Checked
validate_text field value limit =
    require (valid_utf8 value) (message "%s must be valid UTF-8" (field ∷ []))
    >> require
        (not (eq_text (normalize_text value) []) && leb (length (normalize_text value)) limit)
        (message "%s length is outside limits" (field ∷ []))
    >> require (not (any is_forbidden_control (runes value)))
        (message "%s contains control characters" (field ∷ []))
    >> require (not (any (λ c. c == b'<' || c == b'>') value))
        (message "%s contains raw HTML" (field ∷ []))
    >> require (not (url_reference false (runes value))) (message "%s contains a URL" (field ∷ []))
    >> require (not (found_in inline_credential none value))
        (message "%s contains an inline credential" (field ∷ []))

unfoldable pub validate_steps : List Step → Checked
validate_steps [] = ok tt
validate_steps (step ∷ steps) =
    validate_text (codes "step title") step.title max_runbook_title
    >> (validate_text (codes "step description") step.description max_step_description
        >> validate_steps steps)

unfoldable pub validate_document : Document → Checked
validate_document document =
    require (eq_int document.schema_version (pos 1)) (failure "unsupported schema version")
    >> (require (runbook_name document.name) (failure "invalid runbook name")
        >> (validate_text (codes "title") document.title max_runbook_title
            >> (validate_text (codes "description") document.description max_runbook_description
                >> (require
                      (ltb 0 (length document.steps)
                        && leb (length document.steps) max_runbook_steps)
                      (failure "runbook step count must be within limits")
                    >> validate_steps document.steps))))
