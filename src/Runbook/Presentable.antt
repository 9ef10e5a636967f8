-- ===== src/Runbook/Presentable.antt =====
-- What is shown of an accepted runbook, validate.go with render.go.
use ohinfra_plugins.Base.{
  ℕ, ◌+◌, arith, ◌≤◌, ◌<◌, ◌≡◌, refl, Text, eq_text, eq_text_refl, true, not, not-true, ◌&&◌,
  &&-eq-true, List, [], ◌∷◌, length, leb, ltb, leb→le, ltb→lt, ok, >>-eq-ok, require-eq-ok,
}
use ohinfra_plugins.Runbook.{
  Step, Document, StepView, RunbookView, normalize_text, step_views, render_document, runbook_name,
  validate_text, validate_steps, validate_document, max_runbook_title, max_runbook_description,
  max_runbook_steps, max_step_description,
}

-- A text is there and has at most so many bytes.
pub record Fits (most : ℕ) (text : Text) : Type 0 where
  pub there : ¬ (text ≡ [])
  pub bounded : length text ≤ most

pub StepsFit : ℕ → List StepView → Type 0
StepsFit n [] = Unit
StepsFit n (step ∷ steps) =
    (step.number ≡ n + 1)
    × Fits max_runbook_title step.title
    × Fits max_step_description step.description
    × StepsFit (n + 1) steps

pub record IsPresentable (view : RunbookView) : Type 0 where
  pub named : runbook_name view.name ≡ true
  pub titled : Fits max_runbook_title view.title
  pub described : Fits max_runbook_description view.description
  pub enough : 0 < length view.steps
  pub few : length view.steps ≤ max_runbook_steps
  pub numbered : StepsFit 0 view.steps

test-Fits : (s : Text) (most : ℕ) → (not (eq_text s []) && leb (length s) most) ≡ true → Fits most s
test-Fits s most h =
    let (filled, short) = &&-eq-true (not (eq_text s [])) (leb (length s) most) h in
    let different = not-true (eq_text s []) filled in
    let same = eq_text_refl [] in record { there = λ e. cc; bounded = leb→le (length s) most short }

validate_text-Fits :
    (field value : Text) (most : ℕ)
    → validate_text field value most ≡ ok tt
    → Fits most (normalize_text value)
unfolding validate_text
validate_text-Fits field value most h = test-Fits (normalize_text value) most (
    require-eq-ok _ _
      (>>-eq-ok _ _ (>>-eq-ok _ _ (>>-eq-ok _ _ (>>-eq-ok _ _ (>>-eq-ok _ _ h).0).0).0).0).1)

length-step_views : (n : ℕ) (steps : List Step) → length (step_views n steps) ≡ length steps
unfolding step_views
length-step_views n [] = refl
length-step_views n (step ∷ steps) = let tail = length-step_views (n + 1) steps in grind arith

step_views-bounds :
    (steps : List Step)
    → 0 < length steps
    → length steps ≤ max_runbook_steps
    → (0 < length (step_views 0 steps)) × (length (step_views 0 steps) ≤ max_runbook_steps)
step_views-bounds steps enough few =
    let same = length-step_views 0 steps in (grind arith, grind arith)

step_views-StepsFit :
    (n : ℕ) (steps : List Step) → validate_steps steps ≡ ok tt → StepsFit n (step_views n steps)
unfolding step_views validate_steps StepsFit
step_views-StepsFit n [] h = tt
step_views-StepsFit n (step ∷ steps) h =
    let (titled, others) = >>-eq-ok _ _ h in
    let (described, rest) = >>-eq-ok _ _ others in
    (
      refl,
      validate_text-Fits _ step.title max_runbook_title titled,
      validate_text-Fits _ step.description max_step_description described,
      step_views-StepsFit (n + 1) steps rest,
    )

-- A document that is accepted is shown under a right name, its title, its description and those of
-- all its steps not empty and within their limits, and its 1 to 64 steps with the numbers from 1 on.
pub render_document-IsPresentable :
    (document : Document)
    → validate_document document ≡ ok tt
    → IsPresentable (render_document document)
unfolding validate_document render_document
render_document-IsPresentable document h =
    let (versioned, after_version) = >>-eq-ok _ _ h in
    let (named, after_name) = >>-eq-ok _ _ after_version in
    let (titled, after_title) = >>-eq-ok _ _ after_name in
    let (described, after_description) = >>-eq-ok _ _ after_title in
    let (counted, stepped) = >>-eq-ok _ _ after_description in
    let count = length document.steps in
    let (some_step, few_steps) =
      &&-eq-true (ltb 0 count) (leb count max_runbook_steps) (require-eq-ok _ _ counted) in
    let (enough, few) =
      step_views-bounds document.steps (ltb→lt 0 count some_step)
        (leb→le count max_runbook_steps few_steps) in
    record {
      named = require-eq-ok _ _ named;
      titled = validate_text-Fits _ document.title max_runbook_title titled;
      described = validate_text-Fits _ document.description max_runbook_description described;
      enough = enough;
      few = few;
      numbered = step_views-StepsFit 0 document.steps stepped;
    }
