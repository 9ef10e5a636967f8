-- ===== src/Protocol/Validate/Fresh.antt =====
-- The `seen` maps of the loops: keys that are new and distinct, met one at a time.
use ohinfra_plugins.Base.{
  Text, ◌≡◌, ◌≢◌, ◌↔◌, refl, false, List, [], ◌∷◌, All, any, eq_text, eq_text→eq, eq_text_refl,
  arith, sym,
}
use ohinfra_plugins.Protocol.Validate.Spec.{Distinct}

abbrev pub NotIn : List Text → Text → Type 0
NotIn seen k = All (λ s. s ≢ k) seen

pub NotIn-iff : (k : Text) (seen : List Text) → (any (eq_text k) seen ≡ false) ↔ NotIn seen k
NotIn-iff k [] = (λ _. tt, λ _. refl)
NotIn-iff k (s ∷ seen) = (
  λ h. (λ e. ground (arith, e, eq_text_refl k), (NotIn-iff k seen).0 (ground arith)),
  λ h. ground (arith, eq_text→eq k s, (NotIn-iff k seen).1 h.1),
)

-- The keys are not among those seen, and differ from one another.
abbrev pub Fresh : List Text → List Text → Type 0
Fresh seen keys = All (NotIn seen) keys × Distinct keys

split_All :
    (k : Text) (seen keys : List Text)
    → All (NotIn (k ∷ seen)) keys
    → All (NotIn seen) keys × All (λ y. y ≢ k) keys
split_All k seen [] h = (tt, tt)
split_All k seen (q ∷ keys) h =
    let ih = split_All k seen keys h.1 in ((h.0.1, ih.0), (λ e. h.0.0 (sym e), ih.1))

join_All :
    (k : Text) (seen keys : List Text)
    → All (NotIn seen) keys
    → All (λ y. y ≢ k) keys
    → All (NotIn (k ∷ seen)) keys
join_All k seen [] h d = tt
join_All k seen (q ∷ keys) h d = ((λ e. d.0 (sym e), h.0), join_All k seen keys h.1 d.1)

-- One more key.
pub Fresh-cons :
    (k : Text) (seen keys : List Text)
    → Fresh seen (k ∷ keys) ↔ (NotIn seen k × Fresh (k ∷ seen) keys)
Fresh-cons k seen keys = (
  λ h. (h.0.0, (join_All k seen keys h.0.1 h.1.0, h.1.1)),
  λ h. let parts = split_All k seen keys h.1.0 in ((h.0, parts.0), (parts.1, h.1.1)),
)
