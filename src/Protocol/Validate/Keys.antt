-- ===== src/Protocol/Validate/Keys.antt =====
-- Command keys: joining identifiers by spaces loses nothing, so equal keys are equal paths.
use ohinfra_plugins.Base.{ℕ, Text, codes, join, ◌≡◌, ◌≢◌, refl, List, [], ◌∷◌, ◌++◌, All, arith}
use ohinfra_plugins.Protocol.Validate.Spec.{IsIdentifier, IsSegmentByte}

abbrev Lacks : ℕ → Text → Type 0
Lacks b = All (λ c. c ≢ b)

segment-Lacks : (s : Text) → All IsSegmentByte s → Lacks 32 s
segment-Lacks [] h = tt
segment-Lacks (c ∷ s) h = (omega arith, segment-Lacks s h.1)

identifier-Lacks : (s : Text) → IsIdentifier s → Lacks 32 s
identifier-Lacks [] h = absurd h
identifier-Lacks (c ∷ s) h = (omega arith, segment-Lacks s h.1)

-- The text in front of the first separator, and what stands behind it, are determined.
split_at_sep :
    (sep : ℕ) (a b s t : Text)
    → Lacks sep a
    → Lacks sep b
    → a ++ sep ∷ s ≡ b ++ sep ∷ t
    → (a ≡ b) × (s ≡ t)
split_at_sep sep [] [] s t ha hb e = (refl, cc)
split_at_sep sep [] (y ∷ b) s t ha hb e = ground arith
split_at_sep sep (x ∷ a) [] s t ha hb e = ground arith
split_at_sep sep (x ∷ a) (y ∷ b) s t ha hb e =
    let ih = split_at_sep sep a b s t ha.1 hb.1 (cc) in (cc ih.0, ih.1)

Lacks-append_sep : (sep : ℕ) (a b t : Text) → Lacks sep a → a ≢ b ++ sep ∷ t
Lacks-append_sep sep [] [] t h e = cc
Lacks-append_sep sep [] (y ∷ b) t h e = cc
Lacks-append_sep sep (x ∷ a) [] t h e = ground arith
Lacks-append_sep sep (x ∷ a) (y ∷ b) t h e = Lacks-append_sep sep a b t h.1 (cc)

join-identifier-ne-nil :
    (p : Text) (ps : List Text) → IsIdentifier p → join (p ∷ ps) (codes " ") ≢ []
unfolding join
join-identifier-ne-nil [] ps h e = h
join-identifier-ne-nil (c ∷ p) [] h e = cc
join-identifier-ne-nil (c ∷ p) (q ∷ ps) h e = cc

-- Paths of identifiers with the same key are the same path.
pub join_injective :
    (ps qs : List Text)
    → All IsIdentifier ps
    → All IsIdentifier qs
    → join ps (codes " ") ≡ join qs (codes " ")
    → ps ≡ qs
unfolding join
join_injective [] [] hp hq e = refl
join_injective [] (q ∷ qs) hp hq e = absurd (join-identifier-ne-nil q qs hq.0 (cc))
join_injective (p ∷ ps) [] hp hq e = absurd (join-identifier-ne-nil p ps hp.0 (cc))
join_injective (p ∷ []) (q ∷ []) hp hq e = cc
join_injective (p ∷ []) (q ∷ r ∷ qs) hp hq e =
    absurd (Lacks-append_sep 32 p q (join (r ∷ qs) (codes " ")) (identifier-Lacks p hp.0) e)
join_injective (p ∷ r ∷ ps) (q ∷ []) hp hq e =
    absurd (Lacks-append_sep 32 q p (join (r ∷ ps) (codes " ")) (identifier-Lacks q hq.0) (cc))
join_injective (p ∷ r ∷ ps) (q ∷ s ∷ qs) hp hq e =
    let parts =
      split_at_sep 32 p q (join (r ∷ ps) (codes " ")) (join (s ∷ qs) (codes " "))
        (identifier-Lacks p hp.0) (identifier-Lacks q hq.0) e in
    cc (parts.0, join_injective (r ∷ ps) (s ∷ qs) hp.1 hq.1 parts.1)
