-- ===== src/Execx/Buffer.antt =====
-- What a limited buffer holds behind any writes.
use mathlib.Core.Path.{subst}
use ohinfra_plugins.Base.{
  ℕ, zero, suc, ◌-◌, ◌≤◌, ◌<◌, ◌≡◌, refl, ap, sym, ◌∙◌, Text, List, [], ◌∷◌, ◌++◌, length, take,
  ltb, leb, arith, Bool-cases, inl, inr, All, ◌==◌, pos, negsuc, length-append, length-take, min, ℤ,
}
use ohinfra_plugins.Execx.{LimitedBuffer, new_limited_buffer, write}

take-all : (n : ℕ) (s : Text) → length s ≤ n → take n s ≡ s
take-all zero [] h = refl
take-all zero (c ∷ s) h = absurd (omega (arith, h))
take-all (suc n) [] h = refl
take-all (suc n) (c ∷ s) h = ap (λ t. c ∷ t) (take-all n s (omega (arith, h)))

take-append_short : (n : ℕ) (s t : Text) → n ≤ length s → take n (s ++ t) ≡ take n s
take-append_short zero [] [] h = refl
take-append_short zero [] (d ∷ t) h = refl
take-append_short zero (c ∷ s) t h = refl
take-append_short (suc n) [] t h = absurd (omega (arith, h))
take-append_short (suc n) (c ∷ s) t h = ap (λ u. c ∷ u) (take-append_short n s t (omega (arith, h)))

take-append_long :
    (n : ℕ) (s t : Text) → length s ≤ n → take n (s ++ t) ≡ s ++ take (n - length s) t
take-append_long n [] t h = let e : n - 0 ≡ n = omega arith in ap (λ k. take k t) (sym e)
take-append_long zero (c ∷ s) t h = absurd (omega (arith, h))
take-append_long (suc n) (c ∷ s) t h =
    let e : n - length s ≡ suc n - suc (length s) = omega arith in
    ap (λ u. c ∷ u) (take-append_long n s t (omega (arith, h)) ∙ ap (λ k. s ++ take k t) e)

length-take_short : (n : ℕ) (s : Text) → n ≤ length s → length (take n s) ≡ n
length-take_short zero [] h = refl
length-take_short zero (c ∷ s) h = refl
length-take_short (suc n) [] h = absurd (omega (arith, h))
length-take_short (suc n) (c ∷ s) h = ap suc (length-take_short n s (omega (arith, h)))

-- The buffer holds the beginning of the text, and is truncated if the text is longer than its limit.
abbrev pub IsFilled : LimitedBuffer → Text → Type 0
IsFilled b s = (b.buffer ≡ take b.limit s) × (b.truncated ≡ ltb b.limit (length s))

write-IsFilled :
    (input : Text) (b : LimitedBuffer) (s : Text)
    → 1 ≤ length input
    → IsFilled b s
    → IsFilled (write input b).1 (s ++ input)
unfolding write
write-IsFilled input b s h (e, t) =
    let len : length b.buffer ≡ min b.limit (length s) = ap length e ∙ length-take b.limit s in
    let sum = length-append s input in
    elim (Bool-cases (leb b.limit (length b.buffer))) [
      | inl full ↦
          let long : b.limit ≤ length s = ground (arith, len, full) in
          rw full (e ∙ sym (take-append_short b.limit s input long), ground (arith, sum, long, h))
      | inr room ↦
          let short : length s < b.limit = ground (arith, len, room) in
          let le : length s ≤ b.limit = omega (arith, short) in
          let same : b.buffer ≡ s = e ∙ take-all b.limit s le in
          elim (Bool-cases (ltb (b.limit - length b.buffer) (length input))) [
            | inl over ↦ rw room (
                rw over (
                  ap (λ u. u ++ take (b.limit - length u) input) same
                      ∙ sym (take-append_long b.limit s input le),
                  ground (arith, sum, short, over, len),
                ))
            | inr fits ↦
                let small : length (s ++ input) ≤ b.limit = ground (arith, sum, short, fits, len) in
                rw room (
                  rw fits (
                    ap (λ u. u ++ input) same ∙ sym (take-all b.limit (s ++ input) small),
                    t ∙ ground (arith, small, le),
                  ))
          ]
    ]

-- Any writes, one after the other.
abbrev pub write_all : List Text → LimitedBuffer → LimitedBuffer
write_all [] b = b
write_all (input ∷ rest) b = write_all rest (write input b).1

abbrev pub concat : List Text → Text
concat [] = []
concat (s ∷ rest) = s ++ concat rest

++_nil : (a : Text) → a ++ [] ≡ a
++_nil [] = refl
++_nil (x ∷ a) = ap (λ t. x ∷ t) (++_nil a)

++_assoc : (a b c : Text) → (a ++ b) ++ c ≡ a ++ (b ++ c)
++_assoc [] b c = refl
++_assoc (x ∷ a) b c = ap (λ t. x ∷ t) (++_assoc a b c)

write_all-IsFilled :
    (inputs : List Text) (b : LimitedBuffer) (s : Text)
    → All (λ input. 1 ≤ length input) inputs
    → IsFilled b s
    → IsFilled (write_all inputs b) (s ++ concat inputs)
write_all-IsFilled [] b s h f = subst (IsFilled b) (sym (++_nil s)) f
write_all-IsFilled (input ∷ rest) b s h f =
    subst (IsFilled (write_all rest (write input b).1)) (++_assoc s input (concat rest))
      (write_all-IsFilled rest (write input b).1 (s ++ input) h.1 (write-IsFilled input b s h.0 f))

new_limited_buffer-IsFilled : (limit : ℤ) → IsFilled (new_limited_buffer limit) []
new_limited_buffer-IsFilled (pos n) = elim (Bool-cases (n == 0)) [
  | inl e ↦ rw e (refl, refl)
  | inr e ↦ rw e (sym (take-all n [] (omega arith)), ground arith)
]
new_limited_buffer-IsFilled (negsuc n) = (refl, refl)

-- After any writes, none of which is empty, a new buffer holds the beginning of all that was written,
-- up to its limit, and is marked as truncated exactly if more was written.
pub write_all-new_limited_buffer :
    (limit : ℤ) (inputs : List Text)
    → All (λ input. 1 ≤ length input) inputs
    → IsFilled (write_all inputs (new_limited_buffer limit)) (concat inputs)
write_all-new_limited_buffer limit inputs h =
    write_all-IsFilled inputs (new_limited_buffer limit) [] h (new_limited_buffer-IsFilled limit)
