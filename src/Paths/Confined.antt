-- ===== src/Paths/Confined.antt =====
-- A relative path that is accepted goes down only: its components are names.
use mathlib.Core.List.{reverse-append}
use mathlib.Core.Path.{subst}
use ohinfra_plugins.Base.{
  not-true, ℕ, ◌≡◌, refl, ap, sym, ◌∙◌, ◌⊎◌, inl, inr, Text, eq_text, join, Bool, true, false, not,
  ◌&&◌, ◌||◌, List, [], ◌∷◌, ◌++◌, reverse, any, All, All-append, ok, arith, ◌==◌, Bool-cases,
  require, Error, ◌>>◌,
}
use ohinfra_plugins.Paths.{
  split_by, split_path, dot, dots, slash, go_up, push_component, push_all, is_abs, or_dot,
  components, clean, leads_out, clean_relative_path,
}

abbrev pub NoSlash : Text → Type 0
NoSlash s = any (λ c. c == b'/') s ≡ false

-- A component that leads one level down.
abbrev pub IsName : Text → Type 0
IsName s = NoSlash s × (eq_text s [] ≡ false) × (eq_text s dot ≡ false) × (eq_text s dots ≡ false)

any-append : (p : ℕ → Bool) (s t : Text) → any p (s ++ t) ≡ (any p s || any p t)
any-append p [] t = refl
any-append p (c ∷ s) t = ground (arith, any-append p s t)

split_by-NoSlash : (part s : Text) → NoSlash part → All NoSlash (split_by (λ c. c == b'/') part s)
unfolding split_by
split_by-NoSlash part [] h = (h, tt)
split_by-NoSlash part (c ∷ s) h = elim (Bool-cases (c == b'/')) [
  | inl e ↦ rw e (h, split_by-NoSlash [] s refl)
  | inr e ↦ rw e (split_by-NoSlash (part ++ c ∷ []) s (longer part c h e))
]
  where
    longer : (part : Text) (c : ℕ) → NoSlash part → (c == b'/') ≡ false → NoSlash (part ++ c ∷ [])
    longer part c h e = ground (arith, any-append (λ c. c == b'/') part (c ∷ []))

-- The components on the stack: names, and behind them only `..`.
abbrev Climbs : List Text → Type 0
Climbs stack = All (λ c. c ≡ dots) stack

abbrev Normal : List Text → Type 0
Normal [] = Unit
Normal (c ∷ rest) = (IsName c × Normal rest) ⊎ ((c ≡ dots) × Climbs rest)

go_up-Normal : (stack : List Text) → Normal stack → Normal (go_up false stack)
go_up-Normal [] h = inr (refl, tt)
go_up-Normal (top ∷ rest) (inl (n, h)) = rw n.3 h
go_up-Normal (top ∷ rest) (inr (e, h)) = rw e (inr (refl, (refl, h)))

push_component-Normal :
    (stack : List Text) (c : Text)
    → NoSlash c
    → Normal stack
    → Normal (push_component false stack c)
push_component-Normal stack [] n h = h
push_component-Normal stack (c ∷ s) n h = elim (Bool-cases (eq_text (c ∷ s) dot)) [
  | inl e ↦ rw e h
  | inr e ↦ elim (Bool-cases (eq_text (c ∷ s) dots)) [
    | inl f ↦ rw e (rw f (go_up-Normal stack h))
    | inr f ↦ rw e (rw f (inl ((n, refl, e, f), h)))
  ]
]

push_all-Normal :
    (stack parts : List Text)
    → All NoSlash parts
    → Normal stack
    → Normal (push_all false stack parts)
unfolding push_all
push_all-Normal stack [] n h = h
push_all-Normal stack (c ∷ parts) n h =
    push_all-Normal (push_component false stack c) parts n.1 (push_component-Normal stack c n.0 h)

-- Either all are names, or the first component, which is the last on the stack, is `..`.
Normal-cases :
    (stack : List Text)
    → Normal stack
    → All IsName stack ⊎ ((start : List Text) × (stack ≡ start ++ dots ∷ []))
Normal-cases [] h = inl tt
Normal-cases (c ∷ rest) (inl (n, h)) = elim (Normal-cases rest h) [
  | inl k ↦ inl (n, k)
  | inr (start, e) ↦ inr (c ∷ start, ap (λ l. c ∷ l) e)
]
Normal-cases (c ∷ []) (inr (e, h)) = inr ([], ap (λ d. d ∷ []) e)
Normal-cases (c ∷ d ∷ rest) (inr (e, h)) = elim (Normal-cases (d ∷ rest) (inr h)) [
  | inl k ↦ absurd (not_dots d h.0 k.0)
  | inr (start, f) ↦ inr (c ∷ start, ap (λ l. c ∷ l) f)
]
  where
    not_dots : (d : Text) → d ≡ dots → IsName d → ⊥
    not_dots d e n = cc (ap (λ t. eq_text t dots) e, n.3)

leads_out-dots : (rest : List Text) → leads_out (or_dot (join (dots ∷ rest) slash)) ≡ true
unfolding join
leads_out-dots [] = refl
leads_out-dots (c ∷ rest) = refl

All-reverse : (P : Text → Type 0) (l : List Text) → All P l → All P (reverse l)
All-reverse P [] h = tt
All-reverse P (x ∷ l) h =
    subst (All P) (sym (reverse-append (x ∷ []) l))
      (All-append P (reverse l) (x ∷ []) (All-reverse P l h.1) (h.0, tt))

or_dot-join :
    (c : Text) (rest : List Text)
    → eq_text c [] ≡ false
    → or_dot (join (c ∷ rest) slash) ≡ join (c ∷ rest) slash
unfolding join
or_dot-join [] rest h = absurd (ground arith)
or_dot-join (c ∷ s) [] h = refl
or_dot-join (c ∷ s) (d ∷ rest) h = refl

-- The components of an accepted path.
pub record IsConfined (relative path : Text) : Type 0 where
  pub first : Text
  pub rest : List Text
  pub names : All IsName (first ∷ rest)
  pub joined : path ≡ join (first ∷ rest) slash

confined :
    (path : Text) (parts : List Text)
    → All IsName parts
    → leads_out (or_dot (join parts slash)) ≡ false
    → IsConfined path (or_dot (join parts slash))
unfolding join
confined path [] n h = absurd (ground arith)
confined path (c ∷ rest) n h = record {
  first = c;
  rest = rest;
  names = n;
  joined = or_dot-join c rest n.0.1;
}

clash : {b : Bool} → b ≡ true → b ≡ false → ⊥
clash h k = cc

components-IsConfined :
    (path : Text) (stack : List Text)
    → Normal stack
    → leads_out (or_dot (join (reverse stack) slash)) ≡ false
    → IsConfined path (or_dot (join (reverse stack) slash))
components-IsConfined path stack n h = elim (Normal-cases stack n) [
  | inl k ↦ confined path (reverse stack) (All-reverse IsName stack k) h
  | inr (start, e) ↦
      let turned : reverse stack ≡ dots ∷ reverse start =
        ap reverse e ∙ reverse-append start (dots ∷ []) in
      absurd (
        clash (ap (λ l. leads_out (or_dot (join l slash))) turned ∙ leads_out-dots (reverse start))
          h)
]

clean-IsConfined :
    (path : Text)
    → is_abs path ≡ false
    → leads_out (clean path) ≡ false
    → IsConfined path (clean path)
unfolding clean
clean-IsConfined path relative inside =
    let normal : Normal (push_all (is_abs path) [] (split_path path)) =
      rw relative (push_all-Normal [] (split_path path) (split_by-NoSlash [] path refl) tt) in
    let plain : clean path ≡ or_dot (join (components path) slash) = rw relative refl in
    subst (IsConfined path) (sym plain) (
      components-IsConfined path (push_all (is_abs path) [] (split_path path)) normal
        (ap leads_out (sym plain) ∙ inside))

three_guards :
    (a b c : Bool) (e : Error) (x p : Text)
    → (require a e >> (require b e >> (require c e >> ok x))) ≡ ok p
    → (a ≡ true) × (c ≡ true) × (x ≡ p)
three_guards a b c e x p h = ground arith

not_and : (a b : Bool) → (a && not b) ≡ true → b ≡ false
not_and a b h = ground arith

-- A relative path that is accepted is cleaned to components that each lead one level down: there is
-- at least one, and none is empty, `.` or `..` or has a slash in it.
pub clean_relative_path-IsConfined :
    (relative path : Text) → clean_relative_path relative ≡ ok path → IsConfined relative path
unfolding clean_relative_path
clean_relative_path-IsConfined relative path h =
    let (start, inside, same) = three_guards _ _ _ _ _ path h in
    rw (← same) (clean-IsConfined relative (not_and _ _ start) (not-true _ inside))
