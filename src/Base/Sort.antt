-- ===== src/Base/Sort.antt =====
-- `sort.SliceStable` with a `less` function, as the insertion sort that has its contract.
use mathlib.Core.Path.{◌≡◌, refl, ◌∙◌, ap}
use mathlib.Core.Bool.{Bool, true, false, ◌||◌}
use mathlib.Core.List.{List, [], ◌∷◌, Perm, map}
use mathlib.Core.List.Perm
use native.Mathlib.Omega.{arith}
use mathlib.Core.Logic.{◌↔◌, inl, inr}
use ohinfra_plugins.Base.Tests.{if◌then◌else◌, Bool-cases}
use ohinfra_plugins.Base.Lists.{All, All-map, In, any}

module _ {ℓ} {A : Type ℓ} where
  -- An element goes in front of the first one that is not less than it.
  unfoldable pub insert_stable : (A → A → Bool) → A → List A → List A
  insert_stable less x [] = x ∷ []
  insert_stable less x (y ∷ ys) = if less y x then y ∷ insert_stable less x ys else x ∷ y ∷ ys

  unfoldable pub sort_stable : (A → A → Bool) → List A → List A
  unfolding insert_stable
  sort_stable less [] = []
  sort_stable less (x ∷ xs) = insert_stable less x (sort_stable less xs)

  abbrev pub keep : (A → Bool) → List A → List A
  keep p [] = []
  keep p (x ∷ xs) = if p x then x ∷ keep p xs else keep p xs

  -- No element is less than one in front of it.
  abbrev pub IsSortedBy : (A → A → Bool) → List A → Type 0
  IsSortedBy less [] = Unit
  IsSortedBy less (x ∷ xs) = All (λ y. less y x ≡ false) xs × IsSortedBy less xs

module _ {ℓ} {A : Type ℓ} (less : A → A → Bool) where
  insert_stable-perm : (x : A) (ys : List A) → Perm (insert_stable less x ys) (x ∷ ys)
  unfolding insert_stable
  insert_stable-perm x [] = Perm.refl (x ∷ [])
  insert_stable-perm x (y ∷ ys) =
      elim (less y x)
        as (λ b. Perm (if b then y ∷ insert_stable less x ys else x ∷ y ∷ ys) (x ∷ y ∷ ys)) [
          | true ↦ Perm.trans (Perm.cons y (insert_stable-perm x ys)) (Perm.swap x y ys)
          | false ↦ Perm.refl (x ∷ y ∷ ys)
        ]

  pub sort_stable-perm : (xs : List A) → Perm (sort_stable less xs) xs
  unfolding sort_stable
  sort_stable-perm [] = Perm.refl []
  sort_stable-perm (x ∷ xs) =
      Perm.trans (insert_stable-perm x (sort_stable less xs)) (Perm.cons x (sort_stable-perm xs))

  insert_stable-All {κ} :
      (P : A → Type κ) (x : A) (ys : List A) → P x → All P ys → All P (insert_stable less x ys)
  unfolding insert_stable
  insert_stable-All P x [] px h = (px, tt)
  insert_stable-All P x (y ∷ ys) px h =
      elim (less y x) as (λ b. All P (if b then y ∷ insert_stable less x ys else x ∷ y ∷ ys)) [
        | true ↦ (h.0, insert_stable-All P x ys px h.1)
        | false ↦ (px, h)
      ]

  pub sort_stable-All {κ} : (P : A → Type κ) (xs : List A) → All P xs → All P (sort_stable less xs)
  unfolding sort_stable
  sort_stable-All P [] h = tt
  sort_stable-All P (x ∷ xs) h = insert_stable-All P x _ h.0 (sort_stable-All P xs h.1)

  keep-insert_stable :
      (p : A → Bool) (x : A) (ys : List A)
      → ((a b : A) → p a ≡ true → p b ≡ true → less a b ≡ false)
      → keep p (insert_stable less x ys) ≡ keep p (x ∷ ys)
  unfolding insert_stable
  keep-insert_stable p x [] h = refl
  keep-insert_stable p x (y ∷ ys) h = ground (arith, keep-insert_stable p x ys h, h y x)

  -- Elements that do not compare keep their order.
  pub keep-sort_stable :
      (p : A → Bool) (xs : List A)
      → ((a b : A) → p a ≡ true → p b ≡ true → less a b ≡ false)
      → keep p (sort_stable less xs) ≡ keep p xs
  unfolding sort_stable
  keep-sort_stable p [] h = refl
  keep-sort_stable p (x ∷ xs) h =
      ground (arith, keep-insert_stable p x (sort_stable less xs) h, keep-sort_stable p xs h)

module _ {ℓ} {A : Type ℓ} (less : A → A → Bool) (p : A → Bool) where
  any-insert_stable : (x : A) (ys : List A) → any p (insert_stable less x ys) ≡ (p x || any p ys)
  unfolding insert_stable
  any-insert_stable x [] = refl
  any-insert_stable x (y ∷ ys) = ground (arith, any-insert_stable x ys)

  pub any-sort_stable : (xs : List A) → any p (sort_stable less xs) ≡ any p xs
  unfolding sort_stable
  any-sort_stable [] = refl
  any-sort_stable (x ∷ xs) =
      any-insert_stable x (sort_stable less xs) ∙ ground (arith, any-sort_stable xs)

module _ {A B : Type 0} (less : B → B → Bool) (f : A → B) where
  map-insert_stable :
      (x : A) (ys : List A)
      → map f (insert_stable (λ a b. less (f a) (f b)) x ys) ≡ insert_stable less (f x) (map f ys)
  unfolding insert_stable
  map-insert_stable x [] = refl
  map-insert_stable x (y ∷ ys) = ground (arith, map-insert_stable x ys)

  pub map-sort_stable :
      (xs : List A) → map f (sort_stable (λ a b. less (f a) (f b)) xs) ≡ sort_stable less (map f xs)
  unfolding sort_stable
  map-sort_stable [] = refl
  map-sort_stable (x ∷ xs) =
      map-insert_stable x (sort_stable (λ a b. less (f a) (f b)) xs)
      ∙ ap (insert_stable less (f x)) (map-sort_stable xs)

-- What Go asks of `less`: a strict weak order.
pub record IsWeakOrder {ℓ} {A : Type ℓ} (less : A → A → Bool) : Type ℓ where
  pub asym : (a b : A) → less a b ≡ true → less b a ≡ false
  pub cotrans : (a b c : A) → less b a ≡ false → less c b ≡ false → less c a ≡ false

module _ {ℓ} {A : Type ℓ} (less : A → A → Bool) (order : IsWeakOrder less) where
  insert_stable-IsSortedBy :
      (x : A) (ys : List A) → IsSortedBy less ys → IsSortedBy less (insert_stable less x ys)
  unfolding insert_stable
  insert_stable-IsSortedBy x [] h = (tt, tt)
  insert_stable-IsSortedBy x (y ∷ ys) h = elim (Bool-cases (less y x)) [
    | inl e ↦ rw e (
      insert_stable-All less (λ z. less z y ≡ false) x ys (order.asym y x e) h.0,
      insert_stable-IsSortedBy x ys h.1,
    )
    | inr e ↦ rw e ((e, All-map _ _ ys (λ z lt. order.cotrans x y z e lt) h.0), h)
  ]

  pub sort_stable-IsSortedBy : (xs : List A) → IsSortedBy less (sort_stable less xs)
  unfolding sort_stable
  sort_stable-IsSortedBy [] = tt
  sort_stable-IsSortedBy (x ∷ xs) = insert_stable-IsSortedBy x _ (sort_stable-IsSortedBy xs)

module _ {A : Type 0} {a : A} where
  swap_In : (x y : A) (l : List A) → In a (y ∷ x ∷ l) → In a (x ∷ y ∷ l)
  swap_In x y l (inl e) = inr (inl e)
  swap_In x y l (inr (inl e)) = inl e
  swap_In x y l (inr (inr h)) = inr (inr h)

  under_In : (y : A) (l m : List A) → (In a l → In a m) → In a (y ∷ l) → In a (y ∷ m)
  under_In y l m f (inl e) = inl e
  under_In y l m f (inr h) = inr (f h)

-- Sorting keeps what the list holds.
module _ {A : Type 0} (less : A → A → Bool) (a : A) where
  insert_stable-In : (x : A) (ys : List A) → In a (insert_stable less x ys) ↔ In a (x ∷ ys)
  unfolding insert_stable
  insert_stable-In x [] = (λ h. h, λ h. h)
  insert_stable-In x (y ∷ ys) = elim (Bool-cases (less y x)) [
    | inl e ↦ rw e (
      λ h.
          swap_In x y ys
            (under_In y (insert_stable less x ys) (x ∷ ys) (insert_stable-In x ys).0 h),
      λ h.
          under_In y (x ∷ ys) (insert_stable less x ys) (insert_stable-In x ys).1
            (swap_In y x ys h),
    )
    | inr e ↦ rw e (λ h. h, λ h. h)
  ]

  pub sort_stable-In : (xs : List A) → In a (sort_stable less xs) ↔ In a xs
  unfolding sort_stable
  sort_stable-In [] = (λ h. h, λ h. h)
  sort_stable-In (x ∷ xs) = (
    λ h.
        under_In x (sort_stable less xs) xs (sort_stable-In xs).0
          ((insert_stable-In x (sort_stable less xs)).0 h),
    λ h.
        (insert_stable-In x (sort_stable less xs)).1
          (under_In x xs (sort_stable less xs) (sort_stable-In xs).1 h),
  )
