-- ===== src/ServerSetup/Plan/Order.antt =====
-- The order of the changes in a plan.
use ohinfra_plugins.Base.{
  lt_text_asym, lt_text_cotrans, ℕ, Text, ◌≡◌, refl, Bool, true, false, List, [], ◌∷◌, All, All-map,
  eq_text, eq_text→eq, eq_text_refl, lt_text, lt_text_irrefl, lt_text_total, IsWeakOrder,
  IsSortedBy, sort_stable-IsSortedBy, keep, keep-sort_stable, sym, ◌∙◌, arith, ok, ltb, ◌==◌,
  cut_prefix, Option, some, none, codes, ◌+◌, ◌<◌, ◌⊎◌, inl, inr, Bool-cases, ltb→lt, if◌then◌else◌,
}
use ohinfra_plugins.Protocol.Types.{Check, Change, Plan, elements}
use ohinfra_plugins.ServerSetup.Plan.{
  PlanInput, change_priority, change_less, check_less, all_changes, build_setup_plan, plan_for,
  copied,
}

-- The order of (priority, object, action), as `change_less` compares them.
abbrev key_less : ℕ → Text → Text → ℕ → Text → Text → Bool
key_less p a b q c d =
    if p == q then (if eq_text a c then lt_text b d else lt_text a c) else ltb p q

key_less_asym :
    (p : ℕ) (a b : Text) (q : ℕ) (c d : Text)
    → key_less p a b q c d ≡ true
    → key_less q c d p a b ≡ false
key_less_asym p a b q c d h =
    ground
      (arith, lt_text_asym a c, lt_text_asym b d, eq_text→eq a c, eq_text→eq c a, eq_text_refl a)

key_less_cotrans :
    (p : ℕ) (a b : Text) (q : ℕ) (c d : Text) (r : ℕ) (e f : Text)
    → key_less q c d p a b ≡ false
    → key_less r e f q c d ≡ false
    → key_less r e f p a b ≡ false
key_less_cotrans p a b q c d r e f h k = ground (
  arith,
  eq_text→eq a c,
  eq_text→eq c a,
  eq_text→eq c e,
  eq_text→eq e c,
  eq_text→eq a e,
  eq_text→eq e a,
  eq_text_refl a,
  eq_text_refl c,
  lt_text_cotrans a c e,
  lt_text_cotrans b d f,
  lt_text_total c a,
  lt_text_total e c,
  lt_text_total e a,
)

change_less-IsWeakOrder : IsWeakOrder change_less
unfolding change_less
change_less-IsWeakOrder = record {
  asym = λ x y.
      key_less_asym (change_priority x.object) x.object x.action (change_priority y.object) y.object
        y.action;
  cotrans = λ x y z.
      key_less_cotrans (change_priority x.object) x.object x.action (change_priority y.object)
        y.object y.action (change_priority z.object) z.object z.action;
}

check_less-IsWeakOrder : IsWeakOrder check_less
check_less-IsWeakOrder = record {
  asym = λ x y. lt_text_asym x.id y.id;
  cotrans = λ x y z. lt_text_cotrans x.id y.id z.id;
}

-- The kinds of objects in the order in which a plan has them; what is of no kind comes last.
abbrev pub kinds : List Text
kinds =
    codes "package:"
    ∷ codes "group:"
    ∷ codes "user:"
    ∷ codes "directory:"
    ∷ codes "file:"
    ∷ codes "sysctl:"
    ∷ codes "unit:"
    ∷ []

-- The place of the first kind in a list that an object begins with.
abbrev pub place_in : List Text → Text → ℕ
place_in [] object = 0
place_in (kind ∷ rest) object = elim (cut_prefix object kind) [
  | some name ↦ 0
  | none ↦ 1 + place_in rest object
]

abbrev pub place : Change → ℕ
place change = place_in kinds change.object

-- The change `y` may stand behind `x`: it is of a later kind; or of the same one, and its object is
-- greater, or the same with an action that is not less.
abbrev pub MayFollow : Change → Change → Type 0
MayFollow x y =
    (place x < place y)
    ⊎ ((place x ≡ place y)
        × ((lt_text x.object y.object ≡ true)
            ⊎ ((x.object ≡ y.object) × (lt_text y.action x.action ≡ false))))

abbrev pub AreInOrder {ℓ} : {A : Type ℓ} → (A → A → Type 0) → List A → Type 0
AreInOrder Follows [] = Unit
AreInOrder Follows (x ∷ xs) = All (Follows x) xs × AreInOrder Follows xs

priority_step :
    (o : Option Text) (n m r : ℕ)
    → m ≡ n + 1 + r
    → (if (elim o as (λ _. Bool) [ none ↦ false | some rest ↦ true ]) then n else m)
      ≡ n + elim o as (λ _. ℕ) [ some name ↦ 0 | none ↦ 1 + r ]
priority_step none n m r h = ground (arith, h)
priority_step (some name) n m r h = ground arith

from_none : (n : ℕ) → 0 + n ≡ n
from_none n = omega arith

change_priority-place : (change : Change) → change_priority change.object ≡ place change
unfolding change_priority
change_priority-place change =
    let begins : Text → Option Text = cut_prefix change.object in
    priority_step (begins (codes "package:")) 0 _ _ (
      priority_step (begins (codes "group:")) 1 _ _ (
        priority_step (begins (codes "user:")) 2 _ _ (
          priority_step (begins (codes "directory:")) 3 _ _ (
            priority_step (begins (codes "file:")) 4 _ _ (
              priority_step (begins (codes "sysctl:")) 5 _ _
                (priority_step (begins (codes "unit:")) 6 7 0 refl))))))
    ∙ from_none _

key_follows :
    (p : ℕ) (a b : Text) (q : ℕ) (c d : Text)
    → key_less q c d p a b ≡ false
    → (p < q) ⊎ ((p ≡ q) × ((lt_text a c ≡ true) ⊎ ((a ≡ c) × (lt_text d b ≡ false))))
key_follows p a b q c d h = elim (Bool-cases (ltb p q)) [
  | inl e ↦ inl (ltb→lt p q e)
  | inr e ↦ inr (
      let same : p ≡ q = ground (arith, e, h) in
      (
        same,
        elim (Bool-cases (lt_text a c)) [
          | inl less ↦ inl less
          | inr more ↦
              let objects : a ≡ c =
                ground (arith, lt_text_total a c, same, h, more, eq_text→eq c a) in
              inr (objects, ground (arith, objects, eq_text_refl c, same, h))
        ],
      ))
]

not_less-MayFollow : (x y : Change) → change_less y x ≡ false → MayFollow x y
unfolding change_less
not_less-MayFollow x y h = rw (← change_priority-place x) (
    rw (← change_priority-place y) (
      key_follows (change_priority x.object) x.object x.action (change_priority y.object) y.object
        y.action h))

sorted-AreInOrder : (l : List Change) → IsSortedBy change_less l → AreInOrder MayFollow l
sorted-AreInOrder [] h = tt
sorted-AreInOrder (x ∷ xs) h =
    (All-map _ _ xs (λ y. not_less-MayFollow x y) h.0, sorted-AreInOrder xs h.1)

-- How a plan is ordered, and that it comes from no other checks.
pub record IsOrdered (i : PlanInput) (p : Plan) : Type 0 where
  pub checks_sorted : AreInOrder (λ (x y : Check). lt_text y.id x.id ≡ false) (elements p.checks)
  pub checks_stable :
      (id : Text)
      → keep (λ (k : Check). eq_text k.id id) (elements p.checks)
        ≡ keep (λ (k : Check). eq_text k.id id) i.checks
  pub changes_sorted : AreInOrder MayFollow (elements p.changes)

checks-AreInOrder :
    (l : List Check)
    → IsSortedBy check_less l
    → AreInOrder (λ (x y : Check). lt_text y.id x.id ≡ false) l
checks-AreInOrder [] h = tt
checks-AreInOrder (x ∷ xs) h = (h.0, checks-AreInOrder xs h.1)

elements-copied {ℓ} : {A : Type ℓ} (l : List A) → elements (copied l) ≡ l
elements-copied [] = refl
elements-copied (x ∷ l) = refl

same_id :
    (id : Text) (a b : Check)
    → eq_text a.id id ≡ true
    → eq_text b.id id ≡ true
    → check_less a b ≡ false
same_id id a b h k =
    let ab : a.id ≡ b.id = eq_text→eq a.id id h ∙ sym (eq_text→eq b.id id k) in
    rw ab (lt_text_irrefl b.id)

-- A plan has the checks of its input by id, those with one id in their order, and its changes by
-- kind (packages, groups, users, directories, files, sysctls, units, others), then by object and action.
pub build_setup_plan-order : (i : PlanInput) (p : Plan) → build_setup_plan i ≡ ok p → IsOrdered i p
unfolding build_setup_plan
build_setup_plan-order i p h =
    let same : plan_for i ≡ p = ground arith in
    let sorted = sort_stable-IsSortedBy change_less change_less-IsWeakOrder (all_changes i) in
    rw (← same) (record {
      checks_sorted =
          rw elements-copied (
            checks-AreInOrder _
              (sort_stable-IsSortedBy check_less check_less-IsWeakOrder i.checks));
      checks_stable =
          λ id. rw elements-copied (keep-sort_stable check_less _ i.checks (same_id id));
      changes_sorted = sorted-AreInOrder _ sorted;
    })
