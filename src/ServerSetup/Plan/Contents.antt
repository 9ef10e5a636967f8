-- ===== src/ServerSetup/Plan/Contents.antt =====
-- What a plan holds: exactly the changes that the profile and the checks ask for.
use ohinfra_plugins.Base.{
  Text, ◌≡◌, ◌↔◌, ◌⊎◌, inl, inr, refl, ap, ◌∙◌, true, false, List, [], ◌∷◌, ◌++◌, In, In-append,
  In-append_left, In-append_right, sort_stable-In, All, ok, arith, Bool-cases,
}
use ohinfra_plugins.Protocol.Types.{Check, Change, Plan, elements}
use ohinfra_plugins.ServerSetup.Plan.{
  PlanMode, apply, upgrade, other_mode, PlanInput, contains, needs_change, status_of, is_incomplete,
  package_install, package_upgrade, group_change, user_change, directory_change, file_change,
  sysctl_change, unit_change, wanted, cached, package_changes, all_changes, change_less,
  require_complete, require_compiled, build_setup_plan, plan_for,
}

-- `c` is the change of a resource of the list whose check is a warning or critical.
abbrev pub Wants : {A : Type 0} → List Check → (A → Change) → List A → Change → Type 0
Wants {A} checks change l c =
    (a : A) × In a l × (needs_change (status_of checks (change a).object) ≡ true) × (change a ≡ c)

contra :
    {A : Type 0} (checks : List Check) (change : A → Change) (a b : A)
    → a ≡ b
    → needs_change (status_of checks (change a).object) ≡ false
    → needs_change (status_of checks (change b).object) ≡ true
    → ⊥
contra checks change a b e n y =
    cc (ap (λ x. needs_change (status_of checks (change x).object)) e, n, y)

wanted_iff :
    {A : Type 0} (checks : List Check) (change : A → Change) (l : List A) (c : Change)
    → In c (wanted checks change l) ↔ Wants checks change l c
unfolding wanted
wanted_iff checks change [] c = (λ h. absurd h, λ h. absurd h.1)
wanted_iff checks change (a ∷ l) c =
    elim (Bool-cases (needs_change (status_of checks (change a).object))) [
      | inl e ↦ rw e (
        λ h. elim h [
          | inl same ↦ (a, inl refl, e, same)
          | inr k ↦ let (b, i, n, s) = (wanted_iff checks change l c).0 k in (b, inr i, n, s)
        ],
        λ (b, i, n, s). elim i [
          | inl same ↦ inl (ap change same ∙ s)
          | inr k ↦ inr ((wanted_iff checks change l c).1 (b, k, n, s))
        ],
      )
      | inr e ↦ rw e (
        λ h. let (b, i, n, s) = (wanted_iff checks change l c).0 h in (b, inr i, n, s),
        λ (b, i, n, s). elim i [
          | inl same ↦ absurd (contra checks change a b same e n)
          | inr k ↦ (wanted_iff checks change l c).1 (b, k, n, s)
        ],
      )
    ]

-- A package that has an upgrade in the cache.
abbrev pub Upgrades : List Text → List Text → Change → Type 0
Upgrades upgrades packages c =
    (name : Text) × In name packages × (contains upgrades name ≡ true) × (package_upgrade name ≡ c)

contra_cached :
    (upgrades : List Text) (a b : Text)
    → a ≡ b
    → contains upgrades a ≡ false
    → contains upgrades b ≡ true
    → ⊥
contra_cached upgrades a b e n y = cc (ap (contains upgrades) e, n, y)

cached_iff :
    (upgrades packages : List Text) (c : Change)
    → In c (cached upgrades packages) ↔ Upgrades upgrades packages c
unfolding cached
cached_iff upgrades [] c = (λ h. absurd h, λ h. absurd h.1)
cached_iff upgrades (a ∷ l) c = elim (Bool-cases (contains upgrades a)) [
  | inl e ↦ rw e (
    λ h. elim h [
      | inl same ↦ (a, inl refl, e, same)
      | inr k ↦ let (b, i, n, s) = (cached_iff upgrades l c).0 k in (b, inr i, n, s)
    ],
    λ (b, i, n, s). elim i [
      | inl same ↦ inl (ap package_upgrade same ∙ s)
      | inr k ↦ inr ((cached_iff upgrades l c).1 (b, k, n, s))
    ],
  )
  | inr e ↦ rw e (
    λ h. let (b, i, n, s) = (cached_iff upgrades l c).0 h in (b, inr i, n, s),
    λ (b, i, n, s). elim i [
      | inl same ↦ absurd (contra_cached upgrades a b same e n)
      | inr k ↦ (cached_iff upgrades l c).1 (b, k, n, s)
    ],
  )
]

-- Packages are installed in mode apply and upgraded in mode upgrade.
abbrev pub PackageWants : PlanMode → PlanInput → Change → Type 0
PackageWants apply i c = Wants i.checks package_install i.profile.packages c
PackageWants upgrade i c = Upgrades i.cached_upgrades i.profile.packages c
PackageWants (other_mode t) i c = Wants i.checks package_install i.profile.packages c

package_changes_iff :
    (i : PlanInput) (c : Change) → In c (package_changes i) ↔ PackageWants i.mode i c
unfolding package_changes
package_changes_iff i c = by_mode i.mode
  where
    by_mode :
        (m : PlanMode)
        → In c (elim m [
          | upgrade ↦ cached i.cached_upgrades i.profile.packages
          | _ ↦ wanted i.checks package_install i.profile.packages
        ])
          ↔ PackageWants m i c
    by_mode apply = wanted_iff i.checks package_install i.profile.packages c
    by_mode upgrade = cached_iff i.cached_upgrades i.profile.packages c
    by_mode (other_mode t) = wanted_iff i.checks package_install i.profile.packages c

-- What a plan is made of, one resource kind after the other.
abbrev pub IsWanted : PlanInput → Change → Type 0
IsWanted i c =
    PackageWants i.mode i c
    ⊎ (Wants i.checks group_change i.profile.groups c
        ⊎ (Wants i.checks user_change i.profile.users c
            ⊎ (Wants i.checks directory_change i.profile.directories c
                ⊎ (Wants i.checks file_change i.profile.managed_files c
                    ⊎ (Wants i.checks sysctl_change i.profile.sysctls c
                        ⊎ Wants i.checks unit_change i.profile.units c)))))

append_iff :
    {P Q : Type 0} (c : Change) (xs ys : List Change)
    → In c xs ↔ P
    → In c ys ↔ Q
    → In c (xs ++ ys) ↔ (P ⊎ Q)
append_iff c xs ys p q = (
  λ h. elim (In-append c xs ys h) [ inl k ↦ inl (p.0 k) | inr k ↦ inr (q.0 k) ],
  λ h. elim h [ inl k ↦ In-append_left c xs ys (p.1 k) | inr k ↦ In-append_right c xs ys (q.1 k) ],
)

all_changes_iff : (i : PlanInput) (c : Change) → In c (all_changes i) ↔ IsWanted i c
unfolding all_changes
all_changes_iff i c = append_iff c _ _ (package_changes_iff i c) (
    append_iff c _ _ (wanted_iff i.checks group_change i.profile.groups c) (
      append_iff c _ _ (wanted_iff i.checks user_change i.profile.users c) (
        append_iff c _ _ (wanted_iff i.checks directory_change i.profile.directories c) (
          append_iff c _ _ (wanted_iff i.checks file_change i.profile.managed_files c) (
            append_iff c _ _ (wanted_iff i.checks sysctl_change i.profile.sysctls c)
              (wanted_iff i.checks unit_change i.profile.units c))))))

require_complete_sound :
    (checks : List Check)
    → require_complete checks ≡ ok tt
    → All (λ (k : Check). is_incomplete k.status ≡ false) checks
unfolding require_complete
require_complete_sound [] h = tt
require_complete_sound (k ∷ checks) h = (ground arith, require_complete_sound checks (ground arith))

require_compiled_sound :
    (packages upgrades : List Text)
    → require_compiled packages upgrades ≡ ok tt
    → All (λ name. contains packages name ≡ true) upgrades
unfolding require_compiled
require_compiled_sound packages [] h = tt
require_compiled_sound packages (name ∷ rest) h =
    (ground arith, require_compiled_sound packages rest (ground arith))

-- What a plan that was built tells of its input, and of its changes.
pub record IsBuilt (i : PlanInput) (p : Plan) : Type 0 where
  pub complete : All (λ (k : Check). is_incomplete k.status ≡ false) i.checks
  pub compiled : All (λ name. contains i.profile.packages name ≡ true) i.cached_upgrades
  pub contents : (c : Change) → In c (elements p.changes) ↔ IsWanted i c

-- If a plan is built, no check of the input is skipped, failed, partial or cancelled, every cached
-- upgrade is a package of the profile, and a change is in the plan exactly if it is that of a
-- resource of the profile whose check is a warning or critical; in mode upgrade a package has a
-- change exactly if it has a cached upgrade.
pub build_setup_plan-contents : (i : PlanInput) (p : Plan) → build_setup_plan i ≡ ok p → IsBuilt i p
unfolding build_setup_plan
build_setup_plan-contents i p h =
    let same : plan_for i ≡ p = ground arith in
    record {
      complete = require_complete_sound i.checks (ground arith);
      compiled = require_compiled_sound i.profile.packages i.cached_upgrades (ground arith);
      contents = λ c. rw (← same) (
        λ k. (all_changes_iff i c).0 ((sort_stable-In change_less c (all_changes i)).0 k),
        λ k. (sort_stable-In change_less c (all_changes i)).1 ((all_changes_iff i c).1 k),
      );
    }
