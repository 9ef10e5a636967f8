-- ===== src/ServerSetup/Transaction/Planned.antt =====
-- The switch of `Apply` and the plan: every planned change has an operation, and an operation is
-- always on a resource of the compiled profile.
use ohinfra_plugins.Base.{
  ◌≡◌, refl, ap, inl, inr, Text, codes, eq_text, eq_text→eq, eq_text_refl, cut_prefix, Bool, true,
  false, ◌&&◌, ◌||◌, List, [], ◌∷◌, ◌++◌, In, Option, none, some, ok, arith, Bool-cases,
}
use ohinfra_plugins.Protocol.Types.{Change, Plan, elements}
use ohinfra_plugins.ServerSetup.Profile.{
  GroupSpec, UserSpec, DirectorySpec, ManagedFileSpec, SysctlSpec, Profile,
}
use ohinfra_plugins.ServerSetup.Plan.{
  PlanMode, apply, upgrade, other_mode, PlanInput, contains, build_setup_plan,
}
use ohinfra_plugins.ServerSetup.Plan.Contents.{
  IsBuilt, IsWanted, PackageWants, build_setup_plan-contents,
}
use ohinfra_plugins.ServerSetup.Transaction.{
  choose_package, choose_group, choose_user, choose_directory, choose_file, choose_sysctl,
  choose_unit, Operation, on_package, on_group, on_user, on_directory, on_file, on_sysctl, on_unit,
  find_named, choose, for_resource, when, or_next,
}

find_named-In :
    {A : Type 0} (name : A → Text) (l : List A) (a : A)
    → In a l
    → (b : A) × (find_named name l (name a) ≡ some b) × (name b ≡ name a)
unfolding find_named
find_named-In name [] a i = absurd i
find_named-In name (x ∷ l) a i = elim (Bool-cases (eq_text (name x) (name a))) [
  | inl e ↦ rw e (x, refl, eq_text→eq (name x) (name a) e)
  | inr e ↦ rw e (elim i [
    | inl same ↦ absurd (cc (ap (λ y. eq_text (name x) (name y)) same, eq_text_refl (name x), e))
    | inr k ↦ find_named-In name l a k
  ])
]

contains-In : (l : List Text) (n : Text) → In n l → contains l n ≡ true
contains-In [] n i = absurd i
contains-In (x ∷ l) n (inl e) = rw (← e) (ground (arith, eq_text_refl x))
contains-In (x ∷ l) n (inr i) = ground (arith, contains-In l n i)

-- The object of the changes that an operation serves.
abbrev pub operation_object : Operation → Text
operation_object (on_package name b) = codes "package:" ++ name
operation_object (on_group spec) = codes "group:" ++ spec.name
operation_object (on_user spec) = codes "user:" ++ spec.name
operation_object (on_directory spec) = codes "directory:" ++ spec.path
operation_object (on_file spec) = codes "file:" ++ spec.path
operation_object (on_sysctl spec) = codes "sysctl:" ++ spec.key
operation_object (on_unit name) = codes "unit:" ++ name

abbrev pub Serves : Profile → Change → Type 0
Serves profile c = (o : Operation) × (choose profile c ≡ some o) × (operation_object o ≡ c.object)

package-Serves :
    (i : PlanInput) (m : PlanMode) (c : Change) → PackageWants m i c → Serves i.profile c
unfolding choose
package-Serves i apply c (n, k, w, e) =
    rw (← e) (on_package n false, rw (contains-In i.profile.packages n k) refl, refl)
package-Serves i upgrade c (n, k, w, e) =
    rw (← e) (on_package n true, rw (contains-In i.profile.packages n k) refl, refl)
package-Serves i (other_mode t) c (n, k, w, e) =
    rw (← e) (on_package n false, rw (contains-In i.profile.packages n k) refl, refl)

wanted-Serves : (i : PlanInput) (c : Change) → IsWanted i c → Serves i.profile c
unfolding choose
wanted-Serves i c (inl h) = package-Serves i i.mode c h
wanted-Serves i c (inr (inl (g, k, n, e))) =
    let (b, f, s) = find_named-In (λ (s : GroupSpec). s.name) i.profile.groups g k in
    rw (← e) (on_group b, rw f refl, ap (λ t. codes "group:" ++ t) s)
wanted-Serves i c (inr (inr (inl (g, k, n, e)))) =
    let (b, f, s) = find_named-In (λ (s : UserSpec). s.name) i.profile.users g k in
    rw (← e) (on_user b, rw f refl, ap (λ t. codes "user:" ++ t) s)
wanted-Serves i c (inr (inr (inr (inl (g, k, n, e))))) =
    let (b, f, s) = find_named-In (λ (s : DirectorySpec). s.path) i.profile.directories g k in
    rw (← e) (on_directory b, rw f refl, ap (λ t. codes "directory:" ++ t) s)
wanted-Serves i c (inr (inr (inr (inr (inl (g, k, n, e)))))) =
    let (b, f, s) = find_named-In (λ (s : ManagedFileSpec). s.path) i.profile.managed_files g k in
    rw (← e) (on_file b, rw f refl, ap (λ t. codes "file:" ++ t) s)
wanted-Serves i c (inr (inr (inr (inr (inr (inl (g, k, n, e))))))) =
    let (b, f, s) = find_named-In (λ (s : SysctlSpec). s.key) i.profile.sysctls g k in
    rw (← e) (on_sysctl b, rw f refl, ap (λ t. codes "sysctl:" ++ t) s)
wanted-Serves i c (inr (inr (inr (inr (inr (inr (u, k, n, e))))))) =
    rw (← e) (on_unit u, rw (contains-In i.profile.units u k) refl, refl)

-- If a plan is built, every change in it has an operation in the switch of `Apply` for the profile
-- that the plan is built from, and this operation is on the resource that the change names.
pub build_setup_plan-choose :
    (i : PlanInput) (p : Plan) (c : Change)
    → build_setup_plan i ≡ ok p
    → In c (elements p.changes)
    → Serves i.profile c
build_setup_plan-choose i p c h k =
    let built : IsBuilt i p = build_setup_plan-contents i p h in
    wanted-Serves i c ((built.contents c).0 k)

-- The resources of a compiled profile.
abbrev pub IsCompiled : Profile → Operation → Type 0
IsCompiled profile (on_package name b) = contains profile.packages name ≡ true
IsCompiled profile (on_group spec) = In spec profile.groups
IsCompiled profile (on_user spec) = In spec profile.users
IsCompiled profile (on_directory spec) = In spec profile.directories
IsCompiled profile (on_file spec) = In spec profile.managed_files
IsCompiled profile (on_sysctl spec) = In spec profile.sysctls
IsCompiled profile (on_unit name) = contains profile.units name ≡ true

find_named_sound :
    {A : Type 0} (name : A → Text) (l : List A) (want : Text) (a : A)
    → find_named name l want ≡ some a
    → In a l
unfolding find_named
find_named_sound name [] want a h = ground arith
find_named_sound name (x ∷ l) want a h = elim (Bool-cases (eq_text (name x) want)) [
  | inl e ↦ inl (ground arith)
  | inr e ↦ inr (find_named_sound name l want a (ground arith))
]

when-some :
    (b : Bool) (o : Option Operation) (r : Operation)
    → when b o ≡ some r
    → (b ≡ true) × (o ≡ some r)
when-some true o r h = (refl, h)
when-some false o r h = ground arith

for_resource-some :
    {A : Type 0} (f : A → Operation) (o : Option A) (r : Operation)
    → for_resource f o ≡ some r
    → (a : A) × (o ≡ some a) × (f a ≡ r)
for_resource-some f none r h = ground arith
for_resource-some f (some a) r h = (a, refl, ground arith)

none≢some : {A : Type 0} {a : A} → none ≡ some a → ⊥
none≢some h = ground arith

or_next-cases :
    {P : Type 0} (x : Option Text) (f : Text → Option Operation) (next : Option Operation)
    (o : Operation)
    → ((name : Text) → f name ≡ some o → P)
    → (next ≡ some o → P)
    → or_next x f next ≡ some o
    → P
or_next-cases none f next o p q h = q h
or_next-cases (some name) f next o p q h = p name h

-- The case of one kind of resource that is looked up by its name.
named-IsCompiled :
    {A : Type 0} (profile : Profile) (name : A → Text) (l : List A) (f : A → Operation)
    → ((a : A) → In a l → IsCompiled profile (f a))
    → (b : Bool) (want : Text) (o : Operation)
    → when b (for_resource f (find_named name l want)) ≡ some o
    → IsCompiled profile o
named-IsCompiled profile name l f compiled b want o h =
    let (a, found, same) = for_resource-some f _ o (when-some b _ o h).1 in
    rw (← same) (compiled a (find_named_sound name l want a found))

package-IsCompiled :
    (profile : Profile) (action name : Text) (o : Operation)
    → choose_package profile action name ≡ some o
    → IsCompiled profile o
package-IsCompiled profile action name o h =
    let (e, same) =
      when-some
        (contains profile.packages name
          && (eq_text action (codes "install-cached") || eq_text action (codes "upgrade-cached")))
        (some (on_package name (eq_text action (codes "upgrade-cached")))) o h in
    let same' : on_package name (eq_text action (codes "upgrade-cached")) ≡ o =
      ground (arith, same) in
    rw (← same') (ground (arith, e))

unit-IsCompiled :
    (profile : Profile) (action name : Text) (o : Operation)
    → choose_unit profile action name ≡ some o
    → IsCompiled profile o
unit-IsCompiled profile action name o h =
    let (e, same) =
      when-some (eq_text action (codes "enable") && contains profile.units name)
        (some (on_unit name)) o h in
    let same' : on_unit name ≡ o = ground (arith, same) in rw (← same') (ground (arith, e))

-- An operation that the switch of `Apply` chooses is on a package or a unit that the profile names,
-- or on a group, user, directory, file or sysctl of the profile, whatever the change says.
pub choose-IsCompiled :
    (profile : Profile) (c : Change) (o : Operation)
    → choose profile c ≡ some o
    → IsCompiled profile o
unfolding choose
choose-IsCompiled profile c o h =
    let from_unit : Option Operation =
      or_next (cut_prefix c.object (codes "unit:")) (choose_unit profile c.action) none in
    let from_sysctl : Option Operation =
      or_next (cut_prefix c.object (codes "sysctl:")) (choose_sysctl profile c.action) from_unit in
    let from_file : Option Operation =
      or_next (cut_prefix c.object (codes "file:")) (choose_file profile c.action) from_sysctl in
    let from_directory : Option Operation =
      or_next (cut_prefix c.object (codes "directory:")) (choose_directory profile c.action)
        from_file in
    let from_user : Option Operation =
      or_next (cut_prefix c.object (codes "user:")) (choose_user profile c.action) from_directory in
    let from_group : Option Operation =
      or_next (cut_prefix c.object (codes "group:")) (choose_group profile c.action) from_user in
    let from_package : Option Operation =
      or_next (cut_prefix c.object (codes "package:")) (choose_package profile c.action)
        from_group in
    or_next-cases (cut_prefix c.object (codes "package:")) (choose_package profile c.action)
      from_group o (λ n e. package-IsCompiled profile c.action n o e)
      (or_next-cases (cut_prefix c.object (codes "group:")) (choose_group profile c.action)
        from_user o
        (λ n e.
          named-IsCompiled profile (λ (s : GroupSpec). s.name) profile.groups on_group (λ a k. k)
            (eq_text c.action (codes "create")) n o e)
        (or_next-cases (cut_prefix c.object (codes "user:")) (choose_user profile c.action)
          from_directory o
          (λ n e.
            named-IsCompiled profile (λ (s : UserSpec). s.name) profile.users on_user (λ a k. k)
              (eq_text c.action (codes "create")) n o e)
          (or_next-cases (cut_prefix c.object (codes "directory:"))
            (choose_directory profile c.action) from_file o
            (λ n e.
              named-IsCompiled profile (λ (s : DirectorySpec). s.path) profile.directories
                on_directory (λ a k. k) (eq_text c.action (codes "ensure")) n o e)
            (or_next-cases (cut_prefix c.object (codes "file:")) (choose_file profile c.action)
              from_sysctl o
              (λ n e.
                named-IsCompiled profile (λ (s : ManagedFileSpec). s.path) profile.managed_files
                  on_file (λ a k. k) (eq_text c.action (codes "replace")) n o e)
              (or_next-cases (cut_prefix c.object (codes "sysctl:"))
                (choose_sysctl profile c.action) from_unit o
                (λ n e.
                  named-IsCompiled profile (λ (s : SysctlSpec). s.key) profile.sysctls on_sysctl
                    (λ a k. k) (eq_text c.action (codes "set")) n o e)
                (or_next-cases (cut_prefix c.object (codes "unit:")) (choose_unit profile c.action)
                  none o (λ n e. unit-IsCompiled profile c.action n o e)
                  (λ e. absurd (none≢some e))))))))
      h
