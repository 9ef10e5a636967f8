-- ===== src/ServerSetup/Commands/Upgrades.antt =====
-- The upgrades that a simulation finds.
use ohinfra_plugins.Base.{
  ◌≡◌, refl, ap, Text, Bool, Bool-cases, true, false, List, [], ◌∷◌, any, keep, In, ◌↔◌, inl, inr,
  arith, if◌then◌else◌, ok, err, Fallible, all, sym, ◌∙◌, pos, ◌^◌, codes, eq_int, failure,
}
use ohinfra_plugins.Scan.{split_at_byte}
use ohinfra_plugins.Probe.Commands.{Output}
use ohinfra_plugins.ServerSetup.Commands.{
  Machine, given, and_then_run, succeeded, simulation, run_within, upgrades_to, found_upgrades,
  cached_upgrades, compiled_name,
}

In-any : {A : Type 0} (p : A → Bool) (l : List A) → any p l ≡ true → (a : A) × In a l × (p a ≡ true)
In-any p [] h = ground arith
In-any p (x ∷ l) h = elim (Bool-cases (p x)) [
  | inl e ↦ (x, inl refl, e)
  | inr e ↦ let (a, i, k) = In-any p l (ground (arith, h, e)) in (a, inr i, k)
]

any-In : {A : Type 0} (p : A → Bool) (l : List A) (a : A) → In a l → p a ≡ true → any p l ≡ true
any-In p [] a i h = absurd i
any-In p (x ∷ l) a (inl e) h = rw (ap p e ∙ h) refl
any-In p (x ∷ l) a (inr i) h = ground (arith, any-In p l a i h)

keep-step :
    {A : Type 0} (p : A → Bool) (x a : A) (l rest : List A) (b : Bool)
    → p x ≡ b
    → (In a rest → In a l × (p a ≡ true))
    → In a (if b then x ∷ rest else rest)
    → In a (x ∷ l) × (p a ≡ true)
keep-step p x a l rest true e f (inl same) = (inl same, ap p (sym same) ∙ e)
keep-step p x a l rest true e f (inr i) = let (k, h) = f i in (inr k, h)
keep-step p x a l rest false e f i = let (k, h) = f i in (inr k, h)

keep-In : {A : Type 0} (p : A → Bool) (l : List A) (a : A) → In a (keep p l) → In a l × (p a ≡ true)
keep-In p [] a i = absurd i
keep-In p (x ∷ l) a i = keep-step p x a l (keep p l) (p x) refl (keep-In p l a) i

In-step :
    {A : Type 0} (x a : A) (rest : List A) (b : Bool)
    → In a rest
    → In a (if b then x ∷ rest else rest)
In-step x a rest true i = inr i
In-step x a rest false i = i

In-keep : {A : Type 0} (p : A → Bool) (l : List A) (a : A) → In a l → p a ≡ true → In a (keep p l)
In-keep p [] a i h = absurd i
In-keep p (x ∷ l) a (inl same) h = rw (ap p same ∙ h) (inl same)
In-keep p (x ∷ l) a (inr i) h = In-step x a (keep p l) (p x) (In-keep p l a i h)

abbrev pub IsUpgrade : List Text → List Text → Text → Type 0
IsUpgrade packages lines name =
    In name packages × ((line : Text) × In line lines × (upgrades_to name line ≡ true))

found_upgrades_iff :
    (packages lines : List Text) (name : Text)
    → In name (found_upgrades packages lines) ↔ IsUpgrade packages lines name
unfolding found_upgrades
found_upgrades_iff packages lines name = (
  λ i.
      let (k, h) = keep-In (λ n. any (upgrades_to n) lines) packages name i in
      (k, In-any (upgrades_to name) lines h),
  λ (k, (line, i, h)).
      In-keep (λ n. any (upgrades_to n) lines) packages name k
        (any-In (upgrades_to name) lines line i h),
)

module _ {World : Type 0} (machine : Machine World) where
  -- The upgrades are those of the simulation's output.
  abbrev pub AreSimulated : List Text → World → List Text → Type 0
  AreSimulated packages w found =
      (output : Output) × (after : World) × (run_within machine (pos (2 ^ 20)) (codes "apt-get")
          (simulation packages) w
        ≡ (ok output, after))
      × (eq_int output.exit_code (pos 0) ≡ true)
      × ((name : Text) → In name found ↔ IsUpgrade packages (split_at_byte 10 output.stdout) name)

  -- If a list of upgrades is returned, apt-get has simulated the upgrade of the given packages, which all have the
  -- name of a package, and has ended with 0; the list has exactly the given packages for which a line of its output starts with Inst and this name.
  pub cached_upgrades-AreSimulated :
      (packages found : List Text) (w after : World)
      → cached_upgrades machine packages w ≡ (ok found, after)
      → (all compiled_name packages ≡ true) × AreSimulated packages w found
  unfolding cached_upgrades
  cached_upgrades-AreSimulated packages found w after h =
      by_names (all compiled_name packages) refl h
    where
      ok-inj : {a b : List Text} → ok a ≡ ok b → a ≡ b
      ok-inj h = ground arith

      by_exit :
          (output : Output) (w' : World) (b : Bool)
          → run_within machine (pos (2 ^ 20)) (codes "apt-get") (simulation packages) w
            ≡ (ok output, w')
          → eq_int output.exit_code (pos 0) ≡ b
          → and_then_run
              (λ (o : Output) (v : World).
                (ok (found_upgrades packages (split_at_byte 10 o.stdout)), v))
              (if b
                then (ok output, w')
                else (err (failure "apt-get cached-upgrade probe failed with exit code %d"), w'))
            ≡ (ok found, after)
          → AreSimulated packages w found
      by_exit output w' true ran zero h = (
        output,
        w',
        ran,
        zero,
        (λ name.
            rw (← ok-inj (ap (λ r. r.0) h))
              (found_upgrades_iff packages (split_at_byte 10 output.stdout) name)),
      )
      by_exit output w' false ran zero h = ground arith

      by_run :
          (r : Fallible Output × World)
          → run_within machine (pos (2 ^ 20)) (codes "apt-get") (simulation packages) w ≡ r
          → and_then_run
              (λ (o : Output) (v : World).
                (ok (found_upgrades packages (split_at_byte 10 o.stdout)), v))
              (succeeded machine r)
            ≡ (ok found, after)
          → AreSimulated packages w found
      by_run (err e, w') ran h = ground arith
      by_run (ok output, w') ran h = by_exit output w' (eq_int output.exit_code (pos 0)) ran refl h

      by_names :
          (b : Bool)
          → all compiled_name packages ≡ b
          → and_then_run
              (λ (known : List Text) (v : World).
                and_then_run
                  (λ (o : Output) (u : World).
                    (ok (found_upgrades known (split_at_byte 10 o.stdout)), u))
                  (succeeded machine
                    (run_within machine (pos (2 ^ 20)) (codes "apt-get") (simulation known) v)))
              (given b (failure "invalid compiled package name") packages, w)
            ≡ (ok found, after)
          → (all compiled_name packages ≡ true) × AreSimulated packages w found
      by_names true e h = (e, by_run _ refl h)
      by_names false e h = ground arith
