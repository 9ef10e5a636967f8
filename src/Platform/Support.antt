-- ===== src/Platform/Support.antt =====
-- The platforms that are supported are those with a compiled profile.
use ohinfra_plugins.Base.{
  ◌≡◌, refl, Text, codes, eq_text, eq_text→eq, Bool, true, false, ◌||◌, List, [], ◌∷◌, In, inl, inr,
  ◌⊎◌, Option, if◌then◌else◌, Fallible, ok, err, Error, message, failure, arith, Bool-cases,
  >>=-eq-ok,
}
use ohinfra_plugins.ServerSetup.Profile.{
  Info, Profile, platforms, build_profile, profile_id, profile_by_id, profile_for, default_config,
  validate_config, resolve_profile,
}
use ohinfra_plugins.Platform.{
  debian_version, ubuntu_version, supported, parse_release, value_of, present, detect_release,
}

abbrev info_of : Text × Text → Info
info_of (id, version) = record { id = id; version_id = version; supported = supported id version }

In-supported : (t : Text × Text) → In t platforms → supported t.0 t.1 ≡ true
In-supported t h = elim h [
  | inl e ↦ rw (← e) refl
  | inr h ↦ elim h [
    | inl e ↦ rw (← e) refl
    | inr h ↦ elim h [
      | inl e ↦ rw (← e) refl
      | inr h ↦ elim h [
        | inl e ↦ rw (← e) refl
        | inr h ↦ elim h [
          | inl e ↦ rw (← e) refl
          | inr h ↦ elim h [
            | inl e ↦ rw (← e) refl
            | inr h ↦ elim h [ inl e ↦ rw (← e) refl | inr h ↦ absurd h ]
          ]
        ]
      ]
    ]
  ]
]

no_truth : false ≡ true → ⊥
no_truth h = ground arith

or-cases : (b c : Bool) → (b || c) ≡ true → (b ≡ true) ⊎ (c ≡ true)
or-cases true c h = inl refl
or-cases false c h = inr h

same_pair :
    (a b id version : Text)
    → eq_text id a ≡ true
    → eq_text version b ≡ true
    → ◌≡◌ {A = Text × Text} (a, b) (id, version)
same_pair a b id version h k = cc (eq_text→eq id a h, eq_text→eq version b k)

supported-debian :
    (id version : Text)
    → eq_text id (codes "debian") ≡ true
    → supported id version ≡ true
    → In (id, version) platforms
supported-debian id version d h0 =
    let h : debian_version version ≡ true = rw d at h0 in
    elim (or-cases _ _ h) [
      | inl e ↦ inl (same_pair _ _ id version d e)
      | inr h ↦ elim (or-cases _ _ h) [
        | inl e ↦ inr (inl (same_pair _ _ id version d e))
        | inr h ↦ elim (or-cases _ _ h) [
          | inl e ↦ inr (inr (inl (same_pair _ _ id version d e)))
          | inr e ↦ inr (inr (inr (inl (same_pair _ _ id version d e))))
        ]
      ]
    ]

supported-ubuntu :
    (id version : Text)
    → eq_text id (codes "debian") ≡ false
    → eq_text id (codes "ubuntu") ≡ true
    → supported id version ≡ true
    → In (id, version) platforms
supported-ubuntu id version d u h0 =
    let h : ubuntu_version version ≡ true = rw u at (rw d at h0) in
    elim (or-cases _ _ h) [
      | inl e ↦ inr (inr (inr (inr (inl (same_pair _ _ id version u e)))))
      | inr h ↦ elim (or-cases _ _ h) [
        | inl e ↦ inr (inr (inr (inr (inr (inl (same_pair _ _ id version u e))))))
        | inr e ↦ inr (inr (inr (inr (inr (inr (inl (same_pair _ _ id version u e)))))))
      ]
    ]

supported-In : (id version : Text) → supported id version ≡ true → In (id, version) platforms
supported-In id version h = elim (Bool-cases (eq_text id (codes "debian"))) [
  | inl d ↦ supported-debian id version d h
  | inr d ↦ elim (Bool-cases (eq_text id (codes "ubuntu"))) [
    | inl u ↦ supported-ubuntu id version d u h
    | inr u ↦ absurd (no_truth (rw u at (rw d at h)))
  ]
]

module _ (digest : Text → Text) where
  In-profile_by_id :
      (t : Text × Text)
      → In t platforms
      → profile_by_id digest (profile_id t.0 t.1) ≡ ok (build_profile digest t)
  unfolding profile_by_id
  In-profile_by_id t h = elim h [
    | inl e ↦ rw (← e) refl
    | inr h ↦ elim h [
      | inl e ↦ rw (← e) refl
      | inr h ↦ elim h [
        | inl e ↦ rw (← e) refl
        | inr h ↦ elim h [
          | inl e ↦ rw (← e) refl
          | inr h ↦ elim h [
            | inl e ↦ rw (← e) refl
            | inr h ↦ elim h [
              | inl e ↦ rw (← e) refl
              | inr h ↦ elim h [ inl e ↦ rw (← e) refl | inr h ↦ absurd h ]
            ]
          ]
        ]
      ]
    ]
  ]

  -- The profile of a platform, or the error that it has none.
  abbrev pub profile_of : Info → Fallible Profile
  profile_of info =
      if info.supported
      then ok (build_profile digest (info.id, info.version_id))
      else err (
          message
            "unsupported platform %s %s; use an exact Debian 10-13 or Ubuntu 20.04/22.04/24.04 profile"
            (info.id ∷ info.version_id ∷ []))

  by_support :
      (t : Text × Text) (b : Bool)
      → supported t.0 t.1 ≡ b
      → profile_for digest (info_of t) ≡ profile_of (info_of t)
  unfolding profile_for
  by_support t true h = rw h (In-profile_by_id t (supported-In t.0 t.1 h))
  by_support t false h = rw h refl

  -- The automatic choice of the profile, for any platform that os-release names: the compiled
  -- profile of this platform if it is supported, and an error if it is not.
  pub detect_release-resolve_profile :
      (lines : List Text) (stop : Option Error) (info : Info)
      → detect_release lines stop ≡ ok info
      → resolve_profile digest default_config info ≡ profile_of info
  unfolding resolve_profile validate_config detect_release
  detect_release-resolve_profile lines stop info h =
      let (values, _, h1) = >>=-eq-ok (parse_release [] lines stop) _ h in
      let (id, _, h2) =
        >>=-eq-ok (present (value_of values (codes "ID")) (failure "os-release is missing ID")) _
          h1 in
      let (version, _, h3) =
        >>=-eq-ok
          (present (value_of values (codes "VERSION_ID"))
            (failure "os-release is missing VERSION_ID"))
          _ h2 in
      let same : info_of (id, version) ≡ info = ground arith in
      rw (← same) (by_support (id, version) (supported id version) refl)
