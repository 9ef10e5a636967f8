-- ===== src/ServerSetup/Atomic/Temporary.antt =====
-- Temporary files: each is created at a free path and holds all of its content before it gets another
-- name.
use ohinfra_plugins.Base.{
  ◌≡◌, refl, ◌∙◌, sym, ap, ◌⊎◌, inl, inr, ℕ, Text, codes, eq_text, eq_text→eq, arith, pos, Bool,
  true, [], ◌∷◌, ◌++◌, Option, none, some, Fallible, ok, err, if◌then◌else◌, Bool-cases, ◌==◌,
}
use ohinfra_plugins.Paths.{starts_with}
use ohinfra_plugins.Disk.{
  regular, Entry, Entries, Disk, Io, continue, act, act-cases, lift, set_entry,
}
use ohinfra_plugins.Disk.Looking.{Looks, look-Looks, lift-Looks, weaken-Looks, continue-Looks}
use ohinfra_plugins.Disk.Changing.{
  Ends, act-Ends, continue-Ends, weaken-Ends, Looks-Ends, Apart, At, set_entry-At, change_entry-At,
}
use ohinfra_plugins.ServerSetup.Atomic.{
  System, created, named, set_owner, write_durably, or_remove, durable, create_durable_temp,
  find_identity, identity_of,
}
use ohinfra_plugins.ServerSetup.Profile.{max_account_bytes}
use mathlib.Core.Path.{subst}
use ohinfra_plugins.Probe.{read}
use ohinfra_plugins.Probe.Reading.{read-IsReading}
use ohinfra_plugins.ServerSetup.Accounts.{find, parse_groups, parse_passwd}

-- `filepath.Base`, of a path that does not end with a slash.
abbrev base_from : Text → Text → Text
base_from part [] = part
base_from part (c ∷ s) = if c == b'/' then base_from [] s else base_from (part ++ c ∷ []) s

abbrev pub is_temp : Text → Bool
is_temp path = starts_with (base_from [] path) (codes ".ohtools-")

-- What `os.CreateTemp` promises of a name: it is free, and starts as the pattern does.
abbrev pub IsFresh : System → Type 0
IsFresh system =
    (folder pattern path : Text) (entries : Entries)
    → starts_with pattern (codes ".ohtools-") ≡ true
    → system.temp_name folder pattern entries ≡ some path
    → (entries path ≡ none) × (is_temp path ≡ true)

-- `v` has what `w` has, but for temporary files where `w` has nothing.
abbrev pub Grows : Entries → Entries → Type 0
Grows v w = (p : Text) → (v p ≡ w p) ⊎ ((w p ≡ none) × (is_temp p ≡ true))

pub Grows-refl : (w : Entries) → Grows w w
Grows-refl w p = inl refl

pub Grows-trans : (u v w : Entries) → Grows u v → Grows v w → Grows u w
Grows-trans u v w f g p = elim (f p) [
  | inl same ↦ elim (g p) [ inl e ↦ inl (same ∙ e) | inr t ↦ inr t ]
  | inr (free, temp) ↦ elim (g p) [ inl e ↦ inr (sym e ∙ free, temp) | inr t ↦ inr t ]
]

abbrev pub file : Text → ℕ → ℕ × ℕ → Entry
file content mode (uid, gid) = record {
  kind = regular;
  content = content;
  mode = mode;
  uid = uid;
  gid = gid;
}

abbrev pub IsOwner : (ℕ × ℕ → Type 0) → Io (ℕ × ℕ) → Type 0
IsOwner P owner = (d : Disk) → Looks d.entries P (owner d)

module _ (path : Text) (w : Entries) where
  act-At :
      (R : Unit {0} → Entries → Type 0) (e e' : Entry) (f : Entries → Entries) (k : Io (Unit {0}))
      (d : Disk)
      → ((v : Entries) → At path (some e) w v → At path (some e') w (f v))
      → At path (some e) w d.entries
      → ((d' : Disk) → At path (some e') w d'.entries → Ends (λ v. Apart path v w) R (k d'))
      → Ends (λ v. Apart path v w) R (continue (λ _. k) (act f d))
  act-At R e e' f k d step at next =
      continue-Ends (λ v. Apart path v w) (λ _. At path (some e') w) R (λ _. k) (act f d)
        (act-Ends (λ v. Apart path v w) (λ _. At path (some e') w) f d at.1 (step d.entries at))
        (λ _ d' at'. next d' at')

  abbrev Written : (ℕ × ℕ → Type 0) → Text → ℕ → Unit {0} → Entries → Type 0
  Written P content mode _ v = (ids : ℕ × ℕ) × P ids × At path (some (file content mode ids)) w v

  set_owner-Ends :
      (P : ℕ × ℕ → Type 0) (content : Text) (mode : ℕ) (ids : ℕ × ℕ) (owner : Io (ℕ × ℕ)) (d : Disk)
      → IsOwner P owner
      → At path (some (file content mode ids)) w d.entries
      → Ends (λ v. Apart path v w) (Written P content mode) (set_owner owner path d)
  set_owner-Ends P content mode ids owner d owns at =
      continue-Ends (λ v. Apart path v w)
        (λ ids' v. P ids' × At path (some (file content mode ids)) w v) (Written P content mode) _
        (owner d)
        (Looks-Ends d.entries P (λ v. Apart path v w) _ (owner d) (owns d) at.1 (λ a p. (p, at)))
        (λ ids' d' (p, at').
          act-Ends (λ v. Apart path v w) (Written P content mode) _ d' at'.1
            (
              ids',
              p,
              change_entry-At path (λ e. record e { uid = ids'.0; gid = ids'.1 })
                  (file content mode ids) w d'.entries at',
            ))

  write_durably-Ends :
      (system : System) (P : ℕ × ℕ → Type 0) (content : Text) (mode : ℕ) (owner : Io (ℕ × ℕ))
      (d : Disk)
      → IsOwner P owner
      → At path (some (created system)) w d.entries
      → Ends
          (λ v. Apart path v w)
          (Written P content mode)
          (write_durably path content mode owner d)
  unfolding write_durably
  write_durably-Ends system P content mode owner d owns at0 =
      let R : Unit {0} → Entries → Type 0 = Written P content mode in
      let ids : ℕ × ℕ = (system.uid, system.gid) in
      let a : Entry = created system in
      let b : Entry = file content a.mode ids in
      let c : Entry = file content mode ids in
      act-At R a a _ _ d (λ v at. at) at0
        (λ d1 at1.
          act-At R a b _ _ d1 (change_entry-At path (λ e. record e { content = content }) a w) at1
            (λ d2 at2.
              act-At R b b _ _ d2 (λ v at. at) at2
                (λ d3 at3.
                  act-At R b b _ _ d3 (λ v at. at) at3
                    (λ d4 at4.
                      act-At R b b _ _ d4 (λ v at. at) at4
                        (λ d5 at5.
                          act-At R b c _ _ d5
                            (change_entry-At path (λ e. record e { mode = mode }) b w) at5
                            (λ d6 at6.
                              act-At R c c _ _ d6 (λ v at. at) at6
                                (λ d7 at7.
                                  continue-Ends (λ v. Apart path v w) R R _ _
                                    (set_owner-Ends P content mode ids owner d7 owns at7)
                                    (λ _ d8 r.
                                      continue-Ends (λ v. Apart path v w) R R _ _
                                        (act-Ends (λ v. Apart path v w) R (λ v. v) d8 r.2.1 r)
                                        (λ _ d9 r'.
                                          act-Ends (λ v. Apart path v w) R (λ v. v) d9 r'.2.1
                                            r')))))))))

pub Apart-Grows :
    (path : Text) (v w : Entries) → w path ≡ none → is_temp path ≡ true → Apart path v w → Grows v w
Apart-Grows path v w free temp apart p = elim (Bool-cases (eq_text p path)) [
  | inl e ↦ let same : p ≡ path = eq_text→eq p path e in inr (rw same free, rw same temp)
  | inr e ↦ inl (apart p e)
]

pub or_remove-Ends :
    {A : Type 0} (path : Text) (a : A) (w : Entries) (Q : A → Entries → Type 0)
    (r : Fallible (Unit {0}) × Disk)
    → w path ≡ none
    → is_temp path ≡ true
    → Ends (λ v. Apart path v w) (λ _. Q a) r
    → Ends (λ v. Grows v w) Q (or_remove path a r)
or_remove-Ends path a w Q (ok tt, d) free temp q = q
or_remove-Ends path a w Q (err e, d) free temp apart =
    act-cases (λ r. Grows r.1.entries w) (set_entry path none) d
      (λ rest. Apart-Grows path d.entries w free temp apart)
      (λ rest.
        Apart-Grows path (set_entry path none d.entries) w free temp
          (set_entry-At path none none w d.entries apart).1)

-- A complete file at a path that was free.
abbrev pub IsDurable : Entries → (ℕ × ℕ → Type 0) → Text → ℕ → Text → Entries → Type 0
IsDurable w P content mode path v =
    (w path ≡ none)
    × (is_temp path ≡ true)
    × ((ids : ℕ × ℕ) × P ids × At path (some (file content mode ids)) w v)

named-some : (x : Option Text) (path : Text) → named x ≡ ok path → x ≡ some path
named-some none path h = ground arith
named-some (some p) path h = ground arith

pub create_durable_temp-Ends :
    (system : System) (fresh : IsFresh system) (P : ℕ × ℕ → Type 0) (folder pattern content : Text)
    (mode : ℕ) (owner : Io (ℕ × ℕ)) (d : Disk)
    → starts_with pattern (codes ".ohtools-") ≡ true
    → IsOwner P owner
    → Ends
        (λ v. Grows v d.entries)
        (IsDurable d.entries P content mode)
        (create_durable_temp system folder pattern content mode owner d)
unfolding create_durable_temp
create_durable_temp-Ends system fresh P folder pattern content mode owner d marked owns =
    let w : Entries = d.entries in
    let E : Entries → Type 0 = λ v. Grows v w in
    let R : Text → Entries → Type 0 = IsDurable w P content mode in
    let Free : Text → Type 0 = λ path. (w path ≡ none) × (is_temp path ≡ true) in
    let name : Entries → Fallible Text =
      λ entries. named (system.temp_name folder pattern entries) in
    continue-Ends E (λ _ v. v ≡ w) R _ _ (act-Ends E (λ _ v. v ≡ w) (λ v. v) d (Grows-refl w) refl)
      (λ _ d1 same1.
        continue-Ends E (λ path v. Free path × At path (some (created system)) w v) R
          (λ path. durable path content mode owner) _
          (continue-Ends E (λ path v. (v ≡ w) × Free path)
            (λ path v. Free path × At path (some (created system)) w v) _ _
            (Looks-Ends w Free E (λ path v. (v ≡ w) × Free path) _
              (look-Looks w Free name d1 same1
                (λ path h. fresh folder pattern path w marked (named-some _ path h)))
              (Grows-refl w) (λ path f. (refl, f)))
            (λ path d2 (same2, free).
              continue-Ends E (λ _. At path (some (created system)) w)
                (λ path v. Free path × At path (some (created system)) w v) (λ _. lift (ok path)) _
                (act-Ends E (λ _. At path (some (created system)) w)
                  (set_entry path (some (created system))) d2 (rw same2 (Grows-refl w))
                  (set_entry-At path none (some (created system)) w d2.entries
                    (λ q e. ap (λ v. v q) same2)))
                (λ _ d3 at. (free, at))))
          (λ path d4 (free, at). or_remove-Ends path path w R _ free.0 free.1 (
            weaken-Ends (λ v. Apart path v w) (λ v. Apart path v w) (Written path w P content mode)
              (λ _ v. R path v) _ (write_durably-Ends path w system P content mode owner d4 owns at)
              (λ v a. a) (λ _ v written. (free.0, free.1, written)))))

pub find_identity-Looks :
    (root owner group : Text) → IsOwner (λ _. Unit) (find_identity root owner group)
unfolding find_identity
find_identity-Looks root owner group d =
    let w : Entries = d.entries in
    let reads : (name : Text) (d' : Disk)
        → d'.entries ≡ w
        → Looks w (λ _. Unit) (read root name (pos max_account_bytes) d') =
      (λ name d' same.
        subst (λ v. Looks v (λ _. Unit) (read root name (pos max_account_bytes) d')) same
          (weaken-Looks _ _ (λ _. Unit) _
            (read-IsReading root name (pos max_account_bytes) d' (omega arith)) (λ _ _. tt))) in
    continue-Looks w (λ _. Unit) (λ _. Unit) _ _ (reads (codes "etc/group") d refl)
      (λ groups d1 same1 _.
        continue-Looks w (λ _. Unit) (λ _. Unit) _ _ (reads (codes "etc/passwd") d1 same1)
          (λ users d2 same2 _.
            continue-Looks w _ (λ _. Unit) _ _ (lift-Looks w (parse_groups groups) d2 same2)
              (λ gs d3 same3 _.
                continue-Looks w _ (λ _. Unit) _ _ (lift-Looks w (parse_passwd users) d3 same3)
                  (λ us d4 same4 _.
                    weaken-Looks w _ (λ _. Unit) _
                      (lift-Looks w (identity_of (find owner us) (find group gs)) d4 same4)
                      (λ _ _. tt)))))
