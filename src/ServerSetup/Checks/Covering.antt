-- ===== src/ServerSetup/Checks/Covering.antt =====
-- The loops of a run, and the names of the checks that they collect.
use ohinfra_plugins.Base.{
  ◌≡◌, refl, ◌∙◌, ap, ℕ, ◌+◌, Text, codes, Bool, List, [], ◌∷◌, ◌++◌, map, Option, none, some,
  Fallible, ok, err, Error, ℤ,
}
use ohinfra_plugins.Protocol.Types.{Check}
use ohinfra_plugins.Disk.{Disk, Io, continue}
use ohinfra_plugins.Scan.{scan_lines}
use ohinfra_plugins.Probe.Commands.{Spec, Output}
use ohinfra_plugins.ServerSetup.Profile.{GroupSpec, UserSpec}
use ohinfra_plugins.ServerSetup.Accounts.{Named, AccountEntry}
use ohinfra_plugins.ServerSetup.Checks.{fatal_context_failure}
use ohinfra_plugins.ServerSetup.Checks.Resources.{
  Finding, check_package, package_query, run_command, installed_from, package_findings, after_query,
  check_packages, run_command, check_group, check_user, AccountFindings,
}
use ohinfra_plugins.ServerSetup.Checks.Files.{group_findings, user_findings, check_accounts}
use ohinfra_plugins.ServerSetup.Checks.Run.{
  Findings, unless_done, with_finding, with_findings, check_each, check_each_unit, then_more,
  of_accounts,
}
use ohinfra_plugins.ResultBuilder.Build.Order.{ids}
use ohinfra_plugins.ServerSetup.Checks.Subject.{IsOn, if_check-id, skipped_checks-ids, map-ids}

-- What the checks that have been collected are on.
abbrev pub Covers : List Text → Fallible Findings × Disk → Type 0
Covers names (ok (checks, failures), d) = ids checks ≡ names
Covers names (err e, d) = Unit

ids-append : (a b : List Check) → ids (a ++ b) ≡ ids a ++ ids b
ids-append [] b = refl
ids-append (c ∷ a) b = ap (λ l. c.id ∷ l) (ids-append a b)

pub unless_done-Covers :
    (names : List Text) (e : Option Error) (next : Io Findings) (d : Disk)
    → Covers names (next d)
    → Covers names (unless_done e next d)
unless_done-Covers names none next d h = h
unless_done-Covers names (some e) next d h = tt

with_finding-Covers :
    (name : Text) (names : List Text) (f : Finding) (r : Fallible Findings × Disk)
    → f.0.id ≡ name
    → Covers names r
    → Covers (name ∷ names) (with_finding f r)
with_finding-Covers name names f (ok rest, d) same h = cc (same, h)
with_finding-Covers name names f (err e, d) same h = tt

pub with_findings-Covers :
    (first : List Text) (names : List Text) (f : Findings) (r : Fallible Findings × Disk)
    → ids f.0 ≡ first
    → Covers names r
    → Covers (first ++ names) (with_findings f r)
with_findings-Covers first names f (ok rest, d) same h = ids-append f.0 rest.0 ∙ rw (same, h) refl
with_findings-Covers first names f (err e, d) same h = tt

pub then_more-Covers :
    (first names : List Text) (a b : Io Findings) (d : Disk)
    → ((d : Disk) → Covers first (a d))
    → ((d : Disk) → Covers names (b d))
    → Covers (first ++ names) (then_more a b d)
then_more-Covers first names a b d h k = by_first (a d) (h d)
  where
    by_first :
        (r : Fallible Findings × Disk)
        → Covers first r
        → Covers (first ++ names) (continue (λ f d1. with_findings f (b d1)) r)
    by_first (ok f, d1) same = with_findings-Covers first names f (b d1) same (k d1)
    by_first (err e, d1) same = tt

module _ (answers : ℕ → Option Error) where
  pub check_each-Covers :
      {A : Type 0} (name : A → Text) (check : A → Disk → Finding × Disk) (n : ℕ) (l : List A)
      (d : Disk)
      → ((a : A) (d : Disk) → IsOn (name a) (check a d))
      → Covers (map name l) (check_each answers check n l d)
  unfolding check_each
  check_each-Covers name check n [] d h = refl
  check_each-Covers name check n (a ∷ l) d h = unless_done-Covers _ (answers n) _ d (
      with_finding-Covers (name a) (map name l) (check a d).0 _ (h a d)
        (check_each-Covers name check (n + 1) l (check a d).1 h))

  pub check_each_unit-Covers :
      (check : Option Error → Text → Disk → Finding × Disk) (n : ℕ) (l : List Text) (d : Disk)
      → ((e : Option Error) (u : Text) (d : Disk) → IsOn (codes "unit:" ++ u) (check e u d))
      → Covers (map (λ u. codes "unit:" ++ u) l) (check_each_unit answers check n l d)
  unfolding check_each_unit
  check_each_unit-Covers check n [] d h = refl
  check_each_unit-Covers check n (u ∷ l) d h = unless_done-Covers _ (answers n) _ d (
      unless_done-Covers _ (fatal_context_failure (answers (n + 2)) _) _ _ (
        with_finding-Covers (codes "unit:" ++ u) _ (check (answers (n + 1)) u d).0 _
          (h (answers (n + 1)) u d)
          (check_each_unit-Covers check (n + 3) l (check (answers (n + 1)) u d).1 h)))

module _ (error_text : Error → Text) (run_program : Spec → Io Output) (packages : List Text) where
  query-ids :
      (r : Fallible Output × Disk)
      → ids (after_query error_text run_program packages r).0.0
        ≡ map (λ p. codes "package:" ++ p) packages
  query-ids (err e, d) = skipped_checks-ids _ packages _
  query-ids (ok output, d) = by_lines (installed_from [] (scan_lines output.stdout))
    where
      by_lines :
          (r : Fallible (Named Bool))
          → ids (package_findings error_text run_program packages r).0
            ≡ map (λ p. codes "package:" ++ p) packages
      by_lines (ok db) = map-ids (check_package db) _ packages (λ p. if_check-id _ _ _ _ refl refl)
      by_lines (err e) = skipped_checks-ids _ packages _

  pub packages-ids :
      (e : Option Error) (d : Disk)
      → ids (check_packages error_text run_program e packages d).0.0
        ≡ map (λ p. codes "package:" ++ p) packages
  unfolding check_packages
  packages-ids e d = query-ids (run_command error_text run_program e (package_query packages) d)

abbrev pub group_name : GroupSpec → Text
group_name g = codes "group:" ++ g.name

abbrev pub user_name : UserSpec → Text
user_name u = codes "user:" ++ u.name

map-map :
    {A : Type 0} (f : A → Text) (g : Text → Text) (l : List A)
    → map g (map f l) ≡ map (λ a. g (f a)) l
map-map f g [] = refl
map-map f g (a ∷ l) = ap (λ t. g (f a) ∷ t) (map-map f g l)

module _ (error_text : Error → Text) (root : Text) (groups : List GroupSpec)
    (users : List UserSpec) where
  groups-ids :
      (r : Fallible (Named ℕ))
      → ids (group_findings error_text root groups r).0 ≡ map group_name groups
  groups-ids (ok db) =
      map-ids (check_group db) group_name groups (λ g. if_check-id _ _ _ _ refl refl)
  groups-ids (err e) =
      skipped_checks-ids (codes "group:") _ _
      ∙ map-map (λ (g : GroupSpec). g.name) (λ n. codes "group:" ++ n) groups

  users-ids :
      (db : Named ℕ) (r : Fallible (Named AccountEntry))
      → ids (user_findings error_text root users db r).0 ≡ map user_name users
  users-ids db (ok accounts) =
      map-ids (check_user db accounts) user_name users (λ u. if_check-id _ _ _ _ refl refl)
  users-ids db (err e) =
      skipped_checks-ids (codes "user:") _ _
      ∙ map-map (λ (u : UserSpec). u.name) (λ n. codes "user:" ++ n) users

  pub accounts-ids :
      (limit : ℤ) (d : Disk)
      → ids (of_accounts (check_accounts error_text root groups users limit d).0).0
        ≡ map group_name groups ++ map user_name users
  unfolding check_accounts
  accounts-ids limit d =
      let found : AccountFindings = (check_accounts error_text root groups users limit d).0 in
      ids-append found.group_checks found.user_checks ∙ rw (groups-ids, users-ids) refl
