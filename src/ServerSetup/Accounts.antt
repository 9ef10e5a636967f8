-- ===== src/ServerSetup/Accounts.antt =====
-- internal/serversetup/check.go: the databases of groups and users.
pub mod Databases
use ohinfra_plugins.Base.{
  ℕ, Text, eq_text, Bool, true, false, List, [], ◌∷◌, ◌++◌, Option, none, some, Fallible, ok, err,
  Error, failure, if◌then◌else◌, ℤ, pos, negsuc, ◌>>=◌,
}
use ohinfra_plugins.Scan.{split_at_byte, scan_lines, atoi}

-- A Go map that is filled once, in the order of its keys' first use.
abbrev pub Named : Type 0 → Type 0
Named A = List (Text × A)

unfoldable pub find : {A : Type 0} → Text → Named A → Option A
find name [] = none
find name ((n, a) ∷ rest) = let below = find name rest in if eq_text n name then some a else below

-- `accountEntry`
pub record AccountEntry : Type 0 where
  pub id : ℕ
  pub primary_group : ℕ
  pub home : Text
  pub shell : Text

-- A line is parsed to its name and what is kept under it.
abbrev add_new : {A : Type 0} → Error → Named A → Text × A → Fallible (Named A)
add_new duplicate db (name, a) = elim (find name db) [
  | none ↦ ok (db ++ (name, a) ∷ [])
  | some b ↦ err duplicate
]

-- The loop over the scanner's lines, with the map so far.
unfoldable pub read_lines :
    {A : Type 0}
    → (Text → Fallible (Text × A))
    → Error
    → Named A
    → List (Fallible Text)
    → Fallible (Named A)
read_lines parse duplicate db [] = ok db
read_lines parse duplicate db (line ∷ rest) = do
  l ← line
  entry ← parse l
  db' ← add_new duplicate db entry
  read_lines parse duplicate db' rest

abbrev pub natural : Error → Option ℤ → Fallible ℕ
natural e (some (pos n)) = ok n
natural e _ = err e

abbrev invalid_group : Error
invalid_group = failure "invalid group database line"

abbrev group_fields : List Text → Fallible (Text × ℕ)
group_fields (name ∷ password ∷ id ∷ members ∷ []) = do
  n ← natural (failure "invalid group identifier") (atoi id)
  ok (name, n)
group_fields _ = err invalid_group

unfoldable pub parse_group : Text → Fallible (Text × ℕ)
parse_group line = group_fields (split_at_byte b':' line)

-- `parseGroups`
unfoldable pub parse_groups : Text → Fallible (Named ℕ)
parse_groups content =
    read_lines parse_group (failure "duplicate group name") [] (scan_lines content)

abbrev account_fields : List Text → Fallible (Text × AccountEntry)
account_fields (name ∷ password ∷ uid ∷ gid ∷ gecos ∷ home ∷ shell ∷ []) = do
  u ← natural (failure "invalid account identifier") (atoi uid)
  g ← natural (failure "invalid account identifier") (atoi gid)
  ok (name, record { id = u; primary_group = g; home = home; shell = shell })
account_fields _ = err (failure "invalid passwd database line")

unfoldable pub parse_account : Text → Fallible (Text × AccountEntry)
parse_account line = account_fields (split_at_byte b':' line)

-- `parsePasswd`
unfoldable pub parse_passwd : Text → Fallible (Named AccountEntry)
parse_passwd content =
    read_lines parse_account (failure "duplicate account name") [] (scan_lines content)

-- `accountDatabase`
pub record AccountDatabase : Type 0 where
  pub groups : Named ℕ
  pub users : Named AccountEntry
