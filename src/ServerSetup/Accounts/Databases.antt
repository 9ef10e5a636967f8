-- ===== src/ServerSetup/Accounts/Databases.antt =====
-- What the databases hold once they are read.
use ohinfra_plugins.Base.{
  ◌≡◌, refl, ap, ◌∙◌, sym, Text, List, [], ◌∷◌, ◌++◌, Option, none, some, Fallible, ok, err, Error,
  arith, ℕ, >>=-eq-ok, ◌↔◌,
}
use ohinfra_plugins.Scan.{scan_lines}
use ohinfra_plugins.ServerSetup.Accounts.{
  Named, find, read_lines, add_new, parse_account, parse_passwd, parse_group, parse_groups,
  AccountEntry,
}

module _ {A : Type 0} (parse : Text → Fallible (Text × A)) where
  -- The lines, all of them read, and the entries that they parse to.
  abbrev pub ParsesTo : List (Fallible Text) → Named A → Type 0
  ParsesTo [] [] = Unit
  ParsesTo (ok line ∷ rest) (entry ∷ db) = (parse line ≡ ok entry) × ParsesTo rest db
  ParsesTo _ _ = ⊥

-- Each name is not among the ones before it, nor in the database `db` before them all.
abbrev pub AreNew : {A : Type 0} → Named A → Named A → Type 0
AreNew db [] = Unit
AreNew db ((n, a) ∷ rest) = (find n db ≡ none) × AreNew (db ++ (n, a) ∷ []) rest

add_new-eq-ok :
    {A : Type 0} (duplicate : Error) (db out : Named A) (n : Text) (a : A)
    → add_new duplicate db (n, a) ≡ ok out
    → (find n db ≡ none) × (out ≡ db ++ (n, a) ∷ [])
add_new-eq-ok {A = A} duplicate db out n a h = by_find (find n db) refl h
  where
    by_find :
        (x : Option A)
        → find n db ≡ x
        → elim x [ none ↦ ok (db ++ (n, a) ∷ []) | some b ↦ err duplicate ] ≡ ok out
        → (find n db ≡ none) × (out ≡ db ++ (n, a) ∷ [])
    by_find none e h = (e, ground (arith, h))
    by_find (some b) e h = ground arith

append-assoc-one : {A : Type 0} (a : A) (xs ys : List A) → (xs ++ a ∷ []) ++ ys ≡ xs ++ a ∷ ys
append-assoc-one a [] ys = refl
append-assoc-one a (x ∷ xs) ys = ap (λ t. x ∷ t) (append-assoc-one a xs ys)

append-nil : {A : Type 0} (xs : List A) → xs ++ [] ≡ xs
append-nil [] = refl
append-nil (x ∷ xs) = ap (λ t. x ∷ t) (append-nil xs)

module _ {A : Type 0} (parse : Text → Fallible (Text × A)) (duplicate : Error) where
  read_lines_sound :
      (db out : Named A) (lines : List (Fallible Text))
      → read_lines parse duplicate db lines ≡ ok out
      → (rest : Named A) × (out ≡ db ++ rest) × ParsesTo parse lines rest × AreNew db rest
  unfolding read_lines
  read_lines_sound db out [] h = ([], ground (arith, h, append-nil db), tt, tt)
  read_lines_sound db out (err e ∷ lines) h = ground arith
  read_lines_sound db out (ok l ∷ lines) h =
      let ((n, a), parsed, h1) = >>=-eq-ok (parse l) _ h in
      let (db', added, h2) = >>=-eq-ok (add_new duplicate db (n, a)) _ h1 in
      let (new, same) = add_new-eq-ok duplicate db db' n a added in
      let (rest, all, parses, fresh) =
        read_lines_sound (db ++ (n, a) ∷ []) out lines (rw (← same) h2) in
      ((n, a) ∷ rest, all ∙ append-assoc-one (n, a) db rest, (parsed, parses), (new, fresh))

  read_lines_complete :
      (db rest : Named A) (lines : List (Fallible Text))
      → ParsesTo parse lines rest
      → AreNew db rest
      → read_lines parse duplicate db lines ≡ ok (db ++ rest)
  unfolding read_lines
  read_lines_complete db [] [] p n = ap ok (sym (append-nil db))
  read_lines_complete db (x ∷ rest) [] p n = absurd p
  read_lines_complete db [] (err e ∷ lines) p n = absurd p
  read_lines_complete db (x ∷ rest) (err e ∷ lines) p n = absurd p
  read_lines_complete db [] (ok l ∷ lines) p n = absurd p
  read_lines_complete db ((name, a) ∷ rest) (ok l ∷ lines) (parsed, p) (new, n) = rw parsed (
      rw (add_new, new)
        (read_lines_complete (db ++ (name, a) ∷ []) rest lines p n
          ∙ ap ok (append-assoc-one (name, a) db rest)))

  read_lines_iff :
      (db : Named A) (lines : List (Fallible Text))
      → (read_lines parse duplicate [] lines ≡ ok db) ↔ (ParsesTo parse lines db × AreNew [] db)
  read_lines_iff db lines = (
    (λ h. let (rest, all, p, n) = read_lines_sound [] db lines h in (rw all p, rw all n)),
    (λ h. read_lines_complete [] db lines h.0 h.1),
  )

-- A group file is accepted with the database `db` exactly when each of its lines is read and parses
-- to the entry of `db` at its place, and no name is used twice.
pub parse_groups_iff :
    (content : Text) (db : Named ℕ)
    → (parse_groups content ≡ ok db) ↔ (ParsesTo parse_group (scan_lines content) db × AreNew [] db)
unfolding parse_groups
parse_groups_iff content db = read_lines_iff parse_group _ db (scan_lines content)

-- The same of a passwd file and its accounts.
pub parse_passwd_iff :
    (content : Text) (db : Named AccountEntry)
    → (parse_passwd content ≡ ok db)
      ↔ (ParsesTo parse_account (scan_lines content) db × AreNew [] db)
unfolding parse_passwd
parse_passwd_iff content db = read_lines_iff parse_account _ db (scan_lines content)
