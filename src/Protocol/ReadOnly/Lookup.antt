-- ===== src/Protocol/ReadOnly/Lookup.antt =====
-- `find_command` on the commands of a valid manifest is a lookup by path.
use ohinfra_plugins.Base.{
  Text, ◌≡◌, ◌≢◌, refl, true, List, [], ◌∷◌, map, some, All, arith, eq_text→eq, eq_text_refl, ◌∙◌,
  Bool-cases, inl, inr, ok, Any,
}
use ohinfra_plugins.Protocol.Types.{Command, Manifest}
use ohinfra_plugins.Protocol.Validate.{validate_manifest}
use ohinfra_plugins.Protocol.Validate.Spec.{Distinct}
use ohinfra_plugins.Protocol.Validate.Exact.{validate_manifest_iff}
use ohinfra_plugins.Protocol.ReadOnly.{same_path, find_command}

pub same_path→eq : (a b : List Text) → same_path a b ≡ true → a ≡ b
same_path→eq [] [] h = refl
same_path→eq [] (y ∷ b) h = cc
same_path→eq (x ∷ a) [] h = cc
same_path→eq (x ∷ a) (y ∷ b) h = ground (arith, eq_text→eq x y, same_path→eq a b)

pub same_path_refl : (a : List Text) → same_path a a ≡ true
same_path_refl [] = refl
same_path_refl (x ∷ a) = ground (arith, eq_text_refl x, same_path_refl a)

-- What is found is one of the commands, and has the path that was asked for.
pub find_command_sound :
    (l : List Command) (path : List Text) (c : Command)
    → find_command l path ≡ some c
    → Any (λ d. d ≡ c) l × (c.path ≡ path)
unfolding find_command
find_command_sound [] path c h = cc
find_command_sound (d ∷ l) path c h = elim (Bool-cases (same_path d.path path)) [
  | inl e ↦ (inl (ground arith), ground (arith, same_path→eq d.path path))
  | inr e ↦ let ih = find_command_sound l path c (ground arith) in (inr ih.0, ih.1)
]

pub find_command_other :
    (c d : Command) (l : List Command)
    → d.path ≢ c.path
    → find_command (c ∷ l) d.path ≡ find_command l d.path
unfolding find_command
find_command_other c d l h = ground (arith, same_path→eq c.path d.path)

abbrev Finds : List Command → Command → Type 0
Finds l c = find_command l c.path ≡ some c

Finds-more :
    (c : Command) (k l : List Command)
    → All (λ p. p ≢ c.path) (map (λ (d : Command). d.path) l)
    → All (Finds k) l
    → All (Finds (c ∷ k)) l
Finds-more c k [] h f = tt
Finds-more c k (d ∷ l) h f = (find_command_other c d k h.0 ∙ f.0, Finds-more c k l h.1 f.1)

find_command_complete :
    (l : List Command) → Distinct (map (λ (d : Command). d.path) l) → All (Finds l) l
unfolding find_command
find_command_complete [] h = tt
find_command_complete (c ∷ l) h =
    (ground (arith, same_path_refl c.path), Finds-more c l l h.0 (find_command_complete l h.1))

-- In a manifest that passes the validation, every command is found under its own path.
pub find_command-validated :
    (m : Manifest)
    → validate_manifest m ≡ ok tt
    → All (λ c. find_command m.commands c.path ≡ some c) m.commands
find_command-validated m h =
    find_command_complete m.commands ((validate_manifest_iff m).0 h).distinct_paths
