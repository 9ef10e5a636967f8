-- ===== src/StrictJson/Document.antt =====
-- JSON values, their tokens in the order of the text, and the first key that an object has twice.
use ohinfra_plugins.Base.{
  ℕ, suc, ◌+◌, ◌*◌, ◌≤◌, Text, eq_text, List, [], ◌∷◌, ◌++◌, any, length, Option, none, some,
  if◌then◌else◌, arith, length-append, ◌-◌,
}
use ohinfra_plugins.StrictJson.{
  Token, open_object, close_object, open_array, close_array, text, scalar,
}

mutual
  pub data Json : Type 0 where
    atom : ℕ → Json
    str : Text → Json
    arr : Elements → Json
    obj : Entries → Json

  pub data Elements : Type 0 where
    no_element : Elements
    element : Json → Elements → Elements

  pub data Entries : Type 0 where
    no_entry : Entries
    entry : Text → Json → Entries → Entries

abbrev pub first_token : Json → Token
first_token (atom n) = scalar n
first_token (str s) = text s
first_token (arr xs) = open_array
first_token (obj es) = open_object

-- The tokens behind the first one.
unfoldable mutual
  pub other_tokens : Json → List Token
  other_tokens (atom n) = []
  other_tokens (str s) = []
  other_tokens (arr xs) = element_tokens xs
  other_tokens (obj es) = entry_tokens es

  pub element_tokens : Elements → List Token
  element_tokens no_element = close_array ∷ []
  element_tokens (element x xs) = first_token x ∷ (other_tokens x ++ element_tokens xs)

  pub entry_tokens : Entries → List Token
  entry_tokens no_entry = close_object ∷ []
  entry_tokens (entry k x es) = text k ∷ first_token x ∷ (other_tokens x ++ entry_tokens es)

abbrev pub or_else : Option Text → Option Text → Option Text
or_else none o = o
or_else (some k) o = some k

-- The first key that its object has already, in document order.
unfoldable mutual
  pub duplicate : Json → Option Text
  duplicate (atom n) = none
  duplicate (str s) = none
  duplicate (arr xs) = duplicate_element xs
  duplicate (obj es) = duplicate_entry [] es

  pub duplicate_element : Elements → Option Text
  duplicate_element no_element = none
  duplicate_element (element x xs) = or_else (duplicate x) (duplicate_element xs)

  pub duplicate_entry : List Text → Entries → Option Text
  duplicate_entry seen no_entry = none
  duplicate_entry seen (entry k x es) =
      if any (eq_text k) seen then some k else or_else (duplicate x) (duplicate_entry (k ∷ seen) es)

-- How many calls the walk makes at most.
unfoldable mutual
  pub size : Json → ℕ
  size (atom n) = 1
  size (str s) = 1
  size (arr xs) = suc (size_elements xs)
  size (obj es) = suc (size_entries es)

  pub size_elements : Elements → ℕ
  size_elements no_element = 1
  size_elements (element x xs) = suc (size x + size_elements xs)

  pub size_entries : Entries → ℕ
  size_entries no_entry = 1
  size_entries (entry k x es) = suc (size x + size_entries es)

pub size-pos : (j : Json) → 1 ≤ size j
unfolding size
size-pos (arr xs) = omega arith
size-pos j = omega arith

pub size_elements-pos : (xs : Elements) → 1 ≤ size_elements xs
unfolding size_elements
size_elements-pos no_element = omega arith
size_elements-pos (element x xs) = omega arith

pub size_entries-pos : (es : Entries) → 1 ≤ size_entries es
unfolding size_entries
size_entries-pos no_entry = omega arith
size_entries-pos (entry k x es) = omega arith

mutual
  unfolding size other_tokens

  size-le : (j : Json) → suc (size j) ≤ 2 * suc (length (other_tokens j))
  size-le (atom n) = omega arith
  size-le (str s) = omega arith
  size-le (arr xs) = omega (arith, size_elements-le xs)
  size-le (obj es) = omega (arith, size_entries-le es)

  size_elements-le : (xs : Elements) → size_elements xs ≤ 2 * length (element_tokens xs) - 1
  size_elements-le no_element = omega arith
  size_elements-le (element x xs) = omega (
    arith,
    size-le x,
    size_elements-le xs,
    length-append (other_tokens x) (element_tokens xs),
    size_elements-pos xs,
  )

  size_entries-le : (es : Entries) → size_entries es ≤ 2 * length (entry_tokens es) - 1
  size_entries-le no_entry = omega arith
  size_entries-le (entry k x es) = omega (
    arith,
    size-le x,
    size_entries-le es,
    length-append (other_tokens x) (entry_tokens es),
    size_entries-pos es,
  )

pub size-le-tokens : (j : Json) → suc (size j) ≤ 2 * suc (length (other_tokens j))
size-le-tokens j = size-le j
