-- ===== src/Runbook/Tree.antt =====
-- internal/runbook/validate.go: the check of the tree that the YAML library reads, of which a node has
-- the fields that the check looks at.
use ohinfra_plugins.Base.{
  Text, codes, eq_text, Bool, true, false, not, ◌&&◌, any, List, [], ◌∷◌, ◌≡◌, refl, Checked, Error,
  ◌↔◌, ok, err, failure, require, require-eq-ok, ◌>>◌, >>-eq-ok,
}

pub data YamlKind : Type 0 where
  document_node sequence_node mapping_node scalar_node alias_node : YamlKind

mutual
  pub data Node : Type 0 where
    nil_node : Node
    node : YamlKind → Text → Text → Nodes → Node

  pub data Nodes : Type 0 where
    end_nodes : Nodes
    child : Node → Nodes → Nodes

abbrev is_alias : YamlKind → Bool
is_alias alias_node = true
is_alias _ = false

-- The tags that are no custom ones.
abbrev pub allowed_tags : List Text
allowed_tags = [] ∷ codes "!!map" ∷ codes "!!seq" ∷ codes "!!str" ∷ codes "!!int" ∷ []

unfoldable mutual
  pub validate_yaml_tree : Node → Checked
  validate_yaml_tree nil_node = err (failure "missing YAML document")
  validate_yaml_tree (node kind anchor tag content) =
      require (not (is_alias kind) && eq_text anchor [])
        (failure "YAML aliases and anchors are not allowed")
      >> (require (any (eq_text tag) allowed_tags) (failure "custom YAML tags are not allowed")
          >> validate_yaml_content content)

  pub validate_yaml_content : Nodes → Checked
  validate_yaml_content end_nodes = ok tt
  validate_yaml_content (child first rest) = validate_yaml_tree first >> validate_yaml_content rest

-- A node stands in a tree, as its root or below it.
mutual
  pub data Occurs (target : Node) : Node → Type 0 where
    root : Occurs target target
    below :
        {kind : YamlKind} {anchor tag : Text} {content : Nodes}
        → OccursIn target content
        → Occurs target (node kind anchor tag content)

  pub data OccursIn (target : Node) : Nodes → Type 0 where
    here : {first : Node} {rest : Nodes} → Occurs target first → OccursIn target (child first rest)
    there :
        {first : Node} {rest : Nodes} → OccursIn target rest → OccursIn target (child first rest)

-- A node that is there, is no alias, has no anchor, and one of the tags.
pub IsPlain : Node → Type 0
IsPlain nil_node = ⊥
IsPlain (node kind anchor tag content) =
    ((not (is_alias kind) && eq_text anchor []) ≡ true) × (any (eq_text tag) allowed_tags ≡ true)

accepted-IsPlain : (tree : Node) → validate_yaml_tree tree ≡ ok tt → IsPlain tree
unfolding validate_yaml_tree IsPlain
accepted-IsPlain nil_node h = cc
accepted-IsPlain (node kind anchor tag content) h =
    let (simple, tagged) = >>-eq-ok _ _ h in
    (require-eq-ok _ _ simple, require-eq-ok _ _ (>>-eq-ok _ _ tagged).0)

mutual
  unfolding validate_yaml_tree

  all-IsPlain :
      (tree target : Node) → validate_yaml_tree tree ≡ ok tt → Occurs target tree → IsPlain target
  all-IsPlain tree target h root = accepted-IsPlain tree h
  all-IsPlain (node kind anchor tag content) target h (below o) =
      content-IsPlain content target (>>-eq-ok _ _ (>>-eq-ok _ _ h).1).1 o

  content-IsPlain :
      (content : Nodes) (target : Node)
      → validate_yaml_content content ≡ ok tt
      → OccursIn target content
      → IsPlain target
  content-IsPlain end_nodes target h o = elim o [ ]
  content-IsPlain (child first rest) target h (here o) =
      all-IsPlain first target (>>-eq-ok _ _ h).0 o
  content-IsPlain (child first rest) target h (there o) =
      content-IsPlain rest target (>>-eq-ok _ _ h).1 o

require-step :
    (b : Bool) (e : Error) (rest : Checked)
    → b ≡ true
    → rest ≡ ok tt
    → (require b e >> rest) ≡ ok tt
require-step true e rest h later = later
require-step false e rest h later = cc

next-step : (first rest : Checked) → first ≡ ok tt → rest ≡ ok tt → (first >> rest) ≡ ok tt
next-step (ok u) rest h later = later
next-step (err e) rest h later = cc

mutual
  unfolding validate_yaml_tree IsPlain

  plain-accepted :
      (tree : Node)
      → ((target : Node) → Occurs target tree → IsPlain target)
      → validate_yaml_tree tree ≡ ok tt
  plain-accepted nil_node plain = elim (plain nil_node root) [ ]
  plain-accepted (node kind anchor tag content) plain =
      let (simple, tagged) = plain (node kind anchor tag content) root in
      require-step _ _ _ simple
        (require-step _ _ _ tagged (plain-content content (λ target o. plain target (below o))))

  plain-content :
      (content : Nodes)
      → ((target : Node) → OccursIn target content → IsPlain target)
      → validate_yaml_content content ≡ ok tt
  plain-content end_nodes plain = refl
  plain-content (child first rest) plain =
      next-step _ _ (plain-accepted first (λ target o. plain target (here o)))
        (plain-content rest (λ target o. plain target (there o)))

-- A tree is accepted exactly if every node in it, at any depth, is there, is no alias, has no anchor,
-- and has one of the five allowed tags.
pub validate_yaml_tree_iff :
    (tree : Node)
    → (validate_yaml_tree tree ≡ ok tt) ↔ ((target : Node) → Occurs target tree → IsPlain target)
validate_yaml_tree_iff tree = (λ h target o. all-IsPlain tree target h o, plain-accepted tree)
