-- ===== src/RunbookTests.antt =====
-- Accepted and refused runbooks, and the theorems on runbooks used on one and on a tree.
use ohinfra_plugins.Redact.{word}
use ohinfra_plugins.Regex.{ends, flat_map, take_many}
use ohinfra_plugins.Base.{
  fields, join, valid_utf8, ◌≡◌, ◌↔◌, refl, codes, [], ◌∷◌, ok, err, message, pos,
}
use ohinfra_plugins.Runbook.{
  found_in, in_scheme, name_rest, runbook_name, validate_steps, Document, render_document,
  validate_document, validate_text, url_reference, normalize_text,
}
use ohinfra_plugins.Runbook.Tree.{
  Node, node, end_nodes, child, mapping_node, scalar_node, Occurs, IsPlain, validate_yaml_tree,
  validate_yaml_tree_iff,
}
use ohinfra_plugins.Runbook.Presentable.{IsPresentable, render_document-IsPresentable}

abbrev document : Document
document = record {
  schema_version = pos 1;
  name = codes "restart-web";
  title = codes "Restart  web";
  description = codes "Drain, then restart.";
  steps = record { title = codes "Drain"; description = codes "Stop the traffic." } ∷ [];
}

render_document-IsPresentable_example : IsPresentable (render_document document)
unfolding validate_document runbook_name name_rest validate_text valid_utf8 normalize_text join
    fields url_reference in_scheme found_in ends flat_map word validate_steps
render_document-IsPresentable_example = render_document-IsPresentable document refl

normalize_text_run : normalize_text (codes " Restart\n web ") ≡ codes "Restart web"
unfolding normalize_text join fields
normalize_text_run = refl

refuses_url :
    validate_text (codes "title") (codes "see https://a") 128
    ≡ err (message "%s contains a URL" (codes "title" ∷ []))
unfolding validate_text valid_utf8 normalize_text join fields url_reference in_scheme
refuses_url = refl

refuses_www :
    validate_text (codes "title") (codes "see WWW.a") 128
    ≡ err (message "%s contains a URL" (codes "title" ∷ []))
unfolding validate_text valid_utf8 normalize_text join fields url_reference in_scheme
refuses_www = refl

refuses_credential :
    validate_text (codes "title") (codes "set API_Key = x") 128
    ≡ err (message "%s contains an inline credential" (codes "title" ∷ []))
unfolding validate_text valid_utf8 normalize_text join fields url_reference in_scheme found_in ends
    flat_map word take_many
refuses_credential = refl

accepts_note : validate_text (codes "title") (codes "a:/b, tokens: x") 128 ≡ ok tt
unfolding validate_text valid_utf8 normalize_text join fields url_reference in_scheme found_in ends
    flat_map word take_many
accepts_note = refl

abbrev tree : Node
tree = node mapping_node [] (codes "!!map") (
    child (node scalar_node [] (codes "!!str") end_nodes)
      (child (node scalar_node [] (codes "!!int") end_nodes) end_nodes))

validate_yaml_tree_iff_example :
    (validate_yaml_tree tree ≡ ok tt) ↔ ((target : Node) → Occurs target tree → IsPlain target)
validate_yaml_tree_iff_example = validate_yaml_tree_iff tree

accepts_tree : validate_yaml_tree tree ≡ ok tt
unfolding validate_yaml_tree
accepts_tree = refl
