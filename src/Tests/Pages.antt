-- ===== src/Tests/Pages.antt =====
-- Rendering on concrete inputs.
use tinyrange_ad.Common.{[], ◌∷◌, some, ◌≡◌, refl}
use tinyrange_ad.Common.Dict.{lookup, bytes_eq}
use tinyrange_ad.Common.Text.{codes, join, eqb}
use tinyrange_ad.Htm.{
  Fragments, fragments, class, text, HtmlNode, render_tree, element_node, tree_then, no_trees, node,
  text_node,
}
use tinyrange_ad.Htm.Classes.{classes_all, render_tree-classes}

abbrev badges : Fragments
badges = fragments (class (codes "btn") ∷ text (codes "Go") ∷ class (codes "btn-sm") ∷ [])

abbrev badge_node : HtmlNode
badge_node = record {
  type = element_node;
  data_text = codes "div";
  attrs = (codes "class", codes "btn btn-sm") ∷ [];
  children = tree_then (node text_node (codes "Go") [] no_trees) no_trees;
  class_list = codes "btn" ∷ codes "btn-sm" ∷ [];
}

render_tree-classes_example :
    lookup (codes "class") badge_node.attrs ≡ some (join (classes_all badges) (codes " "))
unfolding render_tree classes_all eqb join
render_tree-classes_example = render_tree-classes (codes "div") badges badge_node refl (λ e. cc)
