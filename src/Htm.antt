-- ===== src/Htm.antt =====
-- Pages as trees of fragments, and the rendering of fragments into HTML nodes: pkg/htm.
pub mod Elements
pub mod Forms
pub mod Htmx
pub mod Bootstrap
pub mod Classes
use mathlib.Core.List.{foldr}
use tinyrange_ad.Common.{List, [], ◌∷◌, ◌++◌, Bool, true, false, Option, none, some, if◌then◌else◌}
use tinyrange_ad.Common.Text.{Bytes, codes, eqb, join}

-- The kinds of `html.Node` that are made.
pub data NodeType : Type 0 where
  element_node text_node raw_node : NodeType

-- What is set of an `html.Node`: the type, the data, the attributes and the children.
mutual
  pub data Tree : Type 0 where
    node : NodeType → Bytes → List (Bytes × Bytes) → Trees → Tree

  pub data Trees : Type 0 where
    no_trees : Trees
    tree_then : Tree → Trees → Trees

-- `AppendChild`.
unfoldable pub append_child : Trees → Tree → Trees
append_child no_trees t = tree_then t no_trees
append_child (tree_then u us) t = tree_then u (append_child us t)

-- The fragments; `nil` is a nil interface, and `dynamic` holds what its handler returns, `none` for
-- an error.
mutual
  pub data Fragment : Type 0 where
    html_fragment : Bytes → Fragments → Fragment
    group : Fragments → Fragment
    text : Bytes → Fragment
    attr : Bytes → Bytes → Fragment
    dynamic_error : Fragment
    dynamic : Fragments → Fragment
    class : Bytes → Fragment
    unsafe_raw_html : Bytes → Fragment
    nil : Fragment

  pub data Fragments : Type 0 where
    no_fragments : Fragments
    fragment_then : Fragment → Fragments → Fragments

-- A list as the fragments of a call with variadic arguments.
abbrev pub fragments : List Fragment → Fragments
fragments [] = no_fragments
fragments (f ∷ fs) = fragment_then f (fragments fs)

-- How a call ends: a value, an error, or a nil dereference.
pub data Result (A : Type 0) : Type 0 where
  done : A → Result A
  error : Result A
  crash : Result A

abbrev pub and_then : {A B : Type 0} → Result A → (A → Result B) → Result B
and_then (done a) f = f a
and_then error f = error
and_then crash f = crash

pub record HtmlNode : Type 0 where
  pub type : NodeType
  pub data_text : Bytes
  pub attrs : List (Bytes × Bytes)
  pub children : Trees
  pub class_list : List Bytes

unfoldable pub new_html_node : Bytes → HtmlNode
new_html_node tag = record {
  type = element_node;
  data_text = tag;
  attrs = [];
  children = no_trees;
  class_list = [];
}

abbrev pub tree_of : HtmlNode → Tree
tree_of n = node n.type n.data_text n.attrs n.children

-- The `Node`s: an HTML node, or the top level with the node it has got.
pub data Node : Type 0 where
  html_node : HtmlNode → Node
  top_level : Option HtmlNode → Node

is_text : NodeType → Bool
is_text text_node = true
is_text element_node = false
is_text raw_node = false

-- The loop of `AddClass`: the first class attribute is replaced, and one is appended otherwise.
unfoldable pub set_class : Bytes → List (Bytes × Bytes) → List (Bytes × Bytes)
set_class value [] = (codes "class", value) ∷ []
set_class value ((k, v) ∷ attrs) =
    if eqb k (codes "class") then (k, value) ∷ attrs else (k, v) ∷ set_class value attrs

-- `AddClass` of an HTML node, and of the top level, whose error `Class.Render` drops.
unfoldable pub add_class : Node → Bytes → Node
unfolding set_class
add_class (html_node n) name = html_node (record n {
  class_list = n.class_list ++ name ∷ [];
  attrs = set_class (join (n.class_list ++ name ∷ []) (codes " ")) n.attrs;
})
add_class (top_level top) name = top_level top

unfoldable pub add_attribute : Node → Bytes → Bytes → Result Node
unfolding is_text
add_attribute (html_node n) key value =
    if is_text n.type
    then error
    else done (html_node (record n { attrs = n.attrs ++ (key, value) ∷ [] }))
add_attribute (top_level top) key value = error

unfoldable pub add_child : Node → HtmlNode → Result Node
unfolding append_child is_text
add_child (html_node n) child =
    if is_text n.type
    then error
    else done (html_node (record n { children = append_child n.children (tree_of child) }))
add_child (top_level none) child = done (top_level (some child))
add_child (top_level (some top)) child = error

unfoldable pub unsafe_add_raw_html : Node → Bytes → Result Node
unfolding append_child
unsafe_add_raw_html (html_node n) content = done (
    html_node (record n { children = append_child n.children (node raw_node content [] no_trees) }))
unsafe_add_raw_html (top_level top) content = error

text_html_node : Bytes → HtmlNode
text_html_node s = record {
  type = text_node;
  data_text = s;
  attrs = [];
  children = no_trees;
  class_list = [];
}

-- `parent.AddChild(newNode)` at the end of `htmlFragment.Render`.
close_tag : Node → Node → Result Node
unfolding add_child
close_tag parent (html_node n) = add_child parent n
close_tag parent (top_level top) = crash

is_nil : Fragment → Bool
is_nil nil = true
is_nil (html_fragment tag fs) = false
is_nil (group fs) = false
is_nil (text s) = false
is_nil (attr k v) = false
is_nil dynamic_error = false
is_nil (dynamic fs) = false
is_nil (class c) = false
is_nil (unsafe_raw_html b) = false

-- The `Render` methods; `render_all` is the loop that passes over nil children, and `render_each`
-- the one of `dynamic`, which does not.
unfoldable mutual
  unfolding new_html_node close_tag text_html_node add_child add_attribute add_class
      unsafe_add_raw_html is_nil

  pub render : Fragment → Node → Result Node
  render (html_fragment tag fs) parent =
      and_then (render_all fs (html_node (new_html_node tag))) (λ n. close_tag parent n)
  render (group fs) parent = render_all fs parent
  render (text s) parent = add_child parent (text_html_node s)
  render (attr key value) parent = add_attribute parent key value
  render dynamic_error parent = error
  render (dynamic fs) parent = render_each fs parent
  render (class name) parent = done (add_class parent name)
  render (unsafe_raw_html content) parent = unsafe_add_raw_html parent content
  render nil parent = crash

  pub render_all : Fragments → Node → Result Node
  render_all no_fragments parent = done parent
  render_all (fragment_then f fs) parent =
      and_then (if is_nil f then done parent else render f parent) (λ p. render_all fs p)

  pub render_each : Fragments → Node → Result Node
  render_each no_fragments parent = done parent
  render_each (fragment_then f fs) parent = and_then (render f parent) (λ p. render_each fs p)

-- The `Children` methods; a nil fragment has none to call.
unfoldable pub children_of : Fragment → Result Fragments
children_of (html_fragment tag fs) = done fs
children_of (group fs) = done fs
children_of (text s) = done no_fragments
children_of (attr key value) = done no_fragments
children_of dynamic_error = done no_fragments
children_of (dynamic fs) = done no_fragments
children_of (class name) = done no_fragments
children_of (unsafe_raw_html content) = done no_fragments
children_of nil = crash

-- `WalkTree`, by the fragments that have children; the others are leaves.
unfoldable mutual
  pub walk_tree : Fragment → Result Unit
  walk_tree (html_fragment tag fs) = walk_all fs
  walk_tree (group fs) = walk_all fs
  walk_tree nil = crash
  walk_tree _ = done tt

  walk_all : Fragments → Result Unit
  walk_all no_fragments = done tt
  walk_all (fragment_then f fs) = and_then (walk_tree f) (λ _. walk_all fs)

-- `RenderTree`: the node that has come to the top, if any.
unfoldable pub top_of : Node → Option HtmlNode
top_of (html_node n) = some n
top_of (top_level top) = top

unfoldable pub render_tree : Fragment → Result (Option HtmlNode)
unfolding render top_of
render_tree frag = and_then (render frag (top_level none)) (λ top. done (top_of top))

-- `WriteTree`; `write` is `html.Render` of the library, `none` for its errors.
unfoldable pub write_tree : (Tree → Option Bytes) → Option HtmlNode → Result Bytes
write_tree write none = crash
write_tree write (some n) = elim (write (tree_of n)) [ some out ↦ done out | none ↦ error ]

-- `Render`, with what it has written when all goes well: the members of a group one after another.
unfoldable mutual
  unfolding render_tree write_tree

  pub render_page : (Tree → Option Bytes) → Fragment → Result Bytes
  render_page write (group fs) = render_pages write fs
  render_page write frag = and_then (render_tree frag) (λ top. write_tree write top)

  render_pages : (Tree → Option Bytes) → Fragments → Result Bytes
  render_pages write no_fragments = done []
  render_pages write (fragment_then f fs) =
      and_then (render_page write f)
        (λ out. and_then (render_pages write fs) (λ rest. done (out ++ rest)))
