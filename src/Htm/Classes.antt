-- ===== src/Htm/Classes.antt =====
-- The class attribute of a rendered element.
use tinyrange_ad.Common.{
  List, [], ◌∷◌, ◌++◌, true, Option, none, some, if◌then◌else◌, ◌≡◌, ◌≢◌, ◌⊎◌, refl, sym, ◌∙◌, ap,
  arith, Bool-cases, inl, inr, append-nil, append_assoc,
}
use tinyrange_ad.Common.Dict.{lookup, bytes_eq}
use tinyrange_ad.Common.Text.{Bytes, codes, eqb, join}
use tinyrange_ad.Htm.{
  Fragment, html_fragment, group, text, attr, dynamic_error, dynamic, class, unsafe_raw_html, nil,
  Fragments, no_fragments, fragment_then, Result, done, error, crash, and_then, HtmlNode,
  new_html_node, Node, html_node, top_level, set_class, add_class, add_attribute, add_child,
  unsafe_add_raw_html, close_tag, text_html_node, is_nil, is_text, render, render_all, render_each,
  render_tree, top_of,
}

and_then-eq-done :
    {A B : Type 0} (m : Result A) (f : A → Result B) {b : B}
    → and_then m f ≡ done b
    → (a : A) × (m ≡ done a) × (f a ≡ done b)
and_then-eq-done (done a) f h = (a, refl, h)
and_then-eq-done error f h = cc
and_then-eq-done crash f h = cc

done_injective : {A : Type 0} {a b : A} → done a ≡ done b → a ≡ b
done_injective h = cc

abbrev class_of : List (Bytes × Bytes) → Option Bytes
class_of attrs = lookup (codes "class") attrs

set_class-lookup :
    (value : Bytes) (attrs : List (Bytes × Bytes)) → class_of (set_class value attrs) ≡ some value
unfolding lookup set_class eqb
set_class-lookup value [] = refl
set_class-lookup value ((k, v) ∷ attrs) = ground (arith, set_class-lookup value attrs)

append-lookup :
    (attrs : List (Bytes × Bytes)) (e : Bytes × Bytes) (value : Bytes)
    → class_of attrs ≡ some value
    → class_of (attrs ++ e ∷ []) ≡ some value
unfolding lookup
append-lookup [] e value h = cc
append-lookup ((k, v) ∷ attrs) e value h = ground (arith, append-lookup attrs e value, h)

-- The class attribute that is found first holds the classes, one after another.
InStep : HtmlNode → Type 0
InStep n = (n.class_list ≡ []) ⊎ (class_of n.attrs ≡ some (join n.class_list (codes " ")))

-- The classes that a fragment gives the element around it, in the order of the document.
unfoldable mutual
  pub classes : Fragment → List Bytes
  classes (html_fragment tag fs) = []
  classes (group fs) = classes_all fs
  classes (text s) = []
  classes (attr key value) = []
  classes dynamic_error = []
  classes (dynamic fs) = classes_all fs
  classes (class name) = name ∷ []
  classes (unsafe_raw_html content) = []
  classes nil = []

  pub classes_all : Fragments → List Bytes
  classes_all no_fragments = []
  classes_all (fragment_then f fs) = classes f ++ classes_all fs

-- What a rendering makes of the node around it.
record Grown (n : HtmlNode) (added : List Bytes) (p : Node) : Type 0 where
  grown : HtmlNode
  is_node : p ≡ html_node grown
  class_list_grows : grown.class_list ≡ n.class_list ++ added
  in_step : InStep n → InStep grown

same_classes :
    (n m : HtmlNode) (p : Node)
    → html_node m ≡ p
    → m.class_list ≡ n.class_list
    → (InStep n → InStep m)
    → Grown n [] p
same_classes n m p e l s = record {
  grown = m;
  is_node = sym e;
  class_list_grows = l ∙ sym (append-nil n.class_list);
  in_step = s;
}

Grown-add_child :
    (n child : HtmlNode) (p : Node) → add_child (html_node n) child ≡ done p → Grown n [] p
unfolding add_child InStep
Grown-add_child n child p h = elim (Bool-cases (is_text n.type)) [
  | inl e ↦ absurd (ground (arith, rw e at h))
  | inr e ↦ same_classes n _ p (done_injective (rw e at h)) refl (λ s. s)
]

Grown-add_attribute :
    (n : HtmlNode) (key value : Bytes) (p : Node)
    → add_attribute (html_node n) key value ≡ done p
    → Grown n [] p
unfolding add_attribute InStep
Grown-add_attribute n key value p h = elim (Bool-cases (is_text n.type)) [
  | inl e ↦ absurd (ground (arith, rw e at h))
  | inr e ↦ same_classes n _ p (done_injective (rw e at h)) refl (λ s. elim s [
    | inl none_yet ↦ inl none_yet
    | inr found ↦ inr (append-lookup n.attrs (key, value) _ found)
  ])
]

Grown-raw :
    (n : HtmlNode) (content : Bytes) (p : Node)
    → unsafe_add_raw_html (html_node n) content ≡ done p
    → Grown n [] p
unfolding unsafe_add_raw_html InStep
Grown-raw n content p h = same_classes n _ p (done_injective h) refl (λ s. s)

Grown-add_class :
    (n : HtmlNode) (name : Bytes) (p : Node)
    → done (add_class (html_node n) name) ≡ done p
    → Grown n (name ∷ []) p
unfolding add_class InStep
Grown-add_class n name p h = record {
  grown = _;
  is_node = sym (done_injective h);
  class_list_grows = refl;
  in_step = λ s. inr (set_class-lookup _ n.attrs);
}

Grown-trans :
    (n : HtmlNode) (xs ys : List Bytes) (p q : Node)
    → (g : Grown n xs p) → Grown g.grown ys q
    → Grown n (xs ++ ys) q
Grown-trans n xs ys p q g k = record {
  grown = k.grown;
  is_node = k.is_node;
  class_list_grows =
      k.class_list_grows ∙ ap (λ l. l ++ ys) g.class_list_grows ∙ append_assoc n.class_list xs ys;
  in_step = λ s. k.in_step (g.in_step s);
}

Grown-close_tag :
    (n : HtmlNode) (child p : Node) → close_tag (html_node n) child ≡ done p → Grown n [] p
unfolding close_tag
Grown-close_tag n (html_node m) p h = Grown-add_child n m p h
Grown-close_tag n (top_level top) p h = cc

nil_classes : (f : Fragment) → is_nil f ≡ true → classes f ≡ []
unfolding is_nil classes
nil_classes nil h = refl
nil_classes (html_fragment tag fs) h = cc
nil_classes (group fs) h = cc
nil_classes (text s) h = cc
nil_classes (attr key value) h = cc
nil_classes dynamic_error h = cc
nil_classes (dynamic fs) h = cc
nil_classes (class name) h = cc
nil_classes (unsafe_raw_html content) h = cc

render_member :
    (f : Fragment) (n : HtmlNode) (q : Node)
    → (render f (html_node n) ≡ done q → Grown n (classes f) q)
    → (if is_nil f then done (html_node n) else render f (html_node n)) ≡ done q
    → Grown n (classes f) q
render_member f n q grow h = elim (Bool-cases (is_nil f)) [
  | inl e ↦ rw (nil_classes f e) (same_classes n n q (done_injective (rw e at h)) refl (λ s. s))
  | inr e ↦ grow (rw e at h)
]

mutual
  unfolding render classes

  render-Grown :
      (f : Fragment) (n : HtmlNode) (p : Node)
      → render f (html_node n) ≡ done p
      → Grown n (classes f) p
  render-Grown (html_fragment tag fs) n p h =
      let (m, _, h1) = and_then-eq-done (render_all fs (html_node (new_html_node tag))) _ h in
      Grown-close_tag n m p h1
  render-Grown (group fs) n p h = render_all-Grown fs n p h
  render-Grown (text s) n p h = Grown-add_child n (text_html_node s) p h
  render-Grown (attr key value) n p h = Grown-add_attribute n key value p h
  render-Grown dynamic_error n p h = cc
  render-Grown (dynamic fs) n p h = render_each-Grown fs n p h
  render-Grown (class name) n p h = Grown-add_class n name p h
  render-Grown (unsafe_raw_html content) n p h = Grown-raw n content p h
  render-Grown nil n p h = cc

  render_all-Grown :
      (fs : Fragments) (n : HtmlNode) (p : Node)
      → render_all fs (html_node n) ≡ done p
      → Grown n (classes_all fs) p
  render_all-Grown no_fragments n p h = same_classes n n p (done_injective h) refl (λ s. s)
  render_all-Grown (fragment_then f fs) n p h =
      let (q, e, h1) =
        and_then-eq-done (if is_nil f then done (html_node n) else render f (html_node n)) _ h in
      let g = render_member f n q (λ r. render-Grown f n q r) e in
      Grown-trans n _ _ q p g (render_all-Grown fs g.grown p (rw (g.is_node) at h1))

  render_each-Grown :
      (fs : Fragments) (n : HtmlNode) (p : Node)
      → render_each fs (html_node n) ≡ done p
      → Grown n (classes_all fs) p
  render_each-Grown no_fragments n p h = same_classes n n p (done_injective h) refl (λ s. s)
  render_each-Grown (fragment_then f fs) n p h =
      let (q, e, h1) = and_then-eq-done (render f (html_node n)) _ h in
      let g = render-Grown f n q e in
      Grown-trans n _ _ q p g (render_each-Grown fs g.grown p (rw (g.is_node) at h1))

closed :
    (n grown : HtmlNode) (top : Node)
    → close_tag (top_level none) (html_node grown) ≡ done top
    → done (top_of top) ≡ done (some n)
    → grown ≡ n
unfolding close_tag add_child top_of
closed n grown top h e =
    let at_top : top_level (some grown) ≡ top = done_injective h in cc (rw (← at_top) at e)

in_step_classes :
    (tag : Bytes) (added : List Bytes) (p : Node) (g : Grown (new_html_node tag) added p)
    → added ≢ []
    → class_of g.grown.attrs ≡ some (join added (codes " "))
unfolding InStep new_html_node
in_step_classes tag added p g some_class = elim (g.in_step (inl refl)) [
  | inl none_yet ↦ absurd (some_class (sym g.class_list_grows ∙ none_yet))
  | inr found ↦ found ∙ ap (λ l. some (join l (codes " "))) g.class_list_grows
]

-- If a tag renders to a node and its children name any class, then the node's class attribute is
-- these classes in the order of the document, joined by single spaces.
pub render_tree-classes :
    (tag : Bytes) (fs : Fragments) (n : HtmlNode)
    → render_tree (html_fragment tag fs) ≡ done (some n)
    → classes_all fs ≢ []
    → lookup (codes "class") n.attrs ≡ some (join (classes_all fs) (codes " "))
unfolding render_tree
render_tree-classes tag fs n h some_class =
    let (top, e, h1) = and_then-eq-done (render (html_fragment tag fs) (top_level none)) _ h in
    let (m, e1, e2) = and_then-eq-done (render_all fs (html_node (new_html_node tag))) _ e in
    let g = render_all-Grown fs (new_html_node tag) m e1 in
    rw (← closed n g.grown top (rw g.is_node at e2) h1)
      (in_step_classes tag (classes_all fs) m g some_class)
