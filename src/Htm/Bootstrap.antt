-- ===== src/Htm/Bootstrap.antt =====
-- The components of pkg/htm/bootstrap/bootstrap.go. The texts of the embedded files and the random
-- id of a field are arguments; a colour is its class.
use tinyrange_ad.Common.{List, [], ◌∷◌, ◌++◌, Bool, if◌then◌else◌, map}
use tinyrange_ad.Common.Text.{Bytes, codes, eqb}
use tinyrange_ad.Common.Decimal.{itoa}
use tinyrange_ad.Common.Outcome.{Outcome, ok, ◌>>=◌}
use tinyrange_ad.Htm.{Fragment, group, text, attr, class, nil, fragments}
use tinyrange_ad.Htm.Elements.{element, div, h5, a, link, id_attr}
use tinyrange_ad.Htm.Forms
use tinyrange_ad.Htm.Forms.{
  FormFieldKind, field_text, field_number, field_checkbox, field_multiline_text, field_select,
  field_hidden, FormOptions, Value, as_int, as_bool, as_string, label,
}

abbrev pub container : Fragment
container = class (codes "container")

abbrev pub row : Fragment
row = class (codes "row")

abbrev pub card : List Fragment → Fragment
card children = div (class (codes "card") ∷ div (class (codes "card-body") ∷ children) ∷ [])

abbrev pub card_title : Bytes → Fragment
card_title s = h5 (class (codes "card-title") ∷ text s ∷ [])

abbrev pub button_class : Bytes → Fragment
button_class color = group (fragments (class (codes "btn") ∷ class color ∷ []))

abbrev pub button : Bytes → List Fragment → Fragment
button color children = Forms.button (class (codes "btn") ∷ class color ∷ children)

abbrev pub button_a : Bytes → List Fragment → Fragment
button_a color children = a (class (codes "btn") ∷ class color ∷ children)

abbrev pub link_button : Bytes → Bytes → List Fragment → Fragment
link_button target color children = link target (class (codes "btn") ∷ class color ∷ children)

required_attr : Bool → Fragment
required_attr required = if required then attr (codes "required") [] else nil

option_element : Bytes → Bytes → Fragment
option_element chosen opt =
    if eqb chosen opt
    then element (codes "option")
        (attr (codes "value") opt ∷ attr (codes "selected") [] ∷ text opt ∷ [])
    else element (codes "option") (attr (codes "value") opt ∷ text opt ∷ [])

-- The last lines of `FormField`.
labelled : Bytes → Bytes → FormOptions → Fragment → Fragment
labelled id caption opts input =
    if opts.label_same_line
    then div (
        row
        ∷ class (codes "mb-3")
        ∷ label id caption (class (codes "form-label") ∷ class (codes "col-md-2") ∷ [])
        ∷ div (class (codes "col-md-10") ∷ input ∷ [])
        ∷ [])
    else div (
        row
        ∷ class (codes "mb-3")
        ∷ label id caption (class (codes "form-label") ∷ [])
        ∷ input
        ∷ [])

-- The options of a select field; the value is asserted to be a string in each round.
select_options : Value → List Bytes → Outcome (List Fragment)
unfolding as_string option_element
select_options value [] = ok []
select_options value (opt ∷ opts) = do
  chosen ← as_string value
  rest ← select_options value opts
  ok (option_element chosen opt ∷ rest)

-- The `switch` of `FormField`, with what each branch returns.
field : Bytes → Bytes → Bytes → FormOptions → List Fragment → FormFieldKind → Outcome Fragment
unfolding as_int as_bool as_string required_attr select_options labelled
field id caption name opts children field_number = do
  n ← as_int opts.value
  ok (
      labelled id caption opts (
        element (codes "input") (
          attr (codes "type") (codes "number")
          ∷ attr (codes "name") name
          ∷ class (codes "form-control")
          ∷ id_attr id
          ∷ attr (codes "value") (itoa n)
          ∷ attr (codes "placeholder") opts.placeholder
          ∷ required_attr opts.required
          ∷ group (fragments children)
          ∷ [])))
field id caption name opts children field_checkbox = do
  checked ← as_bool opts.value
  ok (
      div (
        class (codes "form-check")
        ∷ element (codes "input") (
            attr (codes "type") (codes "checkbox")
            ∷ attr (codes "name") name
            ∷ (if checked then attr (codes "checked") [] else nil)
            ∷ id_attr id
            ∷ class (codes "form-check-input")
            ∷ group (fragments children)
            ∷ [])
        ∷ label id caption (class (codes "form-check-label") ∷ [])
        ∷ []))
field id caption name opts children field_multiline_text = do
  s ← as_string opts.value
  ok (
      labelled id caption opts (
        element (codes "textarea") (
          attr (codes "name") name
          ∷ attr (codes "rows") (codes "4")
          ∷ attr (codes "cols") (codes "50")
          ∷ class (codes "form-control")
          ∷ id_attr id
          ∷ text s
          ∷ attr (codes "placeholder") opts.placeholder
          ∷ required_attr opts.required
          ∷ group (fragments children)
          ∷ [])))
field id caption name opts children field_select = do
  options ← select_options opts.value opts.options
  ok (
      labelled id caption opts (
        element (codes "select") (
          attr (codes "name") name
          ∷ class (codes "form-select")
          ∷ id_attr id
          ∷ group (fragments options)
          ∷ group (fragments children)
          ∷ [])))
field id caption name opts children _ = do
  s ← as_string opts.value
  ok (
      labelled id caption opts (
        element (codes "input") (
          attr (codes "type") (codes "input")
          ∷ attr (codes "name") name
          ∷ class (codes "form-control")
          ∷ id_attr id
          ∷ attr (codes "value") s
          ∷ attr (codes "placeholder") opts.placeholder
          ∷ required_attr opts.required
          ∷ group (fragments children)
          ∷ [])))

-- `FormField`.
unfoldable pub form_field : Bytes → Bytes → Bytes → FormOptions → List Fragment → Outcome Fragment
unfolding field
form_field id caption name opts children = field id caption name opts children opts.kind

cells : List Fragment → Fragment
cells items =
    element (codes "tr") (group (fragments (map (λ c. element (codes "td") (c ∷ [])) items)) ∷ [])

-- `Table`; the rows are groups.
unfoldable pub table : List Fragment → List (List Fragment) → List Fragment → Fragment
unfolding cells
table header_row rows children = div (
    class (codes "table-responsive")
    ∷ group (fragments children)
    ∷ element (codes "table") (
        class (codes "table")
        ∷ element (codes "thead")
            (element (codes "tr") (map (λ i. element (codes "th") (i ∷ [])) header_row) ∷ [])
        ∷ element (codes "tbody") (map cells rows)
        ∷ [])
    ∷ [])

abbrev pub navbar_link : Bytes → Fragment → Fragment
navbar_link target inside =
    element (codes "li")
      (class (codes "nav-link") ∷ link target (class (codes "nav-link") ∷ inside ∷ []) ∷ [])

abbrev pub navbar_brand : Bytes → Fragment → Fragment
navbar_brand target inside = link target (class (codes "navbar-brand") ∷ inside ∷ [])

abbrev toggler : Fragment
toggler = element (codes "button") (
    class (codes "navbar-toggler")
    ∷ attr (codes "type") (codes "button")
    ∷ attr (codes "data-bs-toggle") (codes "collapse")
    ∷ attr (codes "data-bs-target") (codes "#navbarSupportedContent")
    ∷ element (codes "span") (class (codes "navbar-toggler-icon") ∷ [])
    ∷ [])

unfoldable pub navbar : Fragment → List Fragment → Fragment
navbar brand links = element (codes "nav") (
    class (codes "navbar")
    ∷ class (codes "navbar-expand-lg")
    ∷ class (codes "bg-body-tertiary")
    ∷ div (
        class (codes "container-fluid")
        ∷ brand
        ∷ toggler
        ∷ div (
            class (codes "collapse")
            ∷ class (codes "navbar-collapse")
            ∷ id_attr (codes "navbarSupportedContent")
            ∷ element (codes "ul") (
                class (codes "navbar-nav")
                ∷ class (codes "me-auto")
                ∷ class (codes "mb-2")
                ∷ class (codes "mb-lg-0")
                ∷ group (fragments links)
                ∷ [])
            ∷ [])
        ∷ [])
    ∷ [])

abbrev pub submit_button : Bytes → Bytes → List Fragment → Fragment
submit_button s color children =
    element (codes "button")
      (class (codes "btn") ∷ class color ∷ attr (codes "type") (codes "submit") ∷ text s ∷ children)

abbrev pub alert : Bytes → List Fragment → Fragment
alert color children = div (
    class (codes "alert")
    ∷ class (codes "alert-" ++ color)
    ∷ attr (codes "role") (codes "alert")
    ∷ group (fragments children)
    ∷ [])
