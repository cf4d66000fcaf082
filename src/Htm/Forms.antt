-- ===== src/Htm/Forms.antt =====
-- Forms: pkg/htm/html/form.go. The random id of a field is an argument.
use tinyrange_ad.Common.{List, [], ◌∷◌, Bool, if◌then◌else◌, ℤ}
use tinyrange_ad.Common.Text.{Bytes, codes}
use tinyrange_ad.Common.Decimal.{itoa}
use tinyrange_ad.Common.Outcome.{Outcome, ok, panic, ◌>>=◌}
use tinyrange_ad.Htm.{Fragment, group, text, attr, nil, fragments}
use tinyrange_ad.Htm.Elements.{element, div, id_attr}

abbrev pub form : List Fragment → Fragment
form children = element (codes "form") children

abbrev pub form_target : Bytes → Bytes → Fragment
form_target method target =
    group (fragments (attr (codes "method") method ∷ attr (codes "action") target ∷ []))

abbrev pub button : List Fragment → Fragment
button children = element (codes "button") children

abbrev pub label : Bytes → Bytes → List Fragment → Fragment
label for_id s children = element (codes "label") (attr (codes "for") for_id ∷ text s ∷ children)

-- `FormFieldKind`; `field_text` stands for `FormFieldText` and any text that is not listed.
pub data FormFieldKind : Type 0 where
  field_text field_number field_checkbox field_multiline_text field_select field_hidden :
      FormFieldKind

-- `Value any`, as far as its type is asked for.
pub data Value : Type 0 where
  int_value : ℤ → Value
  bool_value : Bool → Value
  string_value : Bytes → Value
  other_value : Value

pub record FormOptions : Type 0 where
  pub kind : FormFieldKind
  pub value : Value
  pub placeholder : Bytes
  pub required : Bool
  pub label_same_line : Bool
  pub options : List Bytes

-- The type assertions, which panic.
unfoldable pub as_int : Value → Outcome ℤ
as_int (int_value n) = ok n
as_int (bool_value b) = panic
as_int (string_value s) = panic
as_int other_value = panic

unfoldable pub as_bool : Value → Outcome Bool
as_bool (bool_value b) = ok b
as_bool (int_value n) = panic
as_bool (string_value s) = panic
as_bool other_value = panic

unfoldable pub as_string : Value → Outcome Bytes
as_string (string_value s) = ok s
as_string (int_value n) = panic
as_string (bool_value b) = panic
as_string other_value = panic

abbrev input : List Fragment → Fragment
input children = element (codes "input") children

-- The `switch` of `FormField`.
field_input : Bytes → Bytes → FormOptions → FormFieldKind → Outcome Fragment
unfolding as_int as_bool as_string
field_input id name opts field_number = do
  n ← as_int opts.value
  ok (
      input (
        attr (codes "type") (codes "number")
        ∷ attr (codes "name") name
        ∷ id_attr id
        ∷ attr (codes "value") (itoa n)
        ∷ attr (codes "placeholder") opts.placeholder
        ∷ []))
field_input id name opts field_checkbox = do
  checked ← as_bool opts.value
  ok (
      input (
        attr (codes "type") (codes "checkbox")
        ∷ attr (codes "name") name
        ∷ id_attr id
        ∷ (if checked then attr (codes "checked") [] else nil)
        ∷ attr (codes "placeholder") opts.placeholder
        ∷ []))
field_input id name opts field_multiline_text = do
  s ← as_string opts.value
  ok (
      element (codes "textarea") (
        attr (codes "name") name
        ∷ attr (codes "rows") (codes "4")
        ∷ attr (codes "cols") (codes "50")
        ∷ id_attr id
        ∷ text s
        ∷ attr (codes "placeholder") opts.placeholder
        ∷ []))
field_input id name opts field_hidden = do
  s ← as_string opts.value
  ok (
      input (
        attr (codes "type") (codes "hidden")
        ∷ attr (codes "name") name
        ∷ id_attr id
        ∷ attr (codes "value") s
        ∷ []))
field_input id name opts _ = do
  s ← as_string opts.value
  ok (
      input (
        attr (codes "type") (codes "input")
        ∷ attr (codes "name") name
        ∷ id_attr id
        ∷ attr (codes "value") s
        ∷ attr (codes "placeholder") opts.placeholder
        ∷ []))

-- `FormField` of the package html; its last arguments are not used.
unfoldable pub form_field : Bytes → Bytes → Bytes → FormOptions → List Fragment → Outcome Fragment
unfolding field_input
form_field id caption name opts children = do
  field ← field_input id name opts opts.kind
  ok (div (label id caption [] ∷ field ∷ []))

-- `SubmitButton` of the package html.
abbrev pub submit_button : Bytes → Fragment
submit_button s = input (attr (codes "type") (codes "submit") ∷ attr (codes "value") s ∷ [])
