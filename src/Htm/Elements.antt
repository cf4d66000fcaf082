-- ===== src/Htm/Elements.antt =====
-- The elements of pkg/htm/html/html.go.
use tinyrange_ad.Common.{List, [], ◌∷◌}
use tinyrange_ad.Common.Text.{Bytes, codes}
use tinyrange_ad.Htm.{Fragment, html_fragment, text, attr, fragments}

-- `NewHtmlFragment` with the tag of each function.
abbrev pub element : Bytes → List Fragment → Fragment
element tag children = html_fragment tag (fragments children)

abbrev pub html : List Fragment → Fragment
html children = element (codes "html") children

abbrev pub head : List Fragment → Fragment
head children = element (codes "head") children

abbrev pub body : List Fragment → Fragment
body children = element (codes "body") children

abbrev pub div : List Fragment → Fragment
div children = element (codes "div") children

abbrev pub a : List Fragment → Fragment
a children = element (codes "a") children

abbrev pub h5 : List Fragment → Fragment
h5 children = element (codes "h5") children

abbrev pub pre : List Fragment → Fragment
pre children = element (codes "pre") children

abbrev pub code : List Fragment → Fragment
code children = element (codes "code") children

abbrev pub p : List Fragment → Fragment
p children = element (codes "p") children

abbrev pub strong : List Fragment → Fragment
strong children = element (codes "strong") children

abbrev pub link : Bytes → List Fragment → Fragment
link target children = a (attr (codes "href") target ∷ children)

abbrev pub link_css : Bytes → List Fragment → Fragment
link_css url children =
    element (codes "link")
      (attr (codes "rel") (codes "stylesheet") ∷ attr (codes "href") url ∷ children)

abbrev pub style : Bytes → List Fragment → Fragment
style content children = element (codes "style") (text content ∷ children)

abbrev pub java_script : Bytes → List Fragment → Fragment
java_script source children = element (codes "script") (text source ∷ children)

abbrev pub java_script_src : Bytes → List Fragment → Fragment
java_script_src url children = element (codes "script") (attr (codes "src") url ∷ children)

abbrev pub title : Bytes → Fragment
title s = element (codes "title") (text s ∷ [])

-- An `Id` as a fragment.
abbrev pub id_attr : Bytes → Fragment
id_attr i = attr (codes "id") i

abbrev pub meta_charset : Bytes → Fragment
meta_charset charset = element (codes "meta") (attr (codes "charset") charset ∷ [])

abbrev pub meta_viewport : Bytes → Fragment
meta_viewport value =
    element (codes "meta")
      (attr (codes "name") (codes "viewport") ∷ attr (codes "content") value ∷ [])

abbrev pub hidden_form_field : Bytes → Bytes → Bytes → Fragment
hidden_form_field id name value = element (codes "input") (
    attr (codes "type") (codes "hidden")
    ∷ id_attr id
    ∷ attr (codes "name") name
    ∷ attr (codes "value") value
    ∷ [])
