-- ===== src/Htm/Htmx.antt =====
-- The attributes of pkg/htm/htmx/htmx.go.
use tinyrange_ad.Common.{List, ◌∷◌, ◌++◌, ℤ, pos}
use tinyrange_ad.Common.Int.{quot}
use tinyrange_ad.Common.Decimal.{itoa}
use tinyrange_ad.Common.Text.{Bytes, codes, join}
use tinyrange_ad.Htm.{Fragment, attr}

abbrev pub get : Bytes → Fragment
get target = attr (codes "hx-get") target

abbrev pub post : Bytes → Fragment
post target = attr (codes "hx-post") target

-- A duration is in nanoseconds.
unfoldable pub modifier_delay : ℤ → Bytes
modifier_delay delay = codes "delay:" ++ (itoa (quot delay (pos 1000000)) ++ codes "ms")

unfoldable pub trigger : Bytes → List Bytes → Fragment
trigger event modifiers = attr (codes "hx-trigger") (join (event ∷ modifiers) (codes " "))

abbrev pub target : Bytes → Fragment
target id = attr (codes "hx-target") (codes "#" ++ id)

unfoldable pub include : List Bytes → Fragment
include targets = attr (codes "hx-include") (join targets (codes ","))

abbrev pub form_name : Bytes → Bytes
form_name name = codes "[name='" ++ (name ++ codes "']")
