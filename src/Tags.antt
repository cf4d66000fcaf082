-- ===== src/Tags.antt =====
-- Tag lists: cmd/ad/common.go and `ParseTag` of cmd/ad/flow.go.
use tinyrange_ad.Common.{
  List, [], ◌∷◌, ◌++◌, Bool, false, not, Option, none, some, ◌-◌, if◌then◌else◌, ◌>>=◌, length,
  take, drop, ◌||◌,
}
use tinyrange_ad.Common.Text.{Bytes, codes, eqb, has_prefix, has_suffix, split}

abbrev pub TagList : Type 0
TagList = List Bytes

unfoldable pub contains : TagList → Bytes → Bool
contains [] tag = false
contains (t ∷ tags) tag = eqb t tag || contains tags tag

unfoldable pub contains_matching_prefix : TagList → Bytes → Bool
contains_matching_prefix [] prefix = false
contains_matching_prefix (t ∷ tags) prefix =
    has_prefix t prefix || contains_matching_prefix tags prefix

unfoldable pub contains_any : TagList → TagList → Bool
unfolding contains
contains_any tags [] = false
contains_any tags (tag ∷ other) = contains tags tag || contains_any tags other

-- `none` is the nil function. A call that fails gives `none`.
abbrev pub ReplaceFunc : Type 0
ReplaceFunc = Option (Bytes → Option Bytes)

-- `s[1 : len(s)-1]`.
unfoldable pub inner : Bytes → Bytes
inner s = take (length s - 2) (drop 1 s)

-- What becomes of the part behind the slash, `{name}` or a plain text.
unfoldable pub expand : ReplaceFunc → Bytes → Option Bytes
unfolding inner
expand replace s =
    if has_prefix s (codes "{")
    then (if not (has_suffix s (codes "}"))
        then none
        else elim replace [ none ↦ none | some f ↦ f (inner s) ])
    else some s

parse_tag_parts : ReplaceFunc → List Bytes → Option Bytes
unfolding expand
parse_tag_parts replace (t0 ∷ t1 ∷ []) = do t ← expand replace t1; some (t0 ++ (b'/' ∷ t))
parse_tag_parts replace _ = none

-- `ParseTag`, with `none` for its errors.
unfoldable pub parse_tag : Bytes → ReplaceFunc → Option Bytes
unfolding parse_tag_parts
parse_tag tag replace = parse_tag_parts replace (split tag b'/')

-- `TagList.Parse`: the first error ends it.
unfoldable pub parse_tags : TagList → ReplaceFunc → Option TagList
unfolding parse_tag
parse_tags [] rpl = some []
parse_tags (tag ∷ tags) rpl = parse_tag tag rpl >>= λ t. parse_tags tags rpl >>= λ ts. some (t ∷ ts)
