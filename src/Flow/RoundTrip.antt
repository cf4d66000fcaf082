-- ===== src/Flow/RoundTrip.antt =====
-- A flow rule is read back from its text, and `{team}` is replaced.
use tinyrange_ad.Common.{
  [], ◌∷◌, ◌++◌, false, Option, none, some, ◌≡◌, ◌≢◌, ap, take, length, suc, length-append, ◌-◌,
  refl, sym, arith, ◌>>=◌, append_assoc, All-append,
}
use tinyrange_ad.Common.Text.{
  Bytes, codes, eqb_ne, Lacks, split-append, split-Lacks, has_prefix, has_suffix-append,
}
use tinyrange_ad.Tags.{ReplaceFunc, expand, inner}
use tinyrange_ad.Flow.{ParsedFlow, parse_flow, flow_string}

-- The texts that `ParseFlow` can tell apart.
pub record Plain (f : ParsedFlow) : Type 0 where
  pub tag_slash : Lacks b'/' f.tag
  pub tag_colon : Lacks b':' f.tag
  pub name_slash : Lacks b'/' f.instance_name
  pub name_colon : Lacks b':' f.instance_name
  pub service_colon : Lacks b':' f.service

expand_plain :
    (replace : ReplaceFunc) (s : Bytes)
    → has_prefix s (codes "{") ≡ false
    → expand replace s ≡ some s
unfolding expand
expand_plain replace s h = rw h

take-append : (s t : Bytes) → take (length s) (s ++ t) ≡ s
take-append [] t = refl
take-append (c ∷ s) t = ap (◌∷◌ c) (take-append s t)

inner-brace : (name : Bytes) → inner (b'{' ∷ (name ++ codes "}")) ≡ name
unfolding inner
inner-brace name =
    let e : suc (length (name ++ codes "}")) - 2 ≡ length name =
      omega (arith, length-append name (codes "}")) in
    rw e (take-append name (codes "}"))

-- `{name}` is the name handed to the function.
expand_variable :
    (replace : ReplaceFunc) (name : Bytes)
    → expand replace (b'{' ∷ (name ++ codes "}")) ≡ (replace >>= λ f. f name)
unfolding expand has_prefix
expand_variable none name = ground arith
expand_variable (some f) name =
    rw (has_suffix-append (b'{' ∷ name) (codes "}")) (ap f (inner-brace name))

bind_assoc :
    {B : Type 0} (replace : ReplaceFunc) (name : Bytes) (k : Bytes → Option B)
    → ((replace >>= λ f. f name) >>= k) ≡ (replace >>= λ f. f name >>= k)
bind_assoc none name k = refl
bind_assoc (some f) name k = refl

-- Text of the form `tag/part:service` is read as its three parts, the second one expanded.
pub parse_flow_lem :
    (replace : ReplaceFunc) (tag part service : Bytes)
    → Lacks b'/' tag
    → Lacks b':' tag
    → Lacks b'/' part
    → Lacks b':' part
    → Lacks b':' service
    → parse_flow (tag ++ (b'/' ∷ (part ++ (b':' ∷ service)))) replace ≡ (
        expand replace part >>= λ name.
        some (record { tag = tag; instance_name = name; service = service }))
unfolding parse_flow
parse_flow_lem replace tag part service ts tc ps pc sc = rw (
  sym (append_assoc tag (b'/' ∷ part) (b':' ∷ service)),
  split-append (tag ++ (b'/' ∷ part)) service b':'
      (All-append _ tag (b'/' ∷ part) tc ((omega arith, pc))),
  split-Lacks service b':' sc,
  split-append tag part b'/' ts,
  split-Lacks part b'/' ps,
)

-- A rule whose parts hold no separator, and whose instance part is given and is no `{…}`, is read
-- back from its printed form, whatever the replacement function.
pub parse_flow-flow_string :
    (replace : ReplaceFunc) (f : ParsedFlow)
    → Plain f
    → f.instance_name ≢ []
    → has_prefix f.instance_name (codes "{") ≡ false
    → parse_flow (flow_string f) replace ≡ some f
unfolding flow_string
parse_flow-flow_string replace f p ne plain = rw (
  eqb_ne f.instance_name [] ne,
  parse_flow_lem replace f.tag f.instance_name f.service p.tag_slash p.tag_colon p.name_slash
      p.name_colon p.service_colon,
  expand_plain replace f.instance_name plain,
)

-- A rule `tag/{name}:service` takes what the replacement function gives for the name, and is an
-- error where the function is missing or fails.
parse_flow_variable :
    (replace : ReplaceFunc) (tag name service : Bytes)
    → Lacks b'/' tag
    → Lacks b':' tag
    → Lacks b'/' name
    → Lacks b':' name
    → Lacks b':' service
    → parse_flow (tag ++ (b'/' ∷ ((b'{' ∷ (name ++ codes "}")) ++ (b':' ∷ service)))) replace ≡ (
        replace >>= λ f.
        f name >>= λ value. some (record { tag = tag; instance_name = value; service = service }))
parse_flow_variable replace tag name service ts tc ns nc sc =
    rw
      (
        parse_flow_lem replace tag (b'{' ∷ (name ++ codes "}")) service ts tc
            (omega arith, All-append _ name (codes "}") ns (omega arith))
            (omega arith, All-append _ name (codes "}") nc (omega arith)) sc,
        expand_variable replace name,
      )
      (bind_assoc replace name _)
