-- ===== src/Flow.antt =====
-- Flow rules: their text form, cmd/ad/flow.go. The router is the child `Router`.
pub mod RoundTrip
pub mod Router
use tinyrange_ad.Common.{ℕ, List, [], ◌∷◌, ◌++◌, Option, none, some, if◌then◌else◌, ◌>>=◌}
use tinyrange_ad.Common.Text.{Bytes, codes, eqb, split}
use tinyrange_ad.Tags.{ReplaceFunc, expand}

pub record ParsedFlow : Type 0 where
  pub tag : Bytes
  pub instance_name : Bytes
  pub service : Bytes

flow_of_tag : ReplaceFunc → Bytes → List Bytes → Option ParsedFlow
unfolding expand
flow_of_tag replace service (t0 ∷ t1 ∷ []) = do
  name ← expand replace t1
  some (record { tag = t0; instance_name = name; service = service })
flow_of_tag replace service _ = none

flow_of_parts : ReplaceFunc → List Bytes → Option ParsedFlow
unfolding flow_of_tag
flow_of_parts replace (p0 ∷ p1 ∷ []) = flow_of_tag replace p1 (split p0 b'/')
flow_of_parts replace _ = none

-- `ParseFlow`, with `none` for its errors.
unfoldable pub parse_flow : Bytes → ReplaceFunc → Option ParsedFlow
unfolding flow_of_parts
parse_flow flow replace = flow_of_parts replace (split flow b':')

-- `ParsedFlow.String`.
unfoldable pub flow_string : ParsedFlow → Bytes
flow_string flow =
    if eqb flow.instance_name []
    then flow.tag ++ (b':' ∷ flow.service)
    else flow.tag ++ (b'/' ∷ (flow.instance_name ++ (b':' ∷ flow.service)))

-- `FlowList.Parse`: the first error ends it.
unfoldable pub parse_flows : List Bytes → ReplaceFunc → Option (List ParsedFlow)
unfolding parse_flow
parse_flows [] replace = some []
parse_flows (flow ∷ flows) replace =
    parse_flow flow replace >>= λ f. parse_flows flows replace >>= λ fs. some (f ∷ fs)
