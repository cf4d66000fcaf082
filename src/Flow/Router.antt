-- ===== src/Flow/Router.antt =====
-- The flow router, cmd/ad/flow.go: which connections between instances are let through.
pub mod Policy
pub mod Dialing
pub mod Connections
pub mod Registry
use tinyrange_ad.Common.{
  ℕ, List, [], ◌∷◌, ◌++◌, Bool, true, false, not, ◌&&◌, ◌||◌, Option, none, some, if◌then◌else◌,
  ◌>>=◌, ℤ, pos,
}
use tinyrange_ad.Common.Int.{◌==ℤ◌}
use tinyrange_ad.Common.Text.{Bytes, codes, eqb}
use tinyrange_ad.Common.Dict.{lookup, insert, bytes_eq}
use tinyrange_ad.Common.Decimal.{itoa}
use tinyrange_ad.Net.{Ip, ip_equal, ip_string, split_host_port}
use tinyrange_ad.Tags.{TagList, contains, contains_matching_prefix, contains_any}
use tinyrange_ad.Flow.{ParsedFlow}

-- What the router asks of a `FlowService`.
pub record FlowService : Type 0 where
  pub name : Bytes
  pub port : ℤ
  pub tags : TagList

-- What the router asks of a `FlowInstance`.
pub record FlowInstance : Type 0 where
  pub hostname : Bytes
  pub tags : TagList
  pub address : Ip
  pub services : List FlowService
  pub flows : List ParsedFlow

-- `FlowRouter.instances`.
abbrev pub FlowRouter : Type 0
FlowRouter = List (Bytes × FlowInstance)

unfoldable pub new_flow_router : FlowRouter
new_flow_router = []

-- One round of the loops of `handleConnection` and `dialContext`: does this flow admit the pair?
unfoldable pub admits : FlowInstance → FlowInstance → FlowService → ParsedFlow → Bool
admits source target service flow =
    if not (contains_any source.tags source.tags)
    then false
    else if (if eqb flow.instance_name (codes "*")
        then not (contains_matching_prefix target.tags (flow.tag ++ codes "/"))
        else not (contains target.tags (flow.tag ++ (b'/' ∷ flow.instance_name))))
    then false
    else contains service.tags flow.service

any_admits : FlowInstance → FlowInstance → FlowService → List ParsedFlow → Bool
unfolding admits
any_admits source target service [] = false
any_admits source target service (flow ∷ flows) =
    admits source target service flow || any_admits source target service flows

-- `FlowRouter.handleConnection`; `true` is a connection handed to the service.
unfoldable pub handle_connection : FlowInstance → FlowInstance → FlowService → Bool
unfolding any_admits
handle_connection source target service = any_admits source target service source.flows

-- What becomes of a connection.
pub data Handled : Type 0 where
  accepted : FlowInstance → FlowService → Handled
  closed : Handled

try_services : FlowInstance → FlowInstance → ℕ → List FlowService → Handled → Handled
try_services source target port [] rest = rest
try_services source target port (service ∷ services) rest =
    let next = try_services source target port services rest in
    if service.port ==ℤ pos port
    then (if handle_connection source target service then accepted target service else next)
    else next

-- `flowRouterHandler.HandleConn`: the target by its address, the service by its port.
unfoldable pub handle_conn : FlowRouter → FlowInstance → Ip → ℕ → Handled
unfolding try_services
handle_conn [] source ip port = closed
handle_conn ((_, target) ∷ router) source ip port =
    let rest = handle_conn router source ip port in
    if ip_equal target.address ip
    then try_services source target port target.services rest
    else rest

-- `FlowRouter.dialContext`; no source is the router itself. `none` is the error.
unfoldable pub dial :
    Option FlowInstance → FlowInstance → FlowService → Option (FlowInstance × FlowService)
unfolding any_admits
dial none target service = some (target, service)
dial (some source) target service =
    if any_admits source target service source.flows then some (target, service) else none

named : Bytes → FlowService → Bool
named port service = eqb (itoa service.port) port || eqb service.name port

find_service : Bytes → List FlowService → Option FlowService
unfolding named
find_service port [] = none
find_service port (service ∷ services) =
    if named port service then some service else find_service port services

-- The target by its hostname or by its address; one without the service is passed over.
find_target : FlowRouter → Bytes → Bytes → Option (FlowInstance × FlowService)
unfolding find_service
find_target [] host port = none
find_target ((_, target) ∷ router) host port =
    let rest = find_target router host port in
    if eqb target.hostname host || eqb (ip_string target.address) host
    then elim (find_service port target.services) [
      | some service ↦ some (target, service)
      | none ↦ rest
    ]
    else rest

dial_address : FlowRouter → Option FlowInstance → Bytes → Option (FlowInstance × FlowService)
unfolding find_target
dial_address router source address =
    split_host_port address >>= λ r. find_target router r.0 r.1 >>= λ t. dial source t.0 t.1

-- `FlowRouter.DialContext`.
unfoldable pub dial_context :
    FlowRouter → Option FlowInstance → Bytes → Bytes → Option (FlowInstance × FlowService)
unfolding dial_address
dial_context router source network address =
    if not (eqb network (codes "tcp")) then none else dial_address router source address

-- `FlowRouter.AddInstance`, with `none` for a hostname that is taken.
unfoldable pub add_instance : FlowRouter → FlowInstance → Option FlowRouter
add_instance router inst = elim (lookup inst.hostname router) [
  | some _ ↦ none
  | none ↦ some (insert inst.hostname inst router)
]
