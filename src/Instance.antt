-- ===== src/Instance.antt =====
-- The virtual machines, cmd/ad/tinyrange.go, with their templates and their start by the game,
-- cmd/ad/game.go.
pub mod Machines
pub mod Remote
use tinyrange_ad.Common.{
  ℕ, List, [], ◌∷◌, ◌++◌, Bool, true, false, not, Option, none, some, if◌then◌else◌, ◌>>=◌, ℤ, pos,
}
use tinyrange_ad.Common.Outcome.{Outcome, ok, panic}
use tinyrange_ad.Common.Int.{◌==ℤ◌}
use tinyrange_ad.Common.Text.{Bytes, codes, eqb, split}
use tinyrange_ad.Common.Dict.{lookup, insert, bytes_eq}
use tinyrange_ad.Tags.{TagList, ReplaceFunc, parse_tags}
use tinyrange_ad.Net.{Ip, vm_ip, ip_string}
use tinyrange_ad.Flow.{ParsedFlow, parse_flows}
use tinyrange_ad.Flow.Router.{FlowService, FlowInstance, FlowRouter, add_instance}
use tinyrange_ad.Config.{InstanceConfig, HealthCheckConfig, kind_http}
use tinyrange_ad.Persist.{get_path, file_dir}
use tinyrange_ad.Persist.Database.{Disk}
use tinyrange_ad.Wireguard.{WireguardRouter, Wireguard}
use tinyrange_ad.Wireguard.Configs.{WireguardInstance, add_endpoint}

-- `tinyRangeInstance` without its SSH keys; `has_process` is whether `cmd` is set.
pub record TinyRangeInstance : Type 0 where
  pub name : Bytes
  pub address : Ip
  pub config : InstanceConfig
  pub has_process : Bool
  pub services : List FlowService
  pub flows : List ParsedFlow
  pub tags : TagList

-- The methods of `FlowInstance` of an instance.
unfoldable pub tiny_range_flow_instance : TinyRangeInstance → FlowInstance
tiny_range_flow_instance t = record {
  hostname = t.name;
  tags = t.tags;
  address = t.address;
  services = t.services;
  flows = t.flows;
}

-- `NewTinyRangeInstance`.
unfoldable pub new_tiny_range_instance : Bytes → Ip → InstanceConfig → TinyRangeInstance
new_tiny_range_instance name ip config = record {
  name = name;
  address = ip;
  config = config;
  has_process = false;
  services = [];
  flows = [];
  tags = [];
}

-- `ParseFlows` of an instance: flows and tags are set only if both parse.
unfoldable pub parse_instance_flows : TinyRangeInstance → ReplaceFunc → Option TinyRangeInstance
parse_instance_flows t f = parse_flows t.config.flows f >>= λ flows.
    parse_tags t.config.tags f >>= λ tags. some (record t { flows = flows; tags = tags })

-- `AddService`.
unfoldable pub add_service_to : TinyRangeInstance → FlowService → TinyRangeInstance
add_service_to t service = record t { services = t.services ++ service ∷ [] }

unfoldable pub add_services : TinyRangeInstance → List FlowService → TinyRangeInstance
unfolding add_service_to
add_services t [] = t
add_services t (s ∷ services) = add_services (add_service_to t s) services

-- `Stop`, for whether the signal can be sent: whether it succeeds.
unfoldable pub stop : TinyRangeInstance → Bool → Bool
stop t signalled = if not t.has_process then false else signalled

-- What the request of a health check is answered: a status code, and the body, if it can be read.
pub record HttpResponse : Type 0 where
  pub status_code : ℤ
  pub body_text : Option Bytes

right_body : HealthCheckConfig → Option Bytes → Bool
right_body check none = false
right_body check (some text) = eqb text check.expected_output

right_response : HealthCheckConfig → Option HttpResponse → Bool
unfolding right_body
right_response check none = false
right_response check (some r) =
    if not (r.status_code ==ℤ pos 200) then false else right_body check r.body_text

fetched : HealthCheckConfig → (Bytes → Option HttpResponse) → Option Bytes → Bool
unfolding right_response
fetched check fetch none = false
fetched check fetch (some url) = right_response check (fetch url)

-- `HealthCheck`: whether it succeeds, for the expansion of the URL and the answers of requests.
unfoldable pub health_check :
    HealthCheckConfig → (Bytes → Option Bytes) → (Bytes → Option HttpResponse) → Bool
unfolding fetched
health_check check expand_url fetch = elim check.kind [
  | kind_http ↦ fetched check fetch (expand_url check.url)
  | _ ↦ false
]

-- The arguments of the program that builds a template.
unfoldable pub template_args : Bytes → Bytes → Bytes → Bool → Bool → List Bytes
template_args tiny_range resolved ram verbose rebuild =
    tiny_range
      ∷ codes "login"
      ∷ codes "--template"
      ∷ codes "--load-config"
      ∷ resolved
      ∷ codes "--storage"
      ∷ codes "4096"
      ∷ (if eqb ram [] then [] else codes "--ram" ∷ ram ∷ [])
    ++ ((if verbose then codes "--verbose" ∷ [] else [])
        ++ (if rebuild then codes "--rebuild" ∷ [] else []))

-- The last line, or the one before it where the last is empty; `none` is the error of no line.
unfoldable pub template_line : List Bytes → Outcome (Option Bytes)
template_line [] = ok none
template_line (l ∷ []) = if eqb l [] then panic else ok (some l)
template_line (k ∷ l ∷ []) = if eqb l [] then ok (some k) else ok (some l)
template_line (k ∷ l ∷ m ∷ lines) = template_line (l ∷ m ∷ lines)

-- `tinyRangeTemplates`: the file of each template.
abbrev pub Templates : Type 0
Templates = List (Bytes × Bytes)

cached_as : Templates → Bytes → Option Bytes → Bool × Templates
cached_as templates name none = (false, templates)
cached_as templates name (some line) = (true, insert name line templates)

cached_line : Templates → Bytes → Outcome (Option Bytes) → Outcome (Bool × Templates)
unfolding cached_as
cached_line templates name panic = panic
cached_line templates name (ok line) = ok (cached_as templates name line)

-- `cacheTinyRangeTemplate` for the output of the program, `none` for its failure: whether it
-- succeeded, and the templates.
unfoldable pub cache_template : Templates → Bytes → Option Bytes → Outcome (Bool × Templates)
unfolding cached_line template_line
cache_template templates name none = ok (false, templates)
cache_template templates name (some output) =
    cached_line templates name (template_line (split output 10))

-- `ensureTemplateCached`; `build` runs the program for a template and its memory.
unfoldable pub ensure_template_cached :
    (Bytes → Bytes → Option Bytes) → Templates → Bytes → Bytes → Outcome (Bool × Templates)
unfolding cache_template
ensure_template_cached build templates name ram = elim (lookup name templates) [
  | some _ ↦ ok (true, templates)
  | none ↦ cache_template templates name (build name ram)
]
