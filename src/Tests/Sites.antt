-- ===== src/Tests/Sites.antt =====
-- The SSH server and the public server on concrete inputs.
use tinyrange_ad.Common.{
  ℕ, List, [], ◌∷◌, ◌++◌, Bool, true, none, some, ◌≡◌, ◌⊎◌, inr, refl, pos, arith,
}
use tinyrange_ad.Common.Outcome.{Outcome, ok, panic}
use tinyrange_ad.Common.Text.{Bytes, codes, eqb, split}
use tinyrange_ad.Common.Dict.{lookup}
use tinyrange_ad.Flow.Router.{FlowRouter, FlowInstance, FlowService, dial_context, dial}
use tinyrange_ad.Net.{ipv4, ip_port, split_host_port}
use tinyrange_ad.Common.Decimal.{itoa}
use tinyrange_ad.Ssh.{NewChannel, forwarded, big_endian, requested_name, ssh_channel}
use tinyrange_ad.Ssh.Requests.{Malformed, put_uint32}
use tinyrange_ad.Ssh.Forwarding.{ForwardedTo, ssh_channel-forwarded, ssh_channel-panic}
use tinyrange_ad.Team.{Team}
use tinyrange_ad.Team.Lookup.{instance_from_name}
use tinyrange_ad.Device.{get_devices, device_ip, add_device, create_device}
use tinyrange_ad.Persist.{validate_key}
use tinyrange_ad.Persist.Database.{set}
use tinyrange_ad.Tags.{parse_tags}
use tinyrange_ad.Flow.{parse_flows}
use tinyrange_ad.Flow.Router.{add_instance}
use tinyrange_ad.Wireguard
use tinyrange_ad.Wireguard.Configs
use tinyrange_ad.Api.Replies.{Reply, redirect}
use tinyrange_ad.Public.{Site, Look, Request, Content, add_named_device, answer_request, guarded}
use tinyrange_ad.Public.Guard.{Acts, answer_request_cases}
use tinyrange_ad.Public.DeviceForm.{add_named_device-listed}
use tinyrange_ad.Tests.{alpha}
use tinyrange_ad.Tests.Stores.{disk, json, tunnels}
use tinyrange_ad.Tests.Devices.{hash, no_tags, empty}

abbrev ssh_service : FlowService
ssh_service = record { name = codes "ssh"; port = pos 2222; tags = [] }

abbrev machine : FlowInstance
machine = record {
  hostname = codes "team_alpha";
  tags = [];
  address = ipv4 10 40 10 10;
  services = ssh_service ∷ [];
  flows = [];
}

abbrev router : FlowRouter
router = (codes "team_alpha", machine) ∷ []

abbrev teams : List Team
teams = record alpha { team_instance = some machine } ∷ []

abbrev connects : FlowInstance → FlowService → Bool
connects t s = true

abbrev asks : NewChannel
asks = record {
  channel_type = codes "direct-tcpip";
  extra_data = put_uint32 10 ++ codes "team_alpha";
  accepts = true;
}

forwards : ssh_channel router none teams connects asks ≡ ok (forwarded machine ssh_service)
unfolding ssh_channel requested_name put_uint32 instance_from_name eqb dial_context split_host_port
    ip_port itoa split dial
forwards = refl

ssh_channel-forwarded_example : ForwardedTo router none teams connects asks machine ssh_service
ssh_channel-forwarded_example =
    ssh_channel-forwarded router none teams connects asks machine ssh_service forwards

-- Four bytes of 255 are a length that wraps around.
abbrev wraps : NewChannel
wraps = record {
  channel_type = codes "direct-tcpip";
  extra_data = 255 ∷ 255 ∷ 255 ∷ 255 ∷ 0 ∷ [];
  accepts = true;
}

malformed : Malformed wraps.extra_data
unfolding Malformed big_endian
malformed = inr (4294967295, refl, omega arith, inr (omega arith))

ssh_channel-panic_example : ssh_channel router none teams connects wraps ≡ panic
ssh_channel-panic_example = ssh_channel-panic router none teams connects wraps refl malformed

abbrev site : Site disk tunnels ℕ ℕ
site = record {
  devices = empty;
  events = [];
  instances = [];
  teams = teams;
  scorebot = none;
  overall_state = none;
  ticks = [];
}

abbrev look : Look ℕ
look = record {
  sources = [];
  terminal_head = [];
  terminal_tail = [];
  game_title = codes "game";
  pages = [];
  render = λ path. none;
  scoreboard_fragment = λ board. none;
  config_text = none;
  new_id = λ n. n ∷ [];
  error_text = [];
}

abbrev call : ℕ → Site disk tunnels ℕ ℕ → Bool × Site disk tunnels ℕ ℕ
call e g = (true, g)

abbrev device_request : Request
device_request = add_named_device (codes "phone") (codes "alpha")

abbrev answered : Outcome (Reply (Content ℕ) × Site disk tunnels ℕ ℕ)
answered =
    answer_request disk json (codes "db") hash tunnels no_tags call look true 0 device_request site

abbrev site_of : Outcome (Reply (Content ℕ) × Site disk tunnels ℕ ℕ) → Site disk tunnels ℕ ℕ
site_of (ok (_, g)) = g
site_of panic = site

adds_device : answered ≡ ok (redirect (codes "/devices"), site_of answered)
unfolding answer_request guarded add_device validate_key eqb create_device parse_tags parse_flows
    add_instance lookup Configs.add_device Wireguard.translate_to_device_config split set
adds_device = refl

answer_request_cases_example : (site_of answered ≡ site) ⊎ (true ≡ true) × Acts device_request
answer_request_cases_example =
    answer_request_cases disk json (codes "db") hash tunnels no_tags call look true 0 device_request
      site (site_of answered) (redirect (codes "/devices")) adds_device

add_named_device-listed_example :
    (codes "/devices" ≡ codes "/devices")
    × ((url : Bytes) × (get_devices (site_of answered).devices.devices
          ≡ [] ++ record { config_url = url; name = codes "phone"; ip = device_ip 0 } ∷ []))
unfolding get_devices
add_named_device-listed_example =
    add_named_device-listed disk json (codes "db") hash tunnels no_tags call look 0 (codes "phone")
      (codes "alpha") site (site_of answered) (codes "/devices") adds_device
