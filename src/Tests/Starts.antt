-- ===== src/Tests/Starts.antt =====
-- Starts of virtual machines and teams, and the scorebot's checks, on concrete inputs.
use tinyrange_ad.Common.{List, [], ◌∷◌, ◌++◌, Bool, true, false, Option, none, some, ◌≡◌, refl, pos}
use tinyrange_ad.Common.Outcome.{Outcome, ok, panic}
use tinyrange_ad.Common.Text.{Bytes, codes, eqb, split}
use tinyrange_ad.Common.Dict.{lookup, insert, bytes_eq}
use tinyrange_ad.Flow.Router.{add_instance}
use tinyrange_ad.Flow.{parse_flows}
use tinyrange_ad.Tags.{parse_tags}
use tinyrange_ad.Net.{ipv4}
use tinyrange_ad.Instance.{
  TinyRangeInstance, new_tiny_range_instance, ensure_template_cached, parse_instance_flows,
  tiny_range_flow_instance, add_services,
}
use tinyrange_ad.Instance.Machines.{Machines, start_instance_from_config}
use tinyrange_ad.Instance.Machines.Starting.{Up, start_instance_from_config-Up}
use tinyrange_ad.Wireguard.Configs.{add_endpoint}
use tinyrange_ad.Team.{TargetInfo}
use tinyrange_ad.Team.Commands.{InitData}
use tinyrange_ad.Team.Running.{Running, start_team}
use tinyrange_ad.Scorebot.{ScoreBotConfig}
use tinyrange_ad.Persist.Database.{ensure_path}
use tinyrange_ad.Tests.{config, instance_config, alpha}
use tinyrange_ad.Tests.Stores.{disk, tunnels}
use tinyrange_ad.Tests.Devices.{hash, wireguard_router}

abbrev pub no_machines : Machines disk
no_machines = record {
  templates = [];
  instances = [];
  flow = [];
  router = wireguard_router;
  disk = [];
}

-- The template is the first line of the output.
abbrev builds : Bytes → Bytes → Option Bytes
builds name ram = some (codes "t" ++ 10 ∷ [])

abbrev launches : List Bytes → Bool
launches args = true

abbrev start : Outcome (Machines disk × Option TinyRangeInstance)
start =
    start_instance_from_config disk hash tunnels (codes "db") (codes "vmm") false builds launches 0
      no_machines (codes "vm") (ipv4 10 40 10 10) instance_config

abbrev started_of :
    Outcome (Machines disk × Option TinyRangeInstance) → Machines disk × TinyRangeInstance
started_of (ok (g, some t)) = (g, t)
started_of _ = (no_machines, new_tiny_range_instance [] (ipv4 0 0 0 0) instance_config)

starts : start ≡ ok ((started_of start).0, some (started_of start).1)
unfolding start_instance_from_config ensure_template_cached lookup add_instance split eqb
    add_endpoint insert ensure_path
starts = refl

start_instance_from_config-Up_example :
    Up disk hash tunnels
      (codes "db")
      (codes "vmm")
      false
      builds
      launches
      no_machines
      (started_of start).0
      (new_tiny_range_instance (codes "vm") (ipv4 10 40 10 10) instance_config)
      (started_of start).1
start_instance_from_config-Up_example =
    start_instance_from_config-Up disk hash tunnels (codes "db") (codes "vmm") false builds launches
      0 no_machines (started_of start).0 (codes "vm") (ipv4 10 40 10 10) instance_config
      (started_of start).1 starts

abbrev idle : Running disk
idle = record { machines = no_machines; team = alpha }

abbrev expands : Bytes → InitData → Option Bytes
expands template data_ = some template

abbrev succeeds : TargetInfo → Bytes → Option Bytes
succeeds target command = some (codes "success" ++ 10 ∷ [])

abbrev team_start : Outcome (Running disk × Bool)
team_start =
    start_team disk hash tunnels (codes "db") (codes "vmm") false builds launches expands succeeds
      (λ t u. some u) (λ u. none) config 0 1 2 idle

abbrev running_of : Outcome (Running disk × Bool) → Running disk
running_of (ok (r, _)) = r
running_of panic = idle

team_starts : team_start ≡ ok (running_of team_start, true)
unfolding start_team start_instance_from_config ensure_template_cached lookup add_instance split eqb
    add_endpoint insert ensure_path parse_instance_flows parse_flows parse_tags
    tiny_range_flow_instance add_services
team_starts = refl

abbrev checks_only : ScoreBotConfig
checks_only = record {
  instance_config = instance_config;
  services = [];
  checks = record { id = pos 0; command = []; timeout = pos 1 } ∷ [];
  health_check_command = [];
}
