-- ===== src/Team/Running.antt =====
-- Starting and stopping a team's machines, and the commands on them: cmd/ad/team.go.
pub mod Started
use tinyrange_ad.Common.{
  ℕ, List, [], ◌∷◌, ◌++◌, Bool, true, false, not, ◌&&◌, ◌||◌, ◌==◌, Option, none, some,
  if◌then◌else◌, ◌>>=◌, map,
}
use tinyrange_ad.Common.Outcome.{Outcome, ok, panic}
use tinyrange_ad.Common.Text.{Bytes, codes, eqb}
use tinyrange_ad.Common.Dict.{insert, bytes_eq}
use tinyrange_ad.Tags.{ReplaceFunc}
use tinyrange_ad.Net.{Ip, ip_string}
use tinyrange_ad.Flow.Router.{FlowService, FlowInstance}
use tinyrange_ad.Config.{
  Config, ServiceConfig, InstanceConfig, HealthCheckConfig, HealthCheckKind, kind_none, kind_http,
  kind_other,
}
use tinyrange_ad.Instance.{
  TinyRangeInstance, tiny_range_flow_instance, parse_instance_flows, add_services, stop,
  health_check, HttpResponse,
}
use tinyrange_ad.Instance.Machines.{Machines, set_last, start_instance_from_config}
use tinyrange_ad.Persist.Database.{Disk}
use tinyrange_ad.Wireguard.{Wireguard}
use tinyrange_ad.Team.Commands.{InitData, run_init_command}
use tinyrange_ad.Team.{Team, TargetInfo, team_ip, soc_ip, bot_ip, info, bot_info, soc_info}

-- The services of a machine, as the flow router sees them.
service_of : ServiceConfig → FlowService
service_of s = record { name = s.service_name; port = s.service_port; tags = s.service_tags }

-- The variable `team` of a flow; every other variable is an error.
team_variables : Bytes → ReplaceFunc
team_variables name = some (λ s. if eqb s (codes "team") then some name else none)

-- Which of a team's machines.
pub data Slot : Type 0 where
  team_slot bot_slot soc_slot : Slot

-- An instance is set in the team; the flow router's view of it and the game's list, where it is the
-- last one, are renewed: all hold a pointer to it.
set_slot : Slot → TinyRangeInstance → Team → Team
set_slot team_slot t team = record team { team_instance = some (tiny_range_flow_instance t) }
set_slot bot_slot t team = record team { bot_instance = some (tiny_range_flow_instance t) }
set_slot soc_slot t team = record team { soc_instance = some (tiny_range_flow_instance t) }

renewed : {os : Disk} → Machines os → TinyRangeInstance → Machines os
renewed g t = record g {
  instances = set_last t g.instances;
  flow = insert t.name (tiny_range_flow_instance t) g.flow;
}

pub record Running (os : Disk) : Type 0 where
  pub machines : Machines os
  pub team : Team

prepared :
    {os : Disk}
    → Slot
    → List FlowService
    → TargetInfo
    → (TargetInfo → Bool)
    → (TinyRangeInstance → Bool)
    → Machines os
    → Team
    → TinyRangeInstance
    → Option TinyRangeInstance
    → Running os × Bool
unfolding set_slot renewed
prepared slot services target init healthy g team t none =
    (record { machines = g; team = set_slot slot t team }, false)
prepared slot services target init healthy g team t (some t') =
    let whole = add_services t' services in
    (
      record { machines = renewed g whole; team = set_slot slot whole team },
      init target && healthy whole,
    )

started_machine :
    {os : Disk}
    → Slot
    → List FlowService
    → TargetInfo
    → (TargetInfo → Bool)
    → (TinyRangeInstance → Bool)
    → Team
    → Outcome (Machines os × Option TinyRangeInstance)
    → Outcome (Running os × Bool)
unfolding prepared team_variables
started_machine slot services target init healthy team panic = panic
started_machine slot services target init healthy team (ok (g, none)) =
    ok (record { machines = g; team = team }, false)
started_machine slot services target init healthy team (ok (g, some t)) = ok (
    prepared slot services target init healthy g team t
      (parse_instance_flows t (team_variables team.display_name)))

-- The next machine is started only if the one before it was.
after_it :
    {os : Disk}
    → Outcome (Running os × Bool)
    → (Running os → Outcome (Running os × Bool))
    → Outcome (Running os × Bool)
after_it panic next = panic
after_it (ok (r, false)) next = ok (r, false)
after_it (ok (r, true)) next = next r

-- The kind `none` asks for no health check.
no_check : HealthCheckKind → Bool
no_check kind_none = true
no_check kind_http = false
no_check kind_other = false

module _ (os : Disk) (sha256 : Bytes → Bytes) (wg : Wireguard) (dir vmm : Bytes) (verbose : Bool)
    (build : Bytes → Bytes → Option Bytes) (launch : List Bytes → Bool)
    (expand : Bytes → InitData → Option Bytes) (run : TargetInfo → Bytes → Option Bytes)
    (expand_url : TinyRangeInstance → Bytes → Option Bytes) (fetch : Bytes → Option HttpResponse)
    {F : Type 0} (config : Config F) where
  -- One of a team's machines: it is started, its flows are parsed, its services added, its init
  -- command run and its health checked.
  boot :
      ℕ
      → Slot
      → Bytes
      → Ip
      → InstanceConfig
      → List ServiceConfig
      → TargetInfo
      → (TinyRangeInstance → Bool)
      → Running os
      → Outcome (Running os × Bool)
  unfolding started_machine run_init_command service_of
  boot seed slot name ip instance_config services target healthy r =
      started_machine slot (map service_of services) target
        (run_init_command expand run config.vulnbox.init_template config.socbox.init_template
          r.team)
        healthy r.team
        (start_instance_from_config os sha256 wg dir vmm verbose build launch seed r.machines name
          ip instance_config)

  boot_team : ℕ → Running os → Outcome (Running os × Bool)
  unfolding boot no_check
  boot_team seed r =
      boot seed team_slot (codes "team_" ++ r.team.display_name) (team_ip r.team)
        config.vulnbox.instance_config config.vulnbox.services (info r.team)
        (λ t.
          no_check config.vulnbox.health_check.kind
          || health_check config.vulnbox.health_check (expand_url t) fetch)
        r

  boot_bot : ℕ → Running os → Outcome (Running os × Bool)
  unfolding boot
  boot_bot seed r =
      if config.vulnbox.bot.enabled
      then boot seed bot_slot (codes "team_" ++ r.team.display_name ++ codes "_bot") (bot_ip r.team)
          config.vulnbox.bot.instance_config config.vulnbox.services (bot_info r.team) (λ t. true) r
      else ok (r, true)

  boot_soc : ℕ → Running os → Outcome (Running os × Bool)
  unfolding boot
  boot_soc seed r =
      boot seed soc_slot (codes "team_" ++ r.team.display_name ++ codes "_soc") (soc_ip r.team)
        config.socbox.instance_config config.socbox.services (soc_info r.team) (λ t. true) r

  -- `Start`: whether it succeeded, and what it leaves. The seeds give the keys of the tunnels.
  unfoldable pub start_team : ℕ → ℕ → ℕ → Running os → Outcome (Running os × Bool)
  unfolding after_it boot_team boot_bot boot_soc
  start_team s1 s2 s3 r =
      after_it (after_it (boot_team s1 r) (λ r'. boot_bot s2 r')) (λ r'. boot_soc s3 r')
