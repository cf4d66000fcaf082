-- ===== src/Run.antt =====
-- The whole run of a game, `Run` of cmd/ad/game.go: what is started in which order, up to the end of
-- the clock.
pub mod Steps
pub mod Queue
pub mod Events
use tinyrange_ad.Common.{
  ℕ, suc, ◌+◌, List, [], ◌∷◌, ◌++◌, Bool, true, false, not, ◌&&◌, Option, none, some, if◌then◌else◌,
  ℤ, pos, length, ltb,
}
use tinyrange_ad.Common.Int.{◌-ℤ◌, ◌==ℤ◌, wrap64, quot}
use tinyrange_ad.Common.Progress.{Progress, Step}
use tinyrange_ad.Common.Outcome.{Outcome, ok, panic, ◌>>=◌}
use tinyrange_ad.Common.Text.{Bytes, codes, eqb}
use tinyrange_ad.Common.Dict.{insert, bytes_eq}
use tinyrange_ad.Common.Decimal.{itoa}
use tinyrange_ad.Net.{scorebot_ip}
use tinyrange_ad.Config.{Config, EventDefinition, TimelineEvent}
use tinyrange_ad.Flag.{Crypto, new_flag_generator}
use tinyrange_ad.Flow.Router.{new_flow_router, add_instance, FlowRouter}
use tinyrange_ad.Score.{Float, SortFunc}
use tinyrange_ad.Team.{Team, TargetInfo}
use tinyrange_ad.Game.{Game}
use tinyrange_ad.Tick.{add_event, remove_event}
use tinyrange_ad.Tick.Clock.{Moment, start_game}
use tinyrange_ad.Persist.Database.{Disk, Codec}
use tinyrange_ad.Wireguard.{Wireguard, WireguardRouter}
use tinyrange_ad.Wireguard.Configs.{WireguardInstance}
use tinyrange_ad.Device.{Device, DeviceConfig, Devices, load_devices}
use tinyrange_ad.Instance.{TinyRangeInstance, tiny_range_flow_instance, HttpResponse}
use tinyrange_ad.Instance.Machines.{Machines, start_instance_from_config}
use tinyrange_ad.Scorebot.{ScoreBotConfig, start_scorebot, wait}
use tinyrange_ad.Services.{host_instance}
use tinyrange_ad.Team.Commands.{InitData}
use tinyrange_ad.Team.Running.{Running, start_team}

-- The callback of an event: a command of a bot, or the start of the game.
pub data Callback : Type 0 where
  bot_event : EventDefinition → Callback
  start_event : Callback

-- What `Run` keeps besides the clock's state.
pub record Host (os : Disk) (wg : Wireguard) : Type 0 where
  pub machines : Machines os
  pub devices : List (Device × WireguardInstance wg)
  pub events : List (Bytes × Callback)
  pub scorebot : Option TinyRangeInstance
  pub teams : List Team

-- `NewWireguardRouter`; no salt is the failure of the random source.
unfoldable pub new_wireguard_router :
    Bytes → Bytes → ℤ → Bytes → Option Bytes → Option WireguardRouter
new_wireguard_router listen external mtu url none = none
new_wireguard_router listen external mtu url (some salt) = some (record {
  listen_address = listen;
  external_address = external;
  mtu = mtu;
  server_url = url;
  config_salt = salt;
  configs = [];
})

-- `FrontendUrl`.
unfoldable pub frontend_url : Bytes → ℤ → Bytes
frontend_url ip port = codes "http://" ++ (ip ++ (b':' ∷ itoa port))

-- The events of the bots.
unfoldable pub bot_events :
    List (Bytes × EventDefinition) → List (Bytes × Callback) → List (Bytes × Callback)
bot_events [] events = events
bot_events ((name, ev) ∷ evs) events =
    bot_events evs (add_event events (codes "bot/" ++ name) (bot_event ev))

-- The order of the timeline. The ticks are divisions by the tick rate.
unfoldable pub queue_order : ℤ → TimelineEvent → TimelineEvent → ℤ
queue_order rate a b = wrap64 (quot a.at rate -ℤ quot b.at rate)

-- The sort compares only where there are two events.
unfoldable pub event_queue : SortFunc → ℤ → List TimelineEvent → Outcome (List TimelineEvent)
unfolding queue_order
event_queue sorter rate timeline =
    if rate ==ℤ pos 0 && ltb 1 (length timeline)
    then panic
    else ok (sorter.sort (queue_order rate) timeline)

-- What the program is started with, and what it finds outside: the servers that can listen, the keys
-- of the seeds, the answers of the scorebot's health check, whether the start event comes, and the
-- outside of a machine's start.
pub record World (K : Type 0) : Type 0 where
  pub listen_ip : Bytes
  pub external_ip : Bytes
  pub public_port : ℤ
  pub router_mtu : ℤ
  pub ssh_server : Bytes
  pub key : Option K
  pub salt : Option Bytes
  pub public_listens : Bool
  pub ssh_listens : Bool
  pub seeds : ℕ → ℕ
  pub replies : List (Option Bytes)
  pub start_comes : Bool
  pub persist_dir : Bytes
  pub vmm_path : Bytes
  pub verbose : Bool
  pub sha256 : Bytes → Bytes
  pub json : Codec DeviceConfig
  pub build : Bytes → Bytes → Option Bytes
  pub launch : List Bytes → Bool
  pub expand : Bytes → InitData → Option Bytes
  pub run_command : TargetInfo → Bytes → Option Bytes
  pub expand_url : TinyRangeInstance → Bytes → Option Bytes
  pub fetch : Bytes → Option HttpResponse

-- The configuration's own parts of `Run`: the scorebot, and whether to wait for the start event.
pub record RunConfig (F : Type 0) : Type 0 where
  pub config : Config F
  pub score_bot : ScoreBotConfig
  pub wait_for_start : Bool
