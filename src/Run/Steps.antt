-- ===== src/Run/Steps.antt =====
-- The steps of `Run` of cmd/ad/game.go in their order.
pub mod Ready
pub mod Ended
use tinyrange_ad.Common.{
  ℕ, suc, ◌+◌, List, [], ◌∷◌, ◌++◌, Bool, true, false, not, ◌&&◌, Option, none, some, if◌then◌else◌,
  ℤ, pos, length, ltb,
}
use tinyrange_ad.Common.Int.{◌-ℤ◌, ◌==ℤ◌, wrap64, quot}
use tinyrange_ad.Common.Progress.{Progress, failed, waiting, reached, Step, and_then, need}
use tinyrange_ad.Common.Outcome.{Outcome, ok, panic, ◌>>=◌}
use tinyrange_ad.Common.Text.{Bytes, codes, eqb}
use tinyrange_ad.Common.Dict.{insert, bytes_eq}
use tinyrange_ad.Common.Decimal.{itoa}
use tinyrange_ad.Net.{scorebot_ip}
use tinyrange_ad.Config.{Config, EventDefinition, TimelineEvent}
use tinyrange_ad.Flag.{Crypto, new_flag_generator}
use tinyrange_ad.Flow.Router.{new_flow_router, add_instance, FlowRouter}
use tinyrange_ad.Score.{Float, SortFunc}
use tinyrange_ad.Team.{Team, TargetInfo}
use tinyrange_ad.Game.{Game}
use tinyrange_ad.Tick.{add_event, remove_event}
use tinyrange_ad.Tick.Clock.{Moment, start_game}
use tinyrange_ad.Persist.Database.{Disk, Codec}
use tinyrange_ad.Wireguard.{Wireguard, WireguardRouter}
use tinyrange_ad.Wireguard.Configs.{WireguardInstance}
use tinyrange_ad.Device.{Device, DeviceConfig, Devices, load_devices}
use tinyrange_ad.Instance.{TinyRangeInstance, tiny_range_flow_instance, HttpResponse}
use tinyrange_ad.Instance.Machines.{Machines, set_last, start_instance_from_config}
use tinyrange_ad.Scorebot.{ScoreBotConfig, start_scorebot, wait}
use tinyrange_ad.Services.{host_instance}
use tinyrange_ad.Team.Commands.{InitData}
use tinyrange_ad.Team.Running.{Running, start_team}
use tinyrange_ad.Run.{
  Callback, bot_event, start_event, Host, new_wireguard_router, frontend_url, bot_events,
  event_queue, World, RunConfig,
}

module _ (os : Disk) (wg : Wireguard) {F K : Type 0} (setup : RunConfig F) (w : World K) where
  open setup use {config}

  -- The servers and the events, for the teams and the file system at the beginning.
  opened : List Team → os.State → WireguardRouter → FlowRouter → Progress (Host os wg)
  unfolding bot_events
  opened teams disk router flow =
      if not w.public_listens
      then failed
      else if not (eqb w.ssh_server []) && not w.ssh_listens
      then failed
      else reached (record {
        machines = record {
          templates = [];
          instances = [];
          flow = flow;
          router = router;
          disk = disk;
        };
        devices = [];
        events = if config.vulnbox.bot.enabled then bot_events config.vulnbox.bot.events [] else [];
        scorebot = none;
        teams = teams;
      })

  unfoldable pub open_host : List Team → os.State → Step (Host os wg)
  unfolding opened need frontend_url
  open_host teams disk =
      let mtu = if w.router_mtu ==ℤ pos 0 then pos 1420 else w.router_mtu in
      and_then
        (ok (
          need (
            new_wireguard_router w.listen_ip w.external_ip mtu
              (frontend_url w.listen_ip w.public_port) w.salt)))
        (λ router.
          and_then (ok (need (add_instance new_flow_router host_instance)))
            (λ flow. ok (opened teams disk router flow)))

  with_devices : Host os wg → Option (Devices os wg) → Progress (Host os wg)
  with_devices h none = failed
  with_devices h (some d) = reached (record h {
    machines = record h.machines { flow = d.flow; router = d.router; disk = d.disk };
    devices = d.devices;
  })

  load : Host os wg → Step (Host os wg)
  unfolding with_devices
  load h = ok (
      with_devices h (
        load_devices os w.json w.persist_dir w.sha256 wg config.device (record {
          devices = h.devices;
          flow = h.machines.flow;
          router = h.machines.router;
          disk = h.machines.disk;
        })))

  with_scorebot : Host os wg → Option TinyRangeInstance → Progress (Host os wg)
  with_scorebot h none = failed
  with_scorebot h (some t) = reached (record h {
    machines = record h.machines {
      instances = set_last t h.machines.instances;
      flow = insert t.name (tiny_range_flow_instance t) h.machines.flow;
    };
    scorebot = some t;
  })

  booted : Host os wg → Machines os × Option TinyRangeInstance → Progress (Host os wg)
  unfolding with_scorebot
  booted h (g, none) = failed
  booted h (g, some t) =
      with_scorebot (record h { machines = g }) (start_scorebot setup.score_bot t)

  boot_scorebot : Host os wg → Step (Host os wg)
  unfolding booted
  boot_scorebot h =
      start_instance_from_config os w.sha256 wg w.persist_dir w.vmm_path w.verbose w.build w.launch
        (w.seeds 0) h.machines (codes "scorebot") scorebot_ip setup.score_bot.instance_config
      >>= λ r. ok (booted h r)

  healthy : Host os wg → Option ℕ → Progress (Host os wg)
  healthy h none = waiting
  healthy h (some tries) = reached h

  wait_scorebot : Host os wg → Step (Host os wg)
  unfolding healthy
  wait_scorebot h = ok (healthy h (wait w.replies))

  -- The starts of all teams, one after the other; the code runs them side by side.
  unfoldable pub start_each : ℕ → Machines os → List Team → Outcome (Machines os × List Team × Bool)
  start_each n g [] = ok (g, [], true)
  start_each n g (t ∷ teams) =
      start_team os w.sha256 wg w.persist_dir w.vmm_path w.verbose w.build w.launch w.expand
        w.run_command w.expand_url w.fetch config (w.seeds n) (w.seeds (n + 1)) (w.seeds (n + 2))
        (record { machines = g; team = t })
      >>= λ r. start_each (n + 3) r.0.machines teams >>= λ rest.
          ok (rest.0, r.0.team ∷ rest.1, r.1 && rest.2)

  with_teams : Host os wg → Machines os × List Team × Bool → Progress (Host os wg)
  with_teams h (g, teams, false) = failed
  with_teams h (g, teams, true) = reached (record h { machines = g; teams = teams })

  start_teams : Host os wg → Step (Host os wg)
  unfolding start_each with_teams
  start_teams h = start_each 1 h.machines h.teams >>= λ r. ok (with_teams h r)

  -- The event that starts the game removes itself.
  await_start : Host os wg → Step (Host os wg)
  await_start h =
      if not setup.wait_for_start
      then ok (reached h)
      else if not w.start_comes
      then ok waiting
      else ok (
          reached (record h {
            events = remove_event (add_event h.events (codes "start") start_event) (codes "start");
          }))

  -- What `Run` does between the sort of the timeline and the clock.
  unfoldable pub prepare : Host os wg → Step (Host os wg)
  unfolding load boot_scorebot wait_scorebot start_teams await_start
  prepare h0 = and_then (load h0) (λ h1.
      and_then (boot_scorebot h1) (λ h2.
        and_then (wait_scorebot h2) (λ h3. and_then (start_teams h3) (λ h4. await_start h4))))

  -- The game as the clock finds it, with the sorted timeline.
  unfoldable pub new_game : K → List TimelineEvent → Host os wg → Game F K
  new_game key queue h = record {
    config = record config { timeline = queue };
    signer = key;
    flag_gen = new_flag_generator (codes "flag{") (codes "}");
    current_tick = pos 0;
    teams = h.teams;
    running = false;
    current_state = none;
    ticks = [];
    overall_state = none;
  }

module _ (os : Disk) (wg : Wireguard) (fl : Float) (sorter : SortFunc) (c : Crypto) where
  open fl use {F}

  clock_ends : Host os wg → Outcome (Game F c.PrivateKey) → Step (Host os wg × Game F c.PrivateKey)
  clock_ends h game = game >>= λ g. ok (reached (h, g))

  with_key :
      RunConfig F
      → World c.PrivateKey
      → List Team
      → os.State
      → List Moment
      → Option c.PrivateKey
      → Step (Host os wg × Game F c.PrivateKey)
  unfolding clock_ends
  with_key setup w teams disk moments none = ok failed
  with_key setup w teams disk moments (some key) =
      and_then (open_host os wg setup w teams disk) (λ h0.
        event_queue sorter setup.config.tick_rate setup.config.timeline >>= λ queue.
        and_then (prepare os wg setup w h0)
          (λ h. clock_ends h (start_game fl sorter c moments (new_game os wg setup w key queue h))))

  -- `Run`, for what happens while the clock runs.
  unfoldable pub run :
      RunConfig F
      → World c.PrivateKey
      → List Team
      → os.State
      → List Moment
      → Step (Host os wg × Game F c.PrivateKey)
  unfolding with_key
  run setup w teams disk moments = with_key setup w teams disk moments w.key
