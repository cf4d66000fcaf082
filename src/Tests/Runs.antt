-- ===== src/Tests/Runs.antt =====
-- A whole run, the SSH server and the public server on concrete inputs.
use tinyrange_ad.Common.{
  ℕ, [], ◌∷◌, ◌++◌, true, false, none, some, ◌≡◌, ◌≢◌, refl, pos, arith, length, ltb, if◌then◌else◌,
}
use tinyrange_ad.Common.Progress.{reached, Step, and_then, need}
use tinyrange_ad.Common.Outcome.{ok, panic}
use tinyrange_ad.Common.Text.{codes, eqb, split}
use tinyrange_ad.Common.Dict.{lookup, insert, modify}
use tinyrange_ad.Common.Int.{quot, wrap64, ◌+ℤ◌, ◌-ℤ◌}
use tinyrange_ad.Flow.{parse_flows}
use tinyrange_ad.Flow.Router.{add_instance, new_flow_router}
use tinyrange_ad.Tags.{parse_tags}
use tinyrange_ad.Game.{Game, update_service}
use tinyrange_ad.Config.{total_ticks}
use tinyrange_ad.Score.{summarize_state, accumulate, number, compare_points}
use tinyrange_ad.Instance.{
  TinyRangeInstance, ensure_template_cached, parse_instance_flows, tiny_range_flow_instance,
  add_services,
}
use tinyrange_ad.Instance.Machines.{start_instance_from_config}
use tinyrange_ad.Persist.Database.{ensure_path, for_each}
use tinyrange_ad.Services.{host_instance}
use tinyrange_ad.Scorebot.{start_scorebot, wait}
use tinyrange_ad.Team.Running.Started.{AllBooted}
use tinyrange_ad.Team.Running.{start_team}
use tinyrange_ad.Tick.{begin_tick, note_answers, fresh_board, fresh_services}
use tinyrange_ad.Tick.Clock.{ticker_fired, start_game, firings}
use tinyrange_ad.Wireguard.Configs.{add_endpoint}
use tinyrange_ad.Device.{load_devices}
use tinyrange_ad.Run.{Host, World, RunConfig, event_queue, new_wireguard_router}
use tinyrange_ad.Run.Steps.{run, open_host, prepare, new_game}
use tinyrange_ad.Run.Steps.Ended.{run-ended, run-ssh_channel}
use tinyrange_ad.Ssh.{NewChannel, requested_name, ssh_channel}
use tinyrange_ad.Ssh.Requests.{put_uint32}
use tinyrange_ad.Team.{bot_id}
use tinyrange_ad.Tests.Starts.{no_machines}
use tinyrange_ad.Tests.{game, config, instance_config, alpha, crypto, whole}
use tinyrange_ad.Tests.Sorting.{sorter, insertion_sort}
use tinyrange_ad.Tests.Stores.{disk, json, tunnels}
use tinyrange_ad.Tests.Devices.{hash}

abbrev setup : RunConfig ℕ
setup = record {
  config = record config {
    vulnbox = record config.vulnbox { bot = record config.vulnbox.bot { enabled = true } };
  };
  score_bot = record {
    instance_config = instance_config;
    services = [];
    checks = [];
    health_check_command = [];
  };
  wait_for_start = false;
}

abbrev world : World ℕ
world = record {
  listen_ip = codes "127.0.0.1";
  external_ip = codes "127.0.0.1";
  public_port = pos 5100;
  router_mtu = pos 0;
  ssh_server = codes ":2222";
  key = some 7;
  salt = some (codes "s");
  public_listens = true;
  ssh_listens = true;
  seeds = λ n. n;
  replies = none ∷ some (codes "healthy") ∷ [];
  start_comes = true;
  persist_dir = codes "db";
  vmm_path = codes "vmm";
  verbose = false;
  sha256 = hash;
  json = json;
  build = λ name ram. some (codes "t" ++ 10 ∷ []);
  launch = λ args. true;
  expand = λ template d. some template;
  run_command = λ target command. some (codes "success" ++ 10 ∷ []);
  expand_url = λ t u. some u;
  fetch = λ u. none;
}

abbrev running : Step (Host disk tunnels × Game ℕ ℕ)
running = run disk tunnels whole sorter crypto setup world (alpha ∷ []) [] (ticker_fired ∷ [])

abbrev or_nothing : Step (Host disk tunnels × Game ℕ ℕ) → Host disk tunnels × Game ℕ ℕ
or_nothing (ok (reached r)) = r
or_nothing _ = (
  record { machines = no_machines; devices = []; events = []; scorebot = none; teams = [] },
  game,
)

runs : running ≡ ok (reached (or_nothing running))
unfolding run start_game begin_tick total_ticks quot note_answers update_service lookup fresh_board
    insert fresh_services wrap64 ◌+ℤ◌ summarize_state accumulate modify number insertion_sort
    compare_points ◌-ℤ◌ start_team start_instance_from_config ensure_template_cached add_instance
    split eqb add_endpoint ensure_path parse_instance_flows parse_flows parse_tags
    tiny_range_flow_instance add_services event_queue and_then need load_devices start_scorebot wait
    open_host new_wireguard_router new_flow_router prepare for_each host_instance new_game bot_id
runs = refl

run-ended_example :
    AllBooted true (alpha ∷ []) (or_nothing running).0.teams
    × ((or_nothing running).0.scorebot ≢ none)
    × (length (or_nothing running).1.ticks
        ≡ (if ltb (firings (ticker_fired ∷ [])) 10 then firings (ticker_fired ∷ []) else 10))
    × ((or_nothing running).1.running ≡ false)
unfolding total_ticks quot
run-ended_example =
    run-ended disk tunnels whole sorter crypto setup world (alpha ∷ []) [] (ticker_fired ∷ []) 10
      (or_nothing running).0 (or_nothing running).1 runs refl (ground arith)

-- A channel to the machine of the team, with the name written before 4 bytes of port and origin.
abbrev channel : NewChannel
channel = record {
  channel_type = codes "direct-tcpip";
  extra_data = put_uint32 10 ++ (codes "team_alpha" ++ (0 ∷ 0 ∷ 0 ∷ 22 ∷ []));
  accepts = true;
}

name_read : requested_name channel.extra_data ≡ ok (codes "team_alpha")
unfolding requested_name put_uint32
name_read = refl

run-ssh_channel_example :
    (t : TinyRangeInstance) × ((or_nothing running).0.scorebot ≡ some t)
    × (ssh_channel
          (or_nothing running).0.machines.flow
          (some (tiny_range_flow_instance t))
          (or_nothing running).0.teams
          (λ i s. true)
          channel
        ≢ panic)
run-ssh_channel_example =
    run-ssh_channel disk tunnels whole sorter crypto setup world (alpha ∷ []) [] (ticker_fired ∷ [])
      (or_nothing running).0 (or_nothing running).1 (λ i s. true) channel (codes "team_alpha") runs
      name_read
