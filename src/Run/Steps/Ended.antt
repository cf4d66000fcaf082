-- ===== src/Run/Steps/Ended.antt =====
-- What holds once `Run` has come to the end of the clock.
use mathlib.Core.Path.{subst}
use tinyrange_ad.Common.{
  ℕ, List, Bool, false, Option, none, some, if◌then◌else◌, pos, length, ltb, ◌≡◌, ◌≢◌, refl, arith,
}
use tinyrange_ad.Common.Int.{Int64}
use tinyrange_ad.Common.Progress.{and_then-reached, reached_injective, reached}
use tinyrange_ad.Common.Outcome.{ok, panic, >>=-eq-ok}
use tinyrange_ad.Common.Text.{Bytes}
use tinyrange_ad.Config.{total_ticks, TimelineEvent}
use tinyrange_ad.Flag.{Crypto}
use tinyrange_ad.Flow.Router.{FlowInstance, FlowService}
use tinyrange_ad.Game.{Game}
use tinyrange_ad.Game.Theft.{ok_injective}
use tinyrange_ad.Score.{Float, SortFunc}
use tinyrange_ad.Team.{Team}
use tinyrange_ad.Team.Running.Started.{AllBooted, AllBooted-HasInstance}
use tinyrange_ad.Tick.Clock.{Moment, start_game, firings, start_game-ticks}
use tinyrange_ad.Persist.Database.{Disk}
use tinyrange_ad.Wireguard.{Wireguard}
use tinyrange_ad.Instance.{TinyRangeInstance, tiny_range_flow_instance}
use tinyrange_ad.Ssh.{NewChannel, requested_name, ssh_channel}
use tinyrange_ad.Ssh.Forwarding.{ssh_channel-returns}
use tinyrange_ad.Run.Steps.Ready.{Ready, prepare-Ready}
use tinyrange_ad.Run.{World, RunConfig, Host, event_queue}
use tinyrange_ad.Run.Steps.{prepare, new_game, open_host, opened, clock_ends, with_key, run}

module _ (os : Disk) (wg : Wireguard) (fl : Float) (sorter : SortFunc) (c : Crypto) where
  open fl use {F}

  -- What a run that comes to its end has gone through.
  record Ended (setup : RunConfig F) (w : World c.PrivateKey) (teams : List Team)
      (moments : List Moment) (h : Host os wg) (game : Game F c.PrivateKey) : Type 0 where
    key : c.PrivateKey
    queue : List TimelineEvent
    ready : Ready os wg setup w teams h
    clock : start_game fl sorter c moments (new_game os wg setup w key queue h) ≡ ok game

  open_host-teams :
      (setup : RunConfig F) (w : World c.PrivateKey) (teams : List Team) (disk : os.State)
      (h : Host os wg)
      → open_host os wg setup w teams disk ≡ ok (reached h)
      → h.teams ≡ teams
  unfolding open_host opened
  open_host-teams setup w teams disk h e =
      let (router, _, e1) = and_then-reached _ _ h e in
      let (flow, _, e2) = and_then-reached _ _ h e1 in ground (arith, e2)

  with_key-Ended :
      (setup : RunConfig F) (w : World c.PrivateKey) (teams : List Team) (disk : os.State)
      (moments : List Moment) (found : Option c.PrivateKey) (h : Host os wg)
      (game : Game F c.PrivateKey)
      → with_key os wg fl sorter c setup w teams disk moments found ≡ ok (reached (h, game))
      → Ended setup w teams moments h game
  unfolding with_key clock_ends
  with_key-Ended setup w teams disk moments none h game e = absurd (cc)
  with_key-Ended setup w teams disk moments (some key) h game e =
      let (h0, is_open, e1) = and_then-reached (open_host os wg setup w teams disk) _ (h, game) e in
      let (queue, _, e2) =
        >>=-eq-ok (event_queue sorter setup.config.tick_rate setup.config.timeline) _ e1 in
      let (h1, prepared, e3) = and_then-reached (prepare os wg setup w h0) _ (h, game) e2 in
      let (over, played, e4) =
        >>=-eq-ok (start_game fl sorter c moments (new_game os wg setup w key queue h1)) _ e3 in
      let both : (h1, over) ≡ (h, game) = reached_injective (ok_injective e4) in
      let built : Ended setup w teams moments h1 over = record {
        key = key;
        queue = queue;
        ready =
            subst (λ ts. Ready os wg setup w ts h1) (open_host-teams setup w teams disk h0 is_open)
              (prepare-Ready os wg setup w h0 h1 prepared);
        clock = played;
      } in
      subst (λ (x : Host os wg × Game F c.PrivateKey). Ended setup w teams moments x.0 x.1) both
        built

  -- A run that comes to the end of its clock has the teams that it was given, in their order, each
  -- with its own machine, the machine of its SOC and, if bots are enabled, the one of its bot, under
  -- the team's names; it has an instance of the scorebot, and has as many finished ticks as the ticker fired, up to the total number of ticks, if that is a
  -- 64-bit number.
  pub run-ended :
      (setup : RunConfig F) (w : World c.PrivateKey) (teams : List Team) (disk : os.State)
      (moments : List Moment) (total : ℕ) (h : Host os wg) (game : Game F c.PrivateKey)
      → run os wg fl sorter c setup w teams disk moments ≡ ok (reached (h, game))
      → total_ticks setup.config ≡ ok (pos total)
      → Int64 (pos total)
      → AllBooted setup.config.vulnbox.bot.enabled teams h.teams
        × (h.scorebot ≢ none)
        × (length game.ticks ≡ (if ltb (firings moments) total then firings moments else total))
        × (game.running ≡ false)
  unfolding run new_game total_ticks
  run-ended setup w teams disk moments total h game e is_total bounded =
      let ended = with_key-Ended setup w teams disk moments w.key h game e in
      let (ticks, _, over) =
        start_game-ticks fl sorter c total moments (new_game os wg setup w ended.key ended.queue h)
          game ended.clock is_total bounded refl refl refl in
      (ended.ready.teams_up, ended.ready.scorebot_up, ticks, over)

  some_there : {A : Type 0} (o : Option A) → o ≢ none → (a : A) × (o ≡ some a)
  some_there none h = absurd (h refl)
  some_there (some a) h = (a, refl)

  -- After a run that comes to the end of its clock, the SSH server answers every channel whose data
  -- holds a name: it does not crash.
  pub run-ssh_channel :
      (setup : RunConfig F) (w : World c.PrivateKey) (teams : List Team) (disk : os.State)
      (moments : List Moment) (h : Host os wg) (game : Game F c.PrivateKey)
      (connects : FlowInstance → FlowService → Bool) (channel : NewChannel) (name : Bytes)
      → run os wg fl sorter c setup w teams disk moments ≡ ok (reached (h, game))
      → requested_name channel.extra_data ≡ ok name
      → (t : TinyRangeInstance) × (h.scorebot ≡ some t)
        × (ssh_channel h.machines.flow (some (tiny_range_flow_instance t)) h.teams connects channel
            ≢ panic)
  unfolding run
  run-ssh_channel setup w teams disk moments h game connects channel name e is_name =
      let ready = (with_key-Ended setup w teams disk moments w.key h game e).ready in
      let (t, up) = some_there h.scorebot ready.scorebot_up in
      let inst = tiny_range_flow_instance t in
      (
        t,
        up,
        ssh_channel-returns h.machines.flow (some inst) h.teams connects channel name inst refl
            (AllBooted-HasInstance setup.config.vulnbox.bot.enabled teams h.teams ready.teams_up)
            is_name,
      )
