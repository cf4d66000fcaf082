-- ===== src/Run/Events.antt =====
-- The events of a game: `RunEvent`, and the callbacks that `Run` registers, cmd/ad/game.go.
use tinyrange_ad.Common.{
  List, [], ◌∷◌, Bool, true, false, ◌&&◌, Option, none, some, if◌then◌else◌, ◌≡◌, ◌↔◌, refl, sym,
  ◌∙◌, ap, All, arith,
}
use tinyrange_ad.Common.Outcome.{Outcome, ok, ◌>>=◌, >>=-eq-ok}
use tinyrange_ad.Common.Text.{Bytes, codes}
use tinyrange_ad.Game.Theft.{ok_injective}
use tinyrange_ad.Config.{EventDefinition}
use tinyrange_ad.Flow.Router.{FlowInstance}
use tinyrange_ad.Team.{Team, info, bot_info}
use tinyrange_ad.Team.Commands.{BotData, run_bot_command}
use tinyrange_ad.Tick.{run_event, remove_event}
use tinyrange_ad.Persist.Database.{Disk}
use tinyrange_ad.Wireguard.{Wireguard}
use tinyrange_ad.Run.{Host, Callback, bot_event, start_event}

module _ (os : Disk) (wg : Wireguard) {S : Type 0} (expand : Bytes → BotData S → Option Bytes)
    (run : FlowInstance → Bytes → Option Bytes) (seconds : S) where
  -- The command of an event on a team's bot.
  unfoldable pub bot_command : EventDefinition → Team → Outcome Bool
  bot_command ev t =
      run_bot_command expand run seconds t.bot_instance (info t) (bot_info t) ev.command

  -- Whether the command succeeds on every bot. All are run.
  all_bots : EventDefinition → List Team → Outcome Bool
  unfolding bot_command
  all_bots ev [] = ok true
  all_bots ev (t ∷ teams) =
      bot_command ev t >>= λ here. all_bots ev teams >>= λ rest. ok (here && rest)

  -- A callback. In the background it succeeds at once, and errors are only logged.
  unfoldable pub call_back : Callback → Host os wg → Outcome (Bool × Host os wg)
  unfolding all_bots
  call_back (bot_event ev) h =
      if ev.background then ok (true, h) else (all_bots ev h.teams >>= λ r. ok (r, h))
  call_back start_event h = ok (true, record h { events = remove_event h.events (codes "start") })

  call_found : Host os wg → Option Callback → Outcome (Bool × Host os wg)
  unfolding call_back
  call_found h none = ok (false, h)
  call_found h (some callback) = call_back callback h

  -- `RunEvent` on the game: whether it succeeds.
  unfoldable pub run_named : Bytes → Host os wg → Outcome (Bool × Host os wg)
  unfolding call_found
  run_named name h = call_found h (run_event h.events name)

  all_bots_iff :
      (ev : EventDefinition) (teams : List Team)
      → (all_bots ev teams ≡ ok true) ↔ All (λ t. bot_command ev t ≡ ok true) teams
  unfolding all_bots
  all_bots_iff ev [] = (λ h. tt, λ h. refl)
  all_bots_iff ev (t ∷ teams) =
      let ih = all_bots_iff ev teams in
      (
        λ h.
            let (here, e, h1) = >>=-eq-ok (bot_command ev t) _ h in
            let (rest, f, h2) = >>=-eq-ok (all_bots ev teams) _ h1 in
            let both : (here && rest) ≡ true = ok_injective h2 in
            let own : here ≡ true = ground (arith, both) in
            let others : rest ≡ true = ground (arith, both) in
            (e ∙ ap ok own, ih.0 (f ∙ ap ok others)),
        λ h. rw (h.0, ih.1 h.1) refl,
      )

  -- An event of the bots that does not run in the background succeeds exactly if its command does on
  -- the bot of every team, and it changes nothing.
  run_named_iff :
      (name : Bytes) (h : Host os wg) (ev : EventDefinition)
      → run_event h.events name ≡ some (bot_event ev)
      → ev.background ≡ false
      → (run_named name h ≡ ok (true, h)) ↔ All (λ t. bot_command ev t ≡ ok true) h.teams
  unfolding run_named call_found call_back
  run_named_iff name h ev known foreground =
      let step : run_named name h ≡ (all_bots ev h.teams >>= λ r. ok (r, h)) =
        ap (call_found h) known ∙ rw foreground refl in
      let each = all_bots_iff ev h.teams in
      (
        λ e.
            let (r, f, g) = >>=-eq-ok (all_bots ev h.teams) _ (sym step ∙ e) in
            let won : r ≡ true = ap (λ p. p.0) (ok_injective g) in each.0 (f ∙ ap ok won),
        λ fine. step ∙ rw (each.1 fine) refl,
      )
