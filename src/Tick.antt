-- ===== src/Tick.antt =====
-- The game's clock, cmd/ad/game.go: what a tick does to the scoreboard, which events it runs, and
-- how the goroutines of `ForAllTeams` end.
pub mod Again
pub mod Boards
pub mod Clock
pub mod Recorded
pub mod Taken
pub mod Waiting
pub mod Timed
pub mod Playable
use mathlib.Core.List.{foldl}
use tinyrange_ad.Common.{
  ℕ, suc, ◌+◌, List, [], ◌∷◌, ◌++◌, Bool, true, false, Option, none, some, if◌then◌else◌, ℤ, pos,
  length, ltb, ◌||◌, ◌&&◌, not,
}
use tinyrange_ad.Common.Int.{◌-ℤ◌, ◌+ℤ◌, ltb_ℤ, ◌==ℤ◌, wrap64}
use tinyrange_ad.Common.Dict.{lookup, insert, delete, int_eq, bytes_eq}
use tinyrange_ad.Common.Outcome.{Outcome, ok, panic, ◌>>=◌, deref}
use tinyrange_ad.Common.Text.{Bytes, codes}
use tinyrange_ad.Config.{Config, ServiceConfig, TimelineEvent, total_ticks, event_tick}
use tinyrange_ad.Score.{
  Float, SortFunc, ServiceState, TeamState, ScoreboardState, new_service, new_team, summarize_state,
}
use tinyrange_ad.Team.{Team, TargetInfo, bot_id, info, bot_info}
use tinyrange_ad.Game.{Game, update_service}

-- `AddTeam`: the id is the place in the list.
unfoldable pub add_team : List Team → Bytes → List Team
add_team teams name =
    teams
    ++ record {
      id = length teams;
      display_name = name;
      team_instance = none;
      soc_instance = none;
      bot_instance = none;
    }
      ∷ []

module _ {F : Type 0} (z : F) where
  -- `make(map[int]*ServiceState)`, filled by index from `i` on.
  unfoldable pub fresh_services :
      ℕ → List ServiceConfig → List (ℤ × ServiceState F) → List (ℤ × ServiceState F)
  fresh_services i [] acc = acc
  fresh_services i (s ∷ services) acc =
      fresh_services (suc i) services (insert (pos i) (new_service z s.service_name) acc)

  unfoldable pub fresh_team : Config F → Bool → Bytes → TeamState F
  fresh_team config is_bot name = record (new_team z is_bot name) {
    services = fresh_services 0 config.vulnbox.services [];
  }

  -- One round of the loop over the teams.
  unfoldable pub add_fresh : Config F → List (ℤ × TeamState F) → Team → List (ℤ × TeamState F)
  unfolding fresh_team
  add_fresh config acc team =
      let own = insert (pos team.id) (fresh_team config false team.display_name) acc in
      if config.vulnbox.bot.enabled
      then insert (pos (bot_id team)) (fresh_team config true (team.display_name ++ codes "_bot"))
          own
      else own

  -- The state that `updateScoreboard` starts a tick with.
  unfoldable pub fresh_board : Config F → ℤ → List Team → ScoreboardState F
  unfolding add_fresh
  fresh_board config tick teams = record { tick = tick; teams = foldl (add_fresh config) [] teams }

-- The answers of the scorebot in the order in which they come: the target, the service's id, and
-- whether the check succeeded.
abbrev pub Answer : Type 0
Answer = ℤ × ℤ × Bool

module _ {F : Type 0} where
  -- The names of the events that a tick runs. The queue is the configured timeline, which `Run` has
  -- sorted in place.
  unfoldable pub due_events : Config F → ℤ → List TimelineEvent → Outcome (List Bytes)
  due_events config tick [] = ok []
  due_events config tick (ev ∷ queue) = event_tick config ev >>= λ at.
      due_events config tick queue >>= λ rest. ok (if at ==ℤ tick then ev.event ∷ rest else rest)

  -- The counter that an answer of the scorebot adds to.
  abbrev pub count_check : Bool → ServiceState F → ServiceState F
  count_check true s = record s { successful = s.successful + 1 }
  count_check false s = record s { failed = s.failed + 1 }

  unfoldable pub count_answers : List Answer → ScoreboardState F → Outcome (ScoreboardState F)
  count_answers [] board = ok board
  count_answers ((id, service, success) ∷ answers) board =
      update_service id service (count_check success) board >>= λ counted.
      count_answers answers counted

module _ (fl : Float) (sorter : SortFunc) {K : Type 0} where
  open fl use {F, zero_f}

  -- The first `if` of `updateScoreboard`: the current state is summed up and joins the others.
  unfoldable pub close_tick : Game F K → Option (ScoreboardState F) → Outcome (Game F K)
  close_tick game none = ok game
  close_tick game (some current) = summarize_state fl sorter game.config (current ∷ []) >>= λ done.
      summarize_state fl sorter game.config (game.ticks ++ done ∷ []) >>= λ overall.
      ok (record game { ticks = game.ticks ++ done ∷ []; overall_state = some overall })

  -- `updateScoreboard`.
  unfoldable pub update_scoreboard : Game F K → Outcome (Game F K)
  unfolding close_tick
  update_scoreboard game = close_tick game game.current_state >>= λ closed. ok (record closed {
    current_state = some (fresh_board zero_f game.config game.current_tick game.teams);
  })

  -- `Tick` up to the scorebot's checks: the new state, and the events that are run.
  unfoldable pub begin_tick : Game F K → Outcome (Game F K × List Bytes)
  unfolding update_scoreboard due_events
  begin_tick game = total_ticks game.config >>= λ total.
      if not (ltb_ℤ game.current_tick total)
      then ok (game, [])
      else (update_scoreboard (record game { current_tick = wrap64 (game.current_tick +ℤ pos 1) })
          >>= λ fresh. due_events game.config fresh.current_tick game.config.timeline >>= λ events.
              ok (fresh, events))

module _ {F K : Type 0} where
  -- The checks of `Tick`.
  unfoldable pub note_answers : List Answer → Game F K → Outcome (Game F K)
  unfolding count_answers
  note_answers answers game = deref game.current_state >>= λ current.
      count_answers answers current >>= λ counted. ok (record game { current_state = some counted })

-- The calls that `ForAllTeams` makes, in the order in which their goroutines are started.
unfoldable pub targets : Bool → List Team → List TargetInfo
targets bots [] = []
targets bots (team ∷ teams) =
    let rest = targets bots teams in
    if bots then info team ∷ bot_info team ∷ rest else info team ∷ rest

-- How `ForAllTeams` ends when it waits: `blocked` is a send on the full channel of errors, which
-- nothing reads before all the calls are done.
pub data Waited : Type 0 where
  succeeded failed blocked : Waited

unfoldable pub failures : (TargetInfo → Bool) → List TargetInfo → ℕ
failures fails [] = 0
failures fails (t ∷ ts) = let rest = failures fails ts in if fails t then suc rest else rest

unfoldable pub for_all_teams : Bool → Bool → List Team → (TargetInfo → Bool) → Waited
unfolding targets failures
for_all_teams include_bots bot_enabled teams fails =
    let errors = failures fails (targets (include_bots && bot_enabled) teams) in
    if ltb (length teams) errors then blocked else if ltb 0 errors then failed else succeeded

module _ {E : Type 0} where
  -- `AddEvent` and `RemoveEvent`.
  unfoldable pub add_event : List (Bytes × E) → Bytes → E → List (Bytes × E)
  add_event events name run = insert name run events

  unfoldable pub remove_event : List (Bytes × E) → Bytes → List (Bytes × E)
  remove_event events name = delete name events

  -- `RunEvent`: the callback that is run, `none` for a name that is not there.
  unfoldable pub run_event : List (Bytes × E) → Bytes → Option E
  run_event events name = lookup name events
