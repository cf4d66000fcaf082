-- ===== src/Game.antt =====
-- The game's scoring state, cmd/ad/game.go: flag submission and the scoreboard over the ticks.
pub mod Submit
pub mod Once
pub mod Theft
pub mod FirstTick
pub mod Answers
use tinyrange_ad.Common.{
  ℕ, suc, ◌+◌, List, [], ◌∷◌, ◌++◌, Bool, true, false, not, ◌&&◌, ◌||◌, Option, none, some,
  if◌then◌else◌, ℤ, pos, length, map,
}
use tinyrange_ad.Common.Int.{◌-ℤ◌, ◌+ℤ◌, ltb_ℤ, ◌==ℤ◌, wrap64}
use tinyrange_ad.Common.Dict.{lookup, insert, modify, int_eq}
use tinyrange_ad.Common.Outcome.{Outcome, ok, panic, ◌>>=◌, deref}
use tinyrange_ad.Common.Text.{Bytes, codes}
use tinyrange_ad.Config.{Config, ServiceConfig, total_ticks, flag_valid_ticks}
use tinyrange_ad.Flag.{Crypto, FlagGenerator, signer_public, verify}
use tinyrange_ad.Team.{Team, TargetInfo, bot_id}
use tinyrange_ad.Score.{
  Float, SortFunc, FlagInfo, ServiceState, TeamState, ScoreboardState, new_service, new_team,
  summarize_state,
}

pub data FlagStatus : Type 0 where
  game_not_running flag_accepted flag_already_stolen flag_expired flag_not_yet_valid : FlagStatus
  flag_from_own_team invalid_flag invalid_service invalid_team : FlagStatus

-- What the client is sent.
unfoldable pub status_text : FlagStatus → Bytes
status_text game_not_running = codes "GAME_NOT_RUNNING"
status_text flag_accepted = codes "FLAG_ACCEPTED"
status_text flag_already_stolen = codes "FLAG_ALREADY_STOLEN"
status_text flag_expired = codes "FLAG_EXPIRED"
status_text flag_not_yet_valid = codes "FLAG_NOT_YET_VALID"
status_text flag_from_own_team = codes "FLAG_FROM_OWN_TEAM"
status_text invalid_flag = codes "INVALID_FLAG"
status_text invalid_service = codes "INVALID_SERVICE"
status_text invalid_team = codes "INVALID_TEAM"

-- The fields of `AttackDefenseGame` that scoring reads and writes; `K` is the type of signing keys.
-- `none` is a nil pointer.
pub record Game (F K : Type 0) : Type 0 where
  pub config : Config F
  pub signer : K
  pub flag_gen : FlagGenerator
  pub current_tick : ℤ
  pub teams : List Team
  pub running : Bool
  pub current_state : Option (ScoreboardState F)
  pub ticks : List (ScoreboardState F)
  pub overall_state : Option (ScoreboardState F)

unfoldable pub has_flag : ℤ → ℤ → List FlagInfo → Bool
has_flag team tick [] = false
has_flag team tick (f ∷ flags) =
    f.team_id ==ℤ team && f.tick_id ==ℤ tick || has_flag team tick flags

module _ {F : Type 0} where
  -- `state.Teams[id].Services[service].StolenFlags`; a missing entry is a nil pointer.
  unfoldable pub stolen_in : ScoreboardState F → ℤ → ℤ → Outcome (List FlagInfo)
  stolen_in board id service = deref (lookup id board.teams) >>= λ team.
      deref (lookup service team.services) >>= λ s. ok s.stolen_flags

  -- An append to one list of one service of one team.
  unfoldable pub add_stolen : FlagInfo → ServiceState F → ServiceState F
  add_stolen f s = record s { stolen_flags = s.stolen_flags ++ f ∷ [] }

  unfoldable pub add_lost : FlagInfo → ServiceState F → ServiceState F
  add_lost f s = record s { lost_flags = s.lost_flags ++ f ∷ [] }

  unfoldable pub update_service :
      ℤ → ℤ → (ServiceState F → ServiceState F) → ScoreboardState F → Outcome (ScoreboardState F)
  update_service id service f board = deref (lookup id board.teams) >>= λ team.
      deref (lookup service team.services) >>= λ s. ok (record board {
        teams = modify id (λ t. record t { services = modify service f t.services }) board.teams;
      })

  module _ {K : Type 0} where
    -- `flagsStolenBy`.
    unfoldable pub flags_stolen_by : Game F K → TargetInfo → ℤ → Outcome (List FlagInfo)
    unfolding stolen_in
    flags_stolen_by game info service = deref game.overall_state >>= λ overall.
        stolen_in overall info.id service >>= λ before. deref game.current_state >>= λ current.
        stolen_in current info.id service >>= λ now. ok (before ++ now)

    -- The last lines of `submitFlag`: the theft is noted on both sides.
    unfoldable pub record_theft :
        Game F K → TargetInfo → ℤ → ℤ → ℤ → Outcome (FlagStatus × Game F K)
    unfolding update_service add_stolen add_lost
    record_theft game info tick team service = deref game.current_state >>= λ current.
        update_service info.id service (add_stolen (record { team_id = team; tick_id = tick }))
          current
        >>= λ noted.
            update_service team service (add_lost (record { team_id = info.id; tick_id = tick }))
              noted
            >>= λ both. ok (flag_accepted, record game { current_state = some both })

    -- `submitFlag` from the test of the service's tick on.
    unfoldable pub check_tick : Game F K → TargetInfo → ℤ → ℤ → ℤ → Outcome (FlagStatus × Game F K)
    check_tick game info tick team service = deref game.current_state >>= λ current.
        flag_valid_ticks game.config >>= λ valid.
        if ltb_ℤ tick (wrap64 (current.tick -ℤ valid))
        then ok (flag_expired, game)
        else if ltb_ℤ current.tick tick
        then ok (flag_not_yet_valid, game)
        else (flags_stolen_by game info service >>= λ stolen.
            if has_flag team tick stolen
            then ok (flag_already_stolen, game)
            else record_theft game info tick team service)

    unfoldable pub check_flag : Game F K → TargetInfo → ℤ × ℤ × ℤ → Outcome (FlagStatus × Game F K)
    unfolding check_tick
    check_flag game info (tick, team, service) =
        if team ==ℤ info.id
        then ok (flag_from_own_team, game)
        else if (ltb_ℤ service (pos 0)
            || not (ltb_ℤ service (pos (length game.config.vulnbox.services))))
        then ok (invalid_service, game)
        else check_tick game info tick team service

-- `submitFlag`. The mutex makes it one step.
unfoldable pub submit_flag :
    {F : Type 0} (c : Crypto)
    → Game F c.PrivateKey
    → TargetInfo
    → Bytes
    → Outcome (FlagStatus × Game F c.PrivateKey)
unfolding check_flag
submit_flag c game info flag =
    if not game.running
    then ok (game_not_running, game)
    else elim (verify c game.flag_gen (signer_public c game.signer) flag) [
      | none ↦ ok (invalid_flag, game)
      | some ids ↦ check_flag game info ids
    ]
