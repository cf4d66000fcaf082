-- ===== src/Game/FirstTick.antt =====
-- `submitFlag` before any tick is over, when the overall state is still nil.
use tinyrange_ad.Common.{true, false, none, some, ℤ, pos, length, ◌≡◌, ◌≢◌, ◌∙◌}
use tinyrange_ad.Common.Int.{◌-ℤ◌, ◌≤ℤ◌, ltb_ℤ, wrap64}
use tinyrange_ad.Common.Outcome.{ok, panic}
use tinyrange_ad.Common.Text.{Bytes}
use tinyrange_ad.Config.{flag_valid_ticks}
use tinyrange_ad.Flag.{Crypto, signer_public, verify}
use tinyrange_ad.Team.{TargetInfo}
use tinyrange_ad.Score.{ScoreboardState}
use tinyrange_ad.Game.{Game, flags_stolen_by, check_tick, submit_flag}
use tinyrange_ad.Game.Once.{check_flag-check_tick, submit_flag-check_flag}

flags_stolen_by-panic :
    {F K : Type 0} (game : Game F K) (info : TargetInfo) (service : ℤ)
    → game.overall_state ≡ none
    → flags_stolen_by game info service ≡ panic
unfolding flags_stolen_by
flags_stolen_by-panic game info service h = simp h

check_tick-panic :
    {F K : Type 0} (game : Game F K) (info : TargetInfo) (tick team service valid : ℤ)
    (current : ScoreboardState F)
    → game.current_state ≡ some current
    → flag_valid_ticks game.config ≡ ok valid
    → ltb_ℤ tick (wrap64 (current.tick -ℤ valid)) ≡ false
    → ltb_ℤ current.tick tick ≡ false
    → game.overall_state ≡ none
    → check_tick game info tick team service ≡ panic
unfolding check_tick
check_tick-panic game info tick team service valid current e1 e2 e3 e4 h =
    simp (e1, e2, e3, e4, flags_stolen_by-panic game info service h)

-- While no tick is over, a flag that passes every test up to the one for a second theft does not get
-- an answer: the submission panics.
pub submit_flag-panic :
    {F : Type 0} (c : Crypto) (game : Game F c.PrivateKey) (info : TargetInfo) (flag : Bytes)
    (tick team service valid : ℤ) (current : ScoreboardState F)
    → game.running ≡ true
    → verify c game.flag_gen (signer_public c game.signer) flag ≡ some (tick, team, service)
    → team ≢ info.id
    → pos 0 ≤ℤ service
    → ltb_ℤ service (pos (length game.config.vulnbox.services)) ≡ true
    → game.current_state ≡ some current
    → flag_valid_ticks game.config ≡ ok valid
    → ltb_ℤ tick (wrap64 (current.tick -ℤ valid)) ≡ false
    → ltb_ℤ current.tick tick ≡ false
    → game.overall_state ≡ none
    → submit_flag c game info flag ≡ panic
submit_flag-panic c game info flag tick team service valid current runs good other low high e1 e2 e3
      e4 h =
    submit_flag-check_flag c game info flag tick team service runs good
    ∙ check_flag-check_tick game info tick team service other low high
    ∙ check_tick-panic game info tick team service valid current e1 e2 e3 e4 h
