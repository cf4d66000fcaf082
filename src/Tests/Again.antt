-- ===== src/Tests/Again.antt =====
-- A flag that is submitted again in the next tick.
use tinyrange_ad.Common.{ℕ, List, [], ◌∷◌, some, ◌≡◌, ◌≢◌, refl, ◌∙◌, pos, inr}
use tinyrange_ad.Common.Text.{Bytes}
use tinyrange_ad.Common.Dict.{insert, lookup, modify}
use tinyrange_ad.Common.Int.{quot, wrap64, ◌+ℤ◌, ◌-ℤ◌}
use tinyrange_ad.Common.Outcome.{Outcome, ok}
use tinyrange_ad.Config.{total_ticks, flag_valid_ticks}
use tinyrange_ad.Flag.{signer_public, verify}
use tinyrange_ad.Score.{ScoreboardState, summarize_state, accumulate, number, compare_points}
use tinyrange_ad.Team.{info}
use tinyrange_ad.Game.{
  Game, flag_accepted, flag_already_stolen, submit_flag, check_flag, record_theft, flags_stolen_by,
  has_flag,
}
use tinyrange_ad.Game.Once.{submit_flag-check_flag}
use tinyrange_ad.Tick.{begin_tick, fresh_board, fresh_services}
use tinyrange_ad.Tick.Recorded.{ticked, done, next}
use tinyrange_ad.Tick.Again.{submit_flag-once}
use tinyrange_ad.Tests.{whole, crypto, alpha, game, board, config}
use tinyrange_ad.Tests.Sorting.{sorter, insertion_sort}
use tinyrange_ad.Tests.Submissions.{flag, verified, game_after}

abbrev board_of : Outcome (ScoreboardState ℕ) → ScoreboardState ℕ
board_of (ok b) = b
board_of _ = board

abbrev total : ScoreboardState ℕ
total = board_of (summarize_state whole sorter config (board ∷ []))

is_total : summarize_state whole sorter config (board ∷ []) ≡ ok total
unfolding summarize_state accumulate number insertion_sort compare_points ◌-ℤ◌ wrap64 insert lookup
is_total = refl

abbrev before : Game ℕ ℕ
before = record game { overall_state = some total }

abbrev after : Game ℕ ℕ
after = record game_after { overall_state = some total }

accepted : submit_flag crypto before (info alpha) flag ≡ ok (flag_accepted, after)
unfolding check_flag info flag_valid_ticks wrap64 ◌-ℤ◌ quot flags_stolen_by lookup has_flag
    record_theft modify summarize_state accumulate number insertion_sort compare_points insert
accepted =
    submit_flag-check_flag crypto before (info alpha) flag (pos 2) (pos 1) (pos 0) refl verified
    ∙ refl

abbrev game_of : Outcome (Game ℕ ℕ × List Bytes) → Game ℕ ℕ
game_of (ok r) = r.0
game_of _ = game

abbrev later : Game ℕ ℕ
later = game_of (begin_tick whole sorter after)

begins : begin_tick whole sorter after ≡ ok (later, [])
unfolding begin_tick total_ticks quot wrap64 fresh_board ◌+ℤ◌ insert fresh_services summarize_state
    accumulate number insertion_sort compare_points ◌-ℤ◌ lookup
begins = refl

again : submit_flag crypto later (info alpha) flag ≡ ok (flag_already_stolen, later)
unfolding begin_tick total_ticks quot wrap64 fresh_board ◌+ℤ◌ insert fresh_services summarize_state
    accumulate number insertion_sort compare_points ◌-ℤ◌ lookup check_flag info flag_valid_ticks
    flags_stolen_by has_flag record_theft modify
again =
    submit_flag-check_flag crypto later (info alpha) flag (pos 2) (pos 1) (pos 0) refl verified
    ∙ refl

submit_flag-once_example : (flag_already_stolen ≢ flag_accepted) × (later ≡ later)
unfolding begin_tick total_ticks quot summarize_state accumulate signer_public verify insert lookup
    number insertion_sort compare_points wrap64 ◌-ℤ◌
submit_flag-once_example =
    submit_flag-once whole sorter crypto before after later later (info alpha) flag flag
      flag_already_stolen (inr (total, refl, is_total)) accepted (next (ticked [] begins) done) refl
      again
