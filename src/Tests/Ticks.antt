-- ===== src/Tests/Ticks.antt =====
-- The clock on concrete inputs.
use tinyrange_ad.Common.{
  ℕ, List, ◌++◌, none, arith, [], ◌∷◌, Bool, true, false, some, ◌≡◌, refl, pos, inl, length, ltb,
  if◌then◌else◌,
}
use tinyrange_ad.Score.{summarize_state, accumulate, number, compare_points, ScoreboardState}
use tinyrange_ad.Team.{TargetInfo}
use tinyrange_ad.Game.{Game, update_service}
use tinyrange_ad.Tick.{
  blocked, for_all_teams, fresh_board, fresh_services, begin_tick, note_answers,
}
use tinyrange_ad.Tick.Recorded.{Recorded, Steps-Recorded, ticked, done, next}
use tinyrange_ad.Tick.Timed.{Timed, Steps-Timed}
use tinyrange_ad.Tick.Clock.{
  Moment, ticker_fired, checks_answered, start_game, firings, start_game-ticks,
}
use tinyrange_ad.Tick.Clock.Ends.{Ends}
use tinyrange_ad.Common.Outcome.{Outcome, ok, panic}
use tinyrange_ad.Common.Int.{quot, wrap64, ◌+ℤ◌, ◌-ℤ◌}
use tinyrange_ad.Common.Dict.{insert, lookup, modify}
use tinyrange_ad.Config.{total_ticks}
use tinyrange_ad.Tests.{whole, crypto, alpha, beta, game, board}
use tinyrange_ad.Tests.Sorting.{sorter, insertion_sort}

abbrev everything_fails : TargetInfo → Bool
everything_fails t = true

-- With the bots, and all four calls failing, the call does not end.
bots_block : for_all_teams true true (alpha ∷ beta ∷ []) everything_fails ≡ blocked
unfolding for_all_teams
bots_block = refl

-- Before the first tick, and in it.
abbrev opening : Game ℕ ℕ
opening = record game {
  current_tick = pos 0;
  current_state = none;
  ticks = [];
  overall_state = none;
}

abbrev opened : Game ℕ ℕ
opened = record opening {
  current_tick = pos 1;
  current_state = some (record board { tick = pos 1 });
}

begins : begin_tick whole sorter opening ≡ ok (opened, [])
unfolding begin_tick total_ticks quot wrap64 fresh_board ◌+ℤ◌ insert fresh_services
begins = refl

Steps-Recorded_example :
    Recorded whole sorter crypto opened
    × ((more : List (ScoreboardState ℕ)) × (opened.ticks ≡ opening.ticks ++ more))
    × (opened.config ≡ opening.config)
    × (opened.signer ≡ opening.signer)
Steps-Recorded_example =
    Steps-Recorded whole sorter crypto (next (ticked [] begins) done) (inl (refl, refl))

Steps-Timed_example : Timed (pos 10) opened
unfolding total_ticks quot
Steps-Timed_example =
    Steps-Timed whole sorter crypto (pos 10) (next (ticked [] begins) done) refl (ground arith)
      (record { low = ground arith; high = ground arith; board = inl refl })

-- The ticker fires twice, and a check of the first tick's service is answered between.
abbrev moments : List Moment
moments = ticker_fired ∷ checks_answered ((pos 1, pos 0, true) ∷ []) ∷ ticker_fired ∷ []

abbrev ended : Outcome (Game ℕ ℕ)
ended = start_game whole sorter crypto moments opening

abbrev game_of : Outcome (Game ℕ ℕ) → Game ℕ ℕ
game_of (ok g) = g
game_of panic = opening

ends : ended ≡ ok (game_of ended)
unfolding start_game begin_tick total_ticks quot note_answers update_service lookup fresh_board
    insert fresh_services wrap64 ◌+ℤ◌ summarize_state accumulate modify number insertion_sort
    compare_points ◌-ℤ◌
ends = refl

start_game-ticks_example :
    (length (game_of ended).ticks ≡ (if ltb (firings moments) 10 then firings moments else 10))
    × ((game_of ended).current_tick ≡ pos (length (game_of ended).ticks))
    × ((game_of ended).running ≡ false)
unfolding total_ticks quot
start_game-ticks_example =
    start_game-ticks whole sorter crypto 10 moments opening (game_of ended) ends refl (ground arith)
      refl refl refl
