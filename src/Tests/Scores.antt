-- ===== src/Tests/Scores.antt =====
-- Scoreboards and ids on concrete inputs.
use mathlib.Core.List.{foldl}
use tinyrange_ad.Common.{ℕ, List, [], ◌∷◌, ◌≡◌, ◌≢◌, refl, ℤ, pos, arith, map}
use tinyrange_ad.Common.Text.{codes}
use tinyrange_ad.Common.Outcome.{ok}
use tinyrange_ad.Score.{
  accumulate, rank, score_teams, set_team_overall_score, TeamState, ScoreboardState,
}
use tinyrange_ad.Score.Totals.{team_data, sum, accumulate-sum}
use tinyrange_ad.Score.Ranking.{Ranked, rank-Ranked}
use tinyrange_ad.Score.Points.{counted, rescored, set_team_overall_score-sum}
use tinyrange_ad.Team.{info, bot_info, soc_info}
use tinyrange_ad.Team.Ids.{ids_apart}
use tinyrange_ad.Tests.{whole, config, alpha, beta, state_of, board}
use tinyrange_ad.Tests.Sorting.{sorter}

accumulate-sum_example :
    team_data (pos 1) (pos 0) (accumulate 0 (board ∷ board ∷ [])).teams
    ≡ sum (map (λ t. team_data (pos 1) (pos 0) t.teams) (board ∷ board ∷ []))
accumulate-sum_example = accumulate-sum 0 (board ∷ board ∷ []) (pos 1) (pos 0) (ground arith)

set_team_overall_score-sum_example :
    set_team_overall_score whole config (state_of (codes "alpha"))
    ≡ ok (record (state_of (codes "alpha")) {
      points =
          foldl whole.add whole.zero_f (counted whole config (state_of (codes "alpha")).services);
      services = rescored whole config (state_of (codes "alpha")).services;
    })
set_team_overall_score-sum_example =
    set_team_overall_score-sum whole config (state_of (codes "alpha")) (ground arith)

abbrev placed : TeamState ℕ
placed = record (state_of (codes "alpha")) { services = []; points = 0 }

abbrev small_board : ScoreboardState ℕ
small_board = record { tick = pos 1; teams = (pos 0, placed) ∷ [] }

rank-Ranked_example :
    (teams : List (ℤ × TeamState ℕ)) × (rank whole sorter config small_board
      ≡ ok (record small_board { teams = teams }))
    × Ranked whole ((pos 0, placed) ∷ []) teams
unfolding score_teams
rank-Ranked_example =
    rank-Ranked whole sorter config small_board ((pos 0, placed) ∷ []) refl (ground arith)

ids_apart_example :
    ((info alpha).id ≢ (bot_info beta).id)
    × ((info alpha).id ≢ (soc_info beta).id)
    × ((bot_info alpha).id ≢ (soc_info beta).id)
ids_apart_example = ids_apart alpha beta (omega arith) (omega arith)
