-- ===== src/Tests/Servers.antt =====
-- The server for the teams on a concrete connection.
use tinyrange_ad.Common.{ℕ, List, [], ◌∷◌, ◌++◌, none, ◌≡◌, refl, pos}
use tinyrange_ad.Common.Outcome.{ok}
use tinyrange_ad.Common.Text.{codes, eqb}
use tinyrange_ad.Flag.{generate}
use tinyrange_ad.Game.{status_text, flag_accepted}
use tinyrange_ad.Api.Replies.{Reply, body, post_flag}
use tinyrange_ad.Services.{team_from_flow_instance, team_named}
use tinyrange_ad.Private.{TeamContent, TeamLook, status, submit_form, accept_web}
use tinyrange_ad.Private.Steps.{Served, accept_web-Served}
use tinyrange_ad.Tests.{crypto, whole, game}
use tinyrange_ad.Tests.Sorting.{sorter}
use tinyrange_ad.Tests.Submissions.{flag, game_after, accepts}

abbrev look : TeamLook ℕ
look = record {
  sources = [];
  game_title = codes "game";
  scoreboard_fragment = λ board. none;
  access = λ t. none;
  checks = pos 0 ∷ [];
  field_id = codes "id";
}

abbrev replies : List (Reply (TeamContent ℕ))
replies = body (status (status_text flag_accepted ++ 10 ∷ [])) ∷ []

serves :
    accept_web crypto look game (codes "team/alpha" ∷ []) (submit_form flag ∷ [])
    ≡ ok (replies, game_after)
unfolding accept_web post_flag team_from_flow_instance eqb team_named status_text generate
serves = rw (accepts) refl

accept_web-Served_example :
    Served whole sorter crypto look
      (codes "team/alpha" ∷ [])
      (submit_form flag ∷ [])
      replies
      game
      game_after
accept_web-Served_example =
    accept_web-Served whole sorter crypto look game game_after (codes "team/alpha" ∷ [])
      (submit_form flag ∷ []) replies serves
