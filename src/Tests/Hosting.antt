-- ===== src/Tests/Hosting.antt =====
-- The host's services and handlers on concrete inputs.
use tinyrange_ad.Common.{[], ◌∷◌, ◌++◌, true, ◌≡◌, refl}
use tinyrange_ad.Common.Text.{Bytes, codes, eqb}
use tinyrange_ad.Common.Outcome.{ok}
use tinyrange_ad.Team.{info}
use tinyrange_ad.Game.{status_text, flag_accepted}
use tinyrange_ad.Services.{answer_lines, team_named, team_from_flow_instance}
use tinyrange_ad.Services.Attribution.{Decides, OneOf, Names, team_from_flow_instance-Names}
use tinyrange_ad.Services.Sessions.{Conversation, answer_lines-Conversation}
use tinyrange_ad.Tests.{crypto, game, alpha, beta}
use tinyrange_ad.Tests.Submissions.{flag, game_after, accepts}

accepted_line : Bytes
accepted_line = codes "FLAG_ACCEPTED" ++ 10 ∷ []

answered :
    answer_lines crypto game (info alpha) (flag ∷ [])
    ≡ ok ((status_text flag_accepted ++ 10 ∷ []) ∷ [], game_after)
unfolding answer_lines
answered = rw (accepts) refl

answer_lines-Conversation_example :
    Conversation crypto
      (info alpha)
      game
      (flag ∷ [])
      ((status_text flag_accepted ++ 10 ∷ []) ∷ [])
      game_after
answer_lines-Conversation_example =
    answer_lines-Conversation crypto game game_after (info alpha) (flag ∷ [])
      ((status_text flag_accepted ++ 10 ∷ []) ∷ []) answered

team_from_flow_instance-Names_example :
    (tag : Bytes) × Decides (codes "public/x" ∷ codes "bot/beta" ∷ []) tag
    × OneOf (alpha ∷ beta ∷ []) beta
    × Names tag beta true
unfolding team_from_flow_instance team_named eqb
team_from_flow_instance-Names_example =
    team_from_flow_instance-Names (alpha ∷ beta ∷ []) (codes "public/x" ∷ codes "bot/beta" ∷ [])
      beta true refl
