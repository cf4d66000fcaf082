-- ===== src/Private.antt =====
-- The server for the teams, cmd/ad/private.go, with the connections to it that the host's web service
-- of cmd/ad/services.go accepts.
pub mod Steps
use tinyrange_ad.Common.{
  ℕ, length, ltb, ◌&&◌, List, [], ◌∷◌, ◌++◌, Bool, true, false, Option, none, some, ℤ, pos,
}
use tinyrange_ad.Common.Outcome.{Outcome, ok, panic, ◌>>=◌}
use tinyrange_ad.Common.Text.{Bytes, codes}
use tinyrange_ad.Config.{SocboxConfig, flag_valid_ticks, get_service}
use tinyrange_ad.Tags.{TagList}
use tinyrange_ad.Flag.{Crypto}
use tinyrange_ad.Score.{ScoreboardState}
use tinyrange_ad.Team.{Team, TargetInfo}
use tinyrange_ad.Game.{Game}
use tinyrange_ad.Services.{team_from_flow_instance, session_info}
use tinyrange_ad.Api.{
  FlagIdApiResponse, ServiceApiResponse, TeamApiResponse, flag_ids, team_list, service_list,
}
use tinyrange_ad.Api.Replies.{Reply, body, http_error, redirect, post_flag, scoreboard_of_tick}
use tinyrange_ad.Htm.{Fragment}
use tinyrange_ad.Pages.Teams.{SshAccess, home_page, vulnbox_page, team_scoreboard_page}

-- The requests that have a handler. Every path that is not another handler's is the home page's.
pub data Reading : Type 0 where
  get_home get_flag_ids get_vulnbox get_teams get_services get_scoreboard get_scores : Reading
  get_tick : Bytes → Reading

pub data TeamRequest : Type 0 where
  reading : Reading → TeamRequest
  submit_form : Bytes → TeamRequest

-- What a body holds.
pub data TeamContent (F : Type 0) : Type 0 where
  page : Fragment → TeamContent F
  status : Bytes → TeamContent F
  flag_id_list : List FlagIdApiResponse → TeamContent F
  teams : List TeamApiResponse → TeamContent F
  services : List ServiceApiResponse → TeamContent F
  scores : Option (ScoreboardState F) → TeamContent F
  tick_scores : ScoreboardState F → TeamContent F

-- What the handlers use besides the game: the embedded files, the title, the page of a scoreboard,
-- the access to the machines, the ids of the scorebot's checks, and a random id.
pub record TeamLook (F : Type 0) : Type 0 where
  pub sources : List Fragment
  pub game_title : Bytes
  pub scoreboard_fragment : Option (ScoreboardState F) → Option Fragment
  pub access : Team → Option SshAccess
  pub checks : List ℤ
  pub field_id : Bytes

map_body : {A B : Type 0} → (A → B) → Reply A → Reply B
map_body f (body a) = body (f a)
map_body f (http_error code message) = http_error code message
map_body f (redirect target) = redirect target

or_error : {A B : Type 0} → ℕ → Bytes → (A → B) → Option A → Reply B
or_error code message f none = http_error code message
or_error code message f (some a) = body (f a)

is_found : {A : Type 0} → Option A → Bool
is_found none = false
is_found (some a) = true

module _ (c : Crypto) {F : Type 0} (look : TeamLook F) where
  -- The ticks for which a flag is valid are asked for once there is a team and a first check with a
  -- service.
  asks_ticks : Game F c.PrivateKey → List ℤ → Bool
  unfolding is_found
  asks_ticks game [] = false
  asks_ticks game (check ∷ checks) =
      ltb 0 (length game.teams) && is_found (get_service game.config.vulnbox.services check)

  valid_ticks : Game F c.PrivateKey → Bool → Outcome ℤ
  valid_ticks game true = flag_valid_ticks game.config
  valid_ticks game false = ok (pos 0)

  -- The answer of a request that changes nothing.
  read_page : Game F c.PrivateKey → Option TargetInfo → Reading → Outcome (Reply (TeamContent F))
  unfolding map_body or_error asks_ticks valid_ticks
  read_page game player get_home =
      home_page look.sources look.game_title game.config.vulnbox.services
        game.config.socbox.services game.config.vulnbox.bot.enabled game.teams look.field_id
      >>= λ f. ok (body (page f))
  read_page game player get_flag_ids = valid_ticks game (asks_ticks game look.checks) >>= λ valid.
      ok (
        or_error 500 (codes "check doesn't have corresponding service") (λ l. flag_id_list l)
          (flag_ids c game.flag_gen game.signer game.current_tick valid game.config.vulnbox.services
            look.checks game.teams))
  read_page game player get_vulnbox =
      ok (body (page (vulnbox_page look.sources look.game_title look.access game.teams)))
  read_page game player get_teams =
      ok (or_error 404 (codes "team not found") (λ l. teams l) (team_list player game.teams))
  read_page game player get_services =
      ok (body (services (service_list game.config.vulnbox.services)))
  read_page game player get_scoreboard = ok (
      body (
        page (
          team_scoreboard_page look.sources look.game_title
            (look.scoreboard_fragment game.overall_state))))
  read_page game player get_scores = ok (body (scores game.overall_state))
  read_page game player (get_tick text) =
      scoreboard_of_tick game.ticks text >>= λ r. ok (map_body (λ b. tick_scores b) r)

  -- The handler of a request, for the team of the connection.
  unfoldable pub answer_team :
      Game F c.PrivateKey
      → Option TargetInfo
      → TeamRequest
      → Outcome (Reply (TeamContent F) × Game F c.PrivateKey)
  unfolding read_page map_body
  answer_team game player (submit_form flag) =
      post_flag c game player flag >>= λ r. ok (map_body (λ s. status s) r.0, r.1)
  answer_team game player (reading r) = read_page game player r >>= λ reply. ok (reply, game)

  -- The requests of a connection, one after the other.
  unfoldable pub answer_all :
      Game F c.PrivateKey
      → Option TargetInfo
      → List TeamRequest
      → Outcome (List (Reply (TeamContent F)) × Game F c.PrivateKey)
  unfolding answer_team
  answer_all game player [] = ok ([], game)
  answer_all game player (r ∷ rs) = answer_team game player r >>= λ first.
      answer_all first.1 player rs >>= λ rest. ok (first.0 ∷ rest.0, rest.1)

  of_team :
      Game F c.PrivateKey
      → Option (Team × Bool)
      → List TeamRequest
      → Outcome (List (Reply (TeamContent F)) × Game F c.PrivateKey)
  unfolding answer_all session_info
  of_team game none rs = ok ([], game)
  of_team game (some who) rs = answer_all game (some (session_info who)) rs

  -- A connection to the host's web service from a source with the tags.
  unfoldable pub accept_web :
      Game F c.PrivateKey
      → TagList
      → List TeamRequest
      → Outcome (List (Reply (TeamContent F)) × Game F c.PrivateKey)
  unfolding of_team
  accept_web game tags rs = of_team game (team_from_flow_instance game.teams tags) rs
