-- ===== src/Services.antt =====
-- The services of the host, cmd/ad/services.go, with the game's side as an instance of the flow
-- router and `teamFromTag` of cmd/ad/game.go.
pub mod Attribution
pub mod Sessions
use tinyrange_ad.Common.{
  ℕ, List, [], ◌∷◌, ◌++◌, Bool, true, false, not, ◌||◌, ◌&&◌, ◌==◌, ltb, Option, none, some,
  if◌then◌else◌, ℤ, pos, length, map,
}
use tinyrange_ad.Common.Outcome.{Outcome, ok, ◌>>=◌}
use tinyrange_ad.Common.Text.{Bytes, codes, eqb, has_prefix, trim_prefix, split}
use tinyrange_ad.Tags.{TagList}
use tinyrange_ad.Net.{host_ip}
use tinyrange_ad.Flow.Router.{FlowService, FlowInstance}
use tinyrange_ad.Flag.{Crypto}
use tinyrange_ad.Team.{Team, TargetInfo, info, bot_info}
use tinyrange_ad.Game.{Game, submit_flag, status_text}

-- `hostService` as the router sees it.
unfoldable pub flag_submission : FlowService
flag_submission = record {
  name = codes "flag_submission";
  port = pos 5000;
  tags = codes "public" ∷ [];
}

unfoldable pub internal_web : FlowService
internal_web = record { name = codes "web"; port = pos 80; tags = codes "public" ∷ [] }

unfoldable pub ping_service : FlowService
ping_service = record { name = codes "ping"; port = pos 8080; tags = codes "public" ∷ [] }

-- The methods of `FlowInstance` of the game.
unfoldable pub host_instance : FlowInstance
host_instance = record {
  hostname = codes "host";
  tags = codes "public/host" ∷ [];
  address = host_ip;
  services = internal_web ∷ ping_service ∷ flag_submission ∷ [];
  flows = [];
}

-- What the ping service writes.
unfoldable pub pong : Bytes
pong = codes "pong" ++ 10 ∷ []

-- The first team of the name.
unfoldable pub team_named : List Team → Bytes → Option Team
team_named [] name = none
team_named (t ∷ teams) name = if eqb t.display_name name then some t else team_named teams name

with_bot : Bool → Option Team → Option (Team × Bool)
with_bot bot none = none
with_bot bot (some t) = some (t, bot)

-- `teamFromTag`, with `none` for its errors.
unfoldable pub team_from_tag : List Team → Bytes → Option (Team × Bool)
unfolding with_bot trim_prefix
team_from_tag teams tag =
    if has_prefix tag (codes "team/")
    then with_bot false (team_named teams (trim_prefix tag (codes "team/")))
    else if has_prefix tag (codes "bot/")
    then with_bot true (team_named teams (trim_prefix tag (codes "bot/")))
    else if has_prefix tag (codes "device/")
    then with_bot false (team_named teams (trim_prefix tag (codes "device/")))
    else none

unfoldable pub is_team_tag : Bytes → Bool
is_team_tag tag =
    has_prefix tag (codes "team/")
    || (has_prefix tag (codes "bot/") || has_prefix tag (codes "device/"))

-- `teamFromFlowInstance`: the first tag that names a team decides, also where it is an error.
unfoldable pub team_from_flow_instance : List Team → TagList → Option (Team × Bool)
unfolding is_team_tag team_from_tag
team_from_flow_instance teams [] = none
team_from_flow_instance teams (tag ∷ tags) =
    if is_team_tag tag then team_from_tag teams tag else team_from_flow_instance teams tags

unfoldable pub session_info : Team × Bool → TargetInfo
session_info (t, bot) = if bot then bot_info t else info t

-- The lines that `bufio.Scanner` reads: without the line end, a carriage return before it included.
drop_cr : Bytes → Bytes
drop_cr [] = []
drop_cr (c ∷ []) = if c == 13 then [] else c ∷ []
drop_cr (c ∷ d ∷ s) = c ∷ drop_cr (d ∷ s)

-- An empty text behind the last line end is no line, and a line that fills the scanner's buffer of
-- 65536 bytes ends the reading.
scanned : List Bytes → List Bytes
unfolding drop_cr
scanned [] = []
scanned ([] ∷ []) = []
scanned (line ∷ lines) =
    let rest = scanned lines in if ltb (length line) 65536 then drop_cr line ∷ rest else []

unfoldable pub scan_lines : Bytes → List Bytes
unfolding scanned
scan_lines input = scanned (split input 10)

module _ {F : Type 0} (c : Crypto) where
  -- The loop of the flag submission service over the lines, with what it writes for each.
  unfoldable pub answer_lines :
      Game F c.PrivateKey → TargetInfo → List Bytes → Outcome (List Bytes × Game F c.PrivateKey)
  answer_lines game sender [] = ok ([], game)
  answer_lines game sender (flag ∷ flags) = submit_flag c game sender flag >>= λ r.
      answer_lines r.1 sender flags >>= λ rest. ok ((status_text r.0 ++ 10 ∷ []) ∷ rest.0, rest.1)

  session :
      Game F c.PrivateKey
      → Option (Team × Bool)
      → Bytes
      → Outcome (List Bytes × Game F c.PrivateKey)
  unfolding scan_lines answer_lines session_info
  session game none input = ok ([], game)
  session game (some who) input = answer_lines game (session_info who) (scan_lines input)

  -- A connection to the flag submission service from a source with the tags, that sends the input.
  unfoldable pub accept_flags :
      Game F c.PrivateKey → TagList → Bytes → Outcome (List Bytes × Game F c.PrivateKey)
  unfolding session team_from_flow_instance
  accept_flags game tags input = session game (team_from_flow_instance game.teams tags) input
