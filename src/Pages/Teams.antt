-- ===== src/Pages/Teams.antt =====
-- The pages of the server for the teams, cmd/ad/private.go: the home page and the vulnbox page.
use tinyrange_ad.Common.{
  List, [], ◌∷◌, ◌++◌, Bool, false, true, Option, none, some, if◌then◌else◌, pos, map,
}
use tinyrange_ad.Common.Outcome.{Outcome, ok, ◌>>=◌}
use tinyrange_ad.Common.Text.{Bytes, codes}
use tinyrange_ad.Common.Decimal.{itoa}
use tinyrange_ad.Net.{Ip, ip_string}
use tinyrange_ad.Team.{Team, team_ip, bot_ip, soc_ip}
use tinyrange_ad.Config.{ServiceConfig}
use tinyrange_ad.Htm.{Fragment, text}
use tinyrange_ad.Htm.Elements.{div, link, id_attr, p, strong, code}
use tinyrange_ad.Htm.Forms.{form, field_text, string_value}
use tinyrange_ad.Htm.Htmx.{post, target}
use tinyrange_ad.Htm.Bootstrap.{card, card_title, table, form_field, submit_button}
use tinyrange_ad.Pages.{private_page_layout, private_page_error}

service_url : Ip → ServiceConfig → Bytes
service_url ip s = codes "http://" ++ ip_string ip ++ codes ":" ++ itoa s.service_port

service_link : Ip → ServiceConfig → Fragment
unfolding service_url
service_link ip s = let url = service_url ip s in link url (text url ∷ [])

unfoldable pub team_header : List ServiceConfig → List ServiceConfig → List Fragment
team_header vulnbox socbox =
    text (codes "Name") ∷ text (codes "IP") ∷ map (λ s. text s.service_name) vulnbox
    ++ map (λ s. text s.service_name) socbox

team_row : List ServiceConfig → List ServiceConfig → Team → List Fragment
unfolding service_link
team_row vulnbox socbox t =
    text t.display_name ∷ text (ip_string (team_ip t)) ∷ map (service_link (team_ip t)) vulnbox
    ++ map (service_link (soc_ip t)) socbox

bot_row : List ServiceConfig → Team → List Fragment
unfolding service_link
bot_row vulnbox t =
    text (t.display_name ++ codes " Bot")
    ∷ text (ip_string (bot_ip t))
    ∷ map (service_link (bot_ip t)) vulnbox

-- The rows of the home page: each team's, and its bot's behind it where bots are enabled.
unfoldable pub team_rows :
    List ServiceConfig → List ServiceConfig → Bool → List Team → List (List Fragment)
unfolding team_row bot_row
team_rows vulnbox socbox bots [] = []
team_rows vulnbox socbox bots (t ∷ teams) =
    let rest = team_rows vulnbox socbox bots teams in
    team_row vulnbox socbox t ∷ (if bots then bot_row vulnbox t ∷ rest else rest)

-- What `GetSSHConfig` gives of a team, and the fingerprint of its public key, of package ssh;
-- `none` is an error of either.
pub record SshAccess : Type 0 where
  pub password : Bytes
  pub fingerprint : Bytes

fact : Bytes → Bytes → List Fragment
fact name value = text name ∷ code (text value ∷ []) ∷ []

access_card : Team → SshAccess → Fragment
unfolding fact table
access_card t access = card (
    card_title t.display_name
    ∷ p (
        strong (text (codes "SSH Command: ") ∷ [])
        ∷ code (text (codes "ssh -p 2222 root@" ++ ip_string (team_ip t)) ∷ [])
        ∷ [])
    ∷ table []
        (fact (codes "IP") (ip_string (team_ip t))
          ∷ fact (codes "Port") (itoa (pos 2222))
          ∷ fact (codes "Username") (codes "root")
          ∷ fact (codes "Password") access.password
          ∷ fact (codes "Fingerprint") access.fingerprint
          ∷ [])
        []
    ∷ [])

-- The cards of the vulnbox page: a team whose keys cannot be read is passed over.
unfoldable pub access_cards : (Team → Option SshAccess) → List Team → List Fragment
unfolding access_card
access_cards access [] = []
access_cards access (t ∷ teams) =
    let rest = access_cards access teams in
    elim (access t) [ some a ↦ access_card t a ∷ rest | none ↦ rest ]

module _ (sources : List Fragment) (game_title : Bytes) where
  -- The home page, for the random id of the field.
  unfoldable pub home_page :
      List ServiceConfig → List ServiceConfig → Bool → List Team → Bytes → Outcome Fragment
  unfolding team_header team_rows table form_field private_page_layout
  home_page vulnbox socbox bots teams field_id =
      form_field field_id (codes "Flag") (codes "flag")
        (record {
          kind = field_text;
          value = string_value [];
          placeholder = [];
          required = true;
          label_same_line = false;
          options = [];
        })
        []
      >>= λ field. ok (
          private_page_layout sources game_title (codes "Home") (
            card (
              card_title (codes "Teams")
              ∷ table (team_header vulnbox socbox) (team_rows vulnbox socbox bots teams) []
              ∷ [])
            ∷ card (
                card_title (codes "Submit Flag")
                ∷ form (
                    id_attr (codes "flag-form")
                    ∷ post (codes "/api/flag")
                    ∷ target (codes "flag-result")
                    ∷ field
                    ∷ submit_button (codes "Submit") (codes "btn-primary") []
                    ∷ [])
                ∷ div (id_attr (codes "flag-result") ∷ [])
                ∷ [])
            ∷ []))

  unfoldable pub vulnbox_page : (Team → Option SshAccess) → List Team → Fragment
  unfolding access_cards private_page_layout
  vulnbox_page access teams =
      private_page_layout sources game_title (codes "Vulnbox") (access_cards access teams)

  -- `GET /scoreboard` of this server.
  unfoldable pub team_scoreboard_page : Option Fragment → Fragment
  unfolding private_page_layout private_page_error
  team_scoreboard_page none = private_page_error sources game_title (codes "game has not started")
  team_scoreboard_page (some board) =
      private_page_layout sources game_title (codes "Scoreboard") (board ∷ [])
