-- ===== src/Pages/Admin.antt =====
-- The pages of the public server, cmd/ad/public.go: instances, events, devices, configuration and
-- the pages of the configuration. Random ids are arguments, one for each form.
use tinyrange_ad.Common.{List, [], ◌∷◌, ◌++◌, false, true, Option, none, some, map}
use tinyrange_ad.Common.Outcome.{Outcome, ok, ◌>>=◌}
use tinyrange_ad.Common.Text.{Bytes, codes}
use tinyrange_ad.Net.{ip_string}
use tinyrange_ad.Flow.Router.{FlowInstance}
use tinyrange_ad.Team.{Team}
use tinyrange_ad.Device.{WireguardDevice}
use tinyrange_ad.Htm.{Fragment, group, text, attr, nil, unsafe_raw_html, fragments}
use tinyrange_ad.Htm.Elements.{div, link, id_attr, strong, pre, code, hidden_form_field}
use tinyrange_ad.Htm.Forms.{form, form_target, field_text, field_select, string_value}
use tinyrange_ad.Htm.Bootstrap.{card, card_title, link_button, button, form_field, submit_button}
use tinyrange_ad.Pages.{public_page_layout, public_page_error}

instance_card : FlowInstance → Fragment
instance_card inst = div (
    card (
      card_title inst.hostname
      ∷ card_title (ip_string inst.address)
      ∷ link_button (codes "/connect/" ++ inst.hostname) (codes "btn-primary")
          (text (codes "Connect") ∷ [])
      ∷ [])
    ∷ [])

event_card : Bytes × Bytes → Fragment
event_card (id, event) = div (
    card (
      card_title event
      ∷ form (
          form_target (codes "POST") (codes "/api/event")
          ∷ hidden_form_field id (codes "name") event
          ∷ submit_button event (codes "btn-primary") []
          ∷ [])
      ∷ [])
    ∷ [])

device_card : WireguardDevice → Fragment
device_card d = div (
    card (
      card_title d.name
      ∷ div (strong (text (codes "IP Address:") ∷ []) ∷ text (ip_string d.ip) ∷ [])
      ∷ div (link d.config_url (text (codes "Wireguard client config") ∷ []) ∷ [])
      ∷ [])
    ∷ [])

-- `renderPage` for the pages of the configuration: a path without a page is a nil fragment, and a
-- page that `render` cannot read an error. `render` reads the file and is the Markdown library.
unfoldable pub render_page_body : (Bytes → Option Bytes) → Option Bytes → Option Fragment
render_page_body render none = some nil
render_page_body render (some path) = elim (render path) [
  | none ↦ none
  | some body ↦ some (unsafe_raw_html body)
]

module _ (sources : List Fragment) (game_title : Bytes) where
  -- `GET /instances`.
  unfoldable pub instances_page : List FlowInstance → Fragment
  unfolding instance_card public_page_layout
  instances_page instances =
      public_page_layout sources game_title (codes "Instances") (map instance_card instances)

  -- `GET /connect/{instance}`: `found` is whether the name is that of an instance, and the styles
  -- and scripts of the terminal are arguments.
  unfoldable pub connect_page : List Fragment → List Fragment → Option Bytes → Bytes → Fragment
  unfolding public_page_layout public_page_error
  connect_page before after (some message) name = public_page_error sources game_title message
  connect_page before after none name = public_page_layout sources game_title (codes "Connect") (
      group (
        fragments (
          before
          ++ button (codes "btn-dark")
              (text (codes "Toggle Fill Screen") ∷ id_attr (codes "fillScreen") ∷ [])
            ∷ div (
                id_attr (codes "terminal")
                ∷ attr (codes "data-connect") (codes "/api/connect/" ++ name)
                ∷ [])
            ∷ after))
      ∷ [])

  -- `GET /events`: each event with the random id of its form's field.
  unfoldable pub events_page : List (Bytes × Bytes) → Fragment
  unfolding event_card public_page_layout
  events_page events =
      public_page_layout sources game_title (codes "Events") (map event_card events)

  -- `GET /devices`, for the random ids of the two fields.
  unfoldable pub devices_page : Bytes → Bytes → List WireguardDevice → List Team → Outcome Fragment
  unfolding device_card form_field public_page_layout
  devices_page name_id team_id devices teams =
      form_field name_id (codes "Name") (codes "name")
        (record {
          kind = field_text;
          value = string_value [];
          placeholder = codes "Device Name";
          required = true;
          label_same_line = false;
          options = [];
        })
        []
      >>= λ name_field.
          form_field team_id (codes "Team") (codes "team")
            (record {
              kind = field_select;
              value = string_value [];
              placeholder = codes "Team";
              required = true;
              label_same_line = false;
              options = map (λ t. t.display_name) teams;
            })
            []
          >>= λ team_field. ok (
              public_page_layout sources game_title (codes "Devices") (
                group (fragments (map device_card devices))
                ∷ form (
                    form_target (codes "POST") (codes "/api/device")
                    ∷ name_field
                    ∷ team_field
                    ∷ submit_button (codes "Add Device") (codes "btn-primary") []
                    ∷ [])
                ∷ []))

  -- `GET /config`, for the text of the configuration.
  unfoldable pub config_page : Bytes → Fragment
  unfolding public_page_layout
  config_page config =
      public_page_layout sources game_title (codes "Config")
        (pre (code (text config ∷ []) ∷ []) ∷ [])

  -- `GET /` and the pages of the configuration, by their titles.
  unfoldable pub public_page : Bytes → Option Fragment → Bytes → Fragment
  unfolding public_page_layout public_page_error
  public_page title none message = public_page_error sources game_title message
  public_page title (some body) message = public_page_layout sources game_title title (body ∷ [])

  -- `GET /scoreboard` of this server.
  unfoldable pub public_scoreboard_page : Option Fragment → Fragment
  unfolding public_page_layout public_page_error
  public_scoreboard_page none = public_page_error sources game_title (codes "game has not started")
  public_scoreboard_page (some board) =
      public_page_layout sources game_title (codes "Scoreboard") (board ∷ [])
