-- ===== src/Public.antt =====
-- The handlers of the public server, `startPublicServer` of cmd/ad/public.go: what each request is
-- answered and what it changes. Package http chooses the handler.
pub mod Guard
pub mod DeviceForm
use tinyrange_ad.Common.{
  ℕ, suc, List, [], ◌∷◌, ◌++◌, Bool, true, false, not, Option, none, some, if◌then◌else◌, map,
}
use tinyrange_ad.Common.Outcome.{Outcome, ok, panic, ◌>>=◌}
use tinyrange_ad.Common.Text.{Bytes, codes, eqb}
use tinyrange_ad.Common.Dict.{lookup, bytes_eq}
use tinyrange_ad.Config.{ServiceConfig, DeviceGlobalConfig}
use tinyrange_ad.Flow.Router.{FlowInstance}
use tinyrange_ad.Score.{ScoreboardState}
use tinyrange_ad.Team.{Team}
use tinyrange_ad.Team.Lookup.{instance_from_name}
use tinyrange_ad.Tick.{run_event}
use tinyrange_ad.Persist.Database.{Disk, Codec}
use tinyrange_ad.Wireguard.{Wireguard}
use tinyrange_ad.Device.{DeviceConfig, Devices, add_device, get_devices}
use tinyrange_ad.Htm.{Fragment}
use tinyrange_ad.Pages.{public_page_error}
use tinyrange_ad.Pages.Admin.{
  render_page_body, instances_page, connect_page, events_page, devices_page, config_page,
  public_page, public_scoreboard_page,
}
use tinyrange_ad.Api.Replies.{Reply, body, http_error, redirect, scoreboard_of_tick}

-- What the handlers read and change. `E` is the type of the events' callbacks.
pub record Site (os : Disk) (wg : Wireguard) (E F : Type 0) : Type 0 where
  pub devices : Devices os wg
  pub events : List (Bytes × E)
  pub instances : List FlowInstance
  pub teams : List Team
  pub scorebot : Option FlowInstance
  pub overall_state : Option (ScoreboardState F)
  pub ticks : List (ScoreboardState F)

-- A page of the configuration.
pub record PageConfig : Type 0 where
  pub path : Bytes
  pub title : Bytes

-- What the handlers use of the configuration, of the embedded files, and of the libraries: `render`
-- reads a page and is the Markdown library, `scoreboard_fragment` the page of a scoreboard,
-- `config_text` the YAML form of the configuration, and `new_id` the random ids that a page draws.
pub record Look (F : Type 0) : Type 0 where
  pub sources : List Fragment
  pub terminal_head : List Fragment
  pub terminal_tail : List Fragment
  pub game_title : Bytes
  pub pages : List (Bytes × PageConfig)
  pub render : Bytes → Option Bytes
  pub scoreboard_fragment : Option (ScoreboardState F) → Option Fragment
  pub config_text : Option Bytes
  pub new_id : ℕ → Bytes
  pub error_text : Bytes

-- The requests that have a handler, with what the handler reads of them. A request for a terminal
-- says whether its connection becomes a web socket. Every path that is not another handler's is the
-- home page's or that of a page of the configuration.
pub data Request : Type 0 where
  list_instances list_events list_devices show_config download_config : Request
  show_scoreboard download_scoreboard : Request
  connect_to other_path download_tick run_named_event : Bytes → Request
  open_terminal : Bytes → Bool → Request
  add_named_device : Bytes → Bytes → Request

-- What a body holds: a page, JSON, YAML, or a terminal of an instance.
pub data Content (F : Type 0) : Type 0 where
  page : Fragment → Content F
  scores : Option (ScoreboardState F) → Content F
  tick_scores : ScoreboardState F → Content F
  yaml : Bytes → Content F
  terminal : FlowInstance → Content F
  not_upgraded : Content F

-- `isAdmin`.
is_admin : Request → Bool
is_admin r = true

-- The ids of the events' forms, drawn one after the other.
with_ids : (ℕ → Bytes) → ℕ → List Bytes → List (Bytes × Bytes)
with_ids new_id n [] = []
with_ids new_id n (event ∷ events) = (new_id n, event) ∷ with_ids new_id (suc n) events

-- An error of a lookup by name, and a lookup that finds nothing else.
lookup_error : {A : Type 0} → Option A → Option Bytes
lookup_error none = some (codes "instance not found")
lookup_error (some _) = none

module _ (os : Disk) (json : Codec DeviceConfig) (dir : Bytes) (sha256 : Bytes → Bytes)
    (wg : Wireguard) (device_config : DeviceGlobalConfig) {E F : Type 0}
    (call : E → Site os wg E F → Bool × Site os wg E F) (look : Look F) where
  error_page : Bytes → Reply (Content F)
  unfolding public_page_error
  error_page message = body (page (public_page_error look.sources look.game_title message))

  -- `GET /` and the pages of the configuration.
  show_page : Bytes → Option Bytes → Reply (Content F)
  unfolding public_page render_page_body
  show_page title path = body (
      page (
        public_page look.sources look.game_title title (render_page_body look.render path)
          look.error_text))

  home_page : Option PageConfig → Reply (Content F)
  unfolding show_page
  home_page none = show_page (codes "Home") none
  home_page (some p) = show_page (codes "Home") (some p.path)

  page_reply : Bytes → Reply (Content F)
  unfolding show_page home_page
  page_reply path = elim (lookup path look.pages) [
    | none ↦ home_page (lookup (codes "/") look.pages)
    | some p ↦ if eqb path (codes "/") then home_page (some p) else show_page p.title (some p.path)
  ]

  tick_body : Reply (ScoreboardState F) → Reply (Content F)
  tick_body (body board) = body (tick_scores board)
  tick_body (http_error code message) = http_error code message
  tick_body (redirect target) = redirect target

  -- The page of a terminal.
  connect : Bytes → Outcome (Option (Option FlowInstance)) → Outcome (Reply (Content F))
  unfolding connect_page lookup_error
  connect name looked = looked >>= λ found. ok (
      body (
        page (
          connect_page look.sources look.game_title look.terminal_head look.terminal_tail
            (lookup_error found) name)))

  -- The web socket of a terminal; an instance that is nil has no terminal.
  attach : Bool → Option (Option FlowInstance) → Outcome (Reply (Content F))
  attach upgrades none = ok (http_error 404 (codes "instance not found"))
  attach false (some found) = ok (body not_upgraded)
  attach true (some none) = panic
  attach true (some (some inst)) = ok (body (terminal inst))

  -- `POST /api/event`.
  event_ran : Bool × Site os wg E F → Reply (Content F) × Site os wg E F
  unfolding error_page
  event_ran (true, g) = (redirect (codes "/"), g)
  event_ran (false, g) = (error_page look.error_text, g)

  event_found : Bytes → Option E → Site os wg E F → Reply (Content F) × Site os wg E F
  unfolding event_ran
  event_found name none g = (error_page (codes "event " ++ (name ++ codes " not implemented")), g)
  event_found name (some callback) g = event_ran (call callback g)

  -- `POST /api/device`; the seed gives the keys of the device's server.
  device_added : Site os wg E F → Bool × Devices os wg → Reply (Content F) × Site os wg E F
  unfolding error_page
  device_added g (true, devices) = (redirect (codes "/devices"), record g { devices = devices })
  device_added g (false, devices) = (error_page look.error_text, record g { devices = devices })

  device_form : ℕ → Bytes → Bytes → Site os wg E F → Reply (Content F) × Site os wg E F
  unfolding device_added
  device_form seed name team g =
      if eqb name []
      then (error_page (codes "name is required"), g)
      else if eqb team []
      then (error_page (codes "team is required"), g)
      else device_added g (add_device os json dir sha256 wg device_config seed g.devices name team)

  config_reply : Bytes → Option Bytes → (Bytes → Content F) → Reply (Content F)
  config_reply message none form = http_error 500 message
  config_reply message (some text) form = body (form text)

  -- An answer that changes nothing.
  unfoldable pub reads :
      Site os wg E F → Outcome (Reply (Content F)) → Outcome (Reply (Content F) × Site os wg E F)
  reads g reply = reply >>= λ r. ok (r, g)

  -- `checkForAdmin` before a handler.
  unfoldable pub guarded :
      Bool
      → Site os wg E F
      → Outcome (Reply (Content F) × Site os wg E F)
      → Outcome (Reply (Content F) × Site os wg E F)
  guarded false g answer = ok (http_error 403 (codes "forbidden"), g)
  guarded true g answer = answer

  -- The handler of a request, for whether `isAdmin` holds of it.
  unfoldable pub answer_request :
      Bool → ℕ → Request → Site os wg E F → Outcome (Reply (Content F) × Site os wg E F)
  unfolding page_reply tick_body connect attach event_found device_form with_ids config_reply
  answer_request admin seed list_instances g =
      guarded admin g
        (reads g (ok (body (page (instances_page look.sources look.game_title g.instances)))))
  answer_request admin seed (connect_to name) g =
      guarded admin g (reads g (connect name (instance_from_name g.scorebot g.teams name)))
  answer_request admin seed (open_terminal name upgrades) g =
      guarded admin g
        (reads g (instance_from_name g.scorebot g.teams name >>= λ found. attach upgrades found))
  answer_request admin seed list_events g = guarded admin g (
      reads g (
        ok (
          body (
            page (
              events_page look.sources look.game_title
                (with_ids look.new_id 0 (map (λ e. e.0) g.events)))))))
  answer_request admin seed (run_named_event name) g =
      guarded admin g (ok (event_found name (run_event g.events name) g))
  answer_request admin seed list_devices g = guarded admin g (
      reads g (
        devices_page look.sources look.game_title (look.new_id 0) (look.new_id 1)
          (get_devices g.devices.devices) g.teams
        >>= λ f. ok (body (page f))))
  answer_request admin seed (add_named_device name team) g =
      guarded admin g (ok (device_form seed name team g))
  answer_request admin seed show_config g = guarded admin g (
      reads g (
        ok (
          config_reply (codes "failed to marshal config") look.config_text
            (λ text. page (config_page look.sources look.game_title text)))))
  answer_request admin seed download_config g = guarded admin g (
      reads g
        (ok (config_reply (codes "failed to encode config") look.config_text (λ text. yaml text))))
  answer_request admin seed show_scoreboard g = reads g (
      ok (
        body (
          page (
            public_scoreboard_page look.sources look.game_title
              (look.scoreboard_fragment g.overall_state)))))
  answer_request admin seed download_scoreboard g = reads g (ok (body (scores g.overall_state)))
  answer_request admin seed (download_tick text) g =
      reads g (scoreboard_of_tick g.ticks text >>= λ r. ok (tick_body r))
  answer_request admin seed (other_path path) g = reads g (ok (page_reply path))

  -- The public server.
  unfoldable pub serve_public :
      ℕ → Request → Site os wg E F → Outcome (Reply (Content F) × Site os wg E F)
  unfolding answer_request is_admin
  serve_public seed r g = answer_request (is_admin r) seed r g
