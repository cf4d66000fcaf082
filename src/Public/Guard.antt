-- ===== src/Public/Guard.antt =====
-- Which requests need an administrator, and which change something.
use tinyrange_ad.Common.{ℕ, Bool, true, false, ◌≡◌, ◌⊎◌, inl, inr, refl, sym, ap}
use tinyrange_ad.Common.Outcome.{Outcome, ok, panic}
use tinyrange_ad.Common.Text.{Bytes, codes}
use tinyrange_ad.Config.{DeviceGlobalConfig}
use tinyrange_ad.Game.Theft.{ok_injective}
use tinyrange_ad.Persist.Database.{Disk, Codec}
use tinyrange_ad.Wireguard.{Wireguard}
use tinyrange_ad.Device.{DeviceConfig}
use tinyrange_ad.Api.Replies.{Reply, http_error}
use tinyrange_ad.Public.{
  Site, Look, Request, Content, list_instances, list_events, list_devices, show_config,
  download_config, show_scoreboard, download_scoreboard, connect_to, other_path, download_tick,
  run_named_event, open_terminal, add_named_device, reads, guarded, answer_request,
}

-- All but the scoreboards and the pages of the configuration.
unfoldable ForAdmins : Request → Type 0
ForAdmins show_scoreboard = ⊥
ForAdmins download_scoreboard = ⊥
ForAdmins (download_tick text) = ⊥
ForAdmins (other_path path) = ⊥
ForAdmins _ = Unit

-- The requests that run an event or add a device.
unfoldable pub Acts : Request → Type 0
Acts (run_named_event name) = Unit
Acts (add_named_device name team) = Unit
Acts _ = ⊥

module _ (os : Disk) (json : Codec DeviceConfig) (dir : Bytes) (sha256 : Bytes → Bytes)
    (wg : Wireguard) (device_config : DeviceGlobalConfig) {E F : Type 0}
    (call : E → Site os wg E F → Bool × Site os wg E F) (look : Look F) where
  reads-same :
      (g g' : Site os wg E F) (answer : Outcome (Reply (Content F))) (reply : Reply (Content F))
      → reads os json dir sha256 wg device_config call look g answer ≡ ok (reply, g')
      → g' ≡ g
  unfolding reads
  reads-same g g' (ok r) reply h = ap (λ x. x.1) (sym (ok_injective h))
  reads-same g g' panic reply h = absurd (cc)

  guarded-cases :
      (admin : Bool) (g g' : Site os wg E F) (answer : Outcome (Reply (Content F) × Site os wg E F))
      (reply : Reply (Content F))
      → guarded os json dir sha256 wg device_config call look admin g answer ≡ ok (reply, g')
      → (g' ≡ g) ⊎ (admin ≡ true) × (answer ≡ ok (reply, g'))
  unfolding guarded
  guarded-cases false g g' answer reply h = inl (ap (λ x. x.1) (sym (ok_injective h)))
  guarded-cases true g g' answer reply h = inr (refl, h)

  -- A request that needs an administrator is refused without one, and changes nothing.
  answer_request_forbidden :
      (seed : ℕ) (r : Request) (g : Site os wg E F)
      → ForAdmins r
      → answer_request os json dir sha256 wg device_config call look false seed r g
        ≡ ok (http_error 403 (codes "forbidden"), g)
  unfolding answer_request guarded ForAdmins
  answer_request_forbidden seed show_scoreboard g h = absurd h
  answer_request_forbidden seed download_scoreboard g h = absurd h
  answer_request_forbidden seed (download_tick text) g h = absurd h
  answer_request_forbidden seed (other_path path) g h = absurd h
  answer_request_forbidden seed r g h = refl

  guarded_read :
      (admin : Bool) (g g' : Site os wg E F) (answer : Outcome (Reply (Content F)))
      (reply : Reply (Content F))
      → guarded os json dir sha256 wg device_config call look admin g
          (reads os json dir sha256 wg device_config call look g answer)
        ≡ ok (reply, g')
      → g' ≡ g
  guarded_read admin g g' answer reply h =
      elim (guarded-cases admin g g' (reads os json dir sha256 wg device_config call look g answer)
        reply h) [ inl same ↦ same | inr (_, read) ↦ reads-same g g' answer reply read ]

  -- A request that is answered changes nothing, or it comes from an administrator and runs an event
  -- or adds a device.
  pub answer_request_cases :
      (admin : Bool) (seed : ℕ) (r : Request) (g g' : Site os wg E F) (reply : Reply (Content F))
      → answer_request os json dir sha256 wg device_config call look admin seed r g ≡ ok (reply, g')
      → (g' ≡ g) ⊎ (admin ≡ true) × Acts r
  unfolding answer_request Acts
  answer_request_cases admin seed (run_named_event name) g g' reply h =
      elim (guarded-cases admin g g' _ reply h) [
        | inl same ↦ inl same
        | inr (is_admin, _) ↦ inr (is_admin, tt)
      ]
  answer_request_cases admin seed (add_named_device name team) g g' reply h =
      elim (guarded-cases admin g g' _ reply h) [
        | inl same ↦ inl same
        | inr (is_admin, _) ↦ inr (is_admin, tt)
      ]
  answer_request_cases admin seed list_instances g g' reply h =
      inl (guarded_read admin g g' _ reply h)
  answer_request_cases admin seed list_events g g' reply h = inl (guarded_read admin g g' _ reply h)
  answer_request_cases admin seed list_devices g g' reply h =
      inl (guarded_read admin g g' _ reply h)
  answer_request_cases admin seed show_config g g' reply h = inl (guarded_read admin g g' _ reply h)
  answer_request_cases admin seed download_config g g' reply h =
      inl (guarded_read admin g g' _ reply h)
  answer_request_cases admin seed (connect_to name) g g' reply h =
      inl (guarded_read admin g g' _ reply h)
  answer_request_cases admin seed (open_terminal name upgrades) g g' reply h =
      inl (guarded_read admin g g' _ reply h)
  answer_request_cases admin seed show_scoreboard g g' reply h = inl (reads-same g g' _ reply h)
  answer_request_cases admin seed download_scoreboard g g' reply h = inl (reads-same g g' _ reply h)
  answer_request_cases admin seed (download_tick text) g g' reply h =
      inl (reads-same g g' _ reply h)
  answer_request_cases admin seed (other_path path) g g' reply h = inl (reads-same g g' _ reply h)
