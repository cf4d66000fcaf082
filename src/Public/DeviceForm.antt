-- ===== src/Public/DeviceForm.antt =====
-- The form for a new device, and the list of devices after it.
use tinyrange_ad.Common.{
  ℕ, List, [], ◌∷◌, ◌++◌, Bool, true, false, length, map, ◌≡◌, refl, sym, ◌∙◌, ap, Bool-cases, inl,
  inr,
}
use tinyrange_ad.Common.Outcome.{ok}
use tinyrange_ad.Common.Text.{Bytes, codes, eqb}
use tinyrange_ad.Config.{DeviceGlobalConfig}
use tinyrange_ad.Game.Theft.{ok_injective}
use tinyrange_ad.Persist.Database.{Disk, Codec}
use tinyrange_ad.Net.{Ip}
use tinyrange_ad.Wireguard.{Wireguard}
use tinyrange_ad.Wireguard.Configs.{WireguardInstance}
use tinyrange_ad.Device.{
  Device, DeviceConfig, Devices, WireguardDevice, add_device, get_devices, device_ip,
}
use tinyrange_ad.Device.Adding.{Kept, add_device-Kept, create_device-fields}
use tinyrange_ad.Api.Replies.{redirect}
use tinyrange_ad.Public.{
  Site, Look, add_named_device, guarded, answer_request, device_form, device_added,
}

map-append : {A B : Type 0} (f : A → B) (xs ys : List A) → map f (xs ++ ys) ≡ map f xs ++ map f ys
map-append f [] ys = refl
map-append f (x ∷ xs) ys = ap (λ t. f x ∷ t) (map-append f xs ys)

module _ (os : Disk) (json : Codec DeviceConfig) (dir : Bytes) (sha256 : Bytes → Bytes)
    (wg : Wireguard) (device_config : DeviceGlobalConfig) {E F : Type 0}
    (call : E → Site os wg E F → Bool × Site os wg E F) (look : Look F) where
  device_added-redirect :
      (g g' : Site os wg E F) (made : Bool × Devices os wg) (target : Bytes)
      → device_added os json dir sha256 wg device_config call look g made ≡ (redirect target, g')
      → (made.0 ≡ true) × (target ≡ codes "/devices") × (g'.devices ≡ made.1)
  unfolding device_added
  device_added-redirect g g' (true, devices) target h = (refl, cc, sym (ap (λ x. x.1.devices) h))
  device_added-redirect g g' (false, devices) target h = absurd (cc)

  device_form-redirect :
      (seed : ℕ) (name team : Bytes) (g g' : Site os wg E F) (target : Bytes)
      → device_form os json dir sha256 wg device_config call look seed name team g
        ≡ (redirect target, g')
      → ((add_device os json dir sha256 wg device_config seed g.devices name team).0 ≡ true)
        × (target ≡ codes "/devices")
        × (g'.devices ≡ (add_device os json dir sha256 wg device_config seed g.devices name team).1)
  unfolding device_form
  device_form-redirect seed name team g g' target h = elim (Bool-cases (eqb name [])) [
    | inl e ↦ absurd (cc)
    | inr e ↦ elim (Bool-cases (eqb team [])) [
      | inl f ↦ absurd (cc)
      | inr f ↦
          device_added-redirect g g'
            (add_device os json dir sha256 wg device_config seed g.devices name team) target (cc)
    ]
  ]

  -- A form for a new device that is answered by a redirection leads to the list of devices, and
  -- there the device is listed behind those that were there, under its name and the address of its
  -- number.
  pub add_named_device-listed :
      (seed : ℕ) (name team : Bytes) (g g' : Site os wg E F) (target : Bytes)
      → answer_request os json dir sha256 wg device_config call look true seed
          (add_named_device name team)
          g
        ≡ ok (redirect target, g')
      → (target ≡ codes "/devices")
        × ((url : Bytes) × (get_devices g'.devices.devices
              ≡ get_devices g.devices.devices
                ++ record {
                  config_url = url;
                  name = name;
                  ip = device_ip (length g.devices.devices);
                }
                  ∷ []))
  unfolding answer_request guarded get_devices Kept
  add_named_device-listed seed name team g g' target h =
      let count = length g.devices.devices in
      let show : Device × WireguardInstance wg → WireguardDevice =
        λ d. record { config_url = d.1.config_url; name = d.0.name; ip = d.0.ip } in
      let listed : Bytes → Bytes → Ip → WireguardDevice =
        λ u n i. record { config_url = u; name = n; ip = i } in
      let (made, there, now) = device_form-redirect seed name team g g' target (ok_injective h) in
      let (dev, is_dev, kept) =
        add_device-Kept os json dir sha256 wg device_config seed g.devices name team made in
      let (inst, text, all, _, _) = kept in
      let (named, _, _, addressed) =
        create_device-fields device_config count count name team dev is_dev in
      let last : show (dev, inst) ≡ listed inst.config_url name (device_ip count) =
        ap (λ n. listed inst.config_url n dev.ip) named
        ∙ ap (listed inst.config_url name) addressed in
      (
        there,
        (
          inst.config_url,
          ap (λ d. map show d.devices) now
              ∙ ap (map show) all
              ∙ map-append show g.devices.devices ((dev, inst) ∷ [])
              ∙ ap (λ d. map show g.devices.devices ++ d ∷ []) last,
        ),
      )
