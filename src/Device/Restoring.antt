-- ===== src/Device/Restoring.antt =====
-- A device after a restart: what `Run` loads of what `AddDevice` persisted.
use mathlib.Core.Path.{subst}
use tinyrange_ad.Common.{
  ℕ, [], ◌∷◌, ◌++◌, true, Option, none, some, ◌≡◌, refl, ℤ, pos, length, >>=-eq-some,
  some_injective, sym, ap, ◌∙◌, ◌>>=◌,
}
use tinyrange_ad.Common.Text.{Bytes, codes}
use tinyrange_ad.Flow.Router.{add_instance}
use tinyrange_ad.Config.{DeviceGlobalConfig}
use tinyrange_ad.Persist.Database.{Disk, Codec, Ascii, get}
use tinyrange_ad.Wireguard.{WireguardRouter, Wireguard}
use tinyrange_ad.Wireguard.Configs.{WireguardInstance}
use tinyrange_ad.Device.{
  Device, DeviceConfig, Devices, device_instance, create_device, add_device, load_device, restored,
}
use tinyrange_ad.Device.Adding.{Kept, device_number-pos, create_device-fields, add_device-Kept}

-- The id of a device that is not negative decides, and not the number of devices.
create_device-count :
    (config : DeviceGlobalConfig) (count other id : ℕ) (name team : Bytes)
    → create_device config count name (pos id) team ≡ create_device config other name (pos id) team
unfolding create_device
create_device-count config count other id name team =
    rw (device_number-pos count id, device_number-pos other id) refl

abbrev saved_as : Bytes → ℤ → Bytes → DeviceConfig
saved_as text id team = record { config = text; id = id; team = team }

module _ (os : Disk) (json : Codec DeviceConfig) (dir : Bytes) (sha256 : Bytes → Bytes)
    (wg : Wireguard) (config : DeviceGlobalConfig) where
  restored-last :
      (g g' : Devices os wg) (dev : Device) (made : WireguardRouter × Option (WireguardInstance wg))
      → restored os json dir sha256 wg config g dev made ≡ some g'
      → (inst : WireguardInstance wg) × (g'.devices ≡ g.devices ++ (dev, inst) ∷ [])
  unfolding restored
  restored-last g g' dev (router, none) h = cc
  restored-last g g' dev (router, some inst) h =
      (inst, ap (λ x. x.devices) (sym (some_injective h)))

  load_saved :
      (g g' : Devices os wg) (dev : Device) (name : Bytes) (saved : DeviceConfig)
      → create_device config (length g.devices) name saved.id saved.team ≡ some dev
      → load_device os json dir sha256 wg config name (some saved) g ≡ some g'
      → (inst : WireguardInstance wg) × (g'.devices ≡ g.devices ++ (dev, inst) ∷ [])
  unfolding load_device
  load_saved g g' dev name saved made h =
      let (dev', made', rest) =
        >>=-eq-some (create_device config (length g.devices) name saved.id saved.team) _ h in
      let (flow, _, last) = >>=-eq-some (add_instance g.flow (device_instance dev')) _ rest in
      let (inst, kept) = restored-last (record g { flow = flow }) g' dev' _ last in
      (
        inst,
        subst (λ d. g'.devices ≡ g.devices ++ (d, inst) ∷ []) (some_injective (sym made' ∙ made))
            kept,
      )

  -- A load that succeeds has found a text to decode.
  loaded_encoded :
      (g g' : Devices os wg) (name : Bytes) (encoded : Option Bytes)
      → load_device os json dir sha256 wg config name (encoded >>= json.decode) g ≡ some g'
      → (text : Bytes) × (encoded ≡ some text)
  unfolding load_device
  loaded_encoded g g' name none h = cc
  loaded_encoded g g' name (some text) h = (text, refl)

  -- If package json reads back what it writes of texts of 7-bit characters, and the configurations of
  -- the tunnels' library and the name of the team are such texts, then a device that was added, and
  -- that a later run loads from what the database holds under its name, is the same device again:
  -- name, team, id, address, tags and flows, whatever devices are loaded before it.
  pub load_device-add_device :
      (reads_back : (v : DeviceConfig) (text : Bytes)
        → Ascii v.config
        → Ascii v.team
        → json.encode v ≡ some text
        → json.decode text ≡ some v)
      (ascii_configs : (server : wg.Server) (text : Bytes)
        → wg.get_config server ≡ some text
        → Ascii text)
      (seed : ℕ) (g h h' : Devices os wg) (name team : Bytes)
      → Ascii team
      → (add_device os json dir sha256 wg config seed g name team).0 ≡ true
      → load_device os json dir sha256 wg config name
          (get os json dir
            (codes "devices")
            name
            (add_device os json dir sha256 wg config seed g name team).1.disk)
          h
        ≡ some h'
      → (dev : Device) × (inst inst' : WireguardInstance wg) × ((add_device os json dir sha256 wg
            config seed g name team).1.devices
          ≡ g.devices ++ (dev, inst) ∷ [])
        × (h'.devices ≡ h.devices ++ (dev, inst') ∷ [])
  unfolding Kept
  load_device-add_device reads_back ascii_configs seed g h h' name team plain added loaded =
      let (dev, made, kept) = add_device-Kept os json dir sha256 wg config seed g name team added in
      let (inst, text, devices, read, (server, is_text)) = kept in
      let (called, ours, number, _) =
        create_device-fields config (length g.devices) (length g.devices) name team dev made in
      let saved = saved_as text (pos (length g.devices)) team in
      let read_saved : get os json dir (codes "devices") name
            (add_device os json dir sha256 wg config seed g name team).1.disk
          ≡ (json.encode saved >>= json.decode) =
        sym (
          ap
            (λ n.
              get os json dir (codes "devices") n
                (add_device os json dir sha256 wg config seed g name team).1.disk)
            called)
        ∙ read
        ∙ ap (λ i. json.encode (saved_as text i dev.team) >>= json.decode) number
        ∙ ap (λ t. json.encode (saved_as text (pos (length g.devices)) t) >>= json.decode) ours in
      let (encoded, is_encoded) = loaded_encoded h h' name (json.encode saved) (
        subst (λ r. load_device os json dir sha256 wg config name r h ≡ some h') read_saved
          loaded) in
      let is_saved =
        read_saved
        ∙ rw is_encoded
            (reads_back saved encoded (ascii_configs server text is_text) plain is_encoded) in
      let (inst', last) =
        load_saved h h' dev name saved
          (create_device-count config (length h.devices) (length g.devices) (length g.devices) name
              team
            ∙ made)
          (subst (λ r. load_device os json dir sha256 wg config name r h ≡ some h') is_saved
            loaded) in
      (dev, inst, inst', devices, last)
