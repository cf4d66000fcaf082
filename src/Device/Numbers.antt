-- ===== src/Device/Numbers.antt =====
-- The ids and addresses of devices.
use tinyrange_ad.Common.{
  ℕ, suc, ◌+◌, List, [], ◌∷◌, ◌++◌, Option, none, some, ◌≡◌, refl, arith, pos, length,
}
use tinyrange_ad.Common.Text.{Bytes}
use tinyrange_ad.Flow.Router.{FlowRouter, add_instance}
use tinyrange_ad.Config.{DeviceGlobalConfig}
use tinyrange_ad.Persist.{validate_key}
use tinyrange_ad.Persist.Database.{Disk, Codec}
use tinyrange_ad.Team.{Team, bot_ip}
use tinyrange_ad.Wireguard.{WireguardRouter, Wireguard}
use tinyrange_ad.Wireguard.Configs
use tinyrange_ad.Wireguard.Configs.{WireguardInstance}
use tinyrange_ad.Device.Adding.{create_device-fields}
use tinyrange_ad.Device.{
  Device, DeviceConfig, Devices, device_instance, device_ip, create_device, add_device, valid_name,
  created, registered, tunnelled,
}

-- The ids are the positions, from the one given on.
unfoldable pub Numbered : {wg : Wireguard} → ℕ → List (Device × WireguardInstance wg) → Type 0
Numbered n [] = Unit
Numbered n ((dev, _) ∷ devices) = (dev.id ≡ pos n) × Numbered (suc n) devices

Numbered-append :
    {wg : Wireguard} (n : ℕ) (devices : List (Device × WireguardInstance wg)) (dev : Device)
    (inst : WireguardInstance wg)
    → Numbered n devices
    → dev.id ≡ pos (n + length devices)
    → Numbered n (devices ++ (dev, inst) ∷ [])
unfolding Numbered
Numbered-append n [] dev inst h e = (ground arith, tt)
Numbered-append n ((d, _) ∷ devices) dev inst h e =
    (h.0, Numbered-append (suc n) devices dev inst h.1 (ground arith))

module _ (os : Disk) (json : Codec DeviceConfig) (dir : Bytes) (sha256 : Bytes → Bytes)
    (wg : Wireguard) (config : DeviceGlobalConfig) where
  tunnelled-Numbered :
      (g : Devices os wg) (dev : Device)
      (made : WireguardRouter × Option (WireguardInstance wg × Bytes))
      → Numbered 0 g.devices
      → dev.id ≡ pos (length g.devices)
      → Numbered 0 (tunnelled os json dir sha256 wg config g dev made).1.devices
  unfolding tunnelled
  tunnelled-Numbered g dev (router, none) h e = h
  tunnelled-Numbered g dev (router, some (inst, text)) h e =
      Numbered-append 0 g.devices dev inst h (ground arith)

  registered-Numbered :
      (seed : ℕ) (g : Devices os wg) (dev : Device) (flow : Option FlowRouter)
      → Numbered 0 g.devices
      → dev.id ≡ pos (length g.devices)
      → Numbered 0 (registered os json dir sha256 wg config seed g dev flow).1.devices
  unfolding registered
  registered-Numbered seed g dev none h e = h
  registered-Numbered seed g dev (some flow) h e =
      tunnelled-Numbered (record g { flow = flow }) dev
        (Configs.add_device sha256 wg seed g.router (device_instance dev)) h e

  created-Numbered :
      (seed : ℕ) (g : Devices os wg) (name team : Bytes) (made : Option Device)
      → create_device config (length g.devices) name (pos (length g.devices)) team ≡ made
      → Numbered 0 g.devices
      → Numbered 0 (created os json dir sha256 wg config seed g made).1.devices
  unfolding created
  created-Numbered seed g name team none made h = h
  created-Numbered seed g name team (some dev) made h =
      registered-Numbered seed g dev (add_instance g.flow (device_instance dev)) h
        (create_device-fields config (length g.devices) (length g.devices) name team dev made).2

  valid_name-Numbered :
      (seed : ℕ) (g : Devices os wg) (name team : Bytes) (valid : Option Bytes)
      → Numbered 0 g.devices
      → Numbered 0 (valid_name os json dir sha256 wg config seed g name team valid).1.devices
  unfolding valid_name
  valid_name-Numbered seed g name team none h = h
  valid_name-Numbered seed g name team (some valid) h =
      created-Numbered seed g name team
        (create_device config (length g.devices) name (pos (length g.devices)) team) refl h

  -- While devices are only added, whether or not a call succeeds, a device's id is its position.
  pub add_device-Numbered :
      (seed : ℕ) (g : Devices os wg) (name team : Bytes)
      → Numbered 0 g.devices
      → Numbered 0 (add_device os json dir sha256 wg config seed g name team).1.devices
  unfolding add_device
  add_device-Numbered seed g name team h =
      valid_name-Numbered seed g name team (validate_key name) h

-- The device with id n + 9 has the address of the bot of team n.
pub device_ip-bot_ip : (t : Team) → device_ip (t.id + 9) ≡ bot_ip t
unfolding device_ip bot_ip
device_ip-bot_ip t = ground arith
