-- ===== src/Device.antt =====
-- Devices that players bring: cmd/ad/device.go, and the game's `createDevice`, `AddDevice` and
-- `GetDevices` of cmd/ad/game.go with its loading of the devices at the start.
pub mod Adding
pub mod Restoring
pub mod Numbers
use tinyrange_ad.Common.{
  ℕ, ◌+◌, ◌%◌, List, [], ◌∷◌, ◌++◌, Bool, true, false, Option, none, some, if◌then◌else◌, ◌>>=◌, ℤ,
  pos, length, map,
}
use tinyrange_ad.Common.Int.{ltb_ℤ, pos_part}
use tinyrange_ad.Common.Text.{Bytes, codes, eqb}
use tinyrange_ad.Tags.{TagList, ReplaceFunc, parse_tags}
use tinyrange_ad.Flow.{ParsedFlow, parse_flows}
use tinyrange_ad.Flow.Router.{FlowInstance, FlowRouter, add_instance}
use tinyrange_ad.Net.{Ip, ipv4, ip_string}
use tinyrange_ad.Config.{DeviceGlobalConfig}
use tinyrange_ad.Persist.{validate_key}
use tinyrange_ad.Persist.Database.{Disk, Codec, set, for_each}
use tinyrange_ad.Wireguard.{WireguardRouter, Wireguard}
use tinyrange_ad.Wireguard.Configs
use tinyrange_ad.Wireguard.Configs.{WireguardInstance, restore_device}

-- What is persisted of a device.
pub record DeviceConfig : Type 0 where
  pub config : Bytes
  pub id : ℤ
  pub team : Bytes

-- The address is kept as bytes; the code keeps its text.
pub record Device : Type 0 where
  pub name : Bytes
  pub team : Bytes
  pub id : ℤ
  pub ip : Ip
  pub flows : List ParsedFlow
  pub tags : TagList

-- The methods of `FlowInstance` of a device.
unfoldable pub device_instance : Device → FlowInstance
device_instance d = record {
  hostname = codes "device_" ++ d.name;
  tags = d.tags;
  address = d.ip;
  services = [];
  flows = d.flows;
}

-- The variable `team` of a tag or flow; every other variable is an error.
device_variables : Bytes → ReplaceFunc
device_variables team = some (λ s. if eqb s (codes "team") then some team else none)

-- `net.IPv4(10, 40, 30, 1+byte(id))`, computed in a byte.
unfoldable pub device_ip : ℕ → Ip
device_ip id = ipv4 10 40 30 ((1 + id % 256) % 256)

-- An id below 0 stands for the number of devices there are.
unfoldable pub device_number : ℕ → ℤ → ℤ
device_number count id = if ltb_ℤ id (pos 0) then pos count else id

-- `createDevice` for the number of devices there are, with `none` for an error of `ParseTags` or
-- `ParseFlows`.
unfoldable pub create_device : DeviceGlobalConfig → ℕ → Bytes → ℤ → Bytes → Option Device
unfolding device_variables device_number device_ip
create_device config count name id team =
    let number = device_number count id in
    parse_tags config.tags (device_variables team) >>= λ tags.
    parse_flows config.flows (device_variables team) >>= λ flows. some (record {
      name = name;
      team = team;
      id = number;
      ip = device_ip (pos_part number);
      flows = flows;
      tags = tags;
    })

-- What the game keeps for its devices: each with its instance of the WireGuard router.
pub record Devices (os : Disk) (wg : Wireguard) : Type 0 where
  pub devices : List (Device × WireguardInstance wg)
  pub flow : FlowRouter
  pub router : WireguardRouter
  pub disk : os.State

-- `WireguardDevice`, with the address as bytes.
pub record WireguardDevice : Type 0 where
  pub config_url : Bytes
  pub name : Bytes
  pub ip : Ip

-- `GetDevices`.
unfoldable pub get_devices :
    {wg : Wireguard} → List (Device × WireguardInstance wg) → List WireguardDevice
get_devices devices =
    map (λ d. record { config_url = d.1.config_url; name = d.0.name; ip = d.0.ip }) devices

module _ (os : Disk) (json : Codec DeviceConfig) (dir : Bytes) (sha256 : Bytes → Bytes)
    (wg : Wireguard) (config : DeviceGlobalConfig) where
  -- The last part of `AddDevice`: the device is kept, and then persisted.
  tunnelled :
      Devices os wg
      → Device
      → WireguardRouter × Option (WireguardInstance wg × Bytes)
      → Bool × Devices os wg
  tunnelled g dev (router, none) = (false, record g { router = router })
  tunnelled g dev (router, some (inst, device_config)) =
      let (persisted, disk) =
        set os json dir (codes "devices") dev.name
          (record { config = device_config; id = dev.id; team = dev.team }) g.disk in
      (
        persisted,
        record g { router = router; devices = g.devices ++ (dev, inst) ∷ []; disk = disk },
      )

  registered : ℕ → Devices os wg → Device → Option FlowRouter → Bool × Devices os wg
  unfolding tunnelled
  registered seed g dev none = (false, g)
  registered seed g dev (some flow) =
      tunnelled (record g { flow = flow }) dev
        (Configs.add_device sha256 wg seed g.router (device_instance dev))

  created : ℕ → Devices os wg → Option Device → Bool × Devices os wg
  unfolding registered
  created seed g none = (false, g)
  created seed g (some dev) = registered seed g dev (add_instance g.flow (device_instance dev))

  valid_name : ℕ → Devices os wg → Bytes → Bytes → Option Bytes → Bool × Devices os wg
  unfolding created
  valid_name seed g name team none = (false, g)
  valid_name seed g name team (some _) =
      let count = length g.devices in
      created seed g (create_device config count name (pos count) team)

  -- `AddDevice`: whether it succeeded, and the state that it leaves. The seed gives the keys of
  -- the device's server.
  unfoldable pub add_device : ℕ → Devices os wg → Bytes → Bytes → Bool × Devices os wg
  unfolding valid_name
  add_device seed g name team = valid_name seed g name team (validate_key name)

  restored :
      Devices os wg
      → Device
      → WireguardRouter × Option (WireguardInstance wg)
      → Option (Devices os wg)
  restored g dev (router, none) = none
  restored g dev (router, some inst) =
      some (record g { router = router; devices = g.devices ++ (dev, inst) ∷ [] })

  -- What `Run` does with each persisted device: its key and what is read of it.
  unfoldable pub load_device : Bytes → Option DeviceConfig → Devices os wg → Option (Devices os wg)
  unfolding restored
  load_device key read g = read >>= λ saved.
      create_device config (length g.devices) key saved.id saved.team >>= λ dev.
      add_instance g.flow (device_instance dev) >>= λ flow.
      restored (record g { flow = flow }) dev
        (restore_device sha256 wg g.router saved.config (device_instance dev))

  -- The loading of all persisted devices.
  unfoldable pub load_devices : Devices os wg → Option (Devices os wg)
  unfolding load_device
  load_devices g = for_each os json dir (codes "devices") load_device g.disk g
