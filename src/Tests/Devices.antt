-- ===== src/Tests/Devices.antt =====
-- Devices on concrete inputs.
use tinyrange_ad.Common.{
  some_injective, arith, [], ◌∷◌, ◌++◌, true, Option, none, some, if◌then◌else◌, pos, ◌≡◌, refl,
}
use tinyrange_ad.Common.Text.{Bytes, codes, eqb, join, split, cut, has_prefix}
use tinyrange_ad.Common.Dict.{lookup, insert}
use tinyrange_ad.Common.Encoding.{hex_decode}
use tinyrange_ad.Tags.{parse_tags}
use tinyrange_ad.Flow.{parse_flows}
use tinyrange_ad.Flow.Router.{add_instance}
use tinyrange_ad.Persist.{validate_key, get_path}
use tinyrange_ad.Net.{host_ip, ip_string}
use tinyrange_ad.Config.{DeviceGlobalConfig}
use tinyrange_ad.Device.{Device, Devices, create_device, add_device, load_device}
use tinyrange_ad.Device.Numbers.{Numbered, add_device-Numbered}
use tinyrange_ad.Device.Restoring.{load_device-add_device}
use tinyrange_ad.Persist.Database.{get, set}
use tinyrange_ad.Wireguard
use tinyrange_ad.Wireguard.{WireguardRouter, filter_config_to_keys, listed}
use tinyrange_ad.Wireguard.Filter.{last_value, filter_config_to_keys-last_value}
use tinyrange_ad.Wireguard.Configs
use tinyrange_ad.Wireguard.Configs.{WireguardInstance, restore_device, config_key_from_hostname}
use tinyrange_ad.Wireguard.Configs.Serving.{Serves, add_device-Serves}
use tinyrange_ad.Tests.{vulnbox}
use tinyrange_ad.Tests.Stores.{disk, json, tunnels, read_back-written}
use tinyrange_ad.Persist.Database.{Ascii}
use mathlib.Core.Path.{subst}

abbrev pub no_tags : DeviceGlobalConfig
no_tags = record { tags = []; flows = [] }

abbrev pub wireguard_router : WireguardRouter
wireguard_router = record {
  listen_address = codes "10.0.0.1";
  external_address = codes "example.org";
  mtu = pos 1420;
  server_url = codes "http://h";
  config_salt = codes "s";
  configs = [];
}

abbrev pub empty : Devices disk tunnels
empty = record { devices = []; flow = []; router = wireguard_router; disk = [] }

-- The toy hash is the text itself.
abbrev pub hash : Bytes → Bytes
hash m = m

empty-Numbered : Numbered 0 empty.devices
unfolding Numbered
empty-Numbered = tt

adds :
    (add_device disk json
      (codes "db")
      hash
      tunnels
      no_tags
      0
      empty
      (codes "phone")
      (codes "alpha")).0
    ≡ true
unfolding add_device validate_key eqb create_device parse_tags parse_flows add_instance lookup
    Configs.add_device Wireguard.translate_to_device_config split set
adds = refl

abbrev peer : Bytes
peer = codes "private_key=00" ++ 10 ∷ codes "endpoint=x"

filter_config_to_keys-last_value_example :
    last_value (codes "private_key") (split (codes "private_key=00") 10) ≡ (
      if listed (codes "private_key") (codes "private_key" ∷ [])
      then last_value (codes "private_key") (split peer 10)
      else none)
unfolding filter_config_to_keys split join eqb
filter_config_to_keys-last_value_example =
    filter_config_to_keys-last_value peer (codes "private_key" ∷ []) (codes "private_key=00")
      (codes "private_key") refl

abbrev after_add : Devices disk tunnels
after_add =
    (add_device disk json (codes "db") hash tunnels no_tags 0 empty (codes "phone")
      (codes "alpha")).1

abbrev loading : Option (Devices disk tunnels)
loading =
    load_device disk json (codes "db") hash tunnels no_tags (codes "phone")
      (get disk json (codes "db") (codes "devices") (codes "phone") after_add.disk) empty

abbrev or_empty : Option (Devices disk tunnels) → Devices disk tunnels
or_empty none = empty
or_empty (some g) = g

loads : loading ≡ some (or_empty loading)
unfolding load_device get validate_key eqb lookup add_device create_device parse_tags parse_flows
    add_instance Configs.add_device Wireguard.translate_to_device_config split set insert get_path
    join restore_device filter_config_to_keys hex_decode cut has_prefix
loads = refl

load_device-add_device_example :
    (dev : Device) × (inst inst' : WireguardInstance tunnels) × (after_add.devices
      ≡ [] ++ (dev, inst) ∷ [])
    × ((or_empty loading).devices ≡ [] ++ (dev, inst') ∷ [])
load_device-add_device_example =
    load_device-add_device disk json (codes "db") hash tunnels no_tags
      (λ v text c t h. read_back-written v.id v.config v.team text h)
      (λ server text h. subst Ascii (some_injective h) (ground arith)) 0 empty empty
      (or_empty loading) (codes "phone") (codes "alpha") (ground arith) adds loads

add_device-Numbered_example : Numbered 0 after_add.devices
add_device-Numbered_example =
    add_device-Numbered disk json (codes "db") hash tunnels no_tags 0 empty (codes "phone")
      (codes "alpha") empty-Numbered

abbrev endpoint : WireguardInstance tunnels
endpoint = record {
  server = [];
  internal_ip = [];
  config_url =
      codes "http://h/wireguard/"
      ++ config_key_from_hostname hash wireguard_router vulnbox.hostname;
}

abbrev own_config : Bytes
own_config = codes "private_key=02" ++ 10 ∷ codes "listen_port=5"

makes : (Configs.add_device hash tunnels 0 wireguard_router vulnbox).1 ≡ some (endpoint, own_config)
unfolding Configs.add_device Wireguard.translate_to_device_config split eqb
makes = refl

add_device-Serves_example :
    (text : Bytes) × (server : Bytes) × (some own_config ≡ some own_config)
    × ((fresh : Bytes) × (peer' : Bytes) × (tunnels.new_server 0 host_ip (pos 1420) vulnbox
          ≡ some fresh)
        × (tunnels.create_peer fresh (codes "example.org") ≡ some (peer', server))
        × (Wireguard.translate_to_device_config wireguard_router (ip_string vulnbox.address) peer'
            ≡ some text))
    × Serves hash tunnels wireguard_router
        (Configs.add_device hash tunnels 0 wireguard_router vulnbox).0
        vulnbox
        endpoint
        text
add_device-Serves_example =
    add_device-Serves hash tunnels 0 wireguard_router vulnbox endpoint own_config makes
