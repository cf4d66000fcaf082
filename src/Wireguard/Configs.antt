-- ===== src/Wireguard/Configs.antt =====
-- The calls of the WireGuard router that make a configuration: `AddEndpoint`, `AddDevice` and
-- `RestoreDevice`.
pub mod Serving
use tinyrange_ad.Common.{ℕ, List, [], ◌∷◌, ◌++◌, Option, none, some, ◌>>=◌}
use tinyrange_ad.Common.Text.{Bytes, codes}
use tinyrange_ad.Common.Dict.{insert, bytes_eq}
use tinyrange_ad.Common.Base64.{hex}
use tinyrange_ad.Net.{host_ip, ip_string}
use tinyrange_ad.Flow.Router.{FlowInstance}
use tinyrange_ad.Wireguard.{
  WireguardRouter, ConfigEntry, Wireguard, translate_to_device_config, filter_config_to_keys,
}

-- The keys that `RestoreDevice` lets through.
restored_keys : List Bytes
restored_keys =
    codes "private_key"
    ∷ codes "public_key"
    ∷ codes "listen_port"
    ∷ codes "allowed_ip"
    ∷ codes "protocol_version"
    ∷ codes "allowed_ip"
    ∷ []

-- `wireguardInstance`.
pub record WireguardInstance (wg : Wireguard) : Type 0 where
  pub server : wg.Server
  pub internal_ip : Bytes
  pub config_url : Bytes

module _ (sha256 : Bytes → Bytes) where
  -- `configKeyFromHostname`.
  unfoldable pub config_key_from_hostname : WireguardRouter → Bytes → Bytes
  unfolding hex
  config_key_from_hostname r hostname = hex (sha256 (r.config_salt ++ hostname))

  -- `r.configs[configKey] = …` for a handler's hostname, and the address of the configuration.
  put_config : WireguardRouter → Bytes → Bytes → WireguardRouter × Bytes
  unfolding config_key_from_hostname
  put_config r hostname config =
      let config_key = config_key_from_hostname r hostname in
      (
        record r {
          configs = insert config_key (record { config = config; hostname = hostname }) r.configs;
        },
        r.server_url ++ (codes "/wireguard/" ++ config_key),
      )

  module _ (wg : Wireguard) where
    -- The instance of a server under the key of its handler, whose configuration is put.
    put_instance :
        WireguardRouter
        → FlowInstance
        → Bytes
        → Bytes
        → wg.Server
        → WireguardRouter × WireguardInstance wg
    unfolding put_config
    put_instance r handler internal_ip config server =
        let (r', url) = put_config r handler.hostname config in
        (r', record { server = server; internal_ip = internal_ip; config_url = url })

    made_endpoint :
        WireguardRouter
        → FlowInstance
        → Bytes
        → Option (Bytes × wg.Server)
        → WireguardRouter × Option (WireguardInstance wg)
    unfolding put_instance
    made_endpoint r handler internal_ip none = (r, none)
    made_endpoint r handler internal_ip (some (config, server)) =
        let (r', inst) = put_instance r handler internal_ip config server in (r', some inst)

    -- `AddEndpoint`; the seed gives the keys of the new server.
    unfoldable pub add_endpoint :
        ℕ → WireguardRouter → FlowInstance → Bytes → WireguardRouter × Option (WireguardInstance wg)
    unfolding made_endpoint
    add_endpoint seed r handler internal_ip = made_endpoint r handler internal_ip (
        wg.new_server seed host_ip r.mtu handler >>= λ server.
        wg.create_peer server r.listen_address)

    with_config :
        Option Bytes
        → WireguardRouter × WireguardInstance wg
        → WireguardRouter × Option (WireguardInstance wg × Bytes)
    with_config none (r, inst) = (r, none)
    with_config (some config) (r, inst) = (r, some (inst, config))

    made_device :
        WireguardRouter
        → FlowInstance
        → Option (Bytes × wg.Server)
        → WireguardRouter × Option (WireguardInstance wg × Bytes)
    unfolding put_instance with_config
    made_device r handler none = (r, none)
    made_device r handler (some (config, server)) =
        with_config (wg.get_config server) (put_instance r handler [] config server)

    -- `AddDevice`: the configuration is put before the library is asked for its own, which is
    -- returned to be persisted.
    unfoldable pub add_device :
        ℕ → WireguardRouter → FlowInstance → WireguardRouter × Option (WireguardInstance wg × Bytes)
    unfolding made_device
    add_device seed r handler = made_device r handler (
        wg.new_server seed host_ip r.mtu handler >>= λ server.
        wg.create_peer server r.external_address >>= λ peer.
        translate_to_device_config r (ip_string handler.address) peer.0 >>= λ config.
        some (config, peer.1))

    -- `RestoreDevice`.
    unfoldable pub restore_device :
        WireguardRouter → Bytes → FlowInstance → WireguardRouter × Option (WireguardInstance wg)
    unfolding restored_keys made_endpoint
    restore_device r config handler = made_endpoint r handler [] (
        filter_config_to_keys config restored_keys >>= λ kept.
        wg.new_from_config host_ip r.mtu kept handler >>= λ server.
        translate_to_device_config r (ip_string handler.address) config >>= λ text.
        some (text, server))
