-- ===== src/Wireguard/Configs/Serving.antt =====
-- The configurations that are served after the calls of the WireGuard router.
use mathlib.Core.Path.{subst}
use tinyrange_ad.Common.{
  ℕ, [], ◌++◌, Option, none, some, if◌then◌else◌, ◌≡◌, ◌≢◌, refl, ap, sym, ◌∙◌, some_injective,
  >>=-eq-some,
}
use tinyrange_ad.Common.Text.{Bytes, codes, eqb_refl, eqb_ne}
use tinyrange_ad.Common.Dict.{lookup, bytes_eq, lookup-insert}
use tinyrange_ad.Net.{host_ip, ip_string}
use tinyrange_ad.Flow.Router.{FlowInstance}
use tinyrange_ad.Wireguard.{
  WireguardRouter, ConfigEntry, Wireguard, served, serve_config, answer, disposition,
  filter_config_to_keys, translate_to_device_config,
}
use tinyrange_ad.Wireguard.Configs.{
  WireguardInstance, config_key_from_hostname, put_instance, put_config, made_device, with_config,
  made_endpoint, add_device, restore_device, restored_keys,
}

module _ (sha256 : Bytes → Bytes) (wg : Wireguard) where
  -- From `r` to `r'` the instance's configuration has become the text, under the key of its host
  -- name and at its address, and nothing else that is served has changed.
  unfoldable pub Serves :
      WireguardRouter → WireguardRouter → FlowInstance → WireguardInstance wg → Bytes → Type 0
  Serves r r' handler inst text =
      let key = config_key_from_hostname sha256 r handler.hostname in
      (inst.config_url ≡ r.server_url ++ (codes "/wireguard/" ++ key))
      × (serve_config r' key ≡ served (disposition handler.hostname) text)
      × ((other : Bytes) → key ≢ other → serve_config r' other ≡ serve_config r other)

  put_instance-Serves :
      (r : WireguardRouter) (handler : FlowInstance) (internal_ip text : Bytes) (server : wg.Server)
      → (let (r', inst) = put_instance sha256 wg r handler internal_ip text server in
          Serves r r' handler inst text)
  unfolding Serves put_instance put_config serve_config
  put_instance-Serves r handler internal_ip text server =
      let key = config_key_from_hostname sha256 r handler.hostname in
      let entry : ConfigEntry = record { config = text; hostname = handler.hostname } in
      let found = λ (q : Bytes). lookup-insert key q entry r.configs in
      (
        refl,
        ap answer
            (found key ∙ ap (λ b. if b then some entry else lookup key r.configs) (eqb_refl key)),
        λ other apart. ap answer (
            found other
            ∙ ap (λ b. if b then some entry else lookup other r.configs) (eqb_ne key other apart)),
      )

  with_config-some :
      (asked : Option Bytes) (made : WireguardRouter × WireguardInstance wg)
      (inst : WireguardInstance wg) (config : Bytes)
      → (with_config sha256 wg asked made).1 ≡ some (inst, config)
      → (asked ≡ some config)
        × (with_config sha256 wg asked made ≡ (made.0, some (inst, config)))
        × (made.1 ≡ inst)
  unfolding with_config
  with_config-some none made inst config h = cc
  with_config-some (some c) made inst config h = (cc, cc, cc)

  made_device-Serves :
      (r : WireguardRouter) (handler : FlowInstance) (made : Option (Bytes × wg.Server))
      (inst : WireguardInstance wg) (config : Bytes)
      → (made_device sha256 wg r handler made).1 ≡ some (inst, config)
      → (text : Bytes) × (server : wg.Server) × (made ≡ some (text, server))
        × (wg.get_config server ≡ some config)
        × Serves r (made_device sha256 wg r handler made).0 handler inst text
  unfolding made_device
  made_device-Serves r handler none inst config h = cc
  made_device-Serves r handler (some (text, server)) inst config h =
      let put = put_instance sha256 wg r handler [] text server in
      let (asked, all, same) = with_config-some (wg.get_config server) put inst config h in
      (
        text,
        server,
        refl,
        asked,
        subst (λ r'. Serves r r' handler inst text) (sym (ap (λ x. x.0) all))
            (subst (λ i. Serves r put.0 handler i text) same
              (put_instance-Serves r handler [] text server)),
      )

  made_endpoint-Serves :
      (r : WireguardRouter) (handler : FlowInstance) (internal_ip : Bytes)
      (made : Option (Bytes × wg.Server)) (inst : WireguardInstance wg)
      → (made_endpoint sha256 wg r handler internal_ip made).1 ≡ some inst
      → (text : Bytes) × (server : wg.Server) × (made ≡ some (text, server))
        × Serves r (made_endpoint sha256 wg r handler internal_ip made).0 handler inst text
  unfolding made_endpoint
  made_endpoint-Serves r handler internal_ip none inst h = cc
  made_endpoint-Serves r handler internal_ip (some (text, server)) inst h =
      let put = put_instance sha256 wg r handler internal_ip text server in
      (
        text,
        server,
        refl,
        subst (λ i. Serves r put.0 handler i text) (some_injective h)
            (put_instance-Serves r handler internal_ip text server),
      )

  -- A device that AddDevice made is served, under the key of its host name and nowhere else, the
  -- translation of the configuration of a peer of its own server, whose configuration is returned.
  pub add_device-Serves :
      (seed : ℕ) (r : WireguardRouter) (handler : FlowInstance) (inst : WireguardInstance wg)
      (config : Bytes)
      → (add_device sha256 wg seed r handler).1 ≡ some (inst, config)
      → (text : Bytes) × (server : wg.Server) × (wg.get_config server ≡ some config)
        × ((fresh : wg.Server) × (peer : Bytes) × (wg.new_server seed host_ip r.mtu handler
              ≡ some fresh)
            × (wg.create_peer fresh r.external_address ≡ some (peer, server))
            × (translate_to_device_config r (ip_string handler.address) peer ≡ some text))
        × Serves r (add_device sha256 wg seed r handler).0 handler inst text
  unfolding add_device
  add_device-Serves seed r handler inst config h =
      let (text, server, made, asked, serves) = made_device-Serves r handler _ inst config h in
      let (fresh, created, rest) = >>=-eq-some (wg.new_server seed host_ip r.mtu handler) _ made in
      let ((peer, paired), peered, rest') =
        >>=-eq-some (wg.create_peer fresh r.external_address) _ rest in
      let (translated, ok, same) =
        >>=-eq-some (translate_to_device_config r (ip_string handler.address) peer) _ rest' in
      (text, server, asked, (fresh, peer, created, cc, cc), serves)

  -- A restored device is served, under the key of its host name and nowhere else, the translation
  -- of the persisted configuration.
  pub restore_device-Serves :
      (r : WireguardRouter) (config : Bytes) (handler : FlowInstance) (inst : WireguardInstance wg)
      → (restore_device sha256 wg r config handler).1 ≡ some inst
      → (text : Bytes) × (translate_to_device_config r (ip_string handler.address) config
          ≡ some text)
        × Serves r (restore_device sha256 wg r config handler).0 handler inst text
  unfolding restore_device
  restore_device-Serves r config handler inst h =
      let (text, server, made, serves) = made_endpoint-Serves r handler [] _ inst h in
      let (kept, _, rest) = >>=-eq-some (filter_config_to_keys config restored_keys) _ made in
      let (fresh, _, rest') = >>=-eq-some (wg.new_from_config host_ip r.mtu kept handler) _ rest in
      let (translated, ok, same) =
        >>=-eq-some (translate_to_device_config r (ip_string handler.address) config) _ rest' in
      (text, cc, serves)
