-- ===== src/Device/Adding.antt =====
-- `AddDevice` on every branch: what it keeps, persists and refuses.
use mathlib.Core.Path.{subst}
use tinyrange_ad.Common.{
  ℕ, [], ◌∷◌, ◌++◌, true, false, Option, none, some, ◌≡◌, refl, arith, pos, length, ◌⊎◌, inl, inr,
  >>=-eq-some, some_injective, sym, ap, ◌∙◌, Option-cases, ◌>>=◌,
}
use tinyrange_ad.Common.Int.{pos_part}
use tinyrange_ad.Common.Text.{Bytes, codes}
use tinyrange_ad.Common.Dict.{lookup, bytes_eq}
use tinyrange_ad.Tags.{parse_tags}
use tinyrange_ad.Flow.{parse_flows}
use tinyrange_ad.Flow.Router.{FlowRouter, FlowInstance, add_instance}
use tinyrange_ad.Config.{DeviceGlobalConfig}
use tinyrange_ad.Persist.{validate_key}
use tinyrange_ad.Persist.Database.{Disk, Codec, get}
use tinyrange_ad.Persist.Database.RoundTrip.{set-get}
use tinyrange_ad.Wireguard.{WireguardRouter, Wireguard}
use tinyrange_ad.Wireguard.Configs
use tinyrange_ad.Wireguard.Configs.{WireguardInstance}
use tinyrange_ad.Wireguard.Configs.Serving.{add_device-Serves}
use tinyrange_ad.Device.{
  Device, DeviceConfig, Devices, device_instance, device_variables, device_number, create_device,
  device_ip, add_device, valid_name, created, registered, tunnelled,
}

pub device_number-pos : (count id : ℕ) → device_number count (pos id) ≡ pos id
unfolding device_number
device_number-pos count id = ground arith

-- A device has the name and team that it is created for, and the id, if that is not negative, with
-- the address of its id.
pub create_device-fields :
    (config : DeviceGlobalConfig) (count id : ℕ) (name team : Bytes) (dev : Device)
    → create_device config count name (pos id) team ≡ some dev
    → (dev.name ≡ name) × (dev.team ≡ team) × (dev.id ≡ pos id) × (dev.ip ≡ device_ip id)
unfolding create_device
create_device-fields config count id name team dev h =
    let (tags, _, rest) = >>=-eq-some (parse_tags config.tags (device_variables team)) _ h in
    let (flows, _, same) = >>=-eq-some (parse_flows config.flows (device_variables team)) _ rest in
    let built = some_injective same in
    (
      ap (λ d. d.name) (sym built),
      ap (λ d. d.team) (sym built),
      ap (λ d. d.id) (sym built) ∙ device_number-pos count id,
      ap (λ d. d.ip) (sym built) ∙ ap (λ n. device_ip (pos_part n)) (device_number-pos count id),
    )

add_instance_taken :
    (flow : FlowRouter) (inst old : FlowInstance)
    → lookup inst.hostname flow ≡ some old
    → add_instance flow inst ≡ none
unfolding add_instance
add_instance_taken flow inst old h = rw (h, add_instance) refl

-- The configuration that is persisted is the library's own of a server.
add_device-config :
    (sha256 : Bytes → Bytes) (wg : Wireguard) (seed : ℕ) (router : WireguardRouter)
    (handler : FlowInstance) (inst : WireguardInstance wg) (text : Bytes)
    → (Configs.add_device sha256 wg seed router handler).1 ≡ some (inst, text)
    → (server : wg.Server) × (wg.get_config server ≡ some text)
add_device-config sha256 wg seed router handler inst text h =
    let (_, server, is_text, _, _) = add_device-Serves sha256 wg seed router handler inst text h in
    (server, is_text)

module _ (os : Disk) (json : Codec DeviceConfig) (dir : Bytes) (sha256 : Bytes → Bytes)
    (wg : Wireguard) (config : DeviceGlobalConfig) where
  -- The device is the last one, and Get reads under its name what the JSON form of its id, its team
  -- and a configuration of the tunnels' library is decoded to.
  unfoldable pub Kept : Devices os wg → Device → Devices os wg → Type 0
  Kept g dev g' =
      (inst : WireguardInstance wg) × (text : Bytes) × (g'.devices ≡ g.devices ++ (dev, inst) ∷ [])
      × (get os json dir (codes "devices") dev.name g'.disk
          ≡ (json.encode (record { config = text; id = dev.id; team = dev.team }) >>= json.decode))
      × ((server : wg.Server) × (wg.get_config server ≡ some text))

  tunnelled-Kept :
      (g : Devices os wg) (dev : Device)
      (made : WireguardRouter × Option (WireguardInstance wg × Bytes))
      → ((inst : WireguardInstance wg) (text : Bytes)
          → made.1 ≡ some (inst, text)
          → (server : wg.Server) × (wg.get_config server ≡ some text))
      → (tunnelled os json dir sha256 wg config g dev made).0 ≡ true
      → Kept g dev (tunnelled os json dir sha256 wg config g dev made).1
  unfolding Kept tunnelled
  tunnelled-Kept g dev (router, none) from h = cc
  tunnelled-Kept g dev (router, some (inst, text)) from h = (
    inst,
    text,
    refl,
    set-get os json dir (codes "devices") dev.name
        (record { config = text; id = dev.id; team = dev.team }) g.disk h,
    from inst text refl,
  )

  registered-Kept :
      (seed : ℕ) (g : Devices os wg) (dev : Device) (flow : Option FlowRouter)
      → (registered os json dir sha256 wg config seed g dev flow).0 ≡ true
      → Kept g dev (registered os json dir sha256 wg config seed g dev flow).1
  unfolding Kept registered
  registered-Kept seed g dev none h = cc
  registered-Kept seed g dev (some flow) h =
      tunnelled-Kept (record g { flow = flow }) dev
        (Configs.add_device sha256 wg seed g.router (device_instance dev))
        (add_device-config sha256 wg seed g.router (device_instance dev)) h

  created-Kept :
      (seed : ℕ) (g : Devices os wg) (made : Option Device)
      → (created os json dir sha256 wg config seed g made).0 ≡ true
      → (dev : Device) × (made ≡ some dev)
        × Kept g dev (created os json dir sha256 wg config seed g made).1
  unfolding created
  created-Kept seed g none h = cc
  created-Kept seed g (some dev) h =
      (dev, refl, registered-Kept seed g dev (add_instance g.flow (device_instance dev)) h)

  valid_name-Kept :
      (seed : ℕ) (g : Devices os wg) (name team : Bytes) (valid : Option Bytes)
      → (valid_name os json dir sha256 wg config seed g name team valid).0 ≡ true
      → (dev : Device) × (create_device config (length g.devices) name (pos (length g.devices)) team
          ≡ some dev)
        × Kept g dev (valid_name os json dir sha256 wg config seed g name team valid).1
  unfolding valid_name
  valid_name-Kept seed g name team none h = cc
  valid_name-Kept seed g name team (some valid) h =
      created-Kept seed g
        (create_device config (length g.devices) name (pos (length g.devices)) team) h

  -- A device that AddDevice added is the last one, is what createDevice makes for its name, its
  -- team and the number of devices before it, and its id and team are kept in the database under
  -- its name.
  pub add_device-Kept :
      (seed : ℕ) (g : Devices os wg) (name team : Bytes)
      → (add_device os json dir sha256 wg config seed g name team).0 ≡ true
      → (dev : Device) × (create_device config (length g.devices) name (pos (length g.devices)) team
          ≡ some dev)
        × Kept g dev (add_device os json dir sha256 wg config seed g name team).1
  unfolding add_device
  add_device-Kept seed g name team h = valid_name-Kept seed g name team (validate_key name) h

  -- A host name that is taken leaves everything as it was.
  created_taken :
      (seed : ℕ) (g : Devices os wg) (name team : Bytes) (old : FlowInstance)
      → lookup (codes "device_" ++ name) g.flow ≡ some old
      → (count : ℕ) (made : Option Device) → create_device config count name (pos count) team ≡ made
      → created os json dir sha256 wg config seed g made ≡ (false, g)
  unfolding created registered device_instance
  created_taken seed g name team old taken count none e = refl
  created_taken seed g name team old taken count (some dev) e =
      ap (registered os json dir sha256 wg config seed g dev) (
        add_instance_taken g.flow (device_instance dev) old (
          subst (λ n. lookup (codes "device_" ++ n) g.flow ≡ some old)
            (sym (create_device-fields config count count name team dev e).0) taken))

  -- A device whose name is no valid key, or whose host name is taken, is refused, and nothing
  -- has changed.
  add_device_refused :
      (seed : ℕ) (g : Devices os wg) (name team : Bytes)
      → (validate_key name ≡ none)
        ⊎ ((old : FlowInstance) × (lookup (codes "device_" ++ name) g.flow ≡ some old))
      → add_device os json dir sha256 wg config seed g name team ≡ (false, g)
  unfolding add_device valid_name
  add_device_refused seed g name team (inl invalid) = rw (invalid) refl
  add_device_refused seed g name team (inr (old, taken)) = elim (Option-cases (validate_key name)) [
    | inl invalid ↦ rw (invalid) refl
    | inr (valid, ok) ↦ rw (ok) (
        created_taken seed g name team old taken (length g.devices)
          (create_device config (length g.devices) name (pos (length g.devices)) team) refl)
  ]
