-- ===== src/Instance/Machines/Starting.antt =====
-- `StartInstanceFromConfig`: what a start that succeeds has done.
use mathlib.Core.Path.{subst}
use tinyrange_ad.Game.Theft.{ok_injective}
use tinyrange_ad.Common.{
  some_injective, ℕ, List, [], ◌∷◌, ◌++◌, Bool, true, false, Option, none, some, if◌then◌else◌, ◌≡◌,
  refl, sym, ap, ◌∙◌, Bool-cases, inl, inr,
}
use tinyrange_ad.Common.Outcome.{Outcome, ok, panic}
use tinyrange_ad.Common.Text.{Bytes, codes, eqb_refl}
use tinyrange_ad.Common.Dict.{lookup, bytes_eq}
use tinyrange_ad.Net.{Ip, ip_string, vm_ip}
use tinyrange_ad.Flow.Router.{FlowRouter, add_instance}
use tinyrange_ad.Config.{InstanceConfig}
use tinyrange_ad.Persist.Database.{Disk, ensure_path}
use tinyrange_ad.Wireguard.{WireguardRouter, Wireguard}
use tinyrange_ad.Wireguard.Configs.{WireguardInstance, add_endpoint}
use tinyrange_ad.Flow.Router.Registry.{add_instance_cases}
use tinyrange_ad.Instance.{
  TinyRangeInstance, tiny_range_flow_instance, new_tiny_range_instance, Templates,
  ensure_template_cached,
}
use tinyrange_ad.Instance.Machines.{
  Machines, start_args, launched, with_process, with_path, with_endpoint, in_flow, with_template,
  start_instance_from_config,
}

module _ (os : Disk) (sha256 : Bytes → Bytes) (wg : Wireguard) (dir vmm : Bytes) (verbose : Bool)
    (build : Bytes → Bytes → Option Bytes) (launch : List Bytes → Bool) where
  launched-running :
      (t t' : TinyRangeInstance) (w : WireguardInstance wg) (ssh_path : Bytes)
      (template : Option Bytes)
      → launched os sha256 wg dir vmm verbose build launch t w ssh_path template ≡ some t'
      → (file : Bytes) × (template ≡ some file)
        × (launch (start_args vmm w.config_url ssh_path verbose file) ≡ true)
        × (t' ≡ record t { has_process = true })
  unfolding launched
  launched-running t t' w ssh_path none h = cc
  launched-running t t' w ssh_path (some file) h =
      elim (Bool-cases (launch (start_args vmm w.config_url ssh_path verbose file))) [
        | inl e ↦ (file, refl, e, cc)
        | inr e ↦ cc
      ]

  -- The instance is in the flow router under its name, which was free, its template is cached, and
  -- the program was started with that template; it has no flows, tags and services.
  unfoldable pub Up : Machines os → Machines os → TinyRangeInstance → TinyRangeInstance → Type 0
  Up g g' t t' =
      (file url ssh_path : Bytes) × (lookup t.name g.flow ≡ none)
      × (lookup t.name g'.flow ≡ some (tiny_range_flow_instance t))
      × (lookup t.config.template g'.templates ≡ some file)
      × (launch (start_args vmm url ssh_path verbose file) ≡ true)
      × (t' ≡ record t { has_process = true })

  with_process-kept :
      (g : Machines os) (made : Option TinyRangeInstance)
      → ((with_process os sha256 wg dir vmm verbose build launch g made).1 ≡ made)
        × ((with_process os sha256 wg dir vmm verbose build launch g made).0.flow ≡ g.flow)
        × ((with_process os sha256 wg dir vmm verbose build launch g made).0.templates
            ≡ g.templates)
  unfolding with_process
  with_process-kept g none = (refl, refl, refl)
  with_process-kept g (some t) = (refl, refl, refl)

  with_path-Up :
      (g g0 : Machines os) (t t' : TinyRangeInstance) (w : WireguardInstance wg)
      (made : Option Bytes × os.State)
      → lookup t.name g0.flow ≡ none
      → lookup t.name g.flow ≡ some (tiny_range_flow_instance t)
      → (with_path os sha256 wg dir vmm verbose build launch g t w made).1 ≡ some t'
      → Up g0 (with_path os sha256 wg dir vmm verbose build launch g t w made).0 t t'
  unfolding with_path Up
  with_path-Up g g0 t t' w (none, s) free there h = cc
  with_path-Up g g0 t t' w (some ssh_path, s) free there h =
      let now : Machines os = record g { disk = s } in
      let made =
        launched os sha256 wg dir vmm verbose build launch t w ssh_path
          (lookup t.config.template g.templates) in
      let (all, flow, templates) = with_process-kept now made in
      let (file, cached, runs, same) =
        launched-running t t' w ssh_path (lookup t.config.template g.templates) (sym all ∙ h) in
      (
        file,
        w.config_url,
        ssh_path,
        free,
        ap (lookup t.name) flow ∙ there,
        ap (lookup t.config.template) templates ∙ cached,
        runs,
        same,
      )

  with_endpoint-Up :
      (g g0 : Machines os) (t t' : TinyRangeInstance)
      (made : WireguardRouter × Option (WireguardInstance wg))
      → lookup t.name g0.flow ≡ none
      → lookup t.name g.flow ≡ some (tiny_range_flow_instance t)
      → (with_endpoint os sha256 wg dir vmm verbose build launch g t made).1 ≡ some t'
      → Up g0 (with_endpoint os sha256 wg dir vmm verbose build launch g t made).0 t t'
  unfolding with_endpoint
  with_endpoint-Up g g0 t t' (router, none) free there h = cc
  with_endpoint-Up g g0 t t' (router, some w) free there h =
      with_path-Up (record g { router = router }) g0 t t' w
        (ensure_path os dir (codes "ssh") t.name g.disk) free there h

  in_flow-Up :
      (seed : ℕ) (g : Machines os) (t t' : TinyRangeInstance) (flow : Option FlowRouter)
      → add_instance g.flow (tiny_range_flow_instance t) ≡ flow
      → (in_flow os sha256 wg dir vmm verbose build launch seed g t flow).1 ≡ some t'
      → Up g (in_flow os sha256 wg dir vmm verbose build launch seed g t flow).0 t t'
  unfolding in_flow tiny_range_flow_instance
  in_flow-Up seed g t t' none added h = cc
  in_flow-Up seed g t t' (some flow) added h =
      elim (add_instance_cases g.flow (tiny_range_flow_instance t)) [
        | inl (refused, _) ↦ cc
        | inr (flow', is_flow, free, found) ↦
            with_endpoint-Up (record g { flow = flow }) g t t'
              (add_endpoint sha256 wg seed g.router (tiny_range_flow_instance t) (ip_string vm_ip))
              free
              (ap (lookup t.name) (some_injective (sym added ∙ is_flow))
                ∙ found t.name
                ∙ ap (λ b. if b then some (tiny_range_flow_instance t) else lookup t.name g.flow)
                    (eqb_refl t.name))
              h
      ]

  with_template-Up :
      (seed : ℕ) (g g' : Machines os) (name : Bytes) (ip : Ip) (config : InstanceConfig)
      (t' : TinyRangeInstance) (cached : Outcome (Bool × Templates))
      → with_template os sha256 wg dir vmm verbose build launch seed g name ip config cached
        ≡ ok (g', some t')
      → Up g g' (new_tiny_range_instance name ip config) t'
  unfolding with_template Up
  with_template-Up seed g g' name ip config t' panic h = cc
  with_template-Up seed g g' name ip config t' (ok (false, templates)) h = cc
  with_template-Up seed g g' name ip config t' (ok (true, templates)) h =
      let t = new_tiny_range_instance name ip config in
      let g1 : Machines os = record g {
        templates = templates;
        instances = g.instances ++ t ∷ [];
      } in
      let made =
        in_flow os sha256 wg dir vmm verbose build launch seed g1 t
          (add_instance g.flow (tiny_range_flow_instance t)) in
      let same : made ≡ (g', some t') = ok_injective h in
      subst (λ x. Up g x t t') (ap (λ r. r.0) same)
        (in_flow-Up seed g1 t t' (add_instance g.flow (tiny_range_flow_instance t)) refl
          (ap (λ r. r.1) same))

  -- An instance that was started is in the flow router under its name, which was free; its template
  -- is cached, and the program that runs it was started with that template.
  pub start_instance_from_config-Up :
      (seed : ℕ) (g g' : Machines os) (name : Bytes) (ip : Ip) (config : InstanceConfig)
      (t' : TinyRangeInstance)
      → start_instance_from_config os sha256 wg dir vmm verbose build launch seed g name ip config
        ≡ ok (g', some t')
      → Up g g' (new_tiny_range_instance name ip config) t'
  unfolding start_instance_from_config
  start_instance_from_config-Up seed g g' name ip config t' h =
      with_template-Up seed g g' name ip config t'
        (ensure_template_cached build g.templates config.template config.ram) h

  -- The started instance has the name that it was started with.
  pub start_instance_from_config-name :
      (seed : ℕ) (g g' : Machines os) (name : Bytes) (ip : Ip) (config : InstanceConfig)
      (t' : TinyRangeInstance)
      → start_instance_from_config os sha256 wg dir vmm verbose build launch seed g name ip config
        ≡ ok (g', some t')
      → t'.name ≡ name
  unfolding Up new_tiny_range_instance
  start_instance_from_config-name seed g g' name ip config t' h =
      let (_, _, _, _, _, _, _, same) =
        start_instance_from_config-Up seed g g' name ip config t' h in
      ap (λ t. t.name) same
