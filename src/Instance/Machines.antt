-- ===== src/Instance/Machines.antt =====
-- Starting virtual machines: `Start` of cmd/ad/tinyrange.go and `StartInstanceFromConfig` of
-- cmd/ad/game.go.
pub mod Starting
use tinyrange_ad.Common.{
  ℕ, List, [], ◌∷◌, ◌++◌, Bool, true, false, Option, none, some, if◌then◌else◌,
}
use tinyrange_ad.Common.Outcome.{Outcome, ok, panic}
use tinyrange_ad.Common.Text.{Bytes, codes}
use tinyrange_ad.Common.Dict.{lookup, bytes_eq}
use tinyrange_ad.Net.{Ip, vm_ip, ip_string}
use tinyrange_ad.Flow.Router.{FlowRouter, add_instance}
use tinyrange_ad.Config.{InstanceConfig}
use tinyrange_ad.Persist.Database.{Disk, ensure_path}
use tinyrange_ad.Wireguard.{WireguardRouter, Wireguard}
use tinyrange_ad.Wireguard.Configs.{WireguardInstance, add_endpoint}
use tinyrange_ad.Instance.{
  TinyRangeInstance, tiny_range_flow_instance, new_tiny_range_instance, Templates,
  ensure_template_cached,
}

-- The arguments of the program that runs a virtual machine.
unfoldable pub start_args : Bytes → Bytes → Bytes → Bool → Bytes → List Bytes
start_args vmm config_url ssh_path verbose template =
    vmm
      ∷ codes "-wireguard-url"
      ∷ config_url
      ∷ codes "-secure-ssh"
      ∷ ssh_path
      ∷ codes "-persist-path"
      ∷ codes "persist"
      ∷ (if verbose then codes "-verbose" ∷ [] else [])
    ++ template ∷ []

-- What the game keeps for its virtual machines.
pub record Machines (os : Disk) : Type 0 where
  pub templates : Templates
  pub instances : List TinyRangeInstance
  pub flow : FlowRouter
  pub router : WireguardRouter
  pub disk : os.State

-- The pointer that was appended last, with what it points to changed.
unfoldable pub set_last : TinyRangeInstance → List TinyRangeInstance → List TinyRangeInstance
set_last t [] = []
set_last t (x ∷ []) = t ∷ []
set_last t (x ∷ y ∷ l) = x ∷ set_last t (y ∷ l)

-- The outside of a start: the file system, the tunnels, the program that builds a template, and
-- whether the program that runs a virtual machine starts, for its arguments.
module _ (os : Disk) (sha256 : Bytes → Bytes) (wg : Wireguard) (dir vmm : Bytes) (verbose : Bool)
    (build : Bytes → Bytes → Option Bytes) (launch : List Bytes → Bool) where
  -- `Start` with the template from the cache.
  launched :
      TinyRangeInstance → WireguardInstance wg → Bytes → Option Bytes → Option TinyRangeInstance
  unfolding start_args
  launched t w ssh_path none = none
  launched t w ssh_path (some template) =
      if launch (start_args vmm w.config_url ssh_path verbose template)
      then some (record t { has_process = true })
      else none

  with_process : Machines os → Option TinyRangeInstance → Machines os × Option TinyRangeInstance
  with_process g none = (g, none)
  with_process g (some t) = (record g { instances = set_last t g.instances }, some t)

  with_path :
      Machines os
      → TinyRangeInstance
      → WireguardInstance wg
      → Option Bytes × os.State
      → Machines os × Option TinyRangeInstance
  unfolding launched with_process
  with_path g t w (none, s) = (record g { disk = s }, none)
  with_path g t w (some ssh_path, s) =
      with_process (record g { disk = s })
        (launched t w ssh_path (lookup t.config.template g.templates))

  with_endpoint :
      Machines os
      → TinyRangeInstance
      → WireguardRouter × Option (WireguardInstance wg)
      → Machines os × Option TinyRangeInstance
  unfolding with_path
  with_endpoint g t (router, none) = (record g { router = router }, none)
  with_endpoint g t (router, some w) =
      with_path (record g { router = router }) t w (ensure_path os dir (codes "ssh") t.name g.disk)

  in_flow :
      ℕ
      → Machines os
      → TinyRangeInstance
      → Option FlowRouter
      → Machines os × Option TinyRangeInstance
  unfolding with_endpoint
  in_flow seed g t none = (g, none)
  in_flow seed g t (some flow) =
      with_endpoint (record g { flow = flow }) t
        (add_endpoint sha256 wg seed g.router (tiny_range_flow_instance t) (ip_string vm_ip))

  with_template :
      ℕ
      → Machines os
      → Bytes
      → Ip
      → InstanceConfig
      → Outcome (Bool × Templates)
      → Outcome (Machines os × Option TinyRangeInstance)
  unfolding in_flow new_tiny_range_instance
  with_template seed g name ip config panic = panic
  with_template seed g name ip config (ok (false, templates)) =
      ok (record g { templates = templates }, none)
  with_template seed g name ip config (ok (true, templates)) =
      let t = new_tiny_range_instance name ip config in
      ok (
        in_flow seed (record g { templates = templates; instances = g.instances ++ t ∷ [] }) t
          (add_instance g.flow (tiny_range_flow_instance t)))

  -- `StartInstanceFromConfig`: the state that it leaves, and the instance, `none` for an error. An
  -- error leaves what was done before it.
  unfoldable pub start_instance_from_config :
      ℕ
      → Machines os
      → Bytes
      → Ip
      → InstanceConfig
      → Outcome (Machines os × Option TinyRangeInstance)
  unfolding with_template ensure_template_cached
  start_instance_from_config seed g name ip config =
      with_template seed g name ip config
        (ensure_template_cached build g.templates config.template config.ram)
