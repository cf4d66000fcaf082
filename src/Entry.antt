-- ===== src/Entry.antt =====
-- The entry of the program, `appMain` of cmd/ad/main.go: from the options to the game that is run.
pub mod Teams
use mathlib.Core.List.{foldl}
use tinyrange_ad.Common.{
  ℕ, List, [], ◌∷◌, ◌++◌, Bool, true, false, not, ◌&&◌, ◌||◌, ◌==◌, Option, none, some,
  if◌then◌else◌, ◌>>=◌, ℤ, pos,
}
use tinyrange_ad.Common.Int.{◌==ℤ◌}
use tinyrange_ad.Common.Text.{Bytes, codes, eqb, trim_suffix}
use tinyrange_ad.Persist.{base, file_dir, filepath_join}
use tinyrange_ad.Team.{Team}
use tinyrange_ad.Tick.{add_team}

-- The options that the game depends on.
pub record Options : Type 0 where
  pub config_file : Bytes
  pub nop_teams : List Bytes
  pub tinyrange : Bytes
  pub tinyrange_vmm : Bytes
  pub ssh_server : Bytes
  pub ssh_server_host_key : Bytes
  pub rebuild : Bool
  pub wait : Bool
  pub wait_after : Bool
  pub listen_ip : Bytes
  pub external_ip : Bytes
  pub public_port : ℤ
  pub persistance_path : Bytes
  pub router_mtu : ℤ

-- The configuration that a file holds, as package yaml decodes it; `C` is the type of its rest.
pub record Decoded (C : Type 0) : Type 0 where
  pub version : ℤ
  pub wait : Bool
  pub wait_after : Bool
  pub rest : C

-- The files and programs that are found.
pub record Surroundings (C : Type 0) : Type 0 where
  pub open_file : Bytes → Option Bytes
  pub mkdir_all : Bytes → Bool
  pub decode : Bytes → Option (Decoded C)
  pub exists_file : Bytes → Bool
  pub look_path : Bytes → Option Bytes

-- The game as it is run, and where it keeps its state.
pub record Startup (C : Type 0) : Type 0 where
  pub persist_dir : Bytes
  pub base_path : Bytes
  pub config : C
  pub wait : Bool
  pub wait_after : Bool
  pub ssh_server : Bytes
  pub ssh_server_host_key : Bytes
  pub rebuild : Bool
  pub listen_ip : Bytes
  pub external_ip : Bytes
  pub public_port : ℤ
  pub router_mtu : ℤ
  pub tinyrange_path : Bytes
  pub vmm_path : Bytes
  pub teams : List Team

abbrev pub current_config_version : ℤ
current_config_version = pos 1

has_slash : Bytes → Bool
has_slash [] = false
has_slash (c ∷ s) = c == b'/' || has_slash s

-- `filepath.Ext`: from the last dot of the last element on.
unfoldable pub file_ext : Bytes → Bytes
unfolding has_slash
file_ext [] = []
file_ext (c ∷ s) =
    let later = file_ext s in
    if not (eqb later []) then later else if c == b'.' && not (has_slash s) then c ∷ s else []

-- The name of the configuration.
unfoldable pub config_name : Bytes → Bytes
unfolding file_ext trim_suffix
config_name path = trim_suffix (base path) (file_ext path)

module _ {C : Type 0} (out : Surroundings C) where
  find_tinyrange : Options → Option Bytes
  find_tinyrange o =
      if not (eqb o.tinyrange []) then some o.tinyrange else out.look_path (codes "tinyrange")

  -- Beside a program that is named, the path may stay empty.
  find_vmm : Options → Option Bytes
  find_vmm o =
      if not (eqb o.tinyrange_vmm [])
      then some o.tinyrange_vmm
      else if not (eqb o.tinyrange [])
      then (let beside = filepath_join (file_dir o.tinyrange ∷ codes "tinyrange_qemu" ∷ []) in
          if out.exists_file beside then some beside else some [])
      else out.look_path (codes "tinyrange_qemu")

  started : Options → Bytes → Decoded C → Bytes → Bytes → Startup C
  started o persist_dir config tinyrange vmm = record {
    persist_dir = persist_dir;
    base_path = file_dir o.config_file;
    config = config.rest;
    wait = o.wait || config.wait;
    wait_after = o.wait_after || config.wait_after;
    ssh_server = o.ssh_server;
    ssh_server_host_key = o.ssh_server_host_key;
    rebuild = o.rebuild;
    listen_ip = o.listen_ip;
    external_ip = if eqb o.external_ip [] then o.listen_ip else o.external_ip;
    public_port = o.public_port;
    router_mtu = o.router_mtu;
    tinyrange_path = tinyrange;
    vmm_path = vmm;
    teams = foldl add_team [] o.nop_teams;
  }

  configured : Options → Bytes → Decoded C → Option (Startup C)
  unfolding find_tinyrange find_vmm started
  configured o persist_dir config =
      if not (config.version ==ℤ current_config_version)
      then none
      else (find_tinyrange o >>= λ tinyrange.
          find_vmm o >>= λ vmm. some (started o persist_dir config tinyrange vmm))

  -- `appMain` up to the call of `Run`; `none` is an error.
  unfoldable pub app_main : Options → Option (Startup C)
  unfolding configured config_name
  app_main o =
      if eqb o.config_file []
      then none
      else (out.open_file o.config_file >>= λ text.
          let persist_dir = filepath_join (o.persistance_path ∷ config_name o.config_file ∷ []) in
          if not (out.mkdir_all persist_dir)
          then none
          else (out.decode text >>= λ config. configured o persist_dir config))
