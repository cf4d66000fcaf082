-- ===== src/Wireguard.antt =====
-- The WireGuard router, cmd/ad/wireguard.go: the configurations that it makes and serves.
pub mod Filter
pub mod Configs
use tinyrange_ad.Common.{
  List, [], ◌∷◌, ◌++◌, Bool, true, false, ◌||◌, ◌==◌, Option, none, some, if◌then◌else◌, ◌>>=◌, ℤ,
  ℕ,
}
use tinyrange_ad.Common.Text.{Bytes, codes, eqb, split, join, cut}
use tinyrange_ad.Common.Dict.{lookup, insert, bytes_eq}
use tinyrange_ad.Common.Decimal.{itoa}
use tinyrange_ad.Common.Base64.{hex}
use tinyrange_ad.Common.Encoding.{hex_decode, encode_std}
use tinyrange_ad.Net.{Ip, host_ip, ip_string, split_host_port}
use tinyrange_ad.Flow.Router.{FlowInstance}

pub record ConfigEntry : Type 0 where
  pub config : Bytes
  pub hostname : Bytes

-- `wireguardRouter` without its mutex, which makes each call one step.
pub record WireguardRouter : Type 0 where
  pub listen_address : Bytes
  pub external_address : Bytes
  pub mtu : ℤ
  pub server_url : Bytes
  pub config_salt : Bytes
  pub configs : List (Bytes × ConfigEntry)

-- The tunnels of the library github.com/tinyrange/wireguard. A handler is an instance of the flow
-- router, and the keys that a new server draws are those of the seed.
pub record Wireguard : Type 1 where
  pub Server : Type 0
  pub new_server : ℕ → Ip → ℤ → FlowInstance → Option Server
  pub create_peer : Server → Bytes → Option (Bytes × Server)
  pub get_config : Server → Option Bytes
  pub new_from_config : Ip → ℤ → Bytes → FlowInstance → Option Server

-- What `translateToDeviceConfig` reads of a configuration.
pub record PeerFields : Type 0 where
  pub private_key : Bytes
  pub public_key : Bytes
  pub endpoint : Bytes
  pub listen_port : Bytes

set_field : Bytes → Bytes → PeerFields → PeerFields
set_field k v f =
    if eqb k (codes "private_key")
    then record f { private_key = v }
    else if eqb k (codes "public_key")
    then record f { public_key = v }
    else if eqb k (codes "endpoint")
    then record f { endpoint = v }
    else if eqb k (codes "listen_port")
    then record f { listen_port = v }
    else f

read_pair : Bytes → Option (Bytes × Bytes) → PeerFields → Option PeerFields
unfolding set_field
read_pair line none f = if eqb line [] then some f else none
read_pair line (some (k, v)) f = some (set_field k v f)

-- The loop over the lines; a line that is neither empty nor a pair is an error.
unfoldable pub read_lines : List Bytes → PeerFields → Option PeerFields
unfolding read_pair cut
read_lines [] f = some f
read_lines (line ∷ lines) f = read_pair line (cut b'=' line) f >>= λ g. read_lines lines g

no_fields : PeerFields
no_fields = record { private_key = []; public_key = []; endpoint = []; listen_port = [] }

newline : Bytes
newline = 10 ∷ []

-- The text of the device's configuration, up to its endpoint.
device_text : Bytes → ℤ → Bytes → Bytes → Bytes → Bytes
unfolding newline
device_text ip mtu private_key public_key endpoint =
    codes "[Interface]"
    ++ newline
    ++ codes "Address = "
    ++ ip
    ++ newline
    ++ codes "PrivateKey = "
    ++ private_key
    ++ newline
    ++ codes "MTU = "
    ++ itoa mtu
    ++ newline
    ++ newline
    ++ codes "[Peer]"
    ++ newline
    ++ codes "PublicKey = "
    ++ public_key
    ++ newline
    ++ codes "AllowedIPs = 10.40.0.0/16"
    ++ newline
    ++ codes "Endpoint = "
    ++ endpoint
    ++ newline

-- `translateToDeviceConfig`.
unfoldable pub translate_to_device_config : WireguardRouter → Bytes → Bytes → Option Bytes
unfolding read_lines no_fields hex_decode device_text encode_std
translate_to_device_config r ip peer_config = read_lines (split peer_config 10) no_fields >>= λ f.
    hex_decode f.private_key >>= λ private. hex_decode f.public_key >>= λ public. some (
      device_text ip r.mtu (encode_std private) (encode_std public)
        (if eqb f.listen_port [] then f.endpoint else r.external_address ++ (b':' ∷ f.listen_port)))

unfoldable pub listed : Bytes → List Bytes → Bool
listed k [] = false
listed k (key ∷ keys) = eqb k key || listed k keys

keep_pair : List Bytes → Bytes → Option (Bytes × Bytes) → List Bytes → Option (List Bytes)
unfolding listed
keep_pair keys line none rest = if eqb line [] then some rest else none
keep_pair keys line (some (k, _)) rest = some (if listed k keys then line ∷ rest else rest)

-- The loop of `filterConfigToKeys`.
unfoldable pub keep_lines : List Bytes → List Bytes → Option (List Bytes)
unfolding keep_pair cut
keep_lines keys [] = some []
keep_lines keys (line ∷ lines) =
    keep_lines keys lines >>= λ rest. keep_pair keys line (cut b'=' line) rest

-- `filterConfigToKeys`.
unfoldable pub filter_config_to_keys : Bytes → List Bytes → Option Bytes
unfolding keep_lines newline
filter_config_to_keys config keys =
    keep_lines keys (split config 10) >>= λ lines. some (join lines newline)

needs_brackets : Bytes → Bool
needs_brackets [] = false
needs_brackets (c ∷ s) = c == b':' || c == b'%' || needs_brackets s

-- `net.JoinHostPort`.
join_host_port : Bytes → Bytes → Bytes
unfolding needs_brackets
join_host_port host port =
    if needs_brackets host then b'[' ∷ host ++ (b']' ∷ b':' ∷ port) else host ++ (b':' ∷ port)

-- `wireguardInstance.DialContext` up to the call of the tunnel: the address that it dials.
unfoldable pub dial_host : Bytes → Bytes → Option Bytes
unfolding join_host_port
dial_host internal_ip address = split_host_port address >>= λ r.
    some (join_host_port (if eqb internal_ip [] then r.0 else internal_ip) r.1)

-- What a `GET /wireguard/{config}` is answered.
pub data Served : Type 0 where
  not_found : Served
  served : Bytes → Bytes → Served

unfoldable pub disposition : Bytes → Bytes
disposition hostname = codes "attachment; filename=\"" ++ hostname ++ codes ".conf\""

unfoldable pub answer : Option ConfigEntry → Served
unfolding disposition
answer none = not_found
answer (some entry) = served (disposition entry.hostname) entry.config

-- `serveConfig`: the header Content-Disposition and the body.
unfoldable pub serve_config : WireguardRouter → Bytes → Served
unfolding answer
serve_config r config_key = answer (lookup config_key r.configs)
