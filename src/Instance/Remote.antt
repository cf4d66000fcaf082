-- ===== src/Instance/Remote.antt =====
-- Sessions on a virtual machine, cmd/ad/tinyrange.go: its SSH keys, commands, and the terminal in the
-- browser.
pub mod Keys
pub mod Output
use tinyrange_ad.Common.{
  List, [], ◌∷◌, ◌++◌, Bool, true, false, not, Option, none, some, if◌then◌else◌, ℤ,
}
use tinyrange_ad.Common.Progress.{Progress, failed, waiting, reached}
use tinyrange_ad.Common.Base64.{encode}
use tinyrange_ad.Common.Text.{Bytes, codes, eqb}
use tinyrange_ad.Net.{ip_port, ip_string, vm_ssh_port}
use tinyrange_ad.Flow.Router.{FlowRouter, FlowInstance, FlowService, dial_context}
use tinyrange_ad.Instance.{TinyRangeInstance}

-- `SecureSSHConfig`.
pub record SecureSshConfig : Type 0 where
  pub host_key : Bytes
  pub public_key : Bytes
  pub password : Bytes

-- `ssh.ClientConfig` as it is made here: the password of root, and the host key.
pub record ClientConfig : Type 0 where
  pub login_password : Bytes
  pub fixed_host_key : Bytes

-- The SSH side of an instance; no path is the empty one, and no client is nil.
pub record SshSide : Type 0 where
  pub secure_ssh_path : Bytes
  pub secure : SecureSshConfig
  pub client : Option ClientConfig

-- The file at the path, which the virtual machine writes: whether it ever appears, and what opening
-- it reads; with package json and `ssh.ParseAuthorizedKey`.
pub record KeyFile : Type 0 where
  pub appears : Bool
  pub opened : Option Bytes
  pub decode : Bytes → Option SecureSshConfig
  pub parse_key : Bytes → Option Bytes

keyed : SshSide → SecureSshConfig → Option Bytes → SshSide × Progress ClientConfig
keyed s secure none = (record s { secure = secure }, failed)
keyed s secure (some key) =
    let made : ClientConfig = record { login_password = secure.password; fixed_host_key = key } in
    (record s { secure = secure; client = some made }, reached made)

decoded : KeyFile → SshSide → Option SecureSshConfig → SshSide × Progress ClientConfig
unfolding keyed
decoded file s none = (s, failed)
decoded file s (some secure) = keyed s secure (file.parse_key secure.public_key)

file_read : KeyFile → SshSide → Option Bytes → SshSide × Progress ClientConfig
unfolding decoded
file_read file s none = (s, failed)
file_read file s (some text) = decoded file s (file.decode text)

no_client : KeyFile → SshSide → SshSide × Progress ClientConfig
unfolding file_read
no_client file s =
    if eqb s.secure_ssh_path []
    then (s, failed)
    else if not file.appears
    then (s, waiting)
    else file_read file s file.opened

held : KeyFile → SshSide → Option ClientConfig → SshSide × Progress ClientConfig
unfolding no_client
held file s none = no_client file s
held file s (some c) = (s, reached c)

-- `clientConfig`: made once, and kept.
unfoldable pub client_config : KeyFile → SshSide → SshSide × Progress ClientConfig
unfolding held
client_config file s = held file s s.client

with_secure : SshSide × Progress ClientConfig → SshSide × Progress SecureSshConfig
with_secure (s, failed) = (s, failed)
with_secure (s, waiting) = (s, waiting)
with_secure (s, reached c) = (s, reached s.secure)

-- `SecureConfig`.
unfoldable pub secure_config : KeyFile → SshSide → SshSide × Progress SecureSshConfig
unfolding with_secure client_config
secure_config file s = with_secure (client_config file s)

-- The SSH library and the tunnel: whether a connection to a service succeeds, and the output of a
-- command, with whether it ended without an error.
pub record Shell : Type 0 where
  pub connects : FlowInstance → FlowService → Bool
  pub output_of : ClientConfig → Bytes → Option (Bytes × Bool)

command_output : Option (Bytes × Bool) → Progress Bytes
command_output none = failed
command_output (some (output, false)) = failed
command_output (some (output, true)) = reached output

logged_in : Shell → Bytes → SshSide × Progress ClientConfig → SshSide × Progress Bytes
unfolding command_output
logged_in shell command (s, failed) = (s, failed)
logged_in shell command (s, waiting) = (s, waiting)
logged_in shell command (s, reached c) = (s, command_output (shell.output_of c command))

connected :
    KeyFile
    → Shell
    → Bytes
    → SshSide
    → Option (FlowInstance × FlowService)
    → SshSide × Progress Bytes
unfolding logged_in
connected file shell command s none = (s, failed)
connected file shell command s (some (target, service)) =
    if not (shell.connects target service)
    then (s, failed)
    else logged_in shell command (client_config file s)

-- `RunCommand`.
unfoldable pub run_command :
    KeyFile → Shell → FlowRouter → TinyRangeInstance → SshSide → Bytes → SshSide × Progress Bytes
unfolding connected
run_command file shell router t s command =
    if not t.has_process
    then (s, failed)
    else connected file shell command s
        (dial_context router none (codes "tcp") (ip_port (ip_string t.address) vm_ssh_port))

-- What the web socket sends of the output's chunks, `webSocketWriter.Write`: nothing for an empty
-- one.
unfoldable pub socket_messages : List Bytes → List Bytes
socket_messages [] = []
socket_messages (chunk ∷ chunks) =
    let rest = socket_messages chunks in if eqb chunk [] then rest else encode chunk ∷ rest

-- What the browser sends, and what the session gets of it.
pub data InputEvent : Type 0 where
  resize : ℤ → ℤ → InputEvent
  typed : Bytes → InputEvent

pub data SessionCall : Type 0 where
  window_change : ℤ → ℤ → SessionCall
  stdin_write : Bytes → SessionCall

-- The second loop of `WebSSHHandler`, up to the end of the web socket or a write that fails.
unfoldable pub session_calls : (Bytes → Bool) → List InputEvent → List SessionCall
session_calls writes [] = []
session_calls writes (resize rows cols ∷ events) =
    let rest = session_calls writes events in window_change rows cols ∷ rest
session_calls writes (typed text ∷ events) =
    let rest = session_calls writes events in
    if writes text then stdin_write text ∷ rest else stdin_write text ∷ []
