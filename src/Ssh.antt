-- ===== src/Ssh.antt =====
-- The SSH server, `startSshServer` of cmd/ad/game.go: how it answers the channels that a client opens.
pub mod Requests
pub mod Forwarding
use tinyrange_ad.Common.{
  ℕ, ◌+◌, ◌-◌, ◌*◌, ◌%◌, ◌^◌, List, [], ◌∷◌, ◌++◌, Bool, not, ◌||◌, Option, none, some,
  if◌then◌else◌, length, ltb, take, drop,
}
use tinyrange_ad.Common.Outcome.{Outcome, ok, panic, ◌>>=◌}
use tinyrange_ad.Common.Text.{Bytes, codes, eqb}
use tinyrange_ad.Net.{ip_port, vm_ssh_port}
use tinyrange_ad.Flow.Router.{FlowRouter, FlowInstance, FlowService, dial_context}
use tinyrange_ad.Team.{Team}
use tinyrange_ad.Team.Lookup.{instance_from_name}

-- A channel that a client asks for: its type, its extra data with the memory behind it up to the
-- slice's capacity, and whether the client's side still accepts it.
pub record NewChannel : Type 0 where
  pub channel_type : Bytes
  pub extra_data : Bytes
  pub accepts : Bool

-- `binary.BigEndian.Uint32` of a slice.
unfoldable pub big_endian : Bytes → Outcome ℕ
big_endian (a ∷ b ∷ c ∷ d ∷ rest) = ok (((a * 256 + b) * 256 + c) * 256 + d)
big_endian _ = panic

-- `data[low:high]` within the capacity.
unfoldable pub slice : Bytes → ℕ → ℕ → Outcome Bytes
slice bytes low high =
    if ltb high low || ltb (length bytes) high
    then panic
    else ok (take (high - low) (drop low bytes))

-- The name in the extra data; `4+hostnameLen` is computed in 32 bits.
unfoldable pub requested_name : Bytes → Outcome Bytes
unfolding big_endian slice
requested_name bytes =
    big_endian bytes >>= λ name_length. slice bytes 4 ((4 + name_length) % 2 ^ 32)

-- What becomes of a channel: it is forwarded to a service, it is rejected, for a text, or the
-- client's side has failed.
pub data SshAnswer : Type 0 where
  forwarded : FlowInstance → FlowService → SshAnswer
  rejected : Bytes → SshAnswer
  not_accepted : SshAnswer

-- The connection to the instance. The dial's own error, which is part of the text, is left out.
proxied :
    (FlowInstance → FlowService → Bool) → Bool → Option (FlowInstance × FlowService) → SshAnswer
proxied connects accepts none = rejected (codes "failed to dial instance")
proxied connects accepts (some (target, service)) =
    if not (connects target service)
    then rejected (codes "failed to dial instance")
    else if accepts
    then forwarded target service
    else not_accepted

-- The dial from the router itself; an instance that is nil has no host name.
dialled :
    FlowRouter
    → (FlowInstance → FlowService → Bool)
    → Bool
    → Bytes
    → Option (Option FlowInstance)
    → Outcome SshAnswer
unfolding proxied
dialled router connects accepts name none = ok (rejected (codes "instance not found: " ++ name))
dialled router connects accepts name (some none) = panic
dialled router connects accepts name (some (some inst)) = ok (
    proxied connects accepts
      (dial_context router none (codes "tcp") (ip_port inst.hostname vm_ssh_port)))

-- The parts of the game that the server reads, and whether a connection to a service succeeds.
module _ (router : FlowRouter) (scorebot : Option FlowInstance) (teams : List Team)
    (connects : FlowInstance → FlowService → Bool) where
  unfoldable pub ssh_channel : NewChannel → Outcome SshAnswer
  unfolding requested_name dialled instance_from_name
  ssh_channel channel =
      if eqb channel.channel_type (codes "direct-tcpip")
      then (requested_name channel.extra_data >>= λ name.
          instance_from_name scorebot teams name >>= λ found.
          dialled router connects channel.accepts name found)
      else ok (rejected (codes "unknown channel type: " ++ channel.channel_type))

  -- The next channel of a connection is served after one that was forwarded, and only then.
  go_on : SshAnswer → Outcome (List SshAnswer) → Outcome (List SshAnswer)
  go_on (forwarded target service) rest =
      rest >>= λ answers. ok (forwarded target service ∷ answers)
  go_on (rejected message) rest = ok (rejected message ∷ [])
  go_on not_accepted rest = ok (not_accepted ∷ [])

  unfoldable pub ssh_channels : List NewChannel → Outcome (List SshAnswer)
  unfolding ssh_channel go_on
  ssh_channels [] = ok []
  ssh_channels (channel ∷ channels) =
      let rest = ssh_channels channels in ssh_channel channel >>= λ answer. go_on answer rest
