-- ===== src/Ssh/Forwarding.antt =====
-- Where the SSH server forwards a channel to, and when it crashes.
use tinyrange_ad.Common.{
  ◌⊎◌, List, Bool, true, Option, none, some, ◌≡◌, ◌≢◌, inl, inr, refl, ◌∙◌, ap, arith, Bool-cases,
  All,
}
use tinyrange_ad.Common.Outcome.{Outcome, ok, panic, >>=-eq-ok}
use tinyrange_ad.Common.Text.{Bytes, codes, eqb, eqb_iff}
use tinyrange_ad.Net.{ip_port, vm_ssh_port}
use tinyrange_ad.Flow.Router.{FlowRouter, FlowInstance, FlowService, dial_context}
use tinyrange_ad.Flow.Router.Dialing.{Found, dial_context-Found}
use tinyrange_ad.Game.Theft.{ok_injective}
use tinyrange_ad.Team.{Team}
use tinyrange_ad.Team.Lookup.{
  instance_from_name, instance_from_name-returns, instance_from_name-found,
  instance_from_name-named, OfTeams, HasInstance,
}
use tinyrange_ad.Ssh.{NewChannel, forwarded, proxied, dialled, requested_name, ssh_channel}
use tinyrange_ad.Ssh.Requests.{Malformed, requested_name-panic}

not_panic : {A : Type 0} (o : Outcome A) → o ≢ panic → (a : A) × (o ≡ ok a)
not_panic (ok a) h = (a, refl)
not_panic panic h = absurd (h refl)

module _ (router : FlowRouter) (scorebot : Option FlowInstance) (teams : List Team)
    (connects : FlowInstance → FlowService → Bool) where
  -- The channel names an instance by its host name: one of a team's machines, or the scorebot, whose
  -- name is `scorebot`. The router knows the instance's SSH address.
  unfoldable pub ForwardedTo : NewChannel → FlowInstance → FlowService → Type 0
  ForwardedTo channel t s =
      (name : Bytes) × (inst : FlowInstance) × (channel.channel_type ≡ codes "direct-tcpip")
      × (requested_name channel.extra_data ≡ ok name)
      × ((name ≡ codes "scorebot") × (scorebot ≡ some inst)
          ⊎ (inst.hostname ≡ name) × OfTeams inst teams)
      × Found router (ip_port inst.hostname vm_ssh_port) t s
      × (connects t s ≡ true)

  proxied-forwarded :
      (accepts : Bool) (found : Option (FlowInstance × FlowService)) (t : FlowInstance)
      (s : FlowService)
      → proxied connects accepts found ≡ forwarded t s
      → (found ≡ some (t, s)) × (connects t s ≡ true)
  unfolding proxied
  proxied-forwarded accepts none t s h = cc
  proxied-forwarded accepts (some (target, service)) t s h =
      elim (Bool-cases (connects target service)) [
        | inr e ↦ absurd (ground (arith, h, e))
        | inl e ↦ elim (Bool-cases accepts) [
          | inr f ↦ absurd (ground (arith, h, e, f))
          | inl f ↦
              let same : forwarded target service ≡ forwarded t s = ground (arith, h, e, f) in
              (cc, cc)
        ]
      ]

  dialled-forwarded :
      (accepts : Bool) (name : Bytes) (found : Option (Option FlowInstance)) (t : FlowInstance)
      (s : FlowService)
      → dialled router connects accepts name found ≡ ok (forwarded t s)
      → (inst : FlowInstance) × (found ≡ some (some inst))
        × Found router (ip_port inst.hostname vm_ssh_port) t s
        × (connects t s ≡ true)
  unfolding dialled
  dialled-forwarded accepts name none t s h = absurd (cc)
  dialled-forwarded accepts name (some none) t s h = cc
  dialled-forwarded accepts name (some (some inst)) t s h =
      let address = ip_port inst.hostname vm_ssh_port in
      let (is_dialled, up) =
        proxied-forwarded accepts (dial_context router none (codes "tcp") address) t s
          (ok_injective h) in
      (inst, refl, dial_context-Found router (codes "tcp") address t s is_dialled, up)

  -- A channel that is forwarded names a machine of a team by its host name, or the scorebot, and goes
  -- to a service that the router finds under the machine's host name and the SSH port, and that a
  -- connection to succeeds.
  pub ssh_channel-forwarded :
      (channel : NewChannel) (t : FlowInstance) (s : FlowService)
      → ssh_channel router scorebot teams connects channel ≡ ok (forwarded t s)
      → ForwardedTo channel t s
  unfolding ssh_channel ForwardedTo
  ssh_channel-forwarded channel t s h =
      let asked = eqb channel.channel_type (codes "direct-tcpip") in
      elim (Bool-cases asked) [
        | inr e ↦ absurd (ground (arith, h, e))
        | inl e ↦
            let (name, is_name, h1) = >>=-eq-ok (requested_name channel.extra_data) _ (rw e at h) in
            let (found, is_found, h2) = >>=-eq-ok (instance_from_name scorebot teams name) _ h1 in
            let (inst, this, target, up) = dialled-forwarded channel.accepts name found t s h2 in
            (
              name,
              inst,
              (eqb_iff channel.channel_type (codes "direct-tcpip")).0 e,
              is_name,
              instance_from_name-named scorebot teams name inst (is_found ∙ ap ok this),
              target,
              up,
            )
      ]

  -- A channel of the type direct-tcpip whose data is malformed crashes the server.
  pub ssh_channel-panic :
      (channel : NewChannel)
      → channel.channel_type ≡ codes "direct-tcpip"
      → Malformed channel.extra_data
      → ssh_channel router scorebot teams connects channel ≡ panic
  unfolding ssh_channel
  ssh_channel-panic channel direct bad =
      let asked : eqb channel.channel_type (codes "direct-tcpip") ≡ true =
        (eqb_iff channel.channel_type (codes "direct-tcpip")).1 direct in
      rw (asked, requested_name-panic channel.extra_data bad) refl

  dialled-returns :
      (accepts : Bool) (name : Bytes) (found : Option (Option FlowInstance))
      → found ≢ some none
      → dialled router connects accepts name found ≢ panic
  unfolding dialled
  dialled-returns accepts name none h e = cc
  dialled-returns accepts name (some none) h e = h refl
  dialled-returns accepts name (some (some inst)) h e = cc

  -- Once the scorebot and every team have their instances, every channel whose data holds a name is
  -- answered.
  pub ssh_channel-returns :
      (channel : NewChannel) (name : Bytes) (inst : FlowInstance)
      → scorebot ≡ some inst
      → All HasInstance teams
      → requested_name channel.extra_data ≡ ok name
      → ssh_channel router scorebot teams connects channel ≢ panic
  unfolding ssh_channel
  ssh_channel-returns channel name inst up has is_name e =
      elim (Bool-cases (eqb channel.channel_type (codes "direct-tcpip"))) [
        | inr other ↦ absurd (ground (arith, e, other))
        | inl asked ↦
            let (found, is_found) =
              not_panic (instance_from_name scorebot teams name)
                (instance_from_name-returns scorebot teams name has) in
            dialled-returns channel.accepts name found
              (λ nil. instance_from_name-found scorebot teams name (λ k. cc) (is_found ∙ ap ok nil))
              (cc)
      ]
