-- ===== src/Flow/Router/Dialing.antt =====
-- Connections that the program opens itself: `FlowRouter.DialContext`.
use tinyrange_ad.Common.{
  List, [], ◌∷◌, true, ◌||◌, none, some, ◌≡◌, ◌⊎◌, ◌∙◌, inl, inr, refl, arith, Bool-cases,
  Option-cases, >>=-eq-some,
}
use tinyrange_ad.Common.Text.{Bytes, codes, eqb, eqb_iff}
use tinyrange_ad.Common.Decimal.{itoa}
use tinyrange_ad.Net.{ip_string, split_host_port}
use tinyrange_ad.Flow.Router.{
  FlowService, FlowInstance, FlowRouter, handle_connection, dial_address, named, find_service,
  find_target, dial, dial_context,
}
use tinyrange_ad.Flow.Router.Policy.{Any, Permitted, handle_connection_iff}

-- The text is the service's port in decimal, or its name.
abbrev pub Named : Bytes → FlowService → Type 0
Named port s = (itoa s.port ≡ port) ⊎ (s.name ≡ port)

-- The text is the instance's hostname or its address.
abbrev pub Addressed : Bytes → FlowInstance → Type 0
Addressed host t = (t.hostname ≡ host) ⊎ (ip_string t.address ≡ host)

or_texts : (a b c : Bytes) → (eqb a c || eqb b c) ≡ true → (a ≡ c) ⊎ (b ≡ c)
or_texts a b c h = elim (Bool-cases (eqb a c)) [
  | inl e ↦ inl ((eqb_iff a c).0 e)
  | inr e ↦ inr ((eqb_iff b c).0 (ground arith))
]

find_service_sound :
    (port : Bytes) (services : List FlowService) (s : FlowService)
    → find_service port services ≡ some s
    → Any (λ x. x ≡ s) services × Named port s
unfolding find_service
find_service_sound port [] s h = cc
find_service_sound port (service ∷ services) s h = elim (Bool-cases (named port service)) [
  | inl e ↦
      let same : service ≡ s = ground arith in
      (inl same, rw (← same) (or_texts (itoa service.port) service.name port (unfold named in e)))
  | inr e ↦ let (m, n) = find_service_sound port services s (ground arith) in (inr m, n)
]

find_target_sound :
    (router : FlowRouter) (host port : Bytes) (t : FlowInstance) (s : FlowService)
    → find_target router host port ≡ some (t, s)
    → Any (λ e. e.1 ≡ t) router × Addressed host t × Any (λ x. x ≡ s) t.services × Named port s
unfolding find_target
find_target_sound [] host port t s h = cc
find_target_sound ((k, target) ∷ router) host port t s h =
    let rest = find_target_sound router host port t s in
    elim (Bool-cases (eqb target.hostname host || eqb (ip_string target.address) host)) [
      | inl e ↦ elim (Option-cases (find_service port target.services)) [
        | inl missing ↦ let (m, a, l, n) = rest (ground (arith, e, missing)) in (inr m, a, l, n)
        | inr (x, found) ↦
            let here : target ≡ t = ground (arith, e, found) in
            let this : x ≡ s = ground (arith, e, found) in
            let (l, n) = find_service_sound port target.services x found in
            rw (← here, ← this)
              (inl refl, or_texts target.hostname (ip_string target.address) host e, l, n)
      ]
      | inr e ↦ let (m, a, l, n) = rest (ground arith) in (inr m, a, l, n)
    ]

dial_sound :
    (source target t : FlowInstance) (service s : FlowService)
    → dial (some source) target service ≡ some (t, s)
    → (target ≡ t) × (service ≡ s) × (handle_connection source target service ≡ true)
unfolding dial handle_connection
dial_sound source target t service s h = (ground arith, ground arith, ground arith)

-- What a dial that succeeds has found.
pub record Dialled (router : FlowRouter) (source : FlowInstance) (address : Bytes)
    (t : FlowInstance) (s : FlowService) : Type 0 where
  pub host : Bytes
  pub port : Bytes
  pub parsed : split_host_port address ≡ some (host, port)
  pub known : Any (λ e. e.1 ≡ t) router
  pub addressed : Addressed host t
  pub listed : Any (λ x. x ≡ s) t.services
  pub named_service : Named port s
  pub permitted : Permitted source t s

dial_address_sound :
    (router : FlowRouter) (source : FlowInstance) (address : Bytes) (t : FlowInstance)
    (s : FlowService)
    → dial_address router (some source) address ≡ some (t, s)
    → Dialled router source address t s
unfolding dial_address
dial_address_sound router source address t s h =
    let (r, parsed, h1) = >>=-eq-some (split_host_port address) _ h in
    let (x, found, h2) = >>=-eq-some (find_target router r.0 r.1) _ h1 in
    let (here, this, handed) = dial_sound source x.0 t x.1 s h2 in
    let (m, a, l, n) = find_target_sound router r.0 r.1 x.0 x.1 found in
    rw (← here, ← this)
      (record {
        host = r.0;
        port = r.1;
        parsed = parsed;
        known = m;
        addressed = a;
        listed = l;
        named_service = n;
        permitted = (handle_connection_iff source x.0 x.1).0 handed;
      })

-- A dial from an instance succeeds only over tcp, only towards an instance of the router that the
-- address names by hostname or IP and one of its services, named by port or by name, and only if
-- the policy permits this service to the instance.
pub dial_context_sound :
    (router : FlowRouter) (source : FlowInstance) (network address : Bytes) (t : FlowInstance)
    (s : FlowService)
    → dial_context router (some source) network address ≡ some (t, s)
    → (network ≡ codes "tcp") × Dialled router source address t s
unfolding dial_context
dial_context_sound router source network address t s h =
    elim (Bool-cases (eqb network (codes "tcp"))) [
      | inl e ↦ (
        (eqb_iff network (codes "tcp")).0 e,
        dial_address_sound router source address t s (ground arith),
      )
      | inr e ↦ absurd (ground arith)
    ]

-- What a dial of the router itself has found.
pub record Found (router : FlowRouter) (address : Bytes) (t : FlowInstance) (s : FlowService)
    : Type 0 where
  pub host : Bytes
  pub port : Bytes
  pub parsed : split_host_port address ≡ some (host, port)
  pub known : Any (λ e. e.1 ≡ t) router
  pub addressed : Addressed host t
  pub listed : Any (λ x. x ≡ s) t.services
  pub named_service : Named port s

pub dial_context-Found :
    (router : FlowRouter) (network address : Bytes) (t : FlowInstance) (s : FlowService)
    → dial_context router none network address ≡ some (t, s)
    → Found router address t s
unfolding dial_context dial_address dial
dial_context-Found router network address t s h = elim (Bool-cases (eqb network (codes "tcp"))) [
  | inr e ↦ absurd (ground (arith, h, e))
  | inl e ↦
      let h0 : dial_address router none address ≡ some (t, s) = ground (arith, h, e) in
      let (r, parsed, h1) = >>=-eq-some (split_host_port address) _ h0 in
      let (x, found, h2) = >>=-eq-some (find_target router r.0 r.1) _ h1 in
      let (m, a, l, n) = find_target_sound router r.0 r.1 t s (found ∙ h2) in
      record {
        host = r.0;
        port = r.1;
        parsed = parsed;
        known = m;
        addressed = a;
        listed = l;
        named_service = n;
      }
]
