-- ===== src/Flow/Router/Connections.antt =====
-- Where a connection ends up: `flowRouterHandler.HandleConn`.
use mathlib.Core.Bool.{false≢true}
use tinyrange_ad.Common.{
  ◌∙◌, ℕ, List, [], ◌∷◌, true, false, ◌≡◌, ◌&&◌, ◌⊎◌, inl, inr, refl, sym, ap, arith, pos,
  Bool-cases,
}
use tinyrange_ad.Common.Int.{◌==ℤ◌, ==ℤ_iff}
use tinyrange_ad.Net.{Ip, ip_equal, ip_equal_iff}
use tinyrange_ad.Flow.Router.{
  FlowService, FlowInstance, FlowRouter, handle_connection, Handled, accepted, closed, try_services,
  handle_conn,
}
use tinyrange_ad.Flow.Router.Policy.{Any, Permitted, handle_connection_iff}

-- A service at the port, offered by the target and permitted to the source.
pub record Offers (source target : FlowInstance) (port : ℕ) (services : List FlowService)
    (service : FlowService) : Type 0 where
  pub listed : Any (λ s. s ≡ service) services
  pub at_port : service.port ≡ pos port
  pub permitted : Permitted source target service

module _ (source : FlowInstance) (port : ℕ) where
  later :
      {target : FlowInstance} {services : List FlowService} {s : FlowService}
      (service : FlowService)
      → Offers source target port services s
      → Offers source target port (service ∷ services) s
  later service o = record { listed = inr o.listed; at_port = o.at_port; permitted = o.permitted }

  first :
      (target : FlowInstance) (services : List FlowService) (service : FlowService)
      → (service.port ==ℤ pos port) ≡ true
      → handle_connection source target service ≡ true
      → Offers source target port (service ∷ services) service
  first target services service at handed = record {
    listed = inl refl;
    at_port = (==ℤ_iff service.port (pos port)).0 at;
    permitted = (handle_connection_iff source target service).0 handed;
  }

  try_services_sound :
      (target : FlowInstance) (services : List FlowService) (rest : Handled) (t : FlowInstance)
      (s : FlowService)
      → try_services source target port services rest ≡ accepted t s
      → (t ≡ target) × Offers source target port services s ⊎ (rest ≡ accepted t s)
  unfolding try_services
  try_services_sound target [] rest t s h = inr h
  try_services_sound target (service ∷ services) rest t s h =
      elim (Bool-cases (service.port ==ℤ pos port && handle_connection source target service)) [
        | inl e ↦ inl (
          ground arith,
          (let same : service ≡ s = ground arith in
              rw (← same) (first target services service (ground arith) (ground arith))),
        )
        | inr e ↦ elim (try_services_sound target services rest t s (ground arith)) [
          | inl (same, o) ↦ inl (same, later service o)
          | inr r ↦ inr r
        ]
      ]

  try_services-closed :
      (target : FlowInstance) (services : List FlowService) (rest : Handled)
      → try_services source target port services rest ≡ closed
      → (rest ≡ closed) × ((s : FlowService) → ¬ Offers source target port services s)
  unfolding try_services
  try_services-closed target [] rest h = (h, λ s o. o.listed)
  try_services-closed target (service ∷ services) rest h =
      let (r, no_more) = try_services-closed target services rest (ground arith) in
      (
        r,
        λ s o. elim o.listed [
          | inl e ↦ false≢true (
              let off : handle_connection source target service ≡ false =
                ground (
                  arith,
                  (==ℤ_iff service.port (pos port)).1 (ap FlowService.port e ∙ o.at_port),
                ) in
              sym off ∙ (handle_connection_iff source target service).1 (rw e o.permitted))
          | inr e ↦ no_more s (record { listed = e; at_port = o.at_port; permitted = o.permitted })
        ],
      )

-- The instance is at the address, and it is one of the router's.
abbrev pub Known : FlowRouter → Ip → FlowInstance → Type 0
Known router ip target = (target.address ≡ ip) × Any (λ e. e.1 ≡ target) router

-- A connection that is handed over goes to an instance that the router knows at the address, and
-- to a service that it has at the port and that the policy permits to the source.
pub handle_conn_sound :
    (router : FlowRouter) (source : FlowInstance) (ip : Ip) (port : ℕ) (target : FlowInstance)
    (service : FlowService)
    → handle_conn router source ip port ≡ accepted target service
    → Known router ip target × Offers source target port target.services service
unfolding handle_conn
handle_conn_sound [] source ip port target service h = cc
handle_conn_sound ((k, t) ∷ router) source ip port target service h =
    let rest = handle_conn_sound router source ip port target service in
    elim (Bool-cases (ip_equal t.address ip)) [
      | inl e ↦
          elim (try_services_sound source port t t.services (handle_conn router source ip port)
            target service (ground arith)) [
              | inl (same, o) ↦ (
                (ap FlowInstance.address same ∙ (ip_equal_iff t.address ip).0 e, inl (sym same)),
                rw same o,
              )
              | inr r ↦ let (known, o) = rest r in ((known.0, inr known.1), o)
            ]
      | inr e ↦ let (known, o) = rest (ground arith) in ((known.0, inr known.1), o)
    ]

-- A connection is closed only if no instance at the address offers the source a service there.
pub handle_conn_complete :
    (router : FlowRouter) (source : FlowInstance) (ip : Ip) (port : ℕ) (target : FlowInstance)
    (service : FlowService)
    → handle_conn router source ip port ≡ closed
    → Known router ip target
    → ¬ Offers source target port target.services service
unfolding handle_conn
handle_conn_complete [] source ip port target service h k = absurd k.1
handle_conn_complete ((k, t) ∷ router) source ip port target service h known =
    elim (Bool-cases (ip_equal t.address ip)) [
      | inl e ↦
          let (r, none_here) =
            try_services-closed source port t t.services (handle_conn router source ip port)
              (ground arith) in
          elim known.1 [
            | inl same ↦ rw (← same) (none_here service)
            | inr m ↦ handle_conn_complete router source ip port target service r (known.0, m)
          ]
      | inr e ↦ elim known.1 [
        | inl same ↦ absurd (
            false≢true
              (sym e ∙ (ip_equal_iff t.address ip).1 (ap FlowInstance.address same ∙ known.0)))
        | inr m ↦
            handle_conn_complete router source ip port target service (ground arith) (known.0, m)
      ]
    ]
