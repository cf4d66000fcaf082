-- ===== src/Proxy/Blocking.antt =====
-- When the proxy never returns: a second error while it waits for the other side.
use tinyrange_ad.Common.{Bool, true, false, ◌≡◌, ◌⊎◌, inl, inr}
use tinyrange_ad.Proxy.{
  Broker, sending_close_error, ended, waiting_server, Proxying, BrokerStep, copied, copy_failed,
  error_sent, source_closed, close_failed, close_error_sent, signalled, Step, client_step,
  server_step, client_first, server_first, error_first, server_last, client_last,
}

-- The caller waits for the broker of the server's connection, which is about to send an error into
-- the channel that already holds one.
unfoldable pub Stuck : Proxying → Type 0
Stuck s =
    (s.caller ≡ waiting_server)
    × (s.from_client ≡ ended)
    × (s.from_server ≡ sending_close_error)
    × (s.error ≡ true)
    × (s.server_closed ≡ false)

-- The two brokers have no step there.
full :
    {b b' : Broker} {e e' sent : Bool}
    → BrokerStep b b' e e' sent
    → (b ≡ ended) ⊎ (b ≡ sending_close_error) × (e ≡ true)
    → ⊥
full copied h = elim h [ inl e ↦ cc | inr (p, q) ↦ cc ]
full copy_failed h = elim h [ inl e ↦ cc | inr (p, q) ↦ cc ]
full error_sent h = elim h [ inl e ↦ cc | inr (p, q) ↦ cc ]
full source_closed h = elim h [ inl e ↦ cc | inr (p, q) ↦ cc ]
full close_failed h = elim h [ inl e ↦ cc | inr (p, q) ↦ cc ]
full close_error_sent h = elim h [ inl e ↦ cc | inr (p, q) ↦ cc ]
full signalled h = elim h [ inl e ↦ cc | inr (p, q) ↦ cc ]

-- There the proxy stays for ever: neither a broker nor the caller has a step.
pub Stuck-Step : {s s' : Proxying} → Stuck s → ¬ Step s s'
unfolding Stuck
Stuck-Step (c, client, server, full_errors, open_server) (client_step h) = full h (inl client)
Stuck-Step (c, client, server, full_errors, open_server) (server_step h) =
    full h (inr (server, full_errors))
Stuck-Step (c, client, server, full_errors, open_server) (client_first d e) = cc
Stuck-Step (c, client, server, full_errors, open_server) (server_first d e) = cc
Stuck-Step (c, client, server, full_errors, open_server) (error_first d e) = cc
Stuck-Step (c, client, server, full_errors, open_server) (server_last d e) = cc
Stuck-Step (c, client, server, full_errors, open_server) (client_last d e) = cc
