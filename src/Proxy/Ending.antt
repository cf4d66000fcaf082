-- ===== src/Proxy/Ending.antt =====
-- How the proxy ends.
use tinyrange_ad.Common.{ℕ, ◌<◌, Bool, true, ◌≡◌, ◌≢◌, ◌⊎◌, inl, inr, refl, arith, ap}
use tinyrange_ad.Proxy.{
  Broker, copying, sending_error, closing, sending_close_error, signalling, ended, waiting_server,
  waiting_client, returned_nil, Proxying, started, BrokerStep, copied, copy_failed, error_sent,
  source_closed, close_failed, close_error_sent, signalled, put, Step, client_step, server_step,
  client_first, server_first, error_first, server_last, client_last, Steps, done, next,
}

-- The steps that are left to a broker.
broker_rank : Broker → ℕ
broker_rank copying = 5
broker_rank sending_error = 4
broker_rank closing = 3
broker_rank sending_close_error = 2
broker_rank signalling = 1
broker_rank ended = 0

BrokerStep-rank :
    {b b' : Broker} {e e' sent : Bool} → BrokerStep b b' e e' sent → broker_rank b' < broker_rank b
unfolding broker_rank
BrokerStep-rank copied = omega arith
BrokerStep-rank copy_failed = omega arith
BrokerStep-rank error_sent = omega arith
BrokerStep-rank source_closed = omega arith
BrokerStep-rank close_failed = omega arith
BrokerStep-rank close_error_sent = omega arith
BrokerStep-rank signalled = omega arith

-- A side that is heard of has ended, and so has one that the caller has heard of.
unfoldable pub Told : Proxying → Type 0
Told s =
    (s.client_closed ≡ true → s.from_client ≡ ended)
    × (s.server_closed ≡ true → s.from_server ≡ ended)
    × (s.caller ≡ waiting_server → s.from_client ≡ ended)
    × (s.caller ≡ waiting_client → s.from_server ≡ ended)
    × (s.caller ≡ returned_nil → (s.from_client ≡ ended) × (s.from_server ≡ ended))

signals :
    {b b' : Broker} {e e' sent : Bool} (closed : Bool)
    → BrokerStep b b' e e' sent
    → put sent closed ≡ true
    → (b' ≡ ended) ⊎ (closed ≡ true)
signals closed copied h = inr h
signals closed copy_failed h = inr h
signals closed error_sent h = inr h
signals closed source_closed h = inr h
signals closed close_failed h = inr h
signals closed close_error_sent h = inr h
signals closed signalled h = inl refl

-- A broker that has ended makes no step.
not_ended : {b b' : Broker} {e e' sent : Bool} → BrokerStep b b' e e' sent → b ≢ ended
unfolding broker_rank
not_ended h at_end = omega (arith, BrokerStep-rank h, ap broker_rank at_end)

still_ended :
    {b b' : Broker} {e e' sent : Bool} (closed : Bool)
    → BrokerStep b b' e e' sent
    → (closed ≡ true → b ≡ ended)
    → put sent closed ≡ true
    → b' ≡ ended
still_ended closed h before now = elim (signals closed h now) [
  | inl e ↦ e
  | inr e ↦ absurd (not_ended h (before e))
]

Told-Step : {s s' : Proxying} → Step s s' → Told s → Told s'
unfolding Told
Told-Step {s} (client_step h) (told, sc, ws, wc, rn) = (
  still_ended s.client_closed h told,
  sc,
  λ c. absurd (not_ended h (ws c)),
  wc,
  λ c. absurd (not_ended h (rn c).0),
)
Told-Step {s} (server_step h) (told, sc, ws, wc, rn) = (
  told,
  still_ended s.server_closed h sc,
  ws,
  λ c. absurd (not_ended h (wc c)),
  λ c. absurd (not_ended h (rn c).1),
)
Told-Step (client_first c e) (told, sc, ws, wc, rn) = (λ h. cc, sc, λ h. told e, λ h. cc, λ h. cc)
Told-Step (server_first c e) (told, sc, ws, wc, rn) = (told, λ h. cc, λ h. cc, λ h. sc e, λ h. cc)
Told-Step (error_first c e) (told, sc, ws, wc, rn) = (told, sc, λ h. cc, λ h. cc, λ h. cc)
Told-Step (server_last c e) (told, sc, ws, wc, rn) =
    (told, λ h. cc, λ h. cc, λ h. cc, λ h. (ws c, sc e))
Told-Step (client_last c e) (told, sc, ws, wc, rn) =
    (λ h. cc, sc, λ h. cc, λ h. cc, λ h. (told e, wc c))

Told-Steps : {n : ℕ} {s s' : Proxying} → Steps n s s' → Told s → Told s'
Told-Steps done t = t
Told-Steps (next h steps) t = Told-Steps steps (Told-Step h t)

Told-started : Told started
unfolding Told
Told-started = (λ h. cc, λ h. cc, λ h. cc, λ h. cc, λ h. cc)

-- Proxy returns nil only after both brokers have ended.
pub returned_nil-ended :
    {n : ℕ} {s : Proxying}
    → Steps n started s
    → s.caller ≡ returned_nil
    → (s.from_client ≡ ended) × (s.from_server ≡ ended)
unfolding Told
returned_nil-ended steps h = (Told-Steps steps Told-started).4 h
