-- ===== src/Proxy.antt =====
-- The proxy between two connections, pkg/common/proxy.go: two brokers that copy, one in each
-- direction, and the call that waits for them, over three channels with room for one value each.
pub mod Ending
pub mod Blocking
use tinyrange_ad.Common.{ℕ, zero, suc, Bool, true, false, ◌≡◌}

-- Where a broker is: in `io.CopyBuffer`, before the send of its error, before `src.Close`, before the
-- send of that call's error, before the send on `srcClosed`, or at its end.
pub data Broker : Type 0 where
  copying sending_error closing sending_close_error signalling ended : Broker

-- Where the call of `Proxy` is: in its `select`, waiting for the other side, or returned with nil
-- or with an error.
pub data Caller : Type 0 where
  selecting waiting_server waiting_client returned_nil returned_error : Caller

-- `from_client` is the broker whose source is the client's connection, which ends on
-- `clientClosed`; a channel is whether it holds a value.
pub record Proxying : Type 0 where
  pub from_client : Broker
  pub from_server : Broker
  pub caller : Caller
  pub client_closed : Bool
  pub server_closed : Bool
  pub error : Bool

-- The start of `Proxy`.
abbrev pub started : Proxying
started = record {
  from_client = copying;
  from_server = copying;
  caller = selecting;
  client_closed = false;
  server_closed = false;
  error = false;
}

-- One step of `broker`, with the channel of errors before and after it and whether it sends on
-- `srcClosed`. A send on a channel that is full is no step. The ends of a copy and of a close are
-- steps that may never come: nothing is said of a broker that stays where it is.
pub data BrokerStep : Broker → Broker → Bool → Bool → Bool → Type 0 where
  copied : {e : Bool} → BrokerStep copying closing e e false
  copy_failed : {e : Bool} → BrokerStep copying sending_error e e false
  error_sent : BrokerStep sending_error closing false true false
  source_closed : {e : Bool} → BrokerStep closing signalling e e false
  close_failed : {e : Bool} → BrokerStep closing sending_close_error e e false
  close_error_sent : BrokerStep sending_close_error signalling false true false
  signalled : {e : Bool} → BrokerStep signalling ended e e true

-- A value is put into a channel where the broker sends one.
abbrev pub put : Bool → Bool → Bool
put true closed = true
put false closed = closed

-- One step of the two brokers and the caller.
pub data Step : Proxying → Proxying → Type 0 where
  client_step :
      {s : Proxying} {b : Broker} {e sent : Bool}
      → BrokerStep s.from_client b s.error e sent
      → Step s (record s { from_client = b; error = e; client_closed = put sent s.client_closed })
  server_step :
      {s : Proxying} {b : Broker} {e sent : Bool}
      → BrokerStep s.from_server b s.error e sent
      → Step s (record s { from_server = b; error = e; server_closed = put sent s.server_closed })
  client_first :
      {s : Proxying}
      → s.caller ≡ selecting
      → s.client_closed ≡ true
      → Step s (record s { caller = waiting_server; client_closed = false })
  server_first :
      {s : Proxying}
      → s.caller ≡ selecting
      → s.server_closed ≡ true
      → Step s (record s { caller = waiting_client; server_closed = false })
  error_first :
      {s : Proxying}
      → s.caller ≡ selecting
      → s.error ≡ true
      → Step s (record s { caller = returned_error; error = false })
  server_last :
      {s : Proxying}
      → s.caller ≡ waiting_server
      → s.server_closed ≡ true
      → Step s (record s { caller = returned_nil; server_closed = false })
  client_last :
      {s : Proxying}
      → s.caller ≡ waiting_client
      → s.client_closed ≡ true
      → Step s (record s { caller = returned_nil; client_closed = false })

-- Steps one after the other, with their number.
pub data Steps : ℕ → Proxying → Proxying → Type 0 where
  done : {s : Proxying} → Steps zero s s
  next : {n : ℕ} {s mid s' : Proxying} → Step s mid → Steps n mid s' → Steps (suc n) s s'
