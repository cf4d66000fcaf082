-- ===== src/Tests/Proxying.antt =====
-- Runs of the proxy.
use tinyrange_ad.Common.{◌≡◌, true, false, refl}
use tinyrange_ad.Proxy.{
  Proxying, started, Step, Steps, done, next, copied, copy_failed, error_sent, source_closed,
  close_failed, signalled, client_step, server_step, client_first, server_last, waiting_server,
  returned_nil, ended, sending_close_error,
}
use tinyrange_ad.Proxy.Ending.{returned_nil-ended}
use tinyrange_ad.Proxy.Blocking.{Stuck, Stuck-Step}

-- The client's side ends, and then the copy from the server fails and its connection cannot be
-- closed twice.
abbrev stuck : Proxying
stuck = record {
  from_client = ended;
  from_server = sending_close_error;
  caller = waiting_server;
  client_closed = false;
  server_closed = false;
  error = true;
}

gets_stuck : Steps 7 started stuck
gets_stuck = next (client_step copied) (
    next (client_step source_closed) (
      next (client_step signalled) (
        next (client_first refl refl) (
          next (server_step copy_failed)
            (next (server_step error_sent) (next (server_step close_failed) done))))))

Stuck-Step_example : ¬ Step stuck stuck
unfolding Stuck
Stuck-Step_example = Stuck-Step {s = stuck} {s' = stuck} (refl, refl, refl, refl, refl)

abbrev returned : Proxying
returned = record {
  from_client = ended;
  from_server = ended;
  caller = returned_nil;
  client_closed = false;
  server_closed = false;
  error = false;
}

-- Both copies end, and the client's side is heard of first.
returns : Steps 8 started returned
returns = next (client_step copied) (
    next (server_step copied) (
      next (client_step source_closed) (
        next (client_step signalled) (
          next (client_first refl refl) (
            next (server_step source_closed)
              (next (server_step signalled) (next (server_last refl refl) done)))))))

returned_nil-ended_example : (returned.from_client ≡ ended) × (returned.from_server ≡ ended)
returned_nil-ended_example = returned_nil-ended returns refl
