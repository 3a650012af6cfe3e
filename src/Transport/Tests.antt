-- ===== src/Transport/Tests.antt =====
-- Connections of server/conn_ws.go at concrete values.
use gts.World.Sample.{open_conn}
use gts.Base.{◌+◌, ◌≡◌, refl, true, false, List, [], ◌∷◌, arith}
use gts.World.{Connection, World}
use gts.Transport.Ws.Lock.Once.{ClosedOnce, new_shared-ClosedOnce}
use gts.Transport.Ws.Lock.{
  Shared, Event, nobody, calls_stop, locks, quits, marks, removes, closes, reads, receives, fails,
  new_shared, run, run-IsSilent,
}

abbrev own_conn : Connection
own_conn = record open_conn {
  has_on_start = true;
  has_on_stop = true;
  msg_chan = (1 ∷ 2 ∷ []) ∷ [];
  last_activity_time = 100;
}

abbrev world : World
world = record { heap = λ a. own_conn; connections = (7, 4) ∷ []; locked = false }

-- Two calls of `Stop` meet a reader that then gets a message.
abbrev events : List Event
events =
    reads ∷ calls_stop ∷ calls_stop ∷ receives ∷ locks ∷ quits ∷ marks ∷ removes ∷ closes ∷ locks
    ∷ quits ∷ reads ∷ []

new_shared-ClosedOnce_example : ClosedOnce (run (new_shared true) events)
new_shared-ClosedOnce_example = new_shared-ClosedOnce true events

abbrev reading : Shared
reading = record {
  is_closed = false;
  has_on_stop = true;
  reading = true;
  holder = nobody;
  pending = 0;
  hook_calls = 0;
  socket_closes = 0;
  messages = 0;
  failures = 0;
}

abbrev silent : List Event
silent = calls_stop ∷ locks ∷ reads ∷ calls_stop ∷ []

run-IsSilent_example :
    (run reading silent ≡ record reading { pending = 0 + 2 })
    × ((run (run reading silent) (receives ∷ locks ∷ quits ∷ marks ∷ [])).is_closed ≡ true)
    × ((run (run reading silent) (fails ∷ locks ∷ quits ∷ marks ∷ [])).is_closed ≡ true)
run-IsSilent_example = run-IsSilent reading silent refl refl refl tt (omega arith)
