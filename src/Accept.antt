-- ===== src/Accept.antt =====
-- The loops of server/server_tcp.go, server/server_kcp.go and server/server_quic.go and the handler
-- of server/server_ws.go, which accept connections into one table. Each tests the limit, then
-- waits for a client, and only then adds its connection; WebSocket requests run beside one another.
pub mod Serve
mod Tests
use gts.Base.{
  ℕ, suc, ◌+◌, ◌-◌, ◌≤◌, ◌<◌, ◌≡◌, refl, Bool, true, false, not, ◌&&◌, List, [], ◌∷◌, arith, ltb,
  leb, if◌then◌else◌, length,
}
use gts.Base.Map.{insert, delete, length-insert, length-delete}

-- The table, and what is past the test of the limit: loops of listeners, and requests of clients
-- that are being upgraded to WebSocket.
pub record State : Type 0 where
  pub connections : List (ℕ × ℕ)
  pub accepting : ℕ
  pub upgrading : ℕ

unfoldable pub new_state : State
new_state = record { connections = []; accepting = 0; upgrading = 0 }

-- `if s.ConnMgr.Len() >= utils.Conf.MaxConn`
unfoldable pub is_full : ℕ → State → Bool
is_full max_conn s = leb max_conn (length s.connections)

pub data Event : Type 0 where
  -- A loop that is not past the test makes it. `Accept` or `NextVal` reports an error: the loop goes
  -- back to its test. The client's connection gets a number and an address.
  try_accept : Event
  fail_accept : Event
  accept : ℕ → ℕ → Event
  -- The same for a request to the handler of WebSocket, of which net/http runs one for each.
  try_upgrade : Event
  fail_upgrade : Event
  upgrade : ℕ → ℕ → Event
  remove : ℕ → Event

-- With `loops` listeners that accept in a loop, and at most `requests` requests at a time between
-- their test and their connection's place in the table.
unfoldable pub step : ℕ → ℕ → ℕ → State → Event → State
unfolding is_full
step loops requests max_conn s try_accept =
    if ltb s.accepting loops && not (is_full max_conn s)
    then record s { accepting = s.accepting + 1 }
    else s
step loops requests max_conn s fail_accept = record s { accepting = s.accepting - 1 }
step loops requests max_conn s (accept conn_id a) =
    if ltb 0 s.accepting
    then record s { connections = insert conn_id a s.connections; accepting = s.accepting - 1 }
    else s
step loops requests max_conn s try_upgrade =
    if ltb s.upgrading requests && not (is_full max_conn s)
    then record s { upgrading = s.upgrading + 1 }
    else s
step loops requests max_conn s fail_upgrade = record s { upgrading = s.upgrading - 1 }
step loops requests max_conn s (upgrade conn_id a) =
    if ltb 0 s.upgrading
    then record s { connections = insert conn_id a s.connections; upgrading = s.upgrading - 1 }
    else s
step loops requests max_conn s (remove conn_id) = record s {
  connections = delete conn_id s.connections;
}

unfoldable pub run : ℕ → ℕ → ℕ → State → List Event → State
run loops requests max_conn s [] = s
run loops requests max_conn s (e ∷ es) =
    run loops requests max_conn (step loops requests max_conn s e) es

-- With all that is past the test, the table is below the limit and what may be past it, less one.
pub record Within (loops requests max_conn : ℕ) (s : State) : Type 0 where
  pub few_loops : s.accepting ≤ loops
  pub few_requests : s.upgrading ≤ requests
  pub bound : length s.connections + s.accepting + s.upgrading + 1 ≤ max_conn + loops + requests

step-Within :
    (loops requests max_conn : ℕ) (s : State) (e : Event)
    → Within loops requests max_conn s
    → Within loops requests max_conn (step loops requests max_conn s e)
unfolding step is_full
step-Within loops requests max_conn s try_accept w = ground arith
step-Within loops requests max_conn s fail_accept w = ground arith
step-Within loops requests max_conn s (accept conn_id a) w =
    let l = length-insert conn_id a s.connections in ground arith
step-Within loops requests max_conn s try_upgrade w = ground arith
step-Within loops requests max_conn s fail_upgrade w = ground arith
step-Within loops requests max_conn s (upgrade conn_id a) w =
    let l = length-insert conn_id a s.connections in ground arith
step-Within loops requests max_conn s (remove conn_id) w =
    let l = length-delete conn_id s.connections in ground arith

run-Within :
    (loops requests max_conn : ℕ) (s : State) (es : List Event)
    → Within loops requests max_conn s
    → Within loops requests max_conn (run loops requests max_conn s es)
unfolding run
run-Within loops requests max_conn s [] w = w
run-Within loops requests max_conn s (e ∷ es) w =
    run-Within loops requests max_conn (step loops requests max_conn s e) es
      (step-Within loops requests max_conn s e w)

-- From an empty table and a limit above 0, with `loops` listeners that accept in a loop and at most
-- `requests` WebSocket requests being upgraded at once, of which there is at least one or the other,
-- the table never holds more than `MaxConn` connections and one for each loop and each such request
-- but the first: at most `MaxConn` for one listener that accepts in a loop.
pub run-bound :
    (loops requests max_conn : ℕ) (es : List Event)
    → 0 < loops + requests
    → 0 < max_conn
    → length (run loops requests max_conn new_state es).connections + 1
      ≤ max_conn + loops + requests
unfolding new_state
run-bound loops requests max_conn es some_listener some_room =
    let w =
      run-Within loops requests max_conn new_state es
        (record { few_loops = omega arith; few_requests = omega arith; bound = omega arith }) in
    let b = w.bound in omega (arith, b)
