-- ===== src/Epoll.antt =====
-- epoll/connmanger.go: the table of connections that epoll watches, under a read-write lock that is
-- not reentrant. What `EpollCtl` and `EpollWait` answer is an argument.
pub mod Deadlock
pub mod Watch
pub mod Poller
pub mod Serve
pub mod Writer
pub mod Keep
pub mod Stop
pub mod Methods
pub mod Listener
mod Tests
use gts.Base.{
  ℕ, Bool, true, false, Option, none, some, List, [], ◌∷◌, ◌++◌, map, ◌==◌, if◌then◌else◌, length,
}
use gts.Base.Map.{lookup, insert, delete, keys}

-- A connection: its address, its number, and its descriptor where it is a TCP connection.
pub record Connection : Type 0 where
  pub address : ℕ
  pub conn_id : ℕ
  pub fd : Option ℕ

pub record ConnManager : Type 0 where
  pub connections : List (ℕ × Connection)
  pub fd2conn : List (ℕ × ℕ)
  pub locked : Bool

-- An operation returns, or waits for the lock for ever, in a state of the manager.
pub data Outcome {ℓ} (A : Type ℓ) : Type ℓ where
  returns : A → ConnManager → Outcome A
  waits : ConnManager → Outcome A

-- `EpollCreate1` fails with `false`.
unfoldable pub new_conn_manager : Bool → Option ConnManager
new_conn_manager false = none
new_conn_manager true = some (record { connections = []; fd2conn = []; locked = false })

-- `Len`, under the read lock.
unfoldable pub len : ConnManager → Outcome ℕ
len cm = if cm.locked then waits cm else returns (length cm.connections) cm

-- A call of `Len` for a line of output.
unfoldable pub print_len : ConnManager → Outcome (Unit {0})
unfolding len
print_len cm = elim (len cm) [ returns _ after ↦ returns tt after | waits after ↦ waits after ]

-- The connection is put in both maps, and the lock is free again for `Len`.
unfoldable pub put : Connection → ℕ → ConnManager → ConnManager
put conn fd cm = record cm {
  connections = insert conn.conn_id conn cm.connections;
  fd2conn = insert fd conn.conn_id cm.fd2conn;
}

unfoldable pub add : Bool → Connection → ConnManager → Outcome (Unit {0})
unfolding put print_len
add ctl_ok conn cm = elim conn.fd [
  | none ↦ returns tt cm
  | some fd ↦
      if ctl_ok then (if cm.locked then waits cm else print_len (put conn fd cm)) else returns tt cm
]

-- The connection leaves both maps.
unfoldable pub take_out : Connection → ℕ → ConnManager → ConnManager
take_out conn fd cm = record cm {
  connections = delete conn.conn_id cm.connections;
  fd2conn = delete fd cm.fd2conn;
}

-- `Remove` behind `Lock`; `unlock` stands for the deferred `Unlock`.
unfoldable pub unlock : Outcome (Unit {0}) → Outcome (Unit {0})
unlock (returns _ cm) = returns tt (record cm { locked = false })
unlock (waits cm) = waits cm

unfoldable pub remove_locked : Bool → Connection → ConnManager → Outcome (Unit {0})
unfolding take_out print_len
remove_locked ctl_ok conn cm = elim conn.fd [
  | none ↦ returns tt cm
  | some fd ↦ if ctl_ok then print_len (take_out conn fd cm) else returns tt cm
]

unfoldable pub remove : Bool → Connection → ConnManager → Outcome (Unit {0})
unfolding unlock remove_locked
remove ctl_ok conn cm =
    if cm.locked then waits cm else unlock (remove_locked ctl_ok conn (record cm { locked = true }))

-- `none` is the error "connection not found".
unfoldable pub get : ℕ → ConnManager → Outcome (Option Connection)
get conn_id cm = if cm.locked then waits cm else returns (lookup conn_id cm.connections) cm

unfoldable pub get_all_conn_id : ConnManager → Outcome (List ℕ)
get_all_conn_id cm = if cm.locked then waits cm else returns (keys cm.connections) cm

-- The loop of `ClearConn` with the lock held, over the connections of the map.
unfoldable pub clear_entries : Bool → List (ℕ × Connection) → ConnManager → Outcome (Unit {0})
unfolding remove
clear_entries ctl_ok [] cm = returns tt cm
clear_entries ctl_ok ((_, conn) ∷ rest) cm = elim (remove ctl_ok conn cm) [
  | returns _ after ↦ clear_entries ctl_ok rest after
  | waits after ↦ waits after
]

unfoldable pub clear_conn : Bool → ConnManager → Outcome (Unit {0})
unfolding clear_entries unlock print_len
clear_conn ctl_ok cm =
    if cm.locked
    then waits cm
    else elim (unlock (clear_entries ctl_ok cm.connections (record cm { locked = true }))) [
      | returns _ after ↦ print_len after
      | waits after ↦ waits after
    ]

-- The zero value of a missing entry of `fd2conn`.
unfoldable pub conn_id_of : Option ℕ → ℕ
conn_id_of none = 0
conn_id_of (some conn_id) = conn_id

-- The connection of an event's descriptor; `none` is a `nil` interface.
unfoldable pub conn_of_event : ConnManager → ℕ → Option Connection
unfolding conn_id_of
conn_of_event cm fd = lookup (conn_id_of (lookup fd cm.fd2conn)) cm.connections

-- The answer of `EpollWait` behind its retries: `none` is an error, else the ready descriptors.
unfoldable pub start_epoll_wait :
    Option (List ℕ) → ConnManager → Outcome (Option (List (Option Connection)))
unfolding conn_of_event
start_epoll_wait none cm = returns none cm
start_epoll_wait (some ready) cm =
    if cm.locked then waits cm else returns (some (map (conn_of_event cm) ready)) cm
