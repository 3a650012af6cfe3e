-- ===== src/Epoll/Deadlock.antt =====
-- `Remove` and `ClearConn` of epoll/connmanger.go and the lock that they hold.
use gts.Base.{ℕ, ◌≡◌, Bool, true, false, none, some, List, ◌∷◌, arith, if◌then◌else◌}
use gts.Base.Map.{delete}
use gts.Epoll.{
  Connection, ConnManager, returns, waits, len, print_len, add, take_out, unlock, remove_locked,
  remove, get, get_all_conn_id, clear_entries, clear_conn, start_epoll_wait,
}

-- The manager that a successful `Remove` leaves behind: the connection is out of both maps, and
-- the lock is held.
abbrev pub stuck : Connection → ℕ → ConnManager → ConnManager
stuck conn fd cm = record {
  connections = delete conn.conn_id cm.connections;
  fd2conn = delete fd cm.fd2conn;
  locked = true;
}

-- `Remove` on every branch, from a free lock: it returns and changes nothing when the connection
-- is not a TCP connection or `EpollCtl` fails; otherwise it deletes both entries and then waits in
-- `Len` for the lock that it holds itself.
pub remove_deadlock :
    (ctl_ok : Bool) (conn : Connection) (cm : ConnManager)
    → cm.locked ≡ false
    → remove ctl_ok conn cm ≡ (elim conn.fd [
      | none ↦ returns tt cm
      | some fd ↦ if ctl_ok then waits (stuck conn fd cm) else returns tt cm
    ])
unfolding remove remove_locked unlock take_out print_len len
remove_deadlock ctl_ok conn cm free = ground arith

-- With the lock held, every operation of the manager waits for ever and changes nothing.
pub locked-waits :
    (conn : Connection) (fd conn_id : ℕ) (ready : List ℕ) (ctl_ok : Bool) (cm : ConnManager)
    → conn.fd ≡ some fd
    → cm.locked ≡ true
    → (len cm ≡ waits cm)
      × (add true conn cm ≡ waits cm)
      × (remove ctl_ok conn cm ≡ waits cm)
      × (get conn_id cm ≡ waits cm)
      × (get_all_conn_id cm ≡ waits cm)
      × (clear_conn ctl_ok cm ≡ waits cm)
      × (start_epoll_wait (some ready) cm ≡ waits cm)
unfolding len add remove get get_all_conn_id clear_conn start_epoll_wait
locked-waits conn fd conn_id ready ctl_ok cm e h = ground arith

-- `ClearConn` with a connection in the table waits in its first `Remove`, and removes nothing.
pub clear_conn-waits :
    (ctl_ok : Bool) (entry : ℕ × Connection) (rest : List (ℕ × Connection)) (cm : ConnManager)
    → cm.locked ≡ false
    → cm.connections ≡ entry ∷ rest
    → clear_conn ctl_ok cm ≡ waits (record cm { locked = true })
unfolding clear_conn clear_entries remove unlock
clear_conn-waits ctl_ok entry rest cm free e = ground arith
