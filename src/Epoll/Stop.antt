-- ===== src/Epoll/Stop.antt =====
-- `newServerConn` and `Stop` of epoll/conn.go, whose manager is that of epoll/connmanger.go.
use gts.Base.{
  ℕ, ◌≡◌, refl, ap, ◌∙◌, Bool, true, false, Option, none, some, List, [], ◌∷◌, ◌++◌, if◌then◌else◌,
}
use gts.World.{Checker, unbound, selecting, exited, Notice, on_conn_stop}
use gts.Epoll.{Connection, ConnManager, Outcome, returns, waits, add, remove}
use gts.Epoll.Deadlock.{stuck, remove_deadlock}

-- A connection with the fields that `Stop` reads and writes.
pub record Stoppable : Type 0 where
  pub conn : Connection
  pub is_closed : Bool
  pub checker : Checker
  pub has_on_start : Bool
  pub has_on_stop : Bool
  pub notices : List Notice
  pub socket_closed : Bool
  pub close_fails : Bool
  pub ctx_done : Bool

-- A call returns or waits for ever, with the connection and the manager as they are then.
pub data Ended : Type 0 where
  returned : Stoppable → ConnManager → Ended
  waiting : Stoppable → ConnManager → Ended

-- What `Add` came to, for the connection that is being made.
unfoldable pub made : Stoppable → Outcome (Unit {0}) → Ended
made c (returns _ cm) = returned c cm
made c (waits cm) = waiting c cm

unfoldable pub new_conn : Bool → Connection → Bool → Bool → Bool → ConnManager → Ended
unfolding made
new_conn ctl_ok conn has_on_start has_on_stop close_fails cm =
    made
      (record {
        conn = conn;
        is_closed = false;
        checker = unbound;
        has_on_start = has_on_start;
        has_on_stop = has_on_stop;
        notices = [];
        socket_closed = false;
        close_fails = close_fails;
        ctx_done = false;
      })
      (add ctl_ok conn cm)

-- The heartbeat's `Stop`: `none` where its goroutine does not receive.
unfoldable pub quit : Checker → Option Checker
quit unbound = some unbound
quit selecting = some exited
quit _ = none

-- The connection while it leaves the manager.
unfoldable pub marked : Checker → Stoppable → Stoppable
marked k c = record c {
  checker = k;
  is_closed = true;
  notices = if c.has_on_stop then c.notices ++ on_conn_stop ∷ [] else c.notices;
}

-- `Conn.Close`, and `cancel` where it reports no error, which a connection has that was started.
unfoldable pub close_socket : Stoppable → Stoppable
close_socket c = record c {
  socket_closed = true;
  ctx_done = if c.close_fails then c.ctx_done else true;
}

unfoldable pub leave : Stoppable → Outcome (Unit {0}) → Ended
unfolding close_socket
leave c (returns _ cm) = returned (close_socket c) cm
leave c (waits cm) = waiting c cm

unfoldable pub stop : Bool → Stoppable → ConnManager → Ended
unfolding quit marked leave
stop ctl_ok c cm = if c.is_closed then returned c cm else elim (quit c.checker) [
  | none ↦ waiting c cm
  | some k ↦ leave (marked k c) (remove ctl_ok c.conn cm)
]

leave_if :
    (b : Bool) (c : Stoppable) (v w : ConnManager)
    → leave c (if b then waits v else returns tt w)
      ≡ (if b then waiting c v else returned (close_socket c) w)
unfolding leave
leave_if true c v w = refl
leave_if false c v w = refl

remove_tcp :
    (ctl_ok : Bool) (conn : Connection) (fd : ℕ) (cm : ConnManager)
    → conn.fd ≡ some fd
    → cm.locked ≡ false
    → remove ctl_ok conn cm ≡ (if ctl_ok then waits (stuck conn fd cm) else returns tt cm)
remove_tcp ctl_ok conn fd cm at_fd free =
    remove_deadlock ctl_ok conn cm free
    ∙ ap
        (λ (o : Option ℕ). elim o as (λ _. Outcome (Unit {0})) [
          | none ↦ returns tt cm
          | some d ↦ if ctl_ok then waits (stuck conn d cm) else returns tt cm
        ])
        at_fd

-- `Stop` of an open TCP connection that nobody is in the way of: where `EpollCtl` succeeds, it waits
-- for ever in `Remove` with its socket open and the manager's lock held; where `EpollCtl` fails, it
-- closes the socket and returns, and the manager keeps the connection.
pub stop-remove :
    (ctl_ok : Bool) (c : Stoppable) (k : Checker) (fd : ℕ) (cm : ConnManager)
    → c.is_closed ≡ false
    → quit c.checker ≡ some k
    → c.conn.fd ≡ some fd
    → cm.locked ≡ false
    → stop ctl_ok c cm ≡ (
        if ctl_ok
        then waiting (marked k c) (stuck c.conn fd cm)
        else returned (close_socket (marked k c)) cm)
unfolding stop
stop-remove ctl_ok c k fd cm open_conn heard at_fd free =
    rw (stop, open_conn, heard)
      (ap (leave (marked k c)) (remove_tcp ctl_ok c.conn fd cm at_fd free)
        ∙ leave_if ctl_ok (marked k c) (stuck c.conn fd cm) cm)
