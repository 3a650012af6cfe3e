-- ===== src/Epoll/Listener.antt =====
-- epoll/server.go: the server around the manager of epoll/connmanger.go and its accepting loop. The
-- loop over the events is in Epoll/Serve.antt.
pub mod Accepting
use gts.Base.{
  ℕ, ◌≡◌, refl, sym, ap, ◌∙◌, inl, inr, Bool, true, false, Option, none, some, List, [], ◌∷◌, ◌++◌,
  ◌+◌, leb, if◌then◌else◌, arith, length, ◌≤◌, Bool-cases,
}
use gts.Base.Int.{ℤ}
use gts.Base.Result.{ok, err}
use gts.Heartbeat.{Heartbeat, new_heartbeat}
use gts.Handler.{new_msg_handle, add_router}
use gts.Handler.Queue.{start_worker_pool}
use gts.Epoll.{Connection, ConnManager, Outcome, returns, waits, len, put, add, clear_conn}

-- `exitChan` before `Start`, after it, and after `Stop`.
pub data ExitChan : Type 0 where
  no_chan open_chan closed_chan : ExitChan

pub record Server : Type 0 where
  pub worker_pool_size : ℤ
  pub heartbeat_interval : ℕ
  pub apis : List (ℕ × ℕ)
  pub hb : Option Heartbeat
  pub exit_chan : ExitChan

pub data Ran : Type 0 where
  done : Server → ConnManager → Ran
  hangs : ConnManager → Ran
  panics : Ran

-- `none` is the panic of `NewMsgHandle`.
unfoldable pub new_server : ℤ → ℕ → Option Server
new_server worker_pool_size heartbeat_interval = elim (new_msg_handle worker_pool_size) [
  | none ↦ none
  | some apis ↦ some (record {
    worker_pool_size = worker_pool_size;
    heartbeat_interval = heartbeat_interval;
    apis = apis;
    hb = none;
    exit_chan = no_chan;
  })
]

unfoldable pub start : Server → ConnManager → Ran
start s cm = elim (start_worker_pool s.worker_pool_size) [
  | err _ ↦ panics
  | ok _ ↦ done (record s { exit_chan = open_chan }) cm
]

-- `close(s.exitChan)`
unfoldable pub close_exit : ExitChan → Server → ConnManager → Ran
close_exit open_chan s cm = done (record s { exit_chan = closed_chan }) cm
close_exit no_chan s cm = panics
close_exit closed_chan s cm = panics

unfoldable pub stop : Bool → Server → ConnManager → Ran
unfolding close_exit
stop ctl_ok s cm = elim (clear_conn ctl_ok cm) [
  | returns _ after ↦ close_exit s.exit_chan s after
  | waits after ↦ hangs after
]

-- `AddRouter`, which panics on a repeated identifier.
unfoldable pub add_handler : ℕ → ℕ → Server → ConnManager → Ran
add_handler msg_id router s cm = elim (add_router msg_id router s.apis) [
  | none ↦ panics
  | some apis ↦ done (record s { apis = apis }) cm
]

unfoldable pub keep_heartbeat : Heartbeat → Ran → Ran
keep_heartbeat h (done s cm) = done (record s { hb = some h }) cm
keep_heartbeat h (hangs cm) = hangs cm
keep_heartbeat h panics = panics

unfoldable pub start_heart_beat : Server → ConnManager → Ran
unfolding add_handler keep_heartbeat
start_heart_beat s cm =
    let h = new_heartbeat s.heartbeat_interval in
    keep_heartbeat h (add_handler h.msg_id h.router s cm)

-- What a round of the accepting loop meets: `AcceptTCP` fails, `NextVal` fails, or a client comes.
pub data Client : Type 0 where
  refused unnumbered : Client
  came : Connection → Client

-- Where the loop stands: at its next round, at its test with the table full, at its end, or in `Add`
-- for ever.
pub data Looped : Type 0 where
  again full over stuck_at : ConnManager → Looped

unfoldable pub added : Outcome (Unit {0}) → Looped
added (returns _ cm) = again cm
added (waits cm) = stuck_at cm

-- The round behind the test of the limit. An error of `AcceptTCP` ends the loop.
unfoldable pub admit : Bool → Client → ConnManager → Looped
unfolding added
admit ctl_ok refused cm = over cm
admit ctl_ok unnumbered cm = again cm
admit ctl_ok (came conn) cm = added (add ctl_ok conn cm)

unfoldable pub round : Bool → ℕ → Client → ConnManager → Looped
unfolding admit
round ctl_ok max_conn client cm = elim (len cm) [
  | waits after ↦ stuck_at after
  | returns n after ↦ if leb max_conn n then full after else admit ctl_ok client after
]

-- The loop goes on only behind a round that says so.
unfoldable pub go_on : (ConnManager → Looped) → Looped → Looped
go_on rest (again cm) = rest cm
go_on rest (full cm) = full cm
go_on rest (over cm) = over cm
go_on rest (stuck_at cm) = stuck_at cm

-- The rounds for the clients that come, while no connection leaves the table.
unfoldable pub accept_loop : Bool → ℕ → List Client → ConnManager → Looped
unfolding round go_on
accept_loop ctl_ok max_conn [] cm = again cm
accept_loop ctl_ok max_conn (client ∷ clients) cm =
    go_on (accept_loop ctl_ok max_conn clients) (round ctl_ok max_conn client cm)
