-- ===== src/Heartbeat.antt =====
-- heartbead/heartbeat.go: the checker that a connection may have. Its goroutine and the connection
-- are one world; the ticks of its timer and the clock are arguments.
pub mod Check
pub mod Lifecycle
pub mod Activity
pub mod Timeline
mod Tests
use gts.Base.{ℕ, Bool, true, false, not, ◌&&◌, Option, none, some, List, ◌==◌, if◌then◌else◌}
use gts.World.{
  Checker, unbound, idle, selecting, checking, exited, Connection, World, Outcome, returns, blocks,
  M, ◌>>=◌, ◌>>◌, pure, wait_for_ever, when, load, store, modify,
}
use gts.Conn.{call_on_conn_start, quit}
use gts.Conn.Reader.{Round, heartbeat, heart_beat_default_msg_id}
use gts.Conn.Send.{SendResult, closed, sent, waits, send}
use gts.Conn.Property.{is_alive, update_activity}

-- A router and the two functions are known by numbers; 0 is the default of each.
pub record Heartbeat : Type 0 where
  pub interval : ℕ
  pub msg_id : ℕ
  pub router : ℕ
  pub make_msg : ℕ
  pub on_remote_not_alive : ℕ
  pub conn : Option ℕ

unfoldable pub new_heartbeat : ℕ → Heartbeat
new_heartbeat interval = record {
  interval = interval;
  msg_id = heart_beat_default_msg_id;
  router = 0;
  make_msg = 0;
  on_remote_not_alive = 0;
  conn = none;
}

-- `none` stands for a `nil` function or router here and below.
unfoldable pub set_on_remote_not_alive : Option ℕ → Heartbeat → Heartbeat
set_on_remote_not_alive none h = h
set_on_remote_not_alive (some f) h = record h { on_remote_not_alive = f }

unfoldable pub set_heartbeat_msg_func : Option ℕ → Heartbeat → Heartbeat
set_heartbeat_msg_func none h = h
set_heartbeat_msg_func (some f) h = record h { make_msg = f }

unfoldable pub bind_router : ℕ → Option ℕ → Heartbeat → Heartbeat
bind_router msg_id none h = h
bind_router msg_id (some router) h =
    if not (msg_id == heart_beat_default_msg_id)
    then record h { msg_id = msg_id; router = router }
    else h

-- `BindConn`, with `SetHeartBeat` of the connection.
unfoldable pub bind_conn : ℕ → Heartbeat → M Heartbeat
bind_conn a h = do modify a λ c. record c { checker = idle }; pure (record h { conn = some a })

unfoldable pub clone : Heartbeat → Heartbeat
clone h = record {
  interval = h.interval;
  msg_id = h.msg_id;
  router = h.router;
  make_msg = h.make_msg;
  on_remote_not_alive = h.on_remote_not_alive;
  conn = none;
}

-- What comes of `check`: it returns an error, or `nil`, or is still in `Send`, which waits for the
-- writer with its bytes behind those that are in `msgChan`.
pub data CheckError : Type 0 where
  no_conn send_failed : CheckError

pub data CheckResult : Type 0 where
  failed : CheckError → CheckResult
  passed sending : CheckResult

unfoldable pub send_error : SendResult → CheckResult
send_error closed = failed send_failed
send_error sent = passed
send_error waits = sending

-- `SendHeartBeatMsg`, with the bytes that `makeMsg` gave.
unfoldable pub send_heart_beat_msg : Heartbeat → ℕ → List ℕ → M CheckResult
unfolding send send_error
send_heart_beat_msg h a msg = do
  c ← load a
  let (r, d) = send c h.msg_id msg
  store a d
  pure (send_error r)

-- `check` of a connection that is not alive; `handler` is `onRemoteNotAlive`.
unfoldable pub give_up : (ℕ → M (Unit {0})) → ℕ → M CheckResult
unfolding quit
give_up handler a = do handler a; c ← load a; quit c.checker a; pure passed

-- `check` behind its test of `h.conn`.
unfoldable pub check_conn : Heartbeat → (ℕ → M (Unit {0})) → ℕ → ℕ → List ℕ → ℕ → M CheckResult
unfolding is_alive send_heart_beat_msg give_up
check_conn h handler now max msg a = do
  c ← load a
  if is_alive now max c then send_heart_beat_msg h a msg else give_up handler a

unfoldable pub check : Heartbeat → (ℕ → M (Unit {0})) → ℕ → ℕ → List ℕ → M CheckResult
unfolding check_conn
check h handler now max msg = elim h.conn [
  | none ↦ pure (failed no_conn)
  | some a ↦ check_conn h handler now max msg a
]

-- Where the goroutine is after `check`: a `Send` that waits keeps it there.
unfoldable pub after_check : CheckResult → Checker
after_check (failed e) = exited
after_check passed = selecting
after_check sending = checking

-- One tick of the goroutine that `Start` makes, from its `select`, for the connection at `a`.
unfoldable pub tick : Heartbeat → (ℕ → M (Unit {0})) → ℕ → ℕ → List ℕ → ℕ → M (Unit {0})
unfolding check after_check
tick h handler now max msg a = do
  modify a λ c. record c { checker = checking }
  r ← check h handler now max msg
  modify a λ c. record c { checker = after_check r }

-- The heartbeat's part of a connection's `Start`.
unfoldable pub start : ℕ → ℕ → M (Unit {0})
unfolding update_activity
start now a = modify a λ c. update_activity now (record c { checker = selecting })

-- `c.hb != nil`
unfoldable pub has_heartbeat : Checker → Bool
has_heartbeat unbound = false
has_heartbeat idle = true
has_heartbeat selecting = true
has_heartbeat checking = true
has_heartbeat exited = true

-- `Start` of a connection up to the wait for its context; the reader and the writer run beside it.
unfoldable pub start_conn : ℕ → ℕ → M (Unit {0})
unfolding has_heartbeat start call_on_conn_start
start_conn now a = do
  c ← load a
  when (has_heartbeat c.checker) (start now a)
  modify a λ d. call_on_conn_start (record d { has_cancel = true; ctx_done = false })

-- What a round of the reader in server/conn.go does to its connection at the time `now`.
unfoldable pub after_round : ℕ → Round → Connection → Connection
unfolding has_heartbeat update_activity
after_round now heartbeat c = if has_heartbeat c.checker then update_activity now c else c
after_round now _ c = c
