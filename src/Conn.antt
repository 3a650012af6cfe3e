-- ===== src/Conn.antt =====
-- server/conn.go: one connection of the server or of a client, at an address of the heap. The
-- socket, the hooks and the user's handlers are outside the file; what they are told is recorded.
pub mod Reader
pub mod Stop
pub mod Clear
pub mod Send
pub mod Stream
pub mod Property
pub mod Race
mod Tests
use gts.Base.{
  ◌||◌, ℕ, ◌+◌, Bool, true, false, not, Option, none, some, List, [], ◌∷◌, ◌++◌, ltb, ◌==◌,
  if◌then◌else◌, length,
}
use gts.Base.Map.{lookup, insert, delete}
use gts.Base.Result.{Result, ok, err}
use gts.World.{
  Checker, unbound, idle, selecting, checking, exited, Notice, on_conn_start, on_conn_stop,
  Connection, World, Outcome, returns, blocks, M, ◌>>=◌, ◌>>◌, pure, wait_for_ever, crash, when,
  load, store, modify,
}
use gts.Message.{new_msg_package, pack}
use gts.Registry.{add, remove}

-- `newServerConn`: the fields that the server gives it, and the place in the table.
unfoldable pub new_server_conn : ℕ → ℕ → Bool → Bool → Bool → M (Unit {0})
new_server_conn a conn_id has_on_start has_on_stop close_fails = do
  store a (record {
    conn_id = conn_id;
    is_closed = false;
    has_manager = true;
    has_on_start = has_on_start;
    has_on_stop = has_on_stop;
    socket_closed = false;
    close_fails = close_fails;
    has_cancel = false;
    ctx_done = false;
    msg_chan = [];
    msg_cap = 1024;
    property = [];
    checker = unbound;
    last_activity_time = 0;
    notices = [];
  })
  add a

-- `newClientConn`: no manager, and a channel without a buffer.
unfoldable pub new_client_conn : ℕ → Bool → Bool → Bool → M (Unit {0})
new_client_conn a has_on_start has_on_stop close_fails = store a (record {
  conn_id = 0;
  is_closed = false;
  has_manager = false;
  has_on_start = has_on_start;
  has_on_stop = has_on_stop;
  socket_closed = false;
  close_fails = close_fails;
  has_cancel = false;
  ctx_done = false;
  msg_chan = [];
  msg_cap = 0;
  property = [];
  checker = unbound;
  last_activity_time = 0;
  notices = [];
})

-- `if c.hb != nil { c.hb.Stop() }`, where `Stop` sends on `quitChan`: the channel has no buffer, so
-- the send ends only with the heartbeat's goroutine in its `select`, which then returns.
unfoldable pub quit : Checker → ℕ → M (Unit {0})
quit unbound a = pure tt
quit selecting a = modify a λ c. record c { checker = exited }
quit _ a = wait_for_ever

unfoldable pub call_on_conn_start : Connection → Connection
call_on_conn_start c = record c {
  notices = if c.has_on_start then c.notices ++ on_conn_start ∷ [] else c.notices;
}

unfoldable pub call_on_conn_stop : Connection → Connection
call_on_conn_stop c = record c {
  notices = if c.has_on_stop then c.notices ++ on_conn_stop ∷ [] else c.notices;
}

-- `Conn.Close`, and `cancel` where it reports no error.
unfoldable pub close_socket : Connection → Connection
close_socket c = record c {
  socket_closed = true;
  ctx_done = if c.close_fails then c.ctx_done else true;
}

-- The end of `Stop`: before `Start` has made the context, `cancel` is `nil` and its call panics.
unfoldable pub close_conn : ℕ → M (Unit {0})
unfolding close_socket
close_conn a = do c ← load a; if c.close_fails || c.has_cancel then modify a close_socket else crash

-- `Stop` behind its first test.
unfoldable pub stop_open : ℕ → M (Unit {0})
unfolding quit call_on_conn_stop close_conn
stop_open a = do
  c ← load a
  quit c.checker a
  modify a λ d. record d { is_closed = true }
  modify a call_on_conn_stop
  when c.has_manager (remove a)
  close_conn a

unfoldable pub stop : ℕ → M (Unit {0})
stop a = do c ← load a; when (not c.is_closed) (stop_open a)
