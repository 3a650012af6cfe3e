-- ===== src/Transport/Gnet.antt =====
-- server/conn_gnet.go: a connection over gnet. The event loop of gnet reads; the reader of this file
-- returns at once.
use gts.Base.{
  ◌||◌, ℕ, ◌+◌, Bool, true, false, not, Option, none, some, List, [], ◌∷◌, ◌++◌, ltb, if◌then◌else◌,
  length, take,
}
use gts.Base.Map.{lookup, insert, delete}
use gts.World.{
  unbound, selecting, on_conn_start, on_conn_stop, Connection, M, ◌>>=◌, ◌>>◌, pure, when, crash,
  load, store, modify,
}
use gts.Message.{new_msg_package, pack}
use gts.Registry.{add, remove}
use gts.Conn.{quit}
use gts.Conn.Send.{SendResult, closed, sent, waits}
use gts.Heartbeat.{has_heartbeat}
use gts.Transport.{Select, written, cancelled, ConnectionOps, IsConnection}
use gts.Transport.Tcp

unfoldable pub new_g_server_conn : ℕ → ℕ → Bool → Bool → Bool → M (Unit {0})
new_g_server_conn a conn_id has_on_start has_on_stop close_fails = do
  store a (record {
    conn_id = conn_id;
    is_closed = false;
    has_manager = true;
    has_on_start = has_on_start;
    has_on_stop = has_on_stop;
    socket_closed = false;
    close_fails = close_fails;
    has_cancel = false;
    ctx_done = false;
    msg_chan = [];
    msg_cap = 1024;
    property = [];
    checker = unbound;
    last_activity_time = 0;
    notices = [];
  })
  add a

unfoldable pub call_on_conn_start : Connection → Connection
call_on_conn_start c = record c {
  notices = if c.has_on_start then c.notices ++ on_conn_start ∷ [] else c.notices;
}

unfoldable pub call_on_conn_stop : Connection → Connection
call_on_conn_stop c = record c {
  notices = if c.has_on_stop then c.notices ++ on_conn_stop ∷ [] else c.notices;
}

unfoldable pub update_activity : ℕ → Connection → Connection
update_activity now c = record c { last_activity_time = now }

-- `Start` up to the wait for its context; the reader and the writer run beside it.
unfoldable pub start : ℕ → ℕ → M (Unit {0})
unfolding call_on_conn_start update_activity
start now a = do
  c ← load a
  when (has_heartbeat c.checker)
      (modify a λ d. update_activity now (record d { checker = selecting }))
  modify a λ d. call_on_conn_start (record d { has_cancel = true; ctx_done = false })

-- `Conn.Close`, and `cancel` where it reports no error.
unfoldable pub close_socket : Connection → Connection
close_socket c = record c {
  socket_closed = true;
  ctx_done = if c.close_fails then c.ctx_done else true;
}

-- The end of `Stop`: before `Start` has made the context, `cancel` is `nil` and its call panics.
unfoldable pub close_conn : ℕ → M (Unit {0})
unfolding close_socket
close_conn a = do c ← load a; if c.close_fails || c.has_cancel then modify a close_socket else crash

-- `Stop` behind its first test.
unfoldable pub stop_open : ℕ → M (Unit {0})
unfolding call_on_conn_stop close_conn
stop_open a = do
  c ← load a
  quit c.checker a
  modify a λ d. record d { is_closed = true }
  modify a call_on_conn_stop
  when c.has_manager (remove a)
  close_conn a

unfoldable pub stop : ℕ → M (Unit {0})
unfolding stop_open
stop a = do c ← load a; when (not c.is_closed) (stop_open a)

unfoldable pub send : Connection → ℕ → List ℕ → SendResult × Connection
send c msg_id bytes = if c.is_closed then (closed, c) else (
  (if ltb (length c.msg_chan) c.msg_cap then sent else waits),
  record c { msg_chan = c.msg_chan ++ pack (new_msg_package msg_id bytes) ∷ [] },
)

-- `Conn.SendTo` of a value of `msgChan`.
unfoldable pub write_chunk : Option ℕ → List (List ℕ) → ℕ → M (List ℕ × Bool)
unfolding stop
write_chunk failure [] a = pure ([], true)
write_chunk none (chunk ∷ rest) a = do
  modify a λ c. record c { msg_chan = rest }
  pure (chunk, true)
write_chunk (some k) (chunk ∷ rest) a = do
  modify a λ c. record c { msg_chan = rest }
  stop a
  pure (take k chunk, false)

unfoldable pub writer_round : Select → ℕ → M (List ℕ × Bool)
unfolding write_chunk stop
writer_round (written failure) a = do c ← load a; write_chunk failure c.msg_chan a
writer_round cancelled a = do
  c ← load a
  if c.ctx_done then (stop a >> pure ([], false)) else pure ([], true)

unfoldable pub set_property : ℕ → ℕ → Connection → Connection
set_property key value c = record c { property = insert key value c.property }

unfoldable pub get_property : ℕ → Connection → Option ℕ
get_property key c = lookup key c.property

unfoldable pub remove_property : ℕ → Connection → Connection
remove_property key c = record c { property = delete key c.property }

unfoldable pub is_alive : ℕ → ℕ → Connection → Bool
is_alive now max c = if c.is_closed then false else ltb now (c.last_activity_time + max)

abbrev pub ops : ConnectionOps
ops = record {
  start = start;
  stop = stop;
  send = send;
  writer_round = writer_round;
  set_property = set_property;
  get_property = get_property;
  remove_property = remove_property;
  is_alive = is_alive;
}

-- `StartReader`: the loop behind its `return` is never reached, and the deferred call is `Stop`.
unfoldable pub start_reader : ℕ → M (Unit {0})
unfolding stop
start_reader a = stop a

-- The connection of server/conn_gnet.go keeps every law of a connection.
pub ops-IsConnection : IsConnection ops
unfolding start stop send writer_round set_property get_property remove_property is_alive
    Tcp.writer_round gts.Heartbeat.start_conn gts.Conn.stop gts.Conn.Send.send
    gts.Conn.Property.set_property gts.Conn.Property.get_property gts.Conn.Property.remove_property
    gts.Conn.Property.is_alive gts.Conn.stop_open
ops-IsConnection = Tcp.ops-IsConnection
