-- ===== src/Client/Tests.antt =====
-- A client of server/client.go at concrete values.
use gts.World.Sample.{open_conn}
use gts.Base.{◌≡◌, true, false, none, some, []}
use gts.Base.Int.{pos}
use gts.World.{Connection, World, at}
use gts.Conn.Stop.{stopped_world}
use gts.Heartbeat.Lifecycle.{started}
use gts.Client.{Client, done, start}
use gts.Client.Lifecycle.{client_conn, bound_to, then_stop, start-then_stop}

abbrev client : Client
client = record {
  conn = none;
  apis = [];
  has_on_start = true;
  has_on_stop = true;
  hb = some (record {
    interval = 15;
    msg_id = 99999;
    router = 0;
    make_msg = 0;
    on_remote_not_alive = 0;
    conn = none;
  });
}

abbrev no_conn : Connection
no_conn = record open_conn {
  conn_id = 0;
  is_closed = true;
  socket_closed = true;
  ctx_done = true;
  msg_cap = 0;
}

abbrev empty : World
empty = record { heap = λ a. no_conn; connections = []; locked = false }

start-then_stop_example :
    then_stop (start 50 (some 4) false client empty)
    ≡ done
        (record client { conn = some 4; hb = bound_to 4 client.hb })
        (pos 0)
        (stopped_world empty 4 (started 50 (client_conn client false)))
start-then_stop_example = start-then_stop 50 4 false client empty

-- The world that the start of the client leaves.
abbrev started_world : World
started_world = at empty 4 (started 50 (client_conn client false))
