-- ===== src/GnetServer/Tests.antt =====
-- The server of server/server_gnet.go with one client.
use gts.World.Sample.{open_conn}
use gts.Base.{◌≡◌, refl, true, false, none, some, []}
use gts.Base.Int.{pos}
use gts.Base.Map.{lookup}
use gts.World.{Connection, World, returns}
use gts.Conn.Stop.{stopped}
use gts.Heartbeat.Lifecycle.{started}
use gts.Accept.Serve.{Offer}
use gts.Accept.Serve.Round.{admitted}
use gts.GnetServer.{GServer, serving, open_chan}
use gts.GnetServer.Closing.{open_and_read, open_and_read_closes}

abbrev no_conn : Connection
no_conn = record open_conn {
  conn_id = 0;
  is_closed = true;
  socket_closed = true;
  ctx_done = true;
  msg_cap = 0;
}

abbrev empty : World
empty = record { heap = λ a. no_conn; connections = []; locked = false }

abbrev offer : Offer
offer = record {
  max_conn = 3;
  has_on_start = true;
  has_on_stop = true;
  hb = none;
  close_fails = false;
}

open_and_read_closes_example :
    (v : World) × (open_and_read 50 offer 4 (some 7) empty ≡ returns tt v)
    × (v.heap 4 ≡ stopped (started 50 (admitted 1024 offer none 7)))
    × (lookup 7 v.connections ≡ none)
open_and_read_closes_example = open_and_read_closes 50 offer 4 7 empty refl tt refl

abbrev running : GServer
running = record {
  tcp_mode = true;
  worker_pool_size = pos 4;
  heartbeat_interval = 10;
  apis = [];
  hb = none;
  exit_chan = open_chan;
  loop = serving;
}
