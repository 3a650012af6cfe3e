-- ===== src/World/Sample.antt =====
-- A connection of server/conn.go for the tests: open, in the table, without hooks or a checker.
use gts.Base.{true, false, []}
use gts.World.{Connection, unbound}

abbrev pub open_conn : Connection
open_conn = record {
  conn_id = 7;
  is_closed = false;
  has_manager = true;
  has_on_start = false;
  has_on_stop = false;
  socket_closed = false;
  close_fails = false;
  has_cancel = true;
  ctx_done = false;
  msg_chan = [];
  msg_cap = 1024;
  property = [];
  checker = unbound;
  last_activity_time = 0;
  notices = [];
}
