-- ===== src/Epoll/Tests.antt =====
-- A manager of epoll/connmanger.go with two connections.
use gts.Base.{map, ℕ, ◌≡◌, refl, true, false, some, List, [], ◌∷◌}
use gts.Epoll.{Connection, ConnManager, waits, remove}
use gts.Epoll.Deadlock.{stuck, remove_deadlock}
use gts.Conn.Reader.{read_rounds}
use gts.Epoll.Serve.{as_result, start_reader, start_reader-read_rounds}
use gts.Epoll.Writer.{Writer}
use gts.World.{selecting}
use gts.Epoll.Stop.{Stoppable}

abbrev first : Connection
first = record { address = 10; conn_id = 1; fd = some 5 }

abbrev second : Connection
second = record { address = 11; conn_id = 2; fd = some 6 }

abbrev third : Connection
third = record { address = 12; conn_id = 3; fd = some 6 }

abbrev manager : ConnManager
manager = record {
  connections = (1, first) ∷ (2, second) ∷ [];
  fd2conn = (5, 1) ∷ (6, 2) ∷ [];
  locked = false;
}

remove_deadlock_example : remove true first manager ≡ waits (stuck first 5 manager)
remove_deadlock_example = remove_deadlock true first manager refl

abbrev no_conns : ConnManager
no_conns = record { connections = []; fd2conn = []; locked = false }

abbrev beat_frame : List ℕ
beat_frame = 0 ∷ 0 ∷ 0 ∷ 0 ∷ 159 ∷ 134 ∷ 1 ∷ 0 ∷ []

abbrev input : List ℕ
input = 1 ∷ 0 ∷ 0 ∷ 0 ∷ 5 ∷ 0 ∷ 0 ∷ 0 ∷ 9 ∷ beat_frame

start_reader-read_rounds_example :
    start_reader 0 3 input ≡ (map as_result (read_rounds 0 3 input).0, (read_rounds 0 3 input).1)
start_reader-read_rounds_example = start_reader-read_rounds 0 3 input

abbrev epoll_conn : Stoppable
epoll_conn = record {
  conn = first;
  is_closed = false;
  checker = selecting;
  has_on_start = true;
  has_on_stop = true;
  notices = [];
  socket_closed = false;
  close_fails = false;
  ctx_done = false;
}

-- Two chunks, of which the second is cut off behind one byte.
abbrev writer : Writer
writer = record {
  conn = epoll_conn;
  msg_chan = (1 ∷ 2 ∷ []) ∷ (3 ∷ 4 ∷ []) ∷ (5 ∷ []) ∷ [];
  manager = manager;
  wire = [];
}
