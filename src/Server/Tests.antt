-- ===== src/Server/Tests.antt =====
-- A server of server/server.go that was stopped, with a WebSocket listener.
use gts.Base.{true, false, none, some, List, [], ◌∷◌}
use gts.World.{World}
use gts.World.Sample.{open_conn}
use gts.Accept.Serve.{Offer}
use gts.Server.{tcp, web_socket, quic, kcp, closed_chan}
use gts.Server.Listeners.{Net, Event, sees_exit, accepts, down, listening, shut}
use gts.Server.Listeners.Stopped.{Stopped}

abbrev offer : Offer
offer = record {
  max_conn = 3;
  has_on_start = true;
  has_on_stop = true;
  hb = none;
  close_fails = false;
}

abbrev stopped : Net
stopped = record {
  exit_chan = closed_chan;
  phase = λ l. elim l [ tcp ↦ shut | web_socket ↦ listening | quic ↦ down | kcp ↦ shut ];
}

abbrev world : World
world = record { heap = λ _. open_conn; connections = []; locked = false }

-- A client of each kind comes.
abbrev clients : List Event
clients =
    accepts tcp (some 4) (some 7)
    ∷ sees_exit kcp
    ∷ accepts web_socket (some 5) (some 8)
    ∷ accepts kcp (some 6) (some 9)
    ∷ []
