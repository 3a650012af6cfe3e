-- ===== src/Accept/Tests.antt =====
-- Two listeners of server/server_tcp.go and server/server_kcp.go with a limit of one connection.
use gts.World.Sample.{open_conn}
use gts.Base.{◌+◌, ◌≤◌, ◌≡◌, refl, true, false, none, some, List, [], ◌∷◌, arith, length}
use gts.World.{Connection, World}
use gts.Accept.Serve.{Offer, serve_tcp, serve_kcp, serve_quic, upgrade_ws, on_opened}
use gts.Accept.Serve.Round.{round, serve-round}
use gts.Accept.{Event, try_accept, accept, try_upgrade, upgrade, new_state, run, run-bound}

-- A listener, and two clients that ask for WebSocket at once.
abbrev events : List Event
events =
    try_upgrade
    ∷ try_accept
    ∷ try_upgrade
    ∷ upgrade 1 10
    ∷ accept 2 20
    ∷ upgrade 3 30
    ∷ try_accept
    ∷ try_upgrade
    ∷ []

run-bound_example : length (run 1 2 1 new_state events).connections + 1 ≤ 1 + 1 + 2
run-bound_example = run-bound 1 2 1 events (omega arith) (omega arith)

abbrev no_conn : Connection
no_conn = record open_conn {
  conn_id = 0;
  is_closed = true;
  socket_closed = true;
  ctx_done = true;
  msg_cap = 0;
}

abbrev empty : World
empty = record { heap = λ a. no_conn; connections = []; locked = false }

abbrev offer : Offer
offer = record {
  max_conn = 3;
  has_on_start = true;
  has_on_stop = true;
  hb = some (record {
    interval = 10;
    msg_id = 99999;
    router = 0;
    make_msg = 0;
    on_remote_not_alive = 0;
    conn = none;
  });
  close_fails = false;
}

serve-round_example :
    (serve_tcp offer (some 4) (some 7) empty ≡ round 1024 offer offer.hb (some 4) (some 7) empty)
    × (serve_kcp offer (some 4) (some 7) empty ≡ round 0 offer offer.hb (some 4) (some 7) empty)
    × (serve_quic offer (some 4) (some 7) empty ≡ round 0 offer offer.hb (some 4) (some 7) empty)
    × (upgrade_ws offer (some 4) (some 7) empty ≡ round 1024 offer none (some 4) (some 7) empty)
    × (on_opened offer 5 (some 7) empty ≡ round 1024 offer offer.hb (some 5) (some 7) empty)
serve-round_example = serve-round offer (some 7) empty refl (some 4) 5
