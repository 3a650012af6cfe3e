-- ===== src/Server/Lifecycle.antt =====
-- Starting and stopping the server of server/server.go.
use gts.Base.{ℕ, ◌≡◌, refl, ap, true, false, none, some, [], if◌then◌else◌, arith}
use gts.Base.Int.{ℤ, pos, negsuc, leb_ℤ}
use gts.Base.Map.{lookup, insert, lookup-insert}
use gts.Base.Result.{ok, err}
use gts.World.{World}
use gts.Conn.Clear.{clear_conn-blocks, clear_conn-closed, AllClosed, AllManaged, SomeOpen}
use gts.FuncPool.{new_pool_with_func, with_stack}
use gts.Heartbeat.{new_heartbeat}
use gts.Handler.{add_router}
use gts.Handler.Queue.{start_worker_pool}
use gts.Server.{
  ExitChan, open_chan, closed_chan, Server, Ran, done, waits, panics, listen, start, close_exit,
  stop, add_handler, keep_heartbeat, start_heart_beat,
}

by_size :
    (size : ℤ) (x y : Ran)
    → (elim (start_worker_pool size) as (λ _. Ran) [ err _ ↦ x | ok _ ↦ y ])
      ≡ (if leb_ℤ size (pos 0) then x else y)
unfolding start_worker_pool new_pool_with_func with_stack
by_size (pos n) x y = ground arith
by_size (negsuc n) x y = ground arith

-- `Start` panics when the worker pool's size is 0 or less, although 0 stands for a server without a
-- pool; otherwise it starts the listeners of the modes that are set.
pub start_lem :
    (s : Server) (w : World)
    → start s w ≡ (
        if leb_ℤ s.worker_pool_size (pos 0)
        then panics
        else done (listen (record s { exit_chan = open_chan })) w)
unfolding start
start_lem s w =
    by_size s.worker_pool_size panics (done (listen (record s { exit_chan = open_chan })) w)

-- `Stop` with an open connection in the table, all of which have the manager, from a free lock, waits
-- for ever, so `exitChan` is not closed and no listener is told to end.
pub stop-waits :
    (s : Server) (w : World)
    → w.locked ≡ false
    → AllManaged w.heap w.connections
    → SomeOpen w.heap w.connections
    → (v : World) × (stop s w ≡ waits v) × (v.locked ≡ true)
unfolding stop
stop-waits s w f m o = let (v, e, l) = clear_conn-blocks w f m o in (v, rw (stop, e) refl, l)

close_exit_open :
    (k : ExitChan) (s : Server) (w : World)
    → k ≡ open_chan
    → close_exit k s w ≡ done (record s { exit_chan = closed_chan }) w
unfolding close_exit
close_exit_open k s w e = ap (λ (c : ExitChan). close_exit c s w) e

-- `Stop` of a running server whose connections are closed already empties the table and closes
-- `exitChan`; a second `Stop` panics.
pub stop_closed_server :
    (s : Server) (w : World)
    → s.exit_chan ≡ open_chan
    → w.locked ≡ false
    → AllClosed w.heap w.connections
    → (stop s w
        ≡ done
            (record s { exit_chan = closed_chan })
            (record w { connections = []; locked = false }))
      × (stop (record s { exit_chan = closed_chan }) (record w { connections = []; locked = false })
          ≡ panics)
unfolding stop close_exit
stop_closed_server s w running free closed = (
  rw (stop, clear_conn-closed w free closed)
      (close_exit_open s.exit_chan s (record w { connections = []; locked = false }) running),
  rw (stop, clear_conn-closed (record w { connections = []; locked = false }) refl tt) refl,
)

add_handler_free :
    (msg_id router : ℕ) (s : Server) (w : World)
    → lookup msg_id s.apis ≡ none
    → add_handler msg_id router s w ≡ done (record s { apis = insert msg_id router s.apis }) w
unfolding add_handler add_router
add_handler_free msg_id router s w e = rw (add_handler, add_router, e) refl

add_handler_taken :
    (msg_id router other : ℕ) (s : Server) (w : World)
    → lookup msg_id s.apis ≡ some other
    → add_handler msg_id router s w ≡ panics
unfolding add_handler add_router
add_handler_taken msg_id router other s w e = rw (add_handler, add_router, e) refl

-- `StartHeartBeat` registers the default identifier and keeps the checker, when the identifier has
-- no handler, and a second call panics.
pub start_heart_beat_lem :
    (s : Server) (w : World)
    → lookup 99999 s.apis ≡ none
    → (t : Server) × (start_heart_beat s w ≡ done t w)
      × (t.hb ≡ some (new_heartbeat s.heartbeat_interval))
      × (lookup 99999 t.apis ≡ some 0)
      × (start_heart_beat t w ≡ panics)
unfolding start_heart_beat keep_heartbeat new_heartbeat
start_heart_beat_lem s w free =
    let found = lookup-insert 99999 99999 0 s.apis in
    (
      record s { apis = insert 99999 0 s.apis; hb = some (new_heartbeat s.heartbeat_interval) },
      ap (keep_heartbeat (new_heartbeat s.heartbeat_interval)) (add_handler_free 99999 0 s w free),
      refl,
      found,
      ap (keep_heartbeat (new_heartbeat s.heartbeat_interval)) (
          add_handler_taken 99999 0 0
            (record s {
              apis = insert 99999 0 s.apis;
              hb = some (new_heartbeat s.heartbeat_interval);
            })
            w found),
    )
