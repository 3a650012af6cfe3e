-- ===== src/GnetServer/Closing.antt =====
-- How connections of server/server_gnet.go end, and the server.
use gts.Base.{
  ℕ, ◌≡◌, refl, ap, ◌∙◌, inl, inr, ◌⊎◌, Bool, false, Option, none, some, [], leb, if◌then◌else◌,
  length, arith,
}
use gts.Base.Map.{lookup, insert, IsMap, insert-IsMap, lookup-delete}
use gts.World.{unbound, idle, World, returns, ◌>>=◌, ◌>>◌, M, at, at-heap}
use gts.Registry.{clear_conn}
use gts.Conn
use gts.Conn.Stop.{stopped, stopped_world}
use gts.Conn.Clear.{AllClosed, clear_conn-closed}
use gts.Heartbeat.{Heartbeat}
use gts.Heartbeat.Lifecycle.{started}
use gts.Transport.Gnet
use gts.Accept.Serve.{Offer, on_opened}
use gts.Accept.Serve.Round.{checker_of, admitted, outcome, with_admitted, serve-round}
use gts.GnetServer.{
  GServer, Ran, done, waits, panics, Loop, unmade, serving, selecting, ended, ExitChan, open_chan,
  closed_chan, send_exit, stop,
}

-- What `OnOpened` sets going for a connection, with the reader at its first step.
abbrev pub open_and_read : ℕ → Offer → ℕ → Option ℕ → M (Unit {0})
open_and_read now o opened cid = do
  r ← on_opened o opened cid
  Gnet.start now opened
  Gnet.start_reader opened

checker_of-cases : (hb : Option Heartbeat) → (checker_of hb ≡ unbound) ⊎ (checker_of hb ≡ idle)
checker_of-cases none = inl refl
checker_of-cases (some h) = inr refl

on_opened-room :
    (o : Offer) (opened conn_id : ℕ) (w : World)
    → w.locked ≡ false
    → leb o.max_conn (length w.connections) ≡ false
    → on_opened o opened (some conn_id) w
      ≡ returns (some opened) (with_admitted w opened (admitted 1024 o o.hb conn_id))
on_opened-room o opened conn_id w f room =
    (serve-round o (some conn_id) w f none opened).4
    ∙ ap
        (λ (full : Bool).
          if full
          then returns none (record w { locked = false })
          else outcome 1024 o o.hb (some opened) (some conn_id) w)
        room

-- The table with the new connection.
abbrev pub table_with : World → ℕ → ℕ → World
table_with w conn_id a = record w { connections = insert conn_id a w.connections; locked = false }

open_and_read-eq :
    (now : ℕ) (o : Offer) (opened conn_id : ℕ) (w : World)
    → w.locked ≡ false
    → leb o.max_conn (length w.connections) ≡ false
    → open_and_read now o opened (some conn_id) w
      ≡ returns tt (
          stopped_world
            (table_with w conn_id opened)
            opened
            (started now (admitted 1024 o o.hb conn_id)))
unfolding Gnet.start_reader at
open_and_read-eq now o opened conn_id w f room =
    rw (on_opened-room o opened conn_id w f room, ◌>>=◌)
      (Gnet.ops-IsConnection.starts_and_stops now opened (table_with w conn_id opened)
        (admitted 1024 o o.hb conn_id) refl (checker_of-cases o.hb) refl)

-- Every connection that gnet opens below the limit is closed again by its own reader, which reads
-- nothing: afterwards it is closed, its socket too, its hooks were called, and the table does not
-- hold it.
pub open_and_read_closes :
    (now : ℕ) (o : Offer) (opened conn_id : ℕ) (w : World)
    → w.locked ≡ false
    → IsMap w.connections
    → leb o.max_conn (length w.connections) ≡ false
    → (v : World) × (open_and_read now o opened (some conn_id) w ≡ returns tt v)
      × (v.heap opened ≡ stopped (started now (admitted 1024 o o.hb conn_id)))
      × (lookup conn_id v.connections ≡ none)
open_and_read_closes now o opened conn_id w f m room =
    let c = started now (admitted 1024 o o.hb conn_id) in
    let t = insert conn_id opened w.connections in
    (
      stopped_world (table_with w conn_id opened) opened c,
      open_and_read-eq now o opened conn_id w f room,
      at-heap (table_with w conn_id opened) opened (stopped c),
      lookup-delete conn_id conn_id t (insert-IsMap conn_id opened w.connections m) ∙ ground arith,
    )

stop-tcp : Gnet.stop ≡ Conn.stop
unfolding Gnet.stop Gnet.stop_open Conn.stop Conn.stop_open
stop-tcp = refl

clear_conn-gnet :
    (w : World)
    → w.locked ≡ false
    → AllClosed w.heap w.connections
    → clear_conn Gnet.stop w ≡ returns tt (record w { connections = []; locked = false })
clear_conn-gnet w f c =
    ap (λ (s : ℕ → M (Unit {0})). clear_conn s w) stop-tcp ∙ clear_conn-closed w f c

-- Which of two ends the goroutine of the listener leaves.
abbrev pub by_loop : Loop → Ran → Ran → Ran
by_loop selecting heard unheard = heard
by_loop unmade heard unheard = unheard
by_loop serving heard unheard = unheard
by_loop ended heard unheard = unheard

send_exit-by_loop :
    (l : Loop) (s : GServer) (w : World)
    → send_exit open_chan l s w
      ≡ by_loop l (done (record s { exit_chan = closed_chan; loop = ended }) w) (waits w)
unfolding send_exit
send_exit-by_loop unmade s w = refl
send_exit-by_loop serving s w = refl
send_exit-by_loop selecting s w = refl
send_exit-by_loop ended s w = refl

-- `Stop` of a started server whose connections are closed already ends, with `exitChan` closed, only
-- if `gnet.Serve` has returned without an error; while the listener is in `gnet.Serve`, which `Stop`
-- does not end, it waits for ever. A `Stop` after one that ended panics.
pub stop-serving :
    (s : GServer) (w : World)
    → s.exit_chan ≡ open_chan
    → w.locked ≡ false
    → AllClosed w.heap w.connections
    → (stop s w
        ≡ by_loop s.loop
            (done
              (record s { exit_chan = closed_chan; loop = ended })
              (record w { connections = []; locked = false }))
            (waits (record w { connections = []; locked = false })))
      × (stop
            (record s { exit_chan = closed_chan; loop = ended })
            (record w { connections = []; locked = false })
          ≡ panics)
unfolding stop send_exit
stop-serving s w e f c =
    let emptied : World = record w { connections = []; locked = false } in
    (
      rw (stop, clear_conn-gnet w f c)
          (ap (λ (k : ExitChan). send_exit k s.loop s emptied) e
            ∙ send_exit-by_loop s.loop s emptied),
      rw (stop, clear_conn-gnet emptied refl tt) refl,
    )
