-- ===== src/GnetServer.antt =====
-- server/server_gnet.go: the server on the event loop of gnet. `gnet.Serve` and the loop that calls
-- the methods of the server are outside the repository; `OnOpened` is in Accept/Serve.antt.
pub mod Echo
pub mod Closing
mod Tests
use gts.Base.{ℕ, Bool, true, false, Option, none, some, List, [], ◌∷◌, if◌then◌else◌}
use gts.Base.Int.{ℤ}
use gts.Base.Result.{ok, err}
use gts.World.{World, M, returns, blocks, crashes}
use gts.Message.{new_msg_package, pack}
use gts.Registry.{clear_conn}
use gts.Accept.Serve.{Offer, under_limit, admit}
use gts.Transport.Ws.{new_server_ws_conn}
use gts.Transport.Gnet
use gts.Heartbeat.{Heartbeat, new_heartbeat}
use gts.Handler.{new_msg_handle, add_router}
use gts.Handler.Queue.{start_worker_pool}

-- The goroutine of `startTcpServer`: not made, in `gnet.Serve`, in its `select`, or at its end.
pub data Loop : Type 0 where
  unmade serving selecting ended : Loop

-- `exitChan`, which has no buffer: not made, open, or closed.
pub data ExitChan : Type 0 where
  no_chan open_chan closed_chan : ExitChan

pub record GServer : Type 0 where
  pub tcp_mode : Bool
  pub worker_pool_size : ℤ
  pub heartbeat_interval : ℕ
  pub apis : List (ℕ × ℕ)
  pub hb : Option Heartbeat
  pub exit_chan : ExitChan
  pub loop : Loop

pub data Ran : Type 0 where
  done : GServer → World → Ran
  waits : World → Ran
  panics : Ran

-- `none` is the panic of `NewMsgHandle`.
unfoldable pub new_g_server : Bool → ℤ → ℕ → Option GServer
new_g_server tcp_mode worker_pool_size heartbeat_interval = elim (new_msg_handle worker_pool_size) [
  | none ↦ none
  | some apis ↦ some (record {
    tcp_mode = tcp_mode;
    worker_pool_size = worker_pool_size;
    heartbeat_interval = heartbeat_interval;
    apis = apis;
    hb = none;
    exit_chan = no_chan;
    loop = unmade;
  })
]

-- What is sent back for the bytes that gnet has read: they are the data of a message 1.
unfoldable pub react : List ℕ → List ℕ
react frame = pack (new_msg_package 1 frame)

-- The worker pool is made first; the WebSocket listener is not started.
unfoldable pub start : GServer → World → Ran
start s w = elim (start_worker_pool s.worker_pool_size) [
  | err _ ↦ panics
  | ok _ ↦
      done (record s { exit_chan = open_chan; loop = if s.tcp_mode then serving else s.loop }) w
]

-- `gnet.Serve` returns, with an error or without one.
unfoldable pub serve_returns : Bool → GServer → GServer
serve_returns failed s = record s { loop = if failed then ended else selecting }

-- `s.exitChan <- struct{}{}` and `close(s.exitChan)`: a send on a nil channel waits for ever, one on
-- a closed channel panics, and one on the open channel needs the receiver in its `select`.
unfoldable pub send_exit : ExitChan → Loop → GServer → World → Ran
send_exit no_chan l s w = waits w
send_exit closed_chan l s w = panics
send_exit open_chan selecting s w = done (record s { exit_chan = closed_chan; loop = ended }) w
send_exit open_chan unmade s w = waits w
send_exit open_chan serving s w = waits w
send_exit open_chan ended s w = waits w

unfoldable pub stop : GServer → World → Ran
unfolding send_exit
stop s w = elim (clear_conn Gnet.stop w) [
  | returns _ v ↦ send_exit s.exit_chan s.loop s v
  | blocks v ↦ waits v
  | crashes ↦ panics
]

-- `AddRouter`, which panics on a repeated identifier.
unfoldable pub add_handler : ℕ → ℕ → GServer → World → Ran
add_handler msg_id router s w = elim (add_router msg_id router s.apis) [
  | none ↦ panics
  | some apis ↦ done (record s { apis = apis }) w
]

-- `s.hb = hb`
unfoldable pub keep_heartbeat : Heartbeat → Ran → Ran
keep_heartbeat h (done s w) = done (record s { hb = some h }) w
keep_heartbeat h (waits w) = waits w
keep_heartbeat h panics = panics

unfoldable pub start_heart_beat : GServer → World → Ran
unfolding add_handler keep_heartbeat
start_heart_beat s w =
    let h = new_heartbeat s.heartbeat_interval in
    keep_heartbeat h (add_handler h.msg_id h.router s w)

-- The handler of `startWebSocketServer`, which nothing starts.
unfoldable pub upgrade_ws : Offer → Option ℕ → Option ℕ → M (Option ℕ)
upgrade_ws o upgraded cid = under_limit o (
    admit (λ a conn_id. new_server_ws_conn a conn_id o.has_on_start o.has_on_stop o.close_fails)
      none upgraded cid)
