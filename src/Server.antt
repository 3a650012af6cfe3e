-- ===== src/Server.antt =====
-- server/server.go: a server around its handlers, its table of connections and its listeners.
pub mod Lifecycle
pub mod Listeners
mod Tests
use gts.Base.{ℕ, ◌≡◌, Bool, true, false, Option, none, some, List, [], ◌∷◌, ◌++◌, if◌then◌else◌}
use gts.Base.Int.{ℤ}
use gts.Base.Result.{ok, err}
use gts.World.{World, returns, blocks, crashes}
use gts.Registry.{clear_conn}
use gts.Conn
use gts.Heartbeat.{Heartbeat, new_heartbeat}
use gts.Handler.{new_msg_handle, add_router}
use gts.Handler.Queue.{start_worker_pool}

-- `exitChan` before `Start`, after it, and after `Stop`.
pub data ExitChan : Type 0 where
  no_chan open_chan closed_chan : ExitChan

pub data Listener : Type 0 where
  tcp web_socket quic kcp : Listener

-- The settings that are read, the handlers, and what `Start` set going.
pub record Server : Type 0 where
  pub tcp_mode : Bool
  pub ws_mode : Bool
  pub quic_mode : Bool
  pub kcp_mode : Bool
  pub worker_pool_size : ℤ
  pub heartbeat_interval : ℕ
  pub apis : List (ℕ × ℕ)
  pub hb : Option Heartbeat
  pub exit_chan : ExitChan
  pub listeners : List Listener

-- A method returns with the server and the world as they are then, or waits for ever, or panics.
pub data Ran : Type 0 where
  done : Server → World → Ran
  waits : World → Ran
  panics : Ran

-- `none` is the panic of `NewMsgHandle`.
unfoldable pub new_server : Bool → Bool → Bool → Bool → ℤ → ℕ → Option Server
new_server tcp_mode ws_mode quic_mode kcp_mode worker_pool_size heartbeat_interval =
    elim (new_msg_handle worker_pool_size) [
      | none ↦ none
      | some apis ↦ some (record {
        tcp_mode = tcp_mode;
        ws_mode = ws_mode;
        quic_mode = quic_mode;
        kcp_mode = kcp_mode;
        worker_pool_size = worker_pool_size;
        heartbeat_interval = heartbeat_interval;
        apis = apis;
        hb = none;
        exit_chan = no_chan;
        listeners = [];
      })
    ]

abbrev pub only : Bool → Listener → List Listener
only true l = l ∷ []
only false l = []

-- The listeners of the modes that are set.
unfoldable pub listen : Server → Server
listen s = record s {
  listeners =
      s.listeners
      ++ (only s.tcp_mode tcp
          ++ (only s.ws_mode web_socket ++ (only s.quic_mode quic ++ only s.kcp_mode kcp)));
}

-- The worker pool is made on every start, whether requests are given to it or not.
unfoldable pub start : Server → World → Ran
unfolding listen
start s w = elim (start_worker_pool s.worker_pool_size) [
  | err _ ↦ panics
  | ok _ ↦ done (listen (record s { exit_chan = open_chan })) w
]

-- `close(s.exitChan)`
unfoldable pub close_exit : ExitChan → Server → World → Ran
close_exit open_chan s w = done (record s { exit_chan = closed_chan }) w
close_exit no_chan s w = panics
close_exit closed_chan s w = panics

unfoldable pub stop : Server → World → Ran
unfolding close_exit
stop s w = elim (clear_conn Conn.stop w) [
  | returns _ v ↦ close_exit s.exit_chan s v
  | blocks v ↦ waits v
  | crashes ↦ panics
]

-- `AddRouter`, which panics on a repeated identifier.
unfoldable pub add_handler : ℕ → ℕ → Server → World → Ran
add_handler msg_id router s w = elim (add_router msg_id router s.apis) [
  | none ↦ panics
  | some apis ↦ done (record s { apis = apis }) w
]

-- `s.hb = hb`
unfoldable pub keep_heartbeat : Heartbeat → Ran → Ran
keep_heartbeat h (done s w) = done (record s { hb = some h }) w
keep_heartbeat h (waits w) = waits w
keep_heartbeat h panics = panics

unfoldable pub start_heart_beat : Server → World → Ran
unfolding add_handler keep_heartbeat
start_heart_beat s w =
    let h = new_heartbeat s.heartbeat_interval in
    keep_heartbeat h (add_handler h.msg_id h.router s w)
