-- ===== src/Client.antt =====
-- server/client.go: a client with its one connection. The settings of the process, of which `Start`
-- changes the size of the worker pool, are shared with the servers of the process.
pub mod Lifecycle
mod Tests
use gts.Base.{ℕ, Bool, true, false, Option, none, some, List, [], ◌∷◌}
use gts.Base.Int.{ℤ, pos}
use gts.World.{Connection, World, Outcome, returns, blocks, crashes, M, ◌>>=◌, ◌>>◌, pure}
use gts.Conn
use gts.Conn.{new_client_conn}
use gts.Heartbeat.{Heartbeat, new_heartbeat, bind_conn, start_conn}
use gts.Handler.{new_msg_handle, add_router}

pub record Client : Type 0 where
  pub conn : Option ℕ
  pub apis : List (ℕ × ℕ)
  pub has_on_start : Bool
  pub has_on_stop : Bool
  pub hb : Option Heartbeat

-- A method returns with the client, the size of the worker pool in the settings and the world as
-- they are then, or waits for ever, or panics.
pub data Ran : Type 0 where
  done : Client → ℤ → World → Ran
  waits : World → Ran
  panics : Ran

-- `none` is the panic of `NewMsgHandle`.
unfoldable pub new_client : ℤ → Option Client
new_client worker_pool_size = elim (new_msg_handle worker_pool_size) [
  | none ↦ none
  | some apis ↦
      some
        (record { conn = none; apis = apis; has_on_start = false; has_on_stop = false; hb = none })
]

unfoldable pub set_on_conn_start : Bool → Client → Client
set_on_conn_start set c = record c { has_on_start = set }

unfoldable pub set_on_conn_stop : Bool → Client → Client
set_on_conn_stop set c = record c { has_on_stop = set }

-- `c.hb.BindConn(c.conn)`: the client's own checker, and no clone of it.
unfoldable pub bind_own : Option Heartbeat → ℕ → M (Option Heartbeat)
unfolding bind_conn
bind_own none a = pure none
bind_own (some h) a = do bound ← bind_conn a h; pure (some bound)

-- The goroutine of `Start` from the dialled connection at `a` on, up to the wait in the connection's
-- own `Start`.
unfoldable pub dialled : ℕ → ℕ → Bool → Client → M (Option Heartbeat)
unfolding new_client_conn bind_own start_conn
dialled now a close_fails c = do
  new_client_conn a c.has_on_start c.has_on_stop close_fails
  hb ← bind_own c.hb a
  start_conn now a
  pure hb

unfoldable pub keep : ℕ → Client → Outcome (Option Heartbeat) → Ran
keep a c (returns hb w) = done (record c { conn = some a; hb = hb }) (pos 0) w
keep a c (blocks w) = waits w
keep a c crashes = panics

-- `Start` at the time `now`; `none` is an error of `DialTCP`.
unfoldable pub start : ℕ → Option ℕ → Bool → Client → World → Ran
unfolding dialled keep
start now none close_fails c w = panics
start now (some a) close_fails c w = keep a c (dialled now a close_fails c w)

unfoldable pub ended : Client → ℤ → Outcome (Unit {0}) → Ran
ended c size (returns _ w) = done c size w
ended c size (blocks w) = waits w
ended c size crashes = panics

-- `Stop` asks the connection for its address first, which a client without one has not.
unfoldable pub stop : Client → ℤ → World → Ran
unfolding ended
stop c size w = elim c.conn [ none ↦ panics | some a ↦ ended c size (Conn.stop a w) ]

-- `AddRouter`, which panics on a repeated identifier.
unfoldable pub add_handler : ℕ → ℕ → Client → ℤ → World → Ran
add_handler msg_id router c size w = elim (add_router msg_id router c.apis) [
  | none ↦ panics
  | some apis ↦ done (record c { apis = apis }) size w
]

unfoldable pub keep_heartbeat : Heartbeat → Ran → Ran
keep_heartbeat h (done c size w) = done (record c { hb = some h }) size w
keep_heartbeat h (waits w) = waits w
keep_heartbeat h panics = panics

-- The interval is the fifteen seconds of the source, in the unit of the caller.
unfoldable pub start_heart_beat : ℕ → Client → ℤ → World → Ran
unfolding add_handler keep_heartbeat
start_heart_beat interval c size w =
    let h = new_heartbeat interval in keep_heartbeat h (add_handler h.msg_id h.router c size w)
