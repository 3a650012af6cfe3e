-- ===== src/Transport.antt =====
-- iface/iconn.go: what the server asks of a connection, whatever carries its bytes, and the laws that
-- server/conn.go and its siblings for KCP, QUIC, WebSocket and gnet keep.
pub mod Tcp
pub mod Every
mod Tests
pub mod Ws
pub mod Gnet
pub mod Quic
pub mod Kcp
use gts.Base.{
  ℕ, ◌≡◌, ◌⊎◌, Bool, true, false, Option, none, some, List, [], ◌∷◌, ◌++◌, ◌==◌, if◌then◌else◌,
  take,
}
use gts.Base.Map.{IsMap}
use gts.World.{Checker, unbound, idle, Connection, World, Outcome, returns, M, ◌>>=◌, ◌>>◌, at}
use gts.Message.{new_msg_package, pack}
use gts.Conn.Send.{SendResult, closed}
use gts.Conn.Stop.{Stoppable, stopped_world}
use gts.Heartbeat.Lifecycle.{started}

-- What the `select` of the writer meets: a value of `msgChan`, of which `none` stands for a write of
-- the whole and `some k` for a write that fails behind `k` bytes, or the end of the context.
pub data Select : Type 0 where
  written : Option ℕ → Select
  cancelled : Select

-- The methods of `IConnection` that read or change a connection, and a round of its writer, which
-- gives the bytes that it wrote and whether it goes on. `Start` and `IsAlive` are given the time.
pub record ConnectionOps : Type 0 where
  pub start : ℕ → ℕ → M (Unit {0})
  pub stop : ℕ → M (Unit {0})
  pub send : Connection → ℕ → List ℕ → SendResult × Connection
  pub writer_round : Select → ℕ → M (List ℕ × Bool)
  pub set_property : ℕ → ℕ → Connection → Connection
  pub get_property : ℕ → Connection → Option ℕ
  pub remove_property : ℕ → Connection → Connection
  pub is_alive : ℕ → ℕ → Connection → Bool

pub record IsConnection (ops : ConnectionOps) : Type 0 where
  -- A connection that was not started, once started, is stopped by `Stop`.
  pub starts_and_stops :
      (now a : ℕ) (w : World) (c : Connection)
      → c.is_closed ≡ false
      → (c.checker ≡ unbound) ⊎ (c.checker ≡ idle)
      → w.locked ≡ false
      → (ops.start now a >> ops.stop a) (at w a c) ≡ returns tt (stopped_world w a (started now c))
  -- A second `Stop` changes nothing.
  pub stops_once :
      (a : ℕ) (w : World) (c : Connection)
      → c.is_closed ≡ false
      → Stoppable w c
      → (ops.stop a >> ops.stop a) (at w a c) ≡ ops.stop a (at w a c)
  -- A closed connection takes no message and is not alive.
  pub refuses :
      (c : Connection) (msg_id : ℕ) (bytes : List ℕ)
      → c.is_closed ≡ true
      → ops.send c msg_id bytes ≡ (closed, c)
  pub dies : (now max : ℕ) (c : Connection) → c.is_closed ≡ true → ops.is_alive now max c ≡ false
  -- An open one queues the frame behind those that wait.
  pub queues :
      (c : Connection) (msg_id : ℕ) (bytes : List ℕ)
      → c.is_closed ≡ false
      → (ops.send c msg_id bytes).1
        ≡ record c { msg_chan = c.msg_chan ++ pack (new_msg_package msg_id bytes) ∷ [] }
  -- The writer writes the chunks in their order; a failed write stops the connection.
  pub writes :
      (a : ℕ) (w : World) (c : Connection) (chunk : List ℕ) (rest : List (List ℕ))
      → c.msg_chan ≡ chunk ∷ rest
      → ops.writer_round (written none) a (at w a c)
        ≡ returns (chunk, true) (at w a (record c { msg_chan = rest }))
  pub write_fails :
      (a k : ℕ) (w : World) (c : Connection) (chunk : List ℕ) (rest : List (List ℕ))
      → c.msg_chan ≡ chunk ∷ rest
      → c.is_closed ≡ false
      → Stoppable w c
      → ops.writer_round (written (some k)) a (at w a c)
        ≡ returns (take k chunk, false) (stopped_world w a (record c { msg_chan = rest }))
  -- Once the context is done, the writer of a closed connection ends.
  pub writer_ends :
      (a : ℕ) (w : World) (c : Connection)
      → c.ctx_done ≡ true
      → c.is_closed ≡ true
      → ops.writer_round cancelled a (at w a c) ≡ returns ([], false) (at w a c)
  -- The properties are a map.
  pub keeps_properties :
      (c : Connection) (key other value : ℕ)
      → IsMap c.property
      → (ops.get_property other (ops.set_property key value c)
          ≡ (if key == other then some value else ops.get_property other c))
        × (ops.get_property other (ops.remove_property key c)
            ≡ (if key == other then none else ops.get_property other c))
