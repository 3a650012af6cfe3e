-- ===== src/Conn/Send.antt =====
-- `Send` and `StartWriter` in server/conn.go: from a call to the bytes that the peer gets.
pub mod Wire
use gts.Base.{
  ℕ, ◌+◌, Bool, true, false, Option, none, some, List, [], ◌∷◌, ◌++◌, ltb, if◌then◌else◌, length,
  take,
}
use gts.World.{Connection}
use gts.Message.{Message, new_msg_package, pack}

-- How a call of `Send` goes on: it returns an error, it returns `nil`, or it waits until the
-- writer has made room in `msgChan`.
pub data SendResult : Type 0 where
  closed sent waits : SendResult

-- `msgChan` holds the values of the calls that wait behind those in its buffer, in the order of
-- the calls, as a Go channel serves them.
unfoldable pub send : Connection → ℕ → List ℕ → SendResult × Connection
send c msg_id bytes = if c.is_closed then (closed, c) else (
  (if ltb (length c.msg_chan) c.msg_cap then sent else waits),
  record c { msg_chan = c.msg_chan ++ pack (new_msg_package msg_id bytes) ∷ [] },
)

-- A connection with its writer, the bytes written to its socket, and the messages that `Send`
-- took without an error.
pub record Link : Type 0 where
  pub conn : Connection
  pub is_writing : Bool
  pub wire : List ℕ
  pub accepted : List Message

-- The first case of the writer's `select`: `none` stands for a write of the whole, `some k` for
-- one that fails behind `k` bytes, which ends the writer.
unfoldable pub write_next : Option ℕ → List (List ℕ) → Link → Link
write_next failure [] l = l
write_next none (chunk ∷ rest) l = record l {
  conn = record l.conn { msg_chan = rest };
  wire = l.wire ++ chunk;
}
write_next (some k) (chunk ∷ rest) l = record l {
  conn = record l.conn { msg_chan = rest };
  wire = l.wire ++ take k chunk;
  is_writing = false;
}

pub data Event : Type 0 where
  send_msg : ℕ → List ℕ → Event
  write : Option ℕ → Event
  -- The second case of the writer's `select`, once the context is done.
  see_done : Event
  -- What `Stop` changes of the connection's fields that are read here.
  close : Event

-- What a call of `Send` leaves behind.
unfoldable pub sending : SendResult × Connection → Message → Link → Link
sending (closed, c) m l = l
sending (_, c) m l = record l { conn = c; accepted = l.accepted ++ m ∷ [] }

unfoldable pub step : Link → Event → Link
unfolding send write_next sending
step l (send_msg msg_id bytes) = sending (send l.conn msg_id bytes) (new_msg_package msg_id bytes) l
step l (write failure) = if l.is_writing then write_next failure l.conn.msg_chan l else l
step l see_done = if l.conn.ctx_done then record l { is_writing = false } else l
step l close = record l { conn = record l.conn { is_closed = true; ctx_done = true } }

unfoldable pub run : Link → List Event → Link
run l [] = l
run l (e ∷ es) = run (step l e) es

-- A connection that was just started.
unfoldable pub new_link : Connection → Link
new_link c = record {
  conn = record c { msg_chan = [] };
  is_writing = true;
  wire = [];
  accepted = [];
}
