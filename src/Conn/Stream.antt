-- ===== src/Conn/Stream.antt =====
-- `StartReader` of server/conn_kcp.go, server/conn_quic.go and server/conn_ws.go: the first two call
-- `Read`, which may give fewer bytes than it was asked for, and the last reads whole messages.
pub mod Reads
use gts.Base.{
  ℕ, Bool, true, false, not, ◌||◌, List, [], ◌∷◌, ltb, ◌==◌, if◌then◌else◌, length, take, drop,
}
use gts.Base.Result.{Result, ok, err}
use gts.Message.{Message, Error, get_head_len, set_data, unpack_head, unpack}
use gts.Conn.Reader.{heart_beat_default_msg_id}

-- What the network has ready for one `Read`, and whether an error comes with its last byte.
pub record Chunk : Type 0 where
  pub bytes : List ℕ
  pub fails : Bool

-- How a round of a loop ends: the reader returns, it goes on after an error, or it has a message.
pub data Round : Type 0 where
  returned : Round
  unpack_error : Error → Round
  heartbeat : Round
  request : Message → Round

-- `Read` into `n` bytes: what it gave, whether it failed, and what is ready for the next `Read`. A
-- longer chunk keeps its rest; after the last chunk every call fails.
unfoldable pub read : ℕ → List Chunk → List ℕ × Bool × List Chunk
read n [] = ([], true, [])
read n (c ∷ rest) =
    if ltb n (length c.bytes)
    then (take n c.bytes, false, record c { bytes = drop n c.bytes } ∷ rest)
    else (c.bytes, c.fails, rest)

unfoldable pub classify : Message → Round
classify m = if m.id == heart_beat_default_msg_id then heartbeat else request m

-- The data of a message, and what becomes of it.
unfoldable pub read_data : Message → List Chunk → Round × List Chunk
unfolding read classify set_data
read_data m chunks =
    let (bytes, failed, rest) = read m.data_len chunks in
    if ltb 0 m.data_len
    then (if failed || not (length bytes == m.data_len)
        then (returned, rest)
        else (classify (set_data m bytes), rest))
    else (classify (set_data m []), chunks)

-- The rounds of both loops behind the head, which was unpacked.
unfoldable pub go_on : Result Error Message → List Chunk → Round × List Chunk
unfolding read_data
go_on (err e) rest = (unpack_error e, rest)
go_on (ok m) rest = read_data m rest

unfoldable pub kcp_round : ℕ → List Chunk → Round × List Chunk
unfolding read get_head_len go_on
kcp_round max_packet_size chunks =
    let (head, failed, rest) = read get_head_len chunks in
    if not (length head == get_head_len)
    then (returned, rest)
    else go_on (unpack_head max_packet_size head) rest

-- The same with `Unpack` in place of `UnpackHead`.
unfoldable pub quic_round : ℕ → List Chunk → Round × List Chunk
unfolding read get_head_len go_on
quic_round max_packet_size chunks =
    let (head, failed, rest) = read get_head_len chunks in
    if not (length head == get_head_len)
    then (returned, rest)
    else go_on (unpack max_packet_size head) rest

-- A message of the socket; its head is unpacked and nothing else is read of it.
unfoldable pub ws_round : ℕ → List ℕ → Round
unfolding classify
ws_round max_packet_size message = elim (unpack_head max_packet_size message) [
  | err e ↦ unpack_error e
  | ok m ↦ classify m
]
