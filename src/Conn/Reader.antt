-- ===== src/Conn/Reader.antt =====
-- The loop of `StartReader` in server/conn.go over the bytes that the peer sends before it closes.
pub mod Frames
use gts.Base.{
  ℕ, zero, suc, ◌+◌, ◌≡◌, Bool, true, false, List, [], ◌∷◌, ◌++◌, ltb, ◌==◌, if◌then◌else◌,
}
use gts.Base.Result.{Result, ok, err}
use gts.World.{Connection}
use gts.Message.{Message, Error, set_data, get_head_len, read_full, unpack_head}

-- `iface.HeartBeatDefaultMsgID`
abbrev pub heart_beat_default_msg_id : ℕ
heart_beat_default_msg_id = 99999

-- How a round of the loop ends; each of the first three is a `continue`.
pub data Round : Type 0 where
  head_error : Error → Round
  unpack_error : Error → Round
  data_error : Error → Round
  heartbeat : Round
  request : Message → Round

unfoldable pub classify : Message → Round
classify m = if m.id == heart_beat_default_msg_id then heartbeat else request m

-- The data of a message whose head was read. A read that fails has used up what was left.
unfoldable pub read_data : Message → List ℕ → Round × List ℕ
unfolding classify set_data
read_data m rest =
    if ltb 0 m.data_len
    then elim (read_full m.data_len rest) [
      | err e ↦ (data_error e, [])
      | ok (bytes, left) ↦ (classify (set_data m bytes), left)
    ]
    else (classify (set_data m []), rest)

-- One round, with the bytes that are left for the next.
unfoldable pub read_round : ℕ → List ℕ → Round × List ℕ
unfolding read_data get_head_len
read_round max_packet_size bytes = elim (read_full get_head_len bytes) [
  | err e ↦ (head_error e, [])
  | ok (head, rest) ↦ elim (unpack_head max_packet_size head) [
    | err e ↦ (unpack_error e, rest)
    | ok m ↦ read_data m rest
  ]
]

-- The first rounds of the loop, which has no way out.
unfoldable pub read_rounds : ℕ → ℕ → List ℕ → List Round × List ℕ
read_rounds max_packet_size zero bytes = ([], bytes)
read_rounds max_packet_size (suc n) bytes =
    let (r, left) = read_round max_packet_size bytes in
    let (rs, rest) = read_rounds max_packet_size n left in (r ∷ rs, rest)
