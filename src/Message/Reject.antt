-- ===== src/Message/Reject.antt =====
-- When `UnpackHead` and `Unpack` fail, and with which error (message/datapack.go).
use gts.Base.{
  ℕ, ◌<◌, ◌≡◌, ◌||◌, false, List, [], ◌++◌, arith, length, take, drop, ltb, ◌==◌, if◌then◌else◌,
}
use gts.Base.Result.{Result, ok, err}
use gts.Message.{
  Message, Error, eof, unexpected_eof, too_large, write_u32, read_full, from_le, is_too_large,
  unpack,
}
use gts.Message.Frame.{IsFramed}
use gts.Message.RoundTrip.{read_head-write}

-- The head that the first eight bytes spell, whatever follows.
abbrev pub head_spec : ℕ → List ℕ → Result Error Message
head_spec max_packet_size r =
    if length r == 0 || length r == 4
    then err eof
    else if ltb (length r) 8
    then err unexpected_eof
    else if is_too_large max_packet_size (from_le (take 4 r))
    then err too_large
    else ok (record { id = from_le (take 4 (drop 4 r)); data_len = from_le (take 4 r); body = [] })

-- `Unpack` refuses a framed message within the limit whose frame is cut off inside its data: with
-- `EOF` when no byte of the data is there, and with `ErrUnexpectedEOF` when some are.
pub unpack_cut :
    (max_packet_size : ℕ) (m : Message) (part : List ℕ)
    → IsFramed m
    → is_too_large max_packet_size m.data_len ≡ false
    → length part < m.data_len
    → unpack max_packet_size (write_u32 m.data_len ++ (write_u32 m.id ++ part))
      ≡ (if length part == 0 then err eof else err unexpected_eof)
unfolding unpack read_full
unpack_cut max_packet_size m part framed fits h =
    rw
      (
        read_head-write max_packet_size m.data_len m.id part framed.short framed.small_id fits,
        read_full,
      )
      (ground arith)
