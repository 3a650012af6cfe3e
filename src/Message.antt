-- ===== src/Message.antt =====
-- message/message.go and message/datapack.go: a message and its frame, a little-endian length and
-- identifier before the data. A byte is a number below 256, a reader the bytes still to come.
pub mod Frame
pub mod RoundTrip
pub mod Reject
mod Tests
use gts.Base.{
  ℕ, ◌+◌, ◌*◌, ◌/◌, ◌%◌, ◌≡◌, Bool, ◌&&◌, List, [], ◌∷◌, ◌++◌, ltb, ◌==◌, if◌then◌else◌, length,
  take, drop,
}
use gts.Base.Word.{u32}
use gts.Base.Result.{Result, ok, err, ◌>>=◌}

pub record Message : Type 0 where
  pub id : ℕ
  pub data_len : ℕ
  pub body : List ℕ

-- `io.EOF`, `io.ErrUnexpectedEOF` and the package's own error.
pub data Error : Type 0 where
  eof unexpected_eof too_large : Error

unfoldable pub new_msg_package : ℕ → List ℕ → Message
new_msg_package id bytes = record { id = id; data_len = u32 (length bytes); body = bytes }

unfoldable pub set_data : Message → List ℕ → Message
set_data m bytes = record m { body = bytes }

unfoldable pub get_head_len : ℕ
get_head_len = 8

-- `binary.Write` of a `uint32` in little-endian order.
unfoldable pub write_u32 : ℕ → List ℕ
write_u32 n = (n % 256) ∷ (n / 256 % 256) ∷ (n / 65536 % 256) ∷ (n / 16777216 % 256) ∷ []

-- The buffer takes every write, so the three error branches are never taken.
unfoldable pub pack : Message → List ℕ
pack m = write_u32 m.data_len ++ (write_u32 m.id ++ m.body)

-- `io.ReadFull` of `n` bytes.
unfoldable pub read_full : ℕ → List ℕ → Result Error (List ℕ × List ℕ)
read_full n r =
    if ltb (length r) n
    then (if length r == 0 then err eof else err unexpected_eof)
    else ok (take n r, drop n r)

-- The number that little-endian bytes stand for.
unfoldable pub from_le : List ℕ → ℕ
from_le [] = 0
from_le (b ∷ bs) = b + 256 * from_le bs

-- `binary.Read` of a `uint32`.
unfoldable pub read_u32 : List ℕ → Result Error (ℕ × List ℕ)
read_u32 r = read_full 4 r >>= λ p. ok (from_le p.0, p.1)

-- `Conf.MaxPacketSize`, where 0 means that there is no limit.
unfoldable pub is_too_large : ℕ → ℕ → Bool
is_too_large max_packet_size n = ltb 0 max_packet_size && ltb max_packet_size n

-- The part that `UnpackHead` and `Unpack` share: the head, and the bytes behind it.
unfoldable pub read_head : ℕ → List ℕ → Result Error (Message × List ℕ)
unfolding is_too_large
read_head max_packet_size r = read_u32 r >>= λ n. read_u32 n.1 >>= λ i.
    if is_too_large max_packet_size n.0
    then err too_large
    else ok (record { id = i.0; data_len = n.0; body = [] }, i.1)

unfoldable pub unpack_head : ℕ → List ℕ → Result Error Message
unpack_head max_packet_size r = read_head max_packet_size r >>= λ h. ok h.0

unfoldable pub unpack : ℕ → List ℕ → Result Error Message
unpack max_packet_size r =
    read_head max_packet_size r >>= λ h. read_full h.0.data_len h.1 >>= λ d. ok (set_data h.0 d.0)
