-- ===== src/Message/RoundTrip.antt =====
-- `Pack` against `Unpack` and `UnpackHead` (message/datapack.go), in both directions.
use gts.Base.{
  ℕ, ◌+◌, ◌^◌, ◌<◌, ◌≡◌, ap, ◌∙◌, false, List, [], ◌∷◌, ◌++◌, arith, length, take, drop,
  take-append-drop,
}
use gts.Base.Result.{ok}
use gts.Message.{
  Message, new_msg_package, set_data, write_u32, pack, read_full, from_le, read_u32, is_too_large,
  read_head, unpack,
}
use gts.Message.Frame.{IsFramed, read_u32-write_u32, read_full-append}

-- A message built from fewer than 2 ^ 32 bytes is framed.
pub new_msg_package-IsFramed :
    (id : ℕ) (bytes : List ℕ)
    → id < 2 ^ 32
    → length bytes < 2 ^ 32
    → IsFramed (new_msg_package id bytes)
unfolding new_msg_package
new_msg_package-IsFramed id bytes h k = omega arith

pub length-pack : (m : Message) → length (pack m) ≡ 8 + length m.body
unfolding pack write_u32
length-pack m = omega arith

-- The two numbers of a head are read back, and what follows them is left.
pub read_head-write :
    (max_packet_size len id : ℕ) (rest : List ℕ)
    → len < 2 ^ 32
    → id < 2 ^ 32
    → is_too_large max_packet_size len ≡ false
    → read_head max_packet_size (write_u32 len ++ (write_u32 id ++ rest))
      ≡ ok (record { id = id; data_len = len; body = [] }, rest)
unfolding read_head
read_head-write max_packet_size len id rest short small fits =
    rw (read_u32-write_u32 len (write_u32 id ++ rest) short)
      (rw (read_u32-write_u32 id rest small) (rw fits))

module _ (max_packet_size : ℕ) (m : Message) (framed : IsFramed m) where
  -- `Unpack` gives back a framed message that was packed, whatever bytes follow its frame, when
  -- its length is within the limit.
  pub unpack-pack :
      (rest : List ℕ)
      → is_too_large max_packet_size m.data_len ≡ false
      → unpack max_packet_size (pack m ++ rest) ≡ ok m
  unfolding unpack set_data pack write_u32
  unpack-pack rest fits =
      rw
        (read_head-write max_packet_size m.data_len m.id (m.body ++ rest) framed.short
          framed.small_id fits)
        (rw (read_full-append m.data_len m.body rest framed.sized))

-- The bytes of `write_u32` are the only four bytes that stand for their number.
write_u32-from_le :
    (a b c d : ℕ)
    → a < 256
    → b < 256
    → c < 256
    → d < 256
    → write_u32 (from_le (a ∷ b ∷ c ∷ d ∷ [])) ≡ a ∷ b ∷ c ∷ d ∷ []
unfolding write_u32 from_le
write_u32-from_le a b c d ha hb hc hd = ground arith

-- Every element of the list is a byte.
abbrev pub AllBytes : List ℕ → Type 0
AllBytes [] = Unit {0}
AllBytes (b ∷ bs) = (b < 256) × AllBytes bs

module _ (max_packet_size : ℕ) (a b c d e f g h : ℕ) (t : List ℕ) (m : Message) where
  unpack_fields :
      unpack max_packet_size (a ∷ b ∷ c ∷ d ∷ e ∷ f ∷ g ∷ h ∷ t) ≡ ok m
      → (m.data_len ≡ from_le (a ∷ b ∷ c ∷ d ∷ []))
        × (m.id ≡ from_le (e ∷ f ∷ g ∷ h ∷ []))
        × (m.body ≡ take m.data_len t)
  unfolding unpack read_head read_u32 read_full set_data
  unpack_fields u = ground arith

-- What `Unpack` accepts, of numbers below 256, is the frame of the message that it returns,
-- followed by bytes that it does not look at.
pub unpack_sound :
    (max_packet_size : ℕ) (r : List ℕ) (m : Message)
    → AllBytes r
    → unpack max_packet_size r ≡ ok m
    → (rest : List ℕ) × (r ≡ pack m ++ rest)
unfolding unpack read_head read_u32 read_full pack
unpack_sound max_packet_size (a ∷ b ∷ c ∷ d ∷ e ∷ f ∷ g ∷ h ∷ t) m bytes u =
    let (len, id, body) = unpack_fields max_packet_size a b c d e f g h t m u in
    (
      drop m.data_len t,
      rw (
        ap write_u32 len ∙ write_u32-from_le a b c d bytes.0 bytes.1.0 bytes.1.1.0 bytes.1.1.1.0,
        ap write_u32 id
            ∙ write_u32-from_le e f g h bytes.1.1.1.1.0 bytes.1.1.1.1.1.0 bytes.1.1.1.1.1.1.0
                bytes.1.1.1.1.1.1.1.0,
        body,
        take-append-drop m.data_len t,
      ),
    )
unpack_sound max_packet_size r m bytes u = absurd (ground arith)
