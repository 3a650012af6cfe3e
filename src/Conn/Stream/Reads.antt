-- ===== src/Conn/Stream/Reads.antt =====
-- What the readers of server/conn_kcp.go, server/conn_quic.go and server/conn_ws.go make of frames.
use gts.Base.{
  ℕ, ◌<◌, ◌≡◌, refl, inl, inr, false, List, [], ◌∷◌, ◌++◌, arith, length, ◌==◌, Bool-cases,
}
use gts.Base.Result.{Result, ok, err}
use gts.Message.{
  Message, Error, get_head_len, set_data, write_u32, pack, is_too_large, read_full, read_u32,
  read_head, unpack_head, unpack,
}
use gts.Message.Frame.{IsFramed}
use gts.Message.RoundTrip.{read_head-write}
use gts.Conn.Stream.{
  Chunk, returned, request, read, classify, read_data, go_on, kcp_round, quic_round, ws_round,
}

-- A chunk that ends inside a head makes the KCP and the QUIC reader return, also when the rest of
-- the head is on its way.
pub short_head-returned :
    (max_packet_size : ℕ) (c : Chunk) (rest : List Chunk)
    → length c.bytes < 8
    → (kcp_round max_packet_size (c ∷ rest) ≡ (returned, rest))
      × (quic_round max_packet_size (c ∷ rest) ≡ (returned, rest))
unfolding kcp_round quic_round read get_head_len
short_head-returned max_packet_size c rest h = ground arith

-- `Unpack` of eight bytes gives only messages without data.
unpack_eight :
    (max_packet_size : ℕ) (head : List ℕ) (m : Message)
    → length head ≡ 8
    → unpack max_packet_size head ≡ ok m
    → m.data_len ≡ 0
unfolding unpack read_head read_u32 read_full set_data
unpack_eight max_packet_size (a ∷ b ∷ c ∷ d ∷ e ∷ f ∷ g ∷ i ∷ []) m h o = ground arith
unpack_eight max_packet_size head m h o = absurd (ground arith)

-- A message without data is handed on without data.
read_data-empty :
    (n m : Message) (chunks rest : List Chunk)
    → n.data_len ≡ 0
    → read_data n chunks ≡ (request m, rest)
    → (m.data_len ≡ 0) × (m.body ≡ [])
unfolding read_data classify set_data
read_data-empty n m chunks rest z e = ground arith

go_on-empty :
    (r : Result Error Message) (m : Message) (chunks rest : List Chunk)
    → ((n : Message) → r ≡ ok n → n.data_len ≡ 0)
    → go_on r chunks ≡ (request m, rest)
    → (m.data_len ≡ 0) × (m.body ≡ [])
unfolding go_on
go_on-empty (err f) m chunks rest z e = absurd (ground arith)
go_on-empty (ok n) m chunks rest z e = read_data-empty n m chunks rest (z n refl) e

-- Whatever the peer sends, the QUIC reader hands on only messages without data.
pub quic_round-empty :
    (max_packet_size : ℕ) (chunks rest : List Chunk) (m : Message)
    → quic_round max_packet_size chunks ≡ (request m, rest)
    → (m.data_len ≡ 0) × (m.body ≡ [])
unfolding quic_round get_head_len
quic_round-empty max_packet_size chunks rest m e =
    elim (Bool-cases (length (read 8 chunks).0 == 8)) [
      | inl whole ↦
          go_on-empty (unpack max_packet_size (read 8 chunks).0) m (read 8 chunks).2 rest
            (λ n o. unpack_eight max_packet_size (read 8 chunks).0 n (ground arith) o)
            (ground arith)
      | inr short ↦ absurd (ground arith)
    ]

-- The WebSocket reader hands on a frame's message without its data.
pub ws_round-pack :
    (max_packet_size : ℕ) (m : Message) (rest : List ℕ)
    → IsFramed m
    → is_too_large max_packet_size m.data_len ≡ false
    → ws_round max_packet_size (pack m ++ rest) ≡ classify (record m { body = [] })
unfolding ws_round unpack_head pack write_u32
ws_round-pack max_packet_size m rest f fits =
    rw
      (
        ws_round,
        read_head-write max_packet_size m.data_len m.id (m.body ++ rest) f.short f.small_id fits,
      )
      refl

module _ (max_packet_size : ℕ) (m : Message) (rest : List Chunk) (f : IsFramed m) where
  read-body :
      read m.data_len (record { bytes = m.body; fails = false } ∷ rest) ≡ (m.body, false, rest)
  unfolding read
  read-body = ground (arith, f.sized)

  read_head-pack :
      0 < m.data_len
      → read 8 (record { bytes = pack m; fails = false } ∷ rest) ≡ (
        write_u32 m.data_len ++ (write_u32 m.id ++ []),
        false,
        record { bytes = m.body; fails = false } ∷ rest,
      )
  unfolding read pack write_u32
  read_head-pack some_data = ground (arith, f.sized)

  read_data-body :
      0 < m.data_len
      → read_data (record m { body = [] }) (record { bytes = m.body; fails = false } ∷ rest)
        ≡ (classify m, rest)
  unfolding read_data set_data classify
  read_data-body some_data = ground (arith, read-body, f.sized)

  head-length : length (write_u32 m.data_len ++ (write_u32 m.id ++ [])) ≡ 8
  unfolding write_u32
  head-length = refl

  -- The KCP reader hands on a frame within the limit, with its data, when the frame comes as one
  -- chunk and its data is not empty.
  pub kcp_round-pack :
      is_too_large max_packet_size m.data_len ≡ false
      → 0 < m.data_len
      → kcp_round max_packet_size (record { bytes = pack m; fails = false } ∷ rest)
        ≡ (classify m, rest)
  unfolding kcp_round get_head_len go_on unpack_head
  kcp_round-pack fits some_data =
      rw
        (
          kcp_round,
          read_head-pack some_data,
          head-length,
          read_head-write max_packet_size m.data_len m.id [] f.short f.small_id fits,
        )
        (read_data-body some_data)
