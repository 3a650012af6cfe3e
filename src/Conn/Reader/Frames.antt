-- ===== src/Conn/Reader/Frames.antt =====
-- What the rounds of `StartReader` in server/conn.go make of frames, and of the end of the input.
use gts.Base.{
  ℕ, zero, suc, ◌+◌, ◌≡◌, refl, subst, true, false, List, [], ◌∷◌, ◌++◌, map, arith, length,
}
use gts.Base.Result.{ok, err}
use gts.Message.{
  Message, eof, too_large, set_data, get_head_len, write_u32, pack, read_full, is_too_large,
  read_head, unpack_head,
}
use gts.Message.Frame.{IsFramed, read_full-append, read_u32-write_u32}
use gts.Message.RoundTrip.{read_head-write}
use gts.Conn.Reader.{Round, head_error, unpack_error, classify, read_data, read_round, read_rounds}

abbrev head_of : Message → List ℕ
head_of m = write_u32 m.data_len ++ (write_u32 m.id ++ [])

read_full-head :
    (m : Message) (rest : List ℕ) → read_full 8 (pack m ++ rest) ≡ ok (head_of m, m.body ++ rest)
unfolding pack get_head_len write_u32
read_full-head m rest = read_full-append 8 (head_of m) (m.body ++ rest) refl

unpack_head-pack :
    (max_packet_size : ℕ) (m : Message)
    → IsFramed m
    → is_too_large max_packet_size m.data_len ≡ false
    → unpack_head max_packet_size (head_of m) ≡ ok (record m { body = [] })
unfolding unpack_head
unpack_head-pack max_packet_size m f fits =
    rw (read_head-write max_packet_size m.data_len m.id [] f.short f.small_id fits)

unpack_head-large :
    (max_packet_size : ℕ) (m : Message)
    → IsFramed m
    → is_too_large max_packet_size m.data_len ≡ true
    → unpack_head max_packet_size (head_of m) ≡ err too_large
unfolding unpack_head read_head
unpack_head-large max_packet_size m f large =
    rw (read_u32-write_u32 m.data_len (write_u32 m.id ++ []) f.short)
      (rw (read_u32-write_u32 m.id [] f.small_id) (rw large))

read_data-body :
    (id n : ℕ) (body rest : List ℕ)
    → n ≡ length body
    → read_data (record { id = id; data_len = n; body = [] }) (body ++ rest)
      ≡ (classify (record { id = id; data_len = n; body = body }), rest)
unfolding read_data set_data
read_data-body id n [] rest e = rw e refl
read_data-body id n (b ∷ bs) rest e =
    rw (e, read_full-append (length (b ∷ bs)) (b ∷ bs) rest refl) (ground arith)

-- A whole frame within the limit is one round, which delivers the message and leaves what follows.
pub read_round-pack :
    (max_packet_size : ℕ) (m : Message) (rest : List ℕ)
    → IsFramed m
    → is_too_large max_packet_size m.data_len ≡ false
    → read_round max_packet_size (pack m ++ rest) ≡ (classify m, rest)
unfolding read_round
read_round-pack max_packet_size m rest f fits =
    rw (read_round, read_full-head m rest, unpack_head-pack max_packet_size m f fits)
      (read_data-body m.id m.data_len m.body rest f.sized)

-- A frame above the limit ends its round with `too_large`, and its data is left to be read as the
-- next head.
pub read_round-too_large :
    (max_packet_size : ℕ) (m : Message) (rest : List ℕ)
    → IsFramed m
    → is_too_large max_packet_size m.data_len ≡ true
    → read_round max_packet_size (pack m ++ rest) ≡ (unpack_error too_large, m.body ++ rest)
unfolding read_round
read_round-too_large max_packet_size m rest f large =
    rw (read_round, read_full-head m rest, unpack_head-large max_packet_size m f large) refl

abbrev pub frames : List Message → List ℕ
frames [] = []
frames (m ∷ ms) = pack m ++ frames ms

-- Each message is framed and within the limit.
abbrev pub AllFit : ℕ → List Message → Type 0
AllFit max_packet_size [] = Unit {0}
AllFit max_packet_size (m ∷ ms) =
    IsFramed m × (is_too_large max_packet_size m.data_len ≡ false) × AllFit max_packet_size ms

abbrev pub ends_of_input : ℕ → List Round
ends_of_input zero = []
ends_of_input (suc n) = head_error eof ∷ ends_of_input n

read_rounds_nil : (max_packet_size n : ℕ) → read_rounds max_packet_size n [] ≡ (ends_of_input n, [])
unfolding read_rounds read_round read_full get_head_len
read_rounds_nil max_packet_size zero = refl
read_rounds_nil max_packet_size (suc n) = rw (read_rounds_nil max_packet_size n) refl

suc_add : (k n : ℕ) → suc (k + n) ≡ suc k + n
suc_add k n = omega arith

-- After the frames of messages within the limit, and then the end of the input, the loop has
-- handed on exactly these messages in their order, a heartbeat for each that has its identifier;
-- every further round fails with `EOF` and goes on with the next.
pub read_rounds-frames :
    (max_packet_size n : ℕ) (ms : List Message)
    → AllFit max_packet_size ms
    → read_rounds max_packet_size (length ms + n) (frames ms)
      ≡ (map classify ms ++ ends_of_input n, [])
unfolding read_rounds
read_rounds-frames max_packet_size n [] fit =
    subst (λ k. read_rounds max_packet_size k [] ≡ (ends_of_input n, [])) (ground arith)
      (read_rounds_nil max_packet_size n)
read_rounds-frames max_packet_size n (m ∷ ms) (f, fits, fit) =
    subst
      (λ k.
        read_rounds max_packet_size k (frames (m ∷ ms))
        ≡ (map classify (m ∷ ms) ++ ends_of_input n, []))
      (suc_add (length ms) n)
      (rw
        (
          read_rounds,
          read_round-pack max_packet_size m (frames ms) f fits,
          read_rounds-frames max_packet_size n ms fit,
        )
        refl)
