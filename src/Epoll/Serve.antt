-- ===== src/Epoll/Serve.antt =====
-- `Read` of epoll/conn.go and the loop of epoll/server.go that calls it for each event.
use gts.Base.{
  ℕ, zero, suc, ◌≡◌, refl, ◌∙◌, Option, none, some, List, [], ◌∷◌, ltb, ◌==◌, if◌then◌else◌, arith,
  map,
}
use gts.Base.Map.{lookup}
use gts.Base.Result.{Result, ok, err}
use gts.World.{update}
use gts.Message.{Message, Error, get_head_len, set_data, read_full, unpack_head}
use gts.Conn.Reader.{
  Round, head_error, unpack_error, data_error, heartbeat, request, heart_beat_default_msg_id,
  read_round, read_rounds,
}
use gts.Epoll.{Connection, ConnManager, conn_of_event}
use gts.Epoll.Watch.{event_of_unknown}

-- What one call of `Read` came to: the error that it returns, a heartbeat, or a request.
pub data ReadResult : Type 0 where
  failed : Error → ReadResult
  beat : ReadResult
  handed : Message → ReadResult

unfoldable pub hand : Message → ReadResult
hand m = if m.id == heart_beat_default_msg_id then beat else handed m

-- `Read` behind `UnpackHead`, with the bytes that are left for the next call.
unfoldable pub read_rest : Result Error Message → List ℕ → ReadResult × List ℕ
unfolding hand set_data
read_rest (err e) rest = (failed e, rest)
read_rest (ok m) rest =
    if ltb 0 m.data_len
    then elim (read_full m.data_len rest) [
      | err e ↦ (failed e, [])
      | ok (bytes, left) ↦ (hand (set_data m bytes), left)
    ]
    else (hand (set_data m []), rest)

unfoldable pub read : ℕ → List ℕ → ReadResult × List ℕ
unfolding read_rest get_head_len
read max_packet_size bytes = elim (read_full get_head_len bytes) [
  | err e ↦ (failed e, [])
  | ok (head, rest) ↦ read_rest (unpack_head max_packet_size head) rest
]

-- The loop over the connections of `StartEpollWait`, with the bytes of each address. `none` is the
-- panic of the type assertion on a `nil` connection.
unfoldable pub serve :
    ℕ → List (Option Connection) → (ℕ → List ℕ) → Option (List ReadResult × (ℕ → List ℕ))
unfolding read
serve max_packet_size [] streams = some ([], streams)
serve max_packet_size (none ∷ rest) streams = none
serve max_packet_size (some c ∷ rest) streams =
    let (r, left) = read max_packet_size (streams c.address) in
    elim (serve max_packet_size rest (update streams c.address left)) [
      | none ↦ none
      | some (rs, after) ↦ some (r ∷ rs, after)
    ]

-- The reader of server/conn.go in the words of `Read`.
abbrev pub as_result : Round → ReadResult
as_result (head_error e) = failed e
as_result (unpack_error e) = failed e
as_result (data_error e) = failed e
as_result heartbeat = beat
as_result (request m) = handed m

-- One call of `Read` does what one round of `StartReader` in server/conn.go does, with the same bytes
-- left, for every input.
pub read-read_round :
    (max_packet_size : ℕ) (bytes : List ℕ)
    → read max_packet_size bytes
      ≡ (as_result (read_round max_packet_size bytes).0, (read_round max_packet_size bytes).1)
unfolding read read_round read_rest hand gts.Conn.Reader.read_data gts.Conn.Reader.classify
read-read_round max_packet_size bytes = ground arith

-- The loop of `StartReader`, which goes on behind every error: the first calls of `Read`.
unfoldable pub start_reader : ℕ → ℕ → List ℕ → List ReadResult × List ℕ
start_reader max_packet_size zero bytes = ([], bytes)
start_reader max_packet_size (suc n) bytes =
    let (r, left) = read max_packet_size bytes in
    let (rs, rest) = start_reader max_packet_size n left in (r ∷ rs, rest)

-- The loop of `StartReader` makes the same results as the loop of server/conn.go, in the same order and
-- with the same bytes left, for every input and every number of rounds.
pub start_reader-read_rounds :
    (max_packet_size n : ℕ) (bytes : List ℕ)
    → start_reader max_packet_size n bytes ≡ (
      map as_result (read_rounds max_packet_size n bytes).0,
      (read_rounds max_packet_size n bytes).1,
    )
unfolding start_reader read_rounds
start_reader-read_rounds max_packet_size zero bytes = refl
start_reader-read_rounds max_packet_size (suc n) bytes =
    let left = (read_round max_packet_size bytes).1 in
    rw (read-read_round max_packet_size bytes, start_reader-read_rounds max_packet_size n left) refl

-- An event of a descriptor that is not in the table panics the loop, unless a connection has the
-- number 0; the connections behind it are not served.
pub serve-unknown :
    (max_packet_size fd : ℕ) (ready : List ℕ) (cm : ConnManager) (streams : ℕ → List ℕ)
    → lookup fd cm.fd2conn ≡ none
    → lookup 0 cm.connections ≡ none
    → serve max_packet_size (map (conn_of_event cm) (fd ∷ ready)) streams ≡ none
unfolding serve
serve-unknown max_packet_size fd ready cm streams h z =
    rw (event_of_unknown cm fd h ∙ z, serve) refl
