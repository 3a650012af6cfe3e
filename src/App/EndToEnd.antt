-- ===== src/App/EndToEnd.antt =====
-- The program of main.go from the frames of a client to the frames that the client gets back: the
-- reader, the worker pool, the handlers, the channel, the writer, and the client's own reader.
use native.Mathlib.Nat.{add-mul}
use mathlib.Core.Path.{fun_ext}
use gts.Base.{
  ℕ, ◌+◌, ◌*◌, ◌<◌, ◌^◌, ◌≡◌, refl, sym, ap, ◌∙◌, Bool, true, false, Option, List, [], ◌∷◌, ◌++◌,
  ◌==◌, map, arith, length, length-map, some, count, count-append, concat, if◌then◌else◌,
}
use gts.Base.Int.{pos}
use gts.Base.Result.{ok}
use gts.World.{Connection, World, returns, ◌>>=◌, ◌>>◌, at, at_self, at-heap}
use gts.Message.{Message, new_msg_package, pack, is_too_large}
use gts.Message.Frame.{IsFramed}
use gts.Conn.Reader.{classify, read_rounds, request}
use gts.Conn.Reader.Frames.{AllFit, frames, ends_of_input, read_rounds-frames}
use gts.FuncPool.{GPoolWithFunc}
use gts.FuncPool.Steps.{Reaches}
use gts.FuncPool.Quiet.{IsKept, Quiet}
use gts.Handler.Queue.{start_worker_pool, requests, is_request, frames-Quiet}
use gts.Transport.{ConnectionOps, IsConnection}
use gts.App.{Request, ping_text, ping2_text, drain, serve_all, app_routers}
use gts.App.Answers.{reply_to, replies, queued, after_all, after_all-open, serve_all-heap}

-- Requests that all came on one connection.
abbrev pub from : ℕ → List Message → List Request
from a [] = []
from a (m ∷ ms) = record { conn = a; msg = m } ∷ from a ms

abbrev pub answers : List Message → List Message
answers [] = []
answers (m ∷ ms) = reply_to m.id ++ answers ms

replies-from : (a : ℕ) (ms : List Message) → replies a (from a ms) ≡ answers ms
replies-from a [] = refl
replies-from a (m ∷ ms) =
    let own : (a == a) ≡ true = ground arith in
    rw (replies-from a ms) (ap (λ b. (if b then reply_to m.id else []) ++ answers ms) own)

concat-frames : (ms : List Message) → concat (map pack ms) ≡ frames ms
concat-frames [] = refl
concat-frames (m ∷ ms) = ap (◌++◌ (pack m)) (concat-frames ms)

abbrev pub pong : Message
pong = new_msg_package 1 ping_text

abbrev pub pong2 : Message
pong2 = new_msg_package 1 ping2_text

-- To prove a property of the answer to any message.
reply_to-cases {ℓ} :
    (P : List Message → Type ℓ) → P (pong ∷ []) → P (pong2 ∷ []) → P [] → (id : ℕ) → P (reply_to id)
reply_to-cases P p q r id =
    elim (1 == id) as (λ b. P (if b then pong ∷ [] else if 2 == id then pong2 ∷ [] else [])) [
      | true ↦ p
      | false ↦ elim (2 == id) as (λ b. P (if b then pong2 ∷ [] else [])) [ true ↦ q | false ↦ r ]
    ]

pong-IsFramed : IsFramed pong
unfolding new_msg_package
pong-IsFramed = record { sized = refl; short = omega arith; small_id = omega arith }

pong2-IsFramed : IsFramed pong2
unfolding new_msg_package
pong2-IsFramed = record { sized = refl; short = omega arith; small_id = omega arith }

shorter :
    (max_packet_size : ℕ)
    → is_too_large max_packet_size 22 ≡ false
    → is_too_large max_packet_size 19 ≡ false
unfolding is_too_large
shorter max_packet_size h = ground arith

-- The answers are within a limit that lets the longer of them pass.
reply_to-AllFit :
    (max_packet_size id : ℕ) (ms : List Message)
    → is_too_large max_packet_size 22 ≡ false
    → AllFit max_packet_size ms
    → AllFit max_packet_size (reply_to id ++ ms)
unfolding new_msg_package
reply_to-AllFit max_packet_size id ms h fit =
    reply_to-cases (λ rs. AllFit max_packet_size (rs ++ ms))
      (pong-IsFramed, shorter max_packet_size h, fit) (pong2-IsFramed, h, fit) fit id

answers-AllFit :
    (max_packet_size : ℕ) (ms : List Message)
    → is_too_large max_packet_size 22 ≡ false
    → AllFit max_packet_size (answers ms)
answers-AllFit max_packet_size [] h = tt
answers-AllFit max_packet_size (m ∷ ms) h =
    reply_to-AllFit max_packet_size m.id (answers ms) h (answers-AllFit max_packet_size ms h)

-- No answer has the identifier of a heartbeat.
classify-answers : (ms : List Message) → map classify (answers ms) ≡ map request (answers ms)
unfolding classify new_msg_package
classify-answers [] = refl
classify-answers (m ∷ ms) =
    reply_to-cases (λ rs. map classify (rs ++ answers ms) ≡ map request (rs ++ answers ms))
      (ap (◌∷◌ (request pong)) (classify-answers ms))
      (ap (◌∷◌ (request pong2)) (classify-answers ms)) (classify-answers ms) m.id

abbrev pub asks : ℕ → Message → Bool
asks id m = id == m.id

count-reply_to :
    (test : Message → Bool) (id : ℕ)
    → count test (reply_to id)
      ≡ (if 1 == id then 1 else 0) * count test (pong ∷ [])
        + (if 2 == id then 1 else 0) * count test (pong2 ∷ [])
count-reply_to test id = ground arith

-- How many answers pass a test, by how many messages ask for each.
count-answers :
    (test : Message → Bool) (ms : List Message)
    → count test (answers ms)
      ≡ count (asks 1) ms * count test (pong ∷ []) + count (asks 2) ms * count test (pong2 ∷ [])
count-answers test [] = omega arith
count-answers test (m ∷ ms) =
    rw
      (
        count-append test (reply_to m.id) (answers ms),
        add-mul (if 1 == m.id then 1 else 0) (count (asks 1) ms) (count test (pong ∷ [])),
        add-mul (if 2 == m.id then 1 else 0) (count (asks 2) ms) (count test (pong2 ∷ [])),
      )
      (omega (arith, count-reply_to test m.id, count-answers test ms))

module _ (ops : ConnectionOps) (laws : IsConnection ops) where
  drain_lem :
      (chan : List (List ℕ)) (a : ℕ) (w : World) (c : Connection)
      → c.msg_chan ≡ chan
      → drain ops (length chan) a (at w a c)
        ≡ returns (concat chan) (at w a (record c { msg_chan = [] }))
  unfolding drain
  drain_lem [] a w c e = ap (λ ch. returns [] (at w a (record c { msg_chan = ch }))) e
  drain_lem (chunk ∷ rest) a w c e =
      rw (laws.writes a w c chunk rest e, ◌>>=◌)
        (rw (drain_lem rest a w (record c { msg_chan = rest }) refl, ◌>>=◌) refl)

is_request-asks : (id : ℕ) → id < 99999 → (m : Message) → is_request (asks id) m ≡ asks id m
is_request-asks id h m = ground arith

module _ (ops : ConnectionOps) (laws : IsConnection ops) (a : ℕ) (w : World) (c : Connection)
    (open_conn : c.is_closed ≡ false) (drained : c.msg_chan ≡ []) where
  -- Messages that are handled one after the other leave their answers on the wire.
  answered_on_wire :
      (hs : List Message)
      → (v : World) × ((serve_all ops app_routers (from a hs) >> drain ops (length (answers hs)) a)
            (at w a c)
          ≡ returns (frames (answers hs)) v)
  answered_on_wire hs =
      let (v, served, heap) = serve_all-heap ops laws (from a hs) (at w a c) in
      let now : v.heap a ≡ queued (answers hs) c =
        heap a
        ∙ ap (after_all a (from a hs)) (at-heap w a c)
        ∙ after_all-open a (from a hs) c open_conn
        ∙ ap (λ rs. queued rs c) (replies-from a hs) in
      let chan : (v.heap a).msg_chan ≡ map pack (answers hs) =
        ap (λ d. d.msg_chan) now ∙ ap (λ ch. ch ++ map pack (answers hs)) drained in
      let wrote = drain_lem ops laws (map pack (answers hs)) a v (v.heap a) chan in
      let after = at v a (record (v.heap a) { msg_chan = [] }) in
      (
        after,
        rw (served, ◌>>=◌)
            (ap (λ n. drain ops n a v) (sym (length-map (answers hs) pack))
              ∙ ap (drain ops (length (map pack (answers hs))) a) (sym (at_self v a))
              ∙ wrote
              ∙ ap (λ bytes. returns bytes after) (concat-frames (answers hs))),
      )

-- What a client reads is what the handlers sent.
read_answers :
    (max_packet_size j : ℕ) (hs : List Message)
    → is_too_large max_packet_size 22 ≡ false
    → read_rounds max_packet_size (length (answers hs) + j) (frames (answers hs))
      ≡ (map request (answers hs) ++ ends_of_input j, [])
read_answers max_packet_size j hs small =
    read_rounds-frames max_packet_size j (answers hs) (answers-AllFit max_packet_size hs small)
    ∙ ap (λ rs. (rs ++ ends_of_input j, [])) (classify-answers hs)

module _ (ops : ConnectionOps) (laws : IsConnection ops) (a : ℕ) (w : World) (c : Connection)
    (open_conn : c.is_closed ≡ false) (drained : c.msg_chan ≡ [])
    (max_packet_size client_max n k j : ℕ) (ms : List Message) {p q : GPoolWithFunc Message}
    (fit : AllFit max_packet_size ms) (some_size : 0 < n) (small : n < 2 ^ 31)
    (made : start_worker_pool (pos n) ≡ ok p) (run : Reaches IsKept p q) (t : Quiet q)
    (working : 0 < q.running)
    (given : (test : Option Message → Bool)
      → count test q.invoked
        ≡ count test
            (map some (requests (read_rounds max_packet_size (length ms + k) (frames ms)).0)))
    (client_small : is_too_large client_max 22 ≡ false) where
  -- A client sends the frames of messages within the limit, and the calls of `Invoke` are those for the
  -- rounds of the reader on them. When the pool that nobody releases has come to rest with some
  -- worker running, in whatever order it handled the messages, the connection was open with an empty
  -- channel and the writer has written what was put there, over any transport that keeps the laws,
  -- then a client whose limit lets the answers pass reads one answer for each message with the
  -- identifier 1, the other for each with 2, and nothing else.
  pub answered_lem :
      (v : World) × (bytes : List ℕ) × ((serve_all ops app_routers (from a q.handled)
            >> drain ops (length (answers q.handled)) a)
          (at w a c)
        ≡ returns bytes v)
      × (read_rounds client_max (length (answers q.handled) + j) bytes
          ≡ (map request (answers q.handled) ++ ends_of_input j, []))
      × ((test : Message → Bool)
          → count test (answers q.handled)
            ≡ count (asks 1) ms * count test (pong ∷ [])
              + count (asks 2) ms * count test (pong2 ∷ []))
  answered_lem =
      let (v, wire) = answered_on_wire ops laws a w c open_conn drained q.handled in
      let asked : (id : ℕ) → id < 99999 → count (asks id) q.handled ≡ count (asks id) ms = λ id h.
        frames-Quiet max_packet_size n k ms fit some_size small made run t working given (asks id)
        ∙ ap (λ test. count test ms) (fun_ext (is_request-asks id h)) in
      (
        v,
        frames (answers q.handled),
        wire,
        read_answers client_max j q.handled client_small,
        λ test.
            rw (sym (asked 1 (omega arith)), sym (asked 2 (omega arith)))
              (count-answers test q.handled),
      )
