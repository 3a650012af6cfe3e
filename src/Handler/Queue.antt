-- ===== src/Handler/Queue.antt =====
-- The worker pool of message/messagehandler.go, and what it makes of the rounds of the reader of
-- server/conn.go where `WorkerPoolSize` is positive.
use gts.Base.{
  ℕ, zero, suc, ◌+◌, ◌<◌, ◌^◌, ◌≡◌, refl, ap, ◌∙◌, inl, inr, Bool, false, not, ◌&&◌, Option, none,
  some, List, [], ◌∷◌, ◌++◌, map, arith, length, count, ◌==◌, if◌then◌else◌, Bool-cases,
}
use gts.Base.Int.{ℤ, pos}
use gts.Base.Result.{Result, ok}
use gts.Message.{Message}
use gts.Pool.{PoolError}
use gts.FuncPool.{GPoolWithFunc, new_pool_with_func, invoke}
use gts.FuncPool.Steps.{Reaches}
use gts.FuncPool.Quiet.{IsKept, Quiet, new_pool_with_func-Reaches-Quiet}
use gts.Conn.Reader.{
  Round, head_error, unpack_error, data_error, heartbeat, request, classify, read_rounds,
}
use gts.Conn.Reader.Frames.{AllFit, frames, ends_of_input, read_rounds-frames}

-- The pool's function is `DoMsgHandler`.
unfoldable pub start_worker_pool : ℤ → Result PoolError (GPoolWithFunc Message)
start_worker_pool worker_pool_size = new_pool_with_func worker_pool_size

-- The error of `Invoke` is printed and dropped.
unfoldable pub send_msg_to_task_queue : Message → GPoolWithFunc Message → GPoolWithFunc Message
send_msg_to_task_queue m p = invoke (some m) p

-- The messages that the reader gives to `SendMsgToTaskQueue`.
unfoldable pub requests : List Round → List Message
requests [] = []
requests (request m ∷ rs) = m ∷ requests rs
requests (heartbeat ∷ rs) = requests rs
requests (head_error e ∷ rs) = requests rs
requests (unpack_error e ∷ rs) = requests rs
requests (data_error e ∷ rs) = requests rs

requests-ends_of_input : (n : ℕ) → requests (ends_of_input n) ≡ []
unfolding requests classify
requests-ends_of_input zero = refl
requests-ends_of_input (suc n) = requests-ends_of_input n

-- The messages that pass a test and are not heartbeats.
abbrev pub is_request : (Message → Bool) → Message → Bool
is_request test m = not (m.id == 99999) && test m

requests-classify :
    (test : Message → Bool) (ms : List Message) (n : ℕ)
    → count test (requests (map classify ms ++ ends_of_input n)) ≡ count (is_request test) ms
unfolding requests classify
requests-classify test [] n = ap (count test) (requests-ends_of_input n)
requests-classify test (m ∷ ms) n =
    let ih = requests-classify test ms n in
    elim (Bool-cases (m.id == 99999)) [
      | inl e ↦ rw (classify, e) (omega (arith, ih))
      | inr e ↦ rw (classify, e) (ap (λ k. (if test m then 1 else 0) + k) ih)
    ]

-- A test of messages as one of arguments, which `nil` fails.
abbrev pub on_message : (Message → Bool) → Option Message → Bool
on_message test none = false
on_message test (some m) = test m

count-on_message :
    (test : Message → Bool) (ms : List Message)
    → count (on_message test) (map some ms) ≡ count test ms
count-on_message test [] = refl
count-on_message test (m ∷ ms) = ap (λ k. (if test m then 1 else 0) + k) (count-on_message test ms)

module _ (max_packet_size n k : ℕ) (ms : List Message) {p q : GPoolWithFunc Message}
    (fit : AllFit max_packet_size ms) (some_size : 0 < n) (small : n < 2 ^ 31)
    (made : start_worker_pool (pos n) ≡ ok p) (run : Reaches IsKept p q) (t : Quiet q)
    (working : 0 < q.running)
    (given : (test : Option Message → Bool)
      → count test q.invoked
        ≡ count test
            (map some (requests (read_rounds max_packet_size (length ms + k) (frames ms)).0))) where
  -- When the calls of `Invoke` were those for the rounds in which the reader met the frames of
  -- messages within the limit and then the end of the input, and the pool that nobody releases has
  -- come to rest with some worker running, then `DoMsgHandler` was called once for each of the
  -- messages that is not a heartbeat, and for no other.
  pub frames-Quiet : (test : Message → Bool) → count test q.handled ≡ count (is_request test) ms
  unfolding start_worker_pool
  frames-Quiet test =
      let settled =
        new_pool_with_func-Reaches-Quiet (on_message test) n some_size small made run t working in
      let rounds =
        ap (λ r. count test (requests r.0)) (read_rounds-frames max_packet_size k ms fit)
        ∙ requests-classify test ms k in
      let invoked =
        given (on_message test)
        ∙ count-on_message test
            (requests (read_rounds max_packet_size (length ms + k) (frames ms)).0)
        ∙ rounds in
      omega (arith, settled.0, invoked)
