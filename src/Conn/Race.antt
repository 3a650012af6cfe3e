-- ===== src/Conn/Race.antt =====
-- Overlapping calls of `Stop` of server/conn.go, which tests `isClosed` and sets it without a lock.
use gts.Base.{
  ℕ, zero, suc, ◌+◌, ◌-◌, ◌<◌, ◌≡◌, refl, Bool, true, false, not, ◌&&◌, ◌||◌, List, [], ◌∷◌, ◌++◌,
  arith, ltb, if◌then◌else◌,
}

-- `isClosed`; whether a heartbeat is bound, and its goroutine is in its `select`; whether the hook is
-- set; the calls of `Stop` behind the test, and those behind the heartbeat's `Stop`; the calls of the
-- hook.
pub record Racing : Type 0 where
  pub is_closed : Bool
  pub has_checker : Bool
  pub listening : Bool
  pub has_on_stop : Bool
  pub tested : ℕ
  pub past_quit : ℕ
  pub hook_calls : ℕ

-- A call of `Stop` makes its test, gets past the heartbeat's `Stop`, or sets `isClosed` and calls the
-- hook.
pub data Event : Type 0 where
  tests quits sets : Event

-- The heartbeat's goroutine receives once from `quitChan`, and then returns.
unfoldable pub step : Racing → Event → Racing
step r tests = if r.is_closed then r else record r { tested = r.tested + 1 }
step r quits =
    if ltb 0 r.tested && (not r.has_checker || r.listening)
    then record r { listening = false; tested = r.tested - 1; past_quit = r.past_quit + 1 }
    else r
step r sets =
    if ltb 0 r.past_quit
    then record r {
      is_closed = true;
      past_quit = r.past_quit - 1;
      hook_calls = if r.has_on_stop then r.hook_calls + 1 else r.hook_calls;
    }
    else r

unfoldable pub run : Racing → List Event → Racing
run r [] = r
run r (e ∷ es) = run (step r e) es

abbrev pub repeat : ℕ → Event → List Event
repeat zero e = []
repeat (suc n) e = e ∷ repeat n e

run-tests_closed : (n : ℕ) (r : Racing) → r.is_closed ≡ true → run r (repeat n tests) ≡ r
unfolding run step
run-tests_closed zero r c = refl
run-tests_closed (suc n) r c = ground (arith, run-tests_closed n r)

-- The calls that get past the heartbeat's `Stop`, of `n`.
abbrev pub passing : Bool → ℕ → ℕ
passing true n = 1
passing false n = n

-- The calls that have the test, the heartbeat's `Stop` and the hook behind them.
abbrev pub overlapping : ℕ → List Event
overlapping n = repeat n tests ++ (repeat n quits ++ repeat n sets)

-- Nothing can happen any more: the connection is closed, nobody is past the heartbeat's `Stop`, and a
-- call that is behind the test waits for a goroutine that does not listen.
record Settled (r : Racing) : Type 0 where
  pub closed : r.is_closed ≡ true
  pub none_past : r.past_quit ≡ 0
  pub waiting : 0 < r.tested → r.has_checker ≡ true
  pub deaf : r.listening ≡ false

-- The connection when all of them have passed.
abbrev pub overlapped : ℕ → Racing → Racing
overlapped n r =
    let p = passing r.has_checker n in
    record r {
      is_closed = true;
      listening = false;
      tested = n - p;
      past_quit = 0;
      hook_calls = if r.has_on_stop then r.hook_calls + p else r.hook_calls;
    }
