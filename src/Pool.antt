-- ===== src/Pool.antt =====
-- pool/gpool.go and pool/worker.go: the goroutine pool. A goroutine is counted at the point of the
-- code that it has reached, and an event is one step of one goroutine up to its next lock,
-- atomic operation or wait, so that a list of events is one interleaving.
pub mod Steps
pub mod Counted
pub mod Awake
pub mod Bound
pub mod Overshoot
pub mod Stuck
mod Tests
use gts.Base.{
  ℕ, ◌+◌, ◌-◌, ◌<◌, Bool, true, false, not, ◌&&◌, ◌||◌, Option, none, some, List, [], ◌∷◌, ltb,
  ◌==◌, if◌then◌else◌, length,
}
use gts.Base.Result.{Result, ok, err}
use gts.Base.Int.{ℤ, pos, negsuc, ltb_ℤ, leb_ℤ, int32, succ_ℤ}
use gts.Stack.{WorkerStack, insert, detach, reset, refresh}

-- A worker is known by the time when it was put back.
pub record GoWorker : Type 0 where
  pub last_used : ℕ

pub record GPool : Type 0 where
  pub cap : ℤ
  pub running : ℕ
  pub closed : Bool
  pub workers : WorkerStack GoWorker
  -- Submitters that hold the lock and are about to call `cond.Wait`, those that wait in it, and
  -- those that were signalled and have not run on; the field `waiting` is their sum.
  pub parking : ℕ
  pub blocked : ℕ
  pub woken : ℕ
  -- Submitters behind the test of `IsClosed` in `Submit`, and those about to run `spawnWorker`.
  pub entering : ℕ
  pub spawning : ℕ
  -- Workers with a task in hand or in their channel, those that call `revertWorker`, those behind
  -- its first test, and those that leave their loop.
  pub busy : ℕ
  pub returning : ℕ
  pub inserting : ℕ
  pub exiting : ℕ
  -- Workers about to call `Broadcast` in `revertWorker`, other goroutines about to call `Signal` or
  -- `Broadcast`, and rounds of the purge that found no worker at work.
  pub retiring : ℕ
  pub signalling : ℕ
  pub broadcasting : ℕ
  pub dormant : ℕ
  -- Calls of `Release` behind the swap of the state.
  pub releasing : ℕ
  -- What the calls of `Submit` came to.
  pub submitted : ℕ
  pub rejected : ℕ
  pub done : ℕ

pub data PoolError : Type 0 where
  makeslice_panic : PoolError

unfoldable pub empty_pool : ℤ → GPool
empty_pool c = record {
  cap = c;
  running = 0;
  closed = false;
  workers = record { items = []; expiry = [] };
  parking = 0;
  blocked = 0;
  woken = 0;
  entering = 0;
  spawning = 0;
  busy = 0;
  returning = 0;
  inserting = 0;
  exiting = 0;
  retiring = 0;
  signalling = 0;
  broadcasting = 0;
  dormant = 0;
  releasing = 0;
  submitted = 0;
  rejected = 0;
  done = 0;
}

-- `make([]worker, 0, size)` with the pool around it.
unfoldable pub with_stack : ℤ → Result PoolError GPool
with_stack (negsuc n) = err makeslice_panic
with_stack (pos n) = ok (empty_pool (int32 n))

-- A size of 0 or less becomes -1.
unfoldable pub new_pool : ℤ → Result PoolError GPool
unfolding with_stack
new_pool size = with_stack (if leb_ℤ size (pos 0) then negsuc 0 else size)

-- `capacity == -1 || capacity > p.Running()`
unfoldable pub may_spawn : GPool → Bool
may_spawn p = (leb_ℤ p.cap (negsuc 0) && leb_ℤ (negsuc 0) p.cap) || ltb_ℤ (pos p.running) p.cap

-- `p.Free() > 0`, where `Free` is -1 for a negative capacity.
unfoldable pub has_free : GPool → Bool
has_free p = leb_ℤ (pos 0) p.cap && ltb_ℤ (pos p.running) p.cap

unfoldable pub waiting : GPool → ℕ
waiting p = p.parking + p.blocked + p.woken

-- `cond.Wait` joins its list of waiters before it gives the lock up.
unfoldable pub park : GPool → GPool
park p = record p { parking = p.parking - 1; blocked = p.blocked + 1 }

-- `cond.Signal` wakes one waiter, if there is one, and `cond.Broadcast` all.
unfoldable pub signal : GPool → GPool
signal p = if p.blocked == 0 then p else record p { blocked = p.blocked - 1; woken = p.woken + 1 }

unfoldable pub broadcast : GPool → GPool
broadcast p = record p { blocked = 0; woken = p.woken + p.blocked }

-- `Submit` up to the call of `retrieveWorker`.
unfoldable pub submit : GPool → GPool
submit p =
    if p.closed
    then record p { submitted = p.submitted + 1; rejected = p.rejected + 1 }
    else record p { submitted = p.submitted + 1; entering = p.entering + 1 }

-- `retrieveWorker` under its lock, with `inputFunc` where a worker was found.
unfoldable pub retrieve : GPool → GPool
unfolding may_spawn
retrieve p = elim (detach p.workers) [
  | some (w, rest) ↦ record p { workers = rest; entering = p.entering - 1; busy = p.busy + 1 }
  | none ↦
      if may_spawn p
      then record p { entering = p.entering - 1; spawning = p.spawning + 1 }
      else record p { entering = p.entering - 1; parking = p.parking + 1 }
]

-- `spawnWorker`: `w.run()` counts the worker, and `inputFunc` hands it the task.
unfoldable pub spawn : GPool → GPool
spawn p = record p { spawning = p.spawning - 1; running = p.running + 1; busy = p.busy + 1 }

-- `retrieveWorker` from the return of `cond.Wait` on.
unfoldable pub wake : GPool → GPool
unfolding has_free
wake p =
    if p.closed
    then record p { woken = p.woken - 1; rejected = p.rejected + 1 }
    else elim (detach p.workers) [
      | some (w, rest) ↦ record p { workers = rest; woken = p.woken - 1; busy = p.busy + 1 }
      | none ↦
          if has_free p
          then record p { woken = p.woken - 1; spawning = p.spawning + 1 }
          else record p { woken = p.woken - 1; parking = p.parking + 1 }
    ]

-- `f()` returns, or panics into the deferred function of `run`.
unfoldable pub complete : GPool → GPool
complete p = record p { busy = p.busy - 1; returning = p.returning + 1; done = p.done + 1 }

unfoldable pub panic : GPool → GPool
panic p = record p { busy = p.busy - 1; exiting = p.exiting + 1; done = p.done + 1 }

-- The first test of `revertWorker`.
unfoldable pub is_surplus : GPool → Bool
is_surplus p = (ltb_ℤ (pos 0) p.cap && ltb_ℤ p.cap (pos p.running)) || p.closed

unfoldable pub revert : GPool → GPool
unfolding is_surplus
revert p =
    if is_surplus p
    then record p { returning = p.returning - 1; retiring = p.retiring + 1 }
    else record p { returning = p.returning - 1; inserting = p.inserting + 1 }

-- The `Broadcast` of `revertWorker`, after which the worker leaves its loop.
unfoldable pub retire : GPool → GPool
unfolding broadcast
retire p = broadcast (record p { retiring = p.retiring - 1; exiting = p.exiting + 1 })

-- `revertWorker` under its lock; the time was read before the lock was taken.
unfoldable pub put_back : ℕ → GPool → GPool
unfolding signal
put_back now p =
    if p.closed
    then record p { inserting = p.inserting - 1; exiting = p.exiting + 1 }
    else signal (record p {
      inserting = p.inserting - 1;
      workers = insert (record { last_used = now }) p.workers;
    })

-- The deferred function of `run`.
unfoldable pub exit : GPool → GPool
exit p = record p {
  exiting = p.exiting - 1;
  running = p.running - 1;
  signalling = p.signalling + 1;
}

-- The `Signal` behind the count in `run` or behind the store in `Tune`.
unfoldable pub send_signal : GPool → GPool
unfolding signal
send_signal p = signal (record p { signalling = p.signalling - 1 })

-- The `Broadcast` at the end of `Release` or behind the store in `Tune`.
unfoldable pub send_broadcast : GPool → GPool
unfolding broadcast
send_broadcast p = broadcast (record p { broadcasting = p.broadcasting - 1 })

-- The swap of the state in `Release`, and the rest of it; each worker of the stack is sent `nil`.
unfoldable pub release : GPool → GPool
release p = if p.closed then p else record p { closed = true; releasing = p.releasing + 1 }

unfoldable pub finish_release : GPool → GPool
finish_release p =
    let (stopped, rest) = reset p.workers in
    record p {
      releasing = p.releasing - 1;
      workers = rest;
      exiting = p.exiting + length stopped;
      broadcasting = p.broadcasting + 1;
    }

unfoldable pub reboot : GPool → GPool
reboot p = record p { closed = false }

-- `Tune`, whose load of the capacity and its store later are one step.
unfoldable pub tune : ℤ → GPool → GPool
tune (negsuc n) p = p
tune (pos n) p =
    if (leb_ℤ p.cap (negsuc 0) && leb_ℤ (negsuc 0) p.cap)
      || n == 0
      || (leb_ℤ (pos n) p.cap && leb_ℤ p.cap (pos n))
    then p
    else let q = record p { cap = int32 n } in
      if ltb_ℤ p.cap (pos n)
      then (if leb_ℤ (pos n) (succ_ℤ p.cap)
          then record q { signalling = p.signalling + 1 }
          else record q { broadcasting = p.broadcasting + 1 })
      else q

-- One round of `purgeStaleWorkers`; the duration is the ten seconds of the source.
unfoldable pub purge : ℕ → ℕ → GPool → GPool
purge duration now p =
    if p.closed then p else elim (refresh (λ (w : GoWorker). w.last_used) duration now p.workers) [
      | none ↦ p
      | some (expired, rest) ↦
          let q = record p { workers = rest; exiting = p.exiting + length expired } in
          if p.running == 0 || p.running == length expired
          then record q { dormant = p.dormant + 1 }
          else q
    ]

-- The end of a round that found no worker at work: `if p.Waiting() > 0`, with the `Broadcast`.
unfoldable pub finish_purge : GPool → GPool
unfolding broadcast waiting
finish_purge p =
    let q = record p { dormant = p.dormant - 1 } in if ltb 0 (waiting p) then broadcast q else q
