-- ===== src/FuncPool.antt =====
-- pool/gpool_with_func.go and pool/worker_with_func.go: the pool whose tasks are arguments of one
-- function. Each goroutine carries its argument, `none` where it is `nil`; the points of the code
-- and the events are those of Pool.antt.
pub mod Steps
pub mod Forget
pub mod Refine
pub mod Conserve
pub mod Quiet
mod Tests
use gts.Base.{
  ℕ, ◌+◌, ◌-◌, Bool, true, false, ◌&&◌, ◌||◌, Option, none, some, List, [], ◌∷◌, ◌++◌, ltb, ◌==◌,
  if◌then◌else◌, length,
}
use gts.Base.Result.{Result, ok, err}
use gts.Base.Int.{ℤ, pos, negsuc, ltb_ℤ, leb_ℤ, int32, succ_ℤ}
use gts.Stack.{WorkerStack, insert, detach, reset, refresh}
use gts.Pool.{GoWorker, PoolError, makeslice_panic}

module _ {ℓ} where
  pub record GPoolWithFunc (A : Type ℓ) : Type ℓ where
    pub cap : ℤ
    pub running : ℕ
    pub closed : Bool
    pub workers : WorkerStack GoWorker
    -- The arguments of the calls of `Invoke`, by the point of the code; `blocked` is in the order
    -- in which `cond` wakes them.
    pub parking : List (Option A)
    pub blocked : List (Option A)
    pub woken : List (Option A)
    pub entering : List (Option A)
    pub spawning : List (Option A)
    -- The arguments in the workers' channels or in their hands.
    pub busy : List (Option A)
    pub returning : ℕ
    pub inserting : ℕ
    pub exiting : ℕ
    -- Workers about to call `Broadcast` in `revertWorker`, other goroutines about to call `Signal` or
    -- `Broadcast`, and rounds of the purge that found no worker at work.
    pub retiring : ℕ
    pub signalling : ℕ
    pub broadcasting : ℕ
    pub dormant : ℕ
    pub releasing : ℕ
    -- The arguments of all calls of `Invoke`, of those that returned an error, those that
    -- `poolFunc` was called with, newest first, and the workers that a `nil` argument ended.
    pub invoked : List (Option A)
    pub rejected : List (Option A)
    pub handled : List A
    pub ended : ℕ

module _ {ℓ} {A : Type ℓ} where
  unfoldable pub empty_pool : ℤ → GPoolWithFunc A
  empty_pool c = record {
    cap = c;
    running = 0;
    closed = false;
    workers = record { items = []; expiry = [] };
    parking = [];
    blocked = [];
    woken = [];
    entering = [];
    spawning = [];
    busy = [];
    returning = 0;
    inserting = 0;
    exiting = 0;
    retiring = 0;
    signalling = 0;
    broadcasting = 0;
    dormant = 0;
    releasing = 0;
    invoked = [];
    rejected = [];
    handled = [];
    ended = 0;
  }

  unfoldable pub with_stack : ℤ → Result PoolError (GPoolWithFunc A)
  with_stack (negsuc n) = err makeslice_panic
  with_stack (pos n) = ok (empty_pool (int32 n))

  unfoldable pub new_pool_with_func : ℤ → Result PoolError (GPoolWithFunc A)
  unfolding with_stack
  new_pool_with_func size = with_stack (if leb_ℤ size (pos 0) then negsuc 0 else size)

  -- `capacity == -1 || capacity > p.Running()`
  unfoldable pub may_spawn : GPoolWithFunc A → Bool
  may_spawn p = (leb_ℤ p.cap (negsuc 0) && leb_ℤ (negsuc 0) p.cap) || ltb_ℤ (pos p.running) p.cap

  -- `p.Free() > 0`
  unfoldable pub has_free : GPoolWithFunc A → Bool
  has_free p = leb_ℤ (pos 0) p.cap && ltb_ℤ (pos p.running) p.cap

  unfoldable pub waiting : GPoolWithFunc A → ℕ
  waiting p = length p.parking + length p.blocked + length p.woken

  unfoldable pub signal : GPoolWithFunc A → GPoolWithFunc A
  signal p = elim p.blocked [
    | [] ↦ p
    | arg ∷ rest ↦ record p { blocked = rest; woken = arg ∷ p.woken }
  ]

  unfoldable pub broadcast : GPoolWithFunc A → GPoolWithFunc A
  broadcast p = record p { blocked = []; woken = p.woken ++ p.blocked }

  -- `Invoke` up to the call of `retrieveWorker`.
  unfoldable pub invoke : Option A → GPoolWithFunc A → GPoolWithFunc A
  invoke arg p =
      if p.closed
      then record p { invoked = arg ∷ p.invoked; rejected = arg ∷ p.rejected }
      else record p { invoked = arg ∷ p.invoked; entering = arg ∷ p.entering }

  -- Each of the following is the step of the goroutine with the argument `arg`; `others` are the
  -- arguments of those at the same point of the code.

  -- `retrieveWorker` under its lock, with `inputParam` where a worker was found.
  unfoldable pub retrieve : Option A → List (Option A) → GPoolWithFunc A → GPoolWithFunc A
  unfolding may_spawn
  retrieve arg others p = elim (detach p.workers) [
    | some (w, rest) ↦ record p { workers = rest; entering = others; busy = arg ∷ p.busy }
    | none ↦
        if may_spawn p
        then record p { entering = others; spawning = arg ∷ p.spawning }
        else record p { entering = others; parking = arg ∷ p.parking }
  ]

  -- `cond.Wait` joins the end of its list of waiters.
  unfoldable pub park : Option A → List (Option A) → GPoolWithFunc A → GPoolWithFunc A
  park arg others p = record p { parking = others; blocked = p.blocked ++ arg ∷ [] }

  -- `spawnWorker`, then `inputParam`.
  unfoldable pub spawn : Option A → List (Option A) → GPoolWithFunc A → GPoolWithFunc A
  spawn arg others p = record p { spawning = others; running = p.running + 1; busy = arg ∷ p.busy }

  -- `retrieveWorker` from the return of `cond.Wait` on.
  unfoldable pub wake : Option A → List (Option A) → GPoolWithFunc A → GPoolWithFunc A
  unfolding has_free
  wake arg others p =
      if p.closed
      then record p { woken = others; rejected = arg ∷ p.rejected }
      else elim (detach p.workers) [
        | some (w, rest) ↦ record p { workers = rest; woken = others; busy = arg ∷ p.busy }
        | none ↦
            if has_free p
            then record p { woken = others; spawning = arg ∷ p.spawning }
            else record p { woken = others; parking = arg ∷ p.parking }
      ]

  -- The body of a worker's loop: `nil` ends it, and so does a panic of `poolFunc`.
  unfoldable pub work : Bool → Option A → List (Option A) → GPoolWithFunc A → GPoolWithFunc A
  work panics none others p = record p {
    busy = others;
    exiting = p.exiting + 1;
    ended = p.ended + 1;
  }
  work false (some a) others p = record p {
    busy = others;
    returning = p.returning + 1;
    handled = a ∷ p.handled;
  }
  work true (some a) others p = record p {
    busy = others;
    exiting = p.exiting + 1;
    handled = a ∷ p.handled;
  }

  -- The first test of `revertWorker`.
  unfoldable pub is_surplus : GPoolWithFunc A → Bool
  is_surplus p = (ltb_ℤ (pos 0) p.cap && ltb_ℤ p.cap (pos p.running)) || p.closed

  unfoldable pub revert : GPoolWithFunc A → GPoolWithFunc A
  unfolding is_surplus
  revert p =
      if is_surplus p
      then record p { returning = p.returning - 1; retiring = p.retiring + 1 }
      else record p { returning = p.returning - 1; inserting = p.inserting + 1 }

  -- The `Broadcast` of `revertWorker`, after which the worker leaves its loop.
  unfoldable pub retire : GPoolWithFunc A → GPoolWithFunc A
  unfolding broadcast
  retire p = broadcast (record p { retiring = p.retiring - 1; exiting = p.exiting + 1 })

  -- `revertWorker` under its lock.
  unfoldable pub put_back : ℕ → GPoolWithFunc A → GPoolWithFunc A
  unfolding signal
  put_back now p =
      if p.closed
      then record p { inserting = p.inserting - 1; exiting = p.exiting + 1 }
      else signal (record p {
        inserting = p.inserting - 1;
        workers = insert (record { last_used = now }) p.workers;
      })

  -- The deferred function of `run`.
  unfoldable pub exit : GPoolWithFunc A → GPoolWithFunc A
  exit p = record p {
    exiting = p.exiting - 1;
    running = p.running - 1;
    signalling = p.signalling + 1;
  }

  -- The `Signal` behind the count in `run` or behind the store in `Tune`.
  unfoldable pub send_signal : GPoolWithFunc A → GPoolWithFunc A
  unfolding signal
  send_signal p = signal (record p { signalling = p.signalling - 1 })

  -- The `Broadcast` at the end of `Release` or behind the store in `Tune`.
  unfoldable pub send_broadcast : GPoolWithFunc A → GPoolWithFunc A
  unfolding broadcast
  send_broadcast p = broadcast (record p { broadcasting = p.broadcasting - 1 })

  unfoldable pub release : GPoolWithFunc A → GPoolWithFunc A
  release p = if p.closed then p else record p { closed = true; releasing = p.releasing + 1 }

  -- `Release` behind the swap; `finish` of a worker on the stack sends it `nil`.
  unfoldable pub finish_release : GPoolWithFunc A → GPoolWithFunc A
  finish_release p =
      let (stopped, rest) = reset p.workers in
      record p {
        releasing = p.releasing - 1;
        workers = rest;
        exiting = p.exiting + length stopped;
        broadcasting = p.broadcasting + 1;
      }

  unfoldable pub reboot : GPoolWithFunc A → GPoolWithFunc A
  reboot p = record p { closed = false }

  -- `Tune`, whose load of the capacity and its store later are one step.
  unfoldable pub tune : ℤ → GPoolWithFunc A → GPoolWithFunc A
  tune (negsuc n) p = p
  tune (pos n) p =
      if (leb_ℤ p.cap (negsuc 0) && leb_ℤ (negsuc 0) p.cap)
        || n == 0
        || (leb_ℤ (pos n) p.cap && leb_ℤ p.cap (pos n))
      then p
      else let q = record p { cap = int32 n } in
        if ltb_ℤ p.cap (pos n)
        then (if leb_ℤ (pos n) (succ_ℤ p.cap)
            then record q { signalling = p.signalling + 1 }
            else record q { broadcasting = p.broadcasting + 1 })
        else q

  -- One round of `purgeStaleWorkers`.
  unfoldable pub purge : ℕ → ℕ → GPoolWithFunc A → GPoolWithFunc A
  purge duration now p =
      if p.closed
      then p
      else elim (refresh (λ (w : GoWorker). w.last_used) duration now p.workers) [
        | none ↦ p
        | some (expired, rest) ↦
            let q = record p { workers = rest; exiting = p.exiting + length expired } in
            if p.running == 0 || p.running == length expired
            then record q { dormant = p.dormant + 1 }
            else q
      ]

  -- The end of a round that found no worker at work: `if p.Waiting() > 0`, with the `Broadcast`.
  unfoldable pub finish_purge : GPoolWithFunc A → GPoolWithFunc A
  unfolding broadcast waiting
  finish_purge p =
      let q = record p { dormant = p.dormant - 1 } in if ltb 0 (waiting p) then broadcast q else q
