-- ===== src/Pool/Counted.antt =====
-- The count of the workers and the tasks of the pool (pool/gpool.go, pool/worker.go).
use gts.Base.{ℕ, ◌+◌, ◌^◌, ◌<◌, ◌≡◌, true, ◌-◌, arith, length}
use gts.Base.Result.{ok}
use gts.Base.Int.{ℤ, pos, negsuc, ◌≤ℤ◌}
use gts.Stack.{reset}
use gts.Stack.Order.{length-insert, detach-length}
use gts.Stack.Refresh.{refresh-length}
use gts.Pool.{
  GPool, GoWorker, empty_pool, new_pool, submit, retrieve, park, spawn, wake, complete, panic,
  revert, put_back, exit, release, finish_release, retire, send_signal, send_broadcast,
  finish_purge, reboot, tune, purge,
}
use gts.Pool.Steps.{
  Event, Reaches, here, next, is_enabled, step, submits, retrieves, parks, spawns, wakes, completes,
  panics, reverts, exits, releases, finishes_release, reboots, puts_back, tunes, purges, retires,
  sends_signal, sends_broadcast, finishes_purge,
}

pub record Counted (p : GPool) : Type 0 where
  pub positive : pos 1 ≤ℤ p.cap
  -- Each running worker is idle on the stack or at one point of its loop.
  pub workers_counted :
      p.running
      ≡ length p.workers.items + p.busy + p.returning + p.inserting + p.retiring + p.exiting
  -- Each task was rejected or done, or is held by one worker or one submitter.
  pub tasks_counted :
      p.submitted
      ≡ p.rejected + p.done + p.busy + p.entering + p.spawning + p.parking + p.blocked + p.woken
  -- A submitter decides to wait under the lock, while no worker is idle.
  pub parked : 0 < p.parking → length p.workers.items ≡ 0
  -- Once a release is over, a closed pool has no idle worker.
  pub drained : p.closed ≡ true → p.releasing ≡ 0 → length p.workers.items ≡ 0

-- The events that ask for no capacity beyond an `int32`.
abbrev pub FitsInt32 : GPool → Event → Type 0
FitsInt32 p (tunes size) = size ≤ℤ pos (2 ^ 31 - 1)
FitsInt32 p _ = Unit

module _ (p : GPool) (c : Counted p) where
  submit-Counted : Counted (submit p)
  unfolding submit
  submit-Counted = ground arith

  retrieve-Counted : is_enabled p retrieves ≡ true → Counted (retrieve p)
  unfolding retrieve is_enabled
  retrieve-Counted h = ground (arith, detach-length p.workers)

  park-Counted : is_enabled p parks ≡ true → Counted (park p)
  unfolding park is_enabled
  park-Counted h = ground arith

  spawn-Counted : is_enabled p spawns ≡ true → Counted (spawn p)
  unfolding spawn is_enabled
  spawn-Counted h = ground arith

  wake-Counted : is_enabled p wakes ≡ true → Counted (wake p)
  unfolding wake is_enabled
  wake-Counted h = ground (arith, detach-length p.workers)

  complete-Counted : is_enabled p completes ≡ true → Counted (complete p)
  unfolding complete is_enabled
  complete-Counted h = ground arith

  panic-Counted : is_enabled p panics ≡ true → Counted (panic p)
  unfolding panic is_enabled
  panic-Counted h = ground arith

  revert-Counted : is_enabled p reverts ≡ true → Counted (revert p)
  unfolding revert is_enabled
  revert-Counted h = ground arith

  put_back-Counted : (now : ℕ) → is_enabled p (puts_back now) ≡ true → Counted (put_back now p)
  unfolding put_back is_enabled
  put_back-Counted now h = ground (arith, length-insert (record { last_used = now }) p.workers)

  exit-Counted : is_enabled p exits ≡ true → Counted (exit p)
  unfolding exit is_enabled
  exit-Counted h = ground arith

  retire-Counted : is_enabled p retires ≡ true → Counted (retire p)
  unfolding retire is_enabled
  retire-Counted h = ground arith

  send_signal-Counted : Counted (send_signal p)
  unfolding send_signal
  send_signal-Counted = ground arith

  send_broadcast-Counted : Counted (send_broadcast p)
  unfolding send_broadcast
  send_broadcast-Counted = ground arith

  finish_purge-Counted : Counted (finish_purge p)
  unfolding finish_purge
  finish_purge-Counted = ground arith

  release-Counted : Counted (release p)
  unfolding release
  release-Counted = ground arith

  finish_release-Counted : is_enabled p finishes_release ≡ true → Counted (finish_release p)
  unfolding finish_release is_enabled reset
  finish_release-Counted h = ground arith

  reboot-Counted : Counted (reboot p)
  unfolding reboot
  reboot-Counted = ground arith

  tune-Counted : (size : ℤ) → size ≤ℤ pos (2 ^ 31 - 1) → Counted (tune size p)
  unfolding tune
  tune-Counted (negsuc n) h = c
  tune-Counted (pos n) h = ground arith

  purge-Counted :
      (duration now : ℕ)
      → is_enabled p (purges duration now) ≡ true
      → Counted (purge duration now p)
  unfolding purge is_enabled
  purge-Counted duration now h =
      ground (arith, refresh-length (λ (w : GoWorker). w.last_used) duration now p.workers)

-- Every enabled event keeps the accounts.
pub step-Counted :
    (p : GPool) (e : Event) → Counted p → is_enabled p e ≡ true → FitsInt32 p e → Counted (step p e)
unfolding step
step-Counted p submits c h f = submit-Counted p c
step-Counted p retrieves c h f = retrieve-Counted p c h
step-Counted p parks c h f = park-Counted p c h
step-Counted p spawns c h f = spawn-Counted p c h
step-Counted p wakes c h f = wake-Counted p c h
step-Counted p completes c h f = complete-Counted p c h
step-Counted p panics c h f = panic-Counted p c h
step-Counted p reverts c h f = revert-Counted p c h
step-Counted p exits c h f = exit-Counted p c h
step-Counted p retires c h f = retire-Counted p c h
step-Counted p sends_signal c h f = send_signal-Counted p c
step-Counted p sends_broadcast c h f = send_broadcast-Counted p c
step-Counted p finishes_purge c h f = finish_purge-Counted p c
step-Counted p releases c h f = release-Counted p c
step-Counted p finishes_release c h f = finish_release-Counted p c h
step-Counted p reboots c h f = reboot-Counted p c
step-Counted p (puts_back now) c h f = put_back-Counted p c now h
step-Counted p (tunes size) c h f = tune-Counted p c size f
step-Counted p (purges duration now) c h f = purge-Counted p c duration now h

pub new_pool-Counted :
    (n : ℕ) (p : GPool) → 0 < n → n < 2 ^ 31 → new_pool (pos n) ≡ ok p → Counted p
unfolding new_pool empty_pool
new_pool-Counted n p h k e = ground arith

pub Reaches-Counted : {p q : GPool} → Counted p → Reaches FitsInt32 p q → Counted q
Reaches-Counted c here = c
Reaches-Counted c (next {q = q} e r h f) = step-Counted q e (Reaches-Counted c r) h f

-- In every interleaving of calls on a new pool, no worker and no task is lost or counted twice,
-- the capacity stays positive, and a closed pool whose release is over has no idle worker, when
-- the size of the pool is a positive `int32` and those given to `Tune` are at most 2 ^ 31 - 1.
pub new_pool-Reaches-Counted :
    (n : ℕ) {p q : GPool}
    → 0 < n
    → n < 2 ^ 31
    → new_pool (pos n) ≡ ok p
    → Reaches FitsInt32 p q
    → Counted q
new_pool-Reaches-Counted n {p} h k e r = Reaches-Counted (new_pool-Counted n p h k e) r
