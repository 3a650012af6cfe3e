-- ===== src/Pool/Awake.antt =====
-- Who wakes a waiting submitter of pool/gpool.go while the pool is open.
use gts.Base.{ℕ, ◌+◌, ◌^◌, ◌-◌, ◌<◌, ◌≡◌, true, false, ◌⊎◌, arith}
use gts.Base.Result.{ok}
use gts.Base.Int.{ℤ, pos, negsuc, ◌≤ℤ◌}
use gts.Stack.Order.{length-insert, detach-length}
use gts.Stack.Refresh.{refresh-length}
use gts.Pool.{
  GPool, GoWorker, new_pool, empty_pool, submit, retrieve, park, spawn, wake, complete, panic,
  revert, put_back, exit, retire, send_signal, send_broadcast, finish_purge, reboot, tune, purge,
}
use gts.Pool.Steps.{
  Event, Reaches, here, next, is_enabled, step, submits, retrieves, parks, spawns, wakes, completes,
  panics, reverts, exits, releases, finishes_release, reboots, puts_back, tunes, purges, retires,
  sends_signal, sends_broadcast, finishes_purge,
}
use gts.Pool.Counted.{new_pool-Counted, Counted, FitsInt32, step-Counted}

-- The events of a pool that nobody releases.
abbrev pub StaysOpen : GPool → Event → Type 0
StaysOpen p releases = ⊥
StaysOpen p (tunes size) = size ≤ℤ pos (2 ^ 31 - 1)
StaysOpen p _ = Unit

-- Submitters on their way, workers that are not idle, and others about to wake submitters.
abbrev pub active : GPool → ℕ
active p =
    p.woken + p.spawning + p.busy + p.returning + p.inserting + p.retiring + p.exiting
    + p.signalling + p.broadcasting

pub record Awake (p : GPool) : Type 0 where
  pub is_open : p.closed ≡ false
  pub unreleased : p.releasing ≡ 0
  pub awake : 0 < p.blocked → (0 < active p) ⊎ (p.running ≡ 0)

module _ (p : GPool) (c : Counted p) (a : Awake p) where
  submit-Awake : Awake (submit p)
  unfolding submit
  submit-Awake = ground arith

  retrieve-Awake : is_enabled p retrieves ≡ true → Awake (retrieve p)
  unfolding retrieve is_enabled
  retrieve-Awake h = ground (arith, detach-length p.workers)

  park-Awake : is_enabled p parks ≡ true → Awake (park p)
  unfolding park is_enabled
  park-Awake h = ground arith

  spawn-Awake : is_enabled p spawns ≡ true → Awake (spawn p)
  unfolding spawn is_enabled
  spawn-Awake h = ground arith

  wake-Awake : is_enabled p wakes ≡ true → Awake (wake p)
  unfolding wake is_enabled
  wake-Awake h = ground (arith, detach-length p.workers)

  complete-Awake : is_enabled p completes ≡ true → Awake (complete p)
  unfolding complete is_enabled
  complete-Awake h = ground arith

  panic-Awake : is_enabled p panics ≡ true → Awake (panic p)
  unfolding panic is_enabled
  panic-Awake h = ground arith

  revert-Awake : is_enabled p reverts ≡ true → Awake (revert p)
  unfolding revert is_enabled
  revert-Awake h = ground arith

  exit-Awake : is_enabled p exits ≡ true → Awake (exit p)
  unfolding exit is_enabled
  exit-Awake h = ground arith

  retire-Awake : is_enabled p retires ≡ true → Awake (retire p)
  unfolding retire is_enabled
  retire-Awake h = ground arith

  send_signal-Awake : is_enabled p sends_signal ≡ true → Awake (send_signal p)
  unfolding send_signal is_enabled
  send_signal-Awake h = ground arith

  send_broadcast-Awake : is_enabled p sends_broadcast ≡ true → Awake (send_broadcast p)
  unfolding send_broadcast is_enabled
  send_broadcast-Awake h = ground arith

  finish_purge-Awake : Awake (finish_purge p)
  unfolding finish_purge
  finish_purge-Awake = ground arith

  reboot-Awake : Awake (reboot p)
  unfolding reboot
  reboot-Awake = ground arith

  put_back-Awake : (now : ℕ) → is_enabled p (puts_back now) ≡ true → Awake (put_back now p)
  unfolding put_back is_enabled
  put_back-Awake now h = ground (arith, length-insert (record { last_used = now }) p.workers)

  tune-Awake : (size : ℤ) → Awake (tune size p)
  unfolding tune
  tune-Awake (negsuc n) = a
  tune-Awake (pos n) = ground arith

  purge-Awake :
      (duration now : ℕ) → is_enabled p (purges duration now) ≡ true → Awake (purge duration now p)
  unfolding purge is_enabled
  purge-Awake duration now h =
      ground (arith, refresh-length (λ (w : GoWorker). w.last_used) duration now p.workers)

  step-Awake : (e : Event) → is_enabled p e ≡ true → StaysOpen p e → Awake (step p e)
  unfolding step
  step-Awake submits h f = submit-Awake
  step-Awake retrieves h f = retrieve-Awake h
  step-Awake parks h f = park-Awake h
  step-Awake spawns h f = spawn-Awake h
  step-Awake wakes h f = wake-Awake h
  step-Awake completes h f = complete-Awake h
  step-Awake panics h f = panic-Awake h
  step-Awake reverts h f = revert-Awake h
  step-Awake exits h f = exit-Awake h
  step-Awake retires h f = retire-Awake h
  step-Awake sends_signal h f = send_signal-Awake h
  step-Awake sends_broadcast h f = send_broadcast-Awake h
  step-Awake finishes_purge h f = finish_purge-Awake
  step-Awake releases h f = elim f [ ]
  step-Awake finishes_release h f = absurd (unfold is_enabled in ground (arith, a.unreleased))
  step-Awake reboots h f = reboot-Awake
  step-Awake (puts_back now) h f = put_back-Awake now h
  step-Awake (tunes size) h f = tune-Awake size
  step-Awake (purges duration now) h f = purge-Awake duration now h

FitsInt32-of_StaysOpen : (p : GPool) (e : Event) → StaysOpen p e → FitsInt32 p e
FitsInt32-of_StaysOpen p (tunes size) f = f
FitsInt32-of_StaysOpen p releases f = tt
FitsInt32-of_StaysOpen p _ f = tt

pub Reaches-Awake :
    {p q : GPool} → Counted p → Awake p → Reaches StaysOpen p q → Counted q × Awake q
Reaches-Awake c a here = (c, a)
Reaches-Awake c a (next {q = q} e r h f) =
    let (d, b) = Reaches-Awake c a r in
    (step-Counted q e d h (FitsInt32-of_StaysOpen q e f), step-Awake q d b e h f)

pub new_pool-Awake : (n : ℕ) (p : GPool) → new_pool (pos n) ≡ ok p → Awake p
unfolding new_pool empty_pool
new_pool-Awake n p e = ground arith

-- While nobody releases a new pool, a submitter in `cond.Wait` is never left to itself: another
-- submitter, a worker or a call that will wake one is still on its way, or no worker runs at all. Sizes are
-- positive `int32` values; those of `Tune` may be 0 or less.
pub new_pool-Reaches-Awake :
    (n : ℕ) {p q : GPool}
    → 0 < n
    → n < 2 ^ 31
    → new_pool (pos n) ≡ ok p
    → Reaches StaysOpen p q
    → Awake q
new_pool-Reaches-Awake n {p} h k e r =
    (Reaches-Awake (new_pool-Counted n p h k e) (new_pool-Awake n p e) r).1

-- In an open pool with no running worker and with waiters, a round of the purge wakes all of them.
pub purge_wakes :
    (duration now : ℕ) (p : GPool)
    → p.closed ≡ false
    → p.running ≡ 0
    → 0 < p.blocked
    → ((finish_purge (purge duration now p)).blocked ≡ 0)
      × ((finish_purge (purge duration now p)).woken ≡ p.woken + p.blocked)
unfolding purge finish_purge
purge_wakes duration now p o r h =
    ground (arith, refresh-length (λ (w : GoWorker). w.last_used) duration now p.workers)
