-- ===== src/Pool/Bound.antt =====
-- How far the number of running workers of pool/gpool.go may pass the capacity: the test of
-- `retrieveWorker` and the count in `run` of pool/worker.go are not one step.
use gts.Base.{ℕ, suc, ◌+◌, ◌^◌, ◌≤◌, ◌<◌, ◌≡◌, true, arith}
use gts.Base.Int.{pos}
use gts.Base.Result.{ok}
use gts.Stack.Order.{detach-length}
use gts.Stack.Refresh.{refresh-length}
use gts.Pool.{
  GPool, GoWorker, new_pool, empty_pool, submit, retrieve, park, spawn, wake, complete, panic,
  revert, put_back, exit, release, finish_release, retire, send_signal, send_broadcast,
  finish_purge, reboot, purge,
}
use gts.Pool.Steps.{
  Event, Reaches, here, next, is_enabled, step, submits, retrieves, parks, spawns, wakes, completes,
  panics, reverts, exits, releases, finishes_release, reboots, puts_back, tunes, purges, retires,
  sends_signal, sends_broadcast, finishes_purge,
}

-- The calls of `Submit` that are under way.
abbrev pub crowd : GPool → ℕ
crowd p = p.entering + p.spawning + p.parking + p.blocked + p.woken

-- No more than `k` calls of `Submit` are under way after the event, which is no call of `Tune`.
abbrev pub Crowded : ℕ → GPool → Event → Type 0
Crowded k p (tunes size) = ⊥
Crowded k p e = crowd (step p e) ≤ k

pub record Bounded (k c : ℕ) (p : GPool) : Type 0 where
  pub capacity : p.cap ≡ pos c
  pub load : suc (p.running + p.spawning) ≤ c + k

module _ (k c : ℕ) (p : GPool) (b : Bounded k c p) where
  step-Bounded : (e : Event) → is_enabled p e ≡ true → Crowded k p e → Bounded k c (step p e)
  unfolding step retire send_signal send_broadcast finish_purge submit retrieve park spawn wake
      complete panic revert exit release finish_release reboot put_back purge is_enabled
  step-Bounded submits h f = ground arith
  step-Bounded retrieves h f = ground (arith, detach-length p.workers)
  step-Bounded parks h f = ground arith
  step-Bounded spawns h f = ground arith
  step-Bounded wakes h f = ground (arith, detach-length p.workers)
  step-Bounded completes h f = ground arith
  step-Bounded panics h f = ground arith
  step-Bounded reverts h f = ground arith
  step-Bounded exits h f = ground arith
  step-Bounded retires h f = ground arith
  step-Bounded sends_signal h f = ground arith
  step-Bounded sends_broadcast h f = ground arith
  step-Bounded finishes_purge h f = ground arith
  step-Bounded releases h f = ground arith
  step-Bounded finishes_release h f = ground arith
  step-Bounded reboots h f = ground arith
  step-Bounded (puts_back now) h f = ground arith
  step-Bounded (tunes size) h f = elim f [ ]
  step-Bounded (purges duration now) h f =
      ground (arith, refresh-length (λ (w : GoWorker). w.last_used) duration now p.workers)

pub Reaches-Bounded :
    (k c : ℕ) {p q : GPool} → Bounded k c p → Reaches (Crowded k) p q → Bounded k c q
Reaches-Bounded k c b here = b
Reaches-Bounded k c b (next {q = q} e r h f) = step-Bounded k c q (Reaches-Bounded k c b r) e h f

new_pool-Bounded :
    (k c : ℕ) (p : GPool) → 0 < k → c < 2 ^ 31 → 0 < c → new_pool (pos c) ≡ ok p → Bounded k c p
unfolding new_pool empty_pool
new_pool-Bounded k c p h i j e = ground arith

-- With at most `k` calls of `Submit` under way at any time, and no call of `Tune`, a new pool never
-- has more running workers than its capacity and `k - 1` together: with one submitter, at most its
-- capacity.
pub new_pool-Reaches-bound :
    (k c : ℕ) {p q : GPool}
    → 0 < k
    → 0 < c
    → c < 2 ^ 31
    → new_pool (pos c) ≡ ok p
    → Reaches (Crowded k) p q
    → q.running < c + k
new_pool-Reaches-bound k c {p} h j i e r =
    let b = Reaches-Bounded k c (new_pool-Bounded k c p h i j e) r in omega (arith, b.load)
