-- ===== src/Pool/Tests.antt =====
-- Interleavings of pool/gpool.go at concrete pools.
use gts.Base.{◌+◌, ◌<◌, ◌≡◌, refl, true, false, some, List, [], ◌∷◌, arith}
use gts.Base.Result.{ok}
use gts.Base.Int.{pos}
use gts.Pool.{GPool, GoWorker, empty_pool, new_pool, purge}
use gts.Pool.Steps.{
  Event, retires, sends_signal, sends_broadcast, submits, retrieves, parks, spawns, completes,
  reverts, exits, releases, finishes_release, Reaches, here, next, is_enabled, step, run,
}
use gts.Pool.Counted.{Counted, FitsInt32, new_pool-Reaches-Counted}
use gts.Pool.Awake.{StaysOpen, Awake, new_pool-Reaches-Awake}
use gts.Pool.Bound.{Crowded, new_pool-Reaches-bound}
use gts.Pool.Overshoot.{Ready}
use gts.Pool.Stuck.{Unrescued, Stranded}

abbrev small_pool : GPool
small_pool = record {
  cap = pos 1;
  running = 0;
  closed = false;
  workers = record { items = []; expiry = [] };
  parking = 0;
  blocked = 0;
  woken = 0;
  entering = 0;
  spawning = 0;
  busy = 0;
  returning = 0;
  inserting = 0;
  exiting = 0;
  retiring = 0;
  signalling = 0;
  broadcasting = 0;
  dormant = 0;
  releasing = 0;
  submitted = 0;
  rejected = 0;
  done = 0;
}

-- The pool after its first task was handed to a new worker.
abbrev busy_pool : GPool
busy_pool = record small_pool { running = 1; busy = 1; submitted = 1 }

abbrev entered_pool : GPool
entered_pool = record small_pool { entering = 1; submitted = 1 }

abbrev spawning_pool : GPool
spawning_pool = record small_pool { spawning = 1; submitted = 1 }

counted_reach : Reaches FitsInt32 small_pool busy_pool
unfolding step is_enabled gts.Pool.submit gts.Pool.retrieve gts.Pool.spawn gts.Stack.detach
    gts.Stack.detach_items
counted_reach =
    next {q = spawning_pool} spawns
      (next {q = entered_pool} retrieves (next {q = small_pool} submits here refl tt) refl tt) refl
      tt

new_small_pool : new_pool (pos 1) ≡ ok small_pool
unfolding new_pool empty_pool
new_small_pool = refl

new_pool-Reaches-Counted_example : Counted busy_pool
new_pool-Reaches-Counted_example =
    new_pool-Reaches-Counted 1 (omega arith) (omega arith) new_small_pool counted_reach

-- The second submitter finds no worker idle and no room, and waits.
abbrev entered_busy : GPool
entered_busy = record busy_pool { entering = 1; submitted = 2 }

abbrev parked_busy : GPool
parked_busy = record busy_pool { parking = 1; submitted = 2 }

abbrev blocked_busy : GPool
blocked_busy = record busy_pool { blocked = 1; submitted = 2 }

awake_reach : Reaches StaysOpen small_pool blocked_busy
unfolding step is_enabled gts.Pool.submit gts.Pool.retrieve gts.Pool.may_spawn gts.Pool.spawn
    gts.Pool.park gts.Stack.detach gts.Stack.detach_items
awake_reach =
    next {q = parked_busy} parks
      (next {q = entered_busy} retrieves
        (next {q = busy_pool} submits
          (next {q = spawning_pool} spawns
            (next {q = entered_pool} retrieves (next {q = small_pool} submits here refl tt) refl tt)
            refl tt)
          refl tt)
        refl tt)
      refl tt

new_pool-Reaches-Awake_example : Awake blocked_busy
new_pool-Reaches-Awake_example =
    new_pool-Reaches-Awake 1 (omega arith) (omega arith) new_small_pool awake_reach

Crowded-reach : Reaches (Crowded 1) small_pool blocked_busy
unfolding step is_enabled gts.Pool.submit gts.Pool.retrieve gts.Pool.may_spawn gts.Pool.spawn
    gts.Pool.park gts.Stack.detach gts.Stack.detach_items
Crowded-reach =
    next {q = parked_busy} parks
      (next {q = entered_busy} retrieves
        (next {q = busy_pool} submits
          (next {q = spawning_pool} spawns
            (next {q = entered_pool} retrieves
              (next {q = small_pool} submits here refl (omega arith)) refl (omega arith))
            refl (omega arith))
          refl (omega arith))
        refl (omega arith))
      refl (omega arith)

new_pool-Reaches-bound_example : blocked_busy.running < 1 + 1
new_pool-Reaches-bound_example =
    new_pool-Reaches-bound 1 1 (omega arith) (omega arith) (omega arith) new_small_pool
      Crowded-reach

small_pool-Ready : Ready small_pool
small_pool-Ready = record {
  is_open = refl;
  unlocked = refl;
  none_idle = refl;
  limit = 1;
  capacity = refl;
  room = omega arith;
}

-- The second task is submitted while the first one runs, and meets a full pool; the pool is
-- released and the worker leaves before the submitter has joined the waiters.
abbrev race : List Event
race =
    submits ∷ retrieves ∷ spawns ∷ submits ∷ releases ∷ finishes_release ∷ sends_broadcast
    ∷ retrieves ∷ completes ∷ reverts ∷ retires ∷ exits ∷ sends_signal ∷ parks ∷ []

abbrev stranded_pool : GPool
stranded_pool = record small_pool { closed = true; blocked = 1; submitted = 2; done = 1 }

race_strands : run small_pool race ≡ some stranded_pool
unfolding run step is_enabled gts.Pool.submit gts.Pool.retrieve gts.Pool.may_spawn gts.Pool.spawn
    gts.Pool.park gts.Pool.release gts.Pool.finish_release gts.Pool.complete gts.Pool.revert
    gts.Pool.exit gts.Pool.retire gts.Pool.send_signal gts.Pool.send_broadcast gts.Pool.signal
    gts.Pool.broadcast gts.Pool.is_surplus gts.Stack.reset gts.Stack.detach gts.Stack.detach_items
race_strands = refl

stranded_pool-Stranded : Stranded 1 stranded_pool
stranded_pool-Stranded = record { is_closed = refl; waiters = refl; nobody = omega arith }

rejected_later :
    Reaches Unrescued stranded_pool (record stranded_pool { submitted = 3; rejected = 1 })
unfolding step is_enabled gts.Pool.submit
rejected_later = next {q = stranded_pool} submits here refl tt
