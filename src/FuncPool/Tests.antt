-- ===== src/FuncPool/Tests.antt =====
-- A pool of pool/gpool_with_func.go with one worker and one argument.
use gts.Base.{ℕ, ◌==◌, ◌+◌, ◌≡◌, refl, Bool, false, Option, none, some, [], ◌∷◌, arith, count}
use gts.Base.Result.{ok}
use gts.Base.Int.{pos}
use gts.Pool
use gts.Pool.Steps
use gts.Pool.Awake.{StaysOpen}
use gts.FuncPool.{GPoolWithFunc, empty_pool, new_pool_with_func}
use gts.FuncPool.Steps.{
  Event, Reaches, here, next, is_enabled, step, invokes, retrieves, spawns, works, reverts,
  puts_back,
}
use gts.FuncPool.Forget.{forget}
use gts.FuncPool.Refine.{new_pool_with_func-Reaches-forget}
use gts.FuncPool.Conserve.{Conserved, new_pool_with_func-Reaches-Conserved}
use gts.FuncPool.Quiet.{IsKept, Quiet, new_pool_with_func-Reaches-Quiet}

abbrev small : GPoolWithFunc ℕ
small = record {
  cap = pos 1;
  running = 0;
  closed = false;
  workers = record { items = []; expiry = [] };
  parking = [];
  blocked = [];
  woken = [];
  entering = [];
  spawning = [];
  busy = [];
  returning = 0;
  inserting = 0;
  exiting = 0;
  retiring = 0;
  signalling = 0;
  broadcasting = 0;
  dormant = 0;
  releasing = 0;
  invoked = [];
  rejected = [];
  handled = [];
  ended = 0;
}

new_small : new_pool_with_func (pos 1) ≡ ok small
unfolding new_pool_with_func empty_pool
new_small = refl

abbrev arg : Option ℕ
arg = some 7

abbrev entered : GPoolWithFunc ℕ
entered = record small { invoked = arg ∷ []; entering = arg ∷ [] }

abbrev spawning_one : GPoolWithFunc ℕ
spawning_one = record entered { entering = []; spawning = arg ∷ [] }

abbrev working : GPoolWithFunc ℕ
working = record spawning_one { spawning = []; running = 1; busy = arg ∷ [] }

abbrev worked : GPoolWithFunc ℕ
worked = record working { busy = []; returning = 1; handled = 7 ∷ [] }

abbrev reverting : GPoolWithFunc ℕ
reverting = record worked { returning = 0; inserting = 1 }

-- The worker waits on the stack since the time 5.
abbrev rested : GPoolWithFunc ℕ
rested = record reverting {
  inserting = 0;
  workers = record { items = record { last_used = 5 } ∷ []; expiry = [] };
}

rested_reach : Reaches IsKept small rested
unfolding step is_enabled gts.FuncPool.invoke gts.FuncPool.retrieve gts.FuncPool.may_spawn
    gts.FuncPool.spawn gts.FuncPool.work gts.FuncPool.revert gts.FuncPool.is_surplus
    gts.FuncPool.put_back gts.FuncPool.signal gts.FuncPool.Steps.at_place gts.FuncPool.Steps.take_at
    gts.Stack.detach gts.Stack.detach_items gts.Stack.insert
rested_reach =
    next {q = reverting} (puts_back 5)
      (next {q = worked} reverts
        (next {q = working} (works false 0)
          (next {q = spawning_one} (spawns 0)
            (next {q = entered} (retrieves 0) (next {q = small} (invokes arg) here refl tt) refl tt)
            refl tt)
          refl tt)
        refl tt)
      refl tt

rested-Quiet : Quiet rested
rested-Quiet = record {
  entering = refl;
  parking = refl;
  woken = refl;
  spawning = refl;
  busy = refl;
  returning = refl;
  inserting = refl;
  exiting = refl;
  retiring = refl;
  signalling = refl;
  broadcasting = refl;
}

new_pool_with_func-Reaches-forget_example :
    (Pool.new_pool (pos 1) ≡ ok (forget small))
    × Steps.Reaches StaysOpen (forget small) (forget rested)
new_pool_with_func-Reaches-forget_example =
    new_pool_with_func-Reaches-forget (pos 1) {Allowed = StaysOpen} new_small rested_reach

abbrev is_seven : Option ℕ → Bool
is_seven none = false
is_seven (some n) = n == 7

new_pool_with_func-Reaches-Conserved_example : Conserved is_seven rested
new_pool_with_func-Reaches-Conserved_example =
    new_pool_with_func-Reaches-Conserved is_seven (pos 1) new_small rested_reach

new_pool_with_func-Reaches-Quiet_example :
    (count is_seven rested.invoked ≡ count (λ a. is_seven (some a)) rested.handled + 0)
    × (rested.blocked ≡ [])
new_pool_with_func-Reaches-Quiet_example =
    new_pool_with_func-Reaches-Quiet is_seven 1 (omega arith) (omega arith) new_small rested_reach
      rested-Quiet (omega arith)
