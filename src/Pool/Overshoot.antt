-- ===== src/Pool/Overshoot.antt =====
-- Interleavings of pool/gpool.go in which calls of `Submit` overlap between the test in
-- `retrieveWorker` and the count in `run` of pool/worker.go.
use mathlib.Core.Path.{subst, ◌∙◌}
use gts.Base.{ℕ, zero, suc, ◌+◌, ◌-◌, ◌<◌, ◌≡◌, refl, false, arith, length}
use gts.Base.Int.{pos}
use gts.Stack.Order.{detach-length}
use gts.Pool.{GPool, submit, retrieve, spawn}
use gts.Pool.Steps.{Reaches, here, next, is_enabled, step, submits, retrieves, spawns}

-- An open pool below its capacity, with no worker idle and no submitter about to wait.
pub record Ready (p : GPool) : Type 0 where
  pub is_open : p.closed ≡ false
  pub unlocked : p.parking ≡ 0
  pub none_idle : length p.workers.items ≡ 0
  pub limit : ℕ
  pub capacity : p.cap ≡ pos limit
  pub room : p.running < limit

-- With no idle worker and room for one more, `retrieveWorker` goes on to spawn.
retrieve_passes :
    (q : GPool) (limit : ℕ)
    → length q.workers.items ≡ 0
    → q.cap ≡ pos limit
    → q.running < limit
    → retrieve q ≡ record q { entering = q.entering - 1; spawning = q.spawning + 1 }
unfolding retrieve
retrieve_passes q limit h c room = ground (arith, detach-length q.workers)

-- The pool `q` that `e` calls of `Submit` have entered from `p` on, `s` of them about to spawn,
-- and in which `r` workers were spawned; the last happens after the others.
pub record Wave (p q : GPool) (e s r : ℕ) : Type 0 where
  pub reached : Reaches (λ _ _. Unit {0}) p q
  pub ready_but_for_room :
      (q.closed ≡ false) × (q.parking ≡ 0) × (length q.workers.items ≡ 0) × (q.cap ≡ p.cap)
  pub entered : q.entering ≡ p.entering + e
  pub about : q.spawning ≡ p.spawning + s
  pub spawned : q.running ≡ p.running + r

module _ (p : GPool) (v : Ready p) where
  Wave-submits : (k : ℕ) → (q : GPool) × Wave p q k 0 0
  unfolding step submit is_enabled
  Wave-submits zero = (
    p,
    record {
      reached = here;
      ready_but_for_room = (v.is_open, v.unlocked, v.none_idle, refl);
      entered = omega arith;
      about = omega arith;
      spawned = omega arith;
    },
  )
  Wave-submits (suc k) =
      let (q, w) = Wave-submits k in
      (
        step q submits,
        record {
          reached = next submits w.reached refl tt;
          ready_but_for_room = ground (arith, w.ready_but_for_room);
          entered = ground (arith, w.entered, w.ready_but_for_room);
          about = ground (arith, w.about, w.ready_but_for_room);
          spawned = ground (arith, w.spawned, w.ready_but_for_room);
        },
      )

  Wave-retrieves : (s e : ℕ) → (q : GPool) × Wave p q e s 0
  unfolding step is_enabled
  Wave-retrieves zero e = Wave-submits e
  Wave-retrieves (suc s) e =
      let (q, w) = Wave-retrieves s (suc e) in
      let facts = w.ready_but_for_room in
      let passed : retrieve q ≡ record q { entering = q.entering - 1; spawning = q.spawning + 1 } =
        retrieve_passes q v.limit facts.2 (facts.3 ∙ v.capacity)
          (omega (arith, v.room, w.spawned)) in
      (
        record q { entering = q.entering - 1; spawning = q.spawning + 1 },
        record {
          reached =
              subst (Reaches (λ _ _. Unit {0}) p) passed
                (next retrieves w.reached (ground (arith, facts, w.entered)) tt);
          ready_but_for_room = facts;
          entered = omega (arith, w.entered);
          about = omega (arith, w.about);
          spawned = w.spawned;
        },
      )

  Wave-spawns : (r s : ℕ) → (q : GPool) × Wave p q 0 s r
  unfolding step spawn is_enabled
  Wave-spawns zero s = Wave-retrieves s 0
  Wave-spawns (suc r) s =
      let (q, w) = Wave-spawns r (suc s) in
      (
        step q spawns,
        record {
          reached = next spawns w.reached (ground (arith, w.about)) tt;
          ready_but_for_room = w.ready_but_for_room;
          entered = w.entered;
          about = omega (arith, w.about);
          spawned = omega (arith, w.spawned);
        },
      )

-- From any open pool below its capacity, with no idle worker and the lock free, any number of
-- overlapping calls of `Submit` can start as many workers, whatever the capacity is.
pub overshoot :
    (p : GPool) (k : ℕ)
    → Ready p
    → (q : GPool) × Reaches (λ _ _. Unit {0}) p q × (q.running ≡ p.running + k) × (q.cap ≡ p.cap)
overshoot p k v =
    let (q, w) = Wave-spawns p v k 0 in (q, w.reached, w.spawned, w.ready_but_for_room.3)
