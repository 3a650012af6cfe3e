-- ===== src/FuncPool/Refine.antt =====
-- Each run of pool/gpool_with_func.go is a run of pool/gpool.go with the arguments forgotten.
use gts.Base.{
  ℕ, zero, suc, ◌<◌, ◌≡◌, refl, sym, ap, subst, Bool, true, false, Option, none, some, List, [],
  ◌∷◌, arith, length, ltb, count, ◌+◌, if◌then◌else◌,
}
use gts.Base.Int.{ℤ}
use gts.Base.Result.{ok}
use gts.Pool
use gts.Pool.{GPool}
use gts.Pool.Steps
use gts.FuncPool.{
  GPoolWithFunc, empty_pool, new_pool_with_func, retrieve, park, spawn, wake, work, reboot,
}
use gts.FuncPool.Steps.{
  Event, Reaches, here, next, is_enabled, step, take_at, at_place, invokes, retrieves, parks,
  spawns, wakes, works, reverts, exits, releases, finishes_release, reboots, puts_back, tunes,
  purges, retires, sends_signal, sends_broadcast, finishes_purge,
}
use gts.FuncPool.Forget.{
  forget, invoke-forget, retrieve-forget, park-forget, spawn-forget, wake-forget, work_event,
  work-forget, revert-forget, put_back-forget, exit-forget, retire-forget, send_signal-forget,
  send_broadcast-forget, finish_purge-forget, release-forget, finish_release-forget, tune-forget,
  purge-forget,
}

-- What a place of a list holds, and what `at_place` does with it.
pub record Placed {ℓ} {B : Type ℓ} (i : ℕ) (xs : List B) : Type ℓ where
  pub taken : B
  pub others : List B
  pub found : take_at i xs ≡ some (taken, others)
  pub counted : length xs ≡ suc (length others)
  pub weighed :
      (test : B → Bool) → count test xs ≡ (if test taken then 1 else 0) + count test others

module _ {ℓ} {B : Type ℓ} where
  take_at_suc : (i : ℕ) (x : B) (xs : List B) → Placed i xs → Placed (suc i) (x ∷ xs)
  unfolding take_at
  take_at_suc i x xs p = record {
    taken = p.taken;
    others = x ∷ p.others;
    found = rw (take_at, p.found) refl;
    counted = ap suc p.counted;
    weighed = λ test. omega (arith, p.weighed test);
  }

  pub take_at-Placed : (i : ℕ) (xs : List B) → ltb i (length xs) ≡ true → Placed i xs
  unfolding take_at
  take_at-Placed i [] h = absurd (ground arith)
  take_at-Placed zero (x ∷ xs) h = record {
    taken = x;
    others = xs;
    found = refl;
    counted = refl;
    weighed = λ test. refl;
  }
  take_at-Placed (suc i) (x ∷ xs) h = take_at_suc i x xs (take_at-Placed i xs (ground arith))

  pub at_place-eq {κ} :
      {S : Type κ} (i : ℕ) (xs : List B) (act : B → List B → S → S) (s : S) (p : Placed i xs)
      → at_place i xs act s ≡ act p.taken p.others s
  unfolding at_place
  at_place-eq i xs act s p = rw (at_place, p.found) refl

-- The event of pool/gpool.go.
abbrev pub erase_work {ℓ} : {A : Type ℓ} → Bool → Option (Option A × List (Option A)) → Steps.Event
erase_work panics none = Steps.completes
erase_work panics (some (arg, others)) = work_event panics arg

abbrev pub erase {ℓ} : {A : Type ℓ} → GPoolWithFunc A → Event A → Steps.Event
erase p (invokes arg) = Steps.submits
erase p (retrieves i) = Steps.retrieves
erase p (parks i) = Steps.parks
erase p (spawns i) = Steps.spawns
erase p (wakes i) = Steps.wakes
erase p (works panics i) = erase_work panics (take_at i p.busy)
erase p reverts = Steps.reverts
erase p exits = Steps.exits
erase p retires = Steps.retires
erase p sends_signal = Steps.sends_signal
erase p sends_broadcast = Steps.sends_broadcast
erase p finishes_purge = Steps.finishes_purge
erase p releases = Steps.releases
erase p finishes_release = Steps.finishes_release
erase p reboots = Steps.reboots
erase p (puts_back now) = Steps.puts_back now
erase p (tunes size) = Steps.tunes size
erase p (purges duration now) = Steps.purges duration now

-- A step and the step of the pool without arguments that it stands for.
abbrev pub Simulates {ℓ} : {A : Type ℓ} → GPoolWithFunc A → Event A → Type 0
Simulates p e =
    (Steps.is_enabled (forget p) (erase p e) ≡ true)
    × (forget (step p e) ≡ Steps.step (forget p) (erase p e))

module _ {ℓ} {A : Type ℓ} where
  enabled_work :
      (g : GPool) (panics : Bool) (arg : Option A)
      → 0 < g.busy
      → Steps.is_enabled g (work_event panics arg) ≡ true
  unfolding Steps.is_enabled
  enabled_work g panics none h = ground arith
  enabled_work g true (some a) h = ground arith
  enabled_work g false (some a) h = ground arith

  works-Simulates :
      (p : GPoolWithFunc A) (panics : Bool) (i : ℕ)
      → is_enabled p (works panics i) ≡ true
      → Simulates p (works panics i)
  unfolding is_enabled step
  works-Simulates p panics i h =
      let t = take_at-Placed i p.busy h in
      rw (t.found, at_place-eq i p.busy (work panics) p t)
        (
          enabled_work (forget p) panics t.taken (omega (arith, t.counted)),
          work-forget p panics t.taken t.others t.counted,
        )

  -- Each step of the pool with one function is the step of pool/gpool.go that it stands for.
  pub step-Simulates : (p : GPoolWithFunc A) (e : Event A) → is_enabled p e ≡ true → Simulates p e
  unfolding is_enabled step Steps.is_enabled Steps.step
  step-Simulates p (invokes arg) h = (refl, invoke-forget p arg)
  step-Simulates p (retrieves i) h =
      let t = take_at-Placed i p.entering (ground arith) in
      (
        ground arith,
        rw (at_place-eq i p.entering retrieve p t) (retrieve-forget p t.taken t.others t.counted),
      )
  step-Simulates p (parks i) h =
      let t = take_at-Placed i p.parking h in
      (
        ground arith,
        rw (at_place-eq i p.parking park p t) (park-forget p t.taken t.others t.counted),
      )
  step-Simulates p (spawns i) h =
      let t = take_at-Placed i p.spawning h in
      (
        ground arith,
        rw (at_place-eq i p.spawning spawn p t) (spawn-forget p t.taken t.others t.counted),
      )
  step-Simulates p (wakes i) h =
      let t = take_at-Placed i p.woken (ground arith) in
      (ground arith, rw (at_place-eq i p.woken wake p t) (wake-forget p t.taken t.others t.counted))
  step-Simulates p (works panics i) h = works-Simulates p panics i h
  step-Simulates p reverts h = (h, revert-forget p)
  step-Simulates p exits h = (h, exit-forget p)
  step-Simulates p retires h = (h, retire-forget p)
  step-Simulates p sends_signal h = (h, send_signal-forget p)
  step-Simulates p sends_broadcast h = (h, send_broadcast-forget p)
  step-Simulates p finishes_purge h = (h, finish_purge-forget p)
  step-Simulates p releases h = (refl, release-forget p)
  step-Simulates p finishes_release h = (h, finish_release-forget p)
  step-Simulates p reboots h = unfold reboot Pool.reboot in (refl, refl)
  step-Simulates p (puts_back now) h = (h, put_back-forget p now)
  step-Simulates p (tunes size) h = (refl, tune-forget p size)
  step-Simulates p (purges duration now) h = (h, purge-forget p duration now)

  Reaches-forget {κ} :
      {Allowed : GPool → Steps.Event → Type κ} {p q : GPoolWithFunc A}
      → Reaches (λ r e. Allowed (forget r) (erase r e)) p q
      → Steps.Reaches Allowed (forget p) (forget q)
  Reaches-forget here = Steps.here
  Reaches-forget {Allowed = Allowed} {p = p} (next {q = q} e r h a) =
      let (enabled, stepped) = step-Simulates q e h in
      subst (λ g. Steps.Reaches Allowed (forget p) g) (sym stepped)
        (Steps.next (erase q e) (Reaches-forget r) enabled a)

  -- Each interleaving of calls on a new pool with one function is, with the arguments forgotten and
  -- counted, an interleaving of calls on the new pool of pool/gpool.go of the same size, with the
  -- same kind of events allowed.
  pub new_pool_with_func-Reaches-forget {κ} :
      (size : ℤ) {Allowed : GPool → Steps.Event → Type κ} {p q : GPoolWithFunc A}
      → new_pool_with_func size ≡ ok p
      → Reaches (λ r e. Allowed (forget r) (erase r e)) p q
      → (Pool.new_pool size ≡ ok (forget p)) × Steps.Reaches Allowed (forget p) (forget q)
  unfolding new_pool_with_func empty_pool Pool.new_pool Pool.empty_pool
  new_pool_with_func-Reaches-forget size e r = (ground arith, Reaches-forget r)
