-- ===== src/FuncPool/Steps.antt =====
-- The interleavings of pool/gpool_with_func.go and pool/worker_with_func.go.
use gts.Base.{
  ℕ, zero, suc, ◌≡◌, Bool, true, ◌&&◌, Option, none, some, List, [], ◌∷◌, ltb, ◌==◌, length,
}
use gts.Base.Int.{ℤ}
use gts.FuncPool.{
  GPoolWithFunc, invoke, retrieve, park, spawn, wake, work, revert, put_back, exit, release,
  finish_release, reboot, tune, purge, retire, send_signal, send_broadcast, finish_purge,
}

module _ {ℓ} {B : Type ℓ} where
  -- The element of a list at a place, with the others.
  unfoldable pub take_at : ℕ → List B → Option (B × List B)
  take_at i [] = none
  take_at zero (x ∷ xs) = some (x, xs)
  take_at (suc i) (x ∷ xs) = elim (take_at i xs) [
    | none ↦ none
    | some (y, others) ↦ some (y, x ∷ others)
  ]

  -- A step of the goroutine at a place.
  unfoldable pub at_place {κ} : {S : Type κ} → ℕ → List B → (B → List B → S → S) → S → S
  unfolding take_at
  at_place i xs act s = elim (take_at i xs) [ none ↦ s | some (x, others) ↦ act x others s ]

-- The numbers choose among the goroutines at one point of the code.
pub data Event {ℓ} (A : Type ℓ) : Type ℓ where
  invokes : Option A → Event A
  retrieves parks spawns wakes : ℕ → Event A
  -- With a panic of `poolFunc` or without one.
  works : Bool → ℕ → Event A
  reverts exits releases finishes_release reboots : Event A
  retires sends_signal sends_broadcast finishes_purge : Event A
  puts_back : ℕ → Event A
  tunes : ℤ → Event A
  purges : ℕ → ℕ → Event A

module _ {ℓ} {A : Type ℓ} where
  unfoldable pub is_enabled : GPoolWithFunc A → Event A → Bool
  is_enabled p (invokes arg) = true
  is_enabled p (retrieves i) = ltb i (length p.entering) && length p.parking == 0
  is_enabled p (parks i) = ltb i (length p.parking)
  is_enabled p (spawns i) = ltb i (length p.spawning)
  is_enabled p (wakes i) = ltb i (length p.woken) && length p.parking == 0
  is_enabled p (works panics i) = ltb i (length p.busy)
  is_enabled p reverts = ltb 0 p.returning
  is_enabled p exits = ltb 0 p.exiting
  is_enabled p releases = true
  is_enabled p finishes_release = ltb 0 p.releasing && length p.parking == 0
  is_enabled p reboots = true
  is_enabled p retires = ltb 0 p.retiring
  is_enabled p sends_signal = ltb 0 p.signalling
  is_enabled p sends_broadcast = ltb 0 p.broadcasting
  is_enabled p finishes_purge = ltb 0 p.dormant
  is_enabled p (puts_back now) = ltb 0 p.inserting && length p.parking == 0
  is_enabled p (tunes size) = true
  is_enabled p (purges duration now) = length p.parking == 0

  unfoldable pub step : GPoolWithFunc A → Event A → GPoolWithFunc A
  unfolding at_place
  step p (invokes arg) = invoke arg p
  step p (retrieves i) = at_place i p.entering retrieve p
  step p (parks i) = at_place i p.parking park p
  step p (spawns i) = at_place i p.spawning spawn p
  step p (wakes i) = at_place i p.woken wake p
  step p (works panics i) = at_place i p.busy (work panics) p
  step p reverts = revert p
  step p exits = exit p
  step p releases = release p
  step p finishes_release = finish_release p
  step p reboots = reboot p
  step p retires = retire p
  step p sends_signal = send_signal p
  step p sends_broadcast = send_broadcast p
  step p finishes_purge = finish_purge p
  step p (puts_back now) = put_back now p
  step p (tunes size) = tune size p
  step p (purges duration now) = purge duration now p

-- The pools that enabled events of a kind lead to.
pub data Reaches {ℓ κ} {A : Type ℓ} (Allowed : GPoolWithFunc A → Event A → Type κ)
    (p : GPoolWithFunc A) : GPoolWithFunc A → Type (ℓ ⊔ κ) where
  here : Reaches Allowed p p
  next :
      {q : GPoolWithFunc A} (e : Event A)
      → Reaches Allowed p q
      → is_enabled q e ≡ true
      → Allowed q e
      → Reaches Allowed p (step q e)
