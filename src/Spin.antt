-- ===== src/Spin.antt =====
-- pool/spinLock.go: the lock of the pools, and the backoff of a goroutine that waits for it.
mod Tests
use gts.Base.{
  ℕ, zero, suc, leb, ap, ◌^◌, ◌+◌, ◌-◌, ◌*◌, ◌≤◌, ◌<◌, ◌≡◌, ◌⊎◌, refl, inl, inr, Bool, true, false,
  not, ◌&&◌, Option, none, some, List, [], ◌∷◌, ltb, ◌==◌, if◌then◌else◌, arith,
}

abbrev pub max_backoff : ℕ
max_backoff = 16

-- The word of the lock, and the number of goroutines between `Lock` and `Unlock`.
pub record Spin : Type 0 where
  pub word : ℕ
  pub holders : ℕ

unfoldable pub new_spin_lock : Spin
new_spin_lock = record { word = 0; holders = 0 }

-- `CompareAndSwapUint32(sl, 0, 1)` by a goroutine in `Lock`, and whether it ends the loop.
unfoldable pub try_lock : Spin → Bool × Spin
try_lock s =
    if s.word == 0 then (true, record { word = 1; holders = s.holders + 1 }) else (false, s)

-- `Unlock` by a goroutine that holds the lock.
unfoldable pub unlock : Spin → Spin
unlock s = record { word = 0; holders = s.holders - 1 }

-- The backoff after a failed attempt.
unfoldable pub next_backoff : ℕ → ℕ
next_backoff backoff = if ltb backoff max_backoff then backoff * 2 else backoff

-- How often `Lock` calls `Gosched`, given what its attempts came to; `none` while all have failed.
unfoldable pub yields : ℕ → List Bool → Option ℕ
unfolding next_backoff
yields backoff [] = none
yields backoff (true ∷ _) = some 0
yields backoff (false ∷ attempts) = elim (yields (next_backoff backoff) attempts) [
  | none ↦ none
  | some n ↦ some (backoff + n)
]

pub data Event : Type 0 where
  tries unlocks : Event

-- An interleaving; a goroutine without the lock does not call `Unlock`.
unfoldable pub step : Spin → Event → Spin
unfolding try_lock unlock
step s tries = (try_lock s).1
step s unlocks = if s.holders == 0 then s else unlock s

unfoldable pub run : Spin → List Event → Spin
unfolding step
run s [] = s
run s (e ∷ es) = run (step s e) es

-- The lock is free and nobody holds it, or it is taken and exactly one goroutine holds it.
abbrev pub Exclusive : Spin → Type 0
Exclusive s = ((s.word ≡ 0) × (s.holders ≡ 0)) ⊎ ((s.word ≡ 1) × (s.holders ≡ 1))

step-Exclusive : (s : Spin) (e : Event) → Exclusive s → Exclusive (step s e)
unfolding step try_lock unlock
step-Exclusive s tries x = ground arith
step-Exclusive s unlocks x = ground arith

run-Exclusive_from : (s : Spin) (es : List Event) → Exclusive s → Exclusive (run s es)
unfolding run
run-Exclusive_from s [] x = x
run-Exclusive_from s (e ∷ es) x = run-Exclusive_from (step s e) es (step-Exclusive s e x)

-- In every interleaving of attempts and unlocks from a new lock, at most one goroutine holds it, and
-- its word says whether one does.
pub run-Exclusive : (es : List Event) → Exclusive (run new_spin_lock es)
unfolding new_spin_lock
run-Exclusive es = run-Exclusive_from new_spin_lock es (inl (refl, refl))

-- As many failed attempts, then the others.
abbrev pub fails : ℕ → List Bool → List Bool
fails zero rest = rest
fails (suc n) rest = false ∷ fails n rest

-- One, two, four and eight yields behind the first four failures, sixteen behind each further one.
abbrev pub total_yields : ℕ → ℕ
total_yields n = if leb n 4 then 2 ^ n - 1 else 16 * n - 49

yields-capped : (n : ℕ) (rest : List Bool) → yields 16 (fails n (true ∷ rest)) ≡ some (16 * n)
unfolding yields next_backoff
yields-capped zero rest = refl
yields-capped (suc n) rest = rw (yields-capped n rest) (ap (λ (k : ℕ). some k) (omega arith))

-- `Lock` ends with the first attempt that succeeds: after `n` failures it has called `Gosched` exactly
-- 2 ^ n - 1 times where `n` is at most 4, and 16 times more for each failure beyond.
pub yields_lem :
    (n : ℕ) (rest : List Bool) → yields 1 (fails n (true ∷ rest)) ≡ some (total_yields n)
unfolding yields next_backoff
yields_lem zero rest = refl
yields_lem (suc zero) rest = refl
yields_lem (suc (suc zero)) rest = refl
yields_lem (suc (suc (suc zero))) rest = refl
yields_lem (suc (suc (suc (suc n)))) rest =
    rw (yields-capped n rest) (ap (λ (k : ℕ). some k) (ground arith))
