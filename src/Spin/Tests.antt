-- ===== src/Spin/Tests.antt =====
-- Two goroutines at the lock of pool/spinLock.go.
use gts.Base.{[], ◌∷◌, ◌≡◌, true, some}
use gts.Spin.{
  yields, fails, yields_lem, tries, unlocks, new_spin_lock, run, Exclusive, run-Exclusive,
}

run-Exclusive_example : Exclusive (run new_spin_lock (tries ∷ tries ∷ unlocks ∷ tries ∷ []))
run-Exclusive_example = run-Exclusive (tries ∷ tries ∷ unlocks ∷ tries ∷ [])

yields_lem_example : yields 1 (fails 5 (true ∷ [])) ≡ some 31
yields_lem_example = yields_lem 5 []
