-- ===== src/Stack/Tests.antt =====
-- A stack of pool/workerqueue.go whose workers are the times when they were last used.
use gts.Base.{ℕ, ◌≡◌, some, List, [], ◌∷◌, arith}
use gts.Stack.{WorkerStack, refresh}
use gts.Stack.Sorted.{IsSorted}
use gts.Stack.Refresh.{Refreshed, refresh-Refreshed}

abbrev times : List ℕ
times = 3 ∷ 5 ∷ 8 ∷ 13 ∷ []

abbrev stack : WorkerStack ℕ
stack = record { items = times; expiry = [] }

times-IsSorted : IsSorted (λ (t : ℕ). t) times
times-IsSorted = ground arith

refresh-Refreshed_example :
    (expired : List ℕ) × (t : WorkerStack ℕ) × (refresh (λ (t : ℕ). t) 10 16 stack
      ≡ some (expired, t))
    × Refreshed (λ (t : ℕ). t) 10 16 stack expired t
refresh-Refreshed_example =
    refresh-Refreshed (λ (t : ℕ). t) 10 16 stack times-IsSorted (omega arith) (omega arith)
