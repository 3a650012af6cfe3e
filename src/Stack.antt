-- ===== src/Stack.antt =====
-- pool/workerqueue.go: the stack of idle workers, oldest at the front and the top at the back.
-- The worker is any type with the time when it was last used; times are numbers.
pub mod Sorted
pub mod Search
pub mod Refresh
pub mod Order
mod Tests
use gts.Base.{
  ℕ, zero, suc, ◌+◌, ◌-◌, ◌/◌, Bool, true, false, Option, none, some, List, [], ◌∷◌, ◌++◌, ltb,
  ◌==◌, if◌then◌else◌, length, get_elem?, take, drop,
}

pub record WorkerStack {ℓ} (W : Type ℓ) : Type ℓ where
  pub items : List W
  pub expiry : List W

module _ {ℓ} {W : Type ℓ} where
  unfoldable pub len : WorkerStack W → ℕ
  len s = length s.items

  unfoldable pub is_empty : WorkerStack W → Bool
  is_empty s = length s.items == 0

  -- It never fails, so the `error` result is left out.
  unfoldable pub insert : W → WorkerStack W → WorkerStack W
  insert w s = record s { items = s.items ++ w ∷ [] }

  -- `items[:l-1]` and `items[l-1]` of a slice with l ≥ 1.
  unfoldable pub split_last : W → List W → List W × W
  split_last x [] = ([], x)
  split_last x (y ∷ ys) = let (front, w) = split_last y ys in (x ∷ front, w)

  unfoldable pub detach_items : List W → Option (W × List W)
  unfolding split_last
  detach_items [] = none
  detach_items (x ∷ xs) = let (front, w) = split_last x xs in some (w, front)

  -- The worker at the top with the stack that is left, or `nil`.
  unfoldable pub detach : WorkerStack W → Option (W × WorkerStack W)
  detach s = elim (detach_items s.items) [
    | none ↦ none
    | some (w, rest) ↦ some (w, record s { items = rest })
  ]

  -- The workers that are sent the finishing task, and the stack that is left.
  unfoldable pub reset : WorkerStack W → List W × WorkerStack W
  reset s = (s.items, record s { items = [] })

module _ {ℓ} {W : Type ℓ} (last_used : W → ℕ) where
  -- The loop of `binarySearch`, with the rounds that it may take. `none` is a read outside the
  -- slice or a lack of rounds; neither happens (Search).
  unfoldable pub binary_search : ℕ → List W → ℕ → ℕ → ℕ → Option ℕ
  binary_search zero items l r expiry_time = if ltb l r then none else some r
  binary_search (suc rounds) items l r expiry_time =
      let low = binary_search rounds items l ((l + r) / 2) expiry_time in
      let high = binary_search rounds items ((l + r) / 2 + 1) r expiry_time in
      if ltb l r
      then elim (get_elem? items ((l + r) / 2)) [
        | none ↦ none
        | some w ↦ if ltb expiry_time (last_used w) then low else high
      ]
      else some r

  -- The loop returns no index below 0, so the test for -1 always passes.
  unfoldable pub refresh : ℕ → ℕ → WorkerStack W → Option (List W × WorkerStack W)
  refresh duration now s =
      if is_empty s
      then some ([], s)
      else elim (binary_search (length s.items) s.items 0 (length s.items - 1) (now - duration)) [
        | none ↦ none
        | some index ↦ some (
          take (index + 1) s.items,
          record { items = drop (index + 1) s.items; expiry = take (index + 1) s.items },
        )
      ]
