-- ===== src/Stack/Refresh.antt =====
-- What `refresh` of pool/workerqueue.go takes off the stack, and what it leaves.
use gts.Base.{
  ℕ, zero, suc, ◌+◌, ◌-◌, ◌≤◌, ◌<◌, ◌≡◌, refl, ap, some, List, [], ◌∷◌, ◌++◌, arith, length,
  get_elem?, take, drop, take-append-drop, length-append, Bool-cases, inl, inr, ◌==◌,
}
use gts.Stack.{WorkerStack, refresh, is_empty}
use gts.Stack.Sorted.{
  All, All-take, All-drop, IsSorted, get_elem?-some, get_elem?_lt, get_elem?_mono,
}
use gts.Stack.Search.{Splits, binary_search-le, binary_search-Splits}

module _ {ℓ} {W : Type ℓ} where
  pub take-suc :
      (i : ℕ) (xs : List W) (w : W)
      → get_elem? xs i ≡ some w
      → take (i + 1) xs ≡ take i xs ++ w ∷ []
  take-suc zero [] w e = absurd (ground arith)
  take-suc zero (x ∷ xs) w e = ground arith
  take-suc (suc i) [] w e = absurd (ground arith)
  take-suc (suc i) (x ∷ xs) w e = ground (arith, take-suc i xs w e)

  drop-beyond : (i : ℕ) (xs : List W) → length xs ≤ i → drop i xs ≡ []
  drop-beyond zero [] h = refl
  drop-beyond zero (x ∷ xs) h = absurd (omega arith)
  drop-beyond (suc i) [] h = refl
  drop-beyond (suc i) (x ∷ xs) h = drop-beyond i xs (omega arith)

module _ {ℓ} {W : Type ℓ} (last_used : W → ℕ) (duration now : ℕ) where
  -- The worker has been idle for `duration` or longer.
  abbrev pub IsStale : W → Type 0
  IsStale w = last_used w + duration ≤ now

  abbrev pub IsFresh : W → Type 0
  IsFresh w = now < last_used w + duration

  -- The workers taken are idle for too long, but for the last of them, and all that stay are fresh.
  pub record Refreshed (s : WorkerStack W) (expired : List W) (t : WorkerStack W) : Type ℓ where
    pub stale : List W
    pub boundary : W
    pub split : expired ≡ stale ++ boundary ∷ []
    pub whole : expired ++ t.items ≡ s.items
    pub buffer : t.expiry ≡ expired
    pub all_stale : All IsStale stale
    pub all_fresh : All IsFresh t.items

  -- Whatever the times are, `refresh` returns, and splits the stack in two.
  pub refresh-whole :
      (s : WorkerStack W)
      → (expired : List W) × (t : WorkerStack W) × (refresh last_used duration now s
          ≡ some (expired, t))
        × (expired ++ t.items ≡ s.items)
  unfolding refresh is_empty
  refresh-whole s = elim (Bool-cases (length s.items == 0)) [
    | inl none_idle ↦ ([], s, rw none_idle refl, refl)
    | inr some_idle ↦
        let (i, found, _) =
          binary_search-le last_used s.items (now - duration) (length s.items) 0
            (length s.items - 1) (omega arith) (omega arith) (ground arith) in
        (
          take (i + 1) s.items,
          record { items = drop (i + 1) s.items; expiry = take (i + 1) s.items },
          rw (some_idle, found) refl,
          take-append-drop (i + 1) s.items,
        )
  ]

  pub refresh-length :
      (s : WorkerStack W)
      → (expired : List W) × (t : WorkerStack W) × (refresh last_used duration now s
          ≡ some (expired, t))
        × (length expired + length t.items ≡ length s.items)
  refresh-length s =
      let (expired, t, found, whole) = refresh-whole s in
      (expired, t, found, omega (arith, ap length whole, length-append expired t.items))

  module _ (s : WorkerStack W) (sorted : IsSorted last_used s.items)
      (elapsed : duration ≤ now) where
    drop-IsFresh :
        (i : ℕ)
        → Splits last_used s.items (now - duration) (length s.items - 1) i i
        → All IsFresh (drop (i + 1) s.items)
    drop-IsFresh i p = All-drop IsFresh (i + 1) s.items λ j w le e.
        let inside : j < length s.items = get_elem?_lt s.items j w e in
        let (v, at) = get_elem?-some s.items i (omega arith) in
        let late : now - duration < last_used v = p.fresh v (omega arith) at in
        let later : last_used v ≤ last_used w =
          get_elem?_mono last_used s.items i j v w sorted (omega arith) at e in
        omega arith

    start-Splits :
        Splits last_used s.items (now - duration) (length s.items - 1) 0 (length s.items - 1)
    start-Splits = record {
      ordered = omega arith;
      inside = omega arith;
      stale = λ j w below. absurd (omega arith);
      fresh = λ w below. absurd (omega arith);
    }

    -- `refresh` of a stack with workers, in the order of their times, at a time not before
    -- `duration`: it always returns, it takes a front part of the stack, every worker that it
    -- leaves is fresh, and every worker that it takes except the last is idle for too long.
    pub refresh-Refreshed :
        0 < length s.items
        → (expired : List W) × (t : WorkerStack W) × (refresh last_used duration now s
            ≡ some (expired, t))
          × Refreshed s expired t
    unfolding refresh is_empty
    refresh-Refreshed h =
        let (i, found, p) =
          binary_search-Splits last_used s.items (now - duration) sorted (length s.items - 1)
            (omega arith) (length s.items) 0 (length s.items - 1) (omega arith) start-Splits in
        let (w, at) = get_elem?-some s.items i (omega (arith, p.inside)) in
        (
          take (i + 1) s.items,
          record { items = drop (i + 1) s.items; expiry = take (i + 1) s.items },
          ground (arith, found),
          record {
            stale = take i s.items;
            boundary = w;
            split = take-suc i s.items w at;
            whole = take-append-drop (i + 1) s.items;
            buffer = refl;
            all_stale = All-take IsStale i s.items λ j v lt e. omega (arith, p.stale j v lt e);
            all_fresh = drop-IsFresh i p;
          },
        )

  -- An empty stack is left alone.
  pub refresh_empty :
      (s : WorkerStack W) → s.items ≡ [] → refresh last_used duration now s ≡ some ([], s)
  unfolding refresh is_empty
  refresh_empty s e = rw (e, refresh) refl
