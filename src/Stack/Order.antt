-- ===== src/Stack/Order.antt =====
-- Insertion and removal on the stack of pool/workerqueue.go, and the order of its workers'
-- times.
use mathlib.Core.Path.{subst}
use gts.Base.{
  ℕ, ◌+◌, ◌≤◌, ◌≡◌, refl, sym, ap, ◌∙◌, some, none, List, [], ◌∷◌, ◌++◌, arith, length,
  length-append, suc, ◌⊎◌, inl, inr, Option-cases,
}
use gts.Stack.{WorkerStack, insert, split_last, detach_items, detach, refresh}
use gts.Stack.Sorted.{All, All-append, IsSorted}
use gts.Stack.Refresh.{IsFresh, Refreshed, refresh-Refreshed}

module _ {ℓ} {W : Type ℓ} where
  split_last-append : (x w : W) (xs : List W) → split_last x (xs ++ w ∷ []) ≡ (x ∷ xs, w)
  unfolding split_last
  split_last-append x w [] = refl
  split_last-append x w (y ∷ ys) = rw (split_last-append y w ys)

  detach_items-append : (w : W) (xs : List W) → detach_items (xs ++ w ∷ []) ≡ some (w, xs)
  unfolding detach_items
  detach_items-append w [] = unfold split_last in refl
  detach_items-append w (x ∷ xs) = rw (split_last-append x w xs)

  -- `detach` gives back the worker that `insert` put on the stack, and the stack before it.
  pub detach-insert : (w : W) (s : WorkerStack W) → detach (insert w s) ≡ some (w, s)
  unfolding detach insert
  detach-insert w s = rw (detach_items-append w s.items, detach)

  pub split_last-whole :
      (x : W) (xs : List W) → (split_last x xs).0 ++ (split_last x xs).1 ∷ [] ≡ x ∷ xs
  unfolding split_last
  split_last-whole x [] = refl
  split_last-whole x (y ∷ ys) = ap (◌∷◌ x) (split_last-whole y ys)

  detach_items-none : (xs : List W) → detach_items xs ≡ none → xs ≡ []
  unfolding detach_items
  detach_items-none [] e = refl
  detach_items-none (x ∷ xs) e = absurd (ground arith)

  -- What `detach` returns was the end of the stack.
  pub detach_items-whole :
      (xs rest : List W) (w : W) → detach_items xs ≡ some (w, rest) → xs ≡ rest ++ w ∷ []
  unfolding detach_items
  detach_items-whole [] rest w e = absurd (ground arith)
  detach_items-whole (x ∷ xs) rest w e = ground (arith, split_last-whole x xs)

  pub length-insert : (w : W) (s : WorkerStack W) → length (insert w s).items ≡ suc (length s.items)
  unfolding insert
  length-insert w s = omega (arith, length-append s.items (w ∷ []))

  -- `detach` fails on the empty stack only, and takes one worker off any other.
  pub detach-cases :
      (s : WorkerStack W)
      → ((detach s ≡ none) × (s.items ≡ []))
        ⊎ ((w : W) × (t : WorkerStack W) × (detach s ≡ some (w, t)) × (s.items ≡ t.items ++ w ∷ []))
  unfolding detach
  detach-cases s = elim (Option-cases (detach_items s.items)) [
    | inl e ↦ inl (rw (e, detach) refl, detach_items-none s.items e)
    | inr (p, e) ↦
        inr
          (p.0, record s { items = p.1 }, rw (e, detach) refl, detach_items-whole s.items p.1 p.0 e)
  ]

  pub detach-length :
      (s : WorkerStack W)
      → ((detach s ≡ none) × (length s.items ≡ 0))
        ⊎ ((w : W) × (t : WorkerStack W) × (detach s ≡ some (w, t))
            × (length s.items ≡ suc (length t.items)))
  detach-length s = elim (detach-cases s) [
    | inl (e, f) ↦ inl (e, omega (arith, ap length f))
    | inr (w, t, e, f) ↦ inr (w, t, e, omega (arith, ap length f, length-append t.items (w ∷ [])))
  ]

module _ {ℓ} {W : Type ℓ} (last_used : W → ℕ) where
  All-front {κ} : (P : W → Type κ) (xs ys : List W) → All P (xs ++ ys) → All P xs
  All-front P [] ys h = tt
  All-front P (x ∷ xs) ys h = (h.0, All-front P xs ys h.1)

  IsSorted-front : (xs ys : List W) → IsSorted last_used (xs ++ ys) → IsSorted last_used xs
  IsSorted-front [] ys h = tt
  IsSorted-front (x ∷ xs) ys h =
      (All-front (λ w. last_used x ≤ last_used w) xs ys h.0, IsSorted-front xs ys h.1)

  IsSorted-back : (xs ys : List W) → IsSorted last_used (xs ++ ys) → IsSorted last_used ys
  IsSorted-back [] ys h = h
  IsSorted-back (x ∷ xs) ys h = IsSorted-back xs ys h.1

  IsSorted-snoc :
      (xs : List W) (w : W)
      → IsSorted last_used xs
      → All (λ v. last_used v ≤ last_used w) xs
      → IsSorted last_used (xs ++ w ∷ [])
  IsSorted-snoc [] w s h = (tt, tt)
  IsSorted-snoc (x ∷ xs) w s h = (
    All-append (λ v. last_used x ≤ last_used v) xs (w ∷ []) s.0 (h.0, tt),
    IsSorted-snoc xs w s.1 h.1,
  )

  -- A worker that was used last, after all others, is put on the stack in order.
  pub insert-IsSorted :
      (w : W) (s : WorkerStack W)
      → IsSorted last_used s.items
      → All (λ v. last_used v ≤ last_used w) s.items
      → IsSorted last_used (insert w s).items
  unfolding insert
  insert-IsSorted w s h k = IsSorted-snoc s.items w h k

  pub detach_items-IsSorted :
      (xs rest : List W) (w : W)
      → IsSorted last_used xs
      → detach_items xs ≡ some (w, rest)
      → IsSorted last_used rest
  detach_items-IsSorted xs rest w h e =
      IsSorted-front rest (w ∷ []) (subst (IsSorted last_used) (detach_items-whole xs rest w e) h)

  module _ (duration now : ℕ) where
    pub Refreshed-IsSorted :
        (s t : WorkerStack W) (expired : List W)
        → IsSorted last_used s.items
        → Refreshed last_used duration now s expired t
        → IsSorted last_used t.items
    Refreshed-IsSorted s t expired h r =
        IsSorted-back expired t.items (subst (IsSorted last_used) (sym r.whole) h)

    Refreshed-fresh :
        (s t : WorkerStack W) (expired : List W) (x : W) (xs : List W)
        → s.items ≡ x ∷ xs
        → IsFresh last_used duration now x
        → Refreshed last_used duration now s expired t
        → (expired ≡ x ∷ []) × (t.items ≡ xs)
    Refreshed-fresh s t expired x xs e f r = go r.stale r.split r.all_stale
      where
        go :
            (ys : List W)
            → expired ≡ ys ++ r.boundary ∷ []
            → All (λ w. last_used w + duration ≤ now) ys
            → (expired ≡ x ∷ []) × (t.items ≡ xs)
        go [] p q = ground (arith, r.whole)
        go (y ∷ ys) p q = absurd (ground (arith, r.whole, ap (◌++◌ {A = W} expired) e))

    -- Where the workers are in the order of their times and the oldest, and so every one, is still
    -- fresh at a time not before `duration`, `refresh` takes that oldest worker off the stack all
    -- the same, and no other.
    pub refresh_takes_fresh :
        (s : WorkerStack W) (x : W) (xs : List W)
        → IsSorted last_used s.items
        → duration ≤ now
        → s.items ≡ x ∷ xs
        → IsFresh last_used duration now x
        → (t : WorkerStack W) × (refresh last_used duration now s ≡ some (x ∷ [], t))
          × (t.items ≡ xs)
    refresh_takes_fresh s x xs h elapsed e f =
        let (expired, t, found, r) =
          refresh-Refreshed last_used duration now s h elapsed (rw e (omega arith)) in
        let (one, rest) = Refreshed-fresh s t expired x xs e f r in
        (t, found ∙ ap (λ (ws : List W). some (ws, t)) one, rest)
