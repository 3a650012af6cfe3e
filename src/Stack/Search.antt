-- ===== src/Stack/Search.antt =====
-- The binary search of pool/workerqueue.go: its end, its reads, and the index that it finds.
use gts.Base.{
  ℕ, zero, suc, ◌+◌, ◌-◌, ◌/◌, ◌≤◌, ◌<◌, ◌≡◌, refl, inl, inr, some, List, arith, length, get_elem?,
  ltb, ltb→lt, Bool-cases,
}
use gts.Stack.{binary_search}
use gts.Stack.Sorted.{IsSorted, get_elem?-some, get_elem?_mono}

module _ {ℓ} {W : Type ℓ} (last_used : W → ℕ) (items : List W) (expiry_time : ℕ) where
  -- In any order of the times the search returns an index of its range.
  pub binary_search-le :
      (rounds l r : ℕ)
      → r - l ≤ rounds
      → l ≤ r
      → r < length items
      → (i : ℕ) × (binary_search last_used rounds items l r expiry_time ≡ some i) × (i ≤ r)
  unfolding binary_search
  binary_search-le zero l r h le fits = (r, ground arith, omega arith)
  binary_search-le (suc rounds) l r h le fits = elim (Bool-cases (ltb l r)) [
    | inr done ↦ rw done (r, refl, omega arith)
    | inl more ↦
        let lt : l < r = ltb→lt l r more in
        let (w, at) = get_elem?-some items ((l + r) / 2) (omega arith) in
        let (i, p, q) =
          binary_search-le rounds l ((l + r) / 2) (omega arith) (omega arith) (omega arith) in
        let (j, p', q') =
          binary_search-le rounds ((l + r) / 2 + 1) r (omega arith) (omega arith) fits in
        rw (more, at)
          (elim (Bool-cases (ltb expiry_time (last_used w))) [
            | inl late ↦ rw late (i, p, omega arith)
            | inr early ↦ rw early (j, p', q')
          ])
  ]

  -- Every worker in front of index `l` was last used by `expiry_time`, and one at `r`, unless `r`
  -- is `last`, later.
  pub record Splits (last l r : ℕ) : Type ℓ where
    pub ordered : l ≤ r
    pub inside : r ≤ last
    pub stale : (j : ℕ) (w : W) → j < l → get_elem? items j ≡ some w → last_used w ≤ expiry_time
    pub fresh : (w : W) → r < last → get_elem? items r ≡ some w → expiry_time < last_used w

  module _ (sorted : IsSorted last_used items) (last : ℕ) (fits : last < length items) where
    Splits-low :
        (l m r : ℕ) (w : W)
        → l ≤ m
        → m < r
        → get_elem? items m ≡ some w
        → expiry_time < last_used w
        → Splits last l r
        → Splits last l m
    Splits-low l m r w le lt at late s = record {
      ordered = le;
      inside = omega (arith, s.inside);
      stale = s.stale;
      fresh =
          λ v _ e. omega (arith, get_elem?_mono last_used items m m w v sorted (omega arith) at e);
    }

    Splits-high :
        (l m r : ℕ) (w : W)
        → m < r
        → get_elem? items m ≡ some w
        → last_used w ≤ expiry_time
        → Splits last l r
        → Splits last (m + 1) r
    Splits-high l m r w lt at early s = record {
      ordered = omega arith;
      inside = s.inside;
      stale = λ j v below e.
          omega (arith, get_elem?_mono last_used items j m v w sorted (omega arith) e at);
      fresh = s.fresh;
    }

    Splits-done : (l r : ℕ) → r ≤ l → Splits last l r → Splits last r r
    Splits-done l r h s = record {
      ordered = omega arith;
      inside = s.inside;
      stale = λ j w below. s.stale j w (omega (arith, s.ordered));
      fresh = s.fresh;
    }

    -- With the workers in the order of their times and enough rounds for its range, the search ends
    -- at one index: every worker in front of it was last used by `expiryTime`, and the one at it
    -- later, unless it is the last of the range.
    pub binary_search-Splits :
        (rounds l r : ℕ)
        → r - l ≤ rounds
        → Splits last l r
        → (i : ℕ) × (binary_search last_used rounds items l r expiry_time ≡ some i)
          × Splits last i i
    unfolding binary_search
    binary_search-Splits zero l r h s =
        (r, ground (arith, s.ordered), Splits-done l r (omega arith) s)
    binary_search-Splits (suc rounds) l r h s = elim (Bool-cases (ltb l r)) [
      | inr done ↦ rw done (r, refl, Splits-done l r (ground arith) s)
      | inl more ↦
          let lt : l < r = ltb→lt l r more in
          let (w, at) = get_elem?-some items ((l + r) / 2) (omega (arith, s.inside)) in
          rw (more, at)
            (elim (Bool-cases (ltb expiry_time (last_used w))) [
              | inl late ↦ rw late (
                  binary_search-Splits rounds l ((l + r) / 2) (omega arith) (
                    Splits-low l ((l + r) / 2) r w (omega arith) (omega arith) at (ground arith) s))
              | inr early ↦ rw early (
                  binary_search-Splits rounds ((l + r) / 2 + 1) r (omega arith)
                    (Splits-high l ((l + r) / 2) r w (omega arith) at (ground arith) s))
            ])
    ]
