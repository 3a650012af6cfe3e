-- ===== src/Stack/Sorted.antt =====
-- Slices of workers in the order of their times (pool/workerqueue.go), by index.
use mathlib.Core.Path.{subst}
use mathlib.Core.Option.{some-injective}
use gts.Base.{
  ℕ, zero, suc, ◌≤◌, ◌<◌, ◌≡◌, refl, some, List, [], ◌∷◌, ◌++◌, arith, length, get_elem?, take,
  drop,
}

abbrev pub All {ℓ κ} : {A : Type ℓ} → (A → Type κ) → List A → Type κ
All P [] = Unit
All P (x ∷ xs) = P x × All P xs

module _ {ℓ} {W : Type ℓ} where
  pub All-map {κ μ} :
      (P : W → Type κ) (Q : W → Type μ) (xs : List W) → ((w : W) → P w → Q w) → All P xs → All Q xs
  All-map P Q [] f h = tt
  All-map P Q (x ∷ xs) f h = (f x h.0, All-map P Q xs f h.1)

  pub All-append {κ} : (P : W → Type κ) (xs ys : List W) → All P xs → All P ys → All P (xs ++ ys)
  All-append P [] ys first second = second
  All-append P (x ∷ xs) ys first second = (first.0, All-append P xs ys first.1 second)

  pub All-take {κ} :
      (P : W → Type κ) (i : ℕ) (xs : List W)
      → ((j : ℕ) (w : W) → j < i → get_elem? xs j ≡ some w → P w)
      → All P (take i xs)
  All-take P zero xs h = tt
  All-take P (suc i) [] h = tt
  All-take P (suc i) (x ∷ xs) h =
      (h 0 x (omega arith) refl, All-take P i xs λ j w lt e. h (suc j) w (omega arith) e)

  pub All-drop {κ} :
      (P : W → Type κ) (i : ℕ) (xs : List W)
      → ((j : ℕ) (w : W) → i ≤ j → get_elem? xs j ≡ some w → P w)
      → All P (drop i xs)
  All-drop P zero [] h = tt
  All-drop P zero (x ∷ xs) h =
      (h 0 x (omega arith) refl, All-drop P zero xs λ j w le e. h (suc j) w (omega arith) e)
  All-drop P (suc i) [] h = tt
  All-drop P (suc i) (x ∷ xs) h = All-drop P i xs λ j w le e. h (suc j) w (omega arith) e

  pub get_elem?_of_All {κ} :
      (P : W → Type κ) (xs : List W) (j : ℕ) (w : W) → All P xs → get_elem? xs j ≡ some w → P w
  get_elem?_of_All P [] j w h e = absurd (ground arith)
  get_elem?_of_All P (x ∷ xs) zero w h e = subst P (some-injective x w e) h.0
  get_elem?_of_All P (x ∷ xs) (suc j) w h e = get_elem?_of_All P xs j w h.1 e

  pub get_elem?-some : (xs : List W) (j : ℕ) → j < length xs → (w : W) × (get_elem? xs j ≡ some w)
  get_elem?-some [] j h = elim h [ ]
  get_elem?-some (x ∷ xs) zero h = (x, refl)
  get_elem?-some (x ∷ xs) (suc j) h = get_elem?-some xs j (omega arith)

  pub get_elem?_lt : (xs : List W) (j : ℕ) (w : W) → get_elem? xs j ≡ some w → j < length xs
  get_elem?_lt [] j w e = absurd (ground arith)
  get_elem?_lt (x ∷ xs) zero w e = omega arith
  get_elem?_lt (x ∷ xs) (suc j) w e = omega (arith, get_elem?_lt xs j w e)

module _ {ℓ} {W : Type ℓ} (last_used : W → ℕ) where
  -- No worker was used before one that stands in front of it.
  abbrev pub IsSorted : List W → Type 0
  IsSorted [] = Unit
  IsSorted (x ∷ xs) = All (λ w. last_used x ≤ last_used w) xs × IsSorted xs

  pub get_elem?_mono :
      (xs : List W) (i j : ℕ) (v w : W)
      → IsSorted xs
      → i ≤ j
      → get_elem? xs i ≡ some v
      → get_elem? xs j ≡ some w
      → last_used v ≤ last_used w
  get_elem?_mono [] i j v w s le p q = absurd (ground arith)
  get_elem?_mono (x ∷ xs) zero zero v w s le p q = ground arith
  get_elem?_mono (x ∷ xs) zero (suc j) v w s le p q =
      ground (arith, get_elem?_of_All (λ w. last_used x ≤ last_used w) xs j w s.0 q)
  get_elem?_mono (x ∷ xs) (suc i) zero v w s le p q = absurd (omega arith)
  get_elem?_mono (x ∷ xs) (suc i) (suc j) v w s le p q =
      get_elem?_mono xs i j v w s.1 (omega arith) p q
