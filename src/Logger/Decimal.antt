-- ===== src/Logger/Decimal.antt =====
-- `%d` and `%02d` of `fmt.Sprintf` for numbers, as utils/logger.go uses them.
use gts.Base.{
  ℕ, zero, suc, ◌+◌, ◌-◌, ◌*◌, ◌/◌, ◌%◌, ◌≤◌, ◌<◌, ◌≡◌, refl, ap, List, [], ◌∷◌, ◌++◌, ltb,
  if◌then◌else◌, length, arith,
}

-- The digits of `n`; a division by ten for each unit of fuel, of which `n` is enough.
unfoldable pub digits : ℕ → ℕ → List ℕ
digits zero n = (48 + n % 10) ∷ []
digits (suc fuel) n =
    let rest = digits fuel (n / 10) in
    if ltb n 10 then (48 + n) ∷ [] else rest ++ (48 + n % 10) ∷ []

unfoldable pub show : ℕ → List ℕ
unfolding digits
show n = digits n n

unfoldable pub show_02 : ℕ → List ℕ
unfolding show
show_02 n = if ltb n 10 then 48 ∷ show n else show n

-- The number that digits stand for, behind those already read.
abbrev pub value : ℕ → List ℕ → ℕ
value n [] = n
value n (c ∷ cs) = value (10 * n + (c - 48)) cs

value_snoc : (n c : ℕ) (cs : List ℕ) → value n (cs ++ c ∷ []) ≡ 10 * value n cs + (c - 48)
value_snoc n c [] = refl
value_snoc n c (d ∷ cs) = value_snoc (10 * n + (d - 48)) c cs

digits_small : (fuel n : ℕ) → n < 10 → digits fuel n ≡ (48 + n) ∷ []
unfolding digits
digits_small zero n h = ap (λ k. (48 + k) ∷ []) (omega arith)
digits_small (suc fuel) n h = ground arith

-- With enough fuel the digits stand for the number.
pub value-digits : (fuel n : ℕ) → n ≤ fuel → value 0 (digits fuel n) ≡ n
unfolding digits
value-digits zero n h = omega arith
value-digits (suc fuel) n h =
    ground (arith, value_snoc 0 (48 + n % 10) (digits fuel (n / 10)), value-digits fuel (n / 10))

pub value-show : (n : ℕ) → value 0 (show n) ≡ n
unfolding show
value-show n = value-digits n n (omega arith)

pub value-show_02 : (n : ℕ) → value 0 (show_02 n) ≡ n
unfolding show_02
value-show_02 n = ground (arith, value-show n)

digits_two : (fuel n : ℕ) → 10 ≤ n → n < 100 → length (digits (suc fuel) n) ≡ 2
unfolding digits
digits_two fuel n lo hi =
    let one =
      ap (λ ds. length (ds ++ (48 + n % 10) ∷ [])) (digits_small fuel (n / 10) (omega arith)) in
    ground (arith, one)

pub length-show_02 : (n : ℕ) → n < 100 → length (show_02 n) ≡ 2
unfolding show_02 show digits
length-show_02 zero h = refl
length-show_02 (suc n) h = ground (arith, digits_small (suc n) (suc n), digits_two n (suc n))
