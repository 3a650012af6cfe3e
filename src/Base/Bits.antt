-- ===== src/Base/Bits.antt =====
-- `|` of a shifted field and a field below it.
use Prim.Native.Nat.{digits, max, bit_or, bit_or-bitwise}
use native.Mathlib.Nat.{pow-suc}
use gts.Base.{ℕ, zero, suc, ◌+◌, ◌*◌, ◌/◌, ◌%◌, ◌^◌, ◌≤◌, ◌<◌, ◌≡◌, refl, ap, arith}

-- The native `|` stands for a walk over the binary digits, with the first number as fuel.
abbrev or_walk : ℕ → ℕ → ℕ → ℕ
or_walk fuel a b = digits (λ y. y) max fuel a b

-- Two walks whose fuel is not below the first number agree.
same_walk : (x b k l : ℕ) → x ≤ k → x ≤ l → or_walk k x b ≡ or_walk l x b
same_walk zero b zero zero hk hl = refl
same_walk zero b zero (suc l) hk hl = refl
same_walk zero b (suc k) zero hk hl = refl
same_walk zero b (suc k) (suc l) hk hl = refl
same_walk (suc x) b zero l hk hl = absurd (omega arith)
same_walk (suc x) b (suc k) zero hk hl = absurd (omega arith)
same_walk (suc x) b (suc k) (suc l) hk hl =
    ap (λ (t : ℕ). t * 2 + max (suc x % 2) (b % 2))
      (same_walk (suc x / 2) (b / 2) k l (omega arith) (omega arith))

or-half : (x b : ℕ) → bit_or x b ≡ bit_or (x / 2) (b / 2) * 2 + max (x % 2) (b % 2)
or-half zero b = omega (arith, bit_or-bitwise 0 b, bit_or-bitwise 0 (b / 2))
or-half (suc x) b = omega (
  arith,
  bit_or-bitwise (suc x) b,
  bit_or-bitwise (suc x / 2) (b / 2),
  same_walk (suc x / 2) (b / 2) x (suc x / 2) (omega arith) (omega arith),
)

bit_or-zero : (fuel x : ℕ) → x ≤ fuel → bit_or x 0 ≡ x
bit_or-zero fuel zero h = refl
bit_or-zero zero (suc x) h = absurd (omega arith)
bit_or-zero (suc fuel) (suc x) h =
    omega (arith, or-half (suc x) 0, bit_or-zero fuel (suc x / 2) (omega arith))

-- The low field has `k` bits.
pub bit_or-shift : (k high low : ℕ) → low < 2 ^ k → bit_or (high * 2 ^ k) low ≡ high * 2 ^ k + low
bit_or-shift zero high low h = ground (arith, bit_or-zero high high (omega arith))
bit_or-shift (suc k) high low h =
    let double : high * 2 ^ suc k ≡ high * 2 ^ k * 2 =
      omega (arith, ap (λ (t : ℕ). high * t) (pow-suc 2 k)) in
    let small : low / 2 < 2 ^ k = omega (arith, pow-suc 2 k) in
    ground (arith, or-half (high * 2 ^ suc k) low, bit_or-shift k high (low / 2) small)
