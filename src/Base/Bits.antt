-- ===== src/Base/Bits.antt =====
-- The bit operations that the codecs use, as arithmetic: an `or` into free high bits is a sum, and
-- a mask is a remainder or one digit.
use Prim.Native.Nat.{
  ℕ, zero, suc, ◌+◌, ◌*◌, ◌/◌, ◌%◌, ◌^◌, ◌≤◌, ◌<◌, min, max, bit_or, bit_and, digits,
  bit_or-bitwise, bit_and-bitwise,
}
use mathlib.Core.Path.{◌≡◌, refl, sym, ap, ◌∙◌}
use native.Mathlib.Omega.{arith}
use native.Mathlib.Nat.{pow-suc}

-- The recursion on binary digits that a native operation means: any fuel from the first operand on
-- gives the same digits.
module _ (rest : ℕ → ℕ) (f : ℕ → ℕ → ℕ) where
  digits_enough : (n m v w : ℕ) → v ≤ n → v ≤ m → digits rest f n v w ≡ digits rest f m v w
  digits_enough zero zero v w p q = refl
  digits_enough (suc n) zero zero w p q = refl
  digits_enough (suc n) zero (suc v) w p q = absurd (omega arith)
  digits_enough zero (suc m) zero w p q = refl
  digits_enough zero (suc m) (suc v) w p q = absurd (omega arith)
  digits_enough (suc n) (suc m) zero w p q = refl
  digits_enough (suc n) (suc m) (suc v) w p q =
      ap (λ t. t * 2 + f (suc v % 2) (w % 2))
        (digits_enough n m (suc v / 2) (w / 2) (omega arith) (omega arith))

zero-bit_or : (w : ℕ) → bit_or 0 w ≡ w
zero-bit_or w = bit_or-bitwise 0 w

bit_or-halves : (v w : ℕ) → bit_or v w ≡ bit_or (v / 2) (w / 2) * 2 + max (v % 2) (w % 2)
bit_or-halves zero w = omega (arith, zero-bit_or w, zero-bit_or (w / 2))
bit_or-halves (suc v) w = omega (
  arith,
  bit_or-bitwise (suc v) w,
  bit_or-bitwise (suc v / 2) (w / 2),
  digits_enough (λ u. u) max v (suc v / 2) (suc v / 2) (w / 2) (omega arith) (omega arith),
)

pub bit_or-high : (k v x : ℕ) → v < 2 ^ k → bit_or v (x * 2 ^ k) ≡ v + x * 2 ^ k
bit_or-high zero zero x h = zero-bit_or (x * 2 ^ 0) ∙ omega arith
bit_or-high zero (suc v) x h = absurd (omega arith)
bit_or-high (suc k) v x h =
    let double : 2 ^ suc k ≡ 2 * 2 ^ k = omega (arith, pow-suc 2 k) in
    let twice : x * 2 ^ suc k ≡ 2 * (x * 2 ^ k) = omega (arith, ap (λ (t : ℕ). x * t) double) in
    let half : x * 2 ^ suc k / 2 ≡ x * 2 ^ k = omega arith in
    omega (
      arith,
      bit_or-halves v (x * 2 ^ suc k),
      ap (bit_or (v / 2)) half,
      bit_or-high k (v / 2) x (omega arith),
    )

bit_or-none : (bound v : ℕ) → v ≤ bound → bit_or v 0 ≡ v
bit_or-none bound zero h = refl
bit_or-none zero (suc v) h = absurd (omega arith)
bit_or-none (suc bound) (suc v) h =
    omega (arith, bit_or-halves (suc v) 0, bit_or-none bound (suc v / 2) (omega arith))

bit_or_swap : (bound v w : ℕ) → v ≤ bound → bit_or v w ≡ bit_or w v
bit_or_swap bound zero w h = zero-bit_or w ∙ sym (bit_or-none w w (omega arith))
bit_or_swap zero (suc v) w h = absurd (omega arith)
bit_or_swap (suc bound) (suc v) w h = omega (
  arith,
  bit_or-halves (suc v) w,
  bit_or-halves w (suc v),
  bit_or_swap bound (suc v / 2) (w / 2) (omega arith),
)

pub bit_or_comm : (v w : ℕ) → bit_or v w ≡ bit_or w v
bit_or_comm v w = bit_or_swap v v w (omega arith)

zero-bit_and : (w : ℕ) → bit_and 0 w ≡ 0
zero-bit_and w = bit_and-bitwise 0 w

bit_and-halves : (v w : ℕ) → bit_and v w ≡ bit_and (v / 2) (w / 2) * 2 + min (v % 2) (w % 2)
bit_and-halves zero w = omega (arith, zero-bit_and w, zero-bit_and (w / 2))
bit_and-halves (suc v) w = omega (
  arith,
  bit_and-bitwise (suc v) w,
  bit_and-bitwise (suc v / 2) (w / 2),
  digits_enough (λ u. 0) min v (suc v / 2) (suc v / 2) (w / 2) (omega arith) (omega arith),
)

bit_and-none : (bound v : ℕ) → v ≤ bound → bit_and v 0 ≡ 0
bit_and-none bound zero h = refl
bit_and-none zero (suc v) h = absurd (omega arith)
bit_and-none (suc bound) (suc v) h =
    omega (arith, bit_and-halves (suc v) 0, bit_and-none bound (suc v / 2) (omega arith))

-- `n & 0x7f`, digit by digit.
bit_and_low_one : (n : ℕ) → bit_and n 1 ≡ n % 2
bit_and_low_one n = omega (arith, bit_and-halves n 1, bit_and-none (n / 2) (n / 2) (omega arith))

bit_and_low_two : (n : ℕ) → bit_and n 3 ≡ n % 4
bit_and_low_two n = omega (arith, bit_and-halves n 3, bit_and_low_one (n / 2))

bit_and_low_three : (n : ℕ) → bit_and n 7 ≡ n % 8
bit_and_low_three n = omega (arith, bit_and-halves n 7, bit_and_low_two (n / 2))

bit_and_low_four : (n : ℕ) → bit_and n 15 ≡ n % 16
bit_and_low_four n = omega (arith, bit_and-halves n 15, bit_and_low_three (n / 2))

bit_and_low_five : (n : ℕ) → bit_and n 31 ≡ n % 32
bit_and_low_five n = omega (arith, bit_and-halves n 31, bit_and_low_four (n / 2))

bit_and_low_six : (n : ℕ) → bit_and n 63 ≡ n % 64
bit_and_low_six n = omega (arith, bit_and-halves n 63, bit_and_low_five (n / 2))

pub bit_and_low_seven : (n : ℕ) → bit_and n 127 ≡ n % 128
bit_and_low_seven n = omega (arith, bit_and-halves n 127, bit_and_low_six (n / 2))

-- A mask of one bit, digit by digit.
bit_and_bit_one : (n : ℕ) → bit_and n 2 ≡ n / 2 % 2 * 2
bit_and_bit_one n = omega (arith, bit_and-halves n 2, bit_and_low_one (n / 2))

bit_and_bit_two : (n : ℕ) → bit_and n 4 ≡ n / 4 % 2 * 4
bit_and_bit_two n = omega (arith, bit_and-halves n 4, bit_and_bit_one (n / 2))

bit_and_bit_three : (n : ℕ) → bit_and n 8 ≡ n / 8 % 2 * 8
bit_and_bit_three n = omega (arith, bit_and-halves n 8, bit_and_bit_two (n / 2))

bit_and_bit_four : (n : ℕ) → bit_and n 16 ≡ n / 16 % 2 * 16
bit_and_bit_four n = omega (arith, bit_and-halves n 16, bit_and_bit_three (n / 2))

bit_and_bit_five : (n : ℕ) → bit_and n 32 ≡ n / 32 % 2 * 32
bit_and_bit_five n = omega (arith, bit_and-halves n 32, bit_and_bit_four (n / 2))

bit_and_bit_six : (n : ℕ) → bit_and n 64 ≡ n / 64 % 2 * 64
bit_and_bit_six n = omega (arith, bit_and-halves n 64, bit_and_bit_five (n / 2))

bit_and_bit_seven : (n : ℕ) → bit_and n 128 ≡ n / 128 % 2 * 128
bit_and_bit_seven n = omega (arith, bit_and-halves n 128, bit_and_bit_six (n / 2))

pub bit_and_top_bit : (b : ℕ) → b < 256 → bit_and b 0x80 ≡ b / 128 * 128
bit_and_top_bit b h = omega (arith, bit_and_bit_seven b)

pub bit_or_top_bit : (b : ℕ) → b < 128 → bit_or b 0x80 ≡ b + 128
bit_or_top_bit b h = bit_or-high 7 b 1 h
