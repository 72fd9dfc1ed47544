-- ===== src/Base/Bits.antt =====
-- Masks, shifts and joins of disjoint bit fields, read as arithmetic.
use Prim.Native.Nat.{
  ℕ, zero, suc, ◌+◌, ◌*◌, ◌/◌, ◌%◌, ◌^◌, ◌≤◌, ◌<◌, min, max, bit_and, bit_or, digits,
  bit_and-bitwise, bit_or-bitwise,
}
use mathlib.Core.Path.{◌≡◌, refl, ap}
use native.Mathlib.Nat.{pow-zero, pow-suc, mul-one, add-zero}
use native.Mathlib.Omega.{arith}

-- One digit at a time, with the number of rounds free.
abbrev low_and : ℕ → ℕ → ℕ → ℕ
low_and fuel x y = digits (λ b. zero) min fuel x y

abbrev low_or : ℕ → ℕ → ℕ → ℕ
low_or fuel x y = digits (λ b. b) max fuel x y

low_and_enough : (f g x y : ℕ) → x ≤ f → x ≤ g → low_and f x y ≡ low_and g x y
low_and_enough zero zero x y hf hg = refl
low_and_enough zero (suc g) zero y hf hg = refl
low_and_enough zero (suc g) (suc x) y hf hg = absurd (omega arith)
low_and_enough (suc f) zero zero y hf hg = refl
low_and_enough (suc f) zero (suc x) y hf hg = absurd (omega arith)
low_and_enough (suc f) (suc g) zero y hf hg = refl
low_and_enough (suc f) (suc g) (suc x) y hf hg =
    omega (arith, low_and_enough f g (suc x / 2) (y / 2) (omega arith) (omega arith))

low_or_enough : (f g x y : ℕ) → x ≤ f → x ≤ g → low_or f x y ≡ low_or g x y
low_or_enough zero zero x y hf hg = refl
low_or_enough zero (suc g) zero y hf hg = refl
low_or_enough zero (suc g) (suc x) y hf hg = absurd (omega arith)
low_or_enough (suc f) zero zero y hf hg = refl
low_or_enough (suc f) zero (suc x) y hf hg = absurd (omega arith)
low_or_enough (suc f) (suc g) zero y hf hg = refl
low_or_enough (suc f) (suc g) (suc x) y hf hg =
    omega (arith, low_or_enough f g (suc x / 2) (y / 2) (omega arith) (omega arith))

pub bit_and-halves : (x y : ℕ) → bit_and x y ≡ bit_and (x / 2) (y / 2) * 2 + min (x % 2) (y % 2)
bit_and-halves zero y = omega (arith, bit_and-bitwise 0 y, bit_and-bitwise 0 (y / 2))
bit_and-halves (suc x) y = omega (
  arith,
  bit_and-bitwise (suc x) y,
  bit_and-bitwise (suc x / 2) (y / 2),
  low_and_enough x (suc x / 2) (suc x / 2) (y / 2) (omega arith) (omega arith),
)

pub zero-bit_or : (y : ℕ) → bit_or 0 y ≡ y
zero-bit_or y = bit_or-bitwise 0 y

pub bit_or-halves : (x y : ℕ) → bit_or x y ≡ bit_or (x / 2) (y / 2) * 2 + max (x % 2) (y % 2)
bit_or-halves zero y = omega (arith, zero-bit_or y, zero-bit_or (y / 2))
bit_or-halves (suc x) y = omega (
  arith,
  bit_or-bitwise (suc x) y,
  bit_or-bitwise (suc x / 2) (y / 2),
  low_or_enough x (suc x / 2) (suc x / 2) (y / 2) (omega arith) (omega arith),
)

-- A mask of ones keeps the low bits.
bit_and_1 : (x : ℕ) → bit_and x 1 ≡ x % 2
bit_and_1 x = omega (arith, bit_and-halves x 1, bit_and_zero (x / 2))
  where
    bit_and_zero_upto : (f y : ℕ) → y ≤ f → bit_and y 0 ≡ 0
    bit_and_zero_upto f zero h = refl
    bit_and_zero_upto zero (suc y) h = absurd (omega arith)
    bit_and_zero_upto (suc f) (suc y) h =
        omega (arith, bit_and-halves (suc y) 0, bit_and_zero_upto f (suc y / 2) (omega arith))

    bit_and_zero : (y : ℕ) → bit_and y 0 ≡ 0
    bit_and_zero y = bit_and_zero_upto y y (omega arith)

bit_and_3 : (x : ℕ) → bit_and x 3 ≡ x % 4
bit_and_3 x = omega (arith, bit_and-halves x 3, bit_and_1 (x / 2))

bit_and_7 : (x : ℕ) → bit_and x 7 ≡ x % 8
bit_and_7 x = omega (arith, bit_and-halves x 7, bit_and_3 (x / 2))

pub bit_and_15 : (x : ℕ) → bit_and x 15 ≡ x % 16
bit_and_15 x = omega (arith, bit_and-halves x 15, bit_and_7 (x / 2))

bit_and_31 : (x : ℕ) → bit_and x 31 ≡ x % 32
bit_and_31 x = omega (arith, bit_and-halves x 31, bit_and_15 (x / 2))

bit_and_63 : (x : ℕ) → bit_and x 63 ≡ x % 64
bit_and_63 x = omega (arith, bit_and-halves x 63, bit_and_31 (x / 2))

bit_and_127 : (x : ℕ) → bit_and x 127 ≡ x % 128
bit_and_127 x = omega (arith, bit_and-halves x 127, bit_and_63 (x / 2))

pub bit_and_255 : (x : ℕ) → bit_and x 255 ≡ x % 256
bit_and_255 x = omega (arith, bit_and-halves x 255, bit_and_127 (x / 2))

bit_and_511 : (x : ℕ) → bit_and x 511 ≡ x % 512
bit_and_511 x = omega (arith, bit_and-halves x 511, bit_and_255 (x / 2))

bit_and_1023 : (x : ℕ) → bit_and x 1023 ≡ x % 1024
bit_and_1023 x = omega (arith, bit_and-halves x 1023, bit_and_511 (x / 2))

bit_and_2047 : (x : ℕ) → bit_and x 2047 ≡ x % 2048
bit_and_2047 x = omega (arith, bit_and-halves x 2047, bit_and_1023 (x / 2))

pub bit_and_4095 : (x : ℕ) → bit_and x 4095 ≡ x % 4096
bit_and_4095 x = omega (arith, bit_and-halves x 4095, bit_and_2047 (x / 2))

bit_and_8190 : (x : ℕ) → bit_and x 8190 ≡ x / 2 % 4096 * 2
bit_and_8190 x = omega (arith, bit_and-halves x 8190, bit_and_4095 (x / 2))

bit_and_16380 : (x : ℕ) → bit_and x 16380 ≡ x / 4 % 4096 * 4
bit_and_16380 x = omega (arith, bit_and-halves x 16380, bit_and_8190 (x / 2))

bit_and_32760 : (x : ℕ) → bit_and x 32760 ≡ x / 8 % 4096 * 8
bit_and_32760 x = omega (arith, bit_and-halves x 32760, bit_and_16380 (x / 2))

pub bit_and_65520 : (x : ℕ) → bit_and x 65520 ≡ x / 16 % 4096 * 16
bit_and_65520 x = omega (arith, bit_and-halves x 65520, bit_and_32760 (x / 2))

-- Fields that share no bit are joined by addition.
pub bit_or-high_low : (k h l : ℕ) → l < 2 ^ k → bit_or (h * 2 ^ k) l ≡ h * 2 ^ k + l
bit_or-high_low zero h l b = bit_or-high_zero h h l (omega arith) (omega (arith, pow-zero 2))
  where
    bit_or_zero_upto : (f y : ℕ) → y ≤ f → bit_or y 0 ≡ y
    bit_or_zero_upto f zero p = refl
    bit_or_zero_upto zero (suc y) p = absurd (omega arith)
    bit_or_zero_upto (suc f) (suc y) p =
        omega (arith, bit_or-halves (suc y) 0, bit_or_zero_upto f (suc y / 2) (omega arith))

    bit_or-high_zero : (f y z : ℕ) → y ≤ f → z ≡ 0 → bit_or (y * 2 ^ 0) z ≡ y * 2 ^ 0 + z
    bit_or-high_zero f y z p e = rw (e, pow-zero 2, mul-one, add-zero) (bit_or_zero_upto f y p)
bit_or-high_low (suc k) h l b = rw (pow-suc 2 k) (
    omega (
      arith,
      pow-suc 2 k,
      bit_or-halves (h * (2 ^ k * 2)) l,
      half_eq,
      bit_or-high_low k h (l / 2) (omega (arith, pow-suc 2 k)),
    ))
  where
    half_eq : bit_or (h * (2 ^ k * 2) / 2) (l / 2) ≡ bit_or (h * 2 ^ k) (l / 2)
    half_eq = ap (λ x. bit_or x (l / 2)) (omega arith)

bit_or_comm_upto : (f x y : ℕ) → x ≤ f → y ≤ f → bit_or x y ≡ bit_or y x
bit_or_comm_upto zero x y p q =
    let e : x ≡ 0 = omega arith in let d : y ≡ 0 = omega arith in rw (e, d)
bit_or_comm_upto (suc f) zero zero p q = refl
bit_or_comm_upto (suc f) zero (suc y) p q = omega (
  arith,
  bit_or-halves 0 (suc y),
  bit_or-halves (suc y) 0,
  bit_or_comm_upto f 0 (suc y / 2) (omega arith) (omega arith),
)
bit_or_comm_upto (suc f) (suc x) y p q = omega (
  arith,
  bit_or-halves (suc x) y,
  bit_or-halves y (suc x),
  bit_or_comm_upto f (suc x / 2) (y / 2) (omega arith) (omega arith),
)

pub bit_or_comm : (x y : ℕ) → bit_or x y ≡ bit_or y x
bit_or_comm x y = bit_or_comm_upto (x + y) x y (omega arith) (omega arith)
