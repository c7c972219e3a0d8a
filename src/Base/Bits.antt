-- ===== src/Base/Bits.antt =====
-- `&`, `|` and `^` at variables: one equation for the lowest digit of each, and from these the
-- masks, the fields and the complement that the codecs use.
use Prim.Native.Nat.{digits, bitwise, differ, bit_and-bitwise, bit_or-bitwise, bit_xor-bitwise}
use Prim.Native.Nat.{
  ℕ, zero, suc, ◌+◌, ◌-◌, ◌*◌, ◌/◌, ◌%◌, ◌^◌, ◌≤◌, ◌<◌, min, max, bit_and, bit_or, bit_xor,
}
use mathlib.Core.Path.{◌≡◌, refl, ap}
use native.Mathlib.Nat.{pow-suc, one-le-pow, le_refl, div-div-eq-div-mul}
use native.Mathlib.Omega.{arith}

-- More fuel than the first number changes nothing; `k` bounds that number for the recursion.
module _ (z : ℕ → ℕ) (op : ℕ → ℕ → ℕ) where
  settled : (k fuel x y : ℕ) → x ≤ k → x ≤ fuel → digits z op fuel x y ≡ bitwise z op x y
  settled k zero zero y bound enough = refl
  settled k (suc fuel) zero y bound enough = refl
  settled k zero (suc x) y bound enough = absurd (omega arith)
  settled zero (suc fuel) (suc x) y bound enough = absurd (omega arith)
  settled (suc k) (suc fuel) (suc x) y bound enough = omega (
    arith,
    settled k fuel (suc x / 2) (y / 2) (omega arith) (omega arith),
    settled k x (suc x / 2) (y / 2) (omega arith) (omega arith),
  )

  lowest_digit :
      (x y : ℕ)
      → bitwise z op (suc x) y ≡ op (suc x % 2) (y % 2) + bitwise z op (suc x / 2) (y / 2) * 2
  lowest_digit x y =
      omega (arith, settled (suc x) x (suc x / 2) (y / 2) (omega arith) (omega arith))

pub bit_and_step : (x y : ℕ) → bit_and x y ≡ min (x % 2) (y % 2) + 2 * bit_and (x / 2) (y / 2)
bit_and_step (suc x) y = simp bit_and-bitwise (omega (arith, lowest_digit (λ _. 0) min x y))
bit_and_step zero y = simp bit_and-bitwise (omega arith)

pub bit_or_step : (x y : ℕ) → bit_or x y ≡ max (x % 2) (y % 2) + 2 * bit_or (x / 2) (y / 2)
bit_or_step (suc x) y = simp bit_or-bitwise (omega (arith, lowest_digit (λ d. d) max x y))
bit_or_step zero y = simp bit_or-bitwise (omega arith)

differ_digits : (x y : ℕ) → x < 2 → y < 2 → differ x y ≡ (x + y) % 2
differ_digits zero y h k = omega arith
differ_digits (suc zero) zero h k = refl
differ_digits (suc zero) (suc zero) h k = refl
differ_digits (suc zero) (suc (suc y)) h k = absurd (omega arith)
differ_digits (suc (suc x)) y h k = absurd (omega arith)

pub bit_xor_step : (a b : ℕ) → bit_xor a b ≡ bit_xor (a / 2) (b / 2) * 2 + (a % 2 + b % 2) % 2
bit_xor_step zero b = simp bit_xor-bitwise (omega arith)
bit_xor_step (suc a) b = simp bit_xor-bitwise (
    omega (
      arith,
      lowest_digit (λ d. d) differ a b,
      differ_digits (suc a % 2) (b % 2) (omega arith) (omega arith),
    ))

-- The three operations with 0 on the right; `k` bounds the number on the left.
zero_right : (k x : ℕ) → x ≤ k → (bit_and x 0 ≡ 0) × (bit_or x 0 ≡ x) × (bit_xor x 0 ≡ x)
zero_right k zero bound = (refl, refl, refl)
zero_right zero (suc x) bound = absurd (omega arith)
zero_right (suc k) (suc x) bound =
    let (low_and, low_or, low_xor) = zero_right k (suc x / 2) (omega arith) in
    (
      omega (arith, bit_and_step (suc x) 0, low_and),
      omega (arith, bit_or_step (suc x) 0, low_or),
      omega (arith, bit_xor_step (suc x) 0, low_xor),
    )

pub bit_and-zero : (x : ℕ) → bit_and x 0 ≡ 0
bit_and-zero x = (zero_right x x (le_refl _)).0

pub bit_or-zero : (x : ℕ) → bit_or x 0 ≡ x
bit_or-zero x = (zero_right x x (le_refl _)).1

pub bit_xor-zero : (x : ℕ) → bit_xor x 0 ≡ x
bit_xor-zero x = (zero_right x x (le_refl _)).2

-- How the digits of `2 ^ suc k - 1` and of a multiple of `2 ^ suc k` fall.
ones_step : (k : ℕ) → (2 ^ suc k - 1) / 2 ≡ 2 ^ k - 1
ones_step k = omega (arith, pow-suc 2 k, one-le-pow k 2)

ones_low : (k : ℕ) → (2 ^ suc k - 1) % 2 ≡ 1
ones_low k = omega (arith, pow-suc 2 k, one-le-pow k 2)

mul-pow-suc : (q k : ℕ) → q * 2 ^ suc k ≡ 2 * (q * 2 ^ k)
mul-pow-suc q k = omega (arith, ap (λ (t : ℕ). q * t) (pow-suc 2 k))

bit_and_low : (k q r : ℕ) → r < 2 ^ k → bit_and (q * 2 ^ k + r) (2 ^ k - 1) ≡ r
bit_and_low zero q r h = omega (arith, bit_and-zero (q * 2 ^ 0 + r))
bit_and_low (suc k) q r h = ground (
  arith,
  bit_and_step (q * 2 ^ suc k + r) (2 ^ suc k - 1),
  ones_step k,
  ones_low k,
  mul-pow-suc q k,
  pow-suc 2 k,
  bit_and_low k q (r / 2),
)

-- `a & (2^k - 1)` is the remainder by `2^k`.
pub bit_and_mask : (k a : ℕ) → bit_and a (2 ^ k - 1) ≡ a % 2 ^ k
bit_and_mask k a = ground (arith, one-le-pow k 2, bit_and_low k (a / 2 ^ k) (a % 2 ^ k))

-- `r | (q << k)` is a sum where `r` has `k` digits.
pub bit_or_shifted : (k q r : ℕ) → r < 2 ^ k → bit_or r (q * 2 ^ k) ≡ r + q * 2 ^ k
bit_or_shifted zero q r h = ground (arith, bit_or-bitwise 0 q)
bit_or_shifted (suc k) q r h =
    ground (
      arith,
      bit_or_step r (q * 2 ^ suc k),
      mul-pow-suc q k,
      pow-suc 2 k,
      bit_or_shifted k q (r / 2),
    )

-- `a ^ (2^k - 1)` is the complement of `k` digits.
pub bit_xor_ones : (k a : ℕ) → a < 2 ^ k → bit_xor a (2 ^ k - 1) ≡ 2 ^ k - 1 - a
bit_xor_ones zero a h = omega (arith, bit_xor-zero a)
bit_xor_ones (suc k) a h = ground (
  arith,
  bit_xor_step a (2 ^ suc k - 1),
  ones_step k,
  ones_low k,
  pow-suc 2 k,
  one-le-pow k 2,
  bit_xor_ones k (a / 2),
)

pub half-div-pow : (a k : ℕ) → a / 2 / 2 ^ k ≡ a / 2 ^ suc k
half-div-pow a k = ground (arith, div-div-eq-div-mul a 2 (2 ^ k), pow-suc 2 k)

-- `a & (1 << k)` keeps one digit.
pub bit_and_single : (k a : ℕ) → bit_and a (2 ^ k) ≡ a / 2 ^ k % 2 * 2 ^ k
bit_and_single zero a = omega (arith, bit_and_mask 1 a)
bit_and_single (suc k) a = ground (
  arith,
  bit_and_step a (2 ^ suc k),
  pow-suc 2 k,
  half-div-pow a k,
  ap (λ (t : ℕ). a / 2 ^ suc k % 2 * t) (pow-suc 2 k),
  bit_and_single k (a / 2),
)

-- `|` needs no digit more than its operands.
pub bit_or-lt : (k a b : ℕ) → a < 2 ^ k → b < 2 ^ k → bit_or a b < 2 ^ k
bit_or-lt zero zero zero h g = omega arith
bit_or-lt zero zero (suc b) h g = absurd (omega arith)
bit_or-lt zero (suc a) b h g = absurd (omega arith)
bit_or-lt (suc k) a b h g =
    ground (arith, bit_or_step a b, pow-suc 2 k, bit_or-lt k (a / 2) (b / 2))

-- Nor does `^`.
pub bit_xor-lt : (k a b : ℕ) → a < 2 ^ k → b < 2 ^ k → bit_xor a b < 2 ^ k
bit_xor-lt zero zero zero h g = omega arith
bit_xor-lt zero zero (suc b) h g = absurd (omega arith)
bit_xor-lt zero (suc a) b h g = absurd (omega arith)
bit_xor-lt (suc k) a b h g = omega (
  arith,
  bit_xor_step a b,
  pow-suc 2 k,
  bit_xor-lt k (a / 2) (b / 2) (omega (arith, pow-suc 2 k)) (omega (arith, pow-suc 2 k)),
)
