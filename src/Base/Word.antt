-- ===== src/Base/Word.antt =====
-- Machine words: a `u64` or `i64` is its bit pattern, a number below 2 ^ 64.
use Prim.Native.Nat.{ℕ, ◌+◌, ◌-◌, ◌%◌, ◌^◌, ◌<◌}
use mathlib.Core.Path.{◌≡◌}
use native.Mathlib.Omega.{arith}

abbrev pub IsByte : ℕ → Type 0
IsByte b = b < 256

abbrev pub IsWord : ℕ → Type 0
IsWord w = w < 2 ^ 64

abbrev pub wrapping_add : ℕ → ℕ → ℕ
wrapping_add a b = (a + b) % 2 ^ 64

abbrev pub wrapping_sub : ℕ → ℕ → ℕ
wrapping_sub a b = (a + 2 ^ 64 - b) % 2 ^ 64

pub wrapping_add-sub : (a b : ℕ) → IsWord a → IsWord b → wrapping_add b (wrapping_sub a b) ≡ a
wrapping_add-sub a b ha hb = omega arith

-- The signed order of two `i64` patterns is the order of their ranks.
abbrev pub i64_rank : ℕ → ℕ
i64_rank w = (w + 2 ^ 63) % 2 ^ 64

pub i64_rank-injective : (a b : ℕ) → IsWord a → IsWord b → i64_rank a ≡ i64_rank b → a ≡ b
i64_rank-injective a b ha hb e = omega arith
