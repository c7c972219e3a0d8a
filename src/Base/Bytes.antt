-- ===== src/Base/Bytes.antt =====
-- `to_le_bytes` and `from_le_bytes`: a number in a fixed count of bytes, the lowest first.
use Prim.Native.Nat.{ℕ, zero, suc, ◌+◌, ◌*◌, ◌/◌, ◌%◌, ◌^◌, ◌<◌}
use mathlib.Core.Path.{◌≡◌, refl, ap}
use mathlib.Core.List.{List, [], ◌∷◌}
use native.Mathlib.Nat.{pow-suc}
use native.Mathlib.Omega.{arith}
use tally_db.Base.Lists.{length, All}
use tally_db.Base.Word.{IsByte}

unfoldable pub le_bytes : ℕ → ℕ → List ℕ
le_bytes zero w = []
le_bytes (suc n) w = (w % 256) ∷ le_bytes n (w / 256)

unfoldable pub from_le_bytes : List ℕ → ℕ
from_le_bytes [] = 0
from_le_bytes (b ∷ bytes) = b + 256 * from_le_bytes bytes

pub length-le_bytes : (n w : ℕ) → length (le_bytes n w) ≡ n
unfolding le_bytes
length-le_bytes zero w = refl
length-le_bytes (suc n) w = ap suc (length-le_bytes n (w / 256))

pub le_bytes-IsByte : (n w : ℕ) → All IsByte (le_bytes n w)
unfolding le_bytes
le_bytes-IsByte zero w = tt
le_bytes-IsByte (suc n) w = (omega arith, le_bytes-IsByte n (w / 256))

-- Read back, a number that fits is itself.
pub from_le_bytes-le_bytes : (n w : ℕ) → w < 256 ^ n → from_le_bytes (le_bytes n w) ≡ w
unfolding le_bytes from_le_bytes
from_le_bytes-le_bytes zero w h = omega arith
from_le_bytes-le_bytes (suc n) w h =
    omega (arith, from_le_bytes-le_bytes n (w / 256) (omega (arith, pow-suc 256 n)))
