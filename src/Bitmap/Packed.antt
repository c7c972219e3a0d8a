-- ===== src/Bitmap/Packed.antt =====
-- The canonical bytes of a list of booleans: an independent description of the layout of
-- src/arrow_lite/bitmap.rs, by one pass over the list.
use tally_db.Base.{ℕ, zero, suc, ◌+◌, ◌*◌, ◌^◌, ◌<◌, arith}
use tally_db.Base.{Bool, true, false, List, [], ◌∷◌, All}
use tally_db.Base.Word.{IsByte}
use native.Mathlib.Nat.{pow-suc, one-le-pow}

abbrev pub digit : Bool → ℕ
digit true = 1
digit false = 0

-- With room for `k` more digits in the open byte: what joins that byte, and the bytes behind it.
unfoldable pub pack : List Bool → ℕ → ℕ × List ℕ
pack [] k = (0, [])
pack (b ∷ bools) zero = let (v, rest) = pack bools 7 in (0, (digit b + 2 * v) ∷ rest)
pack (b ∷ bools) (suc k) = let (v, rest) = pack bools k in (digit b + 2 * v, rest)

abbrev pub packed : List Bool → List ℕ
packed bools = (pack bools 0).1

pub pack-lt : (bools : List Bool) (k : ℕ) → (pack bools k).0 < 2 ^ k
unfolding pack
pack-lt [] k = omega (arith, one-le-pow k 2)
pack-lt (b ∷ bools) zero = omega arith
pack-lt (true ∷ bools) (suc k) = omega (arith, pow-suc 2 k, pack-lt bools k)
pack-lt (false ∷ bools) (suc k) = omega (arith, pow-suc 2 k, pack-lt bools k)

pub packed-IsByte : (bools : List Bool) (k : ℕ) → All IsByte (pack bools k).1
unfolding pack
packed-IsByte [] k = tt
packed-IsByte (true ∷ bools) zero = (omega (arith, pack-lt bools 7), packed-IsByte bools 7)
packed-IsByte (false ∷ bools) zero = (omega (arith, pack-lt bools 7), packed-IsByte bools 7)
packed-IsByte (b ∷ bools) (suc k) = packed-IsByte bools k
