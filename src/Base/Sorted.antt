-- ===== src/Base/Sorted.antt =====
-- Lists of numbers in strictly ascending order, each element below all that follow it.
use Prim.Native.Nat.{ℕ, ◌<◌}
use mathlib.Core.List.{List, [], ◌∷◌}
use native.Mathlib.Omega.{arith}
use tally_db.Base.Lists.{All}

abbrev pub Ascending : List ℕ → Type 0
Ascending [] = Unit
Ascending (x ∷ xs) = All (λ y. x < y) xs × Ascending xs

-- What is above a number is above every lower one.
pub above_lower :
    (low high : ℕ) (xs : List ℕ) → low < high → All (λ y. high < y) xs → All (λ y. low < y) xs
above_lower low high [] h a = tt
above_lower low high (x ∷ xs) h (l, a) = (omega arith, above_lower low high xs h a)
