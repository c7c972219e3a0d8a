-- ===== src/Bitmap/Runs.antt =====
-- Runs of src/arrow_lite/bitmap.rs on ten rows, so that the second byte is partly padding.
use tally_db.Base.{◌≡◌, refl, Bool, true, false, not, ◌&&◌, ◌||◌, some, List, [], ◌∷◌, map}
use tally_db.Bitmap.{from_bools, get, and, or, complement, count_set, iter_set}
use tally_db.Bitmap.FromBools.{get-from_bools}
use tally_db.Bitmap.Algebra.{zip_with, and-from_bools, or-from_bools, complement-from_bools}
use tally_db.Bitmap.Counting.{count_set-from_bools, iter_set-from_bools}

abbrev ten : List Bool
ten = true ∷ false ∷ true ∷ true ∷ false ∷ false ∷ false ∷ true ∷ false ∷ true ∷ []

abbrev other : List Bool
other = false ∷ false ∷ true ∷ false ∷ true ∷ false ∷ true ∷ true ∷ true ∷ true ∷ []

get-from_bools_example : get (from_bools ten) 9 ≡ some true
get-from_bools_example = get-from_bools ten 9

and-from_bools_example :
    and (from_bools ten) (from_bools other) ≡ some (from_bools (zip_with ◌&&◌ ten other))
and-from_bools_example = and-from_bools ten other refl

or-from_bools_example :
    or (from_bools ten) (from_bools other) ≡ some (from_bools (zip_with ◌||◌ ten other))
or-from_bools_example = or-from_bools ten other refl

complement-from_bools_example : complement (from_bools ten) ≡ from_bools (map not ten)
complement-from_bools_example = complement-from_bools ten

count_set-from_bools_example : count_set (from_bools ten) ≡ 5
count_set-from_bools_example = count_set-from_bools ten

iter_set-from_bools_example : iter_set (from_bools ten) ≡ 0 ∷ 2 ∷ 3 ∷ 7 ∷ 9 ∷ []
iter_set-from_bools_example = iter_set-from_bools ten
