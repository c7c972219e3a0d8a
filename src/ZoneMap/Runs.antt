-- ===== src/ZoneMap/Runs.antt =====
-- Runs of `compute_zone_map` of src/storage_lite/mem.rs.
use tally_db.Base.{ℕ, ◌-◌, ◌^◌, ◌≡◌, refl, true, none, some, List, [], ◌∷◌, Option, ok}
use tally_db.Column.{f64_column, i64_column, slot_valid}
use tally_db.Floats.Sample.{sample}
use tally_db.ZoneMap.{
  f64_zone, i64_zone, compute_zone_map, i64_loop, f64_loop, widen_i64, widen_f64, i64_min, i64_max,
}
use tally_db.ZoneMap.Bounds.{F64Bounded, I64Bounded, f64_zone-Bounded, i64_zone-Bounded}

-- 3, -1 and 7.
abbrev three_words : List ℕ
three_words = 3 ∷ (2 ^ 64 - 1) ∷ 7 ∷ []

-- 5, NaN and 2.
abbrev with_nan : List (Option ℕ)
with_nan = some 5 ∷ none ∷ some 2 ∷ []

three_words_zone :
    compute_zone_map sample (i64_column three_words none) ≡ ok (some (i64_zone (2 ^ 64 - 1) 7))
unfolding compute_zone_map i64_loop widen_i64 i64_min i64_max slot_valid
three_words_zone = refl

with_nan_zone :
    compute_zone_map sample (f64_column with_nan none) ≡ ok (some (f64_zone (some 2) (some 5) true))
unfolding compute_zone_map f64_loop widen_f64 slot_valid
with_nan_zone = refl

second_valid : slot_valid 3 none 1 ≡ ok true
unfolding slot_valid
second_valid = refl

f64_zone-Bounded_example : F64Bounded sample (some (f64_zone (some 2) (some 5) true)) none
f64_zone-Bounded_example =
    f64_zone-Bounded sample with_nan none (some (f64_zone (some 2) (some 5) true)) 1 none
      with_nan_zone refl second_valid

i64_zone-Bounded_example : I64Bounded sample (some (i64_zone (2 ^ 64 - 1) 7)) (2 ^ 64 - 1)
i64_zone-Bounded_example =
    i64_zone-Bounded sample three_words none (some (i64_zone (2 ^ 64 - 1) 7)) 1 (2 ^ 64 - 1)
      three_words_zone refl second_valid
