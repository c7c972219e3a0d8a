-- ===== src/Floats/Sample.antt =====
-- Values for which the laws of `Floats` hold, to run the code that takes them: the numbers from 0
-- on, and one NaN.
use tally_db.Base.{ℕ, ◌^◌, min, max, refl, Bool, true, false, Option, none, some}
use tally_db.Base.{compare}
use tally_db.Floats.{Floats}

abbrev sample_is_nan : Option ℕ → Bool
sample_is_nan none = true
sample_is_nan (some a) = false

abbrev sample_rank : Option ℕ → ℕ
sample_rank none = 0
sample_rank (some a) = a

abbrev both : (ℕ → ℕ → ℕ) → Option ℕ → Option ℕ → Option ℕ
both f a b = some (f (sample_rank a) (sample_rank b))

abbrev pub sample : Floats
sample = record {
  F = Option ℕ;
  is_nan = sample_is_nan;
  nan = none;
  partial_cmp = λ a b. compare (sample_rank a) (sample_rank b);
  lesser = both min;
  greater = both max;
  from_i64 = some;
  two_to_63 = some (2 ^ 63);
  minus_two_to_63 = some 0;
  floor = λ a. a;
  to_i64 = sample_rank;
  rank = sample_rank;
  nan_lem = refl;
  partial_cmp_lem = λ a b p q. refl;
  lesser_lem = λ a b p q. (refl, refl);
  greater_lem = λ a b p q. (refl, refl);
}
