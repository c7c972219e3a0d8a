-- ===== src/ZoneMap.antt =====
-- The zone maps of src/storage_lite/mem.rs: the least and the greatest value of a numeric column,
-- its nulls left out, and for `f64` whether there is a NaN.
pub mod Bounds
mod Runs
use tally_db.Base.{
  ℕ, zero, suc, ◌+◌, ◌-◌, Bool, true, false, not, Option, none, some, List, [], ◌∷◌,
}
use tally_db.Base.{length, get_elem?, ltb, ◌==◌, if◌then◌else◌}
use tally_db.Base.Word.{i64_rank}
use tally_db.Bitmap.{Bitmap}
use tally_db.Base.{Result, ok, ◌>>=◌}
use tally_db.Column.{Fault, Column, f64_column, i64_column, key_column, slot_valid}
use tally_db.Floats.{Floats}

pub data ZoneMap (F : Type 0) : Type 0 where
  f64_zone : F → F → Bool → ZoneMap F
  i64_zone : ℕ → ℕ → ZoneMap F

unfoldable pub i64_min : ℕ → ℕ → ℕ
i64_min a b = if ltb (i64_rank b) (i64_rank a) then b else a

unfoldable pub i64_max : ℕ → ℕ → ℕ
i64_max a b = if ltb (i64_rank b) (i64_rank a) then a else b

-- `range = Some(match range { .. })`
unfoldable pub widen_i64 : Option (ℕ × ℕ) → ℕ → Option (ℕ × ℕ)
widen_i64 none value = some (value, value)
widen_i64 (some (low, high)) value = some (i64_min low value, i64_max high value)

-- The loop over the values from `index` on.
unfoldable pub i64_loop :
    ℕ → Option Bitmap → List ℕ → ℕ → Option (ℕ × ℕ) → Result Fault (Option (ℕ × ℕ))
i64_loop len validity [] index range = ok range
i64_loop len validity (value ∷ values) index range = do
  valid ← slot_valid len validity index
  i64_loop len validity values (index + 1) (if valid then widen_i64 range value else range)

module _ (fl : Floats) where
  open fl use {F, is_nan, nan, lesser, greater}

  widen_f64 : Option (F × F) → F → Option (F × F)
  widen_f64 none value = some (value, value)
  widen_f64 (some (low, high)) value = some (lesser low value, greater high value)

  abbrev next_range : Bool → F → Option (F × F) → Option (F × F)
  next_range valid value range =
      if valid then (if is_nan value then range else widen_f64 range value) else range

  abbrev next_nan : Bool → F → Bool → Bool
  next_nan valid value has_nan = if valid then (if is_nan value then true else has_nan) else has_nan

  pub f64_loop :
      ℕ → Option Bitmap → List F → ℕ → Option (F × F) → Bool → Result Fault (Option (F × F) × Bool)
  f64_loop len validity [] index range has_nan = ok (range, has_nan)
  f64_loop len validity (value ∷ values) index range has_nan = do
    valid ← slot_valid len validity index
    f64_loop len validity values (index + 1) (next_range valid value range)
        (next_nan valid value has_nan)

  abbrev f64_zone_of : Option (F × F) × Bool → Option (ZoneMap F)
  f64_zone_of (some (low, high), has_nan) = some (f64_zone low high has_nan)
  f64_zone_of (none, true) = some (f64_zone nan nan true)
  f64_zone_of (none, false) = none

  abbrev i64_zone_of : Option (ℕ × ℕ) → Option (ZoneMap F)
  i64_zone_of none = none
  i64_zone_of (some (low, high)) = some (i64_zone low high)

  unfoldable pub compute_zone_map : Column F → Result Fault (Option (ZoneMap F))
  compute_zone_map (f64_column values validity) = do
    r ← f64_loop (length values) validity values 0 none false
    ok (f64_zone_of r)
  compute_zone_map (i64_column values validity) = do
    r ← i64_loop (length values) validity values 0 none
    ok (i64_zone_of r)
  compute_zone_map (key_column _ _ _) = ok none
