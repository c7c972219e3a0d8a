-- ===== src/Predicate/Runs.antt =====
-- Runs of src/query_lite/predicate.rs: a table of one column, and patterns from the source's tests.
use tally_db.Base.{
  ℕ, ◌≡◌, refl, Bool, true, false, Option, none, some, List, [], ◌∷◌, Result, ok, err,
}
use tally_db.Column.{Field}
use tally_db.Bitmap.{from_bools}
use tally_db.Column.{
  Text, Column, i64_column, i64, Schema, Fault, unsupported, slot_valid, column_len, column_type,
}
use tally_db.Column.{position, text_eq}
use tally_db.Floats.Sample.{sample}
use tally_db.Segment.{
  RecordBatch, Segment, SegmentView, row_ids, new_batch, all_bind, binds, has_bitmap, first_len,
  type_eq,
}
use tally_db.Segment.{zone_maps_of, from_batch, zone_map, zone_maps_present}
use tally_db.ZoneMap.{i64_zone, compute_zone_map, i64_loop, widen_i64, i64_min, i64_max}
use tally_db.Predicate.{Predicate, compare_number, gt, int, is_key, range_may_hold, zone_may_hold}
use tally_db.Predicate.{
  leaf_can_match, may_match, can_match, evaluate, evaluate_3vl, column_index, column_at,
}
use tally_db.Predicate.{compare_column, leaf_result, leaf_rows, i64_verdict, i64_holds, holds}
use tally_db.Predicate.{like_match, like_loop, like_round, backtrack, all_percent}
use tally_db.Predicate.{ThreeValued, three_and, three_or}
use tally_db.Predicate.Rows.{HasRows, three_and-rows, three_or-rows}
use tally_db.Base.{get_elem?}
use tally_db.Segment.Batch.{new_batch-column}
use tally_db.Predicate.Pruning.{can_match_sound}
use tally_db.Predicate.Like.{like_match-ends}

-- "ts"
abbrev ts : Text
ts = 116 ∷ 115 ∷ []

abbrev clock_schema : Schema
clock_schema = record { fields = record { name = ts; column_type = i64; nullable = false } ∷ [] }

abbrev clock_column : Column (Option ℕ)
clock_column = i64_column (10 ∷ 20 ∷ 30 ∷ []) none

abbrev clock_columns : List (Column (Option ℕ))
clock_columns = clock_column ∷ []

abbrev clock_batch : RecordBatch (Option ℕ)
clock_batch = record { schema = clock_schema; columns = clock_columns; num_rows = 3 }

abbrev clock_segment : Segment (Option ℕ)
clock_segment = record {
  batch = clock_batch;
  ordering_key = 0;
  ordered = true;
  base_row_id = 0;
  zone_maps = some (i64_zone 10 30) ∷ [];
  sequence = row_ids;
  superseded = none;
}

abbrev clock_view : SegmentView (Option ℕ)
clock_view = record { segment = clock_segment; live = none }

-- `ts > 40`
abbrev after_forty : Predicate Text (Option ℕ)
after_forty = compare_number ts gt (int 40)

abbrev no_scalars : Text → Result Fault (List (Option ℕ) × List Bool)
no_scalars expr = err unsupported

clock_batch_made : new_batch clock_schema clock_columns ≡ ok clock_batch
unfolding new_batch all_bind binds has_bitmap first_len type_eq column_len column_type
clock_batch_made = refl

clock_segment_made : from_batch sample clock_batch 0 true ≡ ok clock_segment
unfolding from_batch zone_maps_of compute_zone_map i64_loop widen_i64 i64_min i64_max slot_valid
clock_segment_made = refl

after_forty_pruned : can_match sample after_forty clock_schema clock_view ≡ false
unfolding can_match zone_maps_present may_match leaf_can_match position text_eq is_key zone_map
    zone_may_hold range_may_hold
after_forty_pruned = refl

after_forty_selected :
    evaluate sample no_scalars (λ s. s) after_forty clock_schema clock_view
    ≡ ok (from_bools (false ∷ false ∷ false ∷ []))
unfolding evaluate evaluate_3vl column_index position text_eq column_at compare_column leaf_result
    leaf_rows i64_verdict slot_valid i64_holds holds
after_forty_selected = refl

can_match_sound_example :
    from_bools (false ∷ false ∷ false ∷ []) ≡ from_bools (false ∷ false ∷ false ∷ [])
can_match_sound_example =
    can_match_sound sample no_scalars (λ s. s) after_forty clock_schema clock_columns 0 true
      clock_batch clock_view (from_bools (false ∷ false ∷ false ∷ [])) clock_batch_made
      clock_segment_made after_forty_pruned after_forty_selected

-- `a%b%c` on `axxbyyc`, on `axxcyyb`, and `a_c` on `ac`.
long_pattern :
    like_match (97 ∷ 37 ∷ 98 ∷ 37 ∷ 99 ∷ []) (97 ∷ 120 ∷ 120 ∷ 98 ∷ 121 ∷ 121 ∷ 99 ∷ []) ≡ some true
unfolding like_match like_loop like_round backtrack all_percent
long_pattern = refl

wrong_order :
    like_match (97 ∷ 37 ∷ 98 ∷ 37 ∷ 99 ∷ []) (97 ∷ 120 ∷ 120 ∷ 99 ∷ 121 ∷ 121 ∷ 98 ∷ [])
    ≡ some false
unfolding like_match like_loop like_round backtrack all_percent
wrong_order = refl

like_match-ends_example : (b : Bool) × (like_match (97 ∷ 95 ∷ 99 ∷ []) (97 ∷ 99 ∷ []) ≡ some b)
like_match-ends_example = like_match-ends (97 ∷ 95 ∷ 99 ∷ []) (97 ∷ 99 ∷ [])

-- TRUE, FALSE and UNKNOWN on three rows.
abbrev true_false_unknown : ThreeValued
true_false_unknown = record {
  truth = from_bools (true ∷ false ∷ false ∷ []);
  falsity = from_bools (false ∷ true ∷ false ∷ []);
}

abbrev true_false_unknown_rows : HasRows 3 true_false_unknown
true_false_unknown_rows = record {
  truths = true ∷ false ∷ false ∷ [];
  falsities = false ∷ true ∷ false ∷ [];
  truth_lem = refl;
  falsity_lem = refl;
  truths_len = refl;
  falsities_len = refl;
}

abbrev all_false : ThreeValued
all_false = record {
  truth = from_bools (false ∷ false ∷ false ∷ []);
  falsity = from_bools (true ∷ true ∷ true ∷ []);
}

abbrev all_false_rows : HasRows 3 all_false
all_false_rows = record {
  truths = false ∷ false ∷ false ∷ [];
  falsities = true ∷ true ∷ true ∷ [];
  truth_lem = refl;
  falsity_lem = refl;
  truths_len = refl;
  falsities_len = refl;
}

three_and-rows_example :
    three_and true_false_unknown all_false
    ≡ ok (record {
      truth = from_bools (false ∷ false ∷ false ∷ []);
      falsity = from_bools (true ∷ true ∷ true ∷ []);
    })
three_and-rows_example =
    three_and-rows 3 true_false_unknown all_false true_false_unknown_rows all_false_rows

three_or-rows_example :
    three_or true_false_unknown all_false
    ≡ ok (record {
      truth = from_bools (true ∷ false ∷ false ∷ []);
      falsity = from_bools (false ∷ true ∷ false ∷ []);
    })
three_or-rows_example =
    three_or-rows 3 true_false_unknown all_false true_false_unknown_rows all_false_rows

new_batch-column_example :
    (f : Field) × (get_elem? clock_schema.fields 0 ≡ some f)
    × (column_len clock_column ≡ 3)
    × (f.column_type ≡ column_type clock_column)
new_batch-column_example =
    new_batch-column clock_schema clock_columns clock_batch 0 clock_column clock_batch_made refl
