-- ===== src/WriteBuffer/Runs.antt =====
-- Runs of `WriteBuffer`, src/storage_lite/mem.rs: one row of a timestamp and a key.
use tally_db.Base.{
  ℕ, ◌≡◌, refl, true, false, Option, none, some, List, [], ◌∷◌, get_elem?, Result, ok, err,
}
use tally_db.Column.{Schema, i64, key, column_len, column_type, slot_valid, dictionary_len}
use tally_db.Floats.Sample.{sample}
use tally_db.Interning.{new_dictionary, intern, lookup_code, add_value}
use tally_db.Segment.{
  Segment, new_batch, all_bind, binds, has_bitmap, first_len, type_eq, zone_maps_of,
}
use tally_db.WriteBuffer.{
  RowValue, i64_value, key_value, StorageError, WriteBuffer, i64_builder, key_builder, new_buffer,
  new_builder, empty_builder,
}
use tally_db.WriteBuffer.{
  check_cell, check_cells, validate, append, push, push_cells, finish, finish_all, codes_in_range,
  freeze_at, row_at,
}
use tally_db.WriteBuffer.Rows.{HoldsRows, new_buffer-HoldsRows, append-HoldsRows, freeze_at-rows}
use tally_db.ZoneMap.{compute_zone_map, i64_loop, widen_i64, i64_min, i64_max}

abbrev quotes : Schema
quotes = record {
  fields =
      record { name = 116 ∷ []; column_type = i64; nullable = false }
      ∷ record { name = 115 ∷ []; column_type = key; nullable = true }
      ∷ [];
}

abbrev empty_buffer : WriteBuffer (Option ℕ)
empty_buffer = record {
  schema = quotes;
  ordering_key = 0;
  builders =
      i64_builder [] []
      ∷ key_builder [] [] (record { offsets = 0 ∷ []; bytes = []; index = [] })
      ∷ [];
  rows = 0;
  ordered = true;
  last_ordering_value = none;
}

empty_buffer_lem : new_buffer quotes 0 ≡ ok empty_buffer
unfolding new_buffer new_builder empty_builder new_dictionary
empty_buffer_lem = refl

abbrev quote : List (RowValue (Option ℕ))
quote = i64_value 10 ∷ key_value (65 ∷ []) ∷ []

abbrev one_row : WriteBuffer (Option ℕ)
one_row = elim (append sample empty_buffer quote) [ ok buffer ↦ buffer | err e ↦ empty_buffer ]

one_row_lem : append sample empty_buffer quote ≡ ok one_row
unfolding append validate check_cells check_cell push_cells push intern lookup_code add_value
    dictionary_len
one_row_lem = refl

append-HoldsRows_example : HoldsRows one_row (quote ∷ [])
append-HoldsRows_example =
    append-HoldsRows sample empty_buffer one_row [] quote
      (new_buffer-HoldsRows sample quotes 0 empty_buffer empty_buffer_lem) one_row_lem

abbrev or_empty : Result StorageError (Segment (Option ℕ)) → Segment (Option ℕ)
or_empty (ok segment) = segment
or_empty (err e) = record {
  batch = record { schema = quotes; columns = []; num_rows = 0 };
  ordering_key = 0;
  ordered = true;
  base_row_id = 0;
  zone_maps = [];
  sequence = tally_db.Segment.row_ids;
  superseded = none;
}

frozen_lem : freeze_at sample one_row 7 ≡ ok (or_empty (freeze_at sample one_row 7))
unfolding append validate check_cells check_cell push_cells push intern lookup_code add_value
    dictionary_len freeze_at finish_all finish codes_in_range zone_maps_of compute_zone_map i64_loop
    slot_valid widen_i64 i64_min i64_max new_batch all_bind binds has_bitmap first_len type_eq
    column_len column_type
frozen_lem = refl

freeze_at-rows_example :
    ((or_empty (freeze_at sample one_row 7)).batch.num_rows ≡ 1)
    × ((i : ℕ) (row : List (RowValue (Option ℕ)))
        → get_elem? (quote ∷ []) i ≡ some row
        → row_at (or_empty (freeze_at sample one_row 7)).batch.columns i ≡ ok row)
freeze_at-rows_example =
    freeze_at-rows sample one_row (quote ∷ []) 7 (or_empty (freeze_at sample one_row 7))
      append-HoldsRows_example frozen_lem
