-- ===== src/Store/Runs.antt =====
-- Runs of src/storage_lite/store.rs: a table of timestamps, two rows and a deletion.
use tally_db.Base.{
  ℕ, ◌<◌, ◌≡◌, refl, arith, true, false, Option, none, List, [], ◌∷◌, Result, ok, err,
}
use tally_db.Column.{Schema, i64, column_len, column_type, slot_valid}
use tally_db.Floats.Sample.{sample}
use tally_db.Segment.{
  SegmentView, with_sequence, new_batch, all_bind, binds, has_bitmap, first_len, type_eq,
  zone_maps_of,
}
use tally_db.WriteBuffer.{
  RowValue, i64_value, StorageError, i64_builder, new_buffer, new_builder, empty_builder,
  check_cell, check_cells, validate, push, push_cells, finish, finish_all, freeze_at,
}
use tally_db.ZoneMap.{compute_zone_map, i64_loop, widen_i64, i64_min, i64_max}
use tally_db.Store.{
  Store, new_store, append, tombstone, flush, next_sequence, knowledge_snapshot, newly_dead,
  insert_id, extend_stamps, find_bad,
}
use tally_db.Store.Knowledge.{
  insert_stamp, get_stamp, is_stamped, watermark, consume_sequence, buffer_sequence, append_row,
}
use tally_db.Store.Snapshot.{
  none_stamped, live_mask, masked, buffer_segment, snapshot_of, knowledge_snapshot_of,
  KnowledgeSnapshot, as_of,
}
use tally_db.Store.Versions.{Versions, read_views}
use tally_db.Store.Invariant.{StoreHolds, store_answer}
use tally_db.Store.Invariant.Operations.{killed}
use tally_db.Store.Flush.{flush-snapshot}
use tally_db.Store.Deleting.{CountsDying, tombstone-stamps, stamp_after}
use tally_db.Store.Touched.{every_birth, born_since, touched_births, touched_births-every}
use tally_db.Segment.{Segment, sequence_at}
use tally_db.Column.{Fault}
use tally_db.Store.Effects.{append-versions, supersede-versions}
use tally_db.Store.{supersede, supersede_rows, append_replacements, validate_all}
use tally_db.Store.Knowledge.{append_superseding}
use tally_db.Store.Invariant.{store_versions}
use tally_db.Store.Invariant.Replacing.{born_at}
use tally_db.Base.{◌++◌}
use tally_db.Store.Reached.{
  new_store-StoreHolds, Reached, here, call, append_step, tombstone_step, as_of-versions,
  as_of-stable,
}

abbrev clock_schema : Schema
clock_schema = record {
  fields = record { name = 116 ∷ 115 ∷ []; column_type = i64; nullable = false } ∷ [];
}

abbrev empty_store : Store (Option ℕ)
empty_store = record {
  schema = clock_schema;
  ordering_key = 0;
  segment_rows = 2;
  rows = 0;
  shared = record {
    segments = [];
    buffer = record {
      schema = clock_schema;
      ordering_key = 0;
      builders = i64_builder [] [] ∷ [];
      rows = 0;
      ordered = true;
      last_ordering_value = none;
    };
    buffer_base = 0;
    knowledge = none;
    tombstones = [];
    history = [];
  };
}

empty_store_lem : new_store clock_schema 0 2 ≡ ok empty_store
unfolding new_store new_buffer new_builder empty_builder
empty_store_lem = refl

abbrev taken_or_empty :
    Result StorageError (KnowledgeSnapshot (Option ℕ)) → KnowledgeSnapshot (Option ℕ)
taken_or_empty (ok taken) = taken
taken_or_empty (err e) = record { latest = []; history = []; stamps = [] }

-- One row.
abbrev one_row : Store (Option ℕ)
one_row = (append sample empty_store (i64_value 10 ∷ [])).0

-- A second row fills a segment, and the first is deleted.
abbrev two_rows : Store (Option ℕ)
two_rows = (append sample one_row (i64_value 20 ∷ [])).0

abbrev deleted : Store (Option ℕ)
deleted = killed two_rows (0 ∷ [])

deleted_lem : tombstone sample two_rows (0 ∷ []) ≡ ok (deleted, 1)
unfolding tombstone find_bad newly_dead insert_id is_stamped get_stamp append append_row validate
    check_cells check_cell tally_db.WriteBuffer.append push_cells push flush buffer_segment
    buffer_sequence freeze_at finish_all finish zone_maps_of compute_zone_map i64_loop slot_valid
    widen_i64 i64_min i64_max new_batch all_bind binds has_bitmap first_len type_eq with_sequence
    new_buffer new_builder empty_builder column_len column_type
deleted_lem = refl

abbrev taken_before : KnowledgeSnapshot (Option ℕ)
taken_before = taken_or_empty (knowledge_snapshot sample one_row)

taken_before_lem : knowledge_snapshot sample one_row ≡ ok taken_before
unfolding knowledge_snapshot knowledge_snapshot_of snapshot_of masked live_mask none_stamped append
    append_row validate check_cells check_cell tally_db.WriteBuffer.append push_cells push flush
    buffer_segment buffer_sequence freeze_at finish_all finish zone_maps_of compute_zone_map
    i64_loop slot_valid widen_i64 i64_min i64_max new_batch all_bind binds has_bitmap first_len
    type_eq with_sequence new_buffer new_builder empty_builder column_len column_type
taken_before_lem = refl

abbrev taken_after : KnowledgeSnapshot (Option ℕ)
taken_after = taken_or_empty (knowledge_snapshot sample deleted)

taken_after_lem : knowledge_snapshot sample deleted ≡ ok taken_after
unfolding knowledge_snapshot knowledge_snapshot_of snapshot_of masked live_mask none_stamped
    consume_sequence extend_stamps insert_stamp next_sequence watermark newly_dead insert_id
    is_stamped get_stamp append append_row validate check_cells check_cell
    tally_db.WriteBuffer.append push_cells push flush buffer_segment buffer_sequence freeze_at
    finish_all finish zone_maps_of compute_zone_map i64_loop slot_valid widen_i64 i64_min i64_max
    new_batch all_bind binds has_bitmap first_len type_eq with_sequence new_buffer new_builder
    empty_builder column_len column_type
taken_after_lem = refl

one_row_next : 0 < next_sequence one_row
unfolding next_sequence watermark append append_row validate check_cells check_cell
    tally_db.WriteBuffer.append push_cells push flush buffer_segment buffer_sequence freeze_at
    finish_all finish zone_maps_of compute_zone_map i64_loop slot_valid widen_i64 i64_min i64_max
    new_batch all_bind binds has_bitmap first_len type_eq with_sequence new_buffer new_builder
    empty_builder column_len column_type
one_row_next = omega arith

one_row-Reached : Reached sample empty_store one_row
one_row-Reached = call (append_step {store = empty_store} (i64_value 10 ∷ [])) here

deleted-Reached : Reached sample one_row deleted
deleted-Reached =
    call (append_step {store = one_row} (i64_value 20 ∷ []))
      (call (tombstone_step (0 ∷ []) 1 deleted_lem) here)

as_of-versions_example :
    (groups : List (Versions (Option ℕ))) × (tail : List (List (RowValue (Option ℕ)))) × StoreHolds
      one_row groups tail
    × (views : List (SegmentView (Option ℕ))) × (as_of taken_before 0 ≡ ok views)
    × (read_views views ≡ ok (store_answer one_row groups tail 0))
as_of-versions_example =
    as_of-versions sample clock_schema 0 2 empty_store one_row taken_before 0 empty_store_lem
      one_row-Reached taken_before_lem

-- The row that is deleted later is still there AS OF 0.
as_of-stable_example :
    (views views' : List (SegmentView (Option ℕ))) × (rows : List (List (RowValue (Option ℕ))))
    × (as_of taken_before 0 ≡ ok views)
    × (as_of taken_after 0 ≡ ok views')
    × (read_views views ≡ ok rows)
    × (read_views views' ≡ ok rows)
as_of-stable_example =
    as_of-stable sample clock_schema 0 2 empty_store one_row deleted taken_before taken_after 0
      empty_store_lem one_row-Reached deleted-Reached one_row_next taken_before_lem taken_after_lem

abbrev flushed_row : Store (Option ℕ)
flushed_row = elim (flush sample one_row) [ ok store ↦ store | err e ↦ one_row ]

flushed_once : flush sample one_row ≡ ok flushed_row
unfolding append append_row validate check_cells check_cell tally_db.WriteBuffer.append push_cells
    push flush buffer_segment buffer_sequence freeze_at finish_all finish zone_maps_of
    compute_zone_map i64_loop slot_valid widen_i64 i64_min i64_max new_batch all_bind binds
    has_bitmap first_len type_eq with_sequence new_buffer new_builder empty_builder column_len
    column_type
flushed_once = refl

flush-snapshot_example : knowledge_snapshot sample flushed_row ≡ knowledge_snapshot sample one_row
flush-snapshot_example = flush-snapshot sample one_row flushed_row flushed_once

first_append : append sample empty_store (i64_value 10 ∷ []) ≡ (one_row, ok 0)
unfolding knowledge_snapshot knowledge_snapshot_of snapshot_of masked live_mask none_stamped append
    append_row validate check_cells check_cell tally_db.WriteBuffer.append push_cells push flush
    buffer_segment buffer_sequence freeze_at finish_all finish zone_maps_of compute_zone_map
    i64_loop slot_valid widen_i64 i64_min i64_max new_batch all_bind binds has_bitmap first_len
    type_eq with_sequence new_buffer new_builder empty_builder column_len column_type
first_append = refl

append-versions_example :
    (groups : List (Versions (Option ℕ))) × (tail : List (List (RowValue (Option ℕ)))) × StoreHolds
      one_row groups tail
    × (store_versions one_row groups tail
        ≡ store_versions empty_store [] [] ++ ((i64_value 10 ∷ [], next_sequence empty_store) ∷ []))
    × (0 ≡ empty_store.rows)
append-versions_example =
    append-versions sample empty_store one_row [] [] (i64_value 10 ∷ []) 0
      (new_store-StoreHolds sample clock_schema 0 2 empty_store empty_store_lem) first_append

one_row-StoreHolds :
    (groups : List (Versions (Option ℕ))) × (tail : List (List (RowValue (Option ℕ)))) × StoreHolds
      one_row groups tail
one_row-StoreHolds =
    let (groups, tail, h, _, _) =
      append-versions sample empty_store one_row [] [] (i64_value 10 ∷ []) 0
        (new_store-StoreHolds sample clock_schema 0 2 empty_store empty_store_lem) first_append in
    (groups, tail, h)

abbrev replaced : Store (Option ℕ)
replaced = (supersede sample one_row ((i64_value 20 ∷ []) ∷ []) (0 ∷ [])).0

replaced_lem : supersede sample one_row ((i64_value 20 ∷ []) ∷ []) (0 ∷ []) ≡ (replaced, ok 1)
unfolding supersede supersede_rows append_replacements append_superseding validate_all find_bad
    newly_dead insert_id is_stamped get_stamp extend_stamps insert_stamp next_sequence watermark
    knowledge_snapshot knowledge_snapshot_of snapshot_of masked live_mask none_stamped append
    append_row validate check_cells check_cell tally_db.WriteBuffer.append push_cells push flush
    buffer_segment buffer_sequence freeze_at finish_all finish zone_maps_of compute_zone_map
    i64_loop slot_valid widen_i64 i64_min i64_max new_batch all_bind binds has_bitmap first_len
    type_eq with_sequence new_buffer new_builder empty_builder column_len column_type
replaced_lem = refl

supersede-versions_example :
    (groups : List (Versions (Option ℕ))) × (tail : List (List (RowValue (Option ℕ)))) × StoreHolds
      replaced groups tail
    × (store_versions replaced groups tail
        ≡ store_versions one_row one_row-StoreHolds.0 one_row-StoreHolds.1
          ++ born_at (next_sequence one_row) ((i64_value 20 ∷ []) ∷ []))
    × CountsDying one_row.shared.tombstones (0 ∷ []) 1
    × ((j : ℕ)
        → get_stamp replaced.shared.tombstones j
          ≡ stamp_after (0 ∷ []) (next_sequence one_row) j (get_stamp one_row.shared.tombstones j))
supersede-versions_example =
    supersede-versions sample one_row replaced one_row-StoreHolds.0 one_row-StoreHolds.1
      ((i64_value 20 ∷ []) ∷ []) (0 ∷ []) 1 one_row-StoreHolds.2 replaced_lem

tombstone-stamps_example :
    CountsDying two_rows.shared.tombstones (0 ∷ []) 1
    × ((j : ℕ)
        → get_stamp deleted.shared.tombstones j
          ≡ stamp_after
              (0 ∷ [])
              (next_sequence two_rows)
              j
              (get_stamp two_rows.shared.tombstones j))
tombstone-stamps_example = tombstone-stamps sample two_rows deleted (0 ∷ []) 1 deleted_lem

abbrev touched_or_none :
    Result Fault (List (Segment (Option ℕ) × ℕ)) → List (Segment (Option ℕ) × ℕ)
touched_or_none (ok touched) = touched
touched_or_none (err e) = []

born_before :
    every_birth taken_before.latest 0 ≡ ok (touched_or_none (every_birth taken_before.latest 0))
unfolding every_birth born_since sequence_at knowledge_snapshot knowledge_snapshot_of snapshot_of
    masked live_mask none_stamped append append_row validate check_cells check_cell
    tally_db.WriteBuffer.append push_cells push flush buffer_segment buffer_sequence freeze_at
    finish_all finish zone_maps_of compute_zone_map i64_loop slot_valid widen_i64 i64_min i64_max
    new_batch all_bind binds has_bitmap first_len type_eq with_sequence new_buffer new_builder
    empty_builder column_len column_type
born_before = refl

touched_births-every_example :
    touched_births taken_before.latest 0 ≡ ok (touched_or_none (every_birth taken_before.latest 0))
touched_births-every_example =
    touched_births-every taken_before.latest 0 (touched_or_none (every_birth taken_before.latest 0))
      born_before
