-- ===== src/Segment.antt =====
-- `RecordBatch` of src/arrow_lite/schema.rs, and `Segment` and `SegmentView` of
-- src/storage_lite/mem.rs and store.rs. `panic` is a failed `assert!`.
pub mod Batch
use tally_db.Base.{
  ℕ, ◌+◌, max, Bool, true, false, not, ◌&&◌, ◌||◌, Option, none, some, List, [], ◌∷◌,
}
use tally_db.Base.{length, get_elem?, ◌==◌, if◌then◌else◌, Result, ok, err, ◌>>=◌, ok_or}
use tally_db.Bitmap.{Bitmap, get}
use tally_db.Column.{Column, f64_column, i64_column, key_column, ColumnType, f64, i64, key}
use tally_db.Column.{column_type, column_len, Field, Schema, Fault, panic}
use tally_db.Floats.{Floats}
use tally_db.ZoneMap.{ZoneMap, compute_zone_map}

unfoldable pub type_eq : ColumnType → ColumnType → Bool
type_eq f64 f64 = true
type_eq i64 i64 = true
type_eq key key = true
type_eq _ _ = false

module _ {F : Type 0} where
  unfoldable pub has_bitmap : Column F → Bool
  has_bitmap (f64_column _ (some _)) = true
  has_bitmap (i64_column _ (some _)) = true
  has_bitmap (key_column _ (some _) _) = true
  has_bitmap _ = false

  -- The three assertions on a field and its column.
  unfoldable pub binds : ℕ → Field → Column F → Bool
  binds num_rows field column =
      type_eq field.column_type (column_type column)
      && ((column_len column == num_rows) && (field.nullable || not (has_bitmap column)))

  unfoldable pub all_bind : ℕ → List Field → List (Column F) → Bool
  all_bind num_rows (field ∷ fields) (column ∷ columns) =
      binds num_rows field column && all_bind num_rows fields columns
  all_bind num_rows _ _ = true

  unfoldable pub first_len : List (Column F) → ℕ
  first_len [] = 0
  first_len (column ∷ columns) = column_len column

pub record RecordBatch (F : Type 0) : Type 0 where
  pub schema : Schema
  pub columns : List (Column F)
  pub num_rows : ℕ

module _ {F : Type 0} where
  -- `RecordBatch::new`
  unfoldable pub new_batch : Schema → List (Column F) → Result Fault (RecordBatch F)
  new_batch schema columns =
      let num_rows = first_len columns in
      if (length schema.fields == length columns) && all_bind num_rows schema.fields columns
      then ok (record { schema = schema; columns = columns; num_rows = num_rows })
      else err panic

-- Where the ingest sequences of a segment's rows live.
pub data SequenceInfo : Type 0 where
  row_ids : SequenceInfo
  contiguous : ℕ → SequenceInfo
  explicit : List ℕ → SequenceInfo

pub record Segment (F : Type 0) : Type 0 where
  pub batch : RecordBatch F
  pub ordering_key : ℕ
  pub ordered : Bool
  pub base_row_id : ℕ
  pub zone_maps : List (Option (ZoneMap F))
  pub sequence : SequenceInfo
  pub superseded : Option (List ℕ)

-- A segment with the mask of its live rows.
pub record SegmentView (F : Type 0) : Type 0 where
  pub segment : Segment F
  pub live : Option Bitmap

abbrev live_bit : Option Bitmap → ℕ → Option Bool
live_bit none row = some true
live_bit (some mask) row = get mask row

abbrev pub sequence_value : ℕ → SequenceInfo → ℕ → Result Fault ℕ
sequence_value base_row_id row_ids offset = ok (base_row_id + offset)
sequence_value base_row_id (contiguous base) offset = ok (base + offset)
sequence_value base_row_id (explicit values) offset = ok_or panic (get_elem? values offset)

-- `values.iter().max().map_or(0, |largest| largest + 1)`
abbrev pub one_past : List ℕ → ℕ
one_past [] = 0
one_past (x ∷ xs) = max (x + 1) (one_past xs)

abbrev pub end_value : ℕ → SequenceInfo → ℕ → ℕ
end_value base_row_id row_ids rows = base_row_id + rows
end_value base_row_id (contiguous base) rows = base + rows
end_value base_row_id (explicit values) rows = one_past values

-- One value for each row, where the values are explicit.
abbrev pub fits : ℕ → SequenceInfo → Bool
fits rows row_ids = true
fits rows (contiguous base) = true
fits rows (explicit values) = length values == rows

module _ {F : Type 0} where
  unfoldable pub zone_map : Segment F → ℕ → Option (ZoneMap F)
  zone_map segment index = elim (get_elem? segment.zone_maps index) [ none ↦ none | some m ↦ m ]

  unfoldable pub zone_maps_present : Segment F → Bool
  zone_maps_present segment = elim segment.zone_maps [ [] ↦ false | _ ∷ _ ↦ true ]

  unfoldable pub is_live : SegmentView F → ℕ → Result Fault Bool
  is_live view row = ok_or panic (live_bit view.live row)

  unfoldable pub sequence_at : Segment F → ℕ → Result Fault ℕ
  sequence_at segment offset = sequence_value segment.base_row_id segment.sequence offset

  unfoldable pub sequence_end : Segment F → ℕ
  sequence_end segment = end_value segment.base_row_id segment.sequence segment.batch.num_rows

  unfoldable pub with_sequence : SequenceInfo → Segment F → Result Fault (Segment F)
  with_sequence sequence segment =
      if fits segment.batch.num_rows sequence
      then ok (record segment { sequence = sequence })
      else err panic

  pub with_superseded : List ℕ → Segment F → Result Fault (Segment F)
  with_superseded superseded segment =
      if length superseded == segment.batch.num_rows
      then ok (record segment { superseded = some superseded })
      else err panic

module _ (fl : Floats) where
  open fl use {F}

  -- `columns().iter().map(compute_zone_map).collect()`
  unfoldable pub zone_maps_of : List (Column F) → Result Fault (List (Option (ZoneMap F)))
  zone_maps_of [] = ok []
  zone_maps_of (column ∷ columns) = do
    m ← compute_zone_map fl column
    maps ← zone_maps_of columns
    ok (m ∷ maps)

  unfoldable pub from_batch : RecordBatch F → ℕ → Bool → Result Fault (Segment F)
  from_batch batch ordering_key ordered = do
    maps ← zone_maps_of batch.columns
    ok (record {
      batch = batch;
      ordering_key = ordering_key;
      ordered = ordered;
      base_row_id = 0;
      zone_maps = maps;
      sequence = row_ids;
      superseded = none;
    })

  pub from_batch_unpruned : RecordBatch F → ℕ → Bool → Segment F
  from_batch_unpruned batch ordering_key ordered = record {
    batch = batch;
    ordering_key = ordering_key;
    ordered = ordered;
    base_row_id = 0;
    zone_maps = [];
    sequence = row_ids;
    superseded = none;
  }
