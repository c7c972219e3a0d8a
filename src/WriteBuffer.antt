-- ===== src/WriteBuffer.antt =====
-- `RowValue`, `WriteBuffer` and `ColumnBuilder` of src/storage_lite/mem.rs, and `cell_value` of
-- src/storage_lite/store.rs: rows are checked at the door, gathered column by column, and frozen into
-- a segment. `panicked` stands for every panic.
pub mod Slots
pub mod Contents
pub mod Freeze
pub mod Rows
mod Runs
use tally_db.Base.{
  ℕ, ◌+◌, Bool, true, false, not, ◌&&◌, ◌||◌, Option, none, some, List, [], ◌∷◌, ◌++◌, map,
}
use tally_db.Base.{length, get_elem?, ltb, leb, ◌==◌, if◌then◌else◌, Result, ok, err, ◌>>=◌, ok_or}
use tally_db.Base.Word.{i64_rank}
use tally_db.Bitmap.{Bitmap, from_bools}
use tally_db.Column.{
  Text, Dictionary, dictionary_len, dictionary_value, Column, f64_column, i64_column, key_column,
}
use tally_db.Column.{ColumnType, f64, i64, key, Field, Schema, Fault, slot_valid}
use tally_db.Floats.{Floats}
use tally_db.Interning.{new_dictionary, intern}
use tally_db.Segment.{Segment, row_ids, new_batch, zone_maps_of}

pub data RowValue (F : Type 0) : Type 0 where
  f64_value : F → RowValue F
  i64_value : ℕ → RowValue F
  key_value : Text → RowValue F
  null_value : RowValue F

-- The constructors that carry only a message lose it.
pub data StorageError : Type 0 where
  options bad_ordering_key io format schema_mismatch misuse panicked : StorageError
  wrong_arity : ℕ → ℕ → StorageError
  type_mismatch : Text → ColumnType → StorageError
  null_not_allowed all_null_key_column : Text → StorageError
  missing_rows tombstone_out_of_range : ℕ → StorageError

-- A panic below, as the store meets it.
abbrev pub asserted {ℓ} : {A : Type ℓ} → Result Fault A → Result StorageError A
asserted (ok a) = ok a
asserted (err e) = err panicked

pub data Builder (F : Type 0) : Type 0 where
  f64_builder : List F → List Bool → Builder F
  i64_builder : List ℕ → List Bool → Builder F
  key_builder : List ℕ → List Bool → Dictionary → Builder F

pub record WriteBuffer (F : Type 0) : Type 0 where
  pub schema : Schema
  pub ordering_key : ℕ
  pub builders : List (Builder F)
  pub rows : ℕ
  pub ordered : Bool
  pub last_ordering_value : Option ℕ

-- The ordering key is an `i64` column, and NOT NULL.
abbrev orders : Field → Bool
orders field = elim field.column_type [ i64 ↦ not field.nullable | _ ↦ false ]

module _ {F : Type 0} where
  unfoldable pub empty_builder : ColumnType → Builder F
  unfolding new_dictionary
  empty_builder f64 = f64_builder [] []
  empty_builder i64 = i64_builder [] []
  empty_builder key = key_builder [] [] new_dictionary

  unfoldable pub new_builder : Field → Builder F
  unfolding empty_builder
  new_builder field = empty_builder field.column_type

  abbrev pub fresh : Schema → ℕ → WriteBuffer F
  fresh schema ordering_key = record {
    schema = schema;
    ordering_key = ordering_key;
    builders = map new_builder schema.fields;
    rows = 0;
    ordered = true;
    last_ordering_value = none;
  }

  -- `WriteBuffer::new`
  unfoldable pub new_buffer : Schema → ℕ → Result StorageError (WriteBuffer F)
  new_buffer schema ordering_key = elim (get_elem? schema.fields ordering_key) [
    | none ↦ err bad_ordering_key
    | some field ↦ if orders field then ok (fresh schema ordering_key) else err bad_ordering_key
  ]

  abbrev same_type : ColumnType → RowValue F → Bool
  same_type f64 (f64_value v) = true
  same_type i64 (i64_value v) = true
  same_type key (key_value v) = true
  same_type _ _ = false

  -- What is wrong with a cell, if anything is.
  unfoldable pub check_cell : Field → RowValue F → Result StorageError (Unit {0})
  check_cell field null_value = if field.nullable then ok tt else err (null_not_allowed field.name)
  check_cell field cell =
      if same_type field.column_type cell
      then ok tt
      else err (type_mismatch field.name field.column_type)

  unfoldable pub check_cells : List Field → List (RowValue F) → Result StorageError (Unit {0})
  check_cells (field ∷ fields) (cell ∷ row) = do
    done ← check_cell field cell
    check_cells fields row
  check_cells _ _ = ok tt

  unfoldable pub validate : WriteBuffer F → List (RowValue F) → Result StorageError (Unit {0})
  validate buffer row =
      if length row == length buffer.schema.fields
      then check_cells buffer.schema.fields row
      else err (wrong_arity (length buffer.schema.fields) (length row))

  abbrev code_pushed :
      List ℕ → List Bool → Result Fault (Dictionary × ℕ) → Result StorageError (Builder F)
  code_pushed codes nulls (ok (dictionary, code)) =
      ok (key_builder (codes ++ (code ∷ [])) (nulls ++ (false ∷ [])) dictionary)
  code_pushed codes nulls (err e) = err panicked

module _ (fl : Floats) where
  open fl use {F, from_i64}

  -- `ColumnBuilder::push`; `0.0` and 0 stand under a null.
  unfoldable pub push : Builder F → RowValue F → Result StorageError (Builder F)
  push (f64_builder values nulls) (f64_value v) =
      ok (f64_builder (values ++ (v ∷ [])) (nulls ++ (false ∷ [])))
  push (f64_builder values nulls) null_value =
      ok (f64_builder (values ++ (from_i64 0 ∷ [])) (nulls ++ (true ∷ [])))
  push (i64_builder values nulls) (i64_value v) =
      ok (i64_builder (values ++ (v ∷ [])) (nulls ++ (false ∷ [])))
  push (i64_builder values nulls) null_value =
      ok (i64_builder (values ++ (0 ∷ [])) (nulls ++ (true ∷ [])))
  push (key_builder codes nulls dictionary) (key_value v) =
      code_pushed codes nulls (intern dictionary v)
  push (key_builder codes nulls dictionary) null_value =
      ok (key_builder (codes ++ (0 ∷ [])) (nulls ++ (true ∷ [])) dictionary)
  push _ _ = err panicked

  unfoldable pub push_cells :
      List (Builder F) → List (RowValue F) → Result StorageError (List (Builder F))
  push_cells (builder ∷ builders) (cell ∷ row) = do
    first ← push builder cell
    rest ← push_cells builders row
    ok (first ∷ rest)
  push_cells builders _ = ok builders

  -- `value < last` clears the flag for good.
  abbrev still_ordered : Bool → Option ℕ → ℕ → Bool
  still_ordered ordered none value = ordered
  still_ordered ordered (some last) value =
      if ltb (i64_rank value) (i64_rank last) then false else ordered

  abbrev pub counted : WriteBuffer F → List (Builder F) → RowValue F → WriteBuffer F
  counted buffer builders (i64_value value) = record buffer {
    builders = builders;
    rows = buffer.rows + 1;
    ordered = still_ordered buffer.ordered buffer.last_ordering_value value;
    last_ordering_value = some value;
  }
  counted buffer builders cell = record buffer { builders = builders; rows = buffer.rows + 1 }

  unfoldable pub append : WriteBuffer F → List (RowValue F) → Result StorageError (WriteBuffer F)
  append buffer row = do
    valid ← validate buffer row
    builders ← push_cells buffer.builders row
    cell ← ok_or panicked (get_elem? row buffer.ordering_key)
    ok (counted buffer builders cell)

abbrev any_null : List Bool → Bool
any_null [] = false
any_null (n ∷ nulls) = n || any_null nulls

-- A bitmap only where there is a null. It has one bit for each row, so the assertion of
-- `new_nullable` on the lengths compares the values with the nulls.
abbrev validity : List Bool → Option Bitmap
validity nulls = if any_null nulls then some (from_bools (map not nulls)) else none

abbrev lengths_agree : List Bool → ℕ → Bool
lengths_agree nulls len = not (any_null nulls) || (len == length nulls)

-- `validate_codes`
unfoldable pub codes_in_range : List ℕ → ℕ → Bool
codes_in_range [] len = true
codes_in_range (c ∷ codes) len = if leb len c then false else codes_in_range codes len

abbrev is_empty {ℓ} : {A : Type ℓ} → List A → Bool
is_empty [] = true
is_empty (x ∷ xs) = false

module _ {F : Type 0} where
  -- `ColumnBuilder::finish`
  unfoldable pub finish : Text → Builder F → Result StorageError (Column F)
  finish name (f64_builder values nulls) =
      if lengths_agree nulls (length values)
      then ok (f64_column values (validity nulls))
      else err panicked
  finish name (i64_builder values nulls) =
      if lengths_agree nulls (length values)
      then ok (i64_column values (validity nulls))
      else err panicked
  finish name (key_builder codes nulls dictionary) =
      if (dictionary_len dictionary == 0) && not (is_empty codes)
      then err (all_null_key_column name)
      else (if lengths_agree nulls (length codes)
            && codes_in_range codes (dictionary_len dictionary)
          then ok (key_column codes (validity nulls) dictionary)
          else err panicked)

  unfoldable pub finish_all : List Field → List (Builder F) → Result StorageError (List (Column F))
  finish_all (field ∷ fields) (builder ∷ builders) = do
    column ← finish field.name builder
    columns ← finish_all fields builders
    ok (column ∷ columns)
  finish_all _ _ = ok []

module _ (fl : Floats) where
  open fl use {F}

  -- `freeze_at`, and `snapshot_at` on a clone.
  unfoldable pub freeze_at : WriteBuffer F → ℕ → Result StorageError (Segment F)
  freeze_at buffer base_row_id = do
    columns ← finish_all buffer.schema.fields buffer.builders
    maps ← asserted (zone_maps_of fl columns)
    batch ← asserted (new_batch buffer.schema columns)
    ok (record {
      batch = batch;
      ordering_key = buffer.ordering_key;
      ordered = buffer.ordered;
      base_row_id = base_row_id;
      zone_maps = maps;
      sequence = row_ids;
      superseded = none;
    })

module _ {F : Type 0} where
  abbrev read_slot {ℓ} :
      {A : Type ℓ} → Bool → Option A → (A → RowValue F) → Result StorageError (RowValue F)
  read_slot false value wrap = ok null_value
  read_slot true none wrap = err panicked
  read_slot true (some v) wrap = ok (wrap v)

  abbrev read_code : Bool → Dictionary → Option ℕ → Result StorageError (RowValue F)
  read_code false dictionary code = ok null_value
  read_code true dictionary none = err panicked
  read_code true dictionary (some c) = elim (dictionary_value dictionary c) [
    | none ↦ err panicked
    | some v ↦ ok (key_value v)
  ]

  unfoldable pub cell_value : Column F → ℕ → Result StorageError (RowValue F)
  cell_value (f64_column values v) row = do
    valid ← asserted (slot_valid (length values) v row)
    read_slot valid (get_elem? values row) f64_value
  cell_value (i64_column values v) row = do
    valid ← asserted (slot_valid (length values) v row)
    read_slot valid (get_elem? values row) i64_value
  cell_value (key_column codes v dictionary) row = do
    valid ← asserted (slot_valid (length codes) v row)
    read_code valid dictionary (get_elem? codes row)

  -- The cells of one row.
  unfoldable pub row_at : List (Column F) → ℕ → Result StorageError (List (RowValue F))
  row_at [] row = ok []
  row_at (column ∷ columns) row = do
    cell ← cell_value column row
    cells ← row_at columns row
    ok (cell ∷ cells)
