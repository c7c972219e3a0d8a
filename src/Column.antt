-- ===== src/Column.antt =====
-- src/arrow_lite/column.rs, buffer.rs, schema.rs and the reading side of key.rs: columns, the
-- dictionary of a key column, and schemas. A string is the list of its UTF-8 bytes, and `none` is a
-- failed `assert!` or an index out of range.
use tally_db.Base.{ℕ, ◌+◌, ◌-◌, Bool, true, false, Option, none, some, List, [], ◌∷◌}
use tally_db.Base.{length, get_elem?, take, drop, leb, ltb, ◌==◌, if◌then◌else◌, ◌&&◌}
use tally_db.Base.{Result, err, ok_or}
use tally_db.Bitmap.{Bitmap, get}

abbrev pub Text : Type 0
Text = List ℕ

unfoldable pub text_eq : Text → Text → Bool
text_eq [] [] = true
text_eq (a ∷ s) (b ∷ t) = (a == b) && text_eq s t
text_eq _ _ = false

pub record Dictionary : Type 0 where
  pub offsets : List ℕ
  pub bytes : List ℕ
  -- `HashMap<String, u32>`
  pub index : List (Text × ℕ)

-- `offsets` starts as one 0, and the bytes between two offsets are one interned string.
unfoldable pub dictionary_len : Dictionary → ℕ
dictionary_len d = length d.offsets - 1

abbrev slice : List ℕ → Option ℕ → Option ℕ → Option Text
slice bytes (some start) (some end) =
    if leb start end && leb end (length bytes)
    then some (take (end - start) (drop start bytes))
    else none
slice bytes _ _ = none

unfoldable pub dictionary_value : Dictionary → ℕ → Option Text
dictionary_value d code =
    if ltb code (dictionary_len d)
    then slice d.bytes (get_elem? d.offsets code) (get_elem? d.offsets (code + 1))
    else none

pub data ColumnType : Type 0 where
  f64 i64 key : ColumnType

-- `Numeric(F64)`, `Numeric(I64)` and `Key`, each with its validity bitmap.
pub data Column (F : Type 0) : Type 0 where
  f64_column : List F → Option Bitmap → Column F
  i64_column : List ℕ → Option Bitmap → Column F
  key_column : List ℕ → Option Bitmap → Dictionary → Column F

module _ {F : Type 0} where
  unfoldable pub column_type : Column F → ColumnType
  column_type (f64_column _ _) = f64
  column_type (i64_column _ _) = i64
  column_type (key_column _ _ _) = key

  unfoldable pub column_len : Column F → ℕ
  column_len (f64_column values _) = length values
  column_len (i64_column values _) = length values
  column_len (key_column codes _ _) = length codes

-- What a query may answer with: an error that the caller is told of, or a panic.
pub data Fault : Type 0 where
  panic no_such_column type_error unsupported : Fault

-- `is_valid`: the row is checked against the column's length, then against the bitmap's.
abbrev valid_bit : Option Bitmap → ℕ → Option Bool
valid_bit none row = some true
valid_bit (some bm) row = get bm row

unfoldable pub slot_valid : ℕ → Option Bitmap → ℕ → Result Fault Bool
slot_valid len validity row =
    if ltb row len then ok_or panic (valid_bit validity row) else err panic

module _ {F : Type 0} where
  unfoldable pub is_valid : Column F → ℕ → Result Fault Bool
  is_valid (f64_column values validity) row = slot_valid (length values) validity row
  is_valid (i64_column values validity) row = slot_valid (length values) validity row
  is_valid (key_column codes validity _) row = slot_valid (length codes) validity row

pub record Field : Type 0 where
  pub name : Text
  pub column_type : ColumnType
  pub nullable : Bool

pub record Schema : Type 0 where
  pub fields : List Field

-- `fields().iter().position(|field| field.name() == name)`
unfoldable pub position : List Field → Text → Option ℕ
position [] name = none
position (field ∷ fields) name =
    let rest = position fields name in
    if text_eq field.name name then some 0 else elim rest [ none ↦ none | some i ↦ some (i + 1) ]
