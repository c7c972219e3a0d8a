-- ===== src/Wal/Cells.antt =====
-- The cells and the payloads of the write-ahead log of src/storage_lite/format.rs, encoded and decoded.
use mathlib.Core.List.{append-nil, append_assoc}
use tally_db.Base.{
  ℕ, ◌%◌, ◌^◌, ◌<◌, ◌≡◌, refl, ◌∙◌, ap, subst, arith, true, List, [], ◌∷◌, ◌++◌, length, All, ok,
}
use tally_db.Base.Word.{IsWord}
use tally_db.Base.Bytes.{le_bytes, from_le_bytes, from_le_bytes-le_bytes}
use tally_db.Format.{take_bytes, read_le, take_bytes-append, read_le-le_bytes}
use tally_db.WriteBuffer.{RowValue, f64_value, i64_value, key_value, null_value}
use tally_db.Wal.{
  Primitives, WalEntry, row_entry, supersession_entry, supersession_payload, encode_cell,
  row_payload,
}
use tally_db.Wal.{decode_text, decode_cell, decode_cells, decode_row, decode_control, decode_entry}

read_tag : (tag : ℕ) (rest : List ℕ) → tag < 256 → read_le 1 (tag ∷ rest) ≡ ok (tag, rest)
unfolding read_le take_bytes from_le_bytes
read_tag tag rest h = ground arith

module _ {F : Type 0} (prims : Primitives F) where
  open prims use {to_bits, from_bits, utf8}

  -- A cell that the log can hold: a float that its 64 bits give back, a text in UTF-8 whose length is a
  -- `u32`.
  abbrev pub Encodable : RowValue F → Type 0
  Encodable null_value = Unit
  Encodable (i64_value v) = IsWord v
  Encodable (f64_value v) = IsWord (to_bits v) × (from_bits (to_bits v) ≡ v)
  Encodable (key_value v) = (length v < 2 ^ 32) × (utf8 v ≡ true)

  pub decode_cell-encode_cell :
      (cell : RowValue F) (rest : List ℕ)
      → Encodable cell
      → decode_cell prims (encode_cell prims cell ++ rest) ≡ ok (cell, rest)
  unfolding decode_cell encode_cell decode_text
  decode_cell-encode_cell null_value rest h = rw (read_tag 0 rest (omega arith)) refl
  decode_cell-encode_cell (i64_value v) rest h =
      rw (read_tag 1 (le_bytes 8 v ++ rest) (omega arith), read_le-le_bytes 8 v rest h) refl
  decode_cell-encode_cell (f64_value v) rest (h, back) =
      rw
        (
          read_tag 2 (le_bytes 8 (to_bits v) ++ rest) (omega arith),
          read_le-le_bytes 8 (to_bits v) rest h,
        )
        (ap (λ w. ok (f64_value w, rest)) back)
  decode_cell-encode_cell (key_value v) rest (h, u) =
      let len = length v % 2 ^ 32 in
      rw
        (
          read_tag 3 ((le_bytes 4 len ++ v) ++ rest) (omega arith),
          append_assoc (le_bytes 4 len) v rest,
          read_le-le_bytes 4 len (v ++ rest) (omega arith),
          take_bytes-append v rest len (omega arith),
          u,
        )
        refl

  pub decode_cells-row_payload :
      (row : List (RowValue F)) (rest : List ℕ)
      → All Encodable row
      → decode_cells prims (length row) (row_payload prims row ++ rest) ≡ ok row
  unfolding decode_cells row_payload
  decode_cells-row_payload [] rest h = refl
  decode_cells-row_payload (cell ∷ row) rest (h, hs) =
      rw
        (
          append_assoc (encode_cell prims cell) (row_payload prims row) rest,
          decode_cell-encode_cell cell (row_payload prims row ++ rest) h,
          decode_cells-row_payload row rest hs,
        )
        refl

  abbrev pub payload : WalEntry F → List ℕ
  payload (row_entry row) = row_payload prims row
  payload (supersession_entry sequence replacements) = supersession_payload sequence replacements

  -- An entry that the log of a table with so many columns can hold.
  abbrev pub Fits : ℕ → WalEntry F → Type 0
  Fits columns (row_entry row) =
      (length row ≡ columns) × All Encodable row × (length (row_payload prims row) < 2 ^ 32)
  Fits columns (supersession_entry sequence replacements) = IsWord sequence × IsWord replacements

  decode_entry-row :
      (row : List (RowValue F)) (columns : ℕ)
      → decode_entry prims columns (row_payload prims row)
        ≡ decode_row prims columns (row_payload prims row)
  unfolding decode_entry row_payload encode_cell
  decode_entry-row [] columns = refl
  decode_entry-row (null_value ∷ row) columns = refl
  decode_entry-row (i64_value v ∷ row) columns = refl
  decode_entry-row (f64_value v ∷ row) columns = refl
  decode_entry-row (key_value v ∷ row) columns = refl

  decode_entry-supersession :
      (sequence replacements columns : ℕ)
      → IsWord sequence
      → IsWord replacements
      → decode_entry prims columns (supersession_payload sequence replacements)
        ≡ ok (supersession_entry sequence replacements)
  unfolding decode_entry decode_control supersession_payload le_bytes
  decode_entry-supersession sequence replacements columns h g =
      rw (from_le_bytes-le_bytes 8 sequence h, from_le_bytes-le_bytes 8 replacements g) refl

  pub decode_entry-payload :
      (entry : WalEntry F) (columns : ℕ)
      → Fits columns entry
      → decode_entry prims columns (payload entry) ≡ ok entry
  unfolding decode_row
  decode_entry-payload (row_entry row) columns (l, cells, _) =
      let whole =
        subst (λ p. decode_cells prims (length row) p ≡ ok row) (append-nil (row_payload prims row))
          (decode_cells-row_payload row [] cells) in
      let read = subst (λ n. decode_cells prims n (row_payload prims row) ≡ ok row) l whole in
      decode_entry-row row columns ∙ rw read refl
  decode_entry-payload (supersession_entry s n) columns (h, g) =
      decode_entry-supersession s n columns h g

  pub length-payload :
      (entry : WalEntry F) (columns : ℕ) → Fits columns entry → length (payload entry) < 2 ^ 32
  unfolding supersession_payload le_bytes
  length-payload (row_entry row) columns (_, _, l) = l
  length-payload (supersession_entry s n) columns h = omega arith
