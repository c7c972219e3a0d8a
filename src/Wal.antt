-- ===== src/Wal.antt =====
-- The write-ahead log of src/storage_lite/format.rs: its header, its records and their decoding. A
-- `WalCell` is the `RowValue` that it stands for.
pub mod Cells
pub mod Records
pub mod Recovery
mod Runs
use tally_db.Base.{
  ℕ, zero, suc, ◌+◌, ◌-◌, ◌%◌, ◌^◌, Bool, true, false, not, ◌&&◌, Option, none, some, List, [], ◌∷◌,
  ◌++◌,
}
use tally_db.Base.{length, take, drop, get_elem?, ◌==◌, if◌then◌else◌, Result, ok, err, ◌>>=◌}
use tally_db.Base.Bytes.{le_bytes, from_le_bytes}
use tally_db.Checksum.{crc32c}
use tally_db.Column.{Text, text_eq}
use tally_db.Format.{FormatError, corrupt, take_bytes, read_le}
use tally_db.WriteBuffer.{RowValue, f64_value, i64_value, key_value, null_value}

-- `f64::to_bits` and `f64::from_bits`, and whether `str::from_utf8` takes the bytes.
pub record Primitives (F : Type 0) : Type 0 where
  pub to_bits : F → ℕ
  pub from_bits : ℕ → F
  pub utf8 : Text → Bool

pub data WalEntry (F : Type 0) : Type 0 where
  row_entry : List (RowValue F) → WalEntry F
  supersession_entry : ℕ → ℕ → WalEntry F

pub record WalContents (F : Type 0) : Type 0 where
  pub generation : ℕ
  pub base_row_id : ℕ
  -- `none` if the fuel of the loop ran out
  pub entries : Option (List (WalEntry F))

-- "TALLYWAL"
abbrev pub wal_magic : List ℕ
wal_magic = 84 ∷ 65 ∷ 76 ∷ 76 ∷ 89 ∷ 87 ∷ 65 ∷ 76 ∷ []

-- What the checksum of the header covers: 26 bytes, magic, version 2, generation and first row id.
unfoldable pub header_start : ℕ → ℕ → List ℕ
header_start generation base_row_id =
    wal_magic ++ (le_bytes 2 2 ++ (le_bytes 8 generation ++ le_bytes 8 base_row_id))

unfoldable pub encode_wal_header : ℕ → ℕ → List ℕ
encode_wal_header generation base_row_id =
    let start = header_start generation base_row_id in start ++ le_bytes 4 (crc32c start)

-- A payload with its length, a `u32`, and its checksum.
unfoldable pub wal_record : List ℕ → List ℕ
wal_record payload =
    le_bytes 4 (length payload % 2 ^ 32) ++ (payload ++ le_bytes 4 (crc32c payload))

unfoldable pub supersession_payload : ℕ → ℕ → List ℕ
supersession_payload sequence replacements =
    0xff ∷ 1 ∷ (le_bytes 8 sequence ++ le_bytes 8 replacements)

unfoldable pub encode_wal_supersession : ℕ → ℕ → List ℕ
encode_wal_supersession sequence replacements =
    wal_record (supersession_payload sequence replacements)

module _ {F : Type 0} (prims : Primitives F) where
  open prims use {to_bits, from_bits, utf8}

  unfoldable pub encode_cell : RowValue F → List ℕ
  encode_cell null_value = 0 ∷ []
  encode_cell (i64_value value) = 1 ∷ le_bytes 8 value
  encode_cell (f64_value value) = 2 ∷ le_bytes 8 (to_bits value)
  encode_cell (key_value value) = 3 ∷ (le_bytes 4 (length value % 2 ^ 32) ++ value)

  unfoldable pub row_payload : List (RowValue F) → List ℕ
  row_payload [] = []
  row_payload (cell ∷ row) = encode_cell cell ++ row_payload row

  unfoldable pub encode_wal_record : List (RowValue F) → List ℕ
  encode_wal_record row = wal_record (row_payload row)

  unfoldable pub encode_entry : WalEntry F → List ℕ
  encode_entry (row_entry row) = encode_wal_record row
  encode_entry (supersession_entry sequence replacements) =
      encode_wal_supersession sequence replacements

  -- A text with its length; bytes that are not UTF-8 end the clean prefix.
  unfoldable pub decode_text : List ℕ → Result FormatError (RowValue F × List ℕ)
  decode_text bytes = do
    (len, after) ← read_le 4 bytes
    (text, rest) ← take_bytes len after
    if utf8 text then ok (key_value text, rest) else err corrupt

  unfoldable pub decode_cell : List ℕ → Result FormatError (RowValue F × List ℕ)
  decode_cell bytes = do
    (tag, after) ← read_le 1 bytes
    if tag == 0
        then ok (null_value, after)
        else if tag == 1
        then (do (value, rest) ← read_le 8 after; ok (i64_value value, rest))
        else if tag == 2
        then (do (value, rest) ← read_le 8 after; ok (f64_value (from_bits value), rest))
        else if tag == 3
        then decode_text after
        else err corrupt

  -- One cell for each column; any failure ends the clean prefix.
  unfoldable pub decode_cells : ℕ → List ℕ → Result FormatError (List (RowValue F))
  decode_cells zero payload = ok []
  decode_cells (suc columns) payload = do
    (cell, rest) ← decode_cell payload
    row ← decode_cells columns rest
    ok (cell ∷ row)

  -- `bytes[from..to]`
  abbrev byte_range : ℕ → ℕ → List ℕ → List ℕ
  byte_range from to bytes = take (to - from) (drop from bytes)

  unfoldable pub decode_control : List ℕ → Result FormatError (WalEntry F)
  decode_control payload = elim (get_elem? payload 1) [
    | none ↦ err corrupt
    | some control ↦
        if (length payload == 18) && (control == 1)
        then ok (
            supersession_entry (from_le_bytes (byte_range 2 10 payload))
              (from_le_bytes (byte_range 10 18 payload)))
        else err corrupt
  ]

  unfoldable pub decode_row : ℕ → List ℕ → Result FormatError (WalEntry F)
  decode_row columns payload = do row ← decode_cells columns payload; ok (row_entry row)

  unfoldable pub decode_entry : ℕ → List ℕ → Result FormatError (WalEntry F)
  decode_entry columns payload = elim (get_elem? payload 0) [
    | none ↦ decode_row columns payload
    | some first ↦ if first == 0xff then decode_control payload else decode_row columns payload
  ]

  unfoldable pub read_record : List ℕ → Result FormatError (List ℕ × List ℕ)
  read_record bytes = do
    (len, after) ← read_le 4 bytes
    (payload, behind) ← take_bytes len after
    (stored, rest) ← read_le 4 behind
    if crc32c payload == stored then ok (payload, rest) else err corrupt

  unfoldable pub next_entry : ℕ → List ℕ → Result FormatError (WalEntry F × List ℕ)
  next_entry columns bytes = do
    (payload, rest) ← read_record bytes
    entry ← decode_entry columns payload
    ok (entry, rest)

  abbrev pub entry_before : WalEntry F → Option (List (WalEntry F)) → Option (List (WalEntry F))
  entry_before entry none = none
  entry_before entry (some entries) = some (entry ∷ entries)

  -- The clean prefix ends where no entry can be read.
  abbrev pub after_entry :
      Result FormatError (WalEntry F × List ℕ)
      → (List ℕ → Option (List (WalEntry F)))
      → Option (List (WalEntry F))
  after_entry (err e) more = some []
  after_entry (ok (entry, rest)) more = entry_before entry (more rest)

  -- The loop over the records, with fuel.
  unfoldable pub read_entries : ℕ → ℕ → List ℕ → Option (List (WalEntry F))
  read_entries zero columns bytes = none
  read_entries (suc fuel) columns bytes =
      after_entry (next_entry columns bytes) (λ rest. read_entries fuel columns rest)

  unfoldable pub decode_wal : List ℕ → ℕ → Result FormatError (WalContents F)
  decode_wal bytes columns = do
    (magic, after_magic) ← take_bytes 8 bytes
    (version, after_version) ←
        if text_eq magic wal_magic then read_le 2 after_magic else err corrupt
    (generation, after_generation) ←
        if not (version == 1) && not (version == 2) then err corrupt else read_le 8 after_version
    (base_row_id, after_base) ← read_le 8 after_generation
    (stored, records) ← read_le 4 after_base
    if crc32c (take 26 bytes) == stored
        then ok (record {
          generation = generation;
          base_row_id = base_row_id;
          entries = read_entries (suc (length bytes)) columns records;
        })
        else err corrupt
