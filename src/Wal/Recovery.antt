-- ===== src/Wal/Recovery.antt =====
-- `decode_wal` of src/storage_lite/format.rs, after a crash and on any bytes.
pub mod Ends
pub mod Cut
use mathlib.Core.List.{append-nil, append_assoc}
use tally_db.Base.{
  ℕ, zero, suc, ◌+◌, ◌-◌, ◌^◌, ◌≤◌, ◌<◌, ◌≡◌, refl, sym, ◌∙◌, ap, subst, arith, true, Option, none,
  some, List, [], ◌∷◌, ◌++◌, length, length-append, take, All, Result, ok, err, ◌>>=◌,
}
use tally_db.Base.{==_iff}
use tally_db.Base.Word.{IsWord}
use tally_db.Base.Bytes.{le_bytes, length-le_bytes}
use tally_db.Checksum.{crc32c, crc32c-lt}
use tally_db.Column.{text_eq}
use tally_db.Format.{FormatError, corrupt, take_bytes, read_le, take_bytes-append, read_le-le_bytes}
use tally_db.Wal.{
  Primitives, WalEntry, WalContents, wal_magic, header_start, encode_wal_header, encode_entry,
  next_entry, read_entries, entry_before, decode_wal,
}
use tally_db.Wal.Cells.{Fits}
use tally_db.Wal.Records.{next_entry-encode_entry, next_entry-torn, length-encode_entry}

module _ {F : Type 0} (prims : Primitives F) where
  -- The records of the entries, one behind the other.
  unfoldable pub log_bytes : List (WalEntry F) → List ℕ
  log_bytes [] = []
  log_bytes (entry ∷ entries) = encode_entry prims entry ++ log_bytes entries

  take_header :
      (generation base_row_id : ℕ) (tail : List ℕ)
      → take 26 (encode_wal_header generation base_row_id ++ tail)
        ≡ header_start generation base_row_id
  unfolding encode_wal_header header_start le_bytes
  take_header generation base_row_id tail = refl

  header_parts :
      (generation base_row_id : ℕ) (tail : List ℕ)
      → encode_wal_header generation base_row_id ++ tail
        ≡ wal_magic
          ++ (le_bytes 2 2
              ++ (le_bytes 8 generation
                  ++ (le_bytes 8 base_row_id
                      ++ (le_bytes 4 (crc32c (header_start generation base_row_id)) ++ tail))))
  unfolding encode_wal_header header_start le_bytes
  header_parts generation base_row_id tail = refl

  decode_parts :
      (generation base_row_id crc : ℕ) (bytes tail : List ℕ) (columns : ℕ)
      → IsWord generation
      → IsWord base_row_id
      → crc < 2 ^ 32
      → crc32c (take 26 bytes) ≡ crc
      → bytes
        ≡ wal_magic
          ++ (le_bytes 2 2
              ++ (le_bytes 8 generation ++ (le_bytes 8 base_row_id ++ (le_bytes 4 crc ++ tail))))
      → decode_wal prims bytes columns
        ≡ ok (record {
          generation = generation;
          base_row_id = base_row_id;
          entries = read_entries prims (suc (length bytes)) columns tail;
        })
  unfolding decode_wal text_eq
  decode_parts generation base_row_id crc bytes tail columns g b c sum laid =
      let rest4 = le_bytes 4 crc ++ tail in
      let rest3 = le_bytes 8 base_row_id ++ rest4 in
      let rest2 = le_bytes 8 generation ++ rest3 in
      let magic =
        subst (λ l. take_bytes 8 l ≡ ok (wal_magic, le_bytes 2 2 ++ rest2)) (sym laid)
          (take_bytes-append wal_magic (le_bytes 2 2 ++ rest2) 8 refl) in
      rw
        (
          magic,
          read_le-le_bytes 2 2 rest2 (omega arith),
          read_le-le_bytes 8 generation rest3 g,
          read_le-le_bytes 8 base_row_id rest4 b,
          read_le-le_bytes 4 crc tail c,
          sum,
          (==_iff crc crc).1 refl,
        )
        refl

  decode_wal-header :
      (generation base_row_id : ℕ) (tail : List ℕ) (columns : ℕ)
      → IsWord generation
      → IsWord base_row_id
      → decode_wal prims (encode_wal_header generation base_row_id ++ tail) columns
        ≡ ok (record {
          generation = generation;
          base_row_id = base_row_id;
          entries =
              read_entries prims
                (suc (length (encode_wal_header generation base_row_id ++ tail)))
                columns
                tail;
        })
  decode_wal-header generation base_row_id tail columns g b =
      decode_parts generation base_row_id (crc32c (header_start generation base_row_id))
        (encode_wal_header generation base_row_id ++ tail) tail columns g b
        (crc32c-lt (header_start generation base_row_id))
        (ap crc32c (take_header generation base_row_id tail))
        (header_parts generation base_row_id tail)

  read_entries-log_bytes :
      (entries : List (WalEntry F)) (columns fuel : ℕ) (tail : List ℕ) (e : FormatError)
      → All (Fits prims columns) entries
      → length entries < fuel
      → next_entry prims columns tail ≡ err e
      → read_entries prims fuel columns (log_bytes entries ++ tail) ≡ some entries
  unfolding read_entries log_bytes
  read_entries-log_bytes entries columns zero tail e h l torn = absurd (omega arith)
  read_entries-log_bytes [] columns (suc fuel) tail e h l torn = rw torn refl
  read_entries-log_bytes (entry ∷ entries) columns (suc fuel) tail e (h, hs) l torn =
      rw
        (
          append_assoc (encode_entry prims entry) (log_bytes entries) tail,
          next_entry-encode_entry prims entry columns (log_bytes entries ++ tail) h,
          read_entries-log_bytes entries columns fuel tail e hs (omega arith) torn,
        )
        refl

  length-log_bytes : (entries : List (WalEntry F)) → length entries ≤ length (log_bytes entries)
  unfolding log_bytes
  length-log_bytes [] = omega arith
  length-log_bytes (entry ∷ entries) = omega (
    arith,
    length-append {0} (encode_entry prims entry) (log_bytes entries),
    length-encode_entry prims entry,
    length-log_bytes entries,
  )

  -- Take a log whose header names a generation and a first row id, then records that the log can hold,
  -- then a proper prefix, perhaps none, of one more such record: what a crash leaves of an append. It
  -- decodes to exactly the whole records, in order.
  pub decode_wal-torn :
      (generation base_row_id columns : ℕ) (entries : List (WalEntry F)) (last : WalEntry F) (k : ℕ)
      → IsWord generation
      → IsWord base_row_id
      → All (Fits prims columns) entries
      → Fits prims columns last
      → k < length (encode_entry prims last)
      → decode_wal prims
          (encode_wal_header generation base_row_id
            ++ (log_bytes entries ++ take k (encode_entry prims last)))
          columns
        ≡ ok (record { generation = generation; base_row_id = base_row_id; entries = some entries })
  decode_wal-torn generation base_row_id columns entries last k g b h hl l =
      let torn = take k (encode_entry prims last) in
      let header = encode_wal_header generation base_row_id in
      decode_wal-header generation base_row_id (log_bytes entries ++ torn) columns g b
      ∙ ap (λ es. ok (record { generation = generation; base_row_id = base_row_id; entries = es }))
          (read_entries-log_bytes entries columns
            (suc (length (header ++ (log_bytes entries ++ torn)))) torn corrupt h
            (omega (
              arith,
              length-append {0} header (log_bytes entries ++ torn),
              length-append {0} (log_bytes entries) torn,
              length-log_bytes entries,
            ))
            (next_entry-torn prims last columns k hl l))
