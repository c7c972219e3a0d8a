-- ===== src/Wal/Runs.antt =====
-- Runs of the write-ahead log of src/storage_lite/format.rs, with bytes for floats.
use tally_db.Base.{ℕ, ◌≡◌, ◌<◌, refl, some, true, List, [], ◌∷◌, ◌++◌, length, take, All, arith, ok}
use tally_db.WriteBuffer.{f64_value, i64_value, key_value, null_value}
use tally_db.Wal.{
  Primitives, WalEntry, WalContents, row_entry, supersession_entry, encode_wal_header, encode_entry,
  encode_cell, row_payload, decode_wal,
}
use tally_db.Wal.Cells.{Fits}
use tally_db.Wal.Records.{length-encode_entry}
use tally_db.Base.Bytes.{le_bytes}
use tally_db.Wal.Recovery.{log_bytes, decode_wal-torn}

-- Floats that are their own bits, and text that is always valid.
abbrev sample : Primitives ℕ
sample = record { to_bits = λ v. v; from_bits = λ v. v; utf8 = λ text. true }

abbrev first_row : WalEntry ℕ
first_row = row_entry (i64_value 7 ∷ f64_value 3 ∷ key_value (97 ∷ 98 ∷ []) ∷ [])

abbrev second_row : WalEntry ℕ
second_row = row_entry (i64_value 8 ∷ null_value ∷ key_value [] ∷ [])

abbrev logged : List (WalEntry ℕ)
logged = first_row ∷ supersession_entry 1 1 ∷ []

abbrev crashed : List ℕ
crashed =
    encode_wal_header 2 40 ++ (log_bytes sample logged ++ take 3 (encode_entry sample second_row))

abbrev recovered : WalContents ℕ
recovered = record { generation = 2; base_row_id = 40; entries = some logged }

logged-Fits : All (Fits sample 3) logged
unfolding row_payload encode_cell le_bytes
logged-Fits = (
  (refl, (omega arith, ((omega arith, refl), ((omega arith, refl), tt))), omega arith),
  ((omega arith, omega arith), tt),
)

second_row-Fits : Fits sample 3 second_row
unfolding row_payload encode_cell le_bytes
second_row-Fits = (refl, (omega arith, (tt, ((omega arith, refl), tt))), omega arith)

three_left : 3 < length (encode_entry sample second_row)
three_left = omega (arith, length-encode_entry sample second_row)

decode_wal-torn_example : decode_wal sample crashed 3 ≡ ok recovered
decode_wal-torn_example =
    decode_wal-torn sample 2 40 3 logged second_row 3 (omega arith) (omega arith) logged-Fits
      second_row-Fits three_left
