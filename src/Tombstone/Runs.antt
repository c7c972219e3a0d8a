-- ===== src/Tombstone/Runs.antt =====
-- Runs of the delete logs of src/storage_lite/tombstone.rs.
use tally_db.Base.{ℕ, ◌≡◌, refl, true, none, List, [], ◌∷◌, drop, All, arith, ok, err, ◌++◌, lt_wf}
use tally_db.Base.Sorted.{Ascending}
use tally_db.Codec.{encode_delta_of_delta, encode_steps, zigzag, push_varint, push_loop}
use tally_db.Tombstone.{
  tombstone_payload, DeleteLog, framed, byte_range, ascends, encode_tombstones, decode_tombstones,
}
use tally_db.Base.Bytes.{le_bytes, from_le_bytes}
use tally_db.Base.Word.{IsWord}
use tally_db.Checksum.{crc32, crc_loop, table_rounds}
use tally_db.Format.{checksum_mismatch, corrupt}
use tally_db.Tombstone.RoundTrip.{decode_tombstones-encode_tombstones}
use tally_db.Tombstone.Damage.{decode_tombstones_sound, decode_tombstones-changed}
use native.Mathlib.Decide.{dec_lt}

abbrev killed : List ℕ
killed = 5 ∷ 9 ∷ 1000 ∷ []

abbrev killed_log : DeleteLog
killed_log = record { ids = killed; stamped_at = 41520; superseding = 7 }

abbrev zeros : List ℕ
zeros = 0 ∷ 0 ∷ 0 ∷ 0 ∷ 0 ∷ 0 ∷ 0 ∷ 0 ∷ []

killed-ascends : ascends none killed ≡ true
unfolding ascends
killed-ascends = refl

too_short : decode_tombstones zeros ≡ err corrupt
unfolding decode_tombstones
too_short = refl

decode_tombstones-encode_tombstones_example :
    decode_tombstones (encode_tombstones killed 41520 7) ≡ ok killed_log
decode_tombstones-encode_tombstones_example =
    decode_tombstones-encode_tombstones killed 41520 7 (omega arith) killed-ascends (omega arith)
      (omega arith) (omega arith)

decode_tombstones_sound_example :
    (from_le_bytes (byte_range 12 16 (encode_tombstones killed 41520 7))
      ≡ crc32 (drop 16 (encode_tombstones killed 41520 7)))
    × Ascending killed
    × All IsWord killed
decode_tombstones_sound_example =
    decode_tombstones_sound (encode_tombstones killed 41520 7) killed_log (
      decode_tombstones-encode_tombstones killed 41520 7 (omega arith) killed-ascends (omega arith)
        (omega arith) (omega arith))

-- The log of one id, 5, less the byte that encodes it.
abbrev log_start : List ℕ
log_start =
    84 ∷ 65 ∷ 76 ∷ 76 ∷ 89 ∷ 68 ∷ 69 ∷ 76 ∷ 2 ∷ 0 ∷ 0 ∷ 0 ∷ 210 ∷ 243 ∷ 97 ∷ 30 ∷ 0 ∷ 0 ∷ 0 ∷ 0 ∷ 0
    ∷ 0 ∷ 0 ∷ 0 ∷ 0 ∷ 0 ∷ 0 ∷ 0 ∷ 0 ∷ 0 ∷ 0 ∷ 0 ∷ 1 ∷ 0 ∷ 0 ∷ 0 ∷ 0 ∷ 0 ∷ 0 ∷ 0 ∷ []

log_of_five : encode_tombstones (5 ∷ []) 0 0 ≡ log_start ++ (10 ∷ [])
unfolding encode_tombstones tombstone_payload framed le_bytes crc32 crc_loop table_rounds
    encode_delta_of_delta encode_steps zigzag push_varint push_loop lt_wf dec_lt
log_of_five = refl

decode_tombstones-changed_example :
    (stored computed : ℕ) × (decode_tombstones (log_start ++ (11 ∷ []))
      ≡ err (checksum_mismatch stored computed))
decode_tombstones-changed_example =
    decode_tombstones-changed (5 ∷ []) 0 0 log_start [] 10 11 (omega arith) log_of_five
      (omega arith) (omega arith) (omega arith)
