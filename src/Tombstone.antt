-- ===== src/Tombstone.antt =====
-- src/storage_lite/tombstone.rs: the delete logs. A set of row ids is the ascending list of them.
pub mod RoundTrip
pub mod Damage
mod Runs
use tally_db.Base.{
  ℕ, ◌+◌, ◌-◌, ◌%◌, ◌^◌, ◌<◌, Bool, true, false, not, ◌&&◌, ◌||◌, Option, none, some, List, [], ◌∷◌,
  ◌++◌,
}
use tally_db.Base.{length, take, drop, ltb, leb, ◌==◌, if◌then◌else◌, Result, ok, err, ◌>>=◌}
use tally_db.Base.Bytes.{le_bytes, from_le_bytes}
use tally_db.Checksum.{crc32}
use tally_db.Codec.{CodecError, encode_delta_of_delta, decode_delta_of_delta}
use tally_db.Column.{text_eq}
use tally_db.Format.{FormatError, bad_magic, corrupt, unsupported_version, checksum_mismatch, codec}

-- "TALLYDEL"
abbrev pub tombstone_magic : List ℕ
tombstone_magic = 84 ∷ 65 ∷ 76 ∷ 76 ∷ 89 ∷ 68 ∷ 69 ∷ 76 ∷ []

pub record DeleteLog : Type 0 where
  pub ids : List ℕ
  pub stamped_at : ℕ
  pub superseding : ℕ

-- What the checksum covers.
unfoldable pub tombstone_payload : List ℕ → ℕ → ℕ → List ℕ
tombstone_payload ids stamped_at superseding =
    le_bytes 8 stamped_at
    ++ (le_bytes 8 superseding ++ (le_bytes 8 (length ids) ++ encode_delta_of_delta ids))

-- The header of a version, with a checksum, before a payload.
unfoldable pub framed : ℕ → ℕ → List ℕ → List ℕ
framed version crc payload =
    tombstone_magic ++ (le_bytes 2 version ++ (le_bytes 2 0 ++ (le_bytes 4 crc ++ payload)))

unfoldable pub encode_tombstones : List ℕ → ℕ → ℕ → List ℕ
unfolding framed
encode_tombstones ids stamped_at superseding =
    let payload = tombstone_payload ids stamped_at superseding in framed 2 (crc32 payload) payload

-- `bytes[from..to]`, where the bytes reach that far.
abbrev pub byte_range : ℕ → ℕ → List ℕ → List ℕ
byte_range from to bytes = take (to - from) (drop from bytes)

-- Strictly ascending, each above the one before it.
unfoldable pub ascends : Option ℕ → List ℕ → Bool
ascends previous [] = true
ascends none (id ∷ ids) = ascends (some id) ids
ascends (some previous) (id ∷ ids) = if leb id previous then false else ascends (some id) ids

abbrev pub coded : Result CodecError (List ℕ) → Result FormatError (List ℕ)
coded (ok values) = ok values
coded (err e) = err (codec e)

-- The stamps, with the position behind them.
unfoldable pub decode_stamps : ℕ → List ℕ → Result FormatError (ℕ × ℕ × ℕ)
decode_stamps version bytes =
    if version == 2
    then (if ltb (length bytes) 40
        then err corrupt
        else ok
            (from_le_bytes (byte_range 16 24 bytes), from_le_bytes (byte_range 24 32 bytes), 32))
    else ok (0, 0, 16)

unfoldable pub decode_ids : List ℕ → ℕ × ℕ × ℕ → Result FormatError DeleteLog
decode_ids bytes (stamped_at, superseding, position) = do
  let count = from_le_bytes (byte_range position (position + 8) bytes)
  ids ← coded (decode_delta_of_delta (drop (position + 8) bytes) count)
  if ascends none ids
      then ok (record { ids = ids; stamped_at = stamped_at; superseding = superseding })
      else err corrupt

unfoldable pub decode_tombstones : List ℕ → Result FormatError DeleteLog
decode_tombstones bytes =
    let version = from_le_bytes (byte_range 8 10 bytes) in
    let stored = from_le_bytes (byte_range 12 16 bytes) in
    let computed = crc32 (drop 16 bytes) in
    if ltb (length bytes) 24
    then err corrupt
    else if not (text_eq (take 8 bytes) tombstone_magic)
    then err bad_magic
    else if not (version == 1) && not (version == 2)
    then err (unsupported_version version)
    else if not (text_eq (byte_range 10 12 bytes) (0 ∷ 0 ∷ []))
    then err corrupt
    else if not (stored == computed)
    then err (checksum_mismatch stored computed)
    else (do stamps ← decode_stamps version bytes; decode_ids bytes stamps)
