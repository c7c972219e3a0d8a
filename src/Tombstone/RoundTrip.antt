-- ===== src/Tombstone/RoundTrip.antt =====
-- The round trip of the delete logs of src/storage_lite/tombstone.rs.
use tally_db.Base.{ℕ, ◌+◌, ◌^◌, ◌<◌, ◌≡◌, refl, ◌∙◌, arith, true, none, List, ◌++◌, length, ok, All}
use tally_db.Base.{==_iff, ◌≤◌, ◌==◌, if◌then◌else◌, err, ◌>>=◌}
use tally_db.Base.Word.{IsWord}
use tally_db.Base.Bytes.{le_bytes, from_le_bytes-le_bytes}
use tally_db.Checksum.{crc32, crc32-lt}
use tally_db.Codec.{decode_delta_of_delta, encode_delta_of_delta}
use tally_db.Codec.RoundTrip.{decode-encode}
use tally_db.Column.{text_eq}
use tally_db.Format.{checksum_mismatch}
use tally_db.Tombstone.{
  framed, tombstone_payload, encode_tombstones, ascends, decode_stamps, decode_ids,
  decode_tombstones,
}

-- What is read before the payload of version 2.
pub decode-framed :
    (crc : ℕ) (payload : List ℕ)
    → 8 ≤ length payload
    → crc < 2 ^ 32
    → decode_tombstones (framed 2 crc payload) ≡ (
        if crc == crc32 payload
        then decode_stamps 2 (framed 2 crc payload) >>= decode_ids (framed 2 crc payload)
        else err (checksum_mismatch crc (crc32 payload)))
unfolding decode_tombstones framed le_bytes text_eq
decode-framed crc payload l h =
    ground (arith, from_le_bytes-le_bytes 4 crc h, from_le_bytes-le_bytes 2 2 (omega arith))

module _ (stamped_at superseding count : ℕ) (rest : List ℕ) (crc : ℕ) (stamp : IsWord stamped_at)
    (sup : IsWord superseding) (some_ids : IsWord count) where
  abbrev body : List ℕ
  body = le_bytes 8 stamped_at ++ (le_bytes 8 superseding ++ (le_bytes 8 count ++ rest))

  pub length-body : length body ≡ 24 + length rest
  unfolding le_bytes
  length-body = omega arith

  pub stamps-body : decode_stamps 2 (framed 2 crc body) ≡ ok (stamped_at, superseding, 32)
  unfolding decode_stamps framed le_bytes
  stamps-body =
      ground
        (arith, from_le_bytes-le_bytes 8 stamped_at stamp, from_le_bytes-le_bytes 8 superseding sup)

  pub ids-body :
      (ids : List ℕ)
      → decode_delta_of_delta rest count ≡ ok ids
      → ascends none ids ≡ true
      → decode_ids (framed 2 crc body) (stamped_at, superseding, 32)
        ≡ ok (record { ids = ids; stamped_at = stamped_at; superseding = superseding })
  unfolding decode_ids framed le_bytes
  ids-body ids e a = rw (from_le_bytes-le_bytes 8 count some_ids, e, a) refl

-- What is encoded of a set of 64-bit row ids and two stamps is decoded as them.
pub decode_tombstones-encode_tombstones :
    (ids : List ℕ) (stamped_at superseding : ℕ)
    → All IsWord ids
    → ascends none ids ≡ true
    → IsWord (length ids)
    → IsWord stamped_at
    → IsWord superseding
    → decode_tombstones (encode_tombstones ids stamped_at superseding)
      ≡ ok (record { ids = ids; stamped_at = stamped_at; superseding = superseding })
unfolding encode_tombstones tombstone_payload
decode_tombstones-encode_tombstones ids stamped_at superseding words order count stamp sup =
    let rest = encode_delta_of_delta ids in
    let payload = tombstone_payload ids stamped_at superseding in
    let n = length ids in
    decode-framed (crc32 payload) payload
      (omega (arith, length-body stamped_at superseding n rest 0 stamp sup count))
      (crc32-lt payload)
    ∙ rw
        (
          (==_iff (crc32 payload) (crc32 payload)).1 refl,
          stamps-body stamped_at superseding n rest (crc32 payload) stamp sup count,
        )
        (ids-body stamped_at superseding n rest (crc32 payload) stamp sup count ids
          (decode-encode ids words) order)
