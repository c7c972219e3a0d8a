-- ===== src/Tombstone/Damage.antt =====
-- What a delete log of src/storage_lite/tombstone.rs that decodes is known to be, and what happens to
-- one that was changed.
use tally_db.Base.{
  ℕ, ◌+◌, ◌≤◌, ◌≡◌, ◌≢◌, ◌∙◌, ap, subst, arith, true, false, none, List, length, drop, Result, ok,
  err, ◌>>=◌, went_on, ok-injective, All, ==_iff, ◌==◌, Bool-cases, inl, inr, some, [], ◌∷◌, ◌<◌,
  ◌++◌, refl, sym, take, length-append, All-append, take-within, drop-within, split_append,
}
use tally_db.Base.Sorted.{Ascending, above_lower}
use tally_db.Base.Word.{IsByte, IsWord}
use tally_db.Base.Bytes.{from_le_bytes, le_bytes, le_bytes-IsByte}
use tally_db.Checksum.{crc32, crc32-lt}
use tally_db.Checksum.Detects.{crc32-one_byte}
use tally_db.Codec.{encode_delta_of_delta, decode_delta_of_delta}
use tally_db.Codec.Bytes.{encode-IsByte}
use tally_db.Tombstone.{
  tombstone_magic, tombstone_payload, encode_tombstones, DeleteLog, framed, byte_range, ascends,
  coded, decode_stamps, decode_ids, decode_tombstones,
}
use tally_db.Codec.Malformed.{decode_sound}
use tally_db.Format.{checksum_mismatch}
use tally_db.Tombstone.RoundTrip.{decode-framed}

All-behind : (front back : List ℕ) → All IsByte (front ++ back) → All IsByte back
All-behind [] back h = h
All-behind (b ∷ front) back (h, hs) = All-behind front back hs

-- The decoder's test finds out whether each id is above all before it.
ascends-above :
    (previous : ℕ) (ids : List ℕ)
    → ascends (some previous) ids ≡ true
    → All (λ id. previous < id) ids × Ascending ids
unfolding ascends
ascends-above previous [] h = (tt, tt)
ascends-above previous (id ∷ ids) h =
    let l : previous < id = ground arith in
    let (a, s) = ascends-above id ids (ground arith) in
    ((l, above_lower previous id ids l a), (a, s))

ascends-Ascending : (ids : List ℕ) → ascends none ids ≡ true → Ascending ids
unfolding ascends
ascends-Ascending [] h = tt
ascends-Ascending (id ∷ ids) h = let (a, s) = ascends-above id ids h in (a, s)

coded-ok :
    (r : Result tally_db.Codec.CodecError (List ℕ)) (ids : List ℕ) → coded r ≡ ok ids → r ≡ ok ids
coded-ok (ok values) ids h = ground arith
coded-ok (err e) ids h = absurd (ground arith)

decode_ids_sound :
    (bytes : List ℕ) (stamped_at superseding position : ℕ) (log : DeleteLog)
    → decode_ids bytes (stamped_at, superseding, position) ≡ ok log
    → (ascends none log.ids ≡ true) × All IsWord log.ids
unfolding decode_ids
decode_ids_sound bytes stamped_at superseding position log h =
    let count = from_le_bytes (byte_range position (position + 8) bytes) in
    let rest = drop (position + 8) bytes in
    let (ids, decoded, h1) = went_on (coded (decode_delta_of_delta rest count)) _ h in
    let words =
      decode_sound rest count ids (coded-ok (decode_delta_of_delta rest count) ids decoded) in
    elim (Bool-cases (ascends none ids)) [
      | inr f ↦ absurd (ground arith)
      | inl t ↦
          let same : ids ≡ log.ids = ap (λ (d : DeleteLog). d.ids) (ok-injective (rw t at h1)) in
          (subst (λ l. ascends none l ≡ true) same t, subst (λ l. All IsWord l) same words.1)
    ]

accepted :
    (bytes : List ℕ) (log : DeleteLog)
    → decode_tombstones bytes ≡ ok log
    → (from_le_bytes (byte_range 12 16 bytes) == crc32 (drop 16 bytes) ≡ true)
      × ((decode_stamps (from_le_bytes (byte_range 8 10 bytes)) bytes >>= decode_ids bytes)
          ≡ ok log)
unfolding decode_tombstones
accepted bytes log h = (ground arith, ground arith)

-- A delete log that decodes, whatever its bytes, has the checksum that it states, and 64-bit row ids
-- each below all that follow it.
pub decode_tombstones_sound :
    (bytes : List ℕ) (log : DeleteLog)
    → decode_tombstones bytes ≡ ok log
    → (from_le_bytes (byte_range 12 16 bytes) ≡ crc32 (drop 16 bytes))
      × Ascending log.ids
      × All IsWord log.ids
decode_tombstones_sound bytes log h =
    let (same, body) = accepted bytes log h in
    let ((stamped_at, superseding, position), read, ids) =
      went_on (decode_stamps (from_le_bytes (byte_range 8 10 bytes)) bytes) _ body in
    let (order, words) = decode_ids_sound bytes stamped_at superseding position log ids in
    (
      (==_iff (from_le_bytes (byte_range 12 16 bytes)) (crc32 (drop 16 bytes))).0 same,
      ascends-Ascending log.ids order,
      words,
    )

-- A version 2 log, as its first 16 bytes and its payload.
abbrev header : ℕ → List ℕ
header crc = tombstone_magic ++ (le_bytes 2 2 ++ (le_bytes 2 0 ++ le_bytes 4 crc))

framed-header : (crc : ℕ) (payload : List ℕ) → framed 2 crc payload ≡ header crc ++ payload
unfolding framed le_bytes
framed-header crc payload = refl

take-header : (crc : ℕ) (payload : List ℕ) → take 16 (header crc ++ payload) ≡ header crc
unfolding le_bytes
take-header crc payload = refl

drop-header : (crc : ℕ) (payload : List ℕ) → drop 16 (header crc ++ payload) ≡ payload
unfolding le_bytes
drop-header crc payload = refl

payload-IsByte :
    (ids : List ℕ) (stamped_at superseding : ℕ)
    → All IsWord ids
    → All IsByte (tombstone_payload ids stamped_at superseding)
unfolding tombstone_payload
payload-IsByte ids stamped_at superseding words =
    let counted = le_bytes 8 (length ids) ++ encode_delta_of_delta ids in
    All-append IsByte (le_bytes 8 stamped_at) (le_bytes 8 superseding ++ counted)
      (le_bytes-IsByte 8 stamped_at)
      (All-append IsByte (le_bytes 8 superseding) counted (le_bytes-IsByte 8 superseding) (
        All-append IsByte (le_bytes 8 (length ids)) (encode_delta_of_delta ids)
          (le_bytes-IsByte 8 (length ids)) (encode-IsByte ids words)))

payload-long :
    (ids : List ℕ) (stamped_at superseding : ℕ)
    → 8 ≤ length (tombstone_payload ids stamped_at superseding)
unfolding tombstone_payload le_bytes
payload-long ids stamped_at superseding = omega arith

-- A byte that is changed in a payload.
payload-changed :
    (payload front back : List ℕ) (byte changed : ℕ)
    → All IsByte payload
    → 8 ≤ length payload
    → payload ≡ front ++ (byte ∷ back)
    → IsByte changed
    → byte ≢ changed
    → decode_tombstones (header (crc32 payload) ++ (front ++ (changed ∷ back)))
      ≡ err (checksum_mismatch (crc32 payload) (crc32 (front ++ (changed ∷ back))))
payload-changed payload front back byte changed bytes long laid c differ =
    let damaged = front ++ (changed ∷ back) in
    let (b, rest) = All-behind front (byte ∷ back) (subst (λ l. All IsByte l) laid bytes) in
    let apart : crc32 payload ≢ crc32 damaged = λ same.
      differ (crc32-one_byte front back byte changed rest b c (ap crc32 (sym laid) ∙ same)) in
    let unequal : crc32 payload == crc32 damaged ≡ false =
      ground (arith, ==_iff (crc32 payload) (crc32 damaged)) in
    let size : 8 ≤ length damaged = omega (
      arith,
      ap (λ l. length l) laid,
      length-append {0} front (byte ∷ back),
      length-append {0} front (changed ∷ back),
    ) in
    ap decode_tombstones (sym (framed-header (crc32 payload) damaged))
    ∙ decode-framed (crc32 payload) damaged size (crc32-lt payload)
    ∙ rw unequal

-- Where any one byte behind the first 16 of an encoded delete log of 64-bit ids is changed, the log is
-- refused for its checksum.
pub decode_tombstones-changed :
    (ids : List ℕ) (stamped_at superseding : ℕ) (front back : List ℕ) (byte changed : ℕ)
    → All IsWord ids
    → encode_tombstones ids stamped_at superseding ≡ front ++ (byte ∷ back)
    → 16 ≤ length front
    → IsByte changed
    → byte ≢ changed
    → (stored computed : ℕ) × (decode_tombstones (front ++ (changed ∷ back))
        ≡ err (checksum_mismatch stored computed))
unfolding encode_tombstones
decode_tombstones-changed ids stamped_at superseding front back byte changed words laid l c differ =
    let payload = tombstone_payload ids stamped_at superseding in
    let crc = crc32 payload in
    let whole : header crc ++ payload ≡ front ++ (byte ∷ back) =
      sym (framed-header crc payload) ∙ laid in
    let start : take 16 front ≡ header crc =
      sym (take-within 16 front (byte ∷ back) l)
      ∙ ap (λ b. take 16 b) (sym whole)
      ∙ take-header crc payload in
    let behind : payload ≡ drop 16 front ++ (byte ∷ back) =
      sym (drop-header crc payload)
      ∙ ap (λ b. drop 16 b) whole
      ∙ drop-within 16 front (byte ∷ back) l in
    let damaged = drop 16 front ++ (changed ∷ back) in
    let file : front ++ (changed ∷ back) ≡ header crc ++ damaged =
      split_append 16 front (changed ∷ back) ∙ ap (λ h. h ++ damaged) start in
    (
      crc,
      crc32 damaged,
      ap decode_tombstones file
          ∙ payload-changed payload (drop 16 front) back byte changed
              (payload-IsByte ids stamped_at superseding words)
              (payload-long ids stamped_at superseding) behind c differ,
    )
