-- ===== src/Wal/Records.antt =====
-- The records of the write-ahead log of src/storage_lite/format.rs: whole, torn and one behind the
-- other.
use mathlib.Core.List.{append_assoc}
use tally_db.Base.{
  ℕ, zero, suc, ◌+◌, ◌-◌, ◌%◌, ◌^◌, ◌≤◌, ◌<◌, ◌≡◌, refl, sym, ◌∙◌, ap, subst, arith, List, [], ◌∷◌,
  ◌++◌, length, length-append, take, ok, err, inl, inr,
}
use tally_db.Base.{==_iff, leb, Bool-cases, length-take}
use tally_db.Base.Bytes.{le_bytes, length-le_bytes}
use tally_db.Checksum.{crc32c, crc32c-lt}
use tally_db.Format.{corrupt, take_bytes-append, take_bytes-short, read_le-le_bytes, read_le-short}
use tally_db.Wal.{
  Primitives, WalEntry, row_entry, supersession_entry, wal_record, encode_entry, encode_wal_record,
  encode_wal_supersession,
}
use tally_db.Wal.{read_record, next_entry}
use tally_db.Wal.Cells.{Fits, payload, decode_entry-payload, length-payload}

take_long {ℓ} :
    {A : Type ℓ} (xs ys : List A) (k : ℕ)
    → length xs ≤ k
    → take k (xs ++ ys) ≡ xs ++ take (k - length xs) ys
take_long [] ys k h = ap (λ n. take n ys) (omega arith)
take_long (x ∷ xs) ys zero h = absurd (omega arith)
take_long (x ∷ xs) ys (suc k) h =
    ap (λ l. x ∷ l) (take_long xs ys k (omega arith) ∙ ap (λ n. xs ++ take n ys) (omega arith))

module _ {F : Type 0} (prims : Primitives F) where
  read_record-wal_record :
      (bytes rest : List ℕ)
      → length bytes < 2 ^ 32
      → read_record prims (wal_record bytes ++ rest) ≡ ok (bytes, rest)
  unfolding read_record wal_record
  read_record-wal_record bytes rest h =
      let len = length bytes % 2 ^ 32 in
      let crc = le_bytes 4 (crc32c bytes) in
      rw
        (
          append_assoc (le_bytes 4 len) (bytes ++ crc) rest,
          append_assoc bytes crc rest,
          read_le-le_bytes 4 len (bytes ++ (crc ++ rest)) (omega arith),
          take_bytes-append bytes (crc ++ rest) len (omega arith),
          read_le-le_bytes 4 (crc32c bytes) rest (crc32c-lt bytes),
          (==_iff (crc32c bytes) (crc32c bytes)).1 refl,
        )
        refl

  length-wal_record : (bytes : List ℕ) → length (wal_record bytes) ≡ length bytes + 8
  unfolding wal_record le_bytes
  length-wal_record bytes =
      omega (
        arith,
        length-append {0} bytes (le_bytes 4 (crc32c bytes)),
        length-le_bytes 4 (crc32c bytes),
      )

  short_head : (p : List ℕ) → length p < 4 → read_record prims p ≡ err corrupt
  unfolding read_record
  short_head p h = rw (read_le-short 4 p h) refl

  short_body :
      (len : ℕ) (q : List ℕ)
      → len < 2 ^ 32
      → length q < len
      → read_record prims (le_bytes 4 len ++ q) ≡ err corrupt
  unfolding read_record
  short_body len q h l = rw (read_le-le_bytes 4 len q h, take_bytes-short len q l) refl

  short_sum :
      (len : ℕ) (bytes r : List ℕ)
      → len < 2 ^ 32
      → length bytes ≡ len
      → length r < 4
      → read_record prims (le_bytes 4 len ++ (bytes ++ r)) ≡ err corrupt
  unfolding read_record
  short_sum len bytes r h e l =
      rw
        (
          read_le-le_bytes 4 len (bytes ++ r) h,
          take_bytes-append bytes r len e,
          read_le-short 4 r l,
        )
        refl

  torn_body :
      (len : ℕ) (bytes crc : List ℕ) (j : ℕ)
      → len < 2 ^ 32
      → length bytes ≡ len
      → length crc ≡ 4
      → j < len + 4
      → read_record prims (le_bytes 4 len ++ take j (bytes ++ crc)) ≡ err corrupt
  torn_body len bytes crc j h e c l = elim (Bool-cases (leb len j)) [
    | inr f ↦
        short_body len (take j (bytes ++ crc)) h (ground (arith, length-take j (bytes ++ crc)))
    | inl t ↦
        subst (λ q. read_record prims (le_bytes 4 len ++ q) ≡ err corrupt)
          (sym (take_long bytes crc j (ground arith)))
          (short_sum len bytes (take (j - length bytes) crc) h e
            (ground (arith, length-take (j - length bytes) crc)))
  ]

  -- A proper prefix of a record is no record.
  read_record-torn :
      (bytes : List ℕ) (k : ℕ)
      → length bytes < 2 ^ 32
      → k < length bytes + 8
      → read_record prims (take k (wal_record bytes)) ≡ err corrupt
  unfolding wal_record
  read_record-torn bytes k h short =
      let len = length bytes % 2 ^ 32 in
      let head = le_bytes 4 len in
      let crc = le_bytes 4 (crc32c bytes) in
      elim (Bool-cases (leb 4 k)) [
        | inr f ↦
            short_head (take k (head ++ (bytes ++ crc)))
              (ground (arith, length-take k (head ++ (bytes ++ crc))))
        | inl t ↦
            subst (λ p. read_record prims p ≡ err corrupt)
              (sym (take_long head (bytes ++ crc) k (ground (arith, length-le_bytes 4 len))))
              (torn_body len bytes crc (k - length head) (omega arith) (omega arith)
                (length-le_bytes 4 (crc32c bytes)) (ground (arith, length-le_bytes 4 len)))
      ]

  encode_entry-payload :
      (entry : WalEntry F) → encode_entry prims entry ≡ wal_record (payload prims entry)
  unfolding encode_entry encode_wal_record encode_wal_supersession
  encode_entry-payload (row_entry row) = refl
  encode_entry-payload (supersession_entry s n) = refl

  pub next_entry-encode_entry :
      (entry : WalEntry F) (columns : ℕ) (rest : List ℕ)
      → Fits prims columns entry
      → next_entry prims columns (encode_entry prims entry ++ rest) ≡ ok (entry, rest)
  unfolding next_entry
  next_entry-encode_entry entry columns rest h =
      rw
        (
          encode_entry-payload entry,
          read_record-wal_record (payload prims entry) rest (length-payload prims entry columns h),
          decode_entry-payload prims entry columns h,
        )
        refl

  -- No entry is read from a proper prefix of an encoded one.
  pub next_entry-torn :
      (entry : WalEntry F) (columns k : ℕ)
      → Fits prims columns entry
      → k < length (encode_entry prims entry)
      → next_entry prims columns (take k (encode_entry prims entry)) ≡ err corrupt
  unfolding next_entry
  next_entry-torn entry columns k h l =
      let size =
        ap (λ b. length b) (encode_entry-payload entry) ∙ length-wal_record (payload prims entry) in
      rw
        (
          encode_entry-payload entry,
          read_record-torn (payload prims entry) k (length-payload prims entry columns h)
              (omega (arith, size)),
        )
        refl

  pub length-encode_entry : (entry : WalEntry F) → 8 ≤ length (encode_entry prims entry)
  length-encode_entry entry = omega (
    arith,
    ap (λ b. length b) (encode_entry-payload entry),
    length-wal_record (payload prims entry),
  )
