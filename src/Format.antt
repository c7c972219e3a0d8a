-- ===== src/Format.antt =====
-- `FormatError` and `Reader` of src/storage_lite/format.rs. A reader is the bytes that it has not read.
use tally_db.Base.{
  ℕ, ◌^◌, ◌<◌, List, ◌++◌, length, take, drop, leb, if◌then◌else◌, Result, ok, err, ◌>>=◌,
}
use tally_db.Base.{◌≡◌, subst, ap, take-append, drop-append, length-append, arith}
use tally_db.Base.Bytes.{le_bytes, from_le_bytes, from_le_bytes-le_bytes, length-le_bytes}
use tally_db.Codec.{CodecError}

-- The message of `Corrupt` is left out.
pub data FormatError : Type 0 where
  bad_magic corrupt : FormatError
  unsupported_version : ℕ → FormatError
  checksum_mismatch : ℕ → ℕ → FormatError
  codec : CodecError → FormatError

-- `Reader::take`, with what is left to read.
unfoldable pub take_bytes : ℕ → List ℕ → Result FormatError (List ℕ × List ℕ)
take_bytes count bytes =
    if leb count (length bytes) then ok (take count bytes, drop count bytes) else err corrupt

-- `u8`, `u16`, `u32` and `u64` of `Reader`, at 1, 2, 4 and 8 bytes.
unfoldable pub read_le : ℕ → List ℕ → Result FormatError (ℕ × List ℕ)
read_le count bytes = do (slice, rest) ← take_bytes count bytes; ok (from_le_bytes slice, rest)

pub take_bytes-append :
    (bytes rest : List ℕ) (count : ℕ)
    → length bytes ≡ count
    → take_bytes count (bytes ++ rest) ≡ ok (bytes, rest)
unfolding take_bytes
take_bytes-append bytes rest count h =
    subst (λ n. take_bytes n (bytes ++ rest) ≡ ok (bytes, rest)) h
      (ground (arith, length-append bytes rest, take-append bytes rest, drop-append bytes rest))

pub take_bytes-short :
    (count : ℕ) (bytes : List ℕ) → length bytes < count → take_bytes count bytes ≡ err corrupt
unfolding take_bytes
take_bytes-short count bytes h = ground arith

pub read_le-le_bytes :
    (count w : ℕ) (rest : List ℕ)
    → w < 256 ^ count
    → read_le count (le_bytes count w ++ rest) ≡ ok (w, rest)
unfolding read_le
read_le-le_bytes count w rest h =
    rw (take_bytes-append (le_bytes count w) rest count (length-le_bytes count w))
      (ap (λ v. ok (v, rest)) (from_le_bytes-le_bytes count w h))

pub read_le-short :
    (count : ℕ) (bytes : List ℕ) → length bytes < count → read_le count bytes ≡ err corrupt
unfolding read_le
read_le-short count bytes h = rw (take_bytes-short count bytes h)
