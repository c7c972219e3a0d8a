-- ===== src/Wal/Recovery/Ends.antt =====
-- The loop of `decode_wal` of src/storage_lite/format.rs ends on any bytes, since every entry that is
-- read takes some.
use tally_db.Base.{
  ℕ, zero, suc, ◌+◌, ◌<◌, ◌≡◌, refl, sym, ◌∙◌, ap, arith, some, List, [], ◌∷◌, length, length-drop,
  take, Result, ok, err, ok-injective, went_on, Result-cases, inl, inr, if◌then◌else◌,
}
use tally_db.Base.{Bool, not, ◌&&◌, ◌==◌}
use tally_db.Checksum.{crc32c}
use tally_db.Column.{text_eq}
use tally_db.Format.{corrupt, FormatError, take_bytes, read_le}
use tally_db.Wal.{
  wal_magic, Primitives, WalEntry, WalContents, read_record, decode_entry, next_entry, read_entries,
  decode_wal,
}

take_bytes-rest :
    (count : ℕ) (bytes byte_range rest : List ℕ)
    → take_bytes count bytes ≡ ok (byte_range, rest)
    → length rest + count ≡ length bytes
unfolding take_bytes
take_bytes-rest count bytes byte_range rest h = ground (arith, length-drop count bytes)

read_le-rest :
    (count : ℕ) (bytes rest : List ℕ) (w : ℕ)
    → read_le count bytes ≡ ok (w, rest)
    → length rest + count ≡ length bytes
unfolding read_le
read_le-rest count bytes rest w h =
    let ((byte_range, rest'), taken, h1) = went_on (take_bytes count bytes) _ h in
    let same : rest' ≡ rest = ground arith in
    omega (arith, take_bytes-rest count bytes byte_range rest' taken, ap (λ l. length l) same)

guard_then :
    {A : Type 0} (b : Bool) (r : Result FormatError A) (e : FormatError) (a : A)
    → (if b then r else err e) ≡ ok a
    → r ≡ ok a
guard_then b r e a h = ground arith

guard_else :
    {A : Type 0} (b : Bool) (r : Result FormatError A) (e : FormatError) (a : A)
    → (if b then err e else r) ≡ ok a
    → r ≡ ok a
guard_else b r e a h = ground arith

module _ {F : Type 0} (prims : Primitives F) where
  read_record-shorter :
      (bytes payload rest : List ℕ)
      → read_record prims bytes ≡ ok (payload, rest)
      → length rest < length bytes
  unfolding read_record
  read_record-shorter bytes payload rest h =
      let ((len, after), one, h1) = went_on (read_le 4 bytes) _ h in
      let ((payload', behind), two, h2) = went_on (take_bytes len after) _ h1 in
      let ((stored, rest'), three, h3) = went_on (read_le 4 behind) _ h2 in
      let same : rest' ≡ rest = ground arith in
      omega (
        arith,
        read_le-rest 4 bytes after len one,
        take_bytes-rest len after payload' behind two,
        read_le-rest 4 behind rest' stored three,
        ap (λ l. length l) same,
      )

  next_entry-shorter :
      (columns : ℕ) (bytes rest : List ℕ) (entry : WalEntry F)
      → next_entry prims columns bytes ≡ ok (entry, rest)
      → length rest < length bytes
  unfolding next_entry
  next_entry-shorter columns bytes rest entry h =
      let ((payload, rest'), one, h1) = went_on (read_record prims bytes) _ h in
      let (entry', two, h2) = went_on (decode_entry prims columns payload) _ h1 in
      let same : rest' ≡ rest = ground arith in
      omega (arith, read_record-shorter bytes payload rest' one, ap (λ l. length l) same)

  read_entries-ends :
      (fuel columns : ℕ) (bytes : List ℕ)
      → length bytes < fuel
      → (entries : List (WalEntry F)) × (read_entries prims fuel columns bytes ≡ some entries)
  unfolding read_entries
  read_entries-ends zero columns bytes h = absurd (omega arith)
  read_entries-ends (suc fuel) columns bytes h =
      elim (Result-cases (next_entry prims columns bytes)) [
        | inr (e, g) ↦ ([], rw g refl)
        | inl ((entry, rest), g) ↦
            let (entries, more) =
              read_entries-ends fuel columns rest
                (omega (arith, next_entry-shorter columns bytes rest entry g)) in
            (entry ∷ entries, rw (g, more) refl)
      ]

  -- On any bytes whose header decodes, the loop over the records ends.
  pub decode_wal-ends :
      (bytes : List ℕ) (columns : ℕ) (contents : WalContents F)
      → decode_wal prims bytes columns ≡ ok contents
      → (entries : List (WalEntry F)) × (contents.entries ≡ some entries)
  unfolding decode_wal
  decode_wal-ends bytes columns contents h =
      let ((magic, r1), one, h1) = went_on (take_bytes 8 bytes) _ h in
      let ((version, r2), two, h2) =
        went_on (if text_eq magic wal_magic then read_le 2 r1 else err corrupt) _ h1 in
      let ((generation, r3), three, h3) =
        went_on (if not (version == 1) && not (version == 2) then err corrupt else read_le 8 r2) _
          h2 in
      let ((base, r4), four, h4) = went_on (read_le 8 r3) _ h3 in
      let ((stored, records), five, h5) = went_on (read_le 4 r4) _ h4 in
      let (entries, done) = read_entries-ends (suc (length bytes)) columns records (
        omega (
          arith,
          take_bytes-rest 8 bytes magic r1 one,
          read_le-rest 2 r1 r2 version
              (guard_then (text_eq magic wal_magic) (read_le 2 r1) corrupt (version, r2) two),
          read_le-rest 8 r2 r3 generation (
              guard_else (not (version == 1) && not (version == 2)) (read_le 8 r2) corrupt
                (generation, r3) three),
          read_le-rest 8 r3 r4 base four,
          read_le-rest 4 r4 records stored five,
        )) in
      let same = guard_then (crc32c (take 26 bytes) == stored) (ok _) corrupt contents h5 in
      (entries, ap (λ (c : WalContents F). c.entries) (sym (ok-injective same)) ∙ done)
