-- ===== src/Wal/Recovery/Cut.antt =====
-- `decode_wal` of src/storage_lite/format.rs on a log that is cut at any byte behind its header.
use tally_db.Base.{
  ℕ, zero, suc, ◌+◌, ◌-◌, ◌≡◌, refl, sym, ◌∙◌, ap, subst, arith, some, List, [], ◌∷◌, ◌++◌,
  append_assoc, length, length-append, take, All, All-append, ok, err, ltb, Bool-cases, inl, inr,
  take-within,
}
use tally_db.Base.Word.{IsWord}
use tally_db.Format.{corrupt, read_le, take_bytes}
use tally_db.Wal.{
  Primitives, WalEntry, encode_entry, encode_wal_header, next_entry, read_record, decode_wal,
}
use tally_db.Wal.Cells.{Fits}
use tally_db.Wal.Records.{next_entry-torn}
use tally_db.Wal.Recovery.{log_bytes, decode_wal-header, read_entries-log_bytes, length-log_bytes}

suc_add : (n k : ℕ) → suc n + k ≡ suc (n + k)
suc_add n k = omega arith

module _ {ℓ} {A : Type ℓ} where
  pub take-empty : (k : ℕ) → take {A = A} k [] ≡ []
  take-empty zero = refl
  take-empty (suc k) = refl

  pub take-beyond : (k : ℕ) (xs ys : List A) → take (length xs + k) (xs ++ ys) ≡ xs ++ take k ys
  take-beyond k [] ys = ap (λ n. take n ys) (omega arith)
  take-beyond k (x ∷ xs) ys =
      ap (λ n. take n (x ∷ (xs ++ ys))) (suc_add (length xs) k)
      ∙ ap (λ t. x ∷ t) (take-beyond k xs ys)

  pub All-take {κ} : (P : A → Type κ) (k : ℕ) (xs : List A) → All P xs → All P (take k xs)
  All-take P zero xs h = tt
  All-take P (suc k) [] h = tt
  All-take P (suc k) (x ∷ xs) (h, hs) = (h, All-take P k xs hs)

module _ {F : Type 0} (prims : Primitives F) where
  next_entry-nothing : (columns : ℕ) → next_entry prims columns [] ≡ err corrupt
  unfolding next_entry read_record read_le take_bytes
  next_entry-nothing columns = refl

  pub log_bytes-append :
      (front back : List (WalEntry F))
      → log_bytes prims (front ++ back) ≡ log_bytes prims front ++ log_bytes prims back
  unfolding log_bytes
  log_bytes-append [] back = refl
  log_bytes-append (entry ∷ front) back =
      ap (λ b. encode_entry prims entry ++ b) (log_bytes-append front back)
      ∙ sym (append_assoc (encode_entry prims entry) (log_bytes prims front) (log_bytes prims back))

  -- The first bytes of records are whole records, then bytes that no record can be read from.
  cut_records :
      (entries : List (WalEntry F)) (columns k : ℕ)
      → All (Fits prims columns) entries
      → (j : ℕ) × (tail : List ℕ) × (take k (log_bytes prims entries)
          ≡ log_bytes prims (take j entries) ++ tail)
        × (next_entry prims columns tail ≡ err corrupt)
  unfolding log_bytes
  cut_records [] columns k h = (0, [], take-empty k, next_entry-nothing columns)
  cut_records (entry ∷ entries) columns k (h, hs) =
      let bytes = encode_entry prims entry in
      let size = length bytes in
      elim (Bool-cases (ltb k size)) [
        | inl short ↦ (
          0,
          take k bytes,
          take-within k bytes (log_bytes prims entries) (ground arith),
          next_entry-torn prims entry columns k h (ground arith),
        )
        | inr long ↦
            let (j, tail, cut, ends) = cut_records entries columns (k - size) hs in
            let shifted : take k (bytes ++ log_bytes prims entries)
                ≡ bytes ++ take (k - size) (log_bytes prims entries) =
              subst
                (λ n.
                  take n (bytes ++ log_bytes prims entries)
                  ≡ bytes ++ take (k - size) (log_bytes prims entries))
                (ground arith) (take-beyond (k - size) bytes (log_bytes prims entries)) in
            (
              suc j,
              tail,
              shifted
                  ∙ ap (λ b. bytes ++ b) cut
                  ∙ sym (append_assoc bytes (log_bytes prims (take j entries)) tail),
              ends,
            )
      ]

  -- Behind a header and whole records, records cut at any byte decode as the whole ones among them.
  pub decode_wal-cut :
      (generation base_row_id columns : ℕ) (whole entries : List (WalEntry F)) (k : ℕ)
      → IsWord generation
      → IsWord base_row_id
      → All (Fits prims columns) whole
      → All (Fits prims columns) entries
      → (j : ℕ) × (decode_wal prims
            (encode_wal_header generation base_row_id
              ++ (log_bytes prims whole ++ take k (log_bytes prims entries)))
            columns
          ≡ ok (record {
            generation = generation;
            base_row_id = base_row_id;
            entries = some (whole ++ take j entries);
          }))
  decode_wal-cut generation base_row_id columns whole entries k g b h hs =
      let (j, tail, cut, ends) = cut_records entries columns k hs in
      let clean = whole ++ take j entries in
      let header = encode_wal_header generation base_row_id in
      let laid : log_bytes prims whole ++ take k (log_bytes prims entries)
          ≡ log_bytes prims clean ++ tail =
        ap (λ t. log_bytes prims whole ++ t) cut
        ∙ sym (append_assoc (log_bytes prims whole) (log_bytes prims (take j entries)) tail)
        ∙ ap (λ t. t ++ tail) (sym (log_bytes-append whole (take j entries))) in
      (
        j,
        rw laid (
            decode_wal-header prims generation base_row_id (log_bytes prims clean ++ tail) columns g
              b
            ∙ ap
                (λ es.
                  ok (record { generation = generation; base_row_id = base_row_id; entries = es }))
                (read_entries-log_bytes prims clean columns
                  (suc (length (header ++ (log_bytes prims clean ++ tail)))) tail corrupt
                  (All-append (Fits prims columns) whole (take j entries) h
                    (All-take (Fits prims columns) j entries hs))
                  (omega (
                    arith,
                    length-append {0} header (log_bytes prims clean ++ tail),
                    length-append {0} (log_bytes prims clean) tail,
                    length-log_bytes prims clean,
                  ))
                  ends)),
      )
