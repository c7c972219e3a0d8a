-- ===== src/Replay/Recovered.antt =====
-- The units that `replay_wal` of src/storage_lite/store.rs takes from the bytes of a log: a mutation is
-- there whole or not at all.
use tally_db.Base.{
  ℕ, suc, ◌+◌, ◌-◌, ◌≤◌, ◌<◌, ◌≡◌, refl, ◌∙◌, subst, arith, false, some, List, [], ◌∷◌, ◌++◌,
  append-nil, length, take, ltb, ==_iff, All, ok,
}
use tally_db.Base.Word.{IsWord}
use tally_db.Base.Bytes.{le_bytes}
use tally_db.WriteBuffer.{RowValue}
use tally_db.Store.Deleting.{contains}
use tally_db.Wal.{Primitives, WalEntry, encode_wal_header, header_start, encode_entry, decode_wal}
use tally_db.Wal.Cells.{Fits}
use tally_db.Wal.Recovery.{log_bytes}
use tally_db.Wal.Recovery.Cut.{decode_wal-cut, log_bytes-append, take-empty}
use tally_db.Replay.{
  Replayed, row_unit, supersession_unit, row_count, resolve, resolved, skipped, logged_entries,
  units_to_replay, encode_rows, encode_units, replacement_log,
}
use tally_db.Replay.Skipping.{total, skip_flushed-flushed}
use tally_db.Replay.Units.{row_entries, entries_of, Settled, resolve-units}
use tally_db.Replay.Crash.{resolve-uncommitted}

module _ {F : Type 0} (prims : Primitives F) where
  log_bytes-row_entries :
      (rows : List (List (RowValue F)))
      → log_bytes prims (row_entries rows) ≡ encode_rows prims rows
  unfolding log_bytes encode_rows encode_entry
  log_bytes-row_entries [] = refl
  log_bytes-row_entries (row ∷ rows) = rw (log_bytes-row_entries rows) refl

  log_bytes-entries_of :
      (units : List (Replayed F)) → log_bytes prims (entries_of units) ≡ encode_units prims units
  unfolding log_bytes entries_of encode_units encode_entry
  log_bytes-entries_of [] = refl
  log_bytes-entries_of (row_unit row ∷ units) = rw (log_bytes-entries_of units) refl
  log_bytes-entries_of (supersession_unit s rows ∷ units) =
      rw
        (
          log_bytes-append prims (row_entries rows) (entries_of units),
          log_bytes-row_entries rows,
          log_bytes-entries_of units,
        )
        refl

  length-header :
      (generation base_row_id : ℕ) (tail : List ℕ)
      → 30 ≤ length (encode_wal_header generation base_row_id ++ tail)
  unfolding encode_wal_header header_start le_bytes
  length-header generation base_row_id tail = omega arith

  units-decoded :
      (generation base_row_id columns rows : ℕ) (committed tail : List ℕ)
      (entries : List (WalEntry F))
      → decode_wal prims (encode_wal_header generation base_row_id ++ tail) columns
        ≡ ok (record { generation = generation; base_row_id = base_row_id; entries = some entries })
      → units_to_replay prims generation columns rows committed
          (some (encode_wal_header generation base_row_id ++ tail))
        ≡ ok (skipped (rows - base_row_id) (resolve (suc (length entries)) committed entries))
  unfolding units_to_replay logged_entries
  units-decoded generation base_row_id columns rows committed tail entries h =
      let long : ltb (length (encode_wal_header generation base_row_id ++ tail)) 30 ≡ false =
        ground (arith, length-header generation base_row_id tail) in
      rw (long, h, (==_iff generation generation).1 refl) refl

  -- Units, then entries that are cut at some byte.
  units-cut :
      (generation base_row_id columns rows : ℕ) (committed : List ℕ) (units : List (Replayed F))
      (entries : List (WalEntry F)) (k : ℕ)
      → IsWord generation
      → IsWord base_row_id
      → All (Fits prims columns) (entries_of units)
      → All (Fits prims columns) entries
      → (j : ℕ) × (units_to_replay prims generation columns rows committed (
            some (
              encode_wal_header generation base_row_id
              ++ (encode_units prims units ++ take k (log_bytes prims entries))))
          ≡ ok (
              skipped
                (rows - base_row_id)
                (resolved committed (some (entries_of units ++ take j entries)))))
  units-cut generation base_row_id columns rows committed units entries k g b h hs =
      let (j, decoded) =
        decode_wal-cut prims generation base_row_id columns (entries_of units) entries k g b h hs in
      (
        j,
        subst
            (λ bytes.
              units_to_replay prims generation columns rows committed (
                some (
                  encode_wal_header generation base_row_id
                  ++ (bytes ++ take k (log_bytes prims entries))))
              ≡ ok (
                  skipped (rows - base_row_id)
                    (resolved committed (some (entries_of units ++ take j entries)))))
            (log_bytes-entries_of units)
            (units-decoded generation base_row_id columns rows committed
              (log_bytes prims (entries_of units) ++ take k (log_bytes prims entries))
              (entries_of units ++ take j entries) decoded),
      )

  -- Take units that the log of a table with so many columns can hold, where each supersession is
  -- committed or followed by another unit. Of their log, a reopen replays those behind the rows that are
  -- flushed, as long as every flushed unit has a row.
  pub units_to_replay-replacement_log :
      (generation base_row_id columns : ℕ) (committed : List ℕ) (flushed units : List (Replayed F))
      → IsWord generation
      → IsWord base_row_id
      → All (Fits prims columns) (entries_of (flushed ++ units))
      → Settled committed [] (flushed ++ units)
      → All (λ unit. 0 < row_count unit) flushed
      → units_to_replay prims generation columns
          (base_row_id + total flushed)
          committed
          (some (replacement_log prims generation base_row_id (flushed ++ units)))
        ≡ ok (some units)
  unfolding replacement_log
  units_to_replay-replacement_log generation base_row_id columns committed flushed units g b h
        settled some_rows =
      let all = flushed ++ units in
      let rows = base_row_id + total flushed in
      let (j, whole) = units-cut generation base_row_id columns rows committed all [] 0 g b h tt in
      let skip : rows - base_row_id ≡ total flushed = omega arith in
      let plain : units_to_replay prims generation columns rows committed
            (some (encode_wal_header generation base_row_id ++ encode_units prims all))
          ≡ ok (skipped (rows - base_row_id) (resolved committed (some (entries_of all)))) =
        rw
          (
            take-empty {A = WalEntry F} j,
            append-nil (entries_of all),
            append-nil (encode_units prims all),
          )
          at whole in
      plain
      ∙ rw (resolve-units committed all settled, skip, skip_flushed-flushed flushed units some_rows)
          refl

  -- Take units that the log of a table with so many columns can hold, where each supersession is
  -- committed or followed by another unit, and every flushed unit has a row. Behind their log stand any
  -- first bytes of a supersession that the log can hold and that did not commit, or all of them: a reopen
  -- replays exactly the units behind the rows that are flushed.
  pub units_to_replay-uncommitted :
      (generation base_row_id columns : ℕ) (committed : List ℕ) (flushed units : List (Replayed F))
      (sequence : ℕ) (rows : List (List (RowValue F))) (k : ℕ)
      → IsWord generation
      → IsWord base_row_id
      → All (Fits prims columns) (entries_of (flushed ++ units))
      → All (Fits prims columns) (entries_of (supersession_unit sequence rows ∷ []))
      → Settled committed [] (flushed ++ units)
      → All (λ unit. 0 < row_count unit) flushed
      → contains committed sequence ≡ false
      → units_to_replay prims generation columns (base_row_id + total flushed) committed (
          some (
            encode_wal_header generation base_row_id
            ++ (encode_units prims (flushed ++ units)
                ++ take k (encode_units prims (supersession_unit sequence rows ∷ [])))))
        ≡ ok (some units)
  units_to_replay-uncommitted generation base_row_id columns committed flushed units s rows k g b h
        hs settled some_rows lost =
      let all = flushed ++ units in
      let bracket = entries_of (supersession_unit s rows ∷ []) in
      let (j, whole) =
        units-cut generation base_row_id columns (base_row_id + total flushed) committed all bracket
          k g b h hs in
      let skip : base_row_id + total flushed - base_row_id ≡ total flushed = omega arith in
      (rw (log_bytes-entries_of (supersession_unit s rows ∷ [])) at whole)
      ∙ rw
          (
            resolve-uncommitted committed all s rows j settled lost,
            skip,
            skip_flushed-flushed flushed units some_rows,
          )
          refl
