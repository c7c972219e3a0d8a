-- ===== src/Replay/Ends.antt =====
-- `replay_wal` of src/storage_lite/store.rs ends on any log.
use tally_db.Base.{
  ℕ, zero, suc, ◌-◌, ◌≤◌, ◌<◌, ◌≡◌, refl, sym, ◌∙◌, arith, not, ◌||◌, Option, none, some, List, [],
  ◌∷◌, length, Result, ok, err, ltb, ◌==◌, Bool-cases, Result-cases, inl, inr,
}
use tally_db.Floats.{Floats}
use tally_db.WriteBuffer.{RowValue, StorageError}
use tally_db.Store.{Store, is_empty}
use tally_db.Store.Deleting.{contains}
use tally_db.Wal.{Primitives, WalEntry, row_entry, supersession_entry, decode_wal}
use tally_db.Wal.Recovery.Ends.{decode_wal-ends}
use tally_db.Replay.{
  WalSync, Replayed, take_rows, row_before, after_bracket, unit_before, resolve, resolved, skipped,
  logged_entries, units_to_replay, replay_units, ran, replay_wal,
}

module _ {F : Type 0} where
  take_rows-shorter :
      (replacements : ℕ) (entries : List (WalEntry F))
      → length (take_rows replacements entries).1 ≤ length entries
  unfolding take_rows
  take_rows-shorter zero entries = omega arith
  take_rows-shorter (suc n) [] = omega arith
  take_rows-shorter (suc n) (row_entry row ∷ entries) = omega (arith, take_rows-shorter n entries)
  take_rows-shorter (suc n) (supersession_entry sequence count ∷ entries) = omega arith

  after_bracket-ends :
      (committed : List ℕ) (sequence replacements : ℕ)
      (taken : List (List (RowValue F)) × List (WalEntry F))
      (more : List (WalEntry F) → Option (List (Replayed F))) (units : List (Replayed F))
      → more taken.1 ≡ some units
      → (units' : List (Replayed F)) × (after_bracket committed sequence replacements taken more
          ≡ some units')
  after_bracket-ends committed s n (rows, entries) more units h =
      elim (Bool-cases (length rows == n)) [
        | inr torn ↦ ([], rw torn refl)
        | inl whole ↦ elim (Bool-cases (contains committed s || not (is_empty entries))) [
          | inl kept ↦ (tally_db.Replay.supersession_unit s rows ∷ units, rw (whole, kept, h) refl)
          | inr lost ↦ (units, rw (whole, lost, h) refl)
        ]
      ]

  resolve-ends :
      (fuel : ℕ) (committed : List ℕ) (entries : List (WalEntry F))
      → length entries < fuel
      → (units : List (Replayed F)) × (resolve fuel committed entries ≡ some units)
  unfolding resolve
  resolve-ends zero committed entries l = absurd (omega arith)
  resolve-ends (suc fuel) committed [] l = ([], refl)
  resolve-ends (suc fuel) committed (row_entry row ∷ entries) l =
      let (units, h) = resolve-ends fuel committed entries (omega arith) in
      (tally_db.Replay.row_unit row ∷ units, rw h refl)
  resolve-ends (suc fuel) committed (supersession_entry s n ∷ entries) l =
      let taken = take_rows n entries in
      let (units, h) =
        resolve-ends fuel committed taken.1 (omega (arith, take_rows-shorter n entries)) in
      after_bracket-ends committed s n taken (λ rest. resolve fuel committed rest) units h

module _ {F : Type 0} (prims : Primitives F) where
  logged_entries-ends :
      (generation columns rows : ℕ) (log : Option (List ℕ)) (base : ℕ)
      (read : Option (List (WalEntry F)))
      → logged_entries prims generation columns rows log ≡ ok (base, read)
      → (entries : List (WalEntry F)) × (read ≡ some entries)
  unfolding logged_entries
  logged_entries-ends generation columns rows none base read h = ([], ground arith)
  logged_entries-ends generation columns rows (some bytes) base read h =
      elim (Bool-cases (ltb (length bytes) 30)) [
        | inl short ↦ ([], ground arith)
        | inr long ↦ elim (Result-cases (decode_wal prims bytes columns)) [
          | inr (e, g) ↦ absurd (ground arith)
          | inl (contents, g) ↦ elim (Bool-cases (contents.generation == generation)) [
            | inl same ↦
                let (entries, read_lem) = decode_wal-ends prims bytes columns contents g in
                let chosen : contents.entries ≡ read = ground arith in
                (entries, sym chosen ∙ read_lem)
            | inr other ↦ ([], ground arith)
          ]
        ]
      ]

module _ (fl : Floats) where
  open fl use {F}

  -- On any log a replay ends, with a store or with an error.
  pub replay_wal-ends :
      (prims : Primitives F) (wal_sync : WalSync) (generation : ℕ) (store : Store F)
      (committed : List ℕ) (log : Option (List ℕ))
      → (answer : Result StorageError (Store F × Option (List ℕ))) × (replay_wal fl prims wal_sync
            generation store committed log
          ≡ some answer)
  unfolding replay_wal units_to_replay
  replay_wal-ends prims wal_sync generation store committed log =
      elim (Result-cases
        (logged_entries prims generation (length store.schema.fields) store.rows log)) [
          | inr (e, failed) ↦ (err e, rw failed refl)
          | inl ((base, read), found) ↦
              let (entries, read_lem) =
                logged_entries-ends prims generation (length store.schema.fields) store.rows log
                  base read found in
              let (units, done) =
                resolve-ends (suc (length entries)) committed entries (omega arith) in
              (
                replay_units fl prims wal_sync generation store
                    (tally_db.Replay.skip_flushed (store.rows - base) units),
                rw (found, read_lem, done) refl,
              )
        ]
