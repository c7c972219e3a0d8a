-- ===== src/Replay.antt =====
-- `replay_wal` of src/storage_lite/store.rs, the step of a reopen that puts the rows of the write-ahead
-- log back into the buffer. The set of the committed sequences, taken from the delete logs, is a list.
pub mod Units
pub mod Crash
pub mod Skipping
pub mod Recovered
pub mod Applied
pub mod Ends
mod Runs
use tally_db.Base.{
  ℕ, zero, suc, ◌+◌, ◌-◌, Bool, true, false, not, ◌&&◌, ◌||◌, Option, none, some, List, [], ◌∷◌,
  ◌++◌, map,
}
use tally_db.Base.{length, ltb, leb, ◌==◌, if◌then◌else◌, Result, ok, err, ◌>>=◌}
use tally_db.Column.{Schema}
use tally_db.Floats.{Floats}
use tally_db.Format.{FormatError}
use tally_db.WriteBuffer.{RowValue, StorageError, format}
use tally_db.Store.{Store, is_empty}
use tally_db.Store.Knowledge.{append_row, append_superseding}
use tally_db.Store.Deleting.{contains}
use tally_db.Wal.{
  Primitives, WalEntry, WalContents, row_entry, supersession_entry, encode_wal_header,
  encode_wal_supersession, encode_wal_record, decode_wal,
}

pub data WalSync : Type 0 where
  off full : WalSync
  group : ℕ → WalSync

-- `wal_sync == WalSync::Off`
abbrev pub is_off : WalSync → Bool
is_off off = true
is_off full = false
is_off (group interval) = false

pub data Replayed (F : Type 0) : Type 0 where
  row_unit : List (RowValue F) → Replayed F
  supersession_unit : ℕ → List (List (RowValue F)) → Replayed F

module _ {F : Type 0} where
  abbrev pub row_count : Replayed F → ℕ
  row_count (row_unit row) = 1
  row_count (supersession_unit sequence rows) = length rows

  abbrev pub row_before :
      List (RowValue F)
      → List (List (RowValue F)) × List (WalEntry F)
      → List (List (RowValue F)) × List (WalEntry F)
  row_before row (rows, entries) = (row ∷ rows, entries)

  -- The rows of a bracket, with the entries behind them; an entry that is no row is taken too.
  unfoldable pub take_rows : ℕ → List (WalEntry F) → List (List (RowValue F)) × List (WalEntry F)
  take_rows zero entries = ([], entries)
  take_rows (suc replacements) [] = ([], [])
  take_rows (suc replacements) (row_entry row ∷ entries) =
      row_before row (take_rows replacements entries)
  take_rows (suc replacements) (supersession_entry sequence count ∷ entries) = ([], entries)

  abbrev pub unit_before : Replayed F → Option (List (Replayed F)) → Option (List (Replayed F))
  unit_before unit none = none
  unit_before unit (some units) = some (unit ∷ units)

  -- What a bracket comes to; `more` resolves the entries behind it.
  abbrev pub after_bracket :
      List ℕ
      → ℕ
      → ℕ
      → List (List (RowValue F)) × List (WalEntry F)
      → (List (WalEntry F) → Option (List (Replayed F)))
      → Option (List (Replayed F))
  after_bracket committed sequence replacements (rows, entries) more =
      let complete = length rows == replacements in
      let at_tail = is_empty entries in
      if not complete
      then some []
      else if contains committed sequence || not at_tail
      then unit_before (supersession_unit sequence rows) (more entries)
      else more entries

  -- The brackets resolved into units, with fuel for the loop.
  unfoldable pub resolve : ℕ → List ℕ → List (WalEntry F) → Option (List (Replayed F))
  resolve zero committed entries = none
  resolve (suc fuel) committed [] = some []
  resolve (suc fuel) committed (row_entry row ∷ entries) =
      unit_before (row_unit row) (resolve fuel committed entries)
  resolve (suc fuel) committed (supersession_entry sequence replacements ∷ entries) =
      after_bracket committed sequence replacements (take_rows replacements entries)
        (λ rest. resolve fuel committed rest)

  -- The units behind those that flushed segments cover.
  unfoldable pub skip_flushed : ℕ → List (Replayed F) → List (Replayed F)
  skip_flushed skip [] = []
  skip_flushed zero (unit ∷ units) = unit ∷ skip_flushed zero units
  skip_flushed (suc skip) (unit ∷ units) =
      skip_flushed (if leb (row_count unit) (suc skip) then suc skip - row_count unit else 0) units

  abbrev pub resolved : List ℕ → Option (List (WalEntry F)) → Option (List (Replayed F))
  resolved committed none = none
  resolved committed (some entries) = resolve (suc (length entries)) committed entries

  abbrev pub skipped : ℕ → Option (List (Replayed F)) → Option (List (Replayed F))
  skipped skip none = none
  skipped skip (some units) = some (skip_flushed skip units)

module _ {F : Type 0} (prims : Primitives F) where
  -- The first row id and the entries of the log that is found, if any.
  unfoldable pub logged_entries :
      ℕ → ℕ → ℕ → Option (List ℕ) → Result StorageError (ℕ × Option (List (WalEntry F)))
  logged_entries generation columns rows none = ok (rows, some [])
  logged_entries generation columns rows (some bytes) =
      if ltb (length bytes) 30 then ok (rows, some []) else elim (decode_wal prims bytes columns) [
        | err e ↦ err format
        | ok wal ↦
            if wal.generation == generation
            then ok (wal.base_row_id, wal.entries)
            else ok (rows, some [])
      ]

  -- The units that are left to replay; `none` if fuel ran out.
  unfoldable pub units_to_replay :
      ℕ → ℕ → ℕ → List ℕ → Option (List ℕ) → Result StorageError (Option (List (Replayed F)))
  units_to_replay generation columns rows committed log = do
    (base_row_id, entries) ← logged_entries generation columns rows log
    ok (skipped (rows - base_row_id) (resolved committed entries))

  unfoldable pub encode_rows : List (List (RowValue F)) → List ℕ
  encode_rows [] = []
  encode_rows (row ∷ rows) = encode_wal_record prims row ++ encode_rows rows

  unfoldable pub encode_units : List (Replayed F) → List ℕ
  encode_units [] = []
  encode_units (row_unit row ∷ units) = encode_wal_record prims row ++ encode_units units
  encode_units (supersession_unit sequence rows ∷ units) =
      encode_wal_supersession sequence (length rows) ++ (encode_rows rows ++ encode_units units)

  -- The log that takes the place of the one replayed.
  unfoldable pub replacement_log : ℕ → ℕ → List (Replayed F) → List ℕ
  replacement_log generation rows units = encode_wal_header generation rows ++ encode_units units

module _ (fl : Floats) where
  open fl use {F}

  unfoldable pub apply_superseding :
      Store F → ℕ → List (List (RowValue F)) → Result StorageError (Store F)
  apply_superseding store sequence [] = ok store
  apply_superseding store sequence (row ∷ rows) = do
    shared ← append_superseding fl store.shared row sequence store.rows
    apply_superseding (record store { rows = store.rows + 1; shared = shared }) sequence rows

  unfoldable pub apply_replayed : Store F → Replayed F → Result StorageError (Store F)
  apply_replayed store (row_unit row) = do
    shared ← append_row fl store.shared row
    ok (record store { rows = store.rows + 1; shared = shared })
  apply_replayed store (supersession_unit sequence rows) = apply_superseding store sequence rows

  unfoldable pub apply_all : Store F → List (Replayed F) → Result StorageError (Store F)
  apply_all store [] = ok store
  apply_all store (unit ∷ units) = do store' ← apply_replayed store unit; apply_all store' units

  -- The store and the log that a replay leaves, no log under `Off`.
  unfoldable pub replay_units :
      Primitives F
      → WalSync
      → ℕ
      → Store F
      → List (Replayed F)
      → Result StorageError (Store F × Option (List ℕ))
  replay_units prims wal_sync generation store units = do
    store' ← apply_all store units
    ok (
      store',
      (if is_off wal_sync then none else some (replacement_log prims generation store.rows units)),
    )

  -- `none` in place of an answer if fuel ran out.
  abbrev pub ran {ℓ} :
      {A B : Type ℓ}
      → Result StorageError (Option A)
      → (A → Result StorageError B)
      → Option (Result StorageError B)
  ran (err e) more = some (err e)
  ran (ok none) more = none
  ran (ok (some a)) more = some (more a)

  unfoldable pub replay_wal :
      Primitives F
      → WalSync
      → ℕ
      → Store F
      → List ℕ
      → Option (List ℕ)
      → Option (Result StorageError (Store F × Option (List ℕ)))
  replay_wal prims wal_sync generation store committed log =
      ran (units_to_replay prims generation (length store.schema.fields) store.rows committed log)
        (λ units. replay_units prims wal_sync generation store units)
