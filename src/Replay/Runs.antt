-- ===== src/Replay/Runs.antt =====
-- Runs of the replay of src/storage_lite/store.rs, on a table of timestamps.
use tally_db.Base.{
  ℕ, ◌≡◌, refl, arith, true, false, Option, none, some, List, [], ◌∷◌, ◌++◌, take, All, Result, ok,
  err,
}
use tally_db.Base.Bytes.{le_bytes}
use tally_db.Column.{Schema, i64}
use tally_db.Floats.Sample.{sample}
use tally_db.WriteBuffer.{
  RowValue, StorageError, i64_value, i64_builder, new_buffer, new_builder, empty_builder,
  check_cell, check_cells, validate, push, push_cells,
}
use tally_db.WriteBuffer.Rows.{HoldsRows, new_buffer-HoldsRows}
use tally_db.Store.{Store}
use tally_db.Store.Knowledge.{append_row, append_superseding}
use tally_db.Store.Deleting.{contains}
use tally_db.Wal.{Primitives, encode_wal_header, encode_cell, row_payload}
use tally_db.Wal.Cells.{Fits}
use tally_db.Replay.{
  full, Replayed, row_unit, supersession_unit, take_rows, resolve, units_to_replay, encode_units,
  replacement_log, apply_superseding, apply_replayed, apply_all, replay_units, replay_wal,
}
use tally_db.Replay.Units.{entries_of, Settled}
use tally_db.Replay.Recovered.{units_to_replay-replacement_log, units_to_replay-uncommitted}
use tally_db.Replay.Applied.{replay_wal-HoldsRows}
use tally_db.Replay.Ends.{replay_wal-ends}

abbrev bits : Option ℕ → ℕ
bits none = 0
bits (some v) = v

abbrev prims : Primitives (Option ℕ)
prims = record { to_bits = bits; from_bits = some; utf8 = λ text. true }

abbrev row : ℕ → List (RowValue (Option ℕ))
row time = i64_value time ∷ []

abbrev corrected : Replayed (Option ℕ)
corrected = supersession_unit 7 (row 30 ∷ [])

abbrev logged_units : List (Replayed (Option ℕ))
logged_units = row_unit (row 20) ∷ corrected ∷ []

abbrev flushed_units : List (Replayed (Option ℕ))
flushed_units = row_unit (row 10) ∷ []

abbrev clock : Schema
clock = record {
  fields = record { name = 116 ∷ 115 ∷ []; column_type = i64; nullable = false } ∷ [];
}

abbrev reopened : Store (Option ℕ)
reopened = record {
  schema = clock;
  ordering_key = 0;
  segment_rows = 8;
  rows = 0;
  shared = record {
    segments = [];
    buffer = record {
      schema = clock;
      ordering_key = 0;
      builders = i64_builder [] [] ∷ [];
      rows = 0;
      ordered = true;
      last_ordering_value = none;
    };
    buffer_base = 0;
    knowledge = none;
    tombstones = [];
    history = [];
  };
}

abbrev answered :
    Option (Result StorageError (Store (Option ℕ) × Option (List ℕ))) → Store (Option ℕ)
answered (some (ok (store, log))) = store
answered (some (err e)) = reopened
answered none = reopened

both-Fits : All (Fits prims 1) (entries_of (flushed_units ++ logged_units))
unfolding entries_of row_payload encode_cell le_bytes
both-Fits = (
  (refl, (omega arith, tt), omega arith),
  (
    (refl, (omega arith, tt), omega arith),
    ((omega arith, omega arith), ((refl, (omega arith, tt), omega arith), tt)),
  ),
)

units-Fits : All (Fits prims 1) (entries_of logged_units)
unfolding entries_of row_payload encode_cell le_bytes
units-Fits = (
  (refl, (omega arith, tt), omega arith),
  ((omega arith, omega arith), ((refl, (omega arith, tt), omega arith), tt)),
)

corrected-Fits : All (Fits prims 1) (entries_of (corrected ∷ []))
unfolding entries_of row_payload encode_cell le_bytes
corrected-Fits = ((omega arith, omega arith), ((refl, (omega arith, tt), omega arith), tt))

both-Settled : Settled (7 ∷ []) [] (flushed_units ++ logged_units)
unfolding contains entries_of
both-Settled = (refl, tt)

units-Settled : Settled (7 ∷ []) [] logged_units
unfolding contains entries_of
units-Settled = (refl, tt)

units_to_replay-replacement_log_example :
    units_to_replay prims 2 1 41
      (7 ∷ [])
      (some (replacement_log prims 2 40 (flushed_units ++ logged_units)))
    ≡ ok (some logged_units)
units_to_replay-replacement_log_example =
    units_to_replay-replacement_log prims 2 40 1 (7 ∷ []) flushed_units logged_units (omega arith)
      (omega arith) both-Fits both-Settled (omega arith, tt)

row-Fits : All (Fits prims 1) (entries_of (flushed_units ++ (row_unit (row 20) ∷ [])))
unfolding entries_of row_payload encode_cell le_bytes
row-Fits = ((refl, (omega arith, tt), omega arith), ((refl, (omega arith, tt), omega arith), tt))

none_committed : contains [] 7 ≡ false
unfolding contains
none_committed = refl

units_to_replay-uncommitted_example :
    units_to_replay prims 2 1 41 [] (
      some (
        encode_wal_header 2 40
        ++ (encode_units prims (flushed_units ++ (row_unit (row 20) ∷ []))
            ++ take 40 (encode_units prims (corrected ∷ [])))))
    ≡ ok (some (row_unit (row 20) ∷ []))
units_to_replay-uncommitted_example =
    units_to_replay-uncommitted prims 2 40 1 [] flushed_units (row_unit (row 20) ∷ []) 7
      (row 30 ∷ []) 40 (omega arith) (omega arith) row-Fits corrected-Fits tt (omega arith, tt)
      none_committed

units-left :
    units_to_replay prims 2 1 0 (7 ∷ []) (some (replacement_log prims 2 0 logged_units))
    ≡ ok (some logged_units)
units-left =
    units_to_replay-replacement_log prims 2 0 1 (7 ∷ []) [] logged_units (omega arith) (omega arith)
      units-Fits units-Settled tt

abbrev recovered : Store (Option ℕ)
recovered = answered (some (replay_units sample prims full 2 reopened logged_units))

replay_lem :
    replay_wal sample prims full 2 reopened (7 ∷ []) (some (replacement_log prims 2 0 logged_units))
    ≡ some (ok (recovered, some (replacement_log prims 2 0 logged_units)))
unfolding replay_wal replay_units apply_all apply_replayed apply_superseding append_row
    append_superseding tally_db.WriteBuffer.append validate check_cells check_cell push_cells push
replay_lem = rw units-left refl

reopened-HoldsRows : HoldsRows reopened.shared.buffer []
unfolding new_buffer new_builder empty_builder
reopened-HoldsRows = new_buffer-HoldsRows sample clock 0 reopened.shared.buffer refl

replay_wal-HoldsRows_example :
    HoldsRows recovered.shared.buffer (row 20 ∷ row 30 ∷ [])
    × (recovered.rows ≡ 2)
    × (some (replacement_log prims 2 0 logged_units)
        ≡ some (replacement_log prims 2 0 logged_units))
replay_wal-HoldsRows_example =
    replay_wal-HoldsRows sample prims full 2 reopened recovered (7 ∷ [])
      (some (replacement_log prims 2 0 logged_units))
      (some (replacement_log prims 2 0 logged_units)) logged_units [] reopened-HoldsRows units-left
      replay_lem

replay_wal-ends_example :
    (answer : Result StorageError (Store (Option ℕ) × Option (List ℕ))) × (replay_wal sample prims
        full 2 reopened []
        (some (replacement_log prims 2 0 logged_units))
      ≡ some answer)
replay_wal-ends_example =
    replay_wal-ends sample prims full 2 reopened [] (some (replacement_log prims 2 0 logged_units))

-- Two supersessions that did not commit: the second is behind the first, which is kept.
kept_once :
    resolve 5 [] (entries_of (corrected ∷ supersession_unit 8 (row 40 ∷ []) ∷ []))
    ≡ some (corrected ∷ [])
unfolding resolve entries_of take_rows contains
kept_once = refl

-- The log that this replay leaves has the first at its tail, and a second reopen drops it.
dropped_next : resolve 3 [] (entries_of (corrected ∷ [])) ≡ some []
unfolding resolve entries_of take_rows contains
dropped_next = refl
