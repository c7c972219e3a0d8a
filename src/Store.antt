-- ===== src/Store.antt =====
-- src/storage_lite/store.rs: the store of a table that has no backend, as `Store::new` makes it, so
-- that the write-ahead log and every write to disk fall away, no slot is evicted, and a handle is its
-- view. An operation that may fail after it has changed something returns the store with its answer.
pub mod Knowledge
pub mod Snapshot
pub mod Versions
pub mod Invariant
pub mod Reached
pub mod Flush
pub mod Effects
pub mod Deleting
pub mod Touched
mod Runs
use tally_db.Base.{
  ℕ, zero, suc, ◌+◌, ◌-◌, max, Bool, true, false, ◌&&◌, ◌||◌, not, Option, none, some, List, [],
  ◌∷◌, ◌++◌, map,
}
use tally_db.Base.{length, ltb, leb, ◌==◌, if◌then◌else◌, Result, ok, err, ◌>>=◌}
use tally_db.Column.{Schema}
use tally_db.Floats.{Floats}
use tally_db.Segment.{SegmentView}
use tally_db.WriteBuffer.{
  RowValue, StorageError, tombstone_out_of_range, misuse, panicked, WriteBuffer, new_buffer,
  validate, asserted,
}
use tally_db.Store.Knowledge.{
  Shared, Knowing, watermark, append_row, append_superseding, consume_sequence, restarted,
}
use tally_db.Store.Knowledge.{Stamps, insert_stamp, is_stamped}
use tally_db.Store.Snapshot.{buffer_segment, snapshot_of, KnowledgeSnapshot, knowledge_snapshot_of}

pub record Store (F : Type 0) : Type 0 where
  pub schema : Schema
  pub ordering_key : ℕ
  pub segment_rows : ℕ
  pub rows : ℕ
  pub shared : Shared F

-- `collect` into a `BTreeSet`: ascending, each once.
unfoldable pub insert_id : ℕ → List ℕ → List ℕ
insert_id id [] = id ∷ []
insert_id id (i ∷ ids) =
    if ltb id i then id ∷ i ∷ ids else if id == i then i ∷ ids else i ∷ insert_id id ids

unfoldable pub newly_dead : Stamps → List ℕ → List ℕ
newly_dead stamps [] = []
newly_dead stamps (id ∷ ids) =
    let rest = newly_dead stamps ids in if is_stamped stamps id then rest else insert_id id rest

-- `tombstones.extend(newly.map(|id| (id, stamp)))`
unfoldable pub extend_stamps : List ℕ → ℕ → Stamps → Stamps
extend_stamps [] stamp stamps = stamps
extend_stamps (id ∷ ids) stamp stamps = extend_stamps ids stamp (insert_stamp id stamp stamps)

-- `ids.iter().find(|&&id| id >= self.rows)`
unfoldable pub find_bad : List ℕ → ℕ → Option ℕ
find_bad [] rows = none
find_bad (id ∷ ids) rows = if leb rows id then some id else find_bad ids rows

abbrev pub is_empty {ℓ} : {A : Type ℓ} → List A → Bool
is_empty [] = true
is_empty (x ∷ xs) = false

module _ {F : Type 0} where
  -- `Store::with_segment_rows`
  unfoldable pub new_store : Schema → ℕ → ℕ → Result StorageError (Store F)
  new_store schema ordering_key segment_rows = if segment_rows == 0 then err panicked else (do
    buffer ← new_buffer schema ordering_key
    ok (record {
      schema = schema;
      ordering_key = ordering_key;
      segment_rows = segment_rows;
      rows = 0;
      shared = record {
        segments = [];
        buffer = buffer;
        buffer_base = 0;
        knowledge = none;
        tombstones = [];
        history = [];
      };
    }))

  unfoldable pub next_sequence : Store F → ℕ
  next_sequence store = watermark store.shared store.rows

module _ (fl : Floats) where
  open fl use {F}

  -- A failure leaves the store as it was.
  unfoldable pub flush : Store F → Result StorageError (Store F)
  flush store = if store.shared.buffer.rows == 0 then ok store else (do
    segment ← buffer_segment fl store.shared
    buffer ← new_buffer store.schema store.ordering_key
    ok (record store {
      shared = record store.shared {
        segments = store.shared.segments ++ (segment ∷ []);
        buffer = buffer;
        buffer_base = store.rows;
        knowledge = restarted store.shared.knowledge;
      };
    }))

  -- The flush at the end of an operation whose answer is `a`.
  abbrev pub flushed {ℓ} : {A : Type ℓ} → Store F → A → Store F × Result StorageError A
  flushed store a = elim (flush store) [ ok store' ↦ (store', ok a) | err e ↦ (store, err e) ]

  abbrev pub flushed_when_full {ℓ} : {A : Type ℓ} → Store F → A → Store F × Result StorageError A
  flushed_when_full store a =
      if leb store.segment_rows store.shared.buffer.rows then flushed store a else (store, ok a)

  unfoldable pub append : Store F → List (RowValue F) → Store F × Result StorageError ℕ
  append store row = elim (validate store.shared.buffer row) [
    | err e ↦ (store, err e)
    | ok valid ↦ elim (append_row fl store.shared row) [
      | err e ↦ (store, err e)
      | ok shared ↦
          flushed_when_full (record store { rows = store.rows + 1; shared = shared }) store.rows
    ]
  ]

  -- `tombstone`: the number of rows that died.
  unfoldable pub tombstone : Store F → List ℕ → Result StorageError (Store F × ℕ)
  tombstone store ids = elim (find_bad ids store.rows) [
    | some bad ↦ err (tombstone_out_of_range bad)
    | none ↦
        let newly = newly_dead store.shared.tombstones ids in
        if is_empty newly
        then ok (store, 0)
        else ok (
          record store {
            shared =
                consume_sequence
                  (record store.shared {
                    tombstones = extend_stamps newly (next_sequence store) store.shared.tombstones;
                  })
                  store.rows;
          },
          length newly,
        )
  ]

  unfoldable pub validate_all : Store F → List (List (RowValue F)) → Result StorageError (Unit {0})
  validate_all store [] = ok tt
  validate_all store (row ∷ replacements) = do
    valid ← validate store.shared.buffer row
    validate_all store replacements

  -- The replacements, one behind the other, all born at `sequence`. A failure between them could only
  -- be a panic, since every replacement was validated before.
  unfoldable pub append_replacements :
      Store F → List (List (RowValue F)) → ℕ → Result StorageError (Store F)
  append_replacements store [] sequence = ok store
  append_replacements store (row ∷ replacements) sequence = do
    shared ← append_superseding fl store.shared row sequence store.rows
    append_replacements (record store { rows = store.rows + 1; shared = shared }) replacements
        sequence

  abbrev pub with_stamps : Store F → List ℕ → ℕ → Store F
  with_stamps store newly sequence = record store {
    shared = record store.shared {
      tombstones = extend_stamps newly sequence store.shared.tombstones;
    };
  }

  -- What `supersede` does once its arguments are accepted.
  unfoldable pub supersede_rows :
      Store F → List (List (RowValue F)) → List ℕ → Store F × Result StorageError ℕ
  supersede_rows store replacements newly =
      if is_empty newly && is_empty replacements
      then (store, ok 0)
      else elim (append_replacements store replacements (next_sequence store)) [
        | err e ↦ (store, err e)
        | ok store' ↦
            flushed_when_full (with_stamps store' newly (next_sequence store)) (length newly)
      ]

  unfoldable pub supersede :
      Store F → List (List (RowValue F)) → List ℕ → Store F × Result StorageError ℕ
  supersede store replacements victims =
      if is_empty victims then (store, err misuse) else elim (validate_all store replacements) [
        | err e ↦ (store, err e)
        | ok valid ↦ elim (find_bad victims store.rows) [
          | some bad ↦ (store, err (tombstone_out_of_range bad))
          | none ↦ supersede_rows store replacements (newly_dead store.shared.tombstones victims)
        ]
      ]

  unfoldable pub snapshot : Store F → Result StorageError (List (SegmentView F))
  snapshot store = snapshot_of fl store.shared

  unfoldable pub knowledge_snapshot : Store F → Result StorageError (KnowledgeSnapshot F)
  knowledge_snapshot store = knowledge_snapshot_of fl store.shared
