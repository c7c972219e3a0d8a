-- ===== src/Store/Invariant.antt =====
-- What a store of src/storage_lite/store.rs holds: groups of row versions, one for each segment, and a
-- tail of rows in the write buffer.
pub mod Frozen
pub mod Flushing
pub mod Stamping
pub mod Axis
pub mod Growing
pub mod Outcome
pub mod Operations
pub mod Replacing
use tally_db.Base.{ℕ, zero, suc, ◌+◌, ◌≤◌, ◌<◌, ◌≡◌, List, [], ◌∷◌, ◌++◌, length}
use tally_db.Floats.{Floats}
use tally_db.WriteBuffer.{RowValue}
use tally_db.WriteBuffer.Rows.{HoldsRows}
use tally_db.Store.{Store}
use tally_db.Store.Knowledge.{Shared, Knowing}
use tally_db.Store.Knowledge.Births.{births, Kept, mark}
use tally_db.Store.Versions.{Versions, SegmentsHold, total, answer}

module _ {F : Type 0} where
  -- The versions in the write buffer.
  abbrev pub buffered : Shared F → List (List (RowValue F)) → Versions F
  buffered shared tail = record {
    rows = tail;
    births = births shared.knowledge shared.buffer_base (length tail);
  }

  -- A store that was never compacted, and the versions that it holds.
  pub record StoreHolds (store : Store F) (groups : List (Versions F))
      (tail : List (List (RowValue F))) : Type 0 where
    pub held : SegmentsHold store.shared.segments 0 groups
    pub based : store.shared.buffer_base ≡ total groups
    pub whole : store.shared.buffer_base + length tail ≡ store.rows
    pub buffer_held : HoldsRows store.shared.buffer tail
    pub kept : Kept store.shared.knowledge (length tail)
    pub no_history : store.shared.history ≡ []

  -- The rows that the store answers with as of the cut.
  abbrev pub store_answer :
      Store F → List (Versions F) → List (List (RowValue F)) → ℕ → List (List (RowValue F))
  store_answer store groups tail cut =
      answer store.shared.tombstones cut 0 (groups ++ (buffered store.shared tail ∷ []))

  -- Rows with their births.
  unfoldable pub paired : List (List (RowValue F)) → List ℕ → List (List (RowValue F) × ℕ)
  paired (row ∷ rows) (birth ∷ births) = (row, birth) ∷ paired rows births
  paired _ _ = []

  unfoldable pub flat : List (Versions F) → List (List (RowValue F) × ℕ)
  flat [] = []
  flat (versions ∷ groups) = paired versions.rows versions.births ++ flat groups

  -- All the row versions that the store holds, in the order of their row ids.
  abbrev pub store_versions :
      Store F → List (Versions F) → List (List (RowValue F)) → List (List (RowValue F) × ℕ)
  store_versions store groups tail = flat (groups ++ (buffered store.shared tail ∷ []))

  -- The store goes on from the versions that it held, with some added behind them: what it answered as
  -- of a cut below the bound, it still answers.
  pub record Continues (bound : ℕ) (added : List (List (RowValue F) × ℕ)) (store : Store F)
      (groups : List (Versions F)) (tail : List (List (RowValue F))) (store' : Store F)
      : Type 0 where
    pub groups' : List (Versions F)
    pub tail' : List (List (RowValue F))
    pub holds : StoreHolds store' groups' tail'
    pub later : mark store.shared.knowledge store.rows ≤ mark store'.shared.knowledge store'.rows
    pub same_answer :
        (cut : ℕ)
        → cut < bound
        → store_answer store' groups' tail' cut ≡ store_answer store groups tail cut
    pub more : store_versions store' groups' tail' ≡ store_versions store groups tail ++ added
