-- ===== src/Store/Versions.antt =====
-- The rows that the answers of src/storage_lite/store.rs stand for: a table is a sequence of row
-- versions, each born at a sequence number and perhaps killed at a later one.
pub mod Reading
pub mod Groups
use tally_db.Base.{
  ℕ, zero, suc, ◌+◌, ◌≡◌, Bool, true, false, not, ◌&&◌, Option, none, some, List, [], ◌∷◌, ◌++◌,
}
use tally_db.Base.{length, get_elem?, leb, ltb, if◌then◌else◌, Result, ok, err, ◌>>=◌}
use tally_db.Column.{Fault}
use tally_db.Floats.{Floats}
use tally_db.Segment.{Segment, SegmentView, is_live, sequence_at}
use tally_db.WriteBuffer.{RowValue, StorageError, asserted, row_at}
use tally_db.Store.Knowledge.{Stamps, get_stamp}

-- A version is there until the sequence of its kill, which is the first that it is gone at.
abbrev pub outlives : ℕ → Option ℕ → Bool
outlives cut none = true
outlives cut (some kill) = ltb cut kill

-- Which of the rows from row id `base` on, born at `births`, are known at the cut.
unfoldable pub visible : Stamps → ℕ → ℕ → List ℕ → List Bool
visible stamps cut base [] = []
visible stamps cut base (birth ∷ births) =
    (leb birth cut && outlives cut (get_stamp stamps base)) ∷ visible stamps cut (base + 1) births

-- The rows that a mask keeps.
unfoldable pub keep {ℓ} : {A : Type ℓ} → List Bool → List A → List A
keep (b ∷ mask) (row ∷ rows) = let rest = keep mask rows in if b then row ∷ rest else rest
keep _ _ = []

-- Some versions: rows, and for each its birth.
pub record Versions (F : Type 0) : Type 0 where
  pub rows : List (List (RowValue F))
  pub births : List ℕ

module _ {F : Type 0} where
  -- A reader goes through the rows of a view from `row` on, and reads the live ones.
  unfoldable pub read_rows : SegmentView F → ℕ → ℕ → Result StorageError (List (List (RowValue F)))
  read_rows view zero row = ok []
  read_rows view (suc count) row = do
    live ← asserted (is_live view row)
    cells ← row_at view.segment.batch.columns row
    rest ← read_rows view count (row + 1)
    ok (if live then cells ∷ rest else rest)

  unfoldable pub read_views : List (SegmentView F) → Result StorageError (List (List (RowValue F)))
  read_views [] = ok []
  read_views (view ∷ views) = do
    first ← read_rows view view.segment.batch.num_rows 0
    rest ← read_views views
    ok (first ++ rest)

  abbrev pub answered : Stamps → ℕ → ℕ → Versions F → List (List (RowValue F))
  answered stamps cut base versions = keep (visible stamps cut base versions.births) versions.rows

  -- The answer to `AS OF cut` over groups of versions that follow each other from row id `base` on.
  unfoldable pub answer : Stamps → ℕ → ℕ → List (Versions F) → List (List (RowValue F))
  answer stamps cut base [] = []
  answer stamps cut base (versions ∷ groups) =
      answered stamps cut base versions ++ answer stamps cut (base + length versions.rows) groups

  -- A segment that holds the versions at row id `base`.
  pub record SegmentHolds (segment : Segment F) (base : ℕ) (versions : Versions F) : Type 0 where
    pub based : segment.base_row_id ≡ base
    pub whole : segment.batch.num_rows ≡ length versions.rows
    pub born : length versions.births ≡ length versions.rows
    pub row_lem :
        (i : ℕ) (row : List (RowValue F))
        → get_elem? versions.rows i ≡ some row
        → row_at segment.batch.columns i ≡ ok row
    pub birth_lem :
        (i birth : ℕ) → get_elem? versions.births i ≡ some birth → sequence_at segment i ≡ ok birth

  abbrev pub SegmentsHold : List (Segment F) → ℕ → List (Versions F) → Type 0
  SegmentsHold [] base [] = Unit
  SegmentsHold (segment ∷ segments) base (versions ∷ groups) =
      SegmentHolds segment base versions
      × SegmentsHold segments (base + length versions.rows) groups
  SegmentsHold _ base _ = ⊥

  abbrev pub total : List (Versions F) → ℕ
  total [] = 0
  total (versions ∷ groups) = length versions.rows + total groups
