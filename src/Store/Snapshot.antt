-- ===== src/Store/Snapshot.antt =====
-- What readers see of a store: `snapshot_of`, `KnowledgeSnapshot` with `as_of`, and the walk over
-- what was born or killed since a watermark, of src/storage_lite/store.rs.
use tally_db.Base.{
  ℕ, zero, suc, ◌+◌, Bool, true, false, not, ◌&&◌, Option, none, some, List, [], ◌∷◌, ◌++◌, map,
}
use tally_db.Base.{get_elem?, ltb, leb, ◌==◌, if◌then◌else◌, Result, ok, ◌>>=◌, ok_or}
use tally_db.Bitmap.{Bitmap, from_bools}
use tally_db.Column.{Fault, panic}
use tally_db.Floats.{Floats}
use tally_db.Segment.{Segment, SegmentView, SequenceInfo, sequence_at, with_sequence}
use tally_db.WriteBuffer.{StorageError, asserted, freeze_at}
use tally_db.Store.Knowledge.{Stamps, get_stamp, is_stamped, Shared, buffer_sequence}

-- `tombstones.range(base..base + rows).next().is_none()`
unfoldable pub none_stamped : Stamps → ℕ → ℕ → Bool
none_stamped [] base rows = true
none_stamped ((id, kill) ∷ stamps) base rows =
    if leb base id && ltb id (base + rows) then false else none_stamped stamps base rows

abbrev pub unstamped : Stamps → ℕ → ℕ → List Bool
unstamped stamps base zero = []
unstamped stamps base (suc rows) = not (is_stamped stamps base) ∷ unstamped stamps (base + 1) rows

unfoldable pub live_mask : Stamps → ℕ → ℕ → Option Bitmap
live_mask stamps base rows =
    if none_stamped stamps base rows then none else some (from_bools (unstamped stamps base rows))

module _ {F : Type 0} where
  unfoldable pub masked : Stamps → Segment F → SegmentView F
  masked stamps segment = record {
    segment = segment;
    live = live_mask stamps segment.base_row_id segment.batch.num_rows;
  }

  abbrev pub stamped : Option SequenceInfo → Segment F → Result StorageError (Segment F)
  stamped none segment = ok segment
  stamped (some sequence) segment = asserted (with_sequence sequence segment)

pub record KnowledgeSnapshot (F : Type 0) : Type 0 where
  pub latest : List (SegmentView F)
  pub history : List (Segment F)
  pub stamps : Stamps

module _ (fl : Floats) where
  open fl use {F}

  -- The buffer frozen from a copy, its rows carrying their births.
  unfoldable pub buffer_segment : Shared F → Result StorageError (Segment F)
  buffer_segment shared = do
    segment ← freeze_at fl shared.buffer shared.buffer_base
    stamped (buffer_sequence shared) segment

  unfoldable pub snapshot_of : Shared F → Result StorageError (List (SegmentView F))
  snapshot_of shared =
      let frozen = map (masked shared.tombstones) shared.segments in
      if shared.buffer.rows == 0 then ok frozen else (do
        segment ← buffer_segment shared
        ok (frozen ++ (masked shared.tombstones segment ∷ [])))

  unfoldable pub knowledge_snapshot_of : Shared F → Result StorageError (KnowledgeSnapshot F)
  knowledge_snapshot_of shared = do
    latest ← snapshot_of shared
    ok (record { latest = latest; history = shared.history; stamps = shared.tombstones })

-- `stamps.get(id).is_some_and(|&kill| kill <= cut)`
abbrev pub killed_by : Stamps → ℕ → ℕ → Bool
killed_by stamps cut id = elim (get_stamp stamps id) [ none ↦ false | some kill ↦ leb kill cut ]

-- A history row without a kill array reads as killed at 0.
abbrev pub kill_at : Option (List ℕ) → ℕ → Result Fault ℕ
kill_at none row = ok 0
kill_at (some kills) row = ok_or panic (get_elem? kills row)

abbrev pub all_true : List Bool → Bool
all_true [] = true
all_true (b ∷ bs) = b && all_true bs

module _ {F : Type 0} where
  -- The rows of a live segment from `row` on: born by the cut, and not killed by it.
  unfoldable pub known_rows : Stamps → Segment F → ℕ → ℕ → ℕ → Result Fault (List Bool)
  known_rows stamps segment cut zero row = ok []
  known_rows stamps segment cut (suc rows) row = do
    birth ← sequence_at segment row
    rest ← known_rows stamps segment cut rows (row + 1)
    ok ((leb birth cut && not (killed_by stamps cut (segment.base_row_id + row))) ∷ rest)

  unfoldable pub history_rows : Segment F → ℕ → ℕ → ℕ → Result Fault (List Bool)
  history_rows segment cut zero row = ok []
  history_rows segment cut (suc rows) row = do
    kill ← kill_at segment.superseded row
    birth ← sequence_at segment row
    rest ← history_rows segment cut rows (row + 1)
    ok ((leb birth cut && ltb cut kill) ∷ rest)

  abbrev pub known_view : Segment F → List Bool → SegmentView F
  known_view segment mask = record {
    segment = segment;
    live = if all_true mask then none else some (from_bools mask);
  }

  unfoldable pub live_as_of :
      Stamps → ℕ → List (SegmentView F) → Result Fault (List (SegmentView F))
  live_as_of stamps cut [] = ok []
  live_as_of stamps cut (view ∷ latest) = do
    mask ← known_rows stamps view.segment cut view.segment.batch.num_rows 0
    rest ← live_as_of stamps cut latest
    ok (known_view view.segment mask ∷ rest)

  unfoldable pub history_as_of : ℕ → List (Segment F) → Result Fault (List (SegmentView F))
  history_as_of cut [] = ok []
  history_as_of cut (segment ∷ history) = do
    mask ← history_rows segment cut segment.batch.num_rows 0
    rest ← history_as_of cut history
    ok (record { segment = segment; live = some (from_bools mask) } ∷ rest)

  unfoldable pub as_of : KnowledgeSnapshot F → ℕ → Result Fault (List (SegmentView F))
  as_of snapshot cut = do
    live ← live_as_of snapshot.stamps cut snapshot.latest
    past ← history_as_of cut snapshot.history
    ok (live ++ past)
