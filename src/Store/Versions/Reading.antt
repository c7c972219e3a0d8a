-- ===== src/Store/Versions/Reading.antt =====
-- `KnowledgeSnapshot::as_of` of src/storage_lite/store.rs, read row by row: the rows that were born
-- by the cut and not killed by it.
use tally_db.Base.{
  ℕ, zero, suc, ◌+◌, ◌≡◌, refl, ap, arith, subst, inl, inr, Bool, true, some, List, [], ◌∷◌, map,
}
use tally_db.Base.{length, get_elem?, ok, Bool-cases, Option-cases, not}
use tally_db.Bitmap.FromBools.{get-from_bools}
use tally_db.Segment.{Segment, SegmentView, is_live, sequence_at}
use tally_db.WriteBuffer.{RowValue, row_at}
use tally_db.Store.Knowledge.{Stamps, get_stamp}
use tally_db.Store.Snapshot.{known_rows, known_view, live_as_of, masked, all_true, killed_by}
use tally_db.Store.Versions.{
  outlives, visible, keep, read_rows, read_views, Versions, answer, SegmentsHold,
}

-- What the code takes for a kill by the cut is what ends a version's life by the cut.
pub outlives-killed_by :
    (stamps : Stamps) (cut id : ℕ)
    → not (killed_by stamps cut id) ≡ outlives cut (get_stamp stamps id)
outlives-killed_by stamps cut id = elim (Option-cases (get_stamp stamps id)) [
  | inl n ↦ ground arith
  | inr (k, g) ↦ ground arith
]

pub length-visible :
    (stamps : Stamps) (cut base : ℕ) (births : List ℕ)
    → length (visible stamps cut base births) ≡ length births
unfolding visible
length-visible stamps cut base [] = refl
length-visible stamps cut base (birth ∷ births) =
    ap suc (length-visible stamps cut (base + 1) births)

all_true-at :
    (mask : List Bool) (i : ℕ) (m : Bool)
    → all_true mask ≡ true
    → get_elem? mask i ≡ some m
    → m ≡ true
all_true-at [] i m h g = ground arith
all_true-at (b ∷ mask) zero m h g = ground arith
all_true-at (b ∷ mask) (suc i) m h g = all_true-at mask i m (ground arith) g

from_start : (P : ℕ → Type 0) (i : ℕ) → P i → P (0 + i)
from_start P i p = subst P (omega arith) p

module _ {F : Type 0} where
  known_view-live :
      (segment : Segment F) (mask : List Bool) (i : ℕ) (m : Bool)
      → get_elem? mask i ≡ some m
      → is_live (known_view segment mask) i ≡ ok m
  unfolding is_live
  known_view-live segment mask i m g = elim (Bool-cases (all_true mask)) [
    | inl t ↦ let yes_all = all_true-at mask i m t g in ground arith
    | inr f ↦ let bit = get-from_bools mask i in ground arith
  ]

  known_rows-visible :
      (stamps : Stamps) (segment : Segment F) (cut n row : ℕ) (births : List ℕ)
      → length births ≡ n
      → ((i birth : ℕ) → get_elem? births i ≡ some birth → sequence_at segment (row + i) ≡ ok birth)
      → known_rows stamps segment cut n row
        ≡ ok (visible stamps cut (segment.base_row_id + row) births)
  unfolding known_rows visible
  known_rows-visible stamps segment cut zero row [] l at = refl
  known_rows-visible stamps segment cut zero row (b ∷ births) l at = absurd (omega arith)
  known_rows-visible stamps segment cut (suc n) row [] l at = absurd (omega arith)
  known_rows-visible stamps segment cut (suc n) row (b ∷ births) l at =
      let first : sequence_at segment row ≡ ok b =
        subst (λ k. sequence_at segment k ≡ ok b) {x = row + 0} (omega arith) (at 0 b refl) in
      let rest =
        known_rows-visible stamps segment cut n (row + 1) births (omega arith) (λ i birth g.
          subst (λ k. sequence_at segment k ≡ ok birth) {x = row + suc i} (omega arith)
            (at (suc i) birth g)) in
      let rest' : known_rows stamps segment cut n (row + 1)
          ≡ ok (visible stamps cut (segment.base_row_id + row + 1) births) =
        subst (λ k. known_rows stamps segment cut n (row + 1) ≡ ok (visible stamps cut k births))
          (omega arith) rest in
      rw (first, rest', outlives-killed_by stamps cut (segment.base_row_id + row)) refl

  read_rows-keep :
      (view : SegmentView F) (n row : ℕ) (mask : List Bool) (rows : List (List (RowValue F)))
      → length mask ≡ n
      → length rows ≡ n
      → ((i : ℕ) (m : Bool) → get_elem? mask i ≡ some m → is_live view (row + i) ≡ ok m)
      → ((i : ℕ) (cells : List (RowValue F))
          → get_elem? rows i ≡ some cells
          → row_at view.segment.batch.columns (row + i) ≡ ok cells)
      → read_rows view n row ≡ ok (keep mask rows)
  unfolding read_rows keep
  read_rows-keep view zero row [] rows l k live at = refl
  read_rows-keep view zero row (m ∷ mask) rows l k live at = absurd (omega arith)
  read_rows-keep view (suc n) row [] rows l k live at = absurd (omega arith)
  read_rows-keep view (suc n) row (m ∷ mask) [] l k live at = absurd (omega arith)
  read_rows-keep view (suc n) row (m ∷ mask) (cells ∷ rows) l k live at =
      let shown : is_live view row ≡ ok m =
        subst (λ k. is_live view k ≡ ok m) {x = row + 0} (omega arith) (live 0 m refl) in
      let first : row_at view.segment.batch.columns row ≡ ok cells =
        subst (λ k. row_at view.segment.batch.columns k ≡ ok cells) {x = row + 0} (omega arith)
          (at 0 cells refl) in
      let rest =
        read_rows-keep view n (row + 1) mask rows (omega arith) (omega arith)
          (λ i b g.
            subst (λ k. is_live view k ≡ ok b) {x = row + suc i} (omega arith) (live (suc i) b g))
          (λ i c g.
            subst (λ k. row_at view.segment.batch.columns k ≡ ok c) {x = row + suc i} (omega arith)
              (at (suc i) c g)) in
      ground arith

  pub live_as_of-answer :
      (stamps : Stamps) (cut base : ℕ) (segments : List (Segment F)) (groups : List (Versions F))
      → SegmentsHold segments base groups
      → (views : List (SegmentView F)) × (live_as_of stamps cut (map (masked stamps) segments)
          ≡ ok views)
        × (read_views views ≡ ok (answer stamps cut base groups))
  unfolding live_as_of masked read_views answer
  live_as_of-answer stamps cut base [] [] h = ([], refl, refl)
  live_as_of-answer stamps cut base [] (g ∷ groups) h = absurd h
  live_as_of-answer stamps cut base (s ∷ segments) [] h = absurd h
  live_as_of-answer stamps cut base (s ∷ segments) (g ∷ groups) (held, more) =
      let mask = visible stamps cut base g.births in
      let (views, later, read) =
        live_as_of-answer stamps cut (base + length g.rows) segments groups more in
      let known : known_rows stamps s cut s.batch.num_rows 0 ≡ ok mask =
        subst (λ k. known_rows stamps s cut s.batch.num_rows 0 ≡ ok (visible stamps cut k g.births))
          (omega (arith, held.based))
          (known_rows-visible stamps s cut s.batch.num_rows 0 g.births
            (omega (arith, held.born, held.whole))
            (λ i b e. from_start (λ k. sequence_at s k ≡ ok b) i (held.birth_lem i b e))) in
      let one : read_rows (known_view s mask) s.batch.num_rows 0 ≡ ok (keep mask g.rows) =
        read_rows-keep (known_view s mask) s.batch.num_rows 0 mask g.rows
          (omega (arith, held.born, held.whole, length-visible stamps cut base g.births))
          (omega (arith, held.whole))
          (λ i m e.
            from_start (λ k. is_live (known_view s mask) k ≡ ok m) i (known_view-live s mask i m e))
          (λ i c e. from_start (λ k. row_at s.batch.columns k ≡ ok c) i (held.row_lem i c e)) in
      (known_view s mask ∷ views, ground arith, ground arith)
