-- ===== src/Store/Touched.antt =====
-- `touched_walk` of src/storage_lite/store.rs: the rows that were born or killed at or after a
-- sequence, each as its segment and its row.
use tally_db.Base.{
  ℕ, zero, suc, ◌+◌, ◌-◌, ◌≤◌, ◌<◌, ◌≡◌, sym, arith, inl, inr, not, ◌&&◌, ◌||◌, Option, none, some,
  List, [], ◌∷◌, ◌++◌,
}
use tally_db.Base.{
  get_elem?, ltb, leb, ◌==◌, if◌then◌else◌, Result, ok, ◌>>=◌, ok_or-some, ok-injective, went_on,
  Bool-cases,
}
use tally_db.Column.{Fault, panic}
use tally_db.Segment.{
  Segment, SegmentView, SequenceInfo, row_ids, contiguous, explicit, sequence_value, end_value,
  one_past, sequence_at, sequence_end,
}
use tally_db.Store.Knowledge.{Stamps}
use tally_db.Store.Snapshot.{KnowledgeSnapshot, kill_at}

module _ {F : Type 0} where
  -- The rows of a segment from `row` on that were born since.
  unfoldable pub born_since : Segment F → ℕ → ℕ → ℕ → Result Fault (List (Segment F × ℕ))
  born_since segment since zero row = ok []
  born_since segment since (suc rows) row = do
    birth ← sequence_at segment row
    rest ← born_since segment since rows (row + 1)
    ok (if leb since birth then (segment, row) ∷ rest else rest)

  unfoldable pub touched_births : List (SegmentView F) → ℕ → Result Fault (List (Segment F × ℕ))
  touched_births [] since = ok []
  touched_births (view ∷ latest) since =
      let rest = touched_births latest since in
      if leb (sequence_end view.segment) since then rest else (do
        first ← born_since view.segment since view.segment.batch.num_rows 0
        later ← rest
        ok (first ++ later))

  -- The segment in which a row id is at home.
  unfoldable pub home : List (SegmentView F) → ℕ → Option (Segment F)
  home [] row_id = none
  home (view ∷ latest) row_id =
      if leb view.segment.base_row_id row_id
        && ltb row_id (view.segment.base_row_id + view.segment.batch.num_rows)
      then some view.segment
      else home latest row_id

  -- A kill at 0 is one at an unknown sequence, and always touches.
  unfoldable pub touched_kills : List (SegmentView F) → Stamps → ℕ → List (Segment F × ℕ)
  touched_kills latest [] since = []
  touched_kills latest ((row_id, kill) ∷ stamps) since =
      let rest = touched_kills latest stamps since in
      if not (kill == 0) && ltb kill since then rest else elim (home latest row_id) [
        | none ↦ rest
        | some segment ↦ (segment, row_id - segment.base_row_id) ∷ rest
      ]

  unfoldable pub past_since : Segment F → ℕ → ℕ → ℕ → Result Fault (List (Segment F × ℕ))
  past_since segment since zero row = ok []
  past_since segment since (suc rows) row = do
    kill ← kill_at segment.superseded row
    birth ← sequence_at segment row
    rest ← past_since segment since rows (row + 1)
    ok (if (kill == 0) || (leb since kill || leb since birth) then (segment, row) ∷ rest else rest)

  unfoldable pub touched_history : List (Segment F) → ℕ → Result Fault (List (Segment F × ℕ))
  touched_history [] since = ok []
  touched_history (segment ∷ history) since = do
    first ← past_since segment since segment.batch.num_rows 0
    rest ← touched_history history since
    ok (first ++ rest)

  unfoldable pub touched_walk : KnowledgeSnapshot F → ℕ → Result Fault (List (Segment F × ℕ))
  touched_walk snapshot since = do
    births ← touched_births snapshot.latest since
    past ← touched_history snapshot.history since
    ok (births ++ (touched_kills snapshot.latest snapshot.stamps since ++ past))

one_past-above : (values : List ℕ) (i b : ℕ) → get_elem? values i ≡ some b → b < one_past values
one_past-above [] i b g = ground arith
one_past-above (x ∷ xs) zero b g = ground arith
one_past-above (x ∷ xs) (suc i) b g = omega (arith, one_past-above xs i b g)

end_value-above :
    (base : ℕ) (s : SequenceInfo) (rows i b : ℕ)
    → i < rows
    → sequence_value base s i ≡ ok b
    → b < end_value base s rows
end_value-above base row_ids rows i b l e = omega (arith, l, ok-injective e)
end_value-above base (contiguous c) rows i b l e = omega (arith, l, ok-injective e)
end_value-above base (explicit values) rows i b l e =
    one_past-above values i b (ok_or-some panic (get_elem? values i) e)

module _ {F : Type 0} where
  -- The sequence of every row of a segment is below the segment's sequence end.
  pub sequence_at-below :
      (segment : Segment F) (row birth : ℕ)
      → row < segment.batch.num_rows
      → sequence_at segment row ≡ ok birth
      → birth < sequence_end segment
  unfolding sequence_at sequence_end
  sequence_at-below segment row birth l e =
      end_value-above segment.base_row_id segment.sequence segment.batch.num_rows row birth l e

  none_born :
      (segment : Segment F) (since n row : ℕ) (touched : List (Segment F × ℕ))
      → sequence_end segment ≤ since
      → row + n ≤ segment.batch.num_rows
      → born_since segment since n row ≡ ok touched
      → touched ≡ []
  unfolding born_since
  none_born segment since zero row touched end l e = sym (ok-injective e)
  none_born segment since (suc n) row touched end l e =
      let (birth, at, e1) = went_on (sequence_at segment row) _ e in
      let (rest, more, e2) = went_on (born_since segment since n (row + 1)) _ e1 in
      let nothing = none_born segment since n (row + 1) rest end (omega arith) more in
      let below = sequence_at-below segment row birth (omega arith) at in ground arith

  -- The births of every segment, whatever its sequence end.
  unfoldable pub every_birth : List (SegmentView F) → ℕ → Result Fault (List (Segment F × ℕ))
  every_birth [] since = ok []
  every_birth (view ∷ latest) since = do
    first ← born_since view.segment since view.segment.batch.num_rows 0
    later ← every_birth latest since
    ok (first ++ later)

  -- Where a walk over every row of every segment succeeds, the walk that skips segments by their
  -- sequence end touches the same rows in the same order.
  pub touched_births-every :
      (latest : List (SegmentView F)) (since : ℕ) (touched : List (Segment F × ℕ))
      → every_birth latest since ≡ ok touched
      → touched_births latest since ≡ ok touched
  unfolding touched_births every_birth
  touched_births-every [] since touched e = e
  touched_births-every (view ∷ latest) since touched e =
      let rows = view.segment.batch.num_rows in
      let (first, born, e1) = went_on (born_since view.segment since rows 0) _ e in
      let (later, more, e2) = went_on (every_birth latest since) _ e1 in
      let rest = touched_births-every latest since later more in
      elim (Bool-cases (leb (sequence_end view.segment) since)) [
        | inl t ↦
            let nothing =
              none_born view.segment since rows 0 first (ground arith) (omega arith) born in
            ground arith
        | inr f ↦ ground arith
      ]
