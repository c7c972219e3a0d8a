-- ===== src/Predicate/Rows.antt =====
-- The shape of an evaluation of src/query_lite/predicate.rs: a truth value for each row of the segment.
use tally_db.Base.{ℕ, zero, suc, ◌+◌, ◌≡◌, sym, ◌∙◌, subst, arith, Bool, ◌&&◌, ◌||◌}
use tally_db.Base.{Option, some, List, length, get_elem?, Result, ok, ok_or-some, went_on}
use tally_db.Bitmap.{from_bools}
use tally_db.Bitmap.Algebra.{zip_with, length-zip_with, and-from_bools, or-from_bools}
use tally_db.Column.{
  Text, Column, f64_column, i64_column, key_column, column_len, Schema, Fault, panic,
}
use tally_db.Floats.{Floats}
use tally_db.Segment.{SegmentView}
use tally_db.Predicate.{ThreeValued, three_and, three_or, three_not, leaf_rows, leaf_result}
use tally_db.Predicate.{
  Predicate, compare_number, compare_expr, key_equals, key_like, is_null, key_in, conj, disj, neg,
}
use tally_db.Column.{dictionary_len}
use tally_db.Predicate.{allowed_codes, scatter}
use tally_db.Predicate.{
  column_index, column_at, compare_column, key_test, key_predicate, key_membership, evaluate_3vl,
}

-- A result that says for each of `rows` rows whether it is TRUE and whether it is FALSE.
pub record HasRows (rows : ℕ) (r : ThreeValued) : Type 0 where
  pub truths : List Bool
  pub falsities : List Bool
  pub truth_lem : r.truth ≡ from_bools truths
  pub falsity_lem : r.falsity ≡ from_bools falsities
  pub truths_len : length truths ≡ rows
  pub falsities_len : length falsities ≡ rows

leaf_rows-length :
    (rows row : ℕ) (verdict : ℕ → Result Fault (Bool × Bool)) (r : List Bool × List Bool)
    → leaf_rows rows row verdict ≡ ok r
    → (length r.0 ≡ rows) × (length r.1 ≡ rows)
unfolding leaf_rows
leaf_rows-length zero row verdict r h = ground arith
leaf_rows-length (suc rows) row verdict r h =
    let (v, _, h1) = went_on (verdict row) _ h in
    let (rest, later, h2) = went_on (leaf_rows rows (row + 1) verdict) _ h1 in
    let (a, b) = leaf_rows-length rows (row + 1) verdict rest later in ground arith

pub leaf_result-HasRows :
    (rows : ℕ) (verdict : ℕ → Result Fault (Bool × Bool)) (r : ThreeValued)
    → leaf_result rows verdict ≡ ok r
    → HasRows rows r
unfolding leaf_result
leaf_result-HasRows rows verdict r h =
    let (p, first, rest) = went_on (leaf_rows rows 0 verdict) _ h in
    let (a, b) = leaf_rows-length rows 0 verdict p first in
    record {
      truths = p.0;
      falsities = p.1;
      truth_lem = ground arith;
      falsity_lem = ground arith;
      truths_len = a;
      falsities_len = b;
    }

module _ (rows : ℕ) (a b : ThreeValued) (p : HasRows rows a) (q : HasRows rows b) where
  -- `and` of two results is TRUE on the rows where both are, and FALSE where either is.
  pub three_and-rows :
      three_and a b
      ≡ ok (record {
        truth = from_bools (zip_with ◌&&◌ p.truths q.truths);
        falsity = from_bools (zip_with ◌||◌ p.falsities q.falsities);
      })
  unfolding three_and
  three_and-rows = rw (
    p.truth_lem,
    q.truth_lem,
    p.falsity_lem,
    q.falsity_lem,
    and-from_bools p.truths q.truths (p.truths_len ∙ sym q.truths_len),
    or-from_bools p.falsities q.falsities (p.falsities_len ∙ sym q.falsities_len),
  )

  -- `or` of two results is TRUE on the rows where either is, and FALSE where both are.
  pub three_or-rows :
      three_or a b
      ≡ ok (record {
        truth = from_bools (zip_with ◌||◌ p.truths q.truths);
        falsity = from_bools (zip_with ◌&&◌ p.falsities q.falsities);
      })
  unfolding three_or
  three_or-rows = rw (
    p.truth_lem,
    q.truth_lem,
    p.falsity_lem,
    q.falsity_lem,
    or-from_bools p.truths q.truths (p.truths_len ∙ sym q.truths_len),
    and-from_bools p.falsities q.falsities (p.falsities_len ∙ sym q.falsities_len),
  )

  zip_rows : (f g : Bool → Bool → Bool) → Result Fault ThreeValued
  zip_rows f g = ok (record {
    truth = from_bools (zip_with f p.truths q.truths);
    falsity = from_bools (zip_with g p.falsities q.falsities);
  })

  zipped : (f g : Bool → Bool → Bool) (r : ThreeValued) → zip_rows f g ≡ ok r → HasRows rows r
  unfolding zip_rows
  zipped f g r h = record {
    truths = zip_with f p.truths q.truths;
    falsities = zip_with g p.falsities q.falsities;
    truth_lem = ground arith;
    falsity_lem = ground arith;
    truths_len =
        length-zip_with f p.truths q.truths (p.truths_len ∙ sym q.truths_len) ∙ p.truths_len;
    falsities_len =
        length-zip_with g p.falsities q.falsities (p.falsities_len ∙ sym q.falsities_len)
        ∙ p.falsities_len;
  }

  pub three_and-HasRows : (r : ThreeValued) → three_and a b ≡ ok r → HasRows rows r
  unfolding zip_rows
  three_and-HasRows r h = zipped ◌&&◌ ◌||◌ r (sym three_and-rows ∙ h)

  pub three_or-HasRows : (r : ThreeValued) → three_or a b ≡ ok r → HasRows rows r
  unfolding zip_rows
  three_or-HasRows r h = zipped ◌||◌ ◌&&◌ r (sym three_or-rows ∙ h)

pub three_not-HasRows : (rows : ℕ) (a : ThreeValued) → HasRows rows a → HasRows rows (three_not a)
unfolding three_not
three_not-HasRows rows a p = record {
  truths = p.falsities;
  falsities = p.truths;
  truth_lem = p.falsity_lem;
  falsity_lem = p.truth_lem;
  truths_len = p.falsities_len;
  falsities_len = p.truths_len;
}

module _ {F : Type 0} where
  key_test-HasRows :
      (matches : Text → Option Bool) (negated : Bool) (c : Column F) (r : ThreeValued)
      → key_test matches negated c ≡ ok r
      → HasRows (column_len c) r
  unfolding key_test column_len
  key_test-HasRows matches negated (f64_column values validity) r h = absurd (ground arith)
  key_test-HasRows matches negated (i64_column values validity) r h = absurd (ground arith)
  key_test-HasRows matches negated (key_column codes validity dictionary) r h =
      let (allowed, _, rest) =
        went_on (allowed_codes matches negated dictionary (dictionary_len dictionary) 0) _ h in
      leaf_result-HasRows (length codes) _ r rest

  module _ (schema : Schema) (view : SegmentView F)
      (same_len : (i : ℕ) (c : Column F)
        → get_elem? view.segment.batch.columns i ≡ some c
        → column_len c ≡ view.segment.batch.num_rows) where
    key_predicate-HasRows :
        (column : Text) (negated : Bool) (matches : Text → Option Bool) (r : ThreeValued)
        → key_predicate schema view column negated matches ≡ ok r
        → HasRows view.segment.batch.num_rows r
    unfolding key_predicate column_at
    key_predicate-HasRows column negated matches r h =
        let (i, _, h1) = went_on (column_index schema column) _ h in
        let (c, at, h2) = went_on (column_at view i) _ h1 in
        subst (λ n. HasRows n r) (same_len i c (ok_or-some panic _ at))
          (key_test-HasRows matches negated c r h2)

module _ (fl : Floats) where
  open fl use {F}

  compare_column-HasRows :
      (rows : ℕ) (op : _) (value : _) (c : Column F) (r : ThreeValued)
      → compare_column fl rows op value c ≡ ok r
      → HasRows rows r
  unfolding compare_column
  compare_column-HasRows rows op value (f64_column values validity) r h =
      leaf_result-HasRows rows _ r h
  compare_column-HasRows rows op value (i64_column values validity) r h =
      leaf_result-HasRows rows _ r h
  compare_column-HasRows rows op value (key_column codes validity dictionary) r h =
      absurd (ground arith)

  module _ {Expr : Type 0} (eval : Expr → Result Fault (List F × List Bool)) (chars : Text → List ℕ)
      (schema : Schema) (view : SegmentView F)
      (same_len : (i : ℕ) (c : Column F)
        → get_elem? view.segment.batch.columns i ≡ some c
        → column_len c ≡ view.segment.batch.num_rows) where
    -- An evaluation that succeeds says of every row of the segment whether it is TRUE and whether it
    -- is FALSE.
    pub evaluate_3vl-HasRows :
        (p : Predicate Expr F) (r : ThreeValued)
        → evaluate_3vl fl eval chars p schema view ≡ ok r
        → HasRows view.segment.batch.num_rows r
    unfolding evaluate_3vl key_membership
    evaluate_3vl-HasRows (compare_number column op value) r h =
        let (i, _, h1) = went_on (column_index schema column) _ h in
        let (c, _, h2) = went_on (column_at view i) _ h1 in
        compare_column-HasRows view.segment.batch.num_rows op value c r h2
    evaluate_3vl-HasRows (compare_expr left op right) r h =
        let (l, _, h1) = went_on (eval left) _ h in
        let (l', _, h2) = went_on (eval right) _ h1 in
        let (verdict, _, h3) =
          went_on (scatter fl op view view.segment.batch.num_rows 0 0 l l') _ h2 in
        leaf_result-HasRows view.segment.batch.num_rows _ r h3
    evaluate_3vl-HasRows (key_equals column value negated) r h =
        key_predicate-HasRows schema view same_len column negated _ r h
    evaluate_3vl-HasRows (key_like column pattern negated) r h =
        key_predicate-HasRows schema view same_len column negated _ r h
    evaluate_3vl-HasRows (is_null column negated) r h =
        let (i, _, h1) = went_on (column_index schema column) _ h in
        let (c, _, h2) = went_on (column_at view i) _ h1 in
        leaf_result-HasRows view.segment.batch.num_rows _ r h2
    evaluate_3vl-HasRows (key_in column values negated) r h =
        key_predicate-HasRows schema view same_len column negated _ r h
    evaluate_3vl-HasRows (conj left right) r h =
        let (a, e1, h1) = went_on (evaluate_3vl fl eval chars left schema view) _ h in
        let (b, e2, h2) = went_on (evaluate_3vl fl eval chars right schema view) _ h1 in
        three_and-HasRows view.segment.batch.num_rows a b (evaluate_3vl-HasRows left a e1)
          (evaluate_3vl-HasRows right b e2) r h2
    evaluate_3vl-HasRows (disj left right) r h =
        let (a, e1, h1) = went_on (evaluate_3vl fl eval chars left schema view) _ h in
        let (b, e2, h2) = went_on (evaluate_3vl fl eval chars right schema view) _ h1 in
        three_or-HasRows view.segment.batch.num_rows a b (evaluate_3vl-HasRows left a e1)
          (evaluate_3vl-HasRows right b e2) r h2
    evaluate_3vl-HasRows (neg inner) r h =
        let (a, e1, h1) = went_on (evaluate_3vl fl eval chars inner schema view) _ h in
        let same : three_not a ≡ r = ground arith in
        subst (λ x. HasRows view.segment.batch.num_rows x) same
          (three_not-HasRows view.segment.batch.num_rows a (evaluate_3vl-HasRows inner a e1))
