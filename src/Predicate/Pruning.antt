-- ===== src/Predicate/Pruning.antt =====
-- `can_match` of src/query_lite/predicate.rs against `evaluate`: no matching row is pruned.
use tally_db.Base.{ℕ, ◌≡◌, sym, ◌∙◌, ap, subst, arith, inl, inr}
use tally_db.Base.{Bool, true, false, Bool-cases}
use tally_db.Base.{some, List, get_elem?, replicate}
use tally_db.Base.{Result, ok, ok_or-some, went_on}
use tally_db.Bitmap.{Bitmap, from_bools}
use tally_db.Column.{Text, Column, column_len, column_type, Schema, Fault, Field, panic}
use tally_db.Floats.{Floats}
use tally_db.Segment.{SegmentView, RecordBatch, new_batch, from_batch, zone_map}
use tally_db.Segment.Batch.{new_batch-column, from_batch-zone_map, from_batch-batch}
use tally_db.ZoneMap.{compute_zone_map}
use tally_db.Predicate.{ThreeValued}
use tally_db.Predicate.{
  Predicate, compare_number, compare_expr, key_equals, key_like, is_null, key_in, conj, disj, neg,
}
use tally_db.Predicate.{zone_may_hold}
use tally_db.Predicate.{column_index, column_at, null_verdict}
use tally_db.Predicate.{may_match, can_match, evaluate_3vl, evaluate}
use tally_db.Predicate.Rows.{HasRows, evaluate_3vl-HasRows}
use tally_db.Predicate.Nowhere.{
  Nowhere, leaf_result-none, both_false, right_false, three_and-left, three_and-right,
  three_or-none,
}
use tally_db.Predicate.Leaves.{
  compare_column-pruned, null_verdict-pruned, leaf_place, not_key, no_map,
}

module _ (fl : Floats) where
  open fl use {F, is_nan, rank, partial_cmp_lem}

  module _ {Expr : Type 0} (eval : Expr → Result Fault (List F × List Bool)) (chars : Text → List ℕ)
      (schema : Schema) (view : SegmentView F)
      (bound : (i : ℕ) (c : Column F)
        → get_elem? view.segment.batch.columns i ≡ some c
        → (f : Field) × (get_elem? schema.fields i ≡ some f)
          × (column_len c ≡ view.segment.batch.num_rows)
          × (f.column_type ≡ column_type c))
      (mapped : (i : ℕ) (c : Column F)
        → get_elem? view.segment.batch.columns i ≡ some c
        → compute_zone_map fl c ≡ ok (zone_map view.segment i)) where
    rows_of :
        (p : Predicate Expr F) (r : ThreeValued)
        → evaluate_3vl fl eval chars p schema view ≡ ok r
        → HasRows view.segment.batch.num_rows r
    rows_of =
        evaluate_3vl-HasRows fl eval chars schema view
          (λ i c at. let (_, _, long, _) = bound i c at in long)

    may_match-pruned :
        (p : Predicate Expr F) (r : ThreeValued)
        → may_match fl p schema view ≡ false
        → evaluate_3vl fl eval chars p schema view ≡ ok r
        → Nowhere view.segment.batch.num_rows r.truth
    unfolding may_match evaluate_3vl column_at
    may_match-pruned (compare_number column op value) r h e =
        let (i, e1, h1) = went_on (column_index schema column) _ e in
        let (c, e2, h2) = went_on (column_at view i) _ h1 in
        let at = ok_or-some panic (get_elem? view.segment.batch.columns i) e2 in
        let (_, ruled) =
          leaf_place fl (λ z. zone_may_hold fl op z value) schema view column i h e1 in
        compare_column-pruned fl view.segment.batch.num_rows op value c (zone_map view.segment i) r
          (mapped i c at) ruled h2
    may_match-pruned (is_null column true) r h e =
        let (i, e1, h1) = went_on (column_index schema column) _ e in
        let (c, e2, h2) = went_on (column_at view i) _ h1 in
        let at = ok_or-some panic (get_elem? view.segment.batch.columns i) e2 in
        let (keyed, ruled) = leaf_place fl (λ z. true) schema view column i h e1 in
        let (f, here, _, typed) = bound i c at in
        let z = mapped i c at ∙ ap (λ m. ok m) (no_map fl (zone_map view.segment i) ruled) in
        leaf_result-none view.segment.batch.num_rows (null_verdict c true) r h2 (λ j v.
          null_verdict-pruned fl c j v z
            (not_key fl (get_elem? schema.fields i) f c here keyed typed))
    may_match-pruned (is_null column false) r h e = absurd (ground arith)
    may_match-pruned (compare_expr left op right) r h e = absurd (ground arith)
    may_match-pruned (key_equals column value negated) r h e = absurd (ground arith)
    may_match-pruned (key_like column pattern negated) r h e = absurd (ground arith)
    may_match-pruned (key_in column values negated) r h e = absurd (ground arith)
    may_match-pruned (neg inner) r h e = absurd (ground arith)
    may_match-pruned (conj left right) r h e =
        let (a, e1, h1) = went_on (evaluate_3vl fl eval chars left schema view) _ e in
        let (b, e2, h2) = went_on (evaluate_3vl fl eval chars right schema view) _ h1 in
        elim (Bool-cases (may_match fl left schema view)) [
          | inl t ↦
              let n =
                right_false (may_match fl left schema view) (may_match fl right schema view) t h in
              three_and-right view.segment.batch.num_rows a b r (rows_of left a e1)
                (rows_of right b e2) (may_match-pruned right b n e2) h2
          | inr n ↦
              three_and-left view.segment.batch.num_rows a b r (rows_of left a e1)
                (rows_of right b e2) (may_match-pruned left a n e1) h2
        ]
    may_match-pruned (disj left right) r h e =
        let (a, e1, h1) = went_on (evaluate_3vl fl eval chars left schema view) _ e in
        let (b, e2, h2) = went_on (evaluate_3vl fl eval chars right schema view) _ h1 in
        let (not_left, not_right) =
          both_false (may_match fl left schema view) (may_match fl right schema view) h in
        three_or-none view.segment.batch.num_rows a b r (rows_of left a e1) (rows_of right b e2)
          (may_match-pruned left a not_left e1) (may_match-pruned right b not_right e2) h2

-- Pruning is sound. Take a segment built from a checked batch, with its zone maps: where
-- `can_match` rules a predicate out, an evaluation of it that succeeds selects no row.
pub can_match_sound :
    (fl : Floats) {Expr : Type 0} (eval : Expr → Result Fault (List fl.F × List Bool))
    (chars : Text → List ℕ) (p : Predicate Expr fl.F) (schema : Schema)
    (columns : List (Column fl.F)) (ordering_key : ℕ) (ordered : Bool) (batch : RecordBatch fl.F)
    (view : SegmentView fl.F) (selected : Bitmap)
    → new_batch schema columns ≡ ok batch
    → from_batch fl batch ordering_key ordered ≡ ok view.segment
    → can_match fl p schema view ≡ false
    → evaluate fl eval chars p schema view ≡ ok selected
    → selected ≡ from_bools (replicate batch.num_rows false)
unfolding can_match evaluate
can_match_sound fl eval chars p schema columns ordering_key ordered batch view selected made mapped
      h e =
    let same = from_batch-batch fl batch ordering_key ordered view.segment mapped in
    let (r, e1, e2) = went_on (evaluate_3vl fl eval chars p schema view) _ e in
    let at : (i : ℕ) (c : Column fl.F)
        → get_elem? view.segment.batch.columns i ≡ some c
        → get_elem? batch.columns i ≡ some c =
      λ i c k. ap (λ (b : RecordBatch fl.F). get_elem? b.columns i) (sym same) ∙ k in
    let none_selected =
      may_match-pruned fl eval chars schema view
        (λ i c k.
          subst
            (λ (b : RecordBatch fl.F).
              (f : Field) × (get_elem? schema.fields i ≡ some f)
              × (column_len c ≡ b.num_rows)
              × (f.column_type ≡ column_type c))
            (sym same) (new_batch-column schema columns batch i c made (at i c k)))
        (λ i c k.
          let (_, z) =
            from_batch-zone_map fl batch ordering_key ordered view.segment i c mapped (at i c k) in
          z)
        p r (ground arith) e1 in
    ground arith
