-- ===== src/Predicate/Leaves.antt =====
-- The leaves that the pruning test of src/query_lite/predicate.rs reads a zone map for.
use tally_db.Base.{ℕ, ◌≡◌, refl, sym, ◌∙◌, ap, arith, inl, inr}
use tally_db.Base.{Bool, true, false, ◌&&◌, Bool-cases}
use tally_db.Base.{Option, none, some, List, length, get_elem?, get_elem?-none, ◌≢◌, Option-cases}
use tally_db.Base.{ok, ok_or, ok_or-some, went_on}
use tally_db.Column.{
  Text, Column, f64_column, i64_column, key_column, column_type, Schema, Field, panic,
  no_such_column, position, is_valid, slot_valid, key,
}
use tally_db.Floats.{Floats}
use tally_db.Segment.{SegmentView, zone_map}
use tally_db.ZoneMap.{ZoneMap, compute_zone_map}
use tally_db.ZoneMap.Bounds.{f64_zone-Bounded, i64_zone-Bounded}
use tally_db.Predicate.{ThreeValued, CmpOp, Number}
use tally_db.Predicate.{zone_may_hold, as_f64, is_key}
use tally_db.Predicate.{column_index, compare_column, f64_verdict, i64_verdict, null_verdict}
use tally_db.Predicate.{leaf_can_match}
use tally_db.Predicate.Nowhere.{Nowhere, leaf_result-none}
use tally_db.Predicate.Ranges.{zone_test, f64_value-pruned, i64_value-pruned}

module _ (fl : Floats) where
  open fl use {F, is_nan, rank, partial_cmp_lem}

  f64_verdict-pruned :
      (values : List F) (validity : _) (op : CmpOp) (value : Number F) (zm : Option (ZoneMap F))
      (i : ℕ) (v : Bool × Bool)
      → compute_zone_map fl (f64_column values validity) ≡ ok zm
      → zone_test (λ z. zone_may_hold fl op z value) zm ≡ false
      → f64_verdict fl values validity op (as_f64 fl value) i ≡ ok v
      → (v.0 && v.1) ≡ false
  unfolding f64_verdict
  f64_verdict-pruned values validity op value zm i v z h e =
      let (valid, e1, h1) = went_on (slot_valid (length values) validity i) _ e in
      let (x, e2, h2) = went_on (ok_or panic (get_elem? values i)) _ h1 in
      let at = ok_or-some panic (get_elem? values i) e2 in
      elim (Bool-cases valid) [
        | inl t ↦
            let b = f64_zone-Bounded fl values validity zm i x z at (e1 ∙ ap (λ y. ok y) t) in
            let p = f64_value-pruned fl op zm value x b h in ground arith
        | inr t ↦ ground arith
      ]

  i64_verdict-pruned :
      (values : List ℕ) (validity : _) (op : CmpOp) (value : Number F) (zm : Option (ZoneMap F))
      (i : ℕ) (v : Bool × Bool)
      → compute_zone_map fl (i64_column values validity) ≡ ok zm
      → zone_test (λ z. zone_may_hold fl op z value) zm ≡ false
      → i64_verdict fl values validity op value i ≡ ok v
      → (v.0 && v.1) ≡ false
  unfolding i64_verdict
  i64_verdict-pruned values validity op value zm i v z h e =
      let (x, e2, h1) = went_on (ok_or panic (get_elem? values i)) _ e in
      let (valid, e1, h2) = went_on (slot_valid (length values) validity i) _ h1 in
      let at = ok_or-some panic (get_elem? values i) e2 in
      elim (Bool-cases valid) [
        | inl t ↦
            let b = i64_zone-Bounded fl values validity zm i x z at (e1 ∙ ap (λ y. ok y) t) in
            let p = i64_value-pruned fl op zm value x b h in ground arith
        | inr t ↦ ground arith
      ]

  pub compare_column-pruned :
      (rows : ℕ) (op : CmpOp) (value : Number F) (c : Column F) (zm : Option (ZoneMap F))
      (r : ThreeValued)
      → compute_zone_map fl c ≡ ok zm
      → zone_test (λ z. zone_may_hold fl op z value) zm ≡ false
      → compare_column fl rows op value c ≡ ok r
      → Nowhere rows r.truth
  unfolding compare_column
  compare_column-pruned rows op value (f64_column values validity) zm r z h e =
      leaf_result-none rows (f64_verdict fl values validity op (as_f64 fl value)) r e
        (λ i v. f64_verdict-pruned values validity op value zm i v z h)
  compare_column-pruned rows op value (i64_column values validity) zm r z h e =
      leaf_result-none rows (i64_verdict fl values validity op value) r e
        (λ i v. i64_verdict-pruned values validity op value zm i v z h)
  compare_column-pruned rows op value (key_column codes validity dictionary) zm r z h e =
      absurd (ground arith)

  -- A numeric column without a zone map has no valid value.
  no_map-no_value :
      (c : Column F) (i : ℕ)
      → compute_zone_map fl c ≡ ok none
      → column_type c ≢ key
      → is_valid c i ≢ ok true
  unfolding column_type is_valid slot_valid
  no_map-no_value (f64_column values validity) i z t h = elim (Option-cases (get_elem? values i)) [
    | inl n ↦ ground (arith, get_elem?-none values i)
    | inr (v, at) ↦ f64_zone-Bounded fl values validity none i v z at h
  ]
  no_map-no_value (i64_column values validity) i z t h = elim (Option-cases (get_elem? values i)) [
    | inl n ↦ ground (arith, get_elem?-none values i)
    | inr (v, at) ↦ i64_zone-Bounded fl values validity none i v z at h
  ]
  no_map-no_value (key_column codes validity dictionary) i z t h = absurd (t refl)

  pub null_verdict-pruned :
      (c : Column F) (i : ℕ) (v : Bool × Bool)
      → compute_zone_map fl c ≡ ok none
      → column_type c ≢ key
      → null_verdict c true i ≡ ok v
      → (v.0 && v.1) ≡ false
  unfolding null_verdict
  null_verdict-pruned c i v z t e =
      let (valid, e1, h1) = went_on (is_valid c i) _ e in
      elim (Bool-cases valid) [
        | inl p ↦ absurd (no_map-no_value c i z t (e1 ∙ ap (λ y. ok y) p))
        | inr p ↦ ground arith
      ]

  pub leaf_place :
      (may_hold : ZoneMap F → Bool) (schema : Schema) (view : SegmentView F) (column : Text) (i : ℕ)
      → leaf_can_match fl may_hold schema view (position schema.fields column) ≡ false
      → column_index schema column ≡ ok i
      → (is_key (get_elem? schema.fields i) ≡ false)
        × (zone_test may_hold (zone_map view.segment i) ≡ false)
  unfolding leaf_can_match column_index
  leaf_place may_hold schema view column i h e =
      let at = ok_or-some no_such_column (position schema.fields column) e in
      let h' : leaf_can_match fl may_hold schema view (some i) ≡ false =
        ap (λ o. leaf_can_match fl may_hold schema view o) (sym at) ∙ h in
      ground arith

  pub not_key :
      (o : Option Field) (f : Field) (c : Column F)
      → o ≡ some f
      → is_key o ≡ false
      → f.column_type ≡ column_type c
      → column_type c ≢ key
  unfolding is_key
  not_key o f c e h t k = ground arith

  pub no_map : (zm : Option (ZoneMap F)) → zone_test (λ z. true) zm ≡ false → zm ≡ none
  no_map none h = refl
  no_map (some z) h = absurd (ground arith)
