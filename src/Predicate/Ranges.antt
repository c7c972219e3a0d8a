-- ===== src/Predicate/Ranges.antt =====
-- The pruning test of src/query_lite/predicate.rs on one value that a zone map covers.
use tally_db.Base.{ℕ, ◌≤◌, ◌≡◌, subst, arith, inl, inr}
use tally_db.Base.{Bool, true, false, Bool-cases, compare}
use tally_db.Base.{Option, none, some}
use tally_db.Base.{Ordering}
use tally_db.Base.Word.{i64_rank}
use tally_db.Floats.{Floats}
use tally_db.ZoneMap.{ZoneMap, f64_zone, i64_zone}
use tally_db.ZoneMap.Bounds.{F64Bounded, I64Bounded}
use tally_db.Predicate.{CmpOp, eq, ne, lt, le, gt, ge, Number, int, float}
use tally_db.Predicate.{
  holds, holds_ordering, range_may_hold, f64_may_hold, zone_may_hold, cmp_f64, as_f64,
}
use tally_db.Predicate.{i64_holds}

-- A test of a zone map, which a column without one fails.
module _ {F : Type 0} where
  abbrev pub zone_test : (ZoneMap F → Bool) → Option (ZoneMap F) → Bool
  zone_test may_hold zm = elim zm [ none ↦ false | some z ↦ may_hold z ]

module _ (fl : Floats) where
  open fl use {F, is_nan, rank, partial_cmp_lem}

  cmp_f64-ranks :
      (a b : F) → is_nan a ≡ false → is_nan b ≡ false → cmp_f64 fl a b ≡ compare (rank a) (rank b)
  unfolding cmp_f64
  cmp_f64-ranks a b p q = rw (p, q) (partial_cmp_lem a b p q)

  cmp_f64-nan : (a b : F) → is_nan a ≡ true → is_nan b ≡ false → cmp_f64 fl a b ≡ Ordering.gt
  unfolding cmp_f64
  cmp_f64-nan a b p q = rw (p, q)

  f64_nan-pruned :
      (op : CmpOp) (low high v target : F)
      → is_nan v ≡ true
      → is_nan target ≡ false
      → f64_may_hold fl op low high true target ≡ false
      → holds_ordering op (cmp_f64 fl v target) ≡ false
  unfolding f64_may_hold holds_ordering
  f64_nan-pruned eq low high v target n t h = rw (cmp_f64-nan v target n t)
  f64_nan-pruned ne low high v target n t h = absurd (ground arith)
  f64_nan-pruned lt low high v target n t h = rw (cmp_f64-nan v target n t)
  f64_nan-pruned le low high v target n t h = rw (cmp_f64-nan v target n t)
  f64_nan-pruned gt low high v target n t h = absurd (ground arith)
  f64_nan-pruned ge low high v target n t h = absurd (ground arith)

  f64_range-pruned :
      (op : CmpOp) (low high : F) (has_nan : Bool) (v target : F)
      → is_nan v ≡ false
      → is_nan low ≡ false
      → is_nan high ≡ false
      → rank low ≤ rank v
      → rank v ≤ rank high
      → is_nan target ≡ false
      → f64_may_hold fl op low high has_nan target ≡ false
      → holds_ordering op (cmp_f64 fl v target) ≡ false
  unfolding f64_may_hold holds_ordering
  f64_range-pruned eq low high has_nan v target n nl nh l r t h = ground (
    arith,
    cmp_f64-ranks v target n t,
    cmp_f64-ranks low target nl t,
    cmp_f64-ranks target high t nh,
  )
  f64_range-pruned ne low high has_nan v target n nl nh l r t h = ground (
    arith,
    cmp_f64-ranks v target n t,
    cmp_f64-ranks low target nl t,
    cmp_f64-ranks high target nh t,
  )
  f64_range-pruned lt low high has_nan v target n nl nh l r t h =
      ground (arith, cmp_f64-ranks v target n t, cmp_f64-ranks low target nl t)
  f64_range-pruned le low high has_nan v target n nl nh l r t h =
      ground (arith, cmp_f64-ranks v target n t, cmp_f64-ranks low target nl t)
  f64_range-pruned gt low high has_nan v target n nl nh l r t h =
      ground (arith, cmp_f64-ranks v target n t, cmp_f64-ranks high target nh t)
  f64_range-pruned ge low high has_nan v target n nl nh l r t h =
      ground (arith, cmp_f64-ranks v target n t, cmp_f64-ranks high target nh t)

  i64-pruned :
      (op : CmpOp) (low high v target : ℕ)
      → i64_rank low ≤ i64_rank v
      → i64_rank v ≤ i64_rank high
      → range_may_hold op (i64_rank low) (i64_rank high) (i64_rank target) ≡ false
      → holds op v target ≡ false
  unfolding range_may_hold holds
  i64-pruned eq low high v target l r h = ground arith
  i64-pruned ne low high v target l r h = ground arith
  i64-pruned lt low high v target l r h = ground arith
  i64-pruned le low high v target l r h = ground arith
  i64-pruned gt low high v target l r h = ground arith
  i64-pruned ge low high v target l r h = ground arith

  -- A value that the zone map covers, and a zone map that rules the comparison out.
  f64_zone-pruned :
      (op : CmpOp) (zm : ZoneMap F) (value : Number F) (v : F)
      → F64Bounded fl (some zm) v
      → zone_may_hold fl op zm value ≡ false
      → holds_ordering op (cmp_f64 fl v (as_f64 fl value)) ≡ false
  unfolding zone_may_hold
  f64_zone-pruned op (i64_zone low high) value v b h = absurd b
  f64_zone-pruned op (f64_zone low high has_nan) value v b h =
      elim (Bool-cases (is_nan (as_f64 fl value))) [
        | inl t ↦ absurd (ground arith)
        | inr t ↦
            let h' : f64_may_hold fl op low high has_nan (as_f64 fl value) ≡ false = ground arith in
            elim b [
              | inl (n, s) ↦
                  f64_nan-pruned op low high v (as_f64 fl value) n t
                    (subst (λ x. f64_may_hold fl op low high x (as_f64 fl value) ≡ false) s h')
              | inr (n, (nl, nh, l, r)) ↦
                  f64_range-pruned op low high has_nan v (as_f64 fl value) n nl nh l r t h'
            ]
      ]

  i64_zone-pruned :
      (op : CmpOp) (zm : ZoneMap F) (value : Number F) (v : ℕ)
      → I64Bounded fl (some zm) v
      → zone_may_hold fl op zm value ≡ false
      → i64_holds fl op v value ≡ false
  unfolding zone_may_hold i64_holds
  i64_zone-pruned op (f64_zone low high has_nan) value v b h = absurd b
  i64_zone-pruned op (i64_zone low high) (int target) v b h =
      i64-pruned op low high v target b.0 b.1 h
  i64_zone-pruned op (i64_zone low high) (float target) v b h = absurd (ground arith)

  pub f64_value-pruned :
      (op : CmpOp) (zm : Option (ZoneMap F)) (value : Number F) (v : F)
      → F64Bounded fl zm v
      → zone_test (λ z. zone_may_hold fl op z value) zm ≡ false
      → holds_ordering op (cmp_f64 fl v (as_f64 fl value)) ≡ false
  f64_value-pruned op none value v b h = absurd b
  f64_value-pruned op (some zm) value v b h = f64_zone-pruned op zm value v b h

  pub i64_value-pruned :
      (op : CmpOp) (zm : Option (ZoneMap F)) (value : Number F) (v : ℕ)
      → I64Bounded fl zm v
      → zone_test (λ z. zone_may_hold fl op z value) zm ≡ false
      → i64_holds fl op v value ≡ false
  i64_value-pruned op none value v b h = absurd b
  i64_value-pruned op (some zm) value v b h = i64_zone-pruned op zm value v b h
