-- ===== src/ZoneMap/Bounds.antt =====
-- A zone map bounds every valid value of its column, and a column with no zone map has none.
use tally_db.Base.{ℕ, zero, suc, ◌+◌, ◌≤◌, ◌≡◌, arith, ◌⊎◌, inl, inr}
use tally_db.Base.{Bool, true, false, Option, none, some, List, [], ◌∷◌, length, get_elem?}
use native.Mathlib.Nat.{add-zero}
use tally_db.Base.{ok, went_on, subst, if◌then◌else◌, Bool-cases}
use tally_db.Base.Word.{i64_rank}
use tally_db.Bitmap.{Bitmap}
use tally_db.Column.{f64_column, i64_column, slot_valid}
use tally_db.Floats.{Floats}
use tally_db.ZoneMap.{f64_zone, i64_zone, compute_zone_map}
use tally_db.ZoneMap.{ZoneMap, i64_min, i64_max, widen_i64, i64_loop}
use tally_db.ZoneMap.{widen_f64, f64_loop, next_range, next_nan, f64_zone_of, i64_zone_of}

abbrev pub I64Within : Option (ℕ × ℕ) → ℕ → Type 0
I64Within none v = ⊥
I64Within (some (low, high)) v = (i64_rank low ≤ i64_rank v) × (i64_rank v ≤ i64_rank high)

widen_i64_self : (range : Option (ℕ × ℕ)) (v : ℕ) → I64Within (widen_i64 range v) v
unfolding widen_i64 i64_min i64_max
widen_i64_self none v = omega arith
widen_i64_self (some (low, high)) v = ground arith

widen_i64-keeps :
    (range : Option (ℕ × ℕ)) (w v : ℕ) → I64Within range v → I64Within (widen_i64 range w) v
unfolding widen_i64 i64_min i64_max
widen_i64-keeps none w v h = absurd h
widen_i64-keeps (some (low, high)) w v h = ground arith

i64_step-keeps :
    (valid : Bool) (range : Option (ℕ × ℕ)) (w v : ℕ)
    → I64Within range v
    → I64Within (if valid then widen_i64 range w else range) v
i64_step-keeps true range w v h = widen_i64-keeps range w v h
i64_step-keeps false range w v h = h

module _ (len : ℕ) (validity : Option Bitmap) where
  i64_loop-keeps :
      (values : List ℕ) (index : ℕ) (range r : Option (ℕ × ℕ)) (v : ℕ)
      → i64_loop len validity values index range ≡ ok r
      → I64Within range v
      → I64Within r v
  unfolding i64_loop
  i64_loop-keeps [] index range r v e h = subst (λ x. I64Within x v) (ground arith) h
  i64_loop-keeps (w ∷ values) index range r v e h =
      let (valid, _, rest) = went_on (slot_valid len validity index) _ e in
      i64_loop-keeps values (index + 1) (if valid then widen_i64 range w else range) r v rest
        (i64_step-keeps valid range w v h)

  -- Every valid value lies in the range that the loop ends with.
  i64_loop-Within :
      (values : List ℕ) (index : ℕ) (range r : Option (ℕ × ℕ)) (i v : ℕ)
      → i64_loop len validity values index range ≡ ok r
      → get_elem? values i ≡ some v
      → slot_valid len validity (index + i) ≡ ok true
      → I64Within r v
  unfolding i64_loop
  i64_loop-Within [] index range r i v e g t = absurd (ground arith)
  i64_loop-Within (w ∷ values) index range r zero v e g t =
      let (valid, here, rest) = went_on (slot_valid len validity index) _ e in
      let same : w ≡ v = ground arith in
      let is_true : valid ≡ true = ground (arith, add-zero index) in
      i64_loop-keeps values (index + 1) (widen_i64 range w) r v
        (subst
          (λ b.
            i64_loop len validity values (index + 1) (if b then widen_i64 range w else range)
            ≡ ok r)
          is_true rest)
        (subst (λ x. I64Within (widen_i64 range w) x) same (widen_i64_self range w))
  i64_loop-Within (w ∷ values) index range r (suc i) v e g t =
      let (valid, _, rest) = went_on (slot_valid len validity index) _ e in
      i64_loop-Within values (index + 1) (if valid then widen_i64 range w else range) r i v rest g
        (subst (λ n. slot_valid len validity n ≡ ok true) (omega arith) t)

module _ (fl : Floats) where
  open fl use {F, is_nan, rank, lesser, greater, lesser_lem, greater_lem}

  abbrev pub F64Within : Option (F × F) → F → Type 0
  F64Within none v = ⊥
  F64Within (some (low, high)) v =
      (is_nan low ≡ false) × (is_nan high ≡ false) × (rank low ≤ rank v) × (rank v ≤ rank high)

  -- A NaN is recorded as such, and any other value lies in the range.
  abbrev pub Covered : Option (F × F) → Bool → F → Type 0
  Covered range has_nan v =
      ((is_nan v ≡ true) × (has_nan ≡ true)) ⊎ ((is_nan v ≡ false) × F64Within range v)

  -- A range holds no NaN.
  abbrev NoNan : Option (F × F) → Type 0
  NoNan none = Unit
  NoNan (some (low, high)) = (is_nan low ≡ false) × (is_nan high ≡ false)

  widen_f64-NoNan :
      (range : Option (F × F)) (w : F)
      → is_nan w ≡ false
      → NoNan range
      → NoNan (widen_f64 fl range w)
  unfolding widen_f64
  widen_f64-NoNan none w p h = (p, p)
  widen_f64-NoNan (some (low, high)) w p h =
      ((lesser_lem low w h.0 p).0, (greater_lem high w h.1 p).0)

  widen_f64_self :
      (range : Option (F × F)) (w : F)
      → is_nan w ≡ false
      → NoNan range
      → F64Within (widen_f64 fl range w) w
  unfolding widen_f64
  widen_f64_self none w p h = (p, p, omega arith, omega arith)
  widen_f64_self (some (low, high)) w p h =
      let l = lesser_lem low w h.0 p in
      let g = greater_lem high w h.1 p in (l.0, g.0, omega (arith, l.1), omega (arith, g.1))

  widen_f64-keeps :
      (range : Option (F × F)) (w v : F)
      → is_nan w ≡ false
      → F64Within range v
      → F64Within (widen_f64 fl range w) v
  unfolding widen_f64
  widen_f64-keeps none w v p h = absurd h
  widen_f64-keeps (some (low, high)) w v p h =
      let l = lesser_lem low w h.0 p in
      let g = greater_lem high w h.1 p in
      (l.0, g.0, omega (arith, l.1, h.2), omega (arith, g.1, h.3))

  step-NoNan :
      (valid : Bool) (range : Option (F × F)) (w : F)
      → NoNan range
      → NoNan (next_range fl valid w range)
  step-NoNan false range w h = h
  step-NoNan true range w h = elim (Bool-cases (is_nan w)) [
    | inl p ↦ rw p h
    | inr p ↦ rw p (widen_f64-NoNan range w p h)
  ]

  step-Covered :
      (valid : Bool) (range : Option (F × F)) (has_nan : Bool) (w v : F)
      → Covered range has_nan v
      → Covered (next_range fl valid w range) (next_nan fl valid w has_nan) v
  step-Covered false range has_nan w v c = c
  step-Covered true range has_nan w v (inl (p, q)) = inl (p, ground arith)
  step-Covered true range has_nan w v (inr (p, q)) = elim (Bool-cases (is_nan w)) [
    | inl n ↦ inr (p, rw n q)
    | inr n ↦ inr (p, rw n (widen_f64-keeps range w v n q))
  ]

  step_self :
      (range : Option (F × F)) (has_nan : Bool) (w : F)
      → NoNan range
      → Covered (next_range fl true w range) (next_nan fl true w has_nan) w
  step_self range has_nan w h = elim (Bool-cases (is_nan w)) [
    | inl n ↦ inl (n, rw n)
    | inr n ↦ inr (n, rw n (widen_f64_self range w n h))
  ]

  module _ (len : ℕ) (validity : Option Bitmap) where
    f64_loop-keeps :
        (values : List F) (index : ℕ) (range : Option (F × F)) (has_nan : Bool)
        (r : Option (F × F) × Bool) (v : F)
        → f64_loop fl len validity values index range has_nan ≡ ok r
        → Covered range has_nan v
        → Covered r.0 r.1 v
    unfolding f64_loop
    f64_loop-keeps [] index range has_nan r v e c =
        let same : (range, has_nan) ≡ r = ground arith in
        subst (λ (x : Option (F × F) × Bool). Covered x.0 x.1 v) same c
    f64_loop-keeps (w ∷ values) index range has_nan r v e c =
        let (valid, _, rest) = went_on (slot_valid len validity index) _ e in
        f64_loop-keeps values (index + 1) (next_range fl valid w range)
          (next_nan fl valid w has_nan) r v rest (step-Covered valid range has_nan w v c)

    -- Every valid value is covered by what the loop ends with.
    f64_loop-Covered :
        (values : List F) (index : ℕ) (range : Option (F × F)) (has_nan : Bool)
        (r : Option (F × F) × Bool) (i : ℕ) (v : F)
        → NoNan range
        → f64_loop fl len validity values index range has_nan ≡ ok r
        → get_elem? values i ≡ some v
        → slot_valid len validity (index + i) ≡ ok true
        → Covered r.0 r.1 v
    unfolding f64_loop
    f64_loop-Covered [] index range has_nan r i v n e g t = absurd (ground arith)
    f64_loop-Covered (w ∷ values) index range has_nan r zero v n e g t =
        let (valid, here, rest) = went_on (slot_valid len validity index) _ e in
        let same : w ≡ v = ground arith in
        let is_true : valid ≡ true = ground (arith, add-zero index) in
        f64_loop-keeps values (index + 1) (next_range fl valid w range)
          (next_nan fl valid w has_nan) r v rest
          (rw (is_true, ← same) (step_self range has_nan w n))
    f64_loop-Covered (w ∷ values) index range has_nan r (suc i) v n e g t =
        let (valid, _, rest) = went_on (slot_valid len validity index) _ e in
        f64_loop-Covered values (index + 1) (next_range fl valid w range)
          (next_nan fl valid w has_nan) r i v (step-NoNan valid range w n) rest g
          (subst (λ n. slot_valid len validity n ≡ ok true) (omega arith) t)

  -- What the zone map of a column says of one of its values.
  abbrev pub F64Bounded : Option (ZoneMap F) → F → Type 0
  F64Bounded (some (f64_zone low high has_nan)) v = Covered (some (low, high)) has_nan v
  F64Bounded _ v = ⊥

  abbrev pub I64Bounded : Option (ZoneMap F) → ℕ → Type 0
  I64Bounded (some (i64_zone low high)) v = I64Within (some (low, high)) v
  I64Bounded _ v = ⊥

  f64_zone_of-Bounded :
      (r : Option (F × F) × Bool) (v : F) → Covered r.0 r.1 v → F64Bounded (f64_zone_of fl r) v
  f64_zone_of-Bounded (some (low, high), has_nan) v c = c
  f64_zone_of-Bounded (none, true) v (inl c) = inl c
  f64_zone_of-Bounded (none, true) v (inr (_, c)) = absurd c
  f64_zone_of-Bounded (none, false) v (inl (_, c)) = absurd (ground arith)
  f64_zone_of-Bounded (none, false) v (inr (_, c)) = absurd c

  i64_zone_of-Bounded :
      (r : Option (ℕ × ℕ)) (v : ℕ) → I64Within r v → I64Bounded (i64_zone_of fl r) v
  i64_zone_of-Bounded (some (low, high)) v c = c
  i64_zone_of-Bounded none v c = absurd c

  -- The zone map of an `f64` column covers every valid value: a NaN is recorded, and any other
  -- value lies between the bounds.
  pub f64_zone-Bounded :
      (values : List F) (validity : Option Bitmap) (zone : Option (ZoneMap F)) (i : ℕ) (v : F)
      → compute_zone_map fl (f64_column values validity) ≡ ok zone
      → get_elem? values i ≡ some v
      → slot_valid (length values) validity i ≡ ok true
      → F64Bounded zone v
  unfolding compute_zone_map
  f64_zone-Bounded values validity zone i v h g t =
      let (r, e, rest) = went_on (f64_loop fl (length values) validity values 0 none false) _ h in
      let same : f64_zone_of fl r ≡ zone = ground arith in
      subst (λ z. F64Bounded z v) same
        (f64_zone_of-Bounded r v (
          f64_loop-Covered (length values) validity values 0 none false r i v tt e g
            (subst (λ n. slot_valid (length values) validity n ≡ ok true) (omega arith) t)))

  -- The zone map of an `i64` column bounds every valid value, in the signed order.
  pub i64_zone-Bounded :
      (values : List ℕ) (validity : Option Bitmap) (zone : Option (ZoneMap F)) (i v : ℕ)
      → compute_zone_map fl (i64_column values validity) ≡ ok zone
      → get_elem? values i ≡ some v
      → slot_valid (length values) validity i ≡ ok true
      → I64Bounded zone v
  unfolding compute_zone_map
  i64_zone-Bounded values validity zone i v h g t =
      let (r, e, rest) = went_on (i64_loop (length values) validity values 0 none) _ h in
      let same : i64_zone_of fl r ≡ zone = ground arith in
      subst (λ z. I64Bounded z v) same
        (i64_zone_of-Bounded r v (
          i64_loop-Within (length values) validity values 0 none r i v e g
            (subst (λ n. slot_valid (length values) validity n ≡ ok true) (omega arith) t)))
