-- ===== src/Predicate.antt =====
-- src/query_lite/predicate.rs: the evaluation of a WHERE tree over a segment, and the pruning test.
-- The scalar expressions of plan.rs and their evaluator, and `str::chars`, are parameters.
pub mod Rows
mod Nowhere
mod Ranges
mod Leaves
pub mod Pruning
pub mod Like
mod Runs
use tally_db.Base.{
  ℕ, zero, suc, ◌+◌, ◌*◌, Bool, true, false, not, ◌&&◌, ◌||◌, Option, none, some, List, [], ◌∷◌,
}
use tally_db.Base.{
  drop, length, get_elem?, ltb, leb, ◌==◌, if◌then◌else◌, Result, ok, err, ◌>>=◌, ok_or,
}
use tally_db.Base.{compare, Ordering}
use tally_db.Base.Word.{i64_rank}
use tally_db.Bitmap.{Bitmap, from_bools}
use tally_db.Bitmap
use tally_db.Column.{
  Text, text_eq, Dictionary, dictionary_len, dictionary_value, Column, f64_column, i64_column,
  key_column,
}
use tally_db.Column.{
  ColumnType, key, Field, Schema, position, Fault, panic, no_such_column, type_error, slot_valid,
  is_valid,
}
use tally_db.Floats.{Floats}
use tally_db.Segment.{SegmentView, zone_map, zone_maps_present, is_live}
use tally_db.ZoneMap.{ZoneMap, f64_zone, i64_zone}

pub data CmpOp : Type 0 where
  eq ne lt le gt ge : CmpOp

pub data Number (F : Type 0) : Type 0 where
  int : ℕ → Number F
  float : F → Number F

-- `holds` at `i64`.
pub holds : CmpOp → ℕ → ℕ → Bool
holds eq l r = i64_rank l == i64_rank r
holds ne l r = not (i64_rank l == i64_rank r)
holds lt l r = ltb (i64_rank l) (i64_rank r)
holds le l r = leb (i64_rank l) (i64_rank r)
holds gt l r = ltb (i64_rank r) (i64_rank l)
holds ge l r = leb (i64_rank r) (i64_rank l)

-- `interval_may_hold`, on the ranks of the bounds and the target.
pub range_may_hold : CmpOp → ℕ → ℕ → ℕ → Bool
range_may_hold eq low high target = leb low target && leb target high
range_may_hold ne low high target = not ((low == target) && (high == target))
range_may_hold lt low high target = ltb low target
range_may_hold le low high target = leb low target
range_may_hold gt low high target = ltb target high
range_may_hold ge low high target = leb target high

-- A field out of range panics in the source, and `position` yields none.
pub is_key : Option Field → Bool
is_key none = true
is_key (some field) = elim field.column_type [ key ↦ true | _ ↦ false ]

abbrev pub is_less : Ordering → Bool
is_less o = elim o [ Ordering.lt ↦ true | _ ↦ false ]

abbrev pub is_equal : Ordering → Bool
is_equal o = elim o [ Ordering.eq ↦ true | _ ↦ false ]

abbrev pub is_greater : Ordering → Bool
is_greater o = elim o [ Ordering.gt ↦ true | _ ↦ false ]

pub holds_ordering : CmpOp → Ordering → Bool
holds_ordering eq o = is_equal o
holds_ordering ne o = not (is_equal o)
holds_ordering lt o = is_less o
holds_ordering le o = not (is_greater o)
holds_ordering gt o = is_greater o
holds_ordering ge o = not (is_less o)

pub data Predicate (Expr F : Type 0) : Type 0 where
  compare_number : Text → CmpOp → Number F → Predicate Expr F
  compare_expr : Expr → CmpOp → Expr → Predicate Expr F
  key_equals : Text → Text → Bool → Predicate Expr F
  key_like : Text → Text → Bool → Predicate Expr F
  is_null : Text → Bool → Predicate Expr F
  key_in : Text → List Text → Bool → Predicate Expr F
  conj disj : Predicate Expr F → Predicate Expr F → Predicate Expr F
  neg : Predicate Expr F → Predicate Expr F

pub record ThreeValued : Type 0 where
  pub truth : Bitmap
  pub falsity : Bitmap

-- `and`, `or` and `not` of two results; the bitmaps' own operations assert one length.
pub three_and : ThreeValued → ThreeValued → Result Fault ThreeValued
three_and a b = do
  truth ← ok_or panic (Bitmap.and a.truth b.truth)
  falsity ← ok_or panic (Bitmap.or a.falsity b.falsity)
  ok (record { truth = truth; falsity = falsity })

pub three_or : ThreeValued → ThreeValued → Result Fault ThreeValued
three_or a b = do
  truth ← ok_or panic (Bitmap.or a.truth b.truth)
  falsity ← ok_or panic (Bitmap.and a.falsity b.falsity)
  ok (record { truth = truth; falsity = falsity })

pub three_not : ThreeValued → ThreeValued
three_not a = record { truth = a.falsity; falsity = a.truth }

-- The verdicts on the rows from `row` on: whether the row has an answer, and which.
pub leaf_rows : ℕ → ℕ → (ℕ → Result Fault (Bool × Bool)) → Result Fault (List Bool × List Bool)
leaf_rows zero row verdict = ok ([], [])
leaf_rows (suc rows) row verdict = do
  v ← verdict row
  rest ← leaf_rows rows (row + 1) verdict
  ok ((v.0 && v.1) ∷ rest.0, (v.0 && not v.1) ∷ rest.1)

pub leaf_result : ℕ → (ℕ → Result Fault (Bool × Bool)) → Result Fault ThreeValued
leaf_result rows verdict = do
  r ← leaf_rows rows 0 verdict
  ok (record { truth = from_bools r.0; falsity = from_bools r.1 })

pub column_index : Schema → Text → Result Fault ℕ
column_index schema name = ok_or no_such_column (position schema.fields name)

-- A round of the loop of `like_match`, on what is left of the pattern and of the text, with what
-- the last `%` left of both. The characters `_` and `%` are 95 and 37.
pub data LikeStep : Type 0 where
  like_done : Bool → LikeStep
  like_go : List ℕ → List ℕ → Option (List ℕ × List ℕ) → LikeStep

pub all_percent : List ℕ → Bool
all_percent [] = true
all_percent (c ∷ pattern) = (c == 37) && all_percent pattern

-- The last `%` swallows one more character.
pub backtrack : Option (List ℕ × List ℕ) → LikeStep
backtrack none = like_done false
backtrack (some (star_p, star_s)) = like_go star_p (drop 1 star_s) (some (star_p, drop 1 star_s))

pub like_round : List ℕ → List ℕ → Option (List ℕ × List ℕ) → LikeStep
like_round pattern [] star = like_done (all_percent pattern)
like_round [] (t ∷ text) star = backtrack star
like_round (c ∷ pattern) (t ∷ text) star =
    if (c == 95) || (c == t)
    then like_go pattern text star
    else (if c == 37 then like_go pattern (t ∷ text) (some (pattern, t ∷ text)) else backtrack star)

pub like_loop : ℕ → List ℕ → List ℕ → Option (List ℕ × List ℕ) → Option Bool
like_loop zero pattern text star = none
like_loop (suc fuel) pattern text star = elim (like_round pattern text star) [
  | like_done b ↦ some b
  | like_go pattern' text' star' ↦ like_loop fuel pattern' text' star'
]

pub like_match : List ℕ → List ℕ → Option Bool
like_match pattern text = like_loop ((length text + 2) * (length pattern + 1)) pattern text none

-- `value.iter().any(|allowed| allowed == value)`
pub any_text : List Text → Text → Bool
any_text [] value = false
any_text (allowed ∷ values) value = text_eq allowed value || any_text values value

-- The verdict of `matches` on each code from `code` on, turned where the test is negated.
pub allowed_codes : (Text → Option Bool) → Bool → Dictionary → ℕ → ℕ → Result Fault (List Bool)
allowed_codes matches negated dictionary zero code = ok []
allowed_codes matches negated dictionary (suc codes) code = do
  value ← ok_or panic (dictionary_value dictionary code)
  m ← ok_or panic (matches value)
  rest ← allowed_codes matches negated dictionary codes (code + 1)
  ok ((if negated then not m else m) ∷ rest)

key_verdict : List ℕ → Option Bitmap → List Bool → ℕ → Result Fault (Bool × Bool)
key_verdict codes validity allowed row = do
  valid ← slot_valid (length codes) validity row
  code ← ok_or panic (get_elem? codes row)
  m ← ok_or panic (get_elem? allowed code)
  ok (valid, m)

module _ {F : Type 0} where
  -- `columns()[index]`, which panics out of range.
  pub column_at : SegmentView F → ℕ → Result Fault (Column F)
  column_at view index = ok_or panic (get_elem? view.segment.batch.columns index)

  key_test : (Text → Option Bool) → Bool → Column F → Result Fault ThreeValued
  key_test matches negated (key_column codes validity dictionary) = do
    allowed ← allowed_codes matches negated dictionary (dictionary_len dictionary) 0
    leaf_result (length codes) (key_verdict codes validity allowed)
  key_test matches negated _ = err type_error

  pub key_predicate :
      Schema → SegmentView F → Text → Bool → (Text → Option Bool) → Result Fault ThreeValued
  key_predicate schema view column negated matches = do
    index ← column_index schema column
    c ← column_at view index
    key_test matches negated c

  pub key_membership : Schema → SegmentView F → Text → List Text → Bool → Result Fault ThreeValued
  key_membership schema view column values negated =
      key_predicate schema view column negated (λ value. some (any_text values value))

  pub null_verdict : Column F → Bool → ℕ → Result Fault (Bool × Bool)
  null_verdict column negated row = do
    valid ← is_valid column row
    ok (true, if negated then valid else not valid)

module _ (fl : Floats) where
  open fl use {F, is_nan, partial_cmp, from_i64, two_to_63, minus_two_to_63, floor, to_i64}

  pub as_f64 : Number F → F
  as_f64 (int value) = from_i64 value
  as_f64 (float value) = value

  pub cmp_f64 : F → F → Ordering
  cmp_f64 left right =
      if is_nan left
      then (if is_nan right then Ordering.eq else Ordering.gt)
      else (if is_nan right then Ordering.lt else partial_cmp left right)

  pub cmp_i64_f64 : ℕ → F → Ordering
  cmp_i64_f64 v t =
      if is_nan t
      then Ordering.lt
      else (if not (is_less (partial_cmp t two_to_63))
          then Ordering.lt
          else (if is_less (partial_cmp t minus_two_to_63)
              then Ordering.gt
              else (let order = compare (i64_rank v) (i64_rank (to_i64 (floor t))) in
                  if is_equal order && is_greater (partial_cmp t (floor t))
                  then Ordering.lt
                  else order)))

  f64_verdict : List F → Option Bitmap → CmpOp → F → ℕ → Result Fault (Bool × Bool)
  f64_verdict values validity op target row = do
    valid ← slot_valid (length values) validity row
    v ← ok_or panic (get_elem? values row)
    ok (valid, holds_ordering op (cmp_f64 v target))

  pub i64_holds : CmpOp → ℕ → Number F → Bool
  i64_holds op v (int target) = holds op v target
  i64_holds op v (float target) = holds_ordering op (cmp_i64_f64 v target)

  i64_verdict : List ℕ → Option Bitmap → CmpOp → Number F → ℕ → Result Fault (Bool × Bool)
  i64_verdict values validity op value row = do
    v ← ok_or panic (get_elem? values row)
    valid ← slot_valid (length values) validity row
    ok (valid, i64_holds op v value)

  pub compare_column : ℕ → CmpOp → Number F → Column F → Result Fault ThreeValued
  compare_column rows op value (f64_column values validity) =
      leaf_result rows (f64_verdict values validity op (as_f64 value))
  compare_column rows op value (i64_column values validity) =
      leaf_result rows (i64_verdict values validity op value)
  compare_column rows op value (key_column _ _ _) = err type_error

  -- The verdicts of an expression comparison, from the results on the live rows: a dead row is
  -- passed over, and a live row takes the next result of either side.
  scatter :
      CmpOp
      → SegmentView F
      → ℕ
      → ℕ
      → ℕ
      → List F × List Bool
      → List F × List Bool
      → Result Fault (List (Bool × Bool))
  scatter op view zero row live_position left right = ok []
  scatter op view (suc rows) row live_position left right = do
    live ← is_live view row
    if live
        then (do
          left_valid ← ok_or panic (get_elem? left.1 live_position)
          right_valid ←
              if left_valid then ok_or panic (get_elem? right.1 live_position) else ok false
          l ← ok_or panic (get_elem? left.0 live_position)
          r ← ok_or panic (get_elem? right.0 live_position)
          rest ← scatter op view rows (row + 1) (live_position + 1) left right
          ok ((left_valid && right_valid, holds_ordering op (cmp_f64 l r)) ∷ rest))
        else (do
          rest ← scatter op view rows (row + 1) live_position left right
          ok ((false, false) ∷ rest))

  module _ {Expr : Type 0} (eval : Expr → Result Fault (List F × List Bool))
      (chars : Text → List ℕ) where
    pub evaluate_3vl : Predicate Expr F → Schema → SegmentView F → Result Fault ThreeValued
    evaluate_3vl (compare_expr left op right) schema view = do
      l ← eval left
      r ← eval right
      verdict ← scatter op view view.segment.batch.num_rows 0 0 l r
      leaf_result view.segment.batch.num_rows (λ row. ok_or panic (get_elem? verdict row))
    evaluate_3vl (compare_number column op value) schema view = do
      index ← column_index schema column
      c ← column_at view index
      compare_column view.segment.batch.num_rows op value c
    evaluate_3vl (is_null column negated) schema view = do
      index ← column_index schema column
      c ← column_at view index
      leaf_result view.segment.batch.num_rows (null_verdict c negated)
    evaluate_3vl (key_equals column value negated) schema view =
        key_membership schema view column (value ∷ []) negated
    evaluate_3vl (key_in column values negated) schema view =
        key_membership schema view column values negated
    evaluate_3vl (key_like column pattern negated) schema view =
        key_predicate schema view column negated (λ value. like_match (chars pattern) (chars value))
    evaluate_3vl (conj left right) schema view = do
      l ← evaluate_3vl left schema view
      r ← evaluate_3vl right schema view
      three_and l r
    evaluate_3vl (disj left right) schema view = do
      l ← evaluate_3vl left schema view
      r ← evaluate_3vl right schema view
      three_or l r
    evaluate_3vl (neg inner) schema view = do i ← evaluate_3vl inner schema view; ok (three_not i)

    pub evaluate : Predicate Expr F → Schema → SegmentView F → Result Fault Bitmap
    evaluate predicate schema view = do r ← evaluate_3vl predicate schema view; ok r.truth

  f64_may_hold : CmpOp → F → F → Bool → F → Bool
  f64_may_hold eq low high has_nan target =
      not (is_greater (cmp_f64 low target)) && not (is_greater (cmp_f64 target high))
  f64_may_hold ne low high has_nan target =
      has_nan || not (is_equal (cmp_f64 low target) && is_equal (cmp_f64 high target))
  f64_may_hold lt low high has_nan target = is_less (cmp_f64 low target)
  f64_may_hold le low high has_nan target = not (is_greater (cmp_f64 low target))
  f64_may_hold gt low high has_nan target = has_nan || is_greater (cmp_f64 high target)
  f64_may_hold ge low high has_nan target = has_nan || not (is_less (cmp_f64 high target))

  pub zone_may_hold : CmpOp → ZoneMap F → Number F → Bool
  zone_may_hold op (f64_zone low high has_nan) value =
      if is_nan (as_f64 value) then true else f64_may_hold op low high has_nan (as_f64 value)
  zone_may_hold op (i64_zone low high) (int target) =
      range_may_hold op (i64_rank low) (i64_rank high) (i64_rank target)
  zone_may_hold op (i64_zone low high) (float target) = true

  -- The two leaves that a zone map answers, on the column's place in the schema.
  pub leaf_can_match : (ZoneMap F → Bool) → Schema → SegmentView F → Option ℕ → Bool
  leaf_can_match may_hold schema view none = true
  leaf_can_match may_hold schema view (some index) =
      if is_key (get_elem? schema.fields index)
      then true
      else elim (zone_map view.segment index) [ none ↦ false | some zone ↦ may_hold zone ]

  module _ {Expr : Type 0} where
    -- The tree walk of `can_match` on a segment that carries zone maps.
    pub may_match : Predicate Expr F → Schema → SegmentView F → Bool
    may_match (compare_number column op value) schema view =
        leaf_can_match (λ zone. zone_may_hold op zone value) schema view
          (position schema.fields column)
    may_match (conj left right) schema view =
        may_match left schema view && may_match right schema view
    may_match (disj left right) schema view =
        may_match left schema view || may_match right schema view
    may_match (is_null column true) schema view =
        leaf_can_match (λ zone. true) schema view (position schema.fields column)
    may_match _ schema view = true

    pub can_match : Predicate Expr F → Schema → SegmentView F → Bool
    can_match predicate schema view =
        if zone_maps_present view.segment then may_match predicate schema view else true
