-- ===== src/Predicate/Nowhere.antt =====
-- Results of src/query_lite/predicate.rs that are TRUE on no row, and how they compose.
use tally_db.Base.{ℕ, zero, suc, ◌+◌, ◌≡◌, refl, ap, arith}
use tally_db.Base.{Bool, true, false, ◌&&◌, ◌||◌}
use tally_db.Base.{List, [], ◌∷◌, length, replicate}
use tally_db.Base.{Result, ok, went_on}
use tally_db.Bitmap.{Bitmap, from_bools}
use tally_db.Bitmap.Algebra.{zip_with}
use tally_db.Column.{Fault}
use tally_db.Predicate.{ThreeValued, three_and, three_or, leaf_rows, leaf_result}
use tally_db.Predicate.Rows.{HasRows, three_and-rows, three_or-rows}

-- No row is TRUE.
abbrev pub Nowhere : ℕ → Bitmap → Type 0
Nowhere rows truth = truth ≡ from_bools (replicate rows false)

leaf_rows-none :
    (rows row : ℕ) (verdict : ℕ → Result Fault (Bool × Bool)) (r : List Bool × List Bool)
    → leaf_rows rows row verdict ≡ ok r
    → ((i : ℕ) (v : Bool × Bool) → verdict i ≡ ok v → (v.0 && v.1) ≡ false)
    → r.0 ≡ replicate rows false
unfolding leaf_rows
leaf_rows-none zero row verdict r h never = ground arith
leaf_rows-none (suc rows) row verdict r h never =
    let (v, here, h1) = went_on (verdict row) _ h in
    let (rest, later, h2) = went_on (leaf_rows rows (row + 1) verdict) _ h1 in
    ground (arith, never row v here, leaf_rows-none rows (row + 1) verdict rest later never)

pub leaf_result-none :
    (rows : ℕ) (verdict : ℕ → Result Fault (Bool × Bool)) (r : ThreeValued)
    → leaf_result rows verdict ≡ ok r
    → ((i : ℕ) (v : Bool × Bool) → verdict i ≡ ok v → (v.0 && v.1) ≡ false)
    → Nowhere rows r.truth
unfolding leaf_result
leaf_result-none rows verdict r h never =
    let (p, first, rest) = went_on (leaf_rows rows 0 verdict) _ h in
    ground (arith, leaf_rows-none rows 0 verdict p first never)

zip_and-left :
    (n : ℕ) (ys : List Bool)
    → length ys ≡ n
    → zip_with ◌&&◌ (replicate n false) ys ≡ replicate n false
zip_and-left zero ys e = refl
zip_and-left (suc n) [] e = absurd (omega arith)
zip_and-left (suc n) (y ∷ ys) e = ap (λ l. false ∷ l) (zip_and-left n ys (omega arith))

zip_and-right :
    (n : ℕ) (xs : List Bool)
    → length xs ≡ n
    → zip_with ◌&&◌ xs (replicate n false) ≡ replicate n false
zip_and-right zero [] e = refl
zip_and-right zero (x ∷ xs) e = absurd (omega arith)
zip_and-right (suc n) [] e = absurd (omega arith)
zip_and-right (suc n) (true ∷ xs) e = ap (λ l. false ∷ l) (zip_and-right n xs (omega arith))
zip_and-right (suc n) (false ∷ xs) e = ap (λ l. false ∷ l) (zip_and-right n xs (omega arith))

zip_or-none : (n : ℕ) → zip_with ◌||◌ (replicate n false) (replicate n false) ≡ replicate n false
zip_or-none zero = refl
zip_or-none (suc n) = ap (λ l. false ∷ l) (zip_or-none n)

length-replicate : (n : ℕ) → length (replicate n false) ≡ n
length-replicate zero = refl
length-replicate (suc n) = ap suc (length-replicate n)

pub both_false : (a b : Bool) → (a || b) ≡ false → (a ≡ false) × (b ≡ false)
both_false false false h = (refl, refl)
both_false false true h = absurd (ground arith)
both_false true b h = absurd (ground arith)

pub right_false : (a b : Bool) → a ≡ true → (a && b) ≡ false → b ≡ false
right_false true b t h = h
right_false false b t h = absurd (ground arith)

-- The rows of a result that is TRUE nowhere.
none_rows : (rows : ℕ) (a : ThreeValued) → HasRows rows a → Nowhere rows a.truth → HasRows rows a
none_rows rows a p none_true = record {
  truths = replicate rows false;
  falsities = p.falsities;
  truth_lem = none_true;
  falsity_lem = p.falsity_lem;
  truths_len = length-replicate rows;
  falsities_len = p.falsities_len;
}

module _ (rows : ℕ) (a b r : ThreeValued) (p : HasRows rows a) (q : HasRows rows b) where
  pub three_and-left : Nowhere rows a.truth → three_and a b ≡ ok r → Nowhere rows r.truth
  unfolding none_rows
  three_and-left n h =
      let e = three_and-rows rows a b (none_rows rows a p n) q in
      ground (arith, zip_and-left rows q.truths q.truths_len)

  pub three_and-right : Nowhere rows b.truth → three_and a b ≡ ok r → Nowhere rows r.truth
  unfolding none_rows
  three_and-right n h =
      let e = three_and-rows rows a b p (none_rows rows b q n) in
      ground (arith, zip_and-right rows p.truths p.truths_len)

  pub three_or-none :
      Nowhere rows a.truth → Nowhere rows b.truth → three_or a b ≡ ok r → Nowhere rows r.truth
  unfolding none_rows
  three_or-none n m h =
      let e = three_or-rows rows a b (none_rows rows a p n) (none_rows rows b q m) in
      ground (arith, zip_or-none rows)
