-- ===== src/Floats.antt =====
-- What the program uses of `f64`, a type of the language: the operations, and what IEEE 754 says of
-- them. There are finitely many values, and `rank` numbers those that are not NaN in their order, so
-- that -0.0 and 0.0 have one rank.
pub mod Sample
use Prim.Native.Nat.{compare, Ordering}
use tally_db.Base.{ℕ, min, max, ◌≡◌, Bool, true, false}

pub record Floats : Type 1 where
  pub F : Type 0
  pub is_nan : F → Bool
  pub nan : F
  -- `partial_cmp` of two values that are not NaN
  pub partial_cmp : F → F → Ordering
  pub lesser : F → F → F
  pub greater : F → F → F
  -- `as f64`
  pub from_i64 : ℕ → F
  -- the literals 2 ^ 63 and -(2 ^ 63), `floor`, and `as i64`
  pub two_to_63 : F
  pub minus_two_to_63 : F
  pub floor : F → F
  pub to_i64 : F → ℕ
  pub rank : F → ℕ
  pub nan_lem : is_nan nan ≡ true
  pub partial_cmp_lem :
      (a b : F) → is_nan a ≡ false → is_nan b ≡ false → partial_cmp a b ≡ compare (rank a) (rank b)
  pub lesser_lem :
      (a b : F)
      → is_nan a ≡ false
      → is_nan b ≡ false
      → (is_nan (lesser a b) ≡ false) × (rank (lesser a b) ≡ min (rank a) (rank b))
  pub greater_lem :
      (a b : F)
      → is_nan a ≡ false
      → is_nan b ≡ false
      → (is_nan (greater a b) ≡ false) × (rank (greater a b) ≡ max (rank a) (rank b))
