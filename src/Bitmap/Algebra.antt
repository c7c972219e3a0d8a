-- ===== src/Bitmap/Algebra.antt =====
-- `and`, `or` and `not` of src/arrow_lite/bitmap.rs are those of the booleans, bit by bit.
use native.Mathlib.Nat.{pow-suc, one-le-pow, pow-le-pow_right, lt_of_lt_of_le, mod-eq_of_lt}
use native.Mathlib.Decide.{dec_lt}
use tally_db.Base.{ℕ, zero, suc, ◌+◌, ◌-◌, ◌*◌, ◌%◌, ◌^◌, ◌≤◌, ◌<◌, ◌≡◌, refl, ap, sym, ◌∙◌, arith}
use tally_db.Base.{Bool, true, false, not, ◌&&◌, ◌||◌, some, ◌≢◌, ◌⊎◌, inl, inr, List, [], ◌∷◌, map}
use tally_db.Base.{length, length-map, bit_and, bit_or, bit_xor}
use tally_db.Base.Bits.{bit_and_step, bit_or_step, bit_xor_ones, bit_and_mask}
use tally_db.Bitmap.{
  from_bools, and, or, complement, zip, zip_bytes, mask_tail, tail_mask, update_last,
}
use tally_db.Bitmap.Packed.{digit, pack, packed, pack-lt}
use tally_db.Bitmap.FromBools.{from_bools-packed, bitmap_eq}

-- Two selections of the same rows, row by row.
abbrev pub zip_with : (Bool → Bool → Bool) → List Bool → List Bool → List Bool
zip_with f [] ys = []
zip_with f (x ∷ xs) [] = []
zip_with f (x ∷ xs) (y ∷ ys) = f x y ∷ zip_with f xs ys

pub length-zip_with :
    (f : Bool → Bool → Bool) (xs ys : List Bool)
    → length xs ≡ length ys
    → length (zip_with f xs ys) ≡ length xs
length-zip_with f [] ys e = refl
length-zip_with f (x ∷ xs) [] e = absurd (omega arith)
length-zip_with f (x ∷ xs) (y ∷ ys) e = ap suc (length-zip_with f xs ys (omega arith))

-- A digit operation that agrees with a test on one digit and goes digit by digit.
record IsDigitwise (op : ℕ → ℕ → ℕ) (f : Bool → Bool → Bool) : Type 0 where
  none_set : op 0 0 ≡ 0
  step :
      (a b : Bool) (m n : ℕ) → op (digit a + 2 * m) (digit b + 2 * n) ≡ digit (f a b) + 2 * op m n

and-IsDigitwise : IsDigitwise bit_and ◌&&◌
and-IsDigitwise = record {
  none_set = refl;
  step = λ a b m n. ground (arith, bit_and_step (digit a + 2 * m) (digit b + 2 * n));
}

or-IsDigitwise : IsDigitwise bit_or ◌||◌
or-IsDigitwise = record {
  none_set = refl;
  step = λ a b m n. ground (arith, bit_or_step (digit a + 2 * m) (digit b + 2 * n));
}

module _ (op : ℕ → ℕ → ℕ) (f : Bool → Bool → Bool) (d : IsDigitwise op f) where
  pack-zip :
      (xs ys : List Bool) (k : ℕ)
      → length xs ≡ length ys
      → pack (zip_with f xs ys) k
        ≡ (op (pack xs k).0 (pack ys k).0, zip op (pack xs k).1 (pack ys k).1)
  unfolding pack zip
  pack-zip [] [] k e = ground (arith, d.none_set)
  pack-zip [] (y ∷ ys) k e = absurd (omega arith)
  pack-zip (x ∷ xs) [] k e = absurd (omega arith)
  pack-zip (x ∷ xs) (y ∷ ys) zero e =
      ground (arith, d.none_set, d.step x y (pack xs 7).0 (pack ys 7).0, pack-zip xs ys 7)
  pack-zip (x ∷ xs) (y ∷ ys) (suc k) e =
      ground (arith, d.step x y (pack xs k).0 (pack ys k).0, pack-zip xs ys k)

  zip_bytes-from_bools :
      (xs ys : List Bool)
      → length xs ≡ length ys
      → zip_bytes op (from_bools xs) (from_bools ys) ≡ some (from_bools (zip_with f xs ys))
  unfolding zip_bytes
  zip_bytes-from_bools xs ys e =
      rw
        (
          from_bools-packed xs,
          from_bools-packed ys,
          from_bools-packed (zip_with f xs ys),
          length-zip_with f xs ys e,
        )
        (ground (arith, pack-zip xs ys 0 e))

-- `and` of two selections of the same rows selects the rows that both select.
pub and-from_bools :
    (xs ys : List Bool)
    → length xs ≡ length ys
    → and (from_bools xs) (from_bools ys) ≡ some (from_bools (zip_with ◌&&◌ xs ys))
unfolding and
and-from_bools = zip_bytes-from_bools bit_and ◌&&◌ and-IsDigitwise

-- `or` selects the rows that either selects.
pub or-from_bools :
    (xs ys : List Bool)
    → length xs ≡ length ys
    → or (from_bools xs) (from_bools ys) ≡ some (from_bools (zip_with ◌||◌ xs ys))
unfolding or
or-from_bools = zip_bytes-from_bools bit_or ◌||◌ or-IsDigitwise

flip : ℕ → ℕ
flip b = bit_xor b 0xff

flip-eq : (b : ℕ) → b < 256 → flip b ≡ 255 - b
unfolding flip
flip-eq = bit_xor_ones 8

-- The low digits of a turned byte, where the byte has no others.
low_turned : (m x : ℕ) → m ≤ 8 → x < 2 ^ m → (255 - x) % 2 ^ m ≡ 2 ^ m - 1 - x
low_turned zero x h k = omega arith
low_turned (suc zero) x h k = omega arith
low_turned (suc (suc zero)) x h k = omega arith
low_turned (suc (suc (suc zero))) x h k = omega arith
low_turned (suc (suc (suc (suc zero)))) x h k = omega arith
low_turned (suc (suc (suc (suc (suc zero))))) x h k = omega arith
low_turned (suc (suc (suc (suc (suc (suc zero)))))) x h k = omega arith
low_turned (suc (suc (suc (suc (suc (suc (suc zero))))))) x h k = omega arith
low_turned (suc (suc (suc (suc (suc (suc (suc (suc m)))))))) x h k =
    let e : m ≡ 0 = omega arith in rw e (omega (arith, rw e at k))

whole_or_part : (m : ℕ) → m ≤ 8 → (m ≡ 8) ⊎ (m % 8 ≡ m)
whole_or_part m h = elim (dec_lt m 8) [ yes p ↦ inr (mod-eq_of_lt p) | no p ↦ inl (omega arith) ]

-- The last byte of `not`, which holds `m` digits.
masked_turned :
    (m x : ℕ) → 0 < m → m ≤ 8 → x < 2 ^ m → bit_and (flip x) (tail_mask m) ≡ 2 ^ m - 1 - x
unfolding tail_mask
masked_turned m x h k l =
    let small : x < 256 = lt_of_lt_of_le l (pow-le-pow_right (omega arith) k) in
    ground (
      arith,
      bit_and_mask m (flip x),
      bit_and_mask 8 (flip x),
      flip-eq x small,
      low_turned m x k l,
      whole_or_part m k,
    )

tail_mask_shift : (n : ℕ) → 7 < n → tail_mask (suc n) ≡ tail_mask (n - 7)
unfolding tail_mask
tail_mask_shift n h = let e : suc n % 8 ≡ (n - 7) % 8 = omega arith in rw e

digit-not : (b : Bool) → digit (not b) ≡ 1 - digit b
digit-not true = refl
digit-not false = refl

-- A list that fits the open byte, and one that goes beyond it.
pack-lt_length : (xs : List Bool) (k : ℕ) → length xs ≤ k → (pack xs k).0 < 2 ^ length xs
unfolding pack
pack-lt_length [] k h = omega arith
pack-lt_length (x ∷ xs) zero h = absurd (omega arith)
pack-lt_length (true ∷ xs) (suc k) h =
    omega (arith, pow-suc 2 (length xs), pack-lt_length xs k (omega arith))
pack-lt_length (false ∷ xs) (suc k) h =
    omega (arith, pow-suc 2 (length xs), pack-lt_length xs k (omega arith))

pack-not_open :
    (xs : List Bool) (k : ℕ)
    → length xs ≤ k
    → ((pack xs k).1 ≡ []) × (pack (map not xs) k ≡ (2 ^ length xs - 1 - (pack xs k).0, []))
unfolding pack
pack-not_open [] k h = (refl, refl)
pack-not_open (x ∷ xs) zero h = absurd (omega arith)
pack-not_open (x ∷ xs) (suc k) h = ground (
  arith,
  pack-not_open xs k,
  pow-suc 2 (length xs),
  pack-lt_length xs k,
  one-le-pow (length xs) 2,
)

turned : ℕ → List ℕ → List ℕ
turned n bytes = mask_tail n (map flip bytes)

turned_one : (n x : ℕ) → turned n (x ∷ []) ≡ bit_and (flip x) (tail_mask n) ∷ []
unfolding turned mask_tail update_last
turned_one n x = refl

turned_more : (n x : ℕ) (r : List ℕ) → r ≢ [] → turned n (x ∷ r) ≡ flip x ∷ turned n r
unfolding turned mask_tail update_last
turned_more n x [] h = absurd (h refl)
turned_more n x (y ∷ r) h = refl

turned_mask : (m n : ℕ) (r : List ℕ) → tail_mask m ≡ tail_mask n → turned m r ≡ turned n r
unfolding turned mask_tail
turned_mask m n r e = rw e

short_byte :
    (x : Bool) (n v : ℕ)
    → n ≤ 7
    → v < 2 ^ n
    → turned (suc n) ((digit x + 2 * v) ∷ []) ≡ (digit (not x) + 2 * (2 ^ n - 1 - v)) ∷ []
short_byte x n v h k =
    let fits : digit x + 2 * v < 2 ^ suc n = ground (arith, pow-suc 2 n) in
    rw (turned_one, masked_turned (suc n) (digit x + 2 * v) (omega arith) (omega arith) fits)
      (ap (λ (b : ℕ). b ∷ []) (ground (arith, digit-not x, pow-suc 2 n)))

full_byte : (x : Bool) (v : ℕ) → v < 128 → flip (digit x + 2 * v) ≡ digit (not x) + 2 * (127 - v)
full_byte true v h = omega (arith, flip-eq (1 + 2 * v) (omega arith))
full_byte false v h = omega (arith, flip-eq (0 + 2 * v) (omega arith))

sub-zero_suc : (n : ℕ) → suc n - 0 ≡ suc n
sub-zero_suc n = omega arith

pack-not_closed :
    (xs : List Bool) (k : ℕ)
    → k ≤ 7
    → k < length xs
    → ((pack xs k).1 ≢ [])
      × (pack (map not xs) k ≡ (2 ^ k - 1 - (pack xs k).0, turned (length xs - k) (pack xs k).1))
unfolding pack
pack-not_closed [] k b h = absurd (omega arith)
pack-not_closed (x ∷ xs) zero b h = elim (dec_lt 7 (length xs)) [
  | yes long ↦
      let (more, rest) = pack-not_closed xs 7 (omega arith) long in
      (
        λ e. cc,
        rw (
          rest,
          sub-zero_suc (length xs),
          turned_more (suc (length xs)) _ (pack xs 7).1 more,
          full_byte x (pack xs 7).0 (pack-lt xs 7),
          turned_mask (suc (length xs)) (length xs - 7) (pack xs 7).1 (tail_mask_shift _ long),
        ),
      )
  | no short ↦
      let (alone, rest) = pack-not_open xs 7 (omega arith) in
      (
        λ e. cc,
        rw (
          rest,
          sub-zero_suc (length xs),
          alone,
          short_byte x (length xs) (pack xs 7).0 (omega arith) (pack-lt_length xs 7 (omega arith)),
        ),
      )
]
pack-not_closed (x ∷ xs) (suc k) b h =
    ground (arith, pack-not_closed xs k, digit-not x, pow-suc 2 k, pack-lt xs k, one-le-pow k 2)

packed-not :
    (x : Bool) (xs : List Bool)
    → packed (map not (x ∷ xs)) ≡ turned (suc (length xs)) (packed (x ∷ xs))
packed-not x xs =
    ap (λ (p : ℕ × List ℕ). p.1) (pack-not_closed (x ∷ xs) 0 (omega arith) (omega arith)).1
    ∙ ap (λ n. turned n (packed (x ∷ xs))) (sub-zero_suc (length xs))

-- `not` selects the rows that are not selected; the padding of the last byte stays clear.
pub complement-from_bools : (xs : List Bool) → complement (from_bools xs) ≡ from_bools (map not xs)
unfolding complement turned flip
complement-from_bools [] = unfold mask_tail update_last pack in rw (from_bools-packed [])
complement-from_bools (x ∷ xs) =
    rw (from_bools-packed (x ∷ xs), from_bools-packed (map not (x ∷ xs)))
      (bitmap_eq (sym (packed-not x xs)) (sym (length-map (x ∷ xs) not)))
