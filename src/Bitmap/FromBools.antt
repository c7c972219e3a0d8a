-- ===== src/Bitmap/FromBools.antt =====
-- `from_bools` and `get` of src/arrow_lite/bitmap.rs against the canonical bytes.
use native.Mathlib.Nat.{pow-suc, zero-add, suc-add, mod-eq_of_lt, div-eq_of_lt, one-le-pow}
use native.Mathlib.Decide.{dec_lt}
use native.Mathlib.Numerals.{towards_suc}
use tally_db.Base.{ℕ, zero, suc, ◌+◌, ◌-◌, ◌*◌, ◌/◌, ◌%◌, ◌^◌, ◌≤◌, ◌<◌, ◌≡◌, refl, ap, ◌∙◌, arith}
use tally_db.Base.{Bool, true, false, List, [], ◌∷◌, ◌++◌, append_assoc}
use tally_db.Base.{length, get_or, get_elem?, get_elem?-get_or, bit_or}
use tally_db.Base.Bits.{bit_or_shifted, bit_and_single, half-div-pow}
use tally_db.Bitmap.{Bitmap, update_last, push_bool, push_all, from_bools, get, bit_at}
use tally_db.Bitmap.Packed.{digit, pack, packed}

update_last-append :
    (f : ℕ → ℕ) (xs : List ℕ) (x : ℕ) → update_last f (xs ++ (x ∷ [])) ≡ xs ++ (f x ∷ [])
unfolding update_last
update_last-append f [] x = refl
update_last-append f (y ∷ []) x = refl
update_last-append f (y ∷ z ∷ xs) x = ap (λ t. y ∷ t) (update_last-append f (z ∷ xs) x)

-- A bit that joins the open byte, which holds `j` digits.
push_open :
    (b : Bool) (j len cur : ℕ) (done : List ℕ)
    → len % 8 ≡ j
    → 0 < j
    → cur < 2 ^ j
    → push_bool (done ++ (cur ∷ [])) len b ≡ done ++ ((cur + digit b * 2 ^ j) ∷ [])
unfolding push_bool
push_open false j len cur done e h k = ground arith
push_open true j len cur done e h k = ground (
  arith,
  update_last-append (λ last. bit_or last (2 ^ (len % 8))) done cur,
  bit_or_shifted j 1 cur,
)

-- A bit that opens a byte.
push_fresh :
    (b : Bool) (len : ℕ) (bytes : List ℕ)
    → len % 8 ≡ 0
    → push_bool bytes len b ≡ bytes ++ (digit b ∷ [])
unfolding push_bool
push_fresh false len bytes e = ground arith
push_fresh true len bytes e =
    ground (
      arith,
      update_last-append (λ last. bit_or last (2 ^ (len % 8))) bytes 0,
      bit_or_shifted 0 1 0,
    )

pub bitmap_eq :
    {xs ys : List ℕ} {m n : ℕ}
    → xs ≡ ys
    → m ≡ n
    → ◌≡◌ {A = Bitmap} (record { bytes = xs; len = m }) (record { bytes = ys; len = n })
bitmap_eq p q = λ i. record { bytes = p i; len = q i }

pow_next : (j : ℕ) → 2 ^ (j + 1) ≡ 2 * 2 ^ j
pow_next j = simp towards_suc (omega (arith, pow-suc 2 j))

joined-lt : (b : Bool) (j cur : ℕ) → cur < 2 ^ j → cur + digit b * 2 ^ j < 2 ^ (j + 1)
joined-lt b j cur h = ground (arith, pow_next j)

joined_value :
    (b : Bool) (j cur v : ℕ)
    → cur + digit b * 2 ^ j + 2 ^ (j + 1) * v ≡ cur + 2 ^ j * (digit b + 2 * v)
joined_value b j cur v = omega (arith, ap (λ (t : ℕ). t * v) (pow_next j))

-- From an open byte with `j` digits and room for `k` more.
push_all-pack :
    (bools : List Bool) (j k len cur : ℕ) (done : List ℕ)
    → j + k ≡ 8
    → 0 < j
    → (len + k) % 8 ≡ 0
    → cur < 2 ^ j
    → push_all bools (done ++ (cur ∷ [])) len ≡ record {
      bytes = done ++ ((cur + 2 ^ j * (pack bools k).0) ∷ (pack bools k).1);
      len = len + length bools;
    }
unfolding push_all pack
push_all-pack [] j k len cur done hj hp hl hc = ground arith
push_all-pack (b ∷ bools) j zero len cur done hj hp hl hc =
    rw (push_fresh b len (done ++ (cur ∷ [])) (omega arith)) (
      push_all-pack bools 1 7 (len + 1) (digit b) (done ++ (cur ∷ [])) refl (omega arith)
        (omega arith) (ground arith)
      ∙ bitmap_eq
          (append_assoc done (cur ∷ []) ((digit b + 2 * (pack bools 7).0) ∷ (pack bools 7).1)
            ∙ ap (λ (c : ℕ). done ++ (c ∷ (digit b + 2 * (pack bools 7).0) ∷ (pack bools 7).1))
                (omega arith))
          (omega arith))
push_all-pack (b ∷ bools) j (suc k) len cur done hj hp hl hc =
    rw (push_open b j len cur done (omega arith) hp hc) (
      push_all-pack bools (j + 1) k (len + 1) (cur + digit b * 2 ^ j) done (omega arith)
        (omega arith) (omega arith) (joined-lt b j cur hc)
      ∙ bitmap_eq
          (ap (λ (c : ℕ). done ++ (c ∷ (pack bools k).1)) (joined_value b j cur (pack bools k).0))
          (omega arith))

-- `from_bools` makes the canonical bytes, one bit for each boolean.
pub from_bools-packed :
    (bools : List Bool) → from_bools bools ≡ record { bytes = packed bools; len = length bools }
unfolding from_bools push_all pack
from_bools-packed [] = refl
from_bools-packed (b ∷ bools) = rw (push_fresh b 0 [] refl) (
    push_all-pack bools 1 7 1 (digit b) [] refl (omega arith) refl (ground arith)
    ∙ bitmap_eq refl (omega arith))

-- The digit of the canonical bytes at a place, with room for `k` digits in the open byte.
digit_of : List ℕ → ℕ → ℕ
digit_of bytes i = get_or bytes (i / 8) 0 / 2 ^ (i % 8) % 2

module _ {ℓ} {A : Type ℓ} where
  get_or_later :
      (x : A) (xs : List A) (i : ℕ) (d : A) → 0 < i → get_or (x ∷ xs) i d ≡ get_or xs (i - 1) d
  get_or_later x xs zero d h = absurd (omega arith)
  get_or_later x xs (suc i) d h = ap (λ j. get_or xs j d) (omega arith)

open_digit :
    (bools : List Bool) (k i : ℕ)
    → i < k
    → (pack bools k).0 / 2 ^ i % 2 ≡ digit (get_or bools i false)
unfolding pack
open_digit [] k i h = omega arith
open_digit (b ∷ bools) zero i h = absurd (omega arith)
open_digit (b ∷ bools) (suc k) zero h = ground arith
open_digit (b ∷ bools) (suc k) (suc i) h =
    ground (arith, half-div-pow (digit b + 2 * (pack bools k).0) i, open_digit bools k i)

first_byte :
    (byte : ℕ) (rest : List ℕ) (i : ℕ) → i < 8 → digit_of (byte ∷ rest) i ≡ byte / 2 ^ i % 2
unfolding digit_of
first_byte byte rest i h = rw (div-eq_of_lt h, mod-eq_of_lt h)

later_byte :
    (byte : ℕ) (rest : List ℕ) (i : ℕ) → 8 ≤ i → digit_of (byte ∷ rest) i ≡ digit_of rest (i - 8)
unfolding digit_of
later_byte byte rest i h =
    let e : i / 8 ≡ suc ((i - 8) / 8) = omega arith in
    let f : i % 8 ≡ (i - 8) % 8 = omega arith in rw (e, f)

rest_digit :
    (bools : List Bool) (k i : ℕ) → digit_of (pack bools k).1 i ≡ digit (get_or bools (k + i) false)
unfolding pack
rest_digit [] k i = unfold digit_of in omega arith
rest_digit (b ∷ bools) zero zero =
    rw (first_byte (digit b + 2 * (pack bools 7).0) (pack bools 7).1 0 (omega arith)) (ground arith)
rest_digit (b ∷ bools) zero (suc i) =
    let byte = digit b + 2 * (pack bools 7).0 in
    rw zero-add (elim (dec_lt i 7) [
      | yes near ↦
          rw (first_byte byte (pack bools 7).1 (suc i) (omega arith), ← half-div-pow byte i)
            (ground (arith, open_digit bools 7 i near))
      | no far ↦
          rw (later_byte byte (pack bools 7).1 (suc i) (omega arith))
            (rest_digit bools 7 (suc i - 8) ∙ ap (λ n. digit (get_or bools n false)) (omega arith))
    ])
rest_digit (b ∷ bools) (suc k) i = rw suc-add (rest_digit bools k i)

bit_at-packed : (bools : List Bool) (i : ℕ) → bit_at (packed bools) i ≡ get_or bools i false
unfolding bit_at digit_of
bit_at-packed bools i =
    rw (bit_and_single (i % 8) (get_or (packed bools) (i / 8) 0))
      (ground (arith, rest_digit bools 0 i, one-le-pow (i % 8) 2, zero-add i))

-- A bit of `from_bools` is the boolean at that place, and past the end `get` panics.
pub get-from_bools : (bools : List Bool) (i : ℕ) → get (from_bools bools) i ≡ get_elem? bools i
unfolding get
get-from_bools bools i =
    rw (from_bools-packed bools, bit_at-packed bools i, get_elem?-get_or bools i false)
