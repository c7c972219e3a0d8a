-- ===== src/Bitmap/Counting.antt =====
-- `count_set` and `iter_set` of src/arrow_lite/bitmap.rs.
use native.Mathlib.Nat.{pow-suc, one-le-pow, div-div-eq-div-mul}
use native.Mathlib.Numerals.{add-one}
use tally_db.Base.Bits.{bit_and_single}
use tally_db.Base.{ℕ, zero, suc, ◌+◌, ◌*◌, ◌/◌, ◌%◌, ◌^◌, ◌≤◌, ◌≡◌, refl, ◌∙◌, arith}
use tally_db.Base.{Bool, true, false, List, [], ◌∷◌, ◌++◌, if◌then◌else◌, ◌==◌, bit_and}
use tally_db.Bitmap.{from_bools, count_ones, sum_ones, count_set, set_in_byte, set_from, iter_set}
use tally_db.Bitmap.Packed.{digit, pack, pack-lt}
use tally_db.Bitmap.FromBools.{from_bools-packed}

-- How many rows a list of booleans selects, and which, counted from `i` on.
abbrev pub count_true : List Bool → ℕ
count_true [] = 0
count_true (b ∷ bools) = digit b + count_true bools

abbrev pub selected_from : List Bool → ℕ → List ℕ
selected_from [] i = []
selected_from (b ∷ bools) i = let rest = selected_from bools (i + 1) in if b then i ∷ rest else rest

count_ones-zero : (n : ℕ) → count_ones n 0 ≡ 0
unfolding count_ones
count_ones-zero zero = refl
count_ones-zero (suc n) = omega (arith, count_ones-zero n)

count_ones-none : (v : ℕ) → count_ones 0 v ≡ 0
unfolding count_ones
count_ones-none v = refl

count_ones-digit :
    (n : ℕ) (b : Bool) (v : ℕ) → count_ones (suc n) (digit b + 2 * v) ≡ digit b + count_ones n v
unfolding count_ones
count_ones-digit n true v = ground arith
count_ones-digit n false v = ground arith

count_ones-pack :
    (bools : List Bool) (k : ℕ)
    → k ≤ 8
    → count_ones k (pack bools k).0 + sum_ones (pack bools k).1 ≡ count_true bools
unfolding pack sum_ones
count_ones-pack [] k h = omega (arith, count_ones-zero k)
count_ones-pack (b ∷ bools) zero h = omega (
  arith,
  count_ones-none 0,
  count_ones-digit 7 b (pack bools 7).0,
  count_ones-pack bools 7 (omega arith),
)
count_ones-pack (b ∷ bools) (suc k) h =
    omega (arith, count_ones-digit k b (pack bools k).0, count_ones-pack bools k (omega arith))

-- The whole-byte count is the number of selected rows.
pub count_set-from_bools : (bools : List Bool) → count_set (from_bools bools) ≡ count_true bools
unfolding count_set
count_set-from_bools bools =
    rw (from_bools-packed bools)
      (omega (arith, count_ones-none (pack bools 0).0, count_ones-pack bools 0 (omega arith)))

-- The digits from `bit` on, one step at a time.
upper_digits : (byte bit : ℕ) → byte / 2 ^ (bit + 1) ≡ byte / 2 ^ bit / 2
upper_digits byte bit =
    ground (arith, div-div-eq-div-mul byte (2 ^ bit) 2, pow-suc 2 bit, add-one bit)

digit_clear : (byte bit : ℕ) → (bit_and byte (2 ^ bit) == 0) ≡ (byte / 2 ^ bit % 2 == 0)
digit_clear byte bit = ground (arith, bit_and_single bit byte, one-le-pow bit 2)

set_in_byte_round :
    (rounds bit base byte v : ℕ) (b : Bool)
    → byte / 2 ^ bit ≡ digit b + 2 * v
    → set_in_byte (suc rounds) bit base byte ≡ (
        if b
        then (base + bit) ∷ set_in_byte rounds (bit + 1) base byte
        else set_in_byte rounds (bit + 1) base byte)
unfolding set_in_byte
set_in_byte_round rounds bit base byte v true e = rw (digit_clear byte bit, e) (ground arith)
set_in_byte_round rounds bit base byte v false e = rw (digit_clear byte bit, e) (ground arith)

set_in_byte-none :
    (rounds bit base byte : ℕ) → byte / 2 ^ bit ≡ 0 → set_in_byte rounds bit base byte ≡ []
set_in_byte-none zero bit base byte e = unfold set_in_byte in refl
set_in_byte-none (suc rounds) bit base byte e =
    set_in_byte_round rounds bit base byte 0 false (omega arith)
    ∙ set_in_byte-none rounds (bit + 1) base byte (omega (arith, upper_digits byte bit))

-- Skipping the bytes that are 0 changes nothing.
set_from_byte :
    (byte : ℕ) (bytes : List ℕ) (j : ℕ)
    → set_from (byte ∷ bytes) j ≡ set_in_byte 8 0 (j * 8) byte ++ set_from bytes (j + 1)
unfolding set_from
set_from_byte byte bytes j = ground (arith, set_in_byte-none 8 0 (j * 8) byte)

no_rounds : (bit base byte : ℕ) → set_in_byte 0 bit base byte ≡ []
unfolding set_in_byte
no_rounds bit base byte = refl

no_bytes : (j : ℕ) → set_from [] j ≡ []
unfolding set_from
no_bytes j = refl

-- The rest of an open byte and the bytes behind it.
set_in_byte-pack :
    (bools : List Bool) (rounds bit base byte j : ℕ)
    → byte / 2 ^ bit ≡ (pack bools rounds).0
    → base + bit + rounds ≡ 8 * j
    → set_in_byte rounds bit base byte ++ set_from (pack bools rounds).1 j
      ≡ selected_from bools (base + bit)
unfolding pack
set_in_byte-pack [] rounds bit base byte j e f =
    rw (set_in_byte-none rounds bit base byte e, no_bytes j)
set_in_byte-pack (b ∷ bools) zero bit base byte j e f =
    let v = (pack bools 7).0 in
    let here : base + bit ≡ j * 8 + 0 = omega arith in
    let next : j * 8 + 0 + 1 ≡ j * 8 + 1 = omega arith in
    rw
      (
        no_rounds bit base byte,
        here,
        next,
        set_from_byte (digit b + 2 * v) (pack bools 7).1 j,
        set_in_byte_round 7 0 (j * 8) (digit b + 2 * v) v b (ground arith),
      )
      (ground (
        arith,
        set_in_byte-pack bools 7 1 (j * 8) (digit b + 2 * v) (j + 1) (ground arith) (omega arith),
      ))
set_in_byte-pack (b ∷ bools) (suc k) bit base byte j e f =
    let v = (pack bools k).0 in
    let next : base + bit + 1 ≡ base + (bit + 1) = omega arith in
    rw (next, set_in_byte_round k bit base byte v b e)
      (ground (
        arith,
        set_in_byte-pack bools k (bit + 1) base byte j (upper_digits byte bit ∙ ground arith)
            (omega arith),
      ))

-- `iter_set` yields the selected rows, each once and in increasing order.
pub iter_set-from_bools : (bools : List Bool) → iter_set (from_bools bools) ≡ selected_from bools 0
unfolding iter_set
iter_set-from_bools bools = rw (from_bools-packed bools) (
    rw (no_rounds 0 0 0) at
      (set_in_byte-pack bools 0 0 0 0 0 (omega (arith, pack-lt bools 0)) (omega arith)))
