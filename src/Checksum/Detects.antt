-- ===== src/Checksum/Detects.antt =====
-- What `crc32` of src/storage_lite/tombstone.rs detects: it differs where one byte does. The table of
-- the source is injective in the highest byte of its entries, so no step of the loop loses anything.
use tally_db.Base.{
  ℕ, zero, suc, ◌+◌, ◌*◌, ◌/◌, ◌%◌, ◌^◌, ◌<◌, ◌≡◌, refl, sym, ◌∙◌, ap, arith, Bool, true, ◌&&◌,
  List, [], ◌∷◌, ◌++◌, All, ◌==◌, ==_iff, if◌then◌else◌, bit_and, bit_xor, Bool-cases, inl, inr,
}
use tally_db.Base.Word.{IsByte}
use tally_db.Base.Bits.{bit_and_mask, bit_xor-lt, bit_xor-zero}
use tally_db.Base.Xor.{zero-bit_xor, div-bit_xor, bit_xor-cancel_left, bit_xor-cancel_right}
use tally_db.Checksum.{table_rounds, crc_loop, crc32, table_rounds-lt, crc_loop-lt}

-- The rounds backwards, from a number of which the highest byte alone counts.
rounds_back : ℕ → ℕ → ℕ → ℕ
rounds_back polynomial zero crc = crc
rounds_back polynomial (suc rounds) crc =
    let bit = crc / 2 ^ 31 in
    rounds_back polynomial rounds
      ((if bit == 0 then crc else bit_xor crc polynomial) * 2 % 2 ^ 32 + bit)

-- The index of the entry whose highest byte is given.
abbrev index_of : ℕ → ℕ
index_of top = rounds_back 0xedb88320 8 (top * 2 ^ 24) % 256

all_below : ℕ → (ℕ → Bool) → Bool
all_below zero test = true
all_below (suc n) test = test n && all_below n test

all_below-at : (n i : ℕ) (test : ℕ → Bool) → all_below n test ≡ true → i < n → test i ≡ true
unfolding all_below
all_below-at zero i test h l = absurd (omega arith)
all_below-at (suc n) i test h l = elim (Bool-cases (i == n)) [
  | inl t ↦ ap test ((==_iff i n).0 t) ∙ ground arith
  | inr f ↦ all_below-at n i test (ground arith) (ground (arith, ==_iff i n))
]

abbrev entry : ℕ → ℕ
entry index = table_rounds 0xedb88320 8 index

indices_found : all_below 256 (λ index. index_of (entry index / 2 ^ 24) == index) ≡ true
unfolding all_below rounds_back table_rounds
indices_found = refl

entry-injective : (i j : ℕ) → i < 256 → j < 256 → entry i / 2 ^ 24 ≡ entry j / 2 ^ 24 → i ≡ j
entry-injective i j h g e =
    let found = λ (k : ℕ) (l : k < 256).
      (==_iff (index_of (entry k / 2 ^ 24)) k).0
        (all_below-at 256 k (λ index. index_of (entry index / 2 ^ 24) == index) indices_found l) in
    sym (found i h) ∙ ap index_of e ∙ found j g

-- One byte of the loop.
abbrev step : ℕ → ℕ → ℕ
step crc byte = bit_xor (crc / 256) (entry (bit_and (bit_xor crc byte) 0xff))

step-lt : (crc byte : ℕ) → crc < 2 ^ 32 → step crc byte < 2 ^ 32
step-lt crc byte h = bit_xor-lt 32 (crc / 256) _ (omega arith) (
    table_rounds-lt 0xedb88320 8 (bit_and (bit_xor crc byte) 0xff) (omega arith)
      (omega (arith, bit_and_mask 8 (bit_xor crc byte))))

-- The highest byte of what it leaves is that of the entry, and tells the entry's index.
step-top :
    (crc byte : ℕ)
    → crc < 2 ^ 32
    → step crc byte / 2 ^ 24 ≡ entry (bit_and (bit_xor crc byte) 0xff) / 2 ^ 24
step-top crc byte h =
    let index = bit_and (bit_xor crc byte) 0xff in
    let none_left : crc / 256 / 2 ^ 24 ≡ 0 = omega arith in
    div-bit_xor 24 (crc / 256) (entry index)
    ∙ ap (λ x. bit_xor x (entry index / 2 ^ 24)) none_left
    ∙ zero-bit_xor (entry index / 2 ^ 24)

high_part : (crc byte : ℕ) → IsByte byte → bit_xor crc byte / 256 ≡ crc / 256
high_part crc byte b =
    let gone : byte / 256 ≡ 0 = omega arith in
    div-bit_xor 8 crc byte ∙ ap (λ x. bit_xor (crc / 256) x) gone ∙ bit_xor-zero (crc / 256)

step-injective :
    (crc crc' byte byte' : ℕ)
    → crc < 2 ^ 32
    → crc' < 2 ^ 32
    → IsByte byte
    → IsByte byte'
    → step crc byte ≡ step crc' byte'
    → bit_xor crc byte ≡ bit_xor crc' byte'
step-injective crc crc' byte byte' h h' b b' e =
    let index = bit_and (bit_xor crc byte) 0xff in
    let index' = bit_and (bit_xor crc' byte') 0xff in
    let low = bit_and_mask 8 (bit_xor crc byte) in
    let low' = bit_and_mask 8 (bit_xor crc' byte') in
    let same_top : entry index / 2 ^ 24 ≡ entry index' / 2 ^ 24 =
      sym (step-top crc byte h) ∙ ap (λ x. x / 2 ^ 24) e ∙ step-top crc' byte' h' in
    let same_index : index ≡ index' =
      entry-injective index index' (omega (arith, low)) (omega (arith, low')) same_top in
    let same_high : crc / 256 ≡ crc' / 256 =
      bit_xor-cancel_right 24 (crc / 256) (crc' / 256) (entry index') (omega arith) (omega arith)
        (sym (ap (λ i. bit_xor (crc / 256) (entry i)) same_index) ∙ e) in
    omega (arith, low, low', same_index, same_high, high_part crc byte b, high_part crc' byte' b')

-- What follows keeps two states apart.
crc_loop-injective :
    (bytes : List ℕ) (crc crc' : ℕ)
    → All IsByte bytes
    → crc < 2 ^ 32
    → crc' < 2 ^ 32
    → crc_loop 0xedb88320 bytes crc ≡ crc_loop 0xedb88320 bytes crc'
    → crc ≡ crc'
unfolding crc_loop
crc_loop-injective [] crc crc' a h h' e = e
crc_loop-injective (byte ∷ bytes) crc crc' (b, a) h h' e =
    bit_xor-cancel_right 32 crc crc' byte h h' (
      step-injective crc crc' byte byte h h' b b (
        crc_loop-injective bytes (step crc byte) (step crc' byte) a (step-lt crc byte h)
          (step-lt crc' byte h') e))

crc_loop-append :
    (front back : List ℕ) (crc : ℕ)
    → crc_loop 0xedb88320 (front ++ back) crc
      ≡ crc_loop 0xedb88320 back (crc_loop 0xedb88320 front crc)
unfolding crc_loop
crc_loop-append [] back crc = refl
crc_loop-append (byte ∷ front) back crc = crc_loop-append front back (step crc byte)

crc_loop-changed :
    (back : List ℕ) (crc byte changed : ℕ)
    → All IsByte back
    → crc < 2 ^ 32
    → IsByte byte
    → IsByte changed
    → crc_loop 0xedb88320 (byte ∷ back) crc ≡ crc_loop 0xedb88320 (changed ∷ back) crc
    → byte ≡ changed
unfolding crc_loop
crc_loop-changed back crc byte changed a h b c e =
    bit_xor-cancel_left 8 byte changed crc (omega arith) (omega arith) (
      step-injective crc crc byte changed h h b c (
        crc_loop-injective back (step crc byte) (step crc changed) a (step-lt crc byte h)
          (step-lt crc changed h) e))

-- Bytes that differ in one place have different checksums.
pub crc32-one_byte :
    (front back : List ℕ) (byte changed : ℕ)
    → All IsByte back
    → IsByte byte
    → IsByte changed
    → crc32 (front ++ (byte ∷ back)) ≡ crc32 (front ++ (changed ∷ back))
    → byte ≡ changed
unfolding crc32
crc32-one_byte front back byte changed a b c e =
    let start = crc_loop 0xedb88320 front 0xffffffff in
    let bound =
      λ (bytes : List ℕ). crc_loop-lt 0xedb88320 bytes 0xffffffff (omega arith) (omega arith) in
    let looped =
      bit_xor-cancel_right 32 (crc_loop 0xedb88320 (front ++ (byte ∷ back)) 0xffffffff)
        (crc_loop 0xedb88320 (front ++ (changed ∷ back)) 0xffffffff) 0xffffffff
        (bound (front ++ (byte ∷ back))) (bound (front ++ (changed ∷ back))) e in
    crc_loop-changed back start byte changed a (bound front) b c (
      sym (crc_loop-append front (byte ∷ back) 0xffffffff)
      ∙ looped
      ∙ crc_loop-append front (changed ∷ back) 0xffffffff)
