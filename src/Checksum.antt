-- ===== src/Checksum.antt =====
-- The two checksums of the file formats: `crc32` of src/storage_lite/tombstone.rs and `crc32c` of
-- src/storage_lite/format.rs, one loop at two polynomials. An entry of the source's table is computed
-- where it is read.
pub mod Detects
use tally_db.Base.{
  ℕ, zero, suc, ◌/◌, ◌^◌, ◌<◌, List, [], ◌∷◌, ◌==◌, if◌then◌else◌, ◌≡◌, refl, arith,
}
use tally_db.Base.{bit_and, bit_xor, Bool-cases, inl, inr}
use tally_db.Base.Bits.{bit_xor-lt, bit_and_mask}

-- The rounds left of the loop that fills an entry of the table.
unfoldable pub table_rounds : ℕ → ℕ → ℕ → ℕ
table_rounds polynomial zero crc = crc
table_rounds polynomial (suc rounds) crc =
    table_rounds polynomial rounds
      (if bit_and crc 1 == 0 then crc / 2 else bit_xor (crc / 2) polynomial)

unfoldable pub crc_loop : ℕ → List ℕ → ℕ → ℕ
crc_loop polynomial [] crc = crc
crc_loop polynomial (byte ∷ bytes) crc =
    crc_loop polynomial bytes
      (bit_xor (crc / 256) (table_rounds polynomial 8 (bit_and (bit_xor crc byte) 0xff)))

-- `!crc` on 32 bits.
unfoldable pub crc32 : List ℕ → ℕ
crc32 bytes = bit_xor (crc_loop 0xedb88320 bytes 0xffffffff) 0xffffffff

unfoldable pub crc32c : List ℕ → ℕ
crc32c bytes = bit_xor (crc_loop 0x82f63b78 bytes 0xffffffff) 0xffffffff

table_rounds-lt :
    (polynomial rounds crc : ℕ)
    → polynomial < 2 ^ 32
    → crc < 2 ^ 32
    → table_rounds polynomial rounds crc < 2 ^ 32
unfolding table_rounds
table_rounds-lt polynomial zero crc p h = h
table_rounds-lt polynomial (suc rounds) crc p h = elim (Bool-cases (bit_and crc 1 == 0)) [
  | inl t ↦ rw t (table_rounds-lt polynomial rounds (crc / 2) p (omega arith))
  | inr f ↦ rw f (
      table_rounds-lt polynomial rounds (bit_xor (crc / 2) polynomial) p
        (bit_xor-lt 32 (crc / 2) polynomial (omega arith) p))
]

pub crc_loop-lt :
    (polynomial : ℕ) (bytes : List ℕ) (crc : ℕ)
    → polynomial < 2 ^ 32
    → crc < 2 ^ 32
    → crc_loop polynomial bytes crc < 2 ^ 32
unfolding crc_loop
crc_loop-lt polynomial [] crc p h = h
crc_loop-lt polynomial (byte ∷ bytes) crc p h = crc_loop-lt polynomial bytes _ p (
    bit_xor-lt 32 (crc / 256) _ (omega arith) (
      table_rounds-lt polynomial 8 (bit_and (bit_xor crc byte) 0xff) p
        (omega (arith, bit_and_mask 8 (bit_xor crc byte)))))

pub crc32-lt : (bytes : List ℕ) → crc32 bytes < 2 ^ 32
unfolding crc32
crc32-lt bytes =
    bit_xor-lt 32 _ 0xffffffff (crc_loop-lt 0xedb88320 bytes 0xffffffff (omega arith) (omega arith))
      (omega arith)

pub crc32c-lt : (bytes : List ℕ) → crc32c bytes < 2 ^ 32
unfolding crc32c
crc32c-lt bytes =
    bit_xor-lt 32 _ 0xffffffff (crc_loop-lt 0x82f63b78 bytes 0xffffffff (omega arith) (omega arith))
      (omega arith)

-- The standard check values of the two sums, over "123456789".
crc32_check : crc32 (49 ∷ 50 ∷ 51 ∷ 52 ∷ 53 ∷ 54 ∷ 55 ∷ 56 ∷ 57 ∷ []) ≡ 0xcbf43926
unfolding crc32 crc_loop table_rounds
crc32_check = refl

crc32c_check : crc32c (49 ∷ 50 ∷ 51 ∷ 52 ∷ 53 ∷ 54 ∷ 55 ∷ 56 ∷ 57 ∷ []) ≡ 0xe3069283
unfolding crc32c crc_loop table_rounds
crc32c_check = refl
