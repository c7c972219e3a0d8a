-- ===== src/Codec/Zigzag.antt =====
-- `zigzag` and `unzigzag` of src/storage_lite/codec.rs as arithmetic, and as inverse bijections.
use tally_db.Base.{ℕ, ◌+◌, ◌-◌, ◌*◌, ◌/◌, ◌%◌, ◌^◌, ◌≡◌, arith, ltb, if◌then◌else◌}
use tally_db.Base.Word.{IsWord}
use tally_db.Base.Bits.{bit_and_mask, bit_xor-zero, bit_xor_ones}
use tally_db.Codec.{zigzag, unzigzag}

-- Values below 2 ^ 63 go to the even numbers, the negative ones, from -1 down, to the odd.
pub zigzag-eq :
    (v : ℕ) → IsWord v → zigzag v ≡ (if ltb v (2 ^ 63) then v * 2 else (2 ^ 64 - 1 - v) * 2 + 1)
unfolding zigzag
zigzag-eq v h = ground (arith, bit_xor-zero (v * 2 % 2 ^ 64), bit_xor_ones 64 (v * 2 % 2 ^ 64))

pub unzigzag-eq :
    (w : ℕ) → IsWord w → unzigzag w ≡ (if ltb (w % 2) 1 then w / 2 else 2 ^ 64 - 1 - w / 2)
unfolding unzigzag
unzigzag-eq w h = ground (arith, bit_and_mask 1 w, bit_xor-zero (w / 2), bit_xor_ones 64 (w / 2))

pub zigzag-IsWord : (v : ℕ) → IsWord v → IsWord (zigzag v)
zigzag-IsWord v h = ground (arith, zigzag-eq v h)

pub unzigzag-IsWord : (w : ℕ) → IsWord w → IsWord (unzigzag w)
unzigzag-IsWord w h = ground (arith, unzigzag-eq w h)

pub unzigzag-zigzag : (v : ℕ) → IsWord v → unzigzag (zigzag v) ≡ v
unzigzag-zigzag v h = ground (arith, zigzag-eq v h, unzigzag-eq (zigzag v) (zigzag-IsWord v h))

pub zigzag-unzigzag : (w : ℕ) → IsWord w → zigzag (unzigzag w) ≡ w
zigzag-unzigzag w h = ground (arith, unzigzag-eq w h, zigzag-eq (unzigzag w) (unzigzag-IsWord w h))
