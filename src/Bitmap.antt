-- ===== src/Bitmap.antt =====
-- src/arrow_lite/bitmap.rs: one bit per row, eight to a byte, lowest first.
-- A byte is a number below 256, and `none` is a failed `assert!` or `assert_eq!`.
pub mod Packed
pub mod FromBools
pub mod Algebra
pub mod Counting
mod Runs
use tally_db.Base.{ℕ, zero, suc, ◌+◌, ◌-◌, ◌*◌, ◌/◌, ◌%◌, ◌^◌, bit_and, bit_or, bit_xor}
use tally_db.Base.{Bool, true, false, not, Option, none, some, List, [], ◌∷◌, ◌++◌, map}
use tally_db.Base.{length, get_or, replicate, ltb, ◌==◌, if◌then◌else◌}

pub record Bitmap : Type 0 where
  pub bytes : List ℕ
  pub len : ℕ

byte_len : ℕ → ℕ
byte_len len = (len + 7) / 8

tail_mask : ℕ → ℕ
tail_mask len = if len % 8 == 0 then 0xff else 2 ^ (len % 8) - 1

-- `if let Some(last) = bytes.last_mut() { *last = f(*last) }`
update_last : (ℕ → ℕ) → List ℕ → List ℕ
update_last f [] = []
update_last f (x ∷ []) = f x ∷ []
update_last f (x ∷ y ∷ rest) = x ∷ update_last f (y ∷ rest)

mask_tail : ℕ → List ℕ → List ℕ
mask_tail len bytes = update_last (λ last. bit_and last (tail_mask len)) bytes

pub new_set : ℕ → Bitmap
new_set len = record { bytes = mask_tail len (replicate (byte_len len) 0xff); len = len }

pub new_unset : ℕ → Bitmap
new_unset len = record { bytes = replicate (byte_len len) 0; len = len }

-- One round of `from_bools`: a new byte where the last one is full, then the bit.
push_bool : List ℕ → ℕ → Bool → List ℕ
push_bool bytes len b =
    let grown = if len % 8 == 0 then bytes ++ (0 ∷ []) else bytes in
    if b then update_last (λ last. bit_or last (2 ^ (len % 8))) grown else grown

push_all : List Bool → List ℕ → ℕ → Bitmap
push_all [] bytes len = record { bytes = bytes; len = len }
push_all (b ∷ bools) bytes len = push_all bools (push_bool bytes len b) (len + 1)

pub from_bools : List Bool → Bitmap
from_bools bools = push_all bools [] 0

-- `self.bytes[index / 8] & (1 << (index % 8)) != 0`
bit_at : List ℕ → ℕ → Bool
bit_at bytes index = not (bit_and (get_or bytes (index / 8) 0) (2 ^ (index % 8)) == 0)

pub get : Bitmap → ℕ → Option Bool
get bm index = if ltb index bm.len then some (bit_at bm.bytes index) else none

-- The number of ones among the lowest digits: `u8::count_ones` looks at eight.
count_ones : ℕ → ℕ → ℕ
count_ones zero b = 0
count_ones (suc digits) b = b % 2 + count_ones digits (b / 2)

sum_ones : List ℕ → ℕ
sum_ones [] = 0
sum_ones (b ∷ bytes) = count_ones 8 b + sum_ones bytes

pub count_set : Bitmap → ℕ
count_set bm = sum_ones bm.bytes

zip : (ℕ → ℕ → ℕ) → List ℕ → List ℕ → List ℕ
zip op [] ys = []
zip op (x ∷ xs) [] = []
zip op (x ∷ xs) (y ∷ ys) = op x y ∷ zip op xs ys

zip_bytes : (ℕ → ℕ → ℕ) → Bitmap → Bitmap → Option Bitmap
zip_bytes op a b =
    if a.len == b.len then some (record { bytes = zip op a.bytes b.bytes; len = a.len }) else none

pub and : Bitmap → Bitmap → Option Bitmap
and = zip_bytes bit_and

pub or : Bitmap → Bitmap → Option Bitmap
or = zip_bytes bit_or

-- `!b` on a byte turns all eight digits.
pub complement : Bitmap → Bitmap
complement bm = record {
  bytes = mask_tail bm.len (map (λ b. bit_xor b 0xff) bm.bytes);
  len = bm.len;
}

-- The set bits of one byte, for `bit in 0..8`.
set_in_byte : ℕ → ℕ → ℕ → ℕ → List ℕ
set_in_byte zero bit base byte = []
set_in_byte (suc rounds) bit base byte =
    let rest = set_in_byte rounds (bit + 1) base byte in
    if bit_and byte (2 ^ bit) == 0 then rest else (base + bit) ∷ rest

-- Bytes that are 0 are filtered out before their bits are looked at.
set_from : List ℕ → ℕ → List ℕ
set_from [] byte_index = []
set_from (byte ∷ bytes) byte_index =
    let rest = set_from bytes (byte_index + 1) in
    if byte == 0 then rest else set_in_byte 8 0 (byte_index * 8) byte ++ rest

pub iter_set : Bitmap → List ℕ
iter_set bm = set_from bm.bytes 0
