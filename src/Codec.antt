-- ===== src/Codec.antt =====
-- src/storage_lite/codec.rs: the codec registry, zigzag, LEB128 varints and delta-of-delta.
-- An `i64` and a `u64` are bit patterns below 2 ^ 64; a byte buffer is a list of numbers. The loop
-- of `push_varint` runs while the rest of the value is not 0, by recursion on `Acc`; the other loops
-- count their rounds.
pub mod Registry
pub mod Varint
pub mod Zigzag
pub mod RoundTrip
pub mod Malformed
pub mod Size
pub mod Bytes
mod Runs
use mathlib.Core.Logic.{dite}
use mathlib.Core.WellFounded.{Acc}
use native.Mathlib.Decide.{dec_lt}
use tally_db.Base.{ℕ, zero, suc, ◌+◌, ◌-◌, ◌*◌, ◌/◌, ◌%◌, ◌^◌, ◌<◌, ◌++◌, arith, lt_wf}
use tally_db.Base.{Option, none, some, List, [], ◌∷◌, length, get_elem?, bit_and, bit_or, bit_xor}
use tally_db.Base.{Result, ok, err, ◌>>=◌, ltb, ◌==◌, if◌then◌else◌}
use tally_db.Base.Word.{wrapping_add, wrapping_sub}

pub data Codec : Type 0 where
  uncompressed delta_of_delta_i64 alp_f64 for_i64 for_u32 : Codec

-- `self as u8`
pub tag : Codec → ℕ
tag uncompressed = 0
tag delta_of_delta_i64 = 1
tag alp_f64 = 2
tag for_i64 = 3
tag for_u32 = 4

pub from_tag : ℕ → Option Codec
from_tag t =
    if t == 0
    then some uncompressed
    else if t == 1
    then some delta_of_delta_i64
    else if t == 2
    then some alp_f64
    else if t == 3
    then some for_i64
    else if t == 4
    then some for_u32
    else none

-- The message of `Invalid` is left out.
pub data CodecError : Type 0 where
  truncated varint_too_long invalid : CodecError
  trailing_bytes : ℕ → CodecError

-- `value << 1` drops the top bit; `value >> 63` copies the sign bit everywhere.
abbrev sign_fill : ℕ → ℕ
sign_fill value = if ltb value (2 ^ 63) then 0 else 2 ^ 64 - 1

unfoldable pub zigzag : ℕ → ℕ
zigzag value = bit_xor (value * 2 % 2 ^ 64) (sign_fill value)

-- The negation is that of two's complement.
pub unzigzag : ℕ → ℕ
unzigzag value = bit_xor (value / 2) (wrapping_sub 0 (bit_and value 1))

pub shift_shrinks : (value : ℕ) → 0 < value / 128 → value / 128 < value
shift_shrinks value h = omega arith

unfoldable pub push_loop : List ℕ → (value : ℕ) → Acc ◌<◌ value → List ℕ
push_loop out value (Acc.intro _ smaller) =
    let byte = bit_and value 0x7f in
    dite (dec_lt 0 (value / 128))
      (λ more.
        push_loop (out ++ (bit_or byte 0x80 ∷ [])) (value / 128)
          (smaller _ (shift_shrinks value more)))
      (λ _. out ++ (byte ∷ []))

unfoldable pub push_varint : List ℕ → ℕ → List ℕ
unfolding lt_wf
push_varint out value = push_loop out value (lt_wf.apply value)

-- The rounds left of `for shift in 0..10`; `bits` is `7 * shift`. The value comes back with the
-- position behind it.
pub read_loop : ℕ → List ℕ → ℕ → ℕ → ℕ → Result CodecError (ℕ × ℕ)
read_loop zero bytes position bits value = err varint_too_long
read_loop (suc rounds) bytes position bits value = elim (get_elem? bytes position) [
  | none ↦ err truncated
  | some byte ↦
      let value' = bit_or value (bit_and byte 0x7f * 2 ^ bits % 2 ^ 64) in
      let rest = read_loop rounds bytes (position + 1) (bits + 7) value' in
      if bit_and byte 0x80 == 0 then ok (value', position + 1) else rest
]

pub read_varint : List ℕ → ℕ → Result CodecError (ℕ × ℕ)
read_varint bytes position = read_loop 10 bytes position 0 0

-- The loop over `values[1..]`, with its three mutable variables.
unfoldable pub encode_steps : List ℕ → ℕ → ℕ → ℕ → List ℕ → List ℕ
encode_steps [] index previous previous_delta out = out
encode_steps (value ∷ values) index previous previous_delta out =
    let delta = wrapping_sub value previous in
    let step = if index == 1 then delta else wrapping_sub delta previous_delta in
    encode_steps values (index + 1) value delta (push_varint out (zigzag step))

unfoldable pub encode_delta_of_delta : List ℕ → List ℕ
encode_delta_of_delta [] = []
encode_delta_of_delta (first ∷ values) =
    encode_steps values 1 first 0 (push_varint [] (zigzag first))

-- The rounds left of `for index in 1..count`.
pub decode_steps : ℕ → ℕ → List ℕ → ℕ → ℕ → ℕ → List ℕ → Result CodecError (List ℕ × ℕ)
decode_steps zero index bytes position value delta values = ok (values, position)
decode_steps (suc rounds) index bytes position value delta values = do
  (word, position') ← read_varint bytes position
  let step = unzigzag word
  let delta' = if index == 1 then step else wrapping_add delta step
  let value' = wrapping_add value delta'
  decode_steps rounds (index + 1) bytes position' value' delta' (values ++ (value' ∷ []))

pub decode_values : List ℕ → ℕ → Result CodecError (List ℕ × ℕ)
decode_values bytes zero = ok ([], 0)
decode_values bytes (suc rounds) = do
  (word, position) ← read_varint bytes 0
  let value = unzigzag word
  decode_steps rounds 1 bytes position value 0 (value ∷ [])

-- The final test of every decoder: all bytes are used.
abbrev pub all_used : List ℕ → List ℕ × ℕ → Result CodecError (List ℕ)
all_used bytes (values, position) =
    if position == length bytes then ok values else err (trailing_bytes (length bytes - position))

pub decode_delta_of_delta : List ℕ → ℕ → Result CodecError (List ℕ)
decode_delta_of_delta bytes count = do r ← decode_values bytes count; all_used bytes r
