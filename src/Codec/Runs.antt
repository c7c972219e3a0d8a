-- ===== src/Codec/Runs.antt =====
-- Runs of src/storage_lite/codec.rs, many of them from its own tests.
use native.Mathlib.Decide.{dec_lt}
use tally_db.Base.{
  ℕ, ◌↔◌, some, ◌-◌, ◌^◌, ◌≤◌, ◌≡◌, refl, List, [], ◌∷◌, ◌++◌, length, All, arith, ok, err, lt_wf,
}
use tally_db.Base.Word.{IsWord}
use tally_db.Codec.{zigzag, unzigzag, encode_delta_of_delta, decode_delta_of_delta}
use tally_db.Codec.{
  truncated, trailing_bytes, varint_too_long, push_varint, push_loop, read_varint, read_loop,
}
use tally_db.Codec.{encode_steps, decode_steps, decode_values}
use tally_db.Codec.RoundTrip.{decode-encode, decode-trailing}
use tally_db.Codec.{for_u32, tag, from_tag}
use tally_db.Codec.Registry.{from_tag_iff}
use tally_db.Codec.Malformed.{decode_sound, decode_truncated}
use tally_db.Codec.Size.{encode_size, encode-clock_size, clock}

abbrev one_two_three : List ℕ
one_two_three = 1 ∷ 2 ∷ 3 ∷ []

-- `i64::MIN`, `i64::MAX`, 0 and -1.
abbrev extremes : List ℕ
extremes = 2 ^ 63 ∷ (2 ^ 63 - 1) ∷ 0 ∷ (2 ^ 64 - 1) ∷ []

one_two_three_bytes : encode_delta_of_delta one_two_three ≡ 2 ∷ 2 ∷ 0 ∷ []
unfolding encode_delta_of_delta encode_steps zigzag push_varint push_loop lt_wf dec_lt
one_two_three_bytes = refl

three_bytes_decoded : decode_delta_of_delta (2 ∷ 2 ∷ 0 ∷ []) 3 ≡ ok one_two_three
unfolding decode_delta_of_delta decode_values decode_steps read_varint read_loop unzigzag
three_bytes_decoded = refl

endless_varint :
    decode_delta_of_delta (128 ∷ 128 ∷ 128 ∷ 128 ∷ 128 ∷ 128 ∷ 128 ∷ 128 ∷ 128 ∷ 128 ∷ 128 ∷ []) 1
    ≡ err varint_too_long
unfolding decode_delta_of_delta decode_values decode_steps read_varint read_loop unzigzag
endless_varint = refl

decode-encode_example : decode_delta_of_delta (encode_delta_of_delta extremes) 4 ≡ ok extremes
decode-encode_example = decode-encode extremes (omega arith)

decode-trailing_example :
    decode_delta_of_delta (encode_delta_of_delta one_two_three ++ (7 ∷ 8 ∷ [])) 3
    ≡ err (trailing_bytes 2)
decode-trailing_example = decode-trailing one_two_three 7 (8 ∷ []) (omega arith)

decode_sound_example : (length one_two_three ≡ 3) × All IsWord one_two_three
decode_sound_example = decode_sound (2 ∷ 2 ∷ 0 ∷ []) 3 one_two_three three_bytes_decoded

decode_truncated_example : decode_delta_of_delta (2 ∷ []) 3 ≡ err truncated
decode_truncated_example =
    decode_truncated one_two_three (2 ∷ []) 2 (0 ∷ []) (omega arith) one_two_three_bytes

encode_size_example :
    (4 ≤ length (encode_delta_of_delta extremes)) × (length (encode_delta_of_delta extremes) ≤ 40)
encode_size_example = encode_size extremes (omega arith)

encode-clock_size_example : length (encode_delta_of_delta (clock 1700000000000 1000 4)) ≤ 22
encode-clock_size_example = encode-clock_size 4 1700000000000 1000 (omega arith) (omega arith)

from_tag_iff_example : (from_tag 4 ≡ some for_u32) ↔ (4 ≡ tag for_u32)
from_tag_iff_example = from_tag_iff 4 for_u32
