-- ===== src/Codec/Bytes.antt =====
-- What `encode_delta_of_delta` of src/storage_lite/codec.rs writes is bytes.
use tally_db.Base.{ℕ, ◌+◌, List, [], ◌∷◌, All, All-append, arith}
use tally_db.Base.Word.{IsByte, IsWord, wrapping_sub}
use tally_db.Codec.{zigzag, encode_delta_of_delta}
use tally_db.Codec.Varint.{varint, varint-IsByte}
use tally_db.Codec.Zigzag.{zigzag-IsWord}
use tally_db.Codec.RoundTrip.{
  step_of, step_bytes, word_of, step_bytes_round, column_bytes, encode-column_bytes, step_of-IsWord,
  sub-IsWord,
}

word-IsByte : (word : ℕ) → IsWord word → All IsByte (varint 9 word)
word-IsByte word h = varint-IsByte 9 word (omega arith)

step_bytes-IsByte :
    (values : List ℕ) (index previous previous_delta : ℕ)
    → All IsByte (step_bytes values index previous previous_delta)
step_bytes-IsByte [] index previous previous_delta = unfold step_bytes in tt
step_bytes-IsByte (value ∷ values) index previous previous_delta =
    let delta = wrapping_sub value previous in
    let step = step_of index delta previous_delta in
    rw (step_bytes_round value values index previous previous_delta) (
      All-append IsByte (varint 9 (word_of index value previous previous_delta))
        (step_bytes values (index + 1) value delta)
        (word-IsByte (zigzag step) (
          zigzag-IsWord step
            (step_of-IsWord index delta previous_delta (sub-IsWord value previous))))
        (step_bytes-IsByte values (index + 1) value delta))

column_bytes-IsByte : (values : List ℕ) → All IsWord values → All IsByte (column_bytes values)
unfolding column_bytes
column_bytes-IsByte [] h = tt
column_bytes-IsByte (first ∷ values) (h, hs) =
    All-append IsByte (varint 9 (zigzag first)) (step_bytes values 1 first 0)
      (word-IsByte (zigzag first) (zigzag-IsWord first h)) (step_bytes-IsByte values 1 first 0)

pub encode-IsByte :
    (values : List ℕ) → All IsWord values → All IsByte (encode_delta_of_delta values)
encode-IsByte values h = rw (encode-column_bytes values h) (column_bytes-IsByte values h)
