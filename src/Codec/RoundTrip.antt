-- ===== src/Codec/RoundTrip.antt =====
-- What `encode_delta_of_delta` of src/storage_lite/codec.rs writes, and that the decoder reads it back.
use native.Mathlib.Nat.{zero-add}
use tally_db.Base.{ℕ, suc, ◌+◌, ◌≡◌, refl, ◌∙◌, sym, if◌then◌else◌, ◌==◌}
use tally_db.Base.{List, [], ◌∷◌, ◌++◌, append_assoc, append-nil, length, length-append, All, arith}
use tally_db.Base.{ok, err}
use tally_db.Base.Word.{IsWord, wrapping_add, wrapping_sub, wrapping_add-sub}
use tally_db.Codec.{zigzag, unzigzag, push_varint, read_varint, trailing_bytes, all_used}
use tally_db.Codec.{
  encode_steps, encode_delta_of_delta, decode_steps, decode_values, decode_delta_of_delta,
}
use tally_db.Codec.Varint.{varint, push_varint-varint, read_varint-varint}
use tally_db.Codec.Zigzag.{zigzag-IsWord, unzigzag-zigzag}

-- The step that is written for a value, and the bytes of all later values.
abbrev pub step_of : ℕ → ℕ → ℕ → ℕ
step_of index delta previous_delta = if index == 1 then delta else wrapping_sub delta previous_delta

unfoldable pub step_bytes : List ℕ → ℕ → ℕ → ℕ → List ℕ
step_bytes [] index previous previous_delta = []
step_bytes (value ∷ values) index previous previous_delta =
    let delta = wrapping_sub value previous in
    varint 9 (zigzag (step_of index delta previous_delta))
    ++ step_bytes values (index + 1) value delta

pub step_of-IsWord :
    (index delta previous_delta : ℕ) → IsWord delta → IsWord (step_of index delta previous_delta)
step_of-IsWord index delta previous_delta h = ground arith

pub sub-IsWord : (a b : ℕ) → IsWord (wrapping_sub a b)
sub-IsWord a b = omega arith

encode_steps-step_bytes :
    (values : List ℕ) (index previous previous_delta : ℕ) (out : List ℕ)
    → encode_steps values index previous previous_delta out
      ≡ out ++ step_bytes values index previous previous_delta
unfolding encode_steps step_bytes
encode_steps-step_bytes [] index previous previous_delta out = sym (append-nil out)
encode_steps-step_bytes (value ∷ values) index previous previous_delta out =
    let delta = wrapping_sub value previous in
    let word = zigzag (step_of index delta previous_delta) in
    encode_steps-step_bytes values (index + 1) value delta (push_varint out word)
    ∙ rw (
      push_varint-varint out word
          (zigzag-IsWord _ (step_of-IsWord index delta previous_delta (sub-IsWord value previous))),
      append_assoc,
    )

-- All the bytes of a column, with no accumulator.
unfoldable pub column_bytes : List ℕ → List ℕ
column_bytes [] = []
column_bytes (first ∷ values) = varint 9 (zigzag first) ++ step_bytes values 1 first 0

pub encode-column_bytes :
    (values : List ℕ) → All IsWord values → encode_delta_of_delta values ≡ column_bytes values
unfolding encode_delta_of_delta column_bytes
encode-column_bytes [] h = refl
encode-column_bytes (first ∷ values) h =
    encode_steps-step_bytes values 1 first 0 (push_varint [] (zigzag first))
    ∙ rw (push_varint-varint [] (zigzag first) (zigzag-IsWord first h.0))

-- The decoder's step gives back the delta that the encoder had.
step_back :
    (index delta previous_delta : ℕ)
    → IsWord delta
    → IsWord previous_delta
    → (if index == 1
        then step_of index delta previous_delta
        else wrapping_add previous_delta (step_of index delta previous_delta))
      ≡ delta
step_back index delta previous_delta h k = ground arith

abbrev next_delta : ℕ → ℕ → ℕ → ℕ
next_delta index step delta = if index == 1 then step else wrapping_add delta step

decode_round :
    (rounds index : ℕ) (bytes : List ℕ) (position value delta : ℕ) (done : List ℕ)
    {word position' : ℕ}
    → read_varint bytes position ≡ ok (word, position')
    → decode_steps (suc rounds) index bytes position value delta done
      ≡ decode_steps rounds
          (index + 1)
          bytes
          position'
          (wrapping_add value (next_delta index (unzigzag word) delta))
          (next_delta index (unzigzag word) delta)
          (done ++ (wrapping_add value (next_delta index (unzigzag word) delta) ∷ []))
unfolding decode_steps
decode_round rounds index bytes position value delta done e = rw (e, decode_steps)

-- The word that is written for a value.
abbrev pub word_of : ℕ → ℕ → ℕ → ℕ → ℕ
word_of index value previous previous_delta =
    zigzag (step_of index (wrapping_sub value previous) previous_delta)

pub step_bytes_round :
    (value : ℕ) (values : List ℕ) (index previous previous_delta : ℕ)
    → step_bytes (value ∷ values) index previous previous_delta
      ≡ varint 9 (word_of index value previous previous_delta)
        ++ step_bytes values (index + 1) value (wrapping_sub value previous)
unfolding step_bytes
step_bytes_round value values index previous previous_delta = refl

module _ (index value previous previous_delta : ℕ) (hv : IsWord value) (hp : IsWord previous)
    (hd : IsWord previous_delta) where
  word_of-IsWord : IsWord (word_of index value previous previous_delta)
  word_of-IsWord = zigzag-IsWord _ (
      step_of-IsWord index (wrapping_sub value previous) previous_delta (sub-IsWord value previous))

  -- The decoder comes back to the delta and the value that the encoder had.
  delta_back :
      next_delta index (unzigzag (word_of index value previous previous_delta)) previous_delta
      ≡ wrapping_sub value previous
  delta_back =
      rw
        (unzigzag-zigzag _ (
          step_of-IsWord index (wrapping_sub value previous) previous_delta
            (sub-IsWord value previous)))
        (step_back index (wrapping_sub value previous) previous_delta (sub-IsWord value previous)
          hd)

  decode_round_back :
      (rounds : ℕ) (before after done : List ℕ)
      → let b = varint 9 (word_of index value previous previous_delta) in
        decode_steps
          (suc rounds)
          index
          (before ++ (b ++ after))
          (length before)
          previous
          previous_delta
          done
        ≡ decode_steps rounds
            (index + 1)
            (before ++ (b ++ after))
            (length before + length b)
            value
            (wrapping_sub value previous)
            (done ++ (value ∷ []))
  decode_round_back rounds before after done =
      let word = word_of index value previous previous_delta in
      decode_round rounds index (before ++ (varint 9 word ++ after)) (length before) previous
        previous_delta done (read_varint-varint before after word word_of-IsWord)
      ∙ rw (delta_back, wrapping_add-sub value previous hv hp)

decode_steps-step_bytes :
    (values : List ℕ) (index previous previous_delta : ℕ) (before after done : List ℕ)
    → All IsWord values
    → IsWord previous
    → IsWord previous_delta
    → decode_steps
        (length values)
        index
        (before ++ (step_bytes values index previous previous_delta ++ after))
        (length before)
        previous
        previous_delta
        done
      ≡ ok
          (done ++ values, length before + length (step_bytes values index previous previous_delta))
decode_steps-step_bytes [] index previous previous_delta before after done h hp hd =
    unfold decode_steps step_bytes in rw append-nil (ground arith)
decode_steps-step_bytes (value ∷ values) index previous previous_delta before after done h hp hd =
    let d = wrapping_sub value previous in
    let b = varint 9 (word_of index value previous previous_delta) in
    let rest = step_bytes values (index + 1) value d in
    rw (step_bytes_round value values index previous previous_delta) (
      ground (
        arith,
        append_assoc b rest after,
        append_assoc before b (rest ++ after),
        append_assoc done (value ∷ []) values,
        length-append before b,
        length-append b rest,
        decode_round_back index value previous previous_delta h.0 hp hd (length values) before
            (rest ++ after) done,
        decode_steps-step_bytes values (index + 1) value d (before ++ b) after
            (done ++ (value ∷ [])) h.1 h.0 (sub-IsWord value previous),
      ))

-- Whatever follows the column, the decoder reads the values and stops right behind it.
pub decode_values-column_bytes :
    (values after : List ℕ)
    → All IsWord values
    → decode_values (column_bytes values ++ after) (length values)
      ≡ ok (values, length (column_bytes values))
decode_values-column_bytes [] after h = unfold decode_values column_bytes in refl
decode_values-column_bytes (first ∷ values) after h =
    unfold decode_values column_bytes in
    rw
      (
        append_assoc,
        read_varint-varint [] (step_bytes values 1 first 0 ++ after) (zigzag first)
            (zigzag-IsWord first h.0),
        unzigzag-zigzag first h.0,
        zero-add,
        length-append,
      )
      (decode_steps-step_bytes values 1 first 0 (varint 9 (zigzag first)) after (first ∷ []) h.1 h.0
        (omega arith))

pub decode-all_used :
    (bytes : List ℕ) (count : ℕ) {r : List ℕ × ℕ}
    → decode_values bytes count ≡ ok r
    → decode_delta_of_delta bytes count ≡ all_used bytes r
unfolding decode_delta_of_delta
decode-all_used bytes count e = rw e

decode-encode_extra :
    (values extra : List ℕ)
    → All IsWord values
    → decode_delta_of_delta (encode_delta_of_delta values ++ extra) (length values)
      ≡ (if length extra == 0 then ok values else err (trailing_bytes (length extra)))
decode-encode_extra values extra h = rw (encode-column_bytes values h) (
    decode-all_used (column_bytes values ++ extra) (length values)
      (decode_values-column_bytes values extra h)
    ∙ ground (arith, length-append (column_bytes values) extra))

-- Decoding the encoding of any 64-bit words with their count gives the words back, whatever wraps.
pub decode-encode :
    (values : List ℕ)
    → All IsWord values
    → decode_delta_of_delta (encode_delta_of_delta values) (length values) ≡ ok values
decode-encode values h =
    rw (append-nil (encode_delta_of_delta values)) at (decode-encode_extra values [] h)

-- Bytes behind the encoding of 64-bit words are refused, and the error counts them.
pub decode-trailing :
    (values : List ℕ) (x : ℕ) (extra : List ℕ)
    → All IsWord values
    → decode_delta_of_delta (encode_delta_of_delta values ++ (x ∷ extra)) (length values)
      ≡ err (trailing_bytes (length extra + 1))
decode-trailing values x extra h = ground (arith, decode-encode_extra values (x ∷ extra) h)
