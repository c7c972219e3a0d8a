-- ===== src/Codec/Size.antt =====
-- How many bytes `encode_delta_of_delta` of src/storage_lite/codec.rs writes.
use tally_db.Base.{ℕ, zero, suc, ◌+◌, ◌*◌, ◌≤◌, ◌≡◌, refl, sym}
use tally_db.Base.{List, [], ◌∷◌, ◌++◌, length, length-append, All, arith, subst}
use tally_db.Base.Word.{IsWord, wrapping_add, wrapping_sub}
use tally_db.Codec.{zigzag, encode_delta_of_delta}
use tally_db.Codec.Varint.{varint, length-varint, varint_last}
use tally_db.Codec.Zigzag.{zigzag-eq}
use tally_db.Codec.RoundTrip.{
  step_of, step_bytes, word_of, step_bytes_round, column_bytes, encode-column_bytes,
}

step_bytes_size :
    (values : List ℕ) (index previous previous_delta : ℕ)
    → (length values ≤ length (step_bytes values index previous previous_delta))
      × (length (step_bytes values index previous previous_delta) ≤ 10 * length values)
step_bytes_size [] index previous previous_delta = unfold step_bytes in omega arith
step_bytes_size (value ∷ values) index previous previous_delta =
    let b = varint 9 (word_of index value previous previous_delta) in
    let d = wrapping_sub value previous in
    rw (step_bytes_round value values index previous previous_delta) (
      omega (
        arith,
        length-append b (step_bytes values (index + 1) value d),
        length-varint 9 (word_of index value previous previous_delta),
        step_bytes_size values (index + 1) value d,
      ))

-- A column of n 64-bit words takes at least n and at most 10 * n bytes.
pub encode_size :
    (values : List ℕ)
    → All IsWord values
    → (length values ≤ length (encode_delta_of_delta values))
      × (length (encode_delta_of_delta values) ≤ 10 * length values)
encode_size values h = rw (encode-column_bytes values h) (column values)
  where
    column :
        (vs : List ℕ)
        → (length vs ≤ length (column_bytes vs)) × (length (column_bytes vs) ≤ 10 * length vs)
    column [] = unfold column_bytes in omega arith
    column (v ∷ vs) =
        unfold column_bytes in
        omega (
          arith,
          length-append (varint 9 (zigzag v)) (step_bytes vs 1 v 0),
          length-varint 9 (zigzag v),
          step_bytes_size vs 1 v 0,
        )

-- A clock: each value is the last one plus the cadence, with wrapping.
abbrev pub clock : ℕ → ℕ → ℕ → List ℕ
clock first cadence zero = []
clock first cadence (suc n) = first ∷ clock (wrapping_add first cadence) cadence n

clock-IsWord : (first cadence n : ℕ) → IsWord first → All IsWord (clock first cadence n)
clock-IsWord first cadence zero h = tt
clock-IsWord first cadence (suc n) h =
    (h, clock-IsWord (wrapping_add first cadence) cadence n (omega arith))

regained : (a c : ℕ) → IsWord a → IsWord c → wrapping_sub (wrapping_add a c) a ≡ c
regained a c h k = omega arith

zero_step :
    (index delta previous : ℕ)
    → IsWord delta
    → IsWord previous
    → 2 ≤ index
    → word_of index (wrapping_add previous delta) previous delta ≡ 0
zero_step index delta previous h p k =
    let none_left : step_of index delta delta ≡ 0 = ground arith in
    rw (regained previous delta p h, none_left) (ground (arith, zigzag-eq 0 (omega arith)))

-- From the second delta on, a clock costs one byte a value.
steady_size :
    (n index previous cadence : ℕ)
    → IsWord previous
    → IsWord cadence
    → 2 ≤ index
    → length (step_bytes (clock (wrapping_add previous cadence) cadence n) index previous cadence)
      ≡ n
steady_size zero index previous cadence hp hc hi = unfold step_bytes in refl
steady_size (suc n) index previous cadence hp hc hi =
    let next = wrapping_add previous cadence in
    rw
      (
        step_bytes_round next (clock (wrapping_add next cadence) cadence n) index previous cadence,
        zero_step index cadence previous hc hp hi,
        regained previous cadence hp hc,
        varint_last 9 0 (omega arith),
      )
      (omega (arith, steady_size n (index + 1) next cadence (omega arith) hc (omega arith)))

clock_size :
    (n first cadence : ℕ)
    → IsWord first
    → IsWord cadence
    → length (column_bytes (clock first cadence n)) ≤ n + 18
clock_size zero first cadence h k = unfold column_bytes in omega arith
clock_size (suc zero) first cadence h k =
    unfold column_bytes step_bytes in
    omega (arith, length-append (varint 9 (zigzag first)) [], length-varint 9 (zigzag first))
clock_size (suc (suc n)) first cadence h k =
    let next = wrapping_add first cadence in
    let b = varint 9 (zigzag first) in
    let d = varint 9 (word_of 1 next first 0) in
    let rest =
      step_bytes (clock (wrapping_add next cadence) cadence n) 2 next (wrapping_sub next first) in
    unfold column_bytes in
    rw (step_bytes_round next (clock (wrapping_add next cadence) cadence n) 1 first 0) (
      omega (
        arith,
        length-append b (d ++ rest),
        length-append d rest,
        length-varint 9 (zigzag first),
        length-varint 9 (word_of 1 next first 0),
        subst (λ c. length (step_bytes (clock (wrapping_add next cadence) cadence n) 2 next c) ≡ n)
            (sym (regained first cadence h k))
            (steady_size n 2 next cadence (omega arith) k (omega arith)),
      ))

-- A column that keeps one cadence takes one byte for each value, and at most 18 bytes more.
pub encode-clock_size :
    (n first cadence : ℕ)
    → IsWord first
    → IsWord cadence
    → length (encode_delta_of_delta (clock first cadence n)) ≤ n + 18
encode-clock_size n first cadence h k =
    rw (encode-column_bytes _ (clock-IsWord first cadence n h)) (clock_size n first cadence h k)
