-- ===== src/Codec/Varint.antt =====
-- The varints of src/storage_lite/codec.rs: what `push_varint` writes and `read_varint` reads.
use native.Mathlib.Numerals.{towards_suc}
use native.Mathlib.Nat.{div-add-mod}
use mathlib.Core.WellFounded.{Acc}
use native.Mathlib.Decide.{dec_lt}
use tally_db.Base.{ℕ, zero, suc, ◌+◌, ◌*◌, ◌/◌, ◌%◌, ◌^◌, ◌≤◌, ◌<◌, ◌≡◌, refl, ap}
use tally_db.Base.{List, [], ◌∷◌, ◌++◌, append_assoc, length, length-append, All, arith}
use tally_db.Base.{get_elem?, get_elem?-append, bit_and, bit_or, ltb, if◌then◌else◌, lt_wf}
use tally_db.Base.{some, ok, ◌==◌}
use tally_db.Base.Word.{IsByte, IsWord}
use tally_db.Base.Bits.{bit_and_mask, bit_or_shifted, bit_and_single}
use tally_db.Codec.{push_loop, push_varint, read_loop, read_varint}

-- The groups of seven digits of a value below 128 ^ (k + 1), lowest first.
unfoldable pub varint : ℕ → ℕ → List ℕ
varint zero value = value ∷ []
varint (suc k) value =
    let rest = varint k (value / 128) in
    if ltb value 128 then value ∷ [] else (value % 128 + 128) ∷ rest

low_group : (a : ℕ) → bit_and a 0x7f ≡ a % 128
low_group a = bit_and_mask 7 a

more_flag : (a : ℕ) → a < 128 → bit_or a 0x80 ≡ a + 128
more_flag a h = bit_or_shifted 7 1 a h

push_loop-varint :
    (k : ℕ) (out : List ℕ) (value : ℕ) (w : Acc ◌<◌ value)
    → value < 128 ^ suc k
    → push_loop out value w ≡ out ++ varint k value
unfolding push_loop varint
push_loop-varint zero out value (Acc.intro _ smaller) h = ground (arith, low_group value)
push_loop-varint (suc k) out value (Acc.intro _ smaller) h =
    let group : List ℕ = (value % 128 + 128) ∷ [] in
    grind (
      arith,
      low_group value,
      more_flag (value % 128),
      push_loop-varint k (out ++ group) (value / 128),
      append_assoc out group (varint k (value / 128)),
    )

-- On a word, `push_varint` keeps the buffer and appends the groups.
pub push_varint-varint :
    (out : List ℕ) (value : ℕ) → IsWord value → push_varint out value ≡ out ++ varint 9 value
unfolding push_varint
push_varint-varint out value h = push_loop-varint 9 out value (lt_wf.apply value) (omega arith)

pub length-varint :
    (k value : ℕ) → (1 ≤ length (varint k value)) × (length (varint k value) ≤ k + 1)
unfolding varint
length-varint zero value = omega arith
length-varint (suc k) value = ground (arith, length-varint k (value / 128))

pub varint-IsByte : (k value : ℕ) → value < 128 ^ suc k → All IsByte (varint k value)
unfolding varint
varint-IsByte zero value h = omega arith
varint-IsByte (suc k) value h = ground (arith, varint-IsByte k (value / 128) (omega arith))

-- The top bit of a byte.
top_flag : (b : ℕ) → b < 256 → bit_and b 0x80 ≡ b / 128 * 128
top_flag b h = omega (arith, bit_and_single 7 b)

-- What a round of `read_loop` does to the value: the group joins above the digits read so far.
join_group :
    (value g bits : ℕ)
    → value < 2 ^ bits
    → value + g * 2 ^ bits < 2 ^ 64
    → bit_or value (g * 2 ^ bits % 2 ^ 64) ≡ value + g * 2 ^ bits
join_group value g bits h k = ground (arith, bit_or_shifted bits g value h)

pow-seven : (bits : ℕ) → 2 ^ (bits + 7) ≡ 128 * 2 ^ bits
pow-seven bits = simp towards_suc (omega arith)

join_bound : (value g bits : ℕ) → g < 128 → value < 2 ^ bits → value + g * 2 ^ bits < 2 ^ (bits + 7)
join_bound value g bits h k = rw pow-seven (grind arith)

split_group : (v bits : ℕ) → v * 2 ^ bits ≡ v % 128 * 2 ^ bits + v / 128 * 2 ^ (bits + 7)
split_group v bits = omega (
  arith,
  ap (λ (t : ℕ). t * 2 ^ bits) (div-add-mod v 128),
  ap (λ (t : ℕ). v / 128 * t) (pow-seven bits),
)

abbrev pub joined : ℕ → ℕ → ℕ → ℕ
joined value byte bits = bit_or value (bit_and byte 0x7f * 2 ^ bits % 2 ^ 64)

-- One round of `read_loop` where there is a byte.
pub read_round :
    (rounds : ℕ) (bytes : List ℕ) (position bits value : ℕ) {byte : ℕ}
    → get_elem? bytes position ≡ some byte
    → read_loop (suc rounds) bytes position bits value ≡ (
        if bit_and byte 0x80 == 0
        then ok (joined value byte bits, position + 1)
        else read_loop rounds bytes (position + 1) (bits + 7) (joined value byte bits))
unfolding read_loop
read_round rounds bytes position bits value e = rw (e, read_loop)

module _ (rounds : ℕ) (before after : List ℕ) (g bits value : ℕ) where
  -- One round on a byte with the top bit clear, and on one with it set.
  read_last :
      g < 128
      → value < 2 ^ bits
      → value + g * 2 ^ bits < 2 ^ 64
      → read_loop (suc rounds) (before ++ (g ∷ after)) (length before) bits value
        ≡ ok (value + g * 2 ^ bits, length before + 1)
  read_last hg hv fits = ground (
    arith,
    read_round rounds (before ++ (g ∷ after)) (length before) bits value
        (get_elem?-append before g after),
    low_group g,
    top_flag g,
    join_group value g bits,
  )

  read_more :
      g < 128
      → value < 2 ^ bits
      → value + g * 2 ^ bits < 2 ^ 64
      → read_loop (suc rounds) (before ++ ((g + 128) ∷ after)) (length before) bits value
        ≡ read_loop rounds
            (before ++ ((g + 128) ∷ after))
            (length before + 1)
            (bits + 7)
            (value + g * 2 ^ bits)
  read_more hg hv fits = ground (
    arith,
    read_round rounds (before ++ ((g + 128) ∷ after)) (length before) bits value
        (get_elem?-append before (g + 128) after),
    low_group (g + 128),
    top_flag (g + 128),
    join_group value g bits,
  )

pub varint_last : (k w : ℕ) → w < 128 → varint k w ≡ w ∷ []
unfolding varint
varint_last zero w h = refl
varint_last (suc k) w h = ground arith

varint_more : (k w : ℕ) → 128 ≤ w → varint (suc k) w ≡ (w % 128 + 128) ∷ varint k (w / 128)
unfolding varint
varint_more k w h = ground arith

-- `w` is what is still to be read, and it counts from digit `bits` on.
read_loop-varint :
    (k rounds w bits value : ℕ) (before after : List ℕ)
    → w < 128 ^ suc k
    → k < rounds
    → value < 2 ^ bits
    → value + w * 2 ^ bits < 2 ^ 64
    → read_loop rounds (before ++ (varint k w ++ after)) (length before) bits value
      ≡ ok (value + w * 2 ^ bits, length before + length (varint k w))
read_loop-varint k zero w bits value before after hw hk hv fits = absurd (omega arith)
read_loop-varint zero (suc rounds) w bits value before after hw hk hv fits =
    rw (varint_last zero w (omega arith))
      (read_last rounds before after w bits value (omega arith) hv fits)
read_loop-varint (suc k) (suc rounds) w bits value before after hw hk hv fits =
    elim (dec_lt w 128) [
      | yes p ↦ rw (varint_last (suc k) w p) (read_last rounds before after w bits value p hv fits)
      | no p ↦ rw (varint_more k w (omega arith)) (
          ground (
            arith,
            read_more rounds before (varint k (w / 128) ++ after) (w % 128) bits value,
            append_assoc before ((w % 128 + 128) ∷ []) (varint k (w / 128) ++ after),
            length-append before ((w % 128 + 128) ∷ []),
            split_group w bits,
            pow-seven bits,
            join_bound value (w % 128) bits,
            read_loop-varint k rounds (w / 128) (bits + 7) (value + w % 128 * 2 ^ bits)
                (before ++ ((w % 128 + 128) ∷ [])) after,
          ))
    ]

-- `read_varint` reads back the word that `push_varint` wrote behind any prefix, and stops right
-- behind it, whatever follows.
pub read_varint-varint :
    (before after : List ℕ) (value : ℕ)
    → IsWord value
    → read_varint (before ++ (varint 9 value ++ after)) (length before)
      ≡ ok (value, length before + length (varint 9 value))
unfolding read_varint
read_varint-varint before after value h =
    ground (arith, read_loop-varint 9 10 value 0 0 before after)
