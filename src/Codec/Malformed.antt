-- ===== src/Codec/Malformed.antt =====
-- The decoder of src/storage_lite/codec.rs on any bytes, well formed or not.
use tally_db.Base.{ℕ, zero, suc, ◌+◌, ◌*◌, ◌%◌, ◌^◌, ◌≤◌, ◌≡◌, refl, ◌∙◌, sym}
use tally_db.Base.{if◌then◌else◌, ◌==◌, get_elem?, get_elem?-append_left, get_elem?-lt, bit_and}
use tally_db.Base.{
  List, [], ◌∷◌, ◌++◌, length, length-append, All, All-append, arith, append-nil, subst,
}
use tally_db.Base.{none, Result, ok, err, ◌>>=◌, went_on, Option-cases, ◌⊎◌, inl, inr}
use tally_db.Base.Word.{IsWord, wrapping_add}
use tally_db.Base.Bits.{bit_or-lt}
use tally_db.Codec.{CodecError, truncated, unzigzag, read_loop, read_varint}
use tally_db.Codec.{decode_steps, decode_values, decode_delta_of_delta, encode_delta_of_delta}
use tally_db.Codec.Varint.{read_round, joined}
use tally_db.Codec.Zigzag.{unzigzag-IsWord}
use tally_db.Codec.RoundTrip.{column_bytes, encode-column_bytes, decode_values-column_bytes}

read_none :
    (rounds : ℕ) (bytes : List ℕ) (position bits value : ℕ)
    → get_elem? bytes position ≡ none
    → read_loop (suc rounds) bytes position bits value ≡ err truncated
unfolding read_loop
read_none rounds bytes position bits value e = rw (e, read_loop)

-- A read either runs off the end, or does the same whatever stands behind the bytes.
Extends {ℓ} : {A : Type ℓ} → Result CodecError A → Result CodecError A → Type ℓ
Extends short long = (short ≡ err truncated) ⊎ (long ≡ short)

read_loop-Extends :
    (rounds : ℕ) (front back : List ℕ) (position bits value : ℕ)
    → Extends
        (read_loop rounds front position bits value)
        (read_loop rounds (front ++ back) position bits value)
unfolding Extends
read_loop-Extends zero front back position bits value = inr (unfold read_loop in refl)
read_loop-Extends (suc rounds) front back position bits value =
    elim (Option-cases (get_elem? front position)) [
      | inl e ↦ inl (read_none rounds front position bits value e)
      | inr (byte, e) ↦ ground (
        arith,
        read_round rounds front position bits value e,
        read_round rounds (front ++ back) position bits value
            (get_elem?-append_left front back position e),
        read_loop-Extends rounds front back (position + 1) (bits + 7) (joined value byte bits),
      )
    ]

read_varint-Extends :
    (front back : List ℕ) (position : ℕ)
    → Extends (read_varint front position) (read_varint (front ++ back) position)
unfolding read_varint
read_varint-Extends front back position = read_loop-Extends 10 front back position 0 0

joined-IsWord : (value byte bits : ℕ) → IsWord value → IsWord (joined value byte bits)
joined-IsWord value byte bits h =
    bit_or-lt 64 value (bit_and byte 0x7f * 2 ^ bits % 2 ^ 64) h (omega arith)

-- A successful read returns a word and ends inside the bytes.
read_loop-ok :
    (rounds : ℕ) (bytes : List ℕ) (position bits value word position' : ℕ)
    → IsWord value
    → read_loop rounds bytes position bits value ≡ ok (word, position')
    → IsWord word × (position' ≤ length bytes)
read_loop-ok zero bytes position bits value word position' h e = unfold read_loop in cc
read_loop-ok (suc rounds) bytes position bits value word position' h e =
    elim (Option-cases (get_elem? bytes position)) [
      | inl p ↦ cc (read_none rounds bytes position bits value p)
      | inr (byte, p) ↦ ground (
        arith,
        read_round rounds bytes position bits value p,
        get_elem?-lt bytes position p,
        joined-IsWord value byte bits h,
        read_loop-ok rounds bytes (position + 1) (bits + 7) (joined value byte bits) word position',
      )
    ]

read_varint-ok :
    (bytes : List ℕ) (position word position' : ℕ)
    → read_varint bytes position ≡ ok (word, position')
    → IsWord word × (position' ≤ length bytes)
unfolding read_varint
read_varint-ok bytes position word position' e =
    read_loop-ok 10 bytes position 0 0 word position' (omega arith) e

abbrev step_to : ℕ → ℕ → ℕ → ℕ
step_to index word delta = if index == 1 then unzigzag word else wrapping_add delta (unzigzag word)

-- A bind extends if its parts do.
Extends-bind {ℓ κ} :
    {A : Type ℓ} {B : Type κ} (short long : Result CodecError A) (f g : A → Result CodecError B)
    → Extends short long
    → ((a : A) → Extends (f a) (g a))
    → Extends (short >>= f) (long >>= g)
unfolding Extends
Extends-bind short long f g (inl e) h = inl (rw e)
Extends-bind (ok a) long f g (inr e) h = rw e (h a)
Extends-bind (err x) long f g (inr e) h = inr (rw e)

decode_steps-Extends :
    (rounds index : ℕ) (front back : List ℕ) (position value delta : ℕ) (done : List ℕ)
    → Extends
        (decode_steps rounds index front position value delta done)
        (decode_steps rounds index (front ++ back) position value delta done)
unfolding decode_steps Extends
decode_steps-Extends zero index front back position value delta done = inr refl
decode_steps-Extends (suc rounds) index front back position value delta done =
    Extends-bind (read_varint front position) (read_varint (front ++ back) position) _ _
      (read_varint-Extends front back position)
      (λ r.
        decode_steps-Extends rounds (index + 1) front back r.1
          (wrapping_add value (step_to index r.0 delta)) (step_to index r.0 delta)
          (done ++ (wrapping_add value (step_to index r.0 delta) ∷ [])))

decode_values-Extends :
    (front back : List ℕ) (count : ℕ)
    → Extends (decode_values front count) (decode_values (front ++ back) count)
decode_values-Extends front back zero = unfold decode_values Extends in inr refl
decode_values-Extends front back (suc count) =
    unfold decode_values in
    Extends-bind (read_varint front 0) (read_varint (front ++ back) 0) _ _
      (read_varint-Extends front back 0)
      (λ r. decode_steps-Extends count 1 front back r.1 (unzigzag r.0) 0 (unzigzag r.0 ∷ []))

-- What a successful run returns: the values asked for, all of them words, ending inside the bytes.
record IsDecoded (bytes : List ℕ) (count : ℕ) (values : List ℕ) (position : ℕ) : Type 0 where
  counted : length values ≡ count
  words : All IsWord values
  inside : position ≤ length bytes

decode_steps-IsDecoded :
    (rounds index : ℕ) (bytes : List ℕ) (position value delta : ℕ) (done values : List ℕ)
    (position' : ℕ)
    → position ≤ length bytes
    → All IsWord done
    → decode_steps rounds index bytes position value delta done ≡ ok (values, position')
    → IsDecoded bytes (length done + rounds) values position'
unfolding decode_steps
decode_steps-IsDecoded zero index bytes position value delta done values position' h w e = record {
  counted = ground arith;
  words = subst (All IsWord) (ground arith) w;
  inside = ground arith;
}
decode_steps-IsDecoded (suc rounds) index bytes position value delta done values position' h w e =
    let (r, read, rest) = went_on (read_varint bytes position) _ e in
    let delta' = step_to index r.0 delta in
    let value' = wrapping_add value delta' in
    let one : List ℕ = value' ∷ [] in
    let all = All-append IsWord done one w (omega arith, tt) in
    let d =
      decode_steps-IsDecoded rounds (index + 1) bytes r.1 value' delta' (done ++ one) values
        position' (read_varint-ok bytes position r.0 r.1 read).1 all rest in
    record {
      counted = omega (arith, d.counted, length-append done one);
      words = d.words;
      inside = d.inside;
    }

decode_values-IsDecoded :
    (bytes : List ℕ) (count : ℕ) (values : List ℕ) (position : ℕ)
    → decode_values bytes count ≡ ok (values, position)
    → IsDecoded bytes count values position
unfolding decode_values
decode_values-IsDecoded bytes zero values position e = record {
  counted = ground arith;
  words = subst (All IsWord) {x = []} (ground arith) tt;
  inside = ground arith;
}
decode_values-IsDecoded bytes (suc count) values position e =
    let (r, read, rest) = went_on (read_varint bytes 0) _ e in
    let (word, inside) = read_varint-ok bytes 0 r.0 r.1 read in
    let d =
      decode_steps-IsDecoded count 1 bytes r.1 (unzigzag r.0) 0 (unzigzag r.0 ∷ []) values position
        inside (unzigzag-IsWord r.0 word, tt) rest in
    record { counted = omega (arith, d.counted); words = d.words; inside = d.inside }

-- On any bytes, a successful decode returns exactly the values asked for, and each is a 64-bit word.
pub decode_sound :
    (bytes : List ℕ) (count : ℕ) (values : List ℕ)
    → decode_delta_of_delta bytes count ≡ ok values
    → (length values ≡ count) × All IsWord values
unfolding decode_delta_of_delta
decode_sound bytes count values e =
    let (r, run, last) = went_on (decode_values bytes count) _ e in
    let d = decode_values-IsDecoded bytes count r.0 r.1 run in
    let same : r.0 ≡ values = ground arith in
    (subst (λ v. length v ≡ count) same d.counted, subst (All IsWord) same d.words)

-- A prefix on which the decoder does what it does on the whole is the whole.
prefix_too_short :
    (values front : List ℕ) (x : ℕ) (back : List ℕ)
    → All IsWord values
    → encode_delta_of_delta values ≡ front ++ (x ∷ back)
    → decode_values (front ++ (x ∷ back)) (length values) ≡ decode_values front (length values)
    → ⊥
prefix_too_short values front x back h e same =
    let whole : column_bytes values ≡ front ++ (x ∷ back) =
      sym (encode-column_bytes values h) ∙ e in
    let run = rw (append-nil, whole) at (decode_values-column_bytes values [] h) in
    let d =
      decode_values-IsDecoded front (length values) values (length (front ++ (x ∷ back)))
        (sym same ∙ run) in
    omega (arith, d.inside, length-append front (x ∷ back))

-- Every proper prefix of an encoding of 64-bit words is refused as truncated.
pub decode_truncated :
    (values front : List ℕ) (x : ℕ) (back : List ℕ)
    → All IsWord values
    → encode_delta_of_delta values ≡ front ++ (x ∷ back)
    → decode_delta_of_delta front (length values) ≡ err truncated
unfolding decode_delta_of_delta Extends
decode_truncated values front x back h e =
    elim (decode_values-Extends front (x ∷ back) (length values)) [
      | inl t ↦ rw t
      | inr same ↦ absurd (prefix_too_short values front x back h e same)
    ]
