-- ===== src/Interning/Values.antt =====
-- What a dictionary holds: a list of distinct values, of which the offsets and the bytes are one
-- encoding and the index another.
use native.Mathlib.Nat.{add-zero}
use native.Mathlib.Numerals.{add-one}
use native.Mathlib.Decide.{dec_lt}
use tally_db.Base.{ℕ, zero, suc, ◌+◌, ◌-◌, ◌≤◌, ◌<◌, ◌≡◌, refl, sym, ◌∙◌, ap, arith, ◌↔◌}
use tally_db.Base.{true, Option, none, some, List, [], ◌∷◌, ◌++◌, append-nil, append_assoc}
use tally_db.Base.{length, length-append, get_elem?, take, drop, if◌then◌else◌}
use tally_db.Column.{Text, text_eq, Dictionary, dictionary_len, dictionary_value}

pub text_eq_iff : (s t : Text) → (text_eq s t ≡ true) ↔ (s ≡ t)
unfolding text_eq
text_eq_iff [] [] = ground arith
text_eq_iff [] (b ∷ t) = ground arith
text_eq_iff (a ∷ s) [] = ground arith
text_eq_iff (a ∷ s) (b ∷ t) = ground (arith, text_eq_iff s t)

-- The bytes of the values, one behind the other, and where each ends.
abbrev pub flat : List Text → List ℕ
flat [] = []
flat (v ∷ vs) = v ++ flat vs

abbrev pub ends : ℕ → List Text → List ℕ
ends n [] = []
ends n (v ∷ vs) = (n + length v) ∷ ends (n + length v) vs

-- The first place of a value.
unfoldable pub index_of : List Text → Text → Option ℕ
index_of [] value = none
index_of (v ∷ vs) value =
    if text_eq v value
    then some 0
    else elim (index_of vs value) [ none ↦ none | some i ↦ some (i + 1) ]

length-ends : (n : ℕ) (vs : List Text) → length (ends n vs) ≡ length vs
length-ends n [] = refl
length-ends n (v ∷ vs) = ap suc (length-ends (n + length v) vs)

pub flat-append : (vs : List Text) (v : Text) → flat (vs ++ (v ∷ [])) ≡ flat vs ++ v
flat-append [] v = append-nil v
flat-append (w ∷ vs) v = ap (λ l. w ++ l) (flat-append vs v) ∙ sym (append_assoc w (flat vs) v)

pub ends-append :
    (n : ℕ) (vs : List Text) (v : Text)
    → ends n (vs ++ (v ∷ [])) ≡ ends n vs ++ ((n + length (flat vs) + length v) ∷ [])
ends-append n [] v = ap (λ (k : ℕ). (k + length v) ∷ []) (sym (add-zero n))
ends-append n (w ∷ vs) v =
    ap (λ l. (n + length w) ∷ l)
      (ends-append (n + length w) vs v
        ∙ ap (λ (k : ℕ). ends (n + length w) vs ++ (k ∷ []))
            (omega (arith, length-append {0} w (flat vs))))

drop_past : (pre rest : List ℕ) (n : ℕ) → n ≡ length pre → drop n (pre ++ rest) ≡ rest
drop_past [] rest n e = rw e
drop_past (a ∷ pre) rest n e = rw e (drop_past pre rest (length pre) refl)

take_front : (v rest : List ℕ) (n : ℕ) → n ≡ length v → take n (v ++ rest) ≡ v
take_front [] rest n e = rw e
take_front (a ∷ v) rest n e = rw e (ap (λ l. a ∷ l) (take_front v rest (length v) refl))

-- A dictionary that holds the values.
pub record Holds (d : Dictionary) (vs : List Text) : Type 0 where
  pub offsets_lem : d.offsets ≡ 0 ∷ ends 0 vs
  pub bytes_lem : d.bytes ≡ flat vs

-- Both bounds of the value at a place, and the bytes between them.
value_between :
    (pre : List ℕ) (vs : List Text) (n c : ℕ) (v : Text)
    → n ≡ length pre
    → get_elem? vs c ≡ some v
    → (start : ℕ) × (end : ℕ) × (get_elem? (n ∷ ends n vs) c ≡ some start)
      × (get_elem? (n ∷ ends n vs) (suc c) ≡ some end)
      × (start ≤ end)
      × (end ≤ length pre + length (flat vs))
      × (take (end - start) (drop start (pre ++ flat vs)) ≡ v)
value_between pre [] n c v e g = absurd (ground arith)
value_between pre (w ∷ vs) n zero v e g =
    let same : w ≡ v = ground arith in
    (
      n,
      n + length w,
      refl,
      refl,
      omega arith,
      omega (arith, length-append {0} w (flat vs)),
      rw (drop_past pre (w ++ flat vs) n e)
          (take_front w (flat vs) (n + length w - n) (omega arith) ∙ same),
    )
value_between pre (w ∷ vs) n (suc c) v e g =
    let (start, end, g1, g2, le, inside, t) =
      value_between (pre ++ w) vs (n + length w) c v (omega (arith, length-append {0} pre w)) g in
    (
      start,
      end,
      g1,
      g2,
      le,
      omega (arith, length-append {0} pre w, length-append {0} w (flat vs)),
      ap (λ b. take (end - start) (drop start b)) (sym (append_assoc pre w (flat vs))) ∙ t,
    )

get_elem?_past : (vs : List Text) (c : ℕ) → length vs ≤ c → get_elem? vs c ≡ none
get_elem?_past [] c h = refl
get_elem?_past (v ∷ vs) zero h = absurd (omega arith)
get_elem?_past (v ∷ vs) (suc c) h = get_elem?_past vs c (omega arith)

get_elem?_within : (vs : List Text) (c : ℕ) → c < length vs → (v : Text) × (get_elem? vs c ≡ some v)
get_elem?_within [] c h = absurd (omega arith)
get_elem?_within (v ∷ vs) zero h = (v, refl)
get_elem?_within (v ∷ vs) (suc c) h = get_elem?_within vs c (omega arith)

module _ (d : Dictionary) (vs : List Text) (h : Holds d vs) where
  pub dictionary_len-Holds : dictionary_len d ≡ length vs
  unfolding dictionary_len
  dictionary_len-Holds = rw (h.offsets_lem) (omega (arith, length-ends 0 vs))

  -- A code reads the value at its place, and a code that was never assigned reads none.
  pub dictionary_value-Holds : (c : ℕ) → dictionary_value d c ≡ get_elem? vs c
  unfolding dictionary_value
  dictionary_value-Holds c = elim (dec_lt c (length vs)) [
    | yes p ↦
        let (v, g) = get_elem?_within vs c p in
        let (start, end, g1, g2, le, inside, t) = value_between [] vs 0 c v refl g in
        rw (dictionary_len-Holds, h.offsets_lem, h.bytes_lem, add-one, g1, g2, g) (ground arith)
    | no p ↦ rw (dictionary_len-Holds, get_elem?_past vs c (omega arith)) (ground arith)
  ]
