-- ===== src/Interning/Codes.antt =====
-- `intern` of src/arrow_lite/key.rs: each distinct value has one code, and keeps it.
use tally_db.Base.{ℕ, zero, suc, ◌+◌, ◌≡◌, ◌≢◌, refl, sym, ◌∙◌, ap, arith, ◌↔◌, inl, inr}
use tally_db.Base.{none, some, Option-cases, List, [], ◌∷◌, ◌++◌}
use tally_db.Base.{
  length, get_elem?, get_elem?-append, get_elem?-append_left, subst, ◌⊎◌, if◌then◌else◌, ok,
}
use tally_db.Column.{Text, text_eq, Dictionary, dictionary_value}
use tally_db.Interning.{new_dictionary, lookup_code, add_value, intern}
use tally_db.Interning.Values.{text_eq_iff, ends, flat-append, ends-append, index_of, Holds}
use tally_db.Interning.Values.{dictionary_len-Holds, dictionary_value-Holds}

-- A dictionary of the distinct values `vs`: the index finds each at its place, and nothing else.
pub record IsDictionary (d : Dictionary) (vs : List Text) : Type 0 where
  pub holds : Holds d vs
  pub indexed : (v : Text) → lookup_code d.index v ≡ index_of vs v
  pub distinct : (v : Text) (c : ℕ) → get_elem? vs c ≡ some v → index_of vs v ≡ some c

pub new_dictionary-IsDictionary : IsDictionary new_dictionary []
unfolding new_dictionary lookup_code index_of
new_dictionary-IsDictionary = record {
  holds = record { offsets_lem = refl; bytes_lem = refl };
  indexed = λ v. refl;
  distinct = λ v c h. absurd (ground arith);
}

index_of-elem :
    (vs : List Text) (v : Text) (c : ℕ) → index_of vs v ≡ some c → get_elem? vs c ≡ some v
unfolding index_of
index_of-elem [] v c h = absurd (ground arith)
index_of-elem (w ∷ vs) v zero h = ground (arith, text_eq_iff w v)
index_of-elem (w ∷ vs) v (suc c) h = ground (arith, index_of-elem vs v c)

index_of-append :
    (vs : List Text) (v w : Text)
    → index_of vs v ≡ none
    → index_of (vs ++ (v ∷ [])) w ≡ (if text_eq v w then some (length vs) else index_of vs w)
unfolding index_of
index_of-append [] v w h = ground arith
index_of-append (x ∷ vs) v w h =
    ground (arith, text_eq_iff x v, text_eq_iff v w, text_eq_iff x w, index_of-append vs v w)

index_of-none : (vs : List Text) (v : Text) (c : ℕ) → index_of vs v ≡ none → get_elem? vs c ≢ some v
unfolding index_of
index_of-none [] v c h g = ground arith
index_of-none (x ∷ vs) v zero h g = ground (arith, text_eq_iff x v)
index_of-none (x ∷ vs) v (suc c) h g = ground (arith, index_of-none vs v c)

elem-append :
    (vs : List Text) (v w : Text) (c : ℕ)
    → get_elem? (vs ++ (v ∷ [])) c ≡ some w
    → (get_elem? vs c ≡ some w) ⊎ ((c ≡ length vs) × (v ≡ w))
elem-append [] v w zero h = inr (refl, ground arith)
elem-append [] v w (suc c) h = absurd (ground arith)
elem-append (x ∷ vs) v w zero h = inl h
elem-append (x ∷ vs) v w (suc c) h = elim (elem-append vs v w c h) [
  | inl g ↦ inl g
  | inr (e, f) ↦ inr (ap suc e, f)
]

module _ (d : Dictionary) (vs : List Text) (h : IsDictionary d vs) (v : Text) where
  -- What `add_value` makes of a dictionary, where it succeeds.
  add_value-parts :
      (d' : Dictionary) (c : ℕ)
      → add_value d v ≡ ok (d', c)
      → (c ≡ length vs)
        × (d'.offsets ≡ d.offsets ++ ((length d.bytes + length v) ∷ []))
        × (d'.bytes ≡ d.bytes ++ v)
        × (d'.index ≡ (v, c) ∷ d.index)
  unfolding add_value
  add_value-parts d' c e = ground (arith, dictionary_len-Holds d vs h.holds)

  add_value-Holds :
      (d' : Dictionary) (c : ℕ) → add_value d v ≡ ok (d', c) → Holds d' (vs ++ (v ∷ []))
  add_value-Holds d' c e =
      let (_, o, b, _) = add_value-parts d' c e in
      let hh = h.holds in
      record {
        offsets_lem =
            rw (o, hh.offsets_lem, hh.bytes_lem, ends-append)
              (ap (λ (k : ℕ). 0 ∷ (ends 0 vs ++ (k ∷ []))) (omega arith));
        bytes_lem = rw (b, hh.bytes_lem, flat-append);
      }

  add_value-IsDictionary :
      (d' : Dictionary) (c : ℕ)
      → index_of vs v ≡ none
      → add_value d v ≡ ok (d', c)
      → IsDictionary d' (vs ++ (v ∷ []))
  unfolding lookup_code
  add_value-IsDictionary d' c new e =
      let (at, _, _, index) = add_value-parts d' c e in
      record {
        holds = add_value-Holds d' c e;
        indexed = λ w. rw (index, index_of-append vs v w new, at, h.indexed w);
        distinct = λ w i g. elim (elem-append vs v w i g) [
          | inl old ↦
              ground (
                arith,
                index_of-append vs v w,
                index_of-none vs v i,
                text_eq_iff v w,
                h.distinct w i,
              )
          | inr (last, same) ↦ ground (arith, index_of-append vs v w, text_eq_iff v w)
        ];
      }

  -- Interning keeps a dictionary of distinct values: the new one reads the value at the returned
  -- code, and what each older code read.
  pub intern-IsDictionary :
      (d' : Dictionary) (c : ℕ)
      → intern d v ≡ ok (d', c)
      → (vs' : List Text) × IsDictionary d' vs'
        × (get_elem? vs' c ≡ some v)
        × ((i : ℕ) (w : Text) → get_elem? vs i ≡ some w → get_elem? vs' i ≡ some w)
  unfolding intern
  intern-IsDictionary d' c e = elim (Option-cases (index_of vs v)) [
    | inl new ↦
        let added : add_value d v ≡ ok (d', c) = ground (arith, h.indexed v) in
        let (at, _, _, _) = add_value-parts d' c added in
        (
          vs ++ (v ∷ []),
          add_value-IsDictionary d' c new added,
          rw at (get_elem?-append vs v []),
          λ i w. get_elem?-append_left vs (v ∷ []) i,
        )
    | inr (i, old) ↦
        let same : (d, i) ≡ (d', c) = ground (arith, h.indexed v) in
        (
          vs,
          subst (λ (p : Dictionary × ℕ). IsDictionary p.0 vs) same h,
          index_of-elem vs v c (old ∙ ap (λ (p : Dictionary × ℕ). some p.1) same),
          λ j w g. g,
        )
  ]

  -- Where a dictionary that interning built interns a value, the code that it returns reads that
  -- value, and every code that was assigned before reads what it read.
  pub intern_lem :
      (d' : Dictionary) (c : ℕ)
      → intern d v ≡ ok (d', c)
      → (dictionary_value d' c ≡ some v)
        × ((i : ℕ) (w : Text) → dictionary_value d i ≡ some w → dictionary_value d' i ≡ some w)
  intern_lem d' c e =
      let (vs', h', here, kept) = intern-IsDictionary d' c e in
      let to = dictionary_value-Holds d' vs' h'.holds in
      (to c ∙ here, λ i w g. to i ∙ kept i w (sym (dictionary_value-Holds d vs h.holds i) ∙ g))

-- Of two values that a dictionary interns one after the other, the codes agree exactly where the
-- values do.
pub intern-intern :
    (d : Dictionary) (vs : List Text) (v w : Text) (d' d'' : Dictionary) (c c' : ℕ)
    → IsDictionary d vs
    → intern d v ≡ ok (d', c)
    → intern d' w ≡ ok (d'', c')
    → (c ≡ c') ↔ (v ≡ w)
intern-intern d vs v w d' d'' c c' h e f =
    let (vs', h', here, _) = intern-IsDictionary d vs h v d' c e in
    let (vs'', h'', there, kept) = intern-IsDictionary d' vs' h' w d'' c' f in
    let still = kept c v here in
    (λ same. ground arith, λ same. ground (arith, h''.distinct v c, h''.distinct w c'))
