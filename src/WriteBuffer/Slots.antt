-- ===== src/WriteBuffer/Slots.antt =====
-- One column of a write buffer, src/storage_lite/mem.rs: what its builder holds is read back from
-- the column that it becomes.
use tally_db.Base.{ℕ, zero, suc, ◌≡◌, refl, ap, arith, inl, inr, subst}
use tally_db.Base.{Bool, true, false, not, Bool-cases, some, List, [], ◌∷◌, ◌++◌}
use tally_db.Base.{length, get_elem?, get_elem?-lt, get_elem?-map, ltb, if◌then◌else◌, ok}
use tally_db.Bitmap.FromBools.{get-from_bools}
use tally_db.Column.{Text, slot_valid}
use tally_db.Interning.Codes.{IsDictionary}
use tally_db.WriteBuffer.{RowValue, f64_value, i64_value, key_value, null_value}
use tally_db.WriteBuffer.{Builder, f64_builder, i64_builder, key_builder, validity, any_null}

module _ {F : Type 0} where
  -- What values and null flags stand for.
  abbrev pub slots {ℓ} : {A : Type ℓ} → (A → RowValue F) → List A → List Bool → List (RowValue F)
  slots wrap (v ∷ values) (n ∷ nulls) = (if n then null_value else wrap v) ∷ slots wrap values nulls
  slots wrap _ _ = []

  -- What codes, null flags and distinct values stand for; a code that is not null is in range.
  abbrev pub KeySlots : List Text → List ℕ → List Bool → List (RowValue F) → Type 0
  KeySlots vs (c ∷ codes) (true ∷ nulls) (null_value ∷ cells) = KeySlots vs codes nulls cells
  KeySlots vs (c ∷ codes) (false ∷ nulls) (key_value v ∷ cells) =
      (get_elem? vs c ≡ some v) × KeySlots vs codes nulls cells
  KeySlots vs [] [] [] = Unit
  KeySlots vs _ _ _ = ⊥

  abbrev pub BuilderHolds : Builder F → List (RowValue F) → Type 0
  BuilderHolds (f64_builder values nulls) cells =
      (length nulls ≡ length values) × (slots f64_value values nulls ≡ cells)
  BuilderHolds (i64_builder values nulls) cells =
      (length nulls ≡ length values) × (slots i64_value values nulls ≡ cells)
  BuilderHolds (key_builder codes nulls dictionary) cells =
      (vs : List Text) × IsDictionary dictionary vs × KeySlots vs codes nulls cells

  pub slots-append {ℓ} :
      {A : Type ℓ} (wrap : A → RowValue F) (values : List A) (nulls : List Bool) (v : A) (n : Bool)
      → length nulls ≡ length values
      → slots wrap (values ++ (v ∷ [])) (nulls ++ (n ∷ []))
        ≡ slots wrap values nulls ++ ((if n then null_value else wrap v) ∷ [])
  slots-append wrap [] [] v n e = refl
  slots-append wrap [] (m ∷ nulls) v n e = absurd (omega arith)
  slots-append wrap (w ∷ values) [] v n e = absurd (omega arith)
  slots-append wrap (w ∷ values) (m ∷ nulls) v n e =
      ap (λ l. (if m then null_value else wrap w) ∷ l)
        (slots-append wrap values nulls v n (omega arith))

  pub slots-at {ℓ} :
      {A : Type ℓ} (wrap : A → RowValue F) (values : List A) (nulls : List Bool) (i : ℕ)
      (cell : RowValue F)
      → get_elem? (slots wrap values nulls) i ≡ some cell
      → (v : A) × (n : Bool) × (get_elem? values i ≡ some v)
        × (get_elem? nulls i ≡ some n)
        × ((if n then null_value else wrap v) ≡ cell)
  slots-at wrap [] nulls i cell h = absurd (ground arith)
  slots-at wrap (v ∷ values) [] i cell h = absurd (ground arith)
  slots-at wrap (v ∷ values) (n ∷ nulls) zero cell h = (v, n, refl, refl, ground arith)
  slots-at wrap (v ∷ values) (n ∷ nulls) (suc i) cell h = slots-at wrap values nulls i cell h

  -- More distinct values at the end change no code.
  pub KeySlots-more :
      (vs vs' : List Text) (codes : List ℕ) (nulls : List Bool) (cells : List (RowValue F))
      → ((i : ℕ) (w : Text) → get_elem? vs i ≡ some w → get_elem? vs' i ≡ some w)
      → KeySlots vs codes nulls cells
      → KeySlots vs' codes nulls cells
  KeySlots-more vs vs' [] [] [] more h = tt
  KeySlots-more vs vs' (c ∷ codes) (true ∷ nulls) (null_value ∷ cells) more h =
      KeySlots-more vs vs' codes nulls cells more h
  KeySlots-more vs vs' (c ∷ codes) (false ∷ nulls) (key_value v ∷ cells) more h =
      (more c v h.0, KeySlots-more vs vs' codes nulls cells more h.1)
  KeySlots-more vs vs' codes nulls cells more h = absurd h

  pub KeySlots-append_key :
      (vs : List Text) (codes : List ℕ) (nulls : List Bool) (cells : List (RowValue F)) (c : ℕ)
      (v : Text)
      → KeySlots vs codes nulls cells
      → get_elem? vs c ≡ some v
      → KeySlots vs (codes ++ (c ∷ [])) (nulls ++ (false ∷ [])) (cells ++ (key_value v ∷ []))
  KeySlots-append_key vs [] [] [] c v h g = (g, tt)
  KeySlots-append_key vs (d ∷ codes) (true ∷ nulls) (null_value ∷ cells) c v h g =
      KeySlots-append_key vs codes nulls cells c v h g
  KeySlots-append_key vs (d ∷ codes) (false ∷ nulls) (key_value w ∷ cells) c v h g =
      (h.0, KeySlots-append_key vs codes nulls cells c v h.1 g)
  KeySlots-append_key vs codes nulls cells c v h g = absurd h

  pub KeySlots-append_null :
      (vs : List Text) (codes : List ℕ) (nulls : List Bool) (cells : List (RowValue F))
      → KeySlots vs codes nulls cells
      → KeySlots vs (codes ++ (0 ∷ [])) (nulls ++ (true ∷ [])) (cells ++ (null_value ∷ []))
  KeySlots-append_null vs [] [] [] h = tt
  KeySlots-append_null vs (d ∷ codes) (true ∷ nulls) (null_value ∷ cells) h =
      KeySlots-append_null vs codes nulls cells h
  KeySlots-append_null vs (d ∷ codes) (false ∷ nulls) (key_value w ∷ cells) h =
      (h.0, KeySlots-append_null vs codes nulls cells h.1)
  KeySlots-append_null vs codes nulls cells h = absurd h

  -- What a slot of a key column stands for.
  abbrev pub KeySlot : List Text → ℕ → Bool → RowValue F → Type 0
  KeySlot vs c true null_value = Unit
  KeySlot vs c false (key_value v) = get_elem? vs c ≡ some v
  KeySlot vs c _ _ = ⊥

  pub KeySlots-at :
      (vs : List Text) (codes : List ℕ) (nulls : List Bool) (cells : List (RowValue F)) (i : ℕ)
      (cell : RowValue F)
      → KeySlots vs codes nulls cells
      → get_elem? cells i ≡ some cell
      → (c : ℕ) × (n : Bool) × (get_elem? codes i ≡ some c)
        × (get_elem? nulls i ≡ some n)
        × KeySlot vs c n cell
  KeySlots-at vs [] [] [] i cell h g = absurd (ground arith)
  KeySlots-at vs (c ∷ codes) (true ∷ nulls) (null_value ∷ cells) zero cell h g =
      (c, true, refl, refl, subst (λ x. KeySlot vs c true x) {x = null_value} (ground arith) tt)
  KeySlots-at vs (c ∷ codes) (false ∷ nulls) (key_value v ∷ cells) zero cell h g =
      (c, false, refl, refl, subst (λ x. KeySlot vs c false x) {x = key_value v} (ground arith) h.0)
  KeySlots-at vs (c ∷ codes) (true ∷ nulls) (null_value ∷ cells) (suc i) cell h g =
      KeySlots-at vs codes nulls cells i cell h g
  KeySlots-at vs (c ∷ codes) (false ∷ nulls) (key_value v ∷ cells) (suc i) cell h g =
      KeySlots-at vs codes nulls cells i cell h.1 g
  KeySlots-at vs codes nulls cells i cell h g = absurd h

  pub KeySlots-length :
      (vs : List Text) (codes : List ℕ) (nulls : List Bool) (cells : List (RowValue F))
      → KeySlots vs codes nulls cells
      → (length nulls ≡ length codes) × (length cells ≡ length codes)
  KeySlots-length vs [] [] [] h = (refl, refl)
  KeySlots-length vs (c ∷ codes) (true ∷ nulls) (null_value ∷ cells) h =
      let (a, b) = KeySlots-length vs codes nulls cells h in (ap suc a, ap suc b)
  KeySlots-length vs (c ∷ codes) (false ∷ nulls) (key_value v ∷ cells) h =
      let (a, b) = KeySlots-length vs codes nulls cells h.1 in (ap suc a, ap suc b)
  KeySlots-length vs codes nulls cells h = absurd h

  pub slots-length {ℓ} :
      {A : Type ℓ} (wrap : A → RowValue F) (values : List A) (nulls : List Bool)
      → length nulls ≡ length values
      → length (slots wrap values nulls) ≡ length values
  slots-length wrap [] nulls e = refl
  slots-length wrap (v ∷ values) [] e = absurd (omega arith)
  slots-length wrap (v ∷ values) (n ∷ nulls) e =
      ap suc (slots-length wrap values nulls (omega arith))

any_null-at :
    (nulls : List Bool) (i : ℕ) (n : Bool)
    → any_null nulls ≡ false
    → get_elem? nulls i ≡ some n
    → n ≡ false
any_null-at [] i n h g = absurd (ground arith)
any_null-at (true ∷ nulls) i n h g = absurd (ground arith)
any_null-at (false ∷ nulls) zero n h g = ground arith
any_null-at (false ∷ nulls) (suc i) n h g = any_null-at nulls i n h g

-- The validity bitmap of a column says of each row whether it is not null.
pub slot_valid-at :
    (len : ℕ) (nulls : List Bool) (i : ℕ) (n : Bool)
    → length nulls ≡ len
    → get_elem? nulls i ≡ some n
    → slot_valid len (validity nulls) i ≡ ok (not n)
unfolding slot_valid
slot_valid-at len nulls i n e g =
    let inside : ltb i len ≡ true = ground (arith, get_elem?-lt nulls i g) in
    elim (Bool-cases (any_null nulls)) [
      | inl t ↦ rw (inside, t, get-from_bools, get_elem?-map nulls i not g)
      | inr f ↦ rw (inside, f, any_null-at nulls i n f g)
    ]
