-- ===== src/WriteBuffer/Contents.antt =====
-- What a write buffer of src/storage_lite/mem.rs holds: the rows that were appended, which the frozen
-- segment gives back.
use tally_db.Base.{ℕ, ◌≡◌, ◌∙◌, ap, arith, inl, inr, subst}
use tally_db.Base.{Bool, true, false, List, [], ◌∷◌, ◌++◌}
use tally_db.Base.{length-append, ok, Result-cases}
use tally_db.Column.{Text, Dictionary}
use tally_db.Floats.{Floats}
use tally_db.Interning.{intern}
use tally_db.Interning.Codes.{intern-IsDictionary}
use tally_db.WriteBuffer.{RowValue, f64_value, i64_value, key_value, null_value}
use tally_db.WriteBuffer.{Builder, f64_builder, i64_builder, key_builder, code_pushed, push}
use tally_db.WriteBuffer.Slots.{BuilderHolds, slots-append, KeySlots-more, KeySlots-append_key}
use tally_db.WriteBuffer.Slots.{KeySlots-append_null}

module _ (fl : Floats) where
  open fl use {F, from_i64}

  key_push :
      (codes : List ℕ) (nulls : List Bool) (dictionary : Dictionary) (cells : List (RowValue F))
      (v : Text) (b : Builder F)
      → BuilderHolds (key_builder codes nulls dictionary) cells
      → code_pushed codes nulls (intern dictionary v) ≡ ok b
      → BuilderHolds b (cells ++ (key_value v ∷ []))
  key_push codes nulls dictionary cells v b (vs, h, s) e =
      elim (Result-cases (intern dictionary v)) [
        | inl ((d', c), f) ↦
            let (vs', h', at, kept) = intern-IsDictionary dictionary vs h v d' c f in
            subst (λ x. BuilderHolds x (cells ++ (key_value v ∷ [])))
              {x = key_builder (codes ++ (c ∷ [])) (nulls ++ (false ∷ [])) d'} (ground arith)
              (
                vs',
                h',
                KeySlots-append_key vs' codes nulls cells c v
                    (KeySlots-more vs vs' codes nulls cells kept s) at,
              )
        | inr (x, f) ↦ absurd (ground arith)
      ]

  -- A cell that is pushed is held behind the others.
  pub push-Holds :
      (b b' : Builder F) (cells : List (RowValue F)) (cell : RowValue F)
      → BuilderHolds b cells
      → push fl b cell ≡ ok b'
      → BuilderHolds b' (cells ++ (cell ∷ []))
  unfolding push
  push-Holds (f64_builder values nulls) b' cells (f64_value v) (l, s) e =
      subst (λ x. BuilderHolds x (cells ++ (f64_value v ∷ [])))
        {x = f64_builder (values ++ (v ∷ [])) (nulls ++ (false ∷ []))} (ground arith)
        (
          omega (arith, length-append {0} values (v ∷ []), length-append {0} nulls (false ∷ [])),
          slots-append f64_value values nulls v false l ∙ ap (λ c. c ++ (f64_value v ∷ [])) s,
        )
  push-Holds (f64_builder values nulls) b' cells null_value (l, s) e =
      subst (λ x. BuilderHolds x (cells ++ (null_value ∷ [])))
        {x = f64_builder (values ++ (from_i64 0 ∷ [])) (nulls ++ (true ∷ []))} (ground arith)
        (
          omega (
            arith,
            length-append {0} values (from_i64 0 ∷ []),
            length-append {0} nulls (true ∷ []),
          ),
          slots-append f64_value values nulls (from_i64 0) true l
              ∙ ap (λ c. c ++ (null_value ∷ [])) s,
        )
  push-Holds (i64_builder values nulls) b' cells (i64_value v) (l, s) e =
      subst (λ x. BuilderHolds x (cells ++ (i64_value v ∷ [])))
        {x = i64_builder (values ++ (v ∷ [])) (nulls ++ (false ∷ []))} (ground arith)
        (
          omega (arith, length-append {0} values (v ∷ []), length-append {0} nulls (false ∷ [])),
          slots-append i64_value values nulls v false l ∙ ap (λ c. c ++ (i64_value v ∷ [])) s,
        )
  push-Holds (i64_builder values nulls) b' cells null_value (l, s) e =
      subst (λ x. BuilderHolds x (cells ++ (null_value ∷ [])))
        {x = i64_builder (values ++ (0 ∷ [])) (nulls ++ (true ∷ []))} (ground arith)
        (
          omega (arith, length-append {0} values (0 ∷ []), length-append {0} nulls (true ∷ [])),
          slots-append i64_value values nulls 0 true l ∙ ap (λ c. c ++ (null_value ∷ [])) s,
        )
  push-Holds (key_builder codes nulls dictionary) b' cells (key_value v) h e =
      key_push codes nulls dictionary cells v b' h e
  push-Holds (key_builder codes nulls dictionary) b' cells null_value (vs, h, s) e =
      subst (λ x. BuilderHolds x (cells ++ (null_value ∷ [])))
        {x = key_builder (codes ++ (0 ∷ [])) (nulls ++ (true ∷ [])) dictionary} (ground arith)
        (vs, h, KeySlots-append_null vs codes nulls cells s)
  push-Holds b b' cells cell h e = absurd (ground arith)
