-- ===== src/WriteBuffer/Freeze.antt =====
-- What a frozen segment of src/storage_lite/mem.rs reads back: the rows that the buffer holds.
use tally_db.Base.{ℕ, ◌≡◌, ◌∙◌, ap, arith, subst}
use tally_db.Base.{Bool, true, false, not, some, List}
use tally_db.Base.{length, get_elem?, Result, ok, err}
use tally_db.Column.{
  Text, Column, f64_column, i64_column, key_column, column_len, slot_valid, dictionary_value,
  Dictionary, Fault,
}
use tally_db.Interning.Values.{dictionary_value-Holds}
use tally_db.Interning.Codes.{IsDictionary}
use tally_db.WriteBuffer.{RowValue, f64_value, i64_value, key_value, null_value, asserted}
use tally_db.WriteBuffer.{Builder, f64_builder, i64_builder, key_builder}
use tally_db.WriteBuffer.{finish, cell_value, validity}
use tally_db.WriteBuffer.Slots.{BuilderHolds, slots-at, slots-length}
use tally_db.WriteBuffer.Slots.{KeySlots-at, KeySlots-length, slot_valid-at, KeySlot}

pub went_on_asserted {ℓ} : {A : Type ℓ} (r : Result Fault A) {a : A} → asserted r ≡ ok a → r ≡ ok a
went_on_asserted (ok a) h = ground arith
went_on_asserted (err e) h = absurd (ground arith)

module _ {F : Type 0} where
  f64_column-cell :
      (values : List F) (nulls : List Bool) (cells : List (RowValue F)) (i : ℕ) (cell : RowValue F)
      → BuilderHolds (f64_builder values nulls) cells
      → get_elem? cells i ≡ some cell
      → cell_value (f64_column values (validity nulls)) i ≡ ok cell
  unfolding cell_value
  f64_column-cell values nulls cells i cell (l, s) g =
      let (v, n, gv, gn, e) =
        slots-at f64_value values nulls i cell (ap (λ c. get_elem? c i) s ∙ g) in
      rw (slot_valid-at (length values) nulls i n l gn, gv) (ground arith)

  i64_column-cell :
      (values : List ℕ) (nulls : List Bool) (cells : List (RowValue F)) (i : ℕ) (cell : RowValue F)
      → BuilderHolds (i64_builder values nulls) cells
      → get_elem? cells i ≡ some cell
      → cell_value (i64_column values (validity nulls)) i ≡ ok cell
  unfolding cell_value
  i64_column-cell values nulls cells i cell (l, s) g =
      let (v, n, gv, gn, e) =
        slots-at i64_value values nulls i cell (ap (λ c. get_elem? c i) s ∙ g) in
      rw (slot_valid-at (length values) nulls i n l gn, gv) (ground arith)

  KeySlot-cell :
      (vs : List Text) (codes : List ℕ) (nulls : List Bool) (dictionary : Dictionary) (i c : ℕ)
      (n : Bool) (cell : RowValue F)
      → IsDictionary dictionary vs
      → slot_valid (length codes) (validity nulls) i ≡ ok (not n)
      → get_elem? codes i ≡ some c
      → KeySlot vs c n cell
      → cell_value (key_column codes (validity nulls) dictionary) i ≡ ok cell
  unfolding cell_value
  KeySlot-cell vs codes nulls dictionary i c true null_value h valid g k = rw valid
  KeySlot-cell vs codes nulls dictionary i c false (key_value v) h valid g k =
      let e : dictionary_value dictionary c ≡ some v =
        dictionary_value-Holds dictionary vs h.holds c ∙ k in
      rw (valid, g) (ground arith)
  KeySlot-cell vs codes nulls dictionary i c n cell h valid g k = absurd k

  key_column-cell :
      (codes : List ℕ) (nulls : List Bool) (dictionary : Dictionary) (cells : List (RowValue F))
      (i : ℕ) (cell : RowValue F)
      → BuilderHolds (key_builder codes nulls dictionary) cells
      → get_elem? cells i ≡ some cell
      → cell_value (key_column codes (validity nulls) dictionary) i ≡ ok cell
  key_column-cell codes nulls dictionary cells i cell (vs, h, s) g =
      let (c, n, gc, gn, k) = KeySlots-at vs codes nulls cells i cell s g in
      let (l, _) = KeySlots-length vs codes nulls cells s in
      KeySlot-cell vs codes nulls dictionary i c n cell h
        (slot_valid-at (length codes) nulls i n l gn) gc k

  -- A finished column gives back the cells, and no more.
  pub finish-cell :
      (name : Text) (b : Builder F) (column : Column F) (cells : List (RowValue F)) (i : ℕ)
      (cell : RowValue F)
      → BuilderHolds b cells
      → finish name b ≡ ok column
      → get_elem? cells i ≡ some cell
      → cell_value column i ≡ ok cell
  unfolding finish
  finish-cell name (f64_builder values nulls) column cells i cell h e g =
      let same : f64_column values (validity nulls) ≡ column = ground arith in
      subst (λ c. cell_value c i ≡ ok cell) same (f64_column-cell values nulls cells i cell h g)
  finish-cell name (i64_builder values nulls) column cells i cell h e g =
      let same : i64_column values (validity nulls) ≡ column = ground arith in
      subst (λ c. cell_value c i ≡ ok cell) same (i64_column-cell values nulls cells i cell h g)
  finish-cell name (key_builder codes nulls dictionary) column cells i cell h e g =
      let same : key_column codes (validity nulls) dictionary ≡ column = ground arith in
      subst (λ c. cell_value c i ≡ ok cell) same
        (key_column-cell codes nulls dictionary cells i cell h g)

  pub finish-len :
      (name : Text) (b : Builder F) (column : Column F) (cells : List (RowValue F))
      → BuilderHolds b cells
      → finish name b ≡ ok column
      → column_len column ≡ length cells
  unfolding finish column_len
  finish-len name (f64_builder values nulls) column cells (l, s) e =
      ground (arith, ap (λ c. length c) s, slots-length {F = F} f64_value values nulls l)
  finish-len name (i64_builder values nulls) column cells (l, s) e =
      ground (arith, ap (λ c. length c) s, slots-length {F = F} i64_value values nulls l)
  finish-len name (key_builder codes nulls dictionary) column cells (vs, h, s) e =
      ground (arith, KeySlots-length vs codes nulls cells s)
