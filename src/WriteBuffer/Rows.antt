-- ===== src/WriteBuffer/Rows.antt =====
-- A write buffer and its rows, src/storage_lite/mem.rs: appending adds a row at the end, and freezing
-- gives every row back.
use tally_db.Base.{ℕ, suc, ◌+◌, ◌<◌, ◌≡◌, refl, sym, ◌∙◌, ap, arith, inl, inr, subst}
use tally_db.Base.{some, List, [], ◌∷◌, ◌++◌, map}
use tally_db.Base.{
  length, length-append, length-map, get_elem?, get_elem?-map, All, All-append, All-get_elem?, ok,
  ok_or, went_on,
}
use tally_db.Column.{Column, Schema, Field}
use tally_db.Floats.{Floats}
use tally_db.Interning.{new_dictionary}
use tally_db.Interning.Codes.{new_dictionary-IsDictionary}
use tally_db.Segment.{Segment, RecordBatch, new_batch, zone_maps_of, first_len}
use tally_db.WriteBuffer.{RowValue, f64_value, i64_value, key_value, null_value, panicked, asserted}
use tally_db.WriteBuffer.{Builder, WriteBuffer, push, push_cells, counted, validate, append}
use tally_db.WriteBuffer.{finish, finish_all, freeze_at, row_at, new_builder, new_buffer}
use tally_db.WriteBuffer.Slots.{BuilderHolds}
use tally_db.WriteBuffer.Contents.{push-Holds}
use tally_db.WriteBuffer.Freeze.{finish-cell, finish-len, went_on_asserted}
use mathlib.Core.List.{map-append}
use tally_db.Base.{Option-cases, get_elem?-lt}
use tally_db.Column.{ColumnType, f64, i64, key}
use tally_db.WriteBuffer.{empty_builder, fresh}

module _ {F : Type 0} where
  abbrev pub head_cell : List (RowValue F) → RowValue F
  head_cell [] = null_value
  head_cell (cell ∷ row) = cell

  abbrev pub other_cells : List (RowValue F) → List (RowValue F)
  other_cells [] = []
  other_cells (cell ∷ row) = row

  -- The builders hold the rows column by column.
  abbrev pub ColumnsHold : List (Builder F) → List (List (RowValue F)) → Type 0
  ColumnsHold [] rows = Unit
  ColumnsHold (b ∷ builders) rows =
      BuilderHolds b (map head_cell rows) × ColumnsHold builders (map other_cells rows)

  -- A buffer that holds the rows.
  pub record HoldsRows (buffer : WriteBuffer F) (rows : List (List (RowValue F))) : Type 0 where
    pub by_column : ColumnsHold buffer.builders rows
    pub width : length buffer.builders ≡ length buffer.schema.fields
    pub rows_lem : buffer.rows ≡ length rows
    pub each_width : All (λ (row : List (RowValue F)). length row ≡ length buffer.builders) rows
    pub keyed : 0 < length buffer.builders

module _ (fl : Floats) where
  open fl use {F}

  push_cells-Holds :
      (builders builders' : List (Builder F)) (rows : List (List (RowValue F)))
      (row : List (RowValue F))
      → ColumnsHold builders rows
      → length row ≡ length builders
      → push_cells fl builders row ≡ ok builders'
      → ColumnsHold builders' (rows ++ (row ∷ [])) × (length builders' ≡ length builders)
  unfolding push_cells
  push_cells-Holds [] builders' rows row h l e =
      let same : [] ≡ builders' = ground arith in
      (subst (λ b. ColumnsHold b (rows ++ (row ∷ []))) same tt, ground arith)
  push_cells-Holds (b ∷ builders) builders' rows [] h l e = absurd (omega arith)
  push_cells-Holds (b ∷ builders) builders' rows (cell ∷ row) h l e =
      let (b1, first, e1) = went_on (push fl b cell) _ e in
      let (rest, later, e2) = went_on (push_cells fl builders row) _ e1 in
      let same : b1 ∷ rest ≡ builders' = ground arith in
      let (more, len) =
        push_cells-Holds builders rest (map other_cells rows) row h.1 (omega arith) later in
      (
        subst (λ bs. ColumnsHold bs (rows ++ ((cell ∷ row) ∷ []))) same
            (
              subst (λ c. BuilderHolds b1 c) (sym (map-append head_cell rows ((cell ∷ row) ∷ [])))
                  (push-Holds fl b b1 (map head_cell rows) cell h.0 first),
              subst (λ c. ColumnsHold rest c)
                  (sym (map-append other_cells rows ((cell ∷ row) ∷ []))) more,
            ),
        ground arith,
      )

  finish_all-row :
      (fields : List Field) (builders : List (Builder F)) (columns : List (Column F))
      (rows : List (List (RowValue F))) (i : ℕ) (row : List (RowValue F))
      → ColumnsHold builders rows
      → length builders ≡ length fields
      → finish_all fields builders ≡ ok columns
      → get_elem? rows i ≡ some row
      → length row ≡ length builders
      → row_at columns i ≡ ok row
  unfolding finish_all row_at
  finish_all-row [] [] columns rows i [] h l e g w =
      let same : [] ≡ columns = ground arith in ground arith
  finish_all-row [] [] columns rows i (cell ∷ row) h l e g w = absurd (omega arith)
  finish_all-row [] (b ∷ builders) columns rows i row h l e g w = absurd (omega arith)
  finish_all-row (f ∷ fields) [] columns rows i row h l e g w = absurd (omega arith)
  finish_all-row (f ∷ fields) (b ∷ builders) columns rows i [] h l e g w = absurd (omega arith)
  finish_all-row (f ∷ fields) (b ∷ builders) columns rows i (cell ∷ row) h l e g w =
      let (c, first, e1) = went_on (finish f.name b) _ e in
      let (rest, later, e2) = went_on (finish_all fields builders) _ e1 in
      let one =
        finish-cell f.name b c (map head_cell rows) i cell h.0 first
          (get_elem?-map rows i head_cell g) in
      let others =
        finish_all-row fields builders rest (map other_cells rows) i row h.1 (omega arith) later
          (get_elem?-map rows i other_cells g) (omega arith) in
      ground arith

  empty_builder-Holds : (t : ColumnType) → BuilderHolds (empty_builder {F = F} t) []
  unfolding empty_builder
  empty_builder-Holds f64 = (refl, refl)
  empty_builder-Holds i64 = (refl, refl)
  empty_builder-Holds key = ([], unfold new_dictionary in new_dictionary-IsDictionary, tt)

  fresh-ColumnsHold : (fields : List Field) → ColumnsHold (map (new_builder {F = F}) fields) []
  unfolding new_builder
  fresh-ColumnsHold [] = tt
  fresh-ColumnsHold (f ∷ fields) = (empty_builder-Holds f.column_type, fresh-ColumnsHold fields)

  counted-parts :
      (buffer : WriteBuffer F) (builders : List (Builder F)) (cell : RowValue F)
      → ((counted fl buffer builders cell).builders ≡ builders)
        × ((counted fl buffer builders cell).rows ≡ buffer.rows + 1)
        × ((counted fl buffer builders cell).schema ≡ buffer.schema)
  counted-parts buffer builders (f64_value v) = (refl, refl, refl)
  counted-parts buffer builders (i64_value v) = (refl, refl, refl)
  counted-parts buffer builders (key_value v) = (refl, refl, refl)
  counted-parts buffer builders null_value = (refl, refl, refl)

  validate-length :
      (buffer : WriteBuffer F) (row : List (RowValue F)) (u : Unit {0})
      → validate buffer row ≡ ok u
      → length row ≡ length buffer.schema.fields
  unfolding validate
  validate-length buffer row u h = ground arith

  finish_all-len :
      (fields : List Field) (builders : List (Builder F)) (columns : List (Column F))
      (rows : List (List (RowValue F)))
      → ColumnsHold builders rows
      → length builders ≡ length fields
      → 0 < length builders
      → finish_all fields builders ≡ ok columns
      → first_len columns ≡ length rows
  unfolding finish_all first_len
  finish_all-len fields [] columns rows h l p e = absurd (omega arith)
  finish_all-len [] (b ∷ builders) columns rows h l p e = absurd (omega arith)
  finish_all-len (f ∷ fields) (b ∷ builders) columns rows h l p e =
      let (c, first, e1) = went_on (finish f.name b) _ e in
      let (rest, later, e2) = went_on (finish_all fields builders) _ e1 in
      let one = finish-len f.name b c (map head_cell rows) h.0 first in
      let all = length-map rows (head_cell {F = F}) in ground arith

  new_batch-eq :
      (schema : Schema) (columns : List (Column F)) (batch : RecordBatch F)
      → new_batch schema columns ≡ ok batch
      → (batch.columns ≡ columns) × (batch.num_rows ≡ first_len columns)
  unfolding new_batch
  new_batch-eq schema columns batch h = ground arith

  -- A fresh buffer holds no row.
  pub new_buffer-HoldsRows :
      (schema : Schema) (ordering_key : ℕ) (buffer : WriteBuffer F)
      → new_buffer schema ordering_key ≡ ok buffer
      → HoldsRows buffer []
  unfolding new_buffer
  new_buffer-HoldsRows schema ordering_key buffer e =
      elim (Option-cases (get_elem? schema.fields ordering_key)) [
        | inl n ↦ absurd (ground arith)
        | inr (f, g) ↦
            let same : fresh schema ordering_key ≡ buffer = ground arith in
            let len = length-map schema.fields (new_builder {F = F}) in
            subst (λ b. HoldsRows b []) same
              (record {
                by_column = fresh-ColumnsHold schema.fields;
                width = len;
                rows_lem = refl;
                each_width = tt;
                keyed = omega (arith, len, get_elem?-lt schema.fields ordering_key g);
              })
      ]

  pub append-rows :
      (buffer buffer' : WriteBuffer F) (row : List (RowValue F))
      → append fl buffer row ≡ ok buffer'
      → buffer'.rows ≡ suc buffer.rows
  unfolding append
  append-rows buffer buffer' row e =
      let (u, valid, e1) = went_on (validate buffer row) _ e in
      let (builders, pushed, e2) = went_on (push_cells fl buffer.builders row) _ e1 in
      let (cell, at, e3) = went_on (ok_or panicked (get_elem? row buffer.ordering_key)) _ e2 in
      let same : counted fl buffer builders cell ≡ buffer' = ground arith in
      let (_, count, _) = counted-parts buffer builders cell in
      ap (λ (b : WriteBuffer F). b.rows) (sym same) ∙ count ∙ omega arith

  -- Where a buffer holds some rows and accepts one more, it then holds that row behind them.
  pub append-HoldsRows :
      (buffer buffer' : WriteBuffer F) (rows : List (List (RowValue F))) (row : List (RowValue F))
      → HoldsRows buffer rows
      → append fl buffer row ≡ ok buffer'
      → HoldsRows buffer' (rows ++ (row ∷ []))
  unfolding append
  append-HoldsRows buffer buffer' rows row h e =
      let (u, valid, e1) = went_on (validate buffer row) _ e in
      let (builders, pushed, e2) = went_on (push_cells fl buffer.builders row) _ e1 in
      let (cell, at, e3) = went_on (ok_or panicked (get_elem? row buffer.ordering_key)) _ e2 in
      let same : counted fl buffer builders cell ≡ buffer' = ground arith in
      let (bs, count, schema) = counted-parts buffer builders cell in
      let wide : length row ≡ length buffer.builders =
        omega (arith, validate-length buffer row u valid, h.width) in
      let (held, len) =
        push_cells-Holds buffer.builders builders rows row h.by_column wide pushed in
      let wider : length (counted fl buffer builders cell).builders ≡ length buffer.builders =
        ap (λ l. length l) bs ∙ len in
      subst (λ b. HoldsRows b (rows ++ (row ∷ []))) same
        (record {
          by_column = subst (λ l. ColumnsHold l (rows ++ (row ∷ []))) (sym bs) held;
          width = wider ∙ h.width ∙ ap (λ (s : Schema). length s.fields) (sym schema);
          rows_lem = omega (arith, count, h.rows_lem, length-append {0} rows (row ∷ []));
          each_width =
              subst (λ n. All (λ (r : List (RowValue F)). length r ≡ n) (rows ++ (row ∷ [])))
                (sym wider)
                (All-append (λ (r : List (RowValue F)). length r ≡ length buffer.builders) rows
                  (row ∷ []) h.each_width (wide, tt));
          keyed = omega (arith, wider, h.keyed);
        })

  -- Where a buffer that holds some rows freezes into a segment, the segment has as many rows, and
  -- reading it at a place gives the row that was appended there.
  pub freeze_at-rows :
      (buffer : WriteBuffer F) (rows : List (List (RowValue F))) (base : ℕ) (segment : Segment F)
      → HoldsRows buffer rows
      → freeze_at fl buffer base ≡ ok segment
      → (segment.batch.num_rows ≡ length rows)
        × ((i : ℕ) (row : List (RowValue F))
            → get_elem? rows i ≡ some row
            → row_at segment.batch.columns i ≡ ok row)
  unfolding freeze_at
  freeze_at-rows buffer rows base segment h e =
      let (columns, done, e1) = went_on (finish_all buffer.schema.fields buffer.builders) _ e in
      let (maps, mapped, e2) = went_on (asserted (zone_maps_of fl columns)) _ e1 in
      let (batch, checked, e3) = went_on (asserted (new_batch buffer.schema columns)) _ e2 in
      let (cols, num) = new_batch-eq buffer.schema columns batch (went_on_asserted _ checked) in
      let same : segment.batch ≡ batch = ground arith in
      (
        ap (λ (b : RecordBatch F). b.num_rows) same
            ∙ num
            ∙ finish_all-len buffer.schema.fields buffer.builders columns rows h.by_column h.width
                h.keyed done,
        λ i row g.
            ap (λ (b : RecordBatch F). row_at b.columns i) same
            ∙ ap (λ (c : List (Column F)). row_at c i) cols
            ∙ finish_all-row buffer.schema.fields buffer.builders columns rows i row h.by_column
                h.width done g
                (All-get_elem? (λ (r : List (RowValue F)). length r ≡ length buffer.builders) rows i
                  row h.each_width g),
      )
