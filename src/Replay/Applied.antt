-- ===== src/Replay/Applied.antt =====
-- What the replayed units of src/storage_lite/store.rs leave in the write buffer.
use tally_db.Base.{
  ℕ, none, if◌then◌else◌, ◌+◌, ◌≡◌, refl, sym, ◌∙◌, ap, subst, arith, Option, some, List, [], ◌∷◌,
  ◌++◌, append-nil, append_assoc, length, ok, ok-injective, went_on,
}
use tally_db.Floats.{Floats}
use tally_db.WriteBuffer.{RowValue, append}
use tally_db.WriteBuffer.Rows.{HoldsRows, append-HoldsRows}
use tally_db.Store.{Store}
use tally_db.Store.Knowledge.{Shared, append_row, append_superseding}
use tally_db.Wal.{Primitives}
use tally_db.Replay.{
  WalSync, Replayed, row_unit, supersession_unit, row_count, apply_superseding, apply_replayed,
  apply_all, is_off, replacement_log, units_to_replay, replay_wal, replay_units,
}
use tally_db.Replay.Skipping.{total}

module _ {F : Type 0} where
  abbrev pub unit_rows : Replayed F → List (List (RowValue F))
  unit_rows (row_unit row) = row ∷ []
  unit_rows (supersession_unit sequence rows) = rows

  -- The rows of the units, in order.
  abbrev pub rows_of : List (Replayed F) → List (List (RowValue F))
  rows_of [] = []
  rows_of (unit ∷ units) = unit_rows unit ++ rows_of units

module _ (fl : Floats) where
  open fl use {F}

  -- A store that holds the rows in its buffer, and counts so many.
  abbrev pub Buffers : Store F → List (List (RowValue F)) → ℕ → Type 0
  Buffers store held rows = HoldsRows store.shared.buffer held × (store.rows ≡ rows)

  append_row-buffer :
      (shared shared' : Shared F) (row : List (RowValue F))
      → append_row fl shared row ≡ ok shared'
      → append fl shared.buffer row ≡ ok shared'.buffer
  unfolding append_row
  append_row-buffer shared shared' row e =
      let (buffer, appended, e1) = went_on (append fl shared.buffer row) _ e in
      let same : buffer ≡ shared'.buffer = ap (λ (s : Shared F). s.buffer) (ok-injective e1) in
      subst (λ b. append fl shared.buffer row ≡ ok b) same appended

  append_superseding-buffer :
      (shared shared' : Shared F) (row : List (RowValue F)) (sequence rows : ℕ)
      → append_superseding fl shared row sequence rows ≡ ok shared'
      → append fl shared.buffer row ≡ ok shared'.buffer
  unfolding append_superseding
  append_superseding-buffer shared shared' row sequence rows e =
      let (buffer, appended, e1) = went_on (append fl shared.buffer row) _ e in
      let same : buffer ≡ shared'.buffer = ap (λ (s : Shared F). s.buffer) (ok-injective e1) in
      subst (λ b. append fl shared.buffer row ≡ ok b) same appended

  apply_superseding-Buffers :
      (rows held : List (List (RowValue F))) (store store' : Store F) (sequence n : ℕ)
      → Buffers store held n
      → apply_superseding fl store sequence rows ≡ ok store'
      → Buffers store' (held ++ rows) (n + length rows)
  unfolding apply_superseding
  apply_superseding-Buffers [] held store store' sequence n (h, count) e =
      let same = ok-injective e in
      (
        subst (λ (s : Store F). HoldsRows s.shared.buffer (held ++ [])) same
            (subst (λ l. HoldsRows store.shared.buffer l) (sym (append-nil held)) h),
        sym (ap (λ (s : Store F). s.rows) same) ∙ omega (arith, count),
      )
  apply_superseding-Buffers (row ∷ rows) held store store' sequence n (h, count) e =
      let (shared, appended, e1) =
        went_on (append_superseding fl store.shared row sequence store.rows) _ e in
      let held' =
        append-HoldsRows fl store.shared.buffer shared.buffer held row h
          (append_superseding-buffer store.shared shared row sequence store.rows appended) in
      let (rest, count') =
        apply_superseding-Buffers rows (held ++ (row ∷ []))
          (record store { rows = store.rows + 1; shared = shared }) store' sequence (n + 1)
          (held', omega (arith, count)) e1 in
      (
        subst (λ l. HoldsRows store'.shared.buffer l) (append_assoc held (row ∷ []) rows) rest,
        omega (arith, count'),
      )

  apply_replayed-Buffers :
      (unit : Replayed F) (held : List (List (RowValue F))) (store store' : Store F) (n : ℕ)
      → Buffers store held n
      → apply_replayed fl store unit ≡ ok store'
      → Buffers store' (held ++ unit_rows unit) (n + row_count unit)
  unfolding apply_replayed
  apply_replayed-Buffers (supersession_unit sequence rows) held store store' n h e =
      apply_superseding-Buffers rows held store store' sequence n h e
  apply_replayed-Buffers (row_unit row) held store store' n (h, count) e =
      let (shared, appended, e1) = went_on (append_row fl store.shared row) _ e in
      let same = ok-injective e1 in
      (
        subst (λ (s : Store F). HoldsRows s.shared.buffer (held ++ (row ∷ []))) same
            (append-HoldsRows fl store.shared.buffer shared.buffer held row h
              (append_row-buffer store.shared shared row appended)),
        sym (ap (λ (s : Store F). s.rows) same) ∙ omega (arith, count),
      )

  apply_all-Buffers :
      (units : List (Replayed F)) (held : List (List (RowValue F))) (store store' : Store F) (n : ℕ)
      → Buffers store held n
      → apply_all fl store units ≡ ok store'
      → Buffers store' (held ++ rows_of units) (n + total units)
  unfolding apply_all
  apply_all-Buffers [] held store store' n (h, count) e =
      let same = ok-injective e in
      (
        subst (λ (s : Store F). HoldsRows s.shared.buffer (held ++ [])) same
            (subst (λ l. HoldsRows store.shared.buffer l) (sym (append-nil held)) h),
        sym (ap (λ (s : Store F). s.rows) same) ∙ omega (arith, count),
      )
  apply_all-Buffers (unit ∷ units) held store store' n h e =
      let (middle, applied, e1) = went_on (apply_replayed fl store unit) _ e in
      let (rest, count) =
        apply_all-Buffers units (held ++ unit_rows unit) middle store' (n + row_count unit)
          (apply_replayed-Buffers unit held store middle n h applied) e1 in
      (
        subst (λ l. HoldsRows store'.shared.buffer l)
            (append_assoc held (unit_rows unit) (rows_of units)) rest,
        omega (arith, count),
      )

  -- Where some units are left of the log to replay, a replay that answers puts their rows in the buffer,
  -- in order, behind those that it held, counts them, and leaves the log of these units in the place of
  -- the old one, or none under `Off`.
  pub replay_wal-HoldsRows :
      (prims : Primitives F) (wal_sync : WalSync) (generation : ℕ) (store store' : Store F)
      (committed : List ℕ) (log log' : Option (List ℕ)) (units : List (Replayed F))
      (held : List (List (RowValue F)))
      → HoldsRows store.shared.buffer held
      → units_to_replay prims generation (length store.schema.fields) store.rows committed log
        ≡ ok (some units)
      → replay_wal fl prims wal_sync generation store committed log ≡ some (ok (store', log'))
      → HoldsRows store'.shared.buffer (held ++ rows_of units)
        × (store'.rows ≡ store.rows + total units)
        × (log' ≡ (
            if is_off wal_sync
            then none
            else some (replacement_log prims generation store.rows units)))
  unfolding replay_wal replay_units
  replay_wal-HoldsRows prims wal_sync generation store store' committed log log' units held h left
        e =
      let answered : replay_units fl prims wal_sync generation store units ≡ ok (store', log') =
        ground arith in
      let (middle, applied, e1) = went_on (apply_all fl store units) _ answered in
      let same : middle ≡ store' = ap (λ (p : Store F × Option (List ℕ)). p.0) (ok-injective e1) in
      let (rows, count) = apply_all-Buffers units held store middle store.rows (h, refl) applied in
      (
        subst (λ (s : Store F). HoldsRows s.shared.buffer (held ++ rows_of units)) same rows,
        sym (ap (λ (s : Store F). s.rows) same) ∙ count,
        sym (ap (λ (p : Store F × Option (List ℕ)). p.1) (ok-injective e1)),
      )
