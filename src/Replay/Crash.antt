-- ===== src/Replay/Crash.antt =====
-- What a reopen of src/storage_lite/store.rs replays of a log that a crash has cut.
use tally_db.Base.{
  ℕ, zero, suc, ◌-◌, ◌<◌, ◌≡◌, refl, ◌∙◌, ap, subst, arith, true, false, ◌||◌, some, List, [], ◌∷◌,
  ◌++◌, append-nil, length, length-take, take, ltb, ◌==◌, ==_iff, Bool-cases, inl, inr, take-within,
}
use tally_db.WriteBuffer.{RowValue}
use tally_db.Store.Deleting.{contains}
use tally_db.Wal.{WalEntry, row_entry}
use tally_db.Wal.Recovery.Cut.{take-beyond}
use tally_db.Replay.{Replayed, row_unit, supersession_unit, after_bracket, resolve, resolved}
use tally_db.Replay.Units.{
  row_entries, entries_of, Settled, take_rows-row_entries, take_rows-short, whole_bracket,
  resolve-nothing, resolve-units, resolve-dropped, length-rows,
}

module _ {F : Type 0} where
  pub take-row_entries :
      (k : ℕ) (rows : List (List (RowValue F)))
      → take k (row_entries rows) ≡ row_entries (take k rows)
  take-row_entries zero rows = refl
  take-row_entries (suc k) [] = refl
  take-row_entries (suc k) (row ∷ rows) = ap (λ es. row_entry row ∷ es) (take-row_entries k rows)

  pub length-row_entries :
      (rows : List (List (RowValue F))) → length (row_entries rows) ≡ length rows
  length-row_entries [] = refl
  length-row_entries (row ∷ rows) = ap suc (length-row_entries rows)

  -- A whole bracket in front of entries that resolve to a prefix of the units behind it.
  after-whole :
      (committed : List ℕ) (sequence : ℕ) (rows : List (List (RowValue F))) (fuel n : ℕ)
      (entries : List (WalEntry F)) (units : List (Replayed F))
      → length entries < fuel
      → resolve fuel committed entries ≡ some (take n units)
      → (m : ℕ) × (after_bracket committed sequence
            (length rows)
            (rows, entries)
            (λ rest. resolve fuel committed rest)
          ≡ some (take m (supersession_unit sequence rows ∷ units)))
  after-whole committed s rows fuel n [] units l h = elim (Bool-cases (contains committed s)) [
    | inl t ↦
        let kept : contains committed s || false ≡ true = ground arith in
        (
          suc n,
          whole_bracket committed s rows [] (λ rest. resolve fuel committed rest) (take n units)
              kept h,
        )
    | inr f ↦
        (0, rw ((==_iff (length rows) (length rows)).1 refl, f) (resolve-nothing committed fuel l))
  ]
  after-whole committed s rows fuel n (entry ∷ entries) units l h =
      let kept : contains committed s || true ≡ true = ground arith in
      (
        suc n,
        whole_bracket committed s rows (entry ∷ entries) (λ rest. resolve fuel committed rest)
            (take n units) kept h,
      )

  -- The first entries of the log of some units resolve to the first units.
  pub resolve-cut :
      (fuel : ℕ) (committed : List ℕ) (units : List (Replayed F)) (j : ℕ)
      → length (take j (entries_of units)) < fuel
      → (n : ℕ) × (resolve fuel committed (take j (entries_of units)) ≡ some (take n units))
  unfolding resolve entries_of
  resolve-cut zero committed units j l = absurd (omega arith)
  resolve-cut (suc fuel) committed units zero l = (0, refl)
  resolve-cut (suc fuel) committed [] (suc j) l = (0, refl)
  resolve-cut (suc fuel) committed (row_unit row ∷ units) (suc j) l =
      let (n, h) = resolve-cut fuel committed units j (omega arith) in (suc n, rw h refl)
  resolve-cut (suc fuel) committed (supersession_unit s rows ∷ units) (suc j) l =
      let entries = row_entries rows ++ entries_of units in
      elim (Bool-cases (ltb j (length rows))) [
        | inl short ↦
            let some_rows = take j rows in
            let fewer : length some_rows < length rows = ground (arith, length-take j rows) in
            let torn : take j entries ≡ row_entries some_rows =
              take-within j (row_entries rows) (entries_of units)
                (ground (arith, length-row_entries rows))
              ∙ take-row_entries j rows in
            let apart : length some_rows == length rows ≡ false =
              ground (arith, ==_iff (length some_rows) (length rows)) in
            (0, rw (torn, take_rows-short some_rows (length rows) fewer, apart) refl)
        | inr long ↦
            let k = j - length rows in
            let cut : take j entries ≡ row_entries rows ++ take k (entries_of units) =
              subst (λ i. take i entries ≡ row_entries rows ++ take k (entries_of units))
                (ground (arith, length-row_entries rows))
                (take-beyond k (row_entries rows) (entries_of units)) in
            let rest = take k (entries_of units) in
            let enough : length rest < fuel =
              omega (arith, length-rows rows rest, ap (λ l. length l) cut) in
            let (n, h) = resolve-cut fuel committed units k enough in
            let (m, g) = after-whole committed s rows fuel n rest units enough h in
            (m, rw (cut, take_rows-row_entries rows rest) g)
      ]

  -- Behind settled units, what is left of a bracket that did not commit is dropped.
  pub resolve-uncommitted :
      (committed : List ℕ) (units : List (Replayed F)) (sequence : ℕ)
      (rows : List (List (RowValue F))) (j : ℕ)
      → Settled committed [] units
      → contains committed sequence ≡ false
      → resolved committed
          (some (entries_of units ++ take j (entries_of (supersession_unit sequence rows ∷ []))))
        ≡ some units
  unfolding entries_of
  resolve-uncommitted committed units s rows zero h g =
      rw (append-nil (entries_of units)) (resolve-units committed units h)
  resolve-uncommitted committed units s rows (suc j) h g =
      rw (append-nil (row_entries rows), take-row_entries j rows)
        (resolve-dropped committed units s (length rows) (take j rows)
          (omega (arith, length-take j rows)) (λ same. g))
