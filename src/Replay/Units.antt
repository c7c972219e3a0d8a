-- ===== src/Replay/Units.antt =====
-- The brackets of the write-ahead log that `replay_wal` of src/storage_lite/store.rs resolves.
use tally_db.Base.{
  ℕ, zero, suc, ◌≤◌, ◌<◌, ◌≡◌, refl, ◌∙◌, ap, subst, arith, true, false, not, ◌||◌, Option, some,
  List, [], ◌∷◌, ◌++◌, append-nil, append_assoc, length, ◌==◌, ==_iff, Bool-cases, inl, inr,
}
use tally_db.WriteBuffer.{RowValue}
use tally_db.Store.{is_empty}
use tally_db.Store.Deleting.{contains}
use tally_db.Wal.{WalEntry, row_entry, supersession_entry}
use tally_db.Replay.{Replayed, row_unit, supersession_unit, take_rows, after_bracket, resolve}

module _ {F : Type 0} where
  abbrev pub row_entries : List (List (RowValue F)) → List (WalEntry F)
  row_entries [] = []
  row_entries (row ∷ rows) = row_entry row ∷ row_entries rows

  -- What the log holds of the units.
  unfoldable pub entries_of : List (Replayed F) → List (WalEntry F)
  entries_of [] = []
  entries_of (row_unit row ∷ units) = row_entry row ∷ entries_of units
  entries_of (supersession_unit sequence rows ∷ units) =
      supersession_entry sequence (length rows) ∷ (row_entries rows ++ entries_of units)

  -- Each supersession is committed, or entries follow it.
  abbrev pub Settled : List ℕ → List (WalEntry F) → List (Replayed F) → Type 0
  Settled committed tail [] = Unit
  Settled committed tail (row_unit row ∷ units) = Settled committed tail units
  Settled committed tail (supersession_unit sequence rows ∷ units) =
      (contains committed sequence || not (is_empty (entries_of units ++ tail)) ≡ true)
      × Settled committed tail units

  is_empty-before :
      (entries tail : List (WalEntry F)) (entry : WalEntry F)
      → is_empty (entries ++ (entry ∷ tail)) ≡ false
  is_empty-before [] tail entry = refl
  is_empty-before (e ∷ entries) tail entry = refl

  pub tail-Settled :
      (committed : List ℕ) (entry : WalEntry F) (tail : List (WalEntry F))
      (units : List (Replayed F))
      → Settled committed (entry ∷ tail) units
  unfolding entries_of
  tail-Settled committed entry tail [] = tt
  tail-Settled committed entry tail (row_unit row ∷ units) = tail-Settled committed entry tail units
  tail-Settled committed entry tail (supersession_unit s rows ∷ units) = (
    ground (arith, is_empty-before (entries_of units) tail entry),
    tail-Settled committed entry tail units,
  )

  pub take_rows-row_entries :
      (rows : List (List (RowValue F))) (rest : List (WalEntry F))
      → take_rows (length rows) (row_entries rows ++ rest) ≡ (rows, rest)
  unfolding take_rows
  take_rows-row_entries [] rest = refl
  take_rows-row_entries (row ∷ rows) rest = rw (take_rows-row_entries rows rest) refl

  pub take_rows-short :
      (rows : List (List (RowValue F))) (replacements : ℕ)
      → length rows < replacements
      → take_rows replacements (row_entries rows) ≡ (rows, [])
  unfolding take_rows
  take_rows-short rows zero h = absurd (omega arith)
  take_rows-short [] (suc n) h = refl
  take_rows-short (row ∷ rows) (suc n) h = rw (take_rows-short rows n (omega arith)) refl

  pub length-rows :
      (rows : List (List (RowValue F))) (rest : List (WalEntry F))
      → length rest ≤ length (row_entries rows ++ rest)
  length-rows [] rest = omega arith
  length-rows (row ∷ rows) rest = omega (arith, length-rows rows rest)

  pub whole_bracket :
      (committed : List ℕ) (sequence : ℕ) (rows : List (List (RowValue F)))
      (entries : List (WalEntry F)) (more : List (WalEntry F) → Option (List (Replayed F)))
      (units : List (Replayed F))
      → (contains committed sequence || not (is_empty entries)) ≡ true
      → more entries ≡ some units
      → after_bracket committed sequence (length rows) (rows, entries) more
        ≡ some (supersession_unit sequence rows ∷ units)
  whole_bracket committed sequence rows entries more units kept rest =
      rw ((==_iff (length rows) (length rows)).1 refl, kept, rest) refl

  -- Whole units in front of a tail that resolves.
  pub resolve-entries_of :
      (fuel : ℕ) (committed : List ℕ) (units ends : List (Replayed F)) (tail : List (WalEntry F))
      → Settled committed tail units
      → ((f : ℕ) → length tail < f → resolve f committed tail ≡ some ends)
      → length (entries_of units ++ tail) < fuel
      → resolve fuel committed (entries_of units ++ tail) ≡ some (units ++ ends)
  unfolding entries_of resolve
  resolve-entries_of zero committed units ends tail h g l = absurd (omega arith)
  resolve-entries_of (suc fuel) committed [] ends tail h g l = g (suc fuel) l
  resolve-entries_of (suc fuel) committed (row_unit row ∷ units) ends tail h g l =
      rw (resolve-entries_of fuel committed units ends tail h g (omega arith)) refl
  resolve-entries_of (suc fuel) committed (supersession_unit s rows ∷ units) ends tail (kept, h) g
        l =
      rw
        (
          append_assoc (row_entries rows) (entries_of units) tail,
          take_rows-row_entries rows (entries_of units ++ tail),
        )
        (whole_bracket committed s rows (entries_of units ++ tail)
          (λ rest. resolve fuel committed rest) (units ++ ends) kept
          (resolve-entries_of fuel committed units ends tail h g (
            omega (
              arith,
              length-rows rows (entries_of units ++ tail),
              ap (λ l. length l) (append_assoc (row_entries rows) (entries_of units) tail),
            ))))

  pub resolve-nothing :
      (committed : List ℕ) (fuel : ℕ) → 0 < fuel → resolve {F = F} fuel committed [] ≡ some []
  unfolding resolve
  resolve-nothing committed zero h = absurd (omega arith)
  resolve-nothing committed (suc fuel) h = refl

  -- The entries of units, each supersession of which is committed or has something behind it, resolve to
  -- the units.
  pub resolve-units :
      (committed : List ℕ) (units : List (Replayed F))
      → Settled committed [] units
      → resolve (suc (length (entries_of units))) committed (entries_of units) ≡ some units
  unfolding resolve
  resolve-units committed units h =
      let entries = entries_of units in
      let whole = append-nil entries in
      subst (λ es. resolve (suc (length es)) committed es ≡ some units) whole
        (resolve-entries_of (suc (length (entries ++ []))) committed units [] [] h
            (resolve-nothing committed) (omega arith)
          ∙ ap some (append-nil units))

  torn_bracket :
      (committed : List ℕ) (sequence replacements fuel : ℕ) (rows : List (List (RowValue F)))
      → length rows ≤ replacements
      → (length rows ≡ replacements → contains committed sequence ≡ false)
      → suc (length (row_entries rows)) < fuel
      → resolve fuel committed (supersession_entry sequence replacements ∷ row_entries rows)
        ≡ some []
  unfolding resolve
  torn_bracket committed s n zero rows h g l = absurd (omega arith)
  torn_bracket committed s n (suc zero) rows h g l = absurd (omega arith)
  torn_bracket committed s n (suc (suc fuel)) rows h g l = elim (Bool-cases (length rows == n)) [
    | inr short ↦ rw (take_rows-short rows n (ground (arith, ==_iff (length rows) n)), short) refl
    | inl whole ↦
        let same = (==_iff (length rows) n).0 whole in
        let taken : take_rows n (row_entries rows) ≡ (rows, []) =
          subst (λ m. take_rows m (row_entries rows) ≡ (rows, [])) same
            (subst (λ es. take_rows (length rows) es ≡ (rows, [])) (append-nil (row_entries rows))
              (take_rows-row_entries rows [])) in
        rw (taken, whole, g same) refl
  ]

  -- Behind any units, a bracket that is torn, or whole and not committed, is dropped with all its rows,
  -- and nothing else is.
  pub resolve-dropped :
      (committed : List ℕ) (units : List (Replayed F)) (sequence replacements : ℕ)
      (rows : List (List (RowValue F)))
      → length rows ≤ replacements
      → (length rows ≡ replacements → contains committed sequence ≡ false)
      → resolve
          (suc (
            length
              (entries_of units ++ (supersession_entry sequence replacements ∷ row_entries rows))))
          committed
          (entries_of units ++ (supersession_entry sequence replacements ∷ row_entries rows))
        ≡ some units
  resolve-dropped committed units s n rows h g =
      let tail = supersession_entry s n ∷ row_entries rows in
      resolve-entries_of (suc (length (entries_of units ++ tail))) committed units [] tail
        (tail-Settled committed (supersession_entry s n) (row_entries rows) units)
        (λ (f : ℕ) (l : length tail < f). torn_bracket committed s n f rows h g l) (omega arith)
      ∙ ap some (append-nil units)
