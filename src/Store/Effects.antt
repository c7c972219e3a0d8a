-- ===== src/Store/Effects.antt =====
-- What `append` and `supersede` of src/storage_lite/store.rs add to the rows that a store holds.
pub mod Stamps
use tally_db.Base.{ℕ, ◌≡◌, refl, sym, ◌∙◌, ap, subst, List, [], ◌∷◌, ◌++◌, length, ok}
use tally_db.Floats.{Floats}
use tally_db.WriteBuffer.{RowValue}
use tally_db.Store.{Store, append, supersede, next_sequence, newly_dead}
use tally_db.Store.Knowledge.Births.{mark}
use tally_db.Store.Versions.{Versions}
use tally_db.Store.Invariant.{StoreHolds, store_versions}
use tally_db.Store.Invariant.Outcome.{Outcome}
use tally_db.Store.Invariant.Operations.{append-Outcome}
use tally_db.Store.Invariant.Replacing.{supersede-Outcome, born_at}
use tally_db.Store.Knowledge.{get_stamp}
use tally_db.Store.Deleting.{CountsDying, stamp_after}
use tally_db.Store.Effects.Stamps.{supersede-stamps}
use tally_db.Store.Reached.{next_sequence-mark}

module _ (fl : Floats) where
  open fl use {F}

  -- Where a store holds some versions and an append answers, the store then holds the appended row
  -- behind them, born at the store's next sequence, and the answer is the number of rows before it.
  pub append-versions :
      (store store' : Store F) (groups : List (Versions F)) (tail : List (List (RowValue F)))
      (row : List (RowValue F)) (id : ℕ)
      → StoreHolds store groups tail
      → append fl store row ≡ (store', ok id)
      → (groups' : List (Versions F)) × (tail' : List (List (RowValue F))) × StoreHolds store'
          groups' tail'
        × (store_versions store' groups' tail'
            ≡ store_versions store groups tail ++ ((row, next_sequence store) ∷ []))
        × (id ≡ store.rows)
  append-versions store store' groups tail row id h e =
      let out =
        subst
          (λ r.
            Outcome (mark store.shared.knowledge store.rows) store groups tail
              ((row, mark store.shared.knowledge store.rows) ∷ []) store.rows r)
          e (append-Outcome fl store groups tail row h) in
      let (added, answer) = out.answered id refl in
      (
        out.goes_on.groups',
        out.goes_on.tail',
        out.goes_on.holds,
        out.goes_on.more
            ∙ ap (λ a. store_versions store groups tail ++ a) added
            ∙ ap (λ b. store_versions store groups tail ++ ((row, b) ∷ []))
                (sym (next_sequence-mark fl store)),
        answer,
      )

  -- Where a store holds some versions and a supersession answers, the store then holds the replacements
  -- behind them, all born at the store's next sequence; each victim that had no stamp has the same
  -- sequence for its stamp, and every other stamp is as it was; and the answer is the number of
  -- different victims that had no stamp.
  pub supersede-versions :
      (store store' : Store F) (groups : List (Versions F)) (tail : List (List (RowValue F)))
      (replacements : List (List (RowValue F))) (victims : List ℕ) (died : ℕ)
      → StoreHolds store groups tail
      → supersede fl store replacements victims ≡ (store', ok died)
      → (groups' : List (Versions F)) × (tail' : List (List (RowValue F))) × StoreHolds store'
          groups' tail'
        × (store_versions store' groups' tail'
            ≡ store_versions store groups tail ++ born_at (next_sequence store) replacements)
        × CountsDying store.shared.tombstones victims died
        × ((j : ℕ)
            → get_stamp store'.shared.tombstones j
              ≡ stamp_after victims (next_sequence store) j (get_stamp store.shared.tombstones j))
  supersede-versions store store' groups tail replacements victims died h e =
      let out =
        subst
          (λ r.
            Outcome (next_sequence store) store groups tail
              (born_at (next_sequence store) replacements)
              (length (newly_dead store.shared.tombstones victims)) r)
          e (supersede-Outcome fl store groups tail replacements victims h) in
      let (added, answer) = out.answered died refl in
      let (counts, stamped) =
        supersede-stamps fl store store' groups tail replacements victims died h e in
      (
        out.goes_on.groups',
        out.goes_on.tail',
        out.goes_on.holds,
        out.goes_on.more ∙ ap (λ a. store_versions store groups tail ++ a) added,
        counts,
        stamped,
      )
