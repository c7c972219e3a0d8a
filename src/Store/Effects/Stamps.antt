-- ===== src/Store/Effects/Stamps.antt =====
-- The stamps that `supersede` of src/storage_lite/store.rs leaves.
use tally_db.Base.{
  ℕ, ◌≡◌, sym, ◌∙◌, ap, arith, ◌&&◌, List, length, leb, inl, inr, Bool-cases, Option-cases,
  Result-cases, ok, went_on, subst, ◌==◌,
}
use tally_db.Floats.{Floats}
use tally_db.WriteBuffer.{RowValue, new_buffer}
use tally_db.Store.{
  Store, supersede, supersede_rows, validate_all, append_replacements, with_stamps, flush,
  flushed_when_full, next_sequence, newly_dead, extend_stamps, find_bad, is_empty,
}
use tally_db.Store.Knowledge.{get_stamp}
use tally_db.Store.Snapshot.{buffer_segment}
use tally_db.Store.Versions.{Versions}
use tally_db.Store.Invariant.{StoreHolds}
use tally_db.Store.Invariant.Replacing.{append_replacements-Continues}
use tally_db.Store.Deleting.{
  CountsDying, newly_dead-CountsDying, stamp_after, stamped_after, none_dead,
}

module _ (fl : Floats) where
  open fl use {F}

  flush-tombstones :
      (store store' : Store F)
      → flush fl store ≡ ok store'
      → store'.shared.tombstones ≡ store.shared.tombstones
  unfolding flush
  flush-tombstones store store' e = elim (Bool-cases (store.shared.buffer.rows == 0)) [
    | inl t ↦
        let same : store ≡ store' = ground arith in
        ap (λ (s : Store F). s.shared.tombstones) (sym same)
    | inr f ↦
        let (segment, frozen, e1) = went_on (buffer_segment fl store.shared) _ (rw f at e) in
        let (buffer, fresh, e2) = went_on (new_buffer store.schema store.ordering_key) _ e1 in
        ground arith
  ]

  flushed_when_full-tombstones :
      (store store' : Store F) (died died' : ℕ)
      → flushed_when_full fl store died ≡ (store', ok died')
      → (store'.shared.tombstones ≡ store.shared.tombstones) × (died ≡ died')
  flushed_when_full-tombstones store store' died died' e =
      elim (Bool-cases (leb store.segment_rows store.shared.buffer.rows)) [
        | inr f ↦
            let same : store ≡ store' = ground arith in
            (ap (λ (s : Store F). s.shared.tombstones) (sym same), ground arith)
        | inl t ↦ elim (Result-cases (flush fl store)) [
          | inr (x, g) ↦ absurd (ground arith)
          | inl (store1, g) ↦
              let same : store1 ≡ store' = ground arith in
              (
                ap (λ (s : Store F). s.shared.tombstones) (sym same)
                    ∙ flush-tombstones store store1 g,
                ground arith,
              )
        ]
      ]

  -- The stamps of a store are those of another, with the given ids killed at a sequence.
  abbrev pub Stamped : Store F → Store F → List ℕ → ℕ → Type 0
  Stamped store store' ids sequence =
      (j : ℕ)
      → get_stamp store'.shared.tombstones j
        ≡ stamp_after ids sequence j (get_stamp store.shared.tombstones j)

  supersede_rows-stamps :
      (store store' : Store F) (groups : List (Versions F)) (tail : List (List (RowValue F)))
      (replacements : List (List (RowValue F))) (victims : List ℕ) (died : ℕ)
      → StoreHolds store groups tail
      → supersede_rows fl store replacements (newly_dead store.shared.tombstones victims)
        ≡ (store', ok died)
      → (length (newly_dead store.shared.tombstones victims) ≡ died)
        × Stamped store store' victims (next_sequence store)
  unfolding supersede_rows extend_stamps
  supersede_rows-stamps store store' groups tail replacements victims died h e =
      let stamps = store.shared.tombstones in
      let bound = next_sequence store in
      let dead = newly_dead stamps victims in
      elim (Bool-cases (is_empty dead && is_empty replacements)) [
        | inl t ↦
            let same : store ≡ store' = ground arith in
            let nothing = none_dead dead (ground arith) in
            (
              ap (λ l. length l) nothing ∙ ground arith,
              λ j.
                  ap (λ (s : Store F). get_stamp s.shared.tombstones j) (sym same)
                  ∙ ap (λ l. get_stamp (extend_stamps l bound stamps) j) (sym nothing)
                  ∙ stamped_after stamps victims bound j,
            )
        | inr f ↦ elim (Result-cases (append_replacements fl store replacements bound)) [
          | inr (x, g) ↦ absurd (ground arith)
          | inl (store1, g) ↦
              let (grew, kept) =
                append_replacements-Continues fl store store1 groups tail replacements bound h g in
              let full : flushed_when_full fl (with_stamps fl store1 dead bound) (length dead)
                  ≡ (store', ok died) =
                ground arith in
              let (left, count) =
                flushed_when_full-tombstones (with_stamps fl store1 dead bound) store' (length dead)
                  died full in
              (
                count,
                λ j.
                    ap (λ ts. get_stamp ts j) left
                    ∙ ap (λ ts. get_stamp (extend_stamps dead bound ts) j) kept
                    ∙ stamped_after stamps victims bound j,
              )
        ]
      ]

  -- A supersession that answers stamps those of its victims that had no stamp, and counts them.
  pub supersede-stamps :
      (store store' : Store F) (groups : List (Versions F)) (tail : List (List (RowValue F)))
      (replacements : List (List (RowValue F))) (victims : List ℕ) (died : ℕ)
      → StoreHolds store groups tail
      → supersede fl store replacements victims ≡ (store', ok died)
      → CountsDying store.shared.tombstones victims died
        × Stamped store store' victims (next_sequence store)
  unfolding supersede
  supersede-stamps store store' groups tail replacements victims died h e =
      elim (Bool-cases (is_empty victims)) [
        | inl t ↦ absurd (ground arith)
        | inr f ↦ elim (Result-cases (validate_all fl store replacements)) [
          | inr (x, g) ↦ absurd (ground arith)
          | inl (u, g) ↦ elim (Option-cases (find_bad victims store.rows)) [
            | inr (bad, k) ↦ absurd (ground arith)
            | inl k ↦
                let (count, stamped) =
                  supersede_rows-stamps store store' groups tail replacements victims died h
                    (ground arith) in
                (
                  subst (λ n. CountsDying store.shared.tombstones victims n) count
                      (newly_dead-CountsDying store.shared.tombstones victims),
                  stamped,
                )
          ]
        ]
      ]
