-- ===== src/Store/Invariant/Replacing.antt =====
-- `supersede` of src/storage_lite/store.rs: replacements that are born at one sequence, at which the
-- rows they replace are killed.
use tally_db.Base.{
  ℕ, ◌+◌, ◌≡◌, refl, sym, ◌∙◌, ap, arith, subst, inl, inr, ◌&&◌, some, List, [], ◌∷◌, ◌++◌,
}
use tally_db.Base.{length, ok, ok-injective, went_on, Bool-cases, Option-cases, Result-cases}
use tally_db.Floats.{Floats}
use tally_db.WriteBuffer.{misuse, tombstone_out_of_range}
use tally_db.WriteBuffer.{RowValue, StorageError, WriteBuffer}
use tally_db.WriteBuffer.Rows.{append-HoldsRows}
use tally_db.Store.{
  Store, supersede, supersede_rows, append_replacements, validate_all, with_stamps, newly_dead,
  extend_stamps, find_bad, next_sequence, is_empty,
}
use tally_db.Store.Knowledge.{Shared, append_superseding, diverged}
use tally_db.Store.Versions.{Versions, answer}
use tally_db.Store.Invariant.Outcome.{Outcome, refused-Outcome, settled-Outcome, accepted-Outcome}
use mathlib.Core.List.{append-nil}
use tally_db.Base.{length, true}
use tally_db.Store.Invariant.{StoreHolds, Continues}
use tally_db.Store.Invariant.Axis.{axis, diverged-axis, axis-births, superseding, superseding-Kept}
use tally_db.Store.Invariant.Flushing.{Continues-refl, Continues-trans}
use tally_db.Store.Invariant.Growing.{grown, grown-Continues}
use tally_db.Store.Invariant.Stamping.{answer-extend_stamps}
use tally_db.Store.Invariant.Operations.{stamped-Continues}

module _ {F : Type 0} where
  -- The rows, each born at the sequence.
  abbrev pub born_at : ℕ → List (List (RowValue F)) → List (List (RowValue F) × ℕ)
  born_at sequence [] = []
  born_at sequence (row ∷ rows) = (row, sequence) ∷ born_at sequence rows

  empty-born_at :
      (sequence : ℕ) (rows : List (List (RowValue F)))
      → is_empty rows ≡ true
      → born_at sequence rows ≡ []
  empty-born_at sequence [] h = refl
  empty-born_at sequence (row ∷ rows) h = absurd (ground arith)

empty-length {ℓ} : {A : Type ℓ} (xs : List A) → is_empty xs ≡ true → length xs ≡ 0
empty-length [] h = refl
empty-length (x ∷ xs) h = absurd (ground arith)

module _ (fl : Floats) where
  open fl use {F}

  append_superseding-Continues :
      (store : Store F) (groups : List (Versions F)) (tail : List (List (RowValue F)))
      (row : List (RowValue F)) (sequence : ℕ) (shared : Shared F)
      → StoreHolds store groups tail
      → append_superseding fl store.shared row sequence store.rows ≡ ok shared
      → Continues sequence
          ((row, sequence) ∷ [])
          store
          groups
          tail
          (record store { rows = store.rows + 1; shared = shared })
        × (shared.tombstones ≡ store.shared.tombstones)
  unfolding append_superseding
  append_superseding-Continues store groups tail row sequence shared h e =
      let (buffer, pushed, e1) =
        went_on (tally_db.WriteBuffer.append fl store.shared.buffer row) _ e in
      let o = store.shared.knowledge in
      let (started, axis_kept, at) =
        axis-births o store.shared.buffer_base (length tail) store.rows h.whole h.kept in
      let k = axis o store.rows (length tail) in
      let kept = superseding-Kept k (length tail) sequence axis_kept in
      let more =
        grown-Continues store groups tail buffer (some (superseding k (length tail) sequence)) row
          sequence h (append-HoldsRows fl store.shared.buffer buffer tail row h.buffer_held pushed)
          (ap (λ b. b ++ (sequence ∷ [])) started) kept (omega (arith, at)) in
      let meant : superseding k (length tail) sequence
          ≡ superseding (diverged store.shared store.rows) store.shared.buffer.rows sequence =
        ap (λ m. superseding (axis o store.rows m) m sequence) (sym h.buffer_held.rows_lem)
        ∙ ap (λ k'. superseding k' store.shared.buffer.rows sequence)
            (sym (diverged-axis store.shared store.rows)) in
      (
        subst
            (λ s.
              Continues sequence ((row, sequence) ∷ []) store groups tail
                (record store { rows = store.rows + 1; shared = s }))
            (ok-injective e1)
            (subst
              (λ k'.
                Continues sequence ((row, sequence) ∷ []) store groups tail
                  (grown store buffer (some k')))
              meant more),
        ap (λ (s : Shared F). s.tombstones) (sym (ok-injective e1)),
      )

  pub append_replacements-Continues :
      (store store' : Store F) (groups : List (Versions F)) (tail : List (List (RowValue F)))
      (replacements : List (List (RowValue F))) (sequence : ℕ)
      → StoreHolds store groups tail
      → append_replacements fl store replacements sequence ≡ ok store'
      → Continues sequence (born_at sequence replacements) store groups tail store'
        × (store'.shared.tombstones ≡ store.shared.tombstones)
  unfolding append_replacements
  append_replacements-Continues store store' groups tail [] sequence h e =
      let same = ok-injective e in
      (
        subst (λ s. Continues sequence [] store groups tail s) same
            (Continues-refl sequence store groups tail h),
        ap (λ (s : Store F). s.shared.tombstones) (sym same),
      )
  append_replacements-Continues store store' groups tail (row ∷ replacements) sequence h e =
      let (shared, one, e1) =
        went_on (append_superseding fl store.shared row sequence store.rows) _ e in
      let store1 = record store { rows = store.rows + 1; shared = shared } in
      let (first, stamps) =
        append_superseding-Continues store groups tail row sequence shared h one in
      let (rest, stamps') =
        append_replacements-Continues store1 store' first.groups' first.tail' replacements sequence
          first.holds e1 in
      (
        Continues-trans sequence ((row, sequence) ∷ []) (born_at sequence replacements) store store1
            store' groups tail first rest,
        stamps' ∙ stamps,
      )

  supersede_rows-Outcome :
      (store : Store F) (groups : List (Versions F)) (tail : List (List (RowValue F)))
      (replacements : List (List (RowValue F))) (victims : List ℕ)
      → StoreHolds store groups tail
      → Outcome
          (next_sequence store)
          store
          groups
          tail
          (born_at (next_sequence store) replacements)
          (length (newly_dead store.shared.tombstones victims))
          (supersede_rows fl store replacements (newly_dead store.shared.tombstones victims))
  unfolding supersede_rows
  supersede_rows-Outcome store groups tail replacements victims h =
      let bound = next_sequence store in
      let dead = newly_dead store.shared.tombstones victims in
      let result = supersede_rows fl store replacements dead in
      let added = born_at bound replacements in
      elim (Bool-cases (is_empty dead && is_empty replacements)) [
        | inl t ↦
            let no_rows : is_empty replacements ≡ true = ground arith in
            let no_dead = empty-length dead (ground arith) in
            settled-Outcome bound store groups tail added (length dead) result h
              (empty-born_at bound replacements no_rows) (ground arith)
        | inr f ↦ elim (Result-cases (append_replacements fl store replacements bound)) [
          | inr (e, g) ↦
              refused-Outcome bound store groups tail added (length dead) result e h (ground arith)
          | inl (store1, g) ↦
              let (grew, stamps) =
                append_replacements-Continues store store1 groups tail replacements bound h g in
              let store2 = with_stamps fl store1 dead bound in
              let marked =
                stamped-Continues bound store1 grew.groups' grew.tail'
                  (extend_stamps dead bound store1.shared.tombstones) store1.shared.knowledge
                  grew.holds refl grew.holds.kept (omega arith)
                  (λ cut l gs.
                    subst
                      (λ ts.
                        answer
                          (extend_stamps (newly_dead ts victims) bound store1.shared.tombstones) cut
                          0 gs
                        ≡ answer store1.shared.tombstones cut 0 gs)
                      stamps
                      (answer-extend_stamps store1.shared.tombstones victims bound cut 0 gs l)) in
              accepted-Outcome fl bound store store2 groups tail added (length dead) result
                (subst (λ a. Continues bound a store groups tail store2) (append-nil added)
                  (Continues-trans bound added [] store store1 store2 groups tail grew marked))
                (ground arith)
        ]
      ]

  -- A supersession that answers adds the replacements, all born at the watermark; its answer is the
  -- number of rows that died.
  pub supersede-Outcome :
      (store : Store F) (groups : List (Versions F)) (tail : List (List (RowValue F)))
      (replacements : List (List (RowValue F))) (victims : List ℕ)
      → StoreHolds store groups tail
      → Outcome
          (next_sequence store)
          store
          groups
          tail
          (born_at (next_sequence store) replacements)
          (length (newly_dead store.shared.tombstones victims))
          (supersede fl store replacements victims)
  unfolding supersede
  supersede-Outcome store groups tail replacements victims h =
      let bound = next_sequence store in
      let died = length (newly_dead store.shared.tombstones victims) in
      let result = supersede fl store replacements victims in
      let added = born_at bound replacements in
      elim (Bool-cases (is_empty victims)) [
        | inl t ↦ refused-Outcome bound store groups tail added died result misuse h (ground arith)
        | inr f ↦ elim (Result-cases (validate_all fl store replacements)) [
          | inr (e, g) ↦
              refused-Outcome bound store groups tail added died result e h (ground arith)
          | inl (u, g) ↦ elim (Option-cases (find_bad victims store.rows)) [
            | inr (bad, k) ↦
                refused-Outcome bound store groups tail added died result
                  (tombstone_out_of_range bad) h (ground arith)
            | inl k ↦
                let same : supersede_rows fl store replacements
                      (newly_dead store.shared.tombstones victims)
                    ≡ result =
                  ground arith in
                subst (λ r. Outcome bound store groups tail added died r) same
                  (supersede_rows-Outcome store groups tail replacements victims h)
          ]
        ]
      ]
