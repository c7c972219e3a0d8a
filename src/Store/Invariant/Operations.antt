-- ===== src/Store/Invariant/Operations.antt =====
-- `append` and `tombstone` of src/storage_lite/store.rs keep what a store holds, and its answers at the
-- cuts that are past.
use tally_db.Base.{
  ℕ, ◌+◌, ◌≤◌, ◌<◌, ◌≡◌, sym, ◌∙◌, ap, arith, subst, inl, inr, Option, some, List, [], ◌∷◌, ◌++◌,
}
use tally_db.Base.{length, ok, ok-injective, went_on, Bool-cases, Option-cases, Result-cases}
use tally_db.Floats.{Floats}
use tally_db.WriteBuffer.{RowValue, StorageError, WriteBuffer, validate}
use tally_db.WriteBuffer.Rows.{append-HoldsRows}
use tally_db.Store.{
  Store, append, tombstone, newly_dead, extend_stamps, find_bad, next_sequence, is_empty,
}
use tally_db.Store.Knowledge.{
  Shared, Stamps, Knowing, append_row, advanced, watermark, consume_sequence, diverged, consumed,
}
use tally_db.Store.Knowledge.Births.{births, Kept, mark, advanced-births}
use tally_db.Store.Versions.{Versions, answer}
use mathlib.Core.List.{append-nil}
use tally_db.Store.Invariant.Outcome.{Outcome, refused-Outcome, accepted-Outcome}
use tally_db.Store.Invariant.{flat, store_versions}
use tally_db.Store.Invariant.{buffered, StoreHolds, Continues}
use tally_db.Store.Invariant.Axis.{axis, diverged-axis, axis-births, consumed-births}
use tally_db.Store.Invariant.Flushing.{Continues-refl}
use tally_db.Store.Invariant.Growing.{grown-Continues}
use tally_db.Store.Invariant.Stamping.{answer-extend_stamps}

pub watermark-mark :
    {F : Type 0} (shared : Shared F) (rows : ℕ) → watermark shared rows ≡ mark shared.knowledge rows
unfolding watermark
watermark-mark shared rows = elim (Option-cases shared.knowledge) [
  | inl n ↦ ground arith
  | inr (k, g) ↦ ground arith
]

module _ {F : Type 0} where
  pub stamped-Continues :
      (bound : ℕ) (store : Store F) (groups : List (Versions F)) (tail : List (List (RowValue F)))
      (stamps : Stamps) (o : Option Knowing)
      → StoreHolds store groups tail
      → births o store.shared.buffer_base (length tail)
        ≡ births store.shared.knowledge store.shared.buffer_base (length tail)
      → Kept o (length tail)
      → mark store.shared.knowledge store.rows ≤ mark o store.rows
      → ((cut : ℕ)
          → cut < bound
          → (gs : List (Versions F))
          → answer stamps cut 0 gs ≡ answer store.shared.tombstones cut 0 gs)
      → Continues bound [] store groups tail
          (record store { shared = record store.shared { tombstones = stamps; knowledge = o } })
  stamped-Continues bound store groups tail stamps o h same kept later unchanged = record {
    groups' = groups;
    tail' = tail;
    holds = record {
      held = h.held;
      based = h.based;
      whole = h.whole;
      buffer_held = h.buffer_held;
      kept = kept;
      no_history = h.no_history;
    };
    later = later;
    same_answer = λ cut l.
        ap (λ b. answer stamps cut 0 (groups ++ (record { rows = tail; births = b } ∷ []))) same
        ∙ unchanged cut l (groups ++ (buffered store.shared tail ∷ []));
    more =
        ap (λ b. flat (groups ++ (record { rows = tail; births = b } ∷ []))) same
        ∙ sym (append-nil (store_versions store groups tail));
  }

  abbrev pub killed : Store F → List ℕ → Store F
  killed store ids = record store {
    shared =
        consume_sequence
          (record store.shared {
            tombstones =
                extend_stamps (newly_dead store.shared.tombstones ids) (next_sequence store)
                  store.shared.tombstones;
          })
          store.rows;
  }

module _ (fl : Floats) where
  open fl use {F}

  append_row-Continues :
      (store : Store F) (groups : List (Versions F)) (tail : List (List (RowValue F)))
      (row : List (RowValue F)) (shared : Shared F)
      → StoreHolds store groups tail
      → append_row fl store.shared row ≡ ok shared
      → Continues
          (mark store.shared.knowledge store.rows)
          ((row, mark store.shared.knowledge store.rows) ∷ [])
          store
          groups
          tail
          (record store { rows = store.rows + 1; shared = shared })
  unfolding append_row
  append_row-Continues store groups tail row shared h e =
      let (buffer, pushed, e1) =
        went_on (tally_db.WriteBuffer.append fl store.shared.buffer row) _ e in
      let o = store.shared.knowledge in
      let (born, next, kept) =
        advanced-births store.shared.buffer_base (length tail) store.rows h.whole o h.kept in
      subst
        (λ s.
          Continues (mark o store.rows) ((row, mark o store.rows) ∷ []) store groups tail
            (record store { rows = store.rows + 1; shared = s }))
        (ok-injective e1)
        (grown-Continues store groups tail buffer (advanced o) row (mark o store.rows) h
          (append-HoldsRows fl store.shared.buffer buffer tail row h.buffer_held pushed) born kept
          (omega (arith, ap (λ r. mark (advanced o) r) {x = store.rows + 1} (omega arith) ∙ next)))

  -- An append that answers adds the row, born at the watermark; its answer is the row's id.
  pub append-Outcome :
      (store : Store F) (groups : List (Versions F)) (tail : List (List (RowValue F)))
      (row : List (RowValue F))
      → StoreHolds store groups tail
      → Outcome
          (mark store.shared.knowledge store.rows)
          store
          groups
          tail
          ((row, mark store.shared.knowledge store.rows) ∷ [])
          store.rows
          (append fl store row)
  unfolding append
  append-Outcome store groups tail row h =
      let bound = mark store.shared.knowledge store.rows in
      let added = (row, bound) ∷ [] in
      elim (Result-cases (validate store.shared.buffer row)) [
        | inr (e, g) ↦
            refused-Outcome bound store groups tail added store.rows (append fl store row) e h
              (ground arith)
        | inl (u, g) ↦ elim (Result-cases (append_row fl store.shared row)) [
          | inr (e, k) ↦
              refused-Outcome bound store groups tail added store.rows (append fl store row) e h
                (ground arith)
          | inl (shared, k) ↦
              let store1 = record store { rows = store.rows + 1; shared = shared } in
              accepted-Outcome fl bound store store1 groups tail added store.rows
                (append fl store row) (append_row-Continues store groups tail row shared h k)
                (ground arith)
        ]
      ]

  -- The kills that a deletion stamps, and the sequence that it consumes.
  pub killed-Continues :
      (store : Store F) (groups : List (Versions F)) (tail : List (List (RowValue F)))
      (ids : List ℕ)
      → StoreHolds store groups tail
      → Continues (mark store.shared.knowledge store.rows) [] store groups tail (killed store ids)
  unfolding consume_sequence next_sequence
  killed-Continues store groups tail ids h =
      let o = store.shared.knowledge in
      let n = store.shared.buffer.rows in
      let full : length tail ≡ n = sym h.buffer_held.rows_lem in
      let dead = newly_dead store.shared.tombstones ids in
      let (started, axis_kept, at) =
        axis-births o store.shared.buffer_base (length tail) store.rows h.whole h.kept in
      let k = axis o store.rows (length tail) in
      let (same, kept, next) = consumed-births k (length tail) axis_kept in
      let sequence = watermark-mark store.shared store.rows in
      let done =
        stamped-Continues (mark o store.rows) store groups tail
          (extend_stamps dead (next_sequence store) store.shared.tombstones)
          (some (consumed k (length tail))) h (same ∙ started) kept (omega (arith, next, at))
          (λ cut l gs.
            answer-extend_stamps store.shared.tombstones ids (next_sequence store) cut 0 gs
              (omega (arith, l, sequence))) in
      let shared1 = record store.shared {
        tombstones = extend_stamps dead (next_sequence store) store.shared.tombstones;
      } in
      let meant : consumed k (length tail) ≡ consumed (diverged shared1 store.rows) n =
        ap (λ m. consumed (axis o store.rows m) m) full
        ∙ ap (λ k'. consumed k' n) (sym (diverged-axis shared1 store.rows)) in
      subst
        (λ k'.
          Continues (mark o store.rows) [] store groups tail
            (record store { shared = record shared1 { knowledge = some k' } }))
        meant done

  pub tombstone-Continues :
      (store store' : Store F) (groups : List (Versions F)) (tail : List (List (RowValue F)))
      (ids : List ℕ) (died : ℕ)
      → StoreHolds store groups tail
      → tombstone fl store ids ≡ ok (store', died)
      → Continues (mark store.shared.knowledge store.rows) [] store groups tail store'
  unfolding tombstone
  tombstone-Continues store store' groups tail ids died h e =
      let bound = mark store.shared.knowledge store.rows in
      elim (Option-cases (find_bad ids store.rows)) [
        | inr (bad, g) ↦ absurd (ground arith)
        | inl g ↦ elim (Bool-cases (is_empty (newly_dead store.shared.tombstones ids))) [
          | inl t ↦
              let same : store ≡ store' = ground arith in
              subst (λ s. Continues bound [] store groups tail s) same
                (Continues-refl bound store groups tail h)
          | inr f ↦
              let same : killed store ids ≡ store' = ground arith in
              subst (λ s. Continues bound [] store groups tail s) same
                (killed-Continues store groups tail ids h)
        ]
      ]
