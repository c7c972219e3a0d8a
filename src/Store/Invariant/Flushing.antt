-- ===== src/Store/Invariant/Flushing.antt =====
-- `flush` of src/storage_lite/store.rs moves the buffered rows into a segment.
use tally_db.Base.{
  ℕ, ◌≡◌, refl, ◌∙◌, arith, subst, inl, inr, Option, none, some, List, [], ◌∷◌, ◌++◌,
}
use tally_db.Base.{length, ◌==◌, ok, ok-injective, went_on, Bool-cases, Result-cases, leb}
use tally_db.Floats.{Floats}
use tally_db.WriteBuffer.{RowValue, new_buffer}
use tally_db.WriteBuffer.Rows.{new_buffer-HoldsRows}
use tally_db.Store.{Store, flush, flushed_when_full}
use tally_db.Store.Knowledge.{Knowing, restarted}
use tally_db.Store.Knowledge.Births.{births-length, Kept, mark}
use tally_db.Store.Snapshot.{buffer_segment}
use tally_db.Store.Versions.{Versions, SegmentHolds}
use tally_db.Store.Versions.Groups.{answer-empty, SegmentsHold-append, total-append}
use mathlib.Core.List.{append-nil, append_assoc}
use tally_db.Base.{sym, ap}
use tally_db.Store.Invariant.{store_versions, flat, paired}
use tally_db.Store.Invariant.{buffered, StoreHolds, Continues}
use tally_db.Store.Invariant.Frozen.{buffer_segment-Holds}

restarted-Kept :
    (o : Option Knowing) (rows : ℕ) → Kept (restarted o) 0 × (mark (restarted o) rows ≡ mark o rows)
restarted-Kept none rows = (tt, refl)
restarted-Kept (some k) rows = (omega arith, refl)

module _ {F : Type 0} where
  pub flat-append :
      (groups : List (Versions F)) (versions : Versions F)
      → flat (groups ++ (versions ∷ [])) ≡ flat groups ++ paired versions.rows versions.births
  unfolding flat
  flat-append [] versions = append-nil (paired versions.rows versions.births)
  flat-append (g ∷ groups) versions =
      ap (λ l. paired g.rows g.births ++ l) (flat-append groups versions)
      ∙ sym (append_assoc (paired g.rows g.births) (flat groups) _)

  paired-empty : (births : List ℕ) → paired {F = F} [] births ≡ []
  unfolding paired
  paired-empty [] = refl
  paired-empty (b ∷ births) = refl

  pub paired-append :
      (rows : List (List (RowValue F))) (births : List ℕ) (row : List (RowValue F)) (birth : ℕ)
      → length births ≡ length rows
      → paired (rows ++ (row ∷ [])) (births ++ (birth ∷ []))
        ≡ paired rows births ++ ((row, birth) ∷ [])
  unfolding paired
  paired-append [] [] row birth l = refl
  paired-append [] (b ∷ births) row birth l = absurd (omega arith)
  paired-append (r ∷ rows) [] row birth l = absurd (omega arith)
  paired-append (r ∷ rows) (b ∷ births) row birth l =
      ap (λ l'. (r, b) ∷ l') (paired-append rows births row birth (omega arith))

  pub Continues-refl :
      (bound : ℕ) (store : Store F) (groups : List (Versions F)) (tail : List (List (RowValue F)))
      → StoreHolds store groups tail
      → Continues bound [] store groups tail store
  Continues-refl bound store groups tail h = record {
    groups' = groups;
    tail' = tail;
    holds = h;
    later = omega arith;
    same_answer = λ cut l. refl;
    more = sym (append-nil (store_versions store groups tail));
  }

  pub Continues-trans :
      (bound : ℕ) (added added' : List (List (RowValue F) × ℕ)) (s s1 s2 : Store F)
      (groups : List (Versions F)) (tail : List (List (RowValue F)))
      → (first : Continues bound added s groups tail s1)
      → Continues bound added' s1 first.groups' first.tail' s2
      → Continues bound (added ++ added') s groups tail s2
  Continues-trans bound added added' s s1 s2 groups tail first second = record {
    groups' = second.groups';
    tail' = second.tail';
    holds = second.holds;
    later = omega (arith, first.later, second.later);
    same_answer = λ cut l. second.same_answer cut l ∙ first.same_answer cut l;
    more =
        second.more
        ∙ ap (λ l. l ++ added') first.more
        ∙ append_assoc (store_versions s groups tail) added added';
  }

module _ (fl : Floats) where
  open fl use {F}

  pub flush-Continues :
      (bound : ℕ) (store store' : Store F) (groups : List (Versions F))
      (tail : List (List (RowValue F)))
      → StoreHolds store groups tail
      → flush fl store ≡ ok store'
      → Continues bound [] store groups tail store'
  unfolding flush
  flush-Continues bound store store' groups tail h e =
      let shared = store.shared in
      elim (Bool-cases (shared.buffer.rows == 0)) [
        | inl t ↦
            subst (λ s. Continues bound [] store groups tail s) (ok-injective (rw t at e))
              (Continues-refl bound store groups tail h)
        | inr f ↦
            let (segment, frozen, e1) = went_on (buffer_segment fl shared) _ (rw f at e) in
            let (buffer, fresh, e2) = went_on (new_buffer store.schema store.ordering_key) _ e1 in
            let (kept, same_mark) = restarted-Kept shared.knowledge store.rows in
            let len =
              births-length shared.buffer_base (length tail) store.rows h.whole shared.knowledge
                h.kept in
            subst (λ s. Continues bound [] store groups tail s) (ok-injective e2)
              (record {
                groups' = groups ++ (buffered shared tail ∷ []);
                tail' = [];
                holds = record {
                  held =
                      SegmentsHold-append shared.segments groups 0 segment (buffered shared tail)
                        h.held
                        (subst (λ b. SegmentHolds segment b (buffered shared tail))
                          (omega (arith, h.based))
                          (buffer_segment-Holds fl shared tail segment h.buffer_held len frozen));
                  based =
                      omega (arith, h.whole, h.based, total-append groups (buffered shared tail));
                  whole = omega arith;
                  buffer_held =
                      new_buffer-HoldsRows fl store.schema store.ordering_key buffer fresh;
                  kept = kept;
                  no_history = h.no_history;
                };
                later = omega (arith, same_mark);
                same_answer = λ cut l.
                    answer-empty shared.tombstones cut 0 (groups ++ (buffered shared tail ∷ [])) _
                      refl;
                more =
                    flat-append (groups ++ (buffered shared tail ∷ [])) _
                    ∙ ap (λ l. store_versions store groups tail ++ l) (paired-empty _);
              })
      ]

  pub flushed-Continues {ℓ} :
      {A : Type ℓ} (bound : ℕ) (added : List (List (RowValue F) × ℕ)) (store store1 : Store F)
      (groups : List (Versions F)) (tail : List (List (RowValue F))) (a : A)
      → Continues bound added store groups tail store1
      → Continues bound added store groups tail (flushed_when_full fl store1 a).0
  flushed-Continues bound added store store1 groups tail a c =
      elim (Bool-cases (leb store1.segment_rows store1.shared.buffer.rows)) [
        | inr f ↦ rw f c
        | inl t ↦ elim (Result-cases (flush fl store1)) [
          | inr (e, g) ↦
              let same : store1 ≡ (flushed_when_full fl store1 a).0 = ground arith in
              subst (λ s. Continues bound added store groups tail s) same c
          | inl (store2, g) ↦
              let same : store2 ≡ (flushed_when_full fl store1 a).0 = ground arith in
              subst (λ s. Continues bound added store groups tail s) same
                (subst (λ a. Continues bound a store groups tail store2) (append-nil added)
                  (Continues-trans bound added [] store store1 store2 groups tail c
                    (flush-Continues bound store1 store2 c.groups' c.tail' c.holds g)))
        ]
      ]
