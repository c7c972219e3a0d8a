-- ===== src/Store/Invariant/Growing.antt =====
-- A row that `append` or `supersede` of src/storage_lite/store.rs puts into the buffer changes no
-- answer at a cut before its birth.
use tally_db.Base.{
  ℕ, suc, ◌+◌, ◌≤◌, ◌<◌, ◌≡◌, refl, sym, ◌∙◌, ap, arith, subst, Option, List, [], ◌∷◌, ◌++◌,
}
use tally_db.Base.{length, length-append}
use tally_db.WriteBuffer.{RowValue, WriteBuffer}
use tally_db.WriteBuffer.Rows.{HoldsRows}
use tally_db.Store.{Store}
use tally_db.Store.Knowledge.{Knowing, Stamps}
use tally_db.Store.Knowledge.Births.{births, births-length, Kept, mark}
use tally_db.Store.Versions.{Versions, visible, keep, answer, total}
use tally_db.Store.Versions.Groups.{answer-append}
use mathlib.Core.List.{append_assoc}
use tally_db.Store.Invariant.Flushing.{flat-append, paired-append}
use tally_db.Store.Invariant.{flat, paired}
use tally_db.Store.Invariant.{buffered, StoreHolds, Continues}

keep-visible_later {ℓ} :
    {A : Type ℓ} (stamps : Stamps) (cut base : ℕ) (births : List ℕ) (birth : ℕ) (rows : List A)
    (row : A)
    → length births ≡ length rows
    → cut < birth
    → keep (visible stamps cut base (births ++ (birth ∷ []))) (rows ++ (row ∷ []))
      ≡ keep (visible stamps cut base births) rows
unfolding keep visible
keep-visible_later stamps cut base [] birth [] row l c = ground arith
keep-visible_later stamps cut base [] birth (r ∷ rows) row l c = absurd (omega arith)
keep-visible_later stamps cut base (b ∷ births) birth [] row l c = absurd (omega arith)
keep-visible_later stamps cut base (b ∷ births) birth (r ∷ rows) row l c =
    rw (keep-visible_later stamps cut (base + 1) births birth rows row (omega arith) c) refl

module _ {F : Type 0} where
  abbrev pub grown : Store F → WriteBuffer F → Option Knowing → Store F
  grown store buffer knowledge = record store {
    rows = store.rows + 1;
    shared = record store.shared { buffer = buffer; knowledge = knowledge };
  }

  pub grown-Continues :
      (store : Store F) (groups : List (Versions F)) (tail : List (List (RowValue F)))
      (buffer : WriteBuffer F) (knowledge : Option Knowing) (row : List (RowValue F)) (birth : ℕ)
      → StoreHolds store groups tail
      → HoldsRows buffer (tail ++ (row ∷ []))
      → births knowledge store.shared.buffer_base (suc (length tail))
        ≡ births store.shared.knowledge store.shared.buffer_base (length tail) ++ (birth ∷ [])
      → Kept knowledge (suc (length tail))
      → mark store.shared.knowledge store.rows ≤ mark knowledge (store.rows + 1)
      → Continues birth ((row, birth) ∷ []) store groups tail (grown store buffer knowledge)
  grown-Continues store groups tail buffer knowledge row birth h more born kept later =
      let shared = store.shared in
      let len : suc (length tail) ≡ length (tail ++ (row ∷ [])) =
        omega (arith, length-append {0} tail (row ∷ [])) in
      let old =
        births-length shared.buffer_base (length tail) store.rows h.whole shared.knowledge h.kept in
      record {
        groups' = groups;
        tail' = tail ++ (row ∷ []);
        holds = record {
          held = h.held;
          based = h.based;
          whole = omega (arith, h.whole, len);
          buffer_held = more;
          kept = subst (λ n. Kept knowledge n) len kept;
          no_history = h.no_history;
        };
        later = later;
        same_answer = λ cut l.
            answer-append shared.tombstones cut 0 groups
              (buffered (grown store buffer knowledge).shared (tail ++ (row ∷ [])))
            ∙ ap (λ r. answer shared.tombstones cut 0 groups ++ r)
                (ap
                    (λ n.
                      keep
                        (visible shared.tombstones cut (0 + total groups)
                          (births knowledge shared.buffer_base n))
                        (tail ++ (row ∷ [])))
                    (sym len)
                  ∙ ap
                      (λ b.
                        keep (visible shared.tombstones cut (0 + total groups) b)
                          (tail ++ (row ∷ [])))
                      born
                  ∙ keep-visible_later shared.tombstones cut (0 + total groups)
                      (births shared.knowledge shared.buffer_base (length tail)) birth tail row old
                      l)
            ∙ sym (answer-append shared.tombstones cut 0 groups (buffered shared tail));
        more =
            flat-append groups (buffered (grown store buffer knowledge).shared (tail ++ (row ∷ [])))
            ∙ ap (λ l. flat groups ++ l)
                (ap (λ n. paired (tail ++ (row ∷ [])) (births knowledge shared.buffer_base n))
                    (sym len)
                  ∙ ap (λ b. paired (tail ++ (row ∷ [])) b) born
                  ∙ paired-append tail (births shared.knowledge shared.buffer_base (length tail))
                      row birth old)
            ∙ sym (append_assoc (flat groups) _ ((row, birth) ∷ []))
            ∙ ap (λ l. l ++ ((row, birth) ∷ [])) (sym (flat-append groups (buffered shared tail)));
      }
