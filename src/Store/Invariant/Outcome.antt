-- ===== src/Store/Invariant/Outcome.antt =====
-- The answer and the store that an operation of src/storage_lite/store.rs leaves, where it may fail at
-- any point or end with a flush.
use tally_db.Base.{ℕ, ◌≡◌, refl, sym, arith, subst, inl, inr, List, []}
use tally_db.Base.{leb, Result, ok, err, ok-injective, Bool-cases, Result-cases}
use tally_db.Floats.{Floats}
use tally_db.WriteBuffer.{RowValue, StorageError}
use tally_db.Store.{Store, flush, flushed_when_full}
use tally_db.Store.Versions.{Versions}
use tally_db.Store.Invariant.{StoreHolds, Continues}
use tally_db.Store.Invariant.Flushing.{Continues-refl, flushed-Continues}

-- The store goes on; where the operation answers, it added what it should, and the answer is the
-- expected one.
pub record Outcome {F : Type 0} {A : Type 0} (bound : ℕ) (store : Store F)
    (groups : List (Versions F)) (tail : List (List (RowValue F)))
    (expected : List (List (RowValue F) × ℕ)) (answer : A)
    (result : Store F × Result StorageError A) : Type 0 where
  pub added : List (List (RowValue F) × ℕ)
  pub goes_on : Continues bound added store groups tail result.0
  pub answered : (a : A) → result.1 ≡ ok a → (added ≡ expected) × (a ≡ answer)

module _ {F : Type 0} {A : Type 0} (bound : ℕ) (store : Store F) (groups : List (Versions F))
    (tail : List (List (RowValue F))) (expected : List (List (RowValue F) × ℕ)) (answer : A)
    (result : Store F × Result StorageError A) where
  pub refused-Outcome :
      (e : StorageError)
      → StoreHolds store groups tail
      → result ≡ (store, err e)
      → Outcome bound store groups tail expected answer result
  refused-Outcome e h same =
      subst (λ r. Outcome bound store groups tail expected answer r) (sym same)
        (record {
          added = [];
          goes_on = Continues-refl bound store groups tail h;
          answered = λ a g. absurd (ground arith);
        })

  pub settled-Outcome :
      StoreHolds store groups tail
      → expected ≡ []
      → result ≡ (store, ok answer)
      → Outcome bound store groups tail expected answer result
  settled-Outcome h nothing same =
      subst (λ r. Outcome bound store groups tail expected answer r) (sym same)
        (record {
          added = [];
          goes_on = Continues-refl bound store groups tail h;
          answered = λ a g. (sym nothing, sym (ok-injective g));
        })

module _ (fl : Floats) {A : Type 0} where
  open fl use {F}

  flushed-answer : (store1 : Store F) (a b : A) → (flushed_when_full fl store1 a).1 ≡ ok b → b ≡ a
  flushed-answer store1 a b g =
      elim (Bool-cases (leb store1.segment_rows store1.shared.buffer.rows)) [
        | inr f ↦ sym (ok-injective (rw f at g))
        | inl t ↦ elim (Result-cases (flush fl store1)) [
          | inr (e, k) ↦ absurd (ground arith)
          | inl (store2, k) ↦ ground arith
        ]
      ]

  pub accepted-Outcome :
      (bound : ℕ) (store store1 : Store F) (groups : List (Versions F))
      (tail : List (List (RowValue F))) (expected : List (List (RowValue F) × ℕ)) (answer : A)
      (result : Store F × Result StorageError A)
      → Continues bound expected store groups tail store1
      → result ≡ flushed_when_full fl store1 answer
      → Outcome bound store groups tail expected answer result
  accepted-Outcome bound store store1 groups tail expected answer result c same =
      subst (λ r. Outcome bound store groups tail expected answer r) (sym same)
        (record {
          added = expected;
          goes_on = flushed-Continues fl bound expected store store1 groups tail answer c;
          answered = λ a g. (refl, flushed-answer store1 answer a g);
        })
