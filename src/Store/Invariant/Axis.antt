-- ===== src/Store/Invariant/Axis.antt =====
-- The knowledge axis of src/storage_lite/store.rs once it has diverged from the row ids: sequences
-- that a deletion consumes, and replacements that share one.
use tally_db.Base.{ℕ, suc, ◌+◌, ◌-◌, ◌<◌, max, ◌≡◌, refl, ◌∙◌, ap, arith, inl, inr}
use tally_db.Base.{
  Option, none, some, Option-cases, List, [], ◌∷◌, ◌++◌, length, length-append, All-append, ◌==◌,
  ==_iff, Bool-cases,
}
use tally_db.Store.Knowledge.{Knowing, Shared, counting, materialized, diverged, consumed}
use tally_db.Store.Knowledge.Births.{
  births, births-length, births-below, All-weaken, Kept, mark, length-counting,
}

-- The axis that `get_or_insert_with` finds or starts.
abbrev pub axis : Option Knowing → ℕ → ℕ → Knowing
axis none rows n = record { next = rows; buffer_base = rows - n; births = none }
axis (some k) rows n = k

pub diverged-axis :
    {F : Type 0} (shared : Shared F) (rows : ℕ)
    → diverged shared rows ≡ axis shared.knowledge rows shared.buffer.rows
diverged-axis shared rows = elim (Option-cases shared.knowledge) [
  | inl n ↦ ground arith
  | inr (k, g) ↦ ground arith
]

pub axis-births :
    (o : Option Knowing) (base n rows : ℕ)
    → base + n ≡ rows
    → Kept o n
    → (materialized (axis o rows n) n ≡ births o base n)
      × Kept (some (axis o rows n)) n
      × ((axis o rows n).next ≡ mark o rows)
axis-births none base n rows whole h =
    (ap (λ b. counting b n) (omega (arith, whole)), omega (arith, whole), refl)
axis-births (some k) base n rows whole h = (refl, h, refl)

no_births {ℓ} : {A : Type ℓ} (xs ys : List A) → length xs ≡ 0 → length ys ≡ 0 → xs ≡ ys
no_births [] [] h g = refl
no_births (x ∷ xs) ys h g = absurd (omega arith)
no_births [] (y ∷ ys) h g = absurd (omega arith)

-- A deletion leaves the births of the buffered rows, and moves the watermark by one.
pub consumed-births :
    (k : Knowing) (n : ℕ)
    → Kept (some k) n
    → (materialized (consumed k n) n ≡ materialized k n)
      × Kept (some (consumed k n)) n
      × ((consumed k n).next ≡ k.next + 1)
consumed-births k n h =
    let len = births-length 0 n n (omega arith) (some k) h in
    let below = births-below 0 n n (omega arith) (some k) h in
    elim (Bool-cases (n == 0)) [
      | inl t ↦
          let empty = (==_iff n 0).0 t in
          rw t (
            no_births (counting (k.next + 1) n) (materialized k n)
                (length-counting (k.next + 1) n ∙ empty) (len ∙ empty),
            omega (arith, empty),
            refl,
          )
      | inr f ↦
          rw f (
            refl,
            (len, All-weaken k.next (k.next + 1) (materialized k n) (omega arith) below),
            refl,
          )
    ]

abbrev pub superseding : Knowing → ℕ → ℕ → Knowing
superseding k n sequence = record {
  next = max k.next (sequence + 1);
  buffer_base = k.buffer_base;
  births = some (materialized k n ++ (sequence ∷ []));
}

pub superseding-Kept :
    (k : Knowing) (n sequence : ℕ)
    → Kept (some k) n
    → Kept (some (superseding k n sequence)) (suc n)
superseding-Kept k n sequence h =
    let len = births-length 0 n n (omega arith) (some k) h in
    let below = births-below 0 n n (omega arith) (some k) h in
    (
      omega (arith, len, length-append {0} (materialized k n) (sequence ∷ [])),
      All-append (λ b. b < max k.next (sequence + 1)) (materialized k n) (sequence ∷ [])
          (All-weaken k.next (max k.next (sequence + 1)) (materialized k n) (omega arith) below)
          (omega arith, tt),
    )
