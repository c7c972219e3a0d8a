-- ===== src/Store/Knowledge/Births.antt =====
-- The knowledge axis of src/storage_lite/store.rs: every buffered row keeps the sequence at which it
-- was born, and the watermark stays above all of them.
use tally_db.Base.{ℕ, zero, suc, ◌+◌, ◌≤◌, ◌<◌, ◌≡◌, refl, ◌∙◌, ap, arith, subst}
use tally_db.Base.{Option, none, some, List, [], ◌∷◌, ◌++◌, length, length-append, All, All-append}
use tally_db.Store.Knowledge.{Knowing, counting, materialized}
use tally_db.Store.Knowledge.{advanced}

pub length-counting : (base n : ℕ) → length (counting base n) ≡ n
length-counting base zero = refl
length-counting base (suc n) = ap suc (length-counting (base + 1) n)

pub counting-append : (base n : ℕ) → counting base (suc n) ≡ counting base n ++ ((base + n) ∷ [])
counting-append base zero = ap (λ (k : ℕ). k ∷ []) (omega arith)
counting-append base (suc n) =
    ap (λ l. base ∷ l)
      (counting-append (base + 1) n
        ∙ ap (λ (k : ℕ). counting (base + 1) n ++ (k ∷ [])) (omega arith))

pub counting-below : (base n bound : ℕ) → base + n ≤ bound → All (λ b. b < bound) (counting base n)
counting-below base zero bound h = tt
counting-below base (suc n) bound h = (omega arith, counting-below (base + 1) n bound (omega arith))

pub All-weaken : (m n : ℕ) (bs : List ℕ) → m ≤ n → All (λ b. b < m) bs → All (λ b. b < n) bs
All-weaken m n [] h a = tt
All-weaken m n (b ∷ bs) h a = (omega (arith, a.0), All-weaken m n bs h a.1)

-- The births of `n` buffered rows from row id `base` on.
abbrev pub births : Option Knowing → ℕ → ℕ → List ℕ
births none base n = counting base n
births (some k) base n = materialized k n

-- Contiguous births end at the watermark; explicit ones are one for each row, and below it.
abbrev pub BirthsKept : Option (List ℕ) → ℕ → ℕ → ℕ → Type 0
BirthsKept none base n next = base + n ≡ next
BirthsKept (some bs) base n next = (length bs ≡ n) × All (λ b. b < next) bs

abbrev pub Kept : Option Knowing → ℕ → Type 0
Kept none n = Unit
Kept (some k) n = BirthsKept k.births k.buffer_base n k.next

abbrev pub mark : Option Knowing → ℕ → ℕ
mark none rows = rows
mark (some k) rows = k.next

BirthsKept-length :
    (o : Option (List ℕ)) (base n next : ℕ)
    → BirthsKept o base n next
    → length (materialized (record { next = next; buffer_base = base; births = o }) n) ≡ n
BirthsKept-length none base n next h = length-counting base n
BirthsKept-length (some bs) base n next h = h.0

BirthsKept-below :
    (o : Option (List ℕ)) (base n next : ℕ)
    → BirthsKept o base n next
    → All (λ b. b < next) (materialized (record { next = next; buffer_base = base; births = o }) n)
BirthsKept-below none base n next h = counting-below base n next (omega arith)
BirthsKept-below (some bs) base n next h = h.1

advanced_births-Kept :
    (o : Option (List ℕ)) (base n next : ℕ)
    → BirthsKept o base n next
    → (materialized
          (record {
            next = suc next;
            buffer_base = base;
            births = elim o [ none ↦ none | some bs ↦ some (bs ++ (next ∷ [])) ];
          })
          (suc n)
        ≡ materialized (record { next = next; buffer_base = base; births = o }) n ++ (next ∷ []))
      × BirthsKept
          (elim o [ none ↦ none | some bs ↦ some (bs ++ (next ∷ [])) ])
          base
          (suc n)
          (suc next)
advanced_births-Kept none base n next h =
    (counting-append base n ∙ ap (λ (k : ℕ). counting base n ++ (k ∷ [])) h, omega (arith, h))
advanced_births-Kept (some bs) base n next h = (
  refl,
  (
    omega (arith, h.0, length-append {0} bs (next ∷ [])),
    All-append (λ b. b < suc next) bs (next ∷ []) (All-weaken next (suc next) bs (omega arith) h.1)
        (omega arith, tt),
  ),
)

module _ (base n rows : ℕ) (whole : base + n ≡ rows) where
  pub births-length : (o : Option Knowing) → Kept o n → length (births o base n) ≡ n
  births-length none h = length-counting base n
  births-length (some k) h = BirthsKept-length k.births k.buffer_base n k.next h

  pub births-below : (o : Option Knowing) → Kept o n → All (λ b. b < mark o rows) (births o base n)
  births-below none h = counting-below base n rows (omega arith)
  births-below (some k) h = BirthsKept-below k.births k.buffer_base n k.next h

  -- An ordinary row is born at the watermark, and moves it by one.
  pub advanced-births :
      (o : Option Knowing)
      → Kept o n
      → (births (advanced o) base (suc n) ≡ births o base n ++ (mark o rows ∷ []))
        × (mark (advanced o) (suc rows) ≡ suc (mark o rows))
        × Kept (advanced o) (suc n)
  advanced-births none h =
      (counting-append base n ∙ ap (λ (k : ℕ). counting base n ++ (k ∷ [])) whole, refl, tt)
  advanced-births (some k) h =
      let (same, kept) = advanced_births-Kept k.births k.buffer_base n k.next h in
      let kept' : Kept (advanced (some k)) (suc n) =
        subst
          (λ w.
            BirthsKept (elim k.births [ none ↦ none | some bs ↦ some (bs ++ (k.next ∷ [])) ])
              k.buffer_base (suc n) w)
          (omega arith) kept in
      (same, omega arith, kept')
