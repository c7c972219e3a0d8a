-- ===== src/Store/Deleting.antt =====
-- `tombstone` of src/storage_lite/store.rs: the stamps that a deletion leaves.
use tally_db.Base.{
  ℕ, ◌≡◌, refl, sym, ◌∙◌, ap, arith, inl, inr, Bool, true, false, not, ◌&&◌, ◌||◌, Option, none,
  some, List, [], ◌∷◌, length, ◌==◌, ==_iff, if◌then◌else◌, ok, Bool-cases, Option-cases, ◌<◌, ltb,
  subst,
}
use tally_db.Floats.{Floats}
use tally_db.Store.{
  Store, tombstone, insert_id, newly_dead, extend_stamps, find_bad, is_empty, next_sequence,
}
use tally_db.Store.Knowledge.{Stamps, get_stamp, is_stamped, consume_sequence}
use tally_db.Store.Invariant.Operations.{killed}
use tally_db.Store.Invariant.Stamping.{get_stamp-insert_stamp, All-insert_id}
use tally_db.Base.Sorted.{Ascending, above_lower}

unfoldable pub contains : List ℕ → ℕ → Bool
contains [] j = false
contains (id ∷ ids) j = (j == id) || contains ids j

contains-insert_id :
    (id j : ℕ) (ids : List ℕ) → contains (insert_id id ids) j ≡ ((j == id) || contains ids j)
unfolding contains insert_id
contains-insert_id id j [] = refl
contains-insert_id id j (i ∷ ids) = let rest = contains-insert_id id j ids in ground arith

contains-newly_dead :
    (stamps : Stamps) (j : ℕ) (ids : List ℕ)
    → contains (newly_dead stamps ids) j ≡ (contains ids j && not (is_stamped stamps j))
unfolding contains newly_dead
contains-newly_dead stamps j [] = refl
contains-newly_dead stamps j (id ∷ ids) =
    let rest = contains-newly_dead stamps j ids in
    let put = contains-insert_id id j (newly_dead stamps ids) in
    let same : j == id ≡ true → is_stamped stamps j ≡ is_stamped stamps id =
      λ t. ap (λ x. is_stamped stamps x) ((==_iff j id).0 t) in
    elim (Bool-cases (is_stamped stamps id)) [
      | inl t ↦ elim (Bool-cases (j == id)) [
        | inl e ↦ let s = same e in ground arith
        | inr n ↦ ground arith
      ]
      | inr f ↦ elim (Bool-cases (j == id)) [
        | inl e ↦ let s = same e in ground arith
        | inr n ↦ ground arith
      ]
    ]

insert_id-Ascending : (id : ℕ) (ids : List ℕ) → Ascending ids → Ascending (insert_id id ids)
unfolding insert_id
insert_id-Ascending id [] h = (tt, tt)
insert_id-Ascending id (i ∷ ids) (a, s) = elim (Bool-cases (ltb id i)) [
  | inl t ↦ let l : id < i = ground arith in rw t ((l, above_lower id i ids l a), (a, s))
  | inr f ↦ elim (Bool-cases (id == i)) [
    | inl e ↦ rw (f, e) (a, s)
    | inr n ↦
        let l : i < id = ground (arith, ==_iff id i) in
        rw (f, n) (All-insert_id (λ y. i < y) id ids l a, insert_id-Ascending id ids s)
  ]
]

newly_dead-Ascending : (stamps : Stamps) (ids : List ℕ) → Ascending (newly_dead stamps ids)
unfolding newly_dead
newly_dead-Ascending stamps [] = tt
newly_dead-Ascending stamps (id ∷ ids) =
    let rest = newly_dead-Ascending stamps ids in
    elim (Bool-cases (is_stamped stamps id)) [
      | inl t ↦ rw t rest
      | inr f ↦ rw f (insert_id-Ascending id (newly_dead stamps ids) rest)
    ]

-- Whether an id dies with some others, where its stamp is known.
abbrev pub dies : List ℕ → ℕ → Option ℕ → Bool
dies ids j none = contains ids j
dies ids j (some kill) = false

newly_dead-dies :
    (stamps : Stamps) (ids : List ℕ) (j : ℕ)
    → contains (newly_dead stamps ids) j ≡ dies ids j (get_stamp stamps j)
unfolding is_stamped
newly_dead-dies stamps ids j =
    let who = contains-newly_dead stamps j ids in
    elim (Option-cases (get_stamp stamps j)) [ inl n ↦ ground arith | inr (k, g) ↦ ground arith ]

-- A number is that of the ids that die: those of a list that has each of them once and nothing else.
abbrev pub CountsDying : Stamps → List ℕ → ℕ → Type 0
CountsDying stamps ids died =
    (dead : List ℕ) × Ascending dead
    × ((j : ℕ) → contains dead j ≡ dies ids j (get_stamp stamps j))
    × (died ≡ length dead)

pub newly_dead-CountsDying :
    (stamps : Stamps) (ids : List ℕ) → CountsDying stamps ids (length (newly_dead stamps ids))
newly_dead-CountsDying stamps ids =
    (newly_dead stamps ids, newly_dead-Ascending stamps ids, newly_dead-dies stamps ids, refl)

get_stamp-extend_stamps :
    (ids : List ℕ) (kill j : ℕ) (stamps : Stamps)
    → get_stamp (extend_stamps ids kill stamps) j
      ≡ (if contains ids j then some kill else get_stamp stamps j)
unfolding contains extend_stamps
get_stamp-extend_stamps [] kill j stamps = refl
get_stamp-extend_stamps (id ∷ ids) kill j stamps =
    let rest =
      get_stamp-extend_stamps ids kill j (tally_db.Store.Knowledge.insert_stamp id kill stamps) in
    let one = get_stamp-insert_stamp id kill j stamps in ground arith

-- The stamp of a row once some ids are deleted at a sequence.
abbrev pub stamp_after : List ℕ → ℕ → ℕ → Option ℕ → Option ℕ
stamp_after ids sequence j (some kill) = some kill
stamp_after ids sequence j none = if contains ids j then some sequence else none

pub stamped_after :
    (stamps : Stamps) (ids : List ℕ) (sequence j : ℕ)
    → get_stamp (extend_stamps (newly_dead stamps ids) sequence stamps) j
      ≡ stamp_after ids sequence j (get_stamp stamps j)
unfolding is_stamped
stamped_after stamps ids sequence j =
    let all = get_stamp-extend_stamps (newly_dead stamps ids) sequence j stamps in
    let who = contains-newly_dead stamps j ids in
    elim (Option-cases (get_stamp stamps j)) [ inl n ↦ ground arith | inr (k, g) ↦ ground arith ]

pub none_dead {ℓ} : {A : Type ℓ} (xs : List A) → is_empty xs ≡ true → xs ≡ []
none_dead [] h = refl
none_dead (x ∷ xs) h = absurd (ground arith)

module _ (fl : Floats) where
  open fl use {F}

  -- A deletion that answers stamps each id it is given that had no stamp with the store's next sequence,
  -- leaves every other stamp as it was, and answers with the number of different ids that it stamped.
  pub tombstone-stamps :
      (store store' : Store F) (ids : List ℕ) (died : ℕ)
      → tombstone fl store ids ≡ ok (store', died)
      → CountsDying store.shared.tombstones ids died
        × ((j : ℕ)
            → get_stamp store'.shared.tombstones j
              ≡ stamp_after ids (next_sequence store) j (get_stamp store.shared.tombstones j))
  unfolding tombstone consume_sequence extend_stamps
  tombstone-stamps store store' ids died e =
      let stamps = store.shared.tombstones in
      let dead = newly_dead stamps ids in
      let counts = newly_dead-CountsDying stamps ids in
      elim (Option-cases (find_bad ids store.rows)) [
        | inr (bad, g) ↦ absurd (ground arith)
        | inl g ↦ elim (Bool-cases (is_empty dead)) [
          | inl t ↦
              let same : store ≡ store' = ground arith in
              let nothing = none_dead dead t in
              let same_count : length dead ≡ died = ground arith in
              (
                subst (λ n. CountsDying stamps ids n) same_count counts,
                λ j.
                    ap (λ (s : Store F). get_stamp s.shared.tombstones j) (sym same)
                    ∙ ap (λ l. get_stamp (extend_stamps l (next_sequence store) stamps) j)
                        (sym nothing)
                    ∙ stamped_after stamps ids (next_sequence store) j,
              )
          | inr f ↦
              let same : killed store ids ≡ store' = ground arith in
              let same_count : length dead ≡ died = ground arith in
              (
                subst (λ n. CountsDying stamps ids n) same_count counts,
                λ j.
                    ap (λ (s : Store F). get_stamp s.shared.tombstones j) (sym same)
                    ∙ stamped_after stamps ids (next_sequence store) j,
              )
        ]
      ]
