-- ===== src/Store/Invariant/Stamping.antt =====
-- Kill stamps of src/storage_lite/store.rs: a kill at a later sequence changes no answer at an earlier
-- cut.
use tally_db.Base.{
  ℕ, ◌+◌, ◌<◌, ◌≡◌, refl, sym, ◌∙◌, ap, not, arith, subst, inl, inr, false, some, List, [], ◌∷◌,
}
use tally_db.Base.{length, ltb, ◌==◌, ==_iff, All, Option-cases, Bool-cases, if◌then◌else◌}
use tally_db.Store.{insert_id, newly_dead, extend_stamps}
use tally_db.Store.Knowledge.{Stamps, insert_stamp, get_stamp, is_stamped}
use tally_db.Store.Snapshot.{killed_by}
use tally_db.Store.Versions.Reading.{outlives-killed_by}
use tally_db.Store.Versions.{Versions, outlives, visible, answer}

pub get_stamp-insert_stamp :
    (id kill j : ℕ) (stamps : Stamps)
    → get_stamp (insert_stamp id kill stamps) j
      ≡ (if j == id then some kill else get_stamp stamps j)
unfolding get_stamp insert_stamp
get_stamp-insert_stamp id kill j [] = refl
get_stamp-insert_stamp id kill j ((i, k) ∷ stamps) =
    let rest = get_stamp-insert_stamp id kill j stamps in ground arith

killed_by-insert_stamp :
    (id kill cut j : ℕ) (stamps : Stamps)
    → cut < kill
    → killed_by stamps cut id ≡ false
    → killed_by (insert_stamp id kill stamps) cut j ≡ killed_by stamps cut j
killed_by-insert_stamp id kill cut j stamps l f =
    let got = get_stamp-insert_stamp id kill j stamps in
    elim (Bool-cases (j == id)) [
      | inl t ↦
          let e = (==_iff j id).0 t in
          let f' = subst (λ x. killed_by stamps cut x ≡ false) (sym e) f in ground arith
      | inr n ↦ ground arith
    ]

All-map : {P Q : ℕ → Type 0} (ids : List ℕ) → ((id : ℕ) → P id → Q id) → All P ids → All Q ids
All-map [] f a = tt
All-map (id ∷ ids) f (p, a) = (f id p, All-map ids f a)

killed_by-extend_stamps :
    (ids : List ℕ) (kill cut j : ℕ) (stamps : Stamps)
    → cut < kill
    → All (λ id. killed_by stamps cut id ≡ false) ids
    → killed_by (extend_stamps ids kill stamps) cut j ≡ killed_by stamps cut j
unfolding extend_stamps
killed_by-extend_stamps [] kill cut j stamps l a = refl
killed_by-extend_stamps (id ∷ ids) kill cut j stamps l (f, a) =
    killed_by-extend_stamps ids kill cut j (insert_stamp id kill stamps) l
      (All-map ids (λ j' g. killed_by-insert_stamp id kill cut j' stamps l f ∙ g) a)
    ∙ killed_by-insert_stamp id kill cut j stamps l f

pub All-insert_id :
    (P : ℕ → Type 0) (id : ℕ) (ids : List ℕ) → P id → All P ids → All P (insert_id id ids)
unfolding insert_id
All-insert_id P id [] p a = (p, tt)
All-insert_id P id (i ∷ ids) p (q, a) =
    let rest = All-insert_id P id ids p a in
    elim (Bool-cases (ltb id i)) [
      | inl t ↦ rw t (p, (q, a))
      | inr f ↦ elim (Bool-cases (id == i)) [
        | inl t ↦ rw (f, t) (q, a)
        | inr g ↦ rw (f, g) (q, rest)
      ]
    ]

newly_dead-unkilled :
    (stamps : Stamps) (cut : ℕ) (ids : List ℕ)
    → All (λ id. killed_by stamps cut id ≡ false) (newly_dead stamps ids)
unfolding newly_dead is_stamped
newly_dead-unkilled stamps cut [] = tt
newly_dead-unkilled stamps cut (id ∷ ids) =
    let P = λ (i : ℕ). killed_by stamps cut i ≡ false in
    let rest = newly_dead-unkilled stamps cut ids in
    let dead = newly_dead stamps ids in
    elim (Option-cases (get_stamp stamps id)) [
      | inl n ↦
          let live : insert_id id dead ≡ newly_dead stamps (id ∷ ids) = ground arith in
          subst (λ l. All P l) live (All-insert_id P id dead (ground arith) rest)
      | inr (k, g) ↦
          let skipped : dead ≡ newly_dead stamps (id ∷ ids) = ground arith in
          subst (λ l. All P l) skipped rest
    ]

visible-cong :
    (stamps stamps' : Stamps) (cut base : ℕ) (births : List ℕ)
    → ((id : ℕ) → killed_by stamps' cut id ≡ killed_by stamps cut id)
    → visible stamps' cut base births ≡ visible stamps cut base births
unfolding visible
visible-cong stamps stamps' cut base [] same = refl
visible-cong stamps stamps' cut base (birth ∷ births) same =
    let now = outlives-killed_by stamps cut base in
    let later = outlives-killed_by stamps' cut base in
    let alike : outlives cut (get_stamp stamps' base) ≡ outlives cut (get_stamp stamps base) =
      sym later ∙ ap not (same base) ∙ now in
    rw (alike, visible-cong stamps stamps' cut (base + 1) births same) refl

pub answer-cong :
    {F : Type 0} (stamps stamps' : Stamps) (cut base : ℕ) (groups : List (Versions F))
    → ((id : ℕ) → killed_by stamps' cut id ≡ killed_by stamps cut id)
    → answer stamps' cut base groups ≡ answer stamps cut base groups
unfolding answer
answer-cong stamps stamps' cut base [] same = refl
answer-cong stamps stamps' cut base (g ∷ groups) same =
    rw
      (
        visible-cong stamps stamps' cut base g.births same,
        answer-cong stamps stamps' cut (base + length g.rows) groups same,
      )
      refl

-- A kill that comes later changes no answer.
pub answer-extend_stamps :
    {F : Type 0} (stamps : Stamps) (ids : List ℕ) (kill cut base : ℕ) (groups : List (Versions F))
    → cut < kill
    → answer (extend_stamps (newly_dead stamps ids) kill stamps) cut base groups
      ≡ answer stamps cut base groups
answer-extend_stamps stamps ids kill cut base groups l = answer-cong stamps _ cut base groups (λ id.
    killed_by-extend_stamps (newly_dead stamps ids) kill cut id stamps l
      (newly_dead-unkilled stamps cut ids))
