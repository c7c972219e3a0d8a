-- ===== src/Store/Versions/Groups.antt =====
-- Groups of row versions, as the segments of src/storage_lite/store.rs follow each other.
use tally_db.Base.{ℕ, ◌+◌, ◌≡◌, refl, sym, ◌∙◌, ap, arith, subst, Bool, List, [], ◌∷◌, ◌++◌, length}
use mathlib.Core.List.{append_assoc, append-nil}
use tally_db.Segment.{Segment}
use tally_db.Store.Knowledge.{Stamps}
use tally_db.Store.Versions.{
  Versions, SegmentHolds, SegmentsHold, total, keep, visible, answer, answered,
}

pub keep-empty {ℓ} : {A : Type ℓ} (mask : List Bool) → keep {A = A} mask [] ≡ []
unfolding keep
keep-empty [] = refl
keep-empty (b ∷ mask) = refl

module _ {F : Type 0} where
  pub total-append :
      (groups : List (Versions F)) (versions : Versions F)
      → total (groups ++ (versions ∷ [])) ≡ total groups + length versions.rows
  total-append [] versions = omega arith
  total-append (g ∷ groups) versions = omega (arith, total-append groups versions)

  pub answer-append :
      (stamps : Stamps) (cut base : ℕ) (groups : List (Versions F)) (versions : Versions F)
      → answer stamps cut base (groups ++ (versions ∷ []))
        ≡ answer stamps cut base groups ++ answered stamps cut (base + total groups) versions
  unfolding answer
  answer-append stamps cut base [] versions =
      append-nil (answered stamps cut base versions)
      ∙ ap (λ b. answered stamps cut b versions) (omega arith)
  answer-append stamps cut base (g ∷ groups) versions =
      ap (λ l. answered stamps cut base g ++ l)
        (answer-append stamps cut (base + length g.rows) groups versions
          ∙ ap
              (λ b.
                answer stamps cut (base + length g.rows) groups ++ answered stamps cut b versions)
              (omega arith))
      ∙ sym (append_assoc (answered stamps cut base g) _ _)

  pub SegmentsHold-append :
      (segments : List (Segment F)) (groups : List (Versions F)) (base : ℕ) (segment : Segment F)
      (versions : Versions F)
      → SegmentsHold segments base groups
      → SegmentHolds segment (base + total groups) versions
      → SegmentsHold (segments ++ (segment ∷ [])) base (groups ++ (versions ∷ []))
  SegmentsHold-append [] [] base segment versions h last =
      (subst (λ b. SegmentHolds segment b versions) (omega arith) last, tt)
  SegmentsHold-append [] (g ∷ groups) base segment versions h last = absurd h
  SegmentsHold-append (s ∷ segments) [] base segment versions h last = absurd h
  SegmentsHold-append (s ∷ segments) (g ∷ groups) base segment versions h last = (
    h.0,
    SegmentsHold-append segments groups (base + length g.rows) segment versions h.1
        (subst (λ b. SegmentHolds segment b versions) (omega arith) last),
  )

  -- A group without rows answers nothing.
  pub answer-empty :
      (stamps : Stamps) (cut base : ℕ) (groups : List (Versions F)) (versions : Versions F)
      → versions.rows ≡ []
      → answer stamps cut base (groups ++ (versions ∷ [])) ≡ answer stamps cut base groups
  answer-empty stamps cut base groups versions e =
      answer-append stamps cut base groups versions
      ∙ ap
          (λ r.
            answer stamps cut base groups
            ++ keep (visible stamps cut (base + total groups) versions.births) r)
          e
      ∙ ap (λ r. answer stamps cut base groups ++ r)
          (keep-empty (visible stamps cut (base + total groups) versions.births))
      ∙ append-nil (answer stamps cut base groups)
