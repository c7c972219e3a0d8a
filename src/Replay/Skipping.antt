-- ===== src/Replay/Skipping.antt =====
-- The units that `replay_wal` of src/storage_lite/store.rs skips, since flushed segments have their rows.
use tally_db.Base.{
  ℕ, suc, ◌+◌, ◌-◌, ◌<◌, ◌≡◌, refl, ◌∙◌, ap, subst, arith, List, [], ◌∷◌, ◌++◌, leb, if◌then◌else◌,
  All,
}
use tally_db.Replay.{Replayed, row_count, skip_flushed}

module _ {F : Type 0} where
  -- The number of rows of the units.
  abbrev pub total : List (Replayed F) → ℕ
  total [] = 0
  total (unit ∷ units) = row_count unit + total units

  pub skip_flushed-nothing : (units : List (Replayed F)) → skip_flushed 0 units ≡ units
  unfolding skip_flushed
  skip_flushed-nothing [] = refl
  skip_flushed-nothing (unit ∷ units) = ap (λ us. unit ∷ us) (skip_flushed-nothing units)

  skip_flushed-unit :
      (unit : Replayed F) (units : List (Replayed F)) (more : ℕ)
      → 0 < row_count unit
      → skip_flushed (row_count unit + more) (unit ∷ units) ≡ skip_flushed more units
  unfolding skip_flushed
  skip_flushed-unit unit units more h =
      let n = row_count unit + more - 1 in
      let same : suc n ≡ row_count unit + more = omega arith in
      let left : (if leb (row_count unit) (suc n) then suc n - row_count unit else 0) ≡ more =
        ground arith in
      subst (λ skip. skip_flushed skip (unit ∷ units) ≡ skip_flushed more units) same
        (ap (λ skip. skip_flushed skip units) left)

  -- What is skipped is what was flushed.
  pub skip_flushed-flushed :
      (flushed units : List (Replayed F))
      → All (λ unit. 0 < row_count unit) flushed
      → skip_flushed (total flushed) (flushed ++ units) ≡ units
  skip_flushed-flushed [] units h = skip_flushed-nothing units
  skip_flushed-flushed (unit ∷ flushed) units (h, hs) =
      skip_flushed-unit unit (flushed ++ units) (total flushed) h
      ∙ skip_flushed-flushed flushed units hs
