-- ===== src/Store/Reached.antt =====
-- What calls make of a store of src/storage_lite/store.rs, one after the other: the states that are
-- reached, and the answers of `as_of` along the way.
use tally_db.Base.{
  ℕ, ◌≤◌, ◌<◌, ◌≡◌, refl, sym, ◌∙◌, ap, arith, subst, List, [], ok, went_on, ok-injective,
  Bool-cases, inl, inr, ◌==◌,
}
use tally_db.Column.{Schema}
use tally_db.Floats.{Floats}
use tally_db.Segment.{SegmentView}
use tally_db.WriteBuffer.{RowValue, new_buffer}
use tally_db.WriteBuffer.Rows.{new_buffer-HoldsRows}
use tally_db.Store.{
  Store, new_store, append, tombstone, supersede, flush, next_sequence, knowledge_snapshot,
}
use tally_db.Store.Knowledge.Births.{mark}
use tally_db.Store.Snapshot.{KnowledgeSnapshot, as_of}
use tally_db.Store.Versions.{Versions, read_views}
use tally_db.Base.{◌++◌}
use tally_db.Store.Invariant.{StoreHolds, store_answer, Continues}
use tally_db.Store.Invariant.Frozen.{as_of-answer}
use tally_db.Store.Invariant.Flushing.{Continues-refl, Continues-trans, flush-Continues}
use tally_db.Store.Invariant.Operations.{append-Outcome, tombstone-Continues, watermark-mark}
use tally_db.Store.Invariant.Replacing.{supersede-Outcome}

module _ (fl : Floats) where
  open fl use {F}

  -- One call. An append and a supersession leave a store whatever they answer.
  pub data Step : Store F → Store F → Type 0 where
    append_step : {store : Store F} (row : List (RowValue F)) → Step store (append fl store row).0
    supersede_step :
        {store : Store F} (replacements : List (List (RowValue F))) (victims : List ℕ)
        → Step store (supersede fl store replacements victims).0
    tombstone_step :
        {store store' : Store F} (ids : List ℕ) (died : ℕ)
        → tombstone fl store ids ≡ ok (store', died)
        → Step store store'
    flush_step : {store store' : Store F} → flush fl store ≡ ok store' → Step store store'

  pub data Reached : Store F → Store F → Type 0 where
    here : {store : Store F} → Reached store store
    call : {s t u : Store F} → Step s t → Reached t u → Reached s u

  -- A store goes on, whatever is added.
  abbrev GoesOn : ℕ → Store F → List (Versions F) → List (List (RowValue F)) → Store F → Type 0
  GoesOn bound store groups tail store' =
      (added : List (List (RowValue F) × ℕ)) × Continues bound added store groups tail store'

  Step-Continues :
      (store store' : Store F) (groups : List (Versions F)) (tail : List (List (RowValue F)))
      → StoreHolds store groups tail
      → Step store store'
      → GoesOn (next_sequence store) store groups tail store'
  unfolding next_sequence
  Step-Continues store _ groups tail h (append_step row) =
      let out = append-Outcome fl store groups tail row h in
      subst (λ b. GoesOn b store groups tail (append fl store row).0)
        (sym (watermark-mark store.shared store.rows)) (out.added, out.goes_on)
  Step-Continues store _ groups tail h (supersede_step replacements victims) =
      let out = supersede-Outcome fl store groups tail replacements victims h in
      (out.added, out.goes_on)
  Step-Continues store store' groups tail h (tombstone_step ids died e) =
      subst (λ b. GoesOn b store groups tail store') (sym (watermark-mark store.shared store.rows))
        ([], tombstone-Continues fl store store' groups tail ids died h e)
  Step-Continues store store' groups tail h (flush_step e) =
      ([], flush-Continues fl (next_sequence store) store store' groups tail h e)

  lowered :
      (bound high : ℕ) (added : List (List (RowValue F) × ℕ)) (store store' : Store F)
      (groups : List (Versions F)) (tail : List (List (RowValue F)))
      → bound ≤ high
      → Continues high added store groups tail store'
      → Continues bound added store groups tail store'
  lowered bound high added store store' groups tail l c = record {
    groups' = c.groups';
    tail' = c.tail';
    holds = c.holds;
    later = c.later;
    same_answer = λ cut b. c.same_answer cut (omega (arith, l, b));
    more = c.more;
  }

  pub next_sequence-mark :
      (store : Store F) → next_sequence store ≡ mark store.shared.knowledge store.rows
  unfolding next_sequence
  next_sequence-mark store = watermark-mark store.shared store.rows

  Reached-Continues :
      (bound : ℕ) (store store' : Store F) (groups : List (Versions F))
      (tail : List (List (RowValue F)))
      → StoreHolds store groups tail
      → bound ≤ next_sequence store
      → Reached store store'
      → GoesOn bound store groups tail store'
  Reached-Continues bound store _ groups tail h l here =
      ([], Continues-refl bound store groups tail h)
  Reached-Continues bound store store' groups tail h l (call {t = store1} step more) =
      let (added, high) = Step-Continues store store1 groups tail h step in
      let first = lowered bound (next_sequence store) added store store1 groups tail l high in
      let (added', rest) =
        Reached-Continues bound store1 store' first.groups' first.tail' first.holds
          (omega (arith, l, first.later, next_sequence-mark store, next_sequence-mark store1))
          more in
      (
        added ++ added',
        Continues-trans bound added added' store store1 store' groups tail first rest,
      )

  pub new_store-StoreHolds :
      (schema : Schema) (ordering_key segment_rows : ℕ) (store : Store F)
      → new_store schema ordering_key segment_rows ≡ ok store
      → StoreHolds store [] []
  unfolding new_store
  new_store-StoreHolds schema ordering_key segment_rows store e =
      elim (Bool-cases (segment_rows == 0)) [
        | inl t ↦ absurd (ground arith)
        | inr f ↦
            let (buffer, fresh, e1) = went_on (new_buffer schema ordering_key) _ (rw f at e) in
            subst (λ s. StoreHolds s [] []) (ok-injective e1)
              (record {
                held = tt;
                based = refl;
                whole = omega arith;
                buffer_held = new_buffer-HoldsRows fl schema ordering_key buffer fresh;
                kept = tt;
                no_history = refl;
              })
      ]

  -- In a store that calls made from a new one, there are row versions that it holds, and AS OF answers
  -- with those that were born at the cut or before it, and killed, if at all, after it.
  pub as_of-versions :
      (schema : Schema) (ordering_key segment_rows : ℕ) (fresh store : Store F)
      (taken : KnowledgeSnapshot F) (cut : ℕ)
      → new_store schema ordering_key segment_rows ≡ ok fresh
      → Reached fresh store
      → knowledge_snapshot fl store ≡ ok taken
      → (groups : List (Versions F)) × (tail : List (List (RowValue F))) × StoreHolds store groups
          tail
        × (views : List (SegmentView F)) × (as_of taken cut ≡ ok views)
        × (read_views views ≡ ok (store_answer store groups tail cut))
  as_of-versions schema ordering_key segment_rows fresh store taken cut new calls e =
      let (before, c) =
        Reached-Continues 0 fresh store [] []
          (new_store-StoreHolds schema ordering_key segment_rows fresh new) (omega arith) calls in
      let (views, answers, read) = as_of-answer fl store c.groups' c.tail' taken cut c.holds e in
      (c.groups', c.tail', c.holds, views, answers, read)

  -- Take a store that any calls made from a new one, and a cut below its next sequence. Whatever calls
  -- follow, a snapshot taken after them answers AS OF the cut with the same rows as one taken before.
  pub as_of-stable :
      (schema : Schema) (ordering_key segment_rows : ℕ) (fresh store store' : Store F)
      (taken taken' : KnowledgeSnapshot F) (cut : ℕ)
      → new_store schema ordering_key segment_rows ≡ ok fresh
      → Reached fresh store
      → Reached store store'
      → cut < next_sequence store
      → knowledge_snapshot fl store ≡ ok taken
      → knowledge_snapshot fl store' ≡ ok taken'
      → (views views' : List (SegmentView F)) × (rows : List (List (RowValue F))) × (as_of taken cut
          ≡ ok views)
        × (as_of taken' cut ≡ ok views')
        × (read_views views ≡ ok rows)
        × (read_views views' ≡ ok rows)
  as_of-stable schema ordering_key segment_rows fresh store store' taken taken' cut new calls more l
        e e' =
      let (before, c) =
        Reached-Continues 0 fresh store [] []
          (new_store-StoreHolds schema ordering_key segment_rows fresh new) (omega arith) calls in
      let (between, d) =
        Reached-Continues (next_sequence store) store store' c.groups' c.tail' c.holds (omega arith)
          more in
      let (views, answers, read) = as_of-answer fl store c.groups' c.tail' taken cut c.holds e in
      let (views', answers', read') =
        as_of-answer fl store' d.groups' d.tail' taken' cut d.holds e' in
      (
        views,
        views',
        store_answer store c.groups' c.tail' cut,
        answers,
        answers',
        read,
        read' ∙ ap (λ r. ok r) (d.same_answer cut l),
      )
