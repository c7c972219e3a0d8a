-- ===== src/Store/Invariant/Frozen.antt =====
-- The buffer of a store, frozen for a reader or a flush by src/storage_lite/store.rs, and the answers
-- of `as_of` over the whole store.
use tally_db.Base.{
  ℕ, zero, suc, ◌+◌, ◌≡◌, refl, sym, ◌∙◌, ap, arith, subst, inl, inr, Option, none, some, List, [],
  ◌∷◌, ◌++◌, map,
}
use tally_db.Base.{length, get_elem?, ◌==◌, ==_iff, ok, ok_or, Option-cases, went_on, Bool-cases}
use tally_db.Floats.{Floats}
use tally_db.Column.{panic}
use tally_db.Segment.{
  Segment, RecordBatch, SegmentView, SequenceInfo, fits, row_ids, contiguous, explicit,
  with_sequence, sequence_at, sequence_value, new_batch, zone_maps_of,
}
use tally_db.WriteBuffer.{RowValue, asserted, WriteBuffer, freeze_at, finish_all, row_at}
use tally_db.WriteBuffer.Rows.{HoldsRows, freeze_at-rows}
use tally_db.WriteBuffer.Freeze.{went_on_asserted}
use tally_db.Store.{Store, knowledge_snapshot}
use tally_db.Store.Knowledge.{Shared, Knowing, counting, materialized, buffer_sequence}
use tally_db.Store.Knowledge.Births.{births, births-length}
use tally_db.Store.Snapshot.{
  buffer_segment, stamped, masked, snapshot_of, knowledge_snapshot_of, KnowledgeSnapshot, as_of,
  history_as_of,
}
use tally_db.Store.Versions.{Versions, SegmentHolds, SegmentsHold, answer, read_views}
use mathlib.Core.List.{map-append, append-nil}
use tally_db.Base.{ok-injective}
use tally_db.Store.Versions.Reading.{live_as_of-answer}
use tally_db.Store.Versions.Groups.{answer-empty, SegmentsHold-append}
use tally_db.Store.Invariant.{buffered, StoreHolds, store_answer}

-- The sequences that the knowledge axis names for the buffer.
abbrev named : Option Knowing → Option SequenceInfo
named none = none
named (some k) = some (elim k.births [ none ↦ contiguous k.buffer_base | some bs ↦ explicit bs ])

abbrev sequence_of : Option SequenceInfo → SequenceInfo
sequence_of none = row_ids
sequence_of (some s) = s

counting-at : (base n i birth : ℕ) → get_elem? (counting base n) i ≡ some birth → birth ≡ base + i
counting-at base zero i birth g = ground arith
counting-at base (suc n) zero birth g = ground arith
counting-at base (suc n) (suc i) birth g = omega (arith, counting-at (base + 1) n i birth g)

explicit-births :
    (base : ℕ) (o : Option (List ℕ)) (next buffer_base n i birth : ℕ)
    → get_elem? (materialized (record { next = next; buffer_base = buffer_base; births = o }) n) i
      ≡ some birth
    → sequence_value base (elim o [ none ↦ contiguous buffer_base | some bs ↦ explicit bs ]) i
      ≡ ok birth
explicit-births base none next buffer_base n i birth g =
    ap (λ (b : ℕ). ok b) (sym (counting-at buffer_base n i birth g))
explicit-births base (some bs) next buffer_base n i birth g = ap (λ o. ok_or panic o) g

-- A buffered row carries its birth.
named-births :
    (o : Option Knowing) (base n i birth : ℕ)
    → get_elem? (births o base n) i ≡ some birth
    → sequence_value base (sequence_of (named o)) i ≡ ok birth
named-births none base n i birth g = ap (λ (b : ℕ). ok b) (sym (counting-at base n i birth g))
named-births (some k) base n i birth g =
    explicit-births base k.births k.next k.buffer_base n i birth g

empty_tail {ℓ} : {A : Type ℓ} (tail : List A) → length tail ≡ 0 → tail ≡ []
empty_tail [] h = refl
empty_tail (row ∷ tail) h = absurd (omega arith)

module _ {F : Type 0} where
  stamped-parts :
      (o : Option SequenceInfo) (segment segment' : Segment F)
      → segment.sequence ≡ row_ids
      → stamped o segment ≡ ok segment'
      → (segment'.batch ≡ segment.batch)
        × (segment'.base_row_id ≡ segment.base_row_id)
        × (segment'.sequence ≡ sequence_of o)
  unfolding with_sequence
  stamped-parts none segment segment' r e =
      let same : segment ≡ segment' = ground arith in ground arith
  stamped-parts (some s) segment segment' r e =
      let e' : with_sequence s segment ≡ ok segment' = went_on_asserted _ e in
      elim (Bool-cases (fits segment.batch.num_rows s)) [
        | inl t ↦
            let same : record segment { sequence = s } ≡ segment' = ground arith in ground arith
        | inr f ↦ absurd (ground arith)
      ]

  buffer_sequence-named : (shared : Shared F) → buffer_sequence shared ≡ named shared.knowledge
  unfolding buffer_sequence
  buffer_sequence-named shared = elim (Option-cases shared.knowledge) [
    | inl n ↦ ground arith
    | inr (k, g) ↦ ground arith
  ]

module _ (fl : Floats) where
  open fl use {F}

  freeze_at-parts :
      (buffer : WriteBuffer F) (base : ℕ) (segment : Segment F)
      → freeze_at fl buffer base ≡ ok segment
      → (segment.base_row_id ≡ base) × (segment.sequence ≡ row_ids)
  unfolding freeze_at
  freeze_at-parts buffer base segment e =
      let (columns, done, e1) = went_on (finish_all buffer.schema.fields buffer.builders) _ e in
      let (maps, mapped, e2) = went_on (asserted (zone_maps_of fl columns)) _ e1 in
      let (batch, checked, e3) = went_on (asserted (new_batch buffer.schema columns)) _ e2 in
      (ground arith, ground arith)

  -- The frozen buffer holds the buffered versions.
  pub buffer_segment-Holds :
      (shared : Shared F) (tail : List (List (RowValue F))) (segment : Segment F)
      → HoldsRows shared.buffer tail
      → length (births shared.knowledge shared.buffer_base (length tail)) ≡ length tail
      → buffer_segment fl shared ≡ ok segment
      → SegmentHolds segment shared.buffer_base (buffered shared tail)
  unfolding buffer_segment sequence_at
  buffer_segment-Holds shared tail segment h l e =
      let (frozen, done, e1) = went_on (freeze_at fl shared.buffer shared.buffer_base) _ e in
      let (base, ids) = freeze_at-parts shared.buffer shared.buffer_base frozen done in
      let (num, at) = freeze_at-rows fl shared.buffer tail shared.buffer_base frozen h done in
      let e2 : stamped (named shared.knowledge) frozen ≡ ok segment =
        subst (λ o. stamped o frozen ≡ ok segment) (buffer_sequence-named shared) e1 in
      let (batch, row_id, sequence) =
        stamped-parts (named shared.knowledge) frozen segment ids e2 in
      record {
        based = row_id ∙ base;
        whole = ap (λ (b : RecordBatch F). b.num_rows) batch ∙ num;
        born = l;
        row_lem = λ i row g. ap (λ (b : RecordBatch F). row_at b.columns i) batch ∙ at i row g;
        birth_lem = λ i birth g.
            ap (λ (s : SequenceInfo). sequence_value segment.base_row_id s i) sequence
            ∙ ap (λ (b : ℕ). sequence_value b (sequence_of (named shared.knowledge)) i)
                (row_id ∙ base)
            ∙ named-births shared.knowledge shared.buffer_base (length tail) i birth g;
      }

  -- The segments of a snapshot hold the versions of the store.
  snapshot-Holds :
      (store : Store F) (groups : List (Versions F)) (tail : List (List (RowValue F)))
      (latest : List (SegmentView F))
      → StoreHolds store groups tail
      → snapshot_of fl store.shared ≡ ok latest
      → (segments : List (Segment F)) × (groups' : List (Versions F)) × (latest
          ≡ map (masked store.shared.tombstones) segments)
        × SegmentsHold segments 0 groups'
        × ((cut : ℕ)
            → answer store.shared.tombstones cut 0 groups' ≡ store_answer store groups tail cut)
  unfolding snapshot_of
  snapshot-Holds store groups tail latest h e =
      let shared = store.shared in
      elim (Bool-cases (shared.buffer.rows == 0)) [
        | inl t ↦ (
          shared.segments,
          groups,
          ground arith,
          h.held,
          λ cut. sym (
              answer-empty shared.tombstones cut 0 groups (buffered shared tail)
                (empty_tail tail (sym h.buffer_held.rows_lem ∙ (==_iff shared.buffer.rows 0).0 t))),
        )
        | inr f ↦
            let (segment, done, e1) = went_on (buffer_segment fl shared) _ (rw f at e) in
            (
              shared.segments ++ (segment ∷ []),
              groups ++ (buffered shared tail ∷ []),
              sym (ok-injective e1)
                  ∙ sym (map-append (masked shared.tombstones) shared.segments (segment ∷ [])),
              SegmentsHold-append shared.segments groups 0 segment (buffered shared tail) h.held (
                  subst (λ b. SegmentHolds segment b (buffered shared tail))
                    (omega (arith, h.based))
                    (buffer_segment-Holds shared tail segment h.buffer_held
                      (births-length shared.buffer_base (length tail) store.rows h.whole
                        shared.knowledge h.kept)
                      done)),
              λ cut. refl,
            )
      ]

  -- `AS OF` answers with the rows that the versions say.
  pub as_of-answer :
      (store : Store F) (groups : List (Versions F)) (tail : List (List (RowValue F)))
      (taken : KnowledgeSnapshot F) (cut : ℕ)
      → StoreHolds store groups tail
      → knowledge_snapshot fl store ≡ ok taken
      → (views : List (SegmentView F)) × (as_of taken cut ≡ ok views)
        × (read_views views ≡ ok (store_answer store groups tail cut))
  unfolding knowledge_snapshot knowledge_snapshot_of as_of history_as_of
  as_of-answer store groups tail taken cut h e =
      let (latest, done, e1) = went_on (snapshot_of fl store.shared) _ e in
      let (segments, groups', same, held, total_answer) =
        snapshot-Holds store groups tail latest h done in
      let (views, live, read) =
        live_as_of-answer store.shared.tombstones cut 0 segments groups' held in
      let taken_latest : taken.latest ≡ map (masked store.shared.tombstones) segments =
        ap (λ (t : KnowledgeSnapshot F). t.latest) (sym (ok-injective e1)) ∙ same in
      let taken_history : taken.history ≡ [] =
        ap (λ (t : KnowledgeSnapshot F). t.history) (sym (ok-injective e1)) ∙ h.no_history in
      let taken_stamps : taken.stamps ≡ store.shared.tombstones =
        ap (λ (t : KnowledgeSnapshot F). t.stamps) (sym (ok-injective e1)) in
      (
        views,
        rw (taken_history, taken_stamps, taken_latest, live) (ap (λ l. ok l) (append-nil views)),
        read ∙ ap (λ l. ok l) (total_answer cut),
      )
