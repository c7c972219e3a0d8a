-- ===== src/Store/Flush.antt =====
-- `flush` and the snapshots of src/storage_lite/store.rs.
use mathlib.Core.List.{map-append}
use tally_db.Base.{ℕ, ◌≡◌, sym, ◌∙◌, ap, arith, inl, inr, List, [], ◌∷◌, get_elem?}
use tally_db.Base.{◌==◌, ok, ok-injective, went_on, Bool-cases, Option-cases}
use tally_db.Column.{Schema}
use tally_db.Floats.{Floats}
use tally_db.Segment.{SegmentView}
use tally_db.WriteBuffer.{WriteBuffer, new_buffer}
use tally_db.Store.{Store, flush, knowledge_snapshot}
use tally_db.Store.Snapshot.{buffer_segment, masked, snapshot_of, knowledge_snapshot_of}

new_buffer-empty :
    {F : Type 0} (schema : Schema) (ordering_key : ℕ) (buffer : WriteBuffer F)
    → new_buffer schema ordering_key ≡ ok buffer
    → buffer.rows ≡ 0
unfolding new_buffer
new_buffer-empty schema ordering_key buffer e =
    elim (Option-cases (get_elem? schema.fields ordering_key)) [
      | inl n ↦ absurd (ground arith)
      | inr (f, g) ↦ ground arith
    ]

module _ (fl : Floats) where
  open fl use {F}

  -- A flush that succeeds leaves the snapshot that a reader takes as it was.
  pub flush-snapshot :
      (store store' : Store F)
      → flush fl store ≡ ok store'
      → knowledge_snapshot fl store' ≡ knowledge_snapshot fl store
  unfolding flush knowledge_snapshot knowledge_snapshot_of snapshot_of
  flush-snapshot store store' e =
      let shared = store.shared in
      elim (Bool-cases (shared.buffer.rows == 0)) [
        | inl t ↦ ap (λ s. knowledge_snapshot fl s) (sym (ok-injective (rw t at e)))
        | inr f ↦
            let (segment, frozen, e1) = went_on (buffer_segment fl shared) _ (rw f at e) in
            let (buffer, fresh, e2) = went_on (new_buffer store.schema store.ordering_key) _ e1 in
            let empty = new_buffer-empty store.schema store.ordering_key buffer fresh in
            ap (λ s. knowledge_snapshot fl s) (sym (ok-injective e2))
            ∙ rw (empty, f, frozen)
                (ap
                  (λ (latest : List (SegmentView F)). ok (record {
                    latest = latest;
                    history = shared.history;
                    stamps = shared.tombstones;
                  }))
                  (map-append (masked shared.tombstones) shared.segments (segment ∷ [])))
      ]
