-- ===== src/Store/Knowledge.antt =====
-- The reader-visible state of a store and its knowledge axis: `Shared` and `Knowledge` of
-- src/storage_lite/store.rs, with the operations that give a row its birth sequence.
pub mod Births
use tally_db.Base.{
  ℕ, zero, suc, ◌+◌, ◌-◌, max, Bool, true, false, Option, none, some, List, [], ◌∷◌, ◌++◌,
}
use tally_db.Base.{ltb, ◌==◌, if◌then◌else◌, Result, ok, err, ◌>>=◌}
use tally_db.Floats.{Floats}
use tally_db.Segment.{Segment, SequenceInfo, contiguous, explicit}
use tally_db.WriteBuffer.{RowValue, StorageError, WriteBuffer, append}

-- `BTreeMap<u64, u64>` from a tombstoned row id to the sequence of its kill, in ascending order.
abbrev pub Stamps : Type 0
Stamps = List (ℕ × ℕ)

unfoldable pub insert_stamp : ℕ → ℕ → Stamps → Stamps
insert_stamp id kill [] = (id, kill) ∷ []
insert_stamp id kill ((i, k) ∷ stamps) =
    if ltb id i
    then (id, kill) ∷ (i, k) ∷ stamps
    else if id == i
    then (id, kill) ∷ stamps
    else (i, k) ∷ insert_stamp id kill stamps

unfoldable pub get_stamp : Stamps → ℕ → Option ℕ
get_stamp [] id = none
get_stamp ((i, k) ∷ stamps) id = if id == i then some k else get_stamp stamps id

unfoldable pub is_stamped : Stamps → ℕ → Bool
is_stamped stamps id = elim (get_stamp stamps id) [ none ↦ false | some k ↦ true ]

-- `Knowledge`; `births` is its field `explicit`.
pub record Knowing : Type 0 where
  pub next : ℕ
  pub buffer_base : ℕ
  pub births : Option (List ℕ)

pub record Shared (F : Type 0) : Type 0 where
  pub segments : List (Segment F)
  pub buffer : WriteBuffer F
  pub buffer_base : ℕ
  pub knowledge : Option Knowing
  pub tombstones : Stamps
  pub history : List (Segment F)

-- `(0..count).map(|offset| base + offset)`
abbrev pub counting : ℕ → ℕ → List ℕ
counting base zero = []
counting base (suc count) = base ∷ counting (base + 1) count

-- `Some` of the births, as they are or counted out.
abbrev pub materialized : Knowing → ℕ → List ℕ
materialized k buffered = elim k.births [
  | none ↦ counting k.buffer_base buffered
  | some births ↦ births
]

abbrev pub consumed : Knowing → ℕ → Knowing
consumed k buffered =
    if buffered == 0
    then record { next = k.next + 1; buffer_base = k.next + 1; births = none }
    else record {
      next = k.next + 1;
      buffer_base = k.buffer_base;
      births = some (materialized k buffered);
    }

-- The empty buffer restarts contiguous at the watermark.
abbrev pub restarted : Option Knowing → Option Knowing
restarted none = none
restarted (some k) = some (record { next = k.next; buffer_base = k.next; births = none })

module _ {F : Type 0} where
  unfoldable pub watermark : Shared F → ℕ → ℕ
  watermark shared rows = elim shared.knowledge [ none ↦ rows | some k ↦ k.next ]

  -- `get_or_insert_with`
  abbrev pub diverged : Shared F → ℕ → Knowing
  diverged shared virtual_watermark = elim shared.knowledge [
    | none ↦ record {
      next = virtual_watermark;
      buffer_base = virtual_watermark - shared.buffer.rows;
      births = none;
    }
    | some k ↦ k
  ]

  unfoldable pub consume_sequence : Shared F → ℕ → Shared F
  consume_sequence shared virtual_watermark = record shared {
    knowledge = some (consumed (diverged shared virtual_watermark) shared.buffer.rows);
  }

  unfoldable pub buffer_sequence : Shared F → Option SequenceInfo
  buffer_sequence shared = elim shared.knowledge [
    | none ↦ none
    | some k ↦
        some (elim k.births [ none ↦ contiguous k.buffer_base | some births ↦ explicit births ])
  ]

-- An ordinary row takes the next sequence.
abbrev pub advanced : Option Knowing → Option Knowing
advanced none = none
advanced (some k) = some (record {
  next = k.next + 1;
  buffer_base = k.buffer_base;
  births = elim k.births [ none ↦ none | some births ↦ some (births ++ (k.next ∷ [])) ];
})

module _ (fl : Floats) where
  open fl use {F}

  unfoldable pub append_row : Shared F → List (RowValue F) → Result StorageError (Shared F)
  append_row shared row = do
    buffer ← append fl shared.buffer row
    ok (record shared { buffer = buffer; knowledge = advanced shared.knowledge })

  unfoldable pub append_superseding :
      Shared F → List (RowValue F) → ℕ → ℕ → Result StorageError (Shared F)
  append_superseding shared row shared_sequence virtual_watermark = do
    let k = diverged shared virtual_watermark
    buffer ← append fl shared.buffer row
    ok (record shared {
      buffer = buffer;
      knowledge = some (record {
        next = max k.next (shared_sequence + 1);
        buffer_base = k.buffer_base;
        births = some (materialized k shared.buffer.rows ++ (shared_sequence ∷ []));
      });
    })
