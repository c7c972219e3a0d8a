-- ===== src/Lib.antt =====
-- TallyDB: a columnar database of numeric and key columns. This library models its storage
-- primitives, the store that rows are appended to and deleted from, the logs that a store recovers
-- from, and the row predicates that queries, updates and deletes share, and proves what they owe each
-- other.
--
-- The parts, and the files that model them:
--   Base       what the other files share: lists and Boolean tests on native numbers, the result
--              type behind `?`, bits and 64-bit words, ascending lists, and the order of loops.
--   Codec      src/storage_lite/codec.rs: the codec registry, zigzag, varints and delta-of-delta.
--   Checksum   `crc32` of src/storage_lite/tombstone.rs and `crc32c` of src/storage_lite/format.rs.
--              Checksum/Detects undoes the rounds of `crc32`.
--   Format     `FormatError` and `Reader` of src/storage_lite/format.rs.
--   Tombstone  src/storage_lite/tombstone.rs: the delete logs. Tombstone/RoundTrip has what was
--              encoded, Tombstone/Damage has any bytes, and a log with one byte changed.
--   Wal        the write-ahead log of src/storage_lite/format.rs, from `encode_wal_header` to
--              `decode_wal`. Wal/Cells and Wal/Records encode and decode, Wal/Recovery has whole logs,
--              torn ones and ones cut anywhere.
--   Replay     `replay_wal` of src/storage_lite/store.rs. Replay/Units has the brackets of a
--              supersession, Replay/Skipping the units that were flushed, Replay/Crash and
--              Replay/Recovered what a crash leaves of a log, Replay/Applied what comes into the
--              buffer, Replay/Ends that the loops end.
--   Bitmap     src/arrow_lite/bitmap.rs: validity and selection bitmaps. Bitmap/Packed describes the
--              layout a second time, by one pass over the booleans.
--   Floats     what is used of `f64`; Floats/Sample is one instance of it.
--   Column     src/arrow_lite/column.rs, buffer.rs and schema.rs, and the reading side of key.rs:
--              columns, dictionaries, schemas. Columns are values, so a shared buffer is copied.
--   Interning  the writing side of src/arrow_lite/key.rs: `intern`, which gives a text its code.
--   ZoneMap    `compute_zone_map` of src/storage_lite/mem.rs.
--   Segment    `RecordBatch` of src/arrow_lite/schema.rs, `Segment` of src/storage_lite/mem.rs and
--              `SegmentView` of src/storage_lite/store.rs, with the sequences of their rows.
--   WriteBuffer `RowValue` and `WriteBuffer` of src/storage_lite/mem.rs: rows are checked, gathered
--              by column, and frozen into a segment.
--   Store      src/storage_lite/store.rs: `Shared` and its knowledge axis are in Store/Knowledge, the
--              snapshots and `as_of` in Store/Snapshot, the operations in Store. Store/Versions says
--              what a table means, a sequence of row versions with births and kills; Store/Invariant
--              ties a store to the versions it holds, Store/Effects and Store/Deleting say what the
--              operations add and kill, and Store/Reached has the steps. Store/Touched has
--              `touched_walk`.
--   Predicate  src/query_lite/predicate.rs: the predicate tree, its evaluation in three-valued
--              logic (`evaluate`, `evaluate_3vl`), `like_match` and the pruning test `can_match`.
--
-- How they meet: a store validates a row and pushes it into its write buffer, whose key columns
-- intern their texts; a flush freezes the buffer into a segment; a reader takes the segments, with
-- the buffer frozen from a copy, and masks what a later deletion or supersession killed. A segment is
-- built from columns whose zone maps are computed once; a query asks `can_match`, which reads zone
-- maps alone, and evaluates the predicate only where that says maybe. The evaluation reads the
-- columns and composes bitmaps. A reopened store reads the log, resolves its records into units, rows
-- and whole supersessions, and appends these to its buffer; the sequences that count as committed come
-- from the delete logs. Each file of lemmas stands below the file whose definitions it is about, and the
-- runs and examples are in files named Runs.
--
-- Conventions. An `i64`, a `u64` and a byte are numbers, with the wrap-around written out; the signed
-- order is the order of ranks. A failed assertion or an index out of range is `none` or the error
-- `panic`, the other errors of a query keep their kind and lose their message. A name of a keyword or
-- of a library is replaced: the bitmaps' `not` is `complement`, and the constructors And, Or and Not
-- of a predicate are `conj`, `disj` and `neg`. A string is the list of its UTF-8 bytes.
--
-- Parameters. `Floats` holds the operations on `f64` with their IEEE 754 laws; `Primitives` holds the
-- bits of an `f64` and the test for UTF-8, and a cell of the log is the `RowValue` it stands for; the
-- scalar expressions of src/query_lite/plan.rs with their evaluator, and the decoding of text into
-- characters, are parameters of the evaluation.
--
-- The store is the one that `Store::new` makes, without a backend: the branches that write to disk or
-- to the write-ahead log fall away. The replay takes the bytes of the log that it reads as an argument,
-- and returns those that it writes. Row ids, row counts and sequences are unbounded numbers. Where an
-- operation of a store fails, its answer is the error and the store as the failure leaves it.
--
-- Bounds. `push_varint` goes down the order of numbers, `read_varint` has the source's ten rounds,
-- and `like_match` has (length of text + 2) * (length of pattern + 1) rounds, which are enough because
-- each round lowers a weight: the text behind the last `%`, then the pattern that is left. The
-- loop of `decode_wal` has one round more than there are bytes, since a record takes at least one, and
-- the loop over the entries of the log one more than there are entries.
--
-- Not modelled: `Bitmap::set`; the codecs of alp.rs, the files of segments and manifests; the store's
-- compaction, backend, appends to the log and residency; query plans and their execution; partial
-- aggregates and views; the lowering of parsed SQL, which stands on another package's types; I/O,
-- command lines, foreign-function glue, numerical kernels and the Lua host.
pub mod Base
pub mod Codec
pub mod Checksum
pub mod Format
pub mod Tombstone
pub mod Wal
pub mod Bitmap
pub mod Floats
pub mod Column
pub mod Interning
pub mod ZoneMap
pub mod Segment
pub mod WriteBuffer
pub mod Store
pub mod Replay
pub mod Predicate
