-- ===== src/Segment/Batch.antt =====
-- What the assertions of `RecordBatch::new` and the zone maps of `Segment::from_batch` guarantee of
-- each column.
use tally_db.Base.{
  ℕ, zero, suc, ◌≡◌, refl, sym, ◌∙◌, ap, arith, Bool, true, Option, some, List, [], ◌∷◌,
}
use tally_db.Base.{length, get_elem?, ok, went_on}
use tally_db.Column.{f64, i64, key, ColumnType, Column, column_type, column_len, Field, Schema}
use tally_db.Floats.{Floats}
use tally_db.ZoneMap.{ZoneMap, compute_zone_map}
use tally_db.Segment.{type_eq, binds, all_bind, RecordBatch, new_batch}
use tally_db.Segment.{Segment, zone_map, zone_maps_of, from_batch}

type_eq-equal : (t u : ColumnType) → type_eq t u ≡ true → t ≡ u
unfolding type_eq
type_eq-equal f64 f64 h = refl
type_eq-equal i64 i64 h = refl
type_eq-equal key key h = refl
type_eq-equal f64 i64 h = absurd (ground arith)
type_eq-equal f64 key h = absurd (ground arith)
type_eq-equal i64 f64 h = absurd (ground arith)
type_eq-equal i64 key h = absurd (ground arith)
type_eq-equal key f64 h = absurd (ground arith)
type_eq-equal key i64 h = absurd (ground arith)

module _ {F : Type 0} where
  binds-len :
      (n : ℕ) (f : Field) (c : Column F)
      → binds n f c ≡ true
      → (column_len c ≡ n) × (type_eq f.column_type (column_type c) ≡ true)
  unfolding binds
  binds-len n f c h = ground arith

  all_bind-at :
      (n : ℕ) (fields : List Field) (columns : List (Column F)) (i : ℕ) (f : Field) (c : Column F)
      → all_bind n fields columns ≡ true
      → get_elem? fields i ≡ some f
      → get_elem? columns i ≡ some c
      → binds n f c ≡ true
  unfolding all_bind
  all_bind-at n [] columns i f c h g k = absurd (ground arith)
  all_bind-at n (x ∷ fields) [] i f c h g k = absurd (ground arith)
  all_bind-at n (x ∷ fields) (y ∷ columns) zero f c h g k = ground arith
  all_bind-at n (x ∷ fields) (y ∷ columns) (suc i) f c h g k =
      all_bind-at n fields columns i f c (ground arith) g k

  same_place :
      (fields : List Field) (columns : List (Column F)) (i : ℕ) (c : Column F)
      → length fields ≡ length columns
      → get_elem? columns i ≡ some c
      → (f : Field) × (get_elem? fields i ≡ some f)
  same_place fields [] i c e k = absurd (ground arith)
  same_place [] (y ∷ columns) i c e k = absurd (omega arith)
  same_place (x ∷ fields) (y ∷ columns) zero c e k = (x, refl)
  same_place (x ∷ fields) (y ∷ columns) (suc i) c e k =
      same_place fields columns i c (omega arith) k

  new_batch-parts :
      (schema : Schema) (columns : List (Column F)) (batch : RecordBatch F)
      → new_batch schema columns ≡ ok batch
      → (length schema.fields ≡ length columns)
        × (all_bind batch.num_rows schema.fields columns ≡ true)
        × (batch.columns ≡ columns)
  unfolding new_batch
  new_batch-parts schema columns batch h = ground arith

  -- Every column of a batch has the batch's length, and the type that its field states.
  pub new_batch-column :
      (schema : Schema) (columns : List (Column F)) (batch : RecordBatch F) (i : ℕ) (c : Column F)
      → new_batch schema columns ≡ ok batch
      → get_elem? batch.columns i ≡ some c
      → (f : Field) × (get_elem? schema.fields i ≡ some f)
        × (column_len c ≡ batch.num_rows)
        × (f.column_type ≡ column_type c)
  new_batch-column schema columns batch i c h k =
      let (same, bound, here) = new_batch-parts schema columns batch h in
      let at : get_elem? columns i ≡ some c =
        ap (λ (cs : List (Column F)). get_elem? cs i) (sym here) ∙ k in
      let (f, g) = same_place schema.fields columns i c same at in
      let (long, typed) =
        binds-len batch.num_rows f c
          (all_bind-at batch.num_rows schema.fields columns i f c bound g at) in
      (f, g, long, type_eq-equal f.column_type (column_type c) typed)

module _ (fl : Floats) where
  open fl use {F}

  zone_maps_of-at :
      (columns : List (Column F)) (maps : List (Option (ZoneMap F))) (i : ℕ) (c : Column F)
      → zone_maps_of fl columns ≡ ok maps
      → get_elem? columns i ≡ some c
      → (m : Option (ZoneMap F)) × (compute_zone_map fl c ≡ ok m) × (get_elem? maps i ≡ some m)
  unfolding zone_maps_of
  zone_maps_of-at [] maps i c h k = absurd (ground arith)
  zone_maps_of-at (x ∷ columns) maps zero c h k =
      let (m, first, h1) = went_on (compute_zone_map fl x) _ h in
      let (rest, _, h2) = went_on (zone_maps_of fl columns) _ h1 in
      let same : x ≡ c = ground arith in
      (m, ap (λ y. compute_zone_map fl y) (sym same) ∙ first, ground arith)
  zone_maps_of-at (x ∷ columns) maps (suc i) c h k =
      let (m, first, h1) = went_on (compute_zone_map fl x) _ h in
      let (rest, later, h2) = went_on (zone_maps_of fl columns) _ h1 in
      let (m', e, g) = zone_maps_of-at columns rest i c later k in
      let whole : m ∷ rest ≡ maps = ground arith in
      (m', e, ap (λ (l : List (Option (ZoneMap F))). get_elem? l (suc i)) (sym whole) ∙ g)

  -- The zone map of a column of a segment is the one computed from the column.
  pub from_batch-zone_map :
      (batch : RecordBatch F) (ordering_key : ℕ) (ordered : Bool) (segment : Segment F) (i : ℕ)
      (c : Column F)
      → from_batch fl batch ordering_key ordered ≡ ok segment
      → get_elem? batch.columns i ≡ some c
      → (segment.batch ≡ batch) × (compute_zone_map fl c ≡ ok (zone_map segment i))
  unfolding from_batch zone_map
  from_batch-zone_map batch ordering_key ordered segment i c h k =
      let (maps, first, rest) = went_on (zone_maps_of fl batch.columns) _ h in
      let (m, e, g) = zone_maps_of-at batch.columns maps i c first k in ground arith

  pub from_batch-batch :
      (batch : RecordBatch F) (ordering_key : ℕ) (ordered : Bool) (segment : Segment F)
      → from_batch fl batch ordering_key ordered ≡ ok segment
      → segment.batch ≡ batch
  unfolding from_batch
  from_batch-batch batch ordering_key ordered segment h =
      let (maps, first, rest) = went_on (zone_maps_of fl batch.columns) _ h in ground arith
