-- ===== src/Codec/Registry.antt =====
-- The codec registry of src/storage_lite/codec.rs: tags and codecs correspond.
use tally_db.Base.{ℕ, ◌≡◌, refl, ◌↔◌, some, arith, ap, ◌∙◌}
use tally_db.Codec.{
  Codec, uncompressed, delta_of_delta_i64, alp_f64, for_i64, for_u32, tag, from_tag,
}

from_tag-tag : (c : Codec) → from_tag (tag c) ≡ some c
unfolding from_tag tag
from_tag-tag uncompressed = refl
from_tag-tag delta_of_delta_i64 = refl
from_tag-tag alp_f64 = refl
from_tag-tag for_i64 = refl
from_tag-tag for_u32 = refl

tag-from_tag : (t : ℕ) (c : Codec) → from_tag t ≡ some c → t ≡ tag c
unfolding from_tag tag
tag-from_tag t c h = ground arith

-- `from_tag` reads a tag as a codec exactly where it is that codec's tag.
pub from_tag_iff : (t : ℕ) (c : Codec) → (from_tag t ≡ some c) ↔ (t ≡ tag c)
from_tag_iff t c = (tag-from_tag t c, λ e. ap (λ n. from_tag n) e ∙ from_tag-tag c)
