-- ===== src/Engine/Equality.antt =====
-- The derived `PartialEq` of byte arrays and of the metadata types.
use air_ferry.Prelude.{
  ◌≡◌, refl, ap, Bool, true, false, ◌&&◌, ◌==◌, List, [], ◌∷◌, Option, none, some, arith,
}
use air_ferry.Bytes.{bytes_eq, bytes_eq-eq, bytes_eq_refl}
use air_ferry.Codec.Meta.{SourceBlockMeta, ObjectMeta}
use air_ferry.Engine.FileMeta.{FileMeta}
use air_ferry.Engine.Segment.{SegmentMeta}

unfoldable pub bool_eq : Bool → Bool → Bool
bool_eq true b = b
bool_eq false true = false
bool_eq false false = true

unfoldable pub segment_eq : SegmentMeta → SegmentMeta → Bool
segment_eq s t =
    s.root_session_id == t.root_session_id
    && s.segment_index == t.segment_index
    && s.segment_count == t.segment_count
    && s.original_offset == t.original_offset
    && s.root_original_size == t.root_original_size
    && bytes_eq s.root_sha256 t.root_sha256
    && bytes_eq s.raw_sha256 t.raw_sha256

pub segment_eq-eq : (s t : SegmentMeta) → segment_eq s t ≡ true → s ≡ t
unfolding segment_eq
segment_eq-eq s t h =
    ground (arith, bytes_eq-eq s.root_sha256 t.root_sha256, bytes_eq-eq s.raw_sha256 t.raw_sha256)

pub segment_eq_refl : (s : SegmentMeta) → segment_eq s s ≡ true
unfolding segment_eq
segment_eq_refl s = ground (arith, bytes_eq_refl s.root_sha256, bytes_eq_refl s.raw_sha256)

unfoldable pub option_segment_eq : Option SegmentMeta → Option SegmentMeta → Bool
option_segment_eq none none = true
option_segment_eq none (some t) = false
option_segment_eq (some s) none = false
option_segment_eq (some s) (some t) = segment_eq s t

pub option_segment_eq-eq : (s t : Option SegmentMeta) → option_segment_eq s t ≡ true → s ≡ t
unfolding option_segment_eq
option_segment_eq-eq none none h = refl
option_segment_eq-eq none (some t) h = cc
option_segment_eq-eq (some s) none h = cc
option_segment_eq-eq (some s) (some t) h = ap some (segment_eq-eq s t h)

pub option_segment_eq_refl : (s : Option SegmentMeta) → option_segment_eq s s ≡ true
unfolding option_segment_eq
option_segment_eq_refl none = refl
option_segment_eq_refl (some s) = segment_eq_refl s

unfoldable pub file_eq : FileMeta → FileMeta → Bool
file_eq f g =
    bytes_eq f.filename g.filename
    && f.original_size == g.original_size
    && f.crc32 == g.crc32
    && f.compression == g.compression
    && f.compressed_size == g.compressed_size
    && bool_eq f.compressed_size_known g.compressed_size_known
    && bool_eq f.crc32_known g.crc32_known

pub file_eq-eq : (f g : FileMeta) → file_eq f g ≡ true → f ≡ g
unfolding file_eq bool_eq
file_eq-eq f g h = ground (arith, bytes_eq-eq f.filename g.filename)

pub file_eq_refl : (f : FileMeta) → file_eq f f ≡ true
unfolding file_eq bool_eq
file_eq_refl f = ground (arith, bytes_eq_refl f.filename)

unfoldable pub blocks_eq : List SourceBlockMeta → List SourceBlockMeta → Bool
blocks_eq [] [] = true
blocks_eq [] (c ∷ cs) = false
blocks_eq (b ∷ bs) [] = false
blocks_eq (b ∷ bs) (c ∷ cs) =
    b.sbn == c.sbn
    && b.num_source_symbols == c.num_source_symbols
    && b.block_length == c.block_length
    && blocks_eq bs cs

pub blocks_eq-eq : (bs cs : List SourceBlockMeta) → blocks_eq bs cs ≡ true → bs ≡ cs
unfolding blocks_eq
blocks_eq-eq [] [] h = refl
blocks_eq-eq [] (c ∷ cs) h = cc
blocks_eq-eq (b ∷ bs) [] h = cc
blocks_eq-eq (b ∷ bs) (c ∷ cs) h = ground (arith, blocks_eq-eq bs cs)

pub blocks_eq_refl : (bs : List SourceBlockMeta) → blocks_eq bs bs ≡ true
unfolding blocks_eq
blocks_eq_refl [] = refl
blocks_eq_refl (b ∷ bs) = ground (arith, blocks_eq_refl bs)

unfoldable pub meta_eq : ObjectMeta → ObjectMeta → Bool
meta_eq m n =
    m.transfer_length == n.transfer_length
    && m.symbol_size == n.symbol_size
    && bytes_eq m.oti_bytes n.oti_bytes
    && blocks_eq m.blocks n.blocks

pub meta_eq-eq : (m n : ObjectMeta) → meta_eq m n ≡ true → m ≡ n
unfolding meta_eq
meta_eq-eq m n h =
    ground (arith, bytes_eq-eq m.oti_bytes n.oti_bytes, blocks_eq-eq m.blocks n.blocks)

pub meta_eq_refl : (m : ObjectMeta) → meta_eq m m ≡ true
unfolding meta_eq
meta_eq_refl m = ground (arith, bytes_eq_refl m.oti_bytes, blocks_eq_refl m.blocks)
