-- ===== src/Engine/Segment/Range.antt =====
-- What `SegmentMeta::validate` lets through: the canonical partition of the compressed stream.
use air_ferry.Prelude.{ℕ, ◌+◌, ◌-◌, ◌*◌, ◌≤◌, ◌<◌, ◌≡◌, ◌↔◌, true, ok, arith}
use air_ferry.Protocol.Session.{derive_segment}
use air_ferry.Engine.FileMeta.{FileMeta}
use air_ferry.Engine.Segment.{
  SegmentMeta, expected_count_u64, validate, segment_raw_bytes, max_segment_count,
}

-- Segment `index` of a stream of `root` bytes holds the bytes from `index * segment_raw_bytes` on, and the
-- stream has just enough segments.
pub record IsCanonicalSegment (s : SegmentMeta) (child : ℕ) (fm : FileMeta) : Type 0 where
  pub count_pos : 0 < s.segment_count
  pub count_le : s.segment_count ≤ max_segment_count
  pub index : s.segment_index < s.segment_count
  pub covers : s.root_original_size ≤ s.segment_count * segment_raw_bytes
  pub needed : (s.segment_count - 1) * segment_raw_bytes < s.root_original_size
  pub offset : s.original_offset ≡ s.segment_index * segment_raw_bytes
  pub known : fm.compressed_size_known ≡ true
  pub some_bytes : 0 < fm.compressed_size
  pub within_slice : fm.compressed_size ≤ segment_raw_bytes
  pub within_root : s.original_offset + fm.compressed_size ≤ s.root_original_size
  pub child_id : child ≡ derive_segment s.root_session_id s.segment_index

module _ (s : SegmentMeta) (child : ℕ) (fm : FileMeta) where
  validate_sound : validate s child fm ≡ ok tt → IsCanonicalSegment s child fm
  unfolding validate expected_count_u64
  validate_sound e = ground arith

  validate_complete : IsCanonicalSegment s child fm → validate s child fm ≡ ok tt
  unfolding validate expected_count_u64
  validate_complete c = ground arith

  -- `validate` accepts exactly the segments of the canonical partition under their own session id.
  pub validate_iff-IsCanonicalSegment :
      (validate s child fm ≡ ok tt) ↔ IsCanonicalSegment s child fm
  validate_iff-IsCanonicalSegment = (validate_sound, validate_complete)
