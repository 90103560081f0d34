-- ===== src/Engine/Segment.antt =====
-- Segments of a large transfer (core/transfer-engine/src/segment.rs).
pub mod Range
use air_ferry.Prelude.{
  ℕ, ◌+◌, ◌-◌, ◌*◌, ◌/◌, ◌^◌, Bool, ◌||◌, not, ltb, leb, ◌==◌, List, String, Option, none, some,
  Result, ok, err, ◌>>=◌, ◌>>◌, reject_if, ok_or, checked_add, checked_sub, checked_mul, try_from,
  min, if◌then◌else◌,
}
use air_ferry.Codec.Config.{max_symbol_size}
use air_ferry.Codec.Meta.{max_object_bytes}
use air_ferry.Protocol.Session.{derive_segment}
use air_ferry.Engine.FileMeta.{FileMeta}

abbrev pub segment_raw_bytes : ℕ
segment_raw_bytes = max_object_bytes - max_symbol_size

abbrev pub max_segment_count : ℕ
max_segment_count = 131072

pub record SegmentMeta : Type 0 where
  pub root_session_id : ℕ
  pub segment_index : ℕ
  pub segment_count : ℕ
  pub original_offset : ℕ
  pub root_original_size : ℕ
  pub root_sha256 : List ℕ
  pub raw_sha256 : List ℕ

-- `checked_sub(1)`, `checked_div`, `checked_add(1)` in `u64`.
unfoldable pub expected_count_u64 : ℕ → Option ℕ
expected_count_u64 size = elim (checked_sub size 1) [
  | none ↦ none
  | some n ↦ checked_add 64 (n / segment_raw_bytes) 1
]

unfoldable pub validate : SegmentMeta → ℕ → FileMeta → Result String (Unit {0})
validate s child_session_id file_meta = do
  reject_if (s.segment_count == 0 || ltb max_segment_count s.segment_count)
      "segment count out of range"
  reject_if (leb s.segment_count s.segment_index) "segment index out of range"
  reject_if (s.root_original_size == 0) "root compressed size must be non-zero"
  count₆₄ ← ok_or (expected_count_u64 s.root_original_size) "segment count overflow"
  expected_count ← ok_or (try_from 32 count₆₄) "segment count exceeds protocol budget"
  reject_if (not (expected_count == s.segment_count))
      "segment count inconsistent with compressed root size"
  expected_offset ←
      ok_or (checked_mul 64 s.segment_index segment_raw_bytes) "segment offset overflow"
  reject_if (not (s.original_offset == expected_offset)) "segment offset is not canonical"
  remaining ←
      ok_or (checked_sub s.root_original_size expected_offset)
        "segment offset exceeds compressed root size"
  let canonical_len = min remaining segment_raw_bytes
  reject_if (not file_meta.compressed_size_known || file_meta.compressed_size == 0)
      "segment compressed size missing or empty"
  reject_if (ltb canonical_len file_meta.compressed_size)
      "segment compressed length exceeds canonical compressed range"
  reject_if (not (derive_segment s.root_session_id s.segment_index == child_session_id))
      "segment child session id mismatch"
