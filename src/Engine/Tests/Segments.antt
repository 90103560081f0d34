-- ===== src/Engine/Tests/Segments.antt =====
-- A transfer of one segment, received whole or too short.
use air_ferry.Prelude.{
  ℕ, ◌*◌, ◌≡◌, ◌↔◌, refl, true, List, [], ◌∷◌, length, take, drop, none, some, ok,
}
use air_ferry.Engine.FileMeta.{FileMeta}
use air_ferry.Engine.Segment
use air_ferry.Engine.Segment.{SegmentMeta, segment_raw_bytes, expected_count_u64}
use air_ferry.Engine.Segment.Range.{IsCanonicalSegment, validate_iff-IsCanonicalSegment}
use air_ferry.Bytes.{bytes_eq}
use air_ferry.Engine.Tests.{a_txt}
use air_ferry.Engine.Assembler
use air_ferry.Engine.Assembler.{
  TransferAssembler, fresh, fill, add_segment, check_root, check_bytes, store, has_segment,
  validate_segment_range, expected_segment_count, count_is, segment_raw_len, reassemble,
  is_complete, concat_slots,
}
use air_ferry.Engine.Assembler.Invariant.{Inv, new-Inv, add_segment-Inv}
use air_ferry.Engine.Assembler.Reassembly.{reassemble-slices}

-- A digest for the tests.
abbrev length_digest : List ℕ → List ℕ
length_digest bytes = length bytes ∷ []

-- A transfer of five bytes in one segment, received as five bytes or as three.
abbrev segment_of : ℕ → SegmentMeta
segment_of n = record {
  root_session_id = 7;
  segment_index = 0;
  segment_count = 1;
  original_offset = 0;
  root_original_size = 5;
  root_sha256 = [];
  raw_sha256 = n ∷ [];
}

abbrev file_of : ℕ → FileMeta
file_of n = record a_txt { compressed_size = n }

abbrev whole : List ℕ
whole = 1 ∷ 2 ∷ 3 ∷ 4 ∷ 5 ∷ []

abbrev short : List ℕ
short = 1 ∷ 2 ∷ 3 ∷ []

validate_iff-IsCanonicalSegment_example :
    (Segment.validate (segment_of 5) 9 (file_of 5) ≡ ok tt)
    ↔ IsCanonicalSegment (segment_of 5) 9 (file_of 5)
validate_iff-IsCanonicalSegment_example =
    validate_iff-IsCanonicalSegment (segment_of 5) 9 (file_of 5)

abbrev empty : TransferAssembler
empty = record {
  root_session_id = 7;
  filename = a_txt.filename;
  total_segments = 1;
  root_compressed_size = 5;
  root_original_size = 200;
  root_sha256 = [];
  segments = none ∷ [];
  meta = none ∷ [];
  received_count = 0;
}

abbrev filled_with : ℕ → List ℕ → TransferAssembler
filled_with n bytes = record empty {
  segments = some bytes ∷ [];
  meta = some (segment_of n) ∷ [];
  received_count = 1;
}

started : Assembler.new (segment_of 5) (file_of 5) ≡ ok empty
unfolding Assembler.new fresh validate_segment_range expected_segment_count expected_count_u64
    count_is segment_raw_len
started = refl

add_whole :
    add_segment length_digest empty (segment_of 5) (file_of 5) whole
    ≡ ok (filled_with 5 whole, true)
unfolding add_segment check_root validate_segment_range check_bytes store fill has_segment bytes_eq
    expected_segment_count expected_count_u64 count_is segment_raw_len
add_whole = refl

add_short :
    add_segment length_digest empty (segment_of 3) (file_of 3) short
    ≡ ok (filled_with 3 short, true)
unfolding add_segment check_root validate_segment_range check_bytes store fill has_segment bytes_eq
    expected_segment_count expected_count_u64 count_is segment_raw_len
add_short = refl

add_segment-Inv_example : Inv length_digest (filled_with 5 whole)
add_segment-Inv_example =
    add_segment-Inv length_digest empty (filled_with 5 whole) (segment_of 5) (file_of 5) whole true
      (new-Inv length_digest (segment_of 5) (file_of 5) empty started) add_whole

whole-Inv : Inv length_digest (filled_with 5 whole)
whole-Inv =
    add_segment-Inv length_digest empty (filled_with 5 whole) (segment_of 5) (file_of 5) whole true
      (new-Inv length_digest (segment_of 5) (file_of 5) empty started) add_whole

whole-reassembled : reassemble (filled_with 5 whole) ≡ some whole
unfolding reassemble is_complete concat_slots
whole-reassembled = refl

reassemble-slices_example :
    (length whole ≡ 5)
    × (take (length whole) (drop (0 * segment_raw_bytes) whole) ≡ whole)
    × (length whole ≡ segment_raw_len 5 0)
reassemble-slices_example =
    reassemble-slices length_digest (filled_with 5 whole) whole whole 0 whole-Inv whole-reassembled
      refl

-- A segment that is shorter than its slice is stored, but then nothing is reassembled.
short-reassembled : reassemble (filled_with 3 short) ≡ none
unfolding reassemble is_complete concat_slots
short-reassembled = refl
