-- ===== src/Engine/Assembler.antt =====
-- The coordinator that collects the segments of one transfer (core/transfer-engine/src/assembler.rs).
-- `sha256` is the digest of the crate `sha2`. Allocation is taken to succeed.
pub mod Slots
pub mod Invariant
pub mod Reassembly
use air_ferry.Prelude.{
  ℕ, zero, suc, ◌+◌, ◌-◌, ◌*◌, ◌/◌, ◌%◌, ◌^◌, Bool, true, false, ◌||◌, not, ltb, leb, ◌==◌, List,
  [], ◌∷◌, ◌++◌, length, get_or, set, replicate, Option, none, some, Result, ok, err, ◌>>=◌, ◌>>◌,
  reject_if, ok_or, is_some, checked_mul, try_from, min, if◌then◌else◌,
}
use air_ferry.Engine.Errors.{Error, invalid_segment}
use air_ferry.Engine.FileMeta.{FileMeta}
use air_ferry.Engine.Segment.{SegmentMeta, segment_raw_bytes, max_segment_count, expected_count_u64}
use air_ferry.Bytes.{bytes_eq}
use air_ferry.Engine.Equality.{option_segment_eq}

abbrev pub max_in_memory_assembly_bytes : ℕ
max_in_memory_assembly_bytes = 256 * 1024 * 1024

pub record TransferAssembler : Type 0 where
  pub root_session_id : ℕ
  pub filename : List ℕ
  pub total_segments : ℕ
  pub root_compressed_size : ℕ
  pub root_original_size : ℕ
  pub root_sha256 : List ℕ
  pub segments : List (Option (List ℕ))
  pub meta : List (Option SegmentMeta)
  pub received_count : ℕ

unfoldable pub expected_segment_count : ℕ → Option ℕ
expected_segment_count root =
    if root == 0
    then some 0
    else elim (expected_count_u64 root) [ none ↦ none | some count ↦ try_from 32 count ]

-- The product of a `u32` and the segment size fits 64 bits.
unfoldable pub segment_raw_len : (root_size segment_index : ℕ) → ℕ
segment_raw_len root_size segment_index =
    min (root_size - segment_index * segment_raw_bytes) segment_raw_bytes

unfoldable pub count_is : Option ℕ → ℕ → Bool
count_is none n = false
count_is (some m) n = m == n

unfoldable pub validate_segment_range : SegmentMeta → FileMeta → ℕ → Result Error (Unit {0})
validate_segment_range seg file_meta root = do
  reject_if (seg.segment_count == 0 || ltb max_segment_count seg.segment_count)
      (invalid_segment "segment count out of range")
  reject_if (not (count_is (expected_segment_count root) seg.segment_count))
      (invalid_segment "segment count inconsistent with compressed root size")
  reject_if (leb seg.segment_count seg.segment_index) (invalid_segment "segment index out of range")
  reject_if (not (seg.root_original_size == root))
      (invalid_segment "segment root size does not match assembler")
  expected_offset ←
      ok_or (checked_mul 64 seg.segment_index segment_raw_bytes)
        (invalid_segment "segment offset overflow")
  reject_if (not (seg.original_offset == expected_offset))
      (invalid_segment "segment offset is not canonical")
  reject_if (ltb (segment_raw_len root seg.segment_index) file_meta.compressed_size)
      (invalid_segment "segment compressed length exceeds canonical compressed range")

-- The assembler that `new` returns.
unfoldable pub fresh : SegmentMeta → FileMeta → TransferAssembler
fresh seg file_meta = record {
  root_session_id = seg.root_session_id;
  filename = file_meta.filename;
  total_segments = seg.segment_count;
  root_compressed_size = seg.root_original_size;
  root_original_size = file_meta.original_size;
  root_sha256 = seg.root_sha256;
  segments = replicate seg.segment_count none;
  meta = replicate seg.segment_count none;
  received_count = 0;
}

-- `TransferAssembler::new`
unfoldable pub new : SegmentMeta → FileMeta → Result Error TransferAssembler
new seg file_meta = do
  reject_if (seg.segment_count == 0 || ltb max_segment_count seg.segment_count)
      (invalid_segment "segment count out of range")
  reject_if (seg.root_original_size == 0) (invalid_segment "segment compressed root size is empty")
  expected ←
      ok_or (expected_segment_count seg.root_original_size)
        (invalid_segment "segment count overflow")
  reject_if (not (expected == seg.segment_count))
      (invalid_segment "segment count inconsistent with compressed root size")
  validate_segment_range seg file_meta seg.root_original_size
  ok (fresh seg file_meta)

unfoldable pub is_complete : TransferAssembler → Bool
is_complete a = a.received_count == a.total_segments

unfoldable pub has_segment : TransferAssembler → ℕ → Bool
has_segment a index = is_some (get_or a.segments index none)

-- The segment belongs to this transfer.
unfoldable pub check_root : TransferAssembler → SegmentMeta → FileMeta → Result Error (Unit {0})
check_root a seg file_meta = do
  reject_if (not (seg.root_session_id == a.root_session_id))
      (invalid_segment "segment root id does not match assembler")
  reject_if (not (seg.segment_count == a.total_segments))
      (invalid_segment "segment count does not match assembler")
  reject_if (not (bytes_eq seg.root_sha256 a.root_sha256))
      (invalid_segment "segment root sha256 does not match assembler")
  reject_if (not (bytes_eq file_meta.filename a.filename))
      (invalid_segment "segment filename does not match assembler")

-- The slot of the segment is filled, and one more has been received.
unfoldable pub fill : TransferAssembler → SegmentMeta → List ℕ → TransferAssembler
fill a seg bytes = record a {
  segments = set a.segments seg.segment_index (some bytes);
  meta = set a.meta seg.segment_index (some seg);
  received_count = (a.received_count + 1) % 2 ^ 32;
}

-- The end of `add_segment`: a segment that is there already is left alone.
unfoldable pub store :
    TransferAssembler → SegmentMeta → List ℕ → Result Error (TransferAssembler × Bool)
store a seg bytes =
    if has_segment a seg.segment_index
    then (do
      reject_if (not (option_segment_eq (get_or a.meta seg.segment_index none) (some seg)))
          (invalid_segment "duplicate segment metadata conflicts with stored segment")
      ok (a, false))
    else ok (fill a seg bytes, true)

module _ (sha256 : List ℕ → List ℕ) where
  -- The bytes are those that the descriptor declares.
  unfoldable pub check_bytes :
      TransferAssembler → SegmentMeta → FileMeta → List ℕ → Result Error (Unit {0})
  check_bytes a seg file_meta bytes = do
    reject_if (not (length bytes == file_meta.compressed_size))
        (invalid_segment "segment length mismatch")
    reject_if (ltb (segment_raw_len a.root_compressed_size seg.segment_index) (length bytes))
        (invalid_segment "segment length exceeds canonical range")
    reject_if (not (bytes_eq (sha256 bytes) seg.raw_sha256))
        (invalid_segment "segment sha256 mismatch")

  unfoldable pub add_segment :
      TransferAssembler → SegmentMeta → FileMeta → List ℕ → Result Error (TransferAssembler × Bool)
  add_segment a seg file_meta bytes = do
    check_root a seg file_meta
    validate_segment_range seg file_meta a.root_compressed_size
    check_bytes a seg file_meta bytes
    store a seg bytes

-- The loop over the slots; `slot.as_ref()?` leaves at a hole.
unfoldable pub concat_slots : List (Option (List ℕ)) → Option (List ℕ)
concat_slots [] = some []
concat_slots (none ∷ slots) = none
concat_slots (some bytes ∷ slots) = elim (concat_slots slots) [
  | none ↦ none
  | some rest ↦ some (bytes ++ rest)
]

unfoldable pub reassemble : TransferAssembler → Option (List ℕ)
reassemble a =
    if not (is_complete a)
    then none
    else if ltb max_in_memory_assembly_bytes a.root_compressed_size
    then none
    else elim (concat_slots a.segments) [
      | none ↦ none
      | some out ↦ if length out == a.root_compressed_size then some out else none
    ]

-- A range for each segment that is known.
unfoldable pub ranges_of : ℕ → List (Option SegmentMeta) → List (ℕ × ℕ × ℕ × List ℕ)
ranges_of root [] = []
ranges_of root (none ∷ slots) = ranges_of root slots
ranges_of root (some seg ∷ slots) =
    (seg.segment_index, seg.original_offset, segment_raw_len root seg.segment_index, seg.raw_sha256)
    ∷ ranges_of root slots

pub segment_ranges : TransferAssembler → List (ℕ × ℕ × ℕ × List ℕ)
segment_ranges a = ranges_of a.root_compressed_size a.meta
