-- ===== src/Engine/Descriptor.antt =====
-- Descriptor payloads (core/transfer-engine/src/descriptor.rs). The code writes the fields one behind the
-- other into a zeroed buffer, and reads them at an offset `o`: here the writer appends, and the reader
-- holds `payload[o..]`.
pub mod Parse
pub mod Blocks
pub mod RoundTrip
use air_ferry.Prelude.{
  ℕ, ◌+◌, ◌-◌, ◌*◌, ◌^◌, ◌%◌, ltb, List, [], ◌∷◌, ◌++◌, length, take, replicate, Option, none, some,
  Result, ok, err, ◌>>=◌, ◌>>◌, reject_if, map_err, min, if◌then◌else◌,
}
use air_ferry.Bytes.{to_be}
use air_ferry.Protocol.Errors as ProtocolErrors
use air_ferry.Protocol.Checksum.{Checksum}
use air_ferry.Protocol.Frame.{Frame, build, flag_descriptor}
use air_ferry.Codec.Meta.{SourceBlockMeta, ObjectMeta, total_symbols}
use air_ferry.Engine.Errors.{Error, protocol, invalid_segment}
use air_ferry.Engine.FileMeta.{FileMeta}
use air_ferry.Engine.Segment
use air_ferry.Engine.Segment.{SegmentMeta}
use air_ferry.Engine.Utf8.{cut_at_char}

abbrev pub desc_magic : ℕ
desc_magic = 0xd5

abbrev pub desc_version : ℕ
desc_version = 5

abbrev pub desc_legacy_v4 : ℕ
desc_legacy_v4 = 4

abbrev pub desc_v3_version : ℕ
desc_v3_version = 3

abbrev pub desc_fixed_overhead : ℕ
desc_fixed_overhead = 28

abbrev pub desc_v2_tail_fixed : ℕ
desc_v2_tail_fixed = 13

abbrev pub desc_v3_tail_fixed : ℕ
desc_v3_tail_fixed = 9

abbrev pub desc_segment_tail_fixed : ℕ
desc_segment_tail_fixed = 16 + 4 + 4 + 8 + 8 + 32 + 32

pub record DescriptorInfo : Type 0 where
  pub meta : ObjectMeta
  pub file_meta : FileMeta
  pub segment : Option SegmentMeta

abbrev pub segment_tail : Option SegmentMeta → ℕ
segment_tail none = 0
segment_tail (some s) = desc_segment_tail_fixed

abbrev pub version_of : Option SegmentMeta → ℕ
version_of none = desc_v3_version
version_of (some s) = desc_version

-- The name's bytes that fit beside the rest, cut at a character.
unfoldable pub filename_len : ObjectMeta → FileMeta → Option SegmentMeta → ℕ
filename_len meta file_meta segment =
    let available_for_filename =
      meta.symbol_size
      - (desc_fixed_overhead
          + length meta.blocks * 16
          + desc_v2_tail_fixed
          + desc_v3_tail_fixed
          + segment_tail segment) in
    cut_at_char file_meta.filename
      (min (min (length file_meta.filename) available_for_filename) 255)

unfoldable pub write_blocks : List SourceBlockMeta → List ℕ
write_blocks [] = []
write_blocks (b ∷ bs) =
    to_be 4 b.sbn ++ (to_be 4 b.num_source_symbols ++ (to_be 8 b.block_length ++ write_blocks bs))

unfoldable pub write_segment : Option SegmentMeta → List ℕ
write_segment none = []
write_segment (some s) =
    to_be 16 s.root_session_id
    ++ (to_be 4 s.segment_index
        ++ (to_be 4 s.segment_count
            ++ (to_be 8 s.original_offset
                ++ (to_be 8 s.root_original_size ++ (s.root_sha256 ++ s.raw_sha256)))))

unfoldable pub write_head : ObjectMeta → Option SegmentMeta → List ℕ
write_head meta segment =
    desc_magic
    ∷ version_of segment
    ∷ (to_be 2 (length meta.blocks % 2 ^ 16)
        ++ (to_be 8 meta.transfer_length ++ (to_be 4 meta.symbol_size ++ meta.oti_bytes)))

-- From the name's length to the compressed size.
unfoldable pub write_file : FileMeta → ℕ → List ℕ
write_file file_meta name_len =
    (name_len % 2 ^ 8)
    ∷ (take name_len file_meta.filename
        ++ (to_be 8 file_meta.original_size
            ++ (to_be 4 file_meta.crc32
                ++ (file_meta.compression ∷ to_be 8 file_meta.compressed_size))))

unfoldable pub body_len : ObjectMeta → ℕ → Option SegmentMeta → ℕ
body_len meta name_len segment =
    desc_fixed_overhead
    + length meta.blocks * 16
    + 1
    + name_len
    + desc_v2_tail_fixed
    - 1
    + desc_v3_tail_fixed
    + segment_tail segment

unfoldable pub build_payload_inner :
    ObjectMeta → FileMeta → Option SegmentMeta → Result Error (List ℕ)
build_payload_inner meta file_meta segment = do
  let name_len = filename_len meta file_meta segment
  let need = body_len meta name_len segment
  reject_if (ltb meta.symbol_size need)
      (protocol (ProtocolErrors.buffer_too_short need meta.symbol_size))
  ok (
      write_head meta segment
      ++ (write_blocks meta.blocks
          ++ (write_file file_meta name_len
              ++ (write_segment segment ++ replicate (meta.symbol_size - need) 0))))

unfoldable pub build_payload : ObjectMeta → FileMeta → Result Error (List ℕ)
build_payload meta file_meta = build_payload_inner meta file_meta none

unfoldable pub build_segment_payload : ObjectMeta → FileMeta → SegmentMeta → Result Error (List ℕ)
build_segment_payload meta file_meta segment = build_payload_inner meta file_meta (some segment)

module _ (crc : Checksum) where
  unfoldable pub build_frame :
      ObjectMeta → FileMeta → (session_id frame_index timestamp_ms : ℕ) → Result Error Frame
  build_frame meta file_meta session_id frame_index timestamp_ms = do
    payload ← build_payload meta file_meta
    ok (
        build crc session_id flag_descriptor 0 0 (length meta.blocks % 2 ^ 32)
          (total_symbols meta.blocks) meta.symbol_size frame_index timestamp_ms payload)

  unfoldable pub build_segment_frame :
      ObjectMeta
      → FileMeta
      → SegmentMeta
      → (child_session_id frame_index timestamp_ms : ℕ) → Result Error Frame
  build_segment_frame meta file_meta segment child_session_id frame_index timestamp_ms = do
    map_err invalid_segment (Segment.validate segment child_session_id file_meta)
    payload ← build_segment_payload meta file_meta segment
    ok (
        build crc child_session_id flag_descriptor 0 0 (length meta.blocks % 2 ^ 32)
          (total_symbols meta.blocks) meta.symbol_size frame_index timestamp_ms payload)
