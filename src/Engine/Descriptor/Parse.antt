-- ===== src/Engine/Descriptor/Parse.antt =====
-- `parse_payload` (core/transfer-engine/src/descriptor.rs).
use air_ferry.Prelude.{
  ℕ, zero, suc, ◌+◌, ◌*◌, true, ◌||◌, not, ltb, leb, ◌==◌, List, [], ◌∷◌, length, get_or, take,
  drop, Option, none, some, if◌then◌else◌,
}
use air_ferry.Prelude.Options.{◌>>=◌, ◌>>◌, stop_if}
use air_ferry.Bytes.{be_at}
use air_ferry.Codec.Meta.{SourceBlockMeta, ObjectMeta}
use air_ferry.Protocol.Compress.{compression_none}
use air_ferry.Engine.FileMeta.{FileMeta, default}
use air_ferry.Engine.Segment.{SegmentMeta}
use air_ferry.Engine.Utf8.{is_utf8}
use air_ferry.Engine.Descriptor.{
  DescriptorInfo, desc_magic, desc_version, desc_legacy_v4, desc_v3_version, desc_fixed_overhead,
  desc_v3_tail_fixed, desc_segment_tail_fixed,
}

unfoldable pub read_blocks : ℕ → List ℕ → List SourceBlockMeta
read_blocks zero rest = []
read_blocks (suc n) rest =
    record {
      sbn = be_at rest 0 4;
      num_source_symbols = be_at rest 4 4;
      block_length = be_at rest 8 8;
    }
    ∷ read_blocks n (drop 16 rest)

-- The v3 tail behind the v2 fields; `original_size` stands for a size that v2 lacks.
unfoldable pub read_v3 :
    (version : ℕ)
    → (filename : List ℕ) → (original_size crc32 : ℕ) → List ℕ
    → Option (FileMeta × List ℕ)
read_v3 version filename original_size crc32 rest =
    if leb desc_v3_version version
    then (do
      stop_if (ltb (length rest) desc_v3_tail_fixed)
      some (
        record {
          filename = filename;
          original_size = original_size;
          crc32 = crc32;
          compression = get_or rest 0 0;
          compressed_size = be_at rest 1 8;
          compressed_size_known = true;
          crc32_known = true;
        },
        drop 9 rest,
      ))
    else some (
      record {
        filename = filename;
        original_size = original_size;
        crc32 = crc32;
        compression = compression_none;
        compressed_size = original_size;
        compressed_size_known = true;
        crc32_known = true;
      },
      rest,
    )

unfoldable pub read_v2 : (version : ℕ) → List ℕ → Option (FileMeta × List ℕ)
unfolding read_v3
read_v2 version [] = none
read_v2 version (name_len ∷ rest) = do
  stop_if (ltb (length rest) (name_len + 12))
  let filename = take name_len rest
  stop_if (not (is_utf8 filename))
  let rest' = drop name_len rest
  read_v3 version filename (be_at rest' 0 8) (be_at rest' 8 4) (drop 12 rest')

-- v1 ends at the block table.
unfoldable pub read_file : (version : ℕ) → List ℕ → Option (FileMeta × List ℕ)
read_file version rest = if version == 1 then some (default, rest) else read_v2 version rest

unfoldable pub read_segment : (version : ℕ) → List ℕ → Option (Option SegmentMeta)
read_segment version rest =
    if version == desc_version
    then (do
      stop_if (ltb (length rest) desc_segment_tail_fixed)
      some (
          some (record {
            root_session_id = be_at rest 0 16;
            segment_index = be_at rest 16 4;
            segment_count = be_at rest 20 4;
            original_offset = be_at rest 24 8;
            root_original_size = be_at rest 32 8;
            root_sha256 = take 32 (drop 40 rest);
            raw_sha256 = take 32 (drop 72 rest);
          })))
    else some none

unfoldable pub parse_payload : List ℕ → Option DescriptorInfo
parse_payload payload = do
  stop_if (ltb (length payload) desc_fixed_overhead || not (get_or payload 0 0 == desc_magic))
  let version = get_or payload 1 0
  stop_if (ltb version 1 || ltb desc_version version)
  stop_if (version == desc_legacy_v4)
  let num_blocks = be_at payload 2 2
  stop_if (ltb (length payload) (desc_fixed_overhead + num_blocks * 16))
  let table = drop desc_fixed_overhead payload
  let meta : ObjectMeta = record {
    transfer_length = be_at payload 4 8;
    symbol_size = be_at payload 12 4;
    oti_bytes = take 12 (drop 16 payload);
    blocks = read_blocks num_blocks table;
  }
  (file_meta, rest) ← read_file version (drop (num_blocks * 16) table)
  segment ← read_segment version rest
  some (record { meta = meta; file_meta = file_meta; segment = segment })
