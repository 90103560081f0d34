-- ===== src/Engine/FileMeta.antt =====
-- File metadata (core/transfer-engine/src/descriptor.rs). A `String` is the list of its UTF-8 bytes.
use air_ferry.Prelude.{ℕ, Bool, false, List, []}
use air_ferry.Protocol.Compress.{compression_none}

pub record FileMeta : Type 0 where
  pub filename : List ℕ
  pub original_size : ℕ
  pub crc32 : ℕ
  pub compression : ℕ
  pub compressed_size : ℕ
  pub compressed_size_known : Bool
  pub crc32_known : Bool

abbrev pub default : FileMeta
default = record {
  filename = [];
  original_size = 0;
  crc32 = 0;
  compression = compression_none;
  compressed_size = 0;
  compressed_size_known = false;
  crc32_known = false;
}
