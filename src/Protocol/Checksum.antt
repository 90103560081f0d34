-- ===== src/Protocol/Checksum.antt =====
-- The hashers that the program takes from other crates: `crc32fast` and `sha2`.
use air_ferry.Prelude.{ℕ, ◌^◌, ◌<◌, List}

-- `Crc32::new()`, `update` on the bytes in order, `finalize`: a `u32` of the bytes.
pub record Checksum : Type 0 where
  pub digest : List ℕ → ℕ
  pub digest-lt : (bs : List ℕ) → digest bs < 2 ^ 32
