-- ===== src/Protocol/Errors.antt =====
-- `qr_protocol::Error` (core/qr-protocol/src/lib.rs).
use air_ferry.Prelude.{ℕ, String}

pub data Error : Type 0 where
  buffer_too_short : (need have : ℕ) → Error
  bad_magic : (expected got : ℕ) → Error
  bad_version : ℕ → Error
  frame_crc_mismatch : Error
  payload_crc_mismatch : Error
  bad_symbol_size : ℕ → Error
  length_mismatch : (expected actual : ℕ) → Error
  compress : String → Error
