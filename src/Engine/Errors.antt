-- ===== src/Engine/Errors.antt =====
-- `transfer_engine::Error` (core/transfer-engine/src/lib.rs).
use air_ferry.Prelude.{ℕ, String}
use air_ferry.Codec.Errors as CodecErrors
use air_ferry.Protocol.Errors as ProtocolErrors

pub data Error : Type 0 where
  raptorq : CodecErrors.Error → Error
  protocol : ProtocolErrors.Error → Error
  no_payload : Error
  not_initialized : Error
  session_mismatch : (expected got : ℕ) → Error
  already_complete : Error
  invalid_redundancy : ℕ → Error
  compress : String → Error
  symbol_id_space_exhausted : Error
  invalid_resume : String → Error
  invalid_segment : String → Error
