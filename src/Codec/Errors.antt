-- ===== src/Codec/Errors.antt =====
-- `raptorq_core::Error` (core/raptorq-core/src/lib.rs).
use air_ferry.Prelude.{ℕ, String}

pub data Error : Type 0 where
  empty_data : Error
  invalid_symbol_size : Error
  invalid_object_meta : String → Error
  block_out_of_range : (sbn total : ℕ) → Error
  not_decodable : (sbn : ℕ) → Error
  unknown_symbol : (sbn esi : ℕ) → Error
