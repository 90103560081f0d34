-- ===== src/Engine/Progress.antt =====
-- The receiver's recovery progress (core/transfer-engine/src/progress.rs). The fractions in floating point
-- are left out.
use air_ferry.Prelude.{ℕ, Bool, false, ◌&&◌, ltb, ◌==◌}

pub record Progress : Type 0 where
  pub decoded_symbols : ℕ
  pub total_symbols : ℕ
  pub symbol_size : ℕ
  pub received_symbols : ℕ
  pub frames_seen : ℕ
  pub frames_duplicate : ℕ
  pub frames_corrupt : ℕ
  pub decoded_blocks : ℕ
  pub total_blocks : ℕ
  pub meta_confirmed : Bool
  pub session_mismatch_streak : ℕ

abbrev pub default : Progress
default = record {
  decoded_symbols = 0;
  total_symbols = 0;
  symbol_size = 0;
  received_symbols = 0;
  frames_seen = 0;
  frames_duplicate = 0;
  frames_corrupt = 0;
  decoded_blocks = 0;
  total_blocks = 0;
  meta_confirmed = false;
  session_mismatch_streak = 0;
}

pub is_complete : Progress → Bool
is_complete p = ltb 0 p.total_blocks && p.decoded_blocks == p.total_blocks
