-- ===== src/Engine/Receiver/Cache.antt =====
-- The size of the replay cache (`ingest` of core/transfer-engine/src/receiver.rs).
use native.Mathlib.Nat.{div-mul-le_self}
use air_ferry.Prelude.{
  ℕ, suc, ◌+◌, ◌-◌, ◌*◌, max, ◌≤◌, ◌<◌, ◌≡◌, inl, inr, false, leb, ◌==◌, length, Bool-cases, arith,
}
use air_ferry.Protocol.Frame.{Frame}
use air_ferry.Codec.Meta.{max_object_bytes}
use air_ferry.Engine.Receiver.{
  ReceiverSession, pre_meta_cache_max, div_ceil, contains_key, count_corrupt, count_duplicate,
}
use air_ferry.Engine.Receiver.Ingest.{cache_symbol}

div_ceil-bytes : (a b : ℕ) → 0 < b → div_ceil a b * b < a + b
div_ceil-bytes a b h = omega (arith, div-mul-le_self (a + (b - 1)) b)

-- The bytes that `pre_meta_cache_max` entries are charged, each at least 64, stay below 32 MiB and one more
-- entry.
pub pre_meta_cache_max-bytes :
    (symbol_size : ℕ)
    → 0 < symbol_size
    → pre_meta_cache_max symbol_size * max symbol_size 64 < max_object_bytes + max symbol_size 64
unfolding pre_meta_cache_max
pre_meta_cache_max-bytes symbol_size h = elim (Bool-cases (symbol_size == 0)) [
  | inl unknown ↦ absurd (ground arith)
  | inr known ↦ rw known (div_ceil-bytes max_object_bytes (max symbol_size 64) (omega arith))
]

module _ {D : Type 0} where
  -- The entries are at most as many as the frame's symbol size allows, or as many as there were.
  pub length-cache_symbol :
      (s : ReceiverSession D) (frame : Frame)
      → length (cache_symbol s frame).symbol_cache
        ≤ max (length s.symbol_cache) (pre_meta_cache_max frame.header.symbol_size)
  unfolding cache_symbol count_duplicate count_corrupt
  length-cache_symbol s frame =
      elim (Bool-cases (contains_key frame.header.sbn frame.header.esi s.symbol_cache)) [
        | inl held ↦ rw held (omega arith)
        | inr new ↦
            elim (Bool-cases
              (leb (pre_meta_cache_max frame.header.symbol_size) (length s.symbol_cache))) [
                | inl full ↦ rw (new, full) (omega arith)
                | inr room ↦
                    rw (new, room)
                      (below (length s.symbol_cache) (pre_meta_cache_max frame.header.symbol_size)
                        room)
              ]
      ]
    where
      below : (n m : ℕ) → leb m n ≡ false → suc n ≤ max n m
      below n m h = ground arith
