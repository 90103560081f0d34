-- ===== src/Engine/IngestStatus.antt =====
-- The summary of a frame in one 64-bit word (core/transfer-engine/src/ingest_status.rs). The fields do not
-- overlap, so `|=` is `+`, and the mask of 16 bits is the remainder.
use air_ferry.Prelude.{
  ℕ, ◌+◌, ◌-◌, ◌*◌, ◌/◌, ◌%◌, ◌^◌, ◌<◌, ◌≡◌, ◌≢◌, Bool, true, false, ◌==◌, if◌then◌else◌, arith,
}

abbrev pub received_offset : ℕ
received_offset = 32

abbrev pub streak_offset : ℕ
streak_offset = 8

abbrev pub streak_width : ℕ
streak_width = 16

abbrev pub ingest_error : ℕ
ingest_error = 0xFFFFFFFF * 2 ^ received_offset

unfoldable pub pack : (complete accepted : Bool) → (mismatch_streak received_symbols : ℕ) → ℕ
pack complete accepted mismatch_streak received_symbols =
    (if complete then 1 else 0)
    + (if accepted then 2 else 0)
    + mismatch_streak % 2 ^ streak_width * 2 ^ streak_offset
    + received_symbols * 2 ^ received_offset

-- A host gets back each field from its bits: the two flags, the low 16 bits of the streak, and the 32 bits
-- of the count. The word has 64 bits.
pub pack-fields :
    (complete accepted : Bool) (streak received : ℕ)
    → received < 2 ^ 32
    → ((pack complete accepted streak received % 2 == 1) ≡ complete)
      × ((pack complete accepted streak received / 2 % 2 == 1) ≡ accepted)
      × (pack complete accepted streak received / 2 ^ 8 % 2 ^ 16 ≡ streak % 2 ^ 16)
      × (pack complete accepted streak received / 2 ^ 32 ≡ received)
      × (pack complete accepted streak received < 2 ^ 64)
unfolding pack
pack-fields true true streak received h =
    (ground arith, ground arith, omega arith, omega arith, omega arith)
pack-fields true false streak received h =
    (ground arith, ground arith, omega arith, omega arith, omega arith)
pack-fields false true streak received h =
    (ground arith, ground arith, omega arith, omega arith, omega arith)
pack-fields false false streak received h =
    (ground arith, ground arith, omega arith, omega arith, omega arith)

-- A summary with fewer than 2^32 - 1 symbols is never the error word.
pub pack-ingest_error :
    (complete accepted : Bool) (streak received : ℕ)
    → received < 2 ^ 32 - 1
    → pack complete accepted streak received ≢ ingest_error
unfolding pack
pack-ingest_error true true streak received h e = omega arith
pack-ingest_error true false streak received h e = omega arith
pack-ingest_error false true streak received h e = omega arith
pack-ingest_error false false streak received h e = omega arith
