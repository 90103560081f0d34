-- ===== src/Protocol/Chunker.antt =====
-- Padding to whole symbols (core/qr-protocol/src/chunker.rs).
use air_ferry.Prelude.{
  ℕ, ◌+◌, ◌-◌, ◌%◌, ◌<◌, ◌*◌, ◌/◌, ◌≡◌, refl, inl, inr, List, ◌++◌, ◌==◌, length, take, replicate,
  if◌then◌else◌, length-append, length-replicate, Bool-cases, arith,
}
use native.Mathlib.Nat.{mod-lt, div-add-mod, mul-mod_right}
use air_ferry.Bytes.{take-append, take_all}
use air_ferry.Codec.Config.{Config}

unfoldable pub pad_to_symbols : List ℕ → Config → List ℕ
pad_to_symbols bytes config =
    let t = config.symbol_size in
    let rem = length bytes % t in if rem == 0 then bytes else bytes ++ replicate (t - rem) 0

-- `n` rounded up to a multiple of `t`.
round_up : (n t : ℕ) → 0 < t → (n + (t - n % t)) % t ≡ 0
round_up n t pos =
    let whole : n + (t - n % t) ≡ t * (n / t + 1) = omega (arith, div-add-mod n t, mod-lt n pos) in
    rw whole (mul-mod_right t (n / t + 1))

-- The padded bytes are a whole number of symbols, less than one symbol is added, and the input is kept
-- in front.
pub pad_to_symbols_lem :
    (bytes : List ℕ) (config : Config)
    → 0 < config.symbol_size
    → (length (pad_to_symbols bytes config) % config.symbol_size ≡ 0)
      × (length (pad_to_symbols bytes config) < length bytes + config.symbol_size)
      × (take (length bytes) (pad_to_symbols bytes config) ≡ bytes)
unfolding pad_to_symbols
pad_to_symbols_lem bytes config pos =
    let t = config.symbol_size in
    let n = length bytes in
    elim (Bool-cases (n % t == 0)) [
      | inl whole ↦ rw whole (ground arith, omega arith, take_all n bytes refl)
      | inr part ↦
          let zeros : List ℕ = replicate (t - n % t) 0 in
          let size : length (bytes ++ zeros) ≡ n + (t - n % t) =
            omega (arith, length-append bytes zeros, length-replicate {A = ℕ} (t - n % t) 0) in
          rw part (
            rw size (round_up n t pos),
            rw size (ground (arith, mod-lt n pos)),
            take-append n bytes zeros refl,
          )
    ]
