-- ===== src/Protocol/Compress/Whole.antt =====
-- Compression and decompression of whole payloads (compress_with, decompress_with and what they call in
-- core/qr-protocol/src/compress.rs), and what stands for them in the browser.
use air_ferry.Prelude.{
  ℕ, ◌+◌, ◌^◌, ◌==◌, List, Result, ok, err, ◌>>=◌, map_err, String, if◌then◌else◌,
}
use air_ferry.Protocol.Errors.{Error, compress}
use air_ferry.Protocol.Compress.{compression_none, compression_zstd, compression_xz}

abbrev pub default_level : ℕ
default_level = 22

-- 6 with the flag for the extreme preset.
abbrev pub xz_preset : ℕ
xz_preset = 2 ^ 31 + 6

abbrev pub zstd_window_log_max : ℕ
zstd_window_log_max = 23

-- The crates' encoders of a type `W` and decoders of a type `R` over bytes in memory.
pub record Codecs (W R : Type 0) : Type 0 where
  pub zstd_encoder : (level : ℕ) → Result String W
  pub window_log : W → ℕ → Result String W
  pub zstd_decoder : List ℕ → Result String R
  pub window_log_max : R → ℕ → Result String R
  pub xz_encoder : (preset : ℕ) → W
  pub xz_decoder : List ℕ → R
  pub write_all : W → List ℕ → Result String W
  pub finish : W → Result String (List ℕ)
  pub read_to_end : R → Result String (List ℕ)

module _ {W R : Type 0} (codecs : Codecs W R) where
  -- `compress`
  unfoldable pub zstd_compress : List ℕ → (level : ℕ) → Result Error (List ℕ)
  zstd_compress bytes level = do
    encoder ← map_err compress (codecs.zstd_encoder level)
    clamped ← map_err compress (codecs.window_log encoder zstd_window_log_max)
    written ← map_err compress (codecs.write_all clamped bytes)
    map_err compress (codecs.finish written)

  unfoldable pub zstd_decoder : List ℕ → Result Error R
  zstd_decoder bytes = do
    decoder ← map_err compress (codecs.zstd_decoder bytes)
    map_err compress (codecs.window_log_max decoder zstd_window_log_max)

  -- `decompress`
  unfoldable pub decompress : List ℕ → Result Error (List ℕ)
  decompress bytes = do decoder ← zstd_decoder bytes; map_err compress (codecs.read_to_end decoder)

  unfoldable pub xz_compress : List ℕ → Result Error (List ℕ)
  xz_compress bytes = do
    written ← map_err compress (codecs.write_all (codecs.xz_encoder xz_preset) bytes)
    map_err compress (codecs.finish written)

  unfoldable pub xz_decompress : List ℕ → Result Error (List ℕ)
  xz_decompress bytes = map_err compress (codecs.read_to_end (codecs.xz_decoder bytes))

  -- An unknown tag counts as no compression.
  unfoldable pub compress_with : List ℕ → (tag : ℕ) → Result Error (List ℕ)
  compress_with bytes tag =
      if tag == compression_zstd
      then zstd_compress bytes default_level
      else if tag == compression_xz
      then xz_compress bytes
      else ok bytes

  unfoldable pub decompress_with : List ℕ → (tag : ℕ) → Result Error (List ℕ)
  decompress_with bytes tag =
      if tag == compression_zstd
      then decompress bytes
      else if tag == compression_xz
      then xz_decompress bytes
      else ok bytes

-- The browser has no decompressor: `decompress_with_limit` and `decompress_with` of the target wasm32.
unfoldable pub wasm_decompress_with : List ℕ → (tag : ℕ) → Result Error (List ℕ)
wasm_decompress_with bytes tag =
    if tag == compression_none
    then ok bytes
    else err (
        compress
          "decompression is not available on wasm32; use assemble_raw + JS-side decompression")

unfoldable pub wasm_decompress_with_limit : List ℕ → (tag max_output : ℕ) → Result Error (List ℕ)
wasm_decompress_with_limit bytes tag max_output =
    if tag == compression_none
    then ok bytes
    else err (
        compress
          "decompression is not available on wasm32; use assemble_raw + JS-side decompression")
