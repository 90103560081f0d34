-- ===== src/Protocol/Tests/Compressing.antt =====
-- A payload that is compressed and decompressed.
use air_ferry.Prelude.{ℕ, ◌≡◌, refl, List, [], ◌∷◌, drop, ok}
use air_ferry.Protocol.Compress.Whole.{
  Codecs, compress_with, decompress_with, decompress, zstd_decoder, zstd_compress,
}

-- A stream is a zero before the payload.
abbrev zeroed : Codecs (List ℕ) (List ℕ)
zeroed = record {
  zstd_encoder = λ level. ok [];
  window_log = λ w log. ok w;
  zstd_decoder = λ bytes. ok (drop 1 bytes);
  window_log_max = λ r log. ok r;
  xz_encoder = λ preset. [];
  xz_decoder = λ bytes. drop 1 bytes;
  write_all = λ w bytes. ok bytes;
  finish = λ w. ok (0 ∷ w);
  read_to_end = λ r. ok r;
}

zeroed_run : compress_with zeroed (7 ∷ 8 ∷ []) 1 ≡ ok (0 ∷ 7 ∷ 8 ∷ [])
unfolding compress_with zstd_compress
zeroed_run = refl

unzeroed_run : decompress_with zeroed (0 ∷ 7 ∷ 8 ∷ []) 1 ≡ ok (7 ∷ 8 ∷ [])
unfolding decompress_with decompress zstd_decoder
unzeroed_run = refl

-- Under an unknown tag nothing is compressed.
plain_run : compress_with zeroed (7 ∷ 8 ∷ []) 9 ≡ ok (7 ∷ 8 ∷ [])
unfolding compress_with
plain_run = refl
