-- ===== src/Protocol/Compress.antt =====
-- Bounded decompression (core/qr-protocol/src/compress.rs). The decoders of the crates `zstd` and `xz2`
-- are readers: the most bytes wanted, and what `read_to_end` yields of the stream.
pub mod Whole
use air_ferry.Prelude.{
  ℕ, ◌≤◌, ◌≡◌, Bool, true, false, ◌||◌, ◌&&◌, not, ltb, ◌==◌, List, [], ◌∷◌, length, Result, ok,
  ◌>>=◌, ◌>>◌, reject_if, if◌then◌else◌, map_err, String, inl, inr, Bool-cases, arith, >>=-eq-ok,
}
use air_ferry.Protocol.Frame.{saturating_add}
use air_ferry.Protocol.Errors.{Error, compress}

abbrev pub compression_none : ℕ
compression_none = 0

abbrev pub compression_zstd : ℕ
compression_zstd = 1

abbrev pub compression_xz : ℕ
compression_xz = 2

unfoldable pub is_known_compression_tag : ℕ → Bool
is_known_compression_tag tag =
    (tag == compression_none || tag == compression_zstd) || tag == compression_xz

abbrev pub Reader : Type 0
Reader = (limit : ℕ) → Result String (List ℕ)

-- The crates' decoders over some bytes, each with the limits that the code sets.
pub record Decoders : Type 0 where
  pub zstd : List ℕ → Result String Reader
  pub xz : List ℕ → Result String Reader

abbrev pub is_nil {ℓ} : {A : Type ℓ} → List A → Bool
is_nil [] = true
is_nil (x ∷ xs) = false

-- One byte more than allowed is read, to see that there is one.
unfoldable pub read_capped : Reader → ℕ → Result Error (List ℕ)
read_capped r max_output = do
  out ← map_err compress (r (saturating_add max_output 1))
  reject_if (ltb max_output (length out)) (compress "decompressed output exceeds expected size")
  ok out

-- The arms of the decoders; a decoder may fail to open.
unfoldable pub read_opened : Result String Reader → ℕ → Result Error (List ℕ)
read_opened opened max_output = do r ← map_err compress opened; read_capped r max_output

-- The arm of a payload that is not compressed.
unfoldable pub copy_capped : List ℕ → (tag max_output : ℕ) → Result Error (List ℕ)
copy_capped bytes tag max_output = do
  reject_if (not (is_known_compression_tag tag) && not (is_nil bytes))
      (compress "unknown compression algorithm tag")
  reject_if (ltb max_output (length bytes)) (compress "payload exceeds size limit")
  ok bytes

capped :
    (max_output : ℕ) (x out : List ℕ)
    → (reject_if (ltb max_output (length x)) (compress "decompressed output exceeds expected size")
        >> ok x)
      ≡ ok out
    → length out ≤ max_output
capped max_output x out e = ground arith

read_opened-le :
    (opened : Result String Reader) (max_output : ℕ) (out : List ℕ)
    → read_opened opened max_output ≡ ok out
    → length out ≤ max_output
unfolding read_opened read_capped
read_opened-le opened max_output out e =
    let (r, opening, e₁) = >>=-eq-ok (map_err compress opened) _ e in
    let (x, read, e₂) = >>=-eq-ok (map_err compress (r (saturating_add max_output 1))) _ e₁ in
    capped max_output x out e₂

copy_capped-le :
    (bytes out : List ℕ) (tag max_output : ℕ)
    → copy_capped bytes tag max_output ≡ ok out
    → length out ≤ max_output
unfolding copy_capped
copy_capped-le bytes out tag max_output e = ground arith

module _ (decoders : Decoders) where
  unfoldable pub decompress_with_limit : List ℕ → (tag max_output : ℕ) → Result Error (List ℕ)
  decompress_with_limit bytes tag max_output =
      if tag == compression_zstd
      then read_opened (decoders.zstd bytes) max_output
      else if tag == compression_xz
      then read_opened (decoders.xz bytes) max_output
      else copy_capped bytes tag max_output

  -- Whatever the stream, a result is never longer than the limit.
  pub decompress_with_limit-le :
      (bytes out : List ℕ) (tag max_output : ℕ)
      → decompress_with_limit bytes tag max_output ≡ ok out
      → length out ≤ max_output
  unfolding decompress_with_limit
  decompress_with_limit-le bytes out tag max_output e =
      elim (Bool-cases (tag == compression_zstd)) [
        | inl zstd ↦ read_opened-le (decoders.zstd bytes) max_output out (rw zstd at e)
        | inr other ↦ elim (Bool-cases (tag == compression_xz)) [
          | inl xz ↦ read_opened-le (decoders.xz bytes) max_output out (rw (other, xz) at e)
          | inr plain ↦ copy_capped-le bytes out tag max_output (rw (other, plain) at e)
        ]
      ]
