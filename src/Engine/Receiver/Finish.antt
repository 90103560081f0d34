-- ===== src/Engine/Receiver/Finish.antt =====
-- `assemble_raw` and `assemble_result` of core/transfer-engine/src/receiver.rs. `to_string` prints an error
-- of the crate qr-protocol; the lengths in the other messages are left out. A `usize` has 64 bits.
use air_ferry.Prelude.{
  ℕ, ◌≤◌, ◌≡◌, ◌≢◌, Bool, false, ◌&&◌, not, ltb, leb, ◌==◌, List, length, take, Option, none, some,
  Result, ok, err, String, if◌then◌else◌, inl, inr, Option-cases, arith,
}
use air_ferry.Protocol.Errors as ProtocolErrors
use air_ferry.Protocol.Compress.{
  Decoders, decompress_with_limit, decompress_with_limit-le, compression_none,
}
use air_ferry.Codec.Meta.{max_original_bytes}
use air_ferry.Codec.Decoder
use air_ferry.Engine.Errors.{Error, compress}
use air_ferry.Engine.FileMeta.{FileMeta}
use air_ferry.Engine.Receiver.{ReceiverSession}

module _ {D : Type 0} where
  unfoldable pub assemble_raw : ReceiverSession D → Option (List ℕ)
  assemble_raw s = elim s.decoder [ none ↦ none | some d ↦ Decoder.assemble d ]

  -- A result without an error message, and one that leaves its message.
  unfoldable pub succeed :
      ReceiverSession D → Option (List ℕ) → ReceiverSession D × Result Error (Option (List ℕ))
  succeed s out = (record s { last_assemble_error = none }, ok out)

  unfoldable pub fail :
      ReceiverSession D → String → ReceiverSession D × Result Error (Option (List ℕ))
  fail s message = (record s { last_assemble_error = some message }, err (compress message))

-- The padding is cut off where the length of the payload is known.
unfoldable pub trim : FileMeta → List ℕ → Option (List ℕ)
trim file raw =
    if not file.compressed_size_known
    then some raw
    else if leb file.compressed_size (length raw)
    then some (take file.compressed_size raw)
    else none

-- The most bytes that decompression may yield.
unfoldable pub decompressed_cap : FileMeta → Option ℕ
decompressed_cap file =
    if file.original_size == 0
    then some max_original_bytes
    else if ltb max_original_bytes file.original_size
    then none
    else some file.original_size

unfoldable pub is_wrong_size : FileMeta → List ℕ → Bool
is_wrong_size file out = ltb 0 file.original_size && not (length out == file.original_size)

module _ {D : Type 0} (decoders : Decoders) (to_string : ProtocolErrors.Error → String) where
  unfoldable pub decompress_result :
      ReceiverSession D → List ℕ → (cap : ℕ) → ReceiverSession D × Result Error (Option (List ℕ))
  decompress_result s raw cap =
      elim (decompress_with_limit decoders raw s.file_meta.compression cap) [
        | err e ↦ fail s (to_string e)
        | ok out ↦
            if is_wrong_size s.file_meta out
            then fail s "decompressed size mismatch"
            else succeed s (some out)
      ]

  unfoldable pub unpack :
      ReceiverSession D → List ℕ → ReceiverSession D × Result Error (Option (List ℕ))
  unpack s raw =
      if s.file_meta.compression == compression_none
      then succeed s (some raw)
      else elim (decompressed_cap s.file_meta) [
        | none ↦ fail s "descriptor original_size exceeds receiver limit"
        | some cap ↦ decompress_result s raw cap
      ]

  unfoldable pub assemble_result :
      ReceiverSession D → ReceiverSession D × Result Error (Option (List ℕ))
  assemble_result s = elim (assemble_raw s) [
    | none ↦ succeed s none
    | some raw ↦ elim (trim s.file_meta raw) [
      | none ↦ fail s "descriptor compressed_size exceeds recovered payload"
      | some payload ↦ unpack s payload
    ]
  ]

  -- `assemble()`
  pub assemble : ReceiverSession D → ReceiverSession D × Option (List ℕ)
  assemble s = let (t, r) = assemble_result s in (t, elim r [ err e ↦ none | ok out ↦ out ])

  decompress_result-length :
      (s : ReceiverSession D) (raw : List ℕ) (cap : ℕ) (out : List ℕ)
      → decompressed_cap s.file_meta ≡ some cap
      → (decompress_result s raw cap).1 ≡ ok (some out)
      → (length out ≤ max_original_bytes)
        × (s.file_meta.original_size ≢ 0 → length out ≡ s.file_meta.original_size)
  unfolding decompress_result succeed fail decompressed_cap is_wrong_size
  decompress_result-length s raw cap out bound e =
      ground (arith, decompress_with_limit-le decoders raw out s.file_meta.compression cap)

  -- A file that comes out of decompression has at most 256 MiB, and it has the length that the descriptor
  -- declares where it declares one.
  pub assemble_result-length :
      (s : ReceiverSession D) (out : List ℕ)
      → s.file_meta.compression ≢ compression_none
      → (assemble_result s).1 ≡ ok (some out)
      → (length out ≤ max_original_bytes)
        × (s.file_meta.original_size ≢ 0 → length out ≡ s.file_meta.original_size)
  unfolding assemble_result unpack succeed fail
  assemble_result-length s out packed e = elim (Option-cases (assemble_raw s)) [
    | inl incomplete ↦ ground (arith, incomplete)
    | inr (raw, complete) ↦ elim (Option-cases (trim s.file_meta raw)) [
      | inl long ↦ ground (arith, complete, long)
      | inr (payload, trimmed) ↦
          let tagged : (s.file_meta.compression == compression_none) ≡ false =
            ground (arith, packed) in
          elim (Option-cases (decompressed_cap s.file_meta)) [
            | inl over ↦ ground (arith, complete, trimmed, over)
            | inr (limit, bound) ↦
                decompress_result-length s payload limit out bound
                  (ground (arith, complete, trimmed, tagged, bound))
          ]
    ]
  ]
