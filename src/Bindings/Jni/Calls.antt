-- ===== src/Bindings/Jni/Calls.antt =====
-- The calls of the Android binding that work on a receiver, or on bytes and files
-- (core/transfer-engine/src/jni.rs).
use air_ferry.Prelude.{
  ℕ, ◌%◌, ◌^◌, min, Bool, ◌&&◌, not, ltb, ◌==◌, List, Option, none, some, Result, ok, err, String,
  if◌then◌else◌,
}
use air_ferry.Protocol.Checksum.{Checksum}
use air_ferry.Protocol.Errors as ProtocolErrors
use air_ferry.Protocol.Frame.{Frame, from_bytes}
use air_ferry.Protocol.Compress.{Decoders, decompress_with_limit}
use air_ferry.Protocol.Stream
use air_ferry.Protocol.Stream.{
  Files, remove_file, DecompressStreamOutcome, decompress_stream_to_file,
}
use air_ferry.Codec.Raptorq.{Oti, BlockDecoding}
use air_ferry.Codec.Meta.{max_original_bytes}
use air_ferry.Engine.Errors.{Error}
use air_ferry.Engine.IngestStatus.{pack, ingest_error}
use air_ferry.Engine.Receiver.{ReceiverSession, Cached, is_complete, progress_snapshot}
use air_ferry.Engine.Receiver.Ingest.{ingest}
use air_ferry.Engine.Receiver.Finish.{assemble_result}
use air_ferry.Bindings.Memory.{Host, null, load, store}
use air_ferry.Bindings.Capi.Calls.{to_hex, eq_ignore_ascii_case}
use air_ferry.Bindings.Jni.{Env, null_byte_array, to_array}

module _ {D : Type 0} (crc : Checksum) (oti : Oti) (rq : BlockDecoding D)
    (order : List Cached → List Cached) where
  -- The rest of the call with a parsed frame; an error of `ingest` is only logged.
  unfoldable pub ingest_frame :
      ReceiverSession D → Result ProtocolErrors.Error Frame → ReceiverSession D × ℕ
  ingest_frame session (err e) = (session, ingest_error)
  ingest_frame session (ok frame) =
      let prev_received : ℕ = (progress_snapshot session).received_symbols in
      let after = (ingest oti rq order session frame).0 in
      let p = progress_snapshot after in
      let complete : ℕ = if is_complete after then 1 else 0 in
      let accepted : ℕ = if ltb prev_received p.received_symbols then 1 else 0 in
      (after, pack (complete == 1) (accepted == 1) p.session_mismatch_streak p.received_symbols)

  -- `none` is an array whose bytes could not be read.
  unfoldable pub receiver_ingest :
      Host D → (handle : ℕ) → (frame_bytes : Option (List ℕ)) → Option (Host D × ℕ)
  receiver_ingest h handle none = some (h, (if handle == null then 0 else ingest_error))
  receiver_ingest h handle (some bytes) =
      if handle == null then some (h, 0) else elim (load h.sessions handle) [
        | none ↦ none
        | some session ↦
            let (after, word) = ingest_frame session (from_bytes crc bytes) in
            some (record h { sessions = store h.sessions handle (some after) }, word)
      ]

module _ (env : Env) where
  unfoldable pub result_array : Result Error (Option (List ℕ)) → Option (List ℕ)
  result_array (err e) = null_byte_array env
  result_array (ok none) = null_byte_array env
  result_array (ok (some bytes)) = to_array env bytes

  unfoldable pub bytes_array : Result ProtocolErrors.Error (List ℕ) → Option (List ℕ)
  bytes_array (err e) = null_byte_array env
  bytes_array (ok bytes) = to_array env bytes

module _ {D : Type 0} (env : Env) (decoders : Decoders)
    (to_string : ProtocolErrors.Error → String) where
  unfoldable pub receiver_assemble_bytes : Host D → (handle : ℕ) → Option (Host D × Option (List ℕ))
  receiver_assemble_bytes h handle =
      if handle == null then some (h, null_byte_array env) else elim (load h.sessions handle) [
        | none ↦ none
        | some session ↦
            let (after, result) = assemble_result decoders to_string session in
            some (
              record h { sessions = store h.sessions handle (some after) },
              result_array env result,
            )
      ]

-- A `jlong` above zero.
abbrev pub is_positive : ℕ → Bool
is_positive n = ltb 0 n && ltb n (2 ^ 63)

module _ (env : Env) (decoders : Decoders) where
  -- The array, where it is not null; the host's limit is cut to 256 MiB.
  unfoldable pub decompress_bytes :
      (bytes : Option (List ℕ)) → (compression max_output : ℕ) → Option (List ℕ)
  decompress_bytes none compression max_output = null_byte_array env
  decompress_bytes (some bytes) compression max_output =
      if not (env.get_byte_array_region bytes)
      then null_byte_array env
      else (let max_out : ℕ =
            if is_positive max_output then min max_output max_original_bytes else 0 in
          bytes_array env (decompress_with_limit decoders bytes (compression % 2 ^ 8) max_out))

module _ {R : Type 0} (host : Stream.Host R) (crc : Checksum) (sha : List ℕ → List ℕ) where
  -- The checks behind a run that succeeded: a mismatch removes the output.
  unfoldable pub verify :
      (output : List ℕ)
      → (expected_size expected_crc crc_known : ℕ) → (expected_sha : List ℕ)
      → Files × Result ProtocolErrors.Error DecompressStreamOutcome
      → Files × ℕ
  verify output expected_size expected_crc crc_known expected_sha (files, err e) = (files, 0)
  verify output expected_size expected_crc crc_known expected_sha (files, ok outcome) =
      if not (outcome.output_size == expected_size)
      then (remove_file host files output, 0)
      else if not (crc_known == 0) && not (outcome.crc32 == expected_crc % 2 ^ 32)
      then (remove_file host files output, 0)
      else if not (eq_ignore_ascii_case (to_hex outcome.sha256) expected_sha)
      then (remove_file host files output, 0)
      else (files, 1)

  -- A string that cannot be read is refused.
  unfoldable pub decompress_stream :
      Files
      → (input_path output_path : Option (List ℕ))
      → (compression max_output expected_size expected_crc crc_known : ℕ)
      → (expected_sha_hex : Option (List ℕ)) → Option (Files × ℕ)
  decompress_stream files none output_path compression max_output expected_size expected_crc
        crc_known sha_hex =
      some (files, 0)
  decompress_stream files (some input) none compression max_output expected_size expected_crc
        crc_known sha_hex =
      some (files, 0)
  decompress_stream files (some input) (some output) compression max_output expected_size
        expected_crc crc_known none =
      some (files, 0)
  decompress_stream files (some input) (some output) compression max_output expected_size
        expected_crc crc_known (some expected_sha) =
      let max_out : ℕ = if is_positive max_output then max_output else 0 in
      elim (decompress_stream_to_file host crc sha files input output (compression % 2 ^ 8)
        max_out) [
          | none ↦ none
          | some end ↦ some (verify output expected_size expected_crc crc_known expected_sha end)
        ]
