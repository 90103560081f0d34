-- ===== src/Bindings/Capi/Calls.antt =====
-- The calls of the C ABI that work on a receiver, or on bytes and files (core/transfer-engine/src/cffi.rs).
use air_ferry.Prelude.{
  ℕ, ◌+◌, ◌-◌, ◌/◌, ◌%◌, min, Bool, ◌||◌, ◌&&◌, not, ltb, leb, ◌==◌, List, [], ◌∷◌, map, Option,
  none, some, Result, ok, err, String, if◌then◌else◌,
}
use air_ferry.Bytes.{bytes_eq}
use air_ferry.Protocol.Checksum.{Checksum}
use air_ferry.Protocol.Errors as ProtocolErrors
use air_ferry.Protocol.Frame.{Frame, from_bytes}
use air_ferry.Protocol.Compress.{Decoders, decompress_with_limit, is_nil}
use air_ferry.Protocol.Stream
use air_ferry.Protocol.Stream.{
  Files, remove_file, DecompressStreamOutcome, decompress_stream_to_file,
}
use air_ferry.Codec.Raptorq.{Oti, BlockDecoding}
use air_ferry.Codec.Meta.{max_original_bytes}
use air_ferry.Engine.Errors.{Error}
use air_ferry.Engine.Utf8.Lossy.{from_utf8_lossy}
use air_ferry.Engine.IngestStatus.{pack, ingest_error}
use air_ferry.Engine.Receiver.{ReceiverSession, Cached, is_complete, progress_snapshot}
use air_ferry.Engine.Receiver.Ingest.{ingest}
use air_ferry.Engine.Receiver.Finish.{assemble_result}
use air_ferry.Bindings.Memory.{Host, null, load, store}
use air_ferry.Bindings.Capi.{OutParams, cleared, missing, hand_over}

module _ {D : Type 0} (crc : Checksum) (oti : Oti) (rq : BlockDecoding D)
    (order : List Cached → List Cached) where
  -- The rest of the call with a parsed frame; an error of `ingest` is only logged.
  unfoldable pub ingest_parsed :
      ReceiverSession D → Result ProtocolErrors.Error Frame → ReceiverSession D × ℕ
  ingest_parsed session (err e) = (session, ingest_error)
  ingest_parsed session (ok frame) =
      let prev_received : ℕ = (progress_snapshot session).received_symbols in
      let after = (ingest oti rq order session frame).0 in
      let p = progress_snapshot after in
      (
        after,
        pack (is_complete after) (ltb prev_received p.received_symbols) p.session_mismatch_streak
            p.received_symbols,
      )

  unfoldable pub airferry_receiver_ingest :
      Host D → (handle : ℕ) → (frame_bytes : Option (List ℕ)) → Option (Host D × ℕ)
  airferry_receiver_ingest h handle none = some (h, ingest_error)
  airferry_receiver_ingest h handle (some bytes) =
      if handle == null || is_nil bytes
      then some (h, ingest_error)
      else elim (load h.sessions handle) [
        | none ↦ none
        | some session ↦
            let (after, word) = ingest_parsed session (from_bytes crc bytes) in
            some (record h { sessions = store h.sessions handle (some after) }, word)
      ]

-- What of a result goes to the caller.
unfoldable pub to_hand : Result Error (Option (List ℕ)) → Option (List ℕ)
to_hand (err e) = none
to_hand (ok bytes) = bytes

unfoldable pub not_empty : Result ProtocolErrors.Error (List ℕ) → Option (List ℕ)
not_empty (err e) = none
not_empty (ok []) = none
not_empty (ok (b ∷ bs)) = some (b ∷ bs)

module _ {D : Type 0} (decoders : Decoders) (to_string : ProtocolErrors.Error → String) where
  unfoldable pub airferry_receiver_assemble :
      Host D → (handle : ℕ) → OutParams → Option (Host D × OutParams × ℕ)
  airferry_receiver_assemble h handle out =
      if missing out
      then some (h, out, 0)
      else if handle == null
      then some (h, cleared, 0)
      else elim (load h.sessions handle) [
        | none ↦ none
        | some session ↦
            let (after, result) = assemble_result decoders to_string session in
            some (
              hand_over (record h { sessions = store h.sessions handle (some after) })
                (to_hand result))
      ]

module _ {D : Type 0} (decoders : Decoders) where
  -- The host's limit is cut to 256 MiB.
  unfoldable pub airferry_decompress_bytes :
      Host D
      → (bytes : Option (List ℕ)) → (compression max_output : ℕ) → OutParams
      → Host D × OutParams × ℕ
  airferry_decompress_bytes h none compression max_output out =
      if missing out then (h, out, 0) else (h, cleared, 0)
  airferry_decompress_bytes h (some bytes) compression max_output out =
      if missing out
      then (h, out, 0)
      else if is_nil bytes
      then (h, cleared, 0)
      else hand_over h (
          not_empty
            (decompress_with_limit decoders bytes compression (min max_output max_original_bytes)))

-- `format!("{b:02x}")` of a byte, and of all of them.
unfoldable pub hex_digit : ℕ → ℕ
hex_digit d = if ltb d 10 then b'0' + d else b'a' + (d - 10)

unfoldable pub to_hex : List ℕ → List ℕ
to_hex [] = []
to_hex (b ∷ bs) = hex_digit (b / 16) ∷ hex_digit (b % 16) ∷ to_hex bs

unfoldable pub to_ascii_lowercase : ℕ → ℕ
to_ascii_lowercase c = if leb b'A' c && leb c b'Z' then c + 32 else c

unfoldable pub eq_ignore_ascii_case : List ℕ → List ℕ → Bool
eq_ignore_ascii_case a b = bytes_eq (map to_ascii_lowercase a) (map to_ascii_lowercase b)

-- A C string as text: what is no UTF-8 is replaced.
unfoldable pub cstr : Option (List ℕ) → Option (List ℕ)
cstr none = none
cstr (some bytes) = some (from_utf8_lossy bytes)

module _ {R : Type 0} (host : Stream.Host R) (crc : Checksum) (sha : List ℕ → List ℕ) where
  -- The checks behind a run that succeeded: a mismatch removes the output.
  unfoldable pub check_outcome :
      (output : List ℕ)
      → (expected_size expected_crc : ℕ) → (crc_known : Bool) → (expected_sha : List ℕ)
      → Files × Result ProtocolErrors.Error DecompressStreamOutcome
      → Files × ℕ
  check_outcome output expected_size expected_crc crc_known expected_sha (files, err e) = (files, 0)
  check_outcome output expected_size expected_crc crc_known expected_sha (files, ok outcome) =
      if not (outcome.output_size == expected_size)
      then (remove_file host files output, 0)
      else if crc_known && not (outcome.crc32 == expected_crc)
      then (remove_file host files output, 0)
      else if not (eq_ignore_ascii_case (to_hex outcome.sha256) expected_sha)
      then (remove_file host files output, 0)
      else (files, 1)

  -- The call with the three strings that were read; a missing one is refused.
  unfoldable pub decompress_arguments :
      Files
      → (input output : Option (List ℕ)) → (compression max_output expected_size expected_crc : ℕ)
      → (crc_known : Bool) → (expected_sha : Option (List ℕ)) → Option (Files × ℕ)
  decompress_arguments files none output compression max_output expected_size expected_crc crc_known
        expected_sha =
      some (files, 0)
  decompress_arguments files (some input) none compression max_output expected_size expected_crc
        crc_known expected_sha =
      some (files, 0)
  decompress_arguments files (some input) (some output) compression max_output expected_size
        expected_crc crc_known none =
      some (files, 0)
  decompress_arguments files (some input) (some output) compression max_output expected_size
        expected_crc crc_known (some expected_sha) =
      elim (decompress_stream_to_file host crc sha files input output compression max_output) [
        | none ↦ none
        | some end ↦
            some (check_outcome output expected_size expected_crc crc_known expected_sha end)
      ]

  -- The bytes of the three C strings, up to their zero byte; a null pointer is none.
  unfoldable pub airferry_decompress_stream_to_file :
      Files
      → (input_path output_path : Option (List ℕ))
      → (compression max_output expected_size expected_crc : ℕ) → (crc_known : Bool)
      → (expected_sha_hex : Option (List ℕ)) → Option (Files × ℕ)
  airferry_decompress_stream_to_file files input_path output_path compression max_output
        expected_size expected_crc crc_known expected_sha_hex =
      decompress_arguments files (cstr input_path) (cstr output_path) compression max_output
        expected_size expected_crc crc_known (cstr expected_sha_hex)
