-- ===== src/Bindings/Wasm/Receiver.antt =====
-- The receiver of the browser (`ReceiverSessionWasm` of core/transfer-engine/src/wasm.rs). It holds a receiver session; a
-- `JsValue` error is its message. The JSON of the progress prints fractions in floating point, and is left
-- out, as is the log.
use air_ferry.Prelude.{
  ℕ, ◌+◌, ◌*◌, ◌/◌, ◌%◌, ◌^◌, Bool, ◌&&◌, not, ltb, leb, List, [], length, take, none, some, Result,
  ok, err, ◌>>=◌, ◌>>◌, reject_if, map_err, String, is_some, if◌then◌else◌,
}
use air_ferry.Protocol.Checksum.{Checksum}
use air_ferry.Protocol.Errors as ProtocolErrors
use air_ferry.Protocol.Frame.{Frame, from_bytes}
use air_ferry.Codec.Raptorq.{Oti, BlockDecoding}
use air_ferry.Engine.Errors.{Error, protocol}
use air_ferry.Engine.IngestStatus.{pack, ingest_error}
use air_ferry.Engine.Receiver.{ReceiverSession, Cached, new_pending, progress_snapshot}
use air_ferry.Engine.Receiver
use air_ferry.Engine.Receiver.Ingest.{is_descriptor}
use air_ferry.Engine.Receiver.Ingest
use air_ferry.Engine.Receiver.Finish

pub record ReceiverSessionWasm (D : Type 0) : Type 0 where
  pub inner : ReceiverSession D

module _ {D : Type 0} where
  unfoldable pub new : (session_id_lo session_id_hi : ℕ) → ReceiverSessionWasm D
  new session_id_lo session_id_hi = record {
    inner = new_pending (session_id_hi * 2 ^ 64 + session_id_lo);
  }

  unfoldable pub is_complete : ReceiverSessionWasm D → Bool
  is_complete w = Receiver.is_complete w.inner

  pub session_id_lo : ReceiverSessionWasm D → ℕ
  session_id_lo w = w.inner.session_id % 2 ^ 64

  pub session_id_hi : ReceiverSessionWasm D → ℕ
  session_id_hi w = w.inner.session_id / 2 ^ 64

  pub file_name : ReceiverSessionWasm D → List ℕ
  file_name w = w.inner.file_meta.filename

  pub original_size : ReceiverSessionWasm D → ℕ
  original_size w = w.inner.file_meta.original_size

  pub compressed_size : ReceiverSessionWasm D → ℕ
  compressed_size w = w.inner.file_meta.compressed_size

  pub compressed_size_known : ReceiverSessionWasm D → Bool
  compressed_size_known w = w.inner.file_meta.compressed_size_known

  pub compression : ReceiverSessionWasm D → ℕ
  compression w = w.inner.file_meta.compression

  pub crc32 : ReceiverSessionWasm D → ℕ
  crc32 w = w.inner.file_meta.crc32

  pub crc32_known : ReceiverSessionWasm D → Bool
  crc32_known w = w.inner.file_meta.crc32_known

  pub meta_confirmed : ReceiverSessionWasm D → Bool
  meta_confirmed w = w.inner.meta_confirmed

  pub is_segmented : ReceiverSessionWasm D → Bool
  is_segmented w = is_some w.inner.segment_meta

  pub segment_index : ReceiverSessionWasm D → ℕ
  segment_index w = elim w.inner.segment_meta [ none ↦ 0 | some s ↦ s.segment_index ]

  pub segment_count : ReceiverSessionWasm D → ℕ
  segment_count w = elim w.inner.segment_meta [ none ↦ 1 | some s ↦ s.segment_count ]

  pub root_original_size : ReceiverSessionWasm D → ℕ
  root_original_size w = elim w.inner.segment_meta [ none ↦ 0 | some s ↦ s.root_original_size ]

  pub original_offset : ReceiverSessionWasm D → ℕ
  original_offset w = elim w.inner.segment_meta [ none ↦ 0 | some s ↦ s.original_offset ]

  pub root_session_id_lo : ReceiverSessionWasm D → ℕ
  root_session_id_lo w = elim w.inner.segment_meta [
    | none ↦ 0
    | some s ↦ s.root_session_id % 2 ^ 64
  ]

  pub root_session_id_hi : ReceiverSessionWasm D → ℕ
  root_session_id_hi w = elim w.inner.segment_meta [
    | none ↦ 0
    | some s ↦ s.root_session_id / 2 ^ 64
  ]

  pub raw_sha256 : ReceiverSessionWasm D → List ℕ
  raw_sha256 w = elim w.inner.segment_meta [ none ↦ [] | some s ↦ s.raw_sha256 ]

  pub root_sha256 : ReceiverSessionWasm D → List ℕ
  root_sha256 w = elim w.inner.segment_meta [ none ↦ [] | some s ↦ s.root_sha256 ]

  -- The padding is cut off where the length of the payload is known and not too long.
  unfoldable pub assemble_raw : ReceiverSessionWasm D → List ℕ
  assemble_raw w = elim (Finish.assemble_raw w.inner) [
    | none ↦ []
    | some raw ↦
        if w.inner.file_meta.compressed_size_known
          && leb w.inner.file_meta.compressed_size (length raw)
        then take w.inner.file_meta.compressed_size raw
        else raw
  ]

module _ {D : Type 0} (crc : Checksum) (oti : Oti) (rq : BlockDecoding D)
    (order : List Cached → List Cached) where
  -- The rest of the call with a parsed frame; an error of the session's `ingest` is only logged.
  unfoldable pub ingest_read :
      ReceiverSessionWasm D → Result ProtocolErrors.Error Frame → ReceiverSessionWasm D × ℕ
  ingest_read w (err e) = (w, ingest_error)
  ingest_read w (ok frame) =
      let prev_received : ℕ = (progress_snapshot w.inner).received_symbols in
      let after = (Ingest.ingest oti rq order w.inner frame).0 in
      let p = progress_snapshot after in
      let complete = Receiver.is_complete after in
      let accepted = ltb prev_received p.received_symbols in
      (
        record { inner = after },
        pack complete accepted p.session_mismatch_streak p.received_symbols,
      )

  unfoldable pub ingest : ReceiverSessionWasm D → List ℕ → ReceiverSessionWasm D × ℕ
  ingest w frame_bytes = ingest_read w (from_bytes crc frame_bytes)

  module _ (to_string : Error → String) where
    unfoldable pub from_descriptor : List ℕ → Result String (ReceiverSessionWasm D)
    from_descriptor frame_bytes = do
      frame ← map_err (λ e. to_string (protocol e)) (from_bytes crc frame_bytes)
      reject_if (not (is_descriptor frame))
          "from_descriptor: frame is not a descriptor (FLAG_DESCRIPTOR clear)"
      let session = new (frame.header.session_id % 2 ^ 64) (frame.header.session_id / 2 ^ 64)
      let after = (ingest session frame_bytes).0
      reject_if (not after.inner.meta_confirmed)
          "from_descriptor: descriptor rejected (corrupt/hostile payload); meta not confirmed"
      ok after
