-- ===== src/Bindings/Capi.antt =====
-- The C ABI of the receiver (core/transfer-engine/src/cffi.rs). A pointer argument of a call is an option: `none` is
-- null, and otherwise it is what lies behind it. The JSON of the progress prints fractions in floating point,
-- and is left out, as is the log.
pub mod Calls
pub mod Ownership
pub mod Recovery
use air_ferry.Prelude.{
  ℕ, zero, suc, ◌+◌, ◌*◌, ◌/◌, ◌%◌, ◌^◌, min, Bool, true, false, ◌||◌, ◌&&◌, not, ltb, leb, ◌==◌,
  List, [], ◌∷◌, ◌++◌, length, take, drop, map, Option, none, some, Result, ok, err, String,
  is_some, if◌then◌else◌,
}
use air_ferry.Bytes.{bytes_eq}
use air_ferry.Protocol.Checksum.{Checksum}
use air_ferry.Protocol.Errors as ProtocolErrors
use air_ferry.Protocol.Frame.{Frame, from_bytes}
use air_ferry.Protocol.Compress.{Decoders, decompress_with_limit}
use air_ferry.Protocol.Stream
use air_ferry.Protocol.Stream.{
  Files, remove_file, DecompressStreamOutcome, decompress_stream_to_file,
}
use air_ferry.Codec.Raptorq.{Oti, BlockDecoding}
use air_ferry.Codec.Meta.{max_original_bytes}
use air_ferry.Engine.Errors.{Error}
use air_ferry.Engine.FileMeta.{FileMeta}
use air_ferry.Engine.Segment.{SegmentMeta}
use air_ferry.Engine.IngestStatus.{pack, ingest_error}
use air_ferry.Engine.Receiver.{ReceiverSession, Cached, new_pending, is_complete, progress_snapshot}
use air_ferry.Engine.Receiver.Ingest.{ingest}
use air_ferry.Engine.Receiver.Finish.{assemble_raw, assemble_result}
use air_ferry.Bindings.Memory.{Host, null, load, store, allocate, query}

-- The two variables that a call fills; `none` is a null pointer to one.
pub record OutParams : Type 0 where
  pub out_buf : Option ℕ
  pub out_len : Option ℕ

abbrev pub cleared : OutParams
cleared = record { out_buf = some null; out_len = some 0 }

abbrev pub missing : OutParams → Bool
missing out = not (is_some out.out_buf) || not (is_some out.out_len)

abbrev pub flag : Bool → ℕ
flag b = if b then 1 else 0

-- The padding is cut off where the length of the payload is known and not too long.
unfoldable pub truncated : FileMeta → List ℕ → List ℕ
truncated file raw =
    if file.compressed_size_known && leb file.compressed_size (length raw)
    then take file.compressed_size raw
    else raw

module _ {D : Type 0} where
  -- `((sid_hi as u128) << 64) | sid_lo` of two `u64`s.
  unfoldable pub airferry_receiver_create : Host D → (sid_lo sid_hi : ℕ) → Host D × ℕ
  airferry_receiver_create h sid_lo sid_hi =
      let (sessions, handle) = allocate h.sessions (new_pending (sid_hi * 2 ^ 64 + sid_lo)) in
      (record h { sessions = sessions }, handle)

  unfoldable pub airferry_receiver_destroy : Host D → (handle : ℕ) → Option (Host D)
  airferry_receiver_destroy h handle =
      if handle == null then some h else elim (load h.sessions handle) [
        | none ↦ none
        | some s ↦ some (record h { sessions = store h.sessions handle none })
      ]

  unfoldable pub airferry_receiver_is_complete : Host D → (handle : ℕ) → Option ℕ
  airferry_receiver_is_complete = query 0 (λ s. flag (is_complete s))

  -- `Box::into_raw(bytes.into_boxed_slice())` and the two writes.
  unfoldable pub publish : Host D → List ℕ → Host D × OutParams × ℕ
  publish h bytes =
      let (buffers, p) = allocate h.buffers bytes in
      (
        record h { buffers = buffers },
        record { out_buf = some p; out_len = some (length bytes) },
        1,
      )

  unfoldable pub hand_over : Host D → Option (List ℕ) → Host D × OutParams × ℕ
  hand_over h none = (h, cleared, 0)
  hand_over h (some bytes) = publish h bytes

  -- The length must be that of the buffer.
  unfoldable pub airferry_buffer_free : Host D → (p n : ℕ) → Option (Host D)
  airferry_buffer_free h p n = if p == null then some h else elim (load h.buffers p) [
    | none ↦ none
    | some bytes ↦
        if length bytes == n then some (record h { buffers = store h.buffers p none }) else none
  ]

  unfoldable pub airferry_receiver_assemble_raw :
      Host D → (handle : ℕ) → OutParams → Option (Host D × OutParams × ℕ)
  airferry_receiver_assemble_raw h handle out =
      if missing out
      then some (h, out, 0)
      else if handle == null
      then some (h, cleared, 0)
      else elim (load h.sessions handle) [
        | none ↦ none
        | some s ↦ elim (assemble_raw s) [
          | none ↦ some (hand_over h none)
          | some raw ↦ some (hand_over h (some (truncated s.file_meta raw)))
        ]
      ]

  unfoldable pub airferry_receiver_compression : Host D → (handle : ℕ) → Option ℕ
  airferry_receiver_compression = query 0 (λ s. s.file_meta.compression)

  unfoldable pub airferry_receiver_compressed_size : Host D → (handle : ℕ) → Option ℕ
  airferry_receiver_compressed_size = query 0 (λ s. s.file_meta.compressed_size)

  unfoldable pub airferry_receiver_original_size : Host D → (handle : ℕ) → Option ℕ
  airferry_receiver_original_size = query 0 (λ s. s.file_meta.original_size)

  unfoldable pub airferry_receiver_file_size : Host D → (handle : ℕ) → Option ℕ
  airferry_receiver_file_size = query 0 (λ s. s.file_meta.original_size)

  unfoldable pub airferry_receiver_crc32 : Host D → (handle : ℕ) → Option ℕ
  airferry_receiver_crc32 = query 0 (λ s. s.file_meta.crc32)

  unfoldable pub airferry_receiver_crc32_known : Host D → (handle : ℕ) → Option ℕ
  airferry_receiver_crc32_known = query 0 (λ s. flag s.file_meta.crc32_known)

  -- `session.segment_meta().map(read).unwrap_or(otherwise)`
  abbrev pub of_segment {ℓ} : {A : Type ℓ} → A → (SegmentMeta → A) → ReceiverSession D → A
  of_segment otherwise read s = elim s.segment_meta [ none ↦ otherwise | some m ↦ read m ]

  unfoldable pub airferry_receiver_is_segmented : Host D → (handle : ℕ) → Option ℕ
  airferry_receiver_is_segmented = query 0 (of_segment 0 (λ m. 1))

  unfoldable pub airferry_receiver_segment_index : Host D → (handle : ℕ) → Option ℕ
  airferry_receiver_segment_index = query 0 (of_segment 0 (λ m. m.segment_index))

  unfoldable pub airferry_receiver_segment_count : Host D → (handle : ℕ) → Option ℕ
  airferry_receiver_segment_count = query 0 (of_segment 1 (λ m. m.segment_count))

  unfoldable pub airferry_receiver_root_original_size : Host D → (handle : ℕ) → Option ℕ
  airferry_receiver_root_original_size = query 0 (of_segment 0 (λ m. m.root_original_size))

  unfoldable pub airferry_receiver_original_offset : Host D → (handle : ℕ) → Option ℕ
  airferry_receiver_original_offset = query 0 (of_segment 0 (λ m. m.original_offset))

  unfoldable pub airferry_receiver_root_session_id_lo : Host D → (handle : ℕ) → Option ℕ
  airferry_receiver_root_session_id_lo = query 0 (of_segment 0 (λ m. m.root_session_id % 2 ^ 64))

  -- A `u128` shifted by 64.
  unfoldable pub airferry_receiver_root_session_id_hi : Host D → (handle : ℕ) → Option ℕ
  airferry_receiver_root_session_id_hi = query 0 (of_segment 0 (λ m. m.root_session_id / 2 ^ 64))

-- The caller's buffer after a call, and the number that the call returns. The buffer has `cap` bytes at least.
unfoldable pub write_cstr : (s : List ℕ) → (out : Option (List ℕ)) → (cap : ℕ) → Option (List ℕ) × ℕ
write_cstr s none cap = (none, length s + 1)
write_cstr s (some old) cap =
    if ltb cap (length s + 1)
    then (some old, length s + 1)
    else (some (s ++ (0 ∷ drop (length s + 1) old)), length s + 1)

-- `copy_nonoverlapping` of 32 bytes.
unfoldable pub copy_hash :
    (hash : List ℕ) → (out : Option (List ℕ)) → (cap : ℕ) → Option (List ℕ) × ℕ
copy_hash hash none cap = (none, 32)
copy_hash hash (some old) cap =
    if ltb cap 32 then (some old, 32) else (some (take 32 hash ++ drop 32 old), 32)

module _ {D : Type 0} where
  unfoldable pub airferry_receiver_file_name :
      Host D → (handle : ℕ) → Option (List ℕ) → (cap : ℕ) → Option (Option (List ℕ) × ℕ)
  airferry_receiver_file_name h handle out cap =
      query (out, 0) (λ (s : ReceiverSession D). write_cstr s.file_meta.filename out cap) h handle

  unfoldable pub airferry_receiver_raw_sha256 :
      Host D → (handle : ℕ) → Option (List ℕ) → (cap : ℕ) → Option (Option (List ℕ) × ℕ)
  airferry_receiver_raw_sha256 h handle out cap =
      query (out, 0) (of_segment (out, 0) (λ m. copy_hash m.raw_sha256 out cap)) h handle

  unfoldable pub airferry_receiver_root_sha256 :
      Host D → (handle : ℕ) → Option (List ℕ) → (cap : ℕ) → Option (Option (List ℕ) × ℕ)
  airferry_receiver_root_sha256 h handle out cap =
      query (out, 0) (of_segment (out, 0) (λ m. copy_hash m.root_sha256 out cap)) h handle
