-- ===== src/Bindings/Jni.antt =====
-- The Android binding of the receiver (core/transfer-engine/src/jni.rs). A `jlong` or a `jint` is its bit pattern, and a Java
-- array is its bytes; `none` is Java's null. `Env` has what the Java machine answers. The JSON of the progress
-- prints fractions in floating point, and is left out, as is the log.
pub mod Calls
use air_ferry.Prelude.{
  ℕ, zero, suc, ◌+◌, ◌*◌, ◌/◌, ◌%◌, ◌^◌, min, Bool, true, false, ◌||◌, ◌&&◌, not, ltb, leb, ◌==◌,
  List, [], ◌∷◌, ◌++◌, length, take, map, Option, none, some, Result, ok, err, String,
  if◌then◌else◌,
}
use air_ferry.Protocol.Checksum.{Checksum}
use air_ferry.Protocol.Errors as ProtocolErrors
use air_ferry.Protocol.Frame.{Frame, from_bytes}
use air_ferry.Protocol.Compress.{Decoders, decompress_with_limit}
use air_ferry.Protocol.Stream
use air_ferry.Protocol.Stream.{
  Files, remove_file, DecompressStreamOutcome, decompress_stream_to_file,
}
use air_ferry.Codec.Raptorq.{Oti, BlockDecoding}
use air_ferry.Codec.Meta.{max_original_bytes}
use air_ferry.Engine.Errors.{Error}
use air_ferry.Engine.FileMeta.{FileMeta}
use air_ferry.Engine.Segment.{SegmentMeta}
use air_ferry.Engine.IngestStatus.{pack, ingest_error}
use air_ferry.Engine.Receiver.{ReceiverSession, Cached, new_pending, is_complete, progress_snapshot}
use air_ferry.Engine.Receiver.Ingest.{ingest}
use air_ferry.Engine.Receiver.Finish.{assemble_raw, assemble_result}
use air_ferry.Bindings.Memory.{Host, null, load, store, allocate, query}
use air_ferry.Bindings.Capi.{of_segment}
use air_ferry.Bindings.Capi.Calls.{to_hex, eq_ignore_ascii_case}

-- Whether the calls of the Java machine succeed.
pub record Env : Type 0 where
  pub new_byte_array : (size : ℕ) → Bool
  pub set_byte_array_region : List ℕ → Bool
  pub byte_array_from_slice : List ℕ → Bool
  pub new_string : List ℕ → Bool
  pub new_message : String → Bool
  pub get_byte_array_region : List ℕ → Bool

abbrev pub airferry_native_abi_version : ℕ
airferry_native_abi_version = 1

module _ (env : Env) where
  unfoldable pub null_byte_array : Option (List ℕ)
  null_byte_array = if env.new_byte_array 0 then some [] else none

  -- A fresh array of the bytes; lengths are `i32`.
  unfoldable pub to_array : List ℕ → Option (List ℕ)
  to_array bytes =
      if not (ltb (length bytes) (2 ^ 31))
      then null_byte_array
      else if not (env.new_byte_array (length bytes))
      then null_byte_array
      else if env.set_byte_array_region bytes
      then some bytes
      else null_byte_array

  unfoldable pub from_slice : List ℕ → Option (List ℕ)
  from_slice bytes = if env.byte_array_from_slice bytes then some bytes else none

  unfoldable pub to_jstring : List ℕ → Option (List ℕ)
  to_jstring text = if env.new_string text then some text else none

-- The padding is cut off where the length of the payload is known and not too long.
unfoldable pub cut : FileMeta → List ℕ → List ℕ
cut file raw =
    if not file.compressed_size_known
    then raw
    else if leb file.compressed_size (length raw)
    then take file.compressed_size raw
    else raw

module _ {D : Type 0} where
  -- The totals that the host passes are not used.
  unfoldable pub receiver_create :
      Host D → (session_id_lo session_id_hi total_blocks total_symbols symbol_size : ℕ) → Host D × ℕ
  receiver_create h session_id_lo session_id_hi total_blocks total_symbols symbol_size =
      let (sessions, handle) =
        allocate h.sessions (new_pending (session_id_hi * 2 ^ 64 + session_id_lo)) in
      (record h { sessions = sessions }, handle)

  unfoldable pub receiver_destroy : Host D → (handle : ℕ) → Option (Host D)
  receiver_destroy h handle =
      if not (handle == null)
      then (elim (load h.sessions handle) [
        | none ↦ none
        | some s ↦ some (record h { sessions = store h.sessions handle none })
      ])
      else some h

  unfoldable pub receiver_is_complete : Host D → (handle : ℕ) → Option ℕ
  receiver_is_complete = query 0 (λ s. if is_complete s then 1 else 0)

  unfoldable pub receiver_compression : Host D → (handle : ℕ) → Option ℕ
  receiver_compression = query 0 (λ s. s.file_meta.compression)

  unfoldable pub receiver_compressed_size : Host D → (handle : ℕ) → Option ℕ
  receiver_compressed_size = query 0 (λ s. s.file_meta.compressed_size)

  unfoldable pub receiver_original_size : Host D → (handle : ℕ) → Option ℕ
  receiver_original_size = query 0 (λ s. s.file_meta.original_size)

  unfoldable pub receiver_file_size : Host D → (handle : ℕ) → Option ℕ
  receiver_file_size = query 0 (λ s. s.file_meta.original_size)

  unfoldable pub receiver_crc32 : Host D → (handle : ℕ) → Option ℕ
  receiver_crc32 = query 0 (λ s. s.file_meta.crc32)

  unfoldable pub receiver_crc32_known : Host D → (handle : ℕ) → Option ℕ
  receiver_crc32_known = query 0 (λ s. if s.file_meta.crc32_known then 1 else 0)

  unfoldable pub receiver_is_segmented : Host D → (handle : ℕ) → Option ℕ
  receiver_is_segmented = query 0 (of_segment 0 (λ m. 1))

  unfoldable pub receiver_segment_index : Host D → (handle : ℕ) → Option ℕ
  receiver_segment_index = query 0 (of_segment 0 (λ m. m.segment_index))

  unfoldable pub receiver_segment_count : Host D → (handle : ℕ) → Option ℕ
  receiver_segment_count = query 0 (of_segment 1 (λ m. m.segment_count))

  unfoldable pub receiver_root_original_size : Host D → (handle : ℕ) → Option ℕ
  receiver_root_original_size = query 0 (of_segment 0 (λ m. m.root_original_size))

  unfoldable pub receiver_original_offset : Host D → (handle : ℕ) → Option ℕ
  receiver_original_offset = query 0 (of_segment 0 (λ m. m.original_offset))

  unfoldable pub receiver_root_session_id_lo : Host D → (handle : ℕ) → Option ℕ
  receiver_root_session_id_lo = query 0 (of_segment 0 (λ m. m.root_session_id % 2 ^ 64))

  unfoldable pub receiver_root_session_id_hi : Host D → (handle : ℕ) → Option ℕ
  receiver_root_session_id_hi = query 0 (of_segment 0 (λ m. m.root_session_id / 2 ^ 64))

module _ {D : Type 0} (env : Env) where
  unfoldable pub receiver_file_name : Host D → (handle : ℕ) → Option (Option (List ℕ))
  receiver_file_name = query none (λ (s : ReceiverSession D). to_jstring env s.file_meta.filename)

  unfoldable pub receiver_raw_sha256 : Host D → (handle : ℕ) → Option (Option (List ℕ))
  receiver_raw_sha256 = query none (of_segment none (λ m. from_slice env m.raw_sha256))

  unfoldable pub receiver_root_sha256 : Host D → (handle : ℕ) → Option (Option (List ℕ))
  receiver_root_sha256 = query none (of_segment none (λ m. from_slice env m.root_sha256))

  unfoldable pub receiver_assemble_raw_bytes : Host D → (handle : ℕ) → Option (Option (List ℕ))
  receiver_assemble_raw_bytes = query (null_byte_array env) (λ (s : ReceiverSession D).
      elim (assemble_raw s) [
        | none ↦ null_byte_array env
        | some raw ↦ to_array env (cut s.file_meta raw)
      ])

  -- The message of the last assembly that failed, or an empty one.
  unfoldable pub receiver_last_assemble_error : Host D → (handle : ℕ) → Option (Option String)
  receiver_last_assemble_error = query none (λ (s : ReceiverSession D).
      let message : String = elim s.last_assemble_error [ none ↦ "" | some m ↦ m ] in
      if env.new_message message then some message else none)
