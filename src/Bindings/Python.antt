-- ===== src/Bindings/Python.antt =====
-- The Python binding's sender (apps/python/src/lib.rs): a transfer whose payload lies in a file, the spool, and
-- is sent in segments. The words of the core's errors are parameters.
pub mod Tasks
pub mod Spool
pub mod Prepare
pub mod Outcomes
pub mod Steps
pub mod Snapshots
pub mod Stored
pub mod Prepared
pub mod Segments
pub mod Senders
use air_ferry.Prelude.{
  ℕ, zero, suc, ◌+◌, ◌-◌, ◌*◌, ◌/◌, ◌%◌, ◌^◌, min, Bool, true, false, not, ltb, leb, ◌==◌, List, [],
  ◌∷◌, ◌++◌, length, map, take, drop, Option, none, some, Result, ok, err, ◌>>=◌, ◌>>◌, reject_if,
  ok_or, map_err, String, if◌then◌else◌,
}
use air_ferry.Bytes.{bytes_eq}
use air_ferry.Protocol.Checksum.{Checksum}
use air_ferry.Protocol.Session.{derive_segment}
use air_ferry.Protocol.Stream.{Files}
use air_ferry.Protocol.QrRender.{Generator, QrMatrix, encode}
use air_ferry.Protocol.Errors as ProtocolErrors
use air_ferry.Protocol.Frame.{Frame, to_bytes}
use air_ferry.Codec.Raptorq.{BlockEncoding}
use air_ferry.Engine.Errors.{Error}
use air_ferry.Engine.FileMeta.{FileMeta}
use air_ferry.Engine.Segment.{SegmentMeta, segment_raw_bytes}
use air_ferry.Engine.Descriptor.{build_payload, build_segment_payload}
use air_ferry.Engine.Descriptor.Parse.{parse_payload}
use air_ferry.Engine.Sender
use air_ferry.Engine.Sender.{SenderSession, SenderConfig}
use air_ferry.Bindings.Wasm.Sender.{Clock}
use air_ferry.Bindings.Python.Tasks.{NativeError, io, value, Disk, read_range}

-- The file names, the mode and the session id are bytes of text.
pub record NativeTransfer (E : Type 0) : Type 0 where
  pub filename : List ℕ
  pub original_size : ℕ
  pub compressed_size : ℕ
  pub compression : List ℕ
  pub crc32 : ℕ
  pub session_id : List ℕ
  pub segment_count : ℕ
  pub spool_path : List ℕ
  pub root_id : ℕ
  pub root_sha256 : List ℕ
  pub compression_tag : ℕ
  pub config : SenderConfig
  pub segmented : Bool
  pub current : Option (SenderSession E)

abbrev pub segment_offset : ℕ → ℕ
segment_offset index = index * segment_raw_bytes

module _ {E : Type 0} where
  abbrev pub segment_len : NativeTransfer E → ℕ → ℕ
  segment_len t index = min (t.compressed_size - segment_offset index) segment_raw_bytes

  unfoldable pub segment_payload : Disk → Files → NativeTransfer E → ℕ → Result NativeError (List ℕ)
  segment_payload disk files t index =
      read_range disk files t.spool_path (segment_offset index) (segment_len t index)

  abbrev pub file_meta : NativeTransfer E → ℕ → FileMeta
  file_meta t index = record {
    filename = t.filename;
    original_size = t.original_size;
    crc32 = t.crc32;
    compression = t.compression_tag;
    compressed_size = segment_len t index;
    compressed_size_known = true;
    crc32_known = true;
  }

  abbrev pub segment_meta : (sha : List ℕ → List ℕ) → NativeTransfer E → ℕ → List ℕ → SegmentMeta
  segment_meta sha t index payload = record {
    root_session_id = t.root_id;
    segment_index = index;
    segment_count = t.segment_count;
    original_offset = segment_offset index;
    root_original_size = t.compressed_size;
    root_sha256 = t.root_sha256;
    raw_sha256 = sha payload;
  }

  -- The payload of the descriptor that the sender will announce.
  unfoldable pub descriptor : SenderSession E → Result Error (List ℕ)
  descriptor sender = elim sender.segment_meta [
    | none ↦ build_payload sender.meta sender.file_meta
    | some segment ↦ build_segment_payload sender.meta sender.file_meta segment
  ]

module _ {E : Type 0} (disk : Disk) (crc : Checksum) (sha : List ℕ → List ℕ) (rq : BlockEncoding E)
    (words : Error → String) where
  unfoldable pub open_sender : NativeTransfer E → ℕ → List ℕ → Result Error (SenderSession E)
  open_sender t index payload =
      if t.segmented
      then Sender.new_segment crc rq payload (derive_segment t.root_id index) t.config
          (file_meta t index) (segment_meta sha t index payload)
      else Sender.new crc rq payload t.root_id t.config (file_meta t index)

  -- The sender of a segment. A descriptor that does not keep the whole name is refused.
  unfoldable pub segment_sender :
      Files → NativeTransfer E → ℕ → Result NativeError (SenderSession E)
  segment_sender files t index = do
    payload ← segment_payload disk files t index
    sender ← map_err (λ e. value (words e)) (open_sender t index payload)
    announced ← map_err (λ e. value (words e)) (descriptor sender)
    parsed ← ok_or (parse_payload announced) (value "failed to validate file descriptor")
    reject_if (not (bytes_eq parsed.file_meta.filename t.filename))
        (value "symbol_size is too small to preserve the filename; choose a larger symbol_size")
    ok sender

  unfoldable pub started :
      NativeTransfer E
      → Result NativeError (SenderSession E)
      → NativeTransfer E × Result NativeError ℕ
  started t (err e) = (t, err e)
  started t (ok sender) = (record t { current = some sender }, ok sender.total_k)

  -- The former segment is dropped first.
  unfoldable pub start_segment_impl :
      Files → NativeTransfer E → ℕ → NativeTransfer E × Result NativeError ℕ
  start_segment_impl files t index =
      if leb t.segment_count index
      then (t, err (value "segment index out of range"))
      else started (record t { current = none })
          (segment_sender files (record t { current = none }) index)

  unfoldable pub framed :
      NativeTransfer E
      → SenderSession E × Result Error Frame
      → NativeTransfer E × Result NativeError (List ℕ)
  framed t (s, err e) = (record t { current = some s }, err (value (words e)))
  framed t (s, ok frame) = (record t { current = some s }, ok (to_bytes frame))

  unfoldable pub next_frame_impl :
      NativeTransfer E → Clock → NativeTransfer E × Result NativeError (List ℕ)
  next_frame_impl t c = elim t.current [
    | none ↦ (t, err (value "call start_segment() before requesting frames"))
    | some s ↦ framed t (Sender.next_frame crc rq s c.start_ms c.now_ms c.sent_ms)
  ]

  module _ (qr : Generator) (to_string : ProtocolErrors.Error → String) where
    -- Grey values of the modules: black is 0.
    abbrev pub grey : QrMatrix → ℕ × List ℕ
    grey m = (m.size, map (λ (dark : Bool). if dark then 0 else 255) m.modules)

    unfoldable pub rendered :
        NativeTransfer E × Result NativeError (List ℕ)
        → NativeTransfer E × Result NativeError (ℕ × List ℕ)
    rendered (t, err e) = (t, err e)
    rendered (t, ok frame) =
        (t, elim (encode qr frame) [ err e ↦ err (value (to_string e)) | ok m ↦ ok (grey m) ])

    unfoldable pub next_qr :
        NativeTransfer E → Clock → NativeTransfer E × Result NativeError (ℕ × List ℕ)
    next_qr t c = rendered (next_frame_impl t c)
