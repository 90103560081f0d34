-- ===== src/Bindings/Wasm/Sender.antt =====
-- The sender of the browser (`SenderSessionWasm` of core/transfer-engine/src/wasm.rs). A `JsValue` error is
-- its message; the words of the errors of other parts are parameters. The clock's readings at the frames of
-- a call are a function of the frame's place in it. What stands in JavaScript's slices is an argument and a
-- result. The log and the statistics in JSON are left out.
pub mod Qr
use air_ferry.Prelude.{
  ℕ, zero, suc, ◌+◌, ◌*◌, ◌/◌, ◌%◌, ◌^◌, min, max, Bool, true, false, ◌||◌, not, ltb, leb, ◌==◌,
  List, [], ◌∷◌, ◌++◌, length, replicate, map, set, drop, Option, none, some, Result, ok, err,
  ◌>>=◌, ◌>>◌, reject_if, map_err, String, is_some, if◌then◌else◌,
}
use air_ferry.Protocol.Checksum.{Checksum}
use air_ferry.Protocol.Errors as ProtocolErrors
use air_ferry.Protocol.Frame.{Frame, to_bytes}
use air_ferry.Protocol.Session.{to_le, derive_segment}
use air_ferry.Protocol.QrRender.{Generator, QrMatrix, encode}
use air_ferry.Codec.Raptorq.{BlockEncoding}
use air_ferry.Codec.Errors as CodecErrors
use air_ferry.Codec.Config
use air_ferry.Engine.Errors.{Error}
use air_ferry.Engine.FileMeta.{FileMeta}
use air_ferry.Engine.Segment.{SegmentMeta}
use air_ferry.Engine.Sender
use air_ferry.Engine.Sender.{SenderSession, SenderConfig}
use air_ferry.Bindings.Wasm.Slices.{put_bytes}

pub record SenderSessionWasm (E : Type 0) : Type 0 where
  pub inner : SenderSession E
  pub qr_scratch : List ℕ

abbrev pub max_qr_modules : ℕ
max_qr_modules = 177 * 177

abbrev pub max_ui_qr_count : ℕ
max_ui_qr_count = 4

abbrev pub qr_scratch_bytes : ℕ
qr_scratch_bytes = 4 + max_ui_qr_count * (4 + max_qr_modules)

pub record Clock : Type 0 where
  pub start_ms : ℕ
  pub now_ms : ℕ
  pub sent_ms : ℕ

-- The words of the errors.
pub record Words : Type 0 where
  pub engine : Error → String
  pub codec : CodecErrors.Error → String
  pub render : ProtocolErrors.Error → String

module _ {E : Type 0} where
  pub session_id_lo : SenderSessionWasm E → ℕ
  session_id_lo w = w.inner.session_id % 2 ^ 64

  pub session_id_hi : SenderSessionWasm E → ℕ
  session_id_hi w = w.inner.session_id / 2 ^ 64

  pub total_symbols : SenderSessionWasm E → ℕ
  total_symbols w = w.inner.total_k

  pub num_blocks : SenderSessionWasm E → ℕ
  num_blocks w = length w.inner.meta.blocks % 2 ^ 32

  pub segment_index : SenderSessionWasm E → ℕ
  segment_index w = elim w.inner.segment_meta [ none ↦ 0 | some s ↦ s.segment_index ]

  pub segment_count : SenderSessionWasm E → ℕ
  segment_count w = elim w.inner.segment_meta [ none ↦ 1 | some s ↦ s.segment_count ]

  pub is_segmented : SenderSessionWasm E → Bool
  is_segmented w = is_some w.inner.segment_meta

  -- The view that JavaScript gets.
  pub qr_scratch_view : SenderSessionWasm E → List ℕ
  qr_scratch_view w = w.qr_scratch

abbrev pub as_bytes : List Bool → List ℕ
as_bytes modules = map (λ (dark : Bool). if dark then 1 else 0) modules

module _ {E : Type 0} (crc : Checksum) (rq : BlockEncoding E) (words : Words) where
  pub new :
      (compressed_payload : List ℕ) (session_id_lo session_id_hi redundancy_pct symbol_size : ℕ)
      (filename : List ℕ) (original_file_size crc32 compression : ℕ)
      → Result String (SenderSessionWasm E)
  new compressed_payload session_id_lo session_id_hi redundancy_pct symbol_size filename
        original_file_size crc32 compression =
      do
        let sid = session_id_hi * 2 ^ 64 + session_id_lo
        codec ← map_err words.codec (Config.new symbol_size)
        inner ← map_err words.engine (
            Sender.new crc rq compressed_payload sid
              (record { codec = codec; redundancy_pct = redundancy_pct })
              (record {
                filename = filename;
                original_size = original_file_size;
                crc32 = crc32;
                compression = compression;
                compressed_size = length compressed_payload;
                compressed_size_known = true;
                crc32_known = true;
              }))
        ok (record { inner = inner; qr_scratch = replicate qr_scratch_bytes 0 })

  pub new_segment :
      (compressed_payload : List ℕ)
      (root_session_id_lo root_session_id_hi segment_index segment_count original_offset
        root_original_size : ℕ)
      (root_sha256 raw_sha256 : List ℕ) (redundancy_pct symbol_size : ℕ) (filename : List ℕ)
      (original_size crc32 compression : ℕ)
      → Result String (SenderSessionWasm E)
  new_segment compressed_payload root_session_id_lo root_session_id_hi segment_index segment_count
        original_offset root_original_size root_sha256 raw_sha256 redundancy_pct symbol_size
        filename original_size crc32 compression =
      do
        let root = root_session_id_hi * 2 ^ 64 + root_session_id_lo
        codec ← map_err words.codec (Config.new symbol_size)
        reject_if (not (length root_sha256 == 32) || not (length raw_sha256 == 32))
            "root_sha256 and raw_sha256 must be exactly 32 bytes"
        inner ← map_err words.engine (
            Sender.new_segment crc rq compressed_payload (derive_segment root segment_index)
              (record { codec = codec; redundancy_pct = redundancy_pct })
              (record {
                filename = filename;
                original_size = original_size;
                crc32 = crc32;
                compression = compression;
                compressed_size = length compressed_payload;
                compressed_size_known = true;
                crc32_known = true;
              })
              (record {
                root_session_id = root;
                segment_index = segment_index;
                segment_count = segment_count;
                original_offset = original_offset;
                root_original_size = root_original_size;
                root_sha256 = root_sha256;
                raw_sha256 = raw_sha256;
              }))
        ok (record { inner = inner; qr_scratch = replicate qr_scratch_bytes 0 })

  unfoldable pub frame_bytes :
      SenderSession E × Result Error Frame → SenderSession E × Result String (List ℕ)
  frame_bytes (s, err e) = (s, err (words.engine e))
  frame_bytes (s, ok frame) = (s, ok (to_bytes frame))

  -- The next frame's bytes, in the session.
  unfoldable pub draw_bytes : SenderSession E → Clock → SenderSession E × Result String (List ℕ)
  draw_bytes s c = frame_bytes (Sender.next_frame crc rq s c.start_ms c.now_ms c.sent_ms)

  unfoldable pub next_frame :
      SenderSessionWasm E → Clock → SenderSessionWasm E × Result String (List ℕ)
  next_frame w c = let (s, r) = draw_bytes w.inner c in (record w { inner = s }, r)
