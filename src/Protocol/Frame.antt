-- ===== src/Protocol/Frame.antt =====
-- The QR frame wire format (core/qr-protocol/src/frame.rs). A byte slice is a list of numbers, and a
-- reading window `h[o..o + n]` is `take n (drop o h)`; the code reads only inside the buffer.
pub mod Laws
use air_ferry.Prelude.{
  ℕ, ◌+◌, ◌-◌, ◌*◌, ◌^◌, ◌<◌, List, [], ◌∷◌, ◌++◌, not, length, take, drop, get_or, ltb, ◌==◌, min,
  Result, ok, err, ◌>>=◌, ◌>>◌, reject_if, if◌then◌else◌,
}
use air_ferry.Bytes.{to_be, from_be, be_at}
use air_ferry.Protocol.Checksum.{Checksum}
use air_ferry.Protocol.Errors.{
  Error, buffer_too_short, bad_magic, bad_version, frame_crc_mismatch, payload_crc_mismatch,
  length_mismatch,
}

abbrev pub magic : ℕ
magic = 0x4554

abbrev pub protocol_version : ℕ
protocol_version = 1

abbrev pub frame_header_size : ℕ
frame_header_size = 60

abbrev pub frame_footer_size : ℕ
frame_footer_size = 4

abbrev pub flag_descriptor : ℕ
flag_descriptor = 0x01

pub record FrameHeader : Type 0 where
  pub session_id : ℕ
  pub flags : ℕ
  pub sbn : ℕ
  pub esi : ℕ
  pub total_blocks : ℕ
  pub total_symbols : ℕ
  pub symbol_size : ℕ
  pub frame_index : ℕ
  pub timestamp_ms : ℕ
  pub payload_crc32 : ℕ

pub record Frame : Type 0 where
  pub header : FrameHeader
  pub payload : List ℕ
  pub frame_crc32 : ℕ

-- `saturating_add` of a `usize` of 64 bits.
abbrev pub saturating_add : ℕ → ℕ → ℕ
saturating_add a b = min (a + b) (2 ^ 64 - 1)

pub wire_size : ℕ → ℕ
wire_size symbol_size =
    saturating_add (saturating_add frame_header_size symbol_size) frame_footer_size

-- What `write_bytes` appends to its buffer.
unfoldable pub write_bytes : FrameHeader → List ℕ
write_bytes h =
    to_be 2 magic
    ++ (protocol_version
        ∷ (h.flags
            ∷ (to_be 16 h.session_id
                ++ (to_be 4 h.sbn
                    ++ (to_be 4 h.esi
                        ++ (to_be 4 h.total_blocks
                            ++ (to_be 4 h.total_symbols
                                ++ (to_be 4 h.symbol_size
                                    ++ (to_be 8 h.frame_index
                                        ++ (to_be 8 h.timestamp_ms
                                            ++ to_be 4 h.payload_crc32))))))))))

unfoldable pub read_bytes : List ℕ → Result Error FrameHeader
read_bytes bytes = do
  let h = take frame_header_size bytes
  let got = be_at h 0 2
  reject_if (not (got == magic)) (bad_magic magic got)
  let version = get_or h 2 0
  reject_if (not (version == protocol_version)) (bad_version version)
  ok (record {
    flags = get_or h 3 0;
    session_id = be_at h 4 16;
    sbn = be_at h 20 4;
    esi = be_at h 24 4;
    total_blocks = be_at h 28 4;
    total_symbols = be_at h 32 4;
    symbol_size = be_at h 36 4;
    frame_index = be_at h 40 8;
    timestamp_ms = be_at h 48 8;
    payload_crc32 = be_at h 56 4;
  })

module _ (crc : Checksum) where
  unfoldable pub build :
      (session_id flags sbn esi total_blocks total_symbols symbol_size frame_index timestamp_ms : ℕ)
      → List ℕ
      → Frame
  build session_id flags sbn esi total_blocks total_symbols symbol_size frame_index timestamp_ms
        payload =
      let header : FrameHeader = record {
        session_id = session_id;
        flags = flags;
        sbn = sbn;
        esi = esi;
        total_blocks = total_blocks;
        total_symbols = total_symbols;
        symbol_size = symbol_size;
        frame_index = frame_index;
        timestamp_ms = timestamp_ms;
        payload_crc32 = crc.digest payload;
      } in
      record {
        header = header;
        payload = payload;
        frame_crc32 = crc.digest (write_bytes header ++ payload);
      }

  -- Two slices of the input, after the length was checked.
  unfoldable pub from_bytes : List ℕ → Result Error Frame
  from_bytes bytes = do
    let need = frame_header_size + frame_footer_size
    reject_if (ltb (length bytes) need) (buffer_too_short need (length bytes))
    header ← read_bytes bytes
    let actual_payload_size = length bytes - need
    reject_if (not (header.symbol_size == actual_payload_size))
        (length_mismatch (saturating_add header.symbol_size need) (length bytes))
    let payload_end = frame_header_size + header.symbol_size
    let payload = take header.symbol_size (drop frame_header_size bytes)
    let footer = drop payload_end bytes
    reject_if (not (crc.digest payload == header.payload_crc32)) payload_crc_mismatch
    let expected_frame_crc = be_at footer 0 4
    reject_if (not (crc.digest (take payload_end bytes) == expected_frame_crc)) frame_crc_mismatch
    ok (record { header = header; payload = payload; frame_crc32 = expected_frame_crc })

unfoldable pub to_bytes : Frame → List ℕ
to_bytes f = write_bytes f.header ++ (f.payload ++ to_be 4 f.frame_crc32)
