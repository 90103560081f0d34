-- ===== src/Engine/Receiver/Ingest.antt =====
-- `ingest` of core/transfer-engine/src/receiver.rs.
use air_ferry.Prelude.{
  ℕ, ◌+◌, ◌%◌, ◌^◌, bit_and, Bool, true, false, ◌&&◌, ◌||◌, not, ltb, leb, ◌==◌, List, [], ◌∷◌,
  length, Option, none, some, is_some, is_err, Result, ok, err, checked_add, if◌then◌else◌,
}
use air_ferry.Protocol.Frame.{Frame, flag_descriptor}
use air_ferry.Protocol.Compress.{compression_none, is_known_compression_tag}
use air_ferry.Codec.Raptorq.{Oti, BlockDecoding}
use air_ferry.Codec.Symbol
use air_ferry.Codec.Meta
use air_ferry.Codec.Meta.{SourceBlockMeta, ObjectMeta, max_original_bytes}
use air_ferry.Codec.Decoder.{max_esi}
use air_ferry.Engine.Errors.{Error, session_mismatch}
use air_ferry.Engine.FileMeta.{FileMeta}
use air_ferry.Engine.Segment
use air_ferry.Engine.Segment.{SegmentMeta}
use air_ferry.Engine.Equality.{meta_eq, file_eq, option_segment_eq}
use air_ferry.Engine.Descriptor.{DescriptorInfo}
use air_ferry.Engine.Descriptor.Parse.{parse_payload}
use air_ferry.Engine.Receiver.{
  ReceiverSession, Cached, contains_key, pre_meta_cache_max, is_complete, count_corrupt,
  count_duplicate,
}
use air_ferry.Engine.Receiver.Replay.{
  apply_meta, feed_decoder, note_symbol, has_symbol, refresh_decoded_counts,
}

-- `try_fold(0u32, |sum, block| sum.checked_add(block.num_source_symbols))`
unfoldable pub checked_total : ℕ → List SourceBlockMeta → Option ℕ
checked_total sum [] = some sum
checked_total sum (b ∷ blocks) = elim (checked_add 32 sum b.num_source_symbols) [
  | none ↦ none
  | some next ↦ checked_total next blocks
]

abbrev pub option_is : Option ℕ → ℕ → Bool
option_is none n = false
option_is (some m) n = m == n

-- The header of the frame disagrees with the metadata that it carries.
unfoldable pub frame_geometry_invalid : Frame → DescriptorInfo → Bool
frame_geometry_invalid frame info =
    (not (frame.header.symbol_size == info.meta.symbol_size)
      || not (frame.header.total_blocks == length info.meta.blocks % 2 ^ 32))
    || not (option_is (checked_total 0 info.meta.blocks) frame.header.total_symbols)

unfoldable pub segment_invalid : Frame → DescriptorInfo → Bool
segment_invalid frame info = elim info.segment [
  | none ↦ false
  | some segment ↦ is_err (Segment.validate segment frame.header.session_id info.file_meta)
]

unfoldable pub file_meta_invalid : DescriptorInfo → Bool
file_meta_invalid info =
    let file : FileMeta = info.file_meta in
    let single : Bool = not (is_some info.segment) in
    ((not (is_known_compression_tag file.compression)
        || (single && ltb max_original_bytes file.original_size))
      || (file.compressed_size_known && ltb info.meta.transfer_length file.compressed_size))
    || (single && (not (file.compression == compression_none) && file.original_size == 0))

unfoldable pub is_descriptor : Frame → Bool
is_descriptor frame = not (bit_and frame.header.flags flag_descriptor == 0)

module _ {D : Type 0} where
  -- A repeat says the same as the descriptor that was accepted.
  unfoldable pub repeats : ReceiverSession D → DescriptorInfo → Bool
  repeats s info = elim s.meta [
    | none ↦ false
    | some meta ↦
        meta_eq meta info.meta
        && (file_eq s.file_meta info.file_meta && option_segment_eq s.segment_meta info.segment)
  ]

  -- The descriptor is accepted; the replay cache has served.
  unfoldable pub confirm : ReceiverSession D → DescriptorInfo → ReceiverSession D
  confirm s info = record s {
    meta_confirmed = true;
    descriptor_seen = true;
    symbol_cache = [];
    file_meta = info.file_meta;
    segment_meta = info.segment;
  }

  unfoldable pub mismatch : ReceiverSession D → ReceiverSession D
  mismatch s =
      let streak : ℕ = (s.session_mismatch_streak + 1) % 2 ^ 32 in
      record s {
        session_mismatch_streak = streak;
        progress = record (s.progress) { session_mismatch_streak = streak };
      }

  unfoldable pub see_frame : ReceiverSession D → ReceiverSession D
  see_frame s = record s {
    session_mismatch_streak = 0;
    progress = record (s.progress) {
      session_mismatch_streak = 0;
      frames_seen = (s.progress.frames_seen + 1) % 2 ^ 64;
    };
  }

  -- A call that ends with `Ok(self.is_complete())`.
  unfoldable pub answer : ReceiverSession D → ReceiverSession D × Result Error Bool
  answer s = (s, ok (is_complete s))

  -- The counters while the symbols wait in the cache.
  unfoldable pub count_cached : ReceiverSession D → ReceiverSession D
  count_cached s = record s {
    progress = record (s.progress) {
      received_symbols = length s.symbol_cache % 2 ^ 32;
      decoded_symbols = 0;
    };
  }

  unfoldable pub cache_symbol : ReceiverSession D → Frame → ReceiverSession D
  cache_symbol s frame =
      if contains_key frame.header.sbn frame.header.esi s.symbol_cache
      then count_duplicate s
      else if leb (pre_meta_cache_max frame.header.symbol_size) (length s.symbol_cache)
      then count_corrupt s
      else record s {
        symbol_cache =
            record { sbn = frame.header.sbn; esi = frame.header.esi; bytes = frame.payload }
            ∷ s.symbol_cache;
      }

  -- A data frame before the descriptor.
  unfoldable pub buffer : ReceiverSession D → Frame → ReceiverSession D × Result Error Bool
  buffer s frame = (
    count_cached (cache_symbol (record s { pending_symbol_size = frame.header.symbol_size }) frame),
    ok false,
  )

  unfoldable pub symbol_size : ReceiverSession D → ℕ
  symbol_size s = elim s.meta [ none ↦ 0 | some meta ↦ meta.symbol_size ]

  unfoldable pub blocks : ReceiverSession D → List SourceBlockMeta
  blocks s = elim s.meta [ none ↦ [] | some meta ↦ meta.blocks ]

  unfoldable pub count_symbol : ReceiverSession D → ReceiverSession D
  count_symbol s = record s {
    progress = record (s.progress) {
      received_symbols = (s.progress.received_symbols + 1) % 2 ^ 32;
    };
  }

  -- A data frame whose coordinates do not fit the metadata.
  unfoldable pub is_misfit : ReceiverSession D → Frame → Bool
  is_misfit s frame =
      leb (length s.received) frame.header.sbn
      || (leb max_esi frame.header.esi || not (length frame.payload % 2 ^ 32 == symbol_size s))

module _ {D : Type 0} (rq : BlockDecoding D) where
  unfoldable pub end_symbol :
      ReceiverSession D → Result Error (ReceiverSession D) → ReceiverSession D × Result Error Bool
  end_symbol s (err e) = (s, err e)
  end_symbol s (ok t) = answer (refresh_decoded_counts t)

  -- A fresh symbol: it is counted, and then fed to the decoder.
  unfoldable pub take_symbol : ReceiverSession D → Frame → ReceiverSession D × Result Error Bool
  take_symbol s frame =
      let t = count_symbol (note_symbol s (blocks s) frame.header.sbn frame.header.esi) in
      end_symbol t (feed_decoder rq t (Symbol.new frame.header.sbn frame.header.esi frame.payload))

  -- A data frame after the descriptor.
  unfoldable pub ingest_symbol : ReceiverSession D → Frame → ReceiverSession D × Result Error Bool
  ingest_symbol s frame =
      if is_misfit s frame
      then answer (count_corrupt s)
      else if is_complete s
      then (count_duplicate s, ok true)
      else if has_symbol s frame.header.sbn frame.header.esi
      then answer (count_duplicate s)
      else take_symbol s frame

module _ {D : Type 0} (oti : Oti) (rq : BlockDecoding D) (order : List Cached → List Cached) where
  unfoldable pub is_rejected : Frame → DescriptorInfo → Bool
  is_rejected frame info =
      ((is_err (Meta.validate oti info.meta) || frame_geometry_invalid frame info)
        || file_meta_invalid info)
      || segment_invalid frame info

  unfoldable pub confirm_applied :
      ReceiverSession D × Result Error (Unit {0})
      → DescriptorInfo
      → ReceiverSession D × Result Error Bool
  confirm_applied (s, err e) info = (s, err e)
  confirm_applied (s, ok u) info = answer (confirm s info)

  -- The first descriptor that passed the checks, with the metadata that the session has.
  unfoldable pub accept_first :
      ReceiverSession D → DescriptorInfo → Option ObjectMeta → ReceiverSession D × Result Error Bool
  accept_first s info none = confirm_applied (apply_meta oti rq order s info.meta) info
  accept_first s info (some cur) =
      if not (meta_eq cur info.meta) then answer (count_corrupt s) else answer (confirm s info)

  -- A descriptor that passed the checks.
  unfoldable pub accept : ReceiverSession D → DescriptorInfo → ReceiverSession D × Result Error Bool
  accept s info =
      if s.descriptor_seen
      then answer (if repeats s info then s else count_corrupt s)
      else accept_first s info s.meta

  unfoldable pub ingest_parsed :
      ReceiverSession D → Frame → Option DescriptorInfo → ReceiverSession D × Result Error Bool
  ingest_parsed s frame none = answer (count_corrupt s)
  ingest_parsed s frame (some info) =
      if is_rejected frame info then answer (count_corrupt s) else accept s info

  unfoldable pub ingest_descriptor :
      ReceiverSession D → Frame → ReceiverSession D × Result Error Bool
  ingest_descriptor s frame = ingest_parsed s frame (parse_payload frame.payload)

  unfoldable pub ingest : ReceiverSession D → Frame → ReceiverSession D × Result Error Bool
  ingest s frame =
      if not (frame.header.session_id == s.session_id)
      then (mismatch s, err (session_mismatch s.session_id frame.header.session_id))
      else if is_descriptor frame
      then ingest_descriptor (see_frame s) frame
      else if not s.meta_confirmed
      then buffer (see_frame s) frame
      else ingest_symbol rq (see_frame s) frame
