-- ===== src/Engine/Sender.antt =====
-- The sender's session (core/transfer-engine/src/sender.rs). The clock's readings are arguments.
pub mod Plan
pub mod Repair
pub mod Stream
pub mod Frames
pub mod Unique
pub mod Announce
pub mod Made
use air_ferry.Prelude.{
  ℕ, zero, suc, ◌+◌, ◌-◌, ◌*◌, ◌/◌, ◌%◌, ◌^◌, max, Bool, true, false, ◌||◌, not, ltb, leb, ◌==◌,
  List, [], ◌∷◌, ◌++◌, length, get_elem?, get_or, Option, none, some, Result, ok, err, ◌>>=◌, ◌>>◌,
  reject_if, map_err, ok_or, checked_add, try_from, if◌then◌else◌,
}
use air_ferry.Protocol.Checksum.{Checksum}
use air_ferry.Protocol.Frame.{Frame, build}
use air_ferry.Protocol.Chunker.{pad_to_symbols}
use air_ferry.Codec.Raptorq.{BlockEncoding}
use air_ferry.Codec.Config.{Config}
use air_ferry.Codec.Symbol
use air_ferry.Codec.Symbol.{Symbol}
use air_ferry.Codec.Meta.{SourceBlockMeta, ObjectMeta, total_symbols}
use air_ferry.Codec.Encoder
use air_ferry.Codec.Encoder.{Encoder, is_empty, source_symbol, repair_symbols, symbols_at}
use air_ferry.Engine.Errors.{
  Error, raptorq, no_payload, invalid_redundancy, symbol_id_space_exhausted, invalid_segment,
}
use air_ferry.Engine.FileMeta.{FileMeta}
use air_ferry.Engine.Segment
use air_ferry.Engine.Segment.{SegmentMeta}
use air_ferry.Engine.Descriptor.{build_payload_inner, build_frame, build_segment_frame}
use air_ferry.Engine.Stats
use air_ferry.Engine.Stats.{Stats, record_sent}

pub record SenderConfig : Type 0 where
  pub codec : Config
  pub redundancy_pct : ℕ

-- `SenderConfig::validate`
unfoldable pub validate : SenderConfig → Result Error (Unit {0})
validate config =
    reject_if (ltb config.redundancy_pct 5 || ltb 50 config.redundancy_pct)
      (invalid_redundancy config.redundancy_pct)

pub record SenderSession (E : Type 0) : Type 0 where
  pub config : SenderConfig
  pub session_id : ℕ
  pub encoder : Encoder E
  pub meta : ObjectMeta
  pub file_meta : FileMeta
  pub segment_meta : Option SegmentMeta
  pub total_k : ℕ
  pub source_plan : List (ℕ × ℕ)
  pub source_cursor : ℕ
  pub repair_cursor : ℕ
  pub frame_index : ℕ
  pub descriptor_interval : ℕ
  pub started : Bool
  pub start_ms : ℕ
  pub stats : Stats

unfoldable pub max_k : List SourceBlockMeta → ℕ
max_k [] = 0
max_k (b ∷ blocks) = max b.num_source_symbols (max_k blocks)

-- The inner loop of `build_source_plan`: symbol `esi` of every block that has one.
unfoldable pub plan_row : List SourceBlockMeta → ℕ → List (ℕ × ℕ)
plan_row [] esi = []
plan_row (b ∷ blocks) esi =
    let rest = plan_row blocks esi in
    if ltb esi b.num_source_symbols then (b.sbn, esi) ∷ rest else rest

-- The outer loop, for the `n` ids from `esi` on.
unfoldable pub plan_rows : List SourceBlockMeta → (esi n : ℕ) → List (ℕ × ℕ)
plan_rows blocks esi zero = []
plan_rows blocks esi (suc n) = plan_row blocks esi ++ plan_rows blocks (suc esi) n

unfoldable pub build_source_plan : ObjectMeta → List (ℕ × ℕ)
build_source_plan meta = plan_rows meta.blocks 0 (max_k meta.blocks)

-- `blocks` is not empty, as the callers guarantee.
unfoldable pub repair_symbol_id : List SourceBlockMeta → ℕ → Option (ℕ × ℕ)
repair_symbol_id blocks cursor = elim (try_from 32 (cursor / length blocks)) [
  | none ↦ none
  | some offset ↦ elim (get_elem? blocks (cursor % length blocks)) [
    | none ↦ none
    | some b ↦ elim (checked_add 32 b.num_source_symbols offset) [
      | none ↦ none
      | some esi ↦ if ltb esi (2 ^ 24) then some (b.sbn, esi) else none
    ]
  ]
]

module _ {E : Type 0} where
  unfoldable pub set_descriptor_interval : SenderSession E → ℕ → SenderSession E
  set_descriptor_interval s interval = record s { descriptor_interval = max interval 1 }

  -- The end of `next_symbol_id`.
  unfoldable pub next_repair_id : SenderSession E → SenderSession E × Result Error (ℕ × ℕ)
  next_repair_id s = elim (repair_symbol_id s.meta.blocks s.repair_cursor) [
    | none ↦ (s, err symbol_id_space_exhausted)
    | some id ↦ elim (checked_add 64 s.repair_cursor 1) [
      | none ↦ (s, err symbol_id_space_exhausted)
      | some cursor ↦ (record s { repair_cursor = cursor }, ok id)
    ]
  ]

  unfoldable pub next_symbol_id : SenderSession E → SenderSession E × Result Error (ℕ × ℕ)
  next_symbol_id s = elim (get_elem? s.source_plan s.source_cursor) [
    | none ↦ next_repair_id s
    | some id ↦ (record s { source_cursor = s.source_cursor + 1 }, ok id)
  ]

  -- The clock is started by the first frame.
  unfoldable pub start_clock : SenderSession E → ℕ → SenderSession E
  start_clock s start_ms = if s.started then s else record s { started = true; start_ms = start_ms }

  unfoldable pub is_descriptor_turn : SenderSession E → Bool
  is_descriptor_turn s = s.frame_index == 0 || (s.frame_index % max s.descriptor_interval 1) == 0

  unfoldable pub advance_index : SenderSession E → SenderSession E
  advance_index s = record s { frame_index = (s.frame_index + 1) % 2 ^ 64 }

  unfoldable pub record_bytes : SenderSession E → (sent_ms : ℕ) → List ℕ → SenderSession E
  record_bytes s sent_ms bytes = record s { stats = record_sent s.stats sent_ms (length bytes) }

  -- `stats()`, whose `finalize` does nothing.
  pub stats : SenderSession E → (now_ms : ℕ) → Stats
  stats s now_ms =
      if s.started then record (s.stats) { elapsed_ms = now_ms - s.start_ms } else s.stats

module _ {E : Type 0} (crc : Checksum) (rq : BlockEncoding E) where
  -- The block that `sbn` names exists; a call for one repair symbol returns one.
  unfoldable pub fetch_symbol : SenderSession E → (sbn esi : ℕ) → Result Error Symbol
  fetch_symbol s sbn esi =
      let k = symbols_at s.meta.blocks sbn in
      if ltb esi k then map_err raptorq (source_symbol s.encoder sbn esi) else (do
        syms ← map_err raptorq (repair_symbols rq s.encoder sbn (esi - k) 1)
        ok (get_or syms 0 (Symbol.new sbn esi [])))

  unfoldable pub descriptor : SenderSession E → (now_ms : ℕ) → Result Error Frame
  descriptor s now_ms = elim s.segment_meta [
    | none ↦ build_frame crc s.meta s.file_meta s.session_id s.frame_index now_ms
    | some segment ↦
        build_segment_frame crc s.meta s.file_meta segment s.session_id s.frame_index now_ms
  ]

  unfoldable pub data_frame : SenderSession E → (sbn esi now_ms : ℕ) → Symbol → Frame
  data_frame s sbn esi now_ms symbol =
      build crc s.session_id 0 sbn esi (length s.meta.blocks % 2 ^ 32) s.total_k
        s.config.codec.symbol_size s.frame_index now_ms symbol.bytes

  -- The descriptor turn of `next_frame`, with the descriptor that was built.
  unfoldable pub emit_built :
      SenderSession E → (sent_ms : ℕ) → Result Error Frame → SenderSession E × Result Error Frame
  emit_built s sent_ms (err e) = (s, err e)
  emit_built s sent_ms (ok frame) = (record_bytes s sent_ms frame.payload, ok frame)

  unfoldable pub emit_descriptor :
      SenderSession E → (now_ms sent_ms : ℕ) → SenderSession E × Result Error Frame
  emit_descriptor s now_ms sent_ms =
      emit_built (advance_index s) sent_ms (descriptor (advance_index s) now_ms)

  -- The data turn, with the symbol that was fetched.
  unfoldable pub emit_fetched :
      SenderSession E
      → (sbn esi now_ms sent_ms : ℕ) → Result Error Symbol
      → SenderSession E × Result Error Frame
  emit_fetched s sbn esi now_ms sent_ms (err e) = (s, err e)
  emit_fetched s sbn esi now_ms sent_ms (ok symbol) = (
    record_bytes (advance_index s) sent_ms symbol.bytes,
    ok (data_frame (advance_index s) sbn esi now_ms symbol),
  )

  -- The data turn, with the id that was drawn.
  unfoldable pub emit_drawn :
      (now_ms sent_ms : ℕ)
      → SenderSession E × Result Error (ℕ × ℕ)
      → SenderSession E × Result Error Frame
  emit_drawn now_ms sent_ms (s, err e) = (s, err e)
  emit_drawn now_ms sent_ms (s, ok (sbn, esi)) =
      emit_fetched s sbn esi now_ms sent_ms (fetch_symbol s sbn esi)

  unfoldable pub emit_data :
      SenderSession E → (now_ms sent_ms : ℕ) → SenderSession E × Result Error Frame
  emit_data s now_ms sent_ms = emit_drawn now_ms sent_ms (next_symbol_id s)

  unfoldable pub next_frame :
      SenderSession E → (start_ms now_ms sent_ms : ℕ) → SenderSession E × Result Error Frame
  next_frame s start_ms now_ms sent_ms =
      if is_empty s.source_plan
      then (s, err no_payload)
      else if is_descriptor_turn s
      then emit_descriptor (start_clock s start_ms) now_ms sent_ms
      else emit_data (start_clock s start_ms) now_ms sent_ms

  -- The session that `new_inner` returns.
  unfoldable pub fresh :
      Encoder E → (session_id : ℕ) → SenderConfig → FileMeta → Option SegmentMeta → SenderSession E
  fresh encoder session_id config file_meta segment_meta = record {
    config = config;
    session_id = session_id;
    encoder = encoder;
    meta = encoder.meta;
    file_meta = file_meta;
    segment_meta = segment_meta;
    total_k = total_symbols encoder.meta.blocks;
    source_plan = build_source_plan encoder.meta;
    source_cursor = 0;
    repair_cursor = 0;
    frame_index = 0;
    descriptor_interval = 17;
    started = false;
    start_ms = 0;
    stats = Stats.default;
  }

  unfoldable pub new_inner :
      List ℕ
      → (session_id : ℕ) → SenderConfig
      → FileMeta
      → Option SegmentMeta
      → Result Error (SenderSession E)
  new_inner compressed_payload session_id config file_meta segment_meta = do
    validate config
    encoder ←
        map_err raptorq
          (Encoder.new rq (pad_to_symbols compressed_payload config.codec) config.codec)
    payload ← build_payload_inner encoder.meta file_meta segment_meta
    ok (fresh encoder session_id config file_meta segment_meta)

  unfoldable pub new :
      List ℕ → (session_id : ℕ) → SenderConfig → FileMeta → Result Error (SenderSession E)
  new compressed_payload session_id config file_meta =
      new_inner compressed_payload session_id config file_meta none

  unfoldable pub new_segment :
      List ℕ
      → (child_session_id : ℕ) → SenderConfig
      → FileMeta
      → SegmentMeta
      → Result Error (SenderSession E)
  new_segment compressed_payload child_session_id config file_meta segment_meta = do
    reject_if
        (not (file_meta.compressed_size == length compressed_payload)
          || not file_meta.compressed_size_known)
        (invalid_segment "segment compressed size does not match payload")
    map_err invalid_segment (Segment.validate segment_meta child_session_id file_meta)
    new_inner compressed_payload child_session_id config file_meta (some segment_meta)
