-- ===== src/Engine/Receiver.antt =====
-- The receiver's session (core/transfer-engine/src/receiver.rs): its state and its construction.
pub mod Replay
pub mod Ingest
pub mod Finish
pub mod Cache
pub mod Counters
pub mod Replayed
pub mod Tally
pub mod Joining
pub mod Decoding
pub mod Run
pub mod Descriptors
pub mod Adoption
pub mod Resume
pub mod Checkpoints
pub mod Budget
use air_ferry.Prelude.{
  ℕ, zero, suc, ◌+◌, ◌-◌, ◌*◌, ◌/◌, ◌%◌, ◌^◌, max, Bool, true, false, ◌&&◌, ◌==◌, List, [], ◌∷◌,
  ◌++◌, length, replicate, get_elem?, set, get_or, Option, none, some, Result, ok, err, ◌>>=◌,
  map_err, String, if◌then◌else◌,
}
use air_ferry.Protocol.Frame.{Frame}
use air_ferry.Codec.Raptorq.{Oti, BlockDecoding}
use air_ferry.Codec.Meta.{SourceBlockMeta, ObjectMeta, total_symbols, max_object_bytes}
use air_ferry.Codec.Decoder
use air_ferry.Codec.Decoder.{Decoder}
use air_ferry.Engine.Errors.{Error, raptorq}
use air_ferry.Engine.FileMeta
use air_ferry.Engine.FileMeta.{FileMeta}
use air_ferry.Engine.Segment.{SegmentMeta}
use air_ferry.Engine.Progress
use air_ferry.Engine.Progress.{Progress}

abbrev pub pre_meta_symbol_cache_max : ℕ
pre_meta_symbol_cache_max = 12000

abbrev pub pre_meta_cache_bytes_per_entry : ℕ
pre_meta_cache_bytes_per_entry = 64

-- `a.div_ceil(b)` for a positive `b`.
abbrev pub div_ceil : ℕ → ℕ → ℕ
div_ceil a b = (a + (b - 1)) / b

unfoldable pub pre_meta_cache_max : ℕ → ℕ
pre_meta_cache_max pending_symbol_size =
    if pending_symbol_size == 0
    then pre_meta_symbol_cache_max
    else div_ceil max_object_bytes (max pending_symbol_size pre_meta_cache_bytes_per_entry)

-- An entry of the replay cache; a key has one entry at most.
pub record Cached : Type 0 where
  pub sbn : ℕ
  pub esi : ℕ
  pub bytes : List ℕ

unfoldable pub contains_key : ℕ → ℕ → List Cached → Bool
contains_key sbn esi [] = false
contains_key sbn esi (c ∷ cache) =
    if c.sbn == sbn && c.esi == esi then true else contains_key sbn esi cache

-- A `HashSet<u32>`, without repetitions.
unfoldable pub contains : ℕ → List ℕ → Bool
contains esi [] = false
contains esi (x ∷ xs) = if x == esi then true else contains esi xs

pub record ReceiverSession (D : Type 0) : Type 0 where
  pub session_id : ℕ
  pub meta : Option ObjectMeta
  pub decoder : Option (Decoder D)
  pub meta_confirmed : Bool
  pub descriptor_seen : Bool
  pub file_meta : FileMeta
  pub segment_meta : Option SegmentMeta
  pub received : List (List ℕ)
  pub source_recv : List ℕ
  pub symbol_cache : List Cached
  pub progress : Progress
  pub session_mismatch_streak : ℕ
  pub pending_symbol_size : ℕ
  pub last_assemble_error : Option String

module _ {D : Type 0} where
  unfoldable pub build :
      (session_id : ℕ)
      → Option ObjectMeta
      → Option (Decoder D)
      → (meta_confirmed : Bool) → ReceiverSession D
  build session_id meta decoder meta_confirmed =
      let blocks : List SourceBlockMeta = elim meta [ none ↦ [] | some m ↦ m.blocks ] in
      record {
        session_id = session_id;
        meta = meta;
        decoder = decoder;
        meta_confirmed = meta_confirmed;
        descriptor_seen = false;
        file_meta = FileMeta.default;
        segment_meta = none;
        received = replicate (length blocks) [];
        source_recv = replicate (length blocks) 0;
        symbol_cache = [];
        progress = record (Progress.default) {
          total_symbols = total_symbols blocks;
          total_blocks = length blocks % 2 ^ 32;
        };
        session_mismatch_streak = 0;
        pending_symbol_size = elim meta [ none ↦ 0 | some m ↦ m.symbol_size ];
        last_assemble_error = none;
      }

  unfoldable pub new_pending : ℕ → ReceiverSession D
  new_pending session_id = build session_id none none false

  pub from_first_frame : Frame → ReceiverSession D
  from_first_frame frame = build frame.header.session_id none none false

  unfoldable pub is_complete : ReceiverSession D → Bool
  is_complete s = elim s.decoder [ none ↦ false | some d ↦ Decoder.is_complete d ]

  -- `progress()`
  unfoldable pub progress_snapshot : ReceiverSession D → Progress
  progress_snapshot s = record (s.progress) {
    meta_confirmed = s.meta_confirmed;
    symbol_size = s.pending_symbol_size;
  }

  unfoldable pub count_corrupt : ReceiverSession D → ReceiverSession D
  count_corrupt s = record s {
    progress = record (s.progress) { frames_corrupt = (s.progress.frames_corrupt + 1) % 2 ^ 64 };
  }

  unfoldable pub count_duplicate : ReceiverSession D → ReceiverSession D
  count_duplicate s = record s {
    progress = record (s.progress) {
      frames_duplicate = (s.progress.frames_duplicate + 1) % 2 ^ 64;
    };
  }

module _ {D : Type 0} (oti : Oti) (rq : BlockDecoding D) where
  unfoldable pub new_confirmed : ℕ → ObjectMeta → Result Error (ReceiverSession D)
  new_confirmed session_id meta = do
    decoder ← map_err raptorq (Decoder.new oti rq meta)
    ok (build session_id (some meta) (some decoder) true)
