-- ===== src/Engine/Receiver/Adoption.antt =====
-- A fresh receiver and an announcement (`ingest` of core/transfer-engine/src/receiver.rs).
use air_ferry.Prelude.{
  ℕ, ◌+◌, ◌%◌, ◌^◌, ◌<◌, ◌≡◌, ap, ◌∙◌, true, false, List, [], ◌∷◌, length, some, ok, is_err, arith,
  ltb,
}
use air_ferry.Protocol.Frame.{Frame}
use air_ferry.Codec.Raptorq.{Oti, BlockDecoding}
use air_ferry.Codec.Meta
use air_ferry.Codec.Meta.{ObjectMeta, SourceBlockMeta, sum_symbols, total_symbols}
use air_ferry.Codec.Meta.Gate.{IsValid, validate_iff}
use air_ferry.Codec.Decoder
use air_ferry.Codec.Decoder.{Decoder, start_blocks}
use air_ferry.Engine.FileMeta.{FileMeta}
use air_ferry.Engine.Descriptor.{DescriptorInfo}
use air_ferry.Engine.Receiver.{ReceiverSession, Cached}
use air_ferry.Engine.Receiver.Ingest.{
  is_rejected, checked_total, frame_geometry_invalid, segment_invalid, file_meta_invalid,
}

checked_total_lem :
    (sum : ℕ) (blocks : List SourceBlockMeta)
    → sum + sum_symbols blocks < 2 ^ 32
    → checked_total sum blocks ≡ some (sum + sum_symbols blocks)
unfolding checked_total sum_symbols
checked_total_lem sum [] h = ap some (omega arith)
checked_total_lem sum (b ∷ blocks) h =
    let room : ltb (sum + b.num_source_symbols) (2 ^ 32) ≡ true = ground arith in
    let rest = checked_total_lem (sum + b.num_source_symbols) blocks (omega arith) in
    rw (checked_total, room) (rest ∙ ap some (omega arith))

pub geometry :
    (frame : Frame) (info : DescriptorInfo)
    → frame.header.symbol_size ≡ info.meta.symbol_size
    → frame.header.total_blocks ≡ length info.meta.blocks % 2 ^ 32
    → frame.header.total_symbols ≡ total_symbols info.meta.blocks
    → sum_symbols info.meta.blocks < 2 ^ 32
    → frame_geometry_invalid frame info ≡ false
unfolding frame_geometry_invalid total_symbols
geometry frame info size blocks symbols small = ground (arith, checked_total_lem 0 info.meta.blocks)

pub started :
    {D : Type 0} (oti : Oti) (rq : BlockDecoding D) (m : ObjectMeta)
    → IsValid oti m
    → (d : Decoder D) × (Decoder.new oti rq m ≡ ok d)
unfolding Decoder.new
started oti rq m v =
    let passed = (validate_iff oti m).1 v in
    (record { meta = m; blocks = start_blocks oti rq m.oti_bytes m.blocks }, rw passed)

module _ {D : Type 0} (oti : Oti) (rq : BlockDecoding D) (order : List Cached → List Cached) where
  pub record Adopted (s : ReceiverSession D) (info : DescriptorInfo) : Type 0 where
    pub confirmed : s.meta_confirmed ≡ true
    pub seen : s.descriptor_seen ≡ true
    pub meta : s.meta ≡ some info.meta
    pub file_meta : s.file_meta ≡ info.file_meta
    pub segment_meta : s.segment_meta ≡ info.segment

  pub not_rejected :
      (frame : Frame) (info : DescriptorInfo)
      → is_err (Meta.validate oti info.meta) ≡ false
      → frame_geometry_invalid frame info ≡ false
      → file_meta_invalid info ≡ false
      → segment_invalid frame info ≡ false
      → is_rejected oti rq order frame info ≡ false
  unfolding is_rejected
  not_rejected frame info valid geometric file segment = rw (valid, geometric, file, segment)
