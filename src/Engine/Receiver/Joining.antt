-- ===== src/Engine/Receiver/Joining.antt =====
-- A receiver that has cached symbols joins a transfer (`ingest` of core/transfer-engine/src/receiver.rs).
use air_ferry.Prelude.{
  ℕ, ◌≡◌, refl, ap, true, false, ◌==◌, List, Option, none, some, ok, is_err, arith,
}
use air_ferry.Protocol.Frame.{Frame}
use air_ferry.Codec.Raptorq.{Oti, BlockDecoding}
use air_ferry.Codec.Meta.{ObjectMeta}
use air_ferry.Codec.Meta.Gate.{IsValid, validate_iff}
use air_ferry.Codec.Decoder
use air_ferry.Codec.Decoder.{Decoder}
use air_ferry.Engine.FileMeta.{FileMeta}
use air_ferry.Engine.Segment.{SegmentMeta}
use air_ferry.Engine.Descriptor.{DescriptorInfo}
use air_ferry.Engine.Receiver.{ReceiverSession, Cached}
use air_ferry.Engine.Receiver.Replay.{apply_meta}
use air_ferry.Engine.Receiver.Ingest.{
  ingest, is_descriptor, is_rejected, segment_invalid, file_meta_invalid, confirm_applied, confirm,
  answer, see_frame, accept, accept_first, ingest_descriptor, ingest_parsed,
}
use air_ferry.Engine.Sender.Announce.{Announces, announcement}
use air_ferry.Engine.Receiver.Counters.{Counted}
use air_ferry.Engine.Receiver.Replayed.{apply_decoder-Counted}
use air_ferry.Engine.Receiver.Adoption.{Adopted, geometry, started, not_rejected}

module _ {D : Type 0} (oti : Oti) (rq : BlockDecoding D) (order : List Cached → List Cached) where
  pub Joined : ReceiverSession D → DescriptorInfo → Type 0
  Joined s info = Adopted oti rq order s info × Counted s

  confirm-Joined :
      (s : ReceiverSession D) (info : DescriptorInfo)
      → Counted s
      → s.meta ≡ some info.meta
      → Joined (confirm s info) info
  unfolding confirm Joined
  confirm-Joined s info c m =
      (record { confirmed = refl; seen = refl; meta = m; file_meta = refl; segment_meta = refl }, c)

  apply_meta-Joined :
      (s : ReceiverSession D) (info : DescriptorInfo) (d : Decoder D)
      → Decoder.new oti rq info.meta ≡ ok d
      → Joined (confirm_applied oti rq order (apply_meta oti rq order s info.meta) info).0 info
  unfolding apply_meta confirm_applied answer
  apply_meta-Joined s info d e =
      let (t, applied, c, m) = apply_decoder-Counted rq oti order s info.meta d e in
      rw (e, applied) (confirm-Joined t info c m)

  accept_first-Joined :
      (s : ReceiverSession D) (info : DescriptorInfo) (d : Decoder D) (meta : Option ObjectMeta)
      → meta ≡ none
      → Decoder.new oti rq info.meta ≡ ok d
      → Joined (accept_first oti rq order s info meta).0 info
  unfolding accept_first
  accept_first-Joined s info d none absent e = apply_meta-Joined s info d e
  accept_first-Joined s info d (some m) absent e = cc

  accept-Joined :
      (s : ReceiverSession D) (info : DescriptorInfo) (d : Decoder D)
      → s.descriptor_seen ≡ false
      → s.meta ≡ none
      → Decoder.new oti rq info.meta ≡ ok d
      → Joined (accept oti rq order s info).0 info
  unfolding accept
  accept-Joined s info d unseen absent e =
      simp unseen (accept_first-Joined s info d s.meta absent e)

  -- A receiver of the session that has no metadata yet, whatever symbols it has cached and in whatever
  -- order they are replayed, takes over an announcement of valid metadata: the object metadata, the file
  -- metadata and the segment are then the announced ones, no cached symbol makes the call fail, and the
  -- number of received symbols is the number of ids in the sets. The file metadata and the segment pass the
  -- receiver's tests.
  pub ingest-Joined :
      (s : ReceiverSession D) (index : ℕ) (meta : ObjectMeta) (fm : FileMeta)
      (segment : Option SegmentMeta) (frame : Frame)
      → s.descriptor_seen ≡ false
      → s.meta ≡ none
      → Announces s.session_id meta fm segment index frame
      → IsValid oti meta
      → file_meta_invalid (announcement meta fm segment) ≡ false
      → segment_invalid frame (announcement meta fm segment) ≡ false
      → Joined (ingest oti rq order s frame).0 (announcement meta fm segment)
  unfolding ingest ingest_descriptor ingest_parsed
  ingest-Joined s index meta fm segment frame unseen no_meta a v file seg =
      let info : DescriptorInfo = announcement meta fm segment in
      let (d, start) = started oti rq meta v in
      let own : (frame.header.session_id == s.session_id) ≡ true = ground (arith, a.id) in
      let marked : is_descriptor frame ≡ true = unfold is_descriptor in rw a.flags in
      let passed : is_rejected oti rq order frame info ≡ false =
        not_rejected oti rq order frame info (ap is_err ((validate_iff oti meta).1 v))
          (geometry frame info a.symbol_size a.blocks a.symbols (omega (arith, v.few_symbols))) file
          seg in
      rw (own, marked, a.parsed, passed)
        (accept-Joined (see_frame s) info d (unfold see_frame in unseen)
          (unfold see_frame in no_meta) start)
