-- ===== src/Engine/Sender/Frames.antt =====
-- What the frames of a session carry (core/transfer-engine/src/sender.rs).
use air_ferry.Prelude.{
  ℕ, ◌%◌, ◌^◌, ◌≡◌, inl, inr, List, length, none, some, Option-cases, ok, ok-injective, >>=-eq-ok,
  >>-eq-ok, map_err,
}
use air_ferry.Protocol.Checksum.{Checksum}
use air_ferry.Protocol.Frame.{Frame, build, flag_descriptor}
use air_ferry.Codec.Raptorq.{BlockEncoding}
use air_ferry.Codec.Meta.{total_symbols}
use air_ferry.Engine.Errors.{invalid_segment}
use air_ferry.Engine.Segment
use air_ferry.Engine.Segment.{SegmentMeta}
use air_ferry.Engine.Descriptor.{
  build_payload, build_segment_payload, build_payload_inner, build_frame, build_segment_frame,
}
use air_ferry.Engine.Sender.{SenderSession, descriptor}

module _ {E : Type 0} (crc : Checksum) (rq : BlockEncoding E) where
  abbrev pub IsDescriptorOf : SenderSession E → (now_ms : ℕ) → Frame → Type 0
  IsDescriptorOf s now_ms f =
      (payload : List ℕ) × (build_payload_inner s.meta s.file_meta s.segment_meta ≡ ok payload)
      × (build crc s.session_id flag_descriptor 0 0 (length s.meta.blocks % 2 ^ 32)
            (total_symbols s.meta.blocks) s.meta.symbol_size s.frame_index now_ms payload
          ≡ f)

  -- A descriptor frame holds the payload built from the session's metadata.
  pub descriptor-IsDescriptorOf :
      (s : SenderSession E) (now_ms : ℕ) (f : Frame)
      → descriptor crc rq s now_ms ≡ ok f
      → IsDescriptorOf s now_ms f
  unfolding descriptor build_frame build_segment_frame build_payload build_segment_payload
  descriptor-IsDescriptorOf s now_ms f e = elim (Option-cases s.segment_meta) [
    | inl single ↦
        let (payload, built, same) =
          >>=-eq-ok (build_payload_inner s.meta s.file_meta none) _ (rw single at e) in
        (payload, rw single built, ok-injective same)
    | inr (segment, child) ↦
        let (valid, e₁) =
          >>-eq-ok (map_err invalid_segment (Segment.validate segment s.session_id s.file_meta)) _
            (rw child at e) in
        let (payload, built, same) =
          >>=-eq-ok (build_payload_inner s.meta s.file_meta (some segment)) _ e₁ in
        (payload, rw child built, ok-injective same)
  ]
