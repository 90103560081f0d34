-- ===== src/Engine/Sender/Made.antt =====
-- What a session of core/transfer-engine/src/sender.rs is made of.
use air_ferry.Prelude.{
  ℕ, ◌≡◌, refl, subst, List, Option, none, some, ok, >>=-eq-ok, >>-eq-ok, reject_if-eq-ok,
  map_err-eq-ok, map_err, ok-injective,
}
use air_ferry.Protocol.Checksum.{Checksum}
use air_ferry.Protocol.Chunker.{pad_to_symbols}
use air_ferry.Codec.Raptorq.{BlockEncoding}
use air_ferry.Codec.Meta.{total_symbols}
use air_ferry.Codec.Encoder
use air_ferry.Codec.Encoder.{Encoder}
use air_ferry.Engine.Errors.{raptorq, invalid_segment}
use air_ferry.Engine.FileMeta.{FileMeta}
use air_ferry.Engine.Segment.{SegmentMeta}
use air_ferry.Engine.Descriptor.{build_payload_inner}
use air_ferry.Engine.Sender.{
  SenderConfig, SenderSession, validate, fresh, new_inner, new, new_segment, build_source_plan,
}

module _ {E : Type 0} (crc : Checksum) (rq : BlockEncoding E) where
  -- A session at its start, whose encoder works on the padded payload.
  pub record IsNew (payload : List ℕ) (session_id : ℕ) (config : SenderConfig)
      (file_meta : FileMeta) (segment_meta : Option SegmentMeta) (s : SenderSession E)
      : Type 0 where
    pub encoder : Encoder.new rq (pad_to_symbols payload config.codec) config.codec ≡ ok s.encoder
    pub meta : s.meta ≡ s.encoder.meta
    pub session_id_is : s.session_id ≡ session_id
    pub config_is : s.config ≡ config
    pub file_meta_is : s.file_meta ≡ file_meta
    pub segment_meta_is : s.segment_meta ≡ segment_meta
    pub total_k : s.total_k ≡ total_symbols s.encoder.meta.blocks
    pub source_plan : s.source_plan ≡ build_source_plan s.encoder.meta
    pub at_start : (s.source_cursor ≡ 0) × (s.repair_cursor ≡ 0) × (s.frame_index ≡ 0)

  fresh-IsNew :
      (payload : List ℕ) (session_id : ℕ) (config : SenderConfig) (file_meta : FileMeta)
      (segment_meta : Option SegmentMeta) (encoder : Encoder E)
      → Encoder.new rq (pad_to_symbols payload config.codec) config.codec ≡ ok encoder
      → IsNew payload session_id config file_meta segment_meta
          (fresh crc rq encoder session_id config file_meta segment_meta)
  unfolding fresh
  fresh-IsNew payload session_id config file_meta segment_meta encoder made = record {
    encoder = made;
    meta = refl;
    session_id_is = refl;
    config_is = refl;
    file_meta_is = refl;
    segment_meta_is = refl;
    total_k = refl;
    source_plan = refl;
    at_start = (refl, refl, refl);
  }

  new_inner-IsNew :
      (payload : List ℕ) (session_id : ℕ) (config : SenderConfig) (file_meta : FileMeta)
      (segment_meta : Option SegmentMeta) (s : SenderSession E)
      → new_inner crc rq payload session_id config file_meta segment_meta ≡ ok s
      → IsNew payload session_id config file_meta segment_meta s
  unfolding new_inner
  new_inner-IsNew payload session_id config file_meta segment_meta s e =
      let (valid, e) = >>-eq-ok (validate config) _ e in
      let (encoder, made, e) =
        >>=-eq-ok
          (map_err raptorq (Encoder.new rq (pad_to_symbols payload config.codec) config.codec)) _
          e in
      let (announced, built, e) =
        >>=-eq-ok (build_payload_inner encoder.meta file_meta segment_meta) _ e in
      subst (IsNew payload session_id config file_meta segment_meta) (ok-injective e) (
        fresh-IsNew payload session_id config file_meta segment_meta encoder
          (map_err-eq-ok raptorq _ made))

  pub new-IsNew :
      (payload : List ℕ) (session_id : ℕ) (config : SenderConfig) (file_meta : FileMeta)
      (s : SenderSession E)
      → new crc rq payload session_id config file_meta ≡ ok s
      → IsNew payload session_id config file_meta none s
  unfolding new
  new-IsNew payload session_id config file_meta s e =
      new_inner-IsNew payload session_id config file_meta none s e

  pub new_segment-IsNew :
      (payload : List ℕ) (session_id : ℕ) (config : SenderConfig) (file_meta : FileMeta)
      (segment_meta : SegmentMeta) (s : SenderSession E)
      → new_segment crc rq payload session_id config file_meta segment_meta ≡ ok s
      → IsNew payload session_id config file_meta (some segment_meta) s
  unfolding new_segment
  new_segment-IsNew payload session_id config file_meta segment_meta s e =
      let (sized, e) = reject_if-eq-ok _ _ _ e in
      let (valid, e) = >>-eq-ok (map_err invalid_segment _) _ e in
      new_inner-IsNew payload session_id config file_meta (some segment_meta) s e
