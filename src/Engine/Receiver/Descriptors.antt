-- ===== src/Engine/Receiver/Descriptors.antt =====
-- The descriptor of a session over a run (`ingest` of core/transfer-engine/src/receiver.rs).
use air_ferry.Prelude.{
  ℕ, ◌≡◌, refl, ◌∙◌, inl, inr, true, leb, ◌==◌, List, [], ◌∷◌, length, Option, none, some,
  Bool-cases, Result, ok, err, arith,
}
use air_ferry.Protocol.Frame.{Frame}
use air_ferry.Codec.Raptorq.{Oti, BlockDecoding}
use air_ferry.Codec.Symbol
use air_ferry.Codec.Meta.{ObjectMeta, SourceBlockMeta}
use air_ferry.Codec.Decoder.{Decoder, add_symbol}
use air_ferry.Engine.Errors.{Error}
use air_ferry.Engine.Descriptor.{DescriptorInfo}
use air_ferry.Engine.Descriptor.Parse.{parse_payload}
use air_ferry.Engine.Receiver.{
  ReceiverSession, Cached, count_corrupt, count_duplicate, is_complete, contains_key,
  pre_meta_cache_max,
}
use air_ferry.Engine.Receiver.Replay.{
  feed_decoder, note_symbol, has_symbol, refreshed, refresh_decoded_counts,
}
use air_ferry.Engine.Receiver.Ingest.{
  ingest, ingest_descriptor, ingest_parsed, ingest_symbol, buffer, cache_symbol, count_cached,
  take_symbol, end_symbol, count_symbol, blocks, is_misfit, answer, accept, repeats, is_rejected,
  mismatch, see_frame, is_descriptor,
}
use air_ferry.Engine.Receiver.Run.{ingest_all}

module _ {D : Type 0} where
  -- The second session has the identity and the descriptor of the first.
  pub record Same (s t : ReceiverSession D) : Type 0 where
    pub session_id : t.session_id ≡ s.session_id
    pub seen : t.descriptor_seen ≡ s.descriptor_seen
    pub meta : t.meta ≡ s.meta
    pub file_meta : t.file_meta ≡ s.file_meta
    pub segment_meta : t.segment_meta ≡ s.segment_meta

  Same-refl : (s : ReceiverSession D) → Same s s
  Same-refl s = record {
    session_id = refl;
    seen = refl;
    meta = refl;
    file_meta = refl;
    segment_meta = refl;
  }

  Same-trans : (s t u : ReceiverSession D) → Same s t → Same t u → Same s u
  Same-trans s t u p q = record {
    session_id = q.session_id ∙ p.session_id;
    seen = q.seen ∙ p.seen;
    meta = q.meta ∙ p.meta;
    file_meta = q.file_meta ∙ p.file_meta;
    segment_meta = q.segment_meta ∙ p.segment_meta;
  }

  count_corrupt-Same : (s : ReceiverSession D) → Same s (count_corrupt s)
  unfolding count_corrupt
  count_corrupt-Same s = record {
    session_id = refl;
    seen = refl;
    meta = refl;
    file_meta = refl;
    segment_meta = refl;
  }

  count_duplicate-Same : (s : ReceiverSession D) → Same s (count_duplicate s)
  unfolding count_duplicate
  count_duplicate-Same s = record {
    session_id = refl;
    seen = refl;
    meta = refl;
    file_meta = refl;
    segment_meta = refl;
  }

  see_frame-Same : (s : ReceiverSession D) → Same s (see_frame s)
  unfolding see_frame
  see_frame-Same s = record {
    session_id = refl;
    seen = refl;
    meta = refl;
    file_meta = refl;
    segment_meta = refl;
  }

  mismatch-Same : (s : ReceiverSession D) → Same s (mismatch s)
  unfolding mismatch
  mismatch-Same s = record {
    session_id = refl;
    seen = refl;
    meta = refl;
    file_meta = refl;
    segment_meta = refl;
  }

  noted-Same :
      (s : ReceiverSession D) (b : List SourceBlockMeta) (sbn esi : ℕ)
      → Same s (count_symbol (note_symbol s b sbn esi))
  unfolding count_symbol note_symbol
  noted-Same s b sbn esi = record {
    session_id = refl;
    seen = refl;
    meta = refl;
    file_meta = refl;
    segment_meta = refl;
  }

  refreshed-Same :
      (s : ReceiverSession D) (meta : Option ObjectMeta) (decoder : Option (Decoder D))
      → Same s (refreshed s meta decoder)
  unfolding refreshed
  refreshed-Same s none decoder = Same-refl s
  refreshed-Same s (some meta) none = Same-refl s
  refreshed-Same s (some meta) (some d) = record {
    session_id = refl;
    seen = refl;
    meta = refl;
    file_meta = refl;
    segment_meta = refl;
  }

  cache_symbol-Same : (s : ReceiverSession D) (frame : Frame) → Same s (cache_symbol s frame)
  unfolding cache_symbol
  cache_symbol-Same s frame =
      elim (Bool-cases (contains_key frame.header.sbn frame.header.esi s.symbol_cache)) [
        | inl held ↦ rw held (count_duplicate-Same s)
        | inr new ↦
            elim (Bool-cases
              (leb (pre_meta_cache_max frame.header.symbol_size) (length s.symbol_cache))) [
                | inl full ↦ rw (new, full) (count_corrupt-Same s)
                | inr room ↦
                    rw (new, room)
                      (record {
                        session_id = refl;
                        seen = refl;
                        meta = refl;
                        file_meta = refl;
                        segment_meta = refl;
                      })
              ]
      ]

  buffer-Same : (s : ReceiverSession D) (frame : Frame) → Same s (buffer s frame).0
  unfolding buffer count_cached
  buffer-Same s frame =
      let p =
        cache_symbol-Same (record s { pending_symbol_size = frame.header.symbol_size }) frame in
      record {
        session_id = p.session_id;
        seen = p.seen;
        meta = p.meta;
        file_meta = p.file_meta;
        segment_meta = p.segment_meta;
      }

module _ {D : Type 0} (oti : Oti) (rq : BlockDecoding D) (order : List Cached → List Cached) where
  feed_decoder-Same :
      (s t : ReceiverSession D) (symbol : Symbol.Symbol)
      → feed_decoder rq s symbol ≡ ok t
      → Same s t
  unfolding feed_decoder add_symbol
  feed_decoder-Same s t symbol e = record {
    session_id = ground arith;
    seen = ground arith;
    meta = ground arith;
    file_meta = ground arith;
    segment_meta = ground arith;
  }

  end_symbol-Same :
      (s : ReceiverSession D) (symbol : Symbol.Symbol) (r : Result Error (ReceiverSession D))
      → feed_decoder rq s symbol ≡ r
      → Same s (end_symbol rq s r).0
  unfolding end_symbol answer refresh_decoded_counts
  end_symbol-Same s symbol (err e) fed = Same-refl s
  end_symbol-Same s symbol (ok t) fed =
      Same-trans s t _ (feed_decoder-Same s t symbol fed) (refreshed-Same t t.meta t.decoder)

  ingest_symbol-Same : (s : ReceiverSession D) (frame : Frame) → Same s (ingest_symbol rq s frame).0
  unfolding ingest_symbol answer take_symbol
  ingest_symbol-Same s frame = elim (Bool-cases (is_misfit s frame)) [
    | inl bad ↦ rw bad (count_corrupt-Same s)
    | inr fits ↦ elim (Bool-cases (is_complete s)) [
      | inl done ↦ rw (fits, done) (count_duplicate-Same s)
      | inr more ↦ elim (Bool-cases (has_symbol s frame.header.sbn frame.header.esi)) [
        | inl held ↦ rw (fits, more, held) (count_duplicate-Same s)
        | inr new ↦
            rw (fits, more, new)
              (Same-trans s _ _ (noted-Same s (blocks s) frame.header.sbn frame.header.esi) (
                end_symbol-Same _ (Symbol.new frame.header.sbn frame.header.esi frame.payload) _
                  refl))
      ]
    ]
  ]

  accept-Same :
      (s : ReceiverSession D) (info : DescriptorInfo)
      → s.descriptor_seen ≡ true
      → Same s (accept oti rq order s info).0
  unfolding accept answer
  accept-Same s info seen = elim (Bool-cases (repeats s info)) [
    | inl same ↦ simp (seen, same) (Same-refl s)
    | inr other ↦ simp (seen, other) (count_corrupt-Same s)
  ]

  ingest_parsed-Same :
      (s : ReceiverSession D) (frame : Frame) (info : Option DescriptorInfo)
      → s.descriptor_seen ≡ true
      → Same s (ingest_parsed oti rq order s frame info).0
  unfolding ingest_parsed answer
  ingest_parsed-Same s frame none seen = count_corrupt-Same s
  ingest_parsed-Same s frame (some info) seen =
      elim (Bool-cases (is_rejected oti rq order frame info)) [
        | inl bad ↦ rw bad (count_corrupt-Same s)
        | inr good ↦ rw good (accept-Same s info seen)
      ]

  ingest-Same :
      (s : ReceiverSession D) (frame : Frame)
      → s.descriptor_seen ≡ true
      → Same s (ingest oti rq order s frame).0
  unfolding ingest ingest_descriptor
  ingest-Same s frame seen =
      let started = see_frame-Same s in
      elim (Bool-cases (frame.header.session_id == s.session_id)) [
        | inr foreign ↦ simp foreign (mismatch-Same s)
        | inl own ↦ elim (Bool-cases (is_descriptor frame)) [
          | inl descriptor ↦
              simp (own, descriptor)
                (Same-trans s _ _ started (
                  ingest_parsed-Same (see_frame s) frame (parse_payload frame.payload)
                    (started.seen ∙ seen)))
          | inr plain ↦ elim (Bool-cases s.meta_confirmed) [
            | inl confirmed ↦
                simp (own, plain, confirmed)
                  (Same-trans s _ _ started (ingest_symbol-Same (see_frame s) frame))
            | inr unknown ↦
                simp (own, plain, unknown)
                  (Same-trans s _ _ started (buffer-Same (see_frame s) frame))
          ]
        ]
      ]

  -- Once a session has accepted a descriptor, no sequence of frames changes its object metadata, its file
  -- metadata or its segment.
  pub ingest_all-Same :
      (s : ReceiverSession D) (frames : List Frame)
      → s.descriptor_seen ≡ true
      → Same s (ingest_all oti rq order s frames)
  unfolding ingest_all
  ingest_all-Same s [] seen = Same-refl s
  ingest_all-Same s (frame ∷ frames) seen =
      let one = ingest-Same s frame seen in
      Same-trans s _ _ one
        (ingest_all-Same (ingest oti rq order s frame).0 frames (one.seen ∙ seen))
