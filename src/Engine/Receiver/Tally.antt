-- ===== src/Engine/Receiver/Tally.antt =====
-- The count of received symbols over a whole run of `ingest` (core/transfer-engine/src/receiver.rs).
use air_ferry.Prelude.{
  ℕ, ◌≡◌, refl, ◌∙◌, inl, inr, true, false, leb, ◌==◌, List, [], ◌∷◌, length, Option, none, some,
  Bool-cases, Result, ok, err, arith,
}
use air_ferry.Protocol.Frame.{Frame}
use air_ferry.Codec.Raptorq.{Oti, BlockDecoding}
use air_ferry.Codec.Errors as CodecErrors
use air_ferry.Codec.Symbol
use air_ferry.Codec.Meta.{ObjectMeta}
use air_ferry.Codec.Decoder
use air_ferry.Codec.Decoder.{Decoder, add_symbol}
use air_ferry.Engine.Errors.{Error}
use air_ferry.Engine.Descriptor.{DescriptorInfo}
use air_ferry.Engine.Descriptor.Parse.{parse_payload}
use air_ferry.Engine.Equality.{meta_eq}
use air_ferry.Engine.Receiver.{
  ReceiverSession, Cached, build, new_pending, count_corrupt, count_duplicate, is_complete,
  contains_key, pre_meta_cache_max,
}
use air_ferry.Engine.Receiver.Replay.{
  apply_decoder, apply_meta, feed_decoder, note_symbol, has_symbol, refreshed,
  refresh_decoded_counts,
}
use air_ferry.Engine.Receiver.Ingest.{
  ingest, ingest_descriptor, ingest_parsed, ingest_symbol, buffer, cache_symbol, count_cached,
  take_symbol, end_symbol, count_symbol, is_misfit, answer, accept, accept_first, confirm,
  confirm_applied, repeats, is_rejected, mismatch, see_frame, is_descriptor,
}
use air_ferry.Engine.Receiver.Run.{ingest_all}
use air_ferry.Engine.Receiver.Counters.{Counted, ingest_symbol-Counted}
use air_ferry.Engine.Receiver.Replayed.{apply_decoder-Counted}

module _ {D : Type 0} where
  -- Without a confirmed descriptor there is no metadata; with one, the symbols are counted.
  data Tallied (s : ReceiverSession D) : Type 0 where
    pending : s.meta_confirmed ≡ false → s.meta ≡ none → Tallied s
    confirmed : s.meta_confirmed ≡ true → Counted s → Tallied s

  -- What a step that only touches other fields keeps.
  Tallied-same :
      (s t : ReceiverSession D)
      → t.meta_confirmed ≡ s.meta_confirmed
      → t.meta ≡ s.meta
      → t.received ≡ s.received
      → t.progress.received_symbols ≡ s.progress.received_symbols
      → Tallied s
      → Tallied t
  Tallied-same s t same meta received count (pending unknown no_meta) =
      pending (same ∙ unknown) (meta ∙ no_meta)
  Tallied-same s t same meta received count (confirmed known (counted, sets)) =
      confirmed (same ∙ known) (rw (count, received) counted, rw received sets)

  count_corrupt-Tallied : (s : ReceiverSession D) → Tallied s → Tallied (count_corrupt s)
  unfolding count_corrupt
  count_corrupt-Tallied s h = Tallied-same s _ refl refl refl refl h

  see_frame-Tallied : (s : ReceiverSession D) → Tallied s → Tallied (see_frame s)
  unfolding see_frame
  see_frame-Tallied s h = Tallied-same s _ refl refl refl refl h

  mismatch-Tallied : (s : ReceiverSession D) → Tallied s → Tallied (mismatch s)
  unfolding mismatch
  mismatch-Tallied s h = Tallied-same s _ refl refl refl refl h

  Tallied-Counted : (s : ReceiverSession D) → s.meta_confirmed ≡ true → Tallied s → Counted s
  Tallied-Counted s known (pending unknown no_meta) = cc
  Tallied-Counted s known (confirmed y c) = c

  -- A session with metadata has its symbols counted, and a new descriptor changes neither.
  confirm-Tallied :
      (s : ReceiverSession D) (info : DescriptorInfo) → Counted s → Tallied (confirm s info)
  unfolding confirm
  confirm-Tallied s info c = confirmed refl c

  meta-Counted : (s : ReceiverSession D) (m : ObjectMeta) → s.meta ≡ some m → Tallied s → Counted s
  meta-Counted s m e (pending unknown no_meta) = cc
  meta-Counted s m e (confirmed known c) = c

  Unconfirmed : ReceiverSession D → Type 0
  Unconfirmed s = (s.meta_confirmed ≡ false) × (s.meta ≡ none)

  Tallied-Unconfirmed :
      (s : ReceiverSession D) → s.meta_confirmed ≡ false → Tallied s → Unconfirmed s
  unfolding Unconfirmed
  Tallied-Unconfirmed s unknown (pending n m) = (n, m)
  Tallied-Unconfirmed s unknown (confirmed known c) = cc

  cache_symbol-Unconfirmed :
      (s : ReceiverSession D) (frame : Frame) → Unconfirmed s → Unconfirmed (cache_symbol s frame)
  unfolding cache_symbol Unconfirmed count_duplicate count_corrupt
  cache_symbol-Unconfirmed s frame h =
      elim (Bool-cases (contains_key frame.header.sbn frame.header.esi s.symbol_cache)) [
        | inl held ↦ rw held h
        | inr new ↦
            elim (Bool-cases
              (leb (pre_meta_cache_max frame.header.symbol_size) (length s.symbol_cache))) [
                | inl full ↦ rw (new, full) h
                | inr room ↦ rw (new, room) h
              ]
      ]

  buffer-Tallied :
      (s : ReceiverSession D) (frame : Frame)
      → s.meta_confirmed ≡ false
      → Tallied s
      → Tallied (buffer s frame).0
  unfolding buffer count_cached Unconfirmed
  buffer-Tallied s frame unknown h =
      let (n, m) =
        cache_symbol-Unconfirmed (record s { pending_symbol_size = frame.header.symbol_size }) frame
          (Tallied-Unconfirmed s unknown h) in
      pending n m

  refreshed-confirmed :
      (s : ReceiverSession D) (meta : Option ObjectMeta) (decoder : Option (Decoder D))
      → (refreshed s meta decoder).meta_confirmed ≡ s.meta_confirmed
  unfolding refreshed
  refreshed-confirmed s none decoder = refl
  refreshed-confirmed s (some meta) none = refl
  refreshed-confirmed s (some meta) (some d) = refl

module _ {D : Type 0} (rq : BlockDecoding D) where
  feed_decoder-confirmed :
      (s t : ReceiverSession D) (symbol : Symbol.Symbol)
      → feed_decoder rq s symbol ≡ ok t
      → t.meta_confirmed ≡ s.meta_confirmed
  unfolding feed_decoder add_symbol
  feed_decoder-confirmed s t symbol e = ground arith

  end_symbol-confirmed :
      (s : ReceiverSession D) (symbol : Symbol.Symbol) (r : Result Error (ReceiverSession D))
      → feed_decoder rq s symbol ≡ r
      → (end_symbol rq s r).0.meta_confirmed ≡ s.meta_confirmed
  unfolding end_symbol answer refresh_decoded_counts
  end_symbol-confirmed s symbol (err e) fed = refl
  end_symbol-confirmed s symbol (ok t) fed =
      refreshed-confirmed t t.meta t.decoder ∙ feed_decoder-confirmed s t symbol fed

  ingest_symbol-confirmed :
      (s : ReceiverSession D) (frame : Frame)
      → (ingest_symbol rq s frame).0.meta_confirmed ≡ s.meta_confirmed
  unfolding ingest_symbol answer take_symbol count_corrupt count_duplicate count_symbol note_symbol
  ingest_symbol-confirmed s frame = elim (Bool-cases (is_misfit s frame)) [
    | inl bad ↦ rw bad refl
    | inr fits ↦ elim (Bool-cases (is_complete s)) [
      | inl done ↦ rw (fits, done) refl
      | inr more ↦ elim (Bool-cases (has_symbol s frame.header.sbn frame.header.esi)) [
        | inl held ↦ rw (fits, more, held) refl
        | inr new ↦
            rw (fits, more, new)
              (end_symbol-confirmed _ (Symbol.new frame.header.sbn frame.header.esi frame.payload) _
                refl)
      ]
    ]
  ]

  ingest_symbol-Tallied :
      (s : ReceiverSession D) (frame : Frame)
      → s.meta_confirmed ≡ true
      → Tallied s
      → Tallied (ingest_symbol rq s frame).0
  ingest_symbol-Tallied s frame known h =
      confirmed (ingest_symbol-confirmed s frame ∙ known)
        (ingest_symbol-Counted rq s frame (Tallied-Counted s known h))

module _ {D : Type 0} (oti : Oti) (rq : BlockDecoding D) (order : List Cached → List Cached) where
  apply_decoder-Tallied :
      (s : ReceiverSession D) (info : DescriptorInfo) (r : Result CodecErrors.Error (Decoder D))
      → Decoder.new oti rq info.meta ≡ r
      → Tallied s
      → Tallied (confirm_applied oti rq order (apply_decoder oti rq order s info.meta r) info).0
  unfolding confirm_applied answer
  apply_decoder-Tallied s info (err e) same h = unfold apply_decoder in h
  apply_decoder-Tallied s info (ok d) same h =
      let (t, applied, c, m) = apply_decoder-Counted rq oti order s info.meta d same in
      rw applied (confirm-Tallied t info c)

  accept_first-Tallied :
      (s : ReceiverSession D) (info : DescriptorInfo) (meta : Option ObjectMeta)
      → s.meta ≡ meta
      → Tallied s
      → Tallied (accept_first oti rq order s info meta).0
  unfolding accept_first answer apply_meta
  accept_first-Tallied s info none e h = apply_decoder-Tallied s info _ refl h
  accept_first-Tallied s info (some cur) e h = elim (Bool-cases (meta_eq cur info.meta)) [
    | inl same ↦ rw same (confirm-Tallied s info (meta-Counted s cur e h))
    | inr other ↦ rw other (count_corrupt-Tallied s h)
  ]

  accept-Tallied :
      (s : ReceiverSession D) (info : DescriptorInfo)
      → Tallied s
      → Tallied (accept oti rq order s info).0
  unfolding accept answer
  accept-Tallied s info h = elim (Bool-cases s.descriptor_seen) [
    | inr first ↦ simp first (accept_first-Tallied s info s.meta refl h)
    | inl seen ↦ elim (Bool-cases (repeats s info)) [
      | inl same ↦ simp (seen, same) h
      | inr other ↦ simp (seen, other) (count_corrupt-Tallied s h)
    ]
  ]

  ingest_parsed-Tallied :
      (s : ReceiverSession D) (frame : Frame) (info : Option DescriptorInfo)
      → Tallied s
      → Tallied (ingest_parsed oti rq order s frame info).0
  unfolding ingest_parsed answer
  ingest_parsed-Tallied s frame none h = count_corrupt-Tallied s h
  ingest_parsed-Tallied s frame (some info) h =
      elim (Bool-cases (is_rejected oti rq order frame info)) [
        | inl bad ↦ rw bad (count_corrupt-Tallied s h)
        | inr good ↦ rw good (accept-Tallied s info h)
      ]

  ingest-Tallied :
      (s : ReceiverSession D) (frame : Frame) → Tallied s → Tallied (ingest oti rq order s frame).0
  unfolding ingest ingest_descriptor
  ingest-Tallied s frame h =
      let seen = see_frame-Tallied s h in
      elim (Bool-cases (frame.header.session_id == s.session_id)) [
        | inr foreign ↦ simp foreign (mismatch-Tallied s h)
        | inl own ↦ elim (Bool-cases (is_descriptor frame)) [
          | inl descriptor ↦
              simp (own, descriptor)
                (ingest_parsed-Tallied (see_frame s) frame (parse_payload frame.payload) seen)
          | inr plain ↦ elim (Bool-cases s.meta_confirmed) [
            | inl known ↦
                simp (own, plain, known)
                  (ingest_symbol-Tallied rq (see_frame s) frame (unfold see_frame in known) seen)
            | inr unknown ↦
                simp (own, plain, unknown)
                  (buffer-Tallied (see_frame s) frame (unfold see_frame in unknown) seen)
          ]
        ]
      ]

  ingest_all-Tallied :
      (s : ReceiverSession D) (frames : List Frame)
      → Tallied s
      → Tallied (ingest_all oti rq order s frames)
  unfolding ingest_all
  ingest_all-Tallied s [] h = h
  ingest_all-Tallied s (frame ∷ frames) h =
      ingest_all-Tallied (ingest oti rq order s frame).0 frames (ingest-Tallied s frame h)

  new_pending-Tallied : (session_id : ℕ) → Tallied (new_pending {D = D} session_id)
  unfolding new_pending build
  new_pending-Tallied session_id = pending refl refl

  -- Whatever frames a fresh receiver has seen, once a descriptor is confirmed the number of received symbols
  -- is the number of ids in the blocks' sets, in 32 bits, and no set holds an id twice.
  pub ingest_all-Counted :
      (session_id : ℕ) (frames : List Frame)
      → (ingest_all oti rq order (new_pending session_id) frames).meta_confirmed ≡ true
      → Counted (ingest_all oti rq order (new_pending session_id) frames)
  ingest_all-Counted session_id frames known =
      Tallied-Counted (ingest_all oti rq order (new_pending session_id) frames) known
        (ingest_all-Tallied (new_pending session_id) frames (new_pending-Tallied session_id))
