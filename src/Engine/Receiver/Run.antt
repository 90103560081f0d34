-- ===== src/Engine/Receiver/Run.antt =====
-- What holds of a session after any sequence of frames.
use air_ferry.Prelude.{
  ℕ, ◌≡◌, refl, sym, ap, subst, ◌∙◌, inl, inr, leb, ◌==◌, List, [], ◌∷◌, length, Option, none, some,
  some_inj, Bool-cases, Result, ok, err, map_err-eq-ok, >>-eq-ok, map_err, arith,
}
use air_ferry.Protocol.Frame.{Frame}
use air_ferry.Codec.Raptorq.{Oti, BlockDecoding, IsSizing}
use air_ferry.Codec.Errors as CodecErrors
use air_ferry.Codec.Symbol
use air_ferry.Codec.Meta
use air_ferry.Codec.Meta.{ObjectMeta, SourceBlockMeta}
use air_ferry.Codec.Meta.Gate.{IsValid, validate_iff}
use air_ferry.Codec.Decoder
use air_ferry.Codec.Decoder.{Decoder}
use air_ferry.Codec.Decoder.Sizes.{length-assemble}
use air_ferry.Engine.Errors.{Error}
use air_ferry.Engine.Descriptor.{DescriptorInfo}
use air_ferry.Engine.Descriptor.Parse.{parse_payload}
use air_ferry.Engine.Equality.{meta_eq}
use air_ferry.Engine.Receiver.{
  ReceiverSession, Cached, build, new_pending, count_duplicate, is_complete, contains_key,
  pre_meta_cache_max,
}
use air_ferry.Engine.Receiver.Replay.{feed_decoder, note_symbol, has_symbol}
use air_ferry.Engine.Receiver.Ingest.{
  ingest, ingest_descriptor, ingest_parsed, ingest_symbol, buffer, cache_symbol, count_cached,
  take_symbol, end_symbol, count_symbol, blocks, is_misfit, answer, accept, accept_first, confirm,
  confirm_applied, repeats, is_rejected, mismatch, see_frame, is_descriptor,
}
use air_ferry.Engine.Receiver.Finish.{assemble_raw}
use air_ferry.Engine.Receiver.Decoding.{
  Sound, waiting, live, Sound-same, feed_decoder-Sound, note_symbol-Sound, refresh-Sound,
  count_corrupt-Sound, apply_meta-Sound,
}

module _ {D : Type 0} (oti : Oti) (rq : BlockDecoding D) where
  count_duplicate-Sound :
      (s : ReceiverSession D) → Sound oti rq s → Sound oti rq (count_duplicate s)
  unfolding count_duplicate
  count_duplicate-Sound s h = Sound-same oti rq s _ refl refl refl h

  cache_symbol-Sound :
      (s : ReceiverSession D) (frame : Frame) → Sound oti rq s → Sound oti rq (cache_symbol s frame)
  unfolding cache_symbol
  cache_symbol-Sound s frame h =
      elim (Bool-cases (contains_key frame.header.sbn frame.header.esi s.symbol_cache)) [
        | inl held ↦ rw held (count_duplicate-Sound s h)
        | inr new ↦
            elim (Bool-cases
              (leb (pre_meta_cache_max frame.header.symbol_size) (length s.symbol_cache))) [
                | inl full ↦ rw (new, full) (count_corrupt-Sound oti rq s h)
                | inr room ↦ rw (new, room) (Sound-same oti rq s _ refl refl refl h)
              ]
      ]

  buffer-Sound :
      (s : ReceiverSession D) (frame : Frame) → Sound oti rq s → Sound oti rq (buffer s frame).0
  unfolding buffer count_cached
  buffer-Sound s frame h =
      Sound-same oti rq
        (cache_symbol (record s { pending_symbol_size = frame.header.symbol_size }) frame) _ refl
        refl refl (cache_symbol-Sound _ frame (Sound-same oti rq s _ refl refl refl h))

  end_symbol-Sound :
      (s : ReceiverSession D) (symbol : Symbol.Symbol) (r : Result Error (ReceiverSession D))
      → feed_decoder rq s symbol ≡ r
      → Sound oti rq s
      → Sound oti rq (end_symbol rq s r).0
  unfolding end_symbol answer
  end_symbol-Sound s symbol (err e) same h = h
  end_symbol-Sound s symbol (ok t) same h =
      refresh-Sound oti rq t (feed_decoder-Sound oti rq s t symbol h same)

  take_symbol-Sound :
      (s : ReceiverSession D) (frame : Frame)
      → Sound oti rq s
      → Sound oti rq (take_symbol rq s frame).0
  unfolding take_symbol count_symbol
  take_symbol-Sound s frame h =
      end_symbol-Sound _ (Symbol.new frame.header.sbn frame.header.esi frame.payload) _ refl (
        Sound-same oti rq (note_symbol s (blocks s) frame.header.sbn frame.header.esi) _ refl refl
          refl (note_symbol-Sound oti rq s (blocks s) frame.header.sbn frame.header.esi h))

  ingest_symbol-Sound :
      (s : ReceiverSession D) (frame : Frame)
      → Sound oti rq s
      → Sound oti rq (ingest_symbol rq s frame).0
  unfolding ingest_symbol answer
  ingest_symbol-Sound s frame h = elim (Bool-cases (is_misfit s frame)) [
    | inl bad ↦ rw bad (count_corrupt-Sound oti rq s h)
    | inr fits ↦ elim (Bool-cases (is_complete s)) [
      | inl done ↦ rw (fits, done) (count_duplicate-Sound s h)
      | inr more ↦ elim (Bool-cases (has_symbol s frame.header.sbn frame.header.esi)) [
        | inl held ↦ rw (fits, more, held) (count_duplicate-Sound s h)
        | inr new ↦ rw (fits, more, new) (take_symbol-Sound s frame h)
      ]
    ]
  ]

  confirm-Sound :
      (s : ReceiverSession D) (info : DescriptorInfo)
      → Sound oti rq s
      → Sound oti rq (confirm s info)
  unfolding confirm
  confirm-Sound s info h = Sound-same oti rq s _ refl refl refl h

  see_frame-Sound : (s : ReceiverSession D) → Sound oti rq s → Sound oti rq (see_frame s)
  unfolding see_frame
  see_frame-Sound s h = Sound-same oti rq s _ refl refl refl h

  mismatch-Sound : (s : ReceiverSession D) → Sound oti rq s → Sound oti rq (mismatch s)
  unfolding mismatch
  mismatch-Sound s h = Sound-same oti rq s _ refl refl refl h

  module _ (order : List Cached → List Cached) where
    confirm_applied-Sound :
        (o : ReceiverSession D × Result Error (Unit {0})) (info : DescriptorInfo)
        → Sound oti rq o.0
        → Sound oti rq (confirm_applied oti rq order o info).0
    unfolding confirm_applied answer
    confirm_applied-Sound (s, err e) info h = h
    confirm_applied-Sound (s, ok u) info h = confirm-Sound s info h

    accept_first-Sound :
        (s : ReceiverSession D) (info : DescriptorInfo) (meta : Option ObjectMeta)
        → Sound oti rq s
        → Sound oti rq (accept_first oti rq order s info meta).0
    unfolding accept_first answer
    accept_first-Sound s info none h =
        confirm_applied-Sound _ info (apply_meta-Sound oti rq order s info.meta h)
    accept_first-Sound s info (some cur) h = elim (Bool-cases (meta_eq cur info.meta)) [
      | inl same ↦ rw same (confirm-Sound s info h)
      | inr other ↦ rw other (count_corrupt-Sound oti rq s h)
    ]

    accept-Sound :
        (s : ReceiverSession D) (info : DescriptorInfo)
        → Sound oti rq s
        → Sound oti rq (accept oti rq order s info).0
    unfolding accept answer
    accept-Sound s info h = elim (Bool-cases s.descriptor_seen) [
      | inr first ↦ simp first (accept_first-Sound s info s.meta h)
      | inl seen ↦ elim (Bool-cases (repeats s info)) [
        | inl same ↦ simp (seen, same) h
        | inr other ↦ simp (seen, other) (count_corrupt-Sound oti rq s h)
      ]
    ]

    ingest_parsed-Sound :
        (s : ReceiverSession D) (frame : Frame) (info : Option DescriptorInfo)
        → Sound oti rq s
        → Sound oti rq (ingest_parsed oti rq order s frame info).0
    unfolding ingest_parsed answer
    ingest_parsed-Sound s frame none h = count_corrupt-Sound oti rq s h
    ingest_parsed-Sound s frame (some info) h =
        elim (Bool-cases (is_rejected oti rq order frame info)) [
          | inl bad ↦ rw bad (count_corrupt-Sound oti rq s h)
          | inr good ↦ rw good (accept-Sound s info h)
        ]

    pub ingest-Sound :
        (s : ReceiverSession D) (frame : Frame)
        → Sound oti rq s
        → Sound oti rq (ingest oti rq order s frame).0
    unfolding ingest ingest_descriptor
    ingest-Sound s frame h =
        let seen = see_frame-Sound s h in
        elim (Bool-cases (frame.header.session_id == s.session_id)) [
          | inr foreign ↦ simp foreign (mismatch-Sound s h)
          | inl own ↦ elim (Bool-cases (is_descriptor frame)) [
            | inl descriptor ↦
                simp (own, descriptor)
                  (ingest_parsed-Sound (see_frame s) frame (parse_payload frame.payload) seen)
            | inr plain ↦ elim (Bool-cases s.meta_confirmed) [
              | inl confirmed ↦
                  simp (own, plain, confirmed) (ingest_symbol-Sound (see_frame s) frame seen)
              | inr unknown ↦ simp (own, plain, unknown) (buffer-Sound (see_frame s) frame seen)
            ]
          ]
        ]

    -- The session after a sequence of frames; the callers go on after an error.
    unfoldable pub ingest_all : ReceiverSession D → List Frame → ReceiverSession D
    ingest_all s [] = s
    ingest_all s (frame ∷ frames) = ingest_all (ingest oti rq order s frame).0 frames

    pub ingest_all-Sound :
        (s : ReceiverSession D) (frames : List Frame)
        → Sound oti rq s
        → Sound oti rq (ingest_all s frames)
    unfolding ingest_all
    ingest_all-Sound s [] h = h
    ingest_all-Sound s (frame ∷ frames) h =
        ingest_all-Sound (ingest oti rq order s frame).0 frames (ingest-Sound s frame h)

    pub new_pending-Sound : (session_id : ℕ) → Sound oti rq (new_pending session_id)
    unfolding new_pending build
    new_pending-Sound session_id = waiting refl refl

    started-IsValid : (m : ObjectMeta) (d : Decoder D) → Decoder.new oti rq m ≡ ok d → IsValid oti m
    unfolding Decoder.new
    started-IsValid m d e = (validate_iff oti m).0 (
        map_err-eq-ok CodecErrors.invalid_object_meta (Meta.validate oti m)
          (>>-eq-ok (map_err CodecErrors.invalid_object_meta (Meta.validate oti m)) _ e).0)

    -- Whatever frames a receiver has seen, the metadata that it works with passed the gate.
    pub ingest_all-IsValid :
        (session_id : ℕ) (frames : List Frame) (m : ObjectMeta)
        → (ingest_all (new_pending session_id) frames).meta ≡ some m
        → IsValid oti m
    ingest_all-IsValid session_id frames m e =
        of_sound (ingest_all (new_pending session_id) frames) m
          (ingest_all-Sound (new_pending session_id) frames (new_pending-Sound session_id)) e
      where
        of_sound :
            (s : ReceiverSession D) (m : ObjectMeta)
            → Sound oti rq s
            → s.meta ≡ some m
            → IsValid oti m
        of_sound s m (waiting no_meta no_decoder) e = cc
        of_sound s m (live n d l) e =
            subst (IsValid oti) (some_inj (sym l.meta_is ∙ e))
              (started-IsValid n l.fed.start l.fed.started)

    pub assembled :
        (law : IsSizing oti rq) (s : ReceiverSession D) (out : List ℕ)
        → Sound oti rq s
        → assemble_raw s ≡ some out
        → (m : ObjectMeta) × (s.meta ≡ some m) × (length out ≡ m.transfer_length)
    unfolding assemble_raw
    assembled law s out (waiting no_meta no_decoder) e = ground (arith, no_decoder)
    assembled law s out (live m d l) e = (
      m,
      l.meta_is,
      length-assemble oti rq law m l.fed.start l.fed.symbols out l.fed.started
          (ap Decoder.assemble l.fed.reached ∙ rw l.decoder_is at e),
    )

    -- Whatever frames a receiver has seen, hostile ones included, the object that it hands out has the
    -- length that its accepted descriptor declares. The crate's block decoders, started for whole symbols,
    -- return whole blocks.
    pub ingest_all-length :
        (law : IsSizing oti rq) (session_id : ℕ) (frames : List Frame) (out : List ℕ)
        → assemble_raw (ingest_all (new_pending session_id) frames) ≡ some out
        → (m : ObjectMeta) × ((ingest_all (new_pending session_id) frames).meta ≡ some m)
          × (length out ≡ m.transfer_length)
    ingest_all-length law session_id frames out e =
        assembled law (ingest_all (new_pending session_id) frames) out
          (ingest_all-Sound (new_pending session_id) frames (new_pending-Sound session_id)) e
