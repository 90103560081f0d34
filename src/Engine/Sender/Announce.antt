-- ===== src/Engine/Sender/Announce.antt =====
-- The descriptor frames of a session (core/transfer-engine/src/sender.rs).
use air_ferry.Prelude.{
  ℕ, ◌+◌, ◌%◌, ◌^◌, ◌≡◌, refl, subst, inl, inr, true, length, Option, some, Result, ok, err,
  Bool-cases, arith,
}
use air_ferry.Protocol.Checksum.{Checksum}
use air_ferry.Protocol.Frame.{Frame, build, flag_descriptor}
use air_ferry.Codec.Raptorq.{BlockEncoding}
use air_ferry.Codec.Meta.{ObjectMeta, total_symbols}
use air_ferry.Codec.Encoder.{is_empty}
use air_ferry.Engine.Errors.{Error}
use air_ferry.Engine.FileMeta.{FileMeta}
use air_ferry.Engine.Segment.{SegmentMeta}
use air_ferry.Engine.Descriptor.{filename_len, DescriptorInfo}
use air_ferry.Engine.Descriptor.Parse.{parse_payload}
use air_ferry.Engine.Descriptor.Blocks.{FileIsWords, OptionIsWords, as_parsed}
use air_ferry.Engine.Descriptor.RoundTrip.{MetaIsWords, parse_payload-build_payload}
use air_ferry.Engine.Sender.{
  SenderSession, next_frame, emit_descriptor, emit_built, descriptor, start_clock, advance_index,
  is_descriptor_turn,
}
use air_ferry.Engine.Sender.Frames.{descriptor-IsDescriptorOf}

-- What a receiver reads of an announcement.
abbrev pub announcement : ObjectMeta → FileMeta → Option SegmentMeta → DescriptorInfo
announcement meta file_meta segment = record {
  meta = meta;
  file_meta = as_parsed file_meta (filename_len meta file_meta segment);
  segment = segment;
}

-- A descriptor frame with the index `index`, of a session with that id and that metadata.
pub record Announces (session_id : ℕ) (meta : ObjectMeta) (file_meta : FileMeta)
    (segment : Option SegmentMeta) (index : ℕ) (f : Frame) : Type 0 where
  pub flags : f.header.flags ≡ flag_descriptor
  pub id : f.header.session_id ≡ session_id
  pub frame_index : f.header.frame_index ≡ index
  pub blocks : f.header.total_blocks ≡ length meta.blocks % 2 ^ 32
  pub symbols : f.header.total_symbols ≡ total_symbols meta.blocks
  pub symbol_size : f.header.symbol_size ≡ meta.symbol_size
  pub sized : length f.payload ≡ meta.symbol_size
  pub parsed : parse_payload f.payload ≡ some (announcement meta file_meta segment)

abbrev pub AnnouncesSession : {E : Type 0} → SenderSession E → ℕ → Frame → Type 0
AnnouncesSession s index f = Announces s.session_id s.meta s.file_meta s.segment_meta index f

module _ {E : Type 0} (crc : Checksum) (rq : BlockEncoding E) where
  announce :
      (s : SenderSession E) (now_ms : ℕ) (f : Frame)
      → MetaIsWords s.meta
      → FileIsWords s.file_meta
      → OptionIsWords s.segment_meta
      → descriptor crc rq s now_ms ≡ ok f
      → AnnouncesSession s s.frame_index f
  unfolding build
  announce s now_ms f m fm sm e =
      let (payload, built, same) = descriptor-IsDescriptorOf crc rq s now_ms f e in
      let (sized, parsed) =
        parse_payload-build_payload s.meta s.file_meta s.segment_meta payload m fm sm built in
      subst (AnnouncesSession s s.frame_index) same (record {
        flags = refl;
        id = refl;
        frame_index = refl;
        blocks = refl;
        symbols = refl;
        symbol_size = refl;
        sized = sized;
        parsed = parsed;
      })

  emit_built-ok :
      (s t : SenderSession E) (sent_ms : ℕ) (r : Result Error Frame) (f : Frame)
      → (emit_built crc rq s sent_ms r).1 ≡ ok f
      → r ≡ ok f
  unfolding emit_built
  emit_built-ok s t sent_ms (err e) f same = cc
  emit_built-ok s t sent_ms (ok g) f same = same

  -- The clock and the index are no part of what is announced.
  started-Announces :
      (s : SenderSession E) (start_ms index : ℕ) (f : Frame)
      → AnnouncesSession (advance_index (start_clock s start_ms)) index f
      → AnnouncesSession s index f
  unfolding advance_index start_clock
  started-Announces s start_ms index f a = elim (Bool-cases s.started) [
    | inl on ↦ rw on at a
    | inr off ↦ rw off at a
  ]

  started_words :
      (s : SenderSession E) (start_ms : ℕ)
      → MetaIsWords s.meta × FileIsWords s.file_meta × OptionIsWords s.segment_meta
      → MetaIsWords (advance_index (start_clock s start_ms)).meta
        × FileIsWords (advance_index (start_clock s start_ms)).file_meta
        × OptionIsWords (advance_index (start_clock s start_ms)).segment_meta
  unfolding advance_index start_clock
  started_words s start_ms words = elim (Bool-cases s.started) [
    | inl on ↦ rw on words
    | inr off ↦ rw off words
  ]

  same_index :
      (s : SenderSession E) (start_ms : ℕ)
      → (advance_index (start_clock s start_ms)).frame_index ≡ (s.frame_index + 1) % 2 ^ 64
  unfolding advance_index start_clock
  same_index s start_ms = elim (Bool-cases s.started) [ inl on ↦ rw on | inr off ↦ rw off ]

  -- On a descriptor turn of a session whose fields fit their types, a frame that is emitted is a descriptor
  -- with the next index, under the session's id, and its payload is parsed to the session's metadata with
  -- the file's name cut at a character and both flags, that the compressed size and the CRC-32 are known,
  -- set to true.
  pub next_frame-Announces :
      (s : SenderSession E) (start_ms now_ms sent_ms : ℕ) (f : Frame)
      → MetaIsWords s.meta
      → FileIsWords s.file_meta
      → OptionIsWords s.segment_meta
      → is_descriptor_turn s ≡ true
      → (next_frame crc rq s start_ms now_ms sent_ms).1 ≡ ok f
      → AnnouncesSession s ((s.frame_index + 1) % 2 ^ 64) f
  unfolding next_frame emit_descriptor
  next_frame-Announces s start_ms now_ms sent_ms f m fm sm turn e =
      elim (Bool-cases (is_empty s.source_plan)) [
        | inl empty ↦ ground (arith, empty)
        | inr planned ↦
            let u : SenderSession E = advance_index (start_clock s start_ms) in
            let built : descriptor crc rq u now_ms ≡ ok f =
              emit_built-ok u u sent_ms (descriptor crc rq u now_ms) f (rw (planned, turn) at e) in
            let (mu, fu, su) = started_words s start_ms (m, fm, sm) in
            subst (λ (n : ℕ). AnnouncesSession s n f) (same_index s start_ms)
              (started-Announces s start_ms u.frame_index f (announce u now_ms f mu fu su built))
      ]
