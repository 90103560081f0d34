-- ===== src/Engine/Receiver/Replayed.antt =====
-- The replay of the cache in `apply_meta` (core/transfer-engine/src/receiver.rs).
use air_ferry.Prelude.{
  ℕ, Option, none, some, zero, suc, ◌%◌, ◌^◌, ◌<◌, ◌≡◌, refl, sym, ap, ◌∙◌, inl, inr, Bool, false,
  ◌||◌, leb, List, [], ◌∷◌, length, get_elem?, get_or, set, replicate, length-set, length-replicate,
  some, Bool-cases, ok, ok-injective, >>-eq-ok, map_err, arith,
}
use air_ferry.Codec.Raptorq.{Oti, BlockDecoding}
use air_ferry.Codec.Errors as CodecErrors
use air_ferry.Codec.Symbol
use air_ferry.Codec.Meta
use air_ferry.Codec.Meta.{ObjectMeta, SourceBlockMeta}
use air_ferry.Codec.Decoder
use air_ferry.Codec.Decoder.{
  Decoder, BlockState, add_symbol, start_blocks, is_hostile, feed_block, is_complete,
}
use air_ferry.Engine.Receiver.{ReceiverSession, Cached, count_corrupt}
use air_ferry.Engine.Receiver.Replay.{
  count_received, feed_decoder, refreshed, note_symbol, has_symbol, is_stray, reset, replay_one,
  replay_fed, replay, unless_failed, recount, refresh_decoded_counts, finish_replay, apply_decoder,
}
use air_ferry.Engine.Receiver.Counters.{AllSets, AllSets-insert, Counted, refreshed-Counted}

in_range : {A : Type 0} (xs : List A) (i : ℕ) → i < length xs → (x : A) × (get_elem? xs i ≡ some x)
in_range [] i h = absurd (omega arith)
in_range (x ∷ xs) zero h = (x, refl)
in_range (x ∷ xs) (suc i) h = in_range xs i (omega arith)

AllSets-replicate : (n : ℕ) → AllSets (replicate n [])
AllSets-replicate zero = tt
AllSets-replicate (suc n) = (tt, AllSets-replicate n)

module _ {D : Type 0} where
  -- A session with that metadata, whose decoder has as many blocks as there are sets.
  record Steady (m : ObjectMeta) (s : ReceiverSession D) : Type 0 where
    meta_is : s.meta ≡ some m
    decoder : Decoder D
    decoder_is : s.decoder ≡ some decoder
    width : length decoder.blocks ≡ length s.received
    sets : AllSets s.received

  note_symbol-Steady :
      {m : ObjectMeta} (s : ReceiverSession D) (blocks : List SourceBlockMeta) (sbn esi : ℕ)
      → has_symbol s sbn esi ≡ false
      → Steady m s
      → Steady m (note_symbol s blocks sbn esi)
  unfolding note_symbol has_symbol
  note_symbol-Steady s blocks sbn esi new h = record {
    meta_is = h.meta_is;
    decoder = h.decoder;
    decoder_is = h.decoder_is;
    width = h.width ∙ sym (length-set s.received sbn (esi ∷ get_or s.received sbn []));
    sets = AllSets-insert s.received sbn esi h.sets new;
  }

  count_corrupt-Steady :
      {m : ObjectMeta} (s : ReceiverSession D) → Steady m s → Steady m (count_corrupt s)
  unfolding count_corrupt
  count_corrupt-Steady s h = record {
    meta_is = h.meta_is;
    decoder = h.decoder;
    decoder_is = h.decoder_is;
    width = h.width;
    sets = h.sets;
  }

  stray_bound :
      (s : ReceiverSession D) (meta : ObjectMeta) (c : Cached)
      → is_stray s meta c ≡ false
      → c.sbn < length s.received
  unfolding is_stray
  stray_bound s meta c fits = below (length s.received) c.sbn _ _ fits
    where
      below : (n sbn : ℕ) (a b : Bool) → ((leb n sbn || a) || b) ≡ false → sbn < n
      below n sbn a b fits = ground arith

module _ {D : Type 0} (rq : BlockDecoding D) where
  abbrev with_blocks : Decoder D → List (BlockState D) → Decoder D
  with_blocks d blocks = record { meta = d.meta; blocks = blocks }

  add_symbol-ok :
      (d : Decoder D) (symbol : Symbol.Symbol)
      → symbol.id.sbn < length d.blocks
      → (next : Decoder D) × (add_symbol rq d symbol ≡ ok (next, is_complete next))
        × (length next.blocks ≡ length d.blocks)
  unfolding add_symbol is_complete
  add_symbol-ok d symbol h =
      let (b, e) = in_range d.blocks symbol.id.sbn h in
      let fed : List (BlockState D) = set d.blocks symbol.id.sbn (feed_block rq b symbol) in
      elim (Bool-cases (is_hostile d symbol)) [
        | inl hostile ↦ (with_blocks d d.blocks, rw (add_symbol, e) (rw hostile refl), refl)
        | inr good ↦ (
          with_blocks d fed,
          rw (add_symbol, e) (rw good refl),
          length-set d.blocks symbol.id.sbn (feed_block rq b symbol),
        )
      ]

  feed_decoder_step :
      (s : ReceiverSession D) (d next : Decoder D) (done : Bool) (symbol : Symbol.Symbol)
      → s.decoder ≡ some d
      → add_symbol rq d symbol ≡ ok (next, done)
      → feed_decoder rq s symbol ≡ ok (record s { decoder = some next })
  unfolding feed_decoder
  feed_decoder_step s d next done symbol e f = ground (arith, e, f)

  feed_decoder-Steady :
      {m : ObjectMeta} (s : ReceiverSession D) (symbol : Symbol.Symbol)
      → symbol.id.sbn < length s.received
      → Steady m s
      → (t : ReceiverSession D) × (feed_decoder rq s symbol ≡ ok t) × Steady m t
  feed_decoder-Steady s symbol inside h =
      let (next, fed, same) = add_symbol-ok h.decoder symbol (omega (arith, h.width, inside)) in
      (
        record s { decoder = some next },
        feed_decoder_step s h.decoder next _ symbol h.decoder_is fed,
        record {
          meta_is = h.meta_is;
          decoder = next;
          decoder_is = refl;
          width = same ∙ h.width;
          sets = h.sets;
        },
      )

  replay_fed-Steady :
      (meta : ObjectMeta) (s t : ReceiverSession D) (c : Cached)
      → Steady meta t
      → Steady meta (replay_fed rq meta s c (ok t)).0
  unfolding replay_fed
  replay_fed-Steady meta s t c h = elim (Bool-cases (has_symbol t c.sbn c.esi)) [
    | inl held ↦ rw held h
    | inr new ↦ rw new (note_symbol-Steady t meta.blocks c.sbn c.esi new h)
  ]

  replay_fed-ok :
      (meta : ObjectMeta) (s t : ReceiverSession D) (c : Cached)
      → replay_fed rq meta s c (ok t) ≡ ((replay_fed rq meta s c (ok t)).0, ok tt)
  unfolding replay_fed
  replay_fed-ok meta s t c = refl

  -- A turn of the replay does not fail: what the decoder would refuse is stray.
  replay_one-Steady :
      (meta : ObjectMeta) (s : ReceiverSession D) (c : Cached)
      → Steady meta s
      → (t : ReceiverSession D) × (replay_one rq meta s c ≡ (t, ok tt)) × Steady meta t
  unfolding replay_one
  replay_one-Steady meta s c h = elim (Bool-cases (is_stray s meta c)) [
    | inl stray ↦ (count_corrupt s, rw stray refl, count_corrupt-Steady s h)
    | inr fits ↦
        let symbol : Symbol.Symbol = Symbol.new c.sbn c.esi c.bytes in
        let (t, fed, steady) = feed_decoder-Steady s symbol (stray_bound s meta c fits) h in
        (
          (replay_fed rq meta s c (ok t)).0,
          rw (fits, fed) (replay_fed-ok meta s t c),
          replay_fed-Steady meta s t c steady,
        )
  ]

  replay-Steady :
      (meta : ObjectMeta) (s : ReceiverSession D) (cache : List Cached)
      → Steady meta s
      → (t : ReceiverSession D) × (replay rq meta s cache ≡ (t, ok tt)) × Steady meta t
  unfolding replay unless_failed
  replay-Steady meta s [] h = (s, refl, h)
  replay-Steady meta s (c ∷ cache) h =
      let (one, first, steady) = replay_one-Steady meta s c h in
      let (t, rest, end) = replay-Steady meta one cache steady in (t, rw (first, rest) refl, end)

  pub recount-Counted : (s : ReceiverSession D) → AllSets s.received → Counted (recount rq s)
  unfolding recount refresh_decoded_counts
  recount-Counted s sets =
      refreshed-Counted
        (record s {
          progress = record (s.progress) { received_symbols = count_received s.received % 2 ^ 32 };
        })
        s.meta s.decoder (refl, sets)

  length-start_blocks :
      (oti : Oti) (bytes : List ℕ) (ms : List SourceBlockMeta)
      → length (start_blocks oti rq bytes ms) ≡ length ms
  unfolding start_blocks
  length-start_blocks oti bytes [] = refl
  length-start_blocks oti bytes (m ∷ ms) = ap suc (length-start_blocks oti bytes ms)

  new-blocks :
      (oti : Oti) (m : ObjectMeta) (d : Decoder D)
      → Decoder.new oti rq m ≡ ok d
      → length d.blocks ≡ length m.blocks
  unfolding Decoder.new
  new-blocks oti m d e =
      let (v, same) =
        >>-eq-ok (map_err CodecErrors.invalid_object_meta (Meta.validate oti m)) _ e in
      ap (λ (x : Decoder D). length x.blocks) (sym (ok-injective same))
      ∙ length-start_blocks oti m.oti_bytes m.blocks

  reset-Steady :
      (oti : Oti) (s : ReceiverSession D) (meta : ObjectMeta) (d : Decoder D)
      → Decoder.new oti rq meta ≡ ok d
      → Steady meta (reset s meta d)
  unfolding reset
  reset-Steady oti s meta d e = record {
    meta_is = refl;
    decoder = d;
    decoder_is = refl;
    width = new-blocks oti meta d e ∙ sym (length-replicate (length meta.blocks) []);
    sets = AllSets-replicate (length meta.blocks);
  }

  refreshed-meta :
      (s : ReceiverSession D) (meta : Option ObjectMeta) (decoder : Option (Decoder D))
      → (refreshed s meta decoder).meta ≡ s.meta
  unfolding refreshed
  refreshed-meta s none decoder = refl
  refreshed-meta s (some meta) none = refl
  refreshed-meta s (some meta) (some d) = refl

  recount-meta : (s : ReceiverSession D) → (recount rq s).meta ≡ s.meta
  unfolding recount refresh_decoded_counts
  recount-meta s = refreshed-meta _ s.meta s.decoder

  -- Metadata for which a decoder starts is applied, whatever is in the cache, and the symbols are counted
  -- then.
  pub apply_decoder-Counted :
      (oti : Oti) (order : List Cached → List Cached) (s : ReceiverSession D) (meta : ObjectMeta)
      (d : Decoder D)
      → Decoder.new oti rq meta ≡ ok d
      → (t : ReceiverSession D) × (apply_decoder oti rq order s meta (ok d) ≡ (t, ok tt))
        × Counted t
        × (t.meta ≡ some meta)
  unfolding apply_decoder finish_replay
  apply_decoder-Counted oti order s meta d e =
      let (t, played, steady) =
        replay-Steady meta (reset s meta d) (order s.symbol_cache) (reset-Steady oti s meta d e) in
      (recount rq t, rw played refl, recount-Counted t steady.sets, recount-meta t ∙ steady.meta_is)
