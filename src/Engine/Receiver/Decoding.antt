-- ===== src/Engine/Receiver/Decoding.antt =====
-- The decoder of a session (core/transfer-engine/src/receiver.rs).
use air_ferry.Prelude.{
  ℕ, ◌≡◌, refl, ap, subst, ◌∙◌, inl, inr, Bool, List, [], ◌∷◌, ◌++◌, length, get_or, length-set,
  length-replicate, Option, none, some, Bool-cases, Result, ok, err, ok-injective, arith,
}
use air_ferry.Codec.Raptorq.{Oti, BlockDecoding}
use air_ferry.Codec.Errors as CodecErrors
use air_ferry.Codec.Symbol
use air_ferry.Codec.Symbol.{Symbol}
use air_ferry.Codec.Meta.{ObjectMeta, SourceBlockMeta}
use air_ferry.Codec.Decoder
use air_ferry.Codec.Decoder.{Decoder, add_symbol}
use air_ferry.Codec.Decoder.Blocks.{feed, feed_all}
use air_ferry.Engine.Errors.{Error, raptorq}
use air_ferry.Engine.Receiver.{ReceiverSession, Cached, count_corrupt}
use air_ferry.Engine.Receiver.Replay.{
  refreshed, refresh_decoded_counts, note_symbol, has_symbol, is_stray, reset, feed_decoder,
  replay_one, replay, recount, finish_replay, apply_meta, apply_decoder, replay_fed, unless_failed,
}

module _ {D : Type 0} (oti : Oti) (rq : BlockDecoding D) where
  pub record Fed (m : ObjectMeta) (d : Decoder D) : Type 0 where
    pub start : Decoder D
    pub symbols : List Symbol
    pub started : Decoder.new oti rq m ≡ ok start
    pub reached : feed_all rq start symbols ≡ d

  pub record Live (s : ReceiverSession D) (m : ObjectMeta) (d : Decoder D) : Type 0 where
    pub meta_is : s.meta ≡ some m
    pub decoder_is : s.decoder ≡ some d
    pub fed : Fed m d
    pub width : length s.received ≡ length m.blocks

  -- There is no metadata and no decoder yet, or there are both.
  pub data Sound (s : ReceiverSession D) : Type 0 where
    waiting : s.meta ≡ none → s.decoder ≡ none → Sound s
    live : (m : ObjectMeta) (d : Decoder D) → Live s m d → Sound s

  pub Sound-same :
      (s t : ReceiverSession D)
      → t.meta ≡ s.meta
      → t.decoder ≡ s.decoder
      → length t.received ≡ length s.received
      → Sound s
      → Sound t
  Sound-same s t meta decoder received (waiting no_meta no_decoder) =
      waiting (meta ∙ no_meta) (decoder ∙ no_decoder)
  Sound-same s t meta decoder received (live m d l) = live m d (record {
    meta_is = meta ∙ l.meta_is;
    decoder_is = decoder ∙ l.decoder_is;
    fed = l.fed;
    width = received ∙ l.width;
  })

  feed_all-last :
      (d : Decoder D) (ss : List Symbol) (s : Symbol)
      → feed_all rq d (ss ++ (s ∷ [])) ≡ feed rq (feed_all rq d ss) s
  unfolding feed_all
  feed_all-last d [] s = refl
  feed_all-last d (x ∷ ss) s = feed_all-last (feed rq d x) ss s

  Fed-feed : (m : ObjectMeta) (d : Decoder D) (s : Symbol) → Fed m d → Fed m (feed rq d s)
  Fed-feed m d s f = record {
    start = f.start;
    symbols = f.symbols ++ (s ∷ []);
    started = f.started;
    reached = feed_all-last f.start f.symbols s ∙ ap (λ (x : Decoder D). feed rq x s) f.reached;
  }

  fed_by :
      (s t : ReceiverSession D) (m : ObjectMeta) (d : Decoder D) (symbol : Symbol)
      (r : Result CodecErrors.Error (Decoder D × Bool))
      → add_symbol rq d symbol ≡ r
      → Live s m d
      → (elim r [ err e ↦ err (raptorq e) | ok (d', done) ↦ ok (record s { decoder = some d' }) ])
        ≡ ok t
      → Sound t
  unfolding feed
  fed_by s t m d symbol (err x) same l e = cc
  fed_by s t m d symbol (ok (d', done)) same l e =
      let next : feed rq d symbol ≡ d' = rw (feed, same) in
      subst Sound (ok-injective e) (
        live m d' (record {
          meta_is = l.meta_is;
          decoder_is = refl;
          fed = subst (Fed m) next (Fed-feed m d symbol l.fed);
          width = l.width;
        }))

  pub feed_decoder-Sound :
      (s t : ReceiverSession D) (symbol : Symbol)
      → Sound s
      → feed_decoder rq s symbol ≡ ok t
      → Sound t
  unfolding feed_decoder
  feed_decoder-Sound s t symbol (waiting no_meta no_decoder) e =
      let same : s ≡ t = ground (arith, no_decoder) in subst Sound same (waiting no_meta no_decoder)
  feed_decoder-Sound s t symbol (live m d l) e =
      fed_by s t m d symbol (add_symbol rq d symbol) refl l (rw l.decoder_is at e)

  pub note_symbol-Sound :
      (s : ReceiverSession D) (blocks : List SourceBlockMeta) (sbn esi : ℕ)
      → Sound s
      → Sound (note_symbol s blocks sbn esi)
  unfolding note_symbol
  note_symbol-Sound s blocks sbn esi h =
      Sound-same s _ refl refl (length-set s.received sbn (esi ∷ get_or s.received sbn [])) h

  refreshed-Sound :
      (s : ReceiverSession D) (meta : Option ObjectMeta) (decoder : Option (Decoder D))
      → Sound s
      → Sound (refreshed s meta decoder)
  unfolding refreshed
  refreshed-Sound s none decoder h = h
  refreshed-Sound s (some meta) none h = h
  refreshed-Sound s (some meta) (some d) h = Sound-same s _ refl refl refl h

  pub refresh-Sound : (s : ReceiverSession D) → Sound s → Sound (refresh_decoded_counts s)
  unfolding refresh_decoded_counts
  refresh-Sound s h = refreshed-Sound s s.meta s.decoder h

  pub count_corrupt-Sound : (s : ReceiverSession D) → Sound s → Sound (count_corrupt s)
  unfolding count_corrupt
  count_corrupt-Sound s h = Sound-same s _ refl refl refl h

  replay_fed-Sound :
      (meta : ObjectMeta) (s : ReceiverSession D) (c : Cached)
      (r : Result Error (ReceiverSession D))
      → feed_decoder rq s (Symbol.new c.sbn c.esi c.bytes) ≡ r
      → Sound s
      → Sound (replay_fed rq meta s c r).0
  unfolding replay_fed
  replay_fed-Sound meta s c (err x) e h = h
  replay_fed-Sound meta s c (ok t) e h =
      let next = feed_decoder-Sound s t (Symbol.new c.sbn c.esi c.bytes) h e in
      elim (Bool-cases (has_symbol t c.sbn c.esi)) [
        | inl held ↦ rw held next
        | inr new ↦ rw new (note_symbol-Sound t meta.blocks c.sbn c.esi next)
      ]

  replay_one-Sound :
      (meta : ObjectMeta) (s : ReceiverSession D) (c : Cached)
      → Sound s
      → Sound (replay_one rq meta s c).0
  unfolding replay_one
  replay_one-Sound meta s c h = elim (Bool-cases (is_stray s meta c)) [
    | inl stray ↦ rw stray (count_corrupt-Sound s h)
    | inr fits ↦
        rw fits
          (replay_fed-Sound meta s c (feed_decoder rq s (Symbol.new c.sbn c.esi c.bytes)) refl h)
  ]

  unless_failed-Sound :
      (o rest : ReceiverSession D × Result Error (Unit {0}))
      → Sound o.0
      → Sound rest.0
      → Sound (unless_failed rq o rest).0
  unfolding unless_failed
  unless_failed-Sound (t, err e) rest h k = h
  unless_failed-Sound (t, ok u) rest h k = k

  replay-Sound :
      (meta : ObjectMeta) (s : ReceiverSession D) (cache : List Cached)
      → Sound s
      → Sound (replay rq meta s cache).0
  unfolding replay
  replay-Sound meta s [] h = h
  replay-Sound meta s (c ∷ cache) h =
      let one = replay_one-Sound meta s c h in
      let t : ReceiverSession D = (replay_one rq meta s c).0 in
      unless_failed-Sound (replay_one rq meta s c) (replay rq meta t cache) one
        (replay-Sound meta t cache one)

  finish_replay-Sound :
      (o : ReceiverSession D × Result Error (Unit {0})) → Sound o.0 → Sound (finish_replay rq o).0
  unfolding finish_replay recount
  finish_replay-Sound (s, err e) h = h
  finish_replay-Sound (s, ok u) h = refresh-Sound _ (Sound-same s _ refl refl refl h)

  reset-Sound :
      (s : ReceiverSession D) (meta : ObjectMeta) (d : Decoder D)
      → Decoder.new oti rq meta ≡ ok d
      → Sound (reset s meta d)
  unfolding reset feed_all
  reset-Sound s meta d e = live meta d (record {
    meta_is = refl;
    decoder_is = refl;
    fed = record { start = d; symbols = []; started = e; reached = refl };
    width = length-replicate (length meta.blocks) [];
  })

  module _ (order : List Cached → List Cached) where
    apply_decoder-Sound :
        (s : ReceiverSession D) (meta : ObjectMeta) (r : Result CodecErrors.Error (Decoder D))
        → Decoder.new oti rq meta ≡ r
        → Sound s
        → Sound (apply_decoder oti rq order s meta r).0
    unfolding apply_decoder
    apply_decoder-Sound s meta (err x) e h = h
    apply_decoder-Sound s meta (ok d) e h =
        finish_replay-Sound (replay rq meta (reset s meta d) (order s.symbol_cache))
          (replay-Sound meta (reset s meta d) (order s.symbol_cache) (reset-Sound s meta d e))

    pub apply_meta-Sound :
        (s : ReceiverSession D) (meta : ObjectMeta)
        → Sound s
        → Sound (apply_meta oti rq order s meta).0
    unfolding apply_meta
    apply_meta-Sound s meta h = apply_decoder-Sound s meta (Decoder.new oti rq meta) refl h
