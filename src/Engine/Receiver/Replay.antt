-- ===== src/Engine/Receiver/Replay.antt =====
-- Applying the authoritative metadata: `apply_meta` and `refresh_decoded_counts` of
-- core/transfer-engine/src/receiver.rs. `order` is the order in which the hash map hands out its entries.
use air_ferry.Prelude.{
  ℕ, suc, ◌+◌, ◌%◌, ◌^◌, min, Bool, ◌||◌, not, ltb, leb, ◌==◌, List, [], ◌∷◌, length, replicate,
  set, get_or, Option, none, some, is_some, Result, ok, err, if◌then◌else◌,
}
use air_ferry.Codec.Raptorq.{Oti, BlockDecoding}
use air_ferry.Codec.Errors as CodecErrors
use air_ferry.Codec.Symbol
use air_ferry.Codec.Symbol.{Symbol}
use air_ferry.Codec.Meta.{SourceBlockMeta, ObjectMeta, total_symbols}
use air_ferry.Codec.Encoder.{symbols_at}
use air_ferry.Codec.Decoder
use air_ferry.Codec.Decoder.{Decoder, block_progress, max_esi}
use air_ferry.Engine.Errors.{Error, raptorq}
use air_ferry.Engine.Receiver.{ReceiverSession, Cached, contains, count_corrupt}

-- Decoded symbols and blocks. A block that is not decoded counts the source symbols it has received.
unfoldable pub decoded_counts :
    {D : Type 0} → Decoder D → List ℕ → (i : ℕ) → List SourceBlockMeta → ℕ × ℕ
decoded_counts d source_recv i [] = (0, 0)
decoded_counts d source_recv i (b ∷ blocks) =
    let (symbols, done) = decoded_counts d source_recv (suc i) blocks in
    if is_some (block_progress d b.sbn)
    then (b.num_source_symbols + symbols, suc done)
    else (min (get_or source_recv i 0) b.num_source_symbols + symbols, done)

-- `received.iter().map(|s| s.len() as u32).sum()`
unfoldable pub count_received : List (List ℕ) → ℕ
count_received [] = 0
count_received (set ∷ received) = length set + count_received received

module _ {D : Type 0} where
  -- Both `let … else` of `refresh_decoded_counts` return early.
  unfoldable pub refreshed :
      ReceiverSession D → Option ObjectMeta → Option (Decoder D) → ReceiverSession D
  refreshed s none decoder = s
  refreshed s (some meta) none = s
  refreshed s (some meta) (some d) =
      let (symbols, done) = decoded_counts d s.source_recv 0 meta.blocks in
      record s {
        progress = record (s.progress) {
          decoded_symbols = symbols % 2 ^ 32;
          decoded_blocks = done % 2 ^ 32;
        };
      }

  unfoldable pub refresh_decoded_counts : ReceiverSession D → ReceiverSession D
  refresh_decoded_counts s = refreshed s s.meta s.decoder

  -- `self.received[bi].insert(esi)` of an id that is not there, with the source counter.
  unfoldable pub note_symbol :
      ReceiverSession D → List SourceBlockMeta → (sbn esi : ℕ) → ReceiverSession D
  note_symbol s blocks sbn esi = record s {
    received = set s.received sbn (esi ∷ get_or s.received sbn []);
    source_recv =
        if ltb esi (symbols_at blocks sbn)
        then set s.source_recv sbn ((get_or s.source_recv sbn 0 + 1) % 2 ^ 32)
        else s.source_recv;
  }

  unfoldable pub has_symbol : ReceiverSession D → (sbn esi : ℕ) → Bool
  has_symbol s sbn esi = contains esi (get_or s.received sbn [])

  -- An entry that the descriptor rules out.
  unfoldable pub is_stray : ReceiverSession D → ObjectMeta → Cached → Bool
  is_stray s meta c =
      (leb (length s.received) c.sbn || leb max_esi c.esi)
      || not (length c.bytes == meta.symbol_size)

  -- The fields that `apply_meta` resets.
  unfoldable pub reset : ReceiverSession D → ObjectMeta → Decoder D → ReceiverSession D
  reset s meta decoder = record s {
    meta = some meta;
    decoder = some decoder;
    pending_symbol_size = meta.symbol_size;
    received = replicate (length meta.blocks) [];
    source_recv = replicate (length meta.blocks) 0;
    symbol_cache = [];
    progress = record (s.progress) {
      total_symbols = total_symbols meta.blocks;
      total_blocks = length meta.blocks % 2 ^ 32;
    };
  }

module _ {D : Type 0} (rq : BlockDecoding D) where
  -- `dec.add_symbol(&symbol)?` on the session's decoder.
  unfoldable pub feed_decoder : ReceiverSession D → Symbol → Result Error (ReceiverSession D)
  feed_decoder s symbol = elim s.decoder [
    | none ↦ ok s
    | some d ↦ elim (Decoder.add_symbol rq d symbol) [
      | err e ↦ err (raptorq e)
      | ok (d', done) ↦ ok (record s { decoder = some d' })
    ]
  ]

  -- The end of a turn of the replay, with the session that was fed.
  unfoldable pub replay_fed :
      ObjectMeta
      → ReceiverSession D
      → Cached
      → Result Error (ReceiverSession D)
      → ReceiverSession D × Result Error (Unit {0})
  replay_fed meta s c (err e) = (s, err e)
  replay_fed meta s c (ok t) =
      (if has_symbol t c.sbn c.esi then t else note_symbol t meta.blocks c.sbn c.esi, ok tt)

  unfoldable pub replay_one :
      ObjectMeta → ReceiverSession D → Cached → ReceiverSession D × Result Error (Unit {0})
  replay_one meta s c =
      if is_stray s meta c
      then (count_corrupt s, ok tt)
      else replay_fed meta s c (feed_decoder s (Symbol.new c.sbn c.esi c.bytes))

  -- The replay stops at the first error.
  unfoldable pub unless_failed :
      ReceiverSession D × Result Error (Unit {0})
      → ReceiverSession D × Result Error (Unit {0})
      → ReceiverSession D × Result Error (Unit {0})
  unless_failed (s, err e) rest = (s, err e)
  unless_failed (s, ok u) rest = rest

  unfoldable pub replay :
      ObjectMeta → ReceiverSession D → List Cached → ReceiverSession D × Result Error (Unit {0})
  replay meta s [] = (s, ok tt)
  replay meta s (c ∷ cache) =
      let one = replay_one meta s c in unless_failed one (replay meta one.0 cache)

  -- The counters after a replay.
  unfoldable pub recount : ReceiverSession D → ReceiverSession D
  recount s = refresh_decoded_counts (record s {
    progress = record (s.progress) { received_symbols = count_received s.received % 2 ^ 32 };
  })

  unfoldable pub finish_replay :
      ReceiverSession D × Result Error (Unit {0}) → ReceiverSession D × Result Error (Unit {0})
  finish_replay (s, err e) = (s, err e)
  finish_replay (s, ok u) = (recount s, ok tt)

module _ {D : Type 0} (oti : Oti) (rq : BlockDecoding D) (order : List Cached → List Cached) where
  unfoldable pub apply_decoder :
      ReceiverSession D
      → ObjectMeta
      → Result CodecErrors.Error (Decoder D)
      → ReceiverSession D × Result Error (Unit {0})
  apply_decoder s meta (err e) = (s, err (raptorq e))
  apply_decoder s meta (ok decoder) =
      finish_replay rq (replay rq meta (reset s meta decoder) (order s.symbol_cache))

  unfoldable pub apply_meta :
      ReceiverSession D → ObjectMeta → ReceiverSession D × Result Error (Unit {0})
  apply_meta s meta = apply_decoder s meta (Decoder.new oti rq meta)
