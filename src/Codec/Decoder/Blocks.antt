-- ===== src/Codec/Decoder/Blocks.antt =====
-- How `add_symbol` acts on the blocks of a decoder (core/raptorq-core/src/decoder.rs).
use air_ferry.Prelude.{
  ℕ, ◌≡◌, refl, inl, inr, Bool, ◌&&◌, not, leb, ◌==◌, List, [], ◌∷◌, length, get_elem?,
  get_elem?-set, some, ok, err, Option-cases, if◌then◌else◌, arith,
}
use mathlib.Core.Option
use air_ferry.Codec.Raptorq.{BlockDecoding}
use air_ferry.Codec.Symbol.{Symbol}
use air_ferry.Codec.Decoder.{BlockState, Decoder, feed_block, add_symbol, max_esi}

module _ {D : Type 0} (rq : BlockDecoding D) where
  -- A caller that goes on after an error, as the receiver's replay does.
  unfoldable pub feed : Decoder D → Symbol → Decoder D
  feed d s = elim (add_symbol rq d s) [ ok (d', c) ↦ d' | err e ↦ d ]

  unfoldable pub feed_all : Decoder D → List Symbol → Decoder D
  feed_all d [] = d
  feed_all d (s ∷ ss) = feed_all (feed d s) ss

  -- What one block sees of the stream, for objects whose symbols have `size` bytes.
  pub relevant : (size i : ℕ) → Symbol → Bool
  relevant size i s = s.id.sbn == i && not (leb max_esi s.id.esi) && length s.bytes == size

  unfoldable pub run_block : (size i : ℕ) → BlockState D → List Symbol → BlockState D
  unfolding relevant
  run_block size i b [] = b
  run_block size i b (s ∷ ss) =
      run_block size i (if relevant size i s then feed_block rq b s else b) ss

  pub meta-feed : (d : Decoder D) (s : Symbol) → (feed d s).meta ≡ d.meta
  unfolding feed add_symbol
  meta-feed d s = ground arith

  get_elem?-feed :
      (d : Decoder D) (s : Symbol) (i : ℕ)
      → get_elem? (feed d s).blocks i
        ≡ Option.map
            (λ b. if relevant d.meta.symbol_size i s then feed_block rq b s else b)
            (get_elem? d.blocks i)
  unfolding feed add_symbol relevant
  get_elem?-feed d s i = elim (Option-cases (get_elem? d.blocks s.id.sbn)) [
    | inl e ↦ ground (arith, e)
    | inr (b, e) ↦ ground (arith, e, get_elem?-set d.blocks s.id.sbn i (feed_block rq b s) b)
  ]

  -- The blocks are independent: the state of a block after any interleaving is what it reaches on its
  -- own symbols alone, in their order.
  pub get_elem?-feed_all :
      (d : Decoder D) (ss : List Symbol) (i : ℕ)
      → get_elem? (feed_all d ss).blocks i
        ≡ Option.map (λ b. run_block d.meta.symbol_size i b ss) (get_elem? d.blocks i)
  unfolding feed_all run_block
  get_elem?-feed_all d [] i = ground arith
  get_elem?-feed_all d (s ∷ ss) i =
      ground (arith, get_elem?-feed_all (feed d s) ss i, get_elem?-feed d s i, meta-feed d s)

  -- A decoded block keeps its bytes, whatever is fed afterwards.
  pub run_block-decoded :
      (size i : ℕ) (b : BlockState D) (ss : List Symbol) (out : List ℕ)
      → b.decoded ≡ some out
      → run_block size i b ss ≡ b
  unfolding run_block feed_block
  run_block-decoded size i b [] out h = refl
  run_block-decoded size i b (s ∷ ss) out h = ground (arith, run_block-decoded size i b ss out)
