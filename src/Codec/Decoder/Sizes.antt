-- ===== src/Codec/Decoder/Sizes.antt =====
-- How many bytes the decoder assembles.
use air_ferry.Prelude.{
  ℕ, zero, suc, ◌*◌, ◌%◌, ◌^◌, ◌≤◌, ◌<◌, ◌≡◌, refl, sym, ap, subst, ◌∙◌, inl, inr, true, List, [],
  ◌∷◌, length, get_elem?, set, take, none, some, ok, map_err, Option-cases, Bool-cases,
  length-append, length-take, if◌then◌else◌, ok-injective, some_inj, map_err-eq-ok, >>-eq-ok, arith,
}
use air_ferry.Codec.Raptorq.{Oti, BlockDecoding, IsSizing}
use air_ferry.Codec.Errors.{invalid_object_meta}
use air_ferry.Codec.Symbol.{Symbol}
use air_ferry.Codec.Meta.{SourceBlockMeta, ObjectMeta, validate, sum_symbols}
use air_ferry.Codec.Meta.Gate.{IsCanonical, IsValid, validate_iff}
use air_ferry.Codec.Decoder.{
  BlockState, Decoder, all_decoded, is_complete, join_decoded, assemble, start_blocks, new,
  feed_block, is_hostile, add_symbol,
}
use air_ferry.Codec.Decoder.Blocks.{feed, feed_all, meta-feed}

module _ {D : Type 0} (oti : Oti) (rq : BlockDecoding D) (law : IsSizing oti rq) where
  open law use {size, size-start, size-decode, length-decode}

  -- A block that works on the size its metadata declares.
  abbrev FitsBlock : SourceBlockMeta → BlockState D → Type 0
  FitsBlock m b =
      (size b.decoder ≡ m.block_length)
      × ((out : List ℕ) → b.decoded ≡ some out → length out ≡ m.block_length)

  abbrev Fits : List SourceBlockMeta → List (BlockState D) → Type 0
  Fits [] [] = Unit {0}
  Fits [] (b ∷ bs) = ⊥
  Fits (m ∷ ms) [] = ⊥
  Fits (m ∷ ms) (b ∷ bs) = FitsBlock m b × Fits ms bs

  start_size :
      (sbn : ℕ) (bytes : List ℕ) (n k len : ℕ)
      → oti.symbol_size bytes ≡ n
      → 0 < n
      → 0 < k
      → k ≤ 56403
      → len ≡ k * n
      → size (rq.start sbn bytes len) ≡ len
  start_size sbn bytes n k len same some_size some_symbol few whole =
      let shape : len ≡ k * oti.symbol_size bytes = whole ∙ ap (λ (x : ℕ). k * x) (sym same) in
      let some_bytes : 0 < oti.symbol_size bytes = omega (arith, same, some_size) in
      rw shape (size-start sbn bytes k some_symbol few some_bytes)

  -- The blocks of the gate are whole numbers of symbols.
  start_blocks-Fits :
      (bytes : List ℕ) (n i : ℕ) (ms : List SourceBlockMeta)
      → oti.symbol_size bytes ≡ n
      → 0 < n
      → IsCanonical n i ms
      → Fits ms (start_blocks oti rq bytes ms)
  unfolding start_blocks
  start_blocks-Fits bytes n i [] same some_size c = tt
  start_blocks-Fits bytes n i (m ∷ ms) same some_size c = (
    (
      start_size (m.sbn % 2 ^ 8) bytes n m.num_source_symbols m.block_length same some_size c.1 c.2
          c.3,
      λ out e. cc,
    ),
    start_blocks-Fits bytes n (suc i) ms same some_size c.4,
  )

  feed_block-FitsBlock :
      (m : SourceBlockMeta) (b : BlockState D) (s : Symbol)
      → FitsBlock m b
      → FitsBlock m (feed_block rq b s)
  unfolding feed_block
  feed_block-FitsBlock m b s f =
      let sbn = s.id.sbn % 2 ^ 8 in
      (
        ground (arith, f.0, size-decode b.decoder sbn s.id.esi s.bytes),
        λ out e. ground (arith, f.1 out, f.0, length-decode b.decoder sbn s.id.esi s.bytes out),
      )

  set-Fits :
      (ms : List SourceBlockMeta) (bs : List (BlockState D)) (i : ℕ) (b b' : BlockState D)
      → get_elem? bs i ≡ some b
      → ((m : SourceBlockMeta) → FitsBlock m b → FitsBlock m b')
      → Fits ms bs
      → Fits ms (set bs i b')
  set-Fits [] [] i b b' e keep f = tt
  set-Fits [] (x ∷ xs) i b b' e keep f = absurd f
  set-Fits (m ∷ ms) [] i b b' e keep f = absurd f
  set-Fits (m ∷ ms) (x ∷ xs) zero b b' e keep f =
      (keep m (subst (FitsBlock m) (some_inj e) f.0), f.1)
  set-Fits (m ∷ ms) (x ∷ xs) (suc i) b b' e keep f = (f.0, set-Fits ms xs i b b' e keep f.1)

  blocks-feed_missing :
      (d : Decoder D) (s : Symbol)
      → get_elem? d.blocks s.id.sbn ≡ none
      → (feed rq d s).blocks ≡ d.blocks
  unfolding feed add_symbol
  blocks-feed_missing d s e = ground arith

  blocks-feed_present :
      (d : Decoder D) (s : Symbol) (b : BlockState D)
      → get_elem? d.blocks s.id.sbn ≡ some b
      → (feed rq d s).blocks
        ≡ (if is_hostile d s then d.blocks else set d.blocks s.id.sbn (feed_block rq b s))
  unfolding feed add_symbol
  blocks-feed_present d s b e = ground arith

  feed-Fits :
      (d : Decoder D) (s : Symbol)
      → Fits d.meta.blocks d.blocks
      → Fits d.meta.blocks (feed rq d s).blocks
  feed-Fits d s f = elim (Option-cases (get_elem? d.blocks s.id.sbn)) [
    | inl e ↦ rw (blocks-feed_missing d s e) f
    | inr (b, e) ↦ elim (Bool-cases (is_hostile d s)) [
      | inl bad ↦ rw (blocks-feed_present d s b e, bad) f
      | inr good ↦
          rw (blocks-feed_present d s b e, good)
            (set-Fits d.meta.blocks d.blocks s.id.sbn b (feed_block rq b s) e
              (λ m. feed_block-FitsBlock m b s) f)
    ]
  ]

  feed_all-Fits :
      (d : Decoder D) (ss : List Symbol)
      → Fits d.meta.blocks d.blocks
      → Fits d.meta.blocks (feed_all rq d ss).blocks × ((feed_all rq d ss).meta ≡ d.meta)
  unfolding feed_all
  feed_all-Fits d [] f = (f, refl)
  feed_all-Fits d (s ∷ ss) f =
      let same = meta-feed rq d s in
      let rest = feed_all-Fits (feed rq d s) ss (rw same (feed-Fits d s f)) in
      (
        subst (λ (m : ObjectMeta). Fits m.blocks (feed_all rq (feed rq d s) ss).blocks) same rest.0,
        rest.1 ∙ same,
      )

  length-join_decoded :
      (n i : ℕ) (ms : List SourceBlockMeta) (bs : List (BlockState D))
      → IsCanonical n i ms
      → Fits ms bs
      → all_decoded bs ≡ true
      → length (join_decoded bs) ≡ sum_symbols ms * n
  unfolding join_decoded all_decoded sum_symbols
  length-join_decoded n i [] [] c f e = omega arith
  length-join_decoded n i [] (b ∷ bs) c f e = absurd f
  length-join_decoded n i (m ∷ ms) [] c f e = absurd f
  length-join_decoded n i (m ∷ ms) (b ∷ bs) c f e = elim (Option-cases b.decoded) [
    | inl p ↦ ground (arith, p)
    | inr (out, p) ↦ ground (
      arith,
      p,
      f.0.1 out p,
      length-append out (join_decoded bs),
      length-join_decoded n (suc i) ms bs c.4 f.1,
    )
  ]

  new_inv :
      (m : ObjectMeta) (d : Decoder D)
      → new oti rq m ≡ ok d
      → IsValid oti m × (record { meta = m; blocks = start_blocks oti rq m.oti_bytes m.blocks } ≡ d)
  unfolding new
  new_inv m d e =
      let (v, same) = >>-eq-ok (map_err invalid_object_meta (validate oti m)) _ e in
      (
        (validate_iff oti m).0 (map_err-eq-ok invalid_object_meta (validate oti m) v),
        ok-injective same,
      )

  assemble_inv :
      (d : Decoder D) (out : List ℕ)
      → assemble d ≡ some out
      → (all_decoded d.blocks ≡ true) × (out ≡ take d.meta.transfer_length (join_decoded d.blocks))
  unfolding assemble is_complete
  assemble_inv d out a = ground arith

  -- A decoder for validated metadata that has every block assembles exactly the transfer length.
  -- The crate's block decoders, started for whole symbols, return whole blocks.
  pub length-assemble :
      (m : ObjectMeta) (d : Decoder D) (ss : List Symbol) (out : List ℕ)
      → new oti rq m ≡ ok d
      → assemble (feed_all rq d ss) ≡ some out
      → length out ≡ m.transfer_length
  length-assemble m d ss out e a =
      let (valid, same) = new_inv m d e in
      let ms : d.meta ≡ m = sym (ap (λ (x : Decoder D). x.meta) same) in
      let start : Fits d.meta.blocks d.blocks =
        subst (λ (x : Decoder D). Fits x.meta.blocks x.blocks) same
          (start_blocks-Fits m.oti_bytes m.symbol_size 0 m.blocks valid.oti_size
            (omega (arith, valid.size.above)) valid.canonical) in
      let (fits, kept) = feed_all-Fits d ss start in
      let (done, shape) = assemble_inv (feed_all rq d ss) out a in
      let total =
        length-join_decoded m.symbol_size 0 m.blocks (feed_all rq d ss).blocks valid.canonical
          (subst (λ (x : ObjectMeta). Fits x.blocks (feed_all rq d ss).blocks) ms fits) done in
      omega (
        arith,
        ap length shape,
        length-take (feed_all rq d ss).meta.transfer_length
            (join_decoded (feed_all rq d ss).blocks),
        ap (λ (x : ObjectMeta). x.transfer_length) (kept ∙ ms),
        total,
        valid.carried,
      )
