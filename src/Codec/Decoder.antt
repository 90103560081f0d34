-- ===== src/Codec/Decoder.antt =====
-- The RaptorQ decoder of one object (core/raptorq-core/src/decoder.rs). `&mut self` is the decoder that
-- a call returns; a call that fails leaves it as it was.
pub mod Blocks
pub mod Sizes
use air_ferry.Prelude.{
  ℕ, ◌+◌, ◌%◌, ◌^◌, ◌≡◌, Bool, true, false, ◌&&◌, ◌||◌, not, ltb, leb, ◌==◌, List, [], ◌∷◌, ◌++◌,
  map, length, get_elem?, set, take, Option, none, some, Result, ok, err, ◌>>=◌, ◌>>◌, map_err,
  is_some, if◌then◌else◌,
}
use air_ferry.Codec.Raptorq.{Oti, BlockDecoding}
use air_ferry.Codec.Errors.{Error, invalid_object_meta, block_out_of_range}
use air_ferry.Codec.Symbol.{Symbol}
use air_ferry.Codec.Meta.{SourceBlockMeta, ObjectMeta, validate}

pub record BlockState (D : Type 0) : Type 0 where
  pub decoder : D
  pub decoded : Option (List ℕ)

pub record Decoder (D : Type 0) : Type 0 where
  pub meta : ObjectMeta
  pub blocks : List (BlockState D)

-- RFC 6330 has encoding symbol ids of 24 bits.
abbrev pub max_esi : ℕ
max_esi = 2 ^ 24

module _ {D : Type 0} where
  abbrev pub is_decoded : BlockState D → Bool
  is_decoded b = is_some b.decoded

  unfoldable pub all_decoded : List (BlockState D) → Bool
  all_decoded [] = true
  all_decoded (b ∷ bs) = is_decoded b && all_decoded bs

  unfoldable pub is_complete : Decoder D → Bool
  is_complete d = all_decoded d.blocks

  unfoldable pub count_decoded : List (BlockState D) → ℕ
  count_decoded [] = 0
  count_decoded (b ∷ bs) = (if is_decoded b then 1 else 0) + count_decoded bs

  pub decoded_block_count : Decoder D → ℕ
  decoded_block_count d = count_decoded d.blocks

  -- A symbol that the decoder drops: its coordinates would make the solver panic.
  abbrev pub is_hostile : Decoder D → Symbol → Bool
  is_hostile d s = leb max_esi s.id.esi || not (length s.bytes == d.meta.symbol_size)

  -- K once the block is decoded.
  unfoldable pub block_progress : Decoder D → ℕ → Option ℕ
  block_progress d sbn = elim (get_elem? d.blocks sbn) [
    | none ↦ none
    | some b ↦ elim (get_elem? d.meta.blocks sbn) [
      | none ↦ none
      | some m ↦ if is_decoded b then some m.num_source_symbols else none
    ]
  ]

  unfoldable pub join_decoded : List (BlockState D) → List ℕ
  join_decoded [] = []
  join_decoded (b ∷ bs) = elim b.decoded [
    | none ↦ join_decoded bs
    | some out ↦ out ++ join_decoded bs
  ]

  unfoldable pub assemble : Decoder D → Option (List ℕ)
  assemble d =
      if is_complete d then some (take d.meta.transfer_length (join_decoded d.blocks)) else none

module _ {D : Type 0} (oti : Oti) (rq : BlockDecoding D) where
  unfoldable pub start_blocks : List ℕ → List SourceBlockMeta → List (BlockState D)
  start_blocks oti_bytes [] = []
  start_blocks oti_bytes (b ∷ bs) =
      record { decoder = rq.start (b.sbn % 2 ^ 8) oti_bytes b.block_length; decoded = none }
      ∷ start_blocks oti_bytes bs

  -- `Decoder::new`
  unfoldable pub new : ObjectMeta → Result Error (Decoder D)
  new m = do
    map_err invalid_object_meta (validate oti m)
    ok (record { meta = m; blocks = start_blocks m.oti_bytes m.blocks })

module _ {D : Type 0} (rq : BlockDecoding D) where
  -- Feed a symbol to the block that it belongs to, unless the block is decoded.
  unfoldable pub feed_block : BlockState D → Symbol → BlockState D
  feed_block b s =
      let (decoder, result) = rq.decode b.decoder (s.id.sbn % 2 ^ 8) s.id.esi s.bytes in
      if is_decoded b then b else elim result [
        | none ↦ record { decoder = decoder; decoded = b.decoded }
        | some out ↦ record { decoder = decoder; decoded = some out }
      ]

  -- `add_symbol`: `sbn >= self.blocks.len()` is the missing block.
  unfoldable pub add_symbol : Decoder D → Symbol → Result Error (Decoder D × Bool)
  add_symbol d s = elim (get_elem? d.blocks s.id.sbn) [
    | none ↦ err (block_out_of_range s.id.sbn (length d.blocks % 2 ^ 32))
    | some b ↦
        let d' : Decoder D = record {
          meta = d.meta;
          blocks = if is_hostile d s then d.blocks else set d.blocks s.id.sbn (feed_block b s);
        } in
        ok (d', is_complete d')
  ]
