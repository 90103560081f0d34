-- ===== src/Codec/Tests.antt =====
-- Runs of the codec on small objects.
use air_ferry.Prelude.{
  ℕ, ◌+◌, ◌≡◌, ◌↔◌, refl, ◌==◌, List, [], ◌∷◌, ◌++◌, length, get_elem?, get_or, replicate, Option,
  none, some, ok, arith, if◌then◌else◌, length-replicate,
}
use mathlib.Core.Option
use air_ferry.Codec.Raptorq.{Oti, BlockDecoding, IsSizing, BlockEncoding, IsPacketing}
use air_ferry.Codec.Config
use air_ferry.Codec.Config.{Config, IsSymbolSize, new-IsSymbolSize, mtu-IsSymbolSize, mtu}
use air_ferry.Codec.Symbol
use air_ferry.Codec.Symbol.{Symbol}
use air_ferry.Codec.Meta.{ObjectMeta, validate, check_oti, check_sizes, check_blocks, check_totals}
use air_ferry.Codec.Meta.Gate.{IsValid, validate_iff}
use air_ferry.Codec.Decoder
use air_ferry.Codec.Decoder.{
  BlockState, Decoder, start_blocks, feed_block, add_symbol, assemble, is_complete, all_decoded,
  join_decoded,
}
use air_ferry.Codec.Decoder.Blocks.{feed, feed_all, run_block, get_elem?-feed_all}
use air_ferry.Codec.Decoder.Sizes.{length-assemble}
use air_ferry.Codec.Encoder.{Encoder, block, symbols_at, repair_esi, number_repair, repair_symbols}
use air_ferry.Codec.Encoder.Ids.{IsNumbered, repair_symbols-IsNumbered}

-- OTI bytes with a field each.
abbrev pub plain_oti : Oti
plain_oti = record {
  transfer_length = λ bs. get_or bs 0 0;
  symbol_size = λ bs. get_or bs 1 0;
  source_blocks = λ bs. get_or bs 2 0;
  sub_blocks = λ bs. get_or bs 3 0;
  symbol_alignment = λ bs. get_or bs 4 0;
}

-- Two blocks of one symbol of 128 bytes each.
abbrev pub two_blocks : ObjectMeta
two_blocks = record {
  transfer_length = 200;
  symbol_size = 128;
  oti_bytes = 200 ∷ 128 ∷ 2 ∷ 1 ∷ 8 ∷ 0 ∷ 0 ∷ 0 ∷ 0 ∷ 0 ∷ 0 ∷ 0 ∷ [];
  blocks =
      record { sbn = 0; num_source_symbols = 1; block_length = 128 }
      ∷ record { sbn = 1; num_source_symbols = 1; block_length = 128 }
      ∷ [];
}

pub two_blocks-valid : validate plain_oti two_blocks ≡ ok tt
unfolding validate check_oti check_sizes check_blocks check_totals Config.new
two_blocks-valid = refl

validate_iff_example : (validate plain_oti two_blocks ≡ ok tt) ↔ IsValid plain_oti two_blocks
validate_iff_example = validate_iff plain_oti two_blocks

size_128 : IsSymbolSize 128
size_128 = record { above = omega arith; below = omega arith; aligned = refl }

new-IsSymbolSize_example : Config.new 128 ≡ ok (record { symbol_size = 128 })
new-IsSymbolSize_example = new-IsSymbolSize 128 size_128

mtu-IsSymbolSize_example : mtu (record { symbol_size = 128 }) ≡ ok (128 + 4)
mtu-IsSymbolSize_example = mtu-IsSymbolSize 128 size_128

-- A block decoder for blocks of one source symbol: it holds the block's length.
abbrev one_symbol_decode : ℕ → (sbn esi : ℕ) → List ℕ → ℕ × Option (List ℕ)
one_symbol_decode n sbn esi bytes =
    (n, if esi == 0 then (if length bytes == n then some bytes else none) else none)

abbrev pub one_symbol : BlockDecoding ℕ
one_symbol = record { start = λ sbn oti n. n; decode = one_symbol_decode }

one_symbol-length :
    (n sbn esi : ℕ) (bytes out : List ℕ)
    → (one_symbol_decode n sbn esi bytes).1 ≡ some out
    → length out ≡ n
one_symbol-length n sbn esi bytes out e = ground arith

pub one_symbol-IsSizing : IsSizing plain_oti one_symbol
one_symbol-IsSizing = record {
  size = λ n. n;
  size-start = λ sbn bytes k some_symbol few some_size. refl;
  size-decode = λ n sbn esi bytes. refl;
  length-decode = one_symbol-length;
}

abbrev two_blocks_decoder : Decoder ℕ
two_blocks_decoder = record {
  meta = two_blocks;
  blocks = record { decoder = 128; decoded = none } ∷ record { decoder = 128; decoded = none } ∷ [];
}

two_blocks-started : Decoder.new plain_oti one_symbol two_blocks ≡ ok two_blocks_decoder
unfolding Decoder.new start_blocks validate check_oti check_sizes check_blocks check_totals
    Config.new
two_blocks-started = refl

abbrev both_symbols : List Symbol
both_symbols = Symbol.new 1 0 (replicate 128 5) ∷ Symbol.new 0 0 (replicate 128 4) ∷ []

abbrev pub two_blocks_bytes : List ℕ
two_blocks_bytes = replicate 128 4 ++ replicate 72 5

two_blocks-assembled :
    assemble (feed_all one_symbol two_blocks_decoder both_symbols) ≡ some two_blocks_bytes
unfolding assemble feed_all feed add_symbol feed_block is_complete all_decoded join_decoded
two_blocks-assembled = refl

length-assemble_example : length two_blocks_bytes ≡ 200
length-assemble_example =
    length-assemble plain_oti one_symbol one_symbol-IsSizing two_blocks two_blocks_decoder
      both_symbols two_blocks_bytes two_blocks-started two_blocks-assembled

get_elem?-feed_all_example :
    get_elem? (feed_all one_symbol two_blocks_decoder both_symbols).blocks 1
    ≡ Option.map
        (λ b. run_block one_symbol 128 1 b both_symbols)
        (get_elem? two_blocks_decoder.blocks 1)
get_elem?-feed_all_example = get_elem?-feed_all one_symbol two_blocks_decoder both_symbols 1

abbrev done_block : BlockState ℕ
done_block = record { decoder = 3; decoded = some (1 ∷ 2 ∷ 3 ∷ []) }

-- An encoder for the tests: every packet is the same.
abbrev pub same_packets : BlockEncoding (List ℕ)
same_packets = record {
  with_defaults = λ bytes mtu. (two_blocks.oti_bytes, bytes ∷ []);
  source_packets = λ bytes. bytes ∷ [];
  repair_packets = λ bytes start count. replicate count bytes;
}

pub same_packets-IsPacketing : IsPacketing same_packets
same_packets-IsPacketing = record {
  length-repair = λ bytes start count. length-replicate count bytes;
}

abbrev pub two_blocks_encoder : Encoder (List ℕ)
two_blocks_encoder = record {
  config = record { symbol_size = 128 };
  meta = two_blocks;
  blocks =
      record { encoder = 1 ∷ []; source_packets = (1 ∷ []) ∷ [] }
      ∷ record { encoder = 2 ∷ []; source_packets = (2 ∷ []) ∷ [] }
      ∷ [];
}

abbrev three_repairs : List Symbol
three_repairs = Symbol.new 1 6 (2 ∷ []) ∷ Symbol.new 1 7 (2 ∷ []) ∷ Symbol.new 1 8 (2 ∷ []) ∷ []

two_blocks-repairs : repair_symbols same_packets two_blocks_encoder 1 5 3 ≡ ok three_repairs
unfolding repair_symbols block symbols_at repair_esi number_repair
two_blocks-repairs = refl

repair_symbols-IsNumbered_example : IsNumbered 1 (1 + 5) three_repairs × (length three_repairs ≡ 3)
unfolding symbols_at
repair_symbols-IsNumbered_example =
    repair_symbols-IsNumbered same_packets same_packets-IsPacketing two_blocks_encoder 1 5 3
      three_repairs two_blocks-repairs
