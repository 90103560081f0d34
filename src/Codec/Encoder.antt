-- ===== src/Codec/Encoder.antt =====
-- The RaptorQ encoder of one object (core/raptorq-core/src/encoder.rs). The source packets of a block are
-- taken from its block encoder; the code caches them.
pub mod Ids
use air_ferry.Prelude.{
  ℕ, suc, ◌+◌, ◌-◌, ◌%◌, ◌^◌, Bool, true, false, ltb, leb, ◌==◌, List, [], ◌∷◌, length, get_elem?,
  get_or, take, Option, none, some, Result, ok, err, ◌>>=◌, ◌>>◌, reject_if, ok_or, checked_add,
  if◌then◌else◌, map,
}
use air_ferry.Codec.Raptorq.{BlockEncoding}
use air_ferry.Codec.Errors.{Error, empty_data, block_out_of_range, unknown_symbol}
use air_ferry.Codec.Config
use air_ferry.Codec.Config.{Config}
use air_ferry.Codec.Symbol
use air_ferry.Codec.Symbol.{Symbol}
use air_ferry.Codec.Meta.{SourceBlockMeta, ObjectMeta, from_encoder}

pub record CachedBlock (E : Type 0) : Type 0 where
  pub encoder : E
  pub source_packets : List (List ℕ)

pub record Encoder (E : Type 0) : Type 0 where
  pub config : Config
  pub meta : ObjectMeta
  pub blocks : List (CachedBlock E)

abbrev pub is_empty {ℓ} : {A : Type ℓ} → List A → Bool
is_empty [] = true
is_empty (x ∷ xs) = false

-- `meta.blocks[sbn].num_source_symbols`, where the table has such a block.
unfoldable pub symbols_at : List SourceBlockMeta → ℕ → ℕ
symbols_at blocks sbn = elim (get_elem? blocks sbn) [ none ↦ 0 | some b ↦ b.num_source_symbols ]

unfoldable pub number_from : (sbn esi : ℕ) → List (List ℕ) → List Symbol
number_from sbn esi [] = []
number_from sbn esi (p ∷ ps) = Symbol.new sbn (esi % 2 ^ 32) p ∷ number_from sbn (suc esi) ps

-- `k.checked_add(start).and_then(|s| s.checked_add(i))`
unfoldable pub repair_esi : (k start i : ℕ) → Option ℕ
repair_esi k start i = elim (checked_add 32 k start) [ none ↦ none | some s ↦ checked_add 32 s i ]

unfoldable pub number_repair : (sbn k start i : ℕ) → List (List ℕ) → Result Error (List Symbol)
number_repair sbn k start i [] = ok []
number_repair sbn k start i (p ∷ ps) = do
  esi ← ok_or (repair_esi k start (i % 2 ^ 32)) (unknown_symbol sbn (2 ^ 32 - 1))
  rest ← number_repair sbn k start (suc i) ps
  ok (Symbol.new sbn esi p ∷ rest)

module _ {E : Type 0} where
  unfoldable pub block : Encoder E → ℕ → Result Error (CachedBlock E)
  block enc sbn =
      ok_or (get_elem? enc.blocks sbn) (block_out_of_range sbn (length enc.blocks % 2 ^ 32))

  -- The cache holds a packet for each symbol that the table counts.
  unfoldable pub source_symbol : Encoder E → (sbn esi : ℕ) → Result Error Symbol
  source_symbol enc sbn esi = do
    b ← block enc sbn
    let k = symbols_at enc.meta.blocks sbn
    reject_if (leb k esi) (unknown_symbol sbn esi)
    ok (Symbol.new sbn esi (get_or b.source_packets esi []))

  pub source_symbols : Encoder E → ℕ → Result Error (List Symbol)
  source_symbols enc sbn = do
    b ← block enc sbn
    ok (number_from sbn 0 (take (symbols_at enc.meta.blocks sbn) b.source_packets))

module _ {E : Type 0} (rq : BlockEncoding E) where
  unfoldable pub repair_symbols : Encoder E → (sbn start count : ℕ) → Result Error (List Symbol)
  repair_symbols enc sbn start count = do
    b ← block enc sbn
    let k = symbols_at enc.meta.blocks sbn
    let numbered : Result Error (List Symbol) = do
      last_esi ← ok_or (repair_esi k start (count - 1)) (unknown_symbol sbn (2 ^ 32 - 1))
      reject_if (leb (2 ^ 24) last_esi) (unknown_symbol sbn last_esi)
      number_repair sbn k start 0 (rq.repair_packets b.encoder start count)
    if count == 0 then ok [] else numbered

  unfoldable pub cache : List E → List (CachedBlock E)
  cache [] = []
  cache (e ∷ es) = record { encoder = e; source_packets = rq.source_packets e } ∷ cache es

  -- `Encoder::new`, with the configuration checked once more.
  unfoldable pub new : List ℕ → Config → Result Error (Encoder E)
  new bytes config₀ = do
    reject_if (is_empty bytes) empty_data
    config ← Config.new config₀.symbol_size
    mtu ← Config.mtu config
    let (oti, encs) = rq.with_defaults bytes mtu
    ok (record {
      config = config;
      meta = from_encoder rq (length bytes) config oti encs;
      blocks = cache encs;
    })
