-- ===== src/Codec/Meta.antt =====
-- Object metadata and the gate that a descriptor must pass (core/raptorq-core/src/meta.rs).
pub mod Gate
use air_ferry.Prelude.{
  ℕ, suc, ◌+◌, ◌*◌, ◌/◌, ◌%◌, ◌^◌, ◌≤◌, ◌<◌, ◌||◌, not, ltb, ◌==◌, List, [], ◌∷◌, map, String,
  length, get_or, Option, Result, ok, err, ◌>>=◌, ◌>>◌, reject_if, ok_or, is_err, checked_add,
  checked_mul, if◌then◌else◌,
}
use air_ferry.Codec.Raptorq.{Oti, BlockEncoding}
use air_ferry.Codec.Config
use air_ferry.Codec.Config.{Config}

abbrev pub max_source_symbols_per_block : ℕ
max_source_symbols_per_block = 56403

abbrev pub max_source_blocks : ℕ
max_source_blocks = 256

abbrev pub max_object_bytes : ℕ
max_object_bytes = 32 * 1024 * 1024

abbrev pub max_original_bytes : ℕ
max_original_bytes = 256 * 1024 * 1024

abbrev pub max_total_source_symbols : ℕ
max_total_source_symbols = 524288

pub record SourceBlockMeta : Type 0 where
  pub sbn : ℕ
  pub num_source_symbols : ℕ
  pub block_length : ℕ

pub record ObjectMeta : Type 0 where
  pub transfer_length : ℕ
  pub symbol_size : ℕ
  pub oti_bytes : List ℕ
  pub blocks : List SourceBlockMeta

-- `blocks.iter().map(|b| b.num_source_symbols).sum()`, before the `u32` wraps.
unfoldable pub sum_symbols : List SourceBlockMeta → ℕ
sum_symbols [] = 0
sum_symbols (b ∷ bs) = b.num_source_symbols + sum_symbols bs

unfoldable pub total_symbols : List SourceBlockMeta → ℕ
total_symbols bs = sum_symbols bs % 2 ^ 32

-- The two sums that the loop of `validate` keeps.
pub record Totals : Type 0 where
  pub block_len : ℕ
  pub k : ℕ

-- The loop over `self.blocks.iter().enumerate()`.
unfoldable pub check_blocks :
    (symbol_size index : ℕ) → List SourceBlockMeta → Totals → Result String Totals
check_blocks symbol_size index [] t = ok t
check_blocks symbol_size index (b ∷ bs) t = do
  reject_if (not (b.sbn == index % 2 ^ 32)) "block sbn must equal its canonical index"
  reject_if (b.num_source_symbols == 0 || ltb max_source_symbols_per_block b.num_source_symbols)
      "block K out of range"
  expect ← ok_or (checked_mul 64 b.num_source_symbols symbol_size) "block_length overflow"
  reject_if (not (b.block_length == expect)) "block_length inconsistent with K*symbol_size"
  block_len ← ok_or (checked_add 64 t.block_len b.block_length) "total block length overflow"
  k ← ok_or (checked_add 64 t.k b.num_source_symbols) "total source symbol count overflow"
  check_blocks symbol_size (suc index) bs (record { block_len = block_len; k = k })

module _ (oti : Oti) where
  -- The tests on the OTI bytes, up to the transfer length.
  unfoldable pub check_oti : ObjectMeta → Result String (Unit {0})
  check_oti m = do
    reject_if (is_err (Config.new m.symbol_size)) "symbol_size out of range"
    let size = oti.symbol_size m.oti_bytes
    let alignment = oti.symbol_alignment m.oti_bytes
    let sub_blocks = oti.sub_blocks m.oti_bytes
    reject_if (size == 0 || not (size == m.symbol_size)) "OTI symbol_size invalid or mismatched"
    reject_if (not (oti.transfer_length m.oti_bytes == m.transfer_length))
        "OTI transfer_length mismatched"
    reject_if (sub_blocks == 0 || alignment == 0) "OTI sub-block/alignment must be non-zero"
    reject_if (not (size % alignment == 0)) "OTI symbol_size is not alignment-divisible"
    reject_if (ltb (size / alignment) sub_blocks) "OTI sub-block count exceeds aligned symbol units"
    reject_if (not (get_or m.oti_bytes 5 0 == 0)) "OTI reserved byte must be zero"

  unfoldable pub check_sizes : ObjectMeta → Result String (Unit {0})
  check_sizes m = do
    reject_if (m.transfer_length == 0 || ltb max_object_bytes m.transfer_length)
        "transfer_length exceeds local receiver budget"
    let count = length m.blocks
    reject_if ((count == 0 || ltb max_source_blocks count) || ltb 255 count)
        "source block count out of range"
    reject_if (not (oti.source_blocks m.oti_bytes == count)) "OTI source block count mismatched"

  unfoldable pub check_totals : ObjectMeta → Totals → Result String (Unit {0})
  check_totals m t = do
    reject_if (ltb max_total_source_symbols t.k)
        "total source symbol count exceeds local receiver budget"
    padding_budget ←
        ok_or (checked_mul 64 m.symbol_size (length m.blocks)) "padding budget overflow"
    budget ← ok_or (checked_add 64 max_object_bytes padding_budget) "decoder byte budget overflow"
    reject_if (ltb budget t.block_len) "decoder bytes exceed local receiver budget"
    reject_if (ltb t.block_len m.transfer_length) "transfer_length exceeds total block bytes"

  -- The whole gate, in the order of the source.
  unfoldable pub validate : ObjectMeta → Result String (Unit {0})
  validate m = do
    check_oti m
    check_sizes m
    t ← check_blocks m.symbol_size 0 m.blocks (record { block_len = 0; k = 0 })
    check_totals m t

-- `ObjectMeta::from_encoder`: the block table of an encoder.
module _ {E : Type 0} (rq : BlockEncoding E) where
  unfoldable pub table : (symbol_size index : ℕ) → List E → List SourceBlockMeta
  table symbol_size index [] = []
  table symbol_size index (enc ∷ encs) =
      let k = length (rq.source_packets enc) % 2 ^ 32 in
      record { sbn = index % 2 ^ 32; num_source_symbols = k; block_length = k * symbol_size }
      ∷ table symbol_size (suc index) encs

  unfoldable pub from_encoder : ℕ → Config → List ℕ → List E → ObjectMeta
  from_encoder data_len config oti encs = record {
    transfer_length = data_len;
    symbol_size = config.symbol_size;
    oti_bytes = oti;
    blocks = table config.symbol_size 0 encs;
  }
