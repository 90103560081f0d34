-- ===== src/Codec/Meta/Gate.antt =====
-- What `validate` accepts (core/raptorq-core/src/meta.rs), described independently of the order of its
-- tests.
use air_ferry.Prelude.{
  ℕ, suc, ◌+◌, ◌*◌, ◌/◌, ◌%◌, ◌^◌, ◌≤◌, ◌<◌, ◌≡◌, ◌↔◌, List, [], ◌∷◌, length, get_or, ok, >>-eq-ok,
  >>=-eq-ok, arith,
}
use air_ferry.Codec.Raptorq.{Oti}
use air_ferry.Codec.Config
use air_ferry.Codec.Config.{IsSymbolSize, new-eq-ok, new-IsSymbolSize}
use air_ferry.Codec.Meta.{
  SourceBlockMeta, ObjectMeta, Totals, sum_symbols, check_blocks, check_oti, check_sizes,
  check_totals, validate, max_source_symbols_per_block, max_object_bytes, max_total_source_symbols,
}

-- A block table numbered from `index`, each block a whole number of symbols.
abbrev pub IsCanonical : (size index : ℕ) → List SourceBlockMeta → Type 0
IsCanonical size index [] = Unit {0}
IsCanonical size index (b ∷ bs) =
    (b.sbn ≡ index)
    × (0 < b.num_source_symbols)
    × (b.num_source_symbols ≤ max_source_symbols_per_block)
    × (b.block_length ≡ b.num_source_symbols * size)
    × IsCanonical size (suc index) bs

pub record IsValid (oti : Oti) (m : ObjectMeta) : Type 0 where
  pub size : IsSymbolSize m.symbol_size
  pub oti_size : oti.symbol_size m.oti_bytes ≡ m.symbol_size
  pub oti_length : oti.transfer_length m.oti_bytes ≡ m.transfer_length
  pub sub_blocks : 0 < oti.sub_blocks m.oti_bytes
  pub alignment : 0 < oti.symbol_alignment m.oti_bytes
  pub divisible : m.symbol_size % oti.symbol_alignment m.oti_bytes ≡ 0
  pub units : oti.sub_blocks m.oti_bytes ≤ m.symbol_size / oti.symbol_alignment m.oti_bytes
  pub reserved : get_or m.oti_bytes 5 0 ≡ 0
  pub not_empty : 0 < m.transfer_length
  pub within : m.transfer_length ≤ max_object_bytes
  pub some_block : 0 < length m.blocks
  pub few_blocks : length m.blocks ≤ 255
  pub oti_blocks : oti.source_blocks m.oti_bytes ≡ length m.blocks
  pub canonical : IsCanonical m.symbol_size 0 m.blocks
  pub few_symbols : sum_symbols m.blocks ≤ max_total_source_symbols
  pub carried : m.transfer_length ≤ sum_symbols m.blocks * m.symbol_size
  pub decoder_bytes :
      sum_symbols m.blocks * m.symbol_size ≤ max_object_bytes + m.symbol_size * length m.blocks

check_blocks_sound :
    (size index : ℕ) (bs : List SourceBlockMeta) (t u : Totals)
    → index + length bs < 2 ^ 32
    → check_blocks size index bs t ≡ ok u
    → IsCanonical size index bs
      × (u.k ≡ t.k + sum_symbols bs)
      × (u.block_len ≡ t.block_len + sum_symbols bs * size)
unfolding check_blocks sum_symbols
check_blocks_sound size index [] t u few e = (tt, ground arith, ground arith)
check_blocks_sound size index (b ∷ bs) t u few e = ground (
  arith,
  check_blocks_sound size (suc index) bs
      (record { block_len = t.block_len + b.block_length; k = t.k + b.num_source_symbols }) u,
)

check_blocks_complete :
    (size index : ℕ) (bs : List SourceBlockMeta) (t : Totals)
    → index + length bs < 2 ^ 32
    → IsCanonical size index bs
    → t.k + sum_symbols bs < 2 ^ 64
    → t.block_len + sum_symbols bs * size < 2 ^ 64
    → check_blocks size index bs t
      ≡ ok (record { block_len = t.block_len + sum_symbols bs * size; k = t.k + sum_symbols bs })
unfolding check_blocks sum_symbols
check_blocks_complete size index [] t few c hk hl = ground arith
check_blocks_complete size index (b ∷ bs) t few c hk hl = ground (
  arith,
  check_blocks_complete size (suc index) bs
      (record { block_len = t.block_len + b.block_length; k = t.k + b.num_source_symbols }),
)

module _ (oti : Oti) (m : ObjectMeta) where
  -- The facts that each part of the gate establishes.
  abbrev OtiFacts : Type 0
  OtiFacts =
      IsSymbolSize m.symbol_size
      × (oti.symbol_size m.oti_bytes ≡ m.symbol_size)
      × (oti.transfer_length m.oti_bytes ≡ m.transfer_length)
      × (0 < oti.sub_blocks m.oti_bytes)
      × (0 < oti.symbol_alignment m.oti_bytes)
      × (m.symbol_size % oti.symbol_alignment m.oti_bytes ≡ 0)
      × (oti.sub_blocks m.oti_bytes ≤ m.symbol_size / oti.symbol_alignment m.oti_bytes)
      × (get_or m.oti_bytes 5 0 ≡ 0)

  check_oti_sound : check_oti oti m ≡ ok tt → OtiFacts
  unfolding check_oti Config.new
  check_oti_sound e = ground arith

  check_oti_complete : OtiFacts → check_oti oti m ≡ ok tt
  unfolding check_oti Config.new
  check_oti_complete f = ground arith

  abbrev SizeFacts : Type 0
  SizeFacts =
      (0 < m.transfer_length)
      × (m.transfer_length ≤ max_object_bytes)
      × (0 < length m.blocks)
      × (length m.blocks ≤ 255)
      × (oti.source_blocks m.oti_bytes ≡ length m.blocks)

  check_sizes_sound : check_sizes oti m ≡ ok tt → SizeFacts
  unfolding check_sizes
  check_sizes_sound e = ground arith

  check_sizes_complete : SizeFacts → check_sizes oti m ≡ ok tt
  unfolding check_sizes
  check_sizes_complete f = ground arith

  abbrev TotalFacts : Totals → Type 0
  TotalFacts t =
      (t.k ≤ max_total_source_symbols)
      × (t.block_len ≤ max_object_bytes + m.symbol_size * length m.blocks)
      × (m.transfer_length ≤ t.block_len)

  check_totals_sound : (t : Totals) → check_totals oti m t ≡ ok tt → TotalFacts t
  unfolding check_totals
  check_totals_sound t e = ground arith

  padding_fits :
      m.symbol_size ≤ 65528 → length m.blocks ≤ 255 → m.symbol_size * length m.blocks < 2 ^ 63
  padding_fits h k = grind arith

  check_totals_complete :
      (t : Totals)
      → m.symbol_size * length m.blocks < 2 ^ 63
      → TotalFacts t
      → check_totals oti m t ≡ ok tt
  unfolding check_totals
  check_totals_complete t few f = ground arith

  pub validate_sound : validate oti m ≡ ok tt → IsValid oti m
  unfolding validate
  validate_sound e =
      let (u₁, e₁) = >>-eq-ok (check_oti oti m) _ e in
      let (u₂, e₂) = >>-eq-ok (check_sizes oti m) _ e₁ in
      let (t, loop, e₃) = >>=-eq-ok (check_blocks _ _ _ _) _ e₂ in
      let (o₁, o₂, o₃, o₄, o₅, o₆, o₇, o₈) = check_oti_sound u₁ in
      let (s₁, s₂, s₃, s₄, s₅) = check_sizes_sound u₂ in
      let (canonical, k, block_len) =
        check_blocks_sound m.symbol_size 0 m.blocks (record { block_len = 0; k = 0 }) t
          (omega arith) loop in
      let (t₁, t₂, t₃) = check_totals_sound t e₃ in
      record {
        size = o₁;
        oti_size = o₂;
        oti_length = o₃;
        sub_blocks = o₄;
        alignment = o₅;
        divisible = o₆;
        units = o₇;
        reserved = o₈;
        not_empty = s₁;
        within = s₂;
        some_block = s₃;
        few_blocks = s₄;
        oti_blocks = s₅;
        canonical = canonical;
        few_symbols = omega arith;
        carried = omega arith;
        decoder_bytes = omega arith;
      }

  pub validate_complete : IsValid oti m → validate oti m ≡ ok tt
  unfolding validate
  validate_complete v =
      let padding = padding_fits v.size.below v.few_blocks in
      rw
        (
          check_oti_complete (
            v.size, v.oti_size, v.oti_length, v.sub_blocks, v.alignment, v.divisible, v.units,
            v.reserved,
          ),
          check_sizes_complete (v.not_empty, v.within, v.some_block, v.few_blocks, v.oti_blocks),
          check_blocks_complete m.symbol_size 0 m.blocks (record { block_len = 0; k = 0 })
              (omega arith) v.canonical (omega arith) (omega arith),
        )
        (check_totals_complete _ padding (omega arith))

  -- `validate` accepts the metadata exactly when `IsValid` holds of it.
  pub validate_iff : (validate oti m ≡ ok tt) ↔ IsValid oti m
  validate_iff = (validate_sound, validate_complete)
