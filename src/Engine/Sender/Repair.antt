-- ===== src/Engine/Sender/Repair.antt =====
-- The ids of repair symbols (`repair_symbol_id` of core/transfer-engine/src/sender.rs).
use native.Mathlib.Nat.{div-add-mod}
use air_ferry.Prelude.{
  ℕ, zero, suc, ◌+◌, ◌*◌, ◌/◌, ◌%◌, ◌^◌, ◌≤◌, ◌<◌, ◌≡◌, sym, ap, ap₂, ◌∙◌, inl, inr, List, [], ◌∷◌,
  length, get_elem?, some, some_inj, Option-cases, arith,
}
use air_ferry.Codec.Meta.{SourceBlockMeta}
use air_ferry.Codec.Meta.Gate.{IsCanonical}
use air_ferry.Engine.Sender.{repair_symbol_id}

-- The block that a repair id is drawn from, and the id's distance from the last source symbol.
repair_symbol_id_facts :
    (blocks : List SourceBlockMeta) (cursor sbn esi : ℕ)
    → repair_symbol_id blocks cursor ≡ some (sbn, esi)
    → (b : SourceBlockMeta) × (get_elem? blocks (cursor % length blocks) ≡ some b)
      × (b.sbn ≡ sbn)
      × (esi ≡ b.num_source_symbols + cursor / length blocks)
      × (esi < 2 ^ 24)
unfolding repair_symbol_id
repair_symbol_id_facts blocks cursor sbn esi e =
    elim (Option-cases (get_elem? blocks (cursor % length blocks))) [
      | inl missing ↦ ground (arith, missing)
      | inr (b, found) ↦
          (b, found, ground (arith, found), ground (arith, found), ground (arith, found))
    ]

sbn-IsCanonical :
    (size index i : ℕ) (blocks : List SourceBlockMeta) (b : SourceBlockMeta)
    → IsCanonical size index blocks
    → get_elem? blocks i ≡ some b
    → b.sbn ≡ index + i
sbn-IsCanonical size index i [] b canonical e = cc
sbn-IsCanonical size index zero (x ∷ blocks) b canonical e =
    ap (λ (y : SourceBlockMeta). y.sbn) (sym (some_inj e)) ∙ canonical.0 ∙ omega arith
sbn-IsCanonical size index (suc i) (x ∷ blocks) b canonical e =
    sbn-IsCanonical size (suc index) i blocks b canonical.4 e ∙ omega arith

-- On a canonical block table different cursors have different repair ids.
pub repair_symbol_id-injective :
    (size : ℕ) (blocks : List SourceBlockMeta) (c d sbn esi : ℕ)
    → IsCanonical size 0 blocks
    → repair_symbol_id blocks c ≡ some (sbn, esi)
    → repair_symbol_id blocks d ≡ some (sbn, esi)
    → c ≡ d
repair_symbol_id-injective size blocks c d sbn esi canonical e₁ e₂ =
    let (b₁, found₁, sbn₁, esi₁, room₁) = repair_symbol_id_facts blocks c sbn esi e₁ in
    let (b₂, found₂, sbn₂, esi₂, room₂) = repair_symbol_id_facts blocks d sbn esi e₂ in
    let at₁ = sbn-IsCanonical size 0 (c % length blocks) blocks b₁ canonical found₁ in
    let at₂ = sbn-IsCanonical size 0 (d % length blocks) blocks b₂ canonical found₂ in
    let same_block : c % length blocks ≡ d % length blocks = omega (arith, at₁, at₂, sbn₁, sbn₂) in
    let same : b₁ ≡ b₂ = some_inj (sym found₁ ∙ ap (get_elem? blocks) same_block ∙ found₂) in
    let same_offset : c / length blocks ≡ d / length blocks =
      omega (arith, esi₁, esi₂, ap (λ (b : SourceBlockMeta). b.num_source_symbols) same) in
    sym (div-add-mod c (length blocks))
    ∙ ap₂ (λ (q r : ℕ). length blocks * q + r) same_offset same_block
    ∙ div-add-mod d (length blocks)

-- A repair id is never the id of a source symbol, and it fits the 24 bits of RFC 6330.
pub repair_symbol_id-bounds :
    (size : ℕ) (blocks : List SourceBlockMeta) (cursor sbn esi : ℕ)
    → IsCanonical size 0 blocks
    → repair_symbol_id blocks cursor ≡ some (sbn, esi)
    → (b : SourceBlockMeta) × (get_elem? blocks sbn ≡ some b)
      × (b.num_source_symbols ≤ esi)
      × (esi < 2 ^ 24)
repair_symbol_id-bounds size blocks cursor sbn esi canonical e =
    let (b, found, right, id, room) = repair_symbol_id_facts blocks cursor sbn esi e in
    let at = sbn-IsCanonical size 0 (cursor % length blocks) blocks b canonical found in
    (b, ap (get_elem? blocks) (omega (arith, right, at)) ∙ found, omega (arith, id), room)
