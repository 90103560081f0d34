-- ===== src/Engine/Sender/Plan.antt =====
-- The source plan (`build_source_plan` of core/transfer-engine/src/sender.rs).
use air_ferry.Prelude.{
  ℕ, zero, suc, ◌+◌, ◌≤◌, ◌≡◌, refl, ap₂, ◌∙◌, inl, inr, Bool, false, ◌&&◌, ltb, leb, ◌==◌, List,
  [], ◌∷◌, ◌++◌, if◌then◌else◌, Bool-cases, arith,
}
use air_ferry.Codec.Meta.{SourceBlockMeta, ObjectMeta}
use air_ferry.Engine.Sender.{max_k, plan_row, plan_rows, build_source_plan}

abbrev pub is_id : ℕ × ℕ → ℕ × ℕ → Bool
is_id (s, e) (sbn, esi) = s == sbn && e == esi

-- How often an id stands in a plan.
abbrev pub count_id : ℕ × ℕ → List (ℕ × ℕ) → ℕ
count_id id [] = 0
count_id id (x ∷ plan) = if is_id x id then suc (count_id id plan) else count_id id plan

-- How many blocks of the table have the source symbol `(sbn, esi)`.
abbrev pub count_blocks : ℕ × ℕ → List SourceBlockMeta → ℕ
count_blocks id [] = 0
count_blocks (sbn, esi) (b ∷ blocks) =
    if b.sbn == sbn && ltb esi b.num_source_symbols
    then suc (count_blocks (sbn, esi) blocks)
    else count_blocks (sbn, esi) blocks

count_id-append :
    (id : ℕ × ℕ) (xs ys : List (ℕ × ℕ)) → count_id id (xs ++ ys) ≡ count_id id xs + count_id id ys
count_id-append id [] ys = omega arith
count_id-append id (x ∷ xs) ys = ground (arith, count_id-append id xs ys)

count_id-plan_row :
    (blocks : List SourceBlockMeta) (e sbn esi : ℕ)
    → count_id (sbn, esi) (plan_row blocks e)
      ≡ (if e == esi then count_blocks (sbn, esi) blocks else 0)
unfolding plan_row
count_id-plan_row [] e sbn esi = ground arith
count_id-plan_row (b ∷ blocks) e sbn esi = ground (arith, count_id-plan_row blocks e sbn esi)

join_windows :
    (e n esi c : ℕ)
    → (if e == esi then c else 0) + (if leb (suc e) esi && ltb esi (suc e + n) then c else 0)
      ≡ (if leb e esi && ltb esi (e + suc n) then c else 0)
join_windows e n esi c = ground arith

whole_window :
    (k esi c : ℕ) → (k ≤ esi → c ≡ 0) → (if leb 0 esi && ltb esi (0 + k) then c else 0) ≡ c
whole_window k esi c h = elim (Bool-cases (ltb esi k)) [
  | inl inside ↦ ground arith
  | inr outside ↦ rw (h (ground arith)) (ground arith)
]

count_id-plan_rows :
    (blocks : List SourceBlockMeta) (e n sbn esi : ℕ)
    → count_id (sbn, esi) (plan_rows blocks e n)
      ≡ (if leb e esi && ltb esi (e + n) then count_blocks (sbn, esi) blocks else 0)
unfolding plan_rows
count_id-plan_rows blocks e zero sbn esi = ground arith
count_id-plan_rows blocks e (suc n) sbn esi =
    count_id-append (sbn, esi) (plan_row blocks e) (plan_rows blocks (suc e) n)
    ∙ ap₂ (λ (x y : ℕ). x + y) (count_id-plan_row blocks e sbn esi)
        (count_id-plan_rows blocks (suc e) n sbn esi)
    ∙ join_windows e n esi (count_blocks (sbn, esi) blocks)

beyond : (same : Bool) (esi k : ℕ) → k ≤ esi → (same && ltb esi k) ≡ false
beyond same esi k h = ground arith

none_above :
    (blocks : List SourceBlockMeta) (sbn esi : ℕ)
    → max_k blocks ≤ esi
    → count_blocks (sbn, esi) blocks ≡ 0
unfolding max_k
none_above [] sbn esi h = refl
none_above (b ∷ blocks) sbn esi h =
    rw (beyond (b.sbn == sbn) esi b.num_source_symbols (omega arith))
      (none_above blocks sbn esi (omega arith))

-- An id stands in the source plan as often as the block table has it as a source symbol: none is left
-- out, none is sent twice, and nothing else is sent.
pub count_id-build_source_plan :
    (meta : ObjectMeta) (sbn esi : ℕ)
    → count_id (sbn, esi) (build_source_plan meta) ≡ count_blocks (sbn, esi) meta.blocks
unfolding build_source_plan
count_id-build_source_plan meta sbn esi =
    count_id-plan_rows meta.blocks 0 (max_k meta.blocks) sbn esi
    ∙ whole_window (max_k meta.blocks) esi (count_blocks (sbn, esi) meta.blocks)
        (none_above meta.blocks sbn esi)
