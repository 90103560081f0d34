-- ===== src/Codec/Encoder/Ids.antt =====
-- Which symbols the encoder hands out.
use air_ferry.Prelude.{
  ok_or, ok_or-eq-ok, ◌>>=◌, ℕ, suc, ◌+◌, ◌-◌, ◌^◌, ◌≤◌, ◌<◌, ◌≡◌, refl, ap, subst, ◌∙◌, inl, inr,
  false, List, [], ◌∷◌, length, some, ok, reject_if-eq-ok, leb, Bool-cases, ok-injective, >>=-eq-ok,
  arith, ◌==◌,
}
use native.Mathlib.Nat.{add-zero}
use air_ferry.Codec.Raptorq.{BlockEncoding, IsPacketing}
use air_ferry.Codec.Symbol
use air_ferry.Codec.Symbol.{Symbol}
use air_ferry.Codec.Encoder.{Encoder, block, symbols_at, repair_esi, number_repair, repair_symbols}

-- The symbols of `sbn` with the ids `esi`, `esi + 1` and so on.
abbrev pub IsNumbered : (sbn esi : ℕ) → List Symbol → Type 0
IsNumbered sbn esi [] = Unit {0}
IsNumbered sbn esi (s ∷ ss) =
    (s.id.sbn ≡ sbn) × (s.id.esi ≡ esi) × (s.id.esi < 2 ^ 24) × IsNumbered sbn (suc esi) ss

number_repair_step :
    (sbn k start i : ℕ) (p : List ℕ) (ps : List (List ℕ))
    → k + start + i < 2 ^ 24
    → number_repair sbn k start i (p ∷ ps) ≡ (
        number_repair sbn k start (suc i) ps >>= λ rest.
        ok (Symbol.new sbn (k + start + i) p ∷ rest))
unfolding number_repair repair_esi
number_repair_step sbn k start i p ps room = ground arith

number_repair-IsNumbered :
    (sbn k start i : ℕ) (ps : List (List ℕ)) (ss : List Symbol)
    → k + start + i + length ps ≤ 2 ^ 24
    → number_repair sbn k start i ps ≡ ok ss
    → IsNumbered sbn (k + start + i) ss × (length ss ≡ length ps)
number_repair-IsNumbered sbn k start i [] ss room e = unfold number_repair in ground arith
number_repair-IsNumbered sbn k start i (p ∷ ps) ss room e =
    let e' = rw (number_repair_step sbn k start i p ps (omega arith)) at e in
    let (rest, ih, e₂) = >>=-eq-ok (number_repair sbn k start (suc i) ps) _ e' in
    let (ids, len) = number_repair-IsNumbered sbn k start (suc i) ps rest (omega arith) ih in
    subst (λ (r : List Symbol). IsNumbered sbn (k + start + i) r × (length r ≡ suc (length ps)))
      (ok-injective e₂)
      (
        (refl, refl, omega arith, subst (λ (n : ℕ). IsNumbered sbn n rest) (omega arith) ids),
        ap suc len,
      )

last_id : (k start i esi : ℕ) → repair_esi k start i ≡ some esi → (esi ≡ k + start + i)
unfolding repair_esi
last_id k start i esi e = ground arith

ids_fit :
    (k start count last : ℕ)
    → (count == 0) ≡ false
    → repair_esi k start (count - 1) ≡ some last
    → leb (2 ^ 24) last ≡ false
    → k + start + count ≤ 2 ^ 24
ids_fit k start count last asked id room = ground (arith, last_id k start (count - 1) last)

module _ {E : Type 0} (rq : BlockEncoding E) (law : IsPacketing rq) where
  -- A successful call returns as many symbols as were asked for, numbered in order from the first
  -- repair id of the block, and every id fits the 24 bits of RFC 6330.
  pub repair_symbols-IsNumbered :
      (enc : Encoder E) (sbn start count : ℕ) (ss : List Symbol)
      → repair_symbols rq enc sbn start count ≡ ok ss
      → IsNumbered sbn (symbols_at enc.meta.blocks sbn + start) ss × (length ss ≡ count)
  unfolding repair_symbols
  repair_symbols-IsNumbered enc sbn start count ss e =
      let k = symbols_at enc.meta.blocks sbn in
      let (b, found, e₁) = >>=-eq-ok (block enc sbn) _ e in
      elim (Bool-cases (count == 0)) [
        | inl none_asked ↦
            subst (λ (r : List Symbol). IsNumbered sbn (k + start) r × (length r ≡ count))
              (ok-injective (rw none_asked at e₁)) (tt, ground arith)
        | inr some_asked ↦
            let e₂ = rw some_asked at e₁ in
            let (last, id, e₃) = >>=-eq-ok (ok_or (repair_esi k start (count - 1)) _) _ e₂ in
            let (room, e₄) = reject_if-eq-ok (leb (2 ^ 24) last) _ _ e₃ in
            let fits : k + start + count ≤ 2 ^ 24 =
              ids_fit k start count last some_asked (ok_or-eq-ok _ _ id) room in
            let (ids, len) =
              number_repair-IsNumbered sbn k start 0 (rq.repair_packets b.encoder start count) ss
                (omega (arith, law.length-repair b.encoder start count)) e₄ in
            (
              subst (λ (n : ℕ). IsNumbered sbn n ss) (add-zero (k + start)) ids,
              len ∙ law.length-repair b.encoder start count,
            )
      ]
