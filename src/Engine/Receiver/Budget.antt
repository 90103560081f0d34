-- ===== src/Engine/Receiver/Budget.antt =====
-- What `ResumeState::validate` of core/transfer-engine/src/resume.rs lets through.
use air_ferry.Prelude.{
  ℕ, ◌+◌, ◌*◌, ◌≤◌, ◌<◌, ◌≡◌, false, ◌||◌, not, ltb, leb, ◌==◌, List, [], ◌∷◌, length, some, ok,
  ok_or, checked_add, checked_mul, >>-eq-ok, >>=-eq-ok, reject_if-eq-ok, ok_or-eq-ok, arith,
}
use air_ferry.Codec.Raptorq.{Oti}
use air_ferry.Codec.Meta
use air_ferry.Codec.Meta.{ObjectMeta, max_object_bytes, max_total_source_symbols}
use air_ferry.Codec.Meta.Gate.{IsValid, validate_iff}
use air_ferry.Codec.Decoder.{max_esi}
use air_ferry.Engine.Receiver.{Cached}
use air_ferry.Engine.Receiver.Resume.{ResumeState, check_received, check_symbols, validate}

pub record Fits (meta : ObjectMeta) (c : Cached) : Type 0 where
  pub in_table : c.sbn < length meta.blocks
  pub id : c.esi < max_esi
  pub whole : length c.bytes ≡ meta.symbol_size

abbrev pub AllFit : ObjectMeta → List Cached → Type 0
AllFit meta [] = Unit {0}
AllFit meta (c ∷ symbols) = Fits meta c × AllFit meta symbols

-- The bytes that a checkpoint stores.
unfoldable pub stored_bytes : List Cached → ℕ
stored_bytes [] = 0
stored_bytes (c ∷ symbols) = length c.bytes + stored_bytes symbols

pub record IsBounded (oti : Oti) (state : ResumeState) : Type 0 where
  pub meta : IsValid oti state.meta
  pub sets : length state.received ≤ length state.meta.blocks
  pub records : length state.symbols ≤ max_total_source_symbols * 2
  pub fits : AllFit state.meta state.symbols
  pub bytes :
      stored_bytes state.symbols
      ≤ max_object_bytes * 2 + state.meta.symbol_size * length state.meta.blocks

checked_symbol :
    (meta : ObjectMeta) (c : Cached)
    → (leb (length meta.blocks) c.sbn || leb max_esi c.esi) ≡ false
    → not (length c.bytes == meta.symbol_size) ≡ false
    → Fits meta c
checked_symbol meta c inside whole = ground arith

added : (w a b c : ℕ) → checked_add w a b ≡ some c → c ≡ a + b
added w a b c e = ground arith

multiplied : (w a b c : ℕ) → checked_mul w a b ≡ some c → c ≡ a * b
multiplied w a b c e = ground arith

not_above : (a b : ℕ) → ltb a b ≡ false → b ≤ a
not_above a b h = ground arith

at_least_none : (a : ℕ) → 0 ≤ a
at_least_none a = omega arith

check_symbols-fit :
    (symbols : List Cached) (meta : ObjectMeta) (max_bytes bytes : ℕ)
    → bytes ≤ max_bytes
    → check_symbols meta max_bytes bytes symbols ≡ ok tt
    → AllFit meta symbols × (bytes + stored_bytes symbols ≤ max_bytes)
unfolding check_symbols stored_bytes
check_symbols-fit [] meta max_bytes bytes h e = (tt, omega (arith, h))
check_symbols-fit (c ∷ symbols) meta max_bytes bytes h e =
    let (inside, e1) = reject_if-eq-ok _ _ _ e in
    let (whole, e2) = reject_if-eq-ok _ _ _ e1 in
    let (next, sum, e3) = >>=-eq-ok (ok_or (checked_add 64 bytes (length c.bytes)) _) _ e2 in
    let (within, e4) = reject_if-eq-ok (ltb max_bytes next) _ _ e3 in
    let total = added 64 bytes (length c.bytes) next (ok_or-eq-ok _ _ sum) in
    let (fits, small) =
      check_symbols-fit symbols meta max_bytes next (not_above max_bytes next within) e4 in
    ((checked_symbol meta c inside whole, fits), omega (arith, small, total))

-- A checkpoint that passes has valid metadata, no more sets than blocks, and symbols that are whole, lie
-- in the block table and stay within the budgets of records and bytes.
pub validate-IsBounded :
    (oti : Oti) (state : ResumeState) → validate oti state ≡ ok tt → IsBounded oti state
unfolding validate
validate-IsBounded oti state e =
    let (valid, e1) = >>-eq-ok (Meta.validate oti state.meta) _ e in
    let (sets, e2) =
      reject_if-eq-ok (ltb (length state.meta.blocks) (length state.received))
        "too many received block sets" _ e1 in
    let (received, e4) =
      >>-eq-ok (check_received (max_total_source_symbols * 2) 0 state.received) _ e2 in
    let (few, e5) =
      reject_if-eq-ok (ltb (max_total_source_symbols * 2) (length state.symbols))
        "too many stored resume symbols" _ e4 in
    let (padding, padded, e6) =
      >>=-eq-ok
        (ok_or (checked_mul 64 state.meta.symbol_size (length state.meta.blocks))
          "resume padding budget overflow")
        _ e5 in
    let (limit, summed, e8) =
      >>=-eq-ok
        (ok_or (checked_add 64 (max_object_bytes * 2) padding) "resume byte budget overflow") _
        e6 in
    let (fits, small) =
      check_symbols-fit state.symbols state.meta limit 0 (at_least_none limit) e8 in
    record {
      meta = (validate_iff oti state.meta).0 valid;
      sets = not_above (length state.meta.blocks) (length state.received) sets;
      records = not_above (max_total_source_symbols * 2) (length state.symbols) few;
      fits = fits;
      bytes = omega (
        arith,
        small,
        added 64 (max_object_bytes * 2) padding limit (ok_or-eq-ok _ _ summed),
        multiplied 64 state.meta.symbol_size (length state.meta.blocks) padding
            (ok_or-eq-ok _ _ padded),
      );
    }
