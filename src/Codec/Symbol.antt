-- ===== src/Codec/Symbol.antt =====
-- Symbols and their identity (core/raptorq-core/src/symbol.rs).
use air_ferry.Prelude.{ℕ, List}

pub record SymbolId : Type 0 where
  pub sbn : ℕ
  pub esi : ℕ

pub record Symbol : Type 0 where
  pub id : SymbolId
  pub bytes : List ℕ

abbrev pub new : ℕ → ℕ → List ℕ → Symbol
new sbn esi bytes = record { id = record { sbn = sbn; esi = esi }; bytes = bytes }
