-- ===== src/Codec/Config.antt =====
-- The codec configuration (core/raptorq-core/src/config.rs).
use air_ferry.Prelude.{
  ℕ, ◌+◌, ◌%◌, ◌≤◌, ◌≡◌, ◌||◌, not, ltb, ◌==◌, Result, ok, ◌>>=◌, ◌>>◌, reject_if, ok_or,
  checked_add, try_from, arith,
}
use air_ferry.Codec.Errors.{Error, invalid_symbol_size}

abbrev pub default_symbol_size : ℕ
default_symbol_size = 1024

abbrev pub min_symbol_size : ℕ
min_symbol_size = 64

abbrev pub max_symbol_size : ℕ
max_symbol_size = 65528

abbrev pub payload_id_size : ℕ
payload_id_size = 4

pub record Config : Type 0 where
  pub symbol_size : ℕ

abbrev pub default : Config
default = record { symbol_size = default_symbol_size }

-- `Config::new`
unfoldable pub new : ℕ → Result Error Config
new symbol_size =
    reject_if
      ((ltb symbol_size min_symbol_size || ltb max_symbol_size symbol_size)
        || not (symbol_size % 8 == 0))
      invalid_symbol_size
    >> ok (record { symbol_size = symbol_size })

-- `checked_add` of the `u32` and `u16::try_from`.
unfoldable pub mtu : Config → Result Error ℕ
mtu c = do
  v ← ok_or (checked_add 32 c.symbol_size payload_id_size) invalid_symbol_size
  ok_or (try_from 16 v) invalid_symbol_size

-- A symbol size that the program admits.
pub record IsSymbolSize (size : ℕ) : Type 0 where
  pub above : min_symbol_size ≤ size
  pub below : size ≤ max_symbol_size
  pub aligned : size % 8 ≡ 0

pub new-eq-ok :
    (size : ℕ) (c : Config) → new size ≡ ok c → IsSymbolSize size × (c.symbol_size ≡ size)
unfolding new
new-eq-ok size c h = ground arith

-- Every admitted symbol size gives a configuration.
pub new-IsSymbolSize :
    (size : ℕ) → IsSymbolSize size → new size ≡ ok (record { symbol_size = size })
unfolding new
new-IsSymbolSize size s = ground arith

-- An admitted symbol size always has an MTU: the packet id still fits 16 bits.
pub mtu-IsSymbolSize :
    (size : ℕ) → IsSymbolSize size → mtu (record { symbol_size = size }) ≡ ok (size + 4)
unfolding mtu
mtu-IsSymbolSize size s = ground arith
