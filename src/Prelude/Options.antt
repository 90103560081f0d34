-- ===== src/Prelude/Options.antt =====
-- The chain of `Option`s that `?` makes in a function that returns one.
use mathlib.Core.Bool.{Bool, true, false}
use mathlib.Core.Option.{Option, none, some}

infixl 5 ◌>>=◌ ◌>>◌
abbrev pub ◌>>=◌ {ℓ κ} : {A : Type ℓ} {B : Type κ} → Option A → (A → Option B) → Option B
none >>= f = none
some a >>= f = f a

abbrev pub ◌>>◌ {ℓ} : {B : Type ℓ} → Option (Unit {0}) → Option B → Option B
none >> k = none
some u >> k = k

-- `if bad { return None; }`
abbrev pub stop_if : Bool → Option (Unit {0})
stop_if true = none
stop_if false = some tt
