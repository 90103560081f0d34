-- ===== src/Protocol/QrRender.antt =====
-- QR matrices (core/qr-protocol/src/qr_render.rs). The generator of the vendored crate fast_qr is a parameter:
-- for a version from 1 to 40, the modules in row-major order and the side, or nothing.
pub mod Smallest
use air_ferry.Prelude.{
  ℕ, zero, suc, ◌+◌, ◌-◌, Bool, leb, List, [], ◌∷◌, length, take, ◌*◌, Option, none, some, Result,
  ok, err, ◌>>=◌, ok_or, if◌then◌else◌,
}
use air_ferry.Protocol.Errors.{Error, buffer_too_short}

abbrev pub qr_max_bytes : ℕ
qr_max_bytes = 2953

abbrev pub qr_byte_capacity_l : List ℕ
qr_byte_capacity_l =
    17 ∷ 32 ∷ 53 ∷ 78 ∷ 106 ∷ 134 ∷ 154 ∷ 192 ∷ 230 ∷ 271 ∷ 321 ∷ 367 ∷ 425 ∷ 458 ∷ 520 ∷ 586 ∷ 644
    ∷ 718 ∷ 792 ∷ 858 ∷ 929 ∷ 1003 ∷ 1091 ∷ 1171 ∷ 1273 ∷ 1367 ∷ 1465 ∷ 1528 ∷ 1628 ∷ 1732 ∷ 1840
    ∷ 1952 ∷ 2068 ∷ 2188 ∷ 2303 ∷ 2431 ∷ 2563 ∷ 2699 ∷ 2809 ∷ 2953 ∷ []

-- `.iter().position(|&cap| cap >= len)`
unfoldable pub position : List ℕ → ℕ → Option ℕ
position [] n = none
position (cap ∷ caps) n =
    let rest = position caps n in
    if leb n cap then some 0 else elim rest [ none ↦ none | some i ↦ some (suc i) ]

unfoldable pub min_version_for : ℕ → Option ℕ
min_version_for n = elim (position qr_byte_capacity_l n) [ none ↦ none | some i ↦ some (suc i) ]

pub record QrMatrix : Type 0 where
  pub modules : List Bool
  pub size : ℕ

-- The generator: the side and the array of cells, of which the first `side * side` are meant.
abbrev pub Generator : Type 0
Generator = (version : ℕ) → List ℕ → Option (ℕ × List Bool)

-- A code's matrix.
unfoldable pub matrix : ℕ × List Bool → QrMatrix
matrix (size, cells) = record { modules = take (size * size) cells; size = size }

module _ (qr : Generator) where
  -- The loop from version `i + 1` on, for `n` versions: the first code that the generator makes.
  unfoldable pub walk : (n i : ℕ) → List ℕ → Option QrMatrix
  walk zero i bytes = none
  walk (suc n) i bytes = elim (qr (suc i) bytes) [
    | none ↦ walk n (suc i) bytes
    | some code ↦ some (matrix code)
  ]

  unfoldable pub encode : List ℕ → Result Error QrMatrix
  encode bytes = do
    start ← ok_or (min_version_for (length bytes)) (buffer_too_short qr_max_bytes (length bytes))
    ok_or (walk (41 - start) (start - 1) bytes) (buffer_too_short qr_max_bytes (length bytes))
