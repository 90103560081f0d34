-- ===== src/Protocol/QrRender/Smallest.antt =====
-- The version of a rendered code (`encode` of core/qr-protocol/src/qr_render.rs).
use air_ferry.Prelude.{
  ℕ, zero, suc, ◌+◌, ◌-◌, ◌≤◌, ◌<◌, ◌≡◌, ◌⊎◌, refl, subst, inl, inr, Bool, true, ◌&&◌, leb, List,
  [], ◌∷◌, length, get_or, Option, none, some, Result, ok, err, ok_or, ◌>>=◌, Option-cases,
  Bool-cases, ◌==◌, arith,
}
use air_ferry.Protocol.Errors.{Error}
use air_ferry.Protocol.QrRender.{
  qr_byte_capacity_l, position, min_version_for, Generator, QrMatrix, matrix, walk, encode,
}

-- What version `i + 1` holds.
abbrev pub capacity : ℕ → ℕ
capacity i = get_or qr_byte_capacity_l i 0

-- The table goes up.
is_ascending : List ℕ → Bool
is_ascending [] = true
is_ascending (x ∷ []) = true
is_ascending (x ∷ y ∷ xs) = leb x y && is_ascending (y ∷ xs)

table_ascending : is_ascending qr_byte_capacity_l ≡ true
unfolding is_ascending
table_ascending = refl

first-le :
    (xs : List ℕ) (x j : ℕ)
    → is_ascending (x ∷ xs) ≡ true
    → j < suc (length xs)
    → x ≤ get_or (x ∷ xs) j 0
unfolding is_ascending
first-le xs x zero up h = omega arith
first-le [] x (suc j) up h = absurd (omega arith)
first-le (y ∷ xs) x (suc j) up h = ground (arith, first-le xs y j)

ascending-le :
    (xs : List ℕ) (i j : ℕ)
    → is_ascending xs ≡ true
    → i ≤ j
    → j < length xs
    → get_or xs i 0 ≤ get_or xs j 0
unfolding is_ascending
ascending-le [] i j up h k = absurd (omega arith)
ascending-le (x ∷ xs) zero j up h k = first-le xs x j up (omega (arith, k))
ascending-le (x ∷ xs) (suc i) zero up h k = absurd (omega arith)
ascending-le (x ∷ []) (suc i) (suc j) up h k = absurd (omega arith)
ascending-le (x ∷ y ∷ xs) (suc i) (suc j) up h k = ground (arith, ascending-le (y ∷ xs) i j)

-- `position` finds the first entry that is large enough.
IsPosition : List ℕ → ℕ → Option ℕ → Type 0
IsPosition caps n none = (j : ℕ) → j < length caps → get_or caps j 0 < n
IsPosition caps n (some i) =
    (i < length caps) × (n ≤ get_or caps i 0) × ((j : ℕ) → j < i → get_or caps j 0 < n)

behind :
    (cap : ℕ) (caps : List ℕ) (n : ℕ) (o : Option ℕ)
    → cap < n
    → IsPosition caps n o
    → IsPosition (cap ∷ caps) n (elim o [ none ↦ none | some i ↦ some (suc i) ])
unfolding IsPosition
behind cap caps n none small h = below
  where
    below : (j : ℕ) → j < suc (length caps) → get_or (cap ∷ caps) j 0 < n
    below zero k = small
    below (suc j) k = h j (omega (arith, k))
behind cap caps n (some i) small (inside, large, first) = (omega arith, large, below)
  where
    below : (j : ℕ) → j < suc i → get_or (cap ∷ caps) j 0 < n
    below zero k = small
    below (suc j) k = first j (omega (arith, k))

position-IsPosition : (caps : List ℕ) (n : ℕ) → IsPosition caps n (position caps n)
unfolding position IsPosition
position-IsPosition [] n = λ j h. absurd (omega arith)
position-IsPosition (cap ∷ caps) n = elim (Bool-cases (leb n cap)) [
  | inl enough ↦ rw enough (omega arith, ground arith, λ j k. absurd (omega arith))
  | inr small ↦
      rw small (behind cap caps n (position caps n) (ground arith) (position-IsPosition caps n))
]

module _ (qr : Generator) (bytes : List ℕ) where
  -- Version `i + 1` cannot be used.
  abbrev pub Unfit : ℕ → Type 0
  Unfit i = (capacity i < length bytes) ⊎ (qr (suc i) bytes ≡ none)

  -- What the loop from `i` on returns.
  Walked : (n i : ℕ) → Option QrMatrix → Type 0
  Walked n i none = (j : ℕ) → i ≤ j → j < i + n → qr (suc j) bytes ≡ none
  Walked n i (some m) =
      (v : ℕ) × (code : ℕ × List Bool) × (i ≤ v)
      × (v < i + n)
      × (qr (suc v) bytes ≡ some code)
      × (m ≡ matrix code)
      × ((j : ℕ) → i ≤ j → j < v → qr (suc j) bytes ≡ none)

  rejected :
      (n i : ℕ) (o : Option QrMatrix)
      → qr (suc i) bytes ≡ none
      → Walked n (suc i) o
      → Walked (suc n) i o
  unfolding Walked
  rejected n i none refused h = λ j low high. elim (Bool-cases (j == i)) [
    | inl same ↦
        let e : i ≡ j = ground arith in subst (λ (k : ℕ). qr (suc k) bytes ≡ none) e refused
    | inr other ↦ h j (ground arith) (omega (arith, high))
  ]
  rejected n i (some m) refused (v, code, low, high, accepted, made, first) = (
    v,
    code,
    omega arith,
    omega arith,
    accepted,
    made,
    λ j from to. elim (Bool-cases (j == i)) [
      | inl same ↦
          let e : i ≡ j = ground arith in subst (λ (k : ℕ). qr (suc k) bytes ≡ none) e refused
      | inr other ↦ first j (ground arith) to
    ],
  )

  walk-Walked : (n i : ℕ) → Walked n i (walk qr n i bytes)
  unfolding walk Walked
  walk-Walked zero i = λ j low high. absurd (omega arith)
  walk-Walked (suc n) i = elim (Option-cases (qr (suc i) bytes)) [
    | inl refused ↦
        rw (refused, walk) (rejected n i (walk qr n (suc i) bytes) refused (walk-Walked n (suc i)))
    | inr (code, made) ↦
        rw (made, walk)
          (i, code, omega arith, omega arith, made, refl, λ j low high. absurd (omega arith))
  ]

  -- What `encode` promises: the matrix of the smallest version from 1 to 40 that has room for the bytes and
  -- that the generator accepts, and an error only where there is no such version.
  abbrev pub Encodes : Result Error QrMatrix → Type 0
  Encodes (ok m) =
      (i : ℕ) × (code : ℕ × List Bool) × (i < 40)
      × (length bytes ≤ capacity i)
      × (qr (suc i) bytes ≡ some code)
      × (m ≡ matrix code)
      × ((j : ℕ) → j < i → Unfit j)
  Encodes (err e) = (j : ℕ) → j < 40 → Unfit j

  table_length : length qr_byte_capacity_l ≡ 40
  table_length = refl

  encoded :
      (i : ℕ) (o : Option QrMatrix)
      → IsPosition qr_byte_capacity_l (length bytes) (some i)
      → Walked (40 - i) i o
      → (e : Error) → Encodes (ok_or o e)
  unfolding IsPosition Walked
  encoded i none (inside, large, first) h e = λ j high. elim (Bool-cases (leb i j)) [
    | inl from ↦ inr (h j (ground arith) (omega (arith, high, inside)))
    | inr before ↦ inl (first j (ground arith))
  ]
  encoded i (some m) (inside, large, first) (v, code, low, high, accepted, made, least) e =
      let room : capacity i ≤ capacity v =
        ascending-le qr_byte_capacity_l i v table_ascending low (omega (arith, high, inside)) in
      (
        v,
        code,
        omega (arith, high, inside),
        omega (arith, room, large),
        accepted,
        made,
        λ j to. elim (Bool-cases (leb i j)) [
          | inl from ↦ inr (least j (ground arith) to)
          | inr before ↦ inl (first j (ground arith))
        ],
      )

  started :
      (o : Option ℕ) (e : Error)
      → IsPosition qr_byte_capacity_l (length bytes) o
      → Encodes (
          ok_or (elim o [ none ↦ none | some i ↦ some (suc i) ]) e >>= λ (start : ℕ).
          ok_or (walk qr (41 - start) (start - 1) bytes) e)
  unfolding IsPosition
  started none e h = λ j high. inl (h j high)
  started (some i) e h =
      let same : suc i - 1 ≡ i = omega arith in
      let rounds : 41 - suc i ≡ 40 - i = omega arith in
      rw (same, rounds) (encoded i (walk qr (40 - i) i bytes) h (walk-Walked (40 - i) i) e)

  -- The matrix is that of the smallest version from 1 to 40 which has room for the bytes and which the
  -- generator accepts; an error means that no version has both.
  pub encode-Encodes : Encodes (encode qr bytes)
  unfolding encode min_version_for
  encode-Encodes =
      started (position qr_byte_capacity_l (length bytes)) _
        (position-IsPosition qr_byte_capacity_l (length bytes))
