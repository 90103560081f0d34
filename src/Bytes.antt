-- ===== src/Bytes.antt =====
-- Bytes and big-endian words: `to_be_bytes`, `from_be_bytes`, `to_le_bytes` of Rust's integers.
use air_ferry.Prelude.{
  Bool, true, false, ◌&&◌, ◌==◌, ℕ, zero, suc, ◌+◌, ◌*◌, ◌/◌, ◌%◌, ◌^◌, ◌≤◌, ◌<◌, ◌≡◌, refl, sym,
  ap, ap₂, ◌∙◌, List, [], ◌∷◌, ◌++◌, length, take, drop, append-nil, take-append-drop, length-take,
  length-drop, subst, arith,
}
use native.Mathlib.Nat.{
  div-add-mod, mod-lt, pow-suc, one-le-pow, pow-le-pow_right, le_trans, add-zero, add-suc, zero-add,
  suc-add, mul-add-mod_self_left, mul-add-div_right, div-eq_of_lt, mod-eq_of_lt,
}

abbrev pub IsByte : ℕ → Type 0
IsByte b = b < 256

abbrev pub All {ℓ κ} : {A : Type ℓ} → (A → Type κ) → List A → Type κ
All P [] = Unit
All P (x ∷ xs) = P x × All P xs

-- The `n` bytes of a word, the highest first.
abbrev pub to_be : ℕ → ℕ → List ℕ
to_be zero x = []
to_be (suc n) x = (x / 256 ^ n % 256) ∷ to_be n x

abbrev pub from_be : List ℕ → ℕ
from_be [] = 0
from_be (b ∷ bs) = b * 256 ^ length bs + from_be bs

-- The derived `PartialEq` of byte arrays.
unfoldable pub bytes_eq : List ℕ → List ℕ → Bool
bytes_eq [] [] = true
bytes_eq [] (y ∷ ys) = false
bytes_eq (x ∷ xs) [] = false
bytes_eq (x ∷ xs) (y ∷ ys) = x == y && bytes_eq xs ys

pub bytes_eq-eq : (xs ys : List ℕ) → bytes_eq xs ys ≡ true → xs ≡ ys
unfolding bytes_eq
bytes_eq-eq [] [] h = refl
bytes_eq-eq [] (y ∷ ys) h = cc
bytes_eq-eq (x ∷ xs) [] h = cc
bytes_eq-eq (x ∷ xs) (y ∷ ys) h = ground (arith, bytes_eq-eq xs ys)

pub bytes_eq_refl : (xs : List ℕ) → bytes_eq xs xs ≡ true
unfolding bytes_eq
bytes_eq_refl [] = refl
bytes_eq_refl (x ∷ xs) = ground (arith, bytes_eq_refl xs)

pub length-to_be : (n x : ℕ) → length (to_be n x) ≡ n
length-to_be zero x = refl
length-to_be (suc n) x = ap suc (length-to_be n x)

pub to_be-IsByte : (n x : ℕ) → All IsByte (to_be n x)
to_be-IsByte zero x = tt
to_be-IsByte (suc n) x = (omega arith, to_be-IsByte n x)

pub pow_pos : (n : ℕ) → 0 < 256 ^ n
pow_pos n = one-le-pow n 256 (omega arith)

pub from_be-lt : (bs : List ℕ) → All IsByte bs → from_be bs < 256 ^ length bs
from_be-lt [] h = omega arith
from_be-lt (b ∷ bs) h = rw (pow-suc 256 (length bs)) (grind (arith, from_be-lt bs h.1, h.0))

split_digit : (x m : ℕ) → 0 < m → x % (m * 256) ≡ x / m % 256 * m + x % m
split_digit x m pos =
    let low = x / m % 256 * m + x % m in
    let whole : x ≡ m * 256 * (x / m / 256) + low =
      omega (arith, div-add-mod x m, ap (λ (t : ℕ). m * t) (div-add-mod (x / m) 256)) in
    let small : low < m * 256 = grind (arith, mod-lt x pos) in
    ap (λ (t : ℕ). t % (m * 256)) whole
    ∙ mul-add-mod_self_left (m * 256) (x / m / 256) low
    ∙ mod-eq_of_lt small

from_be-to_be_mod : (n x : ℕ) → from_be (to_be n x) ≡ x % 256 ^ n
from_be-to_be_mod zero x = omega arith
from_be-to_be_mod (suc n) x =
    rw (length-to_be n x, from_be-to_be_mod n x, pow-suc 256 n)
      (sym (split_digit x (256 ^ n) (pow_pos n)))

-- A word that fits its bytes is read back.
pub from_be-to_be : (n x : ℕ) → x < 256 ^ n → from_be (to_be n x) ≡ x
from_be-to_be n x h = from_be-to_be_mod n x ∙ mod-eq_of_lt h

to_be-add_high : (n c x : ℕ) → to_be n (c * 256 ^ n + x) ≡ to_be n x
to_be-add_high zero c x = refl
to_be-add_high (suc n) c x =
    let apart : c * 256 ^ suc n + x ≡ c * 256 * 256 ^ n + x = rw (pow-suc 256 n) (omega arith) in
    let top : (c * 256 ^ suc n + x) / 256 ^ n % 256 ≡ x / 256 ^ n % 256 =
      rw (apart, mul-add-div_right (pow_pos n) (c * 256) x) (omega arith) in
    ap₂ ◌∷◌ top (rw apart (to_be-add_high n (c * 256) x))

-- Bytes that are read as a word are written back.
pub to_be-from_be : (bs : List ℕ) → All IsByte bs → to_be (length bs) (from_be bs) ≡ bs
to_be-from_be [] h = refl
to_be-from_be (b ∷ bs) h =
    let size = length bs in
    let top : (b * 256 ^ size + from_be bs) / 256 ^ size % 256 ≡ b =
      rw (mul-add-div_right (pow_pos size) b (from_be bs), div-eq_of_lt (from_be-lt bs h.1))
        (omega (arith, h.0)) in
    ap₂ ◌∷◌ top (to_be-add_high size b (from_be bs) ∙ to_be-from_be bs h.1)

module _ {ℓ} {A : Type ℓ} where
  take_nil : (n : ℕ) → ◌≡◌ {A = List A} (take n []) []
  take_nil zero = refl
  take_nil (suc n) = refl

  drop_nil : (n : ℕ) → ◌≡◌ {A = List A} (drop n []) []
  drop_nil zero = refl
  drop_nil (suc n) = refl

  pub take-append : (n : ℕ) (xs ys : List A) → length xs ≡ n → take n (xs ++ ys) ≡ xs
  take-append zero [] ys h = refl
  take-append zero (x ∷ xs) ys h = absurd (omega arith)
  take-append (suc n) [] ys h = absurd (omega arith)
  take-append (suc n) (x ∷ xs) ys h = ap (◌∷◌ x) (take-append n xs ys (omega arith))

  pub take_all : (n : ℕ) (xs : List A) → length xs ≡ n → take n xs ≡ xs
  take_all n xs h = ap (take n) (sym (append-nil xs)) ∙ take-append n xs [] h

  pub drop-append : (n : ℕ) (xs ys : List A) → length xs ≡ n → drop n (xs ++ ys) ≡ ys
  drop-append zero [] ys h = refl
  drop-append zero (x ∷ xs) ys h = absurd (omega arith)
  drop-append (suc n) [] ys h = absurd (omega arith)
  drop-append (suc n) (x ∷ xs) ys h = drop-append n xs ys (omega arith)

  -- A window and what follows it.
  pub take-drop_next : (n o : ℕ) (xs : List A) → take n (drop o xs) ++ drop (n + o) xs ≡ drop o xs
  take-drop_next n zero xs = rw (add-zero n) (take-append-drop n xs)
  take-drop_next n (suc o) [] = rw (drop_nil (n + suc o)) (append-nil _ ∙ take_nil n)
  take-drop_next n (suc o) (x ∷ xs) = rw (add-suc n o) (take-drop_next n o xs)

  pub drop_add : (n m : ℕ) (xs : List A) → drop (n + m) xs ≡ drop m (drop n xs)
  drop_add zero m xs = rw zero-add
  drop_add (suc n) m [] = rw (suc-add n m) (sym (drop_nil m))
  drop_add (suc n) m (x ∷ xs) = rw (suc-add n m) (drop_add n m xs)

  -- Two windows side by side.
  pub take_add : (n m : ℕ) (xs : List A) → take n xs ++ take m (drop n xs) ≡ take (n + m) xs
  take_add zero m xs = rw zero-add
  take_add (suc n) m [] = rw (suc-add n m) (take_nil m)
  take_add (suc n) m (x ∷ xs) = rw (suc-add n m) (ap (◌∷◌ x) (take_add n m xs))

  pub All-append {κ} : (P : A → Type κ) (xs ys : List A) → All P xs → All P ys → All P (xs ++ ys)
  All-append P [] ys h k = k
  All-append P (x ∷ xs) ys h k = (h.0, All-append P xs ys h.1 k)

  pub All-take {κ} : (P : A → Type κ) (n : ℕ) (xs : List A) → All P xs → All P (take n xs)
  All-take P zero xs h = tt
  All-take P (suc n) [] h = tt
  All-take P (suc n) (x ∷ xs) h = (h.0, All-take P n xs h.1)

  pub All-drop {κ} : (P : A → Type κ) (n : ℕ) (xs : List A) → All P xs → All P (drop n xs)
  All-drop P zero xs h = h
  All-drop P (suc n) [] h = tt
  All-drop P (suc n) (x ∷ xs) h = All-drop P n xs h.1

-- `u32::from_be_bytes(h[o..o + n])` for a word of `n` bytes.
abbrev pub be_at : List ℕ → ℕ → ℕ → ℕ
be_at h o n = from_be (take n (drop o h))

-- A word that was read from a window inside the bytes is written back as that window.
pub to_be-be_at :
    (bs : List ℕ) (o n : ℕ)
    → All IsByte bs
    → n + o ≤ length bs
    → to_be n (be_at bs o n) ≡ take n (drop o bs)
to_be-be_at bs o n h fits =
    let window = take n (drop o bs) in
    let size : length window ≡ n = omega (arith, length-take n (drop o bs), length-drop o bs) in
    subst (λ k. to_be k (from_be window) ≡ window) size
      (to_be-from_be window (All-take IsByte n (drop o bs) (All-drop IsByte o bs h)))

pub be_at-lt : (bs : List ℕ) (o n : ℕ) → All IsByte bs → be_at bs o n < 256 ^ n
be_at-lt bs o n h =
    let window = take n (drop o bs) in
    let short : length window ≤ n = omega (arith, length-take n (drop o bs)) in
    le_trans (from_be-lt window (All-take IsByte n (drop o bs) (All-drop IsByte o bs h)))
      (pow-le-pow_right (omega arith) short)
