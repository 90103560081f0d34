-- ===== src/Bindings/Wasm/Slices.antt =====
-- `buf[pos..pos + n].copy_from_slice(bytes)`.
use air_ferry.Prelude.{
  ℕ, zero, suc, ◌+◌, ◌-◌, ◌≤◌, ◌≡◌, refl, sym, ap, ◌∙◌, List, [], ◌∷◌, ◌++◌, length, take, drop,
  length-append, length-take, length-drop, append_assoc, arith,
}

unfoldable pub put_bytes : List ℕ → (pos : ℕ) → List ℕ → List ℕ
put_bytes buf pos bytes = take pos buf ++ (bytes ++ drop (pos + length bytes) buf)

-- A write inside the buffer keeps its length.
pub length-put_bytes :
    (buf : List ℕ) (pos : ℕ) (bytes : List ℕ)
    → pos + length bytes ≤ length buf
    → length (put_bytes buf pos bytes) ≡ length buf
unfolding put_bytes
length-put_bytes buf pos bytes h = omega (
  arith,
  h,
  length-append (take pos buf) (bytes ++ drop (pos + length bytes) buf),
  length-append bytes (drop (pos + length bytes) buf),
  length-take pos buf,
  length-drop (pos + length bytes) buf,
)

take-append_le :
    (xs ys : List ℕ) (n : ℕ) → length xs ≤ n → take n (xs ++ ys) ≡ xs ++ take (n - length xs) ys
take-append_le [] ys n h = let e : n - 0 ≡ n = omega arith in rw e
take-append_le (x ∷ xs) ys zero h = absurd (omega arith)
take-append_le (x ∷ xs) ys (suc n) h =
    let e : suc n - suc (length xs) ≡ n - length xs = omega arith in
    rw e (ap (λ (zs : List ℕ). x ∷ zs) (take-append_le xs ys n (omega arith)))

take_zero_rest : (xs ys : List ℕ) (n : ℕ) → n ≡ length xs → take n (xs ++ ys) ≡ xs
take_zero_rest [] ys zero h = refl
take_zero_rest [] ys (suc n) h = absurd (omega arith)
take_zero_rest (x ∷ xs) ys zero h = absurd (omega arith)
take_zero_rest (x ∷ xs) ys (suc n) h =
    ap (λ (zs : List ℕ). x ∷ zs) (take_zero_rest xs ys n (omega arith))

-- Up to the end of what was written, the buffer holds what stood before it and the bytes.
pub take-put_bytes :
    (buf : List ℕ) (pos : ℕ) (bytes : List ℕ)
    → pos + length bytes ≤ length buf
    → take (pos + length bytes) (put_bytes buf pos bytes) ≡ take pos buf ++ bytes
unfolding put_bytes
take-put_bytes buf pos bytes h =
    ap (take (pos + length bytes))
      (sym (append_assoc (take pos buf) bytes (drop (pos + length bytes) buf)))
    ∙ take_zero_rest (take pos buf ++ bytes) (drop (pos + length bytes) buf) (pos + length bytes)
        (omega (arith, h, length-append (take pos buf) bytes, length-take pos buf))

take_nil : (n : ℕ) → take {A = ℕ} n [] ≡ []
take_nil zero = refl
take_nil (suc n) = refl

take-drop : (n k : ℕ) (xs : List ℕ) → take (n - k) (drop k xs) ≡ drop k (take n xs)
take-drop n zero xs = let e : n - 0 ≡ n = omega arith in rw e
take-drop zero (suc k) [] = take_nil (0 - suc k)
take-drop (suc n) (suc k) [] = take_nil (suc n - suc k)
take-drop zero (suc k) (x ∷ xs) = let e : 0 - suc k ≡ 0 = omega arith in rw e refl
take-drop (suc n) (suc k) (x ∷ xs) =
    let e : suc n - suc k ≡ n - k = omega arith in rw e (take-drop n k xs)

-- A write at the front, seen in a prefix.
pub take-put_bytes_front :
    (buf bytes : List ℕ) (n : ℕ)
    → length bytes ≤ n
    → take n (put_bytes buf 0 bytes) ≡ bytes ++ drop (length bytes) (take n buf)
unfolding put_bytes
take-put_bytes_front buf bytes n h =
    let e : 0 + length bytes ≡ length bytes = omega arith in
    rw e (
      take-append_le bytes (drop (length bytes) buf) n h
      ∙ ap (λ (zs : List ℕ). bytes ++ zs) (take-drop n (length bytes) buf))
