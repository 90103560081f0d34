-- ===== src/Engine/Utf8.antt =====
-- What core/transfer-engine/src/descriptor.rs uses of the standard library's strings: `from_utf8`,
-- `is_char_boundary`, and the loop that cuts a file name at a character.
pub mod Lossy
use air_ferry.Prelude.{
  ℕ, zero, suc, ◌-◌, ◌≤◌, ◌≡◌, refl, Bool, true, false, not, ◌&&◌, ltb, leb, ◌==◌, List, [], ◌∷◌,
  ◌++◌, length, get_elem?, take, drop, Option, none, some, if◌then◌else◌, take-append-drop, arith,
  Option-cases, inl, inr,
}

-- The continuation bytes that a character still wants, and the range of the next one.
pub record Want : Type 0 where
  pub need : ℕ
  pub lo : ℕ
  pub hi : ℕ

abbrev pub idle : Want
idle = record { need = 0; lo = 0x80; hi = 0xbf }

abbrev between : ℕ → ℕ → ℕ → Bool
between lo hi b = leb lo b && leb b hi

-- The first byte of a character (table 3-7 of the Unicode standard).
unfoldable pub lead : ℕ → Option Want
lead b =
    if ltb b 0x80
    then some idle
    else if between 0xc2 0xdf b
    then some (record { need = 1; lo = 0x80; hi = 0xbf })
    else if b == 0xe0
    then some (record { need = 2; lo = 0xa0; hi = 0xbf })
    else if b == 0xed
    then some (record { need = 2; lo = 0x80; hi = 0x9f })
    else if between 0xe1 0xef b
    then some (record { need = 2; lo = 0x80; hi = 0xbf })
    else if b == 0xf0
    then some (record { need = 3; lo = 0x90; hi = 0xbf })
    else if between 0xf1 0xf3 b
    then some (record { need = 3; lo = 0x80; hi = 0xbf })
    else if b == 0xf4
    then some (record { need = 3; lo = 0x80; hi = 0x8f })
    else none

unfoldable pub next : Want → ℕ → Option Want
next w b =
    if w.need == 0
    then lead b
    else if between w.lo w.hi b
    then some (record { need = w.need - 1; lo = 0x80; hi = 0xbf })
    else none

unfoldable pub scan : Want → List ℕ → Bool
scan w [] = w.need == 0
scan w (b ∷ bs) = elim (next w b) [ none ↦ false | some w' ↦ scan w' bs ]

-- `String::from_utf8(bytes).is_ok()`
unfoldable pub is_utf8 : List ℕ → Bool
is_utf8 bs = scan idle bs

-- `is_char_boundary`: the ends, and every byte that continues no character.
unfoldable pub is_char_boundary : List ℕ → ℕ → Bool
is_char_boundary bs zero = true
is_char_boundary bs (suc n) = elim (get_elem? bs (suc n)) [
  | none ↦ suc n == length bs
  | some b ↦ not (between 0x80 0xbf b)
]

-- `while !is_char_boundary(len) { len -= 1; }`
unfoldable pub cut_at_char : List ℕ → ℕ → ℕ
cut_at_char bs zero = zero
cut_at_char bs (suc n) =
    let shorter = cut_at_char bs n in if is_char_boundary bs (suc n) then suc n else shorter

-- The cut is not behind the start of the search.
pub cut_at_char-le : (bs : List ℕ) (n : ℕ) → cut_at_char bs n ≤ n
unfolding cut_at_char
cut_at_char-le bs zero = omega arith
cut_at_char-le bs (suc n) = ground (arith, cut_at_char-le bs n)

-- The cut stands at a character.
pub cut_at_char-is_char_boundary :
    (bs : List ℕ) (n : ℕ) → is_char_boundary bs (cut_at_char bs n) ≡ true
unfolding cut_at_char
cut_at_char-is_char_boundary bs zero = unfold is_char_boundary in refl
cut_at_char-is_char_boundary bs (suc n) = ground (arith, cut_at_char-is_char_boundary bs n)

record IsTrailing (w : Want) : Type 0 where
  above : 0x80 ≤ w.lo
  below : w.hi ≤ 0xbf

next-IsTrailing : (w w' : Want) (b : ℕ) → next w b ≡ some w' → IsTrailing w'
unfolding next lead
next-IsTrailing w w' b e = ground arith

abbrev starts_char : List ℕ → Bool
starts_char [] = true
starts_char (b ∷ bs) = not (between 0x80 0xbf b)

-- A text that goes on at a character is a text up to there.
scan_prefix :
    (w : Want) (xs ys : List ℕ)
    → IsTrailing w
    → starts_char ys ≡ true
    → scan w (xs ++ ys) ≡ true
    → scan w xs ≡ true
unfolding scan next
scan_prefix w [] [] t cut e = e
scan_prefix w [] (y ∷ ys) t cut e = ground arith
scan_prefix w (x ∷ xs) ys t cut e = elim (Option-cases (next w x)) [
  | inl stop ↦ ground (arith, stop)
  | inr (w', go) ↦ ground (arith, go, scan_prefix w' xs ys (next-IsTrailing w w' x go) cut)
]

starts_char-drop :
    (bs : List ℕ) (n : ℕ) (b : ℕ)
    → get_elem? bs n ≡ some b
    → starts_char (drop n bs) ≡ not (between 0x80 0xbf b)
starts_char-drop [] n b e = cc
starts_char-drop (x ∷ xs) zero b e = ground arith
starts_char-drop (x ∷ xs) (suc n) b e = starts_char-drop xs n b e

drop_end : (bs : List ℕ) (n : ℕ) → get_elem? bs n ≡ none → starts_char (drop n bs) ≡ true
drop_end [] zero e = refl
drop_end [] (suc n) e = refl
drop_end (x ∷ xs) zero e = cc
drop_end (x ∷ xs) (suc n) e = drop_end xs n e

boundary-starts_char :
    (bs : List ℕ) (n : ℕ)
    → is_char_boundary bs (suc n) ≡ true
    → starts_char (drop (suc n) bs) ≡ true
unfolding is_char_boundary
boundary-starts_char bs n h = elim (Option-cases (get_elem? bs (suc n))) [
  | inl e ↦ drop_end bs (suc n) e
  | inr (b, e) ↦ ground (arith, e, starts_char-drop bs (suc n) b e)
]

idle-IsTrailing : IsTrailing idle
idle-IsTrailing = omega arith

-- A text cut at a character is a text.
pub is_utf8-take :
    (bs : List ℕ) (n : ℕ)
    → is_utf8 bs ≡ true
    → is_char_boundary bs n ≡ true
    → is_utf8 (take n bs) ≡ true
unfolding is_utf8
is_utf8-take bs zero h cut = unfold scan in refl
is_utf8-take bs (suc n) h cut =
    scan_prefix idle (take (suc n) bs) (drop (suc n) bs) idle-IsTrailing
      (boundary-starts_char bs n cut) (rw (take-append-drop (suc n) bs) h)
