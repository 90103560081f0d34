-- ===== src/Engine/Utf8/Lossy.antt =====
-- `String::from_utf8_lossy` of the standard library, which core/transfer-engine/src/cffi.rs uses on the
-- strings of its callers.
use air_ferry.Prelude.{
  ℕ, ◌≡◌, refl, sym, ap, ◌∙◌, inl, inr, true, ◌==◌, List, [], ◌∷◌, ◌++◌, append_assoc, none, some,
  if◌then◌else◌, Bool-cases, Option-cases, arith,
}
use air_ferry.Engine.Utf8.{Want, idle, lead, next, scan, is_utf8}

-- U+FFFD
abbrev pub replacement : List ℕ
replacement = 0xef ∷ 0xbf ∷ 0xbd ∷ []

-- What a byte gives: the bytes that are put out, what is wanted then, and the bytes of the character that
-- has begun.
unfoldable pub first_byte : ℕ → List ℕ × Want × List ℕ
first_byte b = elim (lead b) [
  | none ↦ (replacement, idle, [])
  | some w ↦ if w.need == 0 then (b ∷ [], idle, []) else ([], w, b ∷ [])
]

-- A byte behind the first one; one that does not fit ends the character and begins another.
unfoldable pub later_byte : Want → List ℕ → ℕ → List ℕ × Want × List ℕ
later_byte w held b = elim (next w b) [
  | none ↦ let (out, w', held') = first_byte b in (replacement ++ out, w', held')
  | some w' ↦ if w'.need == 0 then (held ++ b ∷ [], idle, []) else ([], w', held ++ b ∷ [])
]

unfoldable pub take_byte : Want → List ℕ → ℕ → List ℕ × Want × List ℕ
take_byte w held b = if w.need == 0 then first_byte b else later_byte w held b

-- A character that the text breaks off is replaced as a whole.
unfoldable pub lossy : Want → List ℕ → List ℕ → List ℕ
lossy w held [] = if w.need == 0 then [] else replacement
lossy w held (b ∷ bs) = let (out, w', held') = take_byte w held b in out ++ lossy w' held' bs

unfoldable pub from_utf8_lossy : List ℕ → List ℕ
from_utf8_lossy bs = lossy idle [] bs

next-idle : (w w' : Want) (b : ℕ) → (w.need == 0) ≡ true → next w b ≡ some w' → lead b ≡ some w'
unfolding next
next-idle w w' b start e = rw start at e

-- A byte that fits is kept: it ends its character, or is held with those before it.
take_byte-go :
    (w w' : Want) (held : List ℕ) (b : ℕ)
    → ((w.need == 0) ≡ true → held ≡ [])
    → next w b ≡ some w'
    → take_byte w held b
      ≡ (if w'.need == 0 then (held ++ b ∷ [], idle, []) else ([], w', held ++ b ∷ []))
unfolding take_byte first_byte later_byte
take_byte-go w w' held b none_held e = elim (Bool-cases (w.need == 0)) [
  | inl start ↦ rw (start, none_held start) (rw (next-idle w w' b start e, first_byte) refl)
  | inr more ↦ rw more (rw (e, later_byte) refl)
]

scan_step : (w w' : Want) (b : ℕ) (bs : List ℕ) → next w b ≡ some w' → scan w (b ∷ bs) ≡ scan w' bs
unfolding scan
scan_step w w' b bs e = rw (e, scan) refl

-- Where a character has ended, the text goes on as at its start.
scan-idle : (w : Want) (bs : List ℕ) → (w.need == 0) ≡ true → scan w bs ≡ true → scan idle bs ≡ true
unfolding scan next
scan-idle w [] ended text = refl
scan-idle w (b ∷ bs) ended text = rw (ended, scan, next) at text

lossy-scan :
    (w : Want) (held bs : List ℕ)
    → ((w.need == 0) ≡ true → held ≡ [])
    → scan w bs ≡ true
    → lossy w held bs ≡ held ++ bs
unfolding lossy scan
lossy-scan w held [] none_held text = rw (text, none_held text) refl
lossy-scan w held (b ∷ bs) none_held text = elim (Option-cases (next w b)) [
  | inl stop ↦ ground (arith, stop)
  | inr (w', go) ↦ elim (Bool-cases (w'.need == 0)) [
    | inl ended ↦
        rw (take_byte-go w w' held b none_held go, ended)
          (ap (λ (r : List ℕ). (held ++ b ∷ []) ++ r)
              (lossy-scan idle [] bs (λ e. refl)
                (scan-idle w' bs ended (sym (scan_step w w' b bs go) ∙ text)))
            ∙ append_assoc held (b ∷ []) bs)
    | inr more ↦
        rw (take_byte-go w w' held b none_held go, more)
          (lossy-scan w' (held ++ b ∷ []) bs (λ e. absurd (ground (arith, more)))
              (sym (scan_step w w' b bs go) ∙ text)
            ∙ append_assoc held (b ∷ []) bs)
  ]
]

-- A text is left as it is.
pub from_utf8_lossy-text : (bs : List ℕ) → is_utf8 bs ≡ true → from_utf8_lossy bs ≡ bs
unfolding from_utf8_lossy is_utf8
from_utf8_lossy-text bs text = lossy-scan idle [] bs (λ e. refl) text
