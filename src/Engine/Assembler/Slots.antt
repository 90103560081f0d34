-- ===== src/Engine/Assembler/Slots.antt =====
-- The slots of the assembler: how many are filled, and what a filled one holds.
use air_ferry.Prelude.{
  ℕ, zero, suc, ◌+◌, ◌-◌, ◌*◌, ◌≤◌, ◌<◌, ◌≡◌, refl, sym, ap, subst, ◌∙◌, List, [], ◌∷◌, ◌++◌,
  length, get_elem?, get_or, set, replicate, take, drop, Option, none, some, min, length-append,
  arith, some_inj, inl, inr, Option-cases,
}
use air_ferry.Bytes.{take-append, drop-append, drop_add}
use air_ferry.Engine.Segment.{SegmentMeta, segment_raw_bytes}
use air_ferry.Engine.Assembler.{segment_raw_len, concat_slots}

abbrev pub Slots : Type 0
Slots = List (Option (List ℕ))

unfoldable pub count_slots : Slots → ℕ
count_slots [] = 0
count_slots (none ∷ slots) = count_slots slots
count_slots (some bytes ∷ slots) = suc (count_slots slots)

pub count_slots-le : (slots : Slots) → count_slots slots ≤ length slots
unfolding count_slots
count_slots-le [] = omega arith
count_slots-le (none ∷ slots) = omega (arith, count_slots-le slots)
count_slots-le (some bytes ∷ slots) = omega (arith, count_slots-le slots)

pub count_slots-replicate : (n : ℕ) → count_slots (replicate n none) ≡ 0
unfolding count_slots
count_slots-replicate zero = refl
count_slots-replicate (suc n) = count_slots-replicate n

pub count_slots-set :
    (slots : Slots) (i : ℕ) (bytes : List ℕ)
    → i < length slots
    → get_or slots i none ≡ none
    → count_slots (set slots i (some bytes)) ≡ suc (count_slots slots)
unfolding count_slots
count_slots-set [] i bytes h e = absurd (omega arith)
count_slots-set (none ∷ slots) zero bytes h e = refl
count_slots-set (some b ∷ slots) zero bytes h e = cc
count_slots-set (none ∷ slots) (suc i) bytes h e = count_slots-set slots i bytes (omega arith) e
count_slots-set (some b ∷ slots) (suc i) bytes h e =
    ap suc (count_slots-set slots i bytes (omega arith) e)

-- Behind a first part of `size` bytes the windows move up by `size`.
drop_past :
    (size k : ℕ) (b rest out : List ℕ)
    → length b ≡ size
    → out ≡ b ++ rest
    → drop (suc k * size) out ≡ drop (k * size) rest
drop_past size k b rest out len split =
    ap (λ (n : ℕ). drop n out) (next_multiple k size)
    ∙ drop_add size (k * size) out
    ∙ ap (drop (k * size)) (ap (drop size) split ∙ drop-append size b rest len)
  where
    next_multiple : (k size : ℕ) → suc k * size ≡ size + k * size
    next_multiple k size = omega arith

whole_slice :
    (root i : ℕ) → suc i * segment_raw_bytes ≤ root → segment_raw_len root i ≡ segment_raw_bytes
unfolding segment_raw_len
whole_slice root i h = omega arith

module _ (sha256 : List ℕ → List ℕ) (root : ℕ) where
  -- Slot `i` and its metadata: both empty, or the bytes of segment `i`, within its slice and under its
  -- digest.
  abbrev pub SlotFits : ℕ → Option (List ℕ) → Option SegmentMeta → Type 0
  SlotFits i none none = Unit {0}
  SlotFits i none (some seg) = ⊥
  SlotFits i (some bytes) none = ⊥
  SlotFits i (some bytes) (some seg) =
      (seg.segment_index ≡ i)
      × (length bytes ≤ segment_raw_len root i)
      × (sha256 bytes ≡ seg.raw_sha256)

  abbrev pub SlotsFit : ℕ → Slots → List (Option SegmentMeta) → Type 0
  SlotsFit i [] [] = Unit {0}
  SlotsFit i [] (m ∷ metas) = ⊥
  SlotsFit i (s ∷ slots) [] = ⊥
  SlotsFit i (s ∷ slots) (m ∷ metas) = SlotFits i s m × SlotsFit (suc i) slots metas

  pub SlotsFit-replicate : (n i : ℕ) → SlotsFit i (replicate n none) (replicate n none)
  SlotsFit-replicate zero i = tt
  SlotsFit-replicate (suc n) i = (tt, SlotsFit-replicate n (suc i))

  pub SlotsFit-set :
      (i k : ℕ) (slots : Slots) (metas : List (Option SegmentMeta)) (s : Option (List ℕ))
      (m : Option SegmentMeta)
      → SlotFits (k + i) s m
      → SlotsFit i slots metas
      → SlotsFit i (set slots k s) (set metas k m)
  SlotsFit-set i k [] [] s m h f = tt
  SlotsFit-set i k [] (y ∷ metas) s m h f = absurd f
  SlotsFit-set i k (x ∷ slots) [] s m h f = absurd f
  SlotsFit-set i zero (x ∷ slots) (y ∷ metas) s m h f =
      (subst (λ (n : ℕ). SlotFits n s m) (omega arith) h, f.1)
  SlotsFit-set i (suc k) (x ∷ slots) (y ∷ metas) s m h f = (
    f.0,
    SlotsFit-set (suc i) k slots metas s m (subst (λ (n : ℕ). SlotFits n s m) (omega arith) h) f.1,
  )

  -- The bytes laid out one slot behind the other, each as long as its slice.
  abbrev pub Laid : ℕ → Slots → List ℕ → Type 0
  Laid i [] out = out ≡ []
  Laid i (none ∷ slots) out = ⊥
  Laid i (some bytes ∷ slots) out =
      (rest : List ℕ) × (length bytes ≡ segment_raw_len root i)
      × (out ≡ bytes ++ rest)
      × Laid (suc i) slots rest

  -- What the slots from `i` on can hold together.
  abbrev pub capacity : ℕ → Slots → ℕ
  capacity i slots = min (root - i * segment_raw_bytes) (length slots * segment_raw_bytes)

  capacity_step :
      (i : ℕ) (s : Option (List ℕ)) (slots : Slots)
      → capacity i (s ∷ slots) ≡ segment_raw_len root i + capacity (suc i) slots
  unfolding segment_raw_len
  capacity_step i s slots = omega arith

  concat_slots-cons :
      (bytes : List ℕ) (slots : Slots) (out : List ℕ)
      → concat_slots (some bytes ∷ slots) ≡ some out
      → (rest : List ℕ) × (concat_slots slots ≡ some rest) × (out ≡ bytes ++ rest)
  unfolding concat_slots
  concat_slots-cons bytes slots out e = elim (Option-cases (concat_slots slots)) [
    | inl hole ↦ ground (arith, hole)
    | inr (rest, whole) ↦ (rest, whole, ground (arith, whole))
  ]

  -- Filled slots hold at most their capacity, and if they reach it each is exactly its slice.
  pub concat_slots-Laid :
      (i : ℕ) (slots : Slots) (metas : List (Option SegmentMeta)) (out : List ℕ)
      → SlotsFit i slots metas
      → concat_slots slots ≡ some out
      → (length out ≤ capacity i slots) × (length out ≡ capacity i slots → Laid i slots out)
  concat_slots-Laid i [] [] out f e =
      unfold concat_slots in (omega (arith, ap length (some_inj e)), λ full. sym (some_inj e))
  concat_slots-Laid i [] (m ∷ metas) out f e = absurd f
  concat_slots-Laid i (s ∷ slots) [] out f e = absurd f
  concat_slots-Laid i (none ∷ slots) (m ∷ metas) out f e = unfold concat_slots in cc
  concat_slots-Laid i (some bytes ∷ slots) (none ∷ metas) out f e = absurd f.0
  concat_slots-Laid i (some bytes ∷ slots) (some seg ∷ metas) out f e =
      let (rest, whole, split) = concat_slots-cons bytes slots out e in
      let (fits, laid) = concat_slots-Laid (suc i) slots metas rest f.1 whole in
      let size : length out ≡ length bytes + length rest =
        omega (arith, ap length split, length-append bytes rest) in
      let room = capacity_step i (some bytes) slots in
      (
        omega (arith, size, fits, room, f.0.1),
        λ full. (
          rest,
          omega (arith, size, fits, room, f.0.1, full),
          split,
          laid (omega (arith, size, fits, room, f.0.1, full)),
        ),
      )

  -- Segment `i + k` stands at its canonical offset.
  pub Laid-slice :
      (i k : ℕ) (slots : Slots) (out bytes : List ℕ)
      → Laid i slots out
      → (k + i) * segment_raw_bytes < root
      → get_elem? slots k ≡ some (some bytes)
      → (take (length bytes) (drop (k * segment_raw_bytes) out) ≡ bytes)
        × (length bytes ≡ segment_raw_len root (k + i))
  Laid-slice i k [] out bytes l h e = cc
  Laid-slice i k (none ∷ slots) out bytes l h e = absurd l
  Laid-slice i zero (some b ∷ slots) out bytes l h e =
      let same : b ≡ bytes = some_inj (some_inj e) in
      (
        subst (λ (x : List ℕ). take (length x) out ≡ x) same
            (ap (take (length b)) l.2 ∙ take-append (length b) b l.0 refl),
        ap length (sym same) ∙ l.1 ∙ ap (segment_raw_len root) (omega arith),
      )
  Laid-slice i (suc k) (some b ∷ slots) out bytes l h e =
      let (rest, len, split, laid) = l in
      let (window, size) = Laid-slice (suc i) k slots rest bytes laid (omega arith) e in
      (
        ap (take (length bytes)) (
              drop_past segment_raw_bytes k b rest out (len ∙ whole_slice root i (omega arith))
                split)
            ∙ window,
        size ∙ ap (segment_raw_len root) (omega arith),
      )
