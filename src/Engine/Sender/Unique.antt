-- ===== src/Engine/Sender/Unique.antt =====
-- The data frames of a run of `next_frame` (core/transfer-engine/src/sender.rs).
use native.Mathlib.Nat.{zero-add}
use air_ferry.Prelude.{
  ℕ, zero, suc, ◌+◌, ◌-◌, ◌≤◌, ◌<◌, ◌≡◌, refl, ap, subst, ◌∙◌, ◌⊎◌, inl, inr, ◌&&◌, ltb, ◌==◌, List,
  [], ◌∷◌, length, get_elem?, get_elem?-none, some, some_inj, Option-cases, Bool-cases, Result, ok,
  err, arith,
}
use air_ferry.Protocol.Checksum.{Checksum}
use air_ferry.Protocol.Frame.{Frame}
use air_ferry.Codec.Raptorq.{BlockEncoding}
use air_ferry.Codec.Meta.{SourceBlockMeta, ObjectMeta}
use air_ferry.Codec.Meta.Gate.{IsCanonical}
use air_ferry.Engine.Errors.{Error}
use air_ferry.Engine.Sender.{SenderSession, repair_symbol_id, build_source_plan, next_frame}
use air_ferry.Engine.Sender.Plan.{count_id, count_blocks, count_id-build_source_plan}
use air_ferry.Engine.Sender.Repair.{repair_symbol_id-injective, repair_symbol_id-bounds}
use air_ferry.Engine.Sender.Stream.{stream, position, OnStream, Kept, Sent, next_frame-Sent}

count_id-get_elem? :
    (plan : List (ℕ × ℕ)) (a sbn esi : ℕ)
    → get_elem? plan a ≡ some (sbn, esi)
    → 0 < count_id (sbn, esi) plan
count_id-get_elem? [] a sbn esi e = cc
count_id-get_elem? (x ∷ plan) zero sbn esi e = ground arith
count_id-get_elem? (x ∷ plan) (suc a) sbn esi e =
    ground (arith, count_id-get_elem? plan a sbn esi e)

count_id-twice :
    (plan : List (ℕ × ℕ)) (a b sbn esi : ℕ)
    → get_elem? plan a ≡ some (sbn, esi)
    → get_elem? plan b ≡ some (sbn, esi)
    → a < b
    → 1 < count_id (sbn, esi) plan
count_id-twice [] a b sbn esi e₁ e₂ h = cc
count_id-twice (x ∷ plan) a zero sbn esi e₁ e₂ h = absurd (omega arith)
count_id-twice (x ∷ plan) zero (suc b) sbn esi e₁ e₂ h =
    ground (arith, count_id-get_elem? plan b sbn esi e₂)
count_id-twice (x ∷ plan) (suc a) (suc b) sbn esi e₁ e₂ h =
    ground (arith, count_id-twice plan a b sbn esi e₁ e₂ (omega arith))

count_blocks-below :
    (size index sbn esi : ℕ) (blocks : List SourceBlockMeta)
    → IsCanonical size index blocks
    → sbn < index
    → count_blocks (sbn, esi) blocks ≡ 0
count_blocks-below size index sbn esi [] canonical h = refl
count_blocks-below size index sbn esi (b ∷ blocks) canonical h = ground (
  arith,
  canonical.0,
  count_blocks-below size (suc index) sbn esi blocks canonical.4 (omega arith),
)

-- A canonical table has a source symbol once at most.
count_blocks-IsCanonical :
    (size index sbn esi : ℕ) (blocks : List SourceBlockMeta)
    → IsCanonical size index blocks
    → count_blocks (sbn, esi) blocks ≤ 1
count_blocks-IsCanonical size index sbn esi [] canonical = omega arith
count_blocks-IsCanonical size index sbn esi (b ∷ blocks) canonical =
    elim (Bool-cases (b.sbn == sbn && ltb esi b.num_source_symbols)) [
      | inl here ↦
          let none_left =
            count_blocks-below size (suc index) sbn esi blocks canonical.4
              (ground (arith, here, canonical.0)) in
          rw here (omega (arith, none_left))
      | inr elsewhere ↦
          rw elsewhere (count_blocks-IsCanonical size (suc index) sbn esi blocks canonical.4)
    ]

-- Past the symbols of its block an id is no source symbol.
count_blocks-repair :
    (size index i esi : ℕ) (blocks : List SourceBlockMeta) (b : SourceBlockMeta)
    → IsCanonical size index blocks
    → get_elem? blocks i ≡ some b
    → b.num_source_symbols ≤ esi
    → count_blocks (index + i, esi) blocks ≡ 0
count_blocks-repair size index i esi [] b canonical e h = cc
count_blocks-repair size index zero esi (x ∷ blocks) b canonical e h = ground (
  arith,
  canonical.0,
  some_inj e,
  count_blocks-below size (suc index) (index + 0) esi blocks canonical.4 (omega arith),
)
count_blocks-repair size index (suc i) esi (x ∷ blocks) b canonical e h =
    let next : suc index + i ≡ index + suc i = omega arith in
    let rest : count_blocks (index + suc i, esi) blocks ≡ 0 =
      subst (λ (n : ℕ). count_blocks (n, esi) blocks ≡ 0) next
        (count_blocks-repair size (suc index) i esi blocks b canonical.4 e h) in
    ground (arith, canonical.0, rest)

stream_cases :
    (plan : List (ℕ × ℕ)) (blocks : List SourceBlockMeta) (n : ℕ) (id : ℕ × ℕ)
    → stream plan blocks n ≡ some id
    → (get_elem? plan n ≡ some id)
      ⊎ ((length plan ≤ n) × (repair_symbol_id blocks (n - length plan) ≡ some id))
stream_cases plan blocks n id e = elim (Option-cases (get_elem? plan n)) [
  | inl past ↦ inr (get_elem?-none plan n past, rw (stream, past) at e)
  | inr (x, planned) ↦ inl (planned ∙ rw (stream, planned) at e)
]

module _ (size : ℕ) (meta : ObjectMeta) (canonical : IsCanonical size 0 meta.blocks) where
  planned_once :
      (a b sbn esi : ℕ)
      → get_elem? (build_source_plan meta) a ≡ some (sbn, esi)
      → get_elem? (build_source_plan meta) b ≡ some (sbn, esi)
      → ¬ (a < b)
  planned_once a b sbn esi e₁ e₂ h = omega (
    arith,
    count_id-twice (build_source_plan meta) a b sbn esi e₁ e₂ h,
    count_id-build_source_plan meta sbn esi,
    count_blocks-IsCanonical size 0 sbn esi meta.blocks canonical,
  )

  planned-repair :
      (a cursor sbn esi : ℕ)
      → get_elem? (build_source_plan meta) a ≡ some (sbn, esi)
      → ¬ (repair_symbol_id meta.blocks cursor ≡ some (sbn, esi))
  planned-repair a cursor sbn esi e₁ e₂ =
      let (b, found, past, room) =
        repair_symbol_id-bounds size meta.blocks cursor sbn esi canonical e₂ in
      let never : count_blocks (sbn, esi) meta.blocks ≡ 0 =
        subst (λ (n : ℕ). count_blocks (n, esi) meta.blocks ≡ 0) (zero-add sbn)
          (count_blocks-repair size 0 sbn esi meta.blocks b canonical found past) in
      omega (
        arith,
        count_id-get_elem? (build_source_plan meta) a sbn esi e₁,
        count_id-build_source_plan meta sbn esi,
        never,
      )

  stream_later :
      (a b sbn esi : ℕ)
      → stream (build_source_plan meta) meta.blocks a ≡ some (sbn, esi)
      → stream (build_source_plan meta) meta.blocks b ≡ some (sbn, esi)
      → ¬ (a < b)
  stream_later a b sbn esi e₁ e₂ h =
      let plan : List (ℕ × ℕ) = build_source_plan meta in
      elim (stream_cases plan meta.blocks a (sbn, esi) e₁) [
        | inl planned_a ↦ elim (stream_cases plan meta.blocks b (sbn, esi) e₂) [
          | inl planned_b ↦ planned_once a b sbn esi planned_a planned_b h
          | inr (past_b, repair_b) ↦ planned-repair a (b - length plan) sbn esi planned_a repair_b
        ]
        | inr (past_a, repair_a) ↦ elim (stream_cases plan meta.blocks b (sbn, esi) e₂) [
          | inl planned_b ↦ planned-repair b (a - length plan) sbn esi planned_b repair_a
          | inr (past_b, repair_b) ↦ omega (
            arith,
            repair_symbol_id-injective size meta.blocks (a - length plan) (b - length plan) sbn esi
                canonical repair_a repair_b,
          )
        ]
      ]

-- Frames that are sent from place `n` of the stream on; each data frame takes a place of its own.
abbrev From : List (ℕ × ℕ) → List SourceBlockMeta → ℕ → List Frame → Type 0
From plan blocks n [] = Unit {0}
From plan blocks n (f ∷ frames) =
    (m : ℕ) × (n ≤ m)
    × (f.header.flags ≡ 0
        → (k : ℕ) × (n ≤ k) × (k < m) × (stream plan blocks k ≡ some (f.header.sbn, f.header.esi)))
    × From plan blocks m frames

From-get_elem? :
    (plan : List (ℕ × ℕ)) (blocks : List SourceBlockMeta) (n i : ℕ) (frames : List Frame)
    (f : Frame)
    → From plan blocks n frames
    → get_elem? frames i ≡ some f
    → f.header.flags ≡ 0
    → (k : ℕ) × (n ≤ k) × (stream plan blocks k ≡ some (f.header.sbn, f.header.esi))
From-get_elem? plan blocks n i [] f from e plain = cc
From-get_elem? plan blocks n zero (x ∷ frames) f (m, later, place, from) e plain =
    let (k, past, room, here) = place (ap (λ (g : Frame). g.header.flags) (some_inj e) ∙ plain) in
    (
      k,
      past,
      subst (λ (g : Frame). stream plan blocks k ≡ some (g.header.sbn, g.header.esi)) (some_inj e)
          here,
    )
From-get_elem? plan blocks n (suc i) (x ∷ frames) f (m, later, place, from) e plain =
    let (k, past, right) = From-get_elem? plan blocks m i frames f from e plain in
    (k, omega arith, right)

-- Of two data frames the later one has the later place.
From-ordered :
    (plan : List (ℕ × ℕ)) (blocks : List SourceBlockMeta) (n i j : ℕ) (frames : List Frame)
    (f g : Frame)
    → From plan blocks n frames
    → i < j
    → get_elem? frames i ≡ some f
    → get_elem? frames j ≡ some g
    → f.header.flags ≡ 0
    → g.header.flags ≡ 0
    → (k l : ℕ) × (k < l)
      × (stream plan blocks k ≡ some (f.header.sbn, f.header.esi))
      × (stream plan blocks l ≡ some (g.header.sbn, g.header.esi))
From-ordered plan blocks n i j [] f g from h e₁ e₂ plain₁ plain₂ = cc
From-ordered plan blocks n i zero (x ∷ frames) f g from h e₁ e₂ plain₁ plain₂ = absurd (omega arith)
From-ordered plan blocks n zero (suc j) (x ∷ frames) f g (m, later, place, from) h e₁ e₂ plain₁
      plain₂ =
    let (l, past, right) = From-get_elem? plan blocks m j frames g from e₂ plain₂ in
    let (k, before, room, here) =
      place (ap (λ (y : Frame). y.header.flags) (some_inj e₁) ∙ plain₁) in
    (
      k,
      l,
      omega arith,
      subst (λ (y : Frame). stream plan blocks k ≡ some (y.header.sbn, y.header.esi)) (some_inj e₁)
          here,
      right,
    )
From-ordered plan blocks n (suc i) (suc j) (x ∷ frames) f g (m, later, place, from) h e₁ e₂ plain₁
      plain₂ =
    From-ordered plan blocks m i j frames f g from (omega arith) e₁ e₂ plain₁ plain₂

From-weaken :
    (plan : List (ℕ × ℕ)) (blocks : List SourceBlockMeta) (n m : ℕ) (frames : List Frame)
    → n ≤ m
    → From plan blocks m frames
    → From plan blocks n frames
From-weaken plan blocks n m [] h from = tt
From-weaken plan blocks n m (f ∷ frames) h (l, later, place, from) = (
  l,
  omega arith,
  λ plain. let (k, past, room, here) = place plain in (k, omega arith, room, here),
  from,
)

From-Kept :
    {E : Type 0} (s t : SenderSession E) (frames : List Frame)
    → Kept s t
    → From t.source_plan t.meta.blocks (position t) frames
    → From s.source_plan s.meta.blocks (position t) frames
From-Kept s t frames kept from =
    subst (λ (m : ObjectMeta). From s.source_plan m.blocks (position t) frames) kept.meta
      (subst (λ (plan : List (ℕ × ℕ)). From plan t.meta.blocks (position t) frames) kept.plan from)

module _ {E : Type 0} (crc : Checksum) (rq : BlockEncoding E) where
  -- The frames that a run emits, one call for each reading of the clock; a call that fails emits none.
  unfoldable pub run : SenderSession E → List (ℕ × ℕ × ℕ) → List Frame
  run s [] = []
  run s ((start_ms, now_ms, sent_ms) ∷ clocks) =
      let (t, r) = next_frame crc rq s start_ms now_ms sent_ms in
      let rest = run t clocks in elim r [ err e ↦ rest | ok frame ↦ frame ∷ rest ]

  From-step :
      (s t : SenderSession E) (r : Result Error Frame) (frames : List Frame)
      → Sent s (t, r)
      → From t.source_plan t.meta.blocks (position t) frames
      → From s.source_plan s.meta.blocks
          (position s)
          (elim r [ err e ↦ frames | ok frame ↦ frame ∷ frames ])
  From-step s t (err e) frames (kept, place) from =
      From-weaken s.source_plan s.meta.blocks (position s) (position t) frames kept.forward
        (From-Kept s t frames kept from)
  From-step s t (ok f) frames (kept, place) from = (
    position t,
    kept.forward,
    λ plain.
        (position s, omega arith, omega (arith, (place f refl plain).1), (place f refl plain).0),
    From-Kept s t frames kept from,
  )

  run-From :
      (s : SenderSession E) (clocks : List (ℕ × ℕ × ℕ))
      → OnStream s
      → From s.source_plan s.meta.blocks (position s) (run s clocks)
  unfolding run
  run-From s [] h = tt
  run-From s ((start_ms, now_ms, sent_ms) ∷ clocks) h =
      let sent = next_frame-Sent crc rq s start_ms now_ms sent_ms h in
      let o : SenderSession E × Result Error Frame = next_frame crc rq s start_ms now_ms sent_ms in
      From-step s o.0 o.1 (run o.0 clocks) sent (run-From o.0 clocks sent.0.on_stream)

  -- In a run of a session with a canonical block table and its source plan, two data frames at different
  -- places never carry the same symbol id, however long the run.
  pub run-fresh :
      (size : ℕ) (s : SenderSession E) (clocks : List (ℕ × ℕ × ℕ)) (i j : ℕ) (f g : Frame)
      → IsCanonical size 0 s.meta.blocks
      → s.source_plan ≡ build_source_plan s.meta
      → OnStream s
      → i < j
      → get_elem? (run s clocks) i ≡ some f
      → get_elem? (run s clocks) j ≡ some g
      → f.header.flags ≡ 0
      → g.header.flags ≡ 0
      → ¬ (◌≡◌ {A = ℕ × ℕ} (f.header.sbn, f.header.esi) (g.header.sbn, g.header.esi))
  run-fresh size s clocks i j f g canonical planned h order e₁ e₂ plain₁ plain₂ same =
      let from = run-From s clocks h in
      let (k, l, before, first, second) =
        From-ordered (build_source_plan s.meta) s.meta.blocks (position s) i j (run s clocks) f g
          (subst (λ (plan : List (ℕ × ℕ)). From plan s.meta.blocks (position s) (run s clocks))
            planned from)
          order e₁ e₂ plain₁ plain₂ in
      stream_later size s.meta canonical k l g.header.sbn g.header.esi (first ∙ ap some same) second
        before
