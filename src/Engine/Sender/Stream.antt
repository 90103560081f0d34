-- ===== src/Engine/Sender/Stream.antt =====
-- The ids that the data frames draw (`next_symbol_id` of core/transfer-engine/src/sender.rs).
use air_ferry.Prelude.{
  ℕ, suc, ◌+◌, ◌-◌, ◌^◌, ◌≤◌, ◌≡◌, refl, sym, ap, subst, ◌∙◌, ◌⊎◌, inl, inr, ltb, List, length,
  get_elem?, get_elem?-lt, get_elem?-ge, get_elem?-none, Option, none, some, Option-cases,
  Bool-cases, Result, ok, err, ok-injective, arith,
}
use air_ferry.Protocol.Checksum.{Checksum}
use air_ferry.Protocol.Frame.{Frame, build}
use air_ferry.Codec.Raptorq.{BlockEncoding}
use air_ferry.Codec.Symbol.{Symbol}
use air_ferry.Codec.Meta.{SourceBlockMeta}
use air_ferry.Codec.Encoder.{is_empty}
use air_ferry.Engine.Errors.{Error, symbol_id_space_exhausted}
use air_ferry.Engine.Sender.Frames.{descriptor-IsDescriptorOf}
use air_ferry.Engine.Sender.{
  SenderSession, next_symbol_id, next_repair_id, repair_symbol_id, next_frame, emit_data,
  emit_drawn, emit_fetched, emit_descriptor, emit_built, data_frame, fetch_symbol, advance_index,
  record_bytes, start_clock, descriptor, is_descriptor_turn,
}

-- The `n`-th id that a session draws: the source plan, and then the repair ids.
abbrev pub stream : List (ℕ × ℕ) → List SourceBlockMeta → ℕ → Option (ℕ × ℕ)
stream plan blocks n = elim (get_elem? plan n) [
  | none ↦ repair_symbol_id blocks (n - length plan)
  | some id ↦ some id
]

module _ {E : Type 0} where
  -- The ids drawn so far.
  abbrev pub position : SenderSession E → ℕ
  position s = s.source_cursor + s.repair_cursor

  abbrev pub id_at : SenderSession E → ℕ → Option (ℕ × ℕ)
  id_at s n = stream s.source_plan s.meta.blocks n

  -- Repair symbols are drawn when the source plan is done.
  pub record OnStream (s : SenderSession E) : Type 0 where
    pub within : s.source_cursor ≤ length s.source_plan
    pub phase : (s.repair_cursor ≡ 0) ⊎ (s.source_cursor ≡ length s.source_plan)

  -- What a step leaves alone.
  pub record Kept (s t : SenderSession E) : Type 0 where
    pub meta : t.meta ≡ s.meta
    pub plan : t.source_plan ≡ s.source_plan
    pub forward : position s ≤ position t
    pub on_stream : OnStream t

  Kept-refl : (s : SenderSession E) → OnStream s → Kept s s
  Kept-refl s h = record { meta = refl; plan = refl; forward = omega arith; on_stream = h }

  -- A call that drew an id.
  abbrev Drew : SenderSession E → SenderSession E × Result Error (ℕ × ℕ) → Type 0
  Drew s o =
      Kept s o.0
      × ((id : ℕ × ℕ)
          → o.1 ≡ ok id
          → (id_at s (position s) ≡ some id) × (position o.0 ≡ suc (position s)))

  -- A call that emitted a frame.
  abbrev pub Sent : SenderSession E → SenderSession E × Result Error Frame → Type 0
  Sent s o =
      Kept s o.0
      × ((f : Frame)
          → o.1 ≡ ok f
          → f.header.flags ≡ 0
          → (id_at s (position s) ≡ some (f.header.sbn, f.header.esi))
            × (position o.0 ≡ suc (position s)))

  no_id : (s : SenderSession E) (e : Error) → OnStream s → Drew s (s, err e)
  no_id s e h = (Kept-refl s h, λ id failed. cc)

  one_id :
      (s t : SenderSession E) (id : ℕ × ℕ)
      → Kept s t
      → id_at s (position s) ≡ some id
      → position t ≡ suc (position s)
      → Drew s (t, ok id)
  one_id s t id kept right next = (
    kept,
    λ id₁ e. (subst (λ (x : ℕ × ℕ). id_at s (position s) ≡ some x) (ok-injective e) right, next),
  )

  -- In the repair phase the next id is the one of the repair cursor.
  repair_phase :
      (s : SenderSession E)
      → OnStream s
      → get_elem? s.source_plan s.source_cursor ≡ none
      → id_at s (position s) ≡ repair_symbol_id s.meta.blocks s.repair_cursor
  repair_phase s h past =
      let done : s.source_cursor ≡ length s.source_plan =
        omega (arith, h.within, get_elem?-none s.source_plan s.source_cursor past) in
      let beyond = get_elem?-ge s.source_plan (position s) (omega (arith, done)) in
      rw (id_at, stream, beyond) (ap (repair_symbol_id s.meta.blocks) (omega (arith, done)))

  -- In the source phase no repair symbol has been drawn.
  source_phase :
      (s : SenderSession E) (id : ℕ × ℕ)
      → OnStream s
      → get_elem? s.source_plan s.source_cursor ≡ some id
      → s.repair_cursor ≡ 0
  source_phase s id h found =
      let inside = get_elem?-lt s.source_plan s.source_cursor found in
      elim h.phase [ inl none_yet ↦ none_yet | inr done ↦ absurd (omega arith) ]

  first_phase :
      (s : SenderSession E) (id : ℕ × ℕ)
      → OnStream s
      → get_elem? s.source_plan s.source_cursor ≡ some id
      → id_at s (position s) ≡ some id
  first_phase s id h found =
      let same : position s ≡ s.source_cursor = omega (arith, source_phase s id h found) in
      let drawn : get_elem? s.source_plan (position s) ≡ some id = rw same found in
      rw (id_at, stream, drawn)

  next_repair_id-Drew :
      (s : SenderSession E)
      → OnStream s
      → get_elem? s.source_plan s.source_cursor ≡ none
      → Drew s (next_repair_id s)
  unfolding next_repair_id
  next_repair_id-Drew s h past =
      elim (Option-cases (repair_symbol_id s.meta.blocks s.repair_cursor)) [
        | inl out ↦ rw (next_repair_id, out) (no_id s symbol_id_space_exhausted h)
        | inr (id, found) ↦ elim (Bool-cases (ltb (s.repair_cursor + 1) (2 ^ 64))) [
          | inr full ↦ rw (next_repair_id, found, full) (no_id s symbol_id_space_exhausted h)
          | inl room ↦
              rw (next_repair_id, found, room)
                (one_id s (record s { repair_cursor = s.repair_cursor + 1 }) id
                  (record {
                    meta = refl;
                    plan = refl;
                    forward = omega arith;
                    on_stream = record {
                      within = h.within;
                      phase = inr (
                          omega
                            (arith, h.within, get_elem?-none s.source_plan s.source_cursor past));
                    };
                  })
                  (repair_phase s h past ∙ found) (omega arith))
        ]
      ]

  next_symbol_id-Drew : (s : SenderSession E) → OnStream s → Drew s (next_symbol_id s)
  unfolding next_symbol_id
  next_symbol_id-Drew s h = elim (Option-cases (get_elem? s.source_plan s.source_cursor)) [
    | inl past ↦ rw (next_symbol_id, past) (next_repair_id-Drew s h past)
    | inr (id, found) ↦
        rw (next_symbol_id, found)
          (one_id s (record s { source_cursor = s.source_cursor + 1 }) id
            (record {
              meta = refl;
              plan = refl;
              forward = omega arith;
              on_stream = record {
                within = omega (arith, get_elem?-lt s.source_plan s.source_cursor found);
                phase = inl (source_phase s id h found);
              };
            })
            (first_phase s id h found) (omega arith))
  ]

module _ {E : Type 0} where
  -- The index, the counters and the clock are not part of the stream.
  Kept-emit :
      (s t : SenderSession E) (sent_ms : ℕ) (bytes : List ℕ)
      → Kept s t
      → Kept s (record_bytes (advance_index t) sent_ms bytes)
  unfolding record_bytes advance_index
  Kept-emit s t sent_ms bytes k = record {
    meta = k.meta;
    plan = k.plan;
    forward = k.forward;
    on_stream = record { within = k.on_stream.within; phase = k.on_stream.phase };
  }

  Kept-advance : (s : SenderSession E) → OnStream s → Kept s (advance_index s)
  unfolding advance_index
  Kept-advance s h = record {
    meta = refl;
    plan = refl;
    forward = omega arith;
    on_stream = record { within = h.within; phase = h.phase };
  }

  OnStream-start_clock :
      (s : SenderSession E) (start_ms : ℕ) → OnStream s → OnStream (start_clock s start_ms)
  unfolding start_clock
  OnStream-start_clock s start_ms h = elim (Bool-cases s.started) [
    | inl on ↦ rw on (record { within = h.within; phase = h.phase })
    | inr off ↦ rw off (record { within = h.within; phase = h.phase })
  ]

  Sent-start_clock :
      (s : SenderSession E) (start_ms : ℕ) (o : SenderSession E × Result Error Frame)
      → Sent (start_clock s start_ms) o
      → Sent s o
  unfolding start_clock
  Sent-start_clock s start_ms o sent = elim (Bool-cases s.started) [
    | inl on ↦
        let (k, drew) = rw on at sent in
        (
          record { meta = k.meta; plan = k.plan; forward = k.forward; on_stream = k.on_stream },
          drew,
        )
    | inr off ↦
        let (k, drew) = rw off at sent in
        (
          record { meta = k.meta; plan = k.plan; forward = k.forward; on_stream = k.on_stream },
          drew,
        )
  ]

module _ {E : Type 0} (crc : Checksum) (rq : BlockEncoding E) where
  emit_fetched-Sent :
      (s t : SenderSession E) (sbn esi now_ms sent_ms : ℕ) (r : Result Error Symbol)
      → Drew s (t, ok (sbn, esi))
      → Sent s (emit_fetched crc rq t sbn esi now_ms sent_ms r)
  unfolding emit_fetched record_bytes advance_index data_frame build
  emit_fetched-Sent s t sbn esi now_ms sent_ms (err e) (kept, drew) = (kept, λ f failed. cc)
  emit_fetched-Sent s t sbn esi now_ms sent_ms (ok symbol) (kept, drew) = (
    Kept-emit s t sent_ms symbol.bytes kept,
    λ f e plain.
        subst
          (λ (g : Frame).
            (id_at s (position s) ≡ some (g.header.sbn, g.header.esi))
            × (position t ≡ suc (position s)))
          (ok-injective e) (drew (sbn, esi) refl),
  )

  emit_drawn-Sent :
      (s : SenderSession E) (now_ms sent_ms : ℕ) (o : SenderSession E × Result Error (ℕ × ℕ))
      → Drew s o
      → Sent s (emit_drawn crc rq now_ms sent_ms o)
  unfolding emit_drawn
  emit_drawn-Sent s now_ms sent_ms (t, err e) (kept, drew) = (kept, λ f failed. cc)
  emit_drawn-Sent s now_ms sent_ms (t, ok (sbn, esi)) d =
      emit_fetched-Sent s t sbn esi now_ms sent_ms (fetch_symbol crc rq t sbn esi) d

  emit_built-Sent :
      (s : SenderSession E) (sent_ms : ℕ) (r : Result Error Frame)
      → OnStream s
      → ((f : Frame) → r ≡ ok f → f.header.flags ≡ 1)
      → Sent s (emit_built crc rq (advance_index s) sent_ms r)
  unfolding emit_built
  emit_built-Sent s sent_ms (err e) h flags = (Kept-advance s h, λ f failed. cc)
  emit_built-Sent s sent_ms (ok frame) h flags = (
    Kept-emit s s sent_ms frame.payload (Kept-refl s h),
    λ f sent plain. absurd (omega (arith, flags f sent)),
  )

  -- Descriptor frames are marked.
  pub descriptor-flags :
      (s : SenderSession E) (now_ms : ℕ) (f : Frame)
      → descriptor crc rq s now_ms ≡ ok f
      → f.header.flags ≡ 1
  unfolding build
  descriptor-flags s now_ms f e =
      let (payload, built, same) = descriptor-IsDescriptorOf crc rq s now_ms f e in
      ap (λ (g : Frame). g.header.flags) (sym same)

  -- One call of `next_frame`: it stays on the stream, and a data frame that it emits has the next id.
  pub next_frame-Sent :
      (s : SenderSession E) (start_ms now_ms sent_ms : ℕ)
      → OnStream s
      → Sent s (next_frame crc rq s start_ms now_ms sent_ms)
  unfolding next_frame emit_descriptor emit_data
  next_frame-Sent s start_ms now_ms sent_ms h =
      let started = OnStream-start_clock s start_ms h in
      elim (Bool-cases (is_empty s.source_plan)) [
        | inl empty ↦ rw empty (Kept-refl s h, λ f failed. cc)
        | inr some_symbols ↦ elim (Bool-cases (is_descriptor_turn s)) [
          | inl turn ↦
              rw (some_symbols, turn)
                (Sent-start_clock s start_ms _ (
                  emit_built-Sent (start_clock s start_ms) sent_ms _ started
                    (descriptor-flags (advance_index (start_clock s start_ms)) now_ms)))
          | inr turn ↦
              rw (some_symbols, turn)
                (Sent-start_clock s start_ms _ (
                  emit_drawn-Sent (start_clock s start_ms) now_ms sent_ms _
                    (next_symbol_id-Drew (start_clock s start_ms) started)))
        ]
      ]
