-- ===== src/Engine/Receiver/Counters.antt =====
-- The counters of a session that has its metadata.
use air_ferry.Prelude.{
  ℕ, zero, suc, ◌%◌, ◌^◌, ◌<◌, ◌≡◌, refl, ap, ◌∙◌, inl, inr, Bool, true, false, ◌||◌, leb, List, [],
  ◌∷◌, length, get_or, set, Option, none, some, Bool-cases, Result, ok, err, arith,
}
use air_ferry.Protocol.Frame.{Frame}
use air_ferry.Codec.Raptorq.{BlockDecoding}
use air_ferry.Codec.Symbol
use air_ferry.Codec.Meta.{ObjectMeta, SourceBlockMeta}
use air_ferry.Codec.Decoder.{Decoder, add_symbol}
use air_ferry.Engine.Errors.{Error}
use air_ferry.Engine.Receiver.{
  ReceiverSession, count_corrupt, count_duplicate, is_complete, contains,
}
use air_ferry.Engine.Receiver.Replay.{
  count_received, feed_decoder, note_symbol, has_symbol, refreshed, refresh_decoded_counts,
}
use air_ferry.Engine.Receiver.Ingest.{
  ingest_symbol, take_symbol, end_symbol, count_symbol, blocks, is_misfit, answer,
}

-- A set holds nothing twice.
abbrev pub NoRepeats : List ℕ → Type 0
NoRepeats [] = Unit {0}
NoRepeats (x ∷ xs) = (contains x xs ≡ false) × NoRepeats xs

abbrev pub AllSets : List (List ℕ) → Type 0
AllSets [] = Unit {0}
AllSets (set ∷ received) = NoRepeats set × AllSets received

count_received-insert :
    (received : List (List ℕ)) (sbn esi : ℕ)
    → sbn < length received
    → count_received (set received sbn (esi ∷ get_or received sbn []))
      ≡ suc (count_received received)
unfolding count_received
count_received-insert [] sbn esi h = absurd (omega arith)
count_received-insert (x ∷ received) zero esi h = omega arith
count_received-insert (x ∷ received) (suc sbn) esi h =
    omega (arith, count_received-insert received sbn esi (omega arith))

pub AllSets-insert :
    (received : List (List ℕ)) (sbn esi : ℕ)
    → AllSets received
    → contains esi (get_or received sbn []) ≡ false
    → AllSets (set received sbn (esi ∷ get_or received sbn []))
AllSets-insert [] sbn esi h new = tt
AllSets-insert (x ∷ received) zero esi (one, rest) new = ((new, one), rest)
AllSets-insert (x ∷ received) (suc sbn) esi (one, rest) new =
    (one, AllSets-insert received sbn esi rest new)

module _ {D : Type 0} where
  -- The number of symbols received is the size of the sets, and the sets have no repetitions.
  abbrev pub Counted : ReceiverSession D → Type 0
  Counted s =
      (s.progress.received_symbols ≡ count_received s.received % 2 ^ 32) × AllSets s.received

  count_corrupt-Counted : (s : ReceiverSession D) → Counted s → Counted (count_corrupt s)
  unfolding count_corrupt
  count_corrupt-Counted s h = h

  is_complete-count_corrupt :
      (s : ReceiverSession D) → is_complete (count_corrupt s) ≡ is_complete s
  unfolding is_complete count_corrupt
  is_complete-count_corrupt s = refl

  count_duplicate-Counted : (s : ReceiverSession D) → Counted s → Counted (count_duplicate s)
  unfolding count_duplicate
  count_duplicate-Counted s h = h

  pub refreshed-Counted :
      (s : ReceiverSession D) (meta : Option ObjectMeta) (decoder : Option (Decoder D))
      → Counted s
      → Counted (refreshed s meta decoder)
  unfolding refreshed
  refreshed-Counted s none decoder h = h
  refreshed-Counted s (some meta) none h = h
  refreshed-Counted s (some meta) (some d) h = h

  noted-Counted :
      (s : ReceiverSession D) (b : List SourceBlockMeta) (sbn esi : ℕ)
      → sbn < length s.received
      → has_symbol s sbn esi ≡ false
      → Counted s
      → Counted (count_symbol (note_symbol s b sbn esi))
  unfolding count_symbol note_symbol has_symbol
  noted-Counted s b sbn esi h new (counted, sets) = (
    omega (arith, counted, count_received-insert s.received sbn esi h),
    AllSets-insert s.received sbn esi sets new,
  )

  in_table :
      (s : ReceiverSession D) (frame : Frame)
      → is_misfit s frame ≡ false
      → frame.header.sbn < length s.received
  unfolding is_misfit
  in_table s frame fits = below (length s.received) frame.header.sbn _ fits
    where
      below : (n sbn : ℕ) (other : Bool) → (leb n sbn || other) ≡ false → sbn < n
      below n sbn other fits = ground arith

module _ {D : Type 0} (rq : BlockDecoding D) where
  feed_decoder-Counted :
      (s t : ReceiverSession D) (symbol : Symbol.Symbol)
      → feed_decoder rq s symbol ≡ ok t
      → (t.progress ≡ s.progress) × (t.received ≡ s.received)
  unfolding feed_decoder add_symbol
  feed_decoder-Counted s t symbol e = (ground arith, ground arith)

  end_symbol-Counted :
      (s : ReceiverSession D) (symbol : Symbol.Symbol) (r : Result Error (ReceiverSession D))
      → feed_decoder rq s symbol ≡ r
      → Counted s
      → Counted (end_symbol rq s r).0
  unfolding end_symbol answer refresh_decoded_counts
  end_symbol-Counted s symbol (err e) fed h = h
  end_symbol-Counted s symbol (ok t) fed h =
      let (progress, received) = feed_decoder-Counted s t symbol fed in
      refreshed-Counted t t.meta t.decoder (rw (progress, received) h)

  -- A data frame keeps the count.
  pub ingest_symbol-Counted :
      (s : ReceiverSession D) (frame : Frame) → Counted s → Counted (ingest_symbol rq s frame).0
  unfolding ingest_symbol answer take_symbol
  ingest_symbol-Counted s frame h = elim (Bool-cases (is_misfit s frame)) [
    | inl bad ↦ rw bad (count_corrupt-Counted s h)
    | inr fits ↦ elim (Bool-cases (is_complete s)) [
      | inl done ↦ rw (fits, done) (count_duplicate-Counted s h)
      | inr more ↦ elim (Bool-cases (has_symbol s frame.header.sbn frame.header.esi)) [
        | inl held ↦ rw (fits, more, held) (count_duplicate-Counted s h)
        | inr new ↦
            rw (fits, more, new)
              (end_symbol-Counted _ (Symbol.new frame.header.sbn frame.header.esi frame.payload) _
                refl
                (noted-Counted s (blocks s) frame.header.sbn frame.header.esi
                  (in_table s frame fits) new h))
      ]
    ]
  ]

  -- Once the object is complete, a data frame changes neither the sets nor the count of received symbols
  -- nor the decoder, and the call says that the object is complete.
  pub ingest_symbol-done :
      (s : ReceiverSession D) (frame : Frame)
      → is_complete s ≡ true
      → ((ingest_symbol rq s frame).0.received ≡ s.received)
        × ((ingest_symbol rq s frame).0.progress.received_symbols ≡ s.progress.received_symbols)
        × ((ingest_symbol rq s frame).0.decoder ≡ s.decoder)
        × ((ingest_symbol rq s frame).1 ≡ ok true)
  unfolding ingest_symbol answer count_corrupt count_duplicate
  ingest_symbol-done s frame done = elim (Bool-cases (is_misfit s frame)) [
    | inl bad ↦ rw bad (refl, refl, refl, ap ok (is_complete-count_corrupt s ∙ done))
    | inr fits ↦ rw (fits, done) (refl, refl, refl, refl)
  ]
