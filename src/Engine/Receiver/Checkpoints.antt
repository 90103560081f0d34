-- ===== src/Engine/Receiver/Checkpoints.antt =====
-- What a checkpoint keeps, and what a restored session can do.
use air_ferry.Prelude.{
  ℕ, zero, suc, ◌%◌, ◌^◌, ◌<◌, ◌≡◌, refl, sym, ap, subst, ◌∙◌, inl, inr, Bool, true, false, ◌||◌,
  ◌&&◌, not, leb, ◌==◌, List, [], ◌∷◌, length, replicate, get_or, set, length-set, length-replicate,
  some, Result, ok, err, map_err, if◌then◌else◌, Bool-cases, >>=-eq-ok, ◌>>=◌, >>-eq-ok,
  ok-injective, some_inj, arith,
}
use air_ferry.Protocol.Frame.{Frame}
use air_ferry.Codec.Raptorq.{Oti, BlockDecoding, IsSizing}
use air_ferry.Codec.Symbol
use air_ferry.Codec.Meta.{ObjectMeta}
use air_ferry.Codec.Decoder
use air_ferry.Codec.Decoder.{Decoder, max_esi}
use air_ferry.Codec.Decoder.Blocks.{feed_all}
use air_ferry.Codec.Errors as CodecErrors
use air_ferry.Engine.Errors.{Error, raptorq, invalid_resume}
use air_ferry.Engine.Receiver.{
  ReceiverSession, Cached, contains, contains_key, new_confirmed, build,
}
use air_ferry.Engine.Receiver.Replay.{note_symbol, has_symbol, feed_decoder, recount}
use air_ferry.Engine.Receiver.Ingest.{blocks}
use air_ferry.Engine.Receiver.Finish.{assemble_raw}
use air_ferry.Engine.Receiver.Resume.{
  ResumeState, validate, collect, save_state, feed_anyway, restore_one, restore_all, restore,
}
use air_ferry.Engine.Receiver.Decoding.{
  Sound, live, Sound-same, feed_decoder-Sound, note_symbol-Sound, refresh-Sound,
}
use air_ferry.Engine.Receiver.Run.{ingest_all, ingest_all-Sound, assembled}

get_or-set :
    (rows : List (List ℕ)) (i j : ℕ) (row : List ℕ)
    → j < length rows
    → get_or (set rows i row) j [] ≡ (if i == j then row else get_or rows j [])
get_or-set [] i j row h = absurd (omega arith)
get_or-set (x ∷ rows) zero zero row h = refl
get_or-set (x ∷ rows) zero (suc j) row h = ground arith
get_or-set (x ∷ rows) (suc i) zero row h = ground arith
get_or-set (x ∷ rows) (suc i) (suc j) row h = get_or-set rows i j row (omega arith) ∙ ground arith

eq_of_test : (a b : ℕ) → (a == b) ≡ true → a ≡ b
eq_of_test a b h = ground arith

both_tests : (a b c d : ℕ) → (a == b && c == d) ≡ true → (a ≡ b) × (c ≡ d)
both_tests a b c d h = (ground arith, ground arith)

or_false : (b : Bool) → b ≡ (b || false)
or_false true = refl
or_false false = refl

held_already :
    (rows : List (List ℕ)) (a e sbn esi : ℕ)
    → contains e (get_or rows a []) ≡ true
    → contains esi (get_or rows sbn [])
      ≡ (contains esi (get_or rows sbn []) || (a == sbn && e == esi))
held_already rows a e sbn esi held = elim (Bool-cases (a == sbn && e == esi)) [
  | inl both ↦
      let (same_row, same_id) = both_tests a sbn e esi both in
      let here : contains esi (get_or rows sbn []) ≡ true =
        subst (λ (n : ℕ). contains n (get_or rows sbn []) ≡ true) same_id
          (subst (λ (n : ℕ). contains e (get_or rows n []) ≡ true) same_row held) in
      rw here
  | inr other ↦ rw other (or_false (contains esi (get_or rows sbn [])))
]

put_in :
    (rows : List (List ℕ)) (a e sbn esi : ℕ)
    → contains esi (if a == sbn then e ∷ get_or rows a [] else get_or rows sbn [])
      ≡ (contains esi (get_or rows sbn []) || (a == sbn && e == esi))
unfolding contains
put_in rows a e sbn esi = elim (Bool-cases (a == sbn)) [
  | inr other ↦ rw other (or_false (contains esi (get_or rows sbn [])))
  | inl same ↦ rw same (
      subst
        (λ (n : ℕ).
          contains esi (e ∷ get_or rows n [])
          ≡ (contains esi (get_or rows sbn []) || (true && e == esi)))
        (sym (eq_of_test a sbn same)) (front (contains esi (get_or rows sbn [])) e esi))
]
  where
    front : (b : Bool) (e esi : ℕ) → (if e == esi then true else b) ≡ (b || (true && e == esi))
    front true e esi = ground arith
    front false e esi = ground arith

-- Inserting one entry.
insert_one :
    (rows : List (List ℕ)) (a e sbn esi : ℕ)
    → sbn < length rows
    → contains esi (
        get_or
          (if contains e (get_or rows a []) then rows else set rows a (e ∷ get_or rows a []))
          sbn
          [])
      ≡ (contains esi (get_or rows sbn []) || (a == sbn && e == esi))
insert_one rows a e sbn esi h = elim (Bool-cases (contains e (get_or rows a []))) [
  | inl held ↦ rw held (held_already rows a e sbn esi held)
  | inr new ↦ rw (new, get_or-set rows a sbn (e ∷ get_or rows a []) h) (put_in rows a e sbn esi)
]

insert_length :
    (rows : List (List ℕ)) (a e : ℕ)
    → length (if contains e (get_or rows a []) then rows else set rows a (e ∷ get_or rows a []))
      ≡ length rows
insert_length rows a e = elim (Bool-cases (contains e (get_or rows a []))) [
  | inl held ↦ rw held
  | inr new ↦ rw new (length-set rows a (e ∷ get_or rows a []))
]

collect-contains :
    (symbols : List Cached) (rows : List (List ℕ)) (sbn esi : ℕ)
    → sbn < length rows
    → contains esi (get_or (collect rows symbols) sbn [])
      ≡ (contains esi (get_or rows sbn []) || contains_key sbn esi symbols)
unfolding collect contains_key
collect-contains [] rows sbn esi h = or_false (contains esi (get_or rows sbn []))
collect-contains (c ∷ symbols) rows sbn esi h =
    collect-contains symbols _ sbn esi (omega (arith, insert_length rows c.sbn c.esi, h))
    ∙ ap (λ (b : Bool). b || contains_key sbn esi symbols) (insert_one rows c.sbn c.esi sbn esi h)
    ∙ regroup (contains esi (get_or rows sbn [])) (c.sbn == sbn && c.esi == esi)
        (contains_key sbn esi symbols)
  where
    regroup : (a b k : Bool) → ((a || b) || k) ≡ (a || (if b then true else k))
    regroup true b k = refl
    regroup false true k = refl
    regroup false false k = refl

get_or-replicate : (n sbn : ℕ) → get_or {A = List ℕ} (replicate n []) sbn [] ≡ []
get_or-replicate zero sbn = refl
get_or-replicate (suc n) zero = refl
get_or-replicate (suc n) (suc sbn) = get_or-replicate n sbn

module _ {D : Type 0} (order : List Cached → List Cached) where
  -- The ids that a checkpoint lists for a block are exactly those of the block's symbols that it stores.
  pub save_state-received :
      (s : ReceiverSession D) (meta : ObjectMeta) (state : ResumeState) (sbn esi : ℕ)
      → s.meta ≡ some meta
      → save_state order s ≡ some state
      → sbn < length meta.blocks
      → contains esi (get_or state.received sbn []) ≡ contains_key sbn esi state.symbols
  unfolding save_state contains
  save_state-received s meta state sbn esi known saved h =
      subst
        (λ (t : ResumeState).
          contains esi (get_or t.received sbn []) ≡ contains_key sbn esi t.symbols)
        (some_inj (rw known at saved))
        (collect-contains (order s.symbol_cache) (replicate (length meta.blocks) []) sbn esi
            (omega (arith, length-replicate {A = List ℕ} (length meta.blocks) [], h))
          ∙ ap (λ (row : List ℕ). contains esi row || contains_key sbn esi (order s.symbol_cache))
              (get_or-replicate (length meta.blocks) sbn))

module _ {D : Type 0} (oti : Oti) (rq : BlockDecoding D) where
  fed_anyway :
      (s : ReceiverSession D) (symbol : Symbol.Symbol) (r : Result Error (ReceiverSession D))
      → feed_decoder rq s symbol ≡ r
      → Sound oti rq s
      → Sound oti rq (feed_anyway rq s r)
  unfolding feed_anyway
  fed_anyway s symbol (err e) fed h = h
  fed_anyway s symbol (ok t) fed h = feed_decoder-Sound oti rq s t symbol h fed

  restore_one-Sound :
      (s : ReceiverSession D) (c : Cached) → Sound oti rq s → Sound oti rq (restore_one rq s c)
  unfolding restore_one
  restore_one-Sound s c h =
      elim (Bool-cases (
        ((leb (length s.received) c.sbn || leb max_esi c.esi)
          || not (length c.bytes % 2 ^ 32 == s.pending_symbol_size))
        || has_symbol s c.sbn c.esi)) [
          | inl skipped ↦ rw skipped h
          | inr taken ↦ rw taken (
              fed_anyway (note_symbol s (blocks s) c.sbn c.esi) (Symbol.new c.sbn c.esi c.bytes) _
                refl (note_symbol-Sound oti rq s (blocks s) c.sbn c.esi h))
        ]

  restore_all-Sound :
      (s : ReceiverSession D) (symbols : List Cached)
      → Sound oti rq s
      → Sound oti rq (restore_all rq s symbols)
  unfolding restore_all
  restore_all-Sound s [] h = h
  restore_all-Sound s (c ∷ symbols) h =
      restore_all-Sound (restore_one rq s c) symbols (restore_one-Sound s c h)

  build-Sound :
      (session_id : ℕ) (meta : ObjectMeta) (d : Decoder D)
      → Decoder.new oti rq meta ≡ ok d
      → Sound oti rq (build session_id (some meta) (some d) true)
  unfolding build feed_all
  build-Sound session_id meta d made = live meta d (record {
    meta_is = refl;
    decoder_is = refl;
    fed = record { start = d; symbols = []; started = made; reached = refl };
    width = length-replicate (length meta.blocks) [];
  })

  confirmed :
      (session_id : ℕ) (meta : ObjectMeta) (s : ReceiverSession D)
      (r : Result CodecErrors.Error (Decoder D))
      → Decoder.new oti rq meta ≡ r
      → (map_err raptorq r >>= λ (d : Decoder D). ok (build session_id (some meta) (some d) true))
        ≡ ok s
      → Sound oti rq s
  confirmed session_id meta s (err e) made same = cc
  confirmed session_id meta s (ok d) made same =
      subst (Sound oti rq) (ok-injective same) (build-Sound session_id meta d made)

  new_confirmed-Sound :
      (session_id : ℕ) (meta : ObjectMeta) (s : ReceiverSession D)
      → new_confirmed oti rq session_id meta ≡ ok s
      → Sound oti rq s
  unfolding new_confirmed
  new_confirmed-Sound session_id meta s e =
      confirmed session_id meta s (Decoder.new oti rq meta) refl e

  restore-Sound :
      (state : ResumeState) (s : ReceiverSession D) → restore oti rq state ≡ ok s → Sound oti rq s
  unfolding restore recount
  restore-Sound state s e =
      let (rx, made, rest) =
        >>=-eq-ok (new_confirmed oti rq state.session_id state.meta) _
          (>>-eq-ok (map_err invalid_resume (validate oti state)) _ e).1 in
      subst (Sound oti rq) (ok-injective rest) (
        refresh-Sound oti rq _ (
          Sound-same oti rq (restore_all rq rx state.symbols) _ refl refl refl (
            restore_all-Sound rx state.symbols
              (new_confirmed-Sound state.session_id state.meta rx made))))

  -- Whatever symbols a checkpoint holds and whatever frames a restored receiver has seen, the object that
  -- it hands out has the length that its metadata declares. The crate's block decoders, started for whole
  -- symbols, return whole blocks.
  pub restore-length :
      (order : List Cached → List Cached) (law : IsSizing oti rq) (state : ResumeState)
      (s : ReceiverSession D) (frames : List Frame) (out : List ℕ)
      → restore oti rq state ≡ ok s
      → assemble_raw (ingest_all oti rq order s frames) ≡ some out
      → (m : ObjectMeta) × ((ingest_all oti rq order s frames).meta ≡ some m)
        × (length out ≡ m.transfer_length)
  restore-length order law state s frames out restored e =
      assembled oti rq order law (ingest_all oti rq order s frames) out
        (ingest_all-Sound oti rq order s frames (restore-Sound state s restored)) e
