-- ===== src/Engine/Receiver/Resume.antt =====
-- Checkpoints: `ResumeState` of core/transfer-engine/src/resume.rs, `save_state` and `restore` of
-- core/transfer-engine/src/receiver.rs. `order` is the order in which the hash map hands out its entries.
use air_ferry.Prelude.{
  ℕ, ◌%◌, ◌^◌, Bool, false, ◌||◌, not, ltb, leb, ◌==◌, List, [], ◌∷◌, length, replicate, get_or,
  set, Option, none, some, Result, ok, err, String, ◌>>=◌, ◌>>◌, reject_if, ok_or, map_err,
  checked_add, checked_mul, if◌then◌else◌,
}
use air_ferry.Codec.Raptorq.{Oti, BlockDecoding}
use air_ferry.Codec.Symbol
use air_ferry.Codec.Meta
use air_ferry.Codec.Meta.{ObjectMeta, SourceBlockMeta, max_object_bytes, max_total_source_symbols}
use air_ferry.Codec.Decoder.{max_esi}
use air_ferry.Engine.Errors.{Error, invalid_resume}
use air_ferry.Engine.Receiver.{ReceiverSession, Cached, contains, new_confirmed}
use air_ferry.Engine.Receiver.Replay.{feed_decoder, note_symbol, has_symbol, recount}
use air_ferry.Engine.Receiver.Ingest.{blocks}

pub record ResumeState : Type 0 where
  pub session_id : ℕ
  pub meta : ObjectMeta
  pub received : List (List ℕ)
  pub symbols : List Cached

unfoldable pub any_past_esi : List ℕ → Bool
any_past_esi [] = false
any_past_esi (esi ∷ esis) = leb max_esi esi || any_past_esi esis

-- The loop over the sets of ids.
unfoldable pub check_received : (max_records count : ℕ) → List (List ℕ) → Result String (Unit {0})
check_received max_records count [] = ok tt
check_received max_records count (esis ∷ received) = do
  next ← ok_or (checked_add 64 count (length esis)) "resume received count overflow"
  reject_if (ltb max_records next || any_past_esi esis) "received ESI set exceeds resume budget"
  check_received max_records next received

-- The loop over the stored symbols.
unfoldable pub check_symbols :
    (meta : ObjectMeta) → (max_bytes bytes : ℕ) → List Cached → Result String (Unit {0})
check_symbols meta max_bytes bytes [] = ok tt
check_symbols meta max_bytes bytes (c ∷ symbols) = do
  reject_if (leb (length meta.blocks) c.sbn || leb max_esi c.esi)
      "stored resume symbol coordinate out of range"
  reject_if (not (length c.bytes == meta.symbol_size)) "stored resume symbol has wrong size"
  next ← ok_or (checked_add 64 bytes (length c.bytes)) "resume symbol byte count overflow"
  reject_if (ltb max_bytes next) "stored resume symbols exceed byte budget"
  check_symbols meta max_bytes next symbols

module _ (oti : Oti) where
  -- `ResumeState::validate`
  unfoldable pub validate : ResumeState → Result String (Unit {0})
  validate state = do
    Meta.validate oti state.meta
    reject_if (ltb (length state.meta.blocks) (length state.received))
        "too many received block sets"
    max_symbol_records ←
        ok_or (checked_mul 64 max_total_source_symbols 2) "resume symbol-count budget overflow"
    check_received max_symbol_records 0 state.received
    reject_if (ltb max_symbol_records (length state.symbols)) "too many stored resume symbols"
    padding ←
        ok_or (checked_mul 64 state.meta.symbol_size (length state.meta.blocks))
          "resume padding budget overflow"
    twice ← ok_or (checked_mul 64 max_object_bytes 2) "resume byte budget overflow"
    max_symbol_bytes ← ok_or (checked_add 64 twice padding) "resume byte budget overflow"
    check_symbols state.meta max_symbol_bytes 0 state.symbols

-- `received.get_mut(sbn)` and `insert`, for each stored symbol.
unfoldable pub collect : List (List ℕ) → List Cached → List (List ℕ)
collect received [] = received
collect received (c ∷ symbols) =
    let row = get_or received c.sbn [] in
    collect (if contains c.esi row then received else set received c.sbn (c.esi ∷ row)) symbols

module _ {D : Type 0} (order : List Cached → List Cached) where
  unfoldable pub save_state : ReceiverSession D → Option ResumeState
  save_state s = elim s.meta [
    | none ↦ none
    | some meta ↦ some (record {
      session_id = s.session_id;
      meta = meta;
      received = collect (replicate (length meta.blocks) []) (order s.symbol_cache);
      symbols = order s.symbol_cache;
    })
  ]

module _ {D : Type 0} (rq : BlockDecoding D) where
  -- An error of the decoder is dropped, and the session stays as it was.
  unfoldable pub feed_anyway :
      ReceiverSession D → Result Error (ReceiverSession D) → ReceiverSession D
  feed_anyway s (err e) = s
  feed_anyway s (ok t) = t

  -- One turn of the loop of `restore`.
  unfoldable pub restore_one : ReceiverSession D → Cached → ReceiverSession D
  restore_one s c =
      let noted = note_symbol s (blocks s) c.sbn c.esi in
      if ((leb (length s.received) c.sbn || leb max_esi c.esi)
          || not (length c.bytes % 2 ^ 32 == s.pending_symbol_size))
        || has_symbol s c.sbn c.esi
      then s
      else feed_anyway noted (feed_decoder rq noted (Symbol.new c.sbn c.esi c.bytes))

  unfoldable pub restore_all : ReceiverSession D → List Cached → ReceiverSession D
  restore_all s [] = s
  restore_all s (c ∷ symbols) = restore_all (restore_one s c) symbols

module _ {D : Type 0} (oti : Oti) (rq : BlockDecoding D) where
  unfoldable pub restore : ResumeState → Result Error (ReceiverSession D)
  restore state = do
    map_err invalid_resume (validate oti state)
    rx ← new_confirmed oti rq state.session_id state.meta
    ok (recount rq (restore_all rq rx state.symbols))
