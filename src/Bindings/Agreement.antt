-- ===== src/Bindings/Agreement.antt =====
-- The receive calls of the three bindings of the receiver: cffi.rs, jni.rs and wasm.rs.
use air_ferry.Prelude.{
  ℕ, zero, suc, ◌-◌, ◌/◌, ◌%◌, ◌^◌, ◌<◌, ◌≡◌, ◌≢◌, refl, sym, ap, subst, ◌∙◌, Bool, true, false,
  ltb, ◌==◌, List, [], ◌∷◌, Option, some, Result, ok, err, if◌then◌else◌, arith,
}
use air_ferry.Protocol.Checksum.{Checksum}
use air_ferry.Protocol.Errors as ProtocolErrors
use air_ferry.Protocol.Frame.{Frame, from_bytes}
use air_ferry.Codec.Raptorq.{Oti, BlockDecoding}
use air_ferry.Engine.IngestStatus.{ingest_error, pack-fields, pack-ingest_error}
use air_ferry.Engine.Receiver.{ReceiverSession, Cached, progress_snapshot}
use air_ferry.Engine.Receiver
use air_ferry.Engine.Receiver.Ingest.{ingest}
use air_ferry.Bindings.Memory.{Host, load, store, load-ne-null}
use air_ferry.Bindings.Capi.Calls.{airferry_receiver_ingest, ingest_parsed}
use air_ferry.Bindings.Jni.Calls.{receiver_ingest, ingest_frame}
use air_ferry.Bindings.Wasm.Receiver as Wasm
use air_ferry.Bindings.Wasm.Receiver.{ReceiverSessionWasm, ingest_read}

module _ {ℓ} {A : Type ℓ} where
  store-load :
      (slots : List (Option A)) (p : ℕ) {a : A}
      → load slots p ≡ some a
      → store slots p (some a) ≡ slots
  unfolding load store
  store-load slots zero h = cc
  store-load [] (suc n) h = cc
  store-load (x ∷ slots) (suc zero) h = ap (λ (y : Option A). y ∷ slots) (sym h)
  store-load (x ∷ slots) (suc (suc n)) h =
      ap (λ (ys : List (Option A)). x ∷ ys) (store-load slots (suc n) h)

as_flag : (b : Bool) → ((if b then 1 else 0) == 1) ≡ b
as_flag true = refl
as_flag false = refl

module _ {D : Type 0} (crc : Checksum) (oti : Oti) (rq : BlockDecoding D)
    (order : List Cached → List Cached) where
  frame-parsed :
      (s : ReceiverSession D) (r : Result ProtocolErrors.Error Frame)
      → ingest_frame crc oti rq order s r ≡ ingest_parsed crc oti rq order s r
  unfolding ingest_frame ingest_parsed
  frame-parsed s (err e) = refl
  frame-parsed s (ok frame) =
      let after = (ingest oti rq order s frame).0 in
      rw
        (
          as_flag (Receiver.is_complete after),
          as_flag (
              ltb (progress_snapshot s).received_symbols
                (progress_snapshot after).received_symbols),
        )
        refl

  read-parsed :
      (s : ReceiverSession D) (r : Result ProtocolErrors.Error Frame)
      → ingest_parsed crc oti rq order s r ≡ (
        (ingest_read crc oti rq order (record { inner = s }) r).0.inner,
        (ingest_read crc oti rq order (record { inner = s }) r).1,
      )
  unfolding ingest_read ingest_parsed
  read-parsed s (err e) = refl
  read-parsed s (ok frame) = refl

  empty : from_bytes crc [] ≡ err (ProtocolErrors.buffer_too_short 64 0)
  unfolding from_bytes
  empty = refl

  -- What the C ABI and the Android binding do on a live handle.
  abbrev Answers : Host D → ℕ → ReceiverSession D × ℕ → Option (Host D × ℕ) → Type 0
  Answers h handle (after, word) result =
      result ≡ some (record h { sessions = store h.sessions handle (some after) }, word)

  capi-Answers :
      (h : Host D) (handle : ℕ) (s : ReceiverSession D) (bytes : List ℕ)
      → load h.sessions handle ≡ some s
      → Answers h handle
          (ingest_parsed crc oti rq order s (from_bytes crc bytes))
          (airferry_receiver_ingest crc oti rq order h handle (some bytes))
  unfolding airferry_receiver_ingest ingest_parsed from_bytes
  capi-Answers h handle s [] live = rw (load-ne-null h.sessions handle live) (
      ap
        (λ (slots : List (Option (ReceiverSession D))).
          some (record h { sessions = slots }, ingest_error))
        (sym (store-load h.sessions handle live)))
  capi-Answers h handle s (b ∷ bs) live =
      rw (load-ne-null h.sessions handle live) (rw (live, airferry_receiver_ingest) refl)

  jni-Answers :
      (h : Host D) (handle : ℕ) (s : ReceiverSession D) (bytes : List ℕ)
      → load h.sessions handle ≡ some s
      → Answers h handle
          (ingest_frame crc oti rq order s (from_bytes crc bytes))
          (receiver_ingest crc oti rq order h handle (some bytes))
  unfolding receiver_ingest
  jni-Answers h handle s bytes live =
      rw (load-ne-null h.sessions handle live) (rw (live, receiver_ingest) refl)

  -- On a live handle, the C ABI and the Android binding answer any bytes alike and leave the same receivers,
  -- and both do as the browser's receiver does with the session behind the handle.
  pub ingest_agree :
      (h : Host D) (handle : ℕ) (s : ReceiverSession D) (bytes : List ℕ)
      → load h.sessions handle ≡ some s
      → (airferry_receiver_ingest crc oti rq order h handle (some bytes)
          ≡ receiver_ingest crc oti rq order h handle (some bytes))
        × (receiver_ingest crc oti rq order h handle (some bytes)
            ≡ some (
              record h {
                sessions =
                    store h.sessions handle
                      (some (Wasm.ingest crc oti rq order (record { inner = s }) bytes).0.inner);
              },
              (Wasm.ingest crc oti rq order (record { inner = s }) bytes).1,
            ))
  unfolding Wasm.ingest
  ingest_agree h handle s bytes live =
      let r = from_bytes crc bytes in
      let capi = capi-Answers h handle s bytes live in
      let jni =
        subst
          (λ (o : ReceiverSession D × ℕ).
            Answers h handle o (receiver_ingest crc oti rq order h handle (some bytes)))
          (frame-parsed s r) (jni-Answers h handle s bytes live) in
      let wasm =
        subst
          (λ (o : ReceiverSession D × ℕ).
            Answers h handle o (receiver_ingest crc oti rq order h handle (some bytes)))
          (read-parsed s r) jni in
      (capi ∙ sym jni, wasm)

  -- A summary word: the error word where the bytes are no frame, which then change nothing; and otherwise a
  -- word that is not the error word, and from which the host reads whether the object is complete, whether
  -- the frame brought a symbol, the low 16 bits of the count of foreign frames, and the number of symbols.
  pub Says :
      ReceiverSession D → Result ProtocolErrors.Error Frame → ReceiverSessionWasm D × ℕ → Type 0
  Says s (err e) (after, word) = (after.inner ≡ s) × (word ≡ ingest_error)
  Says s (ok frame) (after, word) =
      (after.inner ≡ (ingest oti rq order s frame).0)
      × (word ≢ ingest_error)
      × ((word % 2 == 1) ≡ Receiver.is_complete after.inner)
      × ((word / 2 % 2 == 1)
          ≡ ltb s.progress.received_symbols after.inner.progress.received_symbols)
      × (word / 2 ^ 8 % 2 ^ 16 ≡ after.inner.progress.session_mismatch_streak % 2 ^ 16)
      × (word / 2 ^ 32 ≡ after.inner.progress.received_symbols)

  said :
      (s : ReceiverSession D) (r : Result ProtocolErrors.Error Frame)
      → (ingest_read crc oti rq order (record { inner = s }) r).0.inner.progress.received_symbols
        < 2 ^ 32 - 1
      → Says s r (ingest_read crc oti rq order (record { inner = s }) r)
  unfolding Says ingest_read progress_snapshot
  said s (err e) small = (refl, refl)
  said s (ok frame) small =
      let after = (ingest oti rq order s frame).0 in
      let accepted = ltb s.progress.received_symbols after.progress.received_symbols in
      let streak = after.progress.session_mismatch_streak in
      let (complete, contributed, low, count, w) =
        pack-fields (Receiver.is_complete after) accepted streak after.progress.received_symbols
          (omega (arith, small)) in
      (
        refl,
        pack-ingest_error (Receiver.is_complete after) accepted streak
            after.progress.received_symbols small,
        complete,
        contributed,
        low,
        count,
      )

  -- As long as fewer than 2^32 - 1 symbols have come, the browser's receiver answers bytes that are no frame
  -- with the error word and keeps its session, and any other bytes with a word that is not the error word
  -- and gives back whether the object is complete, whether the frame brought a symbol, the low 16 bits of
  -- the session's streak of foreign frames, and its number of symbols.
  pub ingest-Says :
      (s : ReceiverSession D) (bytes : List ℕ)
      → (Wasm.ingest crc oti rq order
          (record { inner = s })
          bytes).0.inner.progress.received_symbols
        < 2 ^ 32 - 1
      → Says s (from_bytes crc bytes) (Wasm.ingest crc oti rq order (record { inner = s }) bytes)
  unfolding Wasm.ingest
  ingest-Says s bytes small = said s (from_bytes crc bytes) small
