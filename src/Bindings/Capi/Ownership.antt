-- ===== src/Bindings/Capi/Ownership.antt =====
-- The buffers that the C ABI hands to its host, and the strings that it writes into the host's buffers.
use air_ferry.Prelude.{
  ℕ, suc, ◌+◌, ◌≤◌, ◌≡◌, ◌≢◌, refl, sym, ap, inl, inr, true, false, ltb, ◌==◌, List, [], ◌∷◌, ◌++◌,
  length, drop, length-append, length-drop, Option, none, some, Bool-cases, String, if◌then◌else◌,
  arith,
}
use air_ferry.Bytes.{All}
use air_ferry.Protocol.Errors as ProtocolErrors
use air_ferry.Protocol.Compress.{Decoders}
use air_ferry.Engine.Receiver.{ReceiverSession}
use air_ferry.Engine.Receiver.Finish.{assemble_result}
use air_ferry.Bindings.Memory.{
  Host, null, load, store, allocate, load-allocate, load-store-allocate, allocate-ne-null,
  load-store-none, load-ne-null,
}
use air_ferry.Bindings.Capi.{
  OutParams, cleared, missing, publish, hand_over, airferry_buffer_free, write_cstr,
}
use air_ferry.Bindings.Capi.Calls.{to_hand, airferry_receiver_assemble}

-- A C string is read up to its zero byte.
pub read_cstr : List ℕ → List ℕ
read_cstr [] = []
read_cstr (b ∷ bs) = if b == 0 then [] else b ∷ read_cstr bs

read_cstr-append : (s rest : List ℕ) → All (λ b. b ≢ 0) s → read_cstr (s ++ (0 ∷ rest)) ≡ s
unfolding read_cstr
read_cstr-append [] rest h = refl
read_cstr-append (b ∷ s) rest (pos, h) =
    let some_byte : (b == 0) ≡ false = ground (arith, pos) in
    rw some_byte (ap (λ (bs : List ℕ). b ∷ bs) (read_cstr-append s rest h))

-- A call that asks for the needed size with any buffer is told it. A buffer of that size, or a larger one,
-- then holds the string: the host reads it back, provided that it has no zero byte, and what lies behind the
-- string stays as it was. A smaller buffer is left alone.
pub read_cstr-write_cstr :
    (s old : List ℕ) (asked : Option (List ℕ)) (cap cap' : ℕ)
    → All (λ b. b ≢ 0) s
    → cap ≤ length old
    → (write_cstr s asked cap').1 ≤ cap
    → (filled : List ℕ) × (write_cstr s (some old) cap ≡ (some filled, (write_cstr s asked cap').1))
      × (read_cstr filled ≡ s)
      × (length filled ≡ length old)
      × (drop (length s + 1) filled ≡ drop (length s + 1) old)
unfolding write_cstr
read_cstr-write_cstr s old asked cap cap' plain room enough =
    let size = needed asked in
    let fits : ltb cap (length s + 1) ≡ false = ground (arith, size, enough) in
    (
      s ++ (0 ∷ drop (length s + 1) old),
      rw fits (ap (λ (n : ℕ). (some (s ++ (0 ∷ drop (length s + 1) old)), n)) (sym size)),
      read_cstr-append s (drop (length s + 1) old) plain,
      omega (
        arith,
        length-append s (0 ∷ drop (length s + 1) old),
        length-drop (length s + 1) old,
        room,
        enough,
        size,
      ),
      behind s (drop (length s + 1) old),
    )
  where
    needed : (asked : Option (List ℕ)) → (write_cstr s asked cap').1 ≡ length s + 1
    needed none = refl
    needed (some b) = elim (Bool-cases (ltb cap' (length s + 1))) [
      | inl small ↦ rw small
      | inr large ↦ rw large
    ]

    behind : (s rest : List ℕ) → drop (length s + 1) (s ++ (0 ∷ rest)) ≡ rest
    behind [] rest = refl
    behind (b ∷ s) rest =
        let e : suc (length s) + 1 ≡ suc (length s + 1) = omega arith in rw e (behind s rest)

module _ {D : Type 0} where
  -- What a call that hands over some bytes leaves: a buffer with these bytes, whose address and length the host
  -- gets, and which it can free once, with nothing left behind; or two cleared variables and no buffer.
  pub HandsOver : List (Option (List ℕ)) → Option (List ℕ) → Host D × OutParams × ℕ → Type 0
  HandsOver before none (after, out, status) =
      (status ≡ 0) × (out ≡ cleared) × (after.buffers ≡ before)
  HandsOver before (some bytes) (after, out, status) =
      (status ≡ 1)
      × (p : ℕ) × (p ≢ null)
      × (out ≡ record { out_buf = some p; out_len = some (length bytes) })
      × (load after.buffers p ≡ some bytes)
      × (freed : Host D) × (airferry_buffer_free after p (length bytes) ≡ some freed)
      × ((q : ℕ) → load freed.buffers q ≡ load before q)
      × (airferry_buffer_free freed p (length bytes) ≡ none)

  freed_at :
      (h : Host D) (p : ℕ) (bytes : List ℕ)
      → (p == null) ≡ false
      → load h.buffers p ≡ some bytes
      → airferry_buffer_free h p (length bytes)
        ≡ some (record h { buffers = store h.buffers p none })
  unfolding airferry_buffer_free
  freed_at h p bytes real held =
      let same : (length bytes == length bytes) ≡ true = ground arith in
      rw real (rw (held, airferry_buffer_free) (rw same))

  freed_twice :
      (h : Host D) (p n : ℕ)
      → (p == null) ≡ false
      → load h.buffers p ≡ none
      → airferry_buffer_free h p n ≡ none
  unfolding airferry_buffer_free
  freed_twice h p n real gone = rw real (rw (gone, airferry_buffer_free) refl)

  hand_over-HandsOver :
      (h : Host D) (bytes : Option (List ℕ)) → HandsOver h.buffers bytes (hand_over h bytes)
  unfolding HandsOver hand_over publish
  hand_over-HandsOver h none = (refl, refl, refl)
  hand_over-HandsOver h (some bytes) =
      let p = (allocate h.buffers bytes).1 in
      let after : Host D = record h { buffers = (allocate h.buffers bytes).0 } in
      let held = load-allocate h.buffers bytes in
      let real = allocate-ne-null h.buffers bytes in
      (
        refl,
        p,
        (λ e. ground (arith, real, e)),
        refl,
        held,
        record after { buffers = store after.buffers p none },
        freed_at after p bytes real held,
        (λ q. load-store-allocate h.buffers bytes q),
        freed_twice (record after { buffers = store after.buffers p none }) p (length bytes) real
            (load-store-none after.buffers p),
      )

  module _ (decoders : Decoders) (to_string : ProtocolErrors.Error → String) where
    assembled :
        (h : Host D) (handle : ℕ) (s : ReceiverSession D) (out : OutParams)
        → load h.sessions handle ≡ some s
        → missing out ≡ false
        → airferry_receiver_assemble decoders to_string h handle out
          ≡ some (
              hand_over
                (record h {
                  sessions =
                      store h.sessions handle (some (assemble_result decoders to_string s).0);
                })
                (to_hand (assemble_result decoders to_string s).1))
    unfolding airferry_receiver_assemble
    assembled h handle s out live given =
        rw (given, load-ne-null h.sessions handle live) (rw (live, airferry_receiver_assemble) refl)

    -- On a live handle and with both variables given, `airferry_receiver_assemble` returns: it hands over the
    -- bytes that the session assembles, in a buffer that the host can free once and that then leaves nothing
    -- behind; where the session assembles none, the variables are cleared and there is no buffer.
    pub assemble-HandsOver :
        (h : Host D) (handle : ℕ) (s : ReceiverSession D) (out : OutParams)
        → load h.sessions handle ≡ some s
        → missing out ≡ false
        → (end : Host D × OutParams × ℕ) × (airferry_receiver_assemble decoders to_string h handle
              out
            ≡ some end)
          × HandsOver h.buffers (to_hand (assemble_result decoders to_string s).1) end
    assemble-HandsOver h handle s out live given =
        let bytes = to_hand (assemble_result decoders to_string s).1 in
        let after : Host D = record h {
          sessions = store h.sessions handle (some (assemble_result decoders to_string s).0);
        } in
        (
          hand_over after bytes,
          assembled h handle s out live given,
          hand_over-HandsOver after bytes,
        )
