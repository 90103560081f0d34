-- ===== src/Protocol/Frame/Laws.antt =====
-- `to_bytes` and `from_bytes` of a frame (core/qr-protocol/src/frame.rs).
use air_ferry.Prelude.{
  ℕ, zero, suc, ◌+◌, ◌-◌, ◌^◌, ◌≤◌, ◌<◌, ◌≡◌, refl, sym, ap, subst, ap₂, ◌∙◌, List, [], ◌∷◌, ◌++◌,
  false, length, take, drop, get_or, ltb, length-append, length-take, length-drop, take-append-drop,
  append_assoc, append-nil, ok, reject_if-eq-ok, ok-injective, eq_of_not, >>=-eq-ok, arith,
}
use air_ferry.Bytes.{
  IsByte, All, to_be, be_at, length-to_be, from_be-to_be, take-append, drop-append, take-drop_next,
  take_add, take_all, All-take, All-drop, to_be-be_at, be_at-lt,
}
use air_ferry.Protocol.Checksum.{Checksum}
use air_ferry.Protocol.Frame.{
  FrameHeader, Frame, write_bytes, read_bytes, from_bytes, to_bytes, magic, protocol_version,
}

-- Each header field fits its Rust type.
pub record IsWord (h : FrameHeader) : Type 0 where
  pub session_id : h.session_id < 2 ^ 128
  pub flags : h.flags < 2 ^ 8
  pub sbn : h.sbn < 2 ^ 32
  pub esi : h.esi < 2 ^ 32
  pub total_blocks : h.total_blocks < 2 ^ 32
  pub total_symbols : h.total_symbols < 2 ^ 32
  pub symbol_size : h.symbol_size < 2 ^ 32
  pub frame_index : h.frame_index < 2 ^ 64
  pub timestamp_ms : h.timestamp_ms < 2 ^ 64
  pub payload_crc32 : h.payload_crc32 < 2 ^ 32

-- A frame whose sizes and checksums agree.
pub record IsSealed (crc : Checksum) (f : Frame) : Type 0 where
  pub words : IsWord f.header
  pub sized : length f.payload ≡ f.header.symbol_size
  pub payload_crc : f.header.payload_crc32 ≡ crc.digest f.payload
  pub frame_crc : f.frame_crc32 ≡ crc.digest (write_bytes f.header ++ f.payload)

length-write_bytes : (h : FrameHeader) → length (write_bytes h) ≡ 60
unfolding write_bytes
length-write_bytes h = refl

read_bytes-write_bytes :
    (h : FrameHeader) (rest : List ℕ) → IsWord h → read_bytes (write_bytes h ++ rest) ≡ ok h
unfolding read_bytes write_bytes
read_bytes-write_bytes h rest w = λ i. ok (record {
  session_id = from_be-to_be 16 h.session_id w.session_id i;
  flags = h.flags;
  sbn = from_be-to_be 4 h.sbn w.sbn i;
  esi = from_be-to_be 4 h.esi w.esi i;
  total_blocks = from_be-to_be 4 h.total_blocks w.total_blocks i;
  total_symbols = from_be-to_be 4 h.total_symbols w.total_symbols i;
  symbol_size = from_be-to_be 4 h.symbol_size w.symbol_size i;
  frame_index = from_be-to_be 8 h.frame_index w.frame_index i;
  timestamp_ms = from_be-to_be 8 h.timestamp_ms w.timestamp_ms i;
  payload_crc32 = from_be-to_be 4 h.payload_crc32 w.payload_crc32 i;
})

drop_byte : (xs : List ℕ) (o : ℕ) → o < length xs → get_or xs o 0 ∷ drop (suc o) xs ≡ drop o xs
drop_byte [] o h = absurd (omega arith)
drop_byte (x ∷ xs) zero h = refl
drop_byte (x ∷ xs) (suc o) h = drop_byte xs o (omega arith)

get_or-lt : (xs : List ℕ) (o : ℕ) → All IsByte xs → get_or xs o 0 < 256
get_or-lt [] o h = omega arith
get_or-lt (x ∷ xs) zero h = h.0
get_or-lt (x ∷ xs) (suc o) h = get_or-lt xs o h.1

-- Writing the words that were read from `hd`, from the last one to the first.
module _ (hd : List ℕ) (bytes : All IsByte hd) (long : length hd ≡ 60) where
  next :
      (n o : ℕ) (t : List ℕ)
      → n + o ≤ 60
      → t ≡ drop (n + o) hd
      → to_be n (be_at hd o n) ++ t ≡ drop o hd
  next n o t fits e = ap₂ ◌++◌ (to_be-be_at hd o n bytes (omega arith)) e ∙ take-drop_next n o hd

  abbrev fields : FrameHeader
  fields = record {
    flags = get_or hd 3 0;
    session_id = be_at hd 4 16;
    sbn = be_at hd 20 4;
    esi = be_at hd 24 4;
    total_blocks = be_at hd 28 4;
    total_symbols = be_at hd 32 4;
    symbol_size = be_at hd 36 4;
    frame_index = be_at hd 40 8;
    timestamp_ms = be_at hd 48 8;
    payload_crc32 = be_at hd 56 4;
  }

  fields-IsWord : IsWord fields
  fields-IsWord = record {
    session_id = be_at-lt hd 4 16 bytes;
    flags = get_or-lt hd 3 bytes;
    sbn = be_at-lt hd 20 4 bytes;
    esi = be_at-lt hd 24 4 bytes;
    total_blocks = be_at-lt hd 28 4 bytes;
    total_symbols = be_at-lt hd 32 4 bytes;
    symbol_size = be_at-lt hd 36 4 bytes;
    frame_index = be_at-lt hd 40 8 bytes;
    timestamp_ms = be_at-lt hd 48 8 bytes;
    payload_crc32 = be_at-lt hd 56 4 bytes;
  }

  drop_all : [] ≡ drop 60 hd
  drop_all = sym (sym (ap (drop 60) (append-nil hd)) ∙ drop-append 60 hd [] long)

  write_bytes-fields :
      be_at hd 0 2 ≡ magic → get_or hd 2 0 ≡ protocol_version → write_bytes fields ≡ hd
  unfolding write_bytes
  write_bytes-fields m v =
      let w56 = next 4 56 [] (omega arith) drop_all in
      let w28 = next 4 28 _ (omega arith) (
        next 4 32 _ (omega arith) (
          next 4 36 _ (omega arith) (next 8 40 _ (omega arith) (next 8 48 _ (omega arith) w56)))) in
      let w4 =
        next 16 4 _ (omega arith) (next 4 20 _ (omega arith) (next 4 24 _ (omega arith) w28)) in
      let w2 = ap₂ ◌∷◌ (sym v) (ap (◌∷◌ fields.flags) w4 ∙ drop_byte hd 3 (omega arith)) in
      ap₂ (λ (x : ℕ) (t : List ℕ). to_be 2 x ++ t) (sym m) (w2 ∙ drop_byte hd 2 (omega arith))
      ∙ next 2 0 _ (omega arith) refl

read_bytes_inv :
    (bs : List ℕ) (h : FrameHeader) (bytes : All IsByte (take 60 bs))
    (long : length (take 60 bs) ≡ 60)
    → read_bytes bs ≡ ok h
    → (be_at (take 60 bs) 0 2 ≡ magic)
      × (get_or (take 60 bs) 2 0 ≡ protocol_version)
      × (fields (take 60 bs) bytes long ≡ h)
unfolding read_bytes
read_bytes_inv bs h bytes long e =
    let (m, e') = reject_if-eq-ok _ _ _ e in
    let (v, e'') = reject_if-eq-ok _ _ _ e' in (eq_of_not _ _ m, eq_of_not _ _ v, ok-injective e'')

-- A header that was read is in range, and is written back as the first 60 bytes.
write_bytes-read_bytes :
    (bs : List ℕ) (h : FrameHeader)
    → All IsByte bs
    → 60 ≤ length bs
    → read_bytes bs ≡ ok h
    → IsWord h × (write_bytes h ≡ take 60 bs)
write_bytes-read_bytes bs h bytes long e =
    let hd = take 60 bs in
    let hd_bytes = All-take IsByte 60 bs bytes in
    let hd_long : length hd ≡ 60 = omega (arith, length-take 60 bs) in
    let (m, v, same) = read_bytes_inv bs h hd_bytes hd_long e in
    subst (λ k. IsWord k × (write_bytes k ≡ hd)) same
      (fields-IsWord hd hd_bytes hd_long, write_bytes-fields hd hd_bytes hd_long m v)

sized : (n size : ℕ) → ltb n 64 ≡ false → size ≡ n - 64 → size + 64 ≡ n
sized n size h e = ground arith

module _ (crc : Checksum) where
  accept :
      (bytes : List ℕ) (f : Frame)
      → length bytes ≡ f.header.symbol_size + 64
      → read_bytes bytes ≡ ok f.header
      → take f.header.symbol_size (drop 60 bytes) ≡ f.payload
      → take (60 + f.header.symbol_size) bytes ≡ write_bytes f.header ++ f.payload
      → be_at (drop (60 + f.header.symbol_size) bytes) 0 4 ≡ f.frame_crc32
      → IsSealed crc f
      → from_bytes crc bytes ≡ ok f
  unfolding from_bytes
  accept bytes f size header payload body footer s = ground arith

  -- A sealed frame, one whose fields fit their words and whose sizes and checksums agree, is parsed back from
  -- the bytes that it is written to.
  pub from_bytes-to_bytes : (f : Frame) → IsSealed crc f → from_bytes crc (to_bytes f) ≡ ok f
  unfolding from_bytes to_bytes
  from_bytes-to_bytes f s =
      let hd = write_bytes f.header in
      let tail = to_be 4 f.frame_crc32 in
      let sized : length (hd ++ f.payload) ≡ 60 + f.header.symbol_size =
        omega (arith, length-append hd f.payload, length-write_bytes f.header, s.sized) in
      let apart : to_bytes f ≡ (hd ++ f.payload) ++ tail = sym (append_assoc hd f.payload tail) in
      accept (to_bytes f) f
        (rw apart (
          omega (arith, length-append (hd ++ f.payload) tail, sized, length-to_be 4 f.frame_crc32)))
        (read_bytes-write_bytes f.header (f.payload ++ tail) s.words)
        (ap (take f.header.symbol_size)
            (drop-append 60 hd (f.payload ++ tail) (length-write_bytes f.header))
          ∙ take-append f.header.symbol_size f.payload tail s.sized)
        (ap (take (60 + f.header.symbol_size)) apart ∙ take-append _ (hd ++ f.payload) tail sized)
        (ap (λ (t : List ℕ). be_at t 0 4)
            (ap (drop (60 + f.header.symbol_size)) apart
              ∙ drop-append _ (hd ++ f.payload) tail sized)
          ∙ from_be-to_be 4 f.frame_crc32
              (omega (arith, s.frame_crc, crc.digest-lt (hd ++ f.payload))))
        s

  -- The checks that an accepted input passed.
  abbrev Passed : List ℕ → Frame → Type 0
  Passed bs f =
      let size = f.header.symbol_size in
      (read_bytes bs ≡ ok f.header)
      × (size + 64 ≡ length bs)
      × (f.payload ≡ take size (drop 60 bs))
      × (crc.digest f.payload ≡ f.header.payload_crc32)
      × (f.frame_crc32 ≡ be_at (drop (60 + size) bs) 0 4)
      × (crc.digest (take (60 + size) bs) ≡ f.frame_crc32)

  from_bytes-Passed : (bs : List ℕ) (f : Frame) → from_bytes crc bs ≡ ok f → Passed bs f
  unfolding from_bytes
  from_bytes-Passed bs f e =
      let (long, e₁) = reject_if-eq-ok _ _ _ e in
      let (header, rd, e₂) = >>=-eq-ok (read_bytes bs) _ e₁ in
      let (size, e₃) = reject_if-eq-ok _ _ _ e₂ in
      let (payload, e₄) = reject_if-eq-ok _ _ _ e₃ in
      let (whole, e₅) = reject_if-eq-ok _ _ _ e₄ in
      subst (Passed bs) (ok-injective e₅) (
        rd,
        sized (length bs) header.symbol_size long (eq_of_not _ _ size),
        refl,
        eq_of_not _ _ payload,
        refl,
        eq_of_not _ _ whole,
      )

  -- Bytes that the parser accepts are the ones that the frame it returns is written to, and that frame is
  -- sealed.
  pub to_bytes-from_bytes :
      (bs : List ℕ) (f : Frame)
      → All IsByte bs
      → from_bytes crc bs ≡ ok f
      → IsSealed crc f × (to_bytes f ≡ bs)
  unfolding from_bytes to_bytes
  to_bytes-from_bytes bs f bytes e =
      let size = f.header.symbol_size in
      let (rd, len, payload, payload_crc, footer, body_crc) = from_bytes-Passed bs f e in
      let (words, hd) = write_bytes-read_bytes bs f.header bytes (omega arith) rd in
      let body : write_bytes f.header ++ f.payload ≡ take (60 + size) bs =
        ap₂ ◌++◌ hd payload ∙ take_add 60 size bs in
      let footer_size : length (drop (60 + size) bs) ≡ 4 =
        omega (arith, length-drop (60 + size) bs) in
      let tail : to_be 4 f.frame_crc32 ≡ drop (60 + size) bs =
        ap (to_be 4) footer
        ∙ to_be-be_at (drop (60 + size) bs) 0 4 (All-drop IsByte (60 + size) bs bytes)
            (omega (arith, footer_size))
        ∙ take_all 4 (drop (60 + size) bs) footer_size in
      (
        record {
          words = words;
          sized =
              omega (arith, ap length payload, length-take size (drop 60 bs), length-drop 60 bs);
          payload_crc = sym payload_crc;
          frame_crc = sym (ap crc.digest body ∙ body_crc);
        },
        sym (append_assoc (write_bytes f.header) f.payload (to_be 4 f.frame_crc32))
            ∙ ap₂ ◌++◌ body tail
            ∙ take-append-drop (60 + size) bs,
      )
