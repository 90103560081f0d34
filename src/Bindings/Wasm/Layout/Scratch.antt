-- ===== src/Bindings/Wasm/Layout/Scratch.antt =====
-- The sender's own buffer after `next_qr_scratch` (core/transfer-engine/src/wasm.rs).
use air_ferry.Prelude.{
  ℕ, zero, suc, ◌+◌, ◌%◌, ◌^◌, ◌≤◌, ◌≡◌, refl, sym, ap, ap₂, subst, ◌∙◌, min, max, Bool, false, ltb,
  List, [], ◌∷◌, ◌++◌, length, take, drop, length-take, length-append, length-map, append-nil,
  append_assoc, none, some, Result, ok, err, String, if◌then◌else◌, arith,
}
use air_ferry.Protocol.Checksum.{Checksum}
use air_ferry.Bytes.{drop-append}
use air_ferry.Protocol.Session.{to_le}
use air_ferry.Protocol.QrRender.{Generator, QrMatrix}
use air_ferry.Codec.Raptorq.{BlockEncoding}
use air_ferry.Engine.Sender.{SenderSession}
use air_ferry.Bindings.Wasm.Slices.{
  put_bytes, length-put_bytes, take-put_bytes, take-put_bytes_front,
}
use air_ferry.Bindings.Wasm.Sender.{SenderSessionWasm, Clock, Words, max_ui_qr_count, as_bytes}
use air_ferry.Bindings.Wasm.Sender.Qr.{
  side_bytes, draw_qr, Filling, write_code, backfill, scratch_step, scratch_loop, next_qr_scratch,
}
use air_ferry.Bindings.Wasm.Layout.{bodies, layout, length-to_le, Draws, after_draw, draws}

length-code : (m : QrMatrix) → length (side_bytes m ++ as_bytes m.modules) ≡ 4 + length m.modules
length-code m = omega (
  arith,
  length-append (side_bytes m) (as_bytes m.modules),
  length-to_le 4 (m.size % 2 ^ 32),
  length-map {B = ℕ} m.modules (λ (dark : Bool). if dark then 1 else 0),
)

length-bodies :
    (m : QrMatrix) (ms : List QrMatrix)
    → length (bodies (m ∷ ms)) ≡ 4 + length m.modules + length (bodies ms)
unfolding bodies
length-bodies m ms =
    omega (arith, length-code m, length-append (side_bytes m ++ as_bytes m.modules) (bodies ms))

length-put_code :
    (buf : List ℕ) (pos : ℕ) (m : QrMatrix)
    → pos + (4 + length m.modules) ≤ length buf
    → length (put_bytes (put_bytes buf pos (side_bytes m)) (pos + 4) (as_bytes m.modules))
      ≡ length buf
length-put_code buf pos m h =
    let side = length-to_le 4 (m.size % 2 ^ 32) in
    let cells = length-map {B = ℕ} m.modules (λ (dark : Bool). if dark then 1 else 0) in
    let first = length-put_bytes buf pos (side_bytes m) (omega (arith, h, side)) in
    length-put_bytes (put_bytes buf pos (side_bytes m)) (pos + 4) (as_bytes m.modules)
      (omega (arith, h, cells, first))
    ∙ first

take-put_code :
    (buf : List ℕ) (pos : ℕ) (m : QrMatrix)
    → pos + (4 + length m.modules) ≤ length buf
    → take
        (pos + 4 + length m.modules)
        (put_bytes (put_bytes buf pos (side_bytes m)) (pos + 4) (as_bytes m.modules))
      ≡ take pos buf ++ (side_bytes m ++ as_bytes m.modules)
take-put_code buf pos m h =
    let side = length-to_le 4 (m.size % 2 ^ 32) in
    let cells = length-map {B = ℕ} m.modules (λ (dark : Bool). if dark then 1 else 0) in
    let first = length-put_bytes buf pos (side_bytes m) (omega (arith, h, side)) in
    let one : take (pos + 4) (put_bytes buf pos (side_bytes m)) ≡ take pos buf ++ side_bytes m =
      subst
        (λ (n : ℕ).
          take (pos + n) (put_bytes buf pos (side_bytes m)) ≡ take pos buf ++ side_bytes m)
        side (take-put_bytes buf pos (side_bytes m) (omega (arith, h, side))) in
    let two : take (pos + 4 + length m.modules)
          (put_bytes (put_bytes buf pos (side_bytes m)) (pos + 4) (as_bytes m.modules))
        ≡ take (pos + 4) (put_bytes buf pos (side_bytes m)) ++ as_bytes m.modules =
      subst
        (λ (n : ℕ).
          take (pos + 4 + n)
            (put_bytes (put_bytes buf pos (side_bytes m)) (pos + 4) (as_bytes m.modules))
          ≡ take (pos + 4) (put_bytes buf pos (side_bytes m)) ++ as_bytes m.modules)
        cells
        (take-put_bytes (put_bytes buf pos (side_bytes m)) (pos + 4) (as_bytes m.modules)
          (omega (arith, h, cells, first))) in
    two
    ∙ ap (λ (xs : List ℕ). xs ++ as_bytes m.modules) one
    ∙ append_assoc (take pos buf) (side_bytes m) (as_bytes m.modules)

module _ {E : Type 0} (crc : Checksum) (rq : BlockEncoding E) (qr : Generator) (words : Words) where
  -- A filled buffer: its length is the same, and behind what was there it has the codes.
  HasCodes : (buf buf' : List ℕ) (pos : ℕ) → List QrMatrix → Type 0
  HasCodes buf buf' pos ms =
      (length buf' ≡ length buf)
      × (take (pos + length (bodies ms)) buf' ≡ take pos buf ++ bodies ms)

  -- What a loop over some draws does to a buffer that has room for them.
  Fills : (buf : List ℕ) (produced pos : ℕ) → Draws E → Filling crc rq qr words → Type 0
  Fills buf produced pos (s, ms, none) (t, buf', r) =
      (t ≡ s) × (r ≡ ok (produced + length ms, pos + length (bodies ms))) × HasCodes buf buf' pos ms
  Fills buf produced pos (s, ms, some e) (t, buf', r) =
      (t ≡ s) × (r ≡ err e) × (length buf' ≡ length buf)

  next_code :
      (buf buf' : List ℕ) (pos : ℕ) (m : QrMatrix) (ms : List QrMatrix)
      → pos + (4 + length m.modules) ≤ length buf
      → HasCodes
          (put_bytes (put_bytes buf pos (side_bytes m)) (pos + 4) (as_bytes m.modules))
          buf'
          (pos + 4 + length m.modules)
          ms
      → HasCodes buf buf' pos (m ∷ ms)
  unfolding HasCodes bodies
  next_code buf buf' pos m ms room (same, codes) =
      let size = length-code m in
      let total : pos + length ((side_bytes m ++ as_bytes m.modules) ++ bodies ms)
          ≡ pos + 4 + length m.modules + length (bodies ms) =
        omega (arith, size, length-append (side_bytes m ++ as_bytes m.modules) (bodies ms)) in
      (
        same ∙ length-put_code buf pos m room,
        ap (λ (n : ℕ). take n buf') total
            ∙ codes
            ∙ ap (λ (xs : List ℕ). xs ++ bodies ms) (take-put_code buf pos m room)
            ∙ append_assoc (take pos buf) (side_bytes m ++ as_bytes m.modules) (bodies ms),
      )

  nothing_more :
      (buf : List ℕ) (produced pos : ℕ) (s : SenderSession E)
      → Fills buf produced pos (s, [], none) (s, buf, ok (produced, pos))
  unfolding Fills HasCodes bodies
  nothing_more buf produced pos s =
      let count : produced ≡ produced + 0 = omega arith in
      let end : pos ≡ pos + 0 = omega arith in
      (
        refl,
        ap₂ (λ (a b : ℕ). ok (a, b)) count end,
        (refl, ap (λ (n : ℕ). take n buf) (sym end) ∙ sym (append-nil (take pos buf))),
      )

  code-Fills :
      (buf : List ℕ) (produced pos : ℕ) (m : QrMatrix) (d : Draws E) (f : Filling crc rq qr words)
      → pos + (4 + length m.modules) ≤ length buf
      → Fills
          (put_bytes (put_bytes buf pos (side_bytes m)) (pos + 4) (as_bytes m.modules))
          (suc produced)
          (pos + 4 + length m.modules)
          d
          f
      → Fills buf produced pos (d.0, m ∷ d.1, d.2) f
  unfolding Fills
  code-Fills buf produced pos m (s, ms, some e) (t, buf', r) room (same, failed, size) =
      (same, failed, size ∙ length-put_code buf pos m room)
  code-Fills buf produced pos m (s, ms, none) (t, buf', r) room (same, done, codes) =
      let count : suc produced + length ms ≡ produced + suc (length ms) = omega arith in
      let end : pos + 4 + length m.modules + length (bodies ms) ≡ pos + length (bodies (m ∷ ms)) =
        omega (arith, length-bodies m ms) in
      (same, done ∙ ap₂ (λ (a b : ℕ). ok (a, b)) count end, next_code buf buf' pos m ms room codes)

  scratch_one :
      (given : SenderSession E → Draws E)
      (rest : SenderSession E → ℕ → List ℕ → ℕ → Filling crc rq qr words) (produced : ℕ)
      (buf : List ℕ) (pos : ℕ) (q : SenderSession E × Result String QrMatrix)
      → ((s : SenderSession E) (n : ℕ) (b : List ℕ) (p : ℕ)
          → p + length (bodies (given s).1) ≤ length b
          → Fills b n p (given s) (rest s n b p))
      → pos + length (bodies (after_draw given q).1) ≤ length buf
      → Fills buf produced pos
          (after_draw given q)
          (scratch_step crc rq qr words rest produced buf pos q)
  unfolding Fills after_draw scratch_step write_code
  scratch_one given rest produced buf pos (s, err e) ih room = (refl, refl, refl)
  scratch_one given rest produced buf pos (s, ok m) ih room =
      let size = length-bodies m (given s).1 in
      let fits : pos + (4 + length m.modules) ≤ length buf = omega (arith, room, size) in
      let same = length-put_code buf pos m fits in
      let clear : ltb (length buf) (pos + (4 + length m.modules)) ≡ false = ground (arith, fits) in
      rw clear (
        code-Fills buf produced pos m (given s) _ fits
          (ih s (suc produced) _ (pos + 4 + length m.modules) (omega (arith, room, size, same))))

  scratch-Fills :
      (n i : ℕ) (clock : ℕ → Clock) (s : SenderSession E) (produced : ℕ) (buf : List ℕ) (pos : ℕ)
      → pos + length (bodies (draws crc rq qr words n i clock s).1) ≤ length buf
      → Fills buf produced pos
          (draws crc rq qr words n i clock s)
          (scratch_loop crc rq qr words n i clock s produced buf pos)
  unfolding draws scratch_loop
  scratch-Fills zero i clock s produced buf pos room = nothing_more buf produced pos s
  scratch-Fills (suc n) i clock s produced buf pos room =
      scratch_one (draws crc rq qr words n (suc i) clock)
        (scratch_loop crc rq qr words n (suc i) clock) produced buf pos
        (draw_qr crc rq qr words s (clock i))
        (λ t k b p fits. scratch-Fills n (suc i) clock t k b p fits) room

  -- The number of codes is put in front of them.
  counted :
      (buf buf' : List ℕ) (ms : List QrMatrix)
      → 4 + length (bodies ms) ≤ length buf
      → HasCodes buf buf' 4 ms
      → take (4 + length (bodies ms)) (put_bytes buf' 0 (to_le 4 (length ms))) ≡ layout ms
  unfolding HasCodes layout
  counted buf buf' ms room (size, codes) =
      let slot = length-to_le 4 (length ms) in
      let head : length (take 4 buf) ≡ 4 = omega (arith, length-take 4 buf, room) in
      take-put_bytes_front buf' (to_le 4 (length ms)) (4 + length (bodies ms)) (omega (arith, slot))
      ∙ ap (λ (xs : List ℕ). to_le 4 (length ms) ++ xs)
          (ap₂ drop slot codes ∙ drop-append 4 (take 4 buf) (bodies ms) head)

  counted_length :
      (buf buf' : List ℕ) (ms : List QrMatrix)
      → 4 + length (bodies ms) ≤ length buf
      → HasCodes buf buf' 4 ms
      → length (put_bytes buf' 0 (to_le 4 (length ms))) ≡ length buf
  unfolding HasCodes
  counted_length buf buf' ms room (size, codes) =
      length-put_bytes buf' 0 (to_le 4 (length ms))
        (omega (arith, length-to_le 4 (length ms), room, size))
      ∙ size

  -- What `next_qr_scratch` leaves, after some draws, in a buffer of the given length.
  pub LeavesCodes : (room : ℕ) → Draws E → SenderSessionWasm E × Result String ℕ → Type 0
  LeavesCodes room (s, ms, none) (w, r) =
      (w.inner ≡ s)
      × (r ≡ ok ((4 + length (bodies ms)) % 2 ^ 32))
      × (length w.qr_scratch ≡ room)
      × (take (4 + length (bodies ms)) w.qr_scratch ≡ layout ms)
  LeavesCodes room (s, ms, some e) (w, r) =
      (w.inner ≡ s) × (r ≡ err e) × (length w.qr_scratch ≡ room)

  backfill-LeavesCodes :
      (buf : List ℕ) (d : Draws E) (f : Filling crc rq qr words)
      → 4 + length (bodies d.1) ≤ length buf
      → Fills buf 0 4 d f
      → LeavesCodes
          (length buf)
          d
          (let (s, b, r) = backfill crc rq qr words f in (record { inner = s; qr_scratch = b }, r))
  unfolding Fills backfill LeavesCodes
  backfill-LeavesCodes buf (s, ms, some e) (t, buf', r) room (same, failed, size) =
      rw failed (same, refl, size)
  backfill-LeavesCodes buf (s, ms, none) (t, buf', r) room (same, done, codes) =
      let count : 0 + length ms ≡ length ms = omega arith in
      rw (done ∙ ap (λ (n : ℕ). ok (n, 4 + length (bodies ms))) count)
        (same, refl, counted_length buf buf' ms room codes, counted buf buf' ms room codes)

  -- With room for the codes that are drawn, `next_qr_scratch` ends in the session after the draws. When no draw
  -- fails, its own buffer begins with the number of codes and then the side and the modules of each of them in
  -- order, and the result is the length of that; at the first failing draw the result is its error. The
  -- buffer's length never changes.
  pub next_qr_scratch-LeavesCodes :
      (w : SenderSessionWasm E) (clock : ℕ → Clock) (count : ℕ)
      → 4
          + length
              (bodies (draws crc rq qr words (min (max count 1) max_ui_qr_count) 0 clock w.inner).1)
        ≤ length w.qr_scratch
      → LeavesCodes
          (length w.qr_scratch)
          (draws crc rq qr words (min (max count 1) max_ui_qr_count) 0 clock w.inner)
          (next_qr_scratch crc rq qr words w clock count)
  unfolding next_qr_scratch
  next_qr_scratch-LeavesCodes w clock count room =
      backfill-LeavesCodes w.qr_scratch _ _ room
        (scratch-Fills _ 0 clock w.inner 0 w.qr_scratch 4 room)
