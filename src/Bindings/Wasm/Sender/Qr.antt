-- ===== src/Bindings/Wasm/Sender/Qr.antt =====
-- The calls of the browser's sender that draw QR codes (core/transfer-engine/src/wasm.rs). The modules of a code and
-- the codes of a call are written one behind the other into one buffer.
use air_ferry.Prelude.{
  ℕ, zero, suc, ◌+◌, ◌%◌, ◌^◌, min, max, ltb, List, ◌++◌, length, set, Result, ok, err, map_err,
  String, if◌then◌else◌,
}
use air_ferry.Protocol.Checksum.{Checksum}
use air_ferry.Protocol.Compress.{is_nil}
use air_ferry.Protocol.Session.{to_le}
use air_ferry.Protocol.QrRender.{Generator, QrMatrix, encode}
use air_ferry.Codec.Raptorq.{BlockEncoding}
use air_ferry.Engine.Sender.{SenderSession}
use air_ferry.Bindings.Wasm.Slices.{put_bytes}
use air_ferry.Bindings.Wasm.Sender.{
  SenderSessionWasm, Clock, Words, max_ui_qr_count, as_bytes, draw_bytes,
}

-- The side of a code as four bytes, the lowest first.
abbrev pub side_bytes : QrMatrix → List ℕ
side_bytes m = to_le 4 (m.size % 2 ^ 32)

module _ (qr : Generator) (words : Words) where
  unfoldable pub render : List ℕ → Result String QrMatrix
  render bytes = map_err words.render (encode qr bytes)

  -- `encode_qr`: the modules, and the caller's variables with the side in the first.
  unfoldable pub encode_qr : (frame_bytes out_side : List ℕ) → List ℕ × Result String (List ℕ)
  encode_qr frame_bytes out_side =
      if is_nil out_side
      then (out_side, err "out_side buffer empty")
      else elim (render frame_bytes) [
        | err e ↦ (out_side, err e)
        | ok m ↦ (set out_side 0 (m.size % 2 ^ 32), ok (as_bytes m.modules))
      ]

module _ {E : Type 0} (crc : Checksum) (rq : BlockEncoding E) (qr : Generator) (words : Words) where
  unfoldable pub render_drawn :
      SenderSession E × Result String (List ℕ) → SenderSession E × Result String QrMatrix
  render_drawn (s, err e) = (s, err e)
  render_drawn (s, ok bytes) = (s, render qr words bytes)

  -- The next frame as a code, in the session.
  unfoldable pub draw_qr : SenderSession E → Clock → SenderSession E × Result String QrMatrix
  draw_qr s c = render_drawn (draw_bytes crc rq words s c)

  unfoldable pub side_out :
      (out_side : List ℕ)
      → SenderSession E × Result String QrMatrix
      → SenderSession E × List ℕ × Result String (List ℕ)
  side_out out_side (s, err e) = (s, out_side, err e)
  side_out out_side (s, ok m) = (s, set out_side 0 (m.size % 2 ^ 32), ok (as_bytes m.modules))

  unfoldable pub next_qr :
      SenderSessionWasm E
      → Clock
      → (out_side : List ℕ) → SenderSessionWasm E × List ℕ × Result String (List ℕ)
  next_qr w c out_side =
      if is_nil out_side
      then (w, out_side, err "out_side buffer empty")
      else (let (s, side, r) = side_out out_side (draw_qr w.inner c) in
          (record w { inner = s }, side, r))

  -- The modules go to the caller's buffer; the side is written last.
  unfoldable pub modules_into :
      (out_modules out_side : List ℕ)
      → SenderSession E × Result String QrMatrix
      → SenderSession E × List ℕ × List ℕ × Result String ℕ
  modules_into out_modules out_side (s, err e) = (s, out_modules, out_side, err e)
  modules_into out_modules out_side (s, ok m) =
      if ltb (length out_modules) (length m.modules)
      then (s, out_modules, out_side, err "out_modules too small")
      else (
        s,
        put_bytes out_modules 0 (as_bytes m.modules),
        set out_side 0 (m.size % 2 ^ 32),
        ok (length m.modules % 2 ^ 32),
      )

  unfoldable pub next_qr_into :
      SenderSessionWasm E
      → Clock
      → (out_modules out_side : List ℕ) → SenderSessionWasm E × List ℕ × List ℕ × Result String ℕ
  next_qr_into w c out_modules out_side =
      if is_nil out_side
      then (w, out_modules, out_side, err "out_side buffer empty")
      else (let (s, modules, side, r) = modules_into out_modules out_side (draw_qr w.inner c) in
          (record w { inner = s }, modules, side, r))

  -- The loop of `next_qr_multi`, for `n` codes from the `i`-th on: it stops at an error.
  unfoldable pub multi_step :
      (SenderSession E → ℕ → List ℕ → SenderSession E × ℕ × List ℕ)
      → (produced : ℕ) → (out : List ℕ) → SenderSession E × Result String QrMatrix
      → SenderSession E × ℕ × List ℕ
  multi_step rest produced out (s, err e) = (s, produced, out)
  multi_step rest produced out (s, ok m) =
      rest s (suc produced) (out ++ (side_bytes m ++ as_bytes m.modules))

  unfoldable pub multi_loop :
      (n i : ℕ)
      → (ℕ → Clock)
      → SenderSession E
      → (produced : ℕ) → (out : List ℕ) → SenderSession E × ℕ × List ℕ
  multi_loop zero i clock s produced out = (s, produced, out)
  multi_loop (suc n) i clock s produced out =
      multi_step (multi_loop n (suc i) clock) produced out (draw_qr s (clock i))

  -- The count is filled in at the end.
  unfoldable pub next_qr_multi :
      SenderSessionWasm E → (ℕ → Clock) → (count : ℕ) → SenderSessionWasm E × List ℕ
  next_qr_multi w clock count =
      let (s, produced, out) = multi_loop (min count 8) 0 clock w.inner 0 (to_le 4 0) in
      (record w { inner = s }, put_bytes out 0 (to_le 4 produced))

  -- A loop that writes into a buffer: the session, the buffer, and the number of codes with the end of what
  -- was written.
  abbrev pub Filling : Type 0
  Filling = SenderSession E × List ℕ × Result String (ℕ × ℕ)

  -- A code is written where there is room for it.
  unfoldable pub write_code :
      (overflow : String)
      → (SenderSession E → ℕ → List ℕ → ℕ → Filling)
      → SenderSession E
      → (produced : ℕ) → (buf : List ℕ) → (pos : ℕ) → QrMatrix
      → Filling
  write_code overflow rest s produced buf pos m =
      if ltb (length buf) (pos + (4 + length m.modules))
      then (s, buf, err overflow)
      else rest s (suc produced)
          (put_bytes (put_bytes buf pos (side_bytes m)) (pos + 4) (as_bytes m.modules))
          (pos + 4 + length m.modules)

  unfoldable pub into_step :
      (SenderSession E → ℕ → List ℕ → ℕ → Filling)
      → (produced : ℕ) → (buf : List ℕ) → (pos : ℕ) → SenderSession E × Result String QrMatrix
      → Filling
  into_step rest produced buf pos (s, err e) = (s, buf, ok (produced, pos))
  into_step rest produced buf pos (s, ok m) =
      write_code "out_buf overflow" rest s produced buf pos m

  unfoldable pub into_loop :
      (n i : ℕ)
      → (ℕ → Clock)
      → SenderSession E
      → (produced : ℕ) → (buf : List ℕ) → (pos : ℕ) → Filling
  into_loop zero i clock s produced buf pos = (s, buf, ok (produced, pos))
  into_loop (suc n) i clock s produced buf pos =
      into_step (into_loop n (suc i) clock) produced buf pos (draw_qr s (clock i))

  -- `backfill`: the count at the front, and the number of bytes as the result.
  unfoldable pub backfill : Filling → SenderSession E × List ℕ × Result String ℕ
  backfill (s, buf, err e) = (s, buf, err e)
  backfill (s, buf, ok (produced, pos)) = (s, put_bytes buf 0 (to_le 4 produced), ok (pos % 2 ^ 32))

  unfoldable pub next_qr_multi_into :
      SenderSessionWasm E
      → (ℕ → Clock)
      → (count : ℕ) → (out_buf : List ℕ) → SenderSessionWasm E × List ℕ × Result String ℕ
  next_qr_multi_into w clock count out_buf =
      if ltb (length out_buf) 4
      then (w, out_buf, err "out_buf too small for count slot")
      else (let (s, buf, r) = backfill (into_loop (min count 8) 0 clock w.inner 0 out_buf 4) in
          (record w { inner = s }, buf, r))

  unfoldable pub scratch_step :
      (SenderSession E → ℕ → List ℕ → ℕ → Filling)
      → (produced : ℕ) → (buf : List ℕ) → (pos : ℕ) → SenderSession E × Result String QrMatrix
      → Filling
  scratch_step rest produced buf pos (s, err e) = (s, buf, err e)
  scratch_step rest produced buf pos (s, ok m) =
      write_code "internal QR scratch buffer overflow" rest s produced buf pos m

  unfoldable pub scratch_loop :
      (n i : ℕ)
      → (ℕ → Clock)
      → SenderSession E
      → (produced : ℕ) → (buf : List ℕ) → (pos : ℕ) → Filling
  scratch_loop zero i clock s produced buf pos = (s, buf, ok (produced, pos))
  scratch_loop (suc n) i clock s produced buf pos =
      scratch_step (scratch_loop n (suc i) clock) produced buf pos (draw_qr s (clock i))

  -- One to four codes into the session's own buffer.
  unfoldable pub next_qr_scratch :
      SenderSessionWasm E → (ℕ → Clock) → (count : ℕ) → SenderSessionWasm E × Result String ℕ
  next_qr_scratch w clock count =
      let n = min (max count 1) max_ui_qr_count in
      let (s, buf, r) = backfill (scratch_loop n 0 clock w.inner 0 w.qr_scratch 4) in
      (record { inner = s; qr_scratch = buf }, r)
