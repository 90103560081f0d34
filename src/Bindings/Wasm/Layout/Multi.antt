-- ===== src/Bindings/Wasm/Layout/Multi.antt =====
-- The bytes that `next_qr_multi` gives (core/transfer-engine/src/wasm.rs).
use air_ferry.Prelude.{
  ℕ, zero, suc, ◌+◌, ◌≡◌, sym, ap, ap₂, ◌∙◌, min, List, ◌++◌, length, append-nil, append_assoc,
  Result, ok, err, String, arith,
}
use air_ferry.Protocol.Checksum.{Checksum}
use air_ferry.Bytes.{drop-append}
use air_ferry.Protocol.Session.{to_le}
use air_ferry.Protocol.QrRender.{Generator, QrMatrix}
use air_ferry.Codec.Raptorq.{BlockEncoding}
use air_ferry.Engine.Sender.{SenderSession}
use air_ferry.Bindings.Wasm.Slices.{put_bytes}
use air_ferry.Bindings.Wasm.Sender.{SenderSessionWasm, Clock, Words, as_bytes}
use air_ferry.Bindings.Wasm.Sender.Qr.{multi_step, multi_loop, next_qr_multi, side_bytes, draw_qr}
use air_ferry.Bindings.Wasm.Layout.{bodies, layout, length-to_le, Draws, after_draw, draws}

-- The slot in front takes the number.
counted_front :
    (ms : List QrMatrix)
    → put_bytes (to_le 4 0 ++ bodies ms) 0 (to_le 4 (0 + length ms)) ≡ layout ms
unfolding put_bytes layout
counted_front ms =
    let count : 0 + length ms ≡ length ms = omega arith in
    let slot : 0 + length (to_le 4 (length ms)) ≡ 4 = omega (arith, length-to_le 4 (length ms)) in
    rw (count, slot)
      (ap (λ (xs : List ℕ). to_le 4 (length ms) ++ xs)
        (drop-append 4 (to_le 4 0) (bodies ms) (length-to_le 4 0)))

module _ {E : Type 0} (crc : Checksum) (rq : BlockEncoding E) (qr : Generator) (words : Words) where
  -- The code of the loop of `next_qr_multi` after one draw.
  multi_one :
      (given : SenderSession E → Draws E)
      (rest : SenderSession E → ℕ → List ℕ → SenderSession E × ℕ × List ℕ) (produced : ℕ)
      (out : List ℕ) (q : SenderSession E × Result String QrMatrix)
      → ((s : SenderSession E) (n : ℕ) (xs : List ℕ)
          → rest s n xs ≡ ((given s).0, n + length (given s).1, xs ++ bodies (given s).1))
      → multi_step crc rq qr words rest produced out q ≡ (
        (after_draw given q).0,
        produced + length (after_draw given q).1,
        out ++ bodies (after_draw given q).1,
      )
  unfolding multi_step after_draw bodies
  multi_one given rest produced out (s, err e) ih =
      let none_more : produced ≡ produced + 0 = omega arith in
      ap₂ (λ (n : ℕ) (xs : List ℕ). (s, n, xs)) none_more (sym (append-nil out))
  multi_one given rest produced out (s, ok m) ih =
      let one_more : suc produced + length (given s).1 ≡ produced + suc (length (given s).1) =
        omega arith in
      ih s (suc produced) (out ++ (side_bytes m ++ as_bytes m.modules))
      ∙ ap₂ (λ (n : ℕ) (xs : List ℕ). ((given s).0, n, xs)) one_more
          (append_assoc out (side_bytes m ++ as_bytes m.modules) (bodies (given s).1))

  multi_loop-draws :
      (n i : ℕ) (clock : ℕ → Clock) (s : SenderSession E) (produced : ℕ) (out : List ℕ)
      → multi_loop crc rq qr words n i clock s produced out ≡ (
        (draws crc rq qr words n i clock s).0,
        produced + length (draws crc rq qr words n i clock s).1,
        out ++ bodies (draws crc rq qr words n i clock s).1,
      )
  unfolding multi_loop draws bodies
  multi_loop-draws zero i clock s produced out =
      let none_more : produced ≡ produced + 0 = omega arith in
      ap₂ (λ (n : ℕ) (xs : List ℕ). (s, n, xs)) none_more (sym (append-nil out))
  multi_loop-draws (suc n) i clock s produced out =
      multi_one (draws crc rq qr words n (suc i) clock) (multi_loop crc rq qr words n (suc i) clock)
        produced out (draw_qr crc rq qr words s (clock i))
        (λ t k xs. multi_loop-draws n (suc i) clock t k xs)

  -- `next_qr_multi` gives the number of codes and then the side and the modules of each code that is drawn,
  -- up to eight or to the first failing draw, whose error is not reported.
  pub next_qr_multi-layout :
      (w : SenderSessionWasm E) (clock : ℕ → Clock) (count : ℕ)
      → next_qr_multi crc rq qr words w clock count ≡ (
        record w { inner = (draws crc rq qr words (min count 8) 0 clock w.inner).0 },
        layout (draws crc rq qr words (min count 8) 0 clock w.inner).1,
      )
  unfolding next_qr_multi
  next_qr_multi-layout w clock count =
      rw (multi_loop-draws (min count 8) 0 clock w.inner 0 (to_le 4 0)) (
        ap
          (λ (xs : List ℕ).
            (record w { inner = (draws crc rq qr words (min count 8) 0 clock w.inner).0 }, xs))
          (counted_front (draws crc rq qr words (min count 8) 0 clock w.inner).1))
