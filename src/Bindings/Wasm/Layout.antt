-- ===== src/Bindings/Wasm/Layout.antt =====
-- What lies in the buffers of the browser's sender after a call: the codes that were drawn, in their order.
pub mod Scratch
pub mod Multi
use air_ferry.Prelude.{
  ℕ, zero, suc, ◌+◌, ◌/◌, ◌%◌, ◌^◌, ◌≤◌, ◌≡◌, refl, sym, ap, ap₂, subst, ◌∙◌, min, max, Bool, false,
  ltb, List, [], ◌∷◌, ◌++◌, length, take, drop, length-take, length-append, length-map, append-nil,
  append_assoc, Option, none, some, Result, ok, err, String, if◌then◌else◌, arith,
}
use air_ferry.Protocol.Checksum.{Checksum}
use air_ferry.Bytes.{drop-append}
use air_ferry.Protocol.Session.{to_le}
use air_ferry.Protocol.QrRender.{Generator, QrMatrix}
use air_ferry.Codec.Raptorq.{BlockEncoding}
use air_ferry.Engine.Sender.{SenderSession}
use air_ferry.Bindings.Wasm.Slices.{
  put_bytes, length-put_bytes, take-put_bytes, take-put_bytes_front,
}
use air_ferry.Bindings.Wasm.Sender.{SenderSessionWasm, Clock, Words, max_ui_qr_count, as_bytes}
use air_ferry.Bindings.Wasm.Sender.Qr.{
  side_bytes, draw_qr, Filling, write_code, backfill, scratch_step, scratch_loop, next_qr_scratch,
}

pub length-to_le : (n x : ℕ) → length (to_le n x) ≡ n
unfolding to_le
length-to_le zero x = refl
length-to_le (suc n) x = ap suc (length-to_le n (x / 256))

-- The codes, one behind the other, and the whole buffer with their number in front.
unfoldable pub bodies : List QrMatrix → List ℕ
bodies [] = []
bodies (m ∷ ms) = (side_bytes m ++ as_bytes m.modules) ++ bodies ms

pub layout : List QrMatrix → List ℕ
layout ms = to_le 4 (length ms) ++ bodies ms

-- What some draws give: the session, the codes up to the first error, and that error.
abbrev pub Draws : Type 0 → Type 0
Draws E = SenderSession E × List QrMatrix × Option String

unfoldable pub after_draw :
    {E : Type 0} → (SenderSession E → Draws E) → SenderSession E × Result String QrMatrix → Draws E
after_draw rest (s, err e) = (s, [], some e)
after_draw rest (s, ok m) = let (t, ms, stop) = rest s in (t, m ∷ ms, stop)

module _ {E : Type 0} (crc : Checksum) (rq : BlockEncoding E) (qr : Generator) (words : Words) where
  unfoldable pub draws : (n i : ℕ) → (ℕ → Clock) → SenderSession E → Draws E
  draws zero i clock s = (s, [], none)
  draws (suc n) i clock s = after_draw (draws n (suc i) clock) (draw_qr crc rq qr words s (clock i))
