-- ===== src/Protocol/Session.antt =====
-- Session ids by FNV-1a (core/qr-protocol/src/session.rs).
use air_ferry.Prelude.{ℕ, ◌*◌, ◌/◌, ◌%◌, ◌^◌, ◌<◌, List, [], ◌∷◌, ◌++◌, zero, suc, bit_xor, arith}
use native.Mathlib.Nat.{mod-lt}
use air_ferry.Bytes.{to_be}

-- `to_le_bytes` of a word of `n` bytes.
unfoldable pub to_le : ℕ → ℕ → List ℕ
to_le zero x = []
to_le (suc n) x = (x % 256) ∷ to_le n (x / 256)

abbrev pub fnv_offset : ℕ
fnv_offset = 0x6c62272e07bb01426b82175983ad0b58

abbrev pub fnv_prime : ℕ
fnv_prime = 0x0000000001000000000000000000013b

-- `h ^= b; h = h.wrapping_mul(PRIME);` for each byte, in a word of `w` bits.
unfoldable pub fnv : (w prime h : ℕ) → List ℕ → ℕ
fnv w prime h [] = h
fnv w prime h (b ∷ bs) = fnv w prime (bit_xor h b * prime % 2 ^ w) bs

-- `SessionId::derive`
pub derive : (name : List ℕ) → (size mtime_ms : ℕ) → (fingerprint : List ℕ) → ℕ
derive name size mtime_ms fingerprint =
    let named = fnv 128 fnv_prime fnv_offset name in
    let sized = fnv 128 fnv_prime named (to_le 8 size) in
    let dated = fnv 128 fnv_prime sized (to_le 8 mtime_ms) in fnv 128 fnv_prime dated fingerprint

-- The bytes of "AirFerry.segment.v1".
abbrev pub segment_tag : List ℕ
segment_tag =
    b'A' ∷ b'i' ∷ b'r' ∷ b'F' ∷ b'e' ∷ b'r' ∷ b'r' ∷ b'y' ∷ b'.' ∷ b's' ∷ b'e' ∷ b'g' ∷ b'm' ∷ b'e'
    ∷ b'n' ∷ b't' ∷ b'.' ∷ b'v' ∷ b'1' ∷ []

unfoldable pub derive_segment : (root segment_index : ℕ) → ℕ
derive_segment root segment_index =
    fnv 128 fnv_prime fnv_offset (segment_tag ++ (to_be 16 root ++ to_be 4 segment_index))

pub content_fingerprint : (head tail : List ℕ) → List ℕ
content_fingerprint head tail =
    to_le 8 (fnv 64 0x100000001b3 (fnv 64 0x100000001b3 0xcbf29ce484222325 head) tail)

fnv-lt : (w prime h : ℕ) (bs : List ℕ) → 0 < 2 ^ w → h < 2 ^ w → fnv w prime h bs < 2 ^ w
unfolding fnv
fnv-lt w prime h [] pos small = small
fnv-lt w prime h (b ∷ bs) pos small =
    fnv-lt w prime (bit_xor h b * prime % 2 ^ w) bs pos (mod-lt (bit_xor h b * prime) pos)

-- A segment's id is a `u128`.
pub derive_segment-lt : (root segment_index : ℕ) → derive_segment root segment_index < 2 ^ 128
unfolding derive_segment
derive_segment-lt root segment_index =
    fnv-lt 128 fnv_prime fnv_offset (segment_tag ++ (to_be 16 root ++ to_be 4 segment_index))
      (omega arith) (omega arith)
