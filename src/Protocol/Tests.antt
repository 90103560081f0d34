-- ===== src/Protocol/Tests.antt =====
-- Runs of the wire frames and of what goes with them.
pub mod Compressing
use air_ferry.Prelude.{
  ℕ, ◌+◌, ◌%◌, ◌^◌, ◌≡◌, refl, Bool, true, ◌&&◌, ltb, List, [], ◌∷◌, ◌++◌, take, ok, err, arith,
}
use air_ferry.Bytes.{All, IsByte}
use air_ferry.Protocol.Checksum.{Checksum}
use air_ferry.Protocol.Frame.{FrameHeader, Frame, write_bytes, from_bytes, to_bytes}
use air_ferry.Protocol.Frame.Laws.{IsSealed, from_bytes-to_bytes, to_bytes-from_bytes}
use air_ferry.Protocol.Compress.{Decoders, read_opened, read_capped, decompress_with_limit}
use air_ferry.Codec.Config.{Config}

abbrev pub sum : List ℕ → ℕ
sum [] = 0
sum (b ∷ bs) = b + sum bs

-- A checksum for the tests.
abbrev pub sum_checksum : Checksum
sum_checksum = record { digest = λ bs. sum bs % 2 ^ 32; digest-lt = λ bs. omega arith }

abbrev pub small_header : FrameHeader
small_header = record {
  session_id = 7;
  flags = 0;
  sbn = 1;
  esi = 2;
  total_blocks = 1;
  total_symbols = 3;
  symbol_size = 4;
  frame_index = 5;
  timestamp_ms = 6;
  payload_crc32 = 10;
}

abbrev pub small_payload : List ℕ
small_payload = 1 ∷ 2 ∷ 3 ∷ 4 ∷ []

abbrev pub small_frame : Frame
small_frame = record {
  header = small_header;
  payload = small_payload;
  frame_crc32 = sum_checksum.digest (write_bytes small_header ++ small_payload);
}

small_frame-IsSealed : IsSealed sum_checksum small_frame
small_frame-IsSealed = record {
  words = record {
    session_id = omega arith;
    flags = omega arith;
    sbn = omega arith;
    esi = omega arith;
    total_blocks = omega arith;
    total_symbols = omega arith;
    symbol_size = omega arith;
    frame_index = omega arith;
    timestamp_ms = omega arith;
    payload_crc32 = omega arith;
  };
  sized = refl;
  payload_crc = refl;
  frame_crc = refl;
}

from_bytes-to_bytes_example : from_bytes sum_checksum (to_bytes small_frame) ≡ ok small_frame
from_bytes-to_bytes_example = from_bytes-to_bytes sum_checksum small_frame small_frame-IsSealed

abbrev are_bytes : List ℕ → Bool
are_bytes [] = true
are_bytes (b ∷ bs) = ltb b 256 && are_bytes bs

are_bytes_lem : (bs : List ℕ) → are_bytes bs ≡ true → All IsByte bs
are_bytes_lem [] h = tt
are_bytes_lem (b ∷ bs) h = (ground arith, are_bytes_lem bs (ground arith))

small_frame-bytes : All IsByte (to_bytes small_frame)
unfolding to_bytes write_bytes
small_frame-bytes = are_bytes_lem (to_bytes small_frame) refl

to_bytes-from_bytes_example :
    IsSealed sum_checksum small_frame × (to_bytes small_frame ≡ to_bytes small_frame)
to_bytes-from_bytes_example =
    to_bytes-from_bytes sum_checksum (to_bytes small_frame) small_frame small_frame-bytes
      (from_bytes-to_bytes sum_checksum small_frame small_frame-IsSealed)

abbrev words_of_four : Config
words_of_four = record { symbol_size = 4 }

-- Decoders for the tests: one doubles its input, one does not open.
abbrev doubling : Decoders
doubling = record {
  zstd = λ bytes. ok (λ limit. ok (take limit (bytes ++ bytes)));
  xz = λ bytes. err "no stream";
}

abbrev twice : List ℕ
twice = 1 ∷ 2 ∷ 1 ∷ 2 ∷ []

doubled : decompress_with_limit doubling (1 ∷ 2 ∷ []) 1 4 ≡ ok twice
unfolding decompress_with_limit read_opened read_capped
doubled = refl
