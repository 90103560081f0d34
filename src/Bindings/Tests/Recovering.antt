-- ===== src/Bindings/Tests/Recovering.antt =====
-- A file that is recovered from the bytes of another one.
use air_ferry.Prelude.{
  ℕ, zero, suc, ◌<◌, ◌≡◌, refl, sym, ap, true, List, [], ◌∷◌, length, take, drop, take-append-drop,
  length-take, none, some, is_some, false, ◌==◌, ◌%◌, if◌then◌else◌, Result, ok, err, arith,
}
use air_ferry.Bytes.{bytes_eq}
use air_ferry.Protocol.Compress.{is_known_compression_tag}
use air_ferry.Protocol.Errors as ProtocolErrors
use air_ferry.Protocol.Stream
use air_ferry.Protocol.Stream.{
  Files, decompress_stream_to_file, open_stream, stream_opened, stream_created, finish_stream,
  finish_flush, run_decode, decode, take_read, after_read, after_write, open_decoder,
  DecompressStreamOutcome,
}
use air_ferry.Protocol.Stream.Loop.{IsReader}
use air_ferry.Protocol.Stream.Outcome.{stream-is_some, Leaves, stream-Leaves}
use air_ferry.Protocol.Tests.{sum, sum_checksum}
use air_ferry.Protocol.QrRender.{encode, min_version_for, position, walk, matrix, Generator}
use air_ferry.Protocol.QrRender.Smallest.{Encodes, encode-Encodes}
use air_ferry.Engine.Utf8.{lead, next}
use air_ferry.Engine.Utf8.Lossy.{from_utf8_lossy, lossy, take_byte, first_byte, later_byte}
use air_ferry.Bindings.Capi.Calls.{
  airferry_decompress_stream_to_file, cstr, decompress_arguments, check_outcome,
  eq_ignore_ascii_case, to_hex, hex_digit, to_ascii_lowercase,
}
use air_ferry.Bindings.Capi.Recovery.{Ends, airferry_decompress_stream_to_file-Ends}

-- A reader is the bytes that are left.
abbrev quiet : Stream.Host (List ℕ)
quiet = record {
  open_fails = λ path. none;
  create_fails = λ path. none;
  file_reader = λ bytes. bytes;
  zstd_decoder = λ bytes. err "no stream";
  xz_decoder = λ bytes. err "no stream";
  read = λ r n. (drop n r, ok (take n r));
  write_fails = λ written chunk. none;
  flush_fails = λ output. none;
  stats = λ path. true;
  removes = λ path. true;
}

ok_bytes :
    (xs ys : List ℕ) → ◌≡◌ {A = Result ProtocolErrors.Error (List ℕ)} (ok xs) (ok ys) → xs ≡ ys
ok_bytes xs ys e = cc

took_none : (n : ℕ) (r : List ℕ) → 0 < n → take n r ≡ [] → r ≡ []
took_none zero r pos e = absurd (omega arith)
took_none (suc n) [] pos e = refl
took_none (suc n) (x ∷ r) pos e = cc

quiet-IsReader : IsReader quiet (λ r. r)
quiet-IsReader = record {
  split = λ r n bs e. let same : take n r ≡ bs = cc in rw (← same) (sym (take-append-drop n r));
  bounded =
      λ r n bs e. let same : take n r ≡ bs = cc in omega (arith, length-take n r, ap length same);
  ended = λ r n pos e. took_none n r pos (cc);
}

-- The input "in" has five bytes, and there is an older output.
abbrev input : List ℕ
input = b'i' ∷ b'n' ∷ []

abbrev output : List ℕ
output = b'o' ∷ []

abbrev five_bytes : List ℕ
five_bytes = 5 ∷ 6 ∷ 7 ∷ 8 ∷ 9 ∷ []

abbrev files : Files
unfolding bytes_eq
files path = if bytes_eq path input then some five_bytes else some (1 ∷ [])

-- The hash of the tests: a byte for the sum.
abbrev pub one_byte : List ℕ → List ℕ
one_byte bs = (sum bs % 256) ∷ []

abbrev copied_end : Files × Result ProtocolErrors.Error DecompressStreamOutcome
unfolding bytes_eq
copied_end = (
  Stream.put_file (Stream.put_file files output (some [])) output (some five_bytes),
  ok (record { output_size = 5; crc32 = 35; sha256 = 35 ∷ [] }),
)

stream-is_some_example :
    is_some (decompress_stream_to_file quiet sum_checksum one_byte files input output 0 100) ≡ true
stream-is_some_example = stream-is_some quiet sum_checksum one_byte files input output 0 100

copied_run :
    decompress_stream_to_file quiet sum_checksum one_byte files input output 0 100 ≡ some copied_end
unfolding decompress_stream_to_file open_stream stream_opened stream_created finish_stream
    finish_flush run_decode decode take_read after_read after_write open_decoder
    is_known_compression_tag copied_end
copied_run = refl

stream-Leaves_example :
    Leaves quiet sum_checksum one_byte
      (λ r. r)
      quiet-IsReader
      100
      (omega arith)
      files
      output
      (open_decoder quiet sum_checksum one_byte input five_bytes 0)
      copied_end
unfolding files bytes_eq
stream-Leaves_example =
    stream-Leaves quiet sum_checksum one_byte (λ r. r) quiet-IsReader 100 (omega arith) files input
      output five_bytes 0 copied_end refl refl refl copied_run

abbrev verified_end : Files × ℕ
unfolding bytes_eq
verified_end =
    (Stream.put_file (Stream.put_file files output (some [])) output (some five_bytes), 1)

verified_run :
    airferry_decompress_stream_to_file quiet sum_checksum one_byte files
      (some input)
      (some output)
      0
      100
      5
      35
      true
      (some (b'2' ∷ b'3' ∷ []))
    ≡ some verified_end
unfolding airferry_decompress_stream_to_file cstr decompress_arguments from_utf8_lossy lossy
    take_byte first_byte later_byte lead next check_outcome eq_ignore_ascii_case to_hex hex_digit
    to_ascii_lowercase decompress_stream_to_file open_stream stream_opened stream_created
    finish_stream finish_flush run_decode decode take_read after_read after_write open_decoder
    is_known_compression_tag verified_end bytes_eq
verified_run = refl

airferry_decompress_stream_to_file-Ends_example :
    Ends quiet sum_checksum one_byte
      (λ r. r)
      quiet-IsReader
      files
      output
      5
      35
      true
      (b'2' ∷ b'3' ∷ [])
      (open_decoder quiet sum_checksum one_byte input five_bytes 0)
      verified_end
unfolding files bytes_eq from_utf8_lossy lossy take_byte first_byte later_byte lead next
airferry_decompress_stream_to_file-Ends_example =
    airferry_decompress_stream_to_file-Ends quiet sum_checksum one_byte (λ r. r) quiet-IsReader 100
      (omega arith) files input output five_bytes 0 5 35 true (b'2' ∷ b'3' ∷ []) verified_end refl
      refl refl verified_run

-- A generator that refuses version 1.
abbrev picky : Generator
picky version bytes =
    if version == 1 then none else some (2, true ∷ false ∷ false ∷ true ∷ true ∷ [])

encode-Encodes_example : Encodes picky five_bytes (encode picky five_bytes)
encode-Encodes_example = encode-Encodes picky five_bytes

-- Five bytes would fit version 1.
second_version :
    encode picky five_bytes ≡ ok (record { modules = true ∷ false ∷ false ∷ true ∷ []; size = 2 })
unfolding encode min_version_for position walk matrix
second_version = refl
