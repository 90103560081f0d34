-- ===== src/Protocol/Stream.antt =====
-- Decompression from file to file (`decompress_stream_to_file` of core/qr-protocol/src/compress.rs). The
-- files are a parameter of the state: a path holds bytes or nothing. `Host` has what the operating system
-- and the decoders answer.
pub mod Loop
pub mod Outcome
use air_ferry.Prelude.{
  ℕ, zero, suc, ◌+◌, ◌-◌, ◌*◌, ◌^◌, ◌≤◌, ◌<◌, ◌≡◌, min, Bool, true, false, ◌||◌, ltb, ◌==◌, List,
  [], ◌∷◌, ◌++◌, length, Option, none, some, Result, ok, err, String, if◌then◌else◌, map_err,
}
use Prim.Native.String
use air_ferry.Bytes.{bytes_eq}
use air_ferry.Protocol.Checksum.{Checksum}
use air_ferry.Protocol.Frame.{saturating_add}
use air_ferry.Protocol.Errors.{Error, compress}
use air_ferry.Protocol.Compress.{compression_zstd, compression_xz, is_known_compression_tag, is_nil}

abbrev pub Files : Type 0
Files = List ℕ → Option (List ℕ)

abbrev pub put_file : Files → List ℕ → Option (List ℕ) → Files
put_file files path content q = if bytes_eq q path then content else files q

-- The operating system's answers: an error of the call, or none. A reader of type `R` is asked for a number of
-- bytes.
pub record Host (R : Type 0) : Type 0 where
  pub open_fails : List ℕ → Option String
  pub create_fails : List ℕ → Option String
  pub file_reader : List ℕ → R
  pub zstd_decoder : List ℕ → Result String R
  pub xz_decoder : List ℕ → Result String R
  pub read : R → ℕ → R × Result String (List ℕ)
  pub write_fails : (written chunk : List ℕ) → Option String
  pub flush_fails : List ℕ → Option String
  pub stats : List ℕ → Bool
  pub removes : List ℕ → Bool

abbrev pub buffer_size : ℕ
buffer_size = 256 * 1024

-- The variables of the loop: the bytes that the hashers and the writer have got.
pub record Copied : Type 0 where
  pub written : ℕ
  pub hashed : List ℕ
  pub output : List ℕ
  pub over : Bool

abbrev pub nothing_copied : Copied
nothing_copied = record { written = 0; hashed = []; output = []; over = false }

pub record DecompressStreamOutcome : Type 0 where
  pub output_size : ℕ
  pub crc32 : ℕ
  pub sha256 : List ℕ

module _ {R : Type 0} (host : Host R) where
  -- `reader.take(limit).read(&mut buf)`; what is left of the limit follows from the bytes read.
  unfoldable pub take_read : R → (limit : ℕ) → R × Result String (List ℕ)
  take_read r limit = if limit == 0 then (r, ok []) else host.read r (min buffer_size limit)

  -- The chunk after it was counted and hashed.
  unfoldable pub after_write :
      (Copied → Option (Copied × Result Error (Unit {0})))
      → Copied
      → List ℕ
      → Option String
      → Option (Copied × Result Error (Unit {0}))
  after_write rest c chunk (some e) = some (c, err (compress (String.◌++◌ "write: " e)))
  after_write rest c chunk none = rest (record c { output = c.output ++ chunk })

  unfoldable pub after_read :
      (max_output : ℕ)
      → (R → (limit : ℕ) → Copied → Option (Copied × Result Error (Unit {0})))
      → (limit : ℕ) → Copied
      → R × Result String (List ℕ)
      → Option (Copied × Result Error (Unit {0}))
  after_read max_output rest limit c (r, err e) = some (c, err (compress (String.◌++◌ "read: " e)))
  after_read max_output rest limit c (r, ok []) = some (c, ok tt)
  after_read max_output rest limit c (r, ok (b ∷ bs)) =
      let chunk = b ∷ bs in
      let written = saturating_add c.written (length chunk) in
      if ltb max_output written
      then some (record c { written = written; over = true }, ok tt)
      else after_write (rest r (limit - length chunk))
          (record c { written = written; hashed = c.hashed ++ chunk }) chunk
          (host.write_fails c.output chunk)

  -- `decode`; `none` means that the fuel ran out.
  unfoldable pub decode :
      (max_output fuel : ℕ) → R → (limit : ℕ) → Copied → Option (Copied × Result Error (Unit {0}))
  decode max_output zero r limit c = none
  decode max_output (suc fuel) r limit c =
      after_read max_output (decode max_output fuel) limit c (take_read r limit)

  unfoldable pub remove_file : Files → List ℕ → Files
  remove_file files path = if host.removes path then put_file files path none else files

module _ {R : Type 0} (host : Host R) (crc : Checksum) (sha : List ℕ → List ℕ) where
  -- The whole loop over an opened decoder: as much fuel as bytes may be read.
  unfoldable pub run_decode :
      (max_output : ℕ) → Result String R → Option (Copied × Result Error (Unit {0}))
  run_decode max_output (err e) = some (nothing_copied, err (compress e))
  run_decode max_output (ok r) =
      let limit = saturating_add max_output 1 in
      decode host max_output (limit + 1) r limit nothing_copied

  -- A file whose metadata cannot be read does not count as empty.
  unfoldable pub is_empty_file : (path bytes : List ℕ) → Bool
  is_empty_file path bytes = if host.stats path then is_nil bytes else false

  -- The decoder that the tag asks for, over the input's bytes.
  unfoldable pub open_decoder : (path bytes : List ℕ) → (tag : ℕ) → Result String R
  open_decoder path bytes tag =
      if tag == compression_zstd
      then host.zstd_decoder bytes
      else if tag == compression_xz
      then host.xz_decoder bytes
      else if is_known_compression_tag tag || is_empty_file path bytes
      then ok (host.file_reader bytes)
      else err "unknown compression algorithm tag"

  -- The flush is the last step that can fail.
  unfoldable pub finish_flush :
      Files
      → (path : List ℕ) → Copied
      → Option String
      → Files × Result Error DecompressStreamOutcome
  finish_flush files path c (some e) =
      (remove_file host files path, err (compress (String.◌++◌ "flush: " e)))
  finish_flush files path c none = (
    put_file files path (some c.output),
    ok (record { output_size = c.written; crc32 = crc.digest c.hashed; sha256 = sha c.hashed }),
  )

  -- After the loop: the partial output is removed on every failure.
  unfoldable pub finish_stream :
      Files
      → (path : List ℕ) → Copied × Result Error (Unit {0})
      → Files × Result Error DecompressStreamOutcome
  finish_stream files path (c, err e) = (remove_file host files path, err e)
  finish_stream files path (c, ok u) =
      if c.over
      then (remove_file host files path, err (compress "decompressed output exceeds expected size"))
      else finish_flush files path c (host.flush_fails c.output)

  -- The output was created, and so emptied.
  unfoldable pub stream_created :
      Files
      → (output_path : List ℕ) → Option (Copied × Result Error (Unit {0}))
      → Option (Files × Result Error DecompressStreamOutcome)
  stream_created files output_path none = none
  stream_created files output_path (some done) =
      some (finish_stream (put_file files output_path (some [])) output_path done)

  -- To create the output empties it, and so also the input where they are one file.
  unfoldable pub stream_opened :
      Files
      → (input_path output_path bytes : List ℕ) → (tag max_output : ℕ)
      → (create_fails : Option String) → Option (Files × Result Error DecompressStreamOutcome)
  stream_opened files input_path output_path bytes tag max_output (some e) =
      some (files, err (compress (String.◌++◌ "create output: " e)))
  stream_opened files input_path output_path bytes tag max_output none =
      let seen : List ℕ = if bytes_eq input_path output_path then [] else bytes in
      stream_created files output_path (run_decode max_output (open_decoder input_path seen tag))

  -- A file that can be opened is there.
  unfoldable pub open_stream :
      Files
      → (input_path output_path : List ℕ) → (tag max_output : ℕ) → (open_fails : Option String)
      → (input : Option (List ℕ)) → Option (Files × Result Error DecompressStreamOutcome)
  open_stream files input_path output_path tag max_output (some e) input =
      some (files, err (compress (String.◌++◌ "open input: " e)))
  open_stream files input_path output_path tag max_output none none =
      some (files, err (compress "open input: not found"))
  open_stream files input_path output_path tag max_output none (some bytes) =
      stream_opened files input_path output_path bytes tag max_output
        (host.create_fails output_path)

  unfoldable pub decompress_stream_to_file :
      Files
      → (input_path output_path : List ℕ) → (tag max_output : ℕ)
      → Option (Files × Result Error DecompressStreamOutcome)
  decompress_stream_to_file files input_path output_path tag max_output =
      open_stream files input_path output_path tag max_output (host.open_fails input_path)
        (files input_path)
