-- ===== src/Bindings/Python/Prepare.antt =====
-- `NativeTransfer::prepare` (apps/python/src/lib.rs): the tests of the input, its snapshot in the spool, and the transfer
-- with its checksums and the id of the session.
use air_ferry.Prelude.{
  ℕ, ◌-◌, ◌/◌, ◌^◌, min, Bool, false, ◌||◌, not, ltb, ◌==◌, List, [], ◌∷◌, ◌++◌, length, none, some,
  Result, ok, err, map_err, ok_or, String, if◌then◌else◌,
}
use air_ferry.Bytes.{bytes_eq, to_be}
use air_ferry.Protocol.Checksum.{Checksum}
use air_ferry.Protocol.Compress.{compression_none, compression_zstd, compression_xz, is_nil}
use air_ferry.Protocol.Session.{to_le, derive}
use air_ferry.Codec.Errors as CodecErrors
use air_ferry.Codec.Config
use air_ferry.Codec.Meta.{max_original_bytes}
use air_ferry.Engine.Errors.{Error}
use air_ferry.Engine.Segment.{segment_raw_bytes, max_segment_count}
use air_ferry.Engine.Receiver.{div_ceil}
use air_ferry.Engine.Sender.{SenderConfig, validate}
use air_ferry.Bindings.Capi.Calls.{to_hex}
use air_ferry.Bindings.Python.Tasks.{
  NativeError, io, value, Time, before, since, Metadata, Disk, Task, ◌>>=◌, ◌>>◌, done, lift,
  reject_when, all_of,
}
use air_ferry.Bindings.Python.{NativeTransfer}
use air_ferry.Bindings.Python.Spool.{
  auto_mode, Snapshot, is_unchanged, take_snapshot, size_of, open_all, compress_spool,
}

abbrev pub max_qr_symbol_bytes : ℕ
max_qr_symbol_bytes = 2888

abbrev pub none_mode : List ℕ
none_mode = b'n' ∷ b'o' ∷ b'n' ∷ b'e' ∷ []

abbrev pub zstd_mode : List ℕ
zstd_mode = b'z' ∷ b's' ∷ b't' ∷ b'd' ∷ []

abbrev pub xz_mode : List ℕ
xz_mode = b'x' ∷ b'z' ∷ []

unfoldable pub is_mode : List ℕ → Bool
is_mode mode =
    bytes_eq mode auto_mode
    || bytes_eq mode none_mode
    || bytes_eq mode zstd_mode
    || bytes_eq mode xz_mode

unfoldable pub tag_of : (mode : List ℕ) → ℕ
tag_of mode =
    if bytes_eq mode none_mode
    then compression_none
    else if bytes_eq mode xz_mode
    then compression_xz
    else compression_zstd

unfoldable pub name_of : (tag : ℕ) → List ℕ
name_of tag =
    if tag == compression_none
    then none_mode
    else if tag == compression_zstd
    then zstd_mode
    else xz_mode

-- `duration_since(UNIX_EPOCH).unwrap_or_default().as_millis()`, cut to a `u64`.
unfoldable pub millis : Time → ℕ
millis (before a) = 0
millis (since a) = min (a / 10 ^ 6) (2 ^ 64 - 1)

unfoldable pub configured :
    (words : Error → String) (codec_words : CodecErrors.Error → String)
    → (symbol_size redundancy_pct : ℕ) → Result NativeError SenderConfig
configured words codec_words symbol_size redundancy_pct = elim (Config.new symbol_size) [
  | err e ↦ err (value (codec_words e))
  | ok codec ↦ elim (validate (record { codec = codec; redundancy_pct = redundancy_pct })) [
    | err e ↦ err (value (words e))
    | ok u ↦ ok (record { codec = codec; redundancy_pct = redundancy_pct })
  ]
]

-- The second of two paths is the first one's.
unfoldable pub both_resolve : Result String (List ℕ) → Result String (List ℕ) → Bool
both_resolve (err e) input = false
both_resolve (ok spool) (err e) = false
both_resolve (ok spool) (ok input) = bytes_eq input spool

unfoldable pub metadata_of : Result String Metadata → Result NativeError Metadata
metadata_of = map_err io

abbrev pub fingerprint :
    (sha : List ℕ → List ℕ)
    → (snapshot : List ℕ) → (tag symbol_size : ℕ) → (stream : List ℕ) → List ℕ
fingerprint sha snapshot tag symbol_size stream =
    sha snapshot ++ ((tag ∷ []) ++ (to_le 4 symbol_size ++ sha stream))

module _ (disk : Disk) where
  -- The last component of the input's path, as text.
  unfoldable pub input_name : List ℕ → Result NativeError (List ℕ)
  input_name path = elim (disk.file_name path) [
    | none ↦ err (value "input filename must be valid UTF-8")
    | some name ↦ ok_or (disk.to_str name) (value "input filename must be valid UTF-8")
  ]

  unfoldable pub spool_folder : List ℕ → List ℕ
  spool_folder path = elim (disk.parent path) [
    | none ↦ b'.' ∷ []
    | some folder ↦ if is_nil folder then b'.' ∷ [] else folder
  ]

  unfoldable pub resolved_spool : List ℕ → Result NativeError (List ℕ)
  resolved_spool path = elim (disk.canonicalize (spool_folder path)) [
    | err e ↦ err (io e)
    | ok folder ↦ elim (disk.file_name path) [
      | none ↦ err (value "invalid spool path")
      | some name ↦ ok (disk.join folder name)
    ]
  ]

  unfoldable pub same_file : (input_path spool_path : List ℕ) → Result NativeError Bool
  same_file input_path spool_path = elim (resolved_spool spool_path) [
    | err e ↦ err e
    | ok resolved ↦ elim (disk.canonicalize input_path) [
      | err e ↦ err (io e)
      | ok input ↦
          ok (bytes_eq input resolved || both_resolve (disk.canonicalize spool_path) (ok input))
    ]
  ]

  unfoldable pub snapshot_of :
      (spool_path : List ℕ)
      → List (Result String (List ℕ))
      → (initial : Metadata) → (last : Result String Metadata) → Task Snapshot
  snapshot_of spool_path answers initial last = do
    s ← take_snapshot disk spool_path answers
    end ← lift (metadata_of last)
    unchanged ← lift (is_unchanged initial end s.size)
    reject_when (not unchanged) "input file changed while preparing its snapshot"
    done s

  module _ {E : Type 0} (crc : Checksum) (sha : List ℕ → List ℕ) where
    -- The transfer over the spool's final content.
    unfoldable pub transfer :
        (spool_path : List ℕ)
        → (symbol_size : ℕ) → SenderConfig
        → (filename : List ℕ) → Metadata
        → Snapshot
        → (tag : ℕ) → Task (NativeTransfer E)
    transfer spool_path symbol_size config filename initial s tag = do
      compressed_size ← size_of disk spool_path
      let count = div_ceil compressed_size segment_raw_bytes
      reject_when (count == 0 || ltb max_segment_count count)
          "compressed file exceeds AirFerry's segment-count limit"
      encoded_file ← open_all disk spool_path
      stream ← lift (all_of disk encoded_file spool_path)
      modified ← lift (map_err io initial.modified)
      let root_id =
          derive filename s.size (millis modified) (fingerprint sha s.bytes tag symbol_size stream)
      done (record {
        filename = filename;
        original_size = s.size;
        compressed_size = compressed_size;
        compression = name_of tag;
        crc32 = crc.digest s.bytes;
        session_id = to_hex (to_be 16 root_id);
        segment_count = count;
        spool_path = spool_path;
        root_id = root_id;
        root_sha256 = sha s.bytes;
        compression_tag = tag;
        config = config;
        segmented = ltb segment_raw_bytes compressed_size || ltb max_original_bytes s.size;
        current = none;
      })

module _ (disk : Disk) (words : Error → String) (codec_words : CodecErrors.Error → String) where
  -- The tests before anything is written: the configuration, the name and the metadata of the input.
  unfoldable pub checked_input :
      (input_path spool_path mode : List ℕ)
      → (symbol_size redundancy_pct : ℕ) → (first : Result String Metadata)
      → Task (SenderConfig × List ℕ × Metadata)
  checked_input input_path spool_path mode symbol_size redundancy_pct first = do
    reject_when (not (is_mode mode)) "compression must be 'auto', 'none', 'zstd', or 'xz'"
    reject_when (ltb max_qr_symbol_bytes symbol_size)
        "symbol_size must be 8-byte aligned and between 64 and 2888"
    config ← lift (configured words codec_words symbol_size redundancy_pct)
    filename ← lift (input_name disk input_path)
    reject_when (ltb 255 (length filename)) "input filename must be at most 255 UTF-8 bytes"
    source ← open_all disk input_path
    initial ← lift (metadata_of first)
    reject_when (not initial.is_file) "input must be a regular file"
    reject_when (initial.size == 0) "empty files cannot be sent by AirFerry"
    same ← lift (same_file disk input_path spool_path)
    reject_when same "input_path and spool_path must differ"
    done (config, filename, initial)

  module _ {E : Type 0} (crc : Checksum) (sha : List ℕ → List ℕ) where
    unfoldable pub prepare :
        (input_path spool_path mode : List ℕ)
        → (symbol_size redundancy_pct : ℕ) → (first last : Result String Metadata)
        → List (Result String (List ℕ))
        → Task (NativeTransfer E)
    prepare input_path spool_path mode symbol_size redundancy_pct first last answers = do
      (config, filename, initial) ←
          checked_input input_path spool_path mode symbol_size redundancy_pct first
      s ← snapshot_of disk spool_path answers initial last
      tag ← compress_spool disk mode spool_path (tag_of mode) s.size
      transfer disk crc sha spool_path symbol_size config filename initial s tag
