-- ===== src/Bindings/Tests/Preparing.antt =====
-- A transfer that the Python binding prepares, and its segment.
use air_ferry.Prelude.{
  ℕ, ◌≡◌, inr, refl, true, false, List, [], ◌∷◌, take, none, some, Result, ok, is_err, String,
  if◌then◌else◌, arith,
}
use air_ferry.Bytes.{bytes_eq}
use air_ferry.Protocol.Stream.{Files, put_file}
use air_ferry.Protocol.Tests.{sum_checksum}
use air_ferry.Codec.Errors as CodecErrors
use air_ferry.Codec.Tests.{same_packets}
use air_ferry.Codec.Config
use air_ferry.Codec.Meta
use air_ferry.Codec.Encoder
use air_ferry.Protocol.Chunker.{pad_to_symbols}
use air_ferry.Engine.Sender
use air_ferry.Engine.Descriptor
use air_ferry.Engine.Descriptor.Parse
use air_ferry.Engine.Utf8
use air_ferry.Bindings.Python
use air_ferry.Bindings.Python.Tasks
use air_ferry.Engine.Sender.{validate}
use air_ferry.Engine.Errors.{Error}
use air_ferry.Bindings.Tests.Recovering.{one_byte}
use air_ferry.Bindings.Python.{NativeTransfer, start_segment_impl}
use air_ferry.Bindings.Python.Tasks.{Disk, Metadata, since, followed, content, all_of}
use air_ferry.Bindings.Python.Outcomes.{Ends}
use air_ferry.Bindings.Python.Snapshots.{Keeps, joined}
use air_ferry.Bindings.Python.Spool.{
  encoder, take_snapshot, create_new, copy_loop, go_on, take_chunk, spooled, is_unchanged,
  same_time, compress_spool, open_all, encoded, keep, replace, remove, rename, size_of,
}
use air_ferry.Bindings.Python.Prepare.{
  prepare, xz_mode, tag_of, checked_input, is_mode, configured, input_name, metadata_of, same_file,
  resolved_spool, spool_folder, both_resolve, snapshot_of, transfer as prepared_transfer,
}
use air_ferry.Bindings.Python.Stored.{IsEncoding}
use air_ferry.Bindings.Python.Prepared.{Prepared, prepare-Prepared}
use air_ferry.Bindings.Python.Segments.{read_segments, segments-join}

-- A compressor that keeps the first two bytes.
abbrev disk : Disk
disk = record {
  file_name = λ path. some path;
  to_str = λ name. some name;
  parent = λ path. none;
  join = λ folder name. name;
  canonicalize = λ path. ok path;
  open_fails = λ path. none;
  read_fails = λ path. none;
  create_fails = λ path. none;
  write_fails = λ written chunk. none;
  flush_fails = λ bytes. none;
  metadata_fails = λ path. none;
  remove_fails = λ path. none;
  rename_fails = λ from to. none;
  zstd_encoder = λ bytes. (take 2 bytes, ok tt);
  xz_encoder = λ bytes. (take 2 bytes, ok tt);
}

abbrev input : List ℕ
input = b'a' ∷ []

abbrev spool : List ℕ
spool = b's' ∷ []

abbrev files : Files
files path = if bytes_eq path input then some (5 ∷ 6 ∷ 7 ∷ []) else none

abbrev answers : List (Result String (List ℕ))
answers = ok (5 ∷ 6 ∷ []) ∷ ok (7 ∷ []) ∷ ok [] ∷ []

abbrev described : Result String Metadata
described = ok (record { is_file = true; size = 3; modified = ok (since 9000000) })

abbrev words : Error → String
words e = "engine"

abbrev codec_words : CodecErrors.Error → String
codec_words e = "codec"

prepare-Prepared_example :
    Ends (Keeps files) (Prepared (List ℕ) disk sum_checksum one_byte xz_mode spool answers files) (
      prepare disk words codec_words sum_checksum one_byte input spool xz_mode 128 25 described
        described answers files)
prepare-Prepared_example =
    prepare-Prepared (List ℕ) disk sum_checksum one_byte xz_mode spool answers words codec_words
      input 128 25 described described files

prepared_run :
    is_err
      (prepare disk words codec_words {E = List ℕ} sum_checksum one_byte input spool xz_mode 128 25
        described described answers files).1
    ≡ false
unfolding prepare followed content all_of bytes_eq tag_of encoder checked_input is_mode configured
    input_name metadata_of same_file resolved_spool spool_folder both_resolve snapshot_of
    take_snapshot create_new copy_loop go_on take_chunk spooled is_unchanged same_time
    compress_spool open_all encoded keep replace remove rename size_of prepared_transfer validate
    Config.new
prepared_run = refl

-- What it ends in.
abbrev transfer : NativeTransfer (List ℕ)
transfer = record {
  filename = input;
  original_size = 3;
  compressed_size = 2;
  compression = xz_mode;
  crc32 = 18;
  session_id = [];
  segment_count = 1;
  spool_path = spool;
  root_id = 77;
  root_sha256 = 18 ∷ [];
  compression_tag = 2;
  config = record { codec = record { symbol_size = 128 }; redundancy_pct = 25 };
  segmented = false;
  current = none;
}

abbrev after : Files
after = put_file files spool (some (5 ∷ 6 ∷ []))

prepared : Prepared (List ℕ) disk sum_checksum one_byte xz_mode spool answers files after transfer
unfolding bytes_eq joined IsEncoding encoder tag_of
prepared = record {
  new = refl;
  elsewhere = λ q other. rw other refl;
  stream = 5 ∷ 6 ∷ [];
  file = refl;
  encoding = inr (refl, refl);
  path = refl;
  compressed_size = refl;
  original_size = refl;
  filled = omega arith;
  crc32 = refl;
  root_sha256 = refl;
  name = omega arith;
  segment_count = refl;
  segments = (omega arith, omega arith);
}

segments-join_example : read_segments disk after transfer 1 0 ≡ ok (5 ∷ 6 ∷ [])
unfolding prepared
segments-join_example =
    segments-join disk sum_checksum one_byte xz_mode spool answers files after transfer prepared
      refl refl

-- The segment can be started.
segment_started :
    is_err (start_segment_impl disk sum_checksum one_byte same_packets words after transfer 0).1
    ≡ false
unfolding start_segment_impl Python.started Python.segment_sender Python.segment_payload
    Tasks.read_range Tasks.exact content bytes_eq Python.open_sender Sender.new Sender.new_inner
    validate Encoder.new pad_to_symbols Config.new Config.mtu Descriptor.build_payload_inner
    Meta.from_encoder Python.descriptor Encoder.cache Meta.sum_symbols Meta.table Meta.total_symbols
    Parse.parse_payload Parse.read_blocks Parse.read_file Parse.read_segment Parse.read_v2
    Parse.read_v3 Descriptor.body_len Descriptor.build_payload Descriptor.filename_len
    Descriptor.write_blocks Descriptor.write_file Descriptor.write_head Descriptor.write_segment
    Sender.build_source_plan Sender.fresh Sender.max_k Sender.plan_row Sender.plan_rows
    Utf8.cut_at_char Utf8.is_char_boundary Utf8.is_utf8 Utf8.lead Utf8.next Utf8.scan
segment_started = refl
