-- ===== src/Lib.antt =====
-- AirFerry sends a file through a stream of QR codes. The models cover the Rust core of the repository:
-- core/qr-protocol (wire frames, QR matrices, compressed files), core/raptorq-core (the fountain codec around
-- the crate `raptorq`) and core/transfer-engine (descriptors, sender, receiver, the assembler of large
-- transfers, and the bindings by which the applications call them).
--
-- How the parts interact. The sender (Engine.Sender) pads a payload to symbols (Protocol.Chunker), makes an
-- encoder (Codec.Encoder) whose metadata (Codec.Meta) it announces in descriptor frames
-- (Engine.Descriptor), and emits data frames: each source symbol once, then repair symbols with ids of their
-- own. A frame (Protocol.Frame) has a header, a payload and two checksums. The receiver (Engine.Receiver)
-- caches data frames until a descriptor that passes the gate (Codec.Meta.validate) makes a decoder
-- (Codec.Decoder); then it replays the cache and feeds the decoder, and at last trims and decompresses the
-- object (Protocol.Compress). A large transfer is a series of such objects, the segments (Engine.Segment),
-- which the assembler (Engine.Assembler) collects and joins. The hosts reach the receiver through a C ABI
-- (Bindings.Capi), Android's binding (Bindings.Jni) or the browser's (Bindings.Wasm), which also has the
-- sender and draws its frames as QR codes (Protocol.QrRender). The Python binding (Bindings.Python) sends a
-- large file from a compressed copy on disk, segment by segment; a host that has collected a large transfer
-- in a file has it decompressed into another (Protocol.Stream).
--
-- Files and sources (paths from the repository's root):
--   Protocol.Frame, Frame.Laws      core/qr-protocol/src/frame.rs
--   Protocol.Session                core/qr-protocol/src/session.rs
--   Protocol.Chunker                core/qr-protocol/src/chunker.rs
--   Protocol.Compress               core/qr-protocol/src/compress.rs (decompress_with_limit)
--   Protocol.Compress.Whole         core/qr-protocol/src/compress.rs (compress_with, decompress_with)
--   Protocol.Stream                 core/qr-protocol/src/compress.rs (decompress_stream_to_file)
--   Protocol.QrRender               core/qr-protocol/src/qr_render.rs
--   Codec.Config, Symbol, Meta      core/raptorq-core/src/config.rs, symbol.rs, meta.rs
--   Codec.Decoder, Encoder          core/raptorq-core/src/decoder.rs, encoder.rs
--   Engine.FileMeta, Descriptor     core/transfer-engine/src/descriptor.rs
--   Engine.Segment, Assembler       core/transfer-engine/src/segment.rs, assembler.rs
--   Engine.Sender                   core/transfer-engine/src/sender.rs
--   Engine.Receiver (Replay,        core/transfer-engine/src/receiver.rs (apply_meta, ingest,
--     Ingest, Finish)                 assemble_result)
--   Engine.Receiver.Resume          core/transfer-engine/src/resume.rs (validate), receiver.rs (save_state,
--                                     restore)
--   Engine.Stats, Progress          core/transfer-engine/src/progress.rs
--   Engine.IngestStatus             core/transfer-engine/src/ingest_status.rs
--   Bindings.Capi, Capi.Calls       core/transfer-engine/src/cffi.rs
--   Bindings.Jni, Jni.Calls         core/transfer-engine/src/jni.rs (receiverIngest is receiver_ingest, and so on)
--   Bindings.Wasm.Receiver          core/transfer-engine/src/wasm.rs (ReceiverSessionWasm)
--   Bindings.Wasm.Sender, Sender.Qr core/transfer-engine/src/wasm.rs (SenderSessionWasm, encode_qr)
--   Bindings.Python (Prepare,       apps/python/src/lib.rs (prepare, start_segment_impl)
--     Spool, Tasks)
-- Functions keep their names. Where one function of the code is long, its parts are helpers that it calls
-- (check_oti, check_sizes, check_blocks and check_totals of `validate`; ingest_descriptor, buffer and
-- ingest_symbol of `ingest`). The modules below these hold the proofs, and the modules called Tests the
-- runs on small inputs.
--
-- State and errors. A method with `&mut self` returns the state that it leaves; where it can fail after a
-- change, it returns the state and a result side by side (`next_frame`, `ingest`, `apply_meta`). The model's
-- callers go on after an error, as the hosts do. Words keep their wrap-around, `checked_add` and its kin
-- return an option. The clock's readings are arguments. A string is the list of its UTF-8 bytes; what the
-- code takes of the standard library's strings is defined in Engine.Utf8 (from_utf8, is_char_boundary) and
-- Engine.Utf8.Lossy (from_utf8_lossy). A hash
-- set is a list without repetitions; a hash map is a list of entries, and the order in which the replay
-- visits them is a parameter, about which nothing is assumed. The memory that the bindings share with
-- their hosts (Bindings.Memory) is a table of slots for receivers and one for buffers; a handle or an
-- address is a place in it, 0 is null, and a call on a dead one has no result. A variable or buffer of the
-- host is an option, `none` for a null pointer, and what the call leaves in it is a result. Files are a
-- function from paths to contents; work on them that can fail at any step is a Task, which gives the files it
-- leaves also where it fails.
--
-- Parameters. Code of other crates is a parameter: CRC-32 and SHA-256, the zstd and xz readers, and
-- `raptorq` by its OTI fields, its block decoder and its block encoder (Codec.Raptorq), the generator of
-- QR codes, the operating system's and the streaming readers' answers (Protocol.Stream.Host), those of the
-- Java machine (Bindings.Jni.Env) and of the disk with its compressors (Bindings.Python.Tasks.Disk), and the
-- words of error messages. Contracts of these are hypotheses where they are needed: a block decoder that is
-- started for a whole number of symbols returns whole blocks (IsSizing; of other lengths, which the crate
-- pads, it says nothing), as many repair packets come as are asked for (IsPacketing), and a reader returns
-- the bytes of its stream in order, no more than it is asked for and none only at the end (IsReader).
--
-- Bounds. Loops are structural recursion on the list or the number that they run over. The one loop with
-- fuel copies a stream (Protocol.Stream.decode): each round reads a byte at least or ends, and its fuel is
-- one more than the number of bytes that may be read.
-- An index out of range, where the code would panic, is excluded by the guards before it; the model's
-- reading of such an index is a default that the guards make unreachable.
--
-- Not modelled: the JSON of checkpoints, progress and statistics, logs, the deprecated derive_meta_from_totals,
-- rates in floating point, numbers printed in error messages, the vendored fast_qr, and
-- the applications, which marshal and draw.
pub mod Prelude
pub mod Bytes
pub mod Protocol
pub mod Codec
pub mod Engine
pub mod Bindings
