-- ===== src/Bindings/Python/Prepared.antt =====
-- What `NativeTransfer::prepare` leaves behind (apps/python/src/lib.rs).
use air_ferry.Prelude.{
  ℕ, ◌≤◌, ◌<◌, ◌≡◌, refl, sym, ap, subst, ◌∙◌, not, ltb, ◌==◌, List, length, none, some, some_inj,
  Result, String, arith,
}
use air_ferry.Protocol.Checksum.{Checksum}
use air_ferry.Protocol.Stream.{Files}
use air_ferry.Codec.Errors as CodecErrors
use air_ferry.Engine.Errors.{Error}
use air_ferry.Engine.Segment.{segment_raw_bytes, max_segment_count}
use air_ferry.Engine.Receiver.{div_ceil}
use air_ferry.Engine.Sender.{SenderConfig}
use air_ferry.Bindings.Python.Tasks.{Metadata, Disk, all_of}
use air_ferry.Bindings.Python.Outcomes.{Ends, >>=-Ends, lift-Ends, reject_when-Ends}
use air_ferry.Bindings.Python.Steps.{size_of-Ends, open_all-Ends}
use air_ferry.Bindings.Python.Spool.{Snapshot, compress_spool}
use air_ferry.Bindings.Python.Prepare.{
  snapshot_of, checked_input, transfer, prepare, tag_of, configured, max_qr_symbol_bytes, is_mode,
  input_name, metadata_of, same_file,
}
use air_ferry.Bindings.Python.Snapshots.{
  joined, Keeps, SpoolOnly, SpoolOnly-Keeps, Whole, snapshot_of-Ends,
}
use air_ferry.Bindings.Python.Stored.{IsEncoding, Stored, compress_spool-Ends}
use air_ferry.Bindings.Python.{NativeTransfer}

module _ (disk : Disk) (words : Error → String) (codec_words : CodecErrors.Error → String) where
  -- The tests of the input change no file.
  Checked : Files → (symbol_size : ℕ) → Files → SenderConfig × List ℕ × Metadata → Type 0
  Checked files symbol_size after (config, filename, initial) =
      (after ≡ files)
      × (length filename ≤ 255)
      × (0 < initial.size)
      × (symbol_size ≤ max_qr_symbol_bytes)

  checked_input-Ends :
      (input spool mode : List ℕ) (symbol_size redundancy_pct : ℕ) (first : Result String Metadata)
      (files : Files)
      → Ends (Keeps files) (Checked files symbol_size) (
          checked_input disk words codec_words input spool mode symbol_size redundancy_pct first
            files)
  unfolding checked_input Checked
  checked_input-Ends input spool mode symbol_size redundancy_pct first files =
      let K = Keeps files in
      let C = Checked files symbol_size in
      let kept : Keeps files files = λ q old h. h in
      reject_when-Ends K C (not (is_mode mode)) _ _ files kept λ known.
        reject_when-Ends K C (ltb max_qr_symbol_bytes symbol_size) _ _ files kept λ small.
          lift-Ends K C (configured words codec_words symbol_size redundancy_pct) _ files kept
            λ config configured_as.
              lift-Ends K C (input_name disk input) _ files kept λ filename named.
                reject_when-Ends K C (ltb 255 (length filename)) _ _ files kept λ short.
                  open_all-Ends K C disk input _ files kept λ source there.
                    lift-Ends K C (metadata_of first) _ files kept λ initial known_as.
                      reject_when-Ends K C (not initial.is_file) _ _ files kept λ regular.
                        reject_when-Ends K C (initial.size == 0) _ _ files kept λ filled.
                          lift-Ends K C (same_file disk input spool) _ files kept λ same told.
                            reject_when-Ends K C same _ _ files kept λ apart. (
                              refl,
                              ground (arith, short),
                              ground (arith, filled),
                              ground (arith, small),
                            )

module _ (E : Type 0) (disk : Disk) (crc : Checksum) (sha : List ℕ → List ℕ) (mode spool : List ℕ)
    (answers : List (Result String (List ℕ))) where
  -- A prepared transfer and the files around it: the spool is new and no other file has changed; it holds the bytes
  -- that were read from the input, or their compression, and the transfer describes both.
  pub record Prepared (files after : Files) (t : NativeTransfer E) : Type 0 where
    pub new : files spool ≡ none
    pub elsewhere : SpoolOnly files spool after
    pub stream : List ℕ
    pub file : after spool ≡ some stream
    pub encoding : IsEncoding disk spool (tag_of mode) (joined answers) t.compression_tag stream
    pub path : t.spool_path ≡ spool
    pub compressed_size : t.compressed_size ≡ length stream
    pub original_size : t.original_size ≡ length (joined answers)
    pub filled : 0 < t.original_size
    pub crc32 : t.crc32 ≡ crc.digest (joined answers)
    pub root_sha256 : t.root_sha256 ≡ sha (joined answers)
    pub name : length t.filename ≤ 255
    pub segment_count : t.segment_count ≡ div_ceil t.compressed_size segment_raw_bytes
    pub segments : (0 < t.segment_count) × (t.segment_count ≤ max_segment_count)

  transfer-Ends :
      (files between after : Files) (symbol_size : ℕ) (config : SenderConfig) (filename : List ℕ)
      (initial : Metadata) (s : Snapshot) (tag : ℕ)
      → length filename ≤ 255
      → 0 < initial.size
      → Whole disk spool answers files initial between s
      → Stored disk spool (tag_of mode) s.bytes between after tag
      → Ends
          (Keeps files)
          (Prepared files)
          (transfer disk crc sha spool symbol_size config filename initial s tag after)
  unfolding transfer Whole
  transfer-Ends files between after symbol_size config filename initial s tag short filled
        (snapped, whole) stored =
      let K = Keeps files in
      let only : SpoolOnly files spool after =
        λ q other. stored.elsewhere q other ∙ snapped.elsewhere q other in
      let kept : Keeps files after = SpoolOnly-Keeps files after spool snapped.new only in
      size_of-Ends K (Prepared files) disk spool _ after kept λ stream there.
        reject_when-Ends K (Prepared files) _ _ _ after kept λ counted.
          open_all-Ends K (Prepared files) disk spool _ after kept λ encoded_file again.
            lift-Ends K (Prepared files) (all_of disk encoded_file spool) _ after kept λ read told.
              lift-Ends K (Prepared files) _ _ after kept λ modified dated.
                let same_stream : stored.stream ≡ stream = some_inj (sym stored.file ∙ there) in
                record {
                  new = snapped.new;
                  elsewhere = only;
                  stream = stream;
                  file = there;
                  encoding =
                      subst (λ (xs : List ℕ). IsEncoding disk spool (tag_of mode) xs tag stream)
                        snapped.bytes
                        (subst (IsEncoding disk spool (tag_of mode) s.bytes tag) same_stream
                          stored.encoding);
                  path = refl;
                  compressed_size = refl;
                  original_size = snapped.size ∙ ap length snapped.bytes;
                  filled = omega (arith, whole, filled);
                  crc32 = ap crc.digest snapped.bytes;
                  root_sha256 = ap sha snapped.bytes;
                  name = short;
                  segment_count = refl;
                  segments = ground (arith, counted);
                }

  module _ (words : Error → String) (codec_words : CodecErrors.Error → String) where
    -- A call that succeeds leaves a new spool, which holds the bytes that were read from the input or their
    -- compression, and no other file is changed; the transfer has the sizes and checksums of both, a
    -- name of at most 255 bytes and between 1 and 131072 segments. A call that fails changes no file that was
    -- there before it.
    pub prepare-Prepared :
        (input : List ℕ) (symbol_size redundancy_pct : ℕ) (first last : Result String Metadata)
        (files : Files)
        → Ends (Keeps files) (Prepared files) (
            prepare disk words codec_words crc sha input spool mode symbol_size redundancy_pct first
              last answers files)
    unfolding prepare Checked Whole
    prepare-Prepared input symbol_size redundancy_pct first last files =
        >>=-Ends (Keeps files) (Prepared files) (Checked disk words codec_words files symbol_size)
          (checked_input disk words codec_words input spool mode symbol_size redundancy_pct first) _
          files
          (checked_input-Ends disk words codec_words input spool mode symbol_size redundancy_pct
            first files)
          λ between (config, filename, initial) (same, short, filled, small).
            >>=-Ends (Keeps files) (Prepared files) (Whole disk spool answers files initial)
              (snapshot_of disk spool answers initial last) _ between
              (rw same (snapshot_of-Ends disk spool answers files initial last))
              λ mid s (snapped, whole).
                >>=-Ends (Keeps files) (Prepared files)
                  (Stored disk spool (tag_of mode) s.bytes mid)
                  (compress_spool disk mode spool (tag_of mode) s.size) _ mid
                  (compress_spool-Ends disk spool (tag_of mode) s.bytes files mid snapped.new
                    snapped.elsewhere mode s.size snapped.file)
                  λ after tag stored.
                    transfer-Ends files mid after symbol_size config filename initial s tag short
                      filled (snapped, whole) stored
