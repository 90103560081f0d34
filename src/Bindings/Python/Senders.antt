-- ===== src/Bindings/Python/Senders.antt =====
-- The sender of a segment (`start_segment_impl` of apps/python/src/lib.rs).
use air_ferry.Prelude.{
  ℕ, ◌+◌, ◌-◌, ◌*◌, ◌≤◌, ◌<◌, ◌≡◌, ◌⊎◌, sym, ap, min, true, false, List, length, take, drop, none,
  some, Result, ok, err, String,
}
use air_ferry.Protocol.Checksum.{Checksum}
use air_ferry.Protocol.Session.{derive_segment}
use air_ferry.Protocol.Stream.{Files}
use air_ferry.Codec.Raptorq.{BlockEncoding}
use air_ferry.Engine.Errors.{Error}
use air_ferry.Engine.FileMeta.{FileMeta}
use air_ferry.Engine.Descriptor.{DescriptorInfo}
use air_ferry.Engine.Descriptor.Parse.{parse_payload}
use air_ferry.Engine.Segment.{SegmentMeta, segment_raw_bytes}
use air_ferry.Engine.Sender.{SenderSession}
use air_ferry.Engine.Sender.Made.{IsNew}
use air_ferry.Bindings.Python.Tasks.{NativeError, Disk}
use air_ferry.Bindings.Python.{NativeTransfer, segment_len, descriptor, file_meta}

-- `payload` is the part of the spool that starts at `index` full segments, as long as a full segment or as
-- what the transfer has left.
pub record IsPayload {E : Type 0} (files : Files) (t : NativeTransfer E) (index : ℕ)
    (payload : List ℕ) : Type 0 where
  pub stream : List ℕ
  pub file : files t.spool_path ≡ some stream
  pub slice : payload ≡ take (length payload) (drop (index * segment_raw_bytes) stream)
  pub size : length payload ≡ min (t.compressed_size - index * segment_raw_bytes) segment_raw_bytes
  pub inside : index * segment_raw_bytes + length payload ≤ length stream

-- What a segment's sender announces of the file and of the segment.
abbrev pub sent_file : {E : Type 0} → NativeTransfer E → List ℕ → FileMeta
sent_file t payload = record {
  filename = t.filename;
  original_size = t.original_size;
  crc32 = t.crc32;
  compression = t.compression_tag;
  compressed_size = length payload;
  compressed_size_known = true;
  crc32_known = true;
}

abbrev pub sent_segment :
    {E : Type 0} → (sha : List ℕ → List ℕ) → NativeTransfer E → ℕ → List ℕ → SegmentMeta
sent_segment sha t index payload = record {
  root_session_id = t.root_id;
  segment_index = index;
  segment_count = t.segment_count;
  original_offset = index * segment_raw_bytes;
  root_original_size = t.compressed_size;
  root_sha256 = t.root_sha256;
  raw_sha256 = sha payload;
}

module _ {E : Type 0} (disk : Disk) (crc : Checksum) (sha : List ℕ → List ℕ) (rq : BlockEncoding E)
    (words : Error → String) where
  -- A sender of the payload: under the root's id where the transfer is one segment, and otherwise under the
  -- id derived for the segment, with the segment's coordinates and the payload's hash.
  pub IsSenderOf : NativeTransfer E → ℕ → List ℕ → SenderSession E → Type 0
  IsSenderOf t index payload s =
      ((t.segmented ≡ false) × IsNew crc rq payload t.root_id t.config (sent_file t payload) none s)
      ⊎ ((t.segmented ≡ true)
          × IsNew crc rq payload (derive_segment t.root_id index) t.config (sent_file t payload)
              (some (sent_segment sha t index payload)) s)

  -- A call that succeeds has read the payload and made a sender of it, whose descriptor is parsed to the
  -- whole file name. A call that fails leaves the transfer as it was, or without a segment.
  pub Started : Files → NativeTransfer E → ℕ → NativeTransfer E × Result NativeError ℕ → Type 0
  Started files t index (after, err e) = (after ≡ t) ⊎ (after ≡ record t { current = none })
  Started files t index (after, ok k) =
      (index < t.segment_count)
      × (payload : List ℕ) × IsPayload files t index payload
      × (s : SenderSession E) × IsSenderOf t index payload s
      × (after ≡ record t { current = some s })
      × (k ≡ s.total_k)
      × (announced : List ℕ) × (descriptor s ≡ ok announced)
      × (info : DescriptorInfo) × (parse_payload announced ≡ some info)
      × (info.file_meta.filename ≡ t.filename)

  same_file :
      (t : NativeTransfer E) (index : ℕ) (payload : List ℕ)
      → length payload ≡ segment_len t index
      → file_meta t index ≡ sent_file t payload
  same_file t index payload size =
      ap (λ (n : ℕ). record (file_meta t index) { compressed_size = n }) (sym size)
