-- ===== src/Engine/Descriptor/Blocks.antt =====
-- The parts of a descriptor, written and read (core/transfer-engine/src/descriptor.rs).
use air_ferry.Prelude.{
  ℕ, ◌+◌, ◌*◌, ◌^◌, ◌≤◌, ◌<◌, ◌≡◌, refl, ap, ◌∙◌, true, List, [], ◌∷◌, ◌++◌, length, take, drop,
  Option, none, some, length-append, length-take, append_assoc, arith, ltb, false,
}
use air_ferry.Bytes.{to_be, be_at, from_be-to_be, take-append, drop-append}
use air_ferry.Codec.Meta.{SourceBlockMeta}
use air_ferry.Engine.FileMeta.{FileMeta}
use air_ferry.Engine.Segment.{SegmentMeta}
use air_ferry.Engine.Utf8.{is_utf8}
use air_ferry.Engine.Descriptor.{write_blocks, write_segment, write_file, version_of}
use air_ferry.Engine.Descriptor.Parse.{read_blocks, read_v3, read_v2, read_file, read_segment}

-- The fields fit their Rust types.
abbrev pub BlocksAreWords : List SourceBlockMeta → Type 0
BlocksAreWords [] = Unit {0}
BlocksAreWords (b ∷ bs) =
    (b.sbn < 2 ^ 32)
    × (b.num_source_symbols < 2 ^ 32)
    × (b.block_length < 2 ^ 64)
    × BlocksAreWords bs

pub record FileIsWords (fm : FileMeta) : Type 0 where
  pub text : is_utf8 fm.filename ≡ true
  pub original_size : fm.original_size < 2 ^ 64
  pub crc32 : fm.crc32 < 2 ^ 32
  pub compressed_size : fm.compressed_size < 2 ^ 64

pub record SegmentIsWords (s : SegmentMeta) : Type 0 where
  pub root_session_id : s.root_session_id < 2 ^ 128
  pub segment_index : s.segment_index < 2 ^ 32
  pub segment_count : s.segment_count < 2 ^ 32
  pub original_offset : s.original_offset < 2 ^ 64
  pub root_original_size : s.root_original_size < 2 ^ 64
  pub root_sha256 : length s.root_sha256 ≡ 32
  pub raw_sha256 : length s.raw_sha256 ≡ 32

abbrev pub OptionIsWords : Option SegmentMeta → Type 0
OptionIsWords none = Unit {0}
OptionIsWords (some s) = SegmentIsWords s

pub read_blocks-write_blocks :
    (bs : List SourceBlockMeta) (t : List ℕ)
    → BlocksAreWords bs
    → read_blocks (length bs) (write_blocks bs ++ t) ≡ bs
unfolding read_blocks write_blocks
read_blocks-write_blocks [] t w = refl
read_blocks-write_blocks (b ∷ bs) t w = λ i.
    record {
      sbn = from_be-to_be 4 b.sbn w.0 i;
      num_source_symbols = from_be-to_be 4 b.num_source_symbols w.1 i;
      block_length = from_be-to_be 8 b.block_length w.2 i;
    }
    ∷ read_blocks-write_blocks bs t w.3 i

pub length-write_blocks : (bs : List SourceBlockMeta) → length (write_blocks bs) ≡ length bs * 16
unfolding write_blocks
length-write_blocks [] = omega arith
length-write_blocks (b ∷ bs) = omega (arith, length-write_blocks bs)

-- The file's fields as the reader gives them back: the name cut to the `n` bytes that were sent, and the
-- two flags, which have no place on the wire, set to known.
abbrev pub as_parsed : FileMeta → ℕ → FileMeta
as_parsed fm n = record fm {
  filename = take n fm.filename;
  compressed_size_known = true;
  crc32_known = true;
}

read_v3-write :
    (version : ℕ) (fm : FileMeta) (n : ℕ) (t : List ℕ)
    → 3 ≤ version
    → fm.compressed_size < 2 ^ 64
    → read_v3 version
        (take n fm.filename)
        fm.original_size
        fm.crc32
        ((fm.compression ∷ to_be 8 fm.compressed_size) ++ t)
      ≡ some (as_parsed fm n, t)
unfolding read_v3
read_v3-write version fm n t v w = ground (arith, from_be-to_be 8 fm.compressed_size w)

read_v2_step :
    (version k : ℕ) (rest : List ℕ)
    → k + 12 ≤ length rest
    → is_utf8 (take k rest) ≡ true
    → read_v2 version (k ∷ rest)
      ≡ read_v3 version
          (take k rest)
          (be_at (drop k rest) 0 8)
          (be_at (drop k rest) 8 4)
          (drop 12 (drop k rest))
unfolding read_v2
read_v2_step version k rest long text = ground arith

abbrev numbers : FileMeta → List ℕ
numbers fm =
    to_be 8 fm.original_size ++ (to_be 4 fm.crc32 ++ (fm.compression ∷ to_be 8 fm.compressed_size))

read_numbers :
    (version : ℕ) (fm : FileMeta) (n : ℕ) (name rest t : List ℕ)
    → 3 ≤ version
    → FileIsWords fm
    → name ≡ take n fm.filename
    → rest ≡ numbers fm ++ t
    → read_v3 version name (be_at rest 0 8) (be_at rest 8 4) (drop 12 rest)
      ≡ some (as_parsed fm n, t)
read_numbers version fm n name rest t v w e f =
    (λ i. read_v3 version (e i) (be_at (f i) 0 8) (be_at (f i) 8 4) (drop 12 (f i)))
    ∙ (λ i.
        read_v3 version (take n fm.filename) (from_be-to_be 8 fm.original_size w.original_size i)
          (from_be-to_be 4 fm.crc32 w.crc32 i) ((fm.compression ∷ to_be 8 fm.compressed_size) ++ t))
    ∙ read_v3-write version fm n t v w.compressed_size

pub read_file-write_file :
    (version : ℕ) (fm : FileMeta) (n : ℕ) (t : List ℕ)
    → 3 ≤ version
    → n < 256
    → n ≤ length fm.filename
    → is_utf8 (take n fm.filename) ≡ true
    → FileIsWords fm
    → read_file version (write_file fm n ++ t) ≡ some (as_parsed fm n, t)
unfolding read_file write_file
read_file-write_file version fm n t v small inside text w =
    let name = take n fm.filename in
    let rest : List ℕ = (name ++ numbers fm) ++ t in
    let apart : rest ≡ name ++ (numbers fm ++ t) = append_assoc name (numbers fm) t in
    let size : length name ≡ n = omega (arith, length-take n fm.filename) in
    let front : take n rest ≡ name =
      ap (take n) apart ∙ take-append n name (numbers fm ++ t) size in
    let back : drop n rest ≡ numbers fm ++ t =
      ap (drop n) apart ∙ drop-append n name (numbers fm ++ t) size in
    let long : n + 12 ≤ length rest =
      omega (arith, ap length apart, length-append name (numbers fm ++ t), size) in
    ground (
      arith,
      read_v2_step version n rest long (rw front text),
      read_numbers version fm n (take n rest) (drop n rest) t v w front back,
    )

long_enough : (n : ℕ) → 104 ≤ n → ltb n 104 ≡ false
long_enough n h = ground arith

read_segment_step :
    (rest : List ℕ)
    → 104 ≤ length rest
    → read_segment 5 rest
      ≡ some (
          some (record {
            root_session_id = be_at rest 0 16;
            segment_index = be_at rest 16 4;
            segment_count = be_at rest 20 4;
            original_offset = be_at rest 24 8;
            root_original_size = be_at rest 32 8;
            root_sha256 = take 32 (drop 40 rest);
            raw_sha256 = take 32 (drop 72 rest);
          }))
unfolding read_segment
read_segment_step rest long = rw (long_enough (length rest) long)

pub read_segment-write_segment :
    (s : Option SegmentMeta) (t : List ℕ)
    → OptionIsWords s
    → read_segment (version_of s) (write_segment s ++ t) ≡ some s
unfolding write_segment
read_segment-write_segment none t w = unfold read_segment in refl
read_segment-write_segment (some s) t w =
    let hashes : List ℕ = (s.root_sha256 ++ s.raw_sha256) ++ t in
    let apart : hashes ≡ s.root_sha256 ++ (s.raw_sha256 ++ t) =
      append_assoc s.root_sha256 s.raw_sha256 t in
    let root : take 32 hashes ≡ s.root_sha256 =
      ap (take 32) apart ∙ take-append 32 s.root_sha256 (s.raw_sha256 ++ t) w.root_sha256 in
    let raw : take 32 (drop 32 hashes) ≡ s.raw_sha256 =
      ap (λ (l : List ℕ). take 32 (drop 32 l)) apart
      ∙ ap (take 32) (drop-append 32 s.root_sha256 (s.raw_sha256 ++ t) w.root_sha256)
      ∙ take-append 32 s.raw_sha256 t w.raw_sha256 in
    let long : 64 ≤ length hashes = omega (
      arith,
      length-append (s.root_sha256 ++ s.raw_sha256) t,
      length-append s.root_sha256 s.raw_sha256,
      w.root_sha256,
      w.raw_sha256,
    ) in
    read_segment_step (write_segment (some s) ++ t) (omega (arith, long)) ∙ (λ i. some (
      some (record {
        root_session_id = from_be-to_be 16 s.root_session_id w.root_session_id i;
        segment_index = from_be-to_be 4 s.segment_index w.segment_index i;
        segment_count = from_be-to_be 4 s.segment_count w.segment_count i;
        original_offset = from_be-to_be 8 s.original_offset w.original_offset i;
        root_original_size = from_be-to_be 8 s.root_original_size w.root_original_size i;
        root_sha256 = root i;
        raw_sha256 = raw i;
      })))
