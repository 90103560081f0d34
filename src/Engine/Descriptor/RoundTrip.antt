-- ===== src/Engine/Descriptor/RoundTrip.antt =====
-- `parse_payload` on what `build_payload_inner` wrote.
use air_ferry.Prelude.{
  ℕ, ◌+◌, ◌-◌, ◌*◌, ◌%◌, ◌^◌, ◌≤◌, ◌<◌, ◌≡◌, refl, ap, ◌∙◌, true, false, ◌⊎◌, inl, inr, ltb, List,
  ◌++◌, length, get_or, take, drop, Option, none, some, length-append, length-take,
  length-replicate, arith, min, replicate, ok, reject_if-eq-ok, ok-injective, subst,
}
use air_ferry.Bytes.{be_at, from_be-to_be, take-append, drop-append}
use air_ferry.Codec.Meta.{ObjectMeta}
use air_ferry.Engine.FileMeta.{FileMeta}
use air_ferry.Engine.Segment.{SegmentMeta}
use air_ferry.Engine.Utf8.{is_utf8, cut_at_char-le, cut_at_char-is_char_boundary, is_utf8-take}
use air_ferry.Engine.Descriptor.{
  write_blocks, write_segment, write_head, write_file, version_of, body_len, filename_len,
  build_payload_inner, segment_tail,
}
use air_ferry.Engine.Descriptor.Parse.{read_blocks, read_file, read_segment, parse_payload}
use air_ferry.Engine.Descriptor.Blocks.{
  BlocksAreWords, FileIsWords, OptionIsWords, as_parsed, read_blocks-write_blocks,
  length-write_blocks, read_file-write_file, read_segment-write_segment,
}

pub record MetaIsWords (m : ObjectMeta) : Type 0 where
  pub transfer_length : m.transfer_length < 2 ^ 64
  pub symbol_size : m.symbol_size < 2 ^ 32
  pub oti : length m.oti_bytes ≡ 12
  pub count : length m.blocks < 2 ^ 16
  pub blocks : BlocksAreWords m.blocks

-- The parser's tests and reads, as equations about a payload.
parse_step :
    (payload rest : List ℕ) (m : ObjectMeta) (version : ℕ) (fm : FileMeta) (s : Option SegmentMeta)
    → 28 + length m.blocks * 16 ≤ length payload
    → get_or payload 0 0 ≡ 0xd5
    → get_or payload 1 0 ≡ version
    → (version ≡ 3) ⊎ (version ≡ 5)
    → be_at payload 2 2 ≡ length m.blocks
    → be_at payload 4 8 ≡ m.transfer_length
    → be_at payload 12 4 ≡ m.symbol_size
    → take 12 (drop 16 payload) ≡ m.oti_bytes
    → read_blocks (length m.blocks) (drop 28 payload) ≡ m.blocks
    → read_file version (drop (length m.blocks * 16) (drop 28 payload)) ≡ some (fm, rest)
    → read_segment version rest ≡ some s
    → parse_payload payload ≡ some (record { meta = m; file_meta = fm; segment = s })
unfolding parse_payload
parse_step payload rest m version fm s long magic ver known count len size oti blocks file seg =
    ground arith

version-cases : (s : Option SegmentMeta) → (version_of s ≡ 3) ⊎ (version_of s ≡ 5)
version-cases none = inl refl
version-cases (some s) = inr refl

version-ge : (s : Option SegmentMeta) → 3 ≤ version_of s
version-ge none = omega arith
version-ge (some s) = omega arith

length-write_segment :
    (s : Option SegmentMeta) → OptionIsWords s → length (write_segment s) ≡ segment_tail s
unfolding write_segment
length-write_segment none w = refl
length-write_segment (some s) w =
    omega (arith, length-append s.root_sha256 s.raw_sha256, w.root_sha256, w.raw_sha256)

padded :
    (need size : ℕ)
    → ltb size need ≡ false
    → need + length (replicate {A = ℕ} (size - need) 0) ≡ size
padded need size fits = ground (arith, length-replicate {A = ℕ} (size - need) 0)

module _ (m : ObjectMeta) (fm : FileMeta) (s : Option SegmentMeta) where
  filename_len-bounds : (filename_len m fm s ≤ length fm.filename) × (filename_len m fm s ≤ 255)
  unfolding filename_len
  filename_len-bounds =
      let room = m.symbol_size - (28 + length m.blocks * 16 + 13 + 9 + segment_tail s) in
      let cut = cut_at_char-le fm.filename (min (min (length fm.filename) room) 255) in
      (omega (arith, cut), omega (arith, cut))

  filename_len-text :
      is_utf8 fm.filename ≡ true → is_utf8 (take (filename_len m fm s) fm.filename) ≡ true
  unfolding filename_len
  filename_len-text text =
      is_utf8-take fm.filename _ text (cut_at_char-is_char_boundary fm.filename _)

  length-write_file : (n : ℕ) → n ≤ length fm.filename → length (write_file fm n) ≡ n + 22
  unfolding write_file
  length-write_file n h =
      omega (arith, length-append (take n fm.filename) _, length-take n fm.filename)

  -- The bytes behind the fixed part.
  abbrev tail : List ℕ → List ℕ
  tail zeros =
      write_blocks m.blocks ++ (write_file fm (filename_len m fm s) ++ (write_segment s ++ zeros))

  parse_written :
      (zeros : List ℕ)
      → MetaIsWords m
      → FileIsWords fm
      → OptionIsWords s
      → parse_payload (write_head m s ++ tail zeros)
        ≡ some (record { meta = m; file_meta = as_parsed fm (filename_len m fm s); segment = s })
  unfolding write_head
  parse_written zeros mw fw sw =
      let n = filename_len m fm s in
      let (inside, small) = filename_len-bounds in
      let file = write_file fm n ++ (write_segment s ++ zeros) in
      let body : drop 28 (write_head m s ++ tail zeros) ≡ tail zeros =
        drop-append 12 m.oti_bytes (tail zeros) mw.oti in
      parse_step (write_head m s ++ tail zeros) (write_segment s ++ zeros) m (version_of s)
        (as_parsed fm n) s
        (omega (
          arith,
          length-append m.oti_bytes (tail zeros),
          mw.oti,
          length-append (write_blocks m.blocks) file,
          length-write_blocks m.blocks,
        ))
        refl refl (version-cases s)
        (from_be-to_be 2 (length m.blocks % 2 ^ 16) (omega arith) ∙ omega (arith, mw.count))
        (from_be-to_be 8 m.transfer_length mw.transfer_length)
        (from_be-to_be 4 m.symbol_size mw.symbol_size)
        (take-append 12 m.oti_bytes (tail zeros) mw.oti)
        (ap (read_blocks (length m.blocks)) body ∙ read_blocks-write_blocks m.blocks file mw.blocks)
        (ap (λ (l : List ℕ). read_file (version_of s) (drop (length m.blocks * 16) l)) body
          ∙ ap (read_file (version_of s)) (
              drop-append (length m.blocks * 16) (write_blocks m.blocks) file
                (length-write_blocks m.blocks))
          ∙ read_file-write_file (version_of s) fm n (write_segment s ++ zeros) (version-ge s)
              (omega arith) inside (filename_len-text fw.text) fw)
        (read_segment-write_segment s zeros sw)

  length-written :
      (zeros : List ℕ)
      → MetaIsWords m
      → OptionIsWords s
      → length (write_head m s ++ tail zeros) ≡ body_len m (filename_len m fm s) s + length zeros
  unfolding write_head body_len
  length-written zeros mw sw =
      let n = filename_len m fm s in
      omega (
        arith,
        length-append m.oti_bytes (tail zeros),
        mw.oti,
        length-append (write_blocks m.blocks) (write_file fm n ++ (write_segment s ++ zeros)),
        length-write_blocks m.blocks,
        length-append (write_file fm n) (write_segment s ++ zeros),
        length-write_file n filename_len-bounds.0,
        length-append (write_segment s) zeros,
        length-write_segment s sw,
      )

  -- When every field fits its type, a descriptor that is built fills exactly one symbol, and is parsed to the
  -- same object metadata and segment, and to the file metadata with the name cut to the bytes that were
  -- sent and both flags, that the compressed size and the CRC-32 are known, set to true whatever they were.
  pub parse_payload-build_payload :
      (payload : List ℕ)
      → MetaIsWords m
      → FileIsWords fm
      → OptionIsWords s
      → build_payload_inner m fm s ≡ ok payload
      → (length payload ≡ m.symbol_size)
        × (parse_payload payload
            ≡ some
                (record { meta = m; file_meta = as_parsed fm (filename_len m fm s); segment = s }))
  unfolding build_payload_inner
  parse_payload-build_payload payload mw fw sw e =
      let need = body_len m (filename_len m fm s) s in
      let zeros : List ℕ = replicate (m.symbol_size - need) 0 in
      let (fits, same) = reject_if-eq-ok (ltb m.symbol_size need) _ _ e in
      subst
        (λ (p : List ℕ).
          (length p ≡ m.symbol_size)
          × (parse_payload p
              ≡ some (record {
                meta = m;
                file_meta = as_parsed fm (filename_len m fm s);
                segment = s;
              })))
        (ok-injective same)
        (length-written zeros mw sw ∙ padded need m.symbol_size fits, parse_written zeros mw fw sw)
