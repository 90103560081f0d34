-- ===== src/Engine/Assembler/Invariant.antt =====
-- The well-formed states of the assembler (core/transfer-engine/src/assembler.rs).
use air_ferry.Prelude.{
  ℕ, ◌-◌, ◌*◌, ◌≤◌, ◌<◌, ◌≢◌, Option-cases, ◌≡◌, sym, subst, ◌∙◌, inl, inr, Bool, List, length,
  get_or, none, some, ok, length-set, length-replicate, >>-eq-ok, arith,
}
use air_ferry.Engine.FileMeta.{FileMeta}
use air_ferry.Engine.Segment.{SegmentMeta, segment_raw_bytes, max_segment_count, expected_count_u64}
use air_ferry.Bytes.{bytes_eq-eq}
use air_ferry.Engine.Assembler.{
  TransferAssembler, fresh, fill, new, add_segment, store, check_root, check_bytes,
  validate_segment_range, has_segment, expected_segment_count, segment_raw_len,
}
use air_ferry.Engine.Assembler.Slots.{
  count_slots, count_slots-le, count_slots-replicate, count_slots-set, SlotsFit, SlotsFit-replicate,
  SlotsFit-set,
}

module _ (sha256 : List ℕ → List ℕ) where
  pub record Inv (a : TransferAssembler) : Type 0 where
    pub size_segments : length a.segments ≡ a.total_segments
    pub size_meta : length a.meta ≡ a.total_segments
    pub positive : 0 < a.total_segments
    pub bounded : a.total_segments ≤ max_segment_count
    pub covers : a.root_compressed_size ≤ a.total_segments * segment_raw_bytes
    pub needed : (a.total_segments - 1) * segment_raw_bytes < a.root_compressed_size
    pub counted : a.received_count ≡ count_slots a.segments
    pub fits : SlotsFit sha256 a.root_compressed_size 0 a.segments a.meta

  count_covers :
      (root count : ℕ)
      → root ≢ 0
      → expected_segment_count root ≡ some count
      → (root ≤ count * segment_raw_bytes) × ((count - 1) * segment_raw_bytes < root)
  unfolding expected_segment_count expected_count_u64
  count_covers root count pos e = ground arith

  new_facts :
      (seg : SegmentMeta) (fm : FileMeta) (a : TransferAssembler)
      → new seg fm ≡ ok a
      → (0 < seg.segment_count)
        × (seg.segment_count ≤ max_segment_count)
        × (seg.root_original_size ≢ 0)
        × (expected_segment_count seg.root_original_size ≡ some seg.segment_count)
        × (fresh seg fm ≡ a)
  unfolding new
  new_facts seg fm a e = ground arith

  fresh-Inv :
      (seg : SegmentMeta) (fm : FileMeta)
      → 0 < seg.segment_count
      → seg.segment_count ≤ max_segment_count
      → seg.root_original_size ≢ 0
      → expected_segment_count seg.root_original_size ≡ some seg.segment_count
      → Inv (fresh seg fm)
  unfolding fresh
  fresh-Inv seg fm pos few some_bytes right =
      let (high, low) = count_covers seg.root_original_size seg.segment_count some_bytes right in
      record {
        size_segments = length-replicate seg.segment_count none;
        size_meta = length-replicate seg.segment_count none;
        positive = pos;
        bounded = few;
        covers = high;
        needed = low;
        counted = sym (count_slots-replicate seg.segment_count);
        fits = SlotsFit-replicate sha256 seg.root_original_size seg.segment_count 0;
      }

  -- A new assembler has a slot for each segment of the stream, all empty.
  pub new-Inv :
      (seg : SegmentMeta) (fm : FileMeta) (a : TransferAssembler) → new seg fm ≡ ok a → Inv a
  new-Inv seg fm a e =
      let (pos, few, some_bytes, right, same) = new_facts seg fm a e in
      subst Inv same (fresh-Inv seg fm pos few some_bytes right)

  range_facts :
      (seg : SegmentMeta) (fm : FileMeta) (root : ℕ)
      → validate_segment_range seg fm root ≡ ok tt
      → (seg.segment_index < seg.segment_count)
        × (seg.original_offset ≡ seg.segment_index * segment_raw_bytes)
  unfolding validate_segment_range
  range_facts seg fm root e = ground arith

  check_facts :
      (a : TransferAssembler) (seg : SegmentMeta) (fm : FileMeta) (bytes : List ℕ)
      → check_bytes sha256 a seg fm bytes ≡ ok tt
      → (length bytes ≤ segment_raw_len a.root_compressed_size seg.segment_index)
        × (sha256 bytes ≡ seg.raw_sha256)
  unfolding check_bytes
  check_facts a seg fm bytes e = ground (arith, bytes_eq-eq (sha256 bytes) seg.raw_sha256)

  root_facts :
      (a : TransferAssembler) (seg : SegmentMeta) (fm : FileMeta)
      → check_root a seg fm ≡ ok tt
      → (seg.segment_count ≡ a.total_segments) × (seg.root_sha256 ≡ a.root_sha256)
  unfolding check_root
  root_facts a seg fm e = ground (arith, bytes_eq-eq seg.root_sha256 a.root_sha256)

  -- Storing the bytes of a slot that is empty.
  fill-Inv :
      (a : TransferAssembler) (seg : SegmentMeta) (bytes : List ℕ)
      → Inv a
      → seg.segment_index < a.total_segments
      → get_or a.segments seg.segment_index none ≡ none
      → length bytes ≤ segment_raw_len a.root_compressed_size seg.segment_index
      → sha256 bytes ≡ seg.raw_sha256
      → Inv (fill a seg bytes)
  unfolding fill
  fill-Inv a seg bytes inv in_range hole len digest =
      let more =
        count_slots-set a.segments seg.segment_index bytes (omega (arith, inv.size_segments))
          hole in
      record {
        size_segments = length-set a.segments seg.segment_index (some bytes) ∙ inv.size_segments;
        size_meta = length-set a.meta seg.segment_index (some seg) ∙ inv.size_meta;
        positive = inv.positive;
        bounded = inv.bounded;
        covers = inv.covers;
        needed = inv.needed;
        counted =
            omega
              (arith, more, inv.counted, inv.bounded, inv.size_segments, count_slots-le a.segments);
        fits =
            SlotsFit-set sha256 a.root_compressed_size 0 seg.segment_index a.segments a.meta
              (some bytes) (some seg)
              (
                omega arith,
                subst (λ (n : ℕ). length bytes ≤ segment_raw_len a.root_compressed_size n)
                    (omega arith) len,
                digest,
              )
              inv.fits;
      }

  store-Inv :
      (a b : TransferAssembler) (seg : SegmentMeta) (bytes : List ℕ) (fresh : Bool)
      → Inv a
      → seg.segment_index < a.total_segments
      → (length bytes ≤ segment_raw_len a.root_compressed_size seg.segment_index)
        × (sha256 bytes ≡ seg.raw_sha256)
      → store a seg bytes ≡ ok (b, fresh)
      → Inv b
  unfolding store has_segment
  store-Inv a b seg bytes fresh inv in_range right e =
      elim (Option-cases (get_or a.segments seg.segment_index none)) [
        | inl hole ↦
            subst Inv (ground (arith, hole))
              (fill-Inv a seg bytes inv in_range hole right.0 right.1)
        | inr (x, held) ↦ subst Inv (ground (arith, held)) inv
      ]

  -- Whatever `add_segment` accepts leaves the assembler well formed.
  pub add_segment-Inv :
      (a b : TransferAssembler) (seg : SegmentMeta) (fm : FileMeta) (bytes : List ℕ) (fresh : Bool)
      → Inv a
      → add_segment sha256 a seg fm bytes ≡ ok (b, fresh)
      → Inv b
  unfolding add_segment
  add_segment-Inv a b seg fm bytes fresh inv e =
      let (of_root, e₁) = >>-eq-ok (check_root a seg fm) _ e in
      let (in_range, e₂) = >>-eq-ok (validate_segment_range seg fm a.root_compressed_size) _ e₁ in
      let (right, e₃) = >>-eq-ok (check_bytes sha256 a seg fm bytes) _ e₂ in
      store-Inv a b seg bytes fresh inv
        (omega (
          arith,
          (range_facts seg fm a.root_compressed_size in_range).0,
          (root_facts a seg fm of_root).0,
        ))
        (check_facts a seg fm bytes right) e₃
