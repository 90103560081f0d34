-- ===== src/Bindings/Python/Segments.antt =====
-- The segments of a prepared transfer (`start_segment_impl` of apps/python/src/lib.rs).
use air_ferry.Prelude.{
  ℕ, zero, suc, ◌+◌, ◌-◌, ◌*◌, ◌≤◌, ◌<◌, ◌≡◌, refl, sym, ap, ap₂, ◌∙◌, min, false, ltb, List, [],
  ◌∷◌, ◌++◌, length, take, drop, take-append-drop, length-drop, none, some, Result, ok, ◌>>=◌,
  String, arith,
}
use air_ferry.Bytes.{drop_add}
use air_ferry.Protocol.Checksum.{Checksum}
use air_ferry.Protocol.Stream.{Files}
use air_ferry.Engine.Segment.{segment_raw_bytes}
use air_ferry.Engine.Receiver.{div_ceil}
use air_ferry.Bindings.Python.Tasks.{NativeError, Disk, read_range, exact, content}
use air_ferry.Bindings.Python.Prepared.{Prepared}
use air_ferry.Bindings.Python.{NativeTransfer, segment_offset, segment_len, segment_payload}

module _ {A : Type 0} where
  take-min : (n : ℕ) (xs : List A) → take (min (length xs) n) xs ≡ take n xs
  take-min zero [] = refl
  take-min zero (x ∷ xs) = let e : min (length (x ∷ xs)) 0 ≡ 0 = omega arith in rw e refl
  take-min (suc n) [] = let e : min 0 (suc n) ≡ 0 = omega arith in rw e refl
  take-min (suc n) (x ∷ xs) =
      let e : min (length (x ∷ xs)) (suc n) ≡ suc (min (length xs) n) = omega arith in
      rw e (ap (λ (ys : List A). x ∷ ys) (take-min n xs))

  drop_all : (n : ℕ) (xs : List A) → length xs ≤ n → drop n xs ≡ []
  drop_all zero [] h = refl
  drop_all zero (x ∷ xs) h = absurd (omega arith)
  drop_all (suc n) [] h = refl
  drop_all (suc n) (x ∷ xs) h = drop_all n xs (omega arith)

-- The payloads of `n` segments from the `i`-th on, joined.
pub read_segments :
    {E : Type 0} → Disk → Files → NativeTransfer E → (n i : ℕ) → Result NativeError (List ℕ)
read_segments disk files t zero i = ok []
read_segments disk files t (suc n) i = do
  payload ← segment_payload disk files t i
  rest ← read_segments disk files t n (suc i)
  ok (payload ++ rest)

module _ {E : Type 0} (disk : Disk) (files : Files) (t : NativeTransfer E) (stream : List ℕ)
    (file : files t.spool_path ≡ some stream) (size : t.compressed_size ≡ length stream)
    (opens : disk.open_fails t.spool_path ≡ none)
    (reads : disk.read_fails t.spool_path ≡ none) where
  opened : content disk files t.spool_path ≡ ok stream
  unfolding content
  opened = rw (opens, content) (rw (file, content) refl)

  segment-take :
      (i : ℕ)
      → segment_offset i ≤ length stream
      → segment_payload disk files t i
        ≡ ok (take (segment_len t i) (drop (segment_offset i) stream))
  unfolding segment_payload read_range exact
  segment-take i inside =
      let fits : ltb (length stream) (segment_offset i + segment_len t i) ≡ false =
        ground (arith, inside, size) in
      rw (opened, segment_payload, read_range) (rw (reads, exact) (rw fits refl))

  slice :
      (i : ℕ)
      → segment_offset i ≤ length stream
      → take (segment_len t i) (drop (segment_offset i) stream)
          ++ drop (segment_offset (suc i)) stream
        ≡ drop (segment_offset i) stream
  slice i inside =
      let rest = drop (segment_offset i) stream in
      let short : segment_len t i ≡ min (length rest) segment_raw_bytes =
        ap (λ (n : ℕ). min (n - segment_offset i) segment_raw_bytes) size
        ∙ ap (λ (n : ℕ). min n segment_raw_bytes) (sym (length-drop (segment_offset i) stream)) in
      let next : segment_offset (suc i) ≡ segment_offset i + segment_raw_bytes = omega arith in
      ap₂ (λ (xs ys : List ℕ). xs ++ ys)
        (ap (λ (n : ℕ). take n rest) short ∙ take-min segment_raw_bytes rest)
        (ap (λ (n : ℕ). drop n stream) next ∙ drop_add (segment_offset i) segment_raw_bytes stream)
      ∙ take-append-drop segment_raw_bytes rest

  segments_from :
      (n i : ℕ)
      → length stream ≤ (i + n) * segment_raw_bytes
      → (i + n) * segment_raw_bytes < length stream + segment_raw_bytes
      → read_segments disk files t n i ≡ ok (drop (segment_offset i) stream)
  unfolding read_segments
  segments_from zero i covers tight =
      ap ok (sym (drop_all (segment_offset i) stream (omega (arith, covers))))
  segments_from (suc n) i covers tight =
      let inside : segment_offset i ≤ length stream = omega (arith, tight) in
      rw
        (
          segment-take i inside,
          segments_from n (suc i) (omega (arith, covers)) (omega (arith, tight)),
        )
        (ap ok (slice i inside))

module _ {E : Type 0} (disk : Disk) (crc : Checksum) (sha : List ℕ → List ℕ) (mode spool : List ℕ)
    (answers : List (Result String (List ℕ))) (files after : Files) (t : NativeTransfer E) where
  -- The payloads of a prepared transfer's segments, from the first to the last, are together exactly the
  -- content of its spool, provided that the spool can be read.
  pub segments-join :
      (p : Prepared E disk crc sha mode spool answers files after t)
      → disk.open_fails spool ≡ none
      → disk.read_fails spool ≡ none
      → read_segments disk after t t.segment_count 0 ≡ ok p.stream
  segments-join p opens reads =
      let count : t.segment_count ≡ div_ceil (length p.stream) segment_raw_bytes =
        p.segment_count ∙ ap (λ (n : ℕ). div_ceil n segment_raw_bytes) p.compressed_size in
      segments_from disk after t p.stream (ap after p.path ∙ p.file) p.compressed_size
        (ap disk.open_fails p.path ∙ opens) (ap disk.read_fails p.path ∙ reads) t.segment_count 0
        (omega (arith, count)) (omega (arith, count))
