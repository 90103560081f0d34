-- ===== src/Engine/Assembler/Reassembly.antt =====
-- The bytes that `reassemble` hands out, segment by segment.
use air_ferry.Prelude.{
  ℕ, ◌+◌, ◌-◌, ◌*◌, ◌<◌, ◌≡◌, ap, ◌∙◌, List, length, get_elem?, take, drop, some, arith,
  get_elem?-lt,
}
use air_ferry.Engine.Segment.{segment_raw_bytes}
use air_ferry.Engine.Assembler.{
  TransferAssembler, reassemble, concat_slots, is_complete, segment_raw_len,
}
use air_ferry.Engine.Assembler.Slots.{concat_slots-Laid, Laid, Laid-slice}
use air_ferry.Engine.Assembler.Invariant.{Inv}

reassemble_facts :
    (a : TransferAssembler) (out : List ℕ)
    → reassemble a ≡ some out
    → (a.received_count ≡ a.total_segments)
      × (concat_slots a.segments ≡ some out)
      × (length out ≡ a.root_compressed_size)
unfolding reassemble is_complete
reassemble_facts a out e = ground arith

starts_inside :
    (root n i : ℕ) → (n - 1) * segment_raw_bytes < root → i < n → (i + 0) * segment_raw_bytes < root
starts_inside root n i h k = omega arith

module _ (sha256 : List ℕ → List ℕ) where
  reassemble-Laid :
      (a : TransferAssembler) (out : List ℕ)
      → Inv sha256 a
      → reassemble a ≡ some out
      → Laid sha256 a.root_compressed_size 0 a.segments out
  reassemble-Laid a out inv e =
      let (done, whole, size) = reassemble_facts a out e in
      let (fits, laid) =
        concat_slots-Laid sha256 a.root_compressed_size 0 a.segments a.meta out inv.fits whole in
      laid (omega (arith, size, inv.covers, inv.size_segments))

  -- What `reassemble` returns has the declared length, and in it each stored segment stands at its
  -- canonical offset and has the length of its slice.
  pub reassemble-slices :
      (a : TransferAssembler) (out bytes : List ℕ) (i : ℕ)
      → Inv sha256 a
      → reassemble a ≡ some out
      → get_elem? a.segments i ≡ some (some bytes)
      → (length out ≡ a.root_compressed_size)
        × (take (length bytes) (drop (i * segment_raw_bytes) out) ≡ bytes)
        × (length bytes ≡ segment_raw_len a.root_compressed_size i)
  reassemble-slices a out bytes i inv e held =
      let (done, whole, size) = reassemble_facts a out e in
      let in_range = get_elem?-lt a.segments i held in
      let (window, len) =
        Laid-slice sha256 a.root_compressed_size 0 i a.segments out bytes
          (reassemble-Laid a out inv e)
          (starts_inside a.root_compressed_size a.total_segments i inv.needed
            (omega (arith, in_range, inv.size_segments)))
          held in
      (size, window, len ∙ ap (segment_raw_len a.root_compressed_size) (omega arith))
