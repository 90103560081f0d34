-- ===== src/Codec/Raptorq.antt =====
-- What the program takes from the crate `raptorq`: the object transmission information (OTI), the
-- decoder and the encoder of one source block. The types `D` and `E` are the crate's own.
use air_ferry.Prelude.{ℕ, ◌*◌, ◌≤◌, ◌<◌, ◌≡◌, List, Option, some, length}

-- The fields of the twelve OTI bytes.
pub record Oti : Type 0 where
  pub transfer_length : List ℕ → ℕ
  pub symbol_size : List ℕ → ℕ
  pub source_blocks : List ℕ → ℕ
  pub sub_blocks : List ℕ → ℕ
  pub symbol_alignment : List ℕ → ℕ

-- `SourceBlockDecoder::new(sbn, oti, block_length)` and `decode` of one packet: the decoder is changed
-- in place, and the block's bytes are returned once it can be solved.
pub record BlockDecoding (D : Type 0) : Type 0 where
  pub start : (sbn : ℕ) → (oti : List ℕ) → (block_length : ℕ) → D
  pub decode : D → (sbn esi : ℕ) → List ℕ → D × Option (List ℕ)

-- The crate's contract for a block decoder: what it returns is a whole block, and a decoder that is made
-- for a whole number of the symbols of its OTI works on that many bytes. Of other lengths, which the crate
-- pads to whole symbols, nothing is said.
pub record IsSizing {D : Type 0} (oti : Oti) (rq : BlockDecoding D) : Type 0 where
  pub size : D → ℕ
  pub size-start :
      (sbn : ℕ) (oti_bytes : List ℕ) (k : ℕ)
      → 0 < k
      → k ≤ 56403
      → 0 < oti.symbol_size oti_bytes
      → size (rq.start sbn oti_bytes (k * oti.symbol_size oti_bytes))
        ≡ k * oti.symbol_size oti_bytes
  pub size-decode :
      (d : D) (sbn esi : ℕ) (bytes : List ℕ) → size (rq.decode d sbn esi bytes).0 ≡ size d
  pub length-decode :
      (d : D) (sbn esi : ℕ) (bytes out : List ℕ)
      → (rq.decode d sbn esi bytes).1 ≡ some out
      → length out ≡ size d

-- `Encoder::with_defaults(data, mtu)` with its OTI bytes and block encoders, and the packets' bytes.
pub record BlockEncoding (E : Type 0) : Type 0 where
  pub with_defaults : List ℕ → (mtu : ℕ) → List ℕ × List E
  pub source_packets : E → List (List ℕ)
  pub repair_packets : E → (start count : ℕ) → List (List ℕ)

-- The crate's contract for the packets of a block: as many repair packets as are asked for.
pub record IsPacketing {E : Type 0} (rq : BlockEncoding E) : Type 0 where
  pub length-repair : (e : E) (start count : ℕ) → length (rq.repair_packets e start count) ≡ count
