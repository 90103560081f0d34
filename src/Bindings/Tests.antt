-- ===== src/Bindings/Tests.antt =====
-- Runs of the bindings, and of what they use of the wire crate.
pub mod Recovering
pub mod Drawing
pub mod Preparing
use air_ferry.Prelude.{
  ℕ, ◌+◌, ◌-◌, ◌/◌, ◌%◌, ◌^◌, ◌≤◌, ◌<◌, ◌≡◌, ◌≢◌, refl, Bool, true, false, ltb, ◌==◌, List, [], ◌∷◌,
  ◌++◌, length, drop, Option, none, some, ok, err, arith,
}
use air_ferry.Protocol.Frame.{Frame, from_bytes, to_bytes, read_bytes, write_bytes}
use air_ferry.Protocol.Tests.{sum_checksum, small_frame}
use air_ferry.Codec.Tests.{plain_oti, one_symbol}
use air_ferry.Engine.IngestStatus.{ingest_error}
use air_ferry.Engine.Receiver.{
  ReceiverSession, new_pending, is_complete, build, contains_key, pre_meta_cache_max,
}
use air_ferry.Engine.Receiver.Ingest.{
  ingest, is_descriptor, buffer, cache_symbol, count_cached, see_frame,
}
use air_ferry.Engine.Receiver.Finish.{assemble_result}
use air_ferry.Engine.Tests.Receiving.{
  in_order, zipped_session, doubling, no_words, four_threes, zipped_session-out,
}
use air_ferry.Bindings.Memory.{Host, load, store}
use air_ferry.Bindings.Capi.{OutParams, write_cstr}
use air_ferry.Bindings.Capi.Calls.{airferry_receiver_ingest, airferry_receiver_assemble, to_hand}
use air_ferry.Bindings.Capi.Ownership.{
  read_cstr, read_cstr-write_cstr, HandsOver, assemble-HandsOver,
}
use air_ferry.Bindings.Jni.Calls.{receiver_ingest}
use air_ferry.Bindings.Wasm.Receiver as Wasm
use air_ferry.Bindings.Agreement.{Says, ingest_agree, ingest-Says}

-- A receiver of session 7 behind handle 1, and one that has decoded its object behind handle 3.
abbrev host : Host ℕ
host = record {
  sessions = some (new_pending 7) ∷ none ∷ some zipped_session ∷ [];
  buffers = some (1 ∷ []) ∷ [];
}

ingest_agree_example :
    (airferry_receiver_ingest sum_checksum plain_oti one_symbol in_order host 1
        (some (to_bytes small_frame))
      ≡ receiver_ingest sum_checksum plain_oti one_symbol in_order host 1
          (some (to_bytes small_frame)))
    × (receiver_ingest sum_checksum plain_oti one_symbol in_order host 1
          (some (to_bytes small_frame))
        ≡ some (
          record host {
            sessions = store host.sessions 1 (
                some
                  (Wasm.ingest sum_checksum plain_oti one_symbol in_order
                    (record { inner = new_pending 7 })
                    (to_bytes small_frame)).0.inner);
          },
          (Wasm.ingest sum_checksum plain_oti one_symbol in_order
              (record { inner = new_pending 7 })
              (to_bytes small_frame)).1,
        ))
unfolding load
ingest_agree_example =
    ingest_agree sum_checksum plain_oti one_symbol in_order host 1 (new_pending 7)
      (to_bytes small_frame) refl

-- The frame is cached.
one_cached :
    (Wasm.ingest sum_checksum plain_oti one_symbol in_order
      (record { inner = new_pending 7 })
      (to_bytes small_frame)).0.inner.progress.received_symbols
    ≡ 1
unfolding Wasm.ingest Wasm.ingest_read from_bytes read_bytes to_bytes write_bytes ingest
    is_descriptor buffer cache_symbol count_cached contains_key pre_meta_cache_max see_frame
    new_pending build
one_cached = refl

small_count :
    (Wasm.ingest sum_checksum plain_oti one_symbol in_order
      (record { inner = new_pending 7 })
      (to_bytes small_frame)).0.inner.progress.received_symbols
    < 2 ^ 32 - 1
small_count = omega (arith, one_cached)

ingest-Says_example :
    Says sum_checksum plain_oti one_symbol in_order
      (new_pending 7)
      (from_bytes sum_checksum (to_bytes small_frame))
      (Wasm.ingest sum_checksum plain_oti one_symbol in_order
        (record { inner = new_pending 7 })
        (to_bytes small_frame))
ingest-Says_example =
    ingest-Says sum_checksum plain_oti one_symbol in_order (new_pending 7) (to_bytes small_frame)
      small_count

-- "abc" in a buffer of six bytes.
abbrev abc : List ℕ
abc = b'a' ∷ b'b' ∷ b'c' ∷ []

abbrev six_nines : List ℕ
six_nines = 9 ∷ 9 ∷ 9 ∷ 9 ∷ 9 ∷ 9 ∷ []

read_cstr-write_cstr_example :
    (filled : List ℕ) × (write_cstr abc (some six_nines) 6
      ≡ (some filled, (write_cstr abc none 0).1))
    × (read_cstr filled ≡ abc)
    × (length filled ≡ length six_nines)
    × (drop (length abc + 1) filled ≡ drop (length abc + 1) six_nines)
unfolding write_cstr
read_cstr-write_cstr_example =
    read_cstr-write_cstr abc six_nines none 6 0 (omega arith) (omega arith) (omega arith)

abbrev two_variables : OutParams
two_variables = record { out_buf = some 77; out_len = some 78 }

assemble-HandsOver_example :
    (end : Host ℕ × OutParams × ℕ) × (airferry_receiver_assemble doubling no_words host 3
        two_variables
      ≡ some end)
    × HandsOver host.buffers (to_hand (assemble_result doubling no_words zipped_session).1) end
unfolding load
assemble-HandsOver_example =
    assemble-HandsOver doubling no_words host 3 zipped_session two_variables refl refl
