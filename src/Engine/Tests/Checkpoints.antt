-- ===== src/Engine/Tests/Checkpoints.antt =====
-- A receiver that is restored from a checkpoint of two symbols.
use air_ferry.Prelude.{
  ℕ, ◌≡◌, refl, true, List, [], ◌∷◌, length, replicate, get_or, none, some, ok, err, arith,
}
use air_ferry.Codec.Config
use air_ferry.Codec.Meta.{
  ObjectMeta, check_oti, check_sizes, check_blocks, check_totals, total_symbols, sum_symbols,
}
use air_ferry.Codec.Meta
use air_ferry.Codec.Encoder.{symbols_at}
use air_ferry.Codec.Decoder
use air_ferry.Codec.Decoder.{
  start_blocks, add_symbol, feed_block, block_progress, all_decoded, assemble, join_decoded,
}
use air_ferry.Codec.Tests.{plain_oti, two_blocks, one_symbol, one_symbol-IsSizing, two_blocks_bytes}
use air_ferry.Engine.Receiver.{
  ReceiverSession, Cached, build, is_complete, new_confirmed, contains, contains_key,
}
use air_ferry.Engine.Receiver.Replay.{
  feed_decoder, has_symbol, note_symbol, recount, refreshed, refresh_decoded_counts, count_received,
  decoded_counts,
}
use air_ferry.Engine.Receiver.Ingest.{
  ingest, is_descriptor, buffer, see_frame, answer, ingest_symbol, is_misfit, symbol_size, blocks,
  take_symbol, count_symbol, end_symbol,
}
use air_ferry.Engine.Receiver.Finish.{assemble_raw}
use air_ferry.Engine.Receiver.Run.{ingest_all}
use air_ferry.Protocol.Frame.{Frame}
use air_ferry.Engine.Tests.Receiving.{frame_of}
use air_ferry.Engine.Receiver.Resume
use air_ferry.Engine.Receiver.Resume.{
  ResumeState, any_past_esi, check_received, check_symbols, validate, collect, save_state,
  feed_anyway, restore_one, restore_all, restore,
}
use air_ferry.Engine.Receiver.Budget.{IsBounded, validate-IsBounded}
use air_ferry.Engine.Receiver.Checkpoints.{save_state-received, restore-length}

abbrev two_symbols : List Cached
two_symbols =
    record { sbn = 0; esi = 0; bytes = replicate 128 4 }
    ∷ record { sbn = 1; esi = 0; bytes = replicate 128 5 }
    ∷ []

abbrev checkpoint : ResumeState
checkpoint = record {
  session_id = 7;
  meta = two_blocks;
  received = (0 ∷ []) ∷ (0 ∷ []) ∷ [];
  symbols = two_symbols;
}

abbrev as_given : List Cached → List Cached
as_given symbols = symbols

-- A checkpoint of the second block's symbol only.
abbrev half : ResumeState
half = record checkpoint {
  received = [] ∷ (0 ∷ []) ∷ [];
  symbols = record { sbn = 1; esi = 0; bytes = replicate 128 5 } ∷ [];
}

abbrev last_frames : List Frame
last_frames = frame_of 0 0 0 (replicate 128 4) ∷ []

abbrev empty_session : ReceiverSession ℕ
unfolding build
empty_session = build 7 (some two_blocks) none true

abbrev caching : ReceiverSession ℕ
caching = record empty_session { symbol_cache = two_symbols }

save_state-received_example :
    contains 0 (get_or checkpoint.received 1 []) ≡ contains_key 1 0 checkpoint.symbols
unfolding save_state collect contains empty_session
save_state-received_example =
    save_state-received as_given caching two_blocks checkpoint 1 0 refl refl (omega arith)

abbrev restored : ReceiverSession ℕ
restored = elim (restore plain_oti one_symbol half) [ err e ↦ empty_session | ok s ↦ s ]

restored_is : restore plain_oti one_symbol half ≡ ok restored
unfolding restore Resume.validate any_past_esi check_received check_symbols Meta.validate check_oti
    check_sizes check_blocks check_totals Config.new new_confirmed build Decoder.new start_blocks
    restore_all restore_one feed_anyway feed_decoder add_symbol feed_block has_symbol contains
    note_symbol symbols_at recount refreshed refresh_decoded_counts count_received decoded_counts
    block_progress total_symbols sum_symbols blocks empty_session
restored_is = refl

received_rest :
    assemble_raw (ingest_all plain_oti one_symbol as_given restored last_frames)
    ≡ some two_blocks_bytes
unfolding restore Resume.validate any_past_esi check_received check_symbols Meta.validate check_oti
    check_sizes check_blocks check_totals Config.new new_confirmed build Decoder.new start_blocks
    restore_all restore_one feed_anyway feed_decoder add_symbol feed_block has_symbol contains
    note_symbol symbols_at recount refreshed refresh_decoded_counts count_received decoded_counts
    block_progress total_symbols sum_symbols blocks empty_session ingest_all ingest is_descriptor
    buffer see_frame ingest_symbol is_misfit symbol_size is_complete Decoder.is_complete all_decoded
    take_symbol count_symbol end_symbol answer assemble_raw assemble join_decoded
received_rest = refl

restore-length_example :
    (m : ObjectMeta) × ((ingest_all plain_oti one_symbol as_given restored last_frames).meta
      ≡ some m)
    × (length two_blocks_bytes ≡ m.transfer_length)
restore-length_example =
    restore-length plain_oti one_symbol as_given one_symbol-IsSizing half restored last_frames
      two_blocks_bytes restored_is received_rest

checkpoint_passes : Resume.validate plain_oti checkpoint ≡ ok tt
unfolding Resume.validate any_past_esi check_received check_symbols Meta.validate check_oti
    check_sizes check_blocks check_totals Config.new
checkpoint_passes = refl

validate-IsBounded_example : IsBounded plain_oti checkpoint
validate-IsBounded_example = validate-IsBounded plain_oti checkpoint checkpoint_passes
