-- ===== src/Engine/Tests/Receiving.antt =====
-- A receiver that gets two symbols, one before the descriptor and one after it.
use air_ferry.Prelude.{
  false, ℕ, ◌≤◌, ◌≡◌, ◌≢◌, refl, max, true, List, [], ◌∷◌, ◌++◌, length, replicate, Option, none,
  some, ok, err, String, arith, take,
}
use air_ferry.Protocol.Errors as ProtocolErrors
use air_ferry.Protocol.Frame.{Frame}
use air_ferry.Protocol.Compress.{
  Decoders, decompress_with_limit, read_opened, read_capped, is_known_compression_tag,
}
use air_ferry.Codec.Config
use air_ferry.Codec.Meta.{
  ObjectMeta, max_original_bytes, validate, check_oti, check_sizes, check_blocks, check_totals,
  total_symbols, sum_symbols,
}
use air_ferry.Codec.Meta.Gate.{IsValid, validate_iff}
use air_ferry.Codec.Encoder.{symbols_at}
use air_ferry.Codec.Decoder
use air_ferry.Codec.Decoder.{
  Decoder, start_blocks, add_symbol, feed_block, block_progress, all_decoded, assemble,
  join_decoded,
}
use air_ferry.Codec.Tests.{
  plain_oti, two_blocks, two_blocks-valid, one_symbol, one_symbol-IsSizing, two_blocks_bytes,
}
use air_ferry.Engine.FileMeta.{FileMeta}
use air_ferry.Engine.Tests.Sending.{first_descriptor, first_descriptor-Announces}
use air_ferry.Engine.Sender.Announce.{announcement}
use air_ferry.Engine.Receiver.Joining.{Joined, ingest-Joined}
use air_ferry.Engine.Tests.{descriptor_bytes, a_txt}
use air_ferry.Engine.Utf8.{is_utf8, scan, next, lead}
use air_ferry.Engine.Descriptor.Parse.{
  parse_payload, read_blocks, read_v3, read_v2, read_file, read_segment,
}
use air_ferry.Engine.Receiver.{
  ReceiverSession, Cached, new_pending, build, pre_meta_cache_max, is_complete, contains,
  contains_key,
}
use air_ferry.Engine.Receiver.Replay.{
  apply_meta, apply_decoder, finish_replay, replay, replay_one, replay_fed, unless_failed, is_stray,
  feed_decoder, has_symbol, note_symbol, recount, refreshed, refresh_decoded_counts, count_received,
  decoded_counts, reset,
}
use air_ferry.Engine.Receiver.Ingest.{
  ingest, is_descriptor, buffer, cache_symbol, count_cached, see_frame, ingest_descriptor,
  ingest_parsed, is_rejected, frame_geometry_invalid, checked_total, segment_invalid,
  file_meta_invalid, accept, accept_first, confirm_applied, confirm, answer, ingest_symbol,
  is_misfit, symbol_size, blocks, take_symbol, count_symbol, end_symbol,
}
use air_ferry.Engine.Progress
use air_ferry.Engine.Receiver.Finish.{
  assemble_raw, assemble_result, assemble_result-length, trim, unpack, decompressed_cap,
  decompress_result, is_wrong_size, succeed, fail,
}
use air_ferry.Engine.Receiver.Cache.{length-cache_symbol}
use air_ferry.Engine.Receiver.Counters.{Counted, ingest_symbol-done}
use air_ferry.Engine.Receiver.Tally.{ingest_all-Counted}
use air_ferry.Engine.Receiver.Descriptors.{Same, ingest_all-Same}
use air_ferry.Engine.Receiver.Run.{ingest_all, ingest_all-length, ingest_all-IsValid}

-- A frame of session 7; the checksums are not looked at here.
abbrev pub frame_of : (flags sbn esi : ℕ) → List ℕ → Frame
frame_of flags sbn esi payload = record {
  header = record {
    session_id = 7;
    flags = flags;
    sbn = sbn;
    esi = esi;
    total_blocks = 2;
    total_symbols = 2;
    symbol_size = 128;
    frame_index = 1;
    timestamp_ms = 1;
    payload_crc32 = 0;
  };
  payload = payload;
  frame_crc32 = 0;
}

abbrev first_frames : List Frame
first_frames = frame_of 0 1 0 (replicate 128 5) ∷ frame_of 1 0 0 descriptor_bytes ∷ []

abbrev frames : List Frame
frames = first_frames ++ (frame_of 0 0 0 (replicate 128 4) ∷ [])

-- The cache is replayed in its own order.
abbrev pub in_order : List Cached → List Cached
in_order cache = cache

received_all :
    assemble_raw (ingest_all plain_oti one_symbol in_order (new_pending 7) frames)
    ≡ some two_blocks_bytes
unfolding assemble_raw ingest_all ingest new_pending build is_descriptor buffer cache_symbol
    count_cached contains_key pre_meta_cache_max see_frame ingest_descriptor ingest_parsed
    is_rejected frame_geometry_invalid checked_total segment_invalid file_meta_invalid
    is_known_compression_tag validate check_oti check_sizes check_blocks check_totals Config.new
    accept accept_first apply_meta apply_decoder Decoder.new start_blocks finish_replay replay
    replay_one replay_fed unless_failed is_stray feed_decoder add_symbol feed_block has_symbol
    contains note_symbol symbols_at recount refreshed refresh_decoded_counts count_received
    decoded_counts block_progress reset total_symbols sum_symbols confirm_applied confirm answer
    is_complete Decoder.is_complete all_decoded ingest_symbol is_misfit symbol_size blocks
    take_symbol count_symbol end_symbol assemble join_decoded parse_payload read_blocks read_v3
    read_v2 read_file read_segment is_utf8 scan next lead
received_all = refl

ingest_all-length_example :
    (m : ObjectMeta) × ((ingest_all plain_oti one_symbol in_order (new_pending 7) frames).meta
      ≡ some m)
    × (length two_blocks_bytes ≡ m.transfer_length)
ingest_all-length_example =
    ingest_all-length plain_oti one_symbol in_order one_symbol-IsSizing 7 frames two_blocks_bytes
      received_all

received_meta :
    (ingest_all plain_oti one_symbol in_order (new_pending 7) frames).meta ≡ some two_blocks
unfolding assemble_raw ingest_all ingest new_pending build is_descriptor buffer cache_symbol
    count_cached contains_key pre_meta_cache_max see_frame ingest_descriptor ingest_parsed
    is_rejected frame_geometry_invalid checked_total segment_invalid file_meta_invalid
    is_known_compression_tag validate check_oti check_sizes check_blocks check_totals Config.new
    accept accept_first apply_meta apply_decoder Decoder.new start_blocks finish_replay replay
    replay_one replay_fed unless_failed is_stray feed_decoder add_symbol feed_block has_symbol
    contains note_symbol symbols_at recount refreshed refresh_decoded_counts count_received
    decoded_counts block_progress reset total_symbols sum_symbols confirm_applied confirm answer
    is_complete Decoder.is_complete all_decoded ingest_symbol is_misfit symbol_size blocks
    take_symbol count_symbol end_symbol assemble join_decoded parse_payload read_blocks read_v3
    read_v2 read_file read_segment is_utf8 scan next lead
received_meta = refl

received_confirmed :
    (ingest_all plain_oti one_symbol in_order (new_pending 7) frames).meta_confirmed ≡ true
unfolding assemble_raw ingest_all ingest new_pending build is_descriptor buffer cache_symbol
    count_cached contains_key pre_meta_cache_max see_frame ingest_descriptor ingest_parsed
    is_rejected frame_geometry_invalid checked_total segment_invalid file_meta_invalid
    is_known_compression_tag validate check_oti check_sizes check_blocks check_totals Config.new
    accept accept_first apply_meta apply_decoder Decoder.new start_blocks finish_replay replay
    replay_one replay_fed unless_failed is_stray feed_decoder add_symbol feed_block has_symbol
    contains note_symbol symbols_at recount refreshed refresh_decoded_counts count_received
    decoded_counts block_progress reset total_symbols sum_symbols confirm_applied confirm answer
    is_complete Decoder.is_complete all_decoded ingest_symbol is_misfit symbol_size blocks
    take_symbol count_symbol end_symbol assemble join_decoded parse_payload read_blocks read_v3
    read_v2 read_file read_segment is_utf8 scan next lead
received_confirmed = refl

ingest_all-Counted_example :
    Counted (ingest_all plain_oti one_symbol in_order (new_pending 7) frames)
ingest_all-Counted_example =
    ingest_all-Counted plain_oti one_symbol in_order 7 frames received_confirmed

ingest_all-IsValid_example : IsValid plain_oti two_blocks
ingest_all-IsValid_example =
    ingest_all-IsValid plain_oti one_symbol in_order 7 frames two_blocks received_meta

-- A session that has accepted the descriptor; both blocks are decoded, or none is.
abbrev pub session_with :
    (received : List (List ℕ)) → Option (List ℕ) → FileMeta → ReceiverSession ℕ
session_with received decoded file_meta = record {
  session_id = 7;
  meta = some two_blocks;
  decoder = some (record {
    meta = two_blocks;
    blocks =
        record { decoder = 128; decoded = decoded }
        ∷ record { decoder = 128; decoded = decoded }
        ∷ [];
  });
  meta_confirmed = true;
  descriptor_seen = true;
  file_meta = file_meta;
  segment_meta = none;
  received = received;
  source_recv = 0 ∷ 0 ∷ [];
  symbol_cache = [];
  progress = record (Progress.default) {
    received_symbols = length received;
    total_symbols = 2;
    total_blocks = 2;
  };
  session_mismatch_streak = 0;
  pending_symbol_size = 128;
  last_assemble_error = none;
}

abbrev repairs_seen : ReceiverSession ℕ
repairs_seen = session_with ((5 ∷ []) ∷ (6 ∷ []) ∷ []) none a_txt

abbrev all_decoded_session : ReceiverSession ℕ
all_decoded_session = session_with ((0 ∷ []) ∷ (0 ∷ []) ∷ []) (some (replicate 128 3)) a_txt

abbrev pub zipped : FileMeta
zipped = record a_txt { original_size = 4; compression = 1; compressed_size = 2 }

abbrev pub zipped_session : ReceiverSession ℕ
zipped_session = session_with ((0 ∷ []) ∷ (0 ∷ []) ∷ []) (some (replicate 128 3)) zipped

abbrev later_frames : List Frame
later_frames = frame_of 0 0 0 (replicate 128 4) ∷ frame_of 1 0 0 [] ∷ frame_of 0 9 9 [] ∷ []

ingest_all-Same_example :
    Same repairs_seen (ingest_all plain_oti one_symbol in_order repairs_seen later_frames)
ingest_all-Same_example =
    ingest_all-Same plain_oti one_symbol in_order repairs_seen later_frames refl

all_decoded_session_complete : is_complete all_decoded_session ≡ true
unfolding is_complete Decoder.is_complete all_decoded
all_decoded_session_complete = refl

abbrev late_frame : Frame
late_frame = frame_of 0 0 77 (replicate 128 4)

ingest_symbol-done_example :
    ((ingest_symbol one_symbol all_decoded_session late_frame).0.received
      ≡ all_decoded_session.received)
    × ((ingest_symbol one_symbol all_decoded_session late_frame).0.progress.received_symbols
        ≡ all_decoded_session.progress.received_symbols)
    × ((ingest_symbol one_symbol all_decoded_session late_frame).0.decoder
        ≡ all_decoded_session.decoder)
    × ((ingest_symbol one_symbol all_decoded_session late_frame).1 ≡ ok true)
ingest_symbol-done_example =
    ingest_symbol-done one_symbol all_decoded_session late_frame all_decoded_session_complete

length-cache_symbol_example :
    length (cache_symbol repairs_seen late_frame).symbol_cache
    ≤ max (length repairs_seen.symbol_cache) (pre_meta_cache_max 128)
length-cache_symbol_example = length-cache_symbol repairs_seen late_frame

abbrev pub doubling : Decoders
doubling = record {
  zstd = λ bytes. ok (λ limit. ok (take limit (bytes ++ bytes)));
  xz = λ bytes. err "no stream";
}

abbrev pub no_words : ProtocolErrors.Error → String
no_words e = "error"

abbrev pub four_threes : List ℕ
four_threes = 3 ∷ 3 ∷ 3 ∷ 3 ∷ []

pub zipped_session-out :
    (assemble_result doubling no_words zipped_session).1 ≡ ok (some four_threes)
unfolding assemble_result assemble_raw assemble Decoder.is_complete all_decoded join_decoded trim
    unpack decompressed_cap decompress_result is_wrong_size succeed fail decompress_with_limit
    read_opened read_capped
zipped_session-out = refl

assemble_result-length_example :
    (length four_threes ≤ max_original_bytes) × (zipped.original_size ≢ 0 → length four_threes ≡ 4)
assemble_result-length_example =
    assemble_result-length doubling no_words zipped_session four_threes (λ e. omega arith)
      zipped_session-out

announced-file : file_meta_invalid (announcement two_blocks a_txt none) ≡ false
unfolding file_meta_invalid is_known_compression_tag
announced-file = refl

announced-segment : segment_invalid first_descriptor (announcement two_blocks a_txt none) ≡ false
unfolding segment_invalid
announced-segment = refl

-- A receiver that has cached a symbol of the first block and one that the descriptor rules out.
abbrev late_receiver : ReceiverSession ℕ
unfolding new_pending build
late_receiver = record (new_pending 7) {
  symbol_cache =
      record { sbn = 0; esi = 0; bytes = replicate 128 4 }
      ∷ record { sbn = 9; esi = 0; bytes = [] }
      ∷ [];
}

ingest-Joined_example :
    Joined plain_oti one_symbol in_order
      (ingest plain_oti one_symbol in_order late_receiver first_descriptor).0
      (announcement two_blocks a_txt none)
unfolding new_pending build
ingest-Joined_example =
    ingest-Joined plain_oti one_symbol in_order late_receiver 1 two_blocks a_txt none
      first_descriptor refl refl first_descriptor-Announces
      ((validate_iff plain_oti two_blocks).0 two_blocks-valid) announced-file announced-segment
