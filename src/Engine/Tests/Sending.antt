-- ===== src/Engine/Tests/Sending.antt =====
-- A sender of two blocks.
use air_ferry.Prelude.{
  ok, true, ◌+◌, ◌%◌, ◌^◌, ℕ, ◌^◌, ◌≡◌, refl, List, [], ◌∷◌, get_elem?, none, some, arith, inl,
}
use air_ferry.Protocol.Frame.{Frame, build}
use air_ferry.Protocol.Tests.{sum_checksum}
use air_ferry.Codec.Meta.{total_symbols, sum_symbols}
use air_ferry.Codec.Meta.Gate.{IsCanonical}
use air_ferry.Codec.Encoder.{
  source_symbol, repair_symbols, block, symbols_at, repair_esi, number_repair,
}
use air_ferry.Codec.Tests.{two_blocks, two_blocks_encoder, same_packets}
use air_ferry.Engine.Descriptor.{
  build_payload, build_payload_inner, build_frame, filename_len, body_len, write_head, write_blocks,
  write_file, write_segment,
}
use air_ferry.Engine.Utf8.{cut_at_char, is_char_boundary}
use air_ferry.Engine.Stats.{record_sent, push_sample_at, evict_old, evict_surplus}
use air_ferry.Engine.Descriptor.Blocks.{FileIsWords, OptionIsWords}
use air_ferry.Engine.Descriptor.RoundTrip.{MetaIsWords}
use air_ferry.Engine.Tests.{a_txt, a_txt-words, two_blocks-words, descriptor_bytes}
use air_ferry.Engine.Sender.{
  SenderSession, SenderConfig, fresh, next_frame, is_descriptor_turn, emit_descriptor, emit_built,
  emit_data, emit_drawn, emit_fetched, descriptor, data_frame, fetch_symbol, next_symbol_id,
  next_repair_id, start_clock, advance_index, record_bytes, build_source_plan, plan_rows, plan_row,
  max_k, repair_symbol_id,
}
use air_ferry.Engine.Sender.Plan.{count_id, count_blocks, count_id-build_source_plan}
use air_ferry.Engine.Sender.Stream.{OnStream}
use air_ferry.Engine.Sender.Announce.{Announces, AnnouncesSession, next_frame-Announces}
use air_ferry.Engine.Sender.Unique.{run, run-fresh}

abbrev config : SenderConfig
config = record { codec = record { symbol_size = 128 }; redundancy_pct = 25 }

unfoldable pub sender : SenderSession (List ℕ)
sender = fresh sum_checksum same_packets two_blocks_encoder 7 config a_txt none

two_blocks-IsCanonical : IsCanonical 128 0 two_blocks.blocks
two_blocks-IsCanonical =
    (refl, omega arith, omega arith, refl, (refl, omega arith, omega arith, refl, tt))

sender-OnStream : OnStream sender
unfolding sender fresh
sender-OnStream = record { within = omega arith; phase = inl refl }

sender-planned : sender.source_plan ≡ build_source_plan sender.meta
unfolding sender fresh
sender-planned = refl

sender-IsCanonical : IsCanonical 128 0 sender.meta.blocks
unfolding sender fresh
sender-IsCanonical = two_blocks-IsCanonical

-- A descriptor, the two source symbols, and a repair symbol.
abbrev clocks : List (ℕ × ℕ × ℕ)
clocks = (1, 2, 3) ∷ (4, 5, 6) ∷ (7, 8, 9) ∷ (10, 11, 12) ∷ []

abbrev first_data : Frame
first_data = build sum_checksum 7 0 0 0 2 2 128 2 5 (1 ∷ [])

abbrev repair_data : Frame
repair_data = build sum_checksum 7 0 0 1 2 2 128 4 11 (1 ∷ [])

first_data-sent : get_elem? (run sum_checksum same_packets sender clocks) 1 ≡ some first_data
unfolding run sender fresh next_frame is_descriptor_turn emit_descriptor emit_built emit_data
    emit_drawn emit_fetched descriptor data_frame fetch_symbol next_symbol_id next_repair_id
    start_clock advance_index record_bytes build_source_plan plan_rows plan_row max_k
    repair_symbol_id build_frame build_payload build_payload_inner filename_len body_len write_head
    write_blocks write_file write_segment cut_at_char is_char_boundary record_sent push_sample_at
    evict_old evict_surplus source_symbol repair_symbols block symbols_at repair_esi number_repair
    total_symbols sum_symbols
first_data-sent = refl

repair_data-sent : get_elem? (run sum_checksum same_packets sender clocks) 3 ≡ some repair_data
unfolding run sender fresh next_frame is_descriptor_turn emit_descriptor emit_built emit_data
    emit_drawn emit_fetched descriptor data_frame fetch_symbol next_symbol_id next_repair_id
    start_clock advance_index record_bytes build_source_plan plan_rows plan_row max_k
    repair_symbol_id build_frame build_payload build_payload_inner filename_len body_len write_head
    write_blocks write_file write_segment cut_at_char is_char_boundary record_sent push_sample_at
    evict_old evict_surplus source_symbol repair_symbols block symbols_at repair_esi number_repair
    total_symbols sum_symbols
repair_data-sent = refl

first_data-plain : first_data.header.flags ≡ 0
unfolding build
first_data-plain = refl

repair_data-plain : repair_data.header.flags ≡ 0
unfolding build
repair_data-plain = refl

run-fresh_example : ¬ (
    ◌≡◌ {A = ℕ × ℕ}
      (first_data.header.sbn, first_data.header.esi)
      (repair_data.header.sbn, repair_data.header.esi))
run-fresh_example =
    run-fresh sum_checksum same_packets 128 sender clocks 1 3 first_data repair_data
      sender-IsCanonical sender-planned sender-OnStream (omega arith) first_data-sent
      repair_data-sent first_data-plain repair_data-plain

count_id-build_source_plan_example :
    count_id (1, 0) (build_source_plan two_blocks) ≡ count_blocks (1, 0) two_blocks.blocks
count_id-build_source_plan_example = count_id-build_source_plan two_blocks 1 0

second_repair : repair_symbol_id two_blocks.blocks 3 ≡ some (1, 2)
unfolding repair_symbol_id
second_repair = refl

abbrev pub first_descriptor : Frame
first_descriptor = build sum_checksum 7 1 0 0 2 2 128 1 2 descriptor_bytes

first_descriptor-sent : (next_frame sum_checksum same_packets sender 1 2 3).1 ≡ ok first_descriptor
unfolding run sender fresh next_frame is_descriptor_turn emit_descriptor emit_built emit_data
    emit_drawn emit_fetched descriptor data_frame fetch_symbol next_symbol_id next_repair_id
    start_clock advance_index record_bytes build_source_plan plan_rows plan_row max_k
    repair_symbol_id build_frame build_payload build_payload_inner filename_len body_len write_head
    write_blocks write_file write_segment cut_at_char is_char_boundary record_sent push_sample_at
    evict_old evict_surplus source_symbol repair_symbols block symbols_at repair_esi number_repair
    total_symbols sum_symbols
first_descriptor-sent = refl

sender-words :
    MetaIsWords sender.meta × FileIsWords sender.file_meta × OptionIsWords sender.segment_meta
unfolding sender fresh
sender-words = (two_blocks-words, a_txt-words, tt)

sender-turn : is_descriptor_turn sender ≡ true
unfolding is_descriptor_turn sender fresh
sender-turn = refl

pub first_descriptor-Announces : Announces 7 two_blocks a_txt none 1 first_descriptor
unfolding sender fresh
first_descriptor-Announces =
    next_frame-Announces sum_checksum same_packets sender 1 2 3 first_descriptor sender-words.0
      sender-words.1 sender-words.2 sender-turn first_descriptor-sent

next_frame-Announces_example :
    AnnouncesSession sender ((sender.frame_index + 1) % 2 ^ 64) first_descriptor
next_frame-Announces_example =
    next_frame-Announces sum_checksum same_packets sender 1 2 3 first_descriptor sender-words.0
      sender-words.1 sender-words.2 sender-turn first_descriptor-sent
