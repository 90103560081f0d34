-- ===== src/Bindings/Tests/Drawing.antt =====
-- Two codes in the buffer of the browser's sender.
use air_ferry.Prelude.{
  ℕ, ◌+◌, ◌≡◌, refl, min, max, true, false, List, [], ◌∷◌, length, replicate, some, arith,
}
use air_ferry.Protocol.Tests.{sum_checksum}
use air_ferry.Protocol.Session.{to_le}
use air_ferry.Protocol.QrRender.{Generator, encode, min_version_for, position, walk, matrix}
use air_ferry.Codec.Tests.{same_packets}
use air_ferry.Codec.Encoder.{
  source_symbol, repair_symbols, block, symbols_at, repair_esi, number_repair,
}
use air_ferry.Codec.Meta.{total_symbols, sum_symbols}
use air_ferry.Engine.Tests.Sending.{sender}
use air_ferry.Engine.Utf8.{cut_at_char, is_char_boundary}
use air_ferry.Engine.Stats.{record_sent, push_sample_at, evict_old, evict_surplus}
use air_ferry.Engine.Descriptor.{
  build_payload, build_payload_inner, build_frame, filename_len, body_len, write_head, write_blocks,
  write_file, write_segment,
}
use air_ferry.Engine.Sender.{
  fresh, next_frame, is_descriptor_turn, emit_descriptor, emit_built, emit_data, emit_drawn,
  emit_fetched, descriptor, data_frame, fetch_symbol, next_symbol_id, next_repair_id, start_clock,
  advance_index, record_bytes, build_source_plan, plan_rows, plan_row, max_k, repair_symbol_id,
}
use air_ferry.Protocol.Frame.{build, to_bytes, write_bytes}
use air_ferry.Bindings.Wasm.Sender.{
  SenderSessionWasm, Clock, Words, max_ui_qr_count, draw_bytes, frame_bytes,
}
use air_ferry.Bindings.Wasm.Sender.Qr.{
  draw_qr, render, render_drawn, next_qr_scratch, next_qr_multi,
}
use air_ferry.Bindings.Wasm.Layout.{bodies, layout, draws, after_draw}
use air_ferry.Bindings.Wasm.Layout.Multi.{next_qr_multi-layout}
use air_ferry.Bindings.Wasm.Layout.Scratch.{LeavesCodes, next_qr_scratch-LeavesCodes}

abbrev words : Words
words = record { engine = λ e. "engine"; codec = λ e. "codec"; render = λ e. "render" }

abbrev square : Generator
square version bytes = some (2, true ∷ false ∷ false ∷ true ∷ [])

abbrev clock : ℕ → Clock
clock i = record { start_ms = 1; now_ms = 2 + i; sent_ms = 3 + i }

abbrev drawing : SenderSessionWasm (List ℕ)
drawing = record { inner = sender; qr_scratch = replicate 40 0 }

two_codes :
    length (
      bodies
        (draws sum_checksum same_packets square words
          (min (max 2 1) max_ui_qr_count)
          0
          clock
          drawing.inner).1)
    ≡ 16
unfolding bodies draws after_draw draw_qr draw_bytes frame_bytes render_drawn render encode
    min_version_for position walk matrix build to_bytes write_bytes sender fresh next_frame
    is_descriptor_turn emit_descriptor emit_built emit_data emit_drawn emit_fetched descriptor
    data_frame fetch_symbol next_symbol_id next_repair_id start_clock advance_index record_bytes
    build_source_plan plan_rows plan_row max_k repair_symbol_id build_frame build_payload
    build_payload_inner filename_len body_len write_head write_blocks write_file write_segment
    cut_at_char is_char_boundary record_sent push_sample_at evict_old evict_surplus source_symbol
    repair_symbols block symbols_at repair_esi number_repair total_symbols sum_symbols to_le
two_codes = refl

next_qr_scratch-LeavesCodes_example :
    LeavesCodes sum_checksum same_packets square words 40
      (draws sum_checksum same_packets square words 2 0 clock sender)
      (next_qr_scratch sum_checksum same_packets square words drawing clock 2)
next_qr_scratch-LeavesCodes_example =
    next_qr_scratch-LeavesCodes sum_checksum same_packets square words drawing clock 2
      (omega (arith, two_codes))

next_qr_multi-layout_example :
    next_qr_multi sum_checksum same_packets square words drawing clock 2 ≡ (
      record drawing { inner = (draws sum_checksum same_packets square words 2 0 clock sender).0 },
      layout (draws sum_checksum same_packets square words 2 0 clock sender).1,
    )
next_qr_multi-layout_example =
    next_qr_multi-layout sum_checksum same_packets square words drawing clock 2
