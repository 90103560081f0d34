-- ===== src/Engine/Tests.antt =====
-- Data for the runs of the engine, and runs of its smaller parts.
pub mod Sending
pub mod Checkpoints
pub mod Receiving
pub mod Segments
use air_ferry.Prelude.{
  ℕ, ◌+◌, ◌-◌, ◌*◌, ◌/◌, ◌%◌, ◌^◌, ◌<◌, ◌≤◌, ◌≡◌, ◌≢◌, refl, max, Bool, true, false, ◌==◌, List, [],
  ◌∷◌, ◌++◌, length, take, replicate, Option, none, some, ok, err, arith,
}
use air_ferry.Codec.Meta.{ObjectMeta, max_object_bytes}
use air_ferry.Codec.Tests.{two_blocks}
use air_ferry.Engine.FileMeta.{FileMeta}
use air_ferry.Engine.Segment.{SegmentMeta}
use air_ferry.Engine.Utf8.Lossy.{from_utf8_lossy, lossy, take_byte, first_byte, later_byte}
use air_ferry.Engine.Utf8.{
  is_utf8, is_char_boundary, cut_at_char, cut_at_char-is_char_boundary, is_utf8-take, scan, next,
  lead,
}
use air_ferry.Engine.Descriptor.{
  filename_len, write_head, write_blocks, write_file, write_segment, body_len, build_payload_inner,
}
use air_ferry.Engine.Descriptor.Parse.{parse_payload}
use air_ferry.Engine.Descriptor.Blocks.{FileIsWords, as_parsed}
use air_ferry.Engine.Descriptor.RoundTrip.{MetaIsWords, parse_payload-build_payload}
use air_ferry.Engine.Stats
use air_ferry.Engine.Stats.{push_sample_at, stats_max_samples}
use air_ferry.Engine.Stats.Window.{IsWindowOf, push_sample_at-IsWindowOf}
use air_ferry.Engine.IngestStatus.{pack, pack-fields, pack-ingest_error, ingest_error}
use air_ferry.Engine.Receiver.{pre_meta_cache_max}
use air_ferry.Engine.Receiver.Cache.{pre_meta_cache_max-bytes}

abbrev pub a_txt : FileMeta
a_txt = record {
  filename = b'a' ∷ b'.' ∷ b't' ∷ b'x' ∷ b't' ∷ [];
  original_size = 200;
  crc32 = 9;
  compression = 0;
  compressed_size = 200;
  compressed_size_known = true;
  crc32_known = true;
}

-- Two old samples and a recent one.
abbrev sampled : Stats.Stats
sampled = record Stats.default {
  window =
      record { t_ms = 0; bytes = 9 }
      ∷ record { t_ms = 100; bytes = 8 }
      ∷ record { t_ms = 5000; bytes = 7 }
      ∷ [];
}

push_sample_at-IsWindowOf_example :
    IsWindowOf 3000
      (push_sample_at sampled 6000 1024).window
      (sampled.window ++ (record { t_ms = 6000; bytes = 1024 } ∷ []))
push_sample_at-IsWindowOf_example = push_sample_at-IsWindowOf sampled 6000 1024

recent_window :
    (push_sample_at sampled 6000 1024).window
    ≡ record { t_ms = 5000; bytes = 7 } ∷ record { t_ms = 6000; bytes = 1024 } ∷ []
unfolding push_sample_at Stats.evict_old Stats.evict_surplus
recent_window = refl

-- "é" and "a".
abbrev e_acute : List ℕ
e_acute = 0xC3 ∷ 0xA9 ∷ 0x61 ∷ []

-- A broken character is replaced once, and so is a byte that begins none.
replaced :
    from_utf8_lossy (0x61 ∷ 0xe2 ∷ 0x82 ∷ 0x62 ∷ 0xff ∷ [])
    ≡ 0x61 ∷ 0xef ∷ 0xbf ∷ 0xbd ∷ 0x62 ∷ 0xef ∷ 0xbf ∷ 0xbd ∷ []
unfolding from_utf8_lossy lossy take_byte first_byte later_byte lead next
replaced = refl

cut_at_char-is_char_boundary_example : is_char_boundary e_acute (cut_at_char e_acute 1) ≡ true
cut_at_char-is_char_boundary_example = cut_at_char-is_char_boundary e_acute 1

e_acute-text : is_utf8 e_acute ≡ true
unfolding is_utf8 scan next lead
e_acute-text = refl

e_acute-boundary : is_char_boundary e_acute 2 ≡ true
unfolding is_char_boundary
e_acute-boundary = refl

is_utf8-take_example : is_utf8 (take 2 e_acute) ≡ true
is_utf8-take_example = is_utf8-take e_acute 2 e_acute-text e_acute-boundary

pub two_blocks-words : MetaIsWords two_blocks
two_blocks-words = record {
  transfer_length = omega arith;
  symbol_size = omega arith;
  oti = refl;
  count = omega arith;
  blocks = (omega arith, omega arith, omega arith, (omega arith, omega arith, omega arith, tt));
}

pub a_txt-words : FileIsWords a_txt
unfolding is_utf8 scan next lead
a_txt-words = record {
  text = refl;
  original_size = omega arith;
  crc32 = omega arith;
  compressed_size = omega arith;
}

-- The descriptor of `two_blocks` and `a_txt`, in a symbol of 128 bytes.
abbrev pub descriptor_bytes : List ℕ
descriptor_bytes =
    213
    ∷ 3
    ∷ 0
    ∷ 2
    ∷ 0
    ∷ 0
    ∷ 0
    ∷ 0
    ∷ 0
    ∷ 0
    ∷ 0
    ∷ 200
    ∷ 0
    ∷ 0
    ∷ 0
    ∷ 128
    ∷ 200
    ∷ 128
    ∷ 2
    ∷ 1
    ∷ 8
    ∷ 0
    ∷ 0
    ∷ 0
    ∷ 0
    ∷ 0
    ∷ 0
    ∷ 0
    ∷ 0
    ∷ 0
    ∷ 0
    ∷ 0
    ∷ 0
    ∷ 0
    ∷ 0
    ∷ 1
    ∷ 0
    ∷ 0
    ∷ 0
    ∷ 0
    ∷ 0
    ∷ 0
    ∷ 0
    ∷ 128
    ∷ 0
    ∷ 0
    ∷ 0
    ∷ 1
    ∷ 0
    ∷ 0
    ∷ 0
    ∷ 1
    ∷ 0
    ∷ 0
    ∷ 0
    ∷ 0
    ∷ 0
    ∷ 0
    ∷ 0
    ∷ 128
    ∷ 5
    ∷ 97
    ∷ 46
    ∷ 116
    ∷ 120
    ∷ 116
    ∷ 0
    ∷ 0
    ∷ 0
    ∷ 0
    ∷ 0
    ∷ 0
    ∷ 0
    ∷ 200
    ∷ 0
    ∷ 0
    ∷ 0
    ∷ 9
    ∷ 0
    ∷ 0
    ∷ 0
    ∷ 0
    ∷ 0
    ∷ 0
    ∷ 0
    ∷ 0
    ∷ 200
    ∷ replicate 41 0

pub descriptor_bytes-built : build_payload_inner two_blocks a_txt none ≡ ok descriptor_bytes
unfolding build_payload_inner filename_len body_len write_head write_blocks write_file write_segment
    cut_at_char is_char_boundary
descriptor_bytes-built = refl

parse_payload-build_payload_example :
    (length descriptor_bytes ≡ 128)
    × (parse_payload descriptor_bytes
        ≡ some (record {
          meta = two_blocks;
          file_meta = as_parsed a_txt (filename_len two_blocks a_txt none);
          segment = none;
        }))
parse_payload-build_payload_example =
    parse_payload-build_payload two_blocks a_txt none descriptor_bytes two_blocks-words a_txt-words
      tt descriptor_bytes-built
