-- ===== src/Tests/Segment.antt =====
-- Examples for segment files and the manifest.
use wisp_trace_db.Prelude.{◌≡◌, refl, [], ◌∷◌, All, ok, arith}
use wisp_trace_db.Prelude.Int.{pos}
use wisp_trace_db.Wal.Span.{Span, empty_span, IsEncodable}
use wisp_trace_db.Wal.Codec.{encode_span_payload, payload_encoded_size}
use wisp_trace_db.Wal.Codec.Sizes.{length-encode_payload}
use wisp_trace_db.Segment.Format.{bloom_dimensions}
use wisp_trace_db.Segment.Writer.{Sizing, header_of, start_of, file_of, zone_min, zone_max, located}
use wisp_trace_db.Segment.Reader.{Reader, open_reader, scan_all}
use wisp_trace_db.Segment.Reader.Opening.{
  IsSizing, IsHeader, filters, build_bloom_section-lt, open_reader-file_of,
}
use wisp_trace_db.Segment.Reader.Scanning.{IsRecordable}
use wisp_trace_db.Segment.Reader.Flushed.{IsReaderOf, scan_all-flushed}

abbrev pub sizing : Sizing
sizing = record { ceiled = λ n. 16; rounded = λ m n. 7 }

pub sizing-IsSizing : IsSizing sizing
sizing-IsSizing = record { ceiled = λ n. omega arith; rounded = λ m n. omega arith }

abbrev pub early : Span
early = record empty_span {
  trace_id = 0x74 ∷ [];
  span_id = 0x61 ∷ [];
  timestamp = pos 5;
  model = 0x6d ∷ [];
}

abbrev pub late : Span
late = record empty_span { trace_id = 0x74 ∷ []; span_id = 0x62 ∷ []; timestamp = pos 9 }

early-IsEncodable : IsEncodable early
early-IsEncodable = record {
  trace_id = omega arith;
  span_id = omega arith;
  parent_span_id = omega arith;
  agent_id = omega arith;
  model = omega arith;
  tool_name = omega arith;
  team = omega arith;
  status = omega arith;
  timestamp = (omega arith, omega arith);
  tokens_in = (omega arith, omega arith);
  tokens_out = (omega arith, omega arith);
  cost = omega arith;
  latency_ms = (omega arith, omega arith);
  payload = omega arith;
}

late-IsEncodable : IsEncodable late
late-IsEncodable = record {
  trace_id = omega arith;
  span_id = omega arith;
  parent_span_id = omega arith;
  agent_id = omega arith;
  model = omega arith;
  tool_name = omega arith;
  team = omega arith;
  status = omega arith;
  timestamp = (omega arith, omega arith);
  tokens_in = (omega arith, omega arith);
  tokens_out = (omega arith, omega arith);
  cost = omega arith;
  latency_ms = (omega arith, omega arith);
  payload = omega arith;
}

pub early_size : payload_encoded_size early ≡ 56
unfolding payload_encoded_size
early_size = refl

pub late_size : payload_encoded_size late ≡ 55
unfolding payload_encoded_size
late_size = refl

pub spans-AreRecordable : All IsRecordable (early ∷ late ∷ [])
unfolding encode_span_payload
spans-AreRecordable = (
  record {
    encodable = early-IsEncodable;
    size = omega (arith, length-encode_payload early, early_size);
  },
  (
    record {
      encodable = late-IsEncodable;
      size = omega (arith, length-encode_payload late, late_size);
    },
    tt,
  ),
)

abbrev reader : Reader
reader = record {
  file = file_of sizing 7 early (late ∷ []);
  header = header_of sizing 7 early (late ∷ []);
  blooms = [];
}

reader-IsReaderOf : IsReaderOf reader sizing 7 early (late ∷ [])
reader-IsReaderOf = record { file = refl; header = refl }

pub flushed-IsHeader : IsHeader (header_of sizing 7 early (late ∷ []))
unfolding header_of zone_min zone_max
flushed-IsHeader = record {
  segment_id = omega arith;
  span_count = omega arith;
  min_timestamp = (omega arith, omega arith);
  max_timestamp = (omega arith, omega arith);
  bloom_section_length = build_bloom_section-lt sizing (early ∷ late ∷ []) sizing-IsSizing;
}

open_reader-file_of_example :
    open_reader (file_of sizing 7 early (late ∷ []))
    ≡ ok (record {
      file = file_of sizing 7 early (late ∷ []);
      header = header_of sizing 7 early (late ∷ []);
      blooms = filters sizing (early ∷ late ∷ []) bloom_dimensions;
    })
open_reader-file_of_example =
    open_reader-file_of sizing 7 early (late ∷ []) sizing-IsSizing flushed-IsHeader

scan_all-flushed_example :
    scan_all reader
    ≡ ok (located (start_of (header_of sizing 7 early (late ∷ []))) (early ∷ late ∷ []))
scan_all-flushed_example =
    scan_all-flushed reader sizing 7 early (late ∷ []) reader-IsReaderOf spans-AreRecordable
