-- ===== src/Segment/Format.antt =====
-- The constants and data of internal/segment, shared by its writer and its reader.
use wisp_trace_db.Prelude.{ℕ, List, [], ◌∷◌, ◌++◌}
use wisp_trace_db.Prelude.Int.{ℤ}
use wisp_trace_db.Prelude.Bytes.{Bytes}
use wisp_trace_db.Prelude.Dict.{Dict}
use wisp_trace_db.Wal.Span.{Span}
use wisp_trace_db.Bloom.{DecodeError}

abbrev pub magic : ℕ
magic = 0x57545331

abbrev pub current_segment_version : ℕ
current_segment_version = 2

abbrev pub header_size : ℕ
header_size = 38

abbrev pub record_framing_size : ℕ
record_framing_size = 8

-- The names in BloomDimensions.
pub data Dimension : Type 0 where
  agent_id model tool_name team status : Dimension

abbrev pub bloom_dimensions : List Dimension
bloom_dimensions = agent_id ∷ model ∷ tool_name ∷ team ∷ status ∷ []

unfoldable pub dimension_value : Span → Dimension → Bytes
dimension_value s agent_id = s.agent_id
dimension_value s model = s.model
dimension_value s tool_name = s.tool_name
dimension_value s team = s.team
dimension_value s status = s.status

-- SegmentHeader.
pub record Header : Type 0 where
  pub segment_id : ℕ
  pub span_count : ℕ
  pub min_timestamp : ℤ
  pub max_timestamp : ℤ
  pub bloom_section_length : ℕ

-- WriteResult, without the path, which the id determines.
pub record WriteResult : Type 0 where
  pub segment_id : ℕ
  pub span_count : ℕ
  pub min_timestamp : ℤ
  pub max_timestamp : ℤ
  pub offsets : Dict ℕ

-- The errors of the package, without their texts.
pub data SegmentError : Type 0 where
  no_spans already_exists io_error : SegmentError
  eof unexpected_eof bad_magic bad_version : SegmentError
  bad_bloom : DecodeError → SegmentError
  checksum_mismatch bad_record not_found : SegmentError
  -- no Go value: a loop of the model ran out of fuel
  stuck : SegmentError

-- CompositeKey: the two ids with "||" between them.
unfoldable pub composite_key : Bytes → Bytes → Bytes
composite_key trace_id span_id = trace_id ++ (0x7c ∷ 0x7c ∷ span_id)

abbrev pub key_of : Span → Bytes
key_of s = composite_key s.trace_id s.span_id
