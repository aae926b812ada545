-- ===== src/Wal/Span.antt =====
-- The data of internal/wal/wal.go: a span and a log record, and what can go wrong with them.
use wisp_trace_db.Prelude.{ℕ, ◌*◌, ◌^◌, ◌<◌, Bool, false, [], length}
use wisp_trace_db.Prelude.Int.{ℤ, pos, IsInt32, IsInt64}
use wisp_trace_db.Prelude.Bytes.{Bytes}

-- SpanPayload. `cost` is the 64-bit pattern of the float, math.Float64bits of it.
pub record Span : Type 0 where
  pub trace_id : Bytes
  pub span_id : Bytes
  pub parent_span_id : Bytes
  pub timestamp : ℤ
  pub agent_id : Bytes
  pub model : Bytes
  pub tool_name : Bytes
  pub team : Bytes
  pub status : Bytes
  pub tokens_in : ℤ
  pub tokens_out : ℤ
  pub cost : ℕ
  pub latency_ms : ℤ
  pub payload : Bytes
  pub deleted : Bool

-- SpanPayload{}, Go's zero value.
abbrev pub empty_span : Span
empty_span = record {
  trace_id = [];
  span_id = [];
  parent_span_id = [];
  timestamp = pos 0;
  agent_id = [];
  model = [];
  tool_name = [];
  team = [];
  status = [];
  tokens_in = pos 0;
  tokens_out = pos 0;
  cost = 0;
  latency_ms = pos 0;
  payload = [];
  deleted = false;
}

-- WALRecord, with the version of its WALMetadata.
pub record WalRecord : Type 0 where
  pub version : ℕ
  pub span : Span

-- The errors of the package, without their texts. `eof` and `unexpected_eof` are io's.
pub data WalError : Type 0 where
  short_payload short_string_length short_string short_blob_length short_blob : WalError
  eof unexpected_eof record_too_large bad_version checksum_mismatch : WalError
  closed io_error : WalError
  -- no Go value: a loop of the model ran out of fuel
  stuck : WalError

abbrev pub current_wal_version : ℕ
current_wal_version = 1

abbrev pub default_max_segment_size : ℕ
default_max_segment_size = 4 * 1024 * 1024

abbrev pub record_header_size : ℕ
record_header_size = 9

abbrev pub max_record_size : ℕ
max_record_size = 64 * 2 ^ 20

abbrev pub fixed_payload_header_size : ℕ
fixed_payload_header_size = 33

abbrev pub str_len_size : ℕ
str_len_size = 2

abbrev pub blob_len_size : ℕ
blob_len_size = 4

-- The values that Go's types allow, and the lengths that the prefixes of the encoding can hold.
pub record IsEncodable (s : Span) : Type 0 where
  pub trace_id : length s.trace_id < 2 ^ 16
  pub span_id : length s.span_id < 2 ^ 16
  pub parent_span_id : length s.parent_span_id < 2 ^ 16
  pub agent_id : length s.agent_id < 2 ^ 16
  pub model : length s.model < 2 ^ 16
  pub tool_name : length s.tool_name < 2 ^ 16
  pub team : length s.team < 2 ^ 16
  pub status : length s.status < 2 ^ 16
  pub timestamp : IsInt64 s.timestamp
  pub tokens_in : IsInt32 s.tokens_in
  pub tokens_out : IsInt32 s.tokens_out
  pub cost : s.cost < 2 ^ 64
  pub latency_ms : IsInt64 s.latency_ms
  pub payload : length s.payload < 2 ^ 32
