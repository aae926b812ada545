-- ===== src/Engine/Buffer.antt =====
-- internal/engine/engine.go, the session buffer: the spans that are in the log and in no segment yet, by
-- their trace.
use wisp_trace_db.Prelude.{
  ℕ, ◌+◌, ◌-◌, Bool, not, ◌&&◌, Option, none, some, List, [], ◌∷◌, ◌++◌, length, if◌then◌else◌,
}
use wisp_trace_db.Prelude.Int.{ℤ}
use wisp_trace_db.Prelude.Bytes.{Bytes, str_eq}
use wisp_trace_db.Prelude.Dict.{Dict, lookup, insert}
use wisp_trace_db.Wal.Span.{Span}
use wisp_trace_db.Engine.Batch.{PendingSpan, pending_key}

-- traceState
pub record TraceState : Type 0 where
  pub spans : List PendingSpan
  pub last_seen : ℤ

pub record Buffer : Type 0 where
  pub sessions : Dict TraceState
  pub span_count : ℕ

abbrev pub spans_of : Option TraceState → List PendingSpan
spans_of none = []
spans_of (some state) = state.spans

-- processSpan's part on the buffer, at the time `now`.
unfoldable pub buffer_span : ℤ → PendingSpan → Buffer → Buffer
buffer_span now p b =
    let state = lookup p.span.trace_id b.sessions in
    record {
      sessions =
          insert p.span.trace_id (record { spans = spans_of state ++ p ∷ []; last_seen = now })
            b.sessions;
      span_count = b.span_count + 1;
    }

-- bufferedSpan's loop, which goes through the session backwards.
unfoldable pub scan_back : Bytes → List PendingSpan → Option Span
scan_back span_id [] = none
scan_back span_id (p ∷ ps) = elim (scan_back span_id ps) [
  | some s ↦ some s
  | none ↦ if str_eq p.span.span_id span_id then some p.span else none
]

-- What the buffer knows of a span: nothing, that it is deleted, or the span.
pub data Buffered : Type 0 where
  unknown : Buffered
  deleted : Buffered
  buffered : Span → Buffered

unfoldable pub buffered_span : Bytes → Bytes → Buffer → Buffered
unfolding scan_back
buffered_span trace_id span_id b = elim (lookup trace_id b.sessions) [
  | none ↦ unknown
  | some state ↦ elim (scan_back span_id state.spans) [
    | none ↦ unknown
    | some s ↦ if s.deleted then deleted else buffered s
  ]
]

-- bufferedSpansByKey: the last write of each key, and the keys by their first appearance.
unfoldable pub collect_spans : List PendingSpan → Dict Span → List Bytes → Dict Span × List Bytes
collect_spans [] by_key order = (by_key, order)
collect_spans (p ∷ ps) by_key order =
    collect_spans ps (insert (pending_key p) p.span by_key)
      (elim (lookup (pending_key p) by_key) [ some s ↦ order | none ↦ order ++ pending_key p ∷ [] ])

unfoldable pub collect_sessions :
    Bytes → Dict TraceState → Dict Span → List Bytes → Dict Span × List Bytes
unfolding collect_spans
collect_sessions trace_id [] by_key order = (by_key, order)
collect_sessions trace_id ((id, state) ∷ sessions) by_key order =
    if not (str_eq trace_id []) && not (str_eq id trace_id)
    then collect_sessions trace_id sessions by_key order
    else let (by_key', order') = collect_spans state.spans by_key order in
      collect_sessions trace_id sessions by_key' order'

unfoldable pub buffered_spans_by_key : Bytes → Buffer → Dict Span × List Bytes
unfolding collect_sessions
buffered_spans_by_key trace_id b = collect_sessions trace_id b.sessions [] []

-- The loops of flushAllSessions and flushExpiredSessions: what is flushed, and what stays.
unfoldable pub all_spans : Dict TraceState → List PendingSpan
all_spans [] = []
all_spans ((id, state) ∷ sessions) = state.spans ++ all_spans sessions

unfoldable pub take_all : Buffer → List PendingSpan × Buffer
unfolding all_spans
take_all b = (all_spans b.sessions, record { sessions = []; span_count = 0 })

-- `is_expired` says of a session's last_seen whether it is too old.
unfoldable pub split_expired : (ℤ → Bool) → Dict TraceState → List PendingSpan × Dict TraceState
split_expired is_expired [] = ([], [])
split_expired is_expired ((id, state) ∷ sessions) =
    let (out, kept) = split_expired is_expired sessions in
    if is_expired state.last_seen then (state.spans ++ out, kept) else (out, (id, state) ∷ kept)

unfoldable pub take_expired : (ℤ → Bool) → Buffer → List PendingSpan × Buffer
unfolding split_expired
take_expired is_expired b =
    let (out, kept) = split_expired is_expired b.sessions in
    (out, record { sessions = kept; span_count = b.span_count - length out })
