-- ===== src/Engine/Reads/Written.antt =====
-- internal/engine/engine.go: GetSpan behind the insertion of a span into the session buffer.
use wisp_trace_db.Prelude.{
  ◌≡◌, refl, sym, ◌∙◌, ap, ◌&&◌, inl, inr, Option, none, some, List, [], ◌∷◌, ◌++◌, if◌then◌else◌,
  arith, Bool-cases, ok,
}
use wisp_trace_db.Prelude.Int.{ℤ}
use wisp_trace_db.Prelude.Bytes.{Bytes, str_eq, str_eq→eq}
use wisp_trace_db.Prelude.Dict.{lookup, lookup-insert}
use wisp_trace_db.Wal.Span.{Span}
use wisp_trace_db.Index.{Kv}
use wisp_trace_db.Engine.Batch.{PendingSpan}
use wisp_trace_db.Engine.Store.{Store}
use wisp_trace_db.Engine.Buffer.{
  TraceState, Buffer, Buffered, unknown, deleted, buffered, spans_of, buffer_span, scan_back,
  buffered_span,
}
use wisp_trace_db.Engine.Reads.{get_span}

scan_back-append :
    (span_id : Bytes) (ps : List PendingSpan) (p : PendingSpan)
    → scan_back span_id (ps ++ p ∷ [])
      ≡ (if str_eq p.span.span_id span_id then some p.span else scan_back span_id ps)
unfolding scan_back
scan_back-append span_id [] p = ground arith
scan_back-append span_id (q ∷ ps) p = ground (arith, scan_back-append span_id ps p)

abbrev known : Span → Buffered
known s = if s.deleted then deleted else buffered s

abbrev answer : Option Span → Buffered
answer none = unknown
answer (some s) = known s

-- A missing session is an empty one.
buffered_span-spans_of :
    (t s : Bytes) (b : Buffer)
    → buffered_span t s b ≡ answer (scan_back s (spans_of (lookup t b.sessions)))
unfolding buffered_span scan_back
buffered_span-spans_of t s b = ground arith

buffered_span-buffer_span :
    (t s : Bytes) (now : ℤ) (p : PendingSpan) (b : Buffer)
    → buffered_span t s (buffer_span now p b) ≡ (
        if str_eq p.span.trace_id t && str_eq p.span.span_id s
        then known p.span
        else buffered_span t s b)
unfolding buffer_span
buffered_span-buffer_span t s now p b =
    let session = spans_of (lookup p.span.trace_id b.sessions) in
    let state : TraceState = record { spans = session ++ p ∷ []; last_seen = now } in
    let there = lookup-insert p.span.trace_id t state b.sessions in
    let after = buffered_span-spans_of t s (buffer_span now p b) in
    let before = buffered_span-spans_of t s b in
    let read = λ (l : Option TraceState). answer (scan_back s (spans_of l)) in
    elim (Bool-cases (str_eq p.span.trace_id t)) [
      | inr other ↦
          let kept : lookup t (buffer_span now p b).sessions ≡ lookup t b.sessions =
            there ∙ rw other refl in
          rw other (after ∙ ap read kept ∙ sym before)
      | inl same ↦
          let put : lookup t (buffer_span now p b).sessions ≡ some state = there ∙ rw same refl in
          let found = after ∙ ap read put ∙ ap answer (scan_back-append s session p) in
          let mine : answer (scan_back s session) ≡ buffered_span t s b =
            ap (λ k. read (lookup k b.sessions)) (str_eq→eq p.span.trace_id t same) ∙ sym before in
          elim (Bool-cases (str_eq p.span.span_id s)) [
            | inl hit ↦ rw (same, hit) (found ∙ rw hit refl)
            | inr miss ↦ rw (same, miss) (found ∙ rw miss mine)
          ]
    ]

-- Once a span is in the session buffer, GetSpan answers for its ids with that span, or that it does not
-- exist where the span is a tombstone, whatever buffer, index and segments held before; for any other
-- ids it answers as before.
pub get_span-buffer_span :
    (kv : Kv) (t s : Bytes) (now : ℤ) (p : PendingSpan) (b : Buffer) (w : Store kv)
    → get_span kv t s (buffer_span now p b) w ≡ (
        if str_eq p.span.trace_id t && str_eq p.span.span_id s
        then ok (if p.span.deleted then none else some p.span)
        else get_span kv t s b w)
unfolding get_span
get_span-buffer_span kv t s now p b w =
    let found = buffered_span-buffer_span t s now p b in
    elim (Bool-cases (str_eq p.span.trace_id t && str_eq p.span.span_id s)) [
      | inr other ↦ rw (get_span, found, other) refl
      | inl same ↦ elim (Bool-cases p.span.deleted) [
        | inl d ↦ rw (get_span, found, same, d) refl
        | inr d ↦ rw (get_span, found, same, d) refl
      ]
    ]
