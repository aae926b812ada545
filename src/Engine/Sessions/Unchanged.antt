-- ===== src/Engine/Sessions/Unchanged.antt =====
-- internal/engine/engine.go, GetSpan before and after a flush of the session buffer.
use mathlib.Core.Path.{subst}
use wisp_trace_db.Prelude.{
  ◌≡◌, refl, sym, ◌∙◌, ap, ◌⊎◌, inl, inr, true, Option, none, some, List, [], ◌∷◌, ◌++◌,
  if◌then◌else◌, arith, Option-cases, Bool-cases, List-cases, Bool, All, Result, ok,
}
use wisp_trace_db.Prelude.Bytes.{Bytes, str_eq, str_eq→eq}
use wisp_trace_db.Prelude.Dict.{Dict, lookup, Distinct}
use wisp_trace_db.Wal.Span.{Span}
use wisp_trace_db.Segment.Format.{composite_key}
use wisp_trace_db.Index
use wisp_trace_db.Index.{Kv}
use wisp_trace_db.Index.Batches.{KvLaws}
use wisp_trace_db.Engine.Batch.{PendingSpan, pending_key, dedupe, live_spans}
use wisp_trace_db.Engine.Batch.Latest.{last_write}
use wisp_trace_db.Engine.Store.{Store, EngineError, resolve}
use wisp_trace_db.Engine.Flush.{write_batch}
use wisp_trace_db.Engine.Flush.Answers.{Fits, Answers}
use wisp_trace_db.Engine.Sessions.{Config, write_segment_batch, flush_all_sessions}
use wisp_trace_db.Engine.Sessions.Compacting.{Spares, write_segment_batch-Answers}
use wisp_trace_db.Engine.Buffer.{Buffer, TraceState, buffered_span, scan_back, all_spans, take_all}
use wisp_trace_db.Engine.Reads.{get_span}

-- Each session holds spans of its own trace.
abbrev pub IsSession : Bytes × TraceState → Type 0
IsSession (id, state) = All (λ p. p.span.trace_id ≡ id) state.spans

-- No span of another trace has the key: two traces can share one where an id has the separator.
abbrev pub IsApart : Bytes → Bytes → Bytes × TraceState → Type 0
IsApart trace_id key (id, state) = (str_eq id trace_id ≡ true) ⊎ (last_write key state.spans ≡ none)

str_eq-composite_key : (t a b : Bytes) → str_eq (composite_key t a) (composite_key t b) ≡ str_eq a b
unfolding str_eq composite_key
str_eq-composite_key [] a b = ground arith
str_eq-composite_key (c ∷ t) a b = ground (arith, str_eq-composite_key t a b)

abbrev span_of : Option PendingSpan → Option Span
span_of none = none
span_of (some p) = some p.span

scan_back-last_write :
    (t s : Bytes) (ps : List PendingSpan)
    → All (λ p. p.span.trace_id ≡ t) ps
    → scan_back s ps ≡ span_of (last_write (composite_key t s) ps)
unfolding scan_back last_write
scan_back-last_write t s [] h = refl
scan_back-last_write t s (p ∷ ps) h =
    let key : str_eq (pending_key p) (composite_key t s) ≡ str_eq p.span.span_id s =
      ap (λ x. str_eq (composite_key x p.span.span_id) (composite_key t s)) h.0
      ∙ str_eq-composite_key t p.span.span_id s in
    ground (arith, key, scan_back-last_write t s ps h.1)

last_write-append :
    (k : Bytes) (ps qs : List PendingSpan)
    → last_write k (ps ++ qs) ≡ elim (last_write k qs) [ some q ↦ some q | none ↦ last_write k ps ]
unfolding last_write
last_write-append k [] qs = ground arith
last_write-append k (p ∷ ps) qs = ground (arith, last_write-append k ps qs)

-- What bufferedSpan finds, before it looks at the tombstone.
abbrev session_span : Bytes → Bytes → Dict TraceState → Option Span
session_span t s sessions = elim (lookup t sessions) [
  | none ↦ none
  | some state ↦ scan_back s state.spans
]

last_write-behind :
    (k : Bytes) (ps qs : List PendingSpan)
    → last_write k ps ≡ none
    → last_write k (ps ++ qs) ≡ last_write k qs
last_write-behind k ps qs n = elim (Option-cases (last_write k qs)) [
  | inl e ↦ last_write-append k ps qs ∙ rw e n
  | inr (q, e) ↦ last_write-append k ps qs ∙ rw e refl
]

module _ (t s : Bytes) where
  nothing_there :
      (sessions : Dict TraceState)
      → lookup t sessions ≡ none
      → All (IsApart t (composite_key t s)) sessions
      → last_write (composite_key t s) (all_spans sessions) ≡ none
  unfolding lookup all_spans last_write
  nothing_there [] n h = refl
  nothing_there ((id, state) ∷ sessions) n h = elim (Bool-cases (str_eq id t)) [
    | inl same ↦ absurd (ground (arith, n, same))
    | inr other ↦
        let rest = nothing_there sessions (ground (arith, n, other)) h.1 in
        let here : last_write (composite_key t s) state.spans ≡ none = ground (arith, h.0, other) in
        last_write-append (composite_key t s) state.spans (all_spans sessions)
        ∙ rw (rest, here) refl
  ]

  session_span-all_spans :
      (sessions : Dict TraceState)
      → Distinct sessions
      → All IsSession sessions
      → All (IsApart t (composite_key t s)) sessions
      → session_span t s sessions ≡ span_of (last_write (composite_key t s) (all_spans sessions))
  unfolding lookup all_spans last_write
  session_span-all_spans [] d v h = refl
  session_span-all_spans ((id, state) ∷ sessions) d v h = elim (Bool-cases (str_eq id t)) [
    | inl same ↦
        let e = str_eq→eq id t same in
        let gone : lookup t sessions ≡ none = ap (λ x. lookup x sessions) (sym e) ∙ d.0 in
        let rest = nothing_there sessions gone h.1 in
        let mine =
          scan_back-last_write t s state.spans
            (subst (λ x. All (λ p. p.span.trace_id ≡ x) state.spans) e v.0) in
        let both = last_write-append (composite_key t s) state.spans (all_spans sessions) in
        rw (session_span, lookup, same, both, rest) mine
    | inr other ↦
        let here : last_write (composite_key t s) state.spans ≡ none = ground (arith, h.0, other) in
        let rest = session_span-all_spans sessions d.1 v.1 h.1 in
        let behind = last_write-behind (composite_key t s) state.spans (all_spans sessions) here in
        rw (session_span, lookup, other, behind) rest
  ]

-- Whether the batch or the older records answer.
abbrev answered :
    Option PendingSpan → Result EngineError (Option Span) → Result EngineError (Option Span)
answered none before = before
answered (some p) before = ok (if p.span.deleted then none else some p.span)

get_span-answered :
    (kv : Kv) (t s : Bytes) (b : Buffer) (w : Store kv)
    → Distinct b.sessions
    → All IsSession b.sessions
    → All (IsApart t (composite_key t s)) b.sessions
    → get_span kv t s b w
      ≡ answered
          (last_write (composite_key t s) (all_spans b.sessions))
          (resolve w.dir (Index.get_span kv (composite_key t s) w.index))
unfolding get_span buffered_span
get_span-answered kv t s b w d v h =
    let found = session_span-all_spans t s b.sessions d v h in
    elim (Option-cases (last_write (composite_key t s) (all_spans b.sessions))) [
      | inl n ↦ elim (Option-cases (lookup t b.sessions)) [
        | inl l ↦ ground (arith, n, l)
        | inr (state, l) ↦ ground (arith, n, l, found)
      ]
      | inr (p, n) ↦ elim (Option-cases (lookup t b.sessions)) [
        | inl l ↦ absurd (ground (arith, n, l, found))
        | inr (state, l) ↦ ground (arith, n, l, found)
      ]
    ]

answered-Answers :
    (last : Option PendingSpan) (before after : Result EngineError (Option Span)) (x : Option Span)
    → Answers last before after
    → answered last before ≡ ok x
    → after ≡ ok x
answered-Answers none before after x h e = h x e
answered-Answers (some p) before after x h e = h ∙ e

-- A flushAllSessions that returns no error does not change what GetSpan answers, its inline compaction
-- included: what it answered for a span before, from buffer or index, it answers afterwards from the
-- index alone, over a store that does what pebble documents, where every session holds spans of its
-- own trace and no span of another trace in the buffer has the key of this one. The compaction,
-- where the flush leads to one, is taken to end with no error and not to merge the segment where
-- the record of the span is once the batch is written; the sizes of what is written are taken to fit
-- their fields.
pub get_span-flush_all_sessions :
    (kv : Kv) (laws : KvLaws kv) (cfg : Config) (recovering : Bool) (b : Buffer) (w : Store kv)
    (state : kv.State) (t s : Bytes) (x : Option Span)
    → w.index ≡ some state
    → Distinct b.sessions
    → All IsSession b.sessions
    → All (IsApart t (composite_key t s)) b.sessions
    → Fits cfg.sizing w.next_segment_id (live_spans (dedupe (take_all b).0))
    → ((y : Span) (ys : List Span)
        → live_spans (dedupe (take_all b).0) ≡ y ∷ ys
        → Spares kv laws
            (composite_key t s)
            cfg
            recovering
            (write_batch cfg.sizing cfg.flush_io (take_all b).0 w).0)
    → let v = flush_all_sessions cfg recovering b w in
      v.1 ≡ ok tt → get_span kv t s b w ≡ ok x → get_span kv t s v.0.0 v.0.1 ≡ ok x
unfolding flush_all_sessions get_span take_all buffered_span lookup Index.get_span last_write
get_span-flush_all_sessions kv laws cfg recovering b w state t s x i d v h fits spares e g =
    let before = sym (get_span-answered kv t s b w d v h) ∙ g in
    elim (List-cases (all_spans b.sessions)) [
      | inl n ↦ rw (flush_all_sessions, take_all, n) (rw n at before)
      | inr (p, ps, n) ↦
          let flushed = write_segment_batch cfg recovering (p ∷ ps) w in
          let done = rw (flush_all_sessions, take_all, n) at e in
          rw (flush_all_sessions, take_all, n)
            (answered-Answers (last_write (composite_key t s) (p ∷ ps))
              (resolve w.dir (Index.get_span kv (composite_key t s) w.index)) _ x
              (write_segment_batch-Answers kv laws (composite_key t s) cfg recovering (p ∷ ps) state
                w i (rw n at fits) (rw n at spares) done)
              (rw n at before))
    ]
