-- ===== src/Engine/Batch.antt =====
-- internal/engine/engine.go, the first half of writeSegmentBatch: what of a batch is written to a segment,
-- and which keys leave the index.
pub mod Latest
use wisp_trace_db.Prelude.{
  ℕ, suc, ◌+◌, Bool, true, false, not, Option, none, some, List, [], ◌∷◌, ◌++◌, map, keep,
  get_elem?, if◌then◌else◌,
}
use wisp_trace_db.Prelude.Bytes.{Bytes}
use wisp_trace_db.Prelude.Dict.{Dict, lookup, insert}
use wisp_trace_db.Wal.Span.{Span}
use wisp_trace_db.Segment.Format.{key_of}

-- pendingSpan: a span with the segment of the log that has its record, 0 where it was replayed.
pub record PendingSpan : Type 0 where
  pub span : Span
  pub wal_seg : ℕ

abbrev pub pending_key : PendingSpan → Bytes
pending_key p = key_of p.span

-- A key is listed where it appears first.
unfoldable pub listed : Bytes → Option ℕ → List Bytes → List Bytes
listed key (some j) order = order
listed key none order = order ++ key ∷ []

-- The loop that finds the last place of each key, and the keys by their first appearance.
unfoldable pub latest_loop : ℕ → List PendingSpan → Dict ℕ → List Bytes → Dict ℕ × List Bytes
unfolding listed
latest_loop i [] latest order = (latest, order)
latest_loop i (p ∷ ps) latest order =
    latest_loop (i + 1) ps (insert (pending_key p) i latest)
      (listed (pending_key p) (lookup (pending_key p) latest) order)

-- spans[latestAt[key]]
unfoldable pub span_at : List PendingSpan → Option ℕ → Option PendingSpan
span_at spans none = get_elem? spans 0
span_at spans (some i) = get_elem? spans i

abbrev cons_some : Option PendingSpan → List PendingSpan → List PendingSpan
cons_some none rest = rest
cons_some (some p) rest = p ∷ rest

unfoldable pub pick : List PendingSpan → Dict ℕ → List Bytes → List PendingSpan
unfolding span_at
pick spans latest [] = []
pick spans latest (key ∷ order) =
    cons_some (span_at spans (lookup key latest)) (pick spans latest order)

unfoldable pub dedupe : List PendingSpan → List PendingSpan
unfolding latest_loop pick
dedupe spans = let (latest, order) = latest_loop 0 spans [] [] in pick spans latest order

-- The loop that splits what is left.
unfoldable pub live_spans : List PendingSpan → List Span
live_spans ps = map (λ p. p.span) (keep (λ p. not p.span.deleted) ps)

unfoldable pub tombstone_keys : List PendingSpan → List Bytes
tombstone_keys ps = map pending_key (keep (λ p. p.span.deleted) ps)
