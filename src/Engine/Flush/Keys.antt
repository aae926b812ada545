-- ===== src/Engine/Flush/Keys.antt =====
-- internal/engine/engine.go, writeSegmentBatch: the keys of the two parts of a batch.
use wisp_trace_db.Prelude.{
  ℕ, ◌<◌, ◌^◌, ◌≡◌, refl, sym, ◌∙◌, ap, inl, inr, Bool, false, Option, none, some, List, [], ◌∷◌,
  if◌then◌else◌, arith, Option-cases, Bool-cases, All,
}
use wisp_trace_db.Prelude.Bytes.{Bytes, str_eq, str_eq→eq}
use wisp_trace_db.Prelude.Dict.{Dict, lookup, insert, lookup-insert, Distinct, insert-Distinct}
use wisp_trace_db.Wal.Span.{Span}
use wisp_trace_db.Segment.Format.{key_of}
use wisp_trace_db.Index.{SpanLocation}
use wisp_trace_db.Index.Location.{IsLocation}
use wisp_trace_db.Index.Batches.{has_key}
use wisp_trace_db.Engine.Batch.{PendingSpan, pending_key, live_spans, tombstone_keys}
use wisp_trace_db.Engine.Batch.Latest.{find_pending, OnceEach}
use wisp_trace_db.Engine.Flush.{batch_entries}

-- The first span with a key.
unfoldable pub find_span : Bytes → List Span → Option Span
find_span k [] = none
find_span k (s ∷ ss) = if str_eq (key_of s) k then some s else find_span k ss

-- The span of a key that is not deleted, and whether the key is deleted.
abbrev pub live_of : Option PendingSpan → Option Span
live_of none = none
live_of (some p) = if p.span.deleted then none else some p.span

abbrev pub is_tombstone : Option PendingSpan → Bool
is_tombstone none = false
is_tombstone (some p) = p.span.deleted

pub find-live_spans :
    (k : Bytes) (ps : List PendingSpan)
    → OnceEach ps
    → find_span k (live_spans ps) ≡ live_of (find_pending k ps)
unfolding find_span live_spans find_pending
find-live_spans k [] h = refl
find-live_spans k (p ∷ ps) h =
    let rest = find-live_spans k ps h.1 in
    elim (Bool-cases (str_eq (pending_key p) k)) [
      | inl same ↦
          let gone : find_pending k ps ≡ none =
            ap (λ x. find_pending x ps) (sym (str_eq→eq (pending_key p) k same)) ∙ h.0 in
          ground (arith, same, gone, rest)
      | inr other ↦ ground (arith, other, rest)
    ]

pub has_key-tombstone_keys :
    (k : Bytes) (ps : List PendingSpan)
    → OnceEach ps
    → has_key k (tombstone_keys ps) ≡ is_tombstone (find_pending k ps)
unfolding has_key tombstone_keys find_pending
has_key-tombstone_keys k [] h = refl
has_key-tombstone_keys k (p ∷ ps) h =
    let rest = has_key-tombstone_keys k ps h.1 in
    elim (Bool-cases (str_eq (pending_key p) k)) [
      | inl same ↦
          let gone : find_pending k ps ≡ none =
            ap (λ x. find_pending x ps) (sym (str_eq→eq (pending_key p) k same)) ∙ h.0 in
          ground (arith, same, gone, rest)
      | inr other ↦ ground (arith, other, rest)
    ]

-- No key stands twice.
abbrev pub Unrepeated : List Span → Type 0
Unrepeated [] = Unit
Unrepeated (s ∷ ss) = (find_span (key_of s) ss ≡ none) × Unrepeated ss

pub live_spans-Unrepeated : (ps : List PendingSpan) → OnceEach ps → Unrepeated (live_spans ps)
unfolding live_spans
live_spans-Unrepeated [] h = tt
live_spans-Unrepeated (p ∷ ps) h = elim (Bool-cases p.span.deleted) [
  | inl d ↦ rw d (live_spans-Unrepeated ps h.1)
  | inr d ↦
      rw d (find-live_spans (pending_key p) ps h.1 ∙ ap live_of h.0, live_spans-Unrepeated ps h.1)
]

-- The entries of a batch: the offset of each key, in the new segment.
abbrev pub located_at : ℕ → Option ℕ → Option SpanLocation
located_at id none = none
located_at id (some off) = some (record { segment_id = id; offset = off })

module _ (id : ℕ) (offsets : Dict ℕ) where
  pub lookup-batch_entries :
      (k : Bytes) (ss : List Span) (m : Dict SpanLocation)
      → lookup k (batch_entries id offsets ss m) ≡ elim (find_span k ss) [
        | none ↦ lookup k m
        | some s ↦ elim (lookup k offsets) [
          | none ↦ lookup k m
          | some off ↦ some (record { segment_id = id; offset = off })
        ]
      ]
  unfolding batch_entries find_span lookup
  lookup-batch_entries k [] m = refl
  lookup-batch_entries k (s ∷ ss) m = elim (Option-cases (lookup (key_of s) offsets)) [
    | inl n ↦ rw n (elim (Bool-cases (str_eq (key_of s) k)) [
      | inl same ↦
          let e = ap (λ x. lookup x offsets) (sym (str_eq→eq (key_of s) k same)) ∙ n in
          ground (arith, same, e, lookup-batch_entries k ss m)
      | inr other ↦ ground (arith, other, lookup-batch_entries k ss m)
    ])
    | inr (off, n) ↦
        let loc : SpanLocation = record { segment_id = id; offset = off } in
        let m' = insert (key_of s) loc m in
        let there = lookup-insert (key_of s) k loc m in
        rw n (elim (Bool-cases (str_eq (key_of s) k)) [
          | inl same ↦
              let e = ap (λ x. lookup x offsets) (sym (str_eq→eq (key_of s) k same)) ∙ n in
              ground (arith, same, e, there, lookup-batch_entries k ss m')
          | inr other ↦ ground (arith, other, there, lookup-batch_entries k ss m')
        ])
  ]

  pub batch_entries-Distinct :
      (ss : List Span) (m : Dict SpanLocation)
      → Distinct m
      → Distinct (batch_entries id offsets ss m)
  unfolding batch_entries
  batch_entries-Distinct [] m h = h
  batch_entries-Distinct (s ∷ ss) m h = elim (Option-cases (lookup (key_of s) offsets)) [
    | inl n ↦ rw n (batch_entries-Distinct ss m h)
    | inr (off, n) ↦
        let loc : SpanLocation = record { segment_id = id; offset = off } in
        rw n
          (batch_entries-Distinct ss (insert (key_of s) loc m) (insert-Distinct (key_of s) loc m h))
  ]

  insert-IsLocation :
      (k : Bytes) (loc : SpanLocation) (m : Dict SpanLocation)
      → IsLocation loc
      → All (λ p. IsLocation p.1) m
      → All (λ p. IsLocation p.1) (insert k loc m)
  unfolding insert
  insert-IsLocation k loc [] h hs = (h, tt)
  insert-IsLocation k loc ((j, l) ∷ m) h hs = elim (Bool-cases (str_eq j k)) [
    | inl same ↦ rw same (h, hs.1)
    | inr other ↦ rw other (hs.0, insert-IsLocation k loc m h hs.1)
  ]

  pub batch_entries-IsLocation :
      (ss : List Span) (m : Dict SpanLocation)
      → id < 2 ^ 64
      → ((k : Bytes) (off : ℕ) → lookup k offsets ≡ some off → off < 2 ^ 64)
      → All (λ p. IsLocation p.1) m
      → All (λ p. IsLocation p.1) (batch_entries id offsets ss m)
  unfolding batch_entries
  batch_entries-IsLocation [] m l b h = h
  batch_entries-IsLocation (s ∷ ss) m l b h = elim (Option-cases (lookup (key_of s) offsets)) [
    | inl n ↦ rw n (batch_entries-IsLocation ss m l b h)
    | inr (off, n) ↦
        let loc : SpanLocation = record { segment_id = id; offset = off } in
        let fits : IsLocation loc = record { segment_id = l; offset = b (key_of s) off n } in
        rw n (
          batch_entries-IsLocation ss (insert (key_of s) loc m) l b
            (insert-IsLocation (key_of s) loc m fits h))
  ]
