-- ===== src/Engine/Flush/Answers.antt =====
-- internal/engine/engine.go, writeSegmentBatch: what a lookup answers once a batch is committed.
use wisp_trace_db.Prelude.{
  ℕ, ◌+◌, ◌<◌, ◌^◌, ◌≡◌, refl, sym, ◌∙◌, ap, inl, inr, Bool, false, Option, none, some, List, [],
  ◌∷◌, ◌++◌, length, if◌then◌else◌, arith, Option-cases, Bool-cases, All, Result, ok, err,
}
use wisp_trace_db.Prelude.Stages.{◌>>◌, and_then_ok, wrap_ok}
use wisp_trace_db.Prelude.Bytes.{Bytes}
use wisp_trace_db.Prelude.Dict.{Dict, lookup}
use wisp_trace_db.Wal.Span.{Span}
use wisp_trace_db.Segment.Format.{WriteResult}
use wisp_trace_db.Segment.Writer
use wisp_trace_db.Segment.Writer.{
  Sizing, Dir, read_file, write_records, header_of, start_of, file_of,
}
use wisp_trace_db.Segment.Reader.{read_at}
use wisp_trace_db.Segment.Reader.Opening.{IsHeader}
use wisp_trace_db.Segment.Reader.Scanning.{IsRecordable}
use wisp_trace_db.Segment.Offsets.{reported, read_file-append}
use wisp_trace_db.Index
use wisp_trace_db.Index.{Kv, SpanLocation, IndexError, get_span, batch_apply_spans}
use wisp_trace_db.Index.Batches.{applied}
use wisp_trace_db.Engine.Batch.{PendingSpan, live_spans, tombstone_keys}
use wisp_trace_db.Engine.Batch.Latest.{find_pending, OnceEach}
use wisp_trace_db.Engine.Store.{
  Store, EngineError, index_failed, acquire_segment, read_location, resolve,
}
use wisp_trace_db.Engine.Flush.{Stage, batch_entries, apply_index}
use wisp_trace_db.Engine.Flush.Aside.{IsAside}
use wisp_trace_db.Engine.Flush.Keys.{
  find_span, live_of, find-live_spans, has_key-tombstone_keys, live_spans-Unrepeated,
  lookup-batch_entries,
}
use wisp_trace_db.Engine.Flush.Found.{light, open_reader_light-file_of, reported_found}

pub flush_ok :
    (z : Sizing) (io_ok : Bool) (id : ℕ) (s : Span) (ss : List Span) (dir : Dir) (res : WriteResult)
    → (Writer.flush z io_ok id (s ∷ ss) dir).1 ≡ ok res
    → (read_file id dir ≡ none)
      × ((Writer.flush z io_ok id (s ∷ ss) dir).0 ≡ dir ++ (id, file_of z id s ss) ∷ [])
      × (res.segment_id ≡ id)
      × (res.offsets ≡ reported z id s ss)
unfolding Writer.flush
flush_ok z io_ok id s ss dir res e = elim (Option-cases (read_file id dir)) [
  | inr (b, f) ↦ absurd (ground (arith, f, e))
  | inl f ↦ elim (Bool-cases io_ok) [
    | inr n ↦ absurd (ground (arith, f, n, e))
    | inl y ↦ (f, ground (arith, f, y), ground (arith, f, y, e), ground (arith, f, y, e))
  ]
]

read_file-new :
    (id : ℕ) (b : Bytes) (dir : Dir)
    → read_file id dir ≡ none
    → read_file id (dir ++ (id, b) ∷ []) ≡ some b
unfolding read_file
read_file-new id b [] h = ground arith
read_file-new id b ((j, c) ∷ dir) h = ground (arith, h, read_file-new id b dir)

resolve-append :
    (id : ℕ) (b : Bytes) (dir : Dir) (r : Result IndexError SpanLocation) (x : Option Span)
    → resolve dir r ≡ ok x
    → resolve (dir ++ (id, b) ∷ []) r ≡ ok x
unfolding resolve read_location acquire_segment
resolve-append id b dir (err Index.not_found) x h = h
resolve-append id b dir (err Index.closed) x h = h
resolve-append id b dir (err Index.bad_location) x h = h
resolve-append id b dir (err Index.store_failed) x h = h
resolve-append id b dir (ok loc) x h = elim (Option-cases (read_file loc.segment_id dir)) [
  | inl n ↦ absurd (ground (arith, n, h))
  | inr (c, n) ↦
      let m = read_file-append id loc.segment_id b c dir n in
      rw (resolve, read_location, acquire_segment, m)
        (rw (resolve, read_location, acquire_segment, n) at h)
]

-- The spans of the new segment fit the fields of their records and of the header, and the segment's
-- offsets 64 bits.
abbrev pub Fits : Sizing → ℕ → List Span → Type 0
Fits z id [] = Unit
Fits z id (s ∷ ss) =
    All IsRecordable (s ∷ ss)
    × IsHeader (header_of z id s ss)
    × (id < 2 ^ 64)
    × (start_of (header_of z id s ss) + length (write_records (s ∷ ss)) < 2 ^ 64)

-- What a lookup answers after a batch of which `last` is the last write of the key.
abbrev pub Answers :
    Option PendingSpan
    → Result EngineError (Option Span)
    → Result EngineError (Option Span)
    → Type 0
Answers none before after = (x : Option Span) → before ≡ ok x → after ≡ ok x
Answers (some p) before after = after ≡ ok (if p.span.deleted then none else some p.span)

-- A stretch that commits a batch to the index, and then leaves index and segments alone.
pub commit_ok :
    {kv : Kv} (puts : Dict SpanLocation) (keys : List Bytes) (rest : Stage kv Unit) (w : Store kv)
    → IsAside rest
    → let v = (apply_index puts keys >> rest) w in
      v.1 ≡ ok tt
      → (v.0.index ≡ (batch_apply_spans kv puts keys w.index).0)
        × (v.0.dir ≡ w.dir)
        × ((batch_apply_spans kv puts keys w.index).1 ≡ ok tt)
unfolding apply_index
commit_ok {kv} puts keys rest w aside e =
    let (a, done, after) = and_then_ok (apply_index puts keys w) (λ a. rest) tt e in
    let same = aside.same (apply_index puts keys w).0 in
    (
      ap (λ v. v.0.index) after ∙ same.0,
      ap (λ v. v.0.dir) after ∙ same.1,
      wrap_ok index_failed (batch_apply_spans kv puts keys w.index).1 tt done,
    )

live_some : (p : PendingSpan) → p.span.deleted ≡ false → live_of (some p) ≡ some p.span
live_some p d = ground (arith, d)

-- A location in the new segment leads to the span there.
resolve-new :
    (z : Sizing) (id : ℕ) (s : Span) (ss : List Span) (dir : Dir) (off : ℕ) (x : Span)
    → Fits z id (s ∷ ss)
    → read_file id dir ≡ none
    → read_at (light z id s ss) off ≡ ok x
    → x.deleted ≡ false
    → resolve (dir ++ (id, file_of z id s ss) ∷ []) (ok (record { segment_id = id; offset = off }))
      ≡ ok (some x)
unfolding resolve read_location acquire_segment
resolve-new z id s ss dir off x fits f at d =
    rw
      (
        resolve,
        read_location,
        acquire_segment,
        read_file-new id (file_of z id s ss) dir f,
        open_reader_light-file_of z id s ss fits.1,
        at,
        d,
      )
      refl

module _ (dir : Dir) (k : Bytes) (last : List PendingSpan) (once : OnceEach last) where
  -- What the index answers for a key of a batch of tombstones only.
  pub tombstones-Answers :
      (before : Result IndexError SpanLocation)
      → live_spans last ≡ []
      → Answers
          (find_pending k last)
          (resolve dir before)
          (resolve dir (applied [] (tombstone_keys last) k before))
  unfolding applied lookup find_span resolve
  tombstones-Answers before l =
      let live = find-live_spans k last once in
      let gone = has_key-tombstone_keys k last once in
      elim (Option-cases (find_pending k last)) [
        | inl n ↦ rw (n, applied, rw n at gone) λ x e. e
        | inr (p, n) ↦ elim (Bool-cases p.span.deleted) [
          | inl d ↦ rw (n, applied, rw (n, d) at gone, d) refl
          | inr d ↦ absurd (cc (rw (l, n, d) at live))
        ]
      ]

  -- What it answers for a key of a batch with a segment.
  pub live-Answers :
      (z : Sizing) (id : ℕ) (s : Span) (ss : List Span) (before : Result IndexError SpanLocation)
      → live_spans last ≡ s ∷ ss
      → Fits z id (s ∷ ss)
      → read_file id dir ≡ none
      → let puts = batch_entries id (reported z id s ss) (s ∷ ss) [] in
        Answers (find_pending k last) (resolve dir before) (
          resolve
            (dir ++ (id, file_of z id s ss) ∷ [])
            (applied puts (tombstone_keys last) k before))
  unfolding applied lookup resolve
  live-Answers z id s ss before l fits f =
      let live : find_span k (s ∷ ss) ≡ live_of (find_pending k last) =
        ap (find_span k) (sym l) ∙ find-live_spans k last once in
      let gone = has_key-tombstone_keys k last once in
      let put = lookup-batch_entries id (reported z id s ss) k (s ∷ ss) [] in
      elim (Option-cases (find_pending k last)) [
        | inl n ↦
            let absent = rw (rw n at live) at put in
            rw (n, applied, absent, rw n at gone) (resolve-append id (file_of z id s ss) dir before)
        | inr (p, n) ↦ elim (Bool-cases p.span.deleted) [
          | inl d ↦
              let absent = rw (rw (n, d) at live) at put in
              rw (n, applied, absent, rw (n, d) at gone, d) refl
          | inr d ↦
              let found = live ∙ ap live_of n ∙ live_some p d in
              let (off, e, below, at) =
                reported_found z id s ss (rw l at (live_spans-Unrepeated last once)) fits.0 k p.span
                  found in
              let there = rw (found, e) at put in
              rw (n, applied, there)
                (resolve-new z id s ss dir off p.span fits f at d ∙ ap ok (sym (live_some p d)))
        ]
      ]
