-- ===== src/Compactor/Removing.antt =====
-- internal/compactor/compactor.go, Compact: what its steps leave alone.
use wisp_trace_db.Prelude.{
  ℕ, zero, suc, ◌≡◌, ◌≢◌, refl, ◌∙◌, inl, inr, Bool, false, Option, none, some, List, [], ◌∷◌,
  arith, Bool-cases, Result, ok, err, All,
}
use wisp_trace_db.Prelude.Bytes.{Bytes, str_eq}
use wisp_trace_db.Prelude.Dict.{Dict, lookup, lookup-insert}
use wisp_trace_db.Wal.Span.{Span}
use wisp_trace_db.Segment.Format.{WriteResult, key_of}
use wisp_trace_db.Segment.Writer.{Dir, read_file, located, offsets_of}
use wisp_trace_db.Segment.Manifest.{contains}
use wisp_trace_db.Index.{Kv, Db, SpanLocation, batch_put_spans, batch_delete_spans}
use wisp_trace_db.Index.Batches.{}
use wisp_trace_db.Compactor.{Segments, CompactError, CompactIo}
use wisp_trace_db.Compactor.Merge.{
  remove_segment_file, remove_with_retry, unlink_attempts, unlink_all, merged_entries,
  or_remove_orphan,
}

remove_segment_file-read_file :
    (id j : ℕ) (dir : Dir) → id ≢ j → read_file j (remove_segment_file id dir) ≡ read_file j dir
unfolding read_file remove_segment_file
remove_segment_file-read_file id j [] h = refl
remove_segment_file-read_file id j ((i, b) ∷ dir) h =
    ground (arith, h, remove_segment_file-read_file id j dir h)

remove_with_retry-read_file :
    (fails : ℕ → Bool) (n id j : ℕ) (dir : Dir)
    → id ≢ j
    → read_file j (remove_with_retry fails n id dir).0 ≡ read_file j dir
unfolding remove_with_retry
remove_with_retry-read_file fails zero id j dir h = refl
remove_with_retry-read_file fails (suc n) id j dir h = elim (Bool-cases (fails n)) [
  | inl f ↦ rw (remove_with_retry, f) (remove_with_retry-read_file fails n id j dir h)
  | inr f ↦ rw (remove_with_retry, f) (remove_segment_file-read_file id j dir h)
]

pub unlink_all-read_file :
    (io : CompactIo) (ids : List ℕ) (j : ℕ) (dir : Dir)
    → contains j ids ≡ false
    → read_file j (unlink_all io ids dir).0 ≡ read_file j dir
unfolding unlink_all contains
unlink_all-read_file io [] j dir h = refl
unlink_all-read_file io (id ∷ ids) j dir h =
    let first = remove_with_retry (io.remove_fails id) unlink_attempts id dir in
    let other : id ≢ j = λ e. ground (arith, e, h) in
    let kept = remove_with_retry-read_file (io.remove_fails id) unlink_attempts id j dir other in
    elim (Bool-cases first.1) [
      | inr failed ↦ rw (unlink_all, failed) kept
      | inl removed ↦
          rw (unlink_all, removed)
            (unlink_all-read_file io ids j first.0 (ground (arith, other, h)) ∙ kept)
    ]

-- A key that no span has is in no map of offsets.
pub lookup-offsets_of_absent :
    (spans : List Span) (off : ℕ) (m : Dict ℕ) (k : Bytes)
    → All (λ y. str_eq (key_of y) k ≡ false) spans
    → lookup k m ≡ none
    → lookup k (offsets_of (located off spans) m) ≡ none
unfolding offsets_of located
lookup-offsets_of_absent [] off m k a h = h
lookup-offsets_of_absent (s ∷ ss) off m k a h =
    lookup-offsets_of_absent ss _ _ k a.1 (ground (arith, lookup-insert (key_of s) k off m, a.0, h))

pub lookup-merged_entries_absent :
    (id : ℕ) (offsets : Dict ℕ) (k : Bytes)
    → lookup k offsets ≡ none
    → lookup k (merged_entries id offsets) ≡ none
unfolding lookup merged_entries
lookup-merged_entries_absent id [] k h = refl
lookup-merged_entries_absent id ((j, off) ∷ offsets) k h =
    ground (arith, h, lookup-merged_entries_absent id offsets k)

pub or_remove_orphan_ok :
    {kv : Kv} (io : CompactIo) (written : Option WriteResult)
    (x : Segments kv × Result CompactError Unit)
    → (or_remove_orphan io written x).1 ≡ ok tt
    → or_remove_orphan io written x ≡ x
unfolding or_remove_orphan
or_remove_orphan_ok io written (s, ok u) e = refl
or_remove_orphan_ok io none (s, err x) e = refl
or_remove_orphan_ok io (some w) (s, err x) e = absurd cc

-- A batch on a store that is closed fails.
pub batch_delete_spans_open :
    (kv : Kv) (keys : List Bytes) (db : Db kv)
    → (batch_delete_spans kv keys db).1 ≡ ok tt
    → (state : kv.State) × (db ≡ some state)
unfolding batch_delete_spans
batch_delete_spans_open kv keys none e = absurd cc
batch_delete_spans_open kv keys (some state) e = (state, refl)

pub batch_put_spans_open :
    (kv : Kv) (puts : Dict SpanLocation) (db : Db kv)
    → (batch_put_spans kv puts db).1 ≡ ok tt
    → (state : kv.State) × (db ≡ some state)
unfolding batch_put_spans
batch_put_spans_open kv puts none e = absurd cc
batch_put_spans_open kv puts (some state) e = (state, refl)
