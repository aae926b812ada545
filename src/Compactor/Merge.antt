-- ===== src/Compactor/Merge.antt =====
-- internal/compactor/compactor.go: Compact and Expire, behind the scan of the segments.
use wisp_trace_db.Prelude.{
  ℕ, zero, suc, ◌==◌, Bool, true, false, not, Option, none, some, List, [], ◌∷◌, ◌++◌, map, keep,
  length, if◌then◌else◌, Result, ok, err,
}
use wisp_trace_db.Prelude.Stages.{◌>>=◌, ◌>>◌, wrap}
use wisp_trace_db.Prelude.Int.{ℤ}
use wisp_trace_db.Prelude.Bytes.{Bytes}
use wisp_trace_db.Prelude.Dict.{Dict}
use wisp_trace_db.Wal.Span.{Span}
use wisp_trace_db.Segment.Format.{WriteResult}
use wisp_trace_db.Segment.Writer
use wisp_trace_db.Segment.Writer.{Sizing, Dir, read_file}
use wisp_trace_db.Segment.Manifest
use wisp_trace_db.Segment.Manifest.{ManifestError, remove_segments}
use wisp_trace_db.Index.{Kv, SpanLocation, get_span, batch_put_spans, batch_delete_spans}
use wisp_trace_db.Compactor.{
  Segments, CompactError, no_segments, unlink_failed, purge_failed, scan_failed, write_failed,
  index_failed, manifest_failed, CompactIo, Report, Scan, no_scan, scan_segments, expire_segments,
}

unfoldable pub remove_segment_file : ℕ → Dir → Dir
remove_segment_file id dir = keep (λ f. not (f.0 == id)) dir

-- removeWithRetry, with the attempts left. Removing a file that is not there is a success.
unfoldable pub remove_with_retry : (ℕ → Bool) → ℕ → ℕ → Dir → Dir × Bool
unfolding remove_segment_file
remove_with_retry fails zero id dir = (dir, false)
remove_with_retry fails (suc n) id dir =
    let rest = remove_with_retry fails n id dir in
    if fails n then rest else (remove_segment_file id dir, true)

abbrev pub unlink_attempts : ℕ
unlink_attempts = 3

-- The loop of purgeAndUnlink.
unfoldable pub unlink_all : CompactIo → List ℕ → Dir → Dir × Result CompactError Unit
unfolding remove_with_retry
unlink_all io [] dir = (dir, ok tt)
unlink_all io (id ∷ ids) dir =
    let (dir', removed) = remove_with_retry (io.remove_fails id) unlink_attempts id dir in
    elim removed [ true ↦ unlink_all io ids dir' | false ↦ (dir', err unlink_failed) ]

-- The locations of the merged records.
unfoldable pub merged_entries : ℕ → Dict ℕ → Dict SpanLocation
merged_entries id offsets = map (λ x. (x.0, record { segment_id = id; offset = x.1 })) offsets

abbrev pub new_id_of : Option WriteResult → ℕ
new_id_of none = 0
new_id_of (some r) = r.segment_id

abbrev to_list : Option WriteResult → List WriteResult
to_list none = []
to_list (some w) = w ∷ []

abbrev pub Work : Kv → Type 0 → Type 0
Work kv A = Segments kv → Segments kv × Result CompactError A

module _ {kv : Kv} where
  unfoldable pub load_manifest : Work kv (List ℕ)
  load_manifest s = (s, wrap manifest_failed (Manifest.load s.manifest))

  unfoldable pub save_manifest : CompactIo → List ℕ → Work kv Unit
  save_manifest io ids s =
      let (file, r) = Manifest.save io.manifest_ok ids s.manifest in
      (record s { manifest = file }, wrap manifest_failed r)

  -- The writing of the survivors, if there are any.
  unfoldable pub write_merged : Sizing → CompactIo → ℕ → List Span → Work kv (Option WriteResult)
  write_merged z io new_id [] s = (s, ok none)
  write_merged z io new_id (x ∷ xs) s =
      let (dir, r) = Writer.flush z io.segment_ok new_id (x ∷ xs) s.dir in
      (record s { dir = dir }, elim r [ ok w ↦ ok (some w) | err e ↦ err (write_failed e) ])

  -- removeOrphan, where the call on the index has failed.
  unfoldable pub or_remove_orphan :
      CompactIo
      → Option WriteResult
      → Segments kv × Result CompactError Unit
      → Segments kv × Result CompactError Unit
  unfolding remove_segment_file
  or_remove_orphan io written (s, ok u) = (s, ok u)
  or_remove_orphan io none (s, err e) = (s, err e)
  or_remove_orphan io (some w) (s, err e) = (
    record s { dir = if io.orphan_removed then remove_segment_file w.segment_id s.dir else s.dir },
    err e,
  )

  unfoldable pub delete_keys : List Bytes → Work kv Unit
  delete_keys [] s = (s, ok tt)
  delete_keys (k ∷ ks) s =
      let (db, r) = batch_delete_spans kv (k ∷ ks) s.index in
      (record s { index = db }, wrap index_failed r)

  unfoldable pub put_merged : Option WriteResult → Work kv Unit
  unfolding merged_entries
  put_merged none s = (s, ok tt)
  put_merged (some w) s =
      let (db, r) = batch_put_spans kv (merged_entries w.segment_id w.offsets) s.index in
      (record s { index = db }, wrap index_failed r)

  unfoldable pub purge_and_unlink : CompactIo → List ℕ → Work kv Unit
  unfolding unlink_all
  purge_and_unlink io ids s =
      if not io.purge_ok
      then (s, err purge_failed)
      else let (dir, r) = unlink_all io ids s.dir in (record s { dir = dir }, r)

  -- Compact behind the write of the survivors. Where the last step fails, the code returns the
  -- report beside the error, which no caller reads.
  unfoldable pub after_write : CompactIo → List ℕ → Scan → Option WriteResult → Work kv Report
  unfolding load_manifest save_manifest or_remove_orphan delete_keys put_merged purge_and_unlink
  after_write io old_ids c written = do
    λ s. or_remove_orphan io written (delete_keys c.reclaim_keys s)
    λ s. or_remove_orphan io written (put_merged written s)
    live ← load_manifest
    save_manifest io (remove_segments live old_ids ++ map (λ w. w.segment_id) (to_list written))
    purge_and_unlink io old_ids
    λ s. (
      s,
      ok (record {
        dropped_ids = old_ids;
        new_segment_id = new_id_of written;
        spans_dropped = c.dropped;
        spans_carried = length c.survivors;
        spans_stale = c.stale;
      }),
    )

  -- Compact behind its scan.
  unfoldable pub merge : Sizing → CompactIo → List ℕ → ℕ → Scan → Work kv Report
  unfolding write_merged after_write
  merge z io old_ids new_id c = write_merged z io new_id c.survivors >>= after_write io old_ids c

  unfoldable pub compact : Sizing → CompactIo → List ℕ → ℕ → Work kv Report
  unfolding scan_segments merge
  compact z io [] new_id s = (s, err no_segments)
  compact z io (id ∷ ids) new_id s =
      elim (scan_segments io.closes (λ k. get_span kv k s.index) s.dir (id ∷ ids) no_scan) [
        | err e ↦ (s, err (scan_failed e))
        | ok c ↦ merge z io (id ∷ ids) new_id c s
      ]

  -- Expire behind its loop.
  unfoldable pub drop_expired : CompactIo → List ℕ → Scan → Work kv Report
  unfolding delete_keys load_manifest save_manifest purge_and_unlink
  drop_expired io [] c s = (
    s,
    ok (record {
      dropped_ids = [];
      new_segment_id = 0;
      spans_dropped = 0;
      spans_carried = 0;
      spans_stale = 0;
    }),
  )
  drop_expired io (id ∷ ids) c s =
      (do
        delete_keys c.reclaim_keys
        live ← load_manifest
        save_manifest io (remove_segments live (id ∷ ids))
        purge_and_unlink io (id ∷ ids)
        λ s. (
          s,
          ok (record {
            dropped_ids = id ∷ ids;
            new_segment_id = 0;
            spans_dropped = c.dropped;
            spans_carried = 0;
            spans_stale = c.stale;
          }),
        ))
        s

  unfoldable pub expire : CompactIo → List ℕ → ℤ → Work kv Report
  unfolding expire_segments drop_expired
  expire io ids cutoff s =
      elim (expire_segments io.closes (λ k. get_span kv k s.index) s.dir cutoff ids [] no_scan) [
        | err e ↦ (s, err (scan_failed e))
        | ok (expired, c) ↦ drop_expired io expired c s
      ]
