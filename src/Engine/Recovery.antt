-- ===== src/Engine/Recovery.antt =====
-- internal/engine/engine.go: what CreateWispTraceWithConfig does with the state that it finds on disk.
pub mod Fresh
use wisp_trace_db.Prelude.{
  ℕ, zero, suc, ◌+◌, ◌*◌, ◌^◌, ◌%◌, ◌==◌, ltb, Bool, true, false, not, ◌&&◌, Option, none, some,
  List, [], ◌∷◌, ◌++◌, map, length, if◌then◌else◌, Result, ok, err, ◌>>=◌,
}
use wisp_trace_db.Prelude.Int.{ℤ, eqb_ℤ}
use wisp_trace_db.Prelude.Bytes.{Bytes, str_eq}
use wisp_trace_db.Prelude.Dict.{Dict}
use wisp_trace_db.Wal.Span.{Span, WalRecord}
use wisp_trace_db.Wal.Log.{Io, replay}
use wisp_trace_db.Segment.Format.{key_of}
use wisp_trace_db.Segment.Writer.{Dir, read_file}
use wisp_trace_db.Segment.Manifest
use wisp_trace_db.Segment.Manifest.{contains}
use wisp_trace_db.Index
use wisp_trace_db.Index.{Kv, SpanLocation}
use wisp_trace_db.Rollup
use wisp_trace_db.Rollup.Manager.{
  Manager, window_size_minute, window_size_five_min, window_size_hour, window_size_day,
}
use wisp_trace_db.Rollup.Snapshot
use wisp_trace_db.Rollup.Snapshot.{SnapshotError, read_snapshot}
use wisp_trace_db.Engine.Store.{
  Snapshots, Store, EngineError, log_failed, index_failed, manifest_failed, segment_missing,
  dir_unreadable, read_location,
}
use wisp_trace_db.Engine.Buffer.{Buffer}
use wisp_trace_db.Engine.Sessions.{Config, process_span, flush_all_sessions}

-- The loops that look for the highest id.
unfoldable pub highest : ℕ → List ℕ → ℕ
highest m [] = m
highest m (id ∷ ids) = highest (if ltb m id then id else m) ids

-- computeNextSegmentID. The ids that the names in the directory have are those of its segments.
unfoldable pub compute_next_segment_id : Bool → Dir → Option Bytes → ℕ → Result EngineError ℕ
unfolding highest
compute_next_segment_id readable dir manifest last_confirmed =
    let live : ℕ = elim (Manifest.load manifest) [
      | ok ids ↦ highest last_confirmed ids
      | err e ↦ last_confirmed
    ] in
    if not readable
    then err dir_unreadable
    else ok ((highest live (map (λ f. f.0) dir) + 1) % 2 ^ 64)

-- loadRollupSnapshots: a window without a snapshot stays as it is.
abbrev pub or_present :
    Rollup.Store → Result SnapshotError Rollup.Store → Result SnapshotError Rollup.Store
or_present store (err Snapshot.no_file) = ok store
or_present store (err e) = err e
or_present store (ok loaded) = ok loaded

unfoldable pub load_rollup_snapshots : Snapshots → Manager → Result SnapshotError Manager
load_rollup_snapshots files m = do
  minute ← or_present m.minute (read_snapshot files.minute window_size_minute)
  five_min ← or_present m.five_min (read_snapshot files.five_min window_size_five_min)
  hour ← or_present m.hour (read_snapshot files.hour window_size_hour)
  day ← or_present m.day (read_snapshot files.day window_size_day)
  ok (record { minute = minute; five_min = five_min; hour = hour; day = day })

-- spansEqual. `same_cost` compares two floats.
unfoldable pub spans_equal : (ℕ → ℕ → Bool) → Span → Span → Bool
spans_equal same_cost a b =
    str_eq a.trace_id b.trace_id
    && (str_eq a.span_id b.span_id
        && (str_eq a.parent_span_id b.parent_span_id
            && (eqb_ℤ a.timestamp b.timestamp
                && (str_eq a.agent_id b.agent_id
                    && (str_eq a.model b.model
                        && (str_eq a.tool_name b.tool_name
                            && (str_eq a.team b.team
                                && (str_eq a.status b.status
                                    && (eqb_ℤ a.tokens_in b.tokens_in
                                        && (eqb_ℤ a.tokens_out b.tokens_out
                                            && (same_cost a.cost b.cost
                                                && (eqb_ℤ a.latency_ms b.latency_ms
                                                    && (same_bool a.deleted b.deleted
                                                        && str_eq a.payload b.payload)))))))))))))
  where
    same_bool : Bool → Bool → Bool
    same_bool true b = b
    same_bool false b = not b

-- The loop of reconcileManifest over the index.
unfoldable pub collect_live : Dir → Dict SpanLocation → List ℕ → Result EngineError (List ℕ)
collect_live dir [] live = ok live
collect_live dir ((key, loc) ∷ indexed) live = elim (contains loc.segment_id live) [
  | true ↦ collect_live dir indexed live
  | false ↦ elim (read_file loc.segment_id dir) [
    | none ↦ err segment_missing
    | some file ↦ collect_live dir indexed (live ++ loc.segment_id ∷ [])
  ]
]

unfoldable pub all_in : List ℕ → List ℕ → Bool
all_in a [] = true
all_in a (id ∷ ids) = if not (contains id a) then false else all_in a ids

-- segmentSetEqual
unfoldable pub segment_set_equal : List ℕ → List ℕ → Bool
unfolding all_in
segment_set_equal a b = if not (length a == length b) then false else all_in a b

module _ {kv : Kv} where
  unfoldable pub span_already_indexed : (ℕ → ℕ → Bool) → Span → Store kv → Bool
  unfolding spans_equal
  span_already_indexed same_cost span w = elim (Index.get_span kv (key_of span) w.index) [
    | err e ↦ false
    | ok loc ↦ elim (read_location w.dir loc) [
      | err e ↦ false
      | ok got ↦ spans_equal same_cost got span
    ]
  ]

  unfoldable pub reconcile_manifest : Bool → Store kv → Store kv × Result EngineError Unit
  unfolding collect_live segment_set_equal
  reconcile_manifest io_ok w = elim (Index.scan_all kv w.index) [
    | err e ↦ (w, err (index_failed e))
    | ok indexed ↦ elim (collect_live w.dir indexed []) [
      | err e ↦ (w, err e)
      | ok live ↦ elim (Manifest.load w.manifest) [
        | err e ↦ (w, err (manifest_failed e))
        | ok current ↦
            if segment_set_equal current live
            then (w, ok tt)
            else saved w (Manifest.save io_ok live w.manifest)
      ]
    ]
  ]
    where
      saved :
          Store kv
          → Option Bytes × Result Manifest.ManifestError Unit
          → Store kv × Result EngineError Unit
      saved w (file, ok u) = (record w { manifest = file }, ok u)
      saved w (file, err e) = (record w { manifest = file }, err (manifest_failed e))

  -- recover's loop over the records, at the times of `clock`.
  unfoldable pub replay_records :
      Config → (ℕ → ℕ → Bool) → (ℕ → ℤ) → List WalRecord → Buffer → Store kv → Buffer × Store kv
  unfolding span_already_indexed
  replay_records cfg same_cost clock [] b w = (b, w)
  replay_records cfg same_cost clock (r ∷ rs) b w = elim (span_already_indexed same_cost r.span w) [
    | true ↦ replay_records cfg same_cost clock rs b w
    | false ↦
        let (b', w') =
          process_span cfg true (clock (length rs)) (record { span = r.span; wal_seg = 0 }) b w in
        replay_records cfg same_cost clock rs b' w'
  ]

  unfoldable pub recover :
      Config
      → Io
      → Bool
      → (ℕ → ℕ → Bool)
      → (ℕ → ℤ)
      → Buffer
      → Store kv
      → (Buffer × Store kv) × Result EngineError Unit
  unfolding replay_records reconcile_manifest
  recover cfg io manifest_ok same_cost clock b w = elim (replay io w.tracker.wal) [
    | err e ↦ ((b, w), err (log_failed e))
    | ok records ↦
        let (b', w') = replay_records cfg same_cost clock records b w in
        let ((b2, w2), flushed) = flush_records records b' w' in
        elim flushed [
          | err e ↦ ((b2, w2), err e)
          | ok u ↦ let (w3, r) = reconcile_manifest manifest_ok w2 in ((b2, w3), r)
        ]
  ]
    where
      flush_records :
          List WalRecord → Buffer → Store kv → (Buffer × Store kv) × Result EngineError Unit
      flush_records [] b w = ((b, w), ok tt)
      flush_records (r ∷ rs) b w = flush_all_sessions cfg false b w
