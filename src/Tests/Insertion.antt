-- ===== src/Tests/Insertion.antt =====
-- Examples for insertion and deletion.
use wisp_trace_db.Prelude.{◌≡◌, refl, false, none, [], ◌∷◌, arith, ok}
use wisp_trace_db.Prelude.Int.{pos}
use wisp_trace_db.Prelude.Bytes.{str_eq}
use wisp_trace_db.Wal.Log.{no_faults, append_record_with_seg, write_record}
use wisp_trace_db.Engine.Reads.{get_span}
use wisp_trace_db.Engine.Pending.{append_tracked}
use wisp_trace_db.Engine.Insertion.{Engine, delete_span, wait_for_ingest}
use wisp_trace_db.Engine.Insertion.Deleted.{get_span-delete_span}
use wisp_trace_db.Tests.Memory.{memory}
use wisp_trace_db.Tests.Segment.{early}
use wisp_trace_db.Tests.Flush.{store, sessions, config}

-- Another span waits in the channel.
abbrev engine : Engine memory
engine = record {
  channel = record { span = early; wal_seg = 1 } ∷ [];
  buffer = sessions;
  store = store;
}

deleted_ok : (delete_span no_faults false early.trace_id early.span_id engine).1 ≡ ok tt
unfolding delete_span append_tracked append_record_with_seg str_eq write_record
deleted_ok = refl

get_span-delete_span_example :
    let v =
      wait_for_ingest config
        (λ n. pos n)
        (delete_span no_faults false early.trace_id early.span_id engine).0 in
    get_span memory early.trace_id early.span_id v.buffer v.store ≡ ok none
get_span-delete_span_example =
    get_span-delete_span memory config (λ n. pos n) no_faults false early.trace_id early.span_id
      engine deleted_ok (omega arith)
