-- ===== src/Engine/Insertion/Deleted.antt =====
-- internal/engine/engine.go: GetSpan behind DeleteSpan.
use wisp_trace_db.Prelude.{
  ℕ, ◌+◌, ◌<◌, ◌≤◌, ◌≡◌, refl, ◌∙◌, ap, Bool, false, ◌||◌, inl, inr, none, List, [], ◌∷◌, ◌++◌,
  length, length-append, arith, Bool-cases, Result-cases, ok,
}
use wisp_trace_db.Prelude.Int.{ℤ}
use wisp_trace_db.Prelude.Bytes.{Bytes, str_eq, str_eq_self}
use wisp_trace_db.Wal.Log.{Io}
use wisp_trace_db.Index.{Kv}
use wisp_trace_db.Engine.Pending.{append_tracked}
use wisp_trace_db.Engine.Batch.{PendingSpan}
use wisp_trace_db.Engine.Store.{Store}
use wisp_trace_db.Engine.Buffer.{Buffer, buffer_span, take_all}
use wisp_trace_db.Engine.Reads.{get_span}
use wisp_trace_db.Engine.Reads.Written.{get_span-buffer_span}
use wisp_trace_db.Engine.Sessions.{Config, process_span, flush_all_sessions, feed_rollups}
use wisp_trace_db.Engine.Insertion.{
  Engine, tombstone, insert_span, drain, wait_for_ingest, delete_span,
}

module _ {kv : Kv} (cfg : Config) where
  flush_all_sessions_count :
      (recovering : Bool) (b : Buffer) (v : Store kv)
      → (flush_all_sessions cfg recovering b v).0.0.span_count ≡ 0
  unfolding flush_all_sessions take_all
  flush_all_sessions_count recovering b v = ground arith

  process_span_count :
      (recovering : Bool) (now : ℤ) (p : PendingSpan) (b : Buffer) (v : Store kv)
      → (process_span cfg recovering now p b v).0.span_count ≤ b.span_count + 1
  unfolding process_span buffer_span
  process_span_count recovering now p b v =
      ground (
        arith,
        flush_all_sessions_count recovering (buffer_span now p b) (feed_rollups cfg p.span v),
      )

  drain_count :
      (clock : ℕ → ℤ) (ps : List PendingSpan) (b : Buffer) (v : Store kv)
      → (drain cfg clock ps b v).0.span_count ≤ b.span_count + length ps
  unfolding drain
  drain_count clock [] b v = omega arith
  drain_count clock (p ∷ ps) b v =
      let next = process_span cfg false (clock (length ps)) p b v in
      omega (
        arith,
        process_span_count false (clock (length ps)) p b v,
        drain_count clock ps next.0 next.1,
      )

  -- Below the threshold a span only goes into the buffer.
  process_span_below :
      (recovering : Bool) (now : ℤ) (p : PendingSpan) (b : Buffer) (v : Store kv)
      → b.span_count + 1 < cfg.flush_threshold
      → (process_span cfg recovering now p b v).0 ≡ buffer_span now p b
  unfolding process_span buffer_span
  process_span_below recovering now p b v h = ground (arith, h)

  drain-append :
      (ps : List PendingSpan) (p : PendingSpan) (clock : ℕ → ℤ) (b : Buffer) (v : Store kv)
      → let before = drain cfg (λ n. clock (n + 1)) ps b v in
        drain cfg clock (ps ++ p ∷ []) b v ≡ process_span cfg false (clock 0) p before.0 before.1
  unfolding drain
  drain-append [] p clock b v = refl
  drain-append (q ∷ ps) p clock b v =
      rw (drain, length-append ps (p ∷ []))
        (drain-append ps p clock (process_span cfg false (clock (length ps + 1)) q b v).0
          (process_span cfg false (clock (length ps + 1)) q b v).1)

delete_span_ok :
    {kv : Kv} (io : Io) (done : Bool) (t s : Bytes) (w : Engine kv)
    → let v = delete_span io done t s w in
      v.1 ≡ ok tt
      → (seg : ℕ) × (v.0.channel ≡ w.channel ++ record { span = tombstone t s; wal_seg = seg } ∷ [])
        × (v.0.buffer ≡ w.buffer)
unfolding delete_span insert_span
delete_span_ok io done t s w e = elim (Bool-cases (str_eq t [] || str_eq s [])) [
  | inl bad ↦ absurd (cc (rw (delete_span, bad) at e))
  | inr good ↦ elim (Result-cases (append_tracked io (tombstone t s) w.store.tracker).1) [
    | inr (x, failed) ↦ absurd (cc (rw (delete_span, insert_span, good, failed) at e))
    | inl (seg, appended) ↦ elim (Bool-cases done) [
      | inl c ↦ absurd (cc (rw (delete_span, insert_span, good, appended, c) at e))
      | inr c ↦ rw (delete_span, insert_span, good, appended, c) (seg, refl, refl)
    ]
  ]
]

-- A DeleteSpan that returns no error hides the span from GetSpan as soon as WaitForIngest has returned,
-- whatever buffer, index and segments held of it, where the spans in the buffer and in the ingest
-- channel are too few to start a flush.
pub get_span-delete_span :
    (kv : Kv) (cfg : Config) (clock : ℕ → ℤ) (io : Io) (done : Bool) (t s : Bytes) (w : Engine kv)
    → (delete_span io done t s w).1 ≡ ok tt
    → w.buffer.span_count + length w.channel + 1 < cfg.flush_threshold
    → let v = wait_for_ingest cfg clock (delete_span io done t s w).0 in
      get_span kv t s v.buffer v.store ≡ ok none
unfolding wait_for_ingest
get_span-delete_span kv cfg clock io done t s w e h =
    let d = (delete_span io done t s w).0 in
    let (seg, queued, kept) = delete_span_ok io done t s w e in
    let p : PendingSpan = record { span = tombstone t s; wal_seg = seg } in
    let before = drain cfg (λ n. clock (n + 1)) w.channel w.buffer d.store in
    let count = drain_count cfg (λ n. clock (n + 1)) w.channel w.buffer d.store in
    let last = drain-append cfg w.channel p clock w.buffer d.store in
    let buffer : (drain cfg clock d.channel d.buffer d.store).0 ≡ buffer_span (clock 0) p before.0 =
      ap (λ c. (drain cfg clock c d.buffer d.store).0) queued
      ∙ ap (λ b. (drain cfg clock (w.channel ++ p ∷ []) b d.store).0) kept
      ∙ ap (λ x. x.0) last
      ∙ process_span_below cfg false (clock 0) p before.0 before.1 (omega (arith, count, h)) in
    let store = (drain cfg clock d.channel d.buffer d.store).1 in
    ap (λ b. get_span kv t s b store) buffer
    ∙ get_span-buffer_span kv t s (clock 0) p before.0 store
    ∙ rw (str_eq_self t, str_eq_self s) refl
