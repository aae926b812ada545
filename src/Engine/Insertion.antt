-- ===== src/Engine/Insertion.antt =====
-- internal/engine/engine.go: the way of a span from the caller to the session buffer, and deletion.
pub mod Deleted
use wisp_trace_db.Prelude.{
  ℕ, Bool, true, false, ◌||◌, Option, none, some, List, [], ◌∷◌, ◌++◌, length, if◌then◌else◌,
  Result, ok, err,
}
use wisp_trace_db.Prelude.Int.{ℤ}
use wisp_trace_db.Prelude.Bytes.{Bytes, str_eq}
use wisp_trace_db.Wal.Span.{Span, empty_span}
use wisp_trace_db.Wal.Log.{Io}
use wisp_trace_db.Index.{Kv}
use wisp_trace_db.Engine.Pending.{append_tracked}
use wisp_trace_db.Engine.Batch.{PendingSpan}
use wisp_trace_db.Engine.Store.{Store, EngineError, log_failed, db_closed, empty_id}
use wisp_trace_db.Engine.Buffer.{Buffer}
use wisp_trace_db.Engine.Reads.{get_trace}
use wisp_trace_db.Engine.Sessions.{Config, process_span}

-- WispTrace with its ingest channel: the spans that ingestLoop has not taken yet.
pub record Engine (kv : Kv) : Type 0 where
  pub channel : List PendingSpan
  pub buffer : Buffer
  pub store : Store kv

abbrev pub tombstone : Bytes → Bytes → Span
tombstone trace_id span_id = record empty_span {
  trace_id = trace_id;
  span_id = span_id;
  deleted = true;
}

module _ {kv : Kv} where
  -- InsertSpan. `done` says whether its select takes the closing of the context, and not the send.
  unfoldable pub insert_span :
      Io → (done : Bool) → Span → Engine kv → Engine kv × Result EngineError Unit
  insert_span io done s w =
      let (t, r) = append_tracked io s w.store.tracker in
      let w' : Engine kv = record w { store = record w.store { tracker = t } } in
      elim r [
        | err e ↦ (w', err (log_failed e))
        | ok seg ↦ if done then (w', err db_closed) else (
          record w' { channel = w.channel ++ record { span = s; wal_seg = seg } ∷ [] },
          ok tt,
        )
      ]

  -- A round of ingestLoop, at the time `now`.
  unfoldable pub ingest_next : Config → ℤ → Engine kv → Engine kv
  ingest_next cfg now w = elim w.channel [
    | [] ↦ w
    | p ∷ ps ↦
        let (b, v) = process_span cfg false now p w.buffer w.store in
        record { channel = ps; buffer = b; store = v }
  ]

  -- WaitForIngest: ingestLoop takes every span of the channel, at the times of `clock`.
  unfoldable pub drain : Config → (ℕ → ℤ) → List PendingSpan → Buffer → Store kv → Buffer × Store kv
  drain cfg clock [] b v = (b, v)
  drain cfg clock (p ∷ ps) b v =
      let (b', v') = process_span cfg false (clock (length ps)) p b v in drain cfg clock ps b' v'

  unfoldable pub wait_for_ingest : Config → (ℕ → ℤ) → Engine kv → Engine kv
  unfolding drain
  wait_for_ingest cfg clock w =
      let (b, v) = drain cfg clock w.channel w.buffer w.store in
      record { channel = []; buffer = b; store = v }

  unfoldable pub delete_span :
      Io → (done : Bool) → Bytes → Bytes → Engine kv → Engine kv × Result EngineError Unit
  unfolding insert_span
  delete_span io done trace_id span_id w =
      if str_eq trace_id [] || str_eq span_id []
      then (w, err empty_id)
      else insert_span io done (tombstone trace_id span_id) w

  -- DeleteTrace's loop, with how the calls of each insertion end.
  unfoldable pub delete_spans :
      (ℕ → Io)
      → (done : ℕ → Bool) → Bytes
      → List Span
      → Engine kv
      → Engine kv × Result EngineError Unit
  unfolding insert_span
  delete_spans io done trace_id [] w = (w, ok tt)
  delete_spans io done trace_id (s ∷ ss) w =
      let (w', r) =
        insert_span (io (length ss)) (done (length ss)) (tombstone trace_id s.span_id) w in
      elim r [ err e ↦ (w', err e) | ok u ↦ delete_spans io done trace_id ss w' ]

  unfoldable pub delete_trace :
      Config
      → (ℕ → ℤ)
      → (ℕ → Io)
      → (done : ℕ → Bool) → Bytes
      → Engine kv
      → Engine kv × Result EngineError Unit
  unfolding wait_for_ingest delete_spans
  delete_trace cfg clock io done trace_id w = elim (str_eq trace_id []) [
    | true ↦ (w, err empty_id)
    | false ↦
        let w' = wait_for_ingest cfg clock w in
        elim (get_trace kv trace_id w'.buffer w'.store) [
          | err e ↦ (w', err e)
          | ok none ↦ (w', ok tt)
          | ok (some spans) ↦ delete_spans io done trace_id spans w'
        ]
  ]
