-- ===== src/Tests/Flush.antt =====
-- Examples for the flush of the session buffer and the reads of the engine.
use wisp_trace_db.Prelude.{
  ℕ, zero, suc, ◌≡◌, refl, ap, true, false, Option, length, none, some, List, [], ◌∷◌, arith, ok,
  length-append, All, ◌++◌,
}
use wisp_trace_db.Prelude.Int.{ℤ, pos}
use wisp_trace_db.Prelude.Bytes.{Bytes, str_eq}
use wisp_trace_db.Prelude.Dict.{lookup, insert}
use wisp_trace_db.Wal.Span.{empty_span}
use wisp_trace_db.Wal.Codec.Sizes.{length-encode_payload}
use wisp_trace_db.Wal.Log.{no_faults}
use wisp_trace_db.Segment.Format.{composite_key}
use wisp_trace_db.Segment.Reader.Opening.{build_bloom_section-lt}
use wisp_trace_db.Segment.Reader.Scanning.{length-write_record}
use wisp_trace_db.Segment.Writer.{header_of, write_records, write_record}
use wisp_trace_db.Segment.Manifest
use wisp_trace_db.Index
use wisp_trace_db.Index.{batch_apply_spans}
use wisp_trace_db.Wal.Codec.{encode_span_payload}
use wisp_trace_db.Rollup.Manager.{new_rollup_manager}
use wisp_trace_db.Engine.Batch.{PendingSpan, latest_loop, listed, pick, span_at, dedupe, live_spans}
use wisp_trace_db.Engine.Batch.Latest.{OnceEach, find_pending, last_write, dedupe-last_write}
use wisp_trace_db.Engine.Store.{Store}
use wisp_trace_db.Engine.Flush.{FlushIo}
use wisp_trace_db.Engine.Flush.Answers.{Fits}
use wisp_trace_db.Engine.Sessions.{Config}
use wisp_trace_db.Engine.Range.{RangeFilter, matches, rejects}
use wisp_trace_db.Engine.Reads.Sound.{IsAnswer, range_query_sound}
use wisp_trace_db.Engine.Buffer.{buffer_span, buffered_spans_by_key, Buffer}
use wisp_trace_db.Engine.Reads.{get_span, range_query, query_with_cursor}
use wisp_trace_db.Engine.Reads.Written.{get_span-buffer_span}
use wisp_trace_db.Engine.Reads.Pages.{AreInverse, follow, follow_all}
use wisp_trace_db.Tests.Memory.{memory, State}
use wisp_trace_db.Tests.Segment.{
  sizing, sizing-IsSizing, early, late, early_size, late_size, spans-AreRecordable,
  flushed-IsHeader,
}

-- The trace is written twice: the second span under the first key is the one that counts.
abbrev pub batch : List PendingSpan
batch =
    record { span = record early { payload = 1 ∷ [] }; wal_seg = 1 }
    ∷ record { span = late; wal_seg = 1 }
    ∷ record { span = early; wal_seg = 1 }
    ∷ []

dedupe-last_write_example :
    OnceEach (dedupe batch) × ((k : Bytes) → find_pending k (dedupe batch) ≡ last_write k batch)
dedupe-last_write_example = dedupe-last_write batch

abbrev pub state : State
state = record { entries = []; distinct = tt }

abbrev pub store : Store memory
store = record {
  tracker = record {
    wal = record {
      files = (1, []) ∷ [];
      file = true;
      segment_id = 1;
      size = 0;
      max_segment_size = 100;
    };
    pending = (1, 3) ∷ [];
  };
  index = some state;
  dir = [];
  manifest = none;
  checkpoint = none;
  next_segment_id = 7;
  rollups = new_rollup_manager;
  snapshots = record { minute = none; five_min = none; hour = none; day = none };
}

abbrev pub io : FlushIo
io = record {
  rotate = no_faults;
  segment_ok = true;
  manifest_ok = true;
  checkpoint_ok = true;
  minute_ok = true;
  five_min_ok = true;
  hour_ok = true;
  day_ok = true;
  reclaim = no_faults;
  cutoff = pos 0;
}

pub batch_live : live_spans (dedupe batch) ≡ early ∷ late ∷ []
unfolding live_spans dedupe latest_loop listed pick span_at lookup insert str_eq composite_key
batch_live = refl

pub live_fit : Fits sizing 7 (early ∷ late ∷ [])
unfolding write_records header_of encode_span_payload
live_fit = (
  spans-AreRecordable,
  flushed-IsHeader,
  omega arith,
  omega (
    arith,
    build_bloom_section-lt sizing (early ∷ late ∷ []) sizing-IsSizing,
    length-append (write_record early) (write_record late ++ []),
    length-append (write_record late) [],
    length-write_record early,
    length-write_record late,
    length-encode_payload early,
    length-encode_payload late,
    early_size,
    late_size,
  ),
)

pub batch-Fits : Fits sizing store.next_segment_id (live_spans (dedupe batch))
batch-Fits = rw batch_live live_fit

abbrev pub config : Config
config = record {
  compaction_threshold = 8;
  flush_threshold = 100;
  sizing = sizing;
  flush_io = io;
  compact_io = record {
    closes = λ id. true;
    segment_ok = true;
    orphan_removed = true;
    manifest_ok = true;
    purge_ok = true;
    remove_fails = λ id n. false;
  };
  scale_cost = λ n. pos n;
}

abbrev everything : RangeFilter
everything = record {
  start_ts = pos 0;
  end_ts = pos 100;
  want_agent_id = [];
  want_model = [];
  want_tool_name = [];
  want_team = [];
  want_status = [];
}

-- The same spans as a session, on a store that has none of them.
abbrev pub sessions : Buffer
sessions = record {
  sessions = (early.trace_id, record { spans = batch; last_seen = pos 0 }) ∷ [];
  span_count = 3;
}

range_query_sound_example :
    (live : List ℕ) × (Manifest.load none ≡ ok live)
    × All
        (IsAnswer everything
          (buffered_spans_by_key [] sessions).0
          (λ k. Index.get_span memory k store.index)
          store.dir
          live)
        (early ∷ late ∷ [])
unfolding range_query buffered_spans_by_key lookup insert str_eq composite_key matches rejects
    Manifest.load
range_query_sound_example =
    range_query_sound memory everything sessions store (early ∷ late ∷ []) refl

-- A tombstone for the first span, behind its two copies.
abbrev gone : PendingSpan
gone = record {
  span = record empty_span { trace_id = early.trace_id; span_id = early.span_id; deleted = true };
  wal_seg = 1;
}

get_span-buffer_span_example :
    get_span memory early.trace_id early.span_id (buffer_span (pos 1) gone sessions) store ≡ ok none
unfolding str_eq
get_span-buffer_span_example =
    get_span-buffer_span memory early.trace_id early.span_id (pos 1) gone sessions store

-- Numbers written with one digit for each unit, behind a first one.
unary : ℕ → Bytes
unary zero = 49 ∷ []
unary (suc n) = 49 ∷ unary n

of_unary : Bytes → Option ℤ
of_unary [] = none
of_unary (d ∷ ds) = some (pos (length ds))

unary-AreInverse : AreInverse of_unary unary
unfolding of_unary unary str_eq
unary-AreInverse = record { parsed = λ n b. parsed n; digits = digits }
  where
    digits : (n : ℕ) → str_eq (unary n) [] ≡ false
    digits zero = refl
    digits (suc n) = refl

    counted : (n : ℕ) → length (unary n) ≡ suc n
    counted zero = refl
    counted (suc n) = ap suc (counted n)

    parsed : (n : ℕ) → of_unary (unary n) ≡ some (pos n)
    parsed zero = refl
    parsed (suc n) = ap (λ m. some (pos m)) (counted n)

-- Two pages of one span each.
follow_all_example :
    follow
      (λ r cursor. query_with_cursor memory of_unary unary everything (pos 1) cursor sessions store)
      3
      []
    ≡ some (early ∷ late ∷ [])
unfolding range_query buffered_spans_by_key lookup insert str_eq composite_key matches rejects
    Manifest.load
follow_all_example =
    follow_all memory of_unary unary everything (early ∷ late ∷ []) 0 (λ r. (sessions, store))
      unary-AreInverse (λ r. refl) (omega arith)
