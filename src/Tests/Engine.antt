-- ===== src/Tests/Engine.antt =====
-- Examples for the engine.
use mathlib.Core.List.{Memᴰ}
use wisp_trace_db.Prelude.{
  ℕ, false, ◌+◌, ◌^◌, ◌<◌, ◌==◌, ◌≡◌, refl, true, List, [], ◌∷◌, ok, arith, if◌then◌else◌, All,
}
use wisp_trace_db.Wal.Span.{WalRecord}
use wisp_trace_db.Wal.Record.Reading.{stored}
use wisp_trace_db.Wal.Record.Replay.{frames}
use wisp_trace_db.Wal.Log.{no_faults, rotate_locked, replay}
use wisp_trace_db.Wal.Log.Holds.{Segment, Holds}
use wisp_trace_db.Wal.Log.Append.{Fits, sealed_after, active_after, id_after}
use wisp_trace_db.Engine.Pending.{Tracker, count_of, append_tracked, release_wal_pending}
use wisp_trace_db.Engine.Pending.Counts.{occurs}
use wisp_trace_db.Engine.Pending.Reclaiming.{
  AreSegments, record_of, append_tracked-Holds, release_wal_pending-keeps,
}
use wisp_trace_db.Engine.Pending.Invariant.{
  Acknowledged, none_left, waiting, release_all-AreSegments,
}
use wisp_trace_db.Engine.Pending.Durable.{Run, opened, inserted, rotated, flushed, replay-Run}
use wisp_trace_db.Prelude.Int.{pos}
use wisp_trace_db.Prelude.Bytes.{str_eq}
use wisp_trace_db.Segment.Format.{bloom_dimensions}
use wisp_trace_db.Segment.Writer.{header_of}
use wisp_trace_db.Segment.Reader.Opening.{filters}
use wisp_trace_db.Engine.Range.{RangeFilter, rejects, matches, skips}
use wisp_trace_db.Engine.Range.Skipping.{skips-flushed}
use wisp_trace_db.Tests.Segment.{sizing, sizing-IsSizing, early, late}
use wisp_trace_db.Tests.Wal.{call, first, first-IsStorable, first_size, log, log-Holds, first-Fits}

-- The engine on a new log.
abbrev fresh : Tracker
fresh = record {
  wal = record {
    files = (1, []) ∷ [];
    file = true;
    segment_id = 1;
    size = 0;
    max_segment_size = 100;
  };
  pending = [];
}

fresh-Holds : Holds [] [] fresh.wal
unfolding frames
fresh-Holds = record {
  files = refl;
  ascending = (tt, tt);
  storable = (tt, tt);
  is_open = refl;
  size = refl;
}

fresh-Fits : Fits (record_of call) fresh.wal
fresh-Fits = record {
  storable = first-IsStorable;
  size = omega (arith, first_size);
  id = omega arith;
}

-- A span is inserted, the log is rotated for a flush, and a batch without the span is released.
abbrev before_flush : Tracker
before_flush = (append_tracked no_faults call fresh).0

abbrev turned : Tracker
turned = record before_flush { wal = (rotate_locked no_faults before_flush.wal).0 }

abbrev later : Tracker
later = (release_wal_pending no_faults [] turned).0

few_segments : before_flush.wal.segment_id + 1 < 2 ^ 64
few_segments = rw (append_tracked-Holds [] [] call fresh fresh-Holds fresh-Fits).2 (omega arith)

later-Run : Run later ((id_after (record_of call) fresh.wal, call) ∷ [])
later-Run =
    flushed {batch = []}
      (rotated (inserted call (opened fresh-Holds refl (omega arith)) fresh-Fits) few_segments)
      (waiting none_left)

replay-Run_example :
    (all : List WalRecord) × (replay no_faults later.wal ≡ ok all)
    × All
        (λ (a : Acknowledged). Memᴰ (stored (record_of a.1)) all)
        ((id_after (record_of call) fresh.wal, call) ∷ [])
replay-Run_example =
    replay-Run {t = later} {out = (id_after (record_of call) fresh.wal, call) ∷ []} later-Run

-- One span of each of two segments is not flushed.
abbrev two : Tracker
two = record { wal = log; pending = (3, 1) ∷ (4, 1) ∷ [] }

two-AreSegments : AreSegments two.pending
two-AreSegments = ((omega arith, omega arith), ((omega arith, omega arith), tt))

release_wal_pending-keeps_example :
    (left : List Segment) × Holds left
      (first ∷ [])
      (release_wal_pending no_faults (4 ∷ []) two).0.wal
    × ((s : Segment)
        → Memᴰ s ((3, first ∷ []) ∷ [])
        → occurs s.0 (4 ∷ []) < count_of s.0 two.pending
        → 0 < s.0
        → Memᴰ s left)
release_wal_pending-keeps_example =
    release_wal_pending-keeps ((3, first ∷ []) ∷ []) (first ∷ []) (4 ∷ []) two log-Holds
      (release_all-AreSegments (4 ∷ []) two.pending two-AreSegments)

append_tracked-Holds_example :
    Holds
      (sealed_after ((3, first ∷ []) ∷ []) (first ∷ []) (record_of call) log)
      (active_after (first ∷ []) (record_of call) log)
      (append_tracked no_faults call two).0.wal
    × ((append_tracked no_faults call two).1 ≡ ok (id_after (record_of call) log))
    × ((append_tracked no_faults call two).0.wal.segment_id ≡ id_after (record_of call) log)
    × ((k : ℕ)
        → count_of k (append_tracked no_faults call two).0.pending
          ≡ count_of k two.pending + (if id_after (record_of call) log == k then 1 else 0))
append_tracked-Holds_example =
    append_tracked-Holds ((3, first ∷ []) ∷ []) (first ∷ []) call two log-Holds first-Fits

-- The calls of one model up to a time.
abbrev of_model : RangeFilter
of_model = record {
  start_ts = pos 0;
  end_ts = pos 6;
  want_agent_id = [];
  want_model = 0x6d ∷ [];
  want_tool_name = [];
  want_team = [];
  want_status = [];
}

matches-early : matches of_model early ≡ true
unfolding matches rejects str_eq
matches-early = refl

late_does_not : matches of_model late ≡ false
unfolding matches rejects str_eq
late_does_not = refl

skips-flushed_example :
    skips of_model
      (header_of sizing 7 early (late ∷ []))
      (filters sizing (early ∷ late ∷ []) bloom_dimensions)
    ≡ false
skips-flushed_example =
    skips-flushed sizing 7 early (late ∷ []) of_model early sizing-IsSizing (Memᴰ.head refl)
      matches-early
