-- ===== src/Tests/Rollup.antt =====
-- Examples for the rollups.
use wisp_trace_db.Prelude.{
  ◌==◌, ◌≡◌, true, [], ◌∷◌, All, none, ok, err, Option, arith, if◌then◌else◌,
}
use wisp_trace_db.Prelude.Int.{pos, ltb_ℤ}
use wisp_trace_db.Rollup.{BucketKey, Value, Sample, find, new_store, add, get_bucket, evict}
use wisp_trace_db.Rollup.Sums.{IsSample}
use wisp_trace_db.Rollup.Buckets.{matching, Summarises, find-evict}
use wisp_trace_db.Rollup.Manager.{
  new_rollup_manager, add_samples, get_window_bucket, windows, get_window_bucket-add_samples,
}
use wisp_trace_db.Rollup.Snapshot.{flush, read_snapshot, window_mismatch}
use wisp_trace_db.Rollup.Snapshot.RoundTrip.{IsMetric, put_all, read_snapshot-flush}

abbrev cheap : Sample
cheap = record {
  timestamp = pos 61000000000;
  model = 0x6d ∷ [];
  cost = pos 10;
  tokens_in = pos 3;
  tokens_out = pos 4;
  latency_ms = pos 7;
}

abbrev dear : Sample
dear = record cheap { timestamp = pos 119000000000; cost = pos 30; latency_ms = pos 2 }

samples-AreSamples : All IsSample (cheap ∷ dear ∷ [])
samples-AreSamples = (
  record {
    cost = (omega arith, omega arith);
    tokens_in = (omega arith, omega arith);
    tokens_out = (omega arith, omega arith);
    latency_ms = (omega arith, omega arith);
  },
  (
    record {
      cost = (omega arith, omega arith);
      tokens_in = (omega arith, omega arith);
      tokens_out = (omega arith, omega arith);
      latency_ms = (omega arith, omega arith);
    },
    tt,
  ),
)

abbrev second_minute : BucketKey
second_minute = record { window_start = pos 60000000000; model = 0x6d ∷ [] }

get_window_bucket-add_samples_example :
    All
      (λ p.
        (found : Option Value) × (get_window_bucket p.0 second_minute
            (add_samples (cheap ∷ dear ∷ []) new_rollup_manager)
          ≡ ok found)
        × Summarises found (matching p.1 second_minute (cheap ∷ dear ∷ [])))
      windows
get_window_bucket-add_samples_example =
    get_window_bucket-add_samples second_minute (cheap ∷ dear ∷ []) samples-AreSamples

find-evict_example :
    (get_bucket second_minute (evict (pos 60000000000) (add cheap (new_store 60000000000))).0 ≡ (
      if ltb_ℤ (pos 60000000000) (pos 60000000000)
      then none
      else get_bucket second_minute (add cheap (new_store 60000000000))))
    × (find second_minute (evict (pos 60000000000) (add cheap (new_store 60000000000))).1 ≡ (
        if ltb_ℤ (pos 60000000000) (pos 60000000000)
        then get_bucket second_minute (add cheap (new_store 60000000000))
        else none))
find-evict_example = find-evict (pos 60000000000) (add cheap (new_store 60000000000)) second_minute

abbrev metric : BucketKey × Value
metric = (
  second_minute,
  record {
    count = pos 2;
    sum_cost = pos 40;
    sum_tokens_in = pos 6;
    sum_tokens_out = pos 8;
    sum_latency_ms = pos 9;
    min_latency_ms = pos 2;
    max_latency_ms = pos 7;
  },
)

metric-IsMetric : IsMetric metric
metric-IsMetric = record {
  window_start = (omega arith, omega arith);
  model = omega arith;
  count = (omega arith, omega arith);
  sum_cost = (omega arith, omega arith);
  sum_tokens_in = (omega arith, omega arith);
  sum_tokens_out = (omega arith, omega arith);
  sum_latency_ms = (omega arith, omega arith);
  min_latency_ms = (omega arith, omega arith);
  max_latency_ms = (omega arith, omega arith);
}

read_snapshot-flush_example : read_snapshot (flush true (pos 60) (metric ∷ []) none).0 300 ≡ (
    if 60 == 300
    then ok (record { window_size = 300; buckets = put_all (metric ∷ []) [] })
    else err window_mismatch)
read_snapshot-flush_example =
    read_snapshot-flush 60 300 metric [] none (omega arith) (omega arith) (metric-IsMetric, tt)
