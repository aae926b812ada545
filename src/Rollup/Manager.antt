-- ===== src/Rollup/Manager.antt =====
-- internal/rollup/manager.go: one store per window, by the window's name.
use wisp_trace_db.Prelude.{
  ℕ, ◌*◌, ◌≡◌, refl, Option, List, [], ◌∷◌, if◌then◌else◌, Result, ok, err, ◌>>=◌, All,
}
use wisp_trace_db.Prelude.Int.{ℤ}
use wisp_trace_db.Prelude.Bytes.{Bytes, str_eq}
use wisp_trace_db.Rollup.{
  BucketKey, Value, Sample, Store, Buckets, new_store, add, get_bucket, get_bucket_in_range,
}
use wisp_trace_db.Rollup.Sums.{IsSample}
use wisp_trace_db.Rollup.Buckets.{add_all, matching, Summarises, get_bucket-add_all}

-- The names of the windows: "1m", "5m", "1h" and "1d".
abbrev pub window_minute : Bytes
window_minute = 0x31 ∷ 0x6d ∷ []

abbrev pub window_five_min : Bytes
window_five_min = 0x35 ∷ 0x6d ∷ []

abbrev pub window_hour : Bytes
window_hour = 0x31 ∷ 0x68 ∷ []

abbrev pub window_day : Bytes
window_day = 0x31 ∷ 0x64 ∷ []

-- Their sizes, in nanoseconds.
abbrev pub window_size_minute : ℕ
window_size_minute = 60 * 1000000000

abbrev pub window_size_five_min : ℕ
window_size_five_min = 5 * 60 * 1000000000

abbrev pub window_size_hour : ℕ
window_size_hour = 60 * 60 * 1000000000

abbrev pub window_size_day : ℕ
window_size_day = 24 * 60 * 60 * 1000000000

-- RollupManager.
pub record Manager : Type 0 where
  pub minute : Store
  pub five_min : Store
  pub hour : Store
  pub day : Store

pub data ManagerError : Type 0 where
  unknown_window : ManagerError

unfoldable pub new_rollup_manager : Manager
new_rollup_manager = record {
  minute = new_store window_size_minute;
  five_min = new_store window_size_five_min;
  hour = new_store window_size_hour;
  day = new_store window_size_day;
}

unfoldable pub add_sample : Sample → Manager → Manager
add_sample x m = record {
  minute = add x m.minute;
  five_min = add x m.five_min;
  hour = add x m.hour;
  day = add x m.day;
}

unfoldable pub store_for : Bytes → Manager → Result ManagerError Store
store_for window m =
    if str_eq window window_minute
    then ok m.minute
    else if str_eq window window_five_min
    then ok m.five_min
    else if str_eq window window_hour
    then ok m.hour
    else if str_eq window window_day
    then ok m.day
    else err unknown_window

unfoldable pub get_window_bucket : Bytes → BucketKey → Manager → Result ManagerError (Option Value)
get_window_bucket window key m = do s ← store_for window m; ok (get_bucket key s)

unfoldable pub get_window_range : Bytes → ℤ → ℤ → Manager → Result ManagerError Buckets
get_window_range window start end m = do
  s ← store_for window m
  ok (get_bucket_in_range start end s)

-- Samples added to the manager, one after the other.
unfoldable pub add_samples : List Sample → Manager → Manager
add_samples [] m = m
add_samples (x ∷ xs) m = add_samples xs (add_sample x m)

add_samples_stores :
    (xs : List Sample) (m : Manager)
    → add_samples xs m ≡ record {
      minute = add_all xs m.minute;
      five_min = add_all xs m.five_min;
      hour = add_all xs m.hour;
      day = add_all xs m.day;
    }
unfolding add_samples add_sample add_all
add_samples_stores [] m = refl
add_samples_stores (x ∷ xs) m = add_samples_stores xs (add_sample x m)

-- The windows and their sizes.
abbrev pub windows : List (Bytes × ℕ)
windows =
    (window_minute, window_size_minute)
    ∷ (window_five_min, window_size_five_min)
    ∷ (window_hour, window_size_hour)
    ∷ (window_day, window_size_day)
    ∷ []

-- After samples with int64 fields are added to a new manager, in every window a bucket has the number
-- and the sums of the samples of its window and model, up to the wrapping of int64, and the least and
-- the greatest of their latencies; and where there is no bucket there are no such samples.
pub get_window_bucket-add_samples :
    (key : BucketKey) (xs : List Sample)
    → All IsSample xs
    → All
        (λ p.
          (found : Option Value) × (get_window_bucket p.0 key (add_samples xs new_rollup_manager)
            ≡ ok found)
          × Summarises found (matching p.1 key xs))
        windows
unfolding get_window_bucket store_for new_rollup_manager str_eq
get_window_bucket-add_samples key xs h =
    let stores = add_samples_stores xs new_rollup_manager in
    (
      (_, rw stores refl, get_bucket-add_all window_size_minute key xs h),
      (
        (_, rw stores refl, get_bucket-add_all window_size_five_min key xs h),
        (
          (_, rw stores refl, get_bucket-add_all window_size_hour key xs h),
          ((_, rw stores refl, get_bucket-add_all window_size_day key xs h), tt),
        ),
      ),
    )
