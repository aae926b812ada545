-- ===== src/Rollup.antt =====
-- internal/rollup/rollup.go: sums per time window and model.
pub mod Sums
pub mod Buckets
pub mod Manager
pub mod Snapshot
use wisp_trace_db.Prelude.{
  ℕ, zero, suc, ◌+◌, ◌*◌, ◌/◌, ◌==◌, Bool, true, false, not, ◌&&◌, Option, none, some, List, [],
  ◌∷◌, if◌then◌else◌, keep,
}
use wisp_trace_db.Prelude.Int.{ℤ, pos, negsuc, ltb_ℤ, eqb_ℤ, ◌+ℤ◌, uint64, int64}
use wisp_trace_db.Prelude.Bytes.{Bytes, str_eq}

-- `+` of int64, which wraps.
unfoldable pub add_int64 : ℤ → ℤ → ℤ
add_int64 a b = int64 (uint64 (a +ℤ b))

pub record BucketKey : Type 0 where
  pub window_start : ℤ
  pub model : Bytes

pub record Value : Type 0 where
  pub count : ℤ
  pub sum_cost : ℤ
  pub sum_tokens_in : ℤ
  pub sum_tokens_out : ℤ
  pub sum_latency_ms : ℤ
  pub min_latency_ms : ℤ
  pub max_latency_ms : ℤ

-- What one call of Add is given, with the cost scaled to an integer.
pub record Sample : Type 0 where
  pub timestamp : ℤ
  pub model : Bytes
  pub cost : ℤ
  pub tokens_in : ℤ
  pub tokens_out : ℤ
  pub latency_ms : ℤ

unfoldable pub key_eq : BucketKey → BucketKey → Bool
key_eq a b = eqb_ℤ a.window_start b.window_start && str_eq a.model b.model

abbrev pub Buckets : Type 0
Buckets = List (BucketKey × Value)

-- The map of buckets: what it holds for a key, and what a write makes of it.
unfoldable pub find : BucketKey → Buckets → Option Value
find k [] = none
find k ((j, v) ∷ bs) = if key_eq j k then some v else find k bs

unfoldable pub put : BucketKey → Value → Buckets → Buckets
put k v [] = (k, v) ∷ []
put k v ((j, w) ∷ bs) = let rest = put k v bs in if key_eq j k then (j, v) ∷ bs else (j, w) ∷ rest

-- Store. The window size is positive (the sizes are constants of the manager): at 0 the division of
-- Add would panic.
pub record Store : Type 0 where
  pub window_size : ℕ
  pub buckets : Buckets

unfoldable pub new_store : ℕ → Store
new_store window_size = record { window_size = window_size; buckets = [] }

-- (timestamp / w) * w, where `/` truncates toward zero.
unfoldable pub bucket_start : ℕ → ℤ → ℤ
bucket_start w (pos n) = pos (n / w * w)
bucket_start w (negsuc n) = elim (suc n / w * w) [ zero ↦ pos 0 | suc m ↦ negsuc m ]

unfoldable pub first_value : Sample → Value
first_value x = record {
  count = pos 1;
  sum_cost = x.cost;
  sum_tokens_in = x.tokens_in;
  sum_tokens_out = x.tokens_out;
  sum_latency_ms = x.latency_ms;
  min_latency_ms = x.latency_ms;
  max_latency_ms = x.latency_ms;
}

unfoldable pub add_value : Sample → Value → Value
unfolding add_int64
add_value x v = record {
  count = add_int64 v.count (pos 1);
  sum_cost = add_int64 v.sum_cost x.cost;
  sum_tokens_in = add_int64 v.sum_tokens_in x.tokens_in;
  sum_tokens_out = add_int64 v.sum_tokens_out x.tokens_out;
  sum_latency_ms = add_int64 v.sum_latency_ms x.latency_ms;
  min_latency_ms = if ltb_ℤ x.latency_ms v.min_latency_ms then x.latency_ms else v.min_latency_ms;
  max_latency_ms = if ltb_ℤ v.max_latency_ms x.latency_ms then x.latency_ms else v.max_latency_ms;
}

abbrev pub key_at : ℕ → Sample → BucketKey
key_at w x = record { window_start = bucket_start w x.timestamp; model = x.model }

unfoldable pub add : Sample → Store → Store
unfolding bucket_start
add x s =
    let key = key_at s.window_size x in
    elim (find key s.buckets) [
      | some v ↦ record s { buckets = put key (add_value x v) s.buckets }
      | none ↦ record s { buckets = put key (first_value x) s.buckets }
    ]

unfoldable pub get_all_buckets : Store → Buckets
get_all_buckets s = s.buckets

unfoldable pub get_bucket : BucketKey → Store → Option Value
get_bucket key s = find key s.buckets

abbrev pub in_range : ℤ → ℤ → BucketKey → Bool
in_range start end k = not (ltb_ℤ k.window_start start) && ltb_ℤ k.window_start end

unfoldable pub get_bucket_in_range : ℤ → ℤ → Store → Buckets
get_bucket_in_range start end s = keep (λ p. in_range start end p.0) s.buckets

-- Evict: the store that is left, and the buckets that were taken from it.
unfoldable pub evict : ℤ → Store → Store × Buckets
evict start s = (
  record s { buckets = keep (λ p. not (ltb_ℤ p.0.window_start start)) s.buckets },
  keep (λ p. ltb_ℤ p.0.window_start start) s.buckets,
)
