-- ===== src/Rollup/Buckets.antt =====
-- The buckets of internal/rollup/rollup.go after samples are added to a store.
use wisp_trace_db.Prelude.{
  ℕ, ◌≡◌, ◌↔◌, refl, ap, ◌∙◌, Bool, true, not, ◌&&◌, Option, none, some, List, [], ◌∷◌, All,
  All-keep, if◌then◌else◌, keep, Bool-cases, Option-cases, inl, inr, arith,
}
use wisp_trace_db.Prelude.Int.{ℤ, pos, negsuc, ltb_ℤ, eqb_ℤ}
use wisp_trace_db.Prelude.Bytes.{str_eq, str_eq→eq, str_eq_self}
use wisp_trace_db.Rollup.Sums.{IsSample, IsSummary, add_values, add_values-IsSummary}
use wisp_trace_db.Rollup.{
  BucketKey, Value, Sample, Store, Buckets, key_eq, find, put, new_store, first_value, add_value,
  key_at, add, get_bucket, get_bucket_in_range, in_range, evict,
}

eqb→eq_ℤ : (a b : ℤ) → eqb_ℤ a b ≡ true → a ≡ b
eqb→eq_ℤ (pos n) (pos m) h = ap pos (ground arith)
eqb→eq_ℤ (pos n) (negsuc m) h = ground arith
eqb→eq_ℤ (negsuc n) (pos m) h = ground arith
eqb→eq_ℤ (negsuc n) (negsuc m) h = ap negsuc (ground arith)

eqb_ℤ_self : (a : ℤ) → eqb_ℤ a a ≡ true
eqb_ℤ_self a = ground arith

and_parts : (a b : Bool) → (a && b) ≡ true → (a ≡ true) × (b ≡ true)
and_parts a b h = ground arith

pub key_eq→eq : (a b : BucketKey) → key_eq a b ≡ true → a ≡ b
unfolding key_eq
key_eq→eq a b h =
    let (w, m) = and_parts (eqb_ℤ a.window_start b.window_start) (str_eq a.model b.model) h in
    ap (λ t. record { window_start = t; model = a.model })
      (eqb→eq_ℤ a.window_start b.window_start w)
    ∙ ap (λ t. record { window_start = b.window_start; model = t }) (str_eq→eq a.model b.model m)

pub key_eq_self : (a : BucketKey) → key_eq a a ≡ true
unfolding key_eq
key_eq_self a = rw (eqb_ℤ_self a.window_start, str_eq_self a.model) refl

pub key_eq_iff : (a b : BucketKey) → (key_eq a b ≡ true) ↔ (a ≡ b)
key_eq_iff a b = (key_eq→eq a b, λ e. rw e (key_eq_self b))

pub find-put :
    (k j : BucketKey) (v : Value) (bs : Buckets)
    → find j (put k v bs) ≡ (if key_eq k j then some v else find j bs)
unfolding find put
find-put k j v [] = refl
find-put k j v ((i, w) ∷ bs) =
    ground (arith, key_eq_iff k j, key_eq_iff i k, key_eq_iff i j, find-put k j v bs)

-- The value of a bucket that a sample falls into, behind it.
abbrev with_sample : Sample → Option Value → Value
with_sample x none = first_value x
with_sample x (some v) = add_value x v

add_eq :
    (x : Sample) (s : Store)
    → add x s ≡ record s {
      buckets =
          put
            (key_at s.window_size x)
            (with_sample x (find (key_at s.window_size x) s.buckets))
            s.buckets;
    }
unfolding add
add_eq x s = elim (Option-cases (find (key_at s.window_size x) s.buckets)) [
  | inl e ↦ rw (add, e) refl
  | inr (v, e) ↦ rw (add, e) refl
]

-- Add changes the bucket of the sample's window and model, and no other.
pub get_bucket-add :
    (x : Sample) (s : Store) (k : BucketKey)
    → get_bucket k (add x s) ≡ (
        if key_eq (key_at s.window_size x) k
        then some (with_sample x (get_bucket k s))
        else get_bucket k s)
unfolding get_bucket
get_bucket-add x s k =
    let key = key_at s.window_size x in
    let stored = ap (λ t. find k t.buckets) (add_eq x s) ∙ find-put key k _ s.buckets in
    stored ∙ elim (Bool-cases (key_eq key k)) [
      | inl same ↦
          rw same (ap (λ j. some (with_sample x (find j s.buckets))) (key_eq→eq key k same))
      | inr other ↦ rw other refl
    ]

add-window_size : (x : Sample) (s : Store) → (add x s).window_size ≡ s.window_size
add-window_size x s = ap (λ t. t.window_size) (add_eq x s)

-- Samples added to a store, one after the other.
unfoldable pub add_all : List Sample → Store → Store
add_all [] s = s
add_all (x ∷ xs) s = add_all xs (add x s)

-- The samples that fall into the bucket.
abbrev pub matching : ℕ → BucketKey → List Sample → List Sample
matching w k xs = keep (λ x. key_eq (key_at w x) k) xs

abbrev gathered : List Sample → Option Value → Option Value
gathered [] o = o
gathered (x ∷ xs) o = some (add_values xs (with_sample x o))

gathered-some : (xs : List Sample) (v : Value) → gathered xs (some v) ≡ some (add_values xs v)
unfolding add_values
gathered-some [] v = refl
gathered-some (x ∷ xs) v = refl

get_bucket-gathered :
    (xs : List Sample) (s : Store) (k : BucketKey)
    → get_bucket k (add_all xs s) ≡ gathered (matching s.window_size k xs) (get_bucket k s)
unfolding add_all
get_bucket-gathered [] s k = refl
get_bucket-gathered (x ∷ xs) s k =
    let later = get_bucket-gathered xs (add x s) k in
    let w = add-window_size x s in
    let next =
      later
      ∙ ap (λ n. gathered (matching n k xs) (get_bucket k (add x s))) w
      ∙ ap (gathered (matching s.window_size k xs)) (get_bucket-add x s k) in
    next ∙ elim (Bool-cases (key_eq (key_at s.window_size x) k)) [
      | inl same ↦
          rw same (gathered-some (matching s.window_size k xs) (with_sample x (get_bucket k s)))
      | inr other ↦ rw other refl
    ]

-- A bucket sums up the samples: there is none where there are no samples.
abbrev pub Summarises : Option Value → List Sample → Type 0
Summarises none xs = xs ≡ []
Summarises (some v) xs = IsSummary v xs

gathered-Summarises : (xs : List Sample) → All IsSample xs → Summarises (gathered xs none) xs
gathered-Summarises [] h = refl
gathered-Summarises (x ∷ xs) h = add_values-IsSummary x xs h.0

-- After samples with int64 fields are added, in any order, a bucket of a new store sums up the
-- samples of its window and model: their number and sums, up to the wrapping of int64, and the least
-- and greatest of their latencies. There is none if there are no such samples.
pub get_bucket-add_all :
    (w : ℕ) (k : BucketKey) (xs : List Sample)
    → All IsSample xs
    → Summarises (get_bucket k (add_all xs (new_store w))) (matching w k xs)
unfolding new_store get_bucket find
get_bucket-add_all w k xs h =
    rw (get_bucket-gathered xs (new_store w) k)
      (gathered-Summarises (matching w k xs) (All-keep IsSample _ xs h))

find-keep :
    (f : BucketKey → Bool) (k : BucketKey) (bs : Buckets)
    → find k (keep (λ p. f p.0) bs) ≡ (if f k then find k bs else none)
unfolding find
find-keep f k [] = ground arith
find-keep f k ((j, v) ∷ bs) = elim (Bool-cases (key_eq j k)) [
  | inl same ↦ ground (arith, find-keep f k bs, same, ap f (key_eq→eq j k same))
  | inr other ↦ ground (arith, find-keep f k bs, other)
]

-- GetBucketInRange keeps exactly the buckets whose window starts in the range.
pub find-get_bucket_in_range :
    (start end : ℤ) (s : Store) (k : BucketKey)
    → find k (get_bucket_in_range start end s)
      ≡ (if in_range start end k then get_bucket k s else none)
unfolding get_bucket_in_range get_bucket
find-get_bucket_in_range start end s k = find-keep (in_range start end) k s.buckets

-- Evict splits the buckets: those whose window starts before `start` are returned and gone from the
-- store, and the others stay.
pub find-evict :
    (start : ℤ) (s : Store) (k : BucketKey)
    → (get_bucket k (evict start s).0
        ≡ (if ltb_ℤ k.window_start start then none else get_bucket k s))
      × (find k (evict start s).1 ≡ (if ltb_ℤ k.window_start start then get_bucket k s else none))
unfolding evict get_bucket
find-evict start s k = (
  find-keep (λ j. not (ltb_ℤ j.window_start start)) k s.buckets ∙ ground arith,
  find-keep (λ j. ltb_ℤ j.window_start start) k s.buckets,
)
