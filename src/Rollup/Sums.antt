-- ===== src/Rollup/Sums.antt =====
-- The values of Add (internal/rollup/rollup.go): sums of int64, which wrap, and the least and greatest
-- latency.
use mathlib.Core.List.{Memᴰ}
use wisp_trace_db.Prelude.{
  ◌≡◌, refl, sym, ap, ◌∙◌, List, [], ◌∷◌, All, map, Bool-cases, inl, inr, arith,
}
use wisp_trace_db.Prelude.Int.{
  ltb_ℤ, ℤ, pos, negsuc, ◌+ℤ◌, ◌≤ℤ◌, uint64, int64, int64-uint64, IsInt64,
}
use wisp_trace_db.Rollup.{Value, Sample, add_int64, first_value, add_value}

-- The int64 with the same bits.
abbrev pub wrap : ℤ → ℤ
wrap a = int64 (uint64 a)

wrap_add : (a b : ℤ) → wrap (wrap a +ℤ b) ≡ wrap (a +ℤ b)
unfolding int64 uint64 ◌+ℤ◌
wrap_add (pos n) (pos m) = ground arith
wrap_add (pos n) (negsuc m) = ground arith
wrap_add (negsuc n) (pos m) = ground arith
wrap_add (negsuc n) (negsuc m) = ground arith

zero_right : (a : ℤ) → a +ℤ pos 0 ≡ a
unfolding ◌+ℤ◌
zero_right (pos n) = ground arith
zero_right (negsuc n) = ground arith

assoc_ℤ : (a b c : ℤ) → (a +ℤ b) +ℤ c ≡ a +ℤ (b +ℤ c)
unfolding ◌+ℤ◌
assoc_ℤ (pos a) (pos b) (pos c) = ground arith
assoc_ℤ (pos a) (pos b) (negsuc c) = ground arith
assoc_ℤ (pos a) (negsuc b) (pos c) = ground arith
assoc_ℤ (pos a) (negsuc b) (negsuc c) = ground arith
assoc_ℤ (negsuc a) (pos b) (pos c) = ground arith
assoc_ℤ (negsuc a) (pos b) (negsuc c) = ground arith
assoc_ℤ (negsuc a) (negsuc b) (pos c) = ground arith
assoc_ℤ (negsuc a) (negsuc b) (negsuc c) = ground arith

-- The sum of a field of the samples, as an integer that does not wrap.
unfoldable pub total : (Sample → ℤ) → List Sample → ℤ
total f [] = pos 0
total f (x ∷ xs) = f x +ℤ total f xs

-- Samples added to a value, one after the other.
unfoldable pub add_values : List Sample → Value → Value
add_values [] v = v
add_values (x ∷ xs) v = add_values xs (add_value x v)

wrap-wrap : (a : ℤ) → wrap (wrap a) ≡ wrap a
wrap-wrap a = sym (ap wrap (zero_right (wrap a))) ∙ wrap_add a (pos 0) ∙ ap wrap (zero_right a)

-- A field that each sample is added to holds the sum of the samples, up to wrapping.
sum_field :
    (f : Sample → ℤ) (g : Value → ℤ) (xs : List Sample) (v : Value)
    → ((x : Sample) (v : Value) → g (add_value x v) ≡ add_int64 (g v) (f x))
    → wrap (g v) ≡ g v
    → g (add_values xs v) ≡ wrap (g v +ℤ total f xs)
unfolding add_values total add_int64
sum_field f g [] v step w = sym w ∙ sym (ap wrap (zero_right (g v)))
sum_field f g (x ∷ xs) v step w =
    let next =
      sum_field f g xs (add_value x v) step
        (ap wrap (step x v) ∙ wrap-wrap (g v +ℤ f x) ∙ sym (step x v)) in
    next
    ∙ ap (λ a. wrap (a +ℤ total f xs)) (step x v)
    ∙ wrap_add (g v +ℤ f x) (total f xs)
    ∙ ap wrap (assoc_ℤ (g v) (f x) (total f xs))

-- The fields of a sample are int64, as the parameters of Add are.
pub record IsSample (x : Sample) : Type 0 where
  pub cost : IsInt64 x.cost
  pub tokens_in : IsInt64 x.tokens_in
  pub tokens_out : IsInt64 x.tokens_out
  pub latency_ms : IsInt64 x.latency_ms

-- What a bucket says of the samples that it was made of.
pub record IsSummary (v : Value) (xs : List Sample) : Type 0 where
  pub count : v.count ≡ wrap (total (λ x. pos 1) xs)
  pub sum_cost : v.sum_cost ≡ wrap (total (λ x. x.cost) xs)
  pub sum_tokens_in : v.sum_tokens_in ≡ wrap (total (λ x. x.tokens_in) xs)
  pub sum_tokens_out : v.sum_tokens_out ≡ wrap (total (λ x. x.tokens_out) xs)
  pub sum_latency_ms : v.sum_latency_ms ≡ wrap (total (λ x. x.latency_ms) xs)
  pub min_latency_ms : All (λ x. v.min_latency_ms ≤ℤ x.latency_ms) xs
  pub max_latency_ms : All (λ x. x.latency_ms ≤ℤ v.max_latency_ms) xs
  pub least : Memᴰ v.min_latency_ms (map (λ x. x.latency_ms) xs)
  pub greatest : Memᴰ v.max_latency_ms (map (λ x. x.latency_ms) xs)

min-add_values :
    (xs : List Sample) (v : Value) → (add_values xs v).min_latency_ms ≤ℤ v.min_latency_ms
unfolding add_values add_value
min-add_values [] v = omega arith
min-add_values (x ∷ xs) v = let later = min-add_values xs (add_value x v) in ground (arith, later)

max-add_values :
    (xs : List Sample) (v : Value) → v.max_latency_ms ≤ℤ (add_values xs v).max_latency_ms
unfolding add_values add_value
max-add_values [] v = omega arith
max-add_values (x ∷ xs) v = let later = max-add_values xs (add_value x v) in ground (arith, later)

min-All :
    (xs : List Sample) (v : Value) → All (λ x. (add_values xs v).min_latency_ms ≤ℤ x.latency_ms) xs
unfolding add_values add_value
min-All [] v = tt
min-All (x ∷ xs) v =
    let later = min-add_values xs (add_value x v) in
    (ground (arith, later), min-All xs (add_value x v))

max-All :
    (xs : List Sample) (v : Value) → All (λ x. x.latency_ms ≤ℤ (add_values xs v).max_latency_ms) xs
unfolding add_values add_value
max-All [] v = tt
max-All (x ∷ xs) v =
    let later = max-add_values xs (add_value x v) in
    (ground (arith, later), max-All xs (add_value x v))

-- The least and the greatest latency are those of a sample, or were there before.
min-Memᴰ :
    (xs : List Sample) (v : Value)
    → Memᴰ (add_values xs v).min_latency_ms (v.min_latency_ms ∷ map (λ x. x.latency_ms) xs)
unfolding add_values add_value
min-Memᴰ [] v = Memᴰ.head refl
min-Memᴰ (x ∷ xs) v = elim (min-Memᴰ xs (add_value x v)) [
  | Memᴰ.tail m ↦ Memᴰ.tail (Memᴰ.tail m)
  | Memᴰ.head e ↦ elim (Bool-cases (ltb_ℤ x.latency_ms v.min_latency_ms)) [
    | inl b ↦ Memᴰ.tail (Memᴰ.head (e ∙ rw b refl))
    | inr b ↦ Memᴰ.head (e ∙ rw b refl)
  ]
]

max-Memᴰ :
    (xs : List Sample) (v : Value)
    → Memᴰ (add_values xs v).max_latency_ms (v.max_latency_ms ∷ map (λ x. x.latency_ms) xs)
unfolding add_values add_value
max-Memᴰ [] v = Memᴰ.head refl
max-Memᴰ (x ∷ xs) v = elim (max-Memᴰ xs (add_value x v)) [
  | Memᴰ.tail m ↦ Memᴰ.tail (Memᴰ.tail m)
  | Memᴰ.head e ↦ elim (Bool-cases (ltb_ℤ v.max_latency_ms x.latency_ms)) [
    | inl b ↦ Memᴰ.tail (Memᴰ.head (e ∙ rw b refl))
    | inr b ↦ Memᴰ.head (e ∙ rw b refl)
  ]
]

-- The value of a first sample, and of those added after it, sums them all up.
pub add_values-IsSummary :
    (x : Sample) (xs : List Sample)
    → IsSample x
    → IsSummary (add_values xs (first_value x)) (x ∷ xs)
unfolding total first_value add_value
add_values-IsSummary x xs s =
    let v = first_value x in
    record {
      count =
          sum_field (λ x. pos 1) (λ v. v.count) xs v (λ y u. refl)
            (int64-uint64 (pos 1) (omega arith, omega arith));
      sum_cost =
          sum_field (λ x. x.cost) (λ v. v.sum_cost) xs v (λ y u. refl) (int64-uint64 x.cost s.cost);
      sum_tokens_in =
          sum_field (λ x. x.tokens_in) (λ v. v.sum_tokens_in) xs v (λ y u. refl)
            (int64-uint64 x.tokens_in s.tokens_in);
      sum_tokens_out =
          sum_field (λ x. x.tokens_out) (λ v. v.sum_tokens_out) xs v (λ y u. refl)
            (int64-uint64 x.tokens_out s.tokens_out);
      sum_latency_ms =
          sum_field (λ x. x.latency_ms) (λ v. v.sum_latency_ms) xs v (λ y u. refl)
            (int64-uint64 x.latency_ms s.latency_ms);
      min_latency_ms = (min-add_values xs v, min-All xs v);
      max_latency_ms = (max-add_values xs v, max-All xs v);
      least = min-Memᴰ xs v;
      greatest = max-Memᴰ xs v;
    }
