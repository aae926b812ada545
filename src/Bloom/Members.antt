-- ===== src/Bloom/Members.antt =====
-- Add and MayContain of internal/bloom/bloom.go together, on well-formed filters.
use wisp_trace_db.Prelude.{
  ℕ, zero, suc, ◌+◌, ◌*◌, ◌/◌, ◌%◌, ◌^◌, ◌<◌, ◌==◌, ◌≡◌, ◌≢◌, refl, ap, ◌∙◌, true, List, [], ◌∷◌,
  length, get_or, set, length-set, length-replicate, if◌then◌else◌, arith, All,
}
use wisp_trace_db.Prelude.Bytes.{Bytes}
use native.Mathlib.Decide.{ℕ_discrete}
use native.Mathlib.Nat.{mod-lt}
use wisp_trace_db.Bloom.{
  Filter, optimal_m, bytes_for, new, bit_index, test_bit, with_bit, get_bit, set_bit, add_loop, add,
  may_contain_loop, may_contain, double_hash,
}

with_bit_self : (b j : ℕ) → test_bit (with_bit b j) j ≡ true
unfolding test_bit with_bit
with_bit_self b zero = ground arith
with_bit_self b (suc j) =
    let half : (with_bit (b / 2) j * 2 + b % 2) / 2 ≡ with_bit (b / 2) j = omega arith in
    rw half (with_bit_self (b / 2) j)

with_bit_keeps : (b j i : ℕ) → test_bit b i ≡ true → test_bit (with_bit b j) i ≡ true
unfolding test_bit with_bit
with_bit_keeps b zero zero h = ground arith
with_bit_keeps b zero (suc i) h = let half : (b / 2 * 2 + 1) / 2 ≡ b / 2 = omega arith in rw half h
with_bit_keeps b (suc j) zero h = ground arith
with_bit_keeps b (suc j) (suc i) h =
    let half : (with_bit (b / 2) j * 2 + b % 2) / 2 ≡ with_bit (b / 2) j = omega arith in
    rw half (with_bit_keeps (b / 2) j i h)

get_or-set_self : (xs : Bytes) (i v : ℕ) → i < length xs → get_or (set xs i v) i 0 ≡ v
get_or-set_self [] i v h = absurd (omega arith)
get_or-set_self (x ∷ xs) zero v h = refl
get_or-set_self (x ∷ xs) (suc i) v h = get_or-set_self xs i v (omega arith)

get_or-set_ne : (xs : Bytes) (i j v : ℕ) → i ≢ j → get_or (set xs i v) j 0 ≡ get_or xs j 0
get_or-set_ne [] i j v h = refl
get_or-set_ne (x ∷ xs) zero zero v h = absurd (h refl)
get_or-set_ne (x ∷ xs) zero (suc j) v h = refl
get_or-set_ne (x ∷ xs) (suc i) zero v h = refl
get_or-set_ne (x ∷ xs) (suc i) (suc j) v h = get_or-set_ne xs i j v (λ e. h (ap suc e))

set_bit_self : (bits : Bytes) (i : ℕ) → i / 8 < length bits → get_bit (set_bit bits i) i ≡ true
unfolding get_bit set_bit
set_bit_self bits i h = rw (get_or-set_self bits (i / 8) _ h) (with_bit_self _ (i % 8))

set_bit_keeps :
    (bits : Bytes) (i j : ℕ)
    → i / 8 < length bits
    → get_bit bits j ≡ true
    → get_bit (set_bit bits i) j ≡ true
unfolding get_bit set_bit
set_bit_keeps bits i j h e = elim (ℕ_discrete (i / 8) (j / 8)) [
  | yes same ↦
      rw (← same, get_or-set_self bits (i / 8) _ h)
        (with_bit_keeps (get_or bits (i / 8) 0) (i % 8) (j % 8) (rw same e))
  | no other ↦ rw (get_or-set_ne bits (i / 8) (j / 8) _ other) e
]

-- The bit array has a byte for each eight of its `m` bits, and so holds every index.
pub record IsWellFormed (f : Filter) : Type 0 where
  pub some_bits : 0 < f.m
  pub no_wrap : f.m + 7 < 2 ^ 32
  pub sized : length f.bits ≡ (f.m + 7) / 8

bit_index-lt :
    (f : Filter) (h : ℕ × ℕ) (i : ℕ) → IsWellFormed f → bit_index f h i / 8 < length f.bits
unfolding bit_index
bit_index-lt f h i v =
    let below = mod-lt ((h.0 + i * h.1) % 2 ^ 64) v.some_bits in omega (arith, below, v.sized)

length-set_bit : (bits : Bytes) (i : ℕ) → length (set_bit bits i) ≡ length bits
unfolding set_bit
length-set_bit bits i = length-set bits (i / 8) _

length-add_loop :
    (f : Filter) (h : ℕ × ℕ) (left i : ℕ) (bits : Bytes)
    → length (add_loop f h left i bits) ≡ length bits
unfolding add_loop
length-add_loop f h zero i bits = refl
length-add_loop f h (suc left) i bits =
    length-add_loop f h left (i + 1) _ ∙ length-set_bit bits (bit_index f h i)

-- Adding a value keeps the filter well formed.
pub add-IsWellFormed : (f : Filter) (value : Bytes) → IsWellFormed f → IsWellFormed (add value f)
unfolding add
add-IsWellFormed f value v = record {
  some_bits = v.some_bits;
  no_wrap = v.no_wrap;
  sized = length-add_loop f (double_hash value) f.k 0 f.bits ∙ v.sized;
}

add_loop_keeps :
    (f : Filter) (h : ℕ × ℕ) (left i j : ℕ) (bits : Bytes)
    → IsWellFormed f
    → length bits ≡ length f.bits
    → get_bit bits j ≡ true
    → get_bit (add_loop f h left i bits) j ≡ true
unfolding add_loop
add_loop_keeps f h zero i j bits v len e = e
add_loop_keeps f h (suc left) i j bits v len e =
    let inside = bit_index-lt f h i v in
    add_loop_keeps f h left (i + 1) j _ v (length-set_bit bits (bit_index f h i) ∙ len)
      (set_bit_keeps bits (bit_index f h i) j (omega (arith, inside, len)) e)

may_contain_loop_keeps :
    (f : Filter) (bits : Bytes) (h : ℕ × ℕ) (left i : ℕ)
    → ((j : ℕ) → get_bit f.bits j ≡ true → get_bit bits j ≡ true)
    → may_contain_loop f h left i ≡ true
    → may_contain_loop (record f { bits = bits }) h left i ≡ true
unfolding may_contain_loop bit_index
may_contain_loop_keeps f bits h zero i k e = refl
may_contain_loop_keeps f bits h (suc left) i k e =
    ground (arith, k (bit_index f h i), may_contain_loop_keeps f bits h left (i + 1) k)

add_loop_sets :
    (f : Filter) (h : ℕ × ℕ) (left i : ℕ) (bits : Bytes)
    → IsWellFormed f
    → length bits ≡ length f.bits
    → may_contain_loop (record f { bits = add_loop f h left i bits }) h left i ≡ true
unfolding add_loop may_contain_loop bit_index
add_loop_sets f h zero i bits v len = refl
add_loop_sets f h (suc left) i bits v len =
    let idx = bit_index f h i in
    let bits' = set_bit bits idx in
    let len' = length-set_bit bits idx ∙ len in
    let inside = bit_index-lt f h i v in
    let found =
      add_loop_keeps f h left (i + 1) idx bits' v len'
        (set_bit_self bits idx (omega (arith, inside, len))) in
    rw found (add_loop_sets f h left (i + 1) bits' v len')

-- No false negatives: a value that was added may be contained.
pub may_contain-add_self :
    (f : Filter) (value : Bytes) → IsWellFormed f → may_contain value (add value f) ≡ true
unfolding add may_contain
may_contain-add_self f value v = add_loop_sets f (double_hash value) f.k 0 f.bits v refl

-- What may be contained still may be after another value is added.
pub may_contain-add :
    (f : Filter) (value other : Bytes)
    → IsWellFormed f
    → may_contain value f ≡ true
    → may_contain value (add other f) ≡ true
unfolding add may_contain
may_contain-add f value other v =
    may_contain_loop_keeps f _ (double_hash value) f.k 0
      (λ j. add_loop_keeps f (double_hash other) f.k 0 j f.bits v refl)

-- The values of a segment, added one after the other.
unfoldable pub add_all : List Bytes → Filter → Filter
add_all [] f = f
add_all (v ∷ vs) f = add_all vs (add v f)

pub add_all-IsWellFormed :
    (vs : List Bytes) (f : Filter) → IsWellFormed f → IsWellFormed (add_all vs f)
unfolding add_all
add_all-IsWellFormed [] f w = w
add_all-IsWellFormed (v ∷ vs) f w = add_all-IsWellFormed vs (add v f) (add-IsWellFormed f v w)

add_all_keeps :
    (vs : List Bytes) (f : Filter) (value : Bytes)
    → IsWellFormed f
    → may_contain value f ≡ true
    → may_contain value (add_all vs f) ≡ true
unfolding add_all
add_all_keeps [] f value w e = e
add_all_keeps (v ∷ vs) f value w e =
    add_all_keeps vs (add v f) value (add-IsWellFormed f v w) (may_contain-add f value v w e)

-- A well-formed filter, after a list of values is added, may contain each of them.
pub may_contain-add_all :
    (vs : List Bytes) (f : Filter)
    → IsWellFormed f
    → All (λ value. may_contain value (add_all vs f) ≡ true) vs
unfolding add_all
may_contain-add_all [] f w = tt
may_contain-add_all (v ∷ vs) f w =
    let w' = add-IsWellFormed f v w in
    (
      add_all_keeps vs (add v f) v w' (may_contain-add_self f v w),
      may_contain-add_all vs (add v f) w',
    )

length-new :
    (ceiled : ℕ → ℕ) (rounded : ℕ → ℕ → ℕ) (n : ℕ)
    → ((i : ℕ) → ceiled i + 7 < 2 ^ 32)
    → length (new ceiled rounded n).bits ≡ ((new ceiled rounded n).m + 7) / 8
unfolding new
length-new ceiled rounded n small = ground (
  arith,
  length-replicate {A = ℕ} (bytes_for (optimal_m ceiled n)) 0,
  small (if n == 0 then 1 else n),
)

-- A new filter is well formed, where the size that the formula gives fits 32 bits.
pub new-IsWellFormed :
    (ceiled : ℕ → ℕ) (rounded : ℕ → ℕ → ℕ) (n : ℕ)
    → ((i : ℕ) → ceiled i + 7 < 2 ^ 32)
    → IsWellFormed (new ceiled rounded n)
unfolding new
new-IsWellFormed ceiled rounded n small = record {
  some_bits = ground (arith, small (if n == 0 then 1 else n));
  no_wrap = ground (arith, small (if n == 0 then 1 else n));
  sized = length-new ceiled rounded n small;
}
