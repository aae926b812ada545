-- ===== src/Bloom.antt =====
-- internal/bloom/bloom.go: a bit array with k hash functions, combined from two FNV hashes.
pub mod Members
pub mod Coding
use wisp_trace_db.Prelude.{
  ℕ, zero, suc, ◌+◌, ◌-◌, ◌*◌, ◌/◌, ◌%◌, ◌^◌, ◌==◌, Bool, true, false, List, [], ◌∷◌, ◌++◌, length,
  take, drop, get_or, set, replicate, bit_xor, ltb, if◌then◌else◌, Result, ok, err,
}
use wisp_trace_db.Prelude.Bytes.{Bytes, put_uint, uint}

-- Filter. `bits` is the byte array; bit i is bit i % 8 of byte i / 8.
pub record Filter : Type 0 where
  pub m : ℕ
  pub k : ℕ
  pub bits : Bytes

-- optimalM after math.Ceil, whose value for `n` items is given.
unfoldable pub optimal_m : (ℕ → ℕ) → ℕ → ℕ
optimal_m ceiled n =
    let n' = if n == 0 then 1 else n in let m = ceiled n' in if ltb m 8 then 8 else m % 2 ^ 32

-- optimalK after math.Round, whose value for `m` bits and `n` items is given.
unfoldable pub optimal_k : (ℕ → ℕ → ℕ) → ℕ → ℕ → ℕ
optimal_k rounded m n =
    let n' = if n == 0 then 1 else n in let k = rounded m n' in if ltb k 1 then 1 else k % 2 ^ 32

unfoldable pub bytes_for : ℕ → ℕ
bytes_for m = (m + 7) % 2 ^ 32 / 8

unfoldable pub new : (ℕ → ℕ) → (ℕ → ℕ → ℕ) → ℕ → Filter
unfolding optimal_m optimal_k bytes_for
new ceiled rounded n =
    let m = optimal_m ceiled n in
    record { m = m; k = optimal_k rounded m n; bits = replicate (bytes_for m) 0 }

abbrev fnv_offset : ℕ
fnv_offset = 14695981039346656037

abbrev fnv_prime : ℕ
fnv_prime = 1099511628211

-- hash/fnv's New64a and New64.
fnv_64a : ℕ → Bytes → ℕ
fnv_64a h [] = h
fnv_64a h (b ∷ bs) = fnv_64a (bit_xor h b * fnv_prime % 2 ^ 64) bs

fnv_64 : ℕ → Bytes → ℕ
fnv_64 h [] = h
fnv_64 h (b ∷ bs) = fnv_64 (bit_xor (h * fnv_prime % 2 ^ 64) b) bs

unfoldable pub double_hash : Bytes → ℕ × ℕ
unfolding fnv_64a fnv_64
double_hash value = (fnv_64a fnv_offset value, fnv_64 fnv_offset value)

-- The i-th bit of a value, in arithmetic of 64 bits.
unfoldable pub bit_index : Filter → ℕ × ℕ → ℕ → ℕ
bit_index f h i = (h.0 + i * h.1) % 2 ^ 64 % f.m

-- `b & (1 << j) != 0`, and `b | 1 << j`, digit by digit.
unfoldable pub test_bit : ℕ → ℕ → Bool
test_bit b zero = b % 2 == 1
test_bit b (suc j) = test_bit (b / 2) j

unfoldable pub with_bit : ℕ → ℕ → ℕ
with_bit b zero = b / 2 * 2 + 1
with_bit b (suc j) = with_bit (b / 2) j * 2 + b % 2

unfoldable pub get_bit : Bytes → ℕ → Bool
unfolding test_bit
get_bit bits i = test_bit (get_or bits (i / 8) 0) (i % 8)

unfoldable pub set_bit : Bytes → ℕ → Bytes
unfolding with_bit
set_bit bits i = set bits (i / 8) (with_bit (get_or bits (i / 8) 0) (i % 8))

-- Add's loop, with the rounds left and the round.
add_loop : Filter → ℕ × ℕ → ℕ → ℕ → Bytes → Bytes
add_loop f h zero i bits = bits
add_loop f h (suc left) i bits = add_loop f h left (i + 1) (set_bit bits (bit_index f h i))

unfoldable pub add : Bytes → Filter → Filter
unfolding add_loop double_hash bit_index set_bit
add value f = record f { bits = add_loop f (double_hash value) f.k 0 f.bits }

may_contain_loop : Filter → ℕ × ℕ → ℕ → ℕ → Bool
may_contain_loop f h zero i = true
may_contain_loop f h (suc left) i =
    let rest = may_contain_loop f h left (i + 1) in
    if get_bit f.bits (bit_index f h i) then rest else false

unfoldable pub may_contain : Bytes → Filter → Bool
unfolding may_contain_loop double_hash bit_index get_bit
may_contain value f = may_contain_loop f (double_hash value) f.k 0

unfoldable pub encode : Filter → Bytes
encode f = put_uint 4 f.m ++ (put_uint 4 f.k ++ f.bits)

unfoldable pub encoded_size : Filter → ℕ
encoded_size f = 8 + length f.bits

pub data DecodeError : Type 0 where
  short_header short_bits : DecodeError

unfoldable pub decode : Bytes → Result DecodeError (Filter × ℕ)
unfolding bytes_for
decode bytes =
    if ltb (length bytes) 8
    then err short_header
    else let m = uint (take 4 (drop 0 bytes)) in
      let k = uint (take 4 (drop 4 bytes)) in
      let n = bytes_for m in
      if ltb (length bytes) (8 + n)
      then err short_bits
      else ok (record { m = m; k = k; bits = take n (drop 8 bytes) }, 8 + n)
