-- ===== src/Segment/Cache/Listing.antt =====
-- internal/segment/cache.go, the map and the list of the cache: what is in them after a removal.
use wisp_trace_db.Prelude.{
  ℕ, ◌+◌, ◌<◌, ◌≤◌, ◌==◌, ◌≡◌, refl, true, false, none, some, List, [], ◌∷◌, ◌++◌, arith, length,
  if◌then◌else◌,
}
use wisp_trace_db.Segment.Cache.{mem, without, find_entry, delete_entry}

unfoldable pub count : ℕ → List ℕ → ℕ
count a [] = 0
count a (x ∷ xs) = (if x == a then 1 else 0) + count a xs

pub mem-without :
    (a b : ℕ) (xs : List ℕ) → mem a (without b xs) ≡ (if b == a then false else mem a xs)
unfolding mem without
mem-without a b [] = ground arith
mem-without a b (x ∷ xs) = ground (arith, mem-without a b xs)

pub find-delete :
    (i j : ℕ) (m : List (ℕ × ℕ))
    → find_entry i (delete_entry j m) ≡ (if j == i then none else find_entry i m)
unfolding find_entry delete_entry
find-delete i j [] = ground arith
find-delete i j ((k, p) ∷ m) = ground (arith, find-delete i j m)

pub mem-append : (a : ℕ) (xs ys : List ℕ) → mem a (xs ++ ys) ≡ (if mem a xs then true else mem a ys)
unfolding mem
mem-append a [] ys = refl
mem-append a (x ∷ xs) ys = ground (arith, mem-append a xs ys)

pub count-middle :
    (a p : ℕ) (front back : List ℕ)
    → count a (front ++ p ∷ back) ≡ (if p == a then 1 else 0) + count a (front ++ back)
unfolding count
count-middle a p [] back = refl
count-middle a p (x ∷ front) back = omega (arith, count-middle a p front back)

pub count_le : (a : ℕ) (xs : List ℕ) → count a xs ≤ length xs
unfolding count
count_le a [] = omega arith
count_le a (x ∷ xs) = ground (arith, count_le a xs)

pub mem_counted : (a : ℕ) (xs : List ℕ) → mem a xs ≡ true → 1 ≤ count a xs
unfolding mem count
mem_counted a [] h = absurd cc
mem_counted a (x ∷ xs) h = ground (arith, mem_counted a xs)

-- Deleting the key of an entry that the map has makes it shorter.
pub length-delete_entry_le : (i : ℕ) (m : List (ℕ × ℕ)) → length (delete_entry i m) ≤ length m
unfolding delete_entry
length-delete_entry_le i [] = omega arith
length-delete_entry_le i ((k, p) ∷ m) = ground (arith, length-delete_entry_le i m)

pub length-delete_entry :
    (i p : ℕ) (m : List (ℕ × ℕ)) → find_entry i m ≡ some p → length (delete_entry i m) < length m
unfolding find_entry delete_entry
length-delete_entry i p [] h = absurd cc
length-delete_entry i p ((k, q) ∷ m) h =
    ground (arith, length-delete_entry i p m, length-delete_entry_le i m)
