-- ===== src/Segment/Manifest/Live.antt =====
-- internal/segment/manifest.go, with the manifest seen as a set of ids.
use wisp_trace_db.Prelude.{
  ℕ, ◌*◌, ◌/◌, ◌%◌, ◌^◌, ◌<◌, ◌==◌, ◌≡◌, refl, sym, ap, ◌∙◌, true, false, not, ◌||◌, ◌&&◌, Option,
  some, List, [], ◌∷◌, ◌++◌, length, length-append, take-append, drop-append, All, All-append,
  if◌then◌else◌, ok, arith, Bool-cases, inl, inr, leb, ==_self,
}
use wisp_trace_db.Prelude.Sort.{sort_ids, insert_id}
use wisp_trace_db.Prelude.Bytes.{Bytes, put_uint, length-put_uint, uint-put_uint}
use wisp_trace_db.Segment.Manifest.{
  read_ids, load, write_ids, save, contains, add_segment, remove_segments,
}

-- The ids fit 64 bits.
abbrev pub AreIds : List ℕ → Type 0
AreIds ids = All (λ id. id < 2 ^ 64) ids

length-write_ids : (ids : List ℕ) → length (write_ids ids) ≡ 8 * length ids
unfolding write_ids
length-write_ids [] = omega arith
length-write_ids (id ∷ ids) = omega (
  arith,
  length-append (put_uint 8 id) (write_ids ids),
  length-put_uint 8 id,
  length-write_ids ids,
)

read_ids-write_ids : (ids : List ℕ) → AreIds ids → read_ids (length ids) (write_ids ids) ≡ ids
unfolding read_ids write_ids
read_ids-write_ids [] v = refl
read_ids-write_ids (id ∷ ids) v =
    let size = sym (length-put_uint 8 id) in
    rw (
      take-append 8 (put_uint 8 id) (write_ids ids) size,
      drop-append 8 (put_uint 8 id) (write_ids ids) size,
      uint-put_uint 8 id v.0,
      read_ids-write_ids ids v.1,
    )

load-write_ids : (ids : List ℕ) → AreIds ids → load (some (write_ids ids)) ≡ ok ids
unfolding load
load-write_ids ids v =
    let whole : length (write_ids ids) % 8 ≡ 0 = omega (arith, length-write_ids ids) in
    let count : length (write_ids ids) / 8 ≡ length ids = omega (arith, length-write_ids ids) in
    rw (whole, count, read_ids-write_ids ids v)

insert_id-AreIds : (id : ℕ) (ids : List ℕ) → id < 2 ^ 64 → AreIds ids → AreIds (insert_id id ids)
unfolding insert_id
insert_id-AreIds id [] h v = (h, tt)
insert_id-AreIds id (x ∷ xs) h v = elim (Bool-cases (leb id x)) [
  | inl e ↦ rw e (h, v)
  | inr e ↦ rw e (v.0, insert_id-AreIds id xs h v.1)
]

sort_ids-AreIds : (ids : List ℕ) → AreIds ids → AreIds (sort_ids ids)
unfolding sort_ids
sort_ids-AreIds [] v = tt
sort_ids-AreIds (x ∷ xs) v = insert_id-AreIds x (sort_ids xs) v.0 (sort_ids-AreIds xs v.1)

contains-insert_id :
    (j x : ℕ) (xs : List ℕ) → contains j (insert_id x xs) ≡ (if x == j then true else contains j xs)
unfolding contains insert_id
contains-insert_id j x [] = refl
contains-insert_id j x (y ∷ ys) = ground (arith, contains-insert_id j x ys)

contains-sort_ids : (j : ℕ) (xs : List ℕ) → contains j (sort_ids xs) ≡ contains j xs
unfolding contains sort_ids
contains-sort_ids j [] = refl
contains-sort_ids j (x ∷ xs) = rw (contains-insert_id j x (sort_ids xs), contains-sort_ids j xs)

contains-append :
    (j : ℕ) (xs ys : List ℕ)
    → contains j (xs ++ ys) ≡ (if contains j xs then true else contains j ys)
unfolding contains
contains-append j [] ys = refl
contains-append j (x ∷ xs) ys = ground (arith, contains-append j xs ys)

-- What Save writes, of ids that fit 64 bits, Load returns: the ids in ascending order.
pub load-save :
    (ids : List ℕ) (file : Option Bytes)
    → AreIds ids
    → load (save true ids file).0 ≡ ok (sort_ids ids)
unfolding save
load-save ids file v = load-write_ids (sort_ids ids) (sort_ids-AreIds ids v)

add_segment_known :
    (id : ℕ) (file : Option Bytes) (ids : List ℕ)
    → load file ≡ ok ids
    → contains id ids ≡ true
    → add_segment true id file ≡ (file, ok tt)
unfolding add_segment
add_segment_known id file ids e known = rw (add_segment, e, known)

add_segment_new :
    (id : ℕ) (file : Option Bytes) (ids : List ℕ)
    → load file ≡ ok ids
    → contains id ids ≡ false
    → add_segment true id file ≡ save true (ids ++ id ∷ []) file
unfolding add_segment
add_segment_new id file ids e new = rw (add_segment, e, new)

-- After AddSegment of an id that fits 64 bits, to a manifest that loads such ids, the manifest
-- loads, and its ids are that id and those before.
pub load-add_segment :
    (id : ℕ) (file : Option Bytes) (ids : List ℕ)
    → load file ≡ ok ids
    → AreIds ids
    → id < 2 ^ 64
    → (ids' : List ℕ) × (load (add_segment true id file).0 ≡ ok ids')
      × ((j : ℕ) → contains j ids' ≡ (id == j || contains j ids))
unfolding contains
load-add_segment id file ids e v h = elim (Bool-cases (contains id ids)) [
  | inl known ↦ (ids, rw (add_segment_known id file ids e known) e, λ j. ground (arith, known))
  | inr new ↦ (
    sort_ids (ids ++ id ∷ []),
    rw (add_segment_new id file ids e new)
        (load-save (ids ++ id ∷ []) file (All-append _ ids (id ∷ []) v (h, tt))),
    λ j. rw (contains-sort_ids j (ids ++ id ∷ []), contains-append j ids (id ∷ [])) (ground arith),
  )
]

-- RemoveSegments keeps exactly the ids that are not to be removed.
pub contains-remove_segments :
    (j : ℕ) (ids remove : List ℕ)
    → contains j (remove_segments ids remove) ≡ (contains j ids && not (contains j remove))
unfolding remove_segments contains
contains-remove_segments j [] remove = refl
contains-remove_segments j (x ∷ xs) remove = ground (arith, contains-remove_segments j xs remove)

-- AddSegment is idempotent: adding an id again, where the ids fit 64 bits and the manifest loads,
-- leaves the file as it is.
pub add_segment_twice :
    (id : ℕ) (file : Option Bytes) (ids : List ℕ)
    → load file ≡ ok ids
    → AreIds ids
    → id < 2 ^ 64
    → add_segment true id (add_segment true id file).0 ≡ ((add_segment true id file).0, ok tt)
add_segment_twice id file ids e v h =
    let (ids', e', same) = load-add_segment id file ids e v h in
    add_segment_known id _ ids' e' (same id ∙ ap (λ b. b || contains id ids) (==_self id))
