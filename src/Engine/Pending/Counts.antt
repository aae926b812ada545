-- ===== src/Engine/Pending/Counts.antt =====
-- The counts of releaseWALPending (internal/engine/engine.go), and its loop for the lowest.
use wisp_trace_db.Prelude.{
  ℕ, ◌+◌, ◌-◌, ◌<◌, ◌≤◌, ◌==◌, ◌≡◌, refl, ap, some, List, [], ◌∷◌, ltb, All, if◌then◌else◌,
  Bool-cases, inl, inr, arith, ==_iff,
}
use wisp_trace_db.Engine.Pending.{
  Counts, count_of, put_count, delete_count, release_one, release_all, lowest,
}

-- How often the segment occurs in the batch.
unfoldable pub occurs : ℕ → List ℕ → ℕ
occurs seg [] = 0
occurs seg (s ∷ batch) = if s == seg then occurs seg batch + 1 else occurs seg batch

pub count_of-put_count :
    (seg k n : ℕ) (m : Counts)
    → count_of k (put_count seg n m) ≡ (if seg == k then n else count_of k m)
unfolding count_of put_count
count_of-put_count seg k n [] = refl
count_of-put_count seg k n ((j, c) ∷ m) = ground (arith, count_of-put_count seg k n m)

pub count_of-delete_count :
    (seg k : ℕ) (m : Counts)
    → count_of k (delete_count seg m) ≡ (if seg == k then 0 else count_of k m)
unfolding count_of delete_count
count_of-delete_count seg k [] = ground arith
count_of-delete_count seg k ((j, c) ∷ m) = ground (arith, count_of-delete_count seg k m)

count_of-release_one :
    (seg k : ℕ) (m : Counts)
    → 0 < k
    → count_of k (release_one seg m) ≡ count_of k m - (if seg == k then 1 else 0)
unfolding release_one
count_of-release_one seg k m h =
    let put = count_of-put_count seg k (count_of seg m - 1) m in
    let gone = count_of-delete_count seg k m in
    elim (Bool-cases (seg == k)) [
      | inl same ↦
          let one = ap (λ s. count_of s m) ((==_iff seg k).0 same) in
          ground (arith, same, one, put, gone)
      | inr other ↦ ground (arith, other, put, gone)
    ]

-- Releasing a batch takes one from the count of a segment for each span that the batch has of it.
pub count_of-release_all :
    (batch : List ℕ) (k : ℕ) (m : Counts)
    → 0 < k
    → count_of k (release_all batch m) ≡ count_of k m - occurs k batch
unfolding release_all occurs
count_of-release_all [] k m h = omega arith
count_of-release_all (s ∷ batch) k m h =
    ground (arith, count_of-release_all batch k (release_one s m) h, count_of-release_one s k m h)

-- The lowest segment is no higher than the start of the loop, or any segment with a count.
pub lowest-le :
    (m : Counts) (low : ℕ)
    → (l : ℕ) × (lowest (some low) m ≡ some l) × (l ≤ low) × ((k : ℕ) → 0 < count_of k m → l ≤ k)
unfolding lowest count_of
lowest-le [] low = (low, refl, omega arith, λ k h. absurd (omega arith))
lowest-le ((j, n) ∷ m) low =
    let (l, e, below, all) = lowest-le m (if ltb j low then j else low) in
    (l, e, ground arith, λ k h. ground (arith, all k))

-- The lowest segment is the start of the loop or a key of the map.
pub lowest-All :
    (P : ℕ → Type 0) (m : Counts) (low l : ℕ)
    → P low
    → All (λ p. P p.0) m
    → lowest (some low) m ≡ some l
    → P l
unfolding lowest
lowest-All P [] low l h a e = let same : low ≡ l = cc e in rw (← same) h
lowest-All P ((j, n) ∷ m) low l h a e =
    let next : P (if ltb j low then j else low) = elim (Bool-cases (ltb j low)) [
      | inl less ↦ rw less a.0
      | inr more ↦ rw more h
    ] in
    lowest-All P m (if ltb j low then j else low) l next a.1 e
