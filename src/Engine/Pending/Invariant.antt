-- ===== src/Engine/Pending/Invariant.antt =====
-- The acknowledged spans that are not flushed, as lists, against the log and the counts.
use mathlib.Core.List.{Memᴰ}
use mathlib.Core.List.Memᴰ.{append_left, append_right}
use wisp_trace_db.Prelude.{
  ℕ, ◌+◌, ◌-◌, ◌^◌, ◌<◌, ◌==◌, ◌≡◌, ◌⊎◌, refl, ap, List, [], ◌∷◌, ◌++◌, map, leb, All, All-keep,
  Bool-cases, inl, inr, arith,
}
use wisp_trace_db.Wal.Span.{WalRecord, Span}
use wisp_trace_db.Wal.Log.{Wal}
use wisp_trace_db.Wal.Log.Holds.{Segment}
use wisp_trace_db.Wal.Log.Append.{overflows, sealed_after, active_after, id_after}
use wisp_trace_db.Engine.Pending.{
  Counts, count_of, put_count, delete_count, release_one, release_all,
}
use wisp_trace_db.Engine.Pending.Counts.{occurs}
use wisp_trace_db.Engine.Pending.Reclaiming.{AreSegments, record_of}

-- An acknowledged span, and the segment of the log that its append answered.
abbrev pub Acknowledged : Type 0
Acknowledged = ℕ × Span

-- The list is the batch and the rest, shuffled.
pub data Split : List Acknowledged → List Acknowledged → List Acknowledged → Type 0 where
  none_left : Split [] [] []
  taken :
      {a : Acknowledged} {out batch rest : List Acknowledged}
      → Split out batch rest
      → Split (a ∷ out) (a ∷ batch) rest
  waiting :
      {a : Acknowledged} {out batch rest : List Acknowledged}
      → Split out batch rest
      → Split (a ∷ out) batch (a ∷ rest)

abbrev pub segs_of : List Acknowledged → List ℕ
segs_of out = map (λ a. a.0) out

pub Split-occurs :
    (k : ℕ) {out batch rest : List Acknowledged}
    → Split out batch rest
    → occurs k (segs_of out) ≡ occurs k (segs_of batch) + occurs k (segs_of rest)
unfolding occurs
Split-occurs k none_left = omega arith
Split-occurs k (taken s) = ground (arith, Split-occurs k s)
Split-occurs k (waiting s) = ground (arith, Split-occurs k s)

pub Split-All :
    (P : Acknowledged → Type 0) {out batch rest : List Acknowledged}
    → Split out batch rest
    → All P out
    → All P rest
Split-All P none_left h = tt
Split-All P (taken s) h = Split-All P s h.1
Split-All P (waiting s) h = (h.0, Split-All P s h.1)

-- The record of the span is in its segment of the log.
abbrev pub InLog : List Segment → Acknowledged → Type 0
InLog segs a = (rs : List WalRecord) × Memᴰ (a.0, rs) segs × Memᴰ (record_of a.1) rs

pub Memᴰ-last : (s y : Segment) (xs : List Segment) → Memᴰ s (xs ++ y ∷ []) → Memᴰ s xs ⊎ (s ≡ y)
Memᴰ-last s y [] (Memᴰ.head e) = inr e
Memᴰ-last s y [] (Memᴰ.tail m) = elim m [ ]
Memᴰ-last s y (x ∷ xs) (Memᴰ.head e) = inl (Memᴰ.head e)
Memᴰ-last s y (x ∷ xs) (Memᴰ.tail m) = elim (Memᴰ-last s y xs m) [
  | inl found ↦ inl (Memᴰ.tail found)
  | inr e ↦ inr e
]

-- An append keeps what is in the log, and its own record is there too.
pub InLog-append :
    (sealed : List Segment) (active : List WalRecord) (r : WalRecord) (w : Wal) (a : Acknowledged)
    → InLog (sealed ++ (w.segment_id, active) ∷ []) a
    → InLog (sealed_after sealed active r w ++ (id_after r w, active_after active r w) ∷ []) a
InLog-append sealed active r w a (rs, m, i) = elim (Bool-cases (overflows r w)) [
  | inl over ↦ rw over (rs, append_left _ m, i)
  | inr fits ↦ rw fits (elim (Memᴰ-last (a.0, rs) (w.segment_id, active) sealed m) [
    | inl before ↦ (rs, append_left _ before, i)
    | inr e ↦
        let (named, same) : (a.0 ≡ w.segment_id) × (rs ≡ active) =
          (ap (λ s. s.0) e, ap (λ s. s.1) e) in
        (
          active ++ r ∷ [],
          append_right sealed (Memᴰ.head (ap (λ n. (n, active ++ r ∷ [])) named)),
          append_left {s = active} (r ∷ []) (rw (← same) i),
        )
  ])
]

pub InLog-appended :
    (sealed : List Segment) (active : List WalRecord) (span : Span) (w : Wal)
    → InLog
        (sealed_after sealed active (record_of span) w
          ++ (id_after (record_of span) w, active_after active (record_of span) w) ∷ [])
        (id_after (record_of span) w, span)
InLog-appended sealed active span w = (
  active_after active (record_of span) w,
  append_right _ (Memᴰ.head refl),
  elim (Bool-cases (overflows (record_of span) w)) [
    | inl over ↦ rw over (Memᴰ.head refl)
    | inr fits ↦ rw fits (append_right active (Memᴰ.head refl))
  ],
)

pub put_count-AreSegments :
    (seg n : ℕ) (m : Counts)
    → 0 < seg
    → seg < 2 ^ 64
    → AreSegments m
    → AreSegments (put_count seg n m)
unfolding put_count
put_count-AreSegments seg n [] h k v = ((h, k), tt)
put_count-AreSegments seg n ((j, c) ∷ m) h k v = elim (Bool-cases (j == seg)) [
  | inl e ↦ rw e v
  | inr e ↦ rw e (v.0, put_count-AreSegments seg n m h k v.1)
]

count_of-key : (seg : ℕ) (m : Counts) → AreSegments m → 0 < count_of seg m → seg < 2 ^ 64
unfolding count_of
count_of-key seg [] v h = absurd (omega arith)
count_of-key seg ((j, c) ∷ m) v h = ground (arith, v.0, count_of-key seg m v.1)

release_one-AreSegments : (seg : ℕ) (m : Counts) → AreSegments m → AreSegments (release_one seg m)
unfolding release_one delete_count
release_one-AreSegments seg m v = elim (Bool-cases (seg == 0)) [
  | inl zero_seg ↦ rw (release_one, zero_seg) v
  | inr some_seg ↦ elim (Bool-cases (leb (count_of seg m) 1)) [
    | inl last ↦ rw (release_one, some_seg, last) (All-keep _ _ m v)
    | inr more ↦
        let many : 1 < count_of seg m = ground arith in
        rw (release_one, some_seg, more)
          (put_count-AreSegments seg (count_of seg m - 1) m (ground arith)
            (count_of-key seg m v (omega (arith, many))) v)
  ]
]

pub release_all-AreSegments :
    (batch : List ℕ) (m : Counts) → AreSegments m → AreSegments (release_all batch m)
unfolding release_all
release_all-AreSegments [] m v = v
release_all-AreSegments (s ∷ batch) m v =
    release_all-AreSegments batch (release_one s m) (release_one-AreSegments s m v)
