-- ===== src/Engine/Pending/Reclaiming.antt =====
-- releaseWALPending and appendTracked (internal/engine/engine.go) on the view of the log.
use mathlib.Core.List.{Memᴰ}
use wisp_trace_db.Prelude.{
  ℕ, ◌+◌, ◌^◌, ◌<◌, ◌≤◌, ◌==◌, ◌≡◌, refl, sym, ap, ◌∙◌, Bool, true, Option, some, List, [], ◌∷◌,
  keep, ltb, All, if◌then◌else◌, Bool-cases, Option-cases, inl, inr, arith, ok, lt→ltb, ==_iff,
}
use wisp_trace_db.Wal.Span.{WalRecord, Span}
use wisp_trace_db.Wal.Log.{no_faults, remove_segments_up_to, append_record_with_seg}
use wisp_trace_db.Wal.Log.Holds.{Segment, Holds}
use wisp_trace_db.Wal.Log.Append.{Fits, sealed_after, active_after, id_after, append-Holds}
use wisp_trace_db.Wal.Log.Reclaim.{remove_segments_up_to-Holds}
use wisp_trace_db.Engine.Pending.{
  Counts, Tracker, count_of, put_count, release_all, lowest, sub64, reclaim_bound, append_tracked,
  release_wal_pending,
}
use wisp_trace_db.Engine.Pending.Counts.{
  occurs, lowest-le, lowest-All, count_of-release_all, count_of-put_count,
}

-- The ids of the map are those of segments: none is 0, and all fit 64 bits.
abbrev pub AreSegments : Counts → Type 0
AreSegments m = All (λ p. (0 < p.0) × (p.0 < 2 ^ 64)) m

some_eq : {a b : ℕ} → ◌≡◌ {A = Option ℕ} (some a) (some b) → a ≡ b
some_eq e = cc

reclaim_bound_cons :
    (j n : ℕ) (m : Counts) (active l : ℕ)
    → lowest (some j) m ≡ some l
    → reclaim_bound ((j, n) ∷ m) active ≡ some (sub64 l 1)
unfolding reclaim_bound lowest
reclaim_bound_cons j n m active l e = rw (reclaim_bound, e)

-- What is reclaimed is below every segment with a count.
reclaim_bound-lt :
    (m : Counts) (active bound k : ℕ)
    → AreSegments m
    → reclaim_bound m active ≡ some bound
    → 0 < count_of k m
    → bound < k
unfolding count_of
reclaim_bound-lt [] active bound k v e h = absurd (omega arith)
reclaim_bound-lt ((j, n) ∷ m) active bound k v e h =
    let (l, found, below, all) = lowest-le m j in
    let fits = lowest-All (λ x. (0 < x) × (x < 2 ^ 64)) m j l v.0 v.1 found in
    let same : sub64 l 1 ≡ bound = some_eq (sym (reclaim_bound_cons j n m active l found) ∙ e) in
    let above : l ≤ k = ground (arith, below, all k, h) in
    omega (arith, same, above, fits.0, fits.1)

pub release-segment_id :
    (batch : List ℕ) (t : Tracker)
    → (release_wal_pending no_faults batch t).0.wal.segment_id ≡ t.wal.segment_id
unfolding release_wal_pending remove_segments_up_to
release-segment_id batch t =
    elim (Option-cases (reclaim_bound (release_all batch t.pending) t.wal.segment_id)) [
      | inl e ↦ rw (release_wal_pending, e) refl
      | inr (bound, e) ↦ rw (release_wal_pending, e) refl
    ]

pub release-pending :
    (batch : List ℕ) (t : Tracker)
    → (release_wal_pending no_faults batch t).0.pending ≡ release_all batch t.pending
unfolding release_wal_pending
release-pending batch t =
    elim (Option-cases (reclaim_bound (release_all batch t.pending) t.wal.segment_id)) [
      | inl e ↦ rw (release_wal_pending, e) refl
      | inr (bound, e) ↦ rw (release_wal_pending, e) refl
    ]

Memᴰ-keep :
    (p : Segment → Bool) (s : Segment) (segs : List Segment)
    → p s ≡ true
    → Memᴰ s segs
    → Memᴰ s (keep p segs)
Memᴰ-keep p s [] h m = elim m [ ]
Memᴰ-keep p s (x ∷ segs) h (Memᴰ.head e) = rw (← e, h) (Memᴰ.head refl)
Memᴰ-keep p s (x ∷ segs) h (Memᴰ.tail m) = elim (Bool-cases (p x)) [
  | inl e ↦ rw e (Memᴰ.tail (Memᴰ-keep p s segs h m))
  | inr e ↦ rw e (Memᴰ-keep p s segs h m)
]

-- After a batch is flushed and the log reclaimed, without faults, on a log that holds whole
-- records and with counts for ids that are positive and fit 64 bits, every sealed segment with a
-- higher count than the batch has spans of it is there, with its records, and so is the active
-- segment.
pub release_wal_pending-keeps :
    (sealed : List Segment) (active : List WalRecord) (batch : List ℕ) (t : Tracker)
    → Holds sealed active t.wal
    → AreSegments (release_all batch t.pending)
    → (left : List Segment) × (Holds left active (release_wal_pending no_faults batch t).0.wal)
      × ((s : Segment)
          → Memᴰ s sealed
          → occurs s.0 batch < count_of s.0 t.pending
          → 0 < s.0
          → Memᴰ s left)
unfolding release_wal_pending
release_wal_pending-keeps sealed active batch t h v =
    elim (Option-cases (reclaim_bound (release_all batch t.pending) t.wal.segment_id)) [
      | inl none_due ↦ (sealed, rw (release_wal_pending, none_due) h, λ s m more one. m)
      | inr (bound, due) ↦ (
        keep (λ s. ltb bound s.0) sealed,
        rw (release_wal_pending, due) (remove_segments_up_to-Holds sealed active bound t.wal h).0,
        λ s m more one.
            Memᴰ-keep (λ s. ltb bound s.0) s sealed
              (lt→ltb bound s.0 (
                reclaim_bound-lt (release_all batch t.pending) t.wal.segment_id bound s.0 v due
                  (omega (arith, count_of-release_all batch s.0 t.pending one, more))))
              m,
      )
    ]

-- The record that the engine appends for a span.
abbrev pub record_of : Span → WalRecord
record_of span = record { version = 0; span = span }

pub append_tracked_ok :
    (span : Span) (t : Tracker) (seg : ℕ)
    → (append_record_with_seg no_faults (record_of span) t.wal).1 ≡ ok seg
    → append_tracked no_faults span t ≡ (
      record {
        wal = (append_record_with_seg no_faults (record_of span) t.wal).0;
        pending = put_count seg (count_of seg t.pending + 1) t.pending;
      },
      ok seg,
    )
unfolding append_tracked
append_tracked_ok span t seg e = rw (append_tracked, e)

-- Inserting a span whose record fits, without faults, into a log that holds whole records puts the
-- record behind the others, rotating where it would overflow the active segment, and counts it for
-- the segment that holds it, and for no other.
pub append_tracked-Holds :
    (sealed : List Segment) (active : List WalRecord) (span : Span) (t : Tracker)
    → Holds sealed active t.wal
    → Fits (record_of span) t.wal
    → Holds
        (sealed_after sealed active (record_of span) t.wal)
        (active_after active (record_of span) t.wal)
        (append_tracked no_faults span t).0.wal
      × ((append_tracked no_faults span t).1 ≡ ok (id_after (record_of span) t.wal))
      × ((append_tracked no_faults span t).0.wal.segment_id ≡ id_after (record_of span) t.wal)
      × ((k : ℕ)
          → count_of k (append_tracked no_faults span t).0.pending
            ≡ count_of k t.pending + (if id_after (record_of span) t.wal == k then 1 else 0))
append_tracked-Holds sealed active span t h f =
    let seg = id_after (record_of span) t.wal in
    let (holds, answer, named) = append-Holds sealed active (record_of span) t.wal h f in
    rw (append_tracked_ok span t seg answer) (
      holds,
      refl,
      named,
      λ k.
          count_of-put_count seg k (count_of seg t.pending + 1) t.pending
          ∙ elim (Bool-cases (seg == k)) [
            | inl same ↦
                let one = ap (λ s. count_of s t.pending) ((==_iff seg k).0 same) in
                rw same (ap (λ n. n + 1) one)
            | inr other ↦ rw other (omega arith)
          ],
    )
