-- ===== src/Engine/Pending.antt =====
-- internal/engine/engine.go, appendTracked and releaseWALPending: which segments of the log hold
-- acknowledged spans that are in no segment file yet, and how far the log may be reclaimed.
pub mod Counts
pub mod Reclaiming
pub mod Invariant
pub mod Durable
use wisp_trace_db.Prelude.{
  ℕ, ◌+◌, ◌-◌, ◌%◌, ◌^◌, ◌==◌, Bool, not, Option, none, some, List, [], ◌∷◌, keep, ltb, leb,
  if◌then◌else◌, Result, ok, err,
}
use wisp_trace_db.Wal.Span.{Span, WalRecord, WalError}
use wisp_trace_db.Wal.Log.{Io, Wal, append_record_with_seg, remove_segments_up_to}

-- The map walPending, from a segment's id to the number of its spans that are not flushed.
abbrev pub Counts : Type 0
Counts = List (ℕ × ℕ)

-- The engine's log and its map.
pub record Tracker : Type 0 where
  pub wal : Wal
  pub pending : Counts

unfoldable pub count_of : ℕ → Counts → ℕ
count_of seg [] = 0
count_of seg ((j, n) ∷ m) = if j == seg then n else count_of seg m

unfoldable pub put_count : ℕ → ℕ → Counts → Counts
put_count seg n [] = (seg, n) ∷ []
put_count seg n ((j, k) ∷ m) = if j == seg then (j, n) ∷ m else (j, k) ∷ put_count seg n m

unfoldable pub delete_count : ℕ → Counts → Counts
delete_count seg m = keep (λ p. not (p.0 == seg)) m

unfoldable pub append_tracked : Io → Span → Tracker → Tracker × Result WalError ℕ
append_tracked io span t =
    let (w, r) = append_record_with_seg io (record { version = 0; span = span }) t.wal in
    elim r [
      | err e ↦ (record t { wal = w }, err e)
      | ok seg ↦ (
        record { wal = w; pending = put_count seg (count_of seg t.pending + 1) t.pending },
        ok seg,
      )
    ]

-- One span of a flushed batch, by the segment of its record: 0 where it was replayed at startup.
unfoldable pub release_one : ℕ → Counts → Counts
release_one seg m =
    if seg == 0
    then m
    else if leb (count_of seg m) 1
    then delete_count seg m
    else put_count seg (count_of seg m - 1) m

unfoldable pub release_all : List ℕ → Counts → Counts
release_all [] m = m
release_all (seg ∷ batch) m = release_all batch (release_one seg m)

-- The loop that finds the lowest segment in the map.
unfoldable pub lowest : Option ℕ → Counts → Option ℕ
lowest low [] = low
lowest none ((j, n) ∷ m) = lowest (some j) m
lowest (some low) ((j, n) ∷ m) = lowest (some (if ltb j low then j else low)) m

abbrev pub sub64 : ℕ → ℕ → ℕ
sub64 a b = (a + 2 ^ 64 - b) % 2 ^ 64

-- The id up to which the log is reclaimed, if it is.
unfoldable pub reclaim_bound : Counts → ℕ → Option ℕ
unfolding lowest
reclaim_bound m active = elim (lowest none m) [
  | some low ↦ some (sub64 low 1)
  | none ↦ if leb active 1 then none else some (sub64 active 1)
]

-- releaseWALPending, on the segments of the batch.
unfoldable pub release_wal_pending : Io → List ℕ → Tracker → Tracker × Result WalError Unit
unfolding release_all reclaim_bound
release_wal_pending io batch t =
    let pending = release_all batch t.pending in
    elim (reclaim_bound pending t.wal.segment_id) [
      | none ↦ (record t { pending = pending }, ok tt)
      | some bound ↦
          let (w, r) = remove_segments_up_to io bound t.wal in
          (record { wal = w; pending = pending }, r)
    ]
