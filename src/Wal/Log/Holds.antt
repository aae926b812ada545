-- ===== src/Wal/Log/Holds.antt =====
-- The abstract view of the log: sealed segments and an active one, each a list of records, in
-- ascending order of their ids.
use wisp_trace_db.Prelude.{
  ℕ, ◌<◌, ◌≡◌, refl, ap, true, some, List, [], ◌∷◌, ◌++◌, map, length, All, ok, arith,
}
use wisp_trace_db.Prelude.Bytes.{Bytes}
use wisp_trace_db.Prelude.Sort.{Ascending, sort_ids-Ascending}
use wisp_trace_db.Wal.Span.{WalRecord}
use wisp_trace_db.Wal.Record.Reading.{IsStorable, stored}
use wisp_trace_db.Wal.Record.Replay.{frames, replay-frames}
use wisp_trace_db.Wal.Log.{
  no_faults, Files, Wal, read_file, list_segment_ids, replay_files, replay, is_last,
}

-- A segment: its id and its records.
abbrev pub Segment : Type 0
Segment = ℕ × List WalRecord

abbrev pub file_of : Segment → ℕ × Bytes
file_of s = (s.0, frames s.1)

abbrev pub ids : List Segment → List ℕ
ids segs = map (λ s. s.0) segs

abbrev pub records : List Segment → List WalRecord
records [] = []
records (s ∷ segs) = map stored s.1 ++ records segs

pub record Holds (sealed : List Segment) (active : List WalRecord) (w : Wal) : Type 0 where
  pub files : w.files ≡ map file_of (sealed ++ (w.segment_id, active) ∷ [])
  pub ascending : Ascending (ids (sealed ++ (w.segment_id, active) ∷ []))
  pub storable : All (λ s. All IsStorable s.1) (sealed ++ (w.segment_id, active) ∷ [])
  pub is_open : w.file ≡ true
  pub size : w.size ≡ length (frames active)

pub ids-files : (segs : List Segment) → map (λ f. f.0) (map file_of segs) ≡ ids segs
ids-files [] = refl
ids-files (s ∷ segs) = ap (λ l. s.0 ∷ l) (ids-files segs)

pub list_segment_ids-Ascending :
    (segs : List Segment) (w : Wal)
    → w.files ≡ map file_of segs
    → Ascending (ids segs)
    → list_segment_ids w ≡ ids segs
unfolding list_segment_ids
list_segment_ids-Ascending segs w e h = rw (e, ids-files segs) (sort_ids-Ascending (ids segs) h)

-- Every segment of the list is found under its id.
abbrev pub Found : Files → List Segment → Type 0
Found files segs = All (λ s. read_file s.0 files ≡ some (frames s.1)) segs

Found-cons :
    (j : ℕ) (b : Bytes) (files : Files) (segs : List Segment)
    → All (λ i. j < i) (ids segs)
    → Found files segs
    → Found ((j, b) ∷ files) segs
unfolding read_file
Found-cons j b files [] h k = tt
Found-cons j b files (s ∷ segs) h k = (ground arith, Found-cons j b files segs h.1 k.1)

pub Found-Ascending : (segs : List Segment) → Ascending (ids segs) → Found (map file_of segs) segs
unfolding read_file
Found-Ascending [] h = tt
Found-Ascending (s ∷ segs) h = (
  ground arith,
  Found-cons s.0 (frames s.1) (map file_of segs) segs h.0 (Found-Ascending segs h.1),
)

replay_files-Found :
    (segs : List Segment) (files : Files)
    → Found files segs
    → All (λ s. All IsStorable s.1) segs
    → replay_files (ids segs) files ≡ ok (records segs)
unfolding replay_files
replay_files-Found [] files h v = refl
replay_files-Found (s ∷ segs) files h v =
    rw (h.0, replay-frames (is_last (ids segs)) s.1 v.0, replay_files-Found segs files h.1 v.1)

-- Replay returns the records of the sealed segments and of the active one, in order.
pub replay-Holds :
    (sealed : List Segment) (active : List WalRecord) (w : Wal)
    → Holds sealed active w
    → replay no_faults w ≡ ok (records (sealed ++ (w.segment_id, active) ∷ []))
unfolding replay
replay-Holds sealed active w h =
    let segs = sealed ++ (w.segment_id, active) ∷ [] in
    let found : Found w.files segs = rw h.files (Found-Ascending segs h.ascending) in
    rw (h.is_open, list_segment_ids-Ascending segs w h.files h.ascending)
      (replay_files-Found segs w.files found h.storable)
