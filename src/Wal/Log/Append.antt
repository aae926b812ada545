-- ===== src/Wal/Log/Append.antt =====
-- AppendRecordWithSeg and Rotate (internal/wal/wal.go) on the abstract view of the log.
use mathlib.Core.List.{map-append}
use mathlib.Core.Path.{subst}
use wisp_trace_db.Prelude.{
  ℕ, ◌+◌, ◌^◌, ◌<◌, ◌≡◌, refl, ap, ◌∙◌, Bool, true, false, some, List, [], ◌∷◌, ◌++◌, ◌%◌, ◌&&◌,
  map, append-nil, length, ltb, length-append, All, All-append, ok, arith, if◌then◌else◌,
  Bool-cases, inl, inr,
}
use wisp_trace_db.Prelude.Bytes.{Bytes}
use wisp_trace_db.Prelude.Sort.{Ascending-append_last, All-below_last}
use wisp_trace_db.Wal.Span.{WalRecord}
use wisp_trace_db.Wal.Record.{frame_record, record_size}
use wisp_trace_db.Wal.Record.Reading.{IsStorable, length-frame_record}
use wisp_trace_db.Wal.Record.Replay.{frames, frames-append}
use wisp_trace_db.Wal.Log.{
  Io, no_faults, Files, Wal, read_file, create_file, append_file, file_size, rotate_locked,
  write_record, after_rotate, append_record_with_seg,
}
use wisp_trace_db.Wal.Log.Holds.{Segment, file_of, ids, Holds}

-- No segment of the list has the id.
abbrev pub Below : ℕ → List Segment → Type 0
Below id segs = All (λ i. i < id) (ids segs)

pub append_file-last :
    (id : ℕ) (more b : Bytes) (segs : List Segment)
    → Below id segs
    → append_file id more (map file_of segs ++ (id, b) ∷ [])
      ≡ map file_of segs ++ (id, b ++ more) ∷ []
unfolding append_file
append_file-last id more b [] h = ground arith
append_file-last id more b (s ∷ segs) h = ground (arith, append_file-last id more b segs)

create_file-above :
    (id : ℕ) (segs : List Segment)
    → Below id segs
    → create_file id (map file_of segs) ≡ map file_of segs ++ (id, []) ∷ []
unfolding create_file
create_file-above id [] h = refl
create_file-above id (s ∷ segs) h = ground (arith, create_file-above id segs)

pub read_file-last :
    (id : ℕ) (b : Bytes) (segs : List Segment)
    → Below id segs
    → read_file id (map file_of segs ++ (id, b) ∷ []) ≡ some b
unfolding read_file
read_file-last id b [] h = ground arith
read_file-last id b (s ∷ segs) h = ground (arith, read_file-last id b segs)

pub ids-append : (xs ys : List Segment) → ids (xs ++ ys) ≡ ids xs ++ ids ys
ids-append xs ys = map-append _ xs ys

pub files-append :
    (xs ys : List Segment) → map file_of (xs ++ ys) ≡ map file_of xs ++ map file_of ys
files-append xs ys = map-append _ xs ys

pub Holds-Below :
    (sealed : List Segment) (active : List WalRecord) (w : Wal)
    → Holds sealed active w
    → Below w.segment_id sealed
Holds-Below sealed active w h =
    All-below_last (ids sealed) w.segment_id (rw ids-append at h.ascending)

frames_one :
    (rs : List WalRecord) (r : WalRecord) → frames (rs ++ r ∷ []) ≡ frames rs ++ frame_record r
unfolding frames
frames_one rs r = frames-append rs (r ∷ []) ∙ rw append-nil

All-last :
    (sealed : List Segment) (id id' : ℕ) (rs : List WalRecord) (r : WalRecord)
    → All (λ s. All IsStorable s.1) (sealed ++ (id, rs) ∷ [])
    → IsStorable r
    → All (λ s. All IsStorable s.1) (sealed ++ (id, rs ++ r ∷ []) ∷ [])
All-last [] id id' rs r h v = (All-append IsStorable rs (r ∷ []) h.0 (v, tt), tt)
All-last (s ∷ sealed) id id' rs r h v = (h.0, All-last sealed id id' rs r h.1 v)

-- A write without faults appends the record to the active segment.
pub write_record-Holds :
    (sealed : List Segment) (active : List WalRecord) (r : WalRecord) (w : Wal)
    → Holds sealed active w
    → IsStorable r
    → w.size + record_size r < 2 ^ 64
    → Holds sealed (active ++ r ∷ []) (write_record no_faults (frame_record r) w).0
unfolding write_record
write_record-Holds sealed active r w h v fits = record {
  files =
      rw (h.files, files-append, files-append)
        (append_file-last w.segment_id (frame_record r) (frames active) sealed
            (Holds-Below sealed active w h)
          ∙ rw (frames_one active r));
  ascending = rw ids-append (rw ids-append at h.ascending);
  storable = All-last sealed w.segment_id w.segment_id active r h.storable v;
  is_open = h.is_open;
  size =
      rw (h.size, frames_one active r, length-append, length-frame_record r)
        (omega (arith, h.size));
}

above_active :
    (sealed : List Segment) (active : List WalRecord) (w : Wal)
    → Holds sealed active w
    → Below (w.segment_id + 1) (sealed ++ (w.segment_id, active) ∷ [])
above_active sealed active w h = rw ids-append (
    All-append (λ i. i < w.segment_id + 1) (ids sealed) (w.segment_id ∷ [])
      (weaken (ids sealed) (Holds-Below sealed active w h)) (omega arith, tt))
  where
    weaken : (xs : List ℕ) → All (λ i. i < w.segment_id) xs → All (λ i. i < w.segment_id + 1) xs
    weaken [] k = tt
    weaken (x ∷ xs) k = (omega arith, weaken xs k.1)

pub file_size_eq :
    (id : ℕ) (files : Files) (b : Bytes)
    → read_file id files ≡ some b
    → file_size id files ≡ length b
file_size_eq id files b e = rw (e, file_size)

-- The log after Rotate: a new empty segment behind the others.
abbrev pub rotated : Wal → Wal
rotated w = record w {
  files = w.files ++ (w.segment_id + 1, []) ∷ [];
  file = true;
  segment_id = w.segment_id + 1;
  size = 0;
}

pub rotate_eq :
    (sealed : List Segment) (active : List WalRecord) (w : Wal)
    → Holds sealed active w
    → w.segment_id + 1 < 2 ^ 64
    → rotate_locked no_faults w ≡ (rotated w, ok w.segment_id)
unfolding rotate_locked
rotate_eq sealed active w h room =
    let segs = sealed ++ (w.segment_id, active) ∷ [] in
    let next : (w.segment_id + 1) % 2 ^ 64 ≡ w.segment_id + 1 = omega arith in
    let above = above_active sealed active w h in
    let created : create_file (w.segment_id + 1) w.files ≡ w.files ++ (w.segment_id + 1, []) ∷ [] =
      rw h.files (create_file-above (w.segment_id + 1) segs above) in
    let found : read_file (w.segment_id + 1) (w.files ++ (w.segment_id + 1, []) ∷ []) ≡ some [] =
      rw h.files (read_file-last (w.segment_id + 1) [] segs above) in
    let sized = file_size_eq (w.segment_id + 1) _ [] found in rw (h.is_open, next, created, sized)

-- Without faults, on a log that holds whole records and has an id left below 2^64, Rotate seals
-- the active segment and starts an empty one under the next id.
pub rotate-Holds :
    (sealed : List Segment) (active : List WalRecord) (w : Wal)
    → Holds sealed active w
    → w.segment_id + 1 < 2 ^ 64
    → Holds (sealed ++ (w.segment_id, active) ∷ []) [] (rotate_locked no_faults w).0
unfolding frames
rotate-Holds sealed active w h room =
    let segs = sealed ++ (w.segment_id, active) ∷ [] in
    rw (rotate_eq sealed active w h room) (record {
      files = rw (h.files, files-append segs ((w.segment_id + 1, []) ∷ []));
      ascending = rw (ids-append segs) (
          Ascending-append_last (ids segs) (w.segment_id + 1) h.ascending
            (above_active sealed active w h));
      storable = All-append (λ s. All IsStorable s.1) segs _ h.storable (tt, tt);
      is_open = refl;
      size = refl;
    })

pub rotate-segment_id :
    (sealed : List Segment) (active : List WalRecord) (w : Wal)
    → Holds sealed active w
    → w.segment_id + 1 < 2 ^ 64
    → (rotate_locked no_faults w).0.segment_id ≡ w.segment_id + 1
rotate-segment_id sealed active w h room =
    ap (λ x. x.0.segment_id) (rotate_eq sealed active w h room)

-- The rotation that an append makes when the record would overflow the active segment.
abbrev pub overflows : WalRecord → Wal → Bool
overflows r w = ltb 0 w.size && ltb w.max_segment_size (w.size + record_size r)

abbrev pub sealed_after : List Segment → List WalRecord → WalRecord → Wal → List Segment
sealed_after sealed active r w =
    if overflows r w then sealed ++ (w.segment_id, active) ∷ [] else sealed

abbrev pub active_after : List WalRecord → WalRecord → Wal → List WalRecord
active_after active r w = if overflows r w then r ∷ [] else active ++ r ∷ []

abbrev pub id_after : WalRecord → Wal → ℕ
id_after r w = if overflows r w then w.segment_id + 1 else w.segment_id

-- The sizes and ids stay below 2^64, and the record is one that replay accepts.
pub record Fits (r : WalRecord) (w : Wal) : Type 0 where
  pub storable : IsStorable r
  pub size : w.size + record_size r < 2 ^ 64
  pub id : w.segment_id + 1 < 2 ^ 64

pub append_stays :
    (io : Io) (r : WalRecord) (w : Wal)
    → w.file ≡ true
    → Fits r w
    → overflows r w ≡ false
    → append_record_with_seg io r w ≡ write_record io (frame_record r) w
unfolding append_record_with_seg
append_stays io r w o f e =
    let sum : (w.size + record_size r) % 2 ^ 64 ≡ w.size + record_size r = omega (arith, f.size) in
    ground (arith, sum)

pub append_rotates :
    (io : Io) (r : WalRecord) (w : Wal)
    → w.file ≡ true
    → Fits r w
    → overflows r w ≡ true
    → append_record_with_seg io r w ≡ after_rotate io (frame_record r) (rotate_locked io w)
unfolding append_record_with_seg
append_rotates io r w o f e =
    let sum : (w.size + record_size r) % 2 ^ 64 ≡ w.size + record_size r = omega (arith, f.size) in
    ground (arith, sum)

pub write_record_answer :
    (buf : Bytes) (w : Wal)
    → ((write_record no_faults buf w).1 ≡ ok w.segment_id)
      × ((write_record no_faults buf w).0.segment_id ≡ w.segment_id)
unfolding write_record
write_record_answer buf w = (refl, refl)

-- Without faults, on a log that holds whole records, an append of a record that fits puts it into
-- the active segment, or, where that would overflow, seals that segment and puts the record alone
-- into a new one; and it returns the id of the segment that now holds the record.
pub append-Holds :
    (sealed : List Segment) (active : List WalRecord) (r : WalRecord) (w : Wal)
    → Holds sealed active w
    → Fits r w
    → Holds
        (sealed_after sealed active r w)
        (active_after active r w)
        (append_record_with_seg no_faults r w).0
      × ((append_record_with_seg no_faults r w).1 ≡ ok (id_after r w))
      × ((append_record_with_seg no_faults r w).0.segment_id ≡ id_after r w)
append-Holds sealed active r w h f = elim (Bool-cases (overflows r w)) [
  | inl over ↦
      let lifted = append_rotates no_faults r w h.is_open f over in
      let turned = rotate_eq sealed active w h f.id in
      let fresh =
        subst (λ p. Holds (sealed ++ (w.segment_id, active) ∷ []) [] p.0) turned
          (rotate-Holds sealed active w h f.id) in
      let answer = write_record_answer (frame_record r) (rotated w) in
      rw (lifted, turned, over)
        (unfold after_rotate in
          (
            write_record-Holds _ [] r (rotated w) fresh f.storable (omega (arith, f.size)),
            answer.0,
            answer.1,
          ))
  | inr fits ↦
      let lifted = append_stays no_faults r w h.is_open f fits in
      let answer = write_record_answer (frame_record r) w in
      rw (lifted, fits)
        (write_record-Holds sealed active r w h f.storable f.size, answer.0, answer.1)
]
