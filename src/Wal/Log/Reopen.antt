-- ===== src/Wal/Log/Reopen.antt =====
-- CreateWALWithSegmentSize on the files that an earlier process left.
use mathlib.Core.List.{map-append, get_last?}
use wisp_trace_db.Prelude.{
  ℕ, ◌+◌, ◌<◌, ◌≤◌, ◌==◌, ◌≡◌, refl, sym, ◌∙◌, true, false, Option, none, some, List, [], ◌∷◌, ◌++◌,
  map, append_assoc, length, length-append, All, ok, arith, if◌then◌else◌,
}
use wisp_trace_db.Prelude.Bytes.{Bytes}
use wisp_trace_db.Prelude.Sort.{Ascending, sort_ids-Ascending, sort_ids, All-below_last}
use wisp_trace_db.Wal.Span.{WalRecord, default_max_segment_size}
use wisp_trace_db.Wal.Record.{frame_record, record_size}
use wisp_trace_db.Wal.Record.Reading.{IsStorable, length-frame_record}
use wisp_trace_db.Wal.Record.Replay.{frames, replay_torn_more}
use wisp_trace_db.Wal.Log.{
  no_faults, Wal, create_file, list_segment_ids, open_segment, write_record, create_wal,
  append_record_with_seg, replay,
}
use wisp_trace_db.Wal.Log.Holds.{Segment, file_of, ids, records, Holds, ids-files}
use wisp_trace_db.Wal.Log.Append.{
  Below, Fits, overflows, append_stays, read_file-last, append_file-last, file_size_eq, ids-append,
  files-append, write_record_answer,
}
use wisp_trace_db.Wal.Log.Recovery.{replay_torn_files}

create_file_last :
    (id : ℕ) (b : Bytes) (segs : List Segment)
    → Below id segs
    → create_file id (map file_of segs ++ (id, b) ∷ []) ≡ map file_of segs ++ (id, b) ∷ []
unfolding create_file
create_file_last id b [] h = ground arith
create_file_last id b (s ∷ segs) h = ground (arith, create_file_last id b segs)

get_last?-append_last : (xs : List ℕ) (x : ℕ) → get_last? (xs ++ x ∷ []) ≡ some x
get_last?-append_last [] x = refl
get_last?-append_last (y ∷ []) x = refl
get_last?-append_last (y ∷ z ∷ xs) x = get_last?-append_last (z ∷ xs) x

-- The limit that the constructor puts in place of an unset one.
abbrev pub limit : ℕ → ℕ
limit n = if n == 0 then default_max_segment_size else n

-- The log as it is opened: behind whatever the last file holds.
abbrev pub reopened : List Segment → ℕ → Bytes → ℕ → Wal
reopened segs id b max_size = record {
  files = map file_of segs ++ (id, b) ∷ [];
  file = true;
  segment_id = id;
  size = length b;
  max_segment_size = limit max_size;
}

create_wal-reopened :
    (segs : List Segment) (id : ℕ) (b : Bytes) (legacy : Option Bytes) (max_size : ℕ)
    → Ascending (ids segs ++ id ∷ [])
    → create_wal no_faults (map file_of segs ++ (id, b) ∷ []) legacy max_size
      ≡ (reopened segs id b max_size, ok tt)
unfolding create_wal list_segment_ids open_segment
create_wal-reopened segs id b legacy max_size asc =
    let files = map file_of segs ++ (id, b) ∷ [] in
    let below = All-below_last (ids segs) id asc in
    let named : map (λ f. f.0) files ≡ ids segs ++ id ∷ [] =
      rw (map-append (λ f. f.0) (map file_of segs) ((id, b) ∷ []), ids-files segs) in
    let last : get_last? (sort_ids (map (λ f. f.0) files)) ≡ some id =
      rw (named, sort_ids-Ascending _ asc) (get_last?-append_last (ids segs) id) in
    let sized = file_size_eq id files b (read_file-last id b segs below) in
    rw (last, create_file_last id b segs below, sized)

-- Opening, without faults, the files of a log that held whole records gives a log that holds the
-- same records.
pub create_wal-Holds :
    (sealed : List Segment) (active : List WalRecord) (max_size : ℕ) (w : Wal)
    → Holds sealed active w
    → Holds sealed active (create_wal no_faults w.files none max_size).0
create_wal-Holds sealed active max_size w h =
    let asc : Ascending (ids sealed ++ w.segment_id ∷ []) = rw ids-append at h.ascending in
    let e : w.files ≡ map file_of sealed ++ (w.segment_id, frames active) ∷ [] =
      h.files ∙ files-append sealed ((w.segment_id, active) ∷ []) in
    rw (e, create_wal-reopened sealed w.segment_id (frames active) none max_size asc)
      (record {
        files = sym (files-append sealed ((w.segment_id, active) ∷ []));
        ascending = h.ascending;
        storable = h.storable;
        is_open = refl;
        size = refl;
      })

-- What a crash in the middle of an append leaves, and the record `q` that is appended next.
pub record TornTail (segs : List Segment) (id : ℕ) (rs : List WalRecord) (r q : WalRecord)
    (front : Bytes) (max_size : ℕ) : Type 0 where
  pub ascending : Ascending (ids segs ++ id ∷ [])
  pub sealed : All (λ s. All IsStorable s.1) segs
  pub active : All IsStorable rs
  pub torn : IsStorable r
  pub header : 9 ≤ length front
  pub next : Fits q (reopened segs id (frames rs ++ front) max_size)
  pub stays : overflows q (reopened segs id (frames rs ++ front) max_size) ≡ false
  pub short : length front + record_size q < record_size r

-- After a crash that tore an append behind its nine bytes of header, the log is opened behind the torn
-- bytes. The next record, if it is too short to complete the torn one and causes no rotation, is
-- acknowledged with the id of its segment, and Replay then returns only the records from before the
-- crash: it is lost.
pub append_lost :
    (segs : List Segment) (id : ℕ) (rs : List WalRecord) (r q : WalRecord) (front : Bytes) (x : ℕ)
    (back : Bytes) (max_size : ℕ)
    → TornTail segs id rs r q front max_size
    → frame_record r ≡ front ++ (x ∷ back)
    → let w =
        (create_wal no_faults
          (map file_of segs ++ (id, frames rs ++ front) ∷ [])
          none
          max_size).0 in
      ((append_record_with_seg no_faults q w).1 ≡ ok id)
      × (replay no_faults (append_record_with_seg no_faults q w).0
          ≡ ok (records (segs ++ (id, rs) ∷ [])))
append_lost segs id rs r q front x back max_size t cut =
    let b = frames rs ++ front in
    let w = reopened segs id b max_size in
    let below = All-below_last (ids segs) id t.ascending in
    rw
      (
        create_wal-reopened segs id b none max_size t.ascending,
        append_stays no_faults q w refl t.next t.stays,
      )
      (
        (write_record_answer (frame_record q) w).0,
        replay_torn_files segs id (b ++ frame_record q) rs _
            (unfold write_record in append_file-last id (frame_record q) b segs below)
            (unfold write_record in refl) (rw ids-append t.ascending) t.sealed
            (rw append_assoc (
              replay_torn_more rs r front x back (frame_record q) t.active t.torn t.header cut (
                omega
                  (arith, length-append front (frame_record q), length-frame_record q, t.short)))),
      )
