-- ===== src/Wal/Log/Recovery.antt =====
-- Replay (internal/wal/wal.go) after an append, and after one whose write was cut off.
use wisp_trace_db.Prelude.{
  ℕ, zero, suc, ◌<◌, ◌≡◌, ◌≢◌, refl, ap, sym, ◌∙◌, true, some, List, [], ◌∷◌, ◌++◌, map,
  append_assoc, append-nil, length, take, drop, take-append-drop, length-take, length-drop, All,
  All-front, All-back, ok, err, arith, Bool-cases, inl, inr,
}
use wisp_trace_db.Prelude.Bytes.{Bytes}
use mathlib.Core.List.{map-append}
use mathlib.Core.Path.{subst}
use wisp_trace_db.Prelude.Sort.{Ascending, sort_ids-Ascending, All-below_last, Ascending-front}
use wisp_trace_db.Wal.Span.{WalRecord, io_error}
use wisp_trace_db.Wal.Record.{frame_record, record_size, replay_segment}
use wisp_trace_db.Wal.Record.Reading.{IsStorable, stored, length-frame_record}
use wisp_trace_db.Wal.Record.Replay.{frames, replay-frames, replay_torn}
use wisp_trace_db.Wal.Log.{
  Io, no_faults, Files, Wal, read_file, rotate_locked, write_record, after_rotate,
  append_record_with_seg, replay, replay_files, is_last, list_segment_ids,
}
use wisp_trace_db.Wal.Log.Holds.{
  Segment, file_of, ids, records, Holds, Found, Found-Ascending, ids-files, replay-Holds,
}
use wisp_trace_db.Wal.Log.Append.{
  Fits, overflows, rotated, rotate_eq, rotate-Holds, sealed_after, active_after, append-Holds,
  append_stays, append_rotates, read_file-last, append_file-last, Holds-Below, files-append,
  ids-append,
}

map-append_stored :
    (rs qs : List WalRecord) → map stored (rs ++ qs) ≡ map stored rs ++ map stored qs
map-append_stored [] qs = refl
map-append_stored (r ∷ rs) qs = ap (λ l. stored r ∷ l) (map-append_stored rs qs)

records-append : (xs ys : List Segment) → records (xs ++ ys) ≡ records xs ++ records ys
records-append [] ys = refl
records-append (s ∷ xs) ys =
    rw (records-append xs ys) (sym (append_assoc (map stored s.1) (records xs) (records ys)))

-- Sealing the active segment or not, the log holds one record more, behind the others.
records_after :
    (sealed : List Segment) (active : List WalRecord) (r : WalRecord) (w : Wal) (id : ℕ)
    → records (sealed_after sealed active r w ++ (id, active_after active r w) ∷ [])
      ≡ records (sealed ++ (w.segment_id, active) ∷ []) ++ stored r ∷ []
records_after sealed active r w id = elim (Bool-cases (overflows r w)) [
  | inl over ↦ rw over (records-append (sealed ++ (w.segment_id, active) ∷ []) ((id, r ∷ []) ∷ []))
  | inr fits ↦ rw fits (simp (records-append, map-append_stored, append_assoc, append-nil) refl)
]

-- After an append without faults, to a log that holds whole records, of a record that fits (replay
-- accepts it, and no size or id wraps), Replay returns the records that it returned before, and
-- the new one behind them.
pub replay-append :
    (sealed : List Segment) (active : List WalRecord) (r : WalRecord) (w : Wal)
    → Holds sealed active w
    → Fits r w
    → (before : List WalRecord) × (replay no_faults w ≡ ok before)
      × (replay no_faults (append_record_with_seg no_faults r w).0 ≡ ok (before ++ stored r ∷ []))
replay-append sealed active r w h f =
    let (holds, _, _) = append-Holds sealed active r w h f in
    (
      records (sealed ++ (w.segment_id, active) ∷ []),
      replay-Holds sealed active w h,
      replay-Holds _ _ _ holds ∙ ap ok (records_after sealed active r w _),
    )

-- Replay of whole segments, and of a last one that replays to `rs` where a torn tail is tolerated.
replay_files_last :
    (segs : List Segment) (files : Files) (id : ℕ) (rs : List WalRecord)
    → Found files segs
    → All (λ s. All IsStorable s.1) segs
    → replay_segment (read_file id files) true ≡ ok rs
    → replay_files (ids segs ++ id ∷ []) files ≡ ok (records segs ++ rs)
unfolding replay_files
replay_files_last [] files id rs h v e = rw (e, append-nil)
replay_files_last (s ∷ segs) files id rs h v e =
    rw
      (
        h.0,
        replay-frames (is_last (ids segs ++ id ∷ [])) s.1 v.0,
        replay_files_last segs files id rs h.1 v.1 e,
      )
      (ap ok (sym (append_assoc (map stored s.1) (records segs) rs)))

-- A record of which `n` bytes were written behind whole ones is ignored.
replay_cut :
    (rs : List WalRecord) (r : WalRecord) (n : ℕ)
    → All IsStorable rs
    → IsStorable r
    → n < record_size r
    → replay_segment (some (frames rs ++ take n (frame_record r))) true ≡ ok (map stored rs)
replay_cut rs r zero v w h = rw append-nil (replay-frames true rs v)
replay_cut rs r (suc n) v w h =
    cut (drop (suc n) (frame_record r)) (take (suc n) (frame_record r))
      (sym (take-append-drop (suc n) (frame_record r)))
      (omega (arith, length-drop (suc n) (frame_record r), length-frame_record r))
      (λ e. omega (arith, ap length e, length-take (suc n) (frame_record r), length-frame_record r))
  where
    cut :
        (back front : Bytes)
        → frame_record r ≡ front ++ back
        → 0 < length back
        → front ≢ []
        → replay_segment (some (frames rs ++ front)) true ≡ ok (map stored rs)
    cut [] front e p q = absurd (omega arith)
    cut (x ∷ back) front e p q = replay_torn true rs r front x back v w q e

read_file-append :
    (id : ℕ) (files more : Files) (b : Bytes)
    → read_file id files ≡ some b
    → read_file id (files ++ more) ≡ some b
unfolding read_file
read_file-append id [] more b e = cc
read_file-append id ((j, c) ∷ files) more b e = ground (arith, read_file-append id files more b)

Found-append :
    (files more : Files) (segs : List Segment) → Found files segs → Found (files ++ more) segs
Found-append files more [] h = tt
Found-append files more (s ∷ segs) h =
    (read_file-append s.0 files more (frames s.1) h.0, Found-append files more segs h.1)

-- Replay of sealed segments and a last file of which only the whole records count.
pub replay_torn_files :
    (sealed : List Segment) (id : ℕ) (b : Bytes) (rs : List WalRecord) (w : Wal)
    → w.files ≡ map file_of sealed ++ (id, b) ∷ []
    → w.file ≡ true
    → Ascending (ids (sealed ++ (id, rs) ∷ []))
    → All (λ s. All IsStorable s.1) sealed
    → replay_segment (some b) true ≡ ok (map stored rs)
    → replay no_faults w ≡ ok (records (sealed ++ (id, rs) ∷ []))
unfolding replay list_segment_ids
replay_torn_files sealed id b rs w e opened asc v last =
    let asc' : Ascending (ids sealed ++ id ∷ []) = rw ids-append at asc in
    let front = Ascending-front (ids sealed) (id ∷ []) asc' in
    let found : Found w.files sealed =
      rw e
        (Found-append (map file_of sealed) ((id, b) ∷ []) sealed (Found-Ascending sealed front)) in
    let below = All-below_last (ids sealed) id asc' in
    let at_end : replay_segment (read_file id w.files) true ≡ ok (map stored rs) =
      rw (e, read_file-last id b sealed below) last in
    let named : map (λ f. f.0) w.files ≡ ids sealed ++ id ∷ [] =
      rw (e, map-append (λ f. f.0) (map file_of sealed) ((id, b) ∷ []), ids-files sealed) in
    rw
      (
        opened,
        named,
        sort_ids-Ascending _ asc',
        replay_files_last sealed w.files id _ found v at_end,
      )
      (ap ok (
        sym (records-append sealed ((id, rs) ∷ []) ∙ ap (λ l. records sealed ++ l) (append-nil _))))

-- A write that fails once it has written `n` bytes.
abbrev pub cut_write : ℕ → Io
cut_write n = record no_faults { write_cut = some n }

-- What a write that is cut off leaves of the log.
replay-write_cut :
    (sealed : List Segment) (active : List WalRecord) (r : WalRecord) (w : Wal) (n : ℕ)
    → Holds sealed active w
    → IsStorable r
    → n < record_size r
    → ((write_record (cut_write n) (frame_record r) w).1 ≡ err io_error)
      × (replay no_faults (write_record (cut_write n) (frame_record r) w).0
          ≡ ok (records (sealed ++ (w.segment_id, active) ∷ [])))
unfolding write_record
replay-write_cut sealed active r w n h v small = (
  refl,
  replay_torn_files sealed w.segment_id (frames active ++ take n (frame_record r)) active _
      (rw (h.files, files-append)
        (append_file-last w.segment_id (take n (frame_record r)) (frames active) sealed
          (Holds-Below sealed active w h)))
      h.is_open h.ascending (All-front (λ s. All IsStorable s.1) sealed _ h.storable)
      (replay_cut active r n (All-back (λ s. All IsStorable s.1) sealed _ h.storable).0 v small),
)

rotate_cut : (n : ℕ) (w : Wal) → rotate_locked (cut_write n) w ≡ rotate_locked no_faults w
unfolding rotate_locked
rotate_cut n w = refl

-- An append, to a log that holds whole records, of a record that fits, fails where its write is
-- cut off before its last byte, and Replay of what it leaves returns the records that it returned
-- before.
pub replay-append_cut :
    (sealed : List Segment) (active : List WalRecord) (r : WalRecord) (w : Wal) (n : ℕ)
    → Holds sealed active w
    → Fits r w
    → n < record_size r
    → ((append_record_with_seg (cut_write n) r w).1 ≡ err io_error)
      × (replay no_faults (append_record_with_seg (cut_write n) r w).0 ≡ replay no_faults w)
replay-append_cut sealed active r w n h f small = elim (Bool-cases (overflows r w)) [
  | inl over ↦
      let turned = rotate_cut n w ∙ rotate_eq sealed active w h f.id in
      let fresh =
        subst (λ p. Holds (sealed ++ (w.segment_id, active) ∷ []) [] p.0)
          (rotate_eq sealed active w h f.id) (rotate-Holds sealed active w h f.id) in
      let (fails, kept) = replay-write_cut _ [] r (rotated w) n fresh f.storable small in
      rw (append_rotates (cut_write n) r w h.is_open f over, turned)
        (unfold after_rotate in
          (
            fails,
            kept
                ∙ ap ok (records-append (sealed ++ (w.segment_id, active) ∷ []) _ ∙ append-nil _)
                ∙ sym (replay-Holds sealed active w h),
          ))
  | inr fits ↦
      let (fails, kept) = replay-write_cut sealed active r w n h f.storable small in
      rw (append_stays (cut_write n) r w h.is_open f fits)
        (fails, kept ∙ sym (replay-Holds sealed active w h))
]
