-- ===== src/Wal/Log.antt =====
-- The segmented log of internal/wal/wal.go. The directory is the list of its segment files, each with
-- the id that its name holds; what the operating system answers in one call of a method is an `Io`.
pub mod Holds
pub mod Append
pub mod Recovery
pub mod Reclaim
pub mod Reopen
use mathlib.Core.List.{get_last?}
use wisp_trace_db.Prelude.{
  ℕ, ◌+◌, ◌%◌, ◌^◌, ◌==◌, Bool, true, false, not, ◌&&◌, ◌||◌, Option, none, some, List, [], ◌∷◌,
  ◌++◌, map, length, take, ltb, if◌then◌else◌, Result, ok, err, ◌>>=◌,
}
use wisp_trace_db.Prelude.Bytes.{Bytes}
use wisp_trace_db.Prelude.Sort.{sort_ids}
use wisp_trace_db.Wal.Span.{WalRecord, WalError, closed, io_error, default_max_segment_size}
use wisp_trace_db.Wal.Record.{frame_record, record_size, replay_segment}

-- How the calls of one operation end. A write that fails has written the first `n` bytes.
pub record Io : Type 0 where
  pub list_ok : Bool
  pub open_ok : Bool
  pub stat_ok : Bool
  pub rename_ok : Bool
  pub close_ok : Bool
  pub seal_ok : Bool
  pub write_cut : Option ℕ
  pub sync_ok : Bool
  pub remove_ok : ℕ → Bool

abbrev pub no_faults : Io
no_faults = record {
  list_ok = true;
  open_ok = true;
  stat_ok = true;
  rename_ok = true;
  close_ok = true;
  seal_ok = true;
  write_cut = none;
  sync_ok = true;
  remove_ok = λ id. true;
}

abbrev pub Files : Type 0
Files = List (ℕ × Bytes)

unfoldable pub read_file : ℕ → Files → Option Bytes
read_file id [] = none
read_file id ((j, b) ∷ fs) = if j == id then some b else read_file id fs

-- os.OpenFile with O_CREATE: a new file is empty.
unfoldable pub create_file : ℕ → Files → Files
create_file id [] = (id, []) ∷ []
create_file id ((j, b) ∷ fs) = if j == id then (j, b) ∷ fs else (j, b) ∷ create_file id fs

-- A write through a handle that was opened with O_APPEND.
unfoldable pub append_file : ℕ → Bytes → Files → Files
append_file id more [] = []
append_file id more ((j, b) ∷ fs) =
    if j == id then (j, b ++ more) ∷ fs else (j, b) ∷ append_file id more fs

unfoldable pub remove_file : ℕ → Files → Files
remove_file id [] = []
remove_file id ((j, b) ∷ fs) = if j == id then fs else (j, b) ∷ remove_file id fs

-- WAL. `file` says whether there is an open handle, which is one on segment `segment_id`.
pub record Wal : Type 0 where
  pub files : Files
  pub file : Bool
  pub segment_id : ℕ
  pub size : ℕ
  pub max_segment_size : ℕ

abbrev add64 : ℕ → ℕ → ℕ
add64 a b = (a + b) % 2 ^ 64

abbrev file_size : ℕ → Files → ℕ
file_size id files = elim (read_file id files) [ none ↦ 0 | some b ↦ length b ]

unfoldable pub list_segment_ids : Wal → List ℕ
list_segment_ids w = sort_ids (map (λ f. f.0) w.files)

unfoldable pub open_segment : Io → ℕ → Wal → Wal × Result WalError Unit
unfolding create_file read_file
open_segment io id w =
    if not io.open_ok
    then (w, err io_error)
    else let files = create_file id w.files in
      if not io.stat_ok then (record w { files = files }, err io_error) else (
        record w { files = files; file = true; segment_id = id; size = file_size id files },
        ok tt,
      )

unfoldable pub rotate_locked : Io → Wal → Wal × Result WalError ℕ
unfolding open_segment
rotate_locked io w =
    let sealed = w.segment_id in
    if w.file && not io.seal_ok
    then (w, err io_error)
    else if w.file && not io.close_ok
    then (w, err io_error)
    else let (w', r) = open_segment io (add64 sealed 1) (record w { file = false }) in
      (w', r >>= λ _. ok sealed)

-- The write, the fsync, and the id that is returned.
unfoldable pub write_record : Io → Bytes → Wal → Wal × Result WalError ℕ
unfolding append_file
write_record io buf w =
    let done : Bytes = elim io.write_cut [ none ↦ buf | some n ↦ take n buf ] in
    let w' = record w {
      files = append_file w.segment_id done w.files;
      size = add64 w.size (length done);
    } in
    elim io.write_cut [
      | none ↦ (w', if io.sync_ok then ok w.segment_id else err io_error)
      | some n ↦ (w', err io_error)
    ]

unfoldable pub after_rotate : Io → Bytes → Wal × Result WalError ℕ → Wal × Result WalError ℕ
after_rotate io buf (w, ok sealed) = write_record io buf w
after_rotate io buf (w, err e) = (w, err e)

unfoldable pub append_record_with_seg : Io → WalRecord → Wal → Wal × Result WalError ℕ
append_record_with_seg io r w =
    if not w.file
    then (w, err closed)
    else if ltb 0 w.size && ltb w.max_segment_size (add64 w.size (record_size r))
    then after_rotate io (frame_record r) (rotate_locked io w)
    else write_record io (frame_record r) w

-- AppendRecord, which forgets the id.
unfoldable pub append_record : Io → WalRecord → Wal → Wal × Result WalError Unit
append_record io r w = let (w', res) = append_record_with_seg io r w in (w', res >>= λ _. ok tt)

-- The loop of RemoveSegmentsUpTo over the ids: what is left, and the first error.
remove_loop : Io → ℕ → ℕ → List ℕ → Files → Result WalError Unit → Files × Result WalError Unit
remove_loop io id active [] files first = (files, first)
remove_loop io id active (s ∷ ss) files first =
    let skip = ltb id s || (s == active) in
    remove_loop io id active ss
      (if skip || not (io.remove_ok s) then files else remove_file s files)
      (if skip || io.remove_ok s then first else (first >>= λ _. err io_error))

unfoldable pub remove_segments_up_to : Io → ℕ → Wal → Wal × Result WalError Unit
unfolding remove_loop remove_file list_segment_ids
remove_segments_up_to io id w =
    if not io.list_ok
    then (w, err io_error)
    else let (files, r) = remove_loop io id w.segment_id (list_segment_ids w) w.files (ok tt) in
      (record w { files = files }, r)

abbrev is_last : List ℕ → Bool
is_last [] = true
is_last (x ∷ xs) = false

-- Only the last segment may hold a torn tail.
unfoldable pub replay_files : List ℕ → Files → Result WalError (List WalRecord)
unfolding read_file
replay_files [] files = ok []
replay_files (id ∷ ids) files = do
  records ← replay_segment (read_file id files) (is_last ids)
  more ← replay_files ids files
  ok (records ++ more)

unfoldable pub replay : Io → Wal → Result WalError (List WalRecord)
unfolding replay_files list_segment_ids
replay io w =
    if w.file && not io.sync_ok
    then err io_error
    else if not io.list_ok
    then err io_error
    else replay_files (list_segment_ids w) w.files

-- Reset's loop stops at the first file that cannot be removed.
reset_loop : Io → List ℕ → Files → Files × Result WalError Unit
reset_loop io [] files = (files, ok tt)
reset_loop io (s ∷ ss) files =
    let rest = reset_loop io ss (remove_file s files) in
    if io.remove_ok s then rest else (files, err io_error)

unfoldable pub reset : Io → Wal → Wal × Result WalError Unit
unfolding reset_loop open_segment list_segment_ids
reset io w =
    if w.file && not io.close_ok
    then (w, err io_error)
    else let w' = record w { file = false } in
      if not io.list_ok
      then (w', err io_error)
      else let (files, r) = reset_loop io (list_segment_ids w') w'.files in
        let w'' = record w' { files = files } in
        elim r [ ok _ ↦ open_segment io 1 w'' | err e ↦ (w'', err e) ]

unfoldable pub close : Io → Wal → Wal × Result WalError Unit
close io w =
    if not w.file
    then (w, ok tt)
    else (record w { file = false }, if io.close_ok then ok tt else err io_error)

-- CreateWALWithSegmentSize on a directory that holds `files`, and `legacy` at the base path.
unfoldable pub create_wal : Io → Files → Option Bytes → ℕ → Wal × Result WalError Unit
unfolding open_segment list_segment_ids
create_wal io files legacy max_size =
    let max' = if max_size == 0 then default_max_segment_size else max_size in
    let w : Wal = record {
      files = files;
      file = false;
      segment_id = 0;
      size = 0;
      max_segment_size = max';
    } in
    if not io.list_ok then (w, err io_error) else elim (get_last? (list_segment_ids w)) [
      | some id ↦ open_segment io id w
      | none ↦ elim legacy [
        | none ↦ open_segment io 1 w
        | some b ↦
            if io.rename_ok
            then open_segment io 1 (record w { files = (1, b) ∷ [] })
            else (w, err io_error)
      ]
    ]
