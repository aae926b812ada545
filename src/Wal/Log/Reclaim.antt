-- ===== src/Wal/Log/Reclaim.antt =====
-- RemoveSegmentsUpTo (internal/wal/wal.go) on the abstract view of the log.
use wisp_trace_db.Prelude.{
  ℕ, ◌<◌, ◌==◌, ◌≡◌, refl, ap, ◌∙◌, Bool, false, ◌||◌, List, [], ◌∷◌, ◌++◌, map, keep, ltb, All,
  All-keep, ok, arith, Bool-cases, inl, inr, ==_self,
}
use wisp_trace_db.Prelude.Bytes.{Bytes}
use wisp_trace_db.Prelude.Sort.{Ascending}
use wisp_trace_db.Wal.Span.{WalRecord}
use wisp_trace_db.Wal.Record.Reading.{IsStorable}
use wisp_trace_db.Wal.Record.Replay.{frames}
use wisp_trace_db.Wal.Log.{
  no_faults, Files, Wal, remove_file, list_segment_ids, remove_loop, remove_segments_up_to,
}
use wisp_trace_db.Wal.Log.Holds.{Segment, file_of, ids, Holds, list_segment_ids-Ascending}
use wisp_trace_db.Wal.Log.Append.{Below, Holds-Below}

-- A file below all of the ids that the loop visits stays where it is.
remove_loop-cons :
    (id active j : ℕ) (b : Bytes) (ss : List ℕ) (files : Files)
    → All (λ s. j < s) ss
    → (remove_loop no_faults id active ss ((j, b) ∷ files) (ok tt)).0
      ≡ (j, b) ∷ (remove_loop no_faults id active ss files (ok tt)).0
unfolding remove_loop remove_file
remove_loop-cons id active j b [] files h = refl
remove_loop-cons id active j b (s ∷ ss) files h = elim (Bool-cases (ltb id s || (s == active))) [
  | inl skip ↦ rw (skip, remove_loop) (remove_loop-cons id active j b ss files h.1)
  | inr drops ↦
      let other : (j == s) ≡ false = ground arith in
      rw (drops, other, remove_loop) (remove_loop-cons id active j b ss (remove_file s files) h.1)
]

remove_loop_ok :
    (id active : ℕ) (ss : List ℕ) (files : Files)
    → (remove_loop no_faults id active ss files (ok tt)).1 ≡ ok tt
unfolding remove_loop
remove_loop_ok id active [] files = refl
remove_loop_ok id active (s ∷ ss) files = elim (Bool-cases (ltb id s || (s == active))) [
  | inl skip ↦ rw (skip, remove_loop) (remove_loop_ok id active ss files)
  | inr drops ↦ rw (drops, remove_loop) (remove_loop_ok id active ss (remove_file s files))
]

-- The segments that the call leaves.
abbrev pub stays : ℕ → ℕ → Segment → Bool
stays id active s = ltb id s.0 || (s.0 == active)

remove_loop-keep :
    (id active : ℕ) (segs : List Segment)
    → Ascending (ids segs)
    → (remove_loop no_faults id active (ids segs) (map file_of segs) (ok tt)).0
      ≡ map file_of (keep (stays id active) segs)
unfolding remove_loop remove_file
remove_loop-keep id active [] h = refl
remove_loop-keep id active (s ∷ segs) h = elim (Bool-cases (stays id active s)) [
  | inl skip ↦
      rw (skip, remove_loop)
        (remove_loop-cons id active s.0 (frames s.1) (ids segs) (map file_of segs) h.0
          ∙ ap (λ l. file_of s ∷ l) (remove_loop-keep id active segs h.1))
  | inr drops ↦ rw (drops, ==_self s.0, remove_loop) (remove_loop-keep id active segs h.1)
]

keep-sealed :
    (id active : ℕ) (rs : List WalRecord) (segs : List Segment)
    → Below active segs
    → keep (stays id active) (segs ++ (active, rs) ∷ [])
      ≡ keep (λ s. ltb id s.0) segs ++ (active, rs) ∷ []
keep-sealed id active rs [] h = ground arith
keep-sealed id active rs (s ∷ segs) h = ground (arith, keep-sealed id active rs segs)

ids-keep-All :
    (P : ℕ → Type 0) (p : Segment → Bool) (segs : List Segment)
    → All P (ids segs)
    → All P (ids (keep p segs))
ids-keep-All P p [] h = tt
ids-keep-All P p (s ∷ segs) h = elim (Bool-cases (p s)) [
  | inl e ↦ rw e (h.0, ids-keep-All P p segs h.1)
  | inr e ↦ rw e (ids-keep-All P p segs h.1)
]

keep-Ascending :
    (p : Segment → Bool) (segs : List Segment)
    → Ascending (ids segs)
    → Ascending (ids (keep p segs))
keep-Ascending p [] h = tt
keep-Ascending p (s ∷ segs) h = elim (Bool-cases (p s)) [
  | inl e ↦ rw e (ids-keep-All (λ y. s.0 < y) p segs h.0, keep-Ascending p segs h.1)
  | inr e ↦ rw e (keep-Ascending p segs h.1)
]

-- Without faults, on a log that holds whole records, reclaiming up to an id deletes exactly the
-- sealed segments with that id or a lower one: the later segments and the active one, whatever its
-- id, keep their records.
pub remove_segments_up_to-Holds :
    (sealed : List Segment) (active : List WalRecord) (id : ℕ) (w : Wal)
    → Holds sealed active w
    → Holds (keep (λ s. ltb id s.0) sealed) active (remove_segments_up_to no_faults id w).0
      × ((remove_segments_up_to no_faults id w).1 ≡ ok tt)
unfolding remove_segments_up_to
remove_segments_up_to-Holds sealed active id w h =
    let segs = sealed ++ (w.segment_id, active) ∷ [] in
    let left = keep-sealed id w.segment_id active sealed (Holds-Below sealed active w h) in
    let listed = list_segment_ids-Ascending segs w h.files h.ascending in
    let stay = stays id w.segment_id in
    (
      record {
        files =
            rw (listed, h.files)
              (remove_loop-keep id w.segment_id segs h.ascending ∙ ap (map file_of) left);
        ascending = rw (← left) (keep-Ascending stay segs h.ascending);
        storable = rw (← left) (All-keep (λ s. All IsStorable s.1) stay segs h.storable);
        is_open = h.is_open;
        size = h.size;
      },
      remove_loop_ok id w.segment_id (list_segment_ids w) w.files,
    )
