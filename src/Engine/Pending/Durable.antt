-- ===== src/Engine/Pending/Durable.antt =====
-- Inserts and flushes of the engine (internal/engine/engine.go), as a step relation.
use mathlib.Core.List.{Memᴰ}
use mathlib.Core.Path.{subst}
use mathlib.Core.List.Memᴰ.{append_left, append_right}
use wisp_trace_db.Prelude.{
  ℕ, ◌+◌, ◌^◌, ◌<◌, ◌≡◌, refl, sym, ap, List, [], ◌∷◌, ◌++◌, map, All, Bool-cases, inl, inr, arith,
  ok,
}
use wisp_trace_db.Wal.Span.{WalRecord, Span}
use wisp_trace_db.Wal.Record.Reading.{stored}
use wisp_trace_db.Wal.Log.{Wal, no_faults, replay, rotate_locked}
use wisp_trace_db.Wal.Log.Holds.{Segment, Holds, records, replay-Holds}
use wisp_trace_db.Wal.Log.Append.{
  Fits, overflows, sealed_after, active_after, id_after, append-Holds, rotate-Holds,
  rotate-segment_id,
}
use wisp_trace_db.Engine.Pending.{Tracker, count_of, append_tracked, release_wal_pending}
use wisp_trace_db.Engine.Pending.Counts.{occurs, count_of-release_all}
use wisp_trace_db.Engine.Pending.Reclaiming.{
  AreSegments, record_of, append_tracked-Holds, release_wal_pending-keeps, release-segment_id,
  release-pending, append_tracked_ok,
}
use wisp_trace_db.Engine.Pending.Invariant.{
  Acknowledged, Split, segs_of, Split-occurs, Split-All, InLog, InLog-append, InLog-appended,
  Memᴰ-last, put_count-AreSegments, release_all-AreSegments,
}

-- The engine from a log with no records. A flush, of any part of what is not flushed, rotates the log
-- and at its end releases the batch; inserts and other steps may come between the two.
pub data Run : Tracker → List Acknowledged → Type 0 where
  opened : {t : Tracker} → Holds [] [] t.wal → t.pending ≡ [] → 0 < t.wal.segment_id → Run t []
  inserted :
      {t : Tracker} {out : List Acknowledged} (span : Span)
      → Run t out
      → Fits (record_of span) t.wal
      → Run (append_tracked no_faults span t).0 ((id_after (record_of span) t.wal, span) ∷ out)
  rotated :
      {t : Tracker} {out : List Acknowledged}
      → Run t out
      → t.wal.segment_id + 1 < 2 ^ 64
      → Run (record t { wal = (rotate_locked no_faults t.wal).0 }) out
  flushed :
      {t : Tracker} {out batch rest : List Acknowledged}
      → Run t out
      → Split out batch rest
      → Run (release_wal_pending no_faults (segs_of batch) t).0 rest

-- What holds after every step.
record IsKept (t : Tracker) (out : List Acknowledged) (sealed : List Segment)
    (active : List WalRecord) : Type 0 where
  holds : Holds sealed active t.wal
  named : 0 < t.wal.segment_id
  counted : (k : ℕ) → 0 < k → occurs k (segs_of out) ≡ count_of k t.pending
  segments : AreSegments t.pending
  positive : All (λ a. 0 < a.0) out
  kept : All (InLog (sealed ++ (t.wal.segment_id, active) ∷ [])) out

InLog-All :
    (sealed : List Segment) (active : List WalRecord) (r : WalRecord) (w : Wal)
    (out : List Acknowledged)
    → All (InLog (sealed ++ (w.segment_id, active) ∷ [])) out
    → All
        (InLog (sealed_after sealed active r w ++ (id_after r w, active_after active r w) ∷ []))
        out
InLog-All sealed active r w [] h = tt
InLog-All sealed active r w (a ∷ out) h =
    (InLog-append sealed active r w a h.0, InLog-All sealed active r w out h.1)

id_after-lt :
    (r : WalRecord) (w : Wal)
    → Fits r w
    → 0 < w.segment_id
    → (0 < id_after r w) × (id_after r w < 2 ^ 64)
id_after-lt r w f h = elim (Bool-cases (overflows r w)) [
  | inl e ↦ rw e (omega arith, omega (arith, f.id))
  | inr e ↦ rw e (omega (arith, h), omega (arith, f.id))
]

IsKept-inserted :
    (span : Span) (t : Tracker) (out : List Acknowledged) (sealed : List Segment)
    (active : List WalRecord)
    → IsKept t out sealed active
    → Fits (record_of span) t.wal
    → IsKept
        (append_tracked no_faults span t).0
        ((id_after (record_of span) t.wal, span) ∷ out)
        (sealed_after sealed active (record_of span) t.wal)
        (active_after active (record_of span) t.wal)
unfolding occurs
IsKept-inserted span t out sealed active k f =
    let r = record_of span in
    let (holds, answer, id, counts) = append_tracked-Holds sealed active span t k.holds f in
    let (some_seg, small) = id_after-lt r t.wal f k.named in
    record {
      holds = holds;
      named = rw id some_seg;
      counted = λ j h. ground (arith, counts j, k.counted j h);
      segments =
          rw
            (append_tracked_ok span t (id_after r t.wal)
              (append-Holds sealed active r t.wal k.holds f).1)
            (put_count-AreSegments (id_after r t.wal) _ t.pending some_seg small k.segments);
      positive = (some_seg, k.positive);
      kept =
          subst
            (λ n.
              All
                (InLog
                  (sealed_after sealed active r t.wal ++ (n, active_after active r t.wal) ∷ []))
                ((id_after r t.wal, span) ∷ out))
            (sym id)
            (InLog-appended sealed active span t.wal, InLog-All sealed active r t.wal out k.kept);
    }

-- A span that waits is still in the log when the segments of `sealed` with waiting spans are in `left`.
InLog-left :
    (sealed left : List Segment) (id : ℕ) (active : List WalRecord) (a : Acknowledged)
    → ((rs : List WalRecord) → Memᴰ (a.0, rs) sealed → Memᴰ (a.0, rs) left)
    → InLog (sealed ++ (id, active) ∷ []) a
    → InLog (left ++ (id, active) ∷ []) a
InLog-left sealed left id active a f (rs, m, i) = elim (Memᴰ-last (a.0, rs) (id, active) sealed m) [
  | inl before ↦ (rs, append_left {s = left} ((id, active) ∷ []) (f rs before), i)
  | inr e ↦ (rs, append_right left (Memᴰ.head e), i)
]

InLog-left-All :
    (sealed left : List Segment) (id : ℕ) (active : List WalRecord) (rest : List Acknowledged)
    → ((a : Acknowledged) (rs : List WalRecord)
        → 0 < occurs a.0 (segs_of rest)
        → 0 < a.0
        → Memᴰ (a.0, rs) sealed
        → Memᴰ (a.0, rs) left)
    → All (λ a. 0 < a.0) rest
    → All (InLog (sealed ++ (id, active) ∷ [])) rest
    → All (InLog (left ++ (id, active) ∷ [])) rest
unfolding occurs
InLog-left-All sealed left id active [] f p h = tt
InLog-left-All sealed left id active (a ∷ rest) f p h = (
  InLog-left sealed left id active a (λ rs m. f a rs (ground arith) p.0 m) h.0,
  InLog-left-All sealed left id active rest (λ b rs o q m. f b rs (ground (arith, o)) q m) p.1 h.1,
)

IsKept-flushed :
    (t : Tracker) (out batch rest : List Acknowledged) (sealed : List Segment)
    (active : List WalRecord)
    → IsKept t out sealed active
    → Split out batch rest
    → (left : List Segment) × IsKept
        (release_wal_pending no_faults (segs_of batch) t).0
        rest
        left
        active
IsKept-flushed t out batch rest sealed active k s =
    let v = release_all-AreSegments (segs_of batch) t.pending k.segments in
    let (left, holds, stays) =
      release_wal_pending-keeps sealed active (segs_of batch) t k.holds v in
    let id = release-segment_id (segs_of batch) t in
    let pending = release-pending (segs_of batch) t in
    (
      left,
      record {
        holds = holds;
        named = rw id k.named;
        counted = λ j h. omega (
          arith,
          ap (count_of j) pending,
          count_of-release_all (segs_of batch) j t.pending h,
          k.counted j h,
          Split-occurs j s,
        );
        segments = rw pending v;
        positive = Split-All (λ a. 0 < a.0) s k.positive;
        kept =
            subst (λ n. All (InLog (left ++ (n, active) ∷ [])) rest) (sym id)
              (InLog-left-All sealed left t.wal.segment_id active rest
                (λ a rs o q m.
                  stays (a.0, rs) m (omega (arith, k.counted a.0 q, Split-occurs a.0 s, o)) q)
                (Split-All (λ a. 0 < a.0) s k.positive)
                (Split-All (InLog (sealed ++ (t.wal.segment_id, active) ∷ [])) s k.kept));
      },
    )

InLog-rotated :
    (segs : List Segment) (s : Segment) (out : List Acknowledged)
    → All (InLog segs) out
    → All (InLog (segs ++ s ∷ [])) out
InLog-rotated segs s [] h = tt
InLog-rotated segs s (a ∷ out) h =
    let (rs, m, i) = h.0 in ((rs, append_left (s ∷ []) m, i), InLog-rotated segs s out h.1)

IsKept-rotated :
    (t : Tracker) (out : List Acknowledged) (sealed : List Segment) (active : List WalRecord)
    → IsKept t out sealed active
    → t.wal.segment_id + 1 < 2 ^ 64
    → IsKept
        (record t { wal = (rotate_locked no_faults t.wal).0 })
        out
        (sealed ++ (t.wal.segment_id, active) ∷ [])
        []
IsKept-rotated t out sealed active k room =
    let segs = sealed ++ (t.wal.segment_id, active) ∷ [] in
    let id = rotate-segment_id sealed active t.wal k.holds room in
    record {
      holds = rotate-Holds sealed active t.wal k.holds room;
      named = rw id (omega arith);
      counted = k.counted;
      segments = k.segments;
      positive = k.positive;
      kept =
          subst (λ n. All (InLog (segs ++ (n, []) ∷ [])) out) (sym id)
            (InLog-rotated segs (t.wal.segment_id + 1, []) out k.kept);
    }

Run-IsKept :
    {t : Tracker} {out : List Acknowledged}
    → Run t out
    → (sealed : List Segment) × (active : List WalRecord) × IsKept t out sealed active
unfolding occurs count_of
Run-IsKept (opened {t = t} h p n) = (
  [],
  [],
  record {
    holds = h;
    named = n;
    counted = λ j q. rw p refl;
    segments = rw p tt;
    positive = tt;
    kept = tt;
  },
)
Run-IsKept (inserted {t = t} {out = out} span run f) =
    let (sealed, active, k) = Run-IsKept run in (_, _, IsKept-inserted span t out sealed active k f)
Run-IsKept (rotated {t = t} {out = out} run room) =
    let (sealed, active, k) = Run-IsKept run in (_, _, IsKept-rotated t out sealed active k room)
Run-IsKept (flushed {t = t} {out = out} {batch = batch} {rest = rest} run s) =
    let (sealed, active, k) = Run-IsKept run in
    let (left, k') = IsKept-flushed t out batch rest sealed active k s in (left, active, k')

Memᴰ-stored : (r : WalRecord) (rs : List WalRecord) → Memᴰ r rs → Memᴰ (stored r) (map stored rs)
Memᴰ-stored r [] m = elim m [ ]
Memᴰ-stored r (x ∷ rs) (Memᴰ.head e) = Memᴰ.head (ap stored e)
Memᴰ-stored r (x ∷ rs) (Memᴰ.tail m) = Memᴰ.tail (Memᴰ-stored r rs m)

Memᴰ-records :
    (segs : List Segment) (seg : ℕ) (rs : List WalRecord) (r : WalRecord)
    → Memᴰ (seg, rs) segs
    → Memᴰ r rs
    → Memᴰ (stored r) (records segs)
Memᴰ-records [] seg rs r m i = elim m [ ]
Memᴰ-records (x ∷ segs) seg rs r (Memᴰ.head e) i =
    append_left (records segs) (Memᴰ-stored r x.1 (rw (← ap (λ s. s.1) e) i))
Memᴰ-records (x ∷ segs) seg rs r (Memᴰ.tail m) i =
    append_right (map stored x.1) (Memᴰ-records segs seg rs r m i)

All-records :
    (segs : List Segment) (out : List Acknowledged)
    → All (InLog segs) out
    → All (λ a. Memᴰ (stored (record_of a.1)) (records segs)) out
All-records segs [] h = tt
All-records segs (a ∷ out) h =
    let (rs, m, i) = h.0 in (Memᴰ-records segs a.0 rs (record_of a.1) m i, All-records segs out h.1)

-- After any inserts of spans that fit, rotations, and releases of any part of what is not flushed, in
-- any order and without faults, from a log with no records, the log replays without an error, and
-- what it returns has the record of every acknowledged span that is not released. A flush rotates the
-- log first and releases its batch last.
pub replay-Run :
    {t : Tracker} {out : List Acknowledged}
    → Run t out
    → (all : List WalRecord) × (replay no_faults t.wal ≡ ok all)
      × All (λ a. Memᴰ (stored (record_of a.1)) all) out
replay-Run {t = t} {out = out} run =
    let (sealed, active, k) = Run-IsKept run in
    let segs = sealed ++ (t.wal.segment_id, active) ∷ [] in
    (records segs, replay-Holds sealed active t.wal k.holds, All-records segs out k.kept)
