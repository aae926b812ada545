-- ===== src/Engine/Recovery/Fresh.antt =====
-- internal/engine/engine.go, computeNextSegmentID: the id is free.
use mathlib.Core.Path.{subst}
use wisp_trace_db.Prelude.{
  ℕ, ◌+◌, ◌^◌, ◌%◌, ◌≡◌, refl, sym, ltb, ltb→lt, ◌-◌, ◌<◌, ◌≤◌, inl, inr, true, false, none, List,
  [], ◌∷◌, map, All, arith, Bool-cases, ok, Option,
}
use wisp_trace_db.Prelude.Bytes.{Bytes}
use wisp_trace_db.Wal.Span.{Span}
use wisp_trace_db.Segment.Format.{WriteResult}
use wisp_trace_db.Segment.Writer.{Sizing, Dir, read_file, flush}
use wisp_trace_db.Segment.Manifest
use wisp_trace_db.Segment.Manifest.{contains}
use wisp_trace_db.Engine.Recovery.{highest, compute_next_segment_id}

-- No id is above the highest.
highest-All : (ids : List ℕ) (m : ℕ) → (m ≤ highest m ids) × All (λ id. id ≤ highest m ids) ids
unfolding highest
highest-All [] m = (omega arith, tt)
highest-All (id ∷ ids) m = elim (Bool-cases (ltb m id)) [
  | inl b ↦
      let next : highest m (id ∷ ids) ≡ highest id ids = rw (highest, b) refl in
      let (low, all) = highest-All ids id in
      subst (λ n. (m ≤ n) × ((id ≤ n) × All (λ id. id ≤ n) ids)) (sym next)
        (omega (arith, ltb→lt m id b, low), (low, all))
  | inr b ↦
      let next : highest m (id ∷ ids) ≡ highest m ids = rw (highest, b) refl in
      let (low, all) = highest-All ids m in
      subst (λ n. (m ≤ n) × ((id ≤ n) × All (λ id. id ≤ n) ids)) (sym next)
        (low, (ground (arith, b, low), all))
]

highest-lt : (ids : List ℕ) (m n : ℕ) → m < n → All (λ id. id < n) ids → highest m ids < n
unfolding highest
highest-lt [] m n h v = h
highest-lt (id ∷ ids) m n h v = elim (Bool-cases (ltb m id)) [
  | inl b ↦ rw (highest, b) (highest-lt ids id n v.0 v.1)
  | inr b ↦ rw (highest, b) (highest-lt ids m n h v.1)
]

read_file_above :
    (dir : Dir) (n m : ℕ) → All (λ id. id ≤ m) (map (λ f. f.0) dir) → m < n → read_file n dir ≡ none
unfolding read_file
read_file_above [] n m v h = refl
read_file_above ((id, b) ∷ dir) n m v h = ground (arith, v.0, h, read_file_above dir n m v.1 h)

contains_above : (ids : List ℕ) (n m : ℕ) → All (λ id. id ≤ m) ids → m < n → contains n ids ≡ false
unfolding contains
contains_above [] n m v h = refl
contains_above (id ∷ ids) n m v h = ground (arith, v.0, h, contains_above ids n m v.1 h)

flush_free :
    (z : Sizing) (id : ℕ) (s : Span) (ss : List Span) (dir : Dir)
    → read_file id dir ≡ none
    → (w : WriteResult) × ((flush z true id (s ∷ ss) dir).1 ≡ ok w) × (w.segment_id ≡ id)
unfolding flush
flush_free z id s ss dir e = rw (flush, e) (_, refl, refl)

-- Where the ids of the files, of the manifest and of the checkpoint are below 2^64 - 1, the id that
-- computeNextSegmentID returns is above the checkpoint's and in neither directory nor manifest, so that
-- a Flush under it, of which every call of the operating system succeeds, is not refused.
pub compute_next_segment_id-flush :
    (z : Sizing) (s : Span) (ss : List Span) (dir : Dir) (manifest : Option Bytes) (ids : List ℕ)
    (last id : ℕ)
    → All (λ id. id < 2 ^ 64 - 1) (map (λ f. f.0) dir)
    → Manifest.load manifest ≡ ok ids
    → All (λ id. id < 2 ^ 64 - 1) ids
    → last < 2 ^ 64 - 1
    → compute_next_segment_id true dir manifest last ≡ ok id
    → (last < id)
      × (contains id ids ≡ false)
      × ((w : WriteResult) × ((flush z true id (s ∷ ss) dir).1 ≡ ok w) × (w.segment_id ≡ id))
unfolding compute_next_segment_id
compute_next_segment_id-flush z s ss dir manifest ids last id vd l vi vl e =
    let m = highest last ids in
    let names = map (λ f. f.0) dir in
    let top = highest m names in
    let low = highest-lt names m (2 ^ 64 - 1) (highest-lt ids last (2 ^ 64 - 1) vl vi) vd in
    let next : (top + 1) % 2 ^ 64 ≡ id = cc (rw (compute_next_segment_id, l) at e) in
    let above : id ≡ top + 1 = omega (arith, next, low) in
    let (m_le, dir_le) = highest-All names m in
    let (last_le, ids_le) = highest-All ids last in
    (
      omega (arith, above, m_le, last_le),
      contains_above ids id m ids_le (omega (arith, above, m_le)),
      flush_free z id s ss dir (read_file_above dir id top dir_le (omega (arith, above))),
    )
