-- ===== src/Segment/Cache/Steps.antt =====
-- internal/segment/cache.go, Acquire, Release, Purge and Close as steps of the system.
use wisp_trace_db.Prelude.{
  ℕ, ◌+◌, ◌<◌, ◌^◌, ◌==◌, ◌≡◌, refl, inl, inr, Bool, true, false, some, List, [], ◌∷◌, ◌++◌, ◌&&◌,
  arith, length, map, Option-cases, Bool-cases, Result-cases, All, All-append, All-front, All-back,
}
use wisp_trace_db.Segment.Writer.{Dir}
use wisp_trace_db.Segment.Cache.{
  Cache, drop_ref, mem, find_entry, open_light, hit, acquire, release, wait_round, purge, purge_ids,
  wait_for, close, detach_all, update,
}
use wisp_trace_db.Segment.Cache.Branches.{
  acquire_closed, acquire_dead, acquire-hit, acquire-miss, purge_closed, purge_open, close_closed,
  close_open,
}
use wisp_trace_db.Segment.Cache.System.{
  IsValid, Gone, released, hit-IsValid, released-IsValid, close_entry-IsValid,
}
use wisp_trace_db.Segment.Cache.Later.{
  Later, Later-refl, Later-trans, hit-Later, released-Later, close_entry-Later,
}
use wisp_trace_db.Segment.Cache.Eviction.{miss-IsValid, miss-Later, miss-Gone}
use wisp_trace_db.Segment.Cache.Waiting.{wait_for-IsRound, wait_round-IsRound, close_entry-Gone}
use wisp_trace_db.Segment.Cache.Purging.{
  purge_ids_lem, stop_all, stop_all-IsValid, stop_all-Later, detach_all-IsEmptied,
}
use wisp_trace_db.Segment.Cache.Runs.{
  System, Waiter, Step, acquires, releases, purges, purges_again, shuts, wakes, Reach, here, next,
  settle, hold, Fresh, IsWaiting, IsSound, moves, settles,
}

-- What every method keeps.
abbrev IsKept : Cache → Cache → List ℕ → Type 0
IsKept c d held = IsValid d held × Later c d × Gone d

module _ (c : Cache) (held : List ℕ) (h : IsValid c held) (g : Gone c) where
  hit-IsKept :
      (id p : ℕ)
      → find_entry id c.entries ≡ some p
      → length held + 1 < 2 ^ 64
      → IsKept c (hit p c) (p ∷ held)
  unfolding hit update
  hit-IsKept id p f b =
      (hit-IsValid p c held h id f (omega arith), hit-Later p c, λ q. ground (arith, g q))

  acquire-IsKept :
      (dir : Dir) (id : ℕ)
      → length held + 1 < 2 ^ 64
      → let r = acquire dir id c in IsKept c r.0 (hold r.1 held)
  unfolding acquire
  acquire-IsKept dir id b =
      let none_changed : IsKept c c held = (h, Later-refl c, g) in
      elim (Bool-cases c.closed) [
        | inl k ↦ rw (acquire_closed c dir id k) none_changed
        | inr k ↦ elim (Bool-cases (mem id c.dead)) [
          | inl d ↦ rw (acquire_dead c dir id k d) none_changed
          | inr d ↦ elim (Option-cases (find_entry id c.entries)) [
            | inr (p, f) ↦ rw (acquire-hit c dir id p k d f) (hit-IsKept id p f b)
            | inl f ↦ elim (Result-cases (open_light dir id)) [
              | inr (e, o) ↦ rw (acquire-miss c dir id k d f, o) none_changed
              | inl (r, o) ↦
                  let b' : length (c.next ∷ held) < 2 ^ 64 = omega arith in
                  rw (acquire-miss c dir id k d f, o)
                    (
                      miss-IsValid id r c held h k d f b',
                      miss-Later id r c held h k d f b',
                      miss-Gone id r c held h k d f b' g,
                    )
            ]
          ]
        ]
      ]

released-Gone : (p : ℕ) (c : Cache) → Gone c → Gone (released p c)
unfolding update
released-Gone p c g = λ q. ground (arith, g q)

release-IsKept :
    (closes : ℕ → Bool) (p : ℕ) (c : Cache) (front back : List ℕ)
    → IsValid c (front ++ p ∷ back)
    → Gone c
    → IsKept c (release closes p c).0 (front ++ back)
unfolding release update
release-IsKept closes p c front back h g =
    let d = released p c in
    let v = released-IsValid p c front back h in
    let l = released-Later p c in
    let k = released-Gone p c g in
    let e = drop_ref (c.entry p) in
    elim (Bool-cases ((e.refs == 0) && e.evicted)) [
      | inr n ↦ rw (release, n) (v, l, k)
      | inl y ↦
          let out : (d.entry p).evicted ≡ true = ground (arith, y) in
          let idle : (d.entry p).refs ≡ 0 = ground (arith, y) in
          rw (release, y)
            (
              close_entry-IsValid p d (front ++ back) v closes out (λ n. idle),
              Later-trans l (close_entry-Later closes p d),
              close_entry-Gone closes p d k,
            )
    ]

All-seconds : (P : ℕ → Type 0) (m : List (ℕ × ℕ)) → All (λ x. P x.1) m → All P (map (λ x. x.1) m)
All-seconds P [] h = tt
All-seconds P (x ∷ m) h = (h.0, All-seconds P m h.1)

module _ (s : System) (h : IsSound s) where
  purges-IsSound :
      (closes : ℕ → Bool) (ids : List ℕ)
      → s.cache.closed ≡ false
      → Fresh ids s.cache
      → IsSound (settle ids false s.held s.waiters s.purged (purge closes ids s.cache))
  unfolding mem
  purges-IsSound closes ids k f =
      let p = purge_ids_lem s.cache s.held ids k h.valid h.gone in
      let (c, pending) = purge_ids ids [] s.cache in
      rw (purge_open s.cache closes ids k) (
        settles s c ids pending false s.waiters (wait_for closes false pending c) h h.waiting
          p.later
          (wait_for-IsRound closes s.held pending false c p.valid p.gone p.out λ n. absurd cc)
          (λ id m. ground (arith, p.dies id)) (λ q m n. p.covers q m (f (c.entry q).id m) n)
          (λ n. absurd cc))

  purges_again-IsSound :
      (closes : ℕ → Bool) (ids : List ℕ)
      → IsSound (settle [] false s.held s.waiters s.purged (purge closes ids s.cache))
  unfolding mem
  purges_again-IsSound closes ids = elim (Bool-cases s.cache.closed) [
    | inl k ↦ rw (purge_closed s.cache closes ids k) h
    | inr k ↦
        let p = purge_ids_lem s.cache s.held ids k h.valid h.gone in
        let (c, pending) = purge_ids ids [] s.cache in
        rw (purge_open s.cache closes ids k) (
          settles s c [] pending false s.waiters (wait_for closes false pending c) h h.waiting
            p.later
            (wait_for-IsRound closes s.held pending false c p.valid p.gone p.out λ n. absurd cc)
            (λ id m. absurd cc) (λ q m n. absurd cc) (λ n. absurd cc))
  ]

  shuts-IsSound :
      (closes : ℕ → Bool)
      → IsSound (settle [] true s.held s.waiters s.purged (close closes s.cache))
  unfolding mem stop_all
  shuts-IsSound closes = elim (Bool-cases s.cache.closed) [
    | inl k ↦ rw (close_closed s.cache closes k) h
    | inr k ↦
        let pending = map (λ x. x.1) s.cache.entries in
        let e =
          detach_all-IsEmptied pending (stop_all s.cache) s.held
            (stop_all-IsValid s.cache s.held h.valid)
            (All-seconds (λ p. p < s.cache.next) s.cache.entries h.valid.ranged) in
        let c = detach_all pending (stop_all s.cache) in
        let l = Later-trans (stop_all-Later s.cache) e.later in
        rw (close_open s.cache closes k) (
          settles s c [] pending true s.waiters (wait_for closes true pending c) h h.waiting l
            (wait_for-IsRound closes s.held pending true c e.valid
              (λ q n. absurd (ground (arith, e.stops))) e.out λ n. e.stops)
            (λ id m. absurd cc) (λ q m n. absurd cc) (λ n. (e.stops, refl)))
  ]

  wakes-IsSound :
      (closes : ℕ → Bool) (timed_out : Bool) (w : Waiter) (front back : List Waiter)
      → s.waiters ≡ front ++ w ∷ back
      → IsSound (
          settle w.ids w.force s.held
            (front ++ back)
            s.purged
            (wait_round closes w.force timed_out w.pending w.first s.cache))
  wakes-IsSound closes timed_out w front back e =
      let all : All (IsWaiting s.cache) (front ++ w ∷ back) = rw e at h.waiting in
      let mine = (All-back (IsWaiting s.cache) front (w ∷ back) all) in
      let others =
        All-append (IsWaiting s.cache) front back
          (All-front (IsWaiting s.cache) front (w ∷ back) all) mine.1 in
      let (out, force, dead, covers) = mine.0 in
      settles s s.cache w.ids w.pending w.force (front ++ back)
        (wait_round closes w.force timed_out w.pending w.first s.cache) h others
        (Later-refl s.cache)
        (wait_round-IsRound closes s.held w.pending w.force timed_out w.first s.cache h.valid h.gone
          out (λ f. (force f).0))
        dead covers force

pub Step-IsSound : {s t : System} → IsSound s → Step s t → IsSound t
Step-IsSound {s} h (acquires dir id b) =
    let k = acquire-IsKept s.cache s.held h.valid h.gone dir id b in
    moves s (acquire dir id s.cache).0 (hold (acquire dir id s.cache).1 s.held) s.waiters h
      h.waiting k.1 k.0 k.2
Step-IsSound {s} h (releases closes p front back e) =
    let k = release-IsKept closes p s.cache front back (rw e at h.valid) h.gone in
    moves s (release closes p s.cache).0 (front ++ back) s.waiters h h.waiting k.1 k.0 k.2
Step-IsSound {s} h (purges closes ids k f) = purges-IsSound s h closes ids k f
Step-IsSound {s} h (purges_again closes ids) = purges_again-IsSound s h closes ids
Step-IsSound {s} h (shuts closes) = shuts-IsSound s h closes
Step-IsSound {s} h (wakes closes timed_out w front back e) =
    wakes-IsSound s h closes timed_out w front back e

pub Reach-IsSound : {s t : System} → IsSound s → Reach s t → IsSound t
Reach-IsSound h here = h
Reach-IsSound h (next r st) = Step-IsSound (Reach-IsSound h r) st
