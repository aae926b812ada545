-- ===== src/Segment/Cache/Runs.antt =====
-- internal/segment/cache.go, the cache with the goroutines that use it, as a step relation: the steps are
-- the stretches of the methods that run under the lock, in any order.
use wisp_trace_db.Prelude.{
  ℕ, ◌+◌, ◌<◌, ◌^◌, ◌≡◌, refl, inl, inr, Bool, true, false, List, [], ◌∷◌, ◌++◌, arith, length,
  Bool-cases, Result, ok, err, All,
}
use wisp_trace_db.Segment.Writer.{Dir}
use wisp_trace_db.Segment.Cache.{
  Cache, CacheError, Outcome, finished, waits, mem, acquire, release, wait_round, purge, close,
}
use wisp_trace_db.Segment.Cache.Listing.{mem-append}
use wisp_trace_db.Segment.Cache.System.{IsValid, Gone}
use wisp_trace_db.Segment.Cache.Later.{Later, Later-trans}
use wisp_trace_db.Segment.Cache.Waiting.{IsOut, Later-Out, IsRound}

-- A goroutine in Purge or Close that waits for `pending`. `ids` are those that it purges.
pub record Waiter : Type 0 where
  pub ids : List ℕ
  pub force : Bool
  pub pending : List ℕ
  pub first : Result CacheError Unit

-- `held` are the entries of the handles that are not released, `purged` the ids for which a Purge has
-- returned without an error.
pub record System : Type 0 where
  pub cache : Cache
  pub held : List ℕ
  pub waiters : List Waiter
  pub purged : List ℕ

-- Where Purge or Close has returned, or waits.
abbrev pub settle : List ℕ → Bool → List ℕ → List Waiter → List ℕ → Cache × Outcome → System
settle ids force held ws purged (c, finished (ok u)) = record {
  cache = c;
  held = held;
  waiters = ws;
  purged = ids ++ purged;
}
settle ids force held ws purged (c, finished (err e)) = record {
  cache = c;
  held = held;
  waiters = ws;
  purged = purged;
}
settle ids force held ws purged (c, waits pending first) = record {
  cache = c;
  held = held;
  waiters = record { ids = ids; force = force; pending = pending; first = first } ∷ ws;
  purged = purged;
}

abbrev pub hold : Result CacheError ℕ → List ℕ → List ℕ
hold (ok p) held = p ∷ held
hold (err e) held = held

-- No id was purged before.
abbrev pub Fresh : List ℕ → Cache → Type 0
Fresh ids c = (id : ℕ) → mem id ids ≡ true → mem id c.dead ≡ false

pub data Step (s : System) : System → Type 0 where
  -- There are less than 2 ^ 64 handles at a time.
  acquires :
      (dir : Dir) (id : ℕ)
      → length s.held + 1 < 2 ^ 64
      → Step s (record s {
        cache = (acquire dir id s.cache).0;
        held = hold (acquire dir id s.cache).1 s.held;
      })
  -- A handle is released once.
  releases :
      (closes : ℕ → Bool) (p : ℕ) (front back : List ℕ)
      → s.held ≡ front ++ p ∷ back
      → Step s (record s { cache = (release closes p s.cache).0; held = front ++ back })
  purges :
      (closes : ℕ → Bool) (ids : List ℕ)
      → s.cache.closed ≡ false
      → Fresh ids s.cache
      → Step s (settle ids false s.held s.waiters s.purged (purge closes ids s.cache))
  -- Of a Purge of ids that may be dead already nothing is recorded.
  purges_again :
      (closes : ℕ → Bool) (ids : List ℕ)
      → Step s (settle [] false s.held s.waiters s.purged (purge closes ids s.cache))
  shuts :
      (closes : ℕ → Bool) → Step s (settle [] true s.held s.waiters s.purged (close closes s.cache))
  -- A waiting goroutine goes through the loop again, before or after its deadline.
  wakes :
      (closes : ℕ → Bool) (timed_out : Bool) (w : Waiter) (front back : List Waiter)
      → s.waiters ≡ front ++ w ∷ back
      → Step s (
          settle w.ids w.force s.held
            (front ++ back)
            s.purged
            (wait_round closes w.force timed_out w.pending w.first s.cache))

pub data Reach (s : System) : System → Type 0 where
  here : Reach s s
  next : {t u : System} → Reach s t → Step t u → Reach s u

-- What a waiter waits for is out of the map; no other entry of its ids is open.
abbrev pub IsWaiting : Cache → Waiter → Type 0
IsWaiting c w =
    All (IsOut c) w.pending
    × (w.force ≡ true → (c.closed ≡ true) × (w.ids ≡ []))
    × ((id : ℕ) → mem id w.ids ≡ true → mem id c.dead ≡ true)
    × ((p : ℕ)
        → mem (c.entry p).id w.ids ≡ true
        → (c.entry p).closed ≡ false
        → mem p w.pending ≡ true)

pub record IsSound (s : System) : Type 0 where
  pub valid : IsValid s.cache s.held
  pub gone : Gone s.cache
  pub waiting : All (IsWaiting s.cache) s.waiters
  pub buried : (id : ℕ) → mem id s.purged ≡ true → mem id s.cache.dead ≡ true
  pub shut : (p : ℕ) → mem (s.cache.entry p).id s.purged ≡ true → (s.cache.entry p).closed ≡ true

Later-IsWaiting :
    (c d : Cache) (ws : List Waiter) → Later c d → All (IsWaiting c) ws → All (IsWaiting d) ws
Later-IsWaiting c d [] l h = tt
Later-IsWaiting c d (w ∷ ws) l ((o, k, b, v), h) = (
  (
    Later-Out c d w.pending l o,
    λ f. (l.stopped (k f).0, (k f).1),
    λ id m. l.stays_dead id (b id m),
    λ p m n. elim (l.opened p n) [
      | inl (n', e) ↦ ground (arith, v p)
      | inr alive ↦ absurd (ground (arith, b (d.entry p).id m))
    ],
  ),
  Later-IsWaiting c d ws l h,
)

-- A step of the cache under the goroutines' feet.
pub moves :
    (s : System) (d : Cache) (held : List ℕ) (ws : List Waiter)
    → IsSound s
    → All (IsWaiting s.cache) ws
    → Later s.cache d
    → IsValid d held
    → Gone d
    → IsSound (record { cache = d; held = held; waiters = ws; purged = s.purged })
moves s d held ws h a l v g = record {
  valid = v;
  gone = g;
  waiting = Later-IsWaiting s.cache d ws l a;
  buried = λ id m. l.stays_dead id (h.buried id m);
  shut = λ p m. elim (Bool-cases (d.entry p).closed) [
    | inl e ↦ e
    | inr e ↦ elim (l.opened p e) [
      | inl (n, i) ↦ absurd (ground (arith, h.shut p))
      | inr alive ↦ absurd (ground (arith, h.buried (d.entry p).id m))
    ]
  ];
}

-- A method that has gone through a round of its wait.
pub settles :
    (s : System) (c : Cache) (ids pending : List ℕ) (force : Bool) (ws : List Waiter)
    (r : Cache × Outcome)
    → IsSound s
    → All (IsWaiting s.cache) ws
    → Later s.cache c
    → IsRound c s.held force pending r
    → ((id : ℕ) → mem id ids ≡ true → mem id c.dead ≡ true)
    → ((p : ℕ) → mem (c.entry p).id ids ≡ true → (c.entry p).closed ≡ false → mem p pending ≡ true)
    → (force ≡ true → (c.closed ≡ true) × (ids ≡ []))
    → IsSound (settle ids force s.held ws s.purged r)
settles s c ids pending force ws (d, finished (err e)) h a l r b v f =
    moves s d s.held ws h a (Later-trans l r.later) r.valid r.gone
settles s c ids pending true ws (d, finished (ok u)) h a l r b v f =
    rw ((f refl).1) (moves s d s.held ws h a (Later-trans l r.later) r.valid r.gone)
settles s c ids pending false ws (d, finished (ok u)) h a l r b v f =
    let m = moves s d s.held ws h a (Later-trans l r.later) r.valid r.gone in
    record {
      valid = m.valid;
      gone = m.gone;
      waiting = m.waiting;
      buried = λ id n.
          ground (arith, mem-append id ids s.purged, m.buried id, b id, r.later.stays_dead id);
      shut = λ p n. elim (Bool-cases (d.entry p).closed) [
        | inl e ↦ e
        | inr e ↦ elim (r.later.opened p e) [
          | inl (k, i) ↦
              ground
                (arith, mem-append (d.entry p).id ids s.purged, m.shut p, v p, r.promise refl p)
          | inr alive ↦
              ground (arith, mem-append (d.entry p).id ids s.purged, m.shut p, b (d.entry p).id)
        ]
      ];
    }
settles s c ids pending force ws (d, waits ps first) h a l r b v f =
    let m = moves s d s.held ws h a (Later-trans l r.later) r.valid r.gone in
    record {
      valid = m.valid;
      gone = m.gone;
      waiting = (
        (
          r.promise.0,
          λ e. (r.later.stopped (f e).0, (f e).1),
          λ id n. r.later.stays_dead id (b id n),
          λ p n e. elim (r.later.opened p e) [
            | inl (k, i) ↦ r.promise.1 p (ground (arith, v p)) e
            | inr alive ↦ absurd (ground (arith, b (d.entry p).id n))
          ],
        ),
        m.waiting,
      );
      buried = m.buried;
      shut = m.shut;
    }
