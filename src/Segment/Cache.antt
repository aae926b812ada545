-- ===== src/Segment/Cache.antt =====
-- internal/segment/cache.go. The cache's entries are objects of a heap, and are named by their
-- addresses. A goroutine that waits on the condition variable is the value `Waiter`.
pub mod Listing
pub mod System
pub mod Later
pub mod Eviction
pub mod Waiting
pub mod Purging
pub mod Runs
pub mod Steps
pub mod Branches
pub mod Handles
pub mod Safety
use wisp_trace_db.Prelude.{
  ℕ, zero, suc, ◌+◌, ◌-◌, ◌%◌, ◌^◌, ◌==◌, Bool, true, false, not, ◌&&◌, Option, none, some, List,
  [], ◌∷◌, ◌++◌, keep, map, length, ltb, if◌then◌else◌, Result, ok, err,
}
use wisp_trace_db.Segment.Format.{SegmentError}
use wisp_trace_db.Segment.Writer.{Dir, read_file}
use wisp_trace_db.Segment.Reader.{Reader, open_reader_light}

pub data CacheError : Type 0 where
  cache_closed : CacheError
  being_reclaimed : CacheError
  purge_timeout : CacheError
  no_file : CacheError
  bad_file : SegmentError → CacheError
  close_failed : CacheError

-- cacheEntry. Its list element is its place in `lru`.
pub record Entry : Type 0 where
  pub id : ℕ
  pub reader : Reader
  pub refs : ℕ
  pub evicted : Bool
  pub closed : Bool

-- An address from `next` on is free. `entries` is the map from ids to entries, `lru` the list of
-- entries with the most recently acquired one in front.
pub record Cache : Type 0 where
  pub max_entries : ℕ
  pub entry : ℕ → Entry
  pub next : ℕ
  pub entries : List (ℕ × ℕ)
  pub lru : List ℕ
  pub dead : List ℕ
  pub closed : Bool

unfoldable pub update : (ℕ → Entry) → ℕ → Entry → ℕ → Entry
update f p e q = if p == q then e else f q

unfoldable pub mem : ℕ → List ℕ → Bool
mem a [] = false
mem a (x ∷ xs) = if x == a then true else mem a xs

unfoldable pub without : ℕ → List ℕ → List ℕ
without a xs = keep (λ x. not (x == a)) xs

unfoldable pub find_entry : ℕ → List (ℕ × ℕ) → Option ℕ
find_entry id [] = none
find_entry id ((j, p) ∷ m) = if j == id then some p else find_entry id m

unfoldable pub delete_entry : ℕ → List (ℕ × ℕ) → List (ℕ × ℕ)
delete_entry id m = keep (λ x. not (x.0 == id)) m

unfoldable pub new_cache : (ℕ → Entry) → ℕ → Cache
new_cache heap max = record {
  max_entries = max;
  entry = heap;
  next = 0;
  entries = [];
  lru = [];
  dead = [];
  closed = false;
}

-- e.refs++ and e.refs-- on an int of 64 bits
abbrev pub add_ref : Entry → Entry
add_ref e = record e { refs = (e.refs + 1) % 2 ^ 64 }

abbrev pub drop_ref : Entry → Entry
drop_ref e = record e { refs = (e.refs + 2 ^ 64 - 1) % 2 ^ 64 }

-- Whether `p` is the entry that the map has for its id.
unfoldable pub is_mapped : Option ℕ → ℕ → Bool
is_mapped none p = false
is_mapped (some q) p = q == p

-- detachLocked: the entry leaves the map, if it is the one there, and the list.
unfoldable pub detach : ℕ → Cache → Cache
unfolding find_entry is_mapped delete_entry without update
detach p c =
    let e = c.entry p in
    record c {
      entries =
          if is_mapped (find_entry e.id c.entries) p
          then delete_entry e.id c.entries
          else c.entries;
      lru = without p c.lru;
      entry = update c.entry p (record e { evicted = true });
    }

-- closeEntryLocked. `closes` says of which entries the reader's Close succeeds.
unfoldable pub close_entry : (ℕ → Bool) → ℕ → Cache → Cache × Result CacheError Unit
unfolding update
close_entry closes p c =
    let e = c.entry p in
    if e.closed then (c, ok tt) else (
      record c { entry = update c.entry p (record e { closed = true }) },
      if closes p then ok tt else err close_failed,
    )

-- The loop that looks for an idle entry from the back of the list.
unfoldable pub victim : (ℕ → Entry) → List ℕ → Option ℕ
victim entry [] = none
victim entry (p ∷ ps) = elim (victim entry ps) [
  | some q ↦ some q
  | none ↦ if (entry p).refs == 0 then some p else none
]

-- evictOverflowLocked, for as many rounds as there are entries in the map.
unfoldable pub evict_overflow : ℕ → Cache → Cache
unfolding victim
evict_overflow zero c = c
evict_overflow (suc fuel) c = elim (ltb c.max_entries (length c.entries)) [
  | false ↦ c
  | true ↦ elim (victim c.entry c.lru) [
    | none ↦ c
    | some p ↦ evict_overflow fuel (close_entry (λ _. true) p (detach p c)).0
  ]
]

-- OpenReaderLight on the segment's file.
unfoldable pub open_light : Dir → ℕ → Result CacheError Reader
open_light dir id = elim (read_file id dir) [
  | none ↦ err no_file
  | some b ↦ elim (open_reader_light b) [ ok r ↦ ok r | err e ↦ err (bad_file e) ]
]

-- A hit moves the entry to the front of the list, with one more reference.
unfoldable pub hit : ℕ → Cache → Cache
unfolding update without
hit p c = record c { lru = p ∷ without p c.lru; entry = update c.entry p (add_ref (c.entry p)) }

-- A miss makes a new entry, before the cache is cut to its size.
unfoldable pub push_front : ℕ → Reader → Cache → Cache
unfolding update delete_entry
push_front id r c = record c {
  entry =
      update c.entry c.next
        (record { id = id; reader = r; refs = 1; evicted = false; closed = false });
  next = c.next + 1;
  entries = (id, c.next) ∷ delete_entry id c.entries;
  lru = c.next ∷ c.lru;
}

unfoldable pub miss : ℕ → Reader → Cache → Cache
unfolding push_front evict_overflow
miss id r c = let c' = push_front id r c in evict_overflow (length c'.entries) c'

-- Acquire, up to the handle: the address of the entry that is now in use.
unfoldable pub acquire : Dir → ℕ → Cache → Cache × Result CacheError ℕ
unfolding mem find_entry hit open_light miss
acquire dir id c =
    if c.closed
    then (c, err cache_closed)
    else if mem id c.dead
    then (c, err being_reclaimed)
    else elim (find_entry id c.entries) [
      | some p ↦ (hit p c, ok p)
      | none ↦ elim (open_light dir id) [ err e ↦ (c, err e) | ok r ↦ (miss id r c, ok c.next) ]
    ]

-- Cache.release
unfoldable pub release : (ℕ → Bool) → ℕ → Cache → Cache × Result CacheError Unit
unfolding update close_entry
release closes p c =
    let e = drop_ref (c.entry p) in
    let c' = record c { entry = update c.entry p e } in
    if (e.refs == 0) && e.evicted then close_entry closes p c' else (c', ok tt)

-- What waitAndCloseLocked has when it waits, or what it returns.
pub data Outcome : Type 0 where
  finished : Result CacheError Unit → Outcome
  waits : List ℕ → Result CacheError Unit → Outcome

-- The first error is kept.
abbrev pub first_error : Result CacheError Unit → Result CacheError Unit → Result CacheError Unit
first_error (ok u) r = r
first_error (err e) r = err e

-- The loop over the pending entries that closes the idle ones: those that remain are last.
unfoldable pub close_idle :
    (ℕ → Bool) → List ℕ → Result CacheError Unit → Cache → Cache × Result CacheError Unit × List ℕ
unfolding close_entry
close_idle closes [] first c = (c, first, [])
close_idle closes (p ∷ ps) first c = elim ((c.entry p).refs == 0) [
  | true ↦ let (c', r) = close_entry closes p c in close_idle closes ps (first_error first r) c'
  | false ↦ let (c', first', rest) = close_idle closes ps first c in (c', first', p ∷ rest)
]

-- The loop that closes the entries in use, at shutdown.
unfoldable pub close_all :
    (ℕ → Bool) → List ℕ → Result CacheError Unit → Cache → Cache × Result CacheError Unit
unfolding close_entry
close_all closes [] first c = (c, first)
close_all closes (p ∷ ps) first c =
    let (c', r) = close_entry closes p c in close_all closes ps (first_error first r) c'

-- The round of waitAndCloseLocked behind its loop, with the entries that remain.
unfoldable pub after_sweep :
    (ℕ → Bool)
    → (force timed_out : Bool) → List ℕ
    → Result CacheError Unit
    → Cache
    → Cache × Outcome
unfolding close_all
after_sweep closes force timed_out [] first c = (c, finished first)
after_sweep closes force false (p ∷ ps) first c = (c, waits (p ∷ ps) first)
after_sweep closes false true (p ∷ ps) first c = (c, finished (err purge_timeout))
after_sweep closes true true (p ∷ ps) first c =
    let (d, r) = close_all closes (p ∷ ps) first c in (d, finished r)

-- One round of waitAndCloseLocked, up to the call of Wait.
unfoldable pub wait_round :
    (ℕ → Bool)
    → (force timed_out : Bool) → List ℕ
    → Result CacheError Unit
    → Cache
    → Cache × Outcome
unfolding close_idle after_sweep
wait_round closes force timed_out pending first c =
    let (c', first', rest) = close_idle closes pending first c in
    after_sweep closes force timed_out rest first' c'

-- The end of Purge and of Close: the first round, if there is something to wait for.
unfoldable pub wait_for : (ℕ → Bool) → (force : Bool) → List ℕ → Cache → Cache × Outcome
unfolding wait_round
wait_for closes force [] c = (c, finished (ok tt))
wait_for closes force (p ∷ ps) c = wait_round closes force false (p ∷ ps) (ok tt) c

-- The loop of Purge over the ids.
unfoldable pub purge_ids : List ℕ → List ℕ → Cache → Cache × List ℕ
unfolding find_entry detach
purge_ids [] pending c = (c, pending)
purge_ids (id ∷ ids) pending c =
    let c' = record c { dead = id ∷ c.dead } in
    elim (find_entry id c.entries) [
      | none ↦ purge_ids ids pending c'
      | some p ↦ purge_ids ids (pending ++ p ∷ []) (detach p c')
    ]

-- Purge, up to the first call of Wait.
unfoldable pub purge : (ℕ → Bool) → List ℕ → Cache → Cache × Outcome
unfolding purge_ids wait_for
purge closes ids c =
    if c.closed
    then (c, finished (ok tt))
    else let (c', pending) = purge_ids ids [] c in wait_for closes false pending c'

-- The loop of Close over the map.
unfoldable pub detach_all : List ℕ → Cache → Cache
unfolding detach
detach_all [] c = c
detach_all (p ∷ ps) c = detach_all ps (detach p c)

-- Close, up to the first call of Wait.
unfoldable pub close : (ℕ → Bool) → Cache → Cache × Outcome
unfolding detach_all wait_for
close closes c =
    if c.closed
    then (c, finished (ok tt))
    else let pending = map (λ x. x.1) c.entries in
      let c' = detach_all pending (record c { closed = true }) in wait_for closes true pending c'
