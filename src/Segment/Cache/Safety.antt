-- ===== src/Segment/Cache/Safety.antt =====
-- internal/segment/cache.go, what the users of the cache rely on.
use wisp_trace_db.Prelude.{
  ℕ, ◌+◌, ◌<◌, ◌^◌, ◌≡◌, refl, inl, inr, Bool, true, false, none, some, List, [], ◌∷◌, arith,
  length, Bool-cases, Option-cases, ok, err,
}
use wisp_trace_db.Segment.Writer.{Dir}
use wisp_trace_db.Segment.Reader.{Reader}
use wisp_trace_db.Segment.Cache.{
  Cache, CacheError, finished, cache_closed, being_reclaimed, new_cache, mem, update, find_entry,
  open_light, acquire, release, purge, purge_ids, wait_for,
}
use wisp_trace_db.Segment.Cache.Branches.{acquire_closed, acquire_dead, acquire-miss, purge_open}
use wisp_trace_db.Segment.Cache.Listing.{mem_counted, count}
use wisp_trace_db.Segment.Cache.Eviction.{IsCut, miss-IsCut}
use wisp_trace_db.Segment.Cache.Runs.{System, Reach, IsSound}
use wisp_trace_db.Segment.Cache.Steps.{Reach-IsSound}

-- The system at the start. A free address of the heap reads as a closed entry.
unfoldable pub new_system : Reader → ℕ → System
unfolding new_cache
new_system blank max = record {
  cache =
      new_cache (λ p. record { id = 0; reader = blank; refs = 0; evicted = true; closed = true })
        max;
  held = [];
  waiters = [];
  purged = [];
}

new_system-IsSound : (blank : Reader) (max : ℕ) → IsSound (new_system blank max)
unfolding new_system mem find_entry count
new_system-IsSound blank max = record {
  valid = record {
    bounded = omega arith;
    free = λ p l. (refl, refl);
    counted = λ p. refl;
    mapped = λ id p f. absurd cc;
    found = λ p e. absurd cc;
    listed = λ p m. absurd cc;
    detached = λ p e. refl;
    idle = λ p k e. refl;
    ranged = tt;
  };
  gone = λ p k e f. absurd cc;
  waiting = tt;
  buried = λ id m. absurd cc;
  shut = λ p m. refl;
}

-- Purge's loop over ids that are dead, and so have no entry in the map.
purge_ids_dead :
    (ids pending : List ℕ) (c : Cache)
    → ((id p : ℕ) → find_entry id c.entries ≡ some p → mem id c.dead ≡ false)
    → ((id : ℕ) → mem id ids ≡ true → mem id c.dead ≡ true)
    → let r = purge_ids ids pending c in (r.1 ≡ pending) × ((p : ℕ) → r.0.entry p ≡ c.entry p)
unfolding purge_ids mem
purge_ids_dead [] pending c m d = (refl, λ p. refl)
purge_ids_dead (id ∷ ids) pending c m d = elim (Option-cases (find_entry id c.entries)) [
  | inr (p, f) ↦ absurd (ground (arith, m id p f, d id))
  | inl f ↦
      rw (purge_ids, f)
        (purge_ids_dead ids pending (record c { dead = id ∷ c.dead })
          (λ i p e. ground (arith, f, m i p e)) (λ i e. ground (arith, d i)))
]

module _ (blank : Reader) (max : ℕ) (s : System) (run : Reach (new_system blank max) s) where
  sound : IsSound s
  sound = Reach-IsSound (new_system-IsSound blank max) run

  -- As long as the cache is not closed, whatever acquires, releases, purges, evictions and rounds of
  -- waiting have happened in any order, an entry with a handle that is not released has an open
  -- reader.
  pub held_stays_open :
      (p : ℕ) → s.cache.closed ≡ false → mem p s.held ≡ true → (s.cache.entry p).closed ≡ false
  held_stays_open p k m = elim (Bool-cases (s.cache.entry p).closed) [
    | inl e ↦
        absurd
          (omega (arith, sound.valid.idle p k e, sound.valid.counted p, mem_counted p s.held m))
    | inr e ↦ e
  ]

  -- Once a Purge that was called while the cache was not closed, of an id that was not purged before,
  -- has returned without an error, in every later state no reader of the id is open, and Acquire
  -- refuses the id.
  pub purged_stays_shut :
      (id : ℕ)
      → mem id s.purged ≡ true
      → ((p : ℕ) → (s.cache.entry p).id ≡ id → (s.cache.entry p).closed ≡ true)
        × ((dir : Dir) → (e : CacheError) × (acquire dir id s.cache ≡ (s.cache, err e)))
  purged_stays_shut id m = (
    λ p e. sound.shut p (rw e m),
    λ dir. elim (Bool-cases s.cache.closed) [
      | inl k ↦ (cache_closed, acquire_closed s.cache dir id k)
      | inr k ↦ (being_reclaimed, acquire_dead s.cache dir id k (sound.buried id m))
    ],
  )

  -- When Acquire has opened a reader for an id that the cache did not have, the cache is within its
  -- size, or every entry on its list is in use.
  pub acquire-IsCut :
      (dir : Dir) (id : ℕ) (r : Reader)
      → length s.held + 1 < 2 ^ 64
      → s.cache.closed ≡ false
      → mem id s.cache.dead ≡ false
      → find_entry id s.cache.entries ≡ none
      → open_light dir id ≡ ok r
      → IsCut (acquire dir id s.cache).0
  acquire-IsCut dir id r b k d f o =
      rw (acquire-miss s.cache dir id k d f, o)
        (miss-IsCut id r s.cache s.held sound.valid k d f (omega arith))

  -- The release of the last handle of an entry that was evicted or purged closes its reader.
  pub release_last :
      (closes : ℕ → Bool) (p : ℕ)
      → (s.cache.entry p).evicted ≡ true
      → count p s.held ≡ 1
      → ((release closes p s.cache).0.entry p).closed ≡ true
  unfolding release update
  release_last closes p e n = ground (arith, e, n, sound.valid.counted p)

  -- A Purge of ids that are all dead already returns without an error at once, although a reader of
  -- theirs that was in use when an earlier Purge timed out may be open still: its nil does not say
  -- what the comment of Purge says, that no handle of the ids exists.
  pub purge_again :
      (closes : ℕ → Bool) (ids : List ℕ)
      → s.cache.closed ≡ false
      → ((id : ℕ) → mem id ids ≡ true → mem id s.cache.dead ≡ true)
      → let r = purge closes ids s.cache in
        (r.1 ≡ finished (ok tt)) × ((p : ℕ) → r.0.entry p ≡ s.cache.entry p)
  unfolding wait_for
  purge_again closes ids k d =
      let (none_left, same) =
        purge_ids_dead ids [] s.cache (λ id p f. (sound.valid.mapped id p f).2) d in
      rw (purge_open s.cache closes ids k, none_left) (refl, same)
