-- ===== src/Segment/Cache/Branches.antt =====
-- internal/segment/cache.go, the branches of Acquire, Purge and Close.
use wisp_trace_db.Prelude.{ℕ, ◌≡◌, Bool, true, false, none, some, List, [], arith, map, ok, err}
use wisp_trace_db.Segment.Writer.{Dir}
use wisp_trace_db.Segment.Cache.{
  Cache, cache_closed, being_reclaimed, finished, mem, find_entry, open_light, hit, miss, acquire,
  purge, purge_ids, wait_for, close, detach_all,
}
use wisp_trace_db.Segment.Cache.Purging.{stop_all}

module _ (c : Cache) where
  pub acquire_closed :
      (dir : Dir) (id : ℕ) → c.closed ≡ true → acquire dir id c ≡ (c, err cache_closed)
  unfolding acquire
  acquire_closed dir id k = ground (arith, k)

  pub acquire_dead :
      (dir : Dir) (id : ℕ)
      → c.closed ≡ false
      → mem id c.dead ≡ true
      → acquire dir id c ≡ (c, err being_reclaimed)
  unfolding acquire
  acquire_dead dir id k d = ground (arith, k, d)

  pub acquire-hit :
      (dir : Dir) (id p : ℕ)
      → c.closed ≡ false
      → mem id c.dead ≡ false
      → find_entry id c.entries ≡ some p
      → acquire dir id c ≡ (hit p c, ok p)
  unfolding acquire
  acquire-hit dir id p k d f = ground (arith, k, d, f)

  pub acquire-miss :
      (dir : Dir) (id : ℕ)
      → c.closed ≡ false
      → mem id c.dead ≡ false
      → find_entry id c.entries ≡ none
      → acquire dir id c
        ≡ (elim (open_light dir id) [ err e ↦ (c, err e) | ok r ↦ (miss id r c, ok c.next) ])
  unfolding acquire
  acquire-miss dir id k d f = ground (arith, k, d, f)

  pub purge_closed :
      (closes : ℕ → Bool) (ids : List ℕ)
      → c.closed ≡ true
      → purge closes ids c ≡ (c, finished (ok tt))
  unfolding purge
  purge_closed closes ids k = ground (arith, k)

  pub purge_open :
      (closes : ℕ → Bool) (ids : List ℕ)
      → c.closed ≡ false
      → let (d, pending) = purge_ids ids [] c in
        purge closes ids c ≡ wait_for closes false pending d
  unfolding purge
  purge_open closes ids k = ground (arith, k)

  pub close_closed : (closes : ℕ → Bool) → c.closed ≡ true → close closes c ≡ (c, finished (ok tt))
  unfolding close
  close_closed closes k = ground (arith, k)

  pub close_open :
      (closes : ℕ → Bool)
      → c.closed ≡ false
      → let pending = map (λ x. x.1) c.entries in
        close closes c ≡ wait_for closes true pending (detach_all pending (stop_all c))
  unfolding close stop_all
  close_open closes k = ground (arith, k)
