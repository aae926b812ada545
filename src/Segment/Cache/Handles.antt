-- ===== src/Segment/Cache/Handles.antt =====
-- internal/segment/cache.go, Release: the handles of the cache's readers and their pool.
use wisp_trace_db.Prelude.{
  ℕ, ◌+◌, ◌==◌, ◌≡◌, refl, ap, Bool, true, false, none, some, List, ◌∷◌, arith, get_elem?,
  if◌then◌else◌, Result, ok, err, Bool-cases, ◌⊎◌, inl, inr,
}
use wisp_trace_db.Segment.Reader.{Reader}
use wisp_trace_db.Segment.Cache.{Cache, CacheError, close_failed, without, release}

-- The entry of a cached reader, or a reader that is the handle's own.
pub data Target : Type 0 where
  cached : ℕ → Target
  direct : Reader → Target

-- Release
pub record Handle : Type 0 where
  pub target : Target
  pub fired : Bool

-- The handles by their addresses, of which those from `next` on are free, and releasePool.
pub record Handles : Type 0 where
  pub handle : ℕ → Handle
  pub next : ℕ
  pub pool : List ℕ

unfoldable pub put_handle : ℕ → Handle → Handles → Handles
put_handle r h hs = record hs { handle = λ q. if r == q then h else hs.handle q }

-- NewDirectRelease
unfoldable pub new_direct_release : Reader → Handles → Handles × ℕ
unfolding put_handle
new_direct_release reader hs =
    let hs' = put_handle hs.next (record { target = direct reader; fired = false }) hs in
    (record hs' { next = hs.next + 1 }, hs.next)

-- releaseHandle. A sync.Pool gives out any of its elements or makes a new one: the element at the
-- place `choice`, if there is one.
unfoldable pub release_handle : ℕ → ℕ → Handles → Handles × ℕ
unfolding put_handle without
release_handle choice p hs =
    let h : Handle = record { target = cached p; fired = false } in
    elim (get_elem? hs.pool choice) [
      | some r ↦ (record (put_handle r h hs) { pool = without r hs.pool }, r)
      | none ↦ (record (put_handle hs.next h hs) { next = hs.next + 1 }, hs.next)
    ]

-- Release.Release. `closes` says of which entries the reader's Close succeeds, `direct_ok` whether
-- it does for the handle's own reader.
unfoldable pub release_by :
    (ℕ → Bool)
    → (direct_ok : Bool) → ℕ
    → Cache × Handles
    → (Cache × Handles) × Result CacheError Unit
unfolding put_handle release
release_by closes direct_ok r (c, hs) =
    let h = hs.handle r in
    let fired = put_handle r (record h { fired = true }) hs in
    if h.fired then ((c, hs), ok tt) else elim h.target [
      | direct reader ↦ ((c, fired), if direct_ok then ok tt else err close_failed)
      | cached p ↦
          let (c', result) = release closes p c in
          ((c', record fired { pool = r ∷ hs.pool }), result)
    ]

Target-cases : (t : Target) → ((p : ℕ) × (t ≡ cached p)) ⊎ ((reader : Reader) × (t ≡ direct reader))
Target-cases (cached p) = inl (p, refl)
Target-cases (direct reader) = inr (reader, refl)

module _ (closes : ℕ → Bool) (direct_ok : Bool) where
  release_by_fired :
      (r : ℕ) (s : Cache × Handles)
      → (s.1.handle r).fired ≡ true
      → release_by closes direct_ok r s ≡ (s, ok tt)
  unfolding release_by
  release_by_fired r (c, hs) f = ground (arith, f)

  release_by_fires :
      (r : ℕ) (s : Cache × Handles) → ((release_by closes direct_ok r s).0.1.handle r).fired ≡ true
  unfolding release_by put_handle
  release_by_fires r (c, hs) = elim (Bool-cases (hs.handle r).fired) [
    | inl f ↦ ground (arith, f)
    | inr f ↦ elim (Target-cases (hs.handle r).target) [
      | inl (p, t) ↦ ground (arith, f, t)
      | inr (d, t) ↦ ground (arith, f, t)
    ]
  ]

  -- The second of two calls of Release on a handle, with nothing between them, changes nothing and
  -- returns no error.
  pub release_by_twice :
      (r : ℕ) (s : Cache × Handles)
      → let first = release_by closes direct_ok r s in
        release_by closes direct_ok r first.0 ≡ (first.0, ok tt)
  release_by_twice r s =
      release_by_fired r (release_by closes direct_ok r s).0 (release_by_fires r s)

  -- The owner of a handle on the entry `e` calls Release, the pool gives the handle out again for the
  -- entry `p`, and the first owner calls Release once more: that call releases `p`, which the second
  -- owner has not released, and is not the no-op that the comments of Acquire and Release promise.
  pub release_by-release_handle :
      (r e p : ℕ) (c : Cache) (hs : Handles)
      → (hs.handle r).target ≡ cached e
      → (hs.handle r).fired ≡ false
      → let first = release_by closes direct_ok r (c, hs) in
        let given = release_handle 0 p first.0.1 in
        let again = release_by closes direct_ok r (first.0.0, given.0) in
        (first.0.0 ≡ (release closes e c).0)
        × (given.1 ≡ r)
        × (again.0.0 ≡ (release closes p first.0.0).0)
  unfolding release_by put_handle release_handle
  release_by-release_handle r e p c hs t f =
      let after : Target → (Cache × Handles) × Result CacheError Unit = λ x. (
        (
          (release closes e c).0,
          record (put_handle r (record { target = x; fired = true }) hs) { pool = r ∷ hs.pool },
        ),
        (release closes e c).1,
      ) in
      let released : release_by closes direct_ok r (c, hs) ≡ after (cached e) =
        rw (release_by, f, t) (ap after t) in
      rw released (refl, refl, ground arith)
