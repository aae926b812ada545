-- ===== src/Segment/Cache/Eviction.antt =====
-- internal/segment/cache.go, evictOverflowLocked: which entries leave the cache to make room.
use wisp_trace_db.Prelude.{
  ℕ, zero, suc, ◌<◌, ◌≤◌, ◌≡◌, ◌≢◌, ◌⊎◌, inl, inr, true, false, none, some, List, ◌^◌, [], ◌∷◌,
  arith, length, ltb, Option-cases, Bool-cases,
}
use wisp_trace_db.Segment.Reader.{Reader}
use wisp_trace_db.Segment.Cache.{
  Entry, Cache, update, mem, find_entry, is_mapped, detach, close_entry, push_front, victim,
  evict_overflow, miss,
}
use wisp_trace_db.Segment.Cache.Listing.{length-delete_entry}
use wisp_trace_db.Segment.Cache.System.{
  IsValid, Gone, detach-IsValid, close_entry-IsValid, push_front-IsValid,
}
use wisp_trace_db.Segment.Cache.Later.{
  Later, Later-refl, Later-trans, detach-Later, close_entry-Later, push_front-Later,
}

victim_idle :
    (entry : ℕ → Entry) (p : ℕ) (ps : List ℕ)
    → victim entry ps ≡ some p
    → ((entry p).refs ≡ 0) × (mem p ps ≡ true)
unfolding victim mem
victim_idle entry p [] e = absurd cc
victim_idle entry p (q ∷ ps) e = elim (Option-cases (victim entry ps)) [
  | inl n ↦ ground (arith, n)
  | inr (r, n) ↦ ground (arith, n, victim_idle entry r ps n)
]

victim-none :
    (entry : ℕ → Entry) (p : ℕ) (ps : List ℕ)
    → victim entry ps ≡ none
    → mem p ps ≡ true
    → (entry p).refs ≢ 0
unfolding victim mem
victim-none entry p [] e m = absurd cc
victim-none entry p (q ∷ ps) e m = elim (Option-cases (victim entry ps)) [
  | inl n ↦ ground (arith, n, victim-none entry p ps n)
  | inr (r, n) ↦ ground (arith, n)
]

-- One round of the loop.
abbrev drop_one : ℕ → Cache → Cache
drop_one p c = (close_entry (λ _. true) p (detach p c)).0

module _ (p : ℕ) (c : Cache) (held : List ℕ) (h : IsValid c held) where
  drop_one-IsValid : (c.entry p).refs ≡ 0 → IsValid (drop_one p c) held
  unfolding detach update
  drop_one-IsValid r =
      close_entry-IsValid p (detach p c) held (detach-IsValid p c held h) (λ _. true) (ground arith)
        (ground arith)

  drop_one-Later : Later c (drop_one p c)
  drop_one-Later = Later-trans (detach-Later p c) (close_entry-Later (λ _. true) p (detach p c))

  drop_one_shorter : mem p c.lru ≡ true → length (drop_one p c).entries < length c.entries
  unfolding detach close_entry is_mapped
  drop_one_shorter m =
      let f = (h.found p (h.listed p m)).0 in
      ground (arith, f, length-delete_entry (c.entry p).id p c.entries f)

  drop_one-Gone : Gone c → Gone (drop_one p c)
  unfolding detach close_entry update
  drop_one-Gone g = λ q. ground (arith, g q)

  drop_one_max : (drop_one p c).max_entries ≡ c.max_entries
  unfolding detach close_entry
  drop_one_max = ground arith

-- Either the cache is within its size, or every entry on its list is in use.
abbrev pub IsCut : Cache → Type 0
IsCut c = (length c.entries ≤ c.max_entries) ⊎ ((p : ℕ) → mem p c.lru ≡ true → (c.entry p).refs ≢ 0)

pub evict-IsValid :
    (fuel : ℕ) (c : Cache) (held : List ℕ) → IsValid c held → IsValid (evict_overflow fuel c) held
unfolding evict_overflow
evict-IsValid zero c held h = h
evict-IsValid (suc fuel) c held h = elim (Bool-cases (ltb c.max_entries (length c.entries))) [
  | inr e ↦ rw (evict_overflow, e) h
  | inl e ↦ elim (Option-cases (victim c.entry c.lru)) [
    | inl n ↦ rw (evict_overflow, e, n) h
    | inr (p, n) ↦
        let (r, m) = victim_idle c.entry p c.lru n in
        rw (evict_overflow, e, n)
          (evict-IsValid fuel (drop_one p c) held (drop_one-IsValid p c held h r))
  ]
]

pub evict-Later :
    (fuel : ℕ) (c : Cache) (held : List ℕ) → IsValid c held → Later c (evict_overflow fuel c)
unfolding evict_overflow
evict-Later zero c held h = Later-refl c
evict-Later (suc fuel) c held h = elim (Bool-cases (ltb c.max_entries (length c.entries))) [
  | inr e ↦ rw (evict_overflow, e) (Later-refl c)
  | inl e ↦ elim (Option-cases (victim c.entry c.lru)) [
    | inl n ↦ rw (evict_overflow, e, n) (Later-refl c)
    | inr (p, n) ↦
        let (r, m) = victim_idle c.entry p c.lru n in
        rw (evict_overflow, e, n)
          (Later-trans (drop_one-Later p c held h)
            (evict-Later fuel (drop_one p c) held (drop_one-IsValid p c held h r)))
  ]
]

pub evict-Gone :
    (fuel : ℕ) (c : Cache) (held : List ℕ) → IsValid c held → Gone c → Gone (evict_overflow fuel c)
unfolding evict_overflow
evict-Gone zero c held h g = g
evict-Gone (suc fuel) c held h g = elim (Bool-cases (ltb c.max_entries (length c.entries))) [
  | inr e ↦ rw (evict_overflow, e) g
  | inl e ↦ elim (Option-cases (victim c.entry c.lru)) [
    | inl n ↦ rw (evict_overflow, e, n) g
    | inr (p, n) ↦
        let (r, m) = victim_idle c.entry p c.lru n in
        rw (evict_overflow, e, n)
          (evict-Gone fuel (drop_one p c) held (drop_one-IsValid p c held h r)
            (drop_one-Gone p c held h g))
  ]
]

evict-IsCut :
    (fuel : ℕ) (c : Cache) (held : List ℕ)
    → IsValid c held
    → length c.entries ≤ fuel
    → IsCut (evict_overflow fuel c)
unfolding evict_overflow
evict-IsCut zero c held h l = inl (omega arith)
evict-IsCut (suc fuel) c held h l = elim (Bool-cases (ltb c.max_entries (length c.entries))) [
  | inr e ↦ rw (evict_overflow, e) (inl (ground arith))
  | inl e ↦ elim (Option-cases (victim c.entry c.lru)) [
    | inl n ↦ rw (evict_overflow, e, n) (inr λ p. victim-none c.entry p c.lru n)
    | inr (p, n) ↦
        let (r, m) = victim_idle c.entry p c.lru n in
        rw (evict_overflow, e, n)
          (evict-IsCut fuel (drop_one p c) held (drop_one-IsValid p c held h r)
            (omega (arith, drop_one_shorter p c held h m)))
  ]
]

module _ (id : ℕ) (r : Reader) (c : Cache) (held : List ℕ) (h : IsValid c held) where
  pub miss-IsValid :
      c.closed ≡ false
      → mem id c.dead ≡ false
      → find_entry id c.entries ≡ none
      → length (c.next ∷ held) < 2 ^ 64
      → IsValid (miss id r c) (c.next ∷ held)
  unfolding miss
  miss-IsValid k d f b =
      evict-IsValid (length (push_front id r c).entries) (push_front id r c) (c.next ∷ held)
        (push_front-IsValid id r c held h k d f b)

  pub miss-Later :
      c.closed ≡ false
      → mem id c.dead ≡ false
      → find_entry id c.entries ≡ none
      → length (c.next ∷ held) < 2 ^ 64
      → Later c (miss id r c)
  unfolding miss
  miss-Later k d f b = Later-trans (push_front-Later id r c d) (
      evict-Later (length (push_front id r c).entries) (push_front id r c) (c.next ∷ held)
        (push_front-IsValid id r c held h k d f b))

  pub miss-Gone :
      c.closed ≡ false
      → mem id c.dead ≡ false
      → find_entry id c.entries ≡ none
      → length (c.next ∷ held) < 2 ^ 64
      → Gone c
      → Gone (miss id r c)
  unfolding miss push_front update
  miss-Gone k d f b g =
      evict-Gone (length (push_front id r c).entries) (push_front id r c) (c.next ∷ held)
        (push_front-IsValid id r c held h k d f b) (λ q. ground (arith, g q))

  -- A miss leaves the cache within its size, unless every reader on its list is in use.
  pub miss-IsCut :
      c.closed ≡ false
      → mem id c.dead ≡ false
      → find_entry id c.entries ≡ none
      → length (c.next ∷ held) < 2 ^ 64
      → IsCut (miss id r c)
  unfolding miss
  miss-IsCut k d f b =
      evict-IsCut (length (push_front id r c).entries) (push_front id r c) (c.next ∷ held)
        (push_front-IsValid id r c held h k d f b) (omega arith)
