-- ===== src/Segment/Cache/System.antt =====
-- internal/segment/cache.go, what holds between two calls of the cache's methods, and that the parts of
-- the methods keep it. `held` are the entries of the handles that are not released.
use wisp_trace_db.Prelude.{
  ℕ, ◌+◌, ◌<◌, ◌≤◌, ◌^◌, ◌==◌, ◌≡◌, Bool, true, false, none, some, List, [], ◌∷◌, ◌++◌, arith,
  length, length-append, Option-cases, Bool-cases, All, All-keep, not, inl, inr,
}
use wisp_trace_db.Segment.Reader.{Reader}
use wisp_trace_db.Segment.Cache.{
  Cache, update, mem, find_entry, delete_entry, is_mapped, detach, close_entry, hit, push_front,
  drop_ref,
}
use wisp_trace_db.Segment.Cache.Listing.{count, mem-without, find-delete, count-middle, count_le}

-- A free address, which has no entry yet, reads as a closed one.
abbrev pub Free : Cache → Type 0
Free c = (p : ℕ) → c.next ≤ p → ((c.entry p).evicted ≡ true) × ((c.entry p).closed ≡ true)

abbrev pub Counted : Cache → List ℕ → Type 0
Counted c held = (p : ℕ) → (c.entry p).refs ≡ count p held

-- An entry of the map.
abbrev pub Mapped : Cache → Type 0
Mapped c =
    (id p : ℕ)
    → find_entry id c.entries ≡ some p
    → ((c.entry p).id ≡ id) × ((c.entry p).evicted ≡ false) × (mem id c.dead ≡ false)

abbrev pub Found : Cache → Type 0
Found c =
    (p : ℕ)
    → (c.entry p).evicted ≡ false
    → (find_entry (c.entry p).id c.entries ≡ some p) × (mem p c.lru ≡ true)

abbrev pub Listed : Cache → Type 0
Listed c = (p : ℕ) → mem p c.lru ≡ true → (c.entry p).evicted ≡ false

abbrev pub Detached : Cache → Type 0
Detached c = (p : ℕ) → (c.entry p).closed ≡ true → (c.entry p).evicted ≡ true

-- Before the cache itself is closed, no reader is closed that is in use.
abbrev pub Idle : Cache → Type 0
Idle c = (p : ℕ) → c.closed ≡ false → (c.entry p).closed ≡ true → (c.entry p).refs ≡ 0

-- An open entry out of the map has a dead id: between two calls, not inside evictOverflowLocked.
abbrev pub Gone : Cache → Type 0
Gone c =
    (p : ℕ)
    → c.closed ≡ false
    → (c.entry p).evicted ≡ true
    → (c.entry p).closed ≡ false
    → mem (c.entry p).id c.dead ≡ true

-- Every address in the map is in use.
abbrev pub Ranged : ℕ → List (ℕ × ℕ) → Type 0
Ranged n m = All (λ x. x.1 < n) m

Ranged-suc : (n : ℕ) (m : List (ℕ × ℕ)) → Ranged n m → Ranged (n + 1) m
Ranged-suc n [] h = tt
Ranged-suc n (x ∷ m) h = (omega (arith, h.0), Ranged-suc n m h.1)

Ranged-delete : (n id : ℕ) (m : List (ℕ × ℕ)) → Ranged n m → Ranged n (delete_entry id m)
unfolding delete_entry
Ranged-delete n id m h = All-keep (λ x. x.1 < n) (λ x. not (x.0 == id)) m h

pub record IsValid (c : Cache) (held : List ℕ) : Type 0 where
  pub bounded : length held < 2 ^ 64
  pub free : Free c
  pub counted : Counted c held
  pub mapped : Mapped c
  pub found : Found c
  pub listed : Listed c
  pub detached : Detached c
  pub idle : Idle c
  pub ranged : Ranged c.next c.entries

module _ (p : ℕ) (c : Cache) (held : List ℕ) (h : IsValid c held) where
  pub detach-IsValid : IsValid (detach p c) held
  unfolding detach update is_mapped
  detach-IsValid = record {
    bounded = h.bounded;
    free = λ q. ground (arith, h.free q);
    counted = λ q. ground (arith, h.counted q);
    mapped = λ id q.
        let cut = find-delete id (c.entry p).id c.entries in
        elim (Option-cases (find_entry (c.entry p).id c.entries)) [
          | inl e ↦ rw (e, is_mapped) λ f. ground (arith, e, h.mapped id q f)
          | inr (r, e) ↦ rw (e, is_mapped) λ f. ground (arith, e, cut, h.mapped id q)
        ];
    found = λ q.
        let cut = find-delete (c.entry q).id (c.entry p).id c.entries in
        let out = mem-without q p c.lru in
        elim (Option-cases (find_entry (c.entry p).id c.entries)) [
          | inl e ↦ rw (e, is_mapped) (ground (arith, out, h.found q))
          | inr (r, e) ↦
              rw (e, is_mapped)
                (ground (arith, e, cut, out, h.found q, h.mapped (c.entry p).id r e))
        ];
    listed = λ q. ground (arith, mem-without q p c.lru, h.listed q);
    detached = λ q. ground (arith, h.detached q);
    idle = λ q. ground (arith, h.idle q);
    ranged = elim (Bool-cases (is_mapped (find_entry (c.entry p).id c.entries) p)) [
      | inl e ↦ rw e (Ranged-delete c.next (c.entry p).id c.entries h.ranged)
      | inr e ↦ rw e h.ranged
    ];
  }

  pub close_entry-IsValid :
      (closes : ℕ → Bool)
      → (c.entry p).evicted ≡ true
      → (c.closed ≡ false → (c.entry p).refs ≡ 0)
      → IsValid (close_entry closes p c).0 held
  unfolding close_entry update
  close_entry-IsValid closes e r = elim (Bool-cases (c.entry p).closed) [
    | inl k ↦ rw (close_entry, k) h
    | inr k ↦
        rw (close_entry, k)
          (record {
            bounded = h.bounded;
            free = λ q. ground (arith, h.free q);
            counted = λ q. ground (arith, h.counted q);
            mapped = λ id q f. ground (arith, e, h.mapped id q f);
            found = λ q. ground (arith, h.found q);
            listed = λ q. ground (arith, h.listed q);
            detached = λ q. ground (arith, e, h.detached q);
            idle = λ q. ground (arith, r, h.idle q);
            ranged = h.ranged;
          })
  ]

  pub hit-IsValid :
      (id : ℕ)
      → find_entry id c.entries ≡ some p
      → length (p ∷ held) < 2 ^ 64
      → IsValid (hit p c) (p ∷ held)
  unfolding hit update count mem
  hit-IsValid id f b = record {
    bounded = b;
    free = λ q. ground (arith, h.free q);
    counted = λ q. ground (arith, h.counted q, count_le q held);
    mapped = λ i q g. ground (arith, h.mapped i q g);
    found = λ q. ground (arith, mem-without q p c.lru, h.found q);
    listed = λ q. ground (arith, mem-without q p c.lru, h.listed q, h.mapped id p f);
    detached = λ q. ground (arith, h.detached q);
    idle = λ q. ground (arith, h.mapped id p f, h.detached p, h.idle q);
    ranged = h.ranged;
  }

module _ (id : ℕ) (r : Reader) (c : Cache) (held : List ℕ) (h : IsValid c held) where
  pub push_front-IsValid :
      c.closed ≡ false
      → mem id c.dead ≡ false
      → find_entry id c.entries ≡ none
      → length (c.next ∷ held) < 2 ^ 64
      → IsValid (push_front id r c) (c.next ∷ held)
  unfolding push_front update find_entry count mem
  push_front-IsValid k d f b = record {
    bounded = b;
    free = λ q. ground (arith, h.free q);
    counted = λ q. ground (arith, k, h.counted q, h.free c.next, h.idle c.next k);
    mapped = λ i q g. ground (arith, find-delete i id c.entries, d, h.mapped i q, h.free c.next);
    found = λ q. ground (arith, find-delete (c.entry q).id id c.entries, f, h.found q);
    listed = λ q. ground (arith, h.listed q);
    detached = λ q. ground (arith, h.detached q);
    idle = λ q. ground (arith, h.idle q);
    ranged = (
      omega arith,
      Ranged-suc c.next (delete_entry id c.entries) (Ranged-delete c.next id c.entries h.ranged),
    );
  }

-- The entry's reference goes, before it is closed.
abbrev pub released : ℕ → Cache → Cache
released p c = record c { entry = update c.entry p (drop_ref (c.entry p)) }

pub released-IsValid :
    (p : ℕ) (c : Cache) (front back : List ℕ)
    → IsValid c (front ++ p ∷ back)
    → IsValid (released p c) (front ++ back)
unfolding update
released-IsValid p c front back h = record {
  bounded = omega (arith, h.bounded, length-append front (p ∷ back), length-append front back);
  free = λ q. ground (arith, h.free q);
  counted = λ q.
      ground (
        arith,
        h.counted q,
        count-middle q p front back,
        count_le q (front ++ p ∷ back),
        h.bounded,
      );
  mapped = λ i q g. ground (arith, h.mapped i q g);
  found = λ q. ground (arith, h.found q);
  listed = λ q. ground (arith, h.listed q);
  detached = λ q. ground (arith, h.detached q);
  idle = λ q. ground (arith, h.idle q, h.counted p, count-middle p p front back);
  ranged = h.ranged;
}
