-- ===== src/Segment/Cache/Later.antt =====
-- internal/segment/cache.go, what no method of the cache takes back: an entry that is detached or closed,
-- and an id that is dead.
use wisp_trace_db.Prelude.{
  ℕ, ◌<◌, ◌≤◌, ◌==◌, ◌≡◌, refl, ◌⊎◌, inl, inr, Bool, true, false, arith, Bool-cases,
}
use wisp_trace_db.Segment.Reader.{Reader}
use wisp_trace_db.Segment.Cache.{Cache, update, mem, detach, close_entry, hit, push_front}
use wisp_trace_db.Segment.Cache.System.{released}

pub record Later (c d : Cache) : Type 0 where
  pub grown : c.next ≤ d.next
  pub same_id : (p : ℕ) → p < c.next → (d.entry p).id ≡ (c.entry p).id
  pub stays_out : (p : ℕ) → p < c.next → (c.entry p).evicted ≡ true → (d.entry p).evicted ≡ true
  pub stays_shut : (p : ℕ) → p < c.next → (c.entry p).closed ≡ true → (d.entry p).closed ≡ true
  pub stays_dead : (id : ℕ) → mem id c.dead ≡ true → mem id d.dead ≡ true
  pub stopped : c.closed ≡ true → d.closed ≡ true
  -- An open entry was open before, or is one of a living id.
  pub opened :
      (p : ℕ)
      → (d.entry p).closed ≡ false
      → (((c.entry p).closed ≡ false) × ((d.entry p).id ≡ (c.entry p).id))
        ⊎ (mem (d.entry p).id c.dead ≡ false)

pub Later-refl : (c : Cache) → Later c c
Later-refl c = record {
  grown = omega arith;
  same_id = λ p l. refl;
  stays_out = λ p l k. k;
  stays_shut = λ p l k. k;
  stays_dead = λ id k. k;
  stopped = λ k. k;
  opened = λ p k. inl (k, refl);
}

pub Later-trans : {c d e : Cache} → Later c d → Later d e → Later c e
Later-trans {c} {d} {e} g h = record {
  grown = omega (arith, g.grown, h.grown);
  same_id = λ p l. ground (arith, g.same_id p l, g.grown, h.same_id p);
  stays_out = λ p l k. ground (arith, g.stays_out p l k, g.grown, h.stays_out p);
  stays_shut = λ p l k. ground (arith, g.stays_shut p l k, g.grown, h.stays_shut p);
  stays_dead = λ id k. h.stays_dead id (g.stays_dead id k);
  stopped = λ k. h.stopped (g.stopped k);
  opened = λ p k. elim (h.opened p k) [
    | inr alive ↦ elim (Bool-cases (mem (e.entry p).id c.dead)) [
      | inl dead ↦ absurd (ground (arith, g.stays_dead (e.entry p).id dead))
      | inr alive ↦ inr alive
    ]
    | inl (k', i) ↦ elim (g.opened p k') [
      | inl (k'', j) ↦ inl (k'', ground arith)
      | inr alive ↦ inr (ground arith)
    ]
  ];
}

pub detach-Later : (p : ℕ) (c : Cache) → Later c (detach p c)
unfolding detach update
detach-Later p c = record {
  grown = omega arith;
  same_id = λ q l. ground arith;
  stays_out = λ q l k. ground arith;
  stays_shut = λ q l k. ground arith;
  stays_dead = λ id k. k;
  stopped = λ k. k;
  opened = λ q k. inl (ground arith);
}

pub close_entry-Later : (closes : ℕ → Bool) (p : ℕ) (c : Cache) → Later c (close_entry closes p c).0
unfolding close_entry update
close_entry-Later closes p c = elim (Bool-cases (c.entry p).closed) [
  | inl k ↦ rw (close_entry, k) (Later-refl c)
  | inr k ↦
      rw (close_entry, k)
        (record {
          grown = omega arith;
          same_id = λ q l. ground arith;
          stays_out = λ q l e. ground arith;
          stays_shut = λ q l e. ground arith;
          stays_dead = λ id e. e;
          stopped = λ e. e;
          opened = λ q e. inl (ground arith);
        })
]

pub hit-Later : (p : ℕ) (c : Cache) → Later c (hit p c)
unfolding hit update
hit-Later p c = record {
  grown = omega arith;
  same_id = λ q l. ground arith;
  stays_out = λ q l k. ground arith;
  stays_shut = λ q l k. ground arith;
  stays_dead = λ id k. k;
  stopped = λ k. k;
  opened = λ q k. inl (ground arith);
}

pub released-Later : (p : ℕ) (c : Cache) → Later c (released p c)
unfolding update
released-Later p c = record {
  grown = omega arith;
  same_id = λ q l. ground arith;
  stays_out = λ q l k. ground arith;
  stays_shut = λ q l k. ground arith;
  stays_dead = λ id k. k;
  stopped = λ k. k;
  opened = λ q k. inl (ground arith);
}

pub push_front-Later :
    (id : ℕ) (r : Reader) (c : Cache) → mem id c.dead ≡ false → Later c (push_front id r c)
unfolding push_front update
push_front-Later id r c d = record {
  grown = omega arith;
  same_id = λ q l. ground arith;
  stays_out = λ q l k. ground arith;
  stays_shut = λ q l k. ground arith;
  stays_dead = λ id k. k;
  stopped = λ k. k;
  opened = λ q. elim (Bool-cases (c.next == q)) [
    | inl e ↦ rw e λ k. inr d
    | inr e ↦ rw e λ k. inl (k, refl)
  ];
}
