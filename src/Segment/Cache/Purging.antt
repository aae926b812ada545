-- ===== src/Segment/Cache/Purging.antt =====
-- internal/segment/cache.go, Purge and Close up to the wait: which entries they detach.
use wisp_trace_db.Prelude.{
  ℕ, ◌<◌, ◌≡◌, refl, sym, inl, inr, true, false, none, some, List, [], ◌∷◌, ◌++◌, arith,
  if◌then◌else◌, Option-cases, All, All-append, append_assoc, append-nil,
}
use wisp_trace_db.Segment.Cache.{
  Cache, update, mem, find_entry, detach, is_mapped, purge_ids, detach_all,
}
use wisp_trace_db.Segment.Cache.Listing.{mem-append, find-delete}
use wisp_trace_db.Segment.Cache.System.{IsValid, Gone, detach-IsValid}
use wisp_trace_db.Segment.Cache.Later.{Later, Later-refl, Later-trans, detach-Later}
use wisp_trace_db.Segment.Cache.Waiting.{IsOut, Later-Out}

-- What Purge's loop over the ids has done when it is through.
pub record IsPurging (c : Cache) (held ids : List ℕ) (d : Cache) (pending : List ℕ) : Type 0 where
  pub valid : IsValid d held
  pub later : Later c d
  pub out : All (IsOut d) pending
  pub gone : Gone d
  pub dies : (id : ℕ) → mem id d.dead ≡ (if mem id ids then true else mem id c.dead)
  pub stops : d.closed ≡ c.closed
  pub covers :
      (p : ℕ)
      → mem (d.entry p).id ids ≡ true
      → mem (d.entry p).id c.dead ≡ false
      → (d.entry p).closed ≡ false
      → mem p pending ≡ true

bury : ℕ → Cache → Cache
bury id c = record c { dead = id ∷ c.dead }

bury-IsValid :
    (id : ℕ) (c : Cache) (held : List ℕ)
    → IsValid c held
    → find_entry id c.entries ≡ none
    → IsValid (bury id c) held
unfolding bury mem
bury-IsValid id c held h f = record {
  bounded = h.bounded;
  free = h.free;
  counted = h.counted;
  mapped = λ i q g. ground (arith, h.mapped i q g);
  found = h.found;
  listed = h.listed;
  detached = h.detached;
  idle = h.idle;
  ranged = h.ranged;
}

bury-Later : (id : ℕ) (c : Cache) → Later c (bury id c)
unfolding bury mem
bury-Later id c = record {
  grown = omega arith;
  same_id = λ q l. refl;
  stays_out = λ q l k. k;
  stays_shut = λ q l k. k;
  stays_dead = λ i k. ground arith;
  stopped = λ k. k;
  opened = λ q k. inl (k, refl);
}

find-detach :
    (id p : ℕ) (c : Cache) (held : List ℕ)
    → IsValid c held
    → find_entry id c.entries ≡ some p
    → find_entry id (detach p c).entries ≡ none
unfolding detach is_mapped
find-detach id p c held h f =
    ground (arith, f, h.mapped id p f, find-delete id (c.entry p).id c.entries)

-- One round of Purge's loop, for an id with an entry and for one without.
purge_one : ℕ → List ℕ → Cache → Cache × List ℕ
purge_one id pending c = elim (find_entry id c.entries) [
  | none ↦ (bury id c, pending)
  | some p ↦ (bury id (detach p c), pending ++ p ∷ [])
]

module _ (c : Cache) (held : List ℕ) where
  purge_one-IsPurging :
      (past : List ℕ) (id : ℕ) (d : Cache) (pending : List ℕ)
      → c.closed ≡ false
      → IsPurging c held past d pending
      → let r = purge_one id pending d in IsPurging c held (past ++ id ∷ []) r.0 r.1
  unfolding purge_one mem bury detach update
  purge_one-IsPurging past id d pending k h = elim (Option-cases (find_entry id d.entries)) [
    | inl e ↦
        rw (purge_one, e)
          (record {
            valid = bury-IsValid id d held h.valid e;
            later = Later-trans h.later (bury-Later id d);
            out = Later-Out d (bury id d) pending (bury-Later id d) h.out;
            gone = λ q. ground (arith, h.gone q);
            dies = λ i. ground (arith, h.dies i, mem-append i past (id ∷ []));
            stops = h.stops;
            covers = λ q. ground (
              arith,
              e,
              mem-append (d.entry q).id past (id ∷ []),
              h.dies (d.entry q).id,
              h.gone q,
              h.stops,
              k,
              h.valid.found q,
              h.covers q,
            );
          })
    | inr (p, e) ↦
        rw (purge_one, e)
          (record {
            valid =
                bury-IsValid id (detach p d) held (detach-IsValid p d held h.valid)
                  (find-detach id p d held h.valid e);
            later =
                Later-trans h.later (Later-trans (detach-Later p d) (bury-Later id (detach p d)));
            out =
                All-append (IsOut (bury id (detach p d))) pending (p ∷ [])
                  (Later-Out d (bury id (detach p d)) pending
                    (Later-trans (detach-Later p d) (bury-Later id (detach p d))) h.out)
                  (ground (arith, h.valid.free p, h.valid.mapped id p e), tt);
            gone = λ q. ground (arith, h.gone q, h.valid.mapped id p e);
            dies = λ i. ground (arith, h.dies i, mem-append i past (id ∷ []));
            stops = h.stops;
            covers = λ q. ground (
              arith,
              e,
              mem-append (d.entry q).id past (id ∷ []),
              h.dies (d.entry q).id,
              h.gone q,
              h.stops,
              k,
              h.valid.found q,
              h.covers q,
              mem-append q pending (p ∷ []),
            );
          })
  ]

  pub purge_ids-IsPurging :
      (past ids : List ℕ) (d : Cache) (pending : List ℕ)
      → c.closed ≡ false
      → IsPurging c held past d pending
      → let r = purge_ids ids pending d in IsPurging c held (past ++ ids) r.0 r.1
  unfolding purge_ids bury purge_one
  purge_ids-IsPurging past [] d pending k h = rw (append-nil past) h
  purge_ids-IsPurging past (id ∷ ids) d pending k h =
      let one = purge_one-IsPurging past id d pending k h in
      let all = append_assoc past (id ∷ []) ids in
      elim (Option-cases (find_entry id d.entries)) [
        | inl e ↦
            rw (purge_ids, e, sym all)
              (purge_ids-IsPurging (past ++ id ∷ []) ids (bury id d) pending k
                (rw (purge_one, e) at one))
        | inr (p, e) ↦
            rw (purge_ids, e, sym all)
              (purge_ids-IsPurging (past ++ id ∷ []) ids (bury id (detach p d)) (pending ++ p ∷ [])
                k (rw (purge_one, e) at one))
      ]

pub purge_ids_lem :
    (c : Cache) (held ids : List ℕ)
    → c.closed ≡ false
    → IsValid c held
    → Gone c
    → let r = purge_ids ids [] c in IsPurging c held ids r.0 r.1
unfolding mem
purge_ids_lem c held ids k h g = purge_ids-IsPurging c held [] ids c [] k (record {
  valid = h;
  later = Later-refl c;
  out = tt;
  gone = g;
  dies = λ id. refl;
  stops = refl;
  covers = λ p m. absurd cc;
})

-- Close, when it has set its flag.
unfoldable pub stop_all : Cache → Cache
stop_all c = record c { closed = true }

pub stop_all-IsValid : (c : Cache) (held : List ℕ) → IsValid c held → IsValid (stop_all c) held
unfolding stop_all
stop_all-IsValid c held h = record {
  bounded = h.bounded;
  free = h.free;
  counted = h.counted;
  mapped = h.mapped;
  found = h.found;
  listed = h.listed;
  detached = h.detached;
  idle = λ p k. absurd cc;
  ranged = h.ranged;
}

pub stop_all-Later : (c : Cache) → Later c (stop_all c)
unfolding stop_all
stop_all-Later c = record {
  grown = omega arith;
  same_id = λ q l. refl;
  stays_out = λ q l k. k;
  stays_shut = λ q l k. k;
  stays_dead = λ i k. k;
  stopped = λ k. refl;
  opened = λ q k. inl (k, refl);
}

pub record IsEmptied (c : Cache) (held pending : List ℕ) (d : Cache) : Type 0 where
  pub valid : IsValid d held
  pub later : Later c d
  pub out : All (IsOut d) pending
  pub stops : d.closed ≡ c.closed

pub detach_all-IsEmptied :
    (ps : List ℕ) (c : Cache) (held : List ℕ)
    → IsValid c held
    → All (λ p. p < c.next) ps
    → IsEmptied c held ps (detach_all ps c)
unfolding detach_all detach update
detach_all-IsEmptied [] c held h l = record {
  valid = h;
  later = Later-refl c;
  out = tt;
  stops = refl;
}
detach_all-IsEmptied (p ∷ ps) c held h l =
    let e = detach_all-IsEmptied ps (detach p c) held (detach-IsValid p c held h) l.1 in
    record {
      valid = e.valid;
      later = Later-trans (detach-Later p c) e.later;
      out = ((omega (arith, e.later.grown, l.0), e.later.stays_out p l.0 (ground arith)), e.out);
      stops = e.stops;
    }
