-- ===== src/Segment/Cache/Waiting.antt =====
-- internal/segment/cache.go, Purge, Close and waitAndCloseLocked: what a round of the wait does to the
-- pending entries.
use wisp_trace_db.Prelude.{
  ℕ, ◌<◌, ◌==◌, ◌≡◌, refl, ◌∙◌, ◌≢◌, inl, inr, Bool, true, false, List, [], ◌∷◌, arith, Bool-cases,
  Result, ok, err, All,
}
use wisp_trace_db.Segment.Cache.{
  Cache, CacheError, Outcome, finished, waits, update, mem, close_entry, first_error, close_idle,
  close_all, after_sweep, wait_round, wait_for,
}
use wisp_trace_db.Segment.Cache.System.{IsValid, Gone, close_entry-IsValid}
use wisp_trace_db.Segment.Cache.Later.{Later, Later-refl, Later-trans, close_entry-Later}

-- The entry is out of the map, and its address is in use.
abbrev pub IsOut : Cache → ℕ → Type 0
IsOut c p = (p < c.next) × ((c.entry p).evicted ≡ true)

pub Later-Out : (c d : Cache) (ps : List ℕ) → Later c d → All (IsOut c) ps → All (IsOut d) ps
Later-Out c d [] l h = tt
Later-Out c d (p ∷ ps) l h =
    ((omega (arith, l.grown, h.0.0), l.stays_out p h.0.0 h.0.1), Later-Out c d ps l h.1)

closed_after :
    (closes : ℕ → Bool) (p : ℕ) (c : Cache) → ((close_entry closes p c).0.entry p).closed ≡ true
unfolding close_entry update
closed_after closes p c = ground arith

pub close_stops :
    (closes : ℕ → Bool) (p : ℕ) (c : Cache) → (close_entry closes p c).0.closed ≡ c.closed
unfolding close_entry
close_stops closes p c = ground arith

pub close_entry-Gone :
    (closes : ℕ → Bool) (p : ℕ) (c : Cache) → Gone c → Gone (close_entry closes p c).0
unfolding close_entry update
close_entry-Gone closes p c g = λ q. ground (arith, g q)

pub close_refs :
    (closes : ℕ → Bool) (p q : ℕ) (c : Cache)
    → ((close_entry closes p c).0.entry q).refs ≡ (c.entry q).refs
unfolding close_entry update
close_refs closes p q c = ground arith

-- What the loop over the pending entries has done when it is through.
pub record IsSwept (c : Cache) (held pending : List ℕ) (d : Cache) (rest : List ℕ) : Type 0 where
  pub valid : IsValid d held
  pub later : Later c d
  pub out : All (IsOut d) rest
  pub refs : (p : ℕ) → (d.entry p).refs ≡ (c.entry p).refs
  pub stops : d.closed ≡ c.closed
  pub gone : Gone c → Gone d
  pub left : (p : ℕ) → mem p rest ≡ true → (d.entry p).refs ≢ 0
  pub done : (p : ℕ) → mem p pending ≡ true → mem p rest ≡ false → (d.entry p).closed ≡ true

pub close_idle-IsSwept :
    (closes : ℕ → Bool) (ps : List ℕ) (first : Result CacheError Unit) (c : Cache) (held : List ℕ)
    → IsValid c held
    → All (IsOut c) ps
    → let r = close_idle closes ps first c in IsSwept c held ps r.0 r.2
unfolding close_idle mem
close_idle-IsSwept closes [] first c held h o = record {
  valid = h;
  later = Later-refl c;
  out = tt;
  refs = λ p. refl;
  stops = refl;
  gone = λ g. g;
  left = λ p m. absurd cc;
  done = λ p m n. absurd cc;
}
close_idle-IsSwept closes (p ∷ ps) first c held h o = elim (Bool-cases ((c.entry p).refs == 0)) [
  | inl e ↦
      let d = (close_entry closes p c).0 in
      let l = close_entry-Later closes p c in
      let v = close_entry-IsValid p c held h closes o.0.1 (λ k. ground arith) in
      let s =
        close_idle-IsSwept closes ps (first_error first (close_entry closes p c).1) d held v
          (Later-Out c d ps l o.1) in
      rw (close_idle, e)
        (record {
          valid = s.valid;
          later = Later-trans l s.later;
          out = s.out;
          refs = λ q. s.refs q ∙ close_refs closes p q c;
          stops = s.stops ∙ close_stops closes p c;
          gone = λ g. s.gone (close_entry-Gone closes p c g);
          left = s.left;
          done = λ q m n. elim (Bool-cases (p == q)) [
            | inl same ↦ ground (arith, l.grown, s.later.stays_shut p, closed_after closes p c)
            | inr other ↦ ground (arith, s.done q)
          ];
        })
  | inr e ↦
      let s = close_idle-IsSwept closes ps first c held h o.1 in
      rw (close_idle, e)
        (record {
          valid = s.valid;
          later = s.later;
          out = ((omega (arith, s.later.grown, o.0.0), s.later.stays_out p o.0.0 o.0.1), s.out);
          refs = s.refs;
          stops = s.stops;
          gone = s.gone;
          left = λ q m. ground (arith, s.left q, s.refs q);
          done = λ q m n. ground (arith, s.done q);
        })
]

pub close_all-IsValid :
    (closes : ℕ → Bool) (ps : List ℕ) (first : Result CacheError Unit) (c : Cache) (held : List ℕ)
    → IsValid c held
    → All (IsOut c) ps
    → c.closed ≡ true
    → let d = (close_all closes ps first c).0 in IsValid d held × Later c d
unfolding close_all
close_all-IsValid closes [] first c held h o k = (h, Later-refl c)
close_all-IsValid closes (p ∷ ps) first c held h o k =
    let d = (close_entry closes p c).0 in
    let l = close_entry-Later closes p c in
    let v = close_entry-IsValid p c held h closes o.0.1 (λ n. absurd cc) in
    let s =
      close_all-IsValid closes ps (first_error first (close_entry closes p c).1) d held v
        (Later-Out c d ps l o.1) (close_stops closes p c ∙ k) in
    (s.0, Later-trans l s.1)

-- What a round of the wait promises of the entries it waited for, by how it ends.
abbrev pub Promises : Bool → List ℕ → Cache → Outcome → Type 0
Promises force pending d (finished (ok u)) =
    force ≡ false → (p : ℕ) → mem p pending ≡ true → (d.entry p).closed ≡ true
Promises force pending d (finished (err e)) = Unit
Promises force pending d (waits ps first) =
    All (IsOut d) ps
    × ((p : ℕ) → mem p pending ≡ true → (d.entry p).closed ≡ false → mem p ps ≡ true)

pub record IsRound (c : Cache) (held : List ℕ) (force : Bool) (pending : List ℕ)
    (r : Cache × Outcome) : Type 0 where
  pub valid : IsValid r.0 held
  pub later : Later c r.0
  pub gone : Gone r.0
  pub promise : Promises force pending r.0 r.1

forced :
    (pending : List ℕ) (d : Cache) (r : Result CacheError Unit)
    → Promises true pending d (finished r)
forced pending d (ok u) = λ e. absurd cc
forced pending d (err e) = tt

swept :
    (pending : List ℕ) (d : Cache) (r : Result CacheError Unit) (force : Bool)
    → ((p : ℕ) → mem p pending ≡ true → (d.entry p).closed ≡ true)
    → Promises force pending d (finished r)
swept pending d (ok u) force h = λ e. h
swept pending d (err e) force h = tt

module _ (closes : ℕ → Bool) (held pending : List ℕ) (c d : Cache) (g : Gone c) where
  after_sweep-IsRound :
      (force timed_out : Bool) (rest : List ℕ) (first : Result CacheError Unit)
      → IsSwept c held pending d rest
      → (force ≡ true → c.closed ≡ true)
      → IsRound c held force pending (after_sweep closes force timed_out rest first d)
  unfolding after_sweep mem
  after_sweep-IsRound force timed_out [] first s k = record {
    valid = s.valid;
    later = s.later;
    gone = s.gone g;
    promise = swept pending d first force λ p m. s.done p m refl;
  }
  after_sweep-IsRound force false (p ∷ ps) first s k = record {
    valid = s.valid;
    later = s.later;
    gone = s.gone g;
    promise = (
      s.out,
      λ q m n. elim (Bool-cases (mem q (p ∷ ps))) [
        | inl e ↦ e
        | inr e ↦ absurd (ground (arith, s.done q m e))
      ],
    );
  }
  after_sweep-IsRound false true (p ∷ ps) first s k = record {
    valid = s.valid;
    later = s.later;
    gone = s.gone g;
    promise = tt;
  }
  after_sweep-IsRound true true (p ∷ ps) first s k =
      let stopped : d.closed ≡ true = s.stops ∙ k refl in
      let all = close_all-IsValid closes (p ∷ ps) first d held s.valid s.out stopped in
      let e = (close_all closes (p ∷ ps) first d) in
      record {
        valid = all.0;
        later = Later-trans s.later all.1;
        gone = λ q n. absurd (ground (arith, all.1.stopped stopped));
        promise = forced pending e.0 e.1;
      }

pub wait_round-IsRound :
    (closes : ℕ → Bool) (held pending : List ℕ) (force timed_out : Bool)
    (first : Result CacheError Unit) (c : Cache)
    → IsValid c held
    → Gone c
    → All (IsOut c) pending
    → (force ≡ true → c.closed ≡ true)
    → IsRound c held force pending (wait_round closes force timed_out pending first c)
unfolding wait_round
wait_round-IsRound closes held pending force timed_out first c h g o k =
    let (d, first', rest) = close_idle closes pending first c in
    after_sweep-IsRound closes held pending c d g force timed_out rest first'
      (close_idle-IsSwept closes pending first c held h o) k

pub wait_for-IsRound :
    (closes : ℕ → Bool) (held pending : List ℕ) (force : Bool) (c : Cache)
    → IsValid c held
    → Gone c
    → All (IsOut c) pending
    → (force ≡ true → c.closed ≡ true)
    → IsRound c held force pending (wait_for closes force pending c)
unfolding wait_for mem
wait_for-IsRound closes held [] force c h g o k = record {
  valid = h;
  later = Later-refl c;
  gone = g;
  promise = λ n p m. absurd cc;
}
wait_for-IsRound closes held (p ∷ ps) force c h g o k =
    wait_round-IsRound closes held (p ∷ ps) force false (ok tt) c h g o k
