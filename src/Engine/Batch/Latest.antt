-- ===== src/Engine/Batch/Latest.antt =====
-- internal/engine/engine.go, writeSegmentBatch: of the writes of a key the last one counts.
use wisp_trace_db.Prelude.{
  ℕ, zero, suc, ◌+◌, ◌≡◌, refl, sym, ◌∙◌, ap, inl, inr, true, false, Option, none, some, List, [],
  ◌∷◌, ◌++◌, get_elem?, length, if◌then◌else◌, arith, Option-cases, Bool-cases, append_assoc,
  append-nil, length-append,
}
use wisp_trace_db.Prelude.Bytes.{Bytes, str_eq, str_eq_iff, str_eq→eq, str_eq_self}
use wisp_trace_db.Prelude.Dict.{Dict, lookup, insert, lookup-insert}
use wisp_trace_db.Index.Batches.{has_key}
use wisp_trace_db.Engine.Batch.{
  PendingSpan, pending_key, listed, latest_loop, span_at, pick, dedupe,
}

-- The last write of a key in a batch.
unfoldable pub last_write : Bytes → List PendingSpan → Option PendingSpan
last_write k [] = none
last_write k (p ∷ ps) = elim (last_write k ps) [
  | some q ↦ some q
  | none ↦ if str_eq (pending_key p) k then some p else none
]

-- The first span with a key.
unfoldable pub find_pending : Bytes → List PendingSpan → Option PendingSpan
find_pending k [] = none
find_pending k (p ∷ ps) = if str_eq (pending_key p) k then some p else find_pending k ps

-- No key stands twice.
abbrev pub OnceEach : List PendingSpan → Type 0
OnceEach [] = Unit
OnceEach (p ∷ ps) = (find_pending (pending_key p) ps ≡ none) × OnceEach ps

abbrev NoneTwice : List Bytes → Type 0
NoneTwice [] = Unit
NoneTwice (k ∷ ks) = (has_key k ks ≡ false) × NoneTwice ks

last_write-append :
    (k : Bytes) (ps : List PendingSpan) (p : PendingSpan)
    → last_write k (ps ++ p ∷ []) ≡ (if str_eq (pending_key p) k then some p else last_write k ps)
unfolding last_write
last_write-append k [] p = refl
last_write-append k (q ∷ ps) p = ground (arith, last_write-append k ps p)

last_write_key :
    (k : Bytes) (ps : List PendingSpan) (p : PendingSpan)
    → last_write k ps ≡ some p
    → str_eq (pending_key p) k ≡ true
unfolding last_write
last_write_key k [] p e = absurd cc
last_write_key k (q ∷ ps) p e = elim (Option-cases (last_write k ps)) [
  | inl n ↦ ground (arith, n)
  | inr (r, n) ↦ ground (arith, n, last_write_key k ps r n)
]

has_key-append :
    (k j : Bytes) (ks : List Bytes)
    → has_key k (ks ++ j ∷ []) ≡ (if str_eq j k then true else has_key k ks)
unfolding has_key
has_key-append k j [] = refl
has_key-append k j (i ∷ ks) = ground (arith, has_key-append k j ks)

NoneTwice-append :
    (j : Bytes) (ks : List Bytes) → NoneTwice ks → has_key j ks ≡ false → NoneTwice (ks ++ j ∷ [])
unfolding has_key
NoneTwice-append j [] h n = (refl, tt)
NoneTwice-append j (k ∷ ks) h n = (
  ground (arith, has_key-append k j ks, str_eq_iff j k, str_eq_iff k j, h.0, n),
  NoneTwice-append j ks h.1 (ground (arith, n)),
)

get_elem?-append_left :
    (xs : List PendingSpan) (ys : List PendingSpan) (i : ℕ) (p : PendingSpan)
    → get_elem? xs i ≡ some p
    → get_elem? (xs ++ ys) i ≡ some p
get_elem?-append_left [] ys i p e = absurd cc
get_elem?-append_left (x ∷ xs) ys zero p e = e
get_elem?-append_left (x ∷ xs) ys (suc i) p e = get_elem?-append_left xs ys i p e

get_elem?-append_length :
    (xs : List PendingSpan) (p : PendingSpan) → get_elem? (xs ++ p ∷ []) (length xs) ≡ some p
get_elem?-append_length [] p = refl
get_elem?-append_length (x ∷ xs) p = get_elem?-append_length xs p

-- What the loop has found when it has gone through `past`.
record IsLatest (past : List PendingSpan) (latest : Dict ℕ) (order : List Bytes) : Type 0 where
  once : NoneTwice order
  seen :
      (k : Bytes) (i : ℕ)
      → lookup k latest ≡ some i
      → (q : PendingSpan) × (get_elem? past i ≡ some q)
        × (last_write k past ≡ some q)
        × (has_key k order ≡ true)
  unseen :
      (k : Bytes) → lookup k latest ≡ none → (last_write k past ≡ none) × (has_key k order ≡ false)

module _ (past : List PendingSpan) (p : PendingSpan) (latest : Dict ℕ) (order : List Bytes)
    (h : IsLatest past latest order) where
  has_key-listed :
      (k : Bytes)
      → has_key k (listed (pending_key p) (lookup (pending_key p) latest) order)
        ≡ (if str_eq (pending_key p) k then true else has_key k order)
  unfolding listed
  has_key-listed k = elim (Option-cases (lookup (pending_key p) latest)) [
    | inl n ↦ rw n (has_key-append k (pending_key p) order)
    | inr (i, n) ↦ rw n (elim (Bool-cases (str_eq (pending_key p) k)) [
      | inl same ↦
          let e = str_eq→eq (pending_key p) k same in
          rw same (rw (← e) (h.seen (pending_key p) i n).3)
      | inr other ↦ rw other refl
    ])
  ]

  listed-NoneTwice : NoneTwice (listed (pending_key p) (lookup (pending_key p) latest) order)
  unfolding listed
  listed-NoneTwice = elim (Option-cases (lookup (pending_key p) latest)) [
    | inl n ↦ rw n (NoneTwice-append (pending_key p) order h.once (h.unseen (pending_key p) n).1)
    | inr (i, n) ↦ rw n h.once
  ]

  step-IsLatest :
      IsLatest
        (past ++ p ∷ [])
        (insert (pending_key p) (length past) latest)
        (listed (pending_key p) (lookup (pending_key p) latest) order)
  step-IsLatest = record {
    once = listed-NoneTwice;
    seen = λ k i.
        rw (lookup-insert, last_write-append, has_key-listed)
          λ e. elim (Bool-cases (str_eq (pending_key p) k)) [
            | inl same ↦
                let there : length past ≡ i = cc (e, same) in
                rw same (p, rw (← there) (get_elem?-append_length past p), refl, refl)
            | inr other ↦
                let (q, at, last, has) = h.seen k i (cc (e, other)) in
                rw other (q, get_elem?-append_left past (p ∷ []) i q at, last, has)
          ];
    unseen = λ k.
        rw (lookup-insert, last_write-append, has_key-listed)
          λ e. elim (Bool-cases (str_eq (pending_key p) k)) [
            | inl same ↦ absurd (cc (e, same))
            | inr other ↦ rw other (h.unseen k (cc (e, other)))
          ];
  }

latest_loop-IsLatest :
    (past ps : List PendingSpan) (latest : Dict ℕ) (order : List Bytes)
    → IsLatest past latest order
    → let r = latest_loop (length past) ps latest order in IsLatest (past ++ ps) r.0 r.1
unfolding latest_loop
latest_loop-IsLatest past [] latest order h = rw (append-nil past) h
latest_loop-IsLatest past (p ∷ ps) latest order h =
    let next = insert (pending_key p) (length past) latest in
    let keys = listed (pending_key p) (lookup (pending_key p) latest) order in
    let all =
      latest_loop-IsLatest (past ++ p ∷ []) ps next keys (step-IsLatest past p latest order h) in
    let longer : length (past ++ p ∷ []) ≡ length past + 1 = length-append past (p ∷ []) in
    rw (sym (append_assoc past (p ∷ []) ps)) (rw longer at all)

module _ (spans : List PendingSpan) (latest : Dict ℕ) where
  find-pick :
      (order : List Bytes) (k : Bytes)
      → ((j : Bytes) → has_key j order ≡ true → (i : ℕ) × (lookup j latest ≡ some i))
      → ((j : Bytes) (i : ℕ)
          → lookup j latest ≡ some i
          → (q : PendingSpan) × (get_elem? spans i ≡ some q) × (last_write j spans ≡ some q))
      → find_pending k (pick spans latest order)
        ≡ (if has_key k order then last_write k spans else none)
  unfolding pick span_at find_pending has_key
  find-pick [] k h g = refl
  find-pick (j ∷ order) k h g =
      let (i, e) = h j (rw (str_eq_self j) refl) in
      let (q, at, last) = g j i e in
      let rest = find-pick order k (λ l n. h l (ground (arith, n))) g in
      let key = str_eq→eq (pending_key q) j (last_write_key j spans q last) in
      let test : str_eq (pending_key q) k ≡ str_eq j k = ap (λ x. str_eq x k) key in
      elim (Bool-cases (str_eq j k)) [
        | inl same ↦
            let last' : last_write k spans ≡ some q =
              ap (λ x. last_write x spans) (sym (str_eq→eq j k same)) ∙ last in
            rw (span_at, e, at, test, same) (sym last')
        | inr other ↦ rw (span_at, e, at, test, other) rest
      ]

  pick-OnceEach :
      (order : List Bytes)
      → NoneTwice order
      → ((j : Bytes) → has_key j order ≡ true → (i : ℕ) × (lookup j latest ≡ some i))
      → ((j : Bytes) (i : ℕ)
          → lookup j latest ≡ some i
          → (q : PendingSpan) × (get_elem? spans i ≡ some q) × (last_write j spans ≡ some q))
      → OnceEach (pick spans latest order)
  unfolding pick span_at has_key
  pick-OnceEach [] n h g = tt
  pick-OnceEach (j ∷ order) n h g =
      let (i, e) = h j (rw (str_eq_self j) refl) in
      let (q, at, last) = g j i e in
      let h' : (l : Bytes) → has_key l order ≡ true → (x : ℕ) × (lookup l latest ≡ some x) =
        λ l m. h l (ground (arith, m)) in
      let key = str_eq→eq (pending_key q) j (last_write_key j spans q last) in
      let gone : find_pending j (pick spans latest order) ≡ none =
        rw (find-pick order j h' g, n.0) refl in
      rw (span_at, e, at)
        (
          ap (λ x. find_pending x (pick spans latest order)) key ∙ gone,
          pick-OnceEach order n.1 h' g,
        )

module _ (spans : List PendingSpan) where
  latest : Dict ℕ
  latest = (latest_loop 0 spans [] []).0

  order : List Bytes
  order = (latest_loop 0 spans [] []).1

  final : IsLatest spans latest order
  unfolding lookup last_write has_key latest order
  final =
      latest_loop-IsLatest [] spans [] []
        (record { once = tt; seen = λ k i e. absurd cc; unseen = λ k e. (refl, refl) })

  in_order : (j : Bytes) → has_key j order ≡ true → (i : ℕ) × (lookup j latest ≡ some i)
  in_order j h = elim (Option-cases (lookup j latest)) [
    | inl n ↦ absurd (cc (h, (final.unseen j n).1))
    | inr found ↦ found
  ]

  in_range :
      (j : Bytes) (i : ℕ)
      → lookup j latest ≡ some i
      → (q : PendingSpan) × (get_elem? spans i ≡ some q) × (last_write j spans ≡ some q)
  in_range j i e = let (q, at, last, has) = final.seen j i e in (q, at, last)

  covered :
      (k : Bytes) → (if has_key k order then last_write k spans else none) ≡ last_write k spans
  covered k = elim (Option-cases (lookup k latest)) [
    | inl n ↦ rw ((final.unseen k n).1) (sym (final.unseen k n).0)
    | inr (i, e) ↦ rw ((final.seen k i e).3) refl
  ]

  -- A batch that writeSegmentBatch has collapsed has no key twice, and has for every key the span that
  -- was written last under it, or none where the batch has none.
  pub dedupe-last_write :
      OnceEach (dedupe spans) × ((k : Bytes) → find_pending k (dedupe spans) ≡ last_write k spans)
  unfolding dedupe latest order
  dedupe-last_write = (
    pick-OnceEach spans latest order final.once in_order in_range,
    λ k. find-pick spans latest order k in_order in_range ∙ covered k,
  )
