-- ===== src/Engine/Reads/Pages.antt =====
-- internal/engine/engine.go, QueryWithCursor: a client that follows the cursors.
use wisp_trace_db.Prelude.{
  ℕ, zero, suc, ◌+◌, ◌-◌, ◌^◌, ◌<◌, ◌≤◌, ◌≡◌, refl, sym, ◌∙◌, ap, inl, inr, false, Option, none,
  some, List, [], ◌∷◌, ◌++◌, length, drop, ltb, leb, arith, Bool-cases, List-cases, Result, ok, err,
  drop-drop, take-append-drop,
}
use wisp_trace_db.Prelude.Int.{ℤ, pos}
use wisp_trace_db.Wal.Span.{Span}
use wisp_trace_db.Prelude.Bytes.{Bytes, str_eq}
use wisp_trace_db.Index.{Kv}
use wisp_trace_db.Engine.Buffer.{Buffer}
use wisp_trace_db.Engine.Range.{RangeFilter}
use wisp_trace_db.Engine.Store.{Store, EngineError}
use wisp_trace_db.Engine.Reads.{
  page_of, page_start, parse_cursor, next_cursor, range_query, query_with_cursor,
}

abbrev behind : List Span → Option (List Span) → Option (List Span)
behind page none = none
behind page (some rest) = some (page ++ rest)

-- The pages of a client that calls `ask` again with each cursor it is given, up to `rounds` times. What
-- `ask` answers can depend on how many rounds are left.
unfoldable pub follow :
    (ℕ → Bytes → Result EngineError (List Span × Bytes)) → ℕ → Bytes → Option (List Span)
follow ask zero cursor = none
follow ask (suc rounds) cursor = elim (ask rounds cursor) [
  | err e ↦ none
  | ok (page, []) ↦ some page
  | ok (page, c ∷ cs) ↦ behind page (follow ask rounds (c ∷ cs))
]

drop_all : (k : ℕ) (spans : List Span) → length spans ≤ k → drop k spans ≡ []
drop_all zero [] h = refl
drop_all zero (s ∷ spans) h = absurd (omega arith)
drop_all (suc k) [] h = refl
drop_all (suc k) (s ∷ spans) h = drop_all k spans (omega arith)

-- strconv.Atoi undoes strconv.Itoa, which writes at least one digit.
pub record AreInverse (atoi : Bytes → Option ℤ) (itoa : ℕ → Bytes) : Type 0 where
  pub parsed : (n : ℕ) → n < 2 ^ 63 → atoi (itoa n) ≡ some (pos n)
  pub digits : (n : ℕ) → str_eq (itoa n) [] ≡ false

module _ (kv : Kv) (atoi : Bytes → Option ℤ) (itoa : ℕ → Bytes) (inverse : AreInverse atoi itoa)
    (f : RangeFilter) (spans : List Span) (n : ℕ) (at_round : ℕ → Buffer × Store kv) where
  -- The calls of the client, each in the state of its round.
  abbrev pub ask : ℕ → Bytes → Result EngineError (List Span × Bytes)
  ask r cursor = query_with_cursor kv atoi itoa f (pos (suc n)) cursor (at_round r).0 (at_round r).1

  parse_cursor-itoa : (end : ℕ) → end < 2 ^ 63 → parse_cursor atoi (itoa end) ≡ ok (some (pos end))
  unfolding parse_cursor
  parse_cursor-itoa end b = rw (parse_cursor, inverse.digits end, inverse.parsed end b) refl

  follow_from :
      ((r : ℕ) → range_query kv f (at_round r).0 (at_round r).1 ≡ ok spans)
      → length spans + suc n < 2 ^ 63
      → (rounds : ℕ) (cursor : Bytes) (c : Option ℤ) → parse_cursor atoi cursor ≡ ok c
      → length spans - page_start c < rounds
      → follow ask rounds cursor ≡ some (drop (page_start c) spans)
  unfolding follow query_with_cursor page_of next_cursor str_eq
  follow_from same b zero cursor c p h = absurd (omega arith)
  follow_from same b (suc rounds) cursor c p h =
      let k = page_start c in
      elim (Bool-cases (leb (length spans) k)) [
        | inl past ↦
            rw (follow, ask, query_with_cursor, same rounds, p, page_of, past)
              (ap some (sym (drop_all k spans (ground (arith, past)))))
        | inr inside ↦
            let fits : leb (2 ^ 63) (k + suc n) ≡ false = ground (arith, inside) in
            elim (Bool-cases (ltb (k + suc n) (length spans))) [
              | inr last ↦
                  rw (follow, ask, query_with_cursor, same rounds, p, page_of, inside, fits, last)
                    refl
              | inl more ↦ elim (List-cases (itoa (k + suc n))) [
                | inl none_there ↦
                    let bad = ap (λ x. str_eq x []) (sym none_there) ∙ inverse.digits (k + suc n) in
                    absurd (ground (arith, bad))
                | inr (d, ds, written) ↦
                    let next = parse_cursor-itoa (k + suc n) (ground (arith, more)) in
                    let rest =
                      follow_from same b rounds (d ∷ ds) (some (pos (k + suc n)))
                        (rw written at next) (ground (arith, inside, more)) in
                    let width : k + suc n - k ≡ suc n = omega arith in
                    let join = take-append-drop (suc n) (drop k spans) in
                    rw
                      (
                        follow,
                        ask,
                        query_with_cursor,
                        same rounds,
                        p,
                        page_of,
                        inside,
                        fits,
                        more,
                        next_cursor,
                        written,
                        rest,
                        width,
                        sym (drop-drop (suc n) k spans),
                      )
                      (ap some join)
              ]
            ]
      ]

-- A client of QueryWithCursor that starts with an empty cursor and passes on each cursor it is given
-- reaches the last page within one call for each span and one more, and has then been given each
-- span of the range query once and in its order, as long as the range query gives the same spans in
-- the same order at every call and the page size is positive and does not overflow, where
-- strconv.Atoi undoes strconv.Itoa.
pub follow_all :
    (kv : Kv) (atoi : Bytes → Option ℤ) (itoa : ℕ → Bytes) (f : RangeFilter) (spans : List Span)
    (n : ℕ) (at_round : ℕ → Buffer × Store kv)
    → AreInverse atoi itoa
    → ((r : ℕ) → range_query kv f (at_round r).0 (at_round r).1 ≡ ok spans)
    → length spans + suc n < 2 ^ 63
    → follow
        (λ r cursor.
          query_with_cursor kv atoi itoa f (pos (suc n)) cursor (at_round r).0 (at_round r).1)
        (suc (length spans))
        []
      ≡ some spans
unfolding parse_cursor str_eq
follow_all kv atoi itoa f spans n at_round inverse same b =
    follow_from kv atoi itoa inverse f spans n at_round same b (suc (length spans)) [] none refl
      (omega arith)
