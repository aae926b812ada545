-- ===== src/Index/Batches.antt =====
-- The writes and GetSpan of internal/pebble/pebble.go, over any store as documented.
use wisp_trace_db.Prelude.{
  append-nil, ◌≡◌, refl, sym, ap, ◌∙◌, Bool, true, false, Option, none, some, List, [], ◌∷◌, ◌++◌,
  map, All, if◌then◌else◌, Result, ok, err, ◌>>=◌, Bool-cases, Option-cases, inl, inr, arith,
}
use mathlib.Core.List.{Memᴰ}
use wisp_trace_db.Prelude.Bytes.{Bytes, str_eq, str_eq→eq}
use wisp_trace_db.Prelude.Dict.{Dict, lookup, Distinct}
use wisp_trace_db.Index.{
  SpanLocation, IndexError, not_found, Op, set_op, delete_op, Kv, encode_span_location,
  decode_span_location, put_op, commit_some, put_span, get_span, delete_span, batch_apply_spans,
  batch_delete_spans, batch_put_spans,
}
use wisp_trace_db.Index.Location.{IsLocation, decode-encode_span_location}
use wisp_trace_db.Index.Prefix.{AreBytes, within}

-- The value of a key behind the operations of a batch, in order.
unfoldable pub after : List Op → Bytes → Result IndexError Bytes → Result IndexError Bytes
after [] k r = r
after (set_op j v ∷ ops) k r = after ops k (if str_eq j k then ok v else r)
after (delete_op j ∷ ops) k r = after ops k (if str_eq j k then err not_found else r)

-- What pebble documents of the calls that succeed.
pub record KvLaws (kv : Kv) : Type 0 where
  pub get-set :
      (j v k : Bytes) (s : kv.State)
      → (kv.set j v s).1 ≡ ok tt
      → kv.get k (kv.set j v s).0 ≡ (if str_eq j k then ok v else kv.get k s)
  pub get-delete :
      (j k : Bytes) (s : kv.State)
      → (kv.delete j s).1 ≡ ok tt
      → kv.get k (kv.delete j s).0 ≡ (if str_eq j k then err not_found else kv.get k s)
  pub get-commit :
      (ops : List Op) (k : Bytes) (s : kv.State)
      → (kv.commit ops s).1 ≡ ok tt
      → kv.get k (kv.commit ops s).0 ≡ after ops k (kv.get k s)
  -- An iterator visits keys of the store within its bounds, and all of them where it ends without
  -- an error.
  pub iterate_sound :
      (lower : Bytes) (upper : Option Bytes) (s : kv.State) (items : List (Bytes × Bytes))
      (ended : Result IndexError Unit)
      → kv.iterate (some lower) upper s ≡ ok (items, ended)
      → All (λ p. AreBytes p.0 × (within lower upper p.0 ≡ true) × (kv.get p.0 s ≡ ok p.1)) items
  pub iterate_complete :
      (lower : Bytes) (upper : Option Bytes) (s : kv.State) (items : List (Bytes × Bytes))
      (k v : Bytes)
      → AreBytes k
      → kv.iterate (some lower) upper s ≡ ok (items, ok tt)
      → within lower upper k ≡ true
      → kv.get k s ≡ ok v
      → Memᴰ (k, v) items

unfoldable pub has_key : Bytes → List Bytes → Bool
has_key k [] = false
has_key k (j ∷ js) = if str_eq j k then true else has_key k js

-- The answer that a batch of puts and deletes leaves for a key: a put wins over a delete.
unfoldable pub applied :
    Dict SpanLocation
    → List Bytes
    → Bytes
    → Result IndexError SpanLocation
    → Result IndexError SpanLocation
applied puts deletes k before = elim (lookup k puts) [
  | some loc ↦ ok loc
  | none ↦ if has_key k deletes then err not_found else before
]

after-deletes :
    (keys : List Bytes) (ops : List Op) (k : Bytes) (r : Result IndexError Bytes)
    → after (map delete_op keys ++ ops) k r
      ≡ after ops k (if has_key k keys then err not_found else r)
unfolding after has_key
after-deletes [] ops k r = refl
after-deletes (j ∷ js) ops k r = after-deletes js ops k _ ∙ ap (after ops k) (ground arith)

after-puts :
    (puts : Dict SpanLocation) (k : Bytes) (r : Result IndexError Bytes)
    → Distinct puts
    → after (map put_op puts) k r
      ≡ elim (lookup k puts) [ some loc ↦ ok (encode_span_location loc) | none ↦ r ]
unfolding after lookup
after-puts [] k r d = refl
after-puts ((j, loc) ∷ puts) k r d = elim (Bool-cases (str_eq j k)) [
  | inl same ↦
      let gone : lookup k puts ≡ none = ap (λ x. lookup x puts) (sym (str_eq→eq j k same)) ∙ d.0 in
      after-puts puts k _ d.1 ∙ ground (arith, same, gone)
  | inr other ↦ after-puts puts k _ d.1 ∙ ground (arith, other)
]

after-puts_other :
    (puts : Dict SpanLocation) (k : Bytes) (r : Result IndexError Bytes)
    → lookup k puts ≡ none
    → after (map put_op puts) k r ≡ r
unfolding after lookup
after-puts_other [] k r e = refl
after-puts_other ((j, loc) ∷ puts) k r e = elim (Bool-cases (str_eq j k)) [
  | inl same ↦ absurd (cc (e, same))
  | inr other ↦ after-puts_other puts k _ (cc (e, other)) ∙ ground (arith, other)
]

lookup-IsLocation :
    (puts : Dict SpanLocation) (k : Bytes) (loc : SpanLocation)
    → All (λ p. IsLocation p.1) puts
    → lookup k puts ≡ some loc
    → IsLocation loc
unfolding lookup
lookup-IsLocation [] k loc v h = absurd cc
lookup-IsLocation ((j, x) ∷ puts) k loc v h = elim (Bool-cases (str_eq j k)) [
  | inl same ↦ let e : x ≡ loc = cc (h, same) in rw (← e) v.0
  | inr other ↦ lookup-IsLocation puts k loc v.1 (cc (h, other))
]

-- How the stored bytes of a batch are read back.
decoded_applied :
    (puts : Dict SpanLocation) (deletes : List Bytes) (k : Bytes) (r : Result IndexError Bytes)
    → All (λ p. IsLocation p.1) puts
    → (elim (lookup k puts) [
      | some loc ↦ ok (encode_span_location loc)
      | none ↦ if has_key k deletes then err not_found else r
    ]
        >>= decode_span_location)
      ≡ applied puts deletes k (r >>= decode_span_location)
unfolding applied
decoded_applied puts deletes k r v = elim (Option-cases (lookup k puts)) [
  | inl e ↦ elim (Bool-cases (has_key k deletes)) [
    | inl h ↦ rw (applied, e, h) refl
    | inr h ↦ rw (applied, e, h) refl
  ]
  | inr (loc, e) ↦
      rw (applied, e) (decode-encode_span_location loc (lookup-IsLocation puts k loc v e))
]

module _ (kv : Kv) (laws : KvLaws kv) where
  -- Over any store that does what pebble documents: after a PutSpan that succeeds, of a location
  -- of 64-bit numbers, GetSpan returns the location for the key, and for any other key what it
  -- returned before.
  pub get_span-put_span :
      (key k : Bytes) (loc : SpanLocation) (state : kv.State)
      → IsLocation loc
      → (put_span kv key loc (some state)).1 ≡ ok tt
      → get_span kv k (put_span kv key loc (some state)).0
        ≡ (if str_eq key k then ok loc else get_span kv k (some state))
  unfolding get_span put_span
  get_span-put_span key k loc state v e =
      let got = laws.get-set key (encode_span_location loc) k state e in
      let back = decode-encode_span_location loc v in
      rw got (elim (Bool-cases (str_eq key k)) [
        | inl same ↦ rw (same, back)
        | inr other ↦ rw other refl
      ])

  -- After a DeleteSpan that succeeds, GetSpan does not find the key, and finds any other key as before.
  pub get_span-delete_span :
      (key k : Bytes) (state : kv.State)
      → (delete_span kv key (some state)).1 ≡ ok tt
      → get_span kv k (delete_span kv key (some state)).0
        ≡ (if str_eq key k then err not_found else get_span kv k (some state))
  unfolding get_span delete_span
  get_span-delete_span key k state e =
      rw (laws.get-delete key k state e)
        (elim (Bool-cases (str_eq key k)) [ inl same ↦ rw same refl | inr other ↦ rw other refl ])

  get-commit_some :
      (ops : List Op) (k : Bytes) (s : kv.State)
      → (commit_some kv ops s).1 ≡ ok tt
      → kv.get k (commit_some kv ops s).0 ≡ after ops k (kv.get k s)
  unfolding after
  get-commit_some [] k s e = refl
  get-commit_some (op ∷ ops) k s e = laws.get-commit (op ∷ ops) k s e

  -- Over any store that does what pebble documents: after a BatchApplySpans that succeeds, with
  -- locations of 64-bit numbers, each key of the puts has its location, each other key of the
  -- deletes is not found, and every other key is as before.
  pub get_span-batch_apply_spans :
      (puts : Dict SpanLocation) (deletes : List Bytes) (k : Bytes) (state : kv.State)
      → Distinct puts
      → All (λ p. IsLocation p.1) puts
      → (batch_apply_spans kv puts deletes (some state)).1 ≡ ok tt
      → get_span kv k (batch_apply_spans kv puts deletes (some state)).0
        ≡ applied puts deletes k (get_span kv k (some state))
  unfolding get_span batch_apply_spans
  get_span-batch_apply_spans puts deletes k state d v e =
      let stored =
        get-commit_some (map delete_op deletes ++ map put_op puts) k state e
        ∙ after-deletes deletes (map put_op puts) k _
        ∙ after-puts puts k _ d in
      ap (λ r. r >>= decode_span_location) stored
      ∙ decoded_applied puts deletes k (kv.get k state) v

  -- After a BatchPutSpans that succeeds, every key that it does not put is as before.
  pub get_span-batch_put_spans_other :
      (puts : Dict SpanLocation) (k : Bytes) (state : kv.State)
      → lookup k puts ≡ none
      → (batch_put_spans kv puts (some state)).1 ≡ ok tt
      → get_span kv k (batch_put_spans kv puts (some state)).0 ≡ get_span kv k (some state)
  unfolding get_span batch_put_spans
  get_span-batch_put_spans_other puts k state out e =
      ap (λ r. r >>= decode_span_location)
        (get-commit_some (map put_op puts) k state e ∙ after-puts_other puts k (kv.get k state) out)

  -- After a BatchDeleteSpans that succeeds, its keys are not found, and the others are as before.
  pub get_span-batch_delete_spans :
      (keys : List Bytes) (k : Bytes) (state : kv.State)
      → (batch_delete_spans kv keys (some state)).1 ≡ ok tt
      → get_span kv k (batch_delete_spans kv keys (some state)).0
        ≡ (if has_key k keys then err not_found else get_span kv k (some state))
  unfolding get_span batch_delete_spans after
  get_span-batch_delete_spans keys k state e =
      let flat = ap (λ ops. after ops k (kv.get k state)) (sym (append-nil (map delete_op keys))) in
      let stored =
        get-commit_some (map delete_op keys) k state e
        ∙ flat
        ∙ after-deletes keys [] k (kv.get k state) in
      rw stored (elim (Bool-cases (has_key k keys)) [ inl h ↦ rw h refl | inr h ↦ rw h refl ])
