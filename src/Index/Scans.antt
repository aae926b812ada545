-- ===== src/Index/Scans.antt =====
-- PrefixScan of internal/pebble/pebble.go, over any store as documented.
use wisp_trace_db.Prelude.{
  ◌≡◌, sym, ap, ◌∙◌, true, some, List, [], ◌∷◌, map, All, Result, ok, >>=-eq-ok,
}
use mathlib.Core.List.{Memᴰ}
use wisp_trace_db.Prelude.Bytes.{Bytes}
use wisp_trace_db.Index.{
  SpanLocation, IndexError, Kv, decode_span_location, prefix_upper_bound, decode_all, get_span,
  prefix_scan,
}
use wisp_trace_db.Index.Batches.{KvLaws}
use wisp_trace_db.Index.Prefix.{AreBytes, has_prefix, within, within-prefix_upper_bound}

ok_eq : {A : Type 0} {a b : A} → ◌≡◌ {A = Result IndexError A} (ok a) (ok b) → a ≡ b
ok_eq e = cc

Memᴰ-decode_all :
    {k v : Bytes} {loc : SpanLocation} (items : List (Bytes × Bytes))
    (found : List (Bytes × SpanLocation))
    → decode_all items ≡ ok found
    → Memᴰ (k, v) items
    → decode_span_location v ≡ ok loc
    → Memᴰ loc (map (λ p. p.1) found)
unfolding decode_all
Memᴰ-decode_all [] found d m h = elim m [ ]
Memᴰ-decode_all ((j, w) ∷ items) found d (Memᴰ.head e) h =
    let (loc, here, later) = >>=-eq-ok (decode_span_location w) _ d in
    let (rest, d', last) = >>=-eq-ok (decode_all items) _ later in
    rw (← ok_eq last) (Memᴰ.head (ok_eq (sym h ∙ ap (λ p. decode_span_location p.1) e ∙ here)))
Memᴰ-decode_all ((j, w) ∷ items) found d (Memᴰ.tail m) h =
    let (loc, here, later) = >>=-eq-ok (decode_span_location w) _ d in
    let (rest, d', last) = >>=-eq-ok (decode_all items) _ later in
    rw (← ok_eq last) (Memᴰ.tail (Memᴰ-decode_all items rest d' m h))

module _ (kv : Kv) (laws : KvLaws kv) where
  decode_all_sound :
      (prefix : Bytes) (state : kv.State) (items : List (Bytes × Bytes))
      (found : List (Bytes × SpanLocation))
      → All
          (λ p.
            AreBytes p.0
            × (within prefix (prefix_upper_bound prefix) p.0 ≡ true)
            × (kv.get p.0 state ≡ ok p.1))
          items
      → decode_all items ≡ ok found
      → All
          (λ loc.
            (k : Bytes) × (has_prefix prefix k ≡ true) × (get_span kv k (some state) ≡ ok loc))
          (map (λ p. p.1) found)
  unfolding decode_all get_span
  decode_all_sound prefix state [] found h e = let nothing : [] ≡ found = cc e in rw (← nothing) tt
  decode_all_sound prefix state ((k, v) ∷ items) found h e =
      let (loc, here, later) = >>=-eq-ok (decode_span_location v) _ e in
      let (rest, d, last) = >>=-eq-ok (decode_all items) _ later in
      let all : (k, loc) ∷ rest ≡ found = cc last in
      let start = sym (within-prefix_upper_bound prefix k h.0.0) ∙ h.0.1 in
      rw (← all) ((k, start, rw h.0.2 here), decode_all_sound prefix state items rest h.1 d)

  -- Over any store that does what pebble documents, every location that PrefixScan returns is that
  -- of a key with the prefix, also where its iterator fails midway.
  pub prefix_scan_sound :
      (prefix : Bytes) (state : kv.State) (locations : List SpanLocation)
      → prefix_scan kv prefix (some state) ≡ ok locations
      → All
          (λ loc.
            (k : Bytes) × (has_prefix prefix k ≡ true) × (get_span kv k (some state) ≡ ok loc))
          locations
  unfolding prefix_scan
  prefix_scan_sound prefix state locations e =
      let (visited, i, rest) =
        >>=-eq-ok (kv.iterate (some prefix) (prefix_upper_bound prefix) state) _ e in
      let (found, d, last) = >>=-eq-ok (decode_all visited.0) _ rest in
      rw (← ok_eq last) (
        decode_all_sound prefix state visited.0 found
          (laws.iterate_sound prefix _ state visited.0 visited.1 i) d)

  -- Over any store that does what pebble documents, a PrefixScan that succeeds, and whose iterator ends
  -- without an error, returns the location of every key with the prefix that GetSpan finds. PrefixScan
  -- does not look at the iterator's error itself.
  pub prefix_scan_complete :
      (prefix : Bytes) (state : kv.State) (locations : List SpanLocation) (k : Bytes)
      (loc : SpanLocation) (items : List (Bytes × Bytes))
      → AreBytes k
      → has_prefix prefix k ≡ true
      → get_span kv k (some state) ≡ ok loc
      → kv.iterate (some prefix) (prefix_upper_bound prefix) state ≡ ok (items, ok tt)
      → prefix_scan kv prefix (some state) ≡ ok locations
      → Memᴰ loc locations
  unfolding prefix_scan get_span
  prefix_scan_complete prefix state locations k loc items v p g i e =
      let (value, got, decoded) = >>=-eq-ok (kv.get k state) _ g in
      let (found, d, last) = >>=-eq-ok (decode_all items) _ (rw (prefix_scan, i) at e) in
      let start = within-prefix_upper_bound prefix k v ∙ p in
      let here = laws.iterate_complete prefix _ state items k value v i start got in
      rw (← ok_eq last) (Memᴰ-decode_all items found d here decoded)
