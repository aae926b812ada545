-- ===== src/Compactor/Untouched.antt =====
-- internal/compactor/compactor.go, the scan of Compact: a key of which the index has a record elsewhere.
use mathlib.Core.Path.{subst}
use wisp_trace_db.Prelude.{
  ℕ, ◌≡◌, ◌≢◌, refl, sym, ◌∙◌, ap, inl, inr, Bool, true, false, List, [], ◌∷◌, ◌++◌, if◌then◌else◌,
  arith, Bool-cases, Result-cases, Result, ok, err, All, All-append,
}
use wisp_trace_db.Prelude.Bytes.{Bytes, str_eq, str_eq→eq}
use wisp_trace_db.Wal.Span.{Span}
use wisp_trace_db.Segment.Format.{SegmentError, key_of}
use wisp_trace_db.Segment.Writer.{Dir}
use wisp_trace_db.Segment.Reader.{scan_all_func}
use wisp_trace_db.Segment.Reader.Keeping.{scan_all_func-keeps}
use wisp_trace_db.Index.{SpanLocation, IndexError}
use wisp_trace_db.Index.Batches.{has_key}
use wisp_trace_db.Compactor.{
  Scan, count_stale, reclaim, carry, is_current, compact_record, open_segment, scan_result,
  scan_segment, scan_segments,
}

has_key-append :
    (k j : Bytes) (ks : List Bytes)
    → has_key k (ks ++ j ∷ []) ≡ (if str_eq j k then true else has_key k ks)
unfolding has_key
has_key-append k j [] = refl
has_key-append k j (i ∷ ks) = ground (arith, has_key-append k j ks)

-- The staleness check passes on the record that the index points at, and on no other.
current_at :
    (r : Result IndexError SpanLocation) (id off : ℕ)
    → is_current r id off ≡ true
    → (loc : SpanLocation) × (r ≡ ok loc) × (loc.segment_id ≡ id) × (loc.offset ≡ off)
unfolding is_current
current_at (err e) id off h = absurd cc
current_at (ok loc) id off h = (loc, refl, ground (arith, h), ground (arith, h))

-- What the callback does with a record, by what the index says of it.
stale_record :
    (locate : Bytes → Result IndexError SpanLocation) (id off : ℕ) (y : Span) (c : Scan)
    → is_current (locate (key_of y)) id off ≡ false
    → (compact_record locate id off y c).0 ≡ count_stale c
unfolding compact_record
stale_record locate id off y c h = ground (arith, h)

dead_record :
    (locate : Bytes → Result IndexError SpanLocation) (id off : ℕ) (y : Span) (c : Scan)
    → is_current (locate (key_of y)) id off ≡ true
    → y.deleted ≡ true
    → (compact_record locate id off y c).0 ≡ reclaim (key_of y) c
unfolding compact_record
dead_record locate id off y c h d = ground (arith, h, d)

live_record :
    (locate : Bytes → Result IndexError SpanLocation) (id off : ℕ) (y : Span) (c : Scan)
    → is_current (locate (key_of y)) id off ≡ true
    → y.deleted ≡ false
    → (compact_record locate id off y c).0 ≡ carry y c
unfolding compact_record
live_record locate id off y c h d = ground (arith, h, d)

module _ (locate : Bytes → Result IndexError SpanLocation) (k : Bytes) where
  -- The key is in nothing that was collected.
  pub record IsUntouched (c : Scan) : Type 0 where
    pub absent : All (λ y. str_eq (key_of y) k ≡ false) c.survivors
    pub kept : has_key k c.reclaim_keys ≡ false

  -- The index does not point into the segment.
  abbrev pub Elsewhere : ℕ → Type 0
  Elsewhere id = (loc : SpanLocation) → locate k ≡ ok loc → loc.segment_id ≢ id

  Elsewhere-other :
      (id off : ℕ) (y : Span)
      → Elsewhere id
      → is_current (locate (key_of y)) id off ≡ true
      → str_eq (key_of y) k ≡ false
  Elsewhere-other id off y away current = elim (Bool-cases (str_eq (key_of y) k)) [
    | inr other ↦ other
    | inl same ↦
        let (loc, l, seg, offset) = current_at (locate (key_of y)) id off current in
        absurd (away loc (sym (ap locate (str_eq→eq (key_of y) k same)) ∙ l) seg)
  ]

  IsUntouched-step :
      (id off : ℕ) (y : Span) (c : Scan)
      → Elsewhere id
      → IsUntouched c
      → IsUntouched (compact_record locate id off y c).0
  IsUntouched-step id off y c away h = elim (Bool-cases (is_current (locate (key_of y)) id off)) [
    | inr stale ↦
        subst IsUntouched (sym (stale_record locate id off y c stale))
          (record { absent = h.absent; kept = h.kept })
    | inl current ↦
        let other = Elsewhere-other id off y away current in
        elim (Bool-cases y.deleted) [
          | inl d ↦ subst IsUntouched (sym (dead_record locate id off y c current d)) (record {
            absent = h.absent;
            kept = has_key-append k (key_of y) c.reclaim_keys ∙ rw other h.kept;
          })
          | inr d ↦ subst IsUntouched (sym (live_record locate id off y c current d)) (record {
            absent =
                All-append (λ y. str_eq (key_of y) k ≡ false) c.survivors (y ∷ []) h.absent
                  (other, tt);
            kept = h.kept;
          })
        ]
  ]

  scan_result-ok :
      (closed : Bool) (x : Scan × Result SegmentError Unit) (c : Scan)
      → scan_result closed x ≡ ok c
      → x.0 ≡ c
  scan_result-ok closed (c, err e) d h = absurd cc
  scan_result-ok true (c, ok u) d h = cc
  scan_result-ok false (c, ok u) d h = absurd cc

  scan_segment-IsUntouched :
      (closes : ℕ → Bool) (dir : Dir) (id : ℕ) (c d : Scan)
      → Elsewhere id
      → IsUntouched c
      → scan_segment closes dir id (compact_record locate id) c ≡ ok d
      → IsUntouched d
  unfolding scan_segment
  scan_segment-IsUntouched closes dir id c d away h e = elim (Result-cases (open_segment dir id)) [
    | inr (x, failed) ↦ absurd (cc (rw (scan_segment, failed) at e))
    | inl (r, opened) ↦
        subst IsUntouched
          (scan_result-ok (closes id) (scan_all_func r (compact_record locate id) c) d
            (rw (scan_segment, opened) at e))
          (scan_all_func-keeps IsUntouched (compact_record locate id)
            (λ off y c. IsUntouched-step id off y c away) r c h)
  ]

  -- A key that the index locates in none of the segments is in nothing that their scan collects.
  pub scan_segments-IsUntouched :
      (closes : ℕ → Bool) (dir : Dir) (ids : List ℕ) (c d : Scan)
      → All Elsewhere ids
      → IsUntouched c
      → scan_segments closes locate dir ids c ≡ ok d
      → IsUntouched d
  unfolding scan_segments
  scan_segments-IsUntouched closes dir [] c d away h e = subst IsUntouched (cc e) h
  scan_segments-IsUntouched closes dir (id ∷ ids) c d away h e =
      elim (Result-cases (scan_segment closes dir id (compact_record locate id) c)) [
        | inr (x, failed) ↦ absurd (cc (rw (scan_segments, failed) at e))
        | inl (m, scanned) ↦
            scan_segments-IsUntouched closes dir ids m d away.1
              (scan_segment-IsUntouched closes dir id c m away.0 h scanned)
              (rw (scan_segments, scanned) at e)
      ]
