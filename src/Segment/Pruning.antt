-- ===== src/Segment/Pruning.antt =====
-- The zone map and the filters of internal/segment/writer.go against the spans of the segment.
use wisp_trace_db.Prelude.{ℕ, ◌≡◌, List, [], ◌∷◌, map, All, true, length, arith, if◌then◌else◌}
use wisp_trace_db.Prelude.Int.{ℤ, ltb_ℤ, ◌≤ℤ◌}
use wisp_trace_db.Wal.Span.{Span}
use wisp_trace_db.Bloom
use wisp_trace_db.Bloom.{may_contain}
use wisp_trace_db.Bloom.Members.{may_contain-add_all, new-IsWellFormed}
use wisp_trace_db.Segment.Format.{Dimension, dimension_value}
use wisp_trace_db.Segment.Writer.{Sizing, zone_min, zone_max, dimension_filter, header_of}
use wisp_trace_db.Segment.Reader.Opening.{IsSizing}

zone_min-le : (lo : ℤ) (ss : List Span) → zone_min lo ss ≤ℤ lo
unfolding zone_min
zone_min-le lo [] = omega arith
zone_min-le lo (s ∷ ss) = ground (arith, zone_min-le s.timestamp ss, zone_min-le lo ss)

zone_max-le : (hi : ℤ) (ss : List Span) → hi ≤ℤ zone_max hi ss
unfolding zone_max
zone_max-le hi [] = omega arith
zone_max-le hi (s ∷ ss) = ground (arith, zone_max-le s.timestamp ss, zone_max-le hi ss)

zone_min-All : (lo : ℤ) (ss : List Span) → All (λ s. zone_min lo ss ≤ℤ s.timestamp) ss
unfolding zone_min
zone_min-All lo [] = tt
zone_min-All lo (s ∷ ss) =
    let lo' = if ltb_ℤ s.timestamp lo then s.timestamp else lo in
    let below = zone_min-le lo' ss in
    (ground (arith, below), zone_min-All (if ltb_ℤ s.timestamp lo then s.timestamp else lo) ss)

zone_max-All : (hi : ℤ) (ss : List Span) → All (λ s. s.timestamp ≤ℤ zone_max hi ss) ss
unfolding zone_max
zone_max-All hi [] = tt
zone_max-All hi (s ∷ ss) =
    let hi' = if ltb_ℤ hi s.timestamp then s.timestamp else hi in
    let above = zone_max-le hi' ss in
    (ground (arith, above), zone_max-All (if ltb_ℤ hi s.timestamp then s.timestamp else hi) ss)

All-both :
    {A : Type 0} (P Q : A → Type 0) (xs : List A) → All P xs → All Q xs → All (λ x. P x × Q x) xs
All-both P Q [] p q = tt
All-both P Q (x ∷ xs) p q = ((p.0, q.0), All-both P Q xs p.1 q.1)

-- The zone map in a flushed header lies around the timestamps of all its spans.
pub header_of-zone :
    (z : Sizing) (id : ℕ) (s : Span) (ss : List Span)
    → All
        (λ x.
          ((header_of z id s ss).min_timestamp ≤ℤ x.timestamp)
          × (x.timestamp ≤ℤ (header_of z id s ss).max_timestamp))
        (s ∷ ss)
unfolding header_of
header_of-zone z id s ss =
    All-both _ _ (s ∷ ss) (zone_min-All s.timestamp (s ∷ ss)) (zone_max-All s.timestamp (s ∷ ss))

All-unmap :
    {A B : Type 0} (f : A → B) (P : B → Type 0) (xs : List A)
    → All P (map f xs)
    → All (λ x. P (f x)) xs
All-unmap f P [] h = tt
All-unmap f P (x ∷ xs) h = (h.0, All-unmap f P xs h.1)

-- Where the sizes that math computes for the filters fit 32 bits, the filter of a dimension may
-- contain the value of every span of the segment.
pub dimension_filter-may_contain :
    (z : Sizing) (spans : List Span) (d : Dimension)
    → IsSizing z
    → All (λ s. may_contain (dimension_value s d) (dimension_filter z spans d) ≡ true) spans
unfolding dimension_filter
dimension_filter-may_contain z spans d v =
    All-unmap (λ s. dimension_value s d) _ spans
      (may_contain-add_all (map (λ s. dimension_value s d) spans)
        (Bloom.new z.ceiled z.rounded (length spans))
        (new-IsWellFormed z.ceiled z.rounded (length spans) v.ceiled))
