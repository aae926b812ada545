-- ===== src/Engine/Range/Skipping.antt =====
-- The skipping test of RangeQuery (internal/engine/engine.go) on segments that Flush wrote.
use mathlib.Core.List.{Memᴰ}
use wisp_trace_db.Prelude.{
  ℕ, ◌≡◌, sym, ap, ◌∙◌, Bool, true, false, some, List, [], ◌∷◌, All, arith, Bool-cases, inl, inr,
}
use wisp_trace_db.Prelude.Int.{◌≤ℤ◌}
use wisp_trace_db.Prelude.Bytes.{Bytes, str_eq, str_eq→eq}
use wisp_trace_db.Wal.Span.{Span}
use wisp_trace_db.Bloom.{Filter, may_contain}
use wisp_trace_db.Segment.Format.{
  Dimension, agent_id, model, tool_name, team, status, bloom_dimensions, dimension_value,
}
use wisp_trace_db.Segment.Writer.{Sizing, header_of, dimension_filter}
use wisp_trace_db.Segment.Reader.Opening.{IsSizing, filters}
use wisp_trace_db.Segment.Pruning.{header_of-zone, dimension_filter-may_contain}
use wisp_trace_db.Engine.Range.{RangeFilter, rejects, matches, check_bloom, may_match_blooms, skips}

All-Memᴰ : {A : Type 0} (P : A → Type 0) (x : A) (xs : List A) → All P xs → Memᴰ x xs → P x
All-Memᴰ P x [] h m = elim m [ ]
All-Memᴰ P x (y ∷ xs) h (Memᴰ.head e) = rw e h.0
All-Memᴰ P x (y ∷ xs) h (Memᴰ.tail m) = All-Memᴰ P x xs h.1 m

-- A check that the span's value passes, if the filter may contain that value.
check_bloom_passes :
    (want got : Bytes) (filter : Filter) (rest : Bool)
    → rejects want got ≡ false
    → may_contain got filter ≡ true
    → check_bloom want (some filter) rest ≡ rest
unfolding check_bloom rejects
check_bloom_passes want got filter rest r c = elim (Bool-cases (str_eq got want)) [
  | inl same ↦
      let there = sym (ap (λ v. may_contain v filter) (str_eq→eq got want same)) ∙ c in
      ground (arith, there)
  | inr other ↦ ground (arith, r, other)
]

-- What a match says of each field.
record IsMatch (f : RangeFilter) (s : Span) : Type 0 where
  start : f.start_ts ≤ℤ s.timestamp
  end_at : s.timestamp ≤ℤ f.end_ts
  agent : rejects f.want_agent_id s.agent_id ≡ false
  named : rejects f.want_model s.model ≡ false
  tool : rejects f.want_tool_name s.tool_name ≡ false
  of_team : rejects f.want_team s.team ≡ false
  in_status : rejects f.want_status s.status ≡ false

matches-IsMatch : (f : RangeFilter) (s : Span) → matches f s ≡ true → IsMatch f s
unfolding matches
matches-IsMatch f s h = record {
  start = ground (arith, h);
  end_at = ground (arith, h);
  agent = ground (arith, h);
  named = ground (arith, h);
  tool = ground (arith, h);
  of_team = ground (arith, h);
  in_status = ground (arith, h);
}

may_match_blooms-filters :
    (z : Sizing) (spans : List Span) (f : RangeFilter) (x : Span)
    → IsSizing z
    → Memᴰ x spans
    → IsMatch f x
    → may_match_blooms f (filters z spans bloom_dimensions) ≡ true
unfolding may_match_blooms dimension_value dimension_filter
may_match_blooms-filters z spans f x v m k =
    let contained : (d : Dimension)
        → may_contain (dimension_value x d) (dimension_filter z spans d) ≡ true =
      λ d. All-Memᴰ _ x spans (dimension_filter-may_contain z spans d v) m in
    check_bloom_passes f.want_agent_id x.agent_id _ _ k.agent (contained agent_id)
    ∙ check_bloom_passes f.want_model x.model _ _ k.named (contained model)
    ∙ check_bloom_passes f.want_tool_name x.tool_name _ _ k.tool (contained tool_name)
    ∙ check_bloom_passes f.want_team x.team _ _ k.of_team (contained team)
    ∙ check_bloom_passes f.want_status x.status _ _ k.in_status (contained status)

-- RangeQuery passes over no flushed segment that has a span which its filter matches, where the
-- sizes of the Bloom filters fit 32 bits: neither the zone map nor the filters of that segment
-- rule it out.
pub skips-flushed :
    (z : Sizing) (id : ℕ) (s : Span) (ss : List Span) (f : RangeFilter) (x : Span)
    → IsSizing z
    → Memᴰ x (s ∷ ss)
    → matches f x ≡ true
    → skips f (header_of z id s ss) (filters z (s ∷ ss) bloom_dimensions) ≡ false
unfolding skips
skips-flushed z id s ss f x v m h =
    let k = matches-IsMatch f x h in
    let (low, high) = All-Memᴰ _ x (s ∷ ss) (header_of-zone z id s ss) m in
    let passed = may_match_blooms-filters z (s ∷ ss) f x v m k in
    ground (arith, low, high, passed, k.start, k.end_at)
