-- ===== src/Engine/Range.antt =====
-- internal/engine/engine.go, RangeFilter, and the test by which RangeQuery passes over a segment.
pub mod Skipping
use wisp_trace_db.Prelude.{
  ℕ, Bool, true, false, not, ◌&&◌, ◌||◌, Option, none, some, List, [], ◌∷◌, if◌then◌else◌,
}
use wisp_trace_db.Prelude.Int.{ℤ, ltb_ℤ}
use wisp_trace_db.Prelude.Bytes.{Bytes, str_eq}
use wisp_trace_db.Wal.Span.{Span}
use wisp_trace_db.Bloom.{Filter, may_contain}
use wisp_trace_db.Segment.Format.{Dimension, Header, agent_id, model, tool_name, team, status}

pub record RangeFilter : Type 0 where
  pub start_ts : ℤ
  pub end_ts : ℤ
  pub want_agent_id : Bytes
  pub want_model : Bytes
  pub want_tool_name : Bytes
  pub want_team : Bytes
  pub want_status : Bytes

-- The condition of each field: an empty string does not filter.
unfoldable pub rejects : Bytes → Bytes → Bool
rejects want got = not (str_eq want []) && not (str_eq got want)

unfoldable pub matches : RangeFilter → Span → Bool
matches f s =
    if ltb_ℤ s.timestamp f.start_ts || ltb_ℤ f.end_ts s.timestamp
    then false
    else if rejects f.want_agent_id s.agent_id
    then false
    else if rejects f.want_model s.model
    then false
    else if rejects f.want_tool_name s.tool_name
    then false
    else if rejects f.want_team s.team
    then false
    else if rejects f.want_status s.status
    then false
    else true

abbrev pub dimension_eq : Dimension → Dimension → Bool
dimension_eq agent_id agent_id = true
dimension_eq model model = true
dimension_eq tool_name tool_name = true
dimension_eq team team = true
dimension_eq status status = true
dimension_eq _ _ = false

-- blooms[dim]
abbrev pub find_bloom : Dimension → List (Dimension × Filter) → Option Filter
find_bloom d [] = none
find_bloom d ((e, filter) ∷ blooms) = if dimension_eq e d then some filter else find_bloom d blooms

-- One of the checks; `rest` is the result of those behind it.
unfoldable pub check_bloom : Bytes → Option Filter → Bool → Bool
check_bloom value none rest = rest
check_bloom value (some filter) rest =
    if str_eq value [] then rest else if not (may_contain value filter) then false else rest

unfoldable pub may_match_blooms : RangeFilter → List (Dimension × Filter) → Bool
unfolding check_bloom
may_match_blooms f blooms = check_bloom f.want_agent_id (find_bloom agent_id blooms) (
    check_bloom f.want_model (find_bloom model blooms) (
      check_bloom f.want_tool_name (find_bloom tool_name blooms) (
        check_bloom f.want_team (find_bloom team blooms)
          (check_bloom f.want_status (find_bloom status blooms) true))))

-- The two tests of RangeQuery that go on to the next segment without scanning this one.
unfoldable pub skips : RangeFilter → Header → List (Dimension × Filter) → Bool
skips f h blooms =
    if ltb_ℤ h.max_timestamp f.start_ts || ltb_ℤ f.end_ts h.min_timestamp
    then true
    else not (may_match_blooms f blooms)
