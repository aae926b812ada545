-- ===== src/Tests/Recovery.antt =====
-- Examples for the start of the engine.
use wisp_trace_db.Prelude.{◌<◌, ◌≡◌, refl, true, false, none, [], ◌∷◌, arith, ok, Option}
use wisp_trace_db.Prelude.Bytes.{Bytes, put_uint, uint}
use wisp_trace_db.Prelude.Sort.{sort_ids}
use wisp_trace_db.Segment.Format.{WriteResult}
use wisp_trace_db.Segment.Writer.{Dir, flush}
use wisp_trace_db.Segment.Manifest.{load, save, contains}
use wisp_trace_db.Engine.Recovery.{compute_next_segment_id}
use wisp_trace_db.Engine.Recovery.Fresh.{compute_next_segment_id-flush}
use wisp_trace_db.Tests.Segment.{sizing, early, late}

-- Segment 9 is a merged one that the checkpoint, at 7, does not know of.
abbrev dir : Dir
dir = (7, []) ∷ (9, []) ∷ []

abbrev manifest : Option Bytes
manifest = (save true (7 ∷ 9 ∷ []) none).0

manifest_loads : load manifest ≡ ok (7 ∷ 9 ∷ [])
unfolding load save sort_ids put_uint uint
manifest_loads = refl

next_is_10 : compute_next_segment_id true dir manifest 7 ≡ ok 10
unfolding compute_next_segment_id
next_is_10 = rw (compute_next_segment_id, manifest_loads) refl

compute_next_segment_id-flush_example :
    (7 < 10)
    × (contains 10 (7 ∷ 9 ∷ []) ≡ false)
    × ((w : WriteResult) × ((flush sizing true 10 (early ∷ late ∷ []) dir).1 ≡ ok w)
        × (w.segment_id ≡ 10))
compute_next_segment_id-flush_example =
    compute_next_segment_id-flush sizing early (late ∷ []) dir manifest (7 ∷ 9 ∷ []) 7 10
      (omega arith, (omega arith, tt)) manifest_loads (omega arith, (omega arith, tt)) (omega arith)
      next_is_10
