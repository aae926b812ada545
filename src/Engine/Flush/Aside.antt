-- ===== src/Engine/Flush/Aside.antt =====
-- internal/engine/engine.go, writeSegmentBatch: the stretches that leave the index and the segments alone.
use wisp_trace_db.Prelude.{ℕ, ◌≡◌, refl, ◌∙◌, List, Result, ok, err}
use wisp_trace_db.Prelude.Stages.{and_then, ◌>>◌}
use wisp_trace_db.Index.{Kv}
use wisp_trace_db.Engine.Batch.{PendingSpan}
use wisp_trace_db.Engine.Store.{Store, EngineError}
use wisp_trace_db.Engine.Flush.{
  FlushIo, Stage, flush_rollups, record_segment, save_checkpoint, release_log, next_id,
  after_commit, evict_rollups, flush_minute, flush_five_min, flush_hour, flush_day,
}

module _ {kv : Kv} where
  -- The stretch leaves the index and the directory alone.
  abbrev pub Same : Store kv → Store kv → Type 0
  Same w v = (v.index ≡ w.index) × (v.dir ≡ w.dir)

  pub record IsAside (m : Stage kv Unit) : Type 0 where
    pub same : (w : Store kv) → Same w (m w).0

  and_then-Same :
      {A B : Type 0} (w : Store kv) (r : Store kv × Result EngineError A) (f : A → Stage kv B)
      → Same w r.0
      → ((a : A) (v : Store kv) → Same v (f a v).0)
      → Same w (and_then r f).0
  and_then-Same w (v, ok a) f h g = ((g a v).0 ∙ h.0, (g a v).1 ∙ h.1)
  and_then-Same w (v, err e) f h g = h

  pub >>-IsAside : (m k : Stage kv Unit) → IsAside m → IsAside k → IsAside (m >> k)
  >>-IsAside m k h g = record {
    same = λ w. and_then-Same w (m w) (λ a. k) (h.same w) (λ a. g.same);
  }

  pub one-IsAside : (m : Stage kv Unit) → ((w : Store kv) → Same w (m w).0) → IsAside m
  one-IsAside m h = record { same = h }

  pub flush_rollups-IsAside : (io : FlushIo) → IsAside (flush_rollups io)
  unfolding flush_rollups evict_rollups flush_minute flush_five_min flush_hour flush_day
  flush_rollups-IsAside io =
      let day = one-IsAside (flush_day io) (λ w. (refl, refl)) in
      let hour =
        >>-IsAside (flush_hour io) _ (one-IsAside (flush_hour io) (λ w. (refl, refl))) day in
      let five =
        >>-IsAside (flush_five_min io) _ (one-IsAside (flush_five_min io) (λ w. (refl, refl)))
          hour in
      let minute =
        >>-IsAside (flush_minute io) _ (one-IsAside (flush_minute io) (λ w. (refl, refl))) five in
      >>-IsAside (evict_rollups io) _ (one-IsAside (evict_rollups io) (λ w. (refl, refl))) minute

  pub after_commit-IsAside :
      (io : FlushIo) (spans : List PendingSpan) (id : ℕ) → IsAside (after_commit io spans id)
  unfolding after_commit record_segment save_checkpoint release_log next_id
  after_commit-IsAside io spans id =
      let last : IsAside (release_log io spans >> next_id) =
        >>-IsAside (release_log io spans) next_id
          (one-IsAside (release_log io spans) (λ w. (refl, refl)))
          (one-IsAside next_id (λ w. (refl, refl))) in
      let rollups = >>-IsAside (flush_rollups io) _ (flush_rollups-IsAside io) last in
      let checkpoint =
        >>-IsAside (save_checkpoint io id) _
          (one-IsAside (save_checkpoint io id) (λ w. (refl, refl))) rollups in
      >>-IsAside (record_segment io id) _ (one-IsAside (record_segment io id) (λ w. (refl, refl)))
        checkpoint
