-- ===== src/Compactor/Spared.antt =====
-- internal/compactor/compactor.go, Compact: the spans that are not in the merged segments.
use mathlib.Core.Path.{subst}
use wisp_trace_db.Prelude.{
  ℕ, ◌≡◌, refl, sym, ◌∙◌, ap, inl, inr, false, Option, none, some, List, [], ◌∷◌, arith, Bool-cases,
  Option-cases, Result-cases, Result, ok, All,
}
use wisp_trace_db.Prelude.Stages.{◌>>=◌, and_then_ok, wrap_ok}
use wisp_trace_db.Prelude.Bytes.{Bytes, str_eq}
use wisp_trace_db.Prelude.Dict.{lookup}
use wisp_trace_db.Wal.Span.{Span}
use wisp_trace_db.Segment.Format.{WriteResult, key_of}
use wisp_trace_db.Segment.Writer.{
  Sizing, Dir, read_file, located, offsets_of, header_of, start_of, flush,
}
use wisp_trace_db.Segment.Manifest.{contains}
use wisp_trace_db.Segment.Offsets.{flush-read_file}
use wisp_trace_db.Index.{
  Kv, SpanLocation, IndexError, get_span, batch_put_spans, batch_delete_spans,
}
use wisp_trace_db.Index.Batches.{
  KvLaws, has_key, get_span-batch_delete_spans, get_span-batch_put_spans_other,
}
use wisp_trace_db.Compactor.{Segments, CompactIo, Report, Scan, no_scan, scan_segments}
use wisp_trace_db.Compactor.Merge.{
  merged_entries, Work, load_manifest, save_manifest, write_merged, or_remove_orphan, delete_keys,
  put_merged, purge_and_unlink, after_write, merge, compact,
}
use wisp_trace_db.Engine.Store.{acquire_segment, read_location, resolve}
use wisp_trace_db.Compactor.Untouched.{Elsewhere, scan_segments-IsUntouched}
use wisp_trace_db.Compactor.Removing.{
  unlink_all-read_file, lookup-offsets_of_absent, lookup-merged_entries_absent, or_remove_orphan_ok,
  batch_delete_spans_open, batch_put_spans_open,
}

module _ (kv : Kv) (laws : KvLaws kv) (k : Bytes) (answer : Result IndexError SpanLocation)
    (b : Bytes) where
  -- The index has this answer for the key: where it is a location, it is in a segment with the file `b`.
  pub record Stands (s : Segments kv) : Type 0 where
    pub indexed : get_span kv k s.index ≡ answer
    pub filed : (loc : SpanLocation) → answer ≡ ok loc → read_file loc.segment_id s.dir ≡ some b

  abbrev pub IsOut : List ℕ → Type 0
  IsOut ids = (loc : SpanLocation) → answer ≡ ok loc → contains loc.segment_id ids ≡ false

  -- What succeeds keeps that.
  abbrev pub Keeps : {A : Type 0} → Work kv A → Type 0
  Keeps {A} m = (s : Segments kv) (a : A) → Stands s → (m s).1 ≡ ok a → Stands (m s).0

  >>=-Keeps :
      {A B : Type 0} (m : Work kv A) (f : A → Work kv B)
      → Keeps m
      → ((a : A) → Keeps (f a))
      → Keeps (m >>= f)
  >>=-Keeps m f hm hf s b h e =
      let (a, done, q) = and_then_ok (m s) f b e in
      subst (λ v. Stands v.0) (sym q) (hf a (m s).0 b (hm s a h done) (ap (λ v. v.1) (sym q) ∙ e))

  load_manifest-Keeps : Keeps load_manifest
  unfolding load_manifest
  load_manifest-Keeps s a h e = h

  save_manifest-Keeps : (io : CompactIo) (ids : List ℕ) → Keeps (save_manifest io ids)
  unfolding save_manifest
  save_manifest-Keeps io ids s a h e = record { indexed = h.indexed; filed = h.filed }

  purge_and_unlink-Keeps :
      (io : CompactIo) (ids : List ℕ) → IsOut ids → Keeps (purge_and_unlink io ids)
  unfolding purge_and_unlink
  purge_and_unlink-Keeps io ids out s a h e = elim (Bool-cases io.purge_ok) [
    | inr n ↦ rw (purge_and_unlink, n) h
    | inl y ↦
        rw (purge_and_unlink, y)
          (record {
            indexed = h.indexed;
            filed = λ loc q.
                unlink_all-read_file io ids loc.segment_id s.dir (out loc q) ∙ h.filed loc q;
          })
  ]

  delete_keys-Keeps : (keys : List Bytes) → has_key k keys ≡ false → Keeps (delete_keys keys)
  unfolding delete_keys
  delete_keys-Keeps [] out s a h e = h
  delete_keys-Keeps (j ∷ js) out s a h e =
      let done = wrap_ok _ (batch_delete_spans kv (j ∷ js) s.index).1 a e in
      let (state, i) = batch_delete_spans_open kv (j ∷ js) s.index done in
      record {
        indexed = rw i (
            get_span-batch_delete_spans kv laws (j ∷ js) k state (rw i at done)
            ∙ rw out (rw i at h.indexed));
        filed = h.filed;
      }

  abbrev IsClear : Option WriteResult → Type 0
  IsClear none = Unit
  IsClear (some w) = lookup k w.offsets ≡ none

  put_merged-Keeps : (written : Option WriteResult) → IsClear written → Keeps (put_merged written)
  unfolding put_merged
  put_merged-Keeps none clear s a h e = h
  put_merged-Keeps (some w) clear s a h e =
      let puts = merged_entries w.segment_id w.offsets in
      let done = wrap_ok _ (batch_put_spans kv puts s.index).1 a e in
      let (state, i) = batch_put_spans_open kv puts s.index done in
      record {
        indexed = rw i (
            get_span-batch_put_spans_other kv laws puts k state
              (lookup-merged_entries_absent w.segment_id w.offsets k clear) (rw i at done)
            ∙ (rw i at h.indexed));
        filed = h.filed;
      }

  or_remove_orphan-Keeps :
      (io : CompactIo) (written : Option WriteResult) (m : Work kv Unit)
      → Keeps m
      → Keeps (λ s. or_remove_orphan io written (m s))
  or_remove_orphan-Keeps io written m hm s a h e =
      let same = or_remove_orphan_ok io written (m s) e in
      subst (λ v. Stands v.0) (sym same) (hm s a h (ap (λ v. v.1) (sym same) ∙ e))

  write_merged-IsClear :
      (z : Sizing) (io : CompactIo) (id : ℕ) (spans : List Span) (s : Segments kv)
      (written : Option WriteResult)
      → All (λ y. str_eq (key_of y) k ≡ false) spans
      → (write_merged z io id spans s).1 ≡ ok written
      → IsClear written
  unfolding write_merged flush lookup
  write_merged-IsClear z io id spans s none a e = tt
  write_merged-IsClear z io id [] s (some v) a e = absurd cc
  write_merged-IsClear z io id (x ∷ xs) s (some v) a e =
      let start = start_of (header_of z id x xs) in
      let clear = lookup-offsets_of_absent (x ∷ xs) start [] k a refl in
      elim (Option-cases (read_file id s.dir)) [
        | inr (file, there) ↦ absurd (cc (rw (write_merged, flush, there) at e))
        | inl free ↦ elim (Bool-cases io.segment_ok) [
          | inr n ↦ absurd (cc (rw (write_merged, flush, free, n) at e))
          | inl y ↦
              let same : offsets_of (located start (x ∷ xs)) [] ≡ v.offsets =
                cc (rw (write_merged, flush, free, y) at e) in
              sym (ap (lookup k) same) ∙ clear
        ]
      ]

  write_merged-Stands :
      (z : Sizing) (io : CompactIo) (id : ℕ) (spans : List Span) (s : Segments kv)
      → Stands s
      → Stands (write_merged z io id spans s).0
  unfolding write_merged
  write_merged-Stands z io id [] s h = h
  write_merged-Stands z io id (x ∷ xs) s h = record {
    indexed = h.indexed;
    filed =
        λ loc q. flush-read_file z io.segment_ok id (x ∷ xs) s.dir loc.segment_id b (h.filed loc q);
  }

  after_write-Keeps :
      (io : CompactIo) (ids : List ℕ) (c : Scan) (written : Option WriteResult)
      → IsOut ids
      → has_key k c.reclaim_keys ≡ false
      → IsClear written
      → Keeps (after_write io ids c written)
  unfolding after_write
  after_write-Keeps io ids c written out kept clear =
      >>=-Keeps _ _
        (or_remove_orphan-Keeps io written (delete_keys c.reclaim_keys)
          (delete_keys-Keeps c.reclaim_keys kept))
        (λ _.
          >>=-Keeps _ _
            (or_remove_orphan-Keeps io written (put_merged written)
              (put_merged-Keeps written clear))
            (λ _. >>=-Keeps _ _ load_manifest-Keeps (λ live.
              >>=-Keeps _ _ (save_manifest-Keeps io _)
                (λ _. >>=-Keeps _ _ (purge_and_unlink-Keeps io ids out) (λ _ s a h e. h)))))

  merge-Keeps :
      (z : Sizing) (io : CompactIo) (ids : List ℕ) (id : ℕ) (c : Scan)
      → IsOut ids
      → All (λ y. str_eq (key_of y) k ≡ false) c.survivors
      → has_key k c.reclaim_keys ≡ false
      → Keeps (merge z io ids id c)
  unfolding merge
  merge-Keeps z io ids id c out absent kept s a h e =
      let (written, wrote, q) =
        and_then_ok (write_merged z io id c.survivors s) (after_write io ids c) a e in
      let clear = write_merged-IsClear z io id c.survivors s written absent wrote in
      subst (λ v. Stands v.0) (sym q)
        (after_write-Keeps io ids c written out kept clear (write_merged z io id c.survivors s).0 a
          (write_merged-Stands z io id c.survivors s h) (ap (λ v. v.1) (sym q) ∙ e))

  all-Elsewhere :
      (locate : Bytes → Result IndexError SpanLocation) (ids : List ℕ)
      → locate k ≡ answer
      → IsOut ids
      → All (Elsewhere locate k) ids
  unfolding contains
  all-Elsewhere locate [] l out = tt
  all-Elsewhere locate (id ∷ ids) l out = (
    λ loc l' same. ground (arith, same, out loc (sym l ∙ l')),
    all-Elsewhere locate ids l (λ loc q. ground (arith, out loc q)),
  )

  pub compact-Keeps :
      (z : Sizing) (io : CompactIo) (ids : List ℕ) (id : ℕ)
      → IsOut ids
      → Keeps (compact z io ids id)
  unfolding compact has_key
  compact-Keeps z io [] id out s a h e = h
  compact-Keeps z io (i ∷ is) id out s a h e =
      let locate = λ (j : Bytes). get_span kv j s.index in
      elim (Result-cases (scan_segments io.closes locate s.dir (i ∷ is) no_scan)) [
        | inr (x, failed) ↦ absurd (cc (rw (compact, failed) at e))
        | inl (c, scanned) ↦
            let free =
              scan_segments-IsUntouched locate k io.closes s.dir (i ∷ is) no_scan c
                (all-Elsewhere locate (i ∷ is) h.indexed out) (record { absent = tt; kept = refl })
                scanned in
            rw (compact, scanned)
              (merge-Keeps z io (i ∷ is) id c out free.absent free.kept s a h
                (rw (compact, scanned) at e))
      ]

same_segment :
    (loc other : SpanLocation)
    → ◌≡◌ {A = Result IndexError SpanLocation} (ok loc) (ok other)
    → loc.segment_id ≡ other.segment_id
same_segment loc other q = cc

resolve_same :
    (d e : Dir) (loc : SpanLocation)
    → read_file loc.segment_id d ≡ read_file loc.segment_id e
    → resolve d (ok loc) ≡ resolve e (ok loc)
unfolding resolve read_location acquire_segment
resolve_same d e loc h = rw (resolve, read_location, acquire_segment, h) refl

-- Over any store that does what pebble documents: a Compact that returns no error, of segments that
-- may hold older copies or tombstones of a span, but not the record that the index has for it, leaves
-- GetSpan's answer for the span as it was: the index keeps the location, and the record can be read
-- there as before.
pub resolve-compact :
    (kv : Kv) (laws : KvLaws kv) (z : Sizing) (io : CompactIo) (ids : List ℕ) (new_id : ℕ)
    (s : Segments kv) (k : Bytes) (loc : SpanLocation) (b : Bytes) (report : Report)
    → get_span kv k s.index ≡ ok loc
    → read_file loc.segment_id s.dir ≡ some b
    → contains loc.segment_id ids ≡ false
    → (compact z io ids new_id s).1 ≡ ok report
    → let t = (compact z io ids new_id s).0 in
      (get_span kv k t.index ≡ ok loc)
      × (resolve t.dir (get_span kv k t.index) ≡ resolve s.dir (get_span kv k s.index))
resolve-compact kv laws z io ids new_id s k loc b report l f out e =
    let h =
      compact-Keeps kv laws k (ok loc) b z io ids new_id
        (λ other q. ap (λ n. contains n ids) (sym (same_segment loc other q)) ∙ out) s report
        (record {
          indexed = l;
          filed = λ other q. ap (λ n. read_file n s.dir) (sym (same_segment loc other q)) ∙ f;
        })
        e in
    (
      h.indexed,
      rw (h.indexed, l)
          (resolve_same (compact z io ids new_id s).0.dir s.dir loc (h.filed loc refl ∙ sym f)),
    )
