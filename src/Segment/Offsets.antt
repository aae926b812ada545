-- ===== src/Segment/Offsets.antt =====
-- The offsets that Flush of internal/segment/writer.go reports, and its directory.
use wisp_trace_db.Prelude.{
  ℕ, ◌+◌, ◌≡◌, ◌≢◌, ◌⊎◌, inl, inr, sym, ◌∙◌, List, [], ◌∷◌, ◌++◌, All, Bool, some, length, arith,
  ok, Bool-cases,
}
use wisp_trace_db.Prelude.Bytes.{Bytes, str_eq, str_eq→eq}
use wisp_trace_db.Prelude.Dict.{Dict, lookup, insert, lookup-insert, lookup-insert_self}
use wisp_trace_db.Wal.Span.{Span}
use wisp_trace_db.Segment.Format.{key_of}
use wisp_trace_db.Segment.Writer.{
  Sizing, Dir, read_file, write_record, located, offsets_of, header_of, start_of, file_of, flush,
}
use wisp_trace_db.Segment.Reader.{Reader, read_at}
use wisp_trace_db.Segment.Reader.Scanning.{IsRecordable}
use wisp_trace_db.Segment.Reader.Flushed.{IsReaderOf, read_at-flushed}

pub read_file-append :
    (id j : ℕ) (b c : Bytes) (dir : Dir)
    → read_file j dir ≡ some c
    → read_file j (dir ++ (id, b) ∷ []) ≡ some c
unfolding read_file
read_file-append id j b c [] h = cc
read_file-append id j b c ((i, d) ∷ dir) h = ground (arith, read_file-append id j b c dir)

-- Flush never changes a segment file that is already there, whatever its outcome.
pub flush-read_file :
    (z : Sizing) (io_ok : Bool) (id : ℕ) (spans : List Span) (dir : Dir) (j : ℕ) (c : Bytes)
    → read_file j dir ≡ some c
    → read_file j (flush z io_ok id spans dir).0 ≡ some c
unfolding flush
flush-read_file z io_ok id [] dir j c h = h
flush-read_file z io_ok id (s ∷ ss) dir j c h =
    ground (arith, read_file-append id j (file_of z id s ss) c dir h)

-- What the map of offsets holds for a key: the offset of one of the records with that key, or what
-- it held before.
pub lookup-offsets_of :
    (spans : List (ℕ × Span)) (m : Dict ℕ) (P : ℕ → Span → Type 0) (k : Bytes) (off : ℕ)
    → All (λ p. P p.0 p.1) spans
    → lookup k (offsets_of spans m) ≡ some off
    → ((s : Span) × (P off s) × (key_of s ≡ k)) ⊎ (lookup k m ≡ some off)
unfolding offsets_of
lookup-offsets_of [] m P k off v h = inr h
lookup-offsets_of ((o, s) ∷ rest) m P k off v h =
    elim (lookup-offsets_of rest (insert (key_of s) o m) P k off v.1 h) [
      | inl found ↦ inl found
      | inr e ↦
          let e' = sym (lookup-insert (key_of s) k o m) ∙ e in
          elim (Bool-cases (str_eq (key_of s) k)) [
            | inl same ↦
                let there : o ≡ off = cc (e', same) in
                inl (s, rw (← there) v.0, str_eq→eq (key_of s) k same)
            | inr other ↦ inr (cc (e', other))
          ]
    ]

-- A key that the map holds stays in it.
offsets_of-keeps :
    (spans : List (ℕ × Span)) (m : Dict ℕ) (k : Bytes) (off : ℕ)
    → lookup k m ≡ some off
    → (o : ℕ) × (lookup k (offsets_of spans m) ≡ some o)
unfolding offsets_of
offsets_of-keeps [] m k off h = (off, h)
offsets_of-keeps ((o, s) ∷ rest) m k off h =
    let e = lookup-insert (key_of s) k o m in
    elim (Bool-cases (str_eq (key_of s) k)) [
      | inl same ↦ offsets_of-keeps rest (insert (key_of s) o m) k o (cc (e, same))
      | inr other ↦ offsets_of-keeps rest (insert (key_of s) o m) k off (cc (e, other, h))
    ]

-- Every key of the spans is in the map, and names a record with that key.
pub offsets_of-All :
    (spans : List (ℕ × Span)) (m : Dict ℕ)
    → All (λ p. (o : ℕ) × (lookup (key_of p.1) (offsets_of spans m) ≡ some o)) spans
unfolding offsets_of
offsets_of-All [] m = tt
offsets_of-All ((o, s) ∷ rest) m = (
  offsets_of-keeps rest (insert (key_of s) o m) (key_of s) o (lookup-insert_self (key_of s) o m),
  offsets_of-All rest (insert (key_of s) o m),
)

pub All-spans :
    (P : Span → Type 0) (off : ℕ) (spans : List Span)
    → All (λ p. P p.1) (located off spans)
    → All P spans
unfolding located
All-spans P off [] h = tt
All-spans P off (s ∷ ss) h = (h.0, All-spans P (off + length (write_record s)) ss h.1)

All-weaken :
    {A : Type 0} (P Q : A → Type 0) (xs : List A) → ((x : A) → P x → Q x) → All P xs → All Q xs
All-weaken P Q [] f h = tt
All-weaken P Q (x ∷ xs) f h = (f x h.0, All-weaken P Q xs f h.1)

-- The offsets of a flushed segment.
abbrev pub reported : Sizing → ℕ → Span → List Span → Dict ℕ
reported z id s ss = offsets_of (located (start_of (header_of z id s ss)) (s ∷ ss)) []

pub lookup-nil : (k : Bytes) (off : ℕ) → lookup k [] ≢ some off
unfolding lookup
lookup-nil k off h = cc

-- For every span of a flushed file, of spans whose fields and record lengths fit their widths, the
-- map of offsets has an entry under its key, and ReadAt there returns a span with that key.
pub flush-offsets :
    (r : Reader) (z : Sizing) (id : ℕ) (s : Span) (ss : List Span)
    → IsReaderOf r z id s ss
    → All IsRecordable (s ∷ ss)
    → All
        (λ x.
          (off : ℕ) × (found : Span) × (lookup (key_of x) (reported z id s ss) ≡ some off)
          × (read_at r off ≡ ok found)
          × (key_of found ≡ key_of x))
        (s ∷ ss)
flush-offsets r z id s ss k v =
    let start = start_of (header_of z id s ss) in
    let spans = located start (s ∷ ss) in
    let named =
      All-spans (λ x. (o : ℕ) × (lookup (key_of x) (reported z id s ss) ≡ some o)) start (s ∷ ss)
        (offsets_of-All spans []) in
    All-weaken _ _ (s ∷ ss)
      (λ x (o, e).
        elim (lookup-offsets_of spans [] (λ off y. read_at r off ≡ ok y) (key_of x) o
          (read_at-flushed r z id s ss k v) e) [
            | inl (found, here, same) ↦ (o, found, e, here, same)
            | inr h ↦ absurd (lookup-nil (key_of x) o h)
          ])
      named
