-- ===== src/Engine/Flush/Found.antt =====
-- internal/engine/engine.go, writeSegmentBatch: what the offsets of a flushed segment lead to.
use wisp_trace_db.Prelude.{
  ℕ, ◌+◌, ◌≤◌, ◌≡◌, refl, sym, ◌∙◌, ap, inl, inr, none, some, List, [], ◌∷◌, ◌++◌, length,
  length-append, arith, Bool-cases, All, ok,
}
use wisp_trace_db.Prelude.Bytes.{Bytes, str_eq, str_eq→eq, str_eq_self}
use wisp_trace_db.Prelude.Dict.{lookup}
use wisp_trace_db.Wal.Span.{Span}
use wisp_trace_db.Segment.Format.{key_of}
use wisp_trace_db.Segment.Writer.{
  Sizing, build_bloom_section, write_record, write_records, located, header_of, start_of, file_of,
}
use wisp_trace_db.Segment.Reader.{Reader, open_reader_light, read_at}
use wisp_trace_db.Segment.Reader.Opening.{IsHeader, read_header-append}
use wisp_trace_db.Segment.Reader.Scanning.{IsRecordable}
use wisp_trace_db.Segment.Reader.Flushed.{IsReaderOf, read_at-flushed}
use wisp_trace_db.Segment.Offsets.{
  reported, lookup-offsets_of, offsets_of-All, All-spans, lookup-nil,
}
use wisp_trace_db.Engine.Flush.Keys.{find_span, Unrepeated}

-- Of spans without a repeated key each is found under its key.
abbrev IsFound : List Span → Span → Type 0
IsFound all s = find_span (key_of s) all ≡ some s

IsFound-behind :
    (s : Span) (ss all : List Span)
    → find_span (key_of s) all ≡ none
    → All (IsFound all) ss
    → All (IsFound (s ∷ all)) ss
unfolding find_span
IsFound-behind s [] all n h = tt
IsFound-behind s (x ∷ ss) all n h = (
  elim (Bool-cases (str_eq (key_of s) (key_of x))) [
    | inl same ↦ absurd (cc (n, h.0, str_eq→eq (key_of s) (key_of x) same))
    | inr other ↦ rw other h.0
  ],
  IsFound-behind s ss all n h.1,
)

pub Unrepeated-All : (ss : List Span) → Unrepeated ss → All (IsFound ss) ss
unfolding find_span
Unrepeated-All [] h = tt
Unrepeated-All (s ∷ ss) h =
    (rw (str_eq_self (key_of s)) refl, IsFound-behind s ss ss h.0 (Unrepeated-All ss h.1))

All-located :
    (P : Span → Type 0) (off : ℕ) (ss : List Span) → All P ss → All (λ p. P p.1) (located off ss)
unfolding located
All-located P off [] h = tt
All-located P off (s ∷ ss) h = (h.0, All-located P (off + length (write_record s)) ss h.1)

located_le :
    (off bound : ℕ) (ss : List Span)
    → off + length (write_records ss) ≤ bound
    → All (λ p. p.0 ≤ bound) (located off ss)
unfolding located write_records
located_le off bound [] h = tt
located_le off bound (s ∷ ss) h =
    let n = length-append (write_record s) (write_records ss) in
    (omega (arith, n), located_le (off + length (write_record s)) bound ss (omega (arith, n)))

All-both :
    {A : Type 0} (P Q : A → Type 0) (xs : List A) → All P xs → All Q xs → All (λ x. P x × Q x) xs
All-both P Q [] h k = tt
All-both P Q (x ∷ xs) h k = ((h.0, k.0), All-both P Q xs h.1 k.1)

-- A span of the list, by its key.
found_All :
    (P : Span → Type 0) (k : Bytes) (s : Span) (ss : List Span)
    → find_span k ss ≡ some s
    → All P ss
    → P s × (key_of s ≡ k)
unfolding find_span
found_All P k s [] e h = absurd cc
found_All P k s (x ∷ ss) e h = elim (Bool-cases (str_eq (key_of x) k)) [
  | inl same ↦
      let there : x ≡ s = cc (e, same) in
      (rw (← there) h.0, rw (← there) (str_eq→eq (key_of x) k same))
  | inr other ↦ found_All P k s ss (cc (e, other)) h.1
]

module _ (z : Sizing) (id : ℕ) (s : Span) (ss : List Span) where
  -- OpenReaderLight on a flushed file.
  pub light : Reader
  light = record { file = file_of z id s ss; header = header_of z id s ss; blooms = [] }

  pub open_reader_light-file_of :
      IsHeader (header_of z id s ss) → open_reader_light (file_of z id s ss) ≡ ok light
  unfolding open_reader_light file_of light
  open_reader_light-file_of h =
      rw
        (read_header-append (header_of z id s ss)
          (build_bloom_section z (s ∷ ss) ++ write_records (s ∷ ss)) h)
        refl

  pub reported_found :
      Unrepeated (s ∷ ss)
      → All IsRecordable (s ∷ ss)
      → (k : Bytes) (x : Span) → find_span k (s ∷ ss) ≡ some x
      → (off : ℕ) × (lookup k (reported z id s ss) ≡ some off)
        × (off ≤ start_of (header_of z id s ss) + length (write_records (s ∷ ss)))
        × (read_at light off ≡ ok x)
  unfolding light
  reported_found u v k x f =
      let start = start_of (header_of z id s ss) in
      let spans = located start (s ∷ ss) in
      let bound = start + length (write_records (s ∷ ss)) in
      let named =
        All-spans (λ x. (o : ℕ) × (lookup (key_of x) (reported z id s ss) ≡ some o)) start (s ∷ ss)
          (offsets_of-All spans []) in
      let ((off, e), key) =
        found_All (λ x. (o : ℕ) × (lookup (key_of x) (reported z id s ss) ≡ some o)) k x (s ∷ ss) f
          named in
      let e' : lookup k (reported z id s ss) ≡ some off =
        ap (λ j. lookup j (reported z id s ss)) (sym key) ∙ e in
      let is_reader : IsReaderOf light z id s ss = record { file = refl; header = refl } in
      let facts =
        All-both (λ p. read_at light p.0 ≡ ok p.1) (λ p. IsFound (s ∷ ss) p.1 × (p.0 ≤ bound)) spans
          (read_at-flushed light z id s ss is_reader v)
          (All-both (λ p. IsFound (s ∷ ss) p.1) (λ p. p.0 ≤ bound) spans
            (All-located (IsFound (s ∷ ss)) start (s ∷ ss) (Unrepeated-All (s ∷ ss) u))
            (located_le start bound (s ∷ ss) (omega arith))) in
      elim (lookup-offsets_of spans []
        (λ o y. (read_at light o ≡ ok y) × (IsFound (s ∷ ss) y × (o ≤ bound))) k off facts e') [
          | inr h ↦ absurd (lookup-nil k off h)
          | inl (y, (at, (found, below)), same) ↦
              let there : y ≡ x = cc (found, same, f) in (off, e', below, rw (← there) at)
        ]

  pub reported_le :
      (k : Bytes) (off : ℕ)
      → lookup k (reported z id s ss) ≡ some off
      → off ≤ start_of (header_of z id s ss) + length (write_records (s ∷ ss))
  reported_le k off e =
      let start = start_of (header_of z id s ss) in
      let bound = start + length (write_records (s ∷ ss)) in
      elim (lookup-offsets_of (located start (s ∷ ss)) [] (λ o y. o ≤ bound) k off
        (located_le start bound (s ∷ ss) (omega arith)) e) [
          | inr h ↦ absurd (lookup-nil k off h)
          | inl (y, below, same) ↦ below
        ]
