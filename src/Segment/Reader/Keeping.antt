-- ===== src/Segment/Reader/Keeping.antt =====
-- internal/segment/reader.go, ScanAllFunc on any file: what the callback keeps, and how the scan is
-- related to ScanAll's.
use mathlib.Core.List.{Memᴰ}
use mathlib.Core.List.Memᴰ.{append_left, append_right}
use wisp_trace_db.Prelude.{
  ℕ, zero, suc, ◌+◌, ◌-◌, ◌≡◌, refl, ◌∙◌, true, List, ◌++◌, ok, inl, inr, Bool, [], ◌∷◌, length,
  Bool-cases, Result-cases,
}
use wisp_trace_db.Prelude.Bytes.{Bytes}
use wisp_trace_db.Wal.Span.{Span}
use wisp_trace_db.Segment.Reader.{Reader, scan_record, scan_loop, scan_all_func, scan_all}

-- What holds of the state of a callback, and is kept by it, holds when the scan ends.
module _ {S : Type 0} (P : S → Type 0) (fn : ℕ → Span → S → S × Bool)
    (keeps : (off : ℕ) (s : Span) (st : S) → P st → P (fn off s st).0) where
  scan_loop-keeps :
      (fuel off : ℕ) (bytes : Bytes) (st : S) → P st → P (scan_loop fuel fn off bytes st).0
  unfolding scan_loop
  scan_loop-keeps zero off bytes st h = h
  scan_loop-keeps (suc fuel) off [] st h = h
  scan_loop-keeps (suc fuel) off (b ∷ bs) st h = elim (Result-cases (scan_record (b ∷ bs))) [
    | inr (e, r) ↦ rw (scan_loop, r) h
    | inl ((span, rest), r) ↦ elim (Bool-cases (fn off span st).1) [
      | inr stop ↦ rw (scan_loop, r, stop) (keeps off span st h)
      | inl more ↦
          rw (scan_loop, r, more)
            (scan_loop-keeps fuel (off + (length (b ∷ bs) - length rest)) rest (fn off span st).0
              (keeps off span st h))
    ]
  ]

  pub scan_all_func-keeps : (r : Reader) (st : S) → P st → P (scan_all_func r fn st).0
  unfolding scan_all_func
  scan_all_func-keeps r st h = scan_loop-keeps _ _ _ st h

-- The callback of ScanAll.
abbrev collect : ℕ → Span → List (ℕ × Span) → List (ℕ × Span) × Bool
collect off s acc = (acc ++ (off, s) ∷ [], true)

collect-keeps :
    (x : ℕ × Span) (off : ℕ) (s : Span) (acc : List (ℕ × Span))
    → Memᴰ x acc
    → Memᴰ x (collect off s acc).0
collect-keeps x off s acc m = append_left ((off, s) ∷ []) m

-- A callback sees nothing but the records that ScanAll returns.
module _ {S : Type 0} (fn : ℕ → Span → S → S × Bool) (records : List (ℕ × Span)) (P : S → Type 0)
    (keeps : (off : ℕ) (s : Span) (st : S) → Memᴰ (off, s) records → P st → P (fn off s st).0) where
  scan_loop-keeps_records :
      (fuel off : ℕ) (bytes : Bytes) (st : S) (acc : List (ℕ × Span))
      → (scan_loop fuel collect off bytes acc).0 ≡ records
      → P st
      → P (scan_loop fuel fn off bytes st).0
  unfolding scan_loop
  scan_loop-keeps_records zero off bytes st acc all h = h
  scan_loop-keeps_records (suc fuel) off [] st acc all h = h
  scan_loop-keeps_records (suc fuel) off (b ∷ bs) st acc all h =
      elim (Result-cases (scan_record (b ∷ bs))) [
        | inr (e, r) ↦ rw (scan_loop, r) h
        | inl ((span, rest), r) ↦
            let next = off + (length (b ∷ bs) - length rest) in
            let acc' = acc ++ (off, span) ∷ [] in
            let all' : (scan_loop fuel collect next rest acc').0 ≡ records =
              rw (scan_loop, r) at all in
            let seen =
              scan_loop-keeps (λ xs. Memᴰ (off, span) xs) collect (collect-keeps (off, span)) fuel
                next rest acc' (append_right acc (Memᴰ.head refl)) in
            let here = keeps off span st (rw all' at seen) h in
            elim (Bool-cases (fn off span st).1) [
              | inr stop ↦ rw (scan_loop, r, stop) here
              | inl more ↦
                  rw (scan_loop, r, more)
                    (scan_loop-keeps_records fuel next rest (fn off span st).0 acc' all' here)
            ]
      ]

-- A callback that never stops the scan ends it the way ScanAll ends.
scan_loop-ends :
    {S : Type 0} (fn : ℕ → Span → S → S × Bool)
    → ((off : ℕ) (s : Span) (st : S) → (fn off s st).1 ≡ true)
    → (fuel off : ℕ) (bytes : Bytes) (st : S) (acc : List (ℕ × Span))
    → (scan_loop fuel collect off bytes acc).1 ≡ (scan_loop fuel fn off bytes st).1
unfolding scan_loop
scan_loop-ends fn goes zero off bytes st acc = refl
scan_loop-ends fn goes (suc fuel) off [] st acc = refl
scan_loop-ends fn goes (suc fuel) off (b ∷ bs) st acc = elim (Result-cases (scan_record (b ∷ bs))) [
  | inr (e, r) ↦ rw (scan_loop, r) refl
  | inl ((span, rest), r) ↦
      rw (scan_loop, r, goes off span st)
        (scan_loop-ends fn goes fuel (off + (length (b ∷ bs) - length rest)) rest (fn off span st).0
          (acc ++ (off, span) ∷ []))
]

-- So a scan with no error is one over the records that ScanAll returns.
pub scan_all_func-records :
    {S : Type 0} (fn : ℕ → Span → S → S × Bool) (P : S → Type 0) (r : Reader) (st : S)
    → ((off : ℕ) (s : Span) (st : S) → (fn off s st).1 ≡ true)
    → (scan_all_func r fn st).1 ≡ ok tt
    → (records : List (ℕ × Span)) × (scan_all r ≡ ok records)
      × (((off : ℕ) (s : Span) (st : S) → Memᴰ (off, s) records → P st → P (fn off s st).0)
          → P st
          → P (scan_all_func r fn st).0)
unfolding scan_all_func scan_all
scan_all_func-records fn P r st goes done =
    let ended = scan_loop-ends fn goes _ _ _ st [] ∙ done in
    (_, rw ended refl, λ keeps h. scan_loop-keeps_records fn _ P keeps _ _ _ st [] refl h)
