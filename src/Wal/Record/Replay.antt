-- ===== src/Wal/Record/Replay.antt =====
-- replaySegment (internal/wal/wal.go) on whole files.
use wisp_trace_db.Prelude.{
  ℕ, zero, suc, ◌+◌, ◌-◌, ◌<◌, ◌≤◌, ◌≡◌, ◌≢◌, refl, ap, sym, ◌∙◌, List, [], ◌∷◌, ◌++◌, Bool, true,
  false, Option, some, none, map, append_assoc, append-nil, length, length-append, ok, err, arith,
  All, if◌then◌else◌, drop, length-drop, take, inl, inr, Result-cases,
}
use wisp_trace_db.Prelude.Bytes.{Bytes, uint}
use wisp_trace_db.Wal.Span.{WalRecord, WalError, stuck}
use wisp_trace_db.Wal.Codec.Decoding.{deserialize-ne-stuck}
use wisp_trace_db.Wal.Record.{frame_record, record_size, read_record, replay_loop, replay_segment}
use wisp_trace_db.Wal.Record.Reading.{
  IsStorable, stored, torn_error, read_record-frame_record, read_record_torn, read_record_torn_more,
  length-frame_record,
}

-- The bytes of a file to which the records were appended, one after the other.
unfoldable pub frames : List WalRecord → Bytes
frames [] = []
frames (r ∷ rs) = frame_record r ++ frames rs

pub frames-append : (rs qs : List WalRecord) → frames (rs ++ qs) ≡ frames rs ++ frames qs
unfolding frames
frames-append [] qs = refl
frames-append (r ∷ rs) qs =
    rw (frames-append rs qs) (sym (append_assoc (frame_record r) (frames rs) (frames qs)))

length-frames : (rs : List WalRecord) → length rs ≤ length (frames rs)
unfolding frames record_size
length-frames [] = omega arith
length-frames (r ∷ rs) =
    omega
      (arith, length-append (frame_record r) (frames rs), length-frame_record r, length-frames rs)

replay_loop_step :
    (fuel : ℕ) (tolerate : Bool) (bytes : Bytes) (acc : List WalRecord) {r : WalRecord}
    {rest : Bytes}
    → read_record tolerate bytes ≡ ok (some (r, rest))
    → replay_loop (suc fuel) tolerate bytes acc ≡ replay_loop fuel tolerate rest (acc ++ r ∷ [])
unfolding replay_loop
replay_loop_step fuel tolerate bytes acc e = rw (e, replay_loop)

replay_loop_stop :
    (fuel : ℕ) (tolerate : Bool) (bytes : Bytes) (acc : List WalRecord)
    → read_record tolerate bytes ≡ ok none
    → replay_loop (suc fuel) tolerate bytes acc ≡ ok acc
unfolding replay_loop
replay_loop_stop fuel tolerate bytes acc e = rw (e, replay_loop)

replay_loop_fail :
    (fuel : ℕ) (tolerate : Bool) (bytes : Bytes) (acc : List WalRecord) {x : WalError}
    → read_record tolerate bytes ≡ err x
    → replay_loop (suc fuel) tolerate bytes acc ≡ err x
unfolding replay_loop
replay_loop_fail fuel tolerate bytes acc e = rw (e, replay_loop)

-- The loop goes over whole records, one round each.
replay_loop-frames :
    (rs : List WalRecord) (fuel : ℕ) (tolerate : Bool) (tail : Bytes) (acc : List WalRecord)
    → All IsStorable rs
    → replay_loop (length rs + fuel) tolerate (frames rs ++ tail) acc
      ≡ replay_loop fuel tolerate tail (acc ++ map stored rs)
unfolding frames
replay_loop-frames [] fuel tolerate tail acc v =
    let e : 0 + fuel ≡ fuel = omega arith in rw (e, append-nil)
replay_loop-frames (r ∷ rs) fuel tolerate tail acc v =
    let e : suc (length rs) + fuel ≡ suc (length rs + fuel) = omega arith in
    rw (e, append_assoc (frame_record r) (frames rs) tail)
      (replay_loop_step (length rs + fuel) tolerate _ acc
          (read_record-frame_record tolerate r _ (frames rs ++ tail) v.0 refl)
        ∙ replay_loop-frames rs fuel tolerate tail (acc ++ stored r ∷ []) v.1
        ∙ ap (replay_loop fuel tolerate tail) (append_assoc acc (stored r ∷ []) (map stored rs)))

-- The rounds left for the tail, behind the whole records.
replay_segment-frames :
    (tolerate : Bool) (rs : List WalRecord) (tail : Bytes)
    → All IsStorable rs
    → (k : ℕ) × (replay_segment (some (frames rs ++ tail)) tolerate
        ≡ replay_loop (suc k) tolerate tail (map stored rs))
unfolding replay_segment
replay_segment-frames tolerate rs tail v =
    let bytes = frames rs ++ tail in
    let k = length bytes - length rs in
    let e : suc (length bytes) ≡ length rs + suc k =
      omega (arith, length-frames rs, length-append (frames rs) tail) in
    (k, rw e (replay_loop-frames rs (suc k) tolerate tail [] v))

-- Replaying a file returns the records that were appended to it, in order, each with the current
-- version, whether or not a torn tail is tolerated.
pub replay-frames :
    (tolerate : Bool) (rs : List WalRecord)
    → All IsStorable rs
    → replay_segment (some (frames rs)) tolerate ≡ ok (map stored rs)
unfolding replay_loop read_record
replay-frames tolerate rs v =
    let (k, e) = replay_segment-frames tolerate rs [] v in
    ap (λ b. replay_segment (some b) tolerate) (sym (append-nil (frames rs))) ∙ e

-- A file of whole records that replay accepts, and of a last one that was cut off at any byte but
-- its first, replays to the records before it where a torn tail is tolerated, and to a read error
-- where it is not.
pub replay_torn :
    (tolerate : Bool) (rs : List WalRecord) (r : WalRecord) (front : Bytes) (x : ℕ) (back : Bytes)
    → All IsStorable rs
    → IsStorable r
    → front ≢ []
    → frame_record r ≡ front ++ (x ∷ back)
    → replay_segment (some (frames rs ++ front)) tolerate
      ≡ (if tolerate then ok (map stored rs) else err (torn_error front))
replay_torn true rs r front x back v w h cut =
    let (k, e) = replay_segment-frames true rs front v in
    e ∙ replay_loop_stop k true front _ (read_record_torn true r front x back w h cut)
replay_torn false rs r front x back v w h cut =
    let (k, e) = replay_segment-frames false rs front v in
    e ∙ replay_loop_fail k false front _ (read_record_torn false r front x back w h cut)

-- A record appended behind a torn one of the same file is lost, where it is too short to complete the
-- torn one: replay takes both for the torn tail, and returns the records before them.
pub replay_torn_more :
    (rs : List WalRecord) (r : WalRecord) (front : Bytes) (x : ℕ) (back more : Bytes)
    → All IsStorable rs
    → IsStorable r
    → 9 ≤ length front
    → frame_record r ≡ front ++ (x ∷ back)
    → length (front ++ more) < record_size r
    → replay_segment (some (frames rs ++ (front ++ more))) true ≡ ok (map stored rs)
replay_torn_more rs r front x back more v w h cut short =
    let (k, e) = replay_segment-frames true rs (front ++ more) v in
    e ∙ replay_loop_stop k true _ _ (read_record_torn_more r front x back more w h cut short)

read_record_shrinks :
    (tolerate : Bool) (bytes : Bytes) {r : WalRecord} {rest : Bytes}
    → read_record tolerate bytes ≡ ok (some (r, rest))
    → length rest < length bytes
unfolding read_record
read_record_shrinks tolerate [] e = cc
read_record_shrinks tolerate (b ∷ bs) e =
    let body = drop 9 (b ∷ bs) in
    ground (arith, length-drop (uint (take 4 (drop 5 (b ∷ bs)))) body, length-drop 9 (b ∷ bs))

read_record-ne-stuck : (tolerate : Bool) (bytes : Bytes) → read_record tolerate bytes ≢ err stuck
unfolding read_record
read_record-ne-stuck tolerate [] e = cc
read_record-ne-stuck tolerate (b ∷ bs) e =
    let size = uint (take 4 (drop 5 (b ∷ bs))) in
    ground (arith, deserialize-ne-stuck (take size (drop 9 (b ∷ bs))))

replay_loop-ne-stuck :
    (fuel : ℕ) (tolerate : Bool) (bytes : Bytes) (acc : List WalRecord)
    → length bytes < fuel
    → replay_loop fuel tolerate bytes acc ≢ err stuck
replay_loop-ne-stuck zero tolerate bytes acc h = absurd (omega arith)
replay_loop-ne-stuck (suc fuel) tolerate bytes acc h =
    elim (Result-cases (read_record tolerate bytes)) [
      | inl (none, e) ↦ rw (replay_loop_stop fuel tolerate bytes acc e) (λ p. cc)
      | inl (some (r, rest), e) ↦ rw (replay_loop_step fuel tolerate bytes acc e) (
          replay_loop-ne-stuck fuel tolerate rest _
            (omega (arith, read_record_shrinks tolerate bytes e)))
      | inr (x, e) ↦
          rw (replay_loop_fail fuel tolerate bytes acc e)
            (λ p. read_record-ne-stuck tolerate bytes (rw e (cc p)))
    ]

-- Replaying ends on every file, whatever bytes it holds.
pub replay_segment-ne-stuck :
    (file : Option Bytes) (tolerate : Bool) → replay_segment file tolerate ≢ err stuck
unfolding replay_segment
replay_segment-ne-stuck none tolerate = λ e. cc
replay_segment-ne-stuck (some bytes) tolerate =
    replay_loop-ne-stuck (suc (length bytes)) tolerate bytes [] (omega arith)
