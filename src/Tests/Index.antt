-- ===== src/Tests/Index.antt =====
-- Examples for the index, over the store in memory.
use wisp_trace_db.Prelude.{◌≡◌, refl, true, [], ◌∷◌, All, some, none, ok, arith}
use mathlib.Core.List.{Memᴰ}
use wisp_trace_db.Prelude.Bytes.{Bytes, str_eq, str_lt, put_uint, uint}
use wisp_trace_db.Prelude.Dict.{lookup}
use wisp_trace_db.Segment.Format.{composite_key}
use wisp_trace_db.Index.{
  SpanLocation, put_span, get_span, batch_apply_spans, prefix_scan, encode_span_location,
  prefix_upper_bound, decode_span_location, decode_all,
}
use wisp_trace_db.Index.Location.{IsLocation, decode-encode_span_location}
use wisp_trace_db.Index.Prefix.{AreBytes, has_prefix, within, within-prefix_upper_bound}
use wisp_trace_db.Index.Batches.{applied, get_span-batch_apply_spans}
use wisp_trace_db.Index.Scans.{prefix_scan_sound, prefix_scan_complete}
use wisp_trace_db.Index.Keys.{composite_key-collides}
use wisp_trace_db.Tests.Memory.{memory, memory-KvLaws, State, are_bytes}

abbrev trace : Bytes
trace = 0x74 ∷ []

abbrev key : Bytes
key = 0x74 ∷ 0x7c ∷ 0x7c ∷ 0x61 ∷ []

abbrev place : SpanLocation
place = record { segment_id = 7; offset = 88 }

place-IsLocation : IsLocation place
place-IsLocation = record { segment_id = omega arith; offset = omega arith }

missing : {V : Type 0} (k : Bytes) → lookup {V = V} k [] ≡ none
unfolding lookup
missing k = refl

abbrev one : State
one = record { entries = (key, encode_span_location place) ∷ []; distinct = (missing key, tt) }

put_ok : (put_span memory key place (some one)).1 ≡ ok tt
unfolding put_span
put_ok = refl

applied_ok : (batch_apply_spans memory ((trace, place) ∷ []) (key ∷ []) (some one)).1 ≡ ok tt
unfolding batch_apply_spans
applied_ok = refl

get_span-batch_apply_spans_example :
    get_span memory key (batch_apply_spans memory ((trace, place) ∷ []) (key ∷ []) (some one)).0
    ≡ applied ((trace, place) ∷ []) (key ∷ []) key (get_span memory key (some one))
get_span-batch_apply_spans_example =
    get_span-batch_apply_spans memory memory-KvLaws ((trace, place) ∷ []) (key ∷ []) key one
      (missing trace, tt) (place-IsLocation, tt) applied_ok

decode-encode_span_location_example : decode_span_location (encode_span_location place) ≡ ok place
decode-encode_span_location_example = decode-encode_span_location place place-IsLocation

key-AreBytes : AreBytes key
key-AreBytes = (omega arith, (omega arith, (omega arith, (omega arith, tt))))

within-prefix_upper_bound_example :
    within (0x74 ∷ 0xff ∷ []) (prefix_upper_bound (0x74 ∷ 0xff ∷ [])) key
    ≡ has_prefix (0x74 ∷ 0xff ∷ []) key
within-prefix_upper_bound_example = within-prefix_upper_bound (0x74 ∷ 0xff ∷ []) key key-AreBytes

starts : has_prefix trace key ≡ true
unfolding has_prefix
starts = refl

found : get_span memory key (some one) ≡ ok place
unfolding get_span lookup str_eq
found = decode-encode_span_location place place-IsLocation

scanned : prefix_scan memory trace (some one) ≡ ok (place ∷ [])
unfolding prefix_scan decode_all are_bytes prefix_upper_bound str_lt decode_span_location
    encode_span_location put_uint uint
scanned = refl

visited :
    memory.iterate (some trace) (prefix_upper_bound trace) one
    ≡ ok ((key, encode_span_location place) ∷ [], ok tt)
unfolding are_bytes prefix_upper_bound str_lt
visited = refl

prefix_scan_sound_example :
    All
      (λ loc. (k : Bytes) × (has_prefix trace k ≡ true) × (get_span memory k (some one) ≡ ok loc))
      (place ∷ [])
prefix_scan_sound_example = prefix_scan_sound memory memory-KvLaws trace one (place ∷ []) scanned

prefix_scan_complete_example : Memᴰ place (place ∷ [])
prefix_scan_complete_example =
    prefix_scan_complete memory memory-KvLaws trace one (place ∷ []) key place
      ((key, encode_span_location place) ∷ []) key-AreBytes starts found visited scanned

-- The trace "a||b" with the span "c", and the trace "a" with the span "b||c".
composite_key-collides_example :
    composite_key (0x61 ∷ 0x7c ∷ 0x7c ∷ 0x62 ∷ []) (0x63 ∷ [])
    ≡ composite_key (0x61 ∷ []) (0x62 ∷ 0x7c ∷ 0x7c ∷ 0x63 ∷ [])
composite_key-collides_example = composite_key-collides (0x61 ∷ []) (0x62 ∷ []) (0x63 ∷ [])
