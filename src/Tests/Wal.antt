-- ===== src/Tests/Wal.antt =====
-- Examples for the write-ahead log.
use wisp_trace_db.Prelude.{
  ℕ, zero, suc, ap, length-take, length-append, ◌<◌, ◌≡◌, ◌≢◌, refl, ◌∙◌, append-nil, true, false,
  List, [], ◌∷◌, ◌++◌, map, length, take, replicate, keep, ltb, none, some, ok, err, arith,
  length-replicate,
}
use wisp_trace_db.Prelude.Int.{pos, negsuc}
use wisp_trace_db.Prelude.Bytes.{Bytes}
use wisp_trace_db.Crc.{checksum_ieee}
use wisp_trace_db.Wal.Span.{Span, WalRecord, empty_span, IsEncodable, io_error, stuck}
use wisp_trace_db.Wal.Codec.{encode_span_payload, decode_span_payload}
use wisp_trace_db.Wal.Codec.RoundTrip.{decode-encode}
use wisp_trace_db.Wal.Codec.Decoding.{decode-encode_long}
use wisp_trace_db.Wal.Codec.{payload_encoded_size}
use wisp_trace_db.Wal.Record.{record_version, frame_record, record_size, replay_segment}
use wisp_trace_db.Wal.Record.Reading.{IsStorable, length-frame_record, stored}
use wisp_trace_db.Wal.Record.Replay.{frames, replay_torn, replay_segment-ne-stuck}
use wisp_trace_db.Wal.Log.{
  Wal, no_faults, append_record_with_seg, remove_segments_up_to, replay, create_wal,
}
use wisp_trace_db.Wal.Log.Holds.{Holds, records, file_of}
use wisp_trace_db.Wal.Log.Append.{Fits, append-Holds, sealed_after, active_after, id_after}
use wisp_trace_db.Wal.Log.Recovery.{replay-append, replay-append_cut, cut_write}
use wisp_trace_db.Wal.Log.Reclaim.{remove_segments_up_to-Holds}
use wisp_trace_db.Wal.Log.Reopen.{create_wal-Holds, append_lost, TornTail}

-- The check value of CRC-32: the checksum of "123456789".
checksum_ieee_check :
    checksum_ieee (0x31 ∷ 0x32 ∷ 0x33 ∷ 0x34 ∷ 0x35 ∷ 0x36 ∷ 0x37 ∷ 0x38 ∷ 0x39 ∷ []) ≡ 0xcbf43926
unfolding checksum_ieee
checksum_ieee_check = refl

abbrev pub call : Span
call = record empty_span {
  trace_id = 0x74 ∷ 0x31 ∷ [];
  span_id = 0x61 ∷ [];
  timestamp = pos 1700000000000000000;
  latency_ms = negsuc 2;
  cost = 4607182418800017408;
  payload = 0x7b ∷ 0x7d ∷ [];
}

pub call-IsEncodable : IsEncodable call
call-IsEncodable = record {
  trace_id = omega arith;
  span_id = omega arith;
  parent_span_id = omega arith;
  agent_id = omega arith;
  model = omega arith;
  tool_name = omega arith;
  team = omega arith;
  status = omega arith;
  timestamp = (omega arith, omega arith);
  tokens_in = (omega arith, omega arith);
  tokens_out = (omega arith, omega arith);
  cost = omega arith;
  latency_ms = (omega arith, omega arith);
  payload = omega arith;
}

decode-encode_example : decode_span_payload (encode_span_payload call ++ (7 ∷ [])) ≡ ok call
decode-encode_example = decode-encode call (7 ∷ []) call-IsEncodable

abbrev pub first : WalRecord
first = record { version = 0; span = call }

pub first-IsStorable : IsStorable first
unfolding record_version payload_encoded_size
first-IsStorable = record { encodable = call-IsEncodable; version = refl; size = omega arith }

pub first_size : record_size first ≡ 67
unfolding record_size payload_encoded_size
first_size = refl

length-first : length (frames (first ∷ [])) ≡ 67
unfolding frames
length-first = rw (append-nil) (length-frame_record first ∙ first_size)

abbrev pub log : Wal
log = record {
  files = (3, frames (first ∷ [])) ∷ (4, frames (first ∷ [])) ∷ [];
  file = true;
  segment_id = 4;
  size = length (frames (first ∷ []));
  max_segment_size = 100;
}

pub log-Holds : Holds ((3, first ∷ []) ∷ []) (first ∷ []) log
log-Holds = record {
  files = refl;
  ascending = ((omega arith, tt), (tt, tt));
  storable = ((first-IsStorable, tt), ((first-IsStorable, tt), tt));
  is_open = refl;
  size = refl;
}

pub first-Fits : Fits first log
first-Fits = record {
  storable = first-IsStorable;
  size = omega (arith, length-first, first_size);
  id = omega arith;
}

replay-append_example :
    (before : List WalRecord) × (replay no_faults log ≡ ok before)
    × (replay no_faults (append_record_with_seg no_faults first log).0
        ≡ ok (before ++ stored first ∷ []))
replay-append_example =
    replay-append ((3, first ∷ []) ∷ []) (first ∷ []) first log log-Holds first-Fits

replay-append_cut_example :
    ((append_record_with_seg (cut_write 20) first log).1 ≡ err io_error)
    × (replay no_faults (append_record_with_seg (cut_write 20) first log).0 ≡ replay no_faults log)
replay-append_cut_example =
    replay-append_cut ((3, first ∷ []) ∷ []) (first ∷ []) first log 20 log-Holds first-Fits
      (omega (arith, first_size))

append-Holds_example :
    Holds
      (sealed_after ((3, first ∷ []) ∷ []) (first ∷ []) first log)
      (active_after (first ∷ []) first log)
      (append_record_with_seg no_faults first log).0
    × ((append_record_with_seg no_faults first log).1 ≡ ok (id_after first log))
    × ((append_record_with_seg no_faults first log).0.segment_id ≡ id_after first log)
append-Holds_example =
    append-Holds ((3, first ∷ []) ∷ []) (first ∷ []) first log log-Holds first-Fits

-- The append of the example overflows the active segment.
example_rotates : id_after first log ≡ 5
example_rotates =
    let size : length (frames (first ∷ [])) ≡ 67 = length-first in
    rw (length-first, first_size) refl

remove_segments_up_to-Holds_example :
    Holds
      (keep (λ s. ltb 3 s.0) ((3, first ∷ []) ∷ []))
      (first ∷ [])
      (remove_segments_up_to no_faults 3 log).0
    × ((remove_segments_up_to no_faults 3 log).1 ≡ ok tt)
remove_segments_up_to-Holds_example =
    remove_segments_up_to-Holds ((3, first ∷ []) ∷ []) (first ∷ []) 3 log log-Holds

create_wal-Holds_example :
    Holds ((3, first ∷ []) ∷ []) (first ∷ []) (create_wal no_faults log.files none 100).0
create_wal-Holds_example = create_wal-Holds ((3, first ∷ []) ∷ []) (first ∷ []) 100 log log-Holds

-- The first bytes of a list, and a byte behind them.
cut_at :
    (n : ℕ) (xs : Bytes) → n < length xs → (x : ℕ) × (back : Bytes) × (xs ≡ take n xs ++ (x ∷ back))
cut_at n [] h = absurd (omega arith)
cut_at zero (x ∷ xs) h = (x, xs, refl)
cut_at (suc n) (x ∷ xs) h =
    let (y, back, e) = cut_at n xs (omega arith) in (y, back, ap (λ t. x ∷ t) e)

first_cut :
    (x : ℕ) × (back : Bytes) × (frame_record first ≡ take 20 (frame_record first) ++ (x ∷ back))
first_cut = cut_at 20 (frame_record first) (omega (arith, length-frame_record first, first_size))

first_front : take 20 (frame_record first) ≢ []
first_front e =
    omega (
      arith,
      ap length e,
      length-take 20 (frame_record first),
      length-frame_record first,
      first_size,
    )

replay_torn_example :
    replay_segment (some (frames (first ∷ []) ++ take 20 (frame_record first))) true
    ≡ ok (map stored (first ∷ []))
replay_torn_example =
    replay_torn true (first ∷ []) first (take 20 (frame_record first)) first_cut.0 first_cut.1
      (first-IsStorable, tt) first-IsStorable first_front first_cut.2

-- A record with a payload of 100 bytes, of which a crash left only the header.
abbrev long : WalRecord
long = record first { span = record call { payload = replicate 100 0x20 } }

long-IsStorable : IsStorable long
unfolding record_version payload_encoded_size
long-IsStorable = record {
  encodable = record {
    trace_id = call-IsEncodable.trace_id;
    span_id = call-IsEncodable.span_id;
    parent_span_id = call-IsEncodable.parent_span_id;
    agent_id = call-IsEncodable.agent_id;
    model = call-IsEncodable.model;
    tool_name = call-IsEncodable.tool_name;
    team = call-IsEncodable.team;
    status = call-IsEncodable.status;
    timestamp = call-IsEncodable.timestamp;
    tokens_in = call-IsEncodable.tokens_in;
    tokens_out = call-IsEncodable.tokens_out;
    cost = call-IsEncodable.cost;
    latency_ms = call-IsEncodable.latency_ms;
    payload = omega arith;
  };
  version = refl;
  size = omega arith;
}

long_size : record_size long ≡ 165
unfolding record_size payload_encoded_size
long_size = refl

long_cut : (x : ℕ) × (back : Bytes) × (frame_record long ≡ take 9 (frame_record long) ++ (x ∷ back))
long_cut = cut_at 9 (frame_record long) (omega (arith, length-frame_record long, long_size))

long_front : length (take 9 (frame_record long)) ≡ 9
long_front = omega (arith, length-take 9 (frame_record long), length-frame_record long, long_size)

torn_length : length (frames (first ∷ []) ++ take 9 (frame_record long)) ≡ 76
torn_length = omega (
  arith,
  length-append (frames (first ∷ [])) (take 9 (frame_record long)),
  length-first,
  long_front,
)

torn-TornTail :
    TornTail ((3, first ∷ []) ∷ []) 4 (first ∷ []) long first (take 9 (frame_record long)) 1000
torn-TornTail = record {
  ascending = ((omega arith, tt), (tt, tt));
  sealed = ((first-IsStorable, tt), tt);
  active = (first-IsStorable, tt);
  torn = long-IsStorable;
  header = omega (arith, long_front);
  next = record {
    storable = first-IsStorable;
    size = omega (arith, torn_length, first_size);
    id = omega arith;
  };
  stays = rw (torn_length, first_size) refl;
  short = omega (arith, long_front, first_size, long_size);
}

append_lost_example :
    let w =
      (create_wal no_faults
        (map file_of ((3, first ∷ []) ∷ [])
          ++ (4, frames (first ∷ []) ++ take 9 (frame_record long)) ∷ [])
        none
        1000).0 in
    ((append_record_with_seg no_faults first w).1 ≡ ok 4)
    × (replay no_faults (append_record_with_seg no_faults first w).0
        ≡ ok (records ((3, first ∷ []) ∷ (4, first ∷ []) ∷ [])))
append_lost_example =
    append_lost ((3, first ∷ []) ∷ []) 4 (first ∷ []) long first (take 9 (frame_record long))
      long_cut.0 long_cut.1 1000 torn-TornTail long_cut.2

replay_segment-ne-stuck_example : replay_segment (some (1 ∷ 2 ∷ 3 ∷ [])) false ≢ err stuck
replay_segment-ne-stuck_example = replay_segment-ne-stuck (some (1 ∷ 2 ∷ 3 ∷ [])) false

abbrev long_id : Span
long_id = record empty_span { trace_id = replicate 65536 0x74 }

decode-encode_long_example : decode_span_payload (encode_span_payload long_id) ≢ ok long_id
decode-encode_long_example =
    decode-encode_long long_id (omega (arith, length-replicate {A = ℕ} 65536 0x74))
