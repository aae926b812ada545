-- ===== src/Index.antt =====
-- internal/pebble/pebble.go: the index of spans, a thin layer over the key-value store pebble. The store
-- is not part of the repository: it is the parameter `kv`, and what the layer relies on is KvLaws.
pub mod Location
pub mod Prefix
pub mod Batches
pub mod Scans
pub mod Keys
use wisp_trace_db.Prelude.{
  ℕ, ◌+◌, ◌==◌, Bool, true, false, not, Option, none, some, List, [], ◌∷◌, ◌++◌, map, length, take,
  drop, ltb, if◌then◌else◌, Result, ok, err, ◌>>=◌,
}
use wisp_trace_db.Prelude.Bytes.{Bytes, put_uint, uint}
use wisp_trace_db.Prelude.Dict.{Dict, insert}

pub record SpanLocation : Type 0 where
  pub segment_id : ℕ
  pub offset : ℕ

pub data IndexError : Type 0 where
  closed not_found bad_location store_failed : IndexError

-- What a batch collects.
pub data Op : Type 0 where
  set_op : Bytes → Bytes → Op
  delete_op : Bytes → Op

-- The calls of pebble.DB. Each may fail.
pub record Kv : Type 1 where
  pub State : Type 0
  pub get : Bytes → State → Result IndexError Bytes
  pub set : Bytes → Bytes → State → State × Result IndexError Unit
  pub delete : Bytes → State → State × Result IndexError Unit
  pub commit : List Op → State → State × Result IndexError Unit
  -- What an iterator between two bounds visits, and what its Error answers when no more is valid.
  pub iterate :
      Option Bytes
      → Option Bytes
      → State
      → Result IndexError (List (Bytes × Bytes) × Result IndexError Unit)

unfoldable pub encode_span_location : SpanLocation → Bytes
encode_span_location loc = put_uint 8 loc.segment_id ++ put_uint 8 loc.offset

unfoldable pub decode_span_location : Bytes → Result IndexError SpanLocation
decode_span_location bytes =
    if not (length bytes == 16)
    then err bad_location
    else ok (record {
      segment_id = uint (take 8 (drop 0 bytes));
      offset = uint (take 8 (drop 8 bytes));
    })

-- prefixUpperBound's loop from the last byte backwards: the front of the prefix up to its last byte
-- that is not 0xff, with that byte incremented.
unfoldable pub prefix_upper_bound : Bytes → Option Bytes
prefix_upper_bound [] = none
prefix_upper_bound (b ∷ bs) = elim (prefix_upper_bound bs) [
  | some upper ↦ some (b ∷ upper)
  | none ↦ if not (b == 0xff) then some ((b + 1) ∷ []) else none
]

-- The values of an iterator, decoded in order up to the first that does not decode.
unfoldable pub decode_all : List (Bytes × Bytes) → Result IndexError (List (Bytes × SpanLocation))
decode_all [] = ok []
decode_all ((k, v) ∷ items) = do
  location ← decode_span_location v
  rest ← decode_all items
  ok ((k, location) ∷ rest)

unfoldable pub to_dict : List (Bytes × SpanLocation) → Dict SpanLocation → Dict SpanLocation
to_dict [] m = m
to_dict ((k, location) ∷ items) m = to_dict items (insert k location m)

abbrev put_op : Bytes × SpanLocation → Op
put_op (k, location) = set_op k (encode_span_location location)

module _ (kv : Kv) where
  -- DB: `none` where the handle is nil.
  abbrev pub Db : Type 0
  Db = Option kv.State

  -- A call on the store, which may change its state.
  abbrev write : (kv.State → kv.State × Result IndexError Unit) → Db → Db × Result IndexError Unit
  write f none = (none, err closed)
  write f (some state) = (some (f state).0, (f state).1)

  unfoldable pub put_span : Bytes → SpanLocation → Db → Db × Result IndexError Unit
  put_span key location db = write (kv.set key (encode_span_location location)) db

  unfoldable pub get_span : Bytes → Db → Result IndexError SpanLocation
  get_span key none = err closed
  get_span key (some state) = kv.get key state >>= decode_span_location

  unfoldable pub delete_span : Bytes → Db → Db × Result IndexError Unit
  delete_span key db = write (kv.delete key) db

  -- PrefixScan, which does not ask the iterator for its error: where that failed midway, the
  -- locations up to there are all.
  unfoldable pub prefix_scan : Bytes → Db → Result IndexError (List SpanLocation)
  prefix_scan prefix none = err closed
  prefix_scan prefix (some state) = do
    visited ← kv.iterate (some prefix) (prefix_upper_bound prefix) state
    locations ← decode_all visited.0
    ok (map (λ p. p.1) locations)

  unfoldable pub scan_all : Db → Result IndexError (Dict SpanLocation)
  unfolding to_dict
  scan_all none = err closed
  scan_all (some state) = do
    visited ← kv.iterate none none state
    locations ← decode_all visited.0
    finished ← visited.1
    ok (to_dict locations [])

  -- A batch of no operations is not committed.
  abbrev commit_some : List Op → kv.State → kv.State × Result IndexError Unit
  commit_some [] state = (state, ok tt)
  commit_some (op ∷ ops) state = kv.commit (op ∷ ops) state

  unfoldable pub batch_put_spans : Dict SpanLocation → Db → Db × Result IndexError Unit
  batch_put_spans entries db = write (commit_some (map put_op entries)) db

  -- The deletes stand before the puts in the batch.
  unfoldable pub batch_apply_spans :
      Dict SpanLocation → List Bytes → Db → Db × Result IndexError Unit
  batch_apply_spans puts delete_keys db =
      write (commit_some (map delete_op delete_keys ++ map put_op puts)) db

  unfoldable pub batch_delete_spans : List Bytes → Db → Db × Result IndexError Unit
  batch_delete_spans keys db = write (commit_some (map delete_op keys)) db
