-- ===== src/Tests/Cache.antt =====
-- Examples for the cache of segment readers.
use wisp_trace_db.Prelude.{ℕ, ◌≡◌, refl, Bool, true, false, [], ◌∷◌, arith, ok, err}
use wisp_trace_db.Prelude.Bytes.{put_uint, uint}
use wisp_trace_db.Prelude.Int.{pos, int64, uint64}
use wisp_trace_db.Segment.Format.{Header}
use wisp_trace_db.Segment.Writer.{Dir, write_header, read_file}
use wisp_trace_db.Segment.Reader.{Reader, open_reader_light, read_header, read_full}
use wisp_trace_db.Segment.Cache.{
  CacheError, mem, find_entry, open_light, acquire, release, purge, wait_round, update, finished,
}
use wisp_trace_db.Segment.Cache.Handles.{
  Handles, cached, put_handle, release_by, release_handle, release_by-release_handle,
}
use wisp_trace_db.Segment.Cache.Eviction.{IsCut}
use wisp_trace_db.Segment.Cache.Listing.{count}
use wisp_trace_db.Segment.Cache.Runs.{
  System, Waiter, wakes, acquires, releases, purges, Reach, here, next, settle, hold,
}
use wisp_trace_db.Segment.Cache.Safety.{
  new_system, held_stays_open, purged_stays_shut, acquire-IsCut, release_last, purge_again,
}

abbrev header : Header
header = record {
  segment_id = 7;
  span_count = 0;
  min_timestamp = pos 0;
  max_timestamp = pos 0;
  bloom_section_length = 0;
}

abbrev blank : Reader
blank = record { file = []; header = header; blooms = [] }

abbrev dir : Dir
dir = (7, write_header header) ∷ (8, write_header header) ∷ []

abbrev closes : ℕ → Bool
closes p = true

-- A cache of one reader: 7 and 8 are acquired, 7 is purged and times out, 7 and 8 are released.
abbrev idle : System
idle = new_system blank 1

abbrev one : System
one = record idle {
  cache = (acquire dir 7 idle.cache).0;
  held = hold (acquire dir 7 idle.cache).1 idle.held;
}

one-Reach : Reach idle one
unfolding new_system
one-Reach = next here (acquires dir 7 (omega arith))

held_stays_open_example : (one.cache.entry 0).closed ≡ false
unfolding new_system acquire mem find_entry open_light read_file open_reader_light read_header
    read_full write_header put_uint uint
held_stays_open_example = held_stays_open blank 1 one one-Reach 0 refl refl

acquire-IsCut_example : IsCut (acquire dir 8 one.cache).0
unfolding new_system acquire mem find_entry open_light read_file open_reader_light read_header
    read_full write_header put_uint uint int64 uint64
acquire-IsCut_example =
    acquire-IsCut blank 1 one one-Reach dir 8 (record blank { file = write_header header })
      (omega arith) refl refl refl refl

abbrev two : System
two = settle (7 ∷ []) false one.held one.waiters one.purged (purge closes (7 ∷ []) one.cache)

two-Reach : Reach idle two
unfolding new_system acquire mem find_entry open_light read_file open_reader_light read_header
    read_full write_header put_uint uint
two-Reach = next one-Reach (purges closes (7 ∷ []) refl (λ id m. refl))

abbrev waiting : Waiter
waiting = record { ids = 7 ∷ []; force = false; pending = 0 ∷ []; first = ok tt }

abbrev three : System
three =
    settle (7 ∷ []) false two.held [] two.purged
      (wait_round closes false true (0 ∷ []) (ok tt) two.cache)

three-Reach : Reach idle three
unfolding new_system acquire mem find_entry open_light read_file open_reader_light read_header
    read_full write_header put_uint uint purge update
three-Reach = next two-Reach (wakes closes true waiting [] [] refl)

purge_again_example :
    let r = purge closes (7 ∷ []) three.cache in
    (r.1 ≡ finished (ok tt)) × ((p : ℕ) → r.0.entry p ≡ three.cache.entry p)
unfolding new_system acquire mem find_entry open_light read_file open_reader_light read_header
    read_full write_header put_uint uint purge update wait_round
purge_again_example =
    purge_again blank 1 three three-Reach closes (7 ∷ []) refl (λ id m. ground arith)

release_last_example : ((release closes 0 three.cache).0.entry 0).closed ≡ true
unfolding new_system acquire mem find_entry open_light read_file open_reader_light read_header
    read_full write_header put_uint uint purge update wait_round count
release_last_example = release_last blank 1 three three-Reach closes 0 refl refl

abbrev four : System
four = record one { cache = (release closes 0 one.cache).0; held = [] }

four-Reach : Reach idle four
unfolding new_system acquire mem find_entry open_light read_file open_reader_light read_header
    read_full write_header put_uint uint
four-Reach = next one-Reach (releases closes 0 [] [] refl)

abbrev five : System
five = settle (7 ∷ []) false four.held four.waiters four.purged (purge closes (7 ∷ []) four.cache)

five-Reach : Reach idle five
unfolding new_system acquire mem find_entry open_light read_file open_reader_light read_header
    read_full write_header put_uint uint release update
five-Reach = next four-Reach (purges closes (7 ∷ []) refl (λ id m. refl))

purged_stays_shut_example :
    ((p : ℕ) → (five.cache.entry p).id ≡ 7 → (five.cache.entry p).closed ≡ true)
    × ((d : Dir) → (e : CacheError) × (acquire d 7 five.cache ≡ (five.cache, err e)))
unfolding new_system acquire mem find_entry open_light read_file open_reader_light read_header
    read_full write_header put_uint uint release update purge
purged_stays_shut_example = purged_stays_shut blank 1 five five-Reach 7 refl

-- The handle 0 is that of the entry 0, in use by its only owner; its second owner gets it for the
-- entry again.
abbrev handles : Handles
handles =
    (release_handle 0 0
      (record { handle = λ r. record { target = cached 0; fired = true }; next = 0; pool = [] })).0

release_by-release_handle_example :
    let first = release_by closes true 0 (one.cache, handles) in
    let given = release_handle 0 0 first.0.1 in
    let again = release_by closes true 0 (first.0.0, given.0) in
    (first.0.0 ≡ (release closes 0 one.cache).0)
    × (given.1 ≡ 0)
    × (again.0.0 ≡ (release closes 0 first.0.0).0)
unfolding release_handle put_handle
release_by-release_handle_example =
    release_by-release_handle closes true 0 0 0 one.cache handles refl refl
