-- ===== src/Segment/Manifest.antt =====
-- internal/segment/manifest.go, on the bytes of the manifest file, `none` where there is no file.
pub mod Live
use wisp_trace_db.Prelude.{
  ℕ, zero, suc, ◌/◌, ◌%◌, ◌==◌, Bool, true, false, not, Option, none, some, List, [], ◌∷◌, ◌++◌,
  length, take, drop, keep, if◌then◌else◌, Result, ok, err,
}
use wisp_trace_db.Prelude.Sort.{sort_ids}
use wisp_trace_db.Prelude.Bytes.{Bytes, put_uint, uint}

pub data ManifestError : Type 0 where
  corrupt io_error : ManifestError

-- The n ids at the front of the data.
unfoldable pub read_ids : ℕ → Bytes → List ℕ
read_ids zero bytes = []
read_ids (suc n) bytes = uint (take 8 bytes) ∷ read_ids n (drop 8 bytes)

-- Load, on what ReadFile gives.
unfoldable pub load : Option Bytes → Result ManifestError (List ℕ)
unfolding read_ids
load none = ok []
load (some bytes) =
    if not (length bytes % 8 == 0) then err corrupt else ok (read_ids (length bytes / 8) bytes)

unfoldable pub write_ids : List ℕ → Bytes
write_ids [] = []
write_ids (id ∷ ids) = put_uint 8 id ++ write_ids ids

-- Save. The bytes are written to another file, which is renamed at the end: where a call of the
-- operating system fails (`io_ok` is false) the manifest is as it was.
unfoldable pub save : Bool → List ℕ → Option Bytes → Option Bytes × Result ManifestError Unit
unfolding write_ids
save true ids file = (some (write_ids (sort_ids ids)), ok tt)
save false ids file = (file, err io_error)

-- The loop of AddSegment that looks for the id, and the set of RemoveSegments.
unfoldable pub contains : ℕ → List ℕ → Bool
contains id [] = false
contains id (x ∷ xs) = if x == id then true else contains id xs

unfoldable pub add_segment : Bool → ℕ → Option Bytes → Option Bytes × Result ManifestError Unit
add_segment io_ok id file = elim (load file) [
  | err e ↦ (file, err e)
  | ok ids ↦ if contains id ids then (file, ok tt) else save io_ok (ids ++ id ∷ []) file
]

unfoldable pub remove_segments : List ℕ → List ℕ → List ℕ
remove_segments ids remove = keep (λ id. not (contains id remove)) ids
