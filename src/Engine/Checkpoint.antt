-- ===== src/Engine/Checkpoint.antt =====
-- internal/engine/checkpoint.go, on the bytes of the checkpoint file, `none` where there is no file.
use wisp_trace_db.Prelude.{
  ℕ, ◌^◌, ◌<◌, ◌==◌, ◌≡◌, refl, Bool, true, false, not, Option, none, some, length, if◌then◌else◌,
  Result, ok, err,
}
use wisp_trace_db.Prelude.Bytes.{Bytes, put_uint, uint, length-put_uint, uint-put_uint}

pub data CheckpointError : Type 0 where
  corrupt io_error : CheckpointError

unfoldable pub load : Option Bytes → Result CheckpointError ℕ
load none = ok 0
load (some bytes) = if not (length bytes == 8) then err corrupt else ok (uint bytes)

-- Save. The bytes are written to another file, which is renamed at the end.
unfoldable pub save : Bool → ℕ → Option Bytes → Option Bytes × Result CheckpointError Unit
save true segment_id file = (some (put_uint 8 segment_id), ok tt)
save false segment_id file = (file, err io_error)

-- What Load returns after Save of an id that fits 64 bits: the id, where Save succeeded, and what
-- it returned before, where Save failed.
pub load-save_checkpoint :
    (io_ok : Bool) (id : ℕ) (file : Option Bytes)
    → id < 2 ^ 64
    → load (save io_ok id file).0 ≡ (if io_ok then ok id else load file)
unfolding load save
load-save_checkpoint true id file h = rw (length-put_uint 8 id, uint-put_uint 8 id h)
load-save_checkpoint false id file h = refl
