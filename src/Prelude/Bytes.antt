-- ===== src/Prelude/Bytes.antt =====
-- Go's byte slices and strings, as lists of numbers, and encoding/binary's little endian integers.
use Prim.Native.Nat.{ℕ, zero, suc, ◌+◌, ◌*◌, ◌/◌, ◌%◌, ◌^◌, ◌<◌}
use mathlib.Core.Path.{◌≡◌, refl, ap, sym, ◌∙◌}
use mathlib.Core.Logic.{◌↔◌}
use mathlib.Core.Bool.{Bool, true, false, ◌&&◌}
use mathlib.Core.List.{List, [], ◌∷◌, ◌++◌}
use native.Mathlib.Omega.{arith}
use native.Mathlib.Nat.{pow-suc}
use wisp_trace_db.Prelude.Tests.{◌==◌, if◌then◌else◌, ltb}
use wisp_trace_db.Prelude.Lists.{length, take, drop, drop_split}

abbrev pub Bytes : Type 0
Bytes = List ℕ

-- `==` and `<` of Go strings, byte by byte.
unfoldable pub str_eq : Bytes → Bytes → Bool
str_eq [] [] = true
str_eq [] (b ∷ bs) = false
str_eq (a ∷ as') [] = false
str_eq (a ∷ as') (b ∷ bs) = (a == b) && str_eq as' bs

unfoldable pub str_lt : Bytes → Bytes → Bool
str_lt [] [] = false
str_lt [] (b ∷ bs) = true
str_lt (a ∷ as') [] = false
str_lt (a ∷ as') (b ∷ bs) = if ltb a b then true else (a == b) && str_lt as' bs

-- LittleEndian.PutUint of w bytes, which drops what does not fit, and LittleEndian.Uint.
unfoldable pub put_uint : ℕ → ℕ → Bytes
put_uint zero x = []
put_uint (suc w) x = (x % 256) ∷ put_uint w (x / 256)

unfoldable pub uint : Bytes → ℕ
uint [] = 0
uint (b ∷ bs) = b + 256 * uint bs

pub length-put_uint : (w x : ℕ) → length (put_uint w x) ≡ w
unfolding put_uint
length-put_uint zero x = refl
length-put_uint (suc w) x = ap suc (length-put_uint w (x / 256))

pub uint-put_uint : (w x : ℕ) → x < 256 ^ w → uint (put_uint w x) ≡ x
unfolding put_uint uint
uint-put_uint zero x h = omega arith
uint-put_uint (suc w) x h =
    let bound : x < 256 ^ w * 256 = rw (← pow-suc) h in
    omega (arith, uint-put_uint w (x / 256) (omega arith))

pub str_eq_self : (s : Bytes) → str_eq s s ≡ true
unfolding str_eq
str_eq_self [] = refl
str_eq_self (a ∷ s) = ground (arith, str_eq_self s)

pub str_eq→eq : (s t : Bytes) → str_eq s t ≡ true → s ≡ t
unfolding str_eq
str_eq→eq [] [] h = refl
str_eq→eq [] (b ∷ bs) h = cc
str_eq→eq (a ∷ s) [] h = cc
str_eq→eq (a ∷ s) (b ∷ t) h = ground (arith, str_eq→eq s t)

pub str_eq_iff : (s t : Bytes) → (str_eq s t ≡ true) ↔ (s ≡ t)
str_eq_iff s t = (str_eq→eq s t, λ e. rw e (str_eq_self t))

-- A reader at offset `a` finds `w` bytes of an integer, and `back` behind them.
pub uint_at :
    (bytes : Bytes) (a w x : ℕ) (back : Bytes)
    → x < 256 ^ w
    → drop a bytes ≡ put_uint w x ++ back
    → (uint (take w (drop a bytes)) ≡ x) × (drop (a + w) bytes ≡ back)
uint_at bytes a w x back h e =
    let (found, behind) = drop_split bytes a w (put_uint w x) back (sym (length-put_uint w x)) e in
    (ap uint found ∙ uint-put_uint w x h, behind)
