-- ===== src/Prelude/Sort.antt =====
-- sort.Slice on ids, and lists in strictly ascending order, which sorting leaves alone.
use wisp_trace_db.Prelude.Tests.{leb, if◌then◌else◌}
use wisp_trace_db.Prelude.Lists.{All, All-append, All-front}
use Prim.Native.Nat.{ℕ, ◌<◌}
use mathlib.Core.Path.{◌≡◌, refl}
use mathlib.Core.List.{List, [], ◌∷◌, ◌++◌}
use native.Mathlib.Omega.{arith}

unfoldable pub insert_id : ℕ → List ℕ → List ℕ
insert_id x [] = x ∷ []
insert_id x (y ∷ ys) = if leb x y then x ∷ y ∷ ys else y ∷ insert_id x ys

unfoldable pub sort_ids : List ℕ → List ℕ
unfolding insert_id
sort_ids [] = []
sort_ids (x ∷ xs) = insert_id x (sort_ids xs)

abbrev pub Ascending : List ℕ → Type 0
Ascending [] = Unit
Ascending (x ∷ xs) = All (λ y. x < y) xs × Ascending xs

insert_id-least : (x : ℕ) (xs : List ℕ) → All (λ y. x < y) xs → insert_id x xs ≡ x ∷ xs
unfolding insert_id
insert_id-least x [] h = refl
insert_id-least x (y ∷ ys) h = ground arith

pub sort_ids-Ascending : (xs : List ℕ) → Ascending xs → sort_ids xs ≡ xs
unfolding sort_ids
sort_ids-Ascending [] h = refl
sort_ids-Ascending (x ∷ xs) h = rw (sort_ids-Ascending xs h.1) (insert_id-least x xs h.0)

pub All-lt_trans : (x y : ℕ) (zs : List ℕ) → x < y → All (λ z. y < z) zs → All (λ z. x < z) zs
All-lt_trans x y [] h k = tt
All-lt_trans x y (z ∷ zs) h k = (omega arith, All-lt_trans x y zs h k.1)

last-All : (P : ℕ → Type 0) (xs : List ℕ) (y : ℕ) → All P (xs ++ y ∷ []) → P y
last-All P [] y h = h.0
last-All P (x ∷ xs) y h = last-All P xs y h.1

-- A list that ascends, and a larger id behind it.
pub Ascending-append_last :
    (xs : List ℕ) (y : ℕ) → Ascending xs → All (λ x. x < y) xs → Ascending (xs ++ y ∷ [])
Ascending-append_last [] y h k = (tt, tt)
Ascending-append_last (x ∷ xs) y h k =
    (All-append (λ z. x < z) xs (y ∷ []) h.0 (k.0, tt), Ascending-append_last xs y h.1 k.1)

-- The last id of a list that ascends is above the others.
pub All-below_last : (xs : List ℕ) (y : ℕ) → Ascending (xs ++ y ∷ []) → All (λ x. x < y) xs
All-below_last [] y h = tt
All-below_last (x ∷ xs) y h = (last-All (λ z. x < z) xs y h.0, All-below_last xs y h.1)

pub Ascending-front : (xs ys : List ℕ) → Ascending (xs ++ ys) → Ascending xs
Ascending-front [] ys h = tt
Ascending-front (x ∷ xs) ys h = (All-front (λ z. x < z) xs ys h.0, Ascending-front xs ys h.1)
