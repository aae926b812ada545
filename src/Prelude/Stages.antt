-- ===== src/Prelude/Stages.antt =====
-- A Go method that changes its receiver and may return early with an error, as stretches one behind
-- the other.
use wisp_trace_db.Prelude.Tests.{Result, ok, err}
use wisp_trace_db.Prelude.{◌≡◌, refl}

abbrev pub and_then :
    {S E A B : Type 0} → S × Result E A → (A → S → S × Result E B) → S × Result E B
and_then (w, ok a) f = f a w
and_then (w, err e) f = (w, err e)

infixl 5 ◌>>=◌ ◌>>◌
abbrev pub ◌>>=◌ :
    {S E A B : Type 0} → (S → S × Result E A) → (A → S → S × Result E B) → S → S × Result E B
◌>>=◌ m f w = and_then (m w) f

abbrev pub ◌>>◌ :
    {S E B : Type 0} → (S → S × Result E (Unit {0})) → (S → S × Result E B) → S → S × Result E B
m >> k = m >>= λ _. k

-- The error of a call, as the one it is wrapped in.
abbrev pub wrap : {D E A : Type 0} → (D → E) → Result D A → Result E A
wrap f (ok a) = ok a
wrap f (err e) = err (f e)

-- A stretch that succeeds has two parts that succeed.
pub and_then_ok :
    {S E A B : Type 0} (r : S × Result E A) (f : A → S → S × Result E B) (b : B)
    → (and_then r f).1 ≡ ok b
    → (a : A) × (r.1 ≡ ok a) × (and_then r f ≡ f a r.0)
and_then_ok (v, ok a) f b h = (a, refl, refl)
and_then_ok (v, err e) f b h = absurd cc

pub wrap_ok : {D E A : Type 0} (f : D → E) (r : Result D A) (a : A) → wrap f r ≡ ok a → r ≡ ok a
wrap_ok f (ok b) a h = cc
wrap_ok f (err e) a h = absurd cc
