-- ===== src/Index/Prefix.antt =====
-- prefixUpperBound of internal/pebble/pebble.go: the bounds of a prefix scan.
use wisp_trace_db.Prelude.{
  ℕ, ◌+◌, ◌<◌, ◌==◌, ◌≡◌, refl, sym, ◌∙◌, Bool, true, false, not, ◌&&◌, Option, none, some, [], ◌∷◌,
  All, arith, Option-cases, Bool-cases, inl, inr, ap,
}
use wisp_trace_db.Prelude.Bytes.{Bytes, str_lt}
use wisp_trace_db.Index.{prefix_upper_bound}

-- The key begins with the prefix.
unfoldable pub has_prefix : Bytes → Bytes → Bool
has_prefix [] k = true
has_prefix (p ∷ ps) [] = false
has_prefix (p ∷ ps) (b ∷ bs) = (p == b) && has_prefix ps bs

-- The key lies within the bounds of an iterator: at the lower or above, and below the upper.
abbrev pub below : Bytes → Option Bytes → Bool
below k none = true
below k (some upper) = str_lt k upper

abbrev pub within : Bytes → Option Bytes → Bytes → Bool
within lower upper k = not (str_lt k lower) && below k upper

abbrev pub AreBytes : Bytes → Type 0
AreBytes bs = All (λ b. b < 256) bs

upper_cons :
    (p : ℕ) (ps : Bytes) {upper : Bytes}
    → prefix_upper_bound ps ≡ some upper
    → prefix_upper_bound (p ∷ ps) ≡ some (p ∷ upper)
unfolding prefix_upper_bound
upper_cons p ps e = rw (prefix_upper_bound, e)

upper_last :
    (p : ℕ) (ps : Bytes)
    → prefix_upper_bound ps ≡ none
    → (p == 0xff) ≡ true
    → prefix_upper_bound (p ∷ ps) ≡ none
unfolding prefix_upper_bound
upper_last p ps e h = rw (prefix_upper_bound, e, h)

upper_next :
    (p : ℕ) (ps : Bytes)
    → prefix_upper_bound ps ≡ none
    → (p == 0xff) ≡ false
    → prefix_upper_bound (p ∷ ps) ≡ some ((p + 1) ∷ [])
unfolding prefix_upper_bound
upper_next p ps e h = rw (prefix_upper_bound, e, h)

str_lt_nil : (bs : Bytes) → str_lt bs [] ≡ false
unfolding str_lt
str_lt_nil [] = refl
str_lt_nil (b ∷ bs) = refl

-- The keys of bytes within the bounds of a prefix scan are exactly those that begin with the
-- prefix.
pub within-prefix_upper_bound :
    (prefix k : Bytes)
    → AreBytes k
    → within prefix (prefix_upper_bound prefix) k ≡ has_prefix prefix k
unfolding has_prefix prefix_upper_bound str_lt
within-prefix_upper_bound [] [] v = refl
within-prefix_upper_bound [] (b ∷ bs) v = refl
within-prefix_upper_bound (p ∷ ps) [] v = refl
within-prefix_upper_bound (p ∷ ps) (b ∷ bs) v = elim (Option-cases (prefix_upper_bound ps)) [
  | inr (upper, e) ↦
      let ih = sym (ap (λ u. within ps u bs) e) ∙ within-prefix_upper_bound ps bs v.1 in
      rw (upper_cons p ps e) (ground (arith, ih, v.0, str_lt_nil bs))
  | inl e ↦
      let ih = sym (ap (λ u. within ps u bs) e) ∙ within-prefix_upper_bound ps bs v.1 in
      elim (Bool-cases (p == 0xff)) [
        | inl last ↦ rw (upper_last p ps e last) (ground (arith, ih, v.0, str_lt_nil bs))
        | inr less ↦ rw (upper_next p ps e less) (ground (arith, ih, v.0, str_lt_nil bs))
      ]
]
