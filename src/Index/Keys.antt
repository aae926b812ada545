-- ===== src/Index/Keys.antt =====
-- CompositeKey of internal/segment/writer.go as the key of the index and as the prefix of a trace.
use wisp_trace_db.Prelude.{
  ◌≡◌, ◌≢◌, ◌↔◌, refl, true, [], ◌∷◌, ◌++◌, All, append_assoc, arith, ==_self,
}
use wisp_trace_db.Prelude.Bytes.{Bytes}
use wisp_trace_db.Segment.Format.{composite_key}
use wisp_trace_db.Index.Prefix.{has_prefix}

-- No byte of the id is the bar "|".
abbrev pub NoBar : Bytes → Type 0
NoBar id = All (λ b. b ≢ 0x7c) id

-- Two trace ids of which one is the other with "||" and more behind it share keys: the key of a span of
-- the longer is the key of a span of the shorter.
pub composite_key-collides :
    (t u s : Bytes)
    → composite_key (t ++ (0x7c ∷ 0x7c ∷ u)) s ≡ composite_key t (u ++ (0x7c ∷ 0x7c ∷ s))
unfolding composite_key
composite_key-collides t u s = append_assoc t (0x7c ∷ 0x7c ∷ u) (0x7c ∷ 0x7c ∷ s)

-- Where no trace id has a bar, two spans have one key only if both their ids agree.
pub composite_key-injective :
    (t t' s s' : Bytes)
    → NoBar t
    → NoBar t'
    → composite_key t s ≡ composite_key t' s'
    → (t ≡ t') × (s ≡ s')
unfolding composite_key
composite_key-injective [] [] s s' n n' e = (refl, cc)
composite_key-injective [] (b ∷ bs) s s' n n' e = absurd (n'.0 (cc e))
composite_key-injective (a ∷ as') [] s s' n n' e = absurd (n.0 (cc e))
composite_key-injective (a ∷ as') (b ∷ bs) s s' n n' e =
    let (ts, ss) = composite_key-injective as' bs s s' n.1 n'.1 (cc e) in
    let same : a ≡ b = cc e in (cc (ts, same), ss)

prefix_found :
    (t t' s : Bytes)
    → NoBar t
    → NoBar t'
    → has_prefix (composite_key t []) (composite_key t' s) ≡ true
    → t ≡ t'
unfolding composite_key has_prefix
prefix_found [] [] s n n' e = refl
prefix_found [] (b ∷ bs) s n n' e = absurd (n'.0 (ground (arith, e)))
prefix_found (a ∷ as') [] s n n' e = absurd (n.0 (ground (arith, e)))
prefix_found (a ∷ as') (b ∷ bs) s n n' e =
    let same : a ≡ b = ground (arith, e) in
    let rest : has_prefix (composite_key as' []) (composite_key bs s) ≡ true = ground (arith, e) in
    cc (same, prefix_found as' bs s n.1 n'.1 rest)

prefix_own : (t s : Bytes) → has_prefix (composite_key t []) (composite_key t s) ≡ true
unfolding composite_key has_prefix
prefix_own [] s = refl
prefix_own (a ∷ as') s = rw (==_self a) (prefix_own as' s)

-- Where no trace id has a bar, the prefix of a trace finds the keys of its spans, and of no other trace.
pub has_prefix-composite_key :
    (t t' s : Bytes)
    → NoBar t
    → NoBar t'
    → (has_prefix (composite_key t []) (composite_key t' s) ≡ true) ↔ (t ≡ t')
has_prefix-composite_key t t' s n n' = (prefix_found t t' s n n', λ e. rw (← e) (prefix_own t s))
