-- ===== src/Tests/Memory.antt =====
-- A store of keys in memory, as an instance of the store that the index is modelled over.
use wisp_trace_db.Prelude.{
  ◌≡◌, refl, sym, ap, ◌∙◌, Bool, true, ◌&&◌, Option, none, some, List, [], ◌∷◌, All, keep,
  if◌then◌else◌, Result, ok, err, Bool-cases, inl, inr, arith, ltb,
}
use mathlib.Core.List.{Memᴰ}
use wisp_trace_db.Prelude.Bytes.{Bytes, str_eq, str_eq→eq, str_eq_self}
use wisp_trace_db.Prelude.Dict.{
  Dict, lookup, insert, remove, lookup-insert, lookup-remove, Distinct, insert-Distinct,
}
use wisp_trace_db.Index.{IndexError, not_found, Op, set_op, delete_op, Kv}
use wisp_trace_db.Index.Prefix.{AreBytes, within}
use wisp_trace_db.Index.Batches.{after, KvLaws}

-- A map in which no key stands twice.
pub record State : Type 0 where
  pub entries : Dict Bytes
  pub distinct : Distinct entries

pub remove-Distinct : (k : Bytes) (m : Dict Bytes) → Distinct m → Distinct (remove k m)
unfolding remove lookup
remove-Distinct k [] d = tt
remove-Distinct k ((j, w) ∷ m) d = elim (Bool-cases (str_eq j k)) [
  | inl same ↦ rw same (remove-Distinct k m d.1)
  | inr other ↦ rw other (lookup-remove k j m ∙ ground (arith, d.0), remove-Distinct k m d.1)
]

abbrev get_value : Option Bytes → Result IndexError Bytes
get_value none = err not_found
get_value (some v) = ok v

abbrev set_key : Bytes → Bytes → State → State
set_key k v s = record {
  entries = insert k v s.entries;
  distinct = insert-Distinct k v s.entries s.distinct;
}

abbrev delete_key : Bytes → State → State
delete_key k s = record {
  entries = remove k s.entries;
  distinct = remove-Distinct k s.entries s.distinct;
}

unfoldable pub apply : List Op → State → State
apply [] s = s
apply (set_op k v ∷ ops) s = apply ops (set_key k v s)
apply (delete_op k ∷ ops) s = apply ops (delete_key k s)

unfoldable pub are_bytes : Bytes → Bool
are_bytes [] = true
are_bytes (b ∷ bs) = ltb b 256 && are_bytes bs

abbrev inside : Option Bytes → Option Bytes → Bytes → Bool
inside none upper k = are_bytes k
inside (some lower) upper k = are_bytes k && within lower upper k

abbrev pub memory : Kv
memory = record {
  State = State;
  get = λ k s. get_value (lookup k s.entries);
  set = λ k v s. (set_key k v s, ok tt);
  delete = λ k s. (delete_key k s, ok tt);
  commit = λ ops s. (apply ops s, ok tt);
  iterate = λ lower upper s. ok (keep (λ p. inside lower upper p.0) s.entries, ok tt);
}

set_get :
    (j v k : Bytes) (m : Dict Bytes)
    → get_value (lookup k (insert j v m)) ≡ (if str_eq j k then ok v else get_value (lookup k m))
set_get j v k m = ap get_value (lookup-insert j k v m) ∙ ground arith

delete_get :
    (j k : Bytes) (m : Dict Bytes)
    → get_value (lookup k (remove j m))
      ≡ (if str_eq j k then err not_found else get_value (lookup k m))
delete_get j k m = ap get_value (lookup-remove j k m) ∙ ground arith

apply_get :
    (ops : List Op) (k : Bytes) (s : State)
    → get_value (lookup k (apply ops s).entries) ≡ after ops k (get_value (lookup k s.entries))
unfolding apply after
apply_get [] k s = refl
apply_get (set_op j v ∷ ops) k s =
    apply_get ops k (set_key j v s) ∙ ap (after ops k) (set_get j v k s.entries)
apply_get (delete_op j ∷ ops) k s =
    apply_get ops k (delete_key j s) ∙ ap (after ops k) (delete_get j k s.entries)

are_bytes_yes : (k : Bytes) → AreBytes k → are_bytes k ≡ true
unfolding are_bytes
are_bytes_yes [] h = refl
are_bytes_yes (b ∷ bs) h = ground (arith, h.0, are_bytes_yes bs h.1)

are_bytes_back : (k : Bytes) → are_bytes k ≡ true → AreBytes k
unfolding are_bytes
are_bytes_back [] h = tt
are_bytes_back (b ∷ bs) h = (ground (arith, h), are_bytes_back bs (ground (arith, h)))

IsFound-behind :
    (k v : Bytes) (m xs : Dict Bytes)
    → lookup k m ≡ none
    → All (λ p. lookup p.0 m ≡ some p.1) xs
    → All (λ p. lookup p.0 ((k, v) ∷ m) ≡ some p.1) xs
unfolding lookup
IsFound-behind k v m [] h a = tt
IsFound-behind k v m ((j, w) ∷ xs) h a = (
  elim (Bool-cases (str_eq k j)) [
    | inl same ↦ absurd (missing (ap (λ x. lookup x m) (sym (str_eq→eq k j same)) ∙ h) a.0)
    | inr other ↦ rw other a.0
  ],
  IsFound-behind k v m xs h a.1,
)
  where
    missing : {o : Option Bytes} → o ≡ none → o ≡ some w → ⊥
    missing e e' = cc

entries_found : (m : Dict Bytes) → Distinct m → All (λ p. lookup p.0 m ≡ some p.1) m
unfolding lookup
entries_found [] d = tt
entries_found ((k, v) ∷ m) d =
    (rw (str_eq_self k) refl, IsFound-behind k v m m d.0 (entries_found m d.1))

kept :
    (lower : Bytes) (upper : Option Bytes) (m xs : Dict Bytes)
    → All (λ p. lookup p.0 m ≡ some p.1) xs
    → All
        (λ p. AreBytes p.0 × (within lower upper p.0 ≡ true) × (get_value (lookup p.0 m) ≡ ok p.1))
        (keep (λ p. inside (some lower) upper p.0) xs)
kept lower upper m [] a = tt
kept lower upper m ((k, v) ∷ xs) a = elim (Bool-cases (are_bytes k && within lower upper k)) [
  | inl both ↦ rw both (
    (are_bytes_back k (ground (arith, both)), ground (arith, both), ap get_value a.0),
    kept lower upper m xs a.1,
  )
  | inr out ↦ rw out (kept lower upper m xs a.1)
]

listed :
    (lower : Bytes) (upper : Option Bytes) (k v : Bytes) (m : Dict Bytes)
    → inside (some lower) upper k ≡ true
    → get_value (lookup k m) ≡ ok v
    → Memᴰ (k, v) (keep (λ p. inside (some lower) upper p.0) m)
unfolding lookup
listed lower upper k v [] h e = absurd cc
listed lower upper k v ((j, w) ∷ m) h e = elim (Bool-cases (str_eq j k)) [
  | inl same ↦
      let key = str_eq→eq j k same in
      let value : w ≡ v = cc (e, same) in
      let there : inside (some lower) upper j ≡ true = rw key h in
      rw there (Memᴰ.head (cc (key, value)))
  | inr other ↦
      let rest = listed lower upper k v m h (cc (e, other)) in
      elim (Bool-cases (inside (some lower) upper j)) [
        | inl there ↦ rw there (Memᴰ.tail rest)
        | inr gone ↦ rw gone rest
      ]
]

ok_items :
    {xs ys : Dict Bytes} {d e : Result IndexError Unit}
    → ◌≡◌ {A = Result IndexError (Dict Bytes × Result IndexError Unit)} (ok (xs, d)) (ok (ys, e))
    → xs ≡ ys
ok_items e = cc

pub memory-KvLaws : KvLaws memory
memory-KvLaws = record {
  get-set = λ j v k s e. set_get j v k s.entries;
  get-delete = λ j k s e. delete_get j k s.entries;
  get-commit = λ ops k s e. apply_get ops k s;
  iterate_sound = λ lower upper s items ended e.
      rw (← ok_items e) (kept lower upper s.entries s.entries (entries_found s.entries s.distinct));
  iterate_complete = λ lower upper s items k v b e h g.
      rw (← ok_items e) (listed lower upper k v s.entries (ground (arith, are_bytes_yes k b, h)) g);
}
