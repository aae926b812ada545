-- ===== src/Tests/Bloom.antt =====
-- Examples for the Bloom filter.
use wisp_trace_db.Prelude.{◌≡◌, refl, false, [], ◌∷◌, arith, List}
use wisp_trace_db.Prelude.Bytes.{Bytes}
use wisp_trace_db.Bloom.{Filter, new, add, may_contain}
use wisp_trace_db.Bloom.Members.{IsWellFormed, new-IsWellFormed, add_all}

-- A filter of sixteen bits and seven hashes for each of its values.
abbrev sixteen : Filter
sixteen = new (λ n. 16) (λ m n. 7) 2

sixteen-IsWellFormed : IsWellFormed sixteen
sixteen-IsWellFormed = new-IsWellFormed (λ n. 16) (λ m n. 7) 2 (λ i. omega arith)

abbrev words : List Bytes
words = (0x61 ∷ 0x62 ∷ []) ∷ (0x63 ∷ []) ∷ []

-- A value that was not added is told apart.
absent : may_contain (0x7a ∷ 0x7a ∷ []) (add_all words sixteen) ≡ false
unfolding may_contain add_all new add
absent = refl
