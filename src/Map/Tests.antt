-- ===== src/Map/Tests.antt =====
-- The theorems on the hash map at concrete maps.
use cyntatic.Prelude.{ℕ, ◌≡◌, ◌≢◌, true, some, List, [], ◌∷◌, arith}
use cyntatic.Map.{Base, hash_string, set, get}
use cyntatic.Map.Chains.{IsValid}
use cyntatic.Map.Iterate.{
  Iter, visit, iter_next, begin, nodes_of, rest, rest_maybe, current, rest-begin, rest-iter_next,
}
use cyntatic.Map.Set.{get-set}

-- The zeroed map of `Map_initWith`.
abbrev empty : Base ℕ
empty = record { buckets = λ i. []; bucket_count = 0; node_count = 0 }

empty-IsValid : IsValid empty
empty-IsValid i = tt

if_key : List ℕ
if_key = b'i' ∷ b'f' ∷ []

get-set_example :
    (m' : Base ℕ) × (set true true empty if_key 5 ≡ some (true, m'))
    × (get m' if_key ≡ some 5)
    × ((other : List ℕ) → hash_string other ≢ hash_string if_key → get m' other ≡ get empty other)
get-set_example = get-set empty if_key 5 empty-IsValid (omega arith)

-- Two buckets with a node each: the iteration visits the second alone.
abbrev two_nodes : Base ℕ
two_nodes = record {
  buckets = λ i. record { hash = i; key = if_key; value = i } ∷ [];
  bucket_count = 2;
  node_count = 2;
}

rest-begin_example : rest_maybe two_nodes (begin two_nodes) ≡ nodes_of two_nodes 1 1
rest-begin_example = rest-begin two_nodes

abbrev first_node : Iter ℕ
first_node = visit 0 (record { hash = 0; key = if_key; value = 0 }) []

rest-iter_next_example :
    rest two_nodes first_node
    ≡ current first_node ∷ rest_maybe two_nodes (iter_next two_nodes first_node)
rest-iter_next_example = rest-iter_next two_nodes first_node
