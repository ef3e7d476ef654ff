-- ===== src/Map.antt =====
-- The hash map (include/map.h, src/map.c): chains of nodes in buckets. `Map_set_` is called with
-- the length of a zero-terminated key; a look-up may be of any characters. The chains are a function of
-- the bucket's number. Whether the two allocations of `Map_set_` succeed is an argument.
pub mod Chains
pub mod Set
pub mod Iterate
mod Tests
use cyntatic.Prelude.{
  ℕ, zero, suc, ◌+◌, ◌-◌, ◌*◌, ◌%◌, Bool, true, false, ◌&&◌, Option, some, none, List, [], ◌∷◌, ltb,
  leb, ◌==◌, if◌then◌else◌,
}
use cyntatic.Word.{u32_mod, add32, sub32}
use Prim.Native.Nat.{bit_and, bit_xor}

-- `Map_Node`; the key without its terminating zero.
pub record Node {ℓ} (V : Type ℓ) : Type ℓ where
  pub hash : ℕ
  pub key : List ℕ
  pub value : V

-- `Map_Base`.
pub record Base {ℓ} (V : Type ℓ) : Type ℓ where
  pub buckets : ℕ → List (Node V)
  pub bucket_count : ℕ
  pub node_count : ℕ

-- A `char` converted to `unsigned`.
abbrev pub char_word : ℕ → ℕ
char_word c = if ltb c 128 then c else c + (u32_mod - 256)

abbrev hash_from : ℕ → List ℕ → ℕ
hash_from h [] = h
hash_from h (c ∷ k) = hash_from (bit_xor h (char_word c) * 16777619 % u32_mod) k

-- `Map_hash_string_`.
unfoldable pub hash_string : List ℕ → ℕ
hash_string k = hash_from 2166136261 k

-- `Map_bucket_idx_`.
unfoldable pub bucket_idx : ℕ → ℕ → ℕ
bucket_idx count hash = bit_and hash (sub32 count 1)

-- `0 == strncmp(stored, key, len)`.
unfoldable pub same_start : List ℕ → List ℕ → Bool
same_start s [] = true
same_start [] (c ∷ k) = c == 0
same_start (a ∷ s) (c ∷ k) = a == c && same_start s k

module _ {ℓ} {V : Type ℓ} where
  abbrev pub set_bucket : (ℕ → List (Node V)) → ℕ → List (Node V) → ℕ → List (Node V)
  set_bucket b i ns j = if j == i then ns else b j

  -- `Map_add_node_`.
  unfoldable pub add_node : Base V → Node V → Base V
  unfolding bucket_idx
  add_node m n =
      let i = bucket_idx m.bucket_count n.hash in
      record m { buckets = set_bucket m.buckets i (n ∷ m.buckets i) }

  -- The nodes of a chain, moved one by one to the front of another.
  abbrev pub move_all : List (Node V) → List (Node V) → List (Node V)
  move_all [] acc = acc
  move_all (n ∷ ns) acc = move_all ns (n ∷ acc)

  -- The loop of `Map_resize_` that chains the nodes of the buckets below `i`.
  abbrev pub chain : ℕ → (ℕ → List (Node V)) → List (Node V) → List (Node V)
  chain zero b acc = acc
  chain (suc i) b acc = chain i b (move_all (b i) acc)

  abbrev pub add_all : Base V → List (Node V) → Base V
  add_all m [] = m
  add_all m (n ∷ ns) = add_all (add_node m n) ns

  -- `Map_resize_` to more buckets, and whether it succeeds: where the allocation fails and buckets stand,
  -- the code clears the new number of buckets in the old array, beyond its end.
  unfoldable pub resize : Bool → Base V → ℕ → Option (Bool × Base V)
  unfolding add_node
  resize true m count = some (
    true,
    add_all (record m { buckets = λ i. []; bucket_count = count })
        (chain m.bucket_count m.buckets []),
  )
  resize false m count = if m.bucket_count == 0 then some (false, m) else none

  -- `Map_init_` of the zeroed structure.
  unfoldable pub init : Bool → ℕ → Option (Bool × Base V)
  unfolding resize
  init got count = resize got (record { buckets = λ i. []; bucket_count = 0; node_count = 0 }) count

  -- The test of `Map_get_ref_`.
  unfoldable pub matches : List ℕ → Node V → Bool
  unfolding hash_string same_start
  matches key n = n.hash == hash_string key && same_start n.key key

  -- The first node of a chain that the test accepts.
  unfoldable pub first_match : List ℕ → List (Node V) → Option (Node V)
  unfolding matches
  first_match key [] = none
  first_match key (n ∷ ns) = let rest = first_match key ns in if matches key n then some n else rest

  abbrev pub bucket_of : Base V → List ℕ → List (Node V)
  bucket_of m key = m.buckets (bucket_idx m.bucket_count (hash_string key))

  -- `Map_get_ref_`, as the node that the reference leads to.
  unfoldable pub get_ref : Base V → List ℕ → Option (Node V)
  unfolding hash_string bucket_idx first_match
  get_ref m key = if ltb 0 m.bucket_count then first_match key (bucket_of m key) else none

  -- The chain with that node's value replaced, and without that node.
  unfoldable pub replace_match : List ℕ → V → List (Node V) → List (Node V)
  unfolding matches
  replace_match key v [] = []
  replace_match key v (n ∷ ns) =
      let rest = replace_match key v ns in
      if matches key n then record n { value = v } ∷ ns else n ∷ rest

  unfoldable pub remove_match : List ℕ → List (Node V) → List (Node V)
  unfolding matches
  remove_match key [] = []
  remove_match key (n ∷ ns) =
      let rest = remove_match key ns in if matches key n then ns else n ∷ rest

  abbrev pub with_bucket : Base V → List ℕ → List (Node V) → Base V
  with_bucket m key ns = record m {
    buckets = set_bucket m.buckets (bucket_idx m.bucket_count (hash_string key)) ns;
  }

  -- `Map_new_node_`.
  unfoldable pub new_node : List ℕ → V → Node V
  unfolding hash_string
  new_node key v = record { hash = hash_string key; key = key; value = v }

  -- The part of `Map_set_` that adds a node; the second flag tells whether a larger array is allocated.
  unfoldable pub add_new : Bool → Bool → Base V → List ℕ → V → Option (Bool × Base V)
  unfolding resize add_node new_node
  add_new false grown m key v = some (false, m)
  add_new true grown m key v =
      let count = if ltb m.bucket_count 32 then 32 else m.bucket_count * 2 % u32_mod in
      let put : Base V → Base V = λ r.
        let a = add_node r (new_node key v) in record a { node_count = add32 a.node_count 1 } in
      if leb m.bucket_count m.node_count
      then elim (resize grown m count) [
        | some (true, r) ↦ some (true, put r)
        | some (false, r) ↦ some (false, r)
        | none ↦ none
      ]
      else some (true, put m)

  -- `Map_set_`: whether it succeeds, and the map.
  unfoldable pub set : Bool → Bool → Base V → List ℕ → V → Option (Bool × Base V)
  unfolding get_ref replace_match add_new
  set got grown m key v = elim (get_ref m key) [
    | some n ↦ some (true, with_bucket m key (replace_match key v (bucket_of m key)))
    | none ↦ add_new got grown m key v
  ]

  -- `Map_remove_`.
  unfoldable pub remove : Base V → List ℕ → Base V
  unfolding get_ref remove_match
  remove m key = elim (get_ref m key) [
    | some n ↦
        let r = with_bucket m key (remove_match key (bucket_of m key)) in
        record r { node_count = sub32 r.node_count 1 }
    | none ↦ m
  ]

  -- `Map_get_`, `Map_key_`.
  unfoldable pub get : Base V → List ℕ → Option V
  unfolding get_ref
  get m key = elim (get_ref m key) [ some n ↦ some n.value | none ↦ none ]

  unfoldable pub stored_key : Base V → List ℕ → Option (List ℕ)
  unfolding get_ref
  stored_key m key = elim (get_ref m key) [ some n ↦ some n.key | none ↦ none ]
