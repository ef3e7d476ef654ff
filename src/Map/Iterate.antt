-- ===== src/Map/Iterate.antt =====
-- Iterating over the hash map (src/map.c): `Map_begin_` and `Map_iter_next_`.
use cyntatic.Prelude.{
  ℕ, zero, suc, ◌+◌, ◌-◌, ◌≤◌, ◌≡◌, refl, ap, sym, ◌∙◌, ◌⊎◌, inl, inr, Option, some, none, List, [],
  ◌∷◌, ◌++◌, ltb, leb, if◌then◌else◌, arith, Bool-cases, if_true, if_false,
}
use cyntatic.Map.{Node, Base}

-- `Map_Iter` at a node: the number of its bucket, the node, and those behind it in the chain.
pub data Iter {ℓ} (V : Type ℓ) : Type ℓ where
  visit : ℕ → Node V → List (Node V) → Iter V

module _ {ℓ} {V : Type ℓ} where
  -- The search for the next bucket that is not empty, on fuel.
  unfoldable pub scan : ℕ → Base V → ℕ → Option (Iter V)
  scan zero m i = none
  scan (suc fuel) m i =
      let j = i + 1 in
      let more = scan fuel m j in
      if leb m.bucket_count j
      then none
      else elim (m.buckets j) [ [] ↦ more | n ∷ ns ↦ some (visit j n ns) ]

  -- `Map_iter_next_` at a node.
  unfoldable pub iter_next : Base V → Iter V → Option (Iter V)
  unfolding scan
  iter_next m (visit i n []) = scan m.bucket_count m i
  iter_next m (visit i n (k ∷ ns)) = some (visit i k ns)

  -- `Map_begin_`: the zeroed iterator moved once.
  unfoldable pub begin : Base V → Option (Iter V)
  unfolding scan
  begin m = if ltb 0 m.bucket_count then scan m.bucket_count m 0 else none

  -- The nodes of `k` buckets from the one numbered `i` on.
  unfoldable pub nodes_of : Base V → ℕ → ℕ → List (Node V)
  nodes_of m i zero = []
  nodes_of m i (suc k) = m.buckets i ++ nodes_of m (i + 1) k

  -- The nodes from the iterator on.
  abbrev pub rest : Base V → Iter V → List (Node V)
  rest m (visit i n ns) = n ∷ (ns ++ nodes_of m (i + 1) (m.bucket_count - (i + 1)))

  abbrev pub rest_maybe : Base V → Option (Iter V) → List (Node V)
  rest_maybe m none = []
  rest_maybe m (some k) = rest m k

  abbrev pub current : Iter V → Node V
  current (visit i n ns) = n

  List-cases :
      (ns : List (Node V)) → (ns ≡ []) ⊎ ((n : Node V) × (r : List (Node V)) × (ns ≡ n ∷ r))
  List-cases [] = inl refl
  List-cases (n ∷ ns) = inr (n, ns, refl)

  rest-scan :
      (fuel : ℕ) (m : Base V) (i : ℕ)
      → m.bucket_count ≤ i + 1 + fuel
      → rest_maybe m (scan fuel m i) ≡ nodes_of m (i + 1) (m.bucket_count - (i + 1))
  unfolding scan nodes_of
  rest-scan zero m i h = let z : m.bucket_count - (i + 1) ≡ 0 = omega arith in rw z
  rest-scan (suc fuel) m i h = elim (Bool-cases (leb m.bucket_count (i + 1))) [
    | inl end ↦ let z : m.bucket_count - (i + 1) ≡ 0 = ground arith in rw (end, z)
    | inr go ↦
        let s : m.bucket_count - (i + 1) ≡ suc (m.bucket_count - (i + 1 + 1)) = ground arith in
        ap (rest_maybe m) (if_false none go)
        ∙ elim (List-cases (m.buckets (i + 1))) [
          | inl e ↦ rw e (rest-scan fuel m (i + 1) (omega arith))
          | inr (n, ns, e) ↦ rw e
        ]
        ∙ ap (nodes_of m (i + 1)) (sym s)
  ]

  -- `Map_iter_next_` from any node leads to the node behind it, over all later chains and buckets; the
  -- fuel of one search, the number of buckets, is enough.
  pub rest-iter_next :
      (m : Base V) (k : Iter V) → rest m k ≡ current k ∷ rest_maybe m (iter_next m k)
  unfolding iter_next
  rest-iter_next m (visit i n []) =
      ap (λ x. n ∷ x) (sym (rest-scan m.bucket_count m i (omega arith)))
  rest-iter_next m (visit i n (k ∷ ns)) = refl

  -- The iteration from `Map_begin_` visits the nodes of every bucket but the first, bucket 0.
  pub rest-begin : (m : Base V) → rest_maybe m (begin m) ≡ nodes_of m 1 (m.bucket_count - 1)
  unfolding begin nodes_of
  rest-begin m = elim (Bool-cases (ltb 0 m.bucket_count)) [
    | inl some_buckets ↦
        ap (rest_maybe m) (if_true _ some_buckets) ∙ rest-scan m.bucket_count m 0 (omega arith)
    | inr no_buckets ↦
        let z : m.bucket_count - 1 ≡ 0 = ground arith in
        ap (rest_maybe m) (if_false _ no_buckets) ∙ rw z
  ]
