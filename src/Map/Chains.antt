-- ===== src/Map/Chains.antt =====
-- The chains of the hash map (src/map.c): what a look-up sees of them, and what `Map_resize_` keeps.
use mathlib.Core.Path.{subst}
use cyntatic.Prelude.{
  ℕ, zero, suc, ◌<◌, ◌≤◌, ◌≡◌, ◌≢◌, refl, ap, sym, ◌∙◌, inl, inr, true, some, List, [], ◌∷◌, ◌++◌,
  ltb, ◌==◌, if◌then◌else◌, arith, All, Bool-cases, ==_refl, ltb→lt, eq_of_==,
}
use mathlib.Core.List.{append-nil}
use cyntatic.Map.{
  Node, Base, hash_string, bucket_idx, add_node, move_all, chain, add_all, matches, first_match,
}

module _ {ℓ} {V : Type ℓ} where
  -- The nodes of a chain that have the hash `h`.
  unfoldable pub of_hash : ℕ → List (Node V) → List (Node V)
  of_hash h [] = []
  of_hash h (n ∷ ns) = if n.hash == h then n ∷ of_hash h ns else of_hash h ns

  -- A look-up sees only the nodes with its key's hash.
  pub first_match-of_hash :
      (key : List ℕ) (ns : List (Node V))
      → first_match key (of_hash (hash_string key) ns) ≡ first_match key ns
  unfolding first_match of_hash
  first_match-of_hash key [] = refl
  first_match-of_hash key (n ∷ ns) = elim (Bool-cases (n.hash == hash_string key)) [
    | inl e ↦
        let h = hash_string key in
        let step : of_hash h (n ∷ ns) ≡ n ∷ of_hash h ns = rw (e, of_hash) in
        ap (first_match key) step
        ∙ ap (λ r. if matches key n then some n else r) (first_match-of_hash key ns)
    | inr e ↦ rw e (first_match-of_hash key ns)
  ]

  -- Every node stands in the bucket of its hash, which is one of the buckets.
  abbrev pub IsValid : Base V → Type 0
  IsValid m =
      (i : ℕ)
      → All (λ n. (bucket_idx m.bucket_count n.hash ≡ i) × (i < m.bucket_count)) (m.buckets i)

  of_hash-move_all :
      (h : ℕ) (ns acc : List (Node V))
      → of_hash h (move_all ns acc) ≡ move_all (of_hash h ns) (of_hash h acc)
  unfolding of_hash
  of_hash-move_all h [] acc = refl
  of_hash-move_all h (n ∷ ns) acc = elim (Bool-cases (n.hash == h)) [
    | inl e ↦ of_hash-move_all h ns (n ∷ acc) ∙ rw (e, of_hash)
    | inr e ↦ of_hash-move_all h ns (n ∷ acc) ∙ rw (e, of_hash)
  ]

  move_all-move_all : (ns a b : List (Node V)) → move_all (move_all ns a) b ≡ move_all a (ns ++ b)
  move_all-move_all [] a b = refl
  move_all-move_all (n ∷ ns) a b = move_all-move_all ns (n ∷ a) b

  -- A chain of nodes that belong elsewhere.
  of_hash-none :
      (count h i : ℕ) (ns : List (Node V))
      → bucket_idx count h ≢ i
      → All (λ n. (bucket_idx count n.hash ≡ i) × (i < count)) ns
      → of_hash h ns ≡ []
  unfolding of_hash
  of_hash-none count h i [] ne a = refl
  of_hash-none count h i (n ∷ ns) ne ((b, c), a) = elim (Bool-cases (n.hash == h)) [
    | inl e ↦ absurd (ne (ap (bucket_idx count) (sym (eq_of_== n.hash h e)) ∙ b))
    | inr e ↦ rw (e, of_hash) (of_hash-none count h i ns ne a)
  ]

  -- The nodes with hash `h` among those of the buckets below `i`.
  of_hash-chain_beyond :
      (m : Base V) (h i : ℕ) (acc : List (Node V))
      → IsValid m
      → i ≤ bucket_idx m.bucket_count h
      → of_hash h (chain i m.buckets acc) ≡ of_hash h acc
  of_hash-chain_beyond m h zero acc w k = refl
  of_hash-chain_beyond m h (suc i) acc w k =
      of_hash-chain_beyond m h i (move_all (m.buckets i) acc) w (omega arith)
      ∙ of_hash-move_all h (m.buckets i) acc
      ∙ ap (λ x. move_all x (of_hash h acc))
          (of_hash-none m.bucket_count h i (m.buckets i) (omega arith) (w i))

  of_hash-chain :
      (m : Base V) (h i : ℕ) (acc : List (Node V))
      → IsValid m
      → bucket_idx m.bucket_count h < i
      → of_hash h (chain i m.buckets acc)
        ≡ move_all (of_hash h (m.buckets (bucket_idx m.bucket_count h))) (of_hash h acc)
  of_hash-chain m h zero acc w k = absurd (omega arith)
  of_hash-chain m h (suc i) acc w k = elim (Bool-cases (bucket_idx m.bucket_count h == i)) [
    | inl e ↦
        let at : bucket_idx m.bucket_count h ≡ i = ground arith in
        of_hash-chain_beyond m h i (move_all (m.buckets i) acc) w (omega arith)
        ∙ of_hash-move_all h (m.buckets i) acc
        ∙ ap (λ j. move_all (of_hash h (m.buckets j)) (of_hash h acc)) (sym at)
    | inr e ↦
        of_hash-chain m h i (move_all (m.buckets i) acc) w (ground arith)
        ∙ ap (move_all (of_hash h (m.buckets (bucket_idx m.bucket_count h)))) (
            of_hash-move_all h (m.buckets i) acc
            ∙ ap (λ x. move_all x (of_hash h acc))
                (of_hash-none m.bucket_count h i (m.buckets i) (ground arith) (w i)))
  ]

  pub add_all-count :
      (m : Base V) (ns : List (Node V)) → (add_all m ns).bucket_count ≡ m.bucket_count
  unfolding add_node
  add_all-count m [] = refl
  add_all-count m (n ∷ ns) = add_all-count (add_node m n) ns

  -- A node added is the first of its hash, and no other hash sees it.
  pub of_hash-add_node :
      (m : Base V) (n : Node V) (h : ℕ)
      → of_hash h ((add_node m n).buckets (bucket_idx m.bucket_count h))
        ≡ move_all (of_hash h (n ∷ [])) (of_hash h (m.buckets (bucket_idx m.bucket_count h)))
  unfolding add_node of_hash
  of_hash-add_node m n h = elim (Bool-cases (n.hash == h)) [
    | inl e ↦
        let at : n.hash ≡ h = eq_of_== n.hash h e in
        let c = m.bucket_count in
        let same : (bucket_idx c h == bucket_idx c n.hash) ≡ true =
          subst (λ x. (bucket_idx c h == bucket_idx c x) ≡ true) (sym at)
            (==_refl (bucket_idx c h)) in
        rw (same, e, of_hash) (ap (λ x. n ∷ of_hash h (m.buckets (bucket_idx c x))) at)
    | inr e ↦
        let c = m.bucket_count in
        elim (Bool-cases (bucket_idx c h == bucket_idx c n.hash)) [
          | inl same ↦
              rw (same, e, of_hash)
                (ap (λ i. of_hash h (m.buckets i))
                  (sym (eq_of_== (bucket_idx c h) (bucket_idx c n.hash) same)))
          | inr other ↦ rw (other, e)
        ]
  ]

  of_hash-add_all :
      (m : Base V) (ns : List (Node V)) (h : ℕ)
      → of_hash h ((add_all m ns).buckets (bucket_idx m.bucket_count h))
        ≡ move_all (of_hash h ns) (of_hash h (m.buckets (bucket_idx m.bucket_count h)))
  unfolding add_node of_hash
  of_hash-add_all m [] h = refl
  of_hash-add_all m (n ∷ ns) h =
      of_hash-add_all (add_node m n) ns h
      ∙ ap (move_all (of_hash h ns)) (of_hash-add_node m n h)
      ∙ elim (Bool-cases (n.hash == h)) [ inl e ↦ rw e | inr e ↦ rw e ]

  -- The map with more buckets.
  abbrev pub resized : Base V → ℕ → Base V
  resized m count =
      add_all (record m { buckets = λ i. []; bucket_count = count })
        (chain m.bucket_count m.buckets [])

  no_bucket :
      (count h i : ℕ) (ns : List (Node V))
      → count ≤ i
      → All (λ n. (bucket_idx count n.hash ≡ i) × (i < count)) ns
      → of_hash h ns ≡ []
  unfolding of_hash
  no_bucket count h i [] k a = refl
  no_bucket count h i (n ∷ ns) k ((b, c), a) = absurd (omega arith)

  -- `Map_resize_` keeps the nodes of every hash, and their order.
  pub of_hash-resized :
      (m : Base V) (count h : ℕ)
      → IsValid m
      → of_hash h ((resized m count).buckets (bucket_idx count h))
        ≡ of_hash h (m.buckets (bucket_idx m.bucket_count h))
  unfolding of_hash
  of_hash-resized m count h w =
      let old = of_hash h (m.buckets (bucket_idx m.bucket_count h)) in
      of_hash-add_all (record m { buckets = λ i. []; bucket_count = count })
        (chain m.bucket_count m.buckets []) h
      ∙ elim (Bool-cases (ltb (bucket_idx m.bucket_count h) m.bucket_count)) [
        | inl k ↦
            ap (λ x. move_all x []) (of_hash-chain m h m.bucket_count [] w (ltb→lt _ _ k))
            ∙ move_all-move_all old [] []
            ∙ append-nil old
        | inr k ↦
            ap (λ x. move_all x []) (of_hash-chain_beyond m h m.bucket_count [] w (ground arith))
            ∙ sym (
                no_bucket m.bucket_count h _ (m.buckets (bucket_idx m.bucket_count h))
                  (ground arith) (w _))
      ]
