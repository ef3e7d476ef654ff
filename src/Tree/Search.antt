-- ===== src/Tree/Search.antt =====
-- Searching and adding in the red-black tree (src/tree.c), against a sorted list of its values.
use cyntatic.Prelude.{
  ◌≡◌, refl, ap, sym, ◌∙◌, ◌⊎◌, inl, inr, Option, some, none, List, [], ◌∷◌, All,
}
use Prim.Native.Nat.{Ordering}
use cyntatic.Tree.{red, Tree, leaf, node, find}
use cyntatic.Tree.Flat.{flat}

-- What the tree relies on in its comparison.
pub record Order {ℓ} {A : Type ℓ} (cmp : A → A → Ordering) : Type ℓ where
  pub same : (x : A) → cmp x x ≡ Ordering.eq
  pub trans : (x y z : A) → cmp x y ≡ Ordering.lt → cmp y z ≡ Ordering.lt → cmp x z ≡ Ordering.lt
  pub beyond :
      (x v w : A)
      → (cmp x v ≡ Ordering.gt) ⊎ (cmp x v ≡ Ordering.eq)
      → cmp w v ≡ Ordering.lt
      → cmp x w ≡ Ordering.gt

pub Ordering-cases : (o : Ordering) → (o ≡ Ordering.lt) ⊎ (o ≡ Ordering.gt) ⊎ (o ≡ Ordering.eq)
Ordering-cases Ordering.lt = inl refl
Ordering-cases Ordering.gt = inr (inl refl)
Ordering-cases Ordering.eq = inr (inr refl)

module _ {ℓ} {A : Type ℓ} (cmp : A → A → Ordering) where
  -- The values of a list are in strictly increasing order.
  abbrev pub IsOrdered : List A → Type ℓ
  IsOrdered [] = Unit
  IsOrdered (x ∷ xs) = All (λ y. cmp x y ≡ Ordering.lt) xs × IsOrdered xs

  -- The value of a list that compares equal to `x`.
  unfoldable pub lookup : A → List A → Option A
  lookup x [] = none
  lookup x (y ∷ ys) = elim (cmp x y) [ Ordering.eq ↦ some y | _ ↦ lookup x ys ]

  -- `x` put in its place in an ordered list, unless an equal value stands there.
  unfoldable pub insert_ordered : A → List A → List A
  insert_ordered x [] = x ∷ []
  insert_ordered x (y ∷ ys) = elim (cmp x y) [
    | Ordering.lt ↦ x ∷ y ∷ ys
    | Ordering.gt ↦ y ∷ insert_ordered x ys
    | Ordering.eq ↦ y ∷ ys
  ]

  -- The tree with `x` at the empty link where the search for it ends.
  unfoldable pub graft : A → Tree A → Tree A
  graft x leaf = node red leaf x leaf
  graft x (node c l v r) = elim (cmp x v) [
    | Ordering.lt ↦ node c (graft x l) v r
    | Ordering.gt ↦ node c l v (graft x r)
    | Ordering.eq ↦ node c l v r
  ]

  pub All-flat {κ} : (P : A → Type κ) (t : Tree A) (k : List A) → All P (flat t k) → All P k
  unfolding flat
  All-flat P leaf k h = h
  All-flat P (node c l v r) k h = All-flat P r k (All-flat P l (v ∷ flat r k) h).1

  IsOrdered-flat : (t : Tree A) (k : List A) → IsOrdered (flat t k) → IsOrdered k
  unfolding flat
  IsOrdered-flat leaf k h = h
  IsOrdered-flat (node c l v r) k h = IsOrdered-flat r k (IsOrdered-flat l (v ∷ flat r k) h).1

  insert_first :
      (x : A) (k : List A) → All (λ y. cmp x y ≡ Ordering.lt) k → insert_ordered x k ≡ x ∷ k
  unfolding insert_ordered
  insert_first x [] h = refl
  insert_first x (y ∷ ys) (a, h) = rw (a, insert_ordered)

  lookup-none : (x : A) (k : List A) → All (λ y. cmp x y ≡ Ordering.lt) k → lookup x k ≡ none
  unfolding lookup
  lookup-none x [] h = refl
  lookup-none x (y ∷ ys) (a, h) = rw (a, lookup) (lookup-none x ys h)

  module _ (o : Order cmp) where
    before-All :
        (x v : A) (k : List A)
        → cmp x v ≡ Ordering.lt
        → All (λ y. cmp v y ≡ Ordering.lt) k
        → All (λ y. cmp x y ≡ Ordering.lt) k
    before-All x v [] h a = a
    before-All x v (y ∷ ys) h (b, a) = (o.trans x v y h b, before-All x v ys h a)

    -- The values of a tree that stand before one that `x` does not precede.
    lookup_beyond :
        (x v : A) (l : Tree A) (k : List A)
        → (cmp x v ≡ Ordering.gt) ⊎ (cmp x v ≡ Ordering.eq)
        → IsOrdered (flat l (v ∷ k))
        → lookup x (flat l (v ∷ k)) ≡ lookup x (v ∷ k)
    unfolding flat lookup
    lookup_beyond x v leaf k h s = refl
    lookup_beyond x v (node c l w r) k h s =
        let (a, b) = IsOrdered-flat l (w ∷ flat r (v ∷ k)) s in
        let g = o.beyond x v w h (All-flat (λ y. cmp w y ≡ Ordering.lt) r (v ∷ k) a).0 in
        let step : lookup x (w ∷ flat r (v ∷ k)) ≡ lookup x (flat r (v ∷ k)) = rw (lookup, g) in
        lookup_beyond x w l (flat r (v ∷ k)) (inl g) s ∙ step ∙ lookup_beyond x v r k h b

    insert_beyond :
        (x v : A) (l : Tree A) (k : List A)
        → (cmp x v ≡ Ordering.gt) ⊎ (cmp x v ≡ Ordering.eq)
        → IsOrdered (flat l (v ∷ k))
        → insert_ordered x (flat l (v ∷ k)) ≡ flat l (insert_ordered x (v ∷ k))
    unfolding flat insert_ordered
    insert_beyond x v leaf k h s = refl
    insert_beyond x v (node c l w r) k h s =
        let (a, b) = IsOrdered-flat l (w ∷ flat r (v ∷ k)) s in
        let g = o.beyond x v w h (All-flat (λ y. cmp w y ≡ Ordering.lt) r (v ∷ k) a).0 in
        let step : insert_ordered x (w ∷ flat r (v ∷ k)) ≡ w ∷ insert_ordered x (flat r (v ∷ k)) =
          rw (insert_ordered, g) in
        insert_beyond x w l (flat r (v ∷ k)) (inl g) s
        ∙ ap (flat l) (step ∙ ap (λ t. w ∷ t) (insert_beyond x v r k h b))

    pub lookup-flat :
        (x : A) (t : Tree A) (k : List A)
        → IsOrdered (flat t k)
        → All (λ y. cmp x y ≡ Ordering.lt) k
        → lookup x (flat t k) ≡ find cmp x t
    unfolding flat find lookup
    lookup-flat x leaf k s a = lookup-none x k a
    lookup-flat x (node c l v r) k s a =
        let (b, s') = IsOrdered-flat l (v ∷ flat r k) s in
        elim (Ordering-cases (cmp x v)) [
          | inl h ↦
              rw (h, find) (lookup-flat x l (v ∷ flat r k) s (h, before-All x v (flat r k) h b))
          | inr (inl h) ↦
              let step : lookup x (v ∷ flat r k) ≡ lookup x (flat r k) = rw (lookup, h) in
              rw (h, find)
                (lookup_beyond x v l (flat r k) (inl h) s ∙ step ∙ lookup-flat x r k s' a)
          | inr (inr h) ↦
              let step : lookup x (v ∷ flat r k) ≡ some v = rw (lookup, h) in
              rw (h, find) (lookup_beyond x v l (flat r k) (inr h) s ∙ step)
        ]

    pub flat-graft :
        (x : A) (t : Tree A) (k : List A)
        → IsOrdered (flat t k)
        → All (λ y. cmp x y ≡ Ordering.lt) k
        → flat (graft x t) k ≡ insert_ordered x (flat t k)
    unfolding flat insert_ordered graft
    flat-graft x leaf k s a = sym (insert_first x k a)
    flat-graft x (node c l v r) k s a =
        let (b, s') = IsOrdered-flat l (v ∷ flat r k) s in
        elim (Ordering-cases (cmp x v)) [
          | inl h ↦
              let g : graft x (node c l v r) ≡ node c (graft x l) v r = rw (h, graft) in
              ap (λ t. flat t k) g
              ∙ flat-graft x l (v ∷ flat r k) s (h, before-All x v (flat r k) h b)
          | inr (inl h) ↦
              let step : v ∷ insert_ordered x (flat r k) ≡ insert_ordered x (v ∷ flat r k) =
                rw (insert_ordered, h) in
              let g : graft x (node c l v r) ≡ node c l v (graft x r) = rw (h, graft) in
              ap (λ t. flat t k) g
              ∙ ap (λ y. flat l (v ∷ y)) (flat-graft x r k s' a)
              ∙ ap (flat l) step
              ∙ sym (insert_beyond x v l (flat r k) (inl h) s)
          | inr (inr h) ↦
              let step : v ∷ flat r k ≡ insert_ordered x (v ∷ flat r k) = rw (insert_ordered, h) in
              let g : graft x (node c l v r) ≡ node c l v r = rw (h, graft) in
              ap (λ t. flat t k) g
              ∙ ap (flat l) step
              ∙ sym (insert_beyond x v l (flat r k) (inr h) s)
        ]
