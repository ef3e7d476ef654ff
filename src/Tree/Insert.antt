-- ===== src/Tree/Insert.antt =====
-- The macro `RbTree_add` (include/tree.h), with `RbTree_add_` (src/tree.c), on a tree that may hold values
-- that compare equal, as the assembler's patches of one index do.
use cyntatic.Prelude.{◌≡◌, refl, ap, sym, ◌∙◌, ◌⊎◌, inl, inr, some, List, [], ◌∷◌, All}
use Prim.Native.Nat.{Ordering}
use cyntatic.Tree.{Color, red, Tree, leaf, node, Frame, left_of, right_of, plug, add_path, add}
use cyntatic.Tree.Flat.{flat, flat-insert_fix}
use cyntatic.Tree.Proper.{IsRooted, IsPath, insert_fix-IsRooted}
use cyntatic.Tree.Search.{Ordering-cases, All-flat}
use cyntatic.Tree.Store.{add-insert_fix}
use cyntatic.Tree.Add.{Hangs, Hangs-left, Hangs-right}

module _ {ℓ} {A : Type ℓ} (cmp : A → A → Ordering) (x : A) where
  -- The value before the first one that it precedes.
  unfoldable pub insert_after : List A → List A
  insert_after [] = x ∷ []
  insert_after (y ∷ ys) = elim (cmp x y) [
    | Ordering.lt ↦ x ∷ y ∷ ys
    | Ordering.gt ↦ y ∷ insert_after ys
    | Ordering.eq ↦ y ∷ insert_after ys
  ]

  -- The values that `x` precedes stand behind all others.
  abbrev pub IsCut : List A → Type ℓ
  IsCut [] = Unit
  IsCut (y ∷ ys) = (cmp x y ≡ Ordering.lt → All (λ z. cmp x z ≡ Ordering.lt) ys) × IsCut ys

  -- The tree with `x` at the empty link where `RbTree_add_` links it.
  unfoldable hung : Tree A → Tree A
  hung leaf = node red leaf x leaf
  hung (node c l v r) = elim (cmp x v) [
    | Ordering.lt ↦ node c (hung l) v r
    | Ordering.gt ↦ node c l v (hung r)
    | Ordering.eq ↦ node c l v (hung r)
  ]

  abbrev NotBefore : A → Type 0
  NotBefore v = (cmp x v ≡ Ordering.gt) ⊎ (cmp x v ≡ Ordering.eq)

  insert_after-past : (v : A) (k : List A) → NotBefore v → insert_after (v ∷ k) ≡ v ∷ insert_after k
  unfolding insert_after
  insert_after-past v k (inl e) = rw (e, insert_after)
  insert_after-past v k (inr e) = rw (e, insert_after)

  insert_after-first : (k : List A) → All (λ z. cmp x z ≡ Ordering.lt) k → insert_after k ≡ x ∷ k
  unfolding insert_after
  insert_after-first [] h = refl
  insert_after-first (y ∷ ys) h = rw (h.0, insert_after)

  hung-past :
      (c : Color) (l : Tree A) (v : A) (r : Tree A)
      → NotBefore v
      → hung (node c l v r) ≡ node c l v (hung r)
  unfolding hung
  hung-past c l v r (inl e) = rw (e, hung)
  hung-past c l v r (inr e) = rw (e, hung)

  add_path-past :
      (c : Color) (l : Tree A) (v : A) (r : Tree A) (ps : List (Frame A))
      → NotBefore v
      → add_path cmp x (node c l v r) ps ≡ add_path cmp x r (right_of c l v ∷ ps)
  unfolding add_path
  add_path-past c l v r ps (inl e) = rw (e, add_path)
  add_path-past c l v r ps (inr e) = rw (e, add_path)

  IsCut-flat : (t : Tree A) (k : List A) → IsCut (flat t k) → IsCut k
  unfolding flat
  IsCut-flat leaf k h = h
  IsCut-flat (node c l v r) k h = IsCut-flat r k (IsCut-flat l (v ∷ flat r k) h).1

  -- What stands before a value that `x` does not precede, `x` does not precede.
  insert_after-beyond :
      (l : Tree A) (v : A) (k : List A)
      → NotBefore v
      → IsCut (flat l (v ∷ k))
      → insert_after (flat l (v ∷ k)) ≡ flat l (insert_after (v ∷ k))
  unfolding flat
  insert_after-beyond leaf v k n h = refl
  insert_after-beyond (node c l w r) v k n h =
      let (before, h') = IsCut-flat l (w ∷ flat r (v ∷ k)) h in
      let past : NotBefore w = elim (Ordering-cases (cmp x w)) [
        | inl e ↦
            let lt = (All-flat cmp (λ z. cmp x z ≡ Ordering.lt) r (v ∷ k) (before e)).0 in
            absurd (elim n [ inl g ↦ cc | inr g ↦ cc ])
        | inr e ↦ e
      ] in
      insert_after-beyond l w (flat r (v ∷ k)) past h
      ∙ ap (flat l) (
          insert_after-past w (flat r (v ∷ k)) past
          ∙ ap (λ ys. w ∷ ys) (insert_after-beyond r v k n h'))

  flat-hung :
      (t : Tree A) (k : List A)
      → IsCut (flat t k)
      → All (λ z. cmp x z ≡ Ordering.lt) k
      → flat (hung t) k ≡ insert_after (flat t k)
  unfolding flat hung
  flat-hung leaf k h a = sym (insert_after-first k a)
  flat-hung (node c l v r) k h a =
      let (before, h') = IsCut-flat l (v ∷ flat r k) h in
      elim (Ordering-cases (cmp x v)) [
        | inl e ↦
            let step : hung (node c l v r) ≡ node c (hung l) v r = rw (e, hung) in
            ap (λ t. flat t k) step ∙ flat-hung l (v ∷ flat r k) h (e, before e)
        | inr n ↦
            ap (λ t. flat t k) (hung-past c l v r n)
            ∙ ap (λ ys. flat l (v ∷ ys)) (flat-hung r k h' a)
            ∙ ap (flat l) (sym (insert_after-past v (flat r k) n))
            ∙ sym (insert_after-beyond l v (flat r k) n h)
      ]

  -- The path of `RbTree_add_` is proper, and leads to where the value hangs.
  add_path-hung :
      (t : Tree A) (ps : List (Frame A))
      → Hangs cmp t ps
      → IsPath (add_path cmp x t ps)
        × (plug (add_path cmp x t ps) (node red leaf x leaf) ≡ plug ps (hung t))
  unfolding add_path plug hung
  add_path-hung leaf ps h = (h.0, refl)
  add_path-hung (node c l v r) ps h = elim (Ordering-cases (cmp x v)) [
    | inl e ↦
        let step : hung (node c l v r) ≡ node c (hung l) v r = rw (e, hung) in
        let (p, q) = add_path-hung l (left_of c v r ∷ ps) (Hangs-left cmp c l v r ps h) in
        rw (e, add_path) (p, q ∙ ap (plug ps) (sym step))
    | inr n ↦
        let (p, q) = add_path-hung r (right_of c l v ∷ ps) (Hangs-right cmp c l v r ps h) in
        rw (add_path-past c l v r ps n) (p, q ∙ ap (plug ps) (sym (hung-past c l v r n)))
  ]

  -- On a tree with a black root and no red node below a red one, in which the values that `x` precedes
  -- stand behind all others, the macro `RbTree_add` (the call of `RbTree_add_` and the store of the
  -- value) succeeds, follows no null pointer and gives a tree again with a black root and no red node
  -- below a red one. Its values are the old ones with `x` before the first that it precedes, behind
  -- those that compare equal.
  pub add-insert_after :
      (t : Tree A)
      → IsRooted t
      → IsCut (flat t [])
      → (t' : Tree A) × (add cmp x t ≡ some t')
        × IsRooted t'
        × (flat t' [] ≡ insert_after (flat t []))
  unfolding plug
  add-insert_after t rooted sorted =
      let (p, q) = add_path-hung t [] (tt, rooted.0, inl rooted.1) in
      let ps = add_path cmp x t [] in
      let (t', fixed, rooted') = insert_fix-IsRooted ps leaf x leaf p (refl, refl, tt, tt) in
      (
        t',
        add-insert_fix x cmp t ∙ fixed,
        rooted',
        flat-insert_fix ps (node red leaf x leaf) (λ z. cc) fixed []
            ∙ ap (λ u. flat u []) q
            ∙ flat-hung t [] sorted tt,
      )
