-- ===== src/Tree/Walk.antt =====
-- Walking the red-black tree (src/tree.c): `RbTree_first`, `RbTreeNode_next` and `RbTreeNode_prev`. A
-- node is its colour, subtrees and value, with the path from its parent to the root; a node of a tree
-- is never cleared, so the test for that stands for nothing here.
use cyntatic.Prelude.{◌≡◌, refl, ap, sym, Option, some, none, List, [], ◌∷◌}
use cyntatic.Tree.{Color, Tree, leaf, node, Frame, left_of, right_of}
use cyntatic.Tree.Flat.{flat}

-- A pointer to a node.
pub data Cursor {ℓ} (A : Type ℓ) : Type ℓ where
  at : List (Frame A) → Color → Tree A → A → Tree A → Cursor A

module _ {ℓ} {A : Type ℓ} where
  -- Down to the left as far as possible.
  unfoldable pub to_left : List (Frame A) → Color → Tree A → A → Tree A → Cursor A
  to_left ps c leaf v r = at ps c leaf v r
  to_left ps c (node d l w m) v r = to_left (left_of c v r ∷ ps) d l w m

  -- Down to the right as far as possible.
  unfoldable pub to_right : List (Frame A) → Color → Tree A → A → Tree A → Cursor A
  to_right ps c l v leaf = at ps c l v leaf
  to_right ps c l v (node d m w r) = to_right (right_of c l v ∷ ps) d m w r

  -- `RbTree_first`.
  unfoldable pub first : Tree A → Option (Cursor A)
  unfolding to_left
  first leaf = none
  first (node c l v r) = some (to_left [] c l v r)

  -- Up while the node is a right child.
  unfoldable pub up_right : List (Frame A) → Tree A → Option (Cursor A)
  up_right [] t = none
  up_right (right_of c l v ∷ ps) t = up_right ps (node c l v t)
  up_right (left_of c v r ∷ ps) t = some (at ps c t v r)

  -- Up while the node is a left child.
  unfoldable pub up_left : List (Frame A) → Tree A → Option (Cursor A)
  up_left [] t = none
  up_left (left_of c v r ∷ ps) t = up_left ps (node c t v r)
  up_left (right_of c l v ∷ ps) t = some (at ps c l v t)

  -- `RbTreeNode_next`.
  unfoldable pub next : Cursor A → Option (Cursor A)
  unfolding to_left up_right
  next (at ps c l v leaf) = up_right ps (node c l v leaf)
  next (at ps c l v (node d m w r)) = some (to_left (right_of c l v ∷ ps) d m w r)

  -- `RbTreeNode_prev`.
  unfoldable pub prev : Cursor A → Option (Cursor A)
  unfolding to_right up_left
  prev (at ps c leaf v r) = up_left ps (node c leaf v r)
  prev (at ps c (node d l w m) v r) = some (to_right (left_of c v r ∷ ps) d l w m)

  -- The values to the right of a path, from left to right.
  abbrev pub right_values : List (Frame A) → List A
  right_values [] = []
  right_values (left_of c v r ∷ ps) = v ∷ flat r (right_values ps)
  right_values (right_of c l v ∷ ps) = right_values ps

  -- The values from a node on.
  abbrev pub from : Cursor A → List A
  from (at ps c l v r) = v ∷ flat r (right_values ps)

  abbrev pub from_maybe : Option (Cursor A) → List A
  from_maybe none = []
  from_maybe (some k) = from k

  abbrev pub value : Cursor A → A
  value (at ps c l v r) = v

  from-to_left :
      (ps : List (Frame A)) (c : Color) (l : Tree A) (v : A) (r : Tree A)
      → from (to_left ps c l v r) ≡ flat l (v ∷ flat r (right_values ps))
  unfolding to_left flat
  from-to_left ps c leaf v r = refl
  from-to_left ps c (node d l w m) v r = from-to_left (left_of c v r ∷ ps) d l w m

  from-up_right : (ps : List (Frame A)) (t : Tree A) → from_maybe (up_right ps t) ≡ right_values ps
  unfolding up_right
  from-up_right [] t = refl
  from-up_right (right_of c l v ∷ ps) t = from-up_right ps (node c l v t)
  from-up_right (left_of c v r ∷ ps) t = refl

  -- The walk from `RbTree_first` is over all the values of the tree, from left to right.
  pub from-first : (t : Tree A) → from_maybe (first t) ≡ flat t []
  unfolding first flat
  from-first leaf = refl
  from-first (node c l v r) = from-to_left [] c l v r

  -- `RbTreeNode_next` of a node of any tree leads to the node of the next value, or is null where the
  -- node's value is the last.
  pub from-next : (k : Cursor A) → from k ≡ value k ∷ from_maybe (next k)
  unfolding next flat
  from-next (at ps c l v leaf) = ap (λ x. v ∷ x) (sym (from-up_right ps (node c l v leaf)))
  from-next (at ps c l v (node d m w r)) =
      ap (λ x. v ∷ x) (sym (from-to_left (right_of c l v ∷ ps) d m w r))

  -- The values of a tree from right to left, and then those of a list.
  unfoldable pub flat_back : Tree A → List A → List A
  flat_back leaf acc = acc
  flat_back (node c l v r) acc = flat_back r (v ∷ flat_back l acc)

  abbrev pub left_values : List (Frame A) → List A
  left_values [] = []
  left_values (left_of c v r ∷ ps) = left_values ps
  left_values (right_of c l v ∷ ps) = v ∷ flat_back l (left_values ps)

  -- The values back from a node.
  abbrev pub back_from : Cursor A → List A
  back_from (at ps c l v r) = v ∷ flat_back l (left_values ps)

  abbrev pub back_from_maybe : Option (Cursor A) → List A
  back_from_maybe none = []
  back_from_maybe (some k) = back_from k

  back_from-to_right :
      (ps : List (Frame A)) (c : Color) (l : Tree A) (v : A) (r : Tree A)
      → back_from (to_right ps c l v r) ≡ flat_back r (v ∷ flat_back l (left_values ps))
  unfolding to_right flat_back
  back_from-to_right ps c l v leaf = refl
  back_from-to_right ps c l v (node d m w r) = back_from-to_right (right_of c l v ∷ ps) d m w r

  back_from-up_left :
      (ps : List (Frame A)) (t : Tree A) → back_from_maybe (up_left ps t) ≡ left_values ps
  unfolding up_left
  back_from-up_left [] t = refl
  back_from-up_left (left_of c v r ∷ ps) t = back_from-up_left ps (node c t v r)
  back_from-up_left (right_of c l v ∷ ps) t = refl

  -- `RbTreeNode_prev` of a node of any tree leads to the node of the value before, or is null where the
  -- node's value is the first.
  pub back_from-prev : (k : Cursor A) → back_from k ≡ value k ∷ back_from_maybe (prev k)
  unfolding prev flat_back
  back_from-prev (at ps c leaf v r) = ap (λ x. v ∷ x) (sym (back_from-up_left ps (node c leaf v r)))
  back_from-prev (at ps c (node d l w m) v r) =
      ap (λ x. v ∷ x) (sym (back_from-to_right (left_of c v r ∷ ps) d l w m))
