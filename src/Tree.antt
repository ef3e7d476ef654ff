-- ===== src/Tree.antt =====
-- The red-black tree (include/tree.h, src/tree.c): `RbTree_insert__`, `RbTree_add_` and
-- `RbTree_find_or_add_` with the macros of tree.h that store the value, `RbTree_find_`, and the string
-- comparison. The pointers from a node to its parent are a path: the nodes from the parent up to the
-- root, each with its other subtree. An allocation is taken to succeed, as the code asserts.
pub mod Flat
pub mod Proper
pub mod Search
pub mod Store
pub mod Add
pub mod Insert
pub mod Text
pub mod Walk
mod Tests
use cyntatic.Prelude.{
  ℕ, Bool, true, false, Option, some, none, List, [], ◌∷◌, ◌&&◌, ◌==◌, ltb, if◌then◌else◌,
}
use Prim.Native.Nat.{Ordering}

-- `rbtRed`, `rbtBlack`.
pub data Color : Type 0 where
  red black : Color

pub data Tree {ℓ} (A : Type ℓ) : Type ℓ where
  leaf : Tree A
  node : Color → Tree A → A → Tree A → Tree A

-- A node on the way to the root: `left_of` where the path comes from its left child.
pub data Frame {ℓ} (A : Type ℓ) : Type ℓ where
  left_of : Color → A → Tree A → Frame A
  right_of : Color → Tree A → A → Frame A

-- Where a descent ends: at an equal value, or at an empty link.
pub data Spot {ℓ} (A : Type ℓ) : Type ℓ where
  found : A → Spot A
  link : List (Frame A) → Spot A

module _ {ℓ} {A : Type ℓ} where
  -- The tree that a subtree and its path make.
  unfoldable pub plug : List (Frame A) → Tree A → Tree A
  plug [] t = t
  plug (left_of c v r ∷ ps) t = plug ps (node c t v r)
  plug (right_of c l v ∷ ps) t = plug ps (node c l v t)

  -- `if (tmp) RbTree_set_parent_color(tmp, _, Black)`.
  unfoldable pub blacken : Tree A → Tree A
  blacken leaf = leaf
  blacken (node c l v r) = node black l v r

  -- `RbTree_is(t, Red)` for a node that may be null.
  abbrev pub is_red : Tree A → Bool
  is_red (node red l v r) = true
  is_red t = false

  -- Cases 2 and 3 where the parent is the grandparent's left child: `gc`, `gv` and `u` are the
  -- grandparent's colour and value and the uncle.
  unfoldable pub rotate_left_side : Frame A → Tree A → Color → A → Tree A → Tree A
  unfolding blacken
  rotate_left_side (left_of pc pv pr) n gc gv u = node gc n pv (node red (blacken pr) gv u)
  rotate_left_side (right_of pc pl pv) (node nc nl nv nr) gc gv u =
      node gc (node black pl pv (blacken nl)) nv (node red (blacken nr) gv u)
  rotate_left_side (right_of pc pl pv) leaf gc gv u = leaf

  -- The mirror image; its Case 2 makes the parent red.
  unfoldable pub rotate_right_side : Frame A → Tree A → Color → A → Tree A → Tree A
  unfolding blacken
  rotate_right_side (right_of pc pl pv) n gc gv u = node gc (node red u gv (blacken pl)) pv n
  rotate_right_side (left_of pc pv pr) (node nc nl nv nr) gc gv u =
      node gc (node red u gv (blacken nl)) nv (node red (blacken nr) pv pr)
  rotate_right_side (left_of pc pv pr) leaf gc gv u = leaf

  abbrev pub frame_color : Frame A → Color
  frame_color (left_of c v r) = c
  frame_color (right_of c l v) = c

  -- The parent with a child, painted.
  abbrev pub join : Color → Frame A → Tree A → Tree A
  join c (left_of pc v r) t = node c t v r
  join c (right_of pc l v) t = node c l v t

  -- The loop of `RbTree_insert__` at the subtree of `node`; `none` where the code follows a null
  -- grandparent.
  unfoldable pub insert_fix : List (Frame A) → Tree A → Option (Tree A)
  unfolding plug blacken rotate_left_side rotate_right_side
  insert_fix [] n = some (blacken n)
  insert_fix (p ∷ []) n = elim (frame_color p) [ black ↦ some (plug (p ∷ []) n) | red ↦ none ]
  insert_fix (p ∷ left_of gc gv u ∷ ps) n = elim (frame_color p) [
    | black ↦ some (plug (p ∷ left_of gc gv u ∷ ps) n)
    | red ↦ elim (is_red u) [
      | true ↦ insert_fix ps (node red (join black p n) gv (blacken u))
      | false ↦ some (plug ps (rotate_left_side p n gc gv u))
    ]
  ]
  insert_fix (p ∷ right_of gc u gv ∷ ps) n = elim (frame_color p) [
    | black ↦ some (plug (p ∷ right_of gc u gv ∷ ps) n)
    | red ↦ elim (is_red u) [
      | true ↦ insert_fix ps (node red (blacken u) gv (join black p n))
      | false ↦ some (plug ps (rotate_right_side p n gc gv u))
    ]
  ]

module _ {ℓ κ} {A : Type ℓ} {B : Type κ} (f : A → B) where
  -- A tree and a path with other data in their nodes.
  unfoldable pub map_data : Tree A → Tree B
  map_data leaf = leaf
  map_data (node c l v r) = node c (map_data l) (f v) (map_data r)

  abbrev pub map_frame : Frame A → Frame B
  map_frame (left_of c v r) = left_of c (f v) (map_data r)
  map_frame (right_of c l v) = right_of c (map_data l) (f v)

  unfoldable pub map_path : List (Frame A) → List (Frame B)
  map_path [] = []
  map_path (p ∷ ps) = map_frame p ∷ map_path ps

-- What stands in the data of a node after `*s = x` on the node with none.
abbrev pub stored {ℓ} : {A : Type ℓ} → A → Option A → A
stored x (some v) = v
stored x none = x

-- The comparison that the tree was initialised with is a parameter: the sign of `cmp(value, len, data)`.
module _ {ℓ} {A : Type ℓ} (cmp : A → A → Ordering) where
  -- The loop of `RbTree_find_or_add_`.
  unfoldable pub descend : A → Tree A → List (Frame A) → Spot A
  descend x leaf ps = link ps
  descend x (node c l v r) ps = elim (cmp x v) [
    | Ordering.lt ↦ descend x l (left_of c v r ∷ ps)
    | Ordering.gt ↦ descend x r (right_of c l v ∷ ps)
    | Ordering.eq ↦ found v
  ]

  -- The loop of `RbTree_add_`: equal values go to the right.
  unfoldable pub add_path : A → Tree A → List (Frame A) → List (Frame A)
  add_path x leaf ps = ps
  add_path x (node c l v r) ps = elim (cmp x v) [
    | Ordering.lt ↦ add_path x l (left_of c v r ∷ ps)
    | Ordering.gt ↦ add_path x r (right_of c l v ∷ ps)
    | Ordering.eq ↦ add_path x r (right_of c l v ∷ ps)
  ]

  -- `RbTree_add_`: the new node, whose data nothing has been stored in yet, and the tree around it.
  unfoldable pub add_place : A → Tree A → Option (Tree (Option A))
  unfolding add_path insert_fix map_path
  add_place x t = insert_fix (map_path some (add_path x t [])) (node red leaf none leaf)

  -- The macro `RbTree_add`: the value is stored in the node that `RbTree_add_` returns, the one whose
  -- data are empty.
  unfoldable pub add : A → Tree A → Option (Tree A)
  unfolding add_place map_data
  add x t = elim (add_place x t) [ some t' ↦ some (map_data (stored x) t') | none ↦ none ]

  -- `RbTree_find_or_add_`: whether a node was added, the data of the node found or added, and the tree.
  -- A new node has no data yet.
  unfoldable pub find_or_add_place : A → Tree A → Option (Bool × Option A × Tree (Option A))
  unfolding descend insert_fix map_data map_path
  find_or_add_place x t = elim (descend x t []) [
    | found v ↦ some (false, some v, map_data some t)
    | link ps ↦ elim (insert_fix (map_path some ps) (node red leaf none leaf)) [
      | some t' ↦ some (true, none, t')
      | none ↦ none
    ]
  ]

  -- The macro `RbTree_find_or_add`: where a node was added, the value is stored in it, the only one whose
  -- data are empty. The result points at the data of the node found or added.
  unfoldable pub find_or_add : A → Tree A → Option (Bool × A × Tree A)
  unfolding find_or_add_place map_data
  find_or_add x t = elim (find_or_add_place x t) [
    | some r ↦ some (r.0, stored x r.1, map_data (stored x) r.2)
    | none ↦ none
  ]

  -- `RbTree_find_`.
  unfoldable pub find : A → Tree A → Option A
  find x leaf = none
  find x (node c l v r) = elim (cmp x v) [
    | Ordering.lt ↦ find x l
    | Ordering.gt ↦ find x r
    | Ordering.eq ↦ some v
  ]
