-- ===== src/Tree/Tests.antt =====
-- The theorems on the red-black tree at small trees.
use cyntatic.Prelude.{ℕ, ◌≡◌, refl, inl, inr, Bool, true, some, none, List, [], ◌∷◌, arith}
use Prim.Native.Nat.{compare}
use cyntatic.Tree.{
  red, black, Tree, leaf, node, insert_fix, blacken, rotate_left_side, rotate_right_side, plug,
  find_or_add_place, add, find_or_add, find, map_data, map_path,
}
use cyntatic.Tree.Walk.{
  Cursor, at, next, prev, from, from_maybe, back_from, back_from_maybe, from-next, back_from-prev,
}
use cyntatic.Tree.Flat.{flat}
use cyntatic.Tree.Proper.{IsRooted}
use cyntatic.Tree.Search.{Order, IsOrdered, insert_ordered}
use cyntatic.Tree.Insert.{IsCut, insert_after, add-insert_after}
use cyntatic.Tree.Add.{Answer, find_or_add-insert_ordered}

numbers : Order compare
numbers = record {
  same = λ x. ground arith;
  trans = λ x y z a b. ground arith;
  beyond = λ x v w a b. elim a [ inl g ↦ ground arith | inr e ↦ ground arith ];
}

-- 4 at the root, and red 2 and 6 below it.
abbrev three : Tree ℕ
three = node black (node red leaf 2 leaf) 4 (node red leaf 6 leaf)

three-IsOrdered : IsOrdered compare (flat three [])
unfolding flat
three-IsOrdered = ((refl, (refl, tt)), ((refl, tt), (tt, tt)))

find_or_add-insert_ordered_example :
    (added : Bool) × (v : ℕ) × (t' : Tree ℕ) × (find_or_add compare 3 three ≡ some (added, v, t'))
    × Answer compare 3 (find compare 3 three) added v
    × IsRooted t'
    × (flat t' [] ≡ insert_ordered compare 3 (flat three []))
find_or_add-insert_ordered_example =
    find_or_add-insert_ordered compare numbers 3 three
      ((((refl, refl, tt, tt), (refl, refl, tt, tt))), refl) three-IsOrdered

three-IsCut : IsCut compare 4 (flat three [])
unfolding flat
three-IsCut = ((λ e. cc), ((λ e. cc), ((λ e. tt), tt)))

add-insert_after_example :
    (t' : Tree ℕ) × (add compare 4 three ≡ some t')
    × IsRooted t'
    × (flat t' [] ≡ insert_after compare 4 (flat three []))
add-insert_after_example =
    add-insert_after compare 4 three ((((refl, refl, tt, tt), (refl, refl, tt, tt))), refl)
      three-IsCut

-- Case 2 below the grandparent's left child paints the old parent black: after 3, 1 and 2 the left
-- subtree has a black node more than the right one. The mirror image, 1, 3 and 2, is balanced.
left_unbalanced :
    find_or_add compare 2 (node black (node red leaf 1 leaf) 3 leaf)
    ≡ some (true, 2, node black (node black leaf 1 leaf) 2 (node red leaf 3 leaf))
unfolding find_or_add find_or_add_place map_data map_path insert_fix blacken rotate_left_side
    rotate_right_side plug
left_unbalanced = refl

right_balanced :
    find_or_add compare 2 (node black leaf 1 (node red leaf 3 leaf))
    ≡ some (true, 2, node black (node red leaf 1 leaf) 2 (node red leaf 3 leaf))
unfolding find_or_add find_or_add_place map_data map_path insert_fix blacken rotate_left_side
    rotate_right_side plug
right_balanced = refl

-- The function alone leaves the data of the new node empty.
not_stored :
    find_or_add_place compare 3 (node black leaf 1 leaf)
    ≡ some (true, none, node black leaf (some 1) (node red leaf none leaf))
unfolding find_or_add_place map_data map_path insert_fix plug
not_stored = refl

abbrev ab : List ℕ
ab = 97 ∷ 98 ∷ []

-- The node with 4, between 2 and 6.
abbrev root_node : Cursor ℕ
root_node = at [] black (node red leaf 2 leaf) 4 (node red leaf 6 leaf)

from-next_example : from root_node ≡ 4 ∷ from_maybe (next root_node)
from-next_example = from-next root_node

back_from-prev_example : back_from root_node ≡ 4 ∷ back_from_maybe (prev root_node)
back_from-prev_example = back_from-prev root_node
