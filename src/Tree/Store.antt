-- ===== src/Tree/Store.antt =====
-- The store of a value in a new node (the macros of include/tree.h): insertion and repair
-- (src/tree.c) never look at the data.
use cyntatic.Prelude.{
  ◌≡◌, refl, ap, sym, ◌∙◌, inl, inr, Bool, true, false, Option, some, none, List, [], ◌∷◌,
  Option-cases, of_some_eq,
}
use Prim.Native.Nat.{Ordering}
use cyntatic.Tree.{
  Color, red, black, Tree, leaf, node, Frame, left_of, right_of, plug, blacken, rotate_left_side,
  rotate_right_side, insert_fix, map_data, map_frame, map_path, stored, found, link, descend,
  add_path, add_place, add, find_or_add_place, find_or_add,
}

module _ {ℓ κ} {A : Type ℓ} {B : Type κ} (f : A → B) where
  -- The path of one frame more.
  map_plug :
      (ps : List (Frame A)) (t : Tree A)
      → plug (map_path f ps) (map_data f t) ≡ map_data f (plug ps t)
  unfolding plug map_data map_path
  map_plug [] t = refl
  map_plug (left_of c v r ∷ ps) t = map_plug ps (node c t v r)
  map_plug (right_of c l v ∷ ps) t = map_plug ps (node c l v t)

  map_blacken : (t : Tree A) → blacken (map_data f t) ≡ map_data f (blacken t)
  unfolding blacken map_data
  map_blacken leaf = refl
  map_blacken (node c l v r) = refl

  abbrev map_result : Option (Tree A) → Option (Tree B)
  map_result (some t) = some (map_data f t)
  map_result none = none

  plugged :
      (ps : List (Frame A)) {t : Tree B} (t' : Tree A)
      → t ≡ map_data f t'
      → some (plug (map_path f ps) t) ≡ some (map_data f (plug ps t'))
  plugged ps t' e = ap some (ap (plug (map_path f ps)) e ∙ map_plug ps t')

  rotate_left_side-map :
      (p : Frame A) (n : Tree A) (gc : Color) (gv : A) (u : Tree A)
      → rotate_left_side (map_frame f p) (map_data f n) gc (f gv) (map_data f u)
        ≡ map_data f (rotate_left_side p n gc gv u)
  unfolding rotate_left_side map_data
  rotate_left_side-map (left_of c v r) n gc gv u = rw (map_blacken r) refl
  rotate_left_side-map (right_of c l v) leaf gc gv u = refl
  rotate_left_side-map (right_of c l v) (node nc nl nv nr) gc gv u =
      rw (map_blacken nl, map_blacken nr) refl

  rotate_right_side-map :
      (p : Frame A) (n : Tree A) (gc : Color) (gv : A) (u : Tree A)
      → rotate_right_side (map_frame f p) (map_data f n) gc (f gv) (map_data f u)
        ≡ map_data f (rotate_right_side p n gc gv u)
  unfolding rotate_right_side map_data
  rotate_right_side-map (right_of c l v) n gc gv u = rw (map_blacken l) refl
  rotate_right_side-map (left_of c v r) leaf gc gv u = refl
  rotate_right_side-map (left_of c v r) (node nc nl nv nr) gc gv u =
      rw (map_blacken nl, map_blacken nr) refl

  insert_fix-map :
      (ps : List (Frame A)) (n : Tree A)
      → insert_fix (map_path f ps) (map_data f n) ≡ map_result (insert_fix ps n)
  unfolding insert_fix plug blacken rotate_left_side rotate_right_side map_data map_path
  insert_fix-map [] n = ap some (map_blacken n)
  insert_fix-map (left_of black v r ∷ []) n = refl
  insert_fix-map (left_of red v r ∷ []) n = refl
  insert_fix-map (right_of black l v ∷ []) n = refl
  insert_fix-map (right_of red l v ∷ []) n = refl
  insert_fix-map (left_of black v r ∷ left_of gc gv u ∷ ps) n = plugged ps _ refl
  insert_fix-map (right_of black l v ∷ left_of gc gv u ∷ ps) n = plugged ps _ refl
  insert_fix-map (left_of black v r ∷ right_of gc u gv ∷ ps) n = plugged ps _ refl
  insert_fix-map (right_of black l v ∷ right_of gc u gv ∷ ps) n = plugged ps _ refl
  insert_fix-map (left_of red v r ∷ left_of gc gv (node red a b d) ∷ ps) n =
      insert_fix-map ps (node red (node black n v r) gv (node black a b d))
  insert_fix-map (left_of red v r ∷ left_of gc gv leaf ∷ ps) n =
      plugged ps _ (rotate_left_side-map (left_of red v r) n gc gv leaf)
  insert_fix-map (left_of red v r ∷ left_of gc gv (node black a b d) ∷ ps) n =
      plugged ps _ (rotate_left_side-map (left_of red v r) n gc gv (node black a b d))
  insert_fix-map (right_of red l v ∷ left_of gc gv (node red a b d) ∷ ps) n =
      insert_fix-map ps (node red (node black l v n) gv (node black a b d))
  insert_fix-map (right_of red l v ∷ left_of gc gv leaf ∷ ps) n =
      plugged ps _ (rotate_left_side-map (right_of red l v) n gc gv leaf)
  insert_fix-map (right_of red l v ∷ left_of gc gv (node black a b d) ∷ ps) n =
      plugged ps _ (rotate_left_side-map (right_of red l v) n gc gv (node black a b d))
  insert_fix-map (left_of red v r ∷ right_of gc (node red a b d) gv ∷ ps) n =
      insert_fix-map ps (node red (node black a b d) gv (node black n v r))
  insert_fix-map (left_of red v r ∷ right_of gc leaf gv ∷ ps) n =
      plugged ps _ (rotate_right_side-map (left_of red v r) n gc gv leaf)
  insert_fix-map (left_of red v r ∷ right_of gc (node black a b d) gv ∷ ps) n =
      plugged ps _ (rotate_right_side-map (left_of red v r) n gc gv (node black a b d))
  insert_fix-map (right_of red l v ∷ right_of gc (node red a b d) gv ∷ ps) n =
      insert_fix-map ps (node red (node black a b d) gv (node black l v n))
  insert_fix-map (right_of red l v ∷ right_of gc leaf gv ∷ ps) n =
      plugged ps _ (rotate_right_side-map (right_of red l v) n gc gv leaf)
  insert_fix-map (right_of red l v ∷ right_of gc (node black a b d) gv ∷ ps) n =
      plugged ps _ (rotate_right_side-map (right_of red l v) n gc gv (node black a b d))

module _ {ℓ} {A : Type ℓ} (x : A) where
  -- A tree without an empty node is not changed by the store.
  stored_tree : (t : Tree A) → map_data (stored x) (map_data some t) ≡ t
  unfolding map_data
  stored_tree leaf = refl
  stored_tree (node c l v r) = rw (stored_tree l, stored_tree r) refl

  stored_path : (ps : List (Frame A)) → map_path (stored x) (map_path some ps) ≡ ps
  unfolding map_path
  stored_path [] = refl
  stored_path (left_of c v r ∷ ps) = rw (stored_tree r, stored_path ps) refl
  stored_path (right_of c l v ∷ ps) = rw (stored_tree l, stored_path ps) refl

  -- Storing the value in the node that was linked in, after the repair, gives the tree that repairing
  -- with the value in the node gives.
  stored-insert_fix :
      (ps : List (Frame A))
      → map_result (stored x) (insert_fix (map_path some ps) (node red leaf none leaf))
        ≡ insert_fix ps (node red leaf x leaf)
  unfolding map_data
  stored-insert_fix ps =
      sym (insert_fix-map (stored x) (map_path some ps) (node red leaf none leaf))
      ∙ ap (λ qs. insert_fix qs (node red leaf x leaf)) (stored_path ps)

  module _ (cmp : A → A → Ordering) (t : Tree A) where
    pub find_or_add-found :
        {w : A} → descend cmp x t [] ≡ found w → find_or_add cmp x t ≡ some (false, w, t)
    unfolding find_or_add find_or_add_place
    find_or_add-found e = rw (e, find_or_add, find_or_add_place, stored_tree t) refl

    abbrev Gives : Tree (Option A) → Tree A → Type ℓ
    Gives t' u =
        ◌≡◌ {A = Option (Bool × A × Tree A)} (some (true, x, map_data (stored x) t'))
          (some (true, x, u))

    pub find_or_add-link :
        {ps : List (Frame A)} {t' : Tree A}
        → descend cmp x t [] ≡ link ps
        → insert_fix ps (node red leaf x leaf) ≡ some t'
        → find_or_add cmp x t ≡ some (true, x, t')
    unfolding find_or_add find_or_add_place
    find_or_add-link {ps} {t'} e fixed =
        let r = insert_fix (map_path some ps) (node red leaf none leaf) in
        let same : map_result (stored x) r ≡ some t' = stored-insert_fix ps ∙ fixed in
        elim (Option-cases r) [
          | inl n ↦ absurd (cc (rw n at same))
          | inr (t'', s) ↦
              rw (e, find_or_add, find_or_add_place, s) (of_some_eq (Gives t'') (rw s at same) refl)
        ]

    -- The macro `RbTree_add` gives the tree that the insertion of a node with the value in it gives.
    pub add-insert_fix : add cmp x t ≡ insert_fix (add_path cmp x t []) (node red leaf x leaf)
    unfolding add add_place
    add-insert_fix =
        let ps = add_path cmp x t [] in
        let r = insert_fix (map_path some ps) (node red leaf none leaf) in
        let same : map_result (stored x) r ≡ insert_fix ps (node red leaf x leaf) =
          stored-insert_fix ps in
        elim (Option-cases r) [
          | inl n ↦ rw (n, add, add_place) (rw n at same)
          | inr (t'', s) ↦ rw (s, add, add_place) (rw s at same)
        ]
