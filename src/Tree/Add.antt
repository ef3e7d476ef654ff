-- ===== src/Tree/Add.antt =====
-- The macro `RbTree_find_or_add` (include/tree.h), with `RbTree_find_or_add_` and `RbTree_find_`
-- (src/tree.c), on a tree in order.
use mathlib.Core.Path.{subst}
use cyntatic.Prelude.{
  ◌≡◌, refl, ap, sym, ◌∙◌, ◌⊎◌, inl, inr, Bool, true, false, Option, some, none, List, [], ◌∷◌,
}
use Prim.Native.Nat.{Ordering}
use cyntatic.Tree.{
  Color, red, black, Tree, leaf, node, Frame, left_of, right_of, plug, is_red, Spot, found, link,
  descend, find_or_add, find,
}
use cyntatic.Tree.Store.{find_or_add-found, find_or_add-link}
use cyntatic.Tree.Flat.{flat, flat-insert_fix}
use cyntatic.Tree.Proper.{IsProper, IsRooted, IsPath, top_black, insert_fix-IsRooted}
use cyntatic.Tree.Search.{
  Order, Ordering-cases, IsOrdered, lookup, insert_ordered, graft, lookup-flat, flat-graft,
}

module _ {ℓ} {A : Type ℓ} (cmp : A → A → Ordering) where
  -- What a descent finds: the value of `find`, in a tree that stays as it is, or the path to the empty
  -- link where the search ends.
  abbrev Reached : A → Tree A → List (Frame A) → Spot A → Type ℓ
  Reached x t ps (found v) = (find cmp x t ≡ some v) × (graft cmp x t ≡ t)
  Reached x t ps (link qs) =
      (find cmp x t ≡ none) × IsPath qs × (plug qs (node red leaf x leaf) ≡ plug ps (graft cmp x t))

  -- A subtree of a proper tree and its path.
  abbrev pub Hangs : Tree A → List (Frame A) → Type 0
  Hangs t ps = IsPath ps × IsProper t × ((is_red t ≡ false) ⊎ (top_black ps ≡ true))

  pub Hangs-left :
      (c : Color) (l : Tree A) (v : A) (r : Tree A) (ps : List (Frame A))
      → Hangs (node c l v r) ps
      → Hangs l (left_of c v r ∷ ps)
  Hangs-left black l v r ps (p, (a, b), k) = ((b, p), a, inr refl)
  Hangs-left red l v r ps (p, (a, b, c, d), inl k) = cc
  Hangs-left red l v r ps (p, (a, b, c, d), inr k) = ((d, b, k, p), c, inl a)

  pub Hangs-right :
      (c : Color) (l : Tree A) (v : A) (r : Tree A) (ps : List (Frame A))
      → Hangs (node c l v r) ps
      → Hangs r (right_of c l v ∷ ps)
  Hangs-right black l v r ps (p, (a, b), k) = ((a, p), b, inr refl)
  Hangs-right red l v r ps (p, (a, b, c, d), inl k) = cc
  Hangs-right red l v r ps (p, (a, b, c, d), inr k) = ((c, a, k, p), d, inl b)

  Reached-left :
      (x : A) (c : Color) (l : Tree A) (v : A) (r : Tree A) (ps : List (Frame A)) (s : Spot A)
      → cmp x v ≡ Ordering.lt
      → Reached x l (left_of c v r ∷ ps) s
      → Reached x (node c l v r) ps s
  unfolding find graft plug
  Reached-left x c l v r ps (found w) e (f, g) =
      (rw (e, find) f, rw (e, graft) (ap (λ l. node c l v r) g))
  Reached-left x c l v r ps (link qs) e (f, p, q) =
      let step : graft cmp x (node c l v r) ≡ node c (graft cmp x l) v r = rw (e, graft) in
      (rw (e, find) f, p, q ∙ ap (plug ps) (sym step))

  Reached-right :
      (x : A) (c : Color) (l : Tree A) (v : A) (r : Tree A) (ps : List (Frame A)) (s : Spot A)
      → cmp x v ≡ Ordering.gt
      → Reached x r (right_of c l v ∷ ps) s
      → Reached x (node c l v r) ps s
  unfolding find graft plug
  Reached-right x c l v r ps (found w) e (f, g) =
      (rw (e, find) f, rw (e, graft) (ap (λ r. node c l v r) g))
  Reached-right x c l v r ps (link qs) e (f, p, q) =
      let step : graft cmp x (node c l v r) ≡ node c l v (graft cmp x r) = rw (e, graft) in
      (rw (e, find) f, p, q ∙ ap (plug ps) (sym step))

  descend-Reached :
      (x : A) (t : Tree A) (ps : List (Frame A)) → Hangs t ps → Reached x t ps (descend cmp x t ps)
  unfolding descend find graft plug
  descend-Reached x leaf ps h = (refl, h.0, refl)
  descend-Reached x (node c l v r) ps h = elim (Ordering-cases (cmp x v)) [
    | inl e ↦
        let ps' = left_of c v r ∷ ps in
        let step : descend cmp x l ps' ≡ descend cmp x (node c l v r) ps = rw (e, descend) in
        subst (Reached x (node c l v r) ps) step (
          Reached-left x c l v r ps (descend cmp x l ps') e
            (descend-Reached x l ps' (Hangs-left c l v r ps h)))
    | inr (inl e) ↦
        let ps' = right_of c l v ∷ ps in
        let step : descend cmp x r ps' ≡ descend cmp x (node c l v r) ps = rw (e, descend) in
        subst (Reached x (node c l v r) ps) step (
          Reached-right x c l v r ps (descend cmp x r ps') e
            (descend-Reached x r ps' (Hangs-right c l v r ps h)))
    | inr (inr e) ↦
        let step : found v ≡ descend cmp x (node c l v r) ps = rw (e, descend) in
        subst (Reached x (node c l v r) ps) step (rw (e, find), rw (e, graft))
  ]

  -- What `RbTree_find_or_add` returns, by what the search finds.
  abbrev pub Answer : A → Option A → Bool → A → Type ℓ
  Answer x (some w) added v = (added ≡ false) × (v ≡ w)
  Answer x none added v = (added ≡ true) × (v ≡ x)

  abbrev Added : A → Tree A → Type ℓ
  Added x t =
      (added : Bool) × (v : A) × (t' : Tree A) × (find_or_add cmp x t ≡ some (added, v, t'))
      × Answer x (find cmp x t) added v
      × IsRooted t'
      × (flat t' [] ≡ insert_ordered cmp x (flat t []))

  Added-find_or_add :
      Order cmp
      → (x : A) (t : Tree A) → IsRooted t
      → IsOrdered cmp (flat t [])
      → (s : Spot A) → descend cmp x t [] ≡ s
      → Reached x t [] s
      → Added x t
  unfolding plug
  Added-find_or_add o x t rooted ordered (found w) e (f, g) = (
    false,
    w,
    t,
    find_or_add-found x cmp t e,
    rw f (refl, refl),
    rooted,
    ap (λ u. flat u []) (sym g) ∙ flat-graft cmp o x t [] ordered tt,
  )
  Added-find_or_add o x t rooted ordered (link qs) e (f, p, q) =
      let (t', fixed, rooted') = insert_fix-IsRooted qs leaf x leaf p (refl, refl, tt, tt) in
      (
        true,
        x,
        t',
        find_or_add-link x cmp t e fixed,
        rw f (refl, refl),
        rooted',
        flat-insert_fix qs (node red leaf x leaf) (λ z. cc) fixed []
            ∙ ap (λ u. flat u []) q
            ∙ flat-graft cmp o x t [] ordered tt,
      )

  -- Where the comparison is a strict weak order (`Order`): on a tree in order, each value before the
  -- next, with a black root and no red node below a red one, the macro `RbTree_find_or_add`
  -- (the call of `RbTree_find_or_add_` and the store of the value in a node that was added) succeeds,
  -- follows no null pointer and gives a tree again with a black root and no red node below a red one. Its
  -- result points at the value that `RbTree_find_` finds, and says that nothing was added; where
  -- `RbTree_find_` finds none, at the value stored, and says that it was added. The values of the tree are
  -- then those of the ordered insertion of the value into the old ones.
  pub find_or_add-insert_ordered :
      Order cmp
      → (x : A) (t : Tree A) → IsRooted t
      → IsOrdered cmp (flat t [])
      → (added : Bool) × (v : A) × (t' : Tree A) × (find_or_add cmp x t ≡ some (added, v, t'))
        × Answer x (find cmp x t) added v
        × IsRooted t'
        × (flat t' [] ≡ insert_ordered cmp x (flat t []))
  find_or_add-insert_ordered o x t rooted ordered =
      Added-find_or_add o x t rooted ordered (descend cmp x t []) refl
        (descend-Reached x t [] (tt, rooted.0, inl rooted.1))

  -- On a tree in order, `RbTree_find_` gives the value of the tree that compares equal, and none where
  -- there is none.
  pub find-lookup :
      Order cmp
      → (x : A) (t : Tree A) → IsOrdered cmp (flat t [])
      → find cmp x t ≡ lookup cmp x (flat t [])
  find-lookup o x t ordered = sym (lookup-flat cmp o x t [] ordered tt)
