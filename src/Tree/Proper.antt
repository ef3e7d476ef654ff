-- ===== src/Tree/Proper.antt =====
-- The colours of the red-black tree (src/tree.c): no red node has a red child.
use cyntatic.Prelude.{◌≡◌, refl, ◌⊎◌, inl, inr, Bool, true, false, some, List, [], ◌∷◌, Bool-cases}
use cyntatic.Tree.{
  red, black, Tree, leaf, node, Frame, left_of, right_of, plug, blacken, is_red, rotate_left_side,
  rotate_right_side, frame_color, join, insert_fix,
}
use cyntatic.Tree.Flat.{Color-cases}

module _ {ℓ} {A : Type ℓ} where
  -- A red node's children are black or null.
  abbrev pub IsProper : Tree A → Type 0
  IsProper leaf = Unit
  IsProper (node black l v r) = IsProper l × IsProper r
  IsProper (node red l v r) = (is_red l ≡ false) × (is_red r ≡ false) × IsProper l × IsProper r

  -- The root of a tree is black.
  abbrev pub IsRooted : Tree A → Type 0
  IsRooted t = IsProper t × (is_red t ≡ false)

  abbrev pub other : Frame A → Tree A
  other (left_of c v r) = r
  other (right_of c l v) = l

  -- The path ends below a black node.
  abbrev pub top_black : List (Frame A) → Bool
  top_black (left_of black v r ∷ ps) = true
  top_black (right_of black l v ∷ ps) = true
  top_black ps = false

  -- A path in such a tree, whose last node, the root, is black.
  abbrev pub IsPath : List (Frame A) → Type 0
  IsPath [] = Unit
  IsPath (left_of black v r ∷ ps) = IsProper r × IsPath ps
  IsPath (right_of black l v ∷ ps) = IsProper l × IsPath ps
  IsPath (left_of red v r ∷ ps) =
      IsProper r × (is_red r ≡ false) × (top_black ps ≡ true) × IsPath ps
  IsPath (right_of red l v ∷ ps) =
      IsProper l × (is_red l ≡ false) × (top_black ps ≡ true) × IsPath ps

  blacken-IsProper : (t : Tree A) → IsProper t → IsProper (blacken t)
  unfolding blacken
  blacken-IsProper leaf h = h
  blacken-IsProper (node black l v r) h = h
  blacken-IsProper (node red l v r) (a, b, hl, hr) = (hl, hr)

  blacken-IsRooted : (t : Tree A) → IsProper t → IsRooted (blacken t)
  unfolding blacken
  blacken-IsRooted leaf h = (h, refl)
  blacken-IsRooted (node c l v r) h = (blacken-IsProper (node c l v r) h, refl)

  -- A subtree put where the path ends: black, or below a black node.
  plug-IsRooted :
      (ps : List (Frame A)) (t : Tree A)
      → IsPath ps
      → IsProper t
      → (is_red t ≡ false) ⊎ (top_black ps ≡ true)
      → IsRooted (plug ps t)
  unfolding plug
  plug-IsRooted [] t p h (inl b) = (h, b)
  plug-IsRooted [] t p h (inr b) = cc
  plug-IsRooted (left_of black v r ∷ ps) t (pr, p) h k =
      plug-IsRooted ps (node black t v r) p (h, pr) (inl refl)
  plug-IsRooted (right_of black l v ∷ ps) t (pl, p) h k =
      plug-IsRooted ps (node black l v t) p (pl, h) (inl refl)
  plug-IsRooted (left_of red v r ∷ ps) t (pr, b, top, p) h (inl k) =
      plug-IsRooted ps (node red t v r) p (k, b, h, pr) (inr top)
  plug-IsRooted (right_of red l v ∷ ps) t (pl, b, top, p) h (inl k) =
      plug-IsRooted ps (node red l v t) p (b, k, pl, h) (inr top)
  plug-IsRooted (left_of red v r ∷ ps) t p h (inr k) = cc
  plug-IsRooted (right_of red l v ∷ ps) t p h (inr k) = cc

  -- What the loop of `RbTree_insert__` leaves.
  abbrev Fixed : List (Frame A) → Tree A → Type ℓ
  Fixed ps n = (t : Tree A) × (insert_fix ps n ≡ some t) × IsRooted t

  rotate_left_side-IsProper :
      (p : Frame A) (nl nr : Tree A) (nv gv : A) (u : Tree A)
      → IsProper (node red nl nv nr)
      → IsProper (other p)
      → is_red (other p) ≡ false
      → IsProper u
      → is_red u ≡ false
      → IsProper (rotate_left_side p (node red nl nv nr) black gv u)
  unfolding rotate_left_side
  rotate_left_side-IsProper (left_of pc pv pr) nl nr nv gv u h q b k z =
      (h, ((blacken-IsRooted pr q).1, z, blacken-IsProper pr q, k))
  rotate_left_side-IsProper (right_of pc pl pv) nl nr nv gv u (bl, br, hl, hr) q b k z =
      ((q, blacken-IsProper nl hl), ((blacken-IsRooted nr hr).1, z, blacken-IsProper nr hr, k))

  rotate_right_side-IsProper :
      (p : Frame A) (nl nr : Tree A) (nv gv : A) (u : Tree A)
      → IsProper (node red nl nv nr)
      → IsProper (other p)
      → is_red (other p) ≡ false
      → IsProper u
      → is_red u ≡ false
      → IsProper (rotate_right_side p (node red nl nv nr) black gv u)
  unfolding rotate_right_side
  rotate_right_side-IsProper (right_of pc pl pv) nl nr nv gv u h q b k z =
      ((z, (blacken-IsRooted pl q).1, k, blacken-IsProper pl q), h)
  rotate_right_side-IsProper (left_of pc pv pr) nl nr nv gv u (bl, br, hl, hr) q b k z = (
    (z, (blacken-IsRooted nl hl).1, k, blacken-IsProper nl hl),
    ((blacken-IsRooted nr hr).1, b, blacken-IsProper nr hr, q),
  )

  IsProper-other : (p : Frame A) (ps : List (Frame A)) → IsPath (p ∷ ps) → IsProper (other p)
  IsProper-other (left_of black v r) ps h = h.0
  IsProper-other (left_of red v r) ps h = h.0
  IsProper-other (right_of black l v) ps h = h.0
  IsProper-other (right_of red l v) ps h = h.0

  -- Below a red parent stands a black grandparent.
  IsPath-red :
      (p : Frame A) (ps : List (Frame A))
      → frame_color p ≡ red
      → IsPath (p ∷ ps)
      → (is_red (other p) ≡ false) × (top_black ps ≡ true) × IsPath ps
  IsPath-red (left_of red v r) ps e (a, b, c, d) = (b, c, d)
  IsPath-red (right_of red l v) ps e (a, b, c, d) = (b, c, d)
  IsPath-red (left_of black v r) ps e h = cc
  IsPath-red (right_of black l v) ps e h = cc

  top_black-frame_color :
      (p : Frame A) (ps : List (Frame A)) → frame_color p ≡ black → top_black (p ∷ ps) ≡ true
  top_black-frame_color (left_of black v r) ps e = refl
  top_black-frame_color (right_of black l v) ps e = refl
  top_black-frame_color (left_of red v r) ps e = cc
  top_black-frame_color (right_of red l v) ps e = cc

  join-IsProper :
      (p : Frame A) (n : Tree A) → IsProper (other p) → IsProper n → IsProper (join black p n)
  join-IsProper (left_of c v r) n h k = (k, h)
  join-IsProper (right_of c l v) n h k = (h, k)

  join_black : (p : Frame A) (n : Tree A) → is_red (join black p n) ≡ false
  join_black (left_of c v r) n = refl
  join_black (right_of c l v) n = refl

  rotate_left_side_black :
      (p : Frame A) (l r : Tree A) (v gv : A) (u : Tree A)
      → is_red (rotate_left_side p (node red l v r) black gv u) ≡ false
  unfolding rotate_left_side
  rotate_left_side_black (left_of c pv pr) l r v gv u = refl
  rotate_left_side_black (right_of c pl pv) l r v gv u = refl

  rotate_right_side_black :
      (p : Frame A) (l r : Tree A) (v gv : A) (u : Tree A)
      → is_red (rotate_right_side p (node red l v r) black gv u) ≡ false
  unfolding rotate_right_side
  rotate_right_side_black (left_of c pv pr) l r v gv u = refl
  rotate_right_side_black (right_of c pl pv) l r v gv u = refl

  -- The loop stops below a black parent.
  black_parent :
      (q : Frame A) (ps : List (Frame A)) (n : Tree A)
      → frame_color q ≡ black
      → IsPath (q ∷ ps)
      → IsProper n
      → Fixed (q ∷ ps) n
  unfolding insert_fix
  black_parent q [] n b p h = (
    plug (q ∷ []) n,
    rw (b, insert_fix),
    plug-IsRooted (q ∷ []) n p h (inr (top_black-frame_color q [] b)),
  )
  black_parent q (left_of c v r ∷ ps) n b p h = (
    plug (q ∷ left_of c v r ∷ ps) n,
    rw (b, insert_fix),
    plug-IsRooted (q ∷ left_of c v r ∷ ps) n p h
        (inr (top_black-frame_color q (left_of c v r ∷ ps) b)),
  )
  black_parent q (right_of c l v ∷ ps) n b p h = (
    plug (q ∷ right_of c l v ∷ ps) n,
    rw (b, insert_fix),
    plug-IsRooted (q ∷ right_of c l v ∷ ps) n p h
        (inr (top_black-frame_color q (right_of c l v ∷ ps) b)),
  )

  -- The grandparent and its children once parent and uncle are painted black.
  flipped :
      (q : Frame A) (n u : Tree A)
      → IsProper (other q)
      → IsProper n
      → IsProper u
      → (IsProper (join black q n)) × (is_red (join black q n) ≡ false) × IsRooted (blacken u)
  flipped q n u hq h hu = (join-IsProper q n hq h, join_black q n, blacken-IsRooted u hu)

  -- On a proper path, the loop of `RbTree_insert__` from a red node with proper subtrees ends with a
  -- tree: no null grandparent is followed, no red node has a red child, and the root is black.
  pub insert_fix-IsRooted :
      (ps : List (Frame A)) (l : Tree A) (v : A) (r : Tree A)
      → IsPath ps
      → IsProper (node red l v r)
      → Fixed ps (node red l v r)
  unfolding insert_fix
  insert_fix-IsRooted [] l v r p h =
      (blacken (node red l v r), refl, blacken-IsRooted (node red l v r) h)
  insert_fix-IsRooted (q ∷ []) l v r p h = elim (Color-cases (frame_color q)) [
    | inl b ↦ black_parent q [] (node red l v r) b p h
    | inr d ↦ let (qb, top, pg) = IsPath-red q [] d p in absurd (cc top)
  ]
  insert_fix-IsRooted (q ∷ left_of red gv u ∷ ps) l v r p h = elim (Color-cases (frame_color q)) [
    | inl b ↦ black_parent q (left_of red gv u ∷ ps) (node red l v r) b p h
    | inr d ↦ let (qb, top, pg) = IsPath-red q (left_of red gv u ∷ ps) d p in absurd (cc top)
  ]
  insert_fix-IsRooted (q ∷ right_of red u gv ∷ ps) l v r p h = elim (Color-cases (frame_color q)) [
    | inl b ↦ black_parent q (right_of red u gv ∷ ps) (node red l v r) b p h
    | inr d ↦ let (qb, top, pg) = IsPath-red q (right_of red u gv ∷ ps) d p in absurd (cc top)
  ]
  insert_fix-IsRooted (q ∷ left_of black gv u ∷ ps) l v r p h = elim (Color-cases (frame_color q)) [
    | inl b ↦ black_parent q (left_of black gv u ∷ ps) (node red l v r) b p h
    | inr d ↦
        let (qb, top, (pu, pg)) = IsPath-red q (left_of black gv u ∷ ps) d p in
        let po = IsProper-other q (left_of black gv u ∷ ps) p in
        elim (Bool-cases (is_red u)) [
          | inl y ↦
              let (a, b, (k, m)) = flipped q (node red l v r) u po h pu in
              let (t, e, w) =
                insert_fix-IsRooted ps (join black q (node red l v r)) gv (blacken u) pg
                  (b, m, a, k) in
              (t, rw (d, y, insert_fix) e, w)
          | inr z ↦ (
            plug ps (rotate_left_side q (node red l v r) black gv u),
            rw (d, z, insert_fix),
            plug-IsRooted ps (rotate_left_side q (node red l v r) black gv u) pg
                (rotate_left_side-IsProper q l r v gv u h po qb pu z)
                (inl (rotate_left_side_black q l r v gv u)),
          )
        ]
  ]
  insert_fix-IsRooted (q ∷ right_of black u gv ∷ ps) l v r p h =
      elim (Color-cases (frame_color q)) [
        | inl b ↦ black_parent q (right_of black u gv ∷ ps) (node red l v r) b p h
        | inr d ↦
            let (qb, top, (pu, pg)) = IsPath-red q (right_of black u gv ∷ ps) d p in
            let po = IsProper-other q (right_of black u gv ∷ ps) p in
            elim (Bool-cases (is_red u)) [
              | inl y ↦
                  let (a, b, (k, m)) = flipped q (node red l v r) u po h pu in
                  let (t, e, w) =
                    insert_fix-IsRooted ps (blacken u) gv (join black q (node red l v r)) pg
                      (m, b, k, a) in
                  (t, rw (d, y, insert_fix) e, w)
              | inr z ↦ (
                plug ps (rotate_right_side q (node red l v r) black gv u),
                rw (d, z, insert_fix),
                plug-IsRooted ps (rotate_right_side q (node red l v r) black gv u) pg
                    (rotate_right_side-IsProper q l r v gv u h po qb pu z)
                    (inl (rotate_right_side_black q l r v gv u)),
              )
            ]
      ]
