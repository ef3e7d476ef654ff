-- ===== src/Tree/Flat.antt =====
-- The order of the values in the red-black tree (src/tree.c): rebalancing keeps it.
use cyntatic.Prelude.{
  ◌≡◌, ◌≢◌, refl, ap, sym, ◌∙◌, ◌⊎◌, inl, inr, some, List, [], ◌∷◌, of_some_eq, Bool-cases,
}
use cyntatic.Tree.{
  Color, red, black, Tree, leaf, node, Frame, left_of, right_of, plug, blacken, is_red,
  rotate_left_side, rotate_right_side, frame_color, join, insert_fix,
}

pub Color-cases : (c : Color) → (c ≡ black) ⊎ (c ≡ red)
Color-cases black = inl refl
Color-cases red = inr refl

module _ {ℓ} {A : Type ℓ} where
  -- The values of a tree from left to right, and then those of a list.
  unfoldable pub flat : Tree A → List A → List A
  flat leaf acc = acc
  flat (node c l v r) acc = flat l (v ∷ flat r acc)

  flat-blacken : (t : Tree A) (acc : List A) → flat (blacken t) acc ≡ flat t acc
  unfolding flat blacken
  flat-blacken leaf acc = refl
  flat-blacken (node c l v r) acc = refl

  -- The order of a whole tree depends on a subtree only by the subtree's order.
  flat-plug :
      (ps : List (Frame A)) (t t' : Tree A)
      → ((acc : List A) → flat t acc ≡ flat t' acc)
      → (acc : List A) → flat (plug ps t) acc ≡ flat (plug ps t') acc
  unfolding plug flat
  flat-plug [] t t' h acc = h acc
  flat-plug (left_of c v r ∷ ps) t t' h acc =
      flat-plug ps (node c t v r) (node c t' v r) (λ k. h (v ∷ flat r k)) acc
  flat-plug (right_of c l v ∷ ps) t t' h acc =
      flat-plug ps (node c l v t) (node c l v t') (λ k. ap (λ x. flat l (v ∷ x)) (h k)) acc

  flat-join :
      (c c' : Color) (p : Frame A) (n : Tree A) (acc : List A)
      → flat (join c p n) acc ≡ flat (join c' p n) acc
  unfolding flat
  flat-join c c' (left_of pc v r) n acc = refl
  flat-join c c' (right_of pc l v) n acc = refl

  pub plug-join :
      (p : Frame A) (ps : List (Frame A)) (n : Tree A)
      → plug (p ∷ ps) n ≡ plug ps (join (frame_color p) p n)
  unfolding plug
  plug-join (left_of c v r) ps n = refl
  plug-join (right_of c l v) ps n = refl

  flat-rotate_left_side :
      (p : Frame A) (n : Tree A) (gc : Color) (gv : A) (u : Tree A)
      → n ≢ leaf
      → (acc : List A)
      → flat (rotate_left_side p n gc gv u) acc ≡ flat (node gc (join (frame_color p) p n) gv u) acc
  unfolding rotate_left_side flat
  flat-rotate_left_side (left_of pc pv pr) n gc gv u h acc =
      ap (λ k. flat n (pv ∷ k)) (flat-blacken pr (gv ∷ flat u acc))
  flat-rotate_left_side (right_of pc pl pv) leaf gc gv u h acc = absurd (h refl)
  flat-rotate_left_side (right_of pc pl pv) (node c l v r) gc gv u h acc =
      let k = gv ∷ flat u acc in
      ap (λ k. flat pl (pv ∷ k))
        (flat-blacken l (v ∷ flat (blacken r) k) ∙ ap (λ k. flat l (v ∷ k)) (flat-blacken r k))

  flat-rotate_right_side :
      (p : Frame A) (n : Tree A) (gc : Color) (gv : A) (u : Tree A)
      → n ≢ leaf
      → (acc : List A)
      → flat (rotate_right_side p n gc gv u) acc
        ≡ flat (node gc u gv (join (frame_color p) p n)) acc
  unfolding rotate_right_side flat
  flat-rotate_right_side (right_of pc pl pv) n gc gv u h acc =
      ap (λ k. flat u (gv ∷ k)) (flat-blacken pl (pv ∷ flat n acc))
  flat-rotate_right_side (left_of pc pv pr) leaf gc gv u h acc = absurd (h refl)
  flat-rotate_right_side (left_of pc pv pr) (node c l v r) gc gv u h acc =
      let k = pv ∷ flat pr acc in
      ap (λ k. flat u (gv ∷ k))
        (flat-blacken l (v ∷ flat (blacken r) k) ∙ ap (λ k. flat l (v ∷ k)) (flat-blacken r k))

  recolored :
      (p : Frame A) (n : Tree A) (gv : A) (u : Tree A) (k : List A)
      → flat (join black p n) (gv ∷ flat (blacken u) k)
        ≡ flat (join (frame_color p) p n) (gv ∷ flat u k)
  recolored p n gv u k =
      flat-join black (frame_color p) p n (gv ∷ flat (blacken u) k)
      ∙ ap (λ x. flat (join (frame_color p) p n) (gv ∷ x)) (flat-blacken u k)

  recolored_right :
      (p : Frame A) (n : Tree A) (gv : A) (u : Tree A) (k : List A)
      → flat (blacken u) (gv ∷ flat (join black p n) k)
        ≡ flat u (gv ∷ flat (join (frame_color p) p n) k)
  recolored_right p n gv u k =
      flat-blacken u (gv ∷ flat (join black p n) k)
      ∙ ap (λ x. flat u (gv ∷ x)) (flat-join black (frame_color p) p n k)

  -- Rebalancing after an insertion, wherever it ends, keeps the values and their order.
  pub flat-insert_fix :
      (ps : List (Frame A)) (n : Tree A) {t : Tree A}
      → n ≢ leaf
      → insert_fix ps n ≡ some t
      → (acc : List A) → flat t acc ≡ flat (plug ps n) acc
  unfolding insert_fix plug flat
  flat-insert_fix [] n {t} h e acc =
      of_some_eq (λ t. flat t acc ≡ flat (plug [] n) acc) e (flat-blacken n acc)
  flat-insert_fix (p ∷ []) n {t} h e acc = elim (Color-cases (frame_color p)) [
    | inl b ↦
        let e' : some (plug (p ∷ []) n) ≡ some t = rw (b, insert_fix) at e in
        of_some_eq (λ t. flat t acc ≡ flat (plug (p ∷ []) n) acc) e' refl
    | inr r ↦ absurd (cc (rw (r, insert_fix) at e))
  ]
  flat-insert_fix (p ∷ left_of gc gv u ∷ ps) n {t} h e acc =
      let whole : flat (plug (p ∷ left_of gc gv u ∷ ps) n) acc
          ≡ flat (plug ps (node gc (join (frame_color p) p n) gv u)) acc =
        ap (λ t. flat t acc)
          (plug-join p (left_of gc gv u ∷ ps) n
            ∙ plug-join (left_of gc gv u) ps (join (frame_color p) p n)) in
      elim (Color-cases (frame_color p)) [
        | inl b ↦
            let e' : some (plug (p ∷ left_of gc gv u ∷ ps) n) ≡ some t = rw (b, insert_fix) at e in
            of_some_eq (λ t. flat t acc ≡ flat (plug (p ∷ left_of gc gv u ∷ ps) n) acc) e' refl
        | inr r ↦ elim (Bool-cases (is_red u)) [
          | inl y ↦
              flat-insert_fix ps (node red (join black p n) gv (blacken u)) (λ q. cc)
                (rw (r, y, insert_fix) at e) acc
              ∙ flat-plug ps (node red (join black p n) gv (blacken u))
                  (node gc (join (frame_color p) p n) gv u) (λ k. recolored p n gv u k) acc
              ∙ sym whole
          | inr z ↦
              let e' : some (plug ps (rotate_left_side p n gc gv u)) ≡ some t =
                rw (r, z, insert_fix) at e in
              of_some_eq (λ t. flat t acc ≡ flat (plug (p ∷ left_of gc gv u ∷ ps) n) acc) e'
                (flat-plug ps (rotate_left_side p n gc gv u)
                    (node gc (join (frame_color p) p n) gv u) (flat-rotate_left_side p n gc gv u h)
                    acc
                  ∙ sym whole)
        ]
      ]
  flat-insert_fix (p ∷ right_of gc u gv ∷ ps) n {t} h e acc =
      let whole : flat (plug (p ∷ right_of gc u gv ∷ ps) n) acc
          ≡ flat (plug ps (node gc u gv (join (frame_color p) p n))) acc =
        ap (λ t. flat t acc)
          (plug-join p (right_of gc u gv ∷ ps) n
            ∙ plug-join (right_of gc u gv) ps (join (frame_color p) p n)) in
      elim (Color-cases (frame_color p)) [
        | inl b ↦
            let e' : some (plug (p ∷ right_of gc u gv ∷ ps) n) ≡ some t = rw (b, insert_fix) at e in
            of_some_eq (λ t. flat t acc ≡ flat (plug (p ∷ right_of gc u gv ∷ ps) n) acc) e' refl
        | inr r ↦ elim (Bool-cases (is_red u)) [
          | inl y ↦
              flat-insert_fix ps (node red (blacken u) gv (join black p n)) (λ q. cc)
                (rw (r, y, insert_fix) at e) acc
              ∙ flat-plug ps (node red (blacken u) gv (join black p n))
                  (node gc u gv (join (frame_color p) p n)) (λ k. recolored_right p n gv u k) acc
              ∙ sym whole
          | inr z ↦
              let e' : some (plug ps (rotate_right_side p n gc gv u)) ≡ some t =
                rw (r, z, insert_fix) at e in
              of_some_eq (λ t. flat t acc ≡ flat (plug (p ∷ right_of gc u gv ∷ ps) n) acc) e'
                (flat-plug ps (rotate_right_side p n gc gv u)
                    (node gc u gv (join (frame_color p) p n)) (flat-rotate_right_side p n gc gv u h)
                    acc
                  ∙ sym whole)
        ]
      ]
