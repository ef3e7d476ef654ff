-- ===== src/Tree/Text.antt =====
-- `RbTree_strncmp` (src/tree.c). The first string is the characters at `s1`; the second is those before
-- its terminating zero. The result is the sign of the code's; a plain `char` is signed, as on the
-- machines the project builds for. `none` where the code reads beyond `s1`.
use cyntatic.Prelude.{
  ℕ, zero, suc, ◌+◌, ◌%◌, ◌<◌, ◌≡◌, refl, inl, inr, Option, some, none, List, [], ◌∷◌, arith,
  length, All,
}
use Prim.Native.Nat.{compare, Ordering}
use cyntatic.Tree.Search.{Ordering-cases}

-- `*s1 - *s2`.
abbrev pub char_order : ℕ → ℕ → Ordering
char_order a b = compare ((a + 128) % 256) ((b + 128) % 256)

unfoldable pub strncmp : List ℕ → ℕ → List ℕ → Option Ordering
strncmp s1 zero [] = some Ordering.eq
strncmp s1 (suc n) [] = some Ordering.gt
strncmp s1 zero (b ∷ s2) = some Ordering.lt
strncmp [] (suc n) (b ∷ s2) = none
strncmp (a ∷ s1) (suc n) (b ∷ s2) = elim (char_order a b) [
  | Ordering.eq ↦ strncmp s1 n s2
  | Ordering.lt ↦ some Ordering.lt
  | Ordering.gt ↦ some Ordering.gt
]

strncmp_refl : (s : List ℕ) → strncmp s (length s) s ≡ some Ordering.eq
unfolding strncmp
strncmp_refl [] = refl
strncmp_refl (a ∷ s) =
    let e : char_order a a ≡ Ordering.eq = ground arith in rw (e, strncmp) (strncmp_refl s)

strncmp_eq :
    (s1 s2 : List ℕ)
    → All (λ c. c < 256) s1
    → All (λ c. c < 256) s2
    → strncmp s1 (length s1) s2 ≡ some Ordering.eq
    → s1 ≡ s2
unfolding strncmp
strncmp_eq [] [] h k e = refl
strncmp_eq (a ∷ s1) [] h k e = cc
strncmp_eq [] (b ∷ s2) h k e = cc
strncmp_eq (a ∷ s1) (b ∷ s2) (ha, h) (kb, k) e = elim (Ordering-cases (char_order a b)) [
  | inl o ↦ absurd (cc (rw (o, strncmp) at e))
  | inr (inl o) ↦ absurd (cc (rw (o, strncmp) at e))
  | inr (inr o) ↦
      let rest : s1 ≡ s2 = strncmp_eq s1 s2 h k (rw (o, strncmp) at e) in
      let first : a ≡ b = ground arith in cc
]

-- On strings of bytes, with the length of the first given, the comparison finds two strings equal just
-- where they are the same.
pub strncmp-same :
    (s1 s2 : List ℕ)
    → All (λ c. c < 256) s1
    → All (λ c. c < 256) s2
    → (strncmp s1 (length s1) s2 ≡ some Ordering.eq → s1 ≡ s2)
      × (s1 ≡ s2 → strncmp s1 (length s1) s2 ≡ some Ordering.eq)
strncmp-same s1 s2 h k = (strncmp_eq s1 s2 h k, λ e. rw e (strncmp_refl s2))
