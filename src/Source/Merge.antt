-- ===== src/Source/Merge.antt =====
-- Merging and extending ranges (src/compiler/common/source.c).
use cyntatic.Prelude.{◌≤◌, ◌≡◌, sym, ◌∙◌, inl, inr, some, arith, Bool-cases, if_true, if_false}
use cyntatic.Source.{Range, merge, merge_with, extend, extend_with, extends}

-- `Range_merge` of two ranges that end behind their start gives what `Range_mergeWith` makes of the
-- first, the position included, also where the sources differ and both fail.
pub merge-merge_with :
    (r s : Range) → r.start ≤ r.end → s.start ≤ s.end → merge r s ≡ merge_with r s
unfolding merge merge_with
merge-merge_with r s h k = ground arith

-- `Range_extend` gives what `Range_extendWith` makes of the first range, for a range that ends behind
-- its start; both fail where an assertion of theirs fails.
pub extend-extend_with : (r s : Range) → r.start ≤ r.end → extend r s ≡ extend_with r s
unfolding extend extend_with
extend-extend_with r s h = ground arith

-- Where `Range_extend` succeeds, `Range_merge` gives the same range.
pub merge-extend : (r s : Range) {t : Range} → extend r s ≡ some t → merge r s ≡ some t
unfolding merge extend
merge-extend r s {t} e = elim (Bool-cases (extends r s)) [
  | inr fails ↦ absurd (cc (sym (if_false _ fails) ∙ e))
  | inl holds ↦ (ground arith) ∙ sym (if_true _ holds) ∙ e
]
